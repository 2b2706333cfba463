-- ===== src/Rocs.antt =====
-- Devices, events and contexts of the rocm_smi component (patches/rocm_smi/rocs.c).
pub mod Masks
pub mod Devices
pub mod Contexts
pub mod Library
pub mod Access
pub mod Events
mod Examples
use scorep_amd.Common.{
  ℕ, zero, suc, ◌+◌, ◌^◌, ◌%◌, Bool, true, false, Option, none, some, List, [], ◌∷◌, ◌++◌,
  get_elem?, set,
}
pub use scorep_amd.Common.Papi.{
  PapiErrno, papi_ok, papi_einval, papi_enomem, papi_ecmp, papi_ecnflct, papi_emisc, papi_enosupp,
  papi_enoevnt, papi_end,
}
use scorep_amd.Common.Run.{Run, ok, fault, ◌>>=◌, out_of_bounds}

-- `rocs_access_mode_e`
pub data AccessMode : Type 0 where
  mode_read mode_write mode_rdwr : AccessMode

-- `ntv_event_t`, without the texts; `scratch` is the handle that XGMI events keep there, `device` is `none` where it is negative, and the 64-bit fields
-- are kept as bit patterns. The function pointers are `Functions` below.
pub record NtvEvent : Type 0 where
  pub id : ℕ
  pub device : Option ℕ
  pub variant : ℕ
  pub subvariant : ℕ
  pub value : ℕ
  pub offset : ℕ
  pub mode : AccessMode
  pub scratch : ℕ

-- The function pointers of an event; `access_func_p` is called in one of two modes.
pub data Function : Type 0 where
  open_func close_func start_func stop_func read_func write_func : Function

-- What a function pointer does: it reads and writes its event and the devices behind the library.
abbrev pub Functions : Type 0 → Type 0
Functions σ = Function → NtvEvent → σ → PapiErrno × NtvEvent × σ

-- `int32_t device_mask`: one bit for each of 32 devices, the lowest first.
abbrev pub Mask : Type 0
Mask = List Bool

-- The globals that contexts share, the state behind the library, and the calls made so far.
pub record Rocs (σ : Type 0) : Type 0 where
  pub events : List NtvEvent
  pub device_mask : Mask
  pub devices : σ
  pub calls : List (Function × ℕ)

-- `&ntv_table_p->events[id]`
unfoldable pub ntv_event : List NtvEvent → ℕ → Run NtvEvent
ntv_event [] id = fault out_of_bounds
ntv_event (ev ∷ events) zero = ok ev
ntv_event (ev ∷ events) (suc id) = ntv_event events id

module _ {σ : Type 0} where
  after_call : Function → ℕ → Rocs σ → PapiErrno × NtvEvent × σ → PapiErrno × Rocs σ
  after_call f id s (e, ev, devices) = (
    e,
    record s { events = set s.events id ev; devices = devices; calls = s.calls ++ (f, id) ∷ [] },
  )

  -- A call of an event's function pointer.
  unfoldable pub call : Functions σ → Function → ℕ → Rocs σ → Run (PapiErrno × Rocs σ)
  unfolding ntv_event after_call
  call lib f id s = do ev ← ntv_event s.events id; ok (after_call f id s (lib f ev s.devices))
