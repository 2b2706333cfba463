-- ===== src/Rocs/Contexts.antt =====
-- Contexts (rocs_ctx_open, close, start, stop, read, write and reset of patches/rocm_smi/rocs.c).
pub mod Loops
pub mod Failures
pub mod Opening
pub mod Closing
pub mod Stopping
pub mod Exclusive
pub mod Values
use scorep_amd.Common.{
  ℕ, zero, suc, ◌+◌, ◌^◌, ◌%◌, Bool, true, false, Option, none, some, List, [], ◌∷◌, ◌++◌,
  if◌then◌else◌, length, set, take, replicate, get_elem?,
}
use mathlib.Core.Path.{◌≡◌, refl}
use scorep_amd.Common.Run.{Run, ok, fault, ◌>>=◌, out_of_bounds, double_free}
use scorep_amd.Rocs.Devices.{acquire_devices, release_devices}
use scorep_amd.Rocs.{
  PapiErrno, papi_ok, papi_enomem, papi_ecmp, papi_ecnflct, NtvEvent, Function, open_func,
  close_func, start_func, stop_func, read_func, write_func, Functions, Mask, Rocs, ntv_event, call,
}

-- `struct rocs_ctx`; the bits ROCS_EVENTS_OPENED and ROCS_EVENTS_RUNNING of `state` are two fields.
pub record Ctx : Type 0 where
  pub opened : Bool
  pub running : Bool
  pub events_id : List ℕ
  pub counters : List ℕ
  pub device_mask : Mask

-- The caller's variable of type `rocs_ctx_t`.
pub data Pointer : Type 0 where
  null freed : Pointer
  live : Ctx → Pointer

-- What the two allocations of `rocs_ctx_open` yield.
pub record CtxMemory : Type 0 where
  pub ctx : Bool
  pub counters : Bool

unfoldable pub is_ok : PapiErrno → Bool
is_ok papi_ok = true
is_ok e = false

module _ {σ : Type 0} where
  -- The loops over `events_id`: the calls go on until one fails. The number of calls that succeeded,
  -- the code's `i`, stands between the result and the state.
  pub call_all : Functions σ → Function → List ℕ → Rocs σ → Run (PapiErrno × ℕ × Rocs σ)
  unfolding is_ok
  call_all lib f [] s = ok (papi_ok, 0, s)
  call_all lib f (id ∷ ids) s = do
    r ← call lib f id s
    rest ← if is_ok r.0 then call_all lib f ids r.1 else ok (r.0, 0, r.1)
    ok (rest.0, if is_ok r.0 then suc rest.1 else 0, rest.2)

  -- The loops of the error paths, which ignore what the calls return.
  pub call_each : Functions σ → Function → List ℕ → Rocs σ → Run (Rocs σ)
  call_each lib f [] s = ok s
  call_each lib f (id ∷ ids) s = do r ← call lib f id s; call_each lib f ids r.1

  -- `if (*rocs_ctx) papi_free(*rocs_ctx)`, after a conflict of devices.
  free_pointer : Rocs σ → Pointer → Run (PapiErrno × Pointer × Rocs σ)
  free_pointer s null = ok (papi_ecnflct, null, s)
  free_pointer s (live ctx) = ok (papi_ecnflct, freed, s)
  free_pointer s freed = fault double_free

  pub open_result :
      Functions σ → List ℕ → Mask → PapiErrno × ℕ × Rocs σ → Run (PapiErrno × Pointer × Rocs σ)
  unfolding call_each is_ok
  open_result lib ids bitmask (e, i, s) =
      if is_ok e
      then ok (
        papi_ok,
        live (record {
          opened = true;
          running = false;
          events_id = ids;
          counters = replicate (length ids) 0;
          device_mask = bitmask;
        }),
        s,
      )
      else (do s' ← call_each lib close_func (take i ids) s; ok (e, freed, s'))

  open_acquired :
      CtxMemory
      → Functions σ
      → List ℕ
      → Pointer
      → PapiErrno × Rocs σ × Option Mask
      → Run (PapiErrno × Pointer × Rocs σ)
  unfolding call_all open_result free_pointer
  open_acquired mem lib ids ptr (papi_ok, s, some bitmask) =
      if mem.ctx
      then (if mem.counters
          then (do r ← call_all lib open_func ids s; open_result lib ids bitmask r)
          else ok (papi_enomem, freed, s))
      else ok (papi_enomem, null, s)
  open_acquired mem lib ids ptr (e, s, bitmask) = free_pointer s ptr

  -- The pointer is the value of `*rocs_ctx`, before and after.
  unfoldable pub rocs_ctx_open :
      CtxMemory → Functions σ → List ℕ → Pointer → Rocs σ → Run (PapiErrno × Pointer × Rocs σ)
  unfolding open_acquired
  rocs_ctx_open mem lib ids ptr s = do
    acq ← acquire_devices ids s
    open_acquired mem lib ids ptr acq

  pub close_result : Ctx → PapiErrno × ℕ × Rocs σ → PapiErrno × Pointer × Rocs σ
  unfolding is_ok
  close_result ctx (e, i, s) =
      if is_ok e then (papi_ok, freed, (release_devices ctx.device_mask s).1) else (e, live ctx, s)

  -- The pointer is what the caller's variable then points to.
  pub rocs_ctx_close : Functions σ → Ctx → Rocs σ → Run (PapiErrno × Pointer × Rocs σ)
  unfolding call_all close_result
  rocs_ctx_close lib ctx s = do r ← call_all lib close_func ctx.events_id s; ok (close_result ctx r)

  -- The error path of `rocs_ctx_start` counts with `j` but takes `events_id[i]`.
  start_result : Functions σ → Ctx → PapiErrno × ℕ × Rocs σ → Run (PapiErrno × Ctx × Rocs σ)
  unfolding call_each is_ok
  start_result lib ctx (e, i, s) =
      if is_ok e
      then ok (papi_ok, record ctx { running = true }, s)
      else (elim (get_elem? ctx.events_id i) [
        | none ↦ fault out_of_bounds
        | some id ↦ (do s' ← call_each lib stop_func (replicate i id) s; ok (e, ctx, s'))
      ])

  pub rocs_ctx_start : Functions σ → Ctx → Rocs σ → Run (PapiErrno × Ctx × Rocs σ)
  unfolding call_all start_result
  rocs_ctx_start lib ctx s =
      if ctx.opened
      then (if ctx.running
          then ok (papi_ecmp, ctx, s)
          else (do r ← call_all lib start_func ctx.events_id s; start_result lib ctx r))
      else ok (papi_ecmp, ctx, s)

  stop_result : Ctx → PapiErrno × ℕ × Rocs σ → PapiErrno × Ctx × Rocs σ
  unfolding is_ok
  stop_result ctx (e, i, s) =
      if is_ok e then (papi_ok, record ctx { running = false }, s) else (e, ctx, s)

  pub rocs_ctx_stop : Functions σ → Ctx → Rocs σ → Run (PapiErrno × Ctx × Rocs σ)
  unfolding call_all stop_result
  rocs_ctx_stop lib ctx s =
      if ctx.opened
      then (if ctx.running
          then (do r ← call_all lib stop_func ctx.events_id s; ok (stop_result ctx r))
          else ok (papi_ecmp, ctx, s))
      else ok (papi_ecmp, ctx, s)

  -- The loop of `rocs_ctx_read` from `i` on.
  read_loop : Functions σ → ℕ → List ℕ → List ℕ → Rocs σ → Run (PapiErrno × List ℕ × Rocs σ)
  unfolding is_ok
  read_loop lib i [] counters s = ok (papi_ok, counters, s)
  read_loop lib i (id ∷ ids) counters s = do
    r ← call lib read_func id s
    ev ← ntv_event r.1.events id
    let rest = read_loop lib (i + 1) ids (set counters i ev.value) r.1
    if is_ok r.0 then rest else ok (r.0, counters, r.1)

  -- `*counts` stands last: it is the array of counters, where the call writes it.
  pub rocs_ctx_read : Functions σ → Ctx → Rocs σ → Run (PapiErrno × Ctx × Rocs σ × Option (List ℕ))
  unfolding read_loop is_ok
  rocs_ctx_read lib ctx s = do
    r ← read_loop lib 0 ctx.events_id ctx.counters s
    ok (r.0, record ctx { counters = r.1 }, r.2, if is_ok r.0 then some r.1 else none)

  set_value : ℕ → ℕ → Rocs σ → Run (Rocs σ)
  set_value id value s = do
    ev ← ntv_event s.events id
    ok (record s { events = set s.events id (record ev { value = value }) })

  -- `counts` from the `i`-th value on.
  write_loop : Functions σ → List ℕ → List ℕ → Rocs σ → Run (PapiErrno × Rocs σ)
  unfolding set_value is_ok
  write_loop lib [] counts s = ok (papi_ok, s)
  write_loop lib (id ∷ ids) [] s = fault out_of_bounds
  write_loop lib (id ∷ ids) (count ∷ counts) s = do
    s' ← set_value id count s
    r ← call lib write_func id s'
    let rest = write_loop lib ids counts r.1
    if is_ok r.0 then rest else ok r

  pub rocs_ctx_write : Functions σ → Ctx → List ℕ → Rocs σ → Run (PapiErrno × Rocs σ)
  unfolding write_loop
  rocs_ctx_write lib ctx counts s = write_loop lib ctx.events_id counts s

  reset_loop : ℕ → List ℕ → List ℕ → Rocs σ → Run (List ℕ × Rocs σ)
  unfolding set_value
  reset_loop i [] counters s = ok (counters, s)
  reset_loop i (id ∷ ids) counters s = do
    s' ← set_value id 0 s
    reset_loop (i + 1) ids (set counters i 0) s'

  pub rocs_ctx_reset : Ctx → Rocs σ → Run (PapiErrno × Ctx × Rocs σ)
  unfolding reset_loop
  rocs_ctx_reset ctx s = do
    r ← reset_loop 0 ctx.events_id ctx.counters s
    ok (papi_ok, record ctx { counters = r.0 }, r.1)

  -- A conflict of devices, with a pointer to a context that was freed.
  pub rocs_ctx_open_freed :
      (mem : CtxMemory) (lib : Functions σ) (ids : List ℕ) (s : Rocs σ)
      → acquire_devices ids s ≡ ok (papi_ecnflct, s, none)
      → rocs_ctx_open mem lib ids freed s ≡ fault double_free
  unfolding rocs_ctx_open open_acquired free_pointer
  rocs_ctx_open_freed mem lib ids s acq = rw (rocs_ctx_open, acq) refl
