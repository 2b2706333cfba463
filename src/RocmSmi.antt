-- ===== src/RocmSmi.antt =====
-- The PAPI component rocm_smi (patches/rocm_smi/linux-rocm-smi.c): what a thread does with the
-- contexts of rocs.c.
pub mod Sessions
pub mod Reopening
mod Examples
use scorep_amd.Common.{ℕ, ◌+◌, Bool, true, false, Option, none, some, List, [], ◌∷◌, if◌then◌else◌}
use scorep_amd.Common.Run.{Run, ok, fault, ◌>>=◌, null_dereference, use_after_free}
use scorep_amd.Rocs.{PapiErrno, papi_ok, papi_emisc, papi_enomem, Functions, Rocs}
use scorep_amd.Rocs.Contexts.{
  Ctx, Pointer, null, freed, live, CtxMemory, is_ok, rocs_ctx_open, rocs_ctx_close, rocs_ctx_start,
  rocs_ctx_stop, rocs_ctx_read, rocs_ctx_write, rocs_ctx_reset,
}

-- `rocmsmi_context_t` of a thread (the bits of `state` are two fields), `rocmsmi_control_t` of its
-- event set (`num_events` is the length of `events_id`), and the state that all threads share.
pub record Session (σ : Type 0) : Type 0 where
  pub initialized : Bool
  pub opened : Bool
  pub running : Bool
  pub events_id : List ℕ
  pub rocs_ctx : Pointer
  pub rocs : Rocs σ

-- The functions of rocs.c read through the pointer that they are given.
deref : Pointer → Run Ctx
deref null = fault null_dereference
deref freed = fault use_after_free
deref (live ctx) = ok ctx

is_null : Pointer → Bool
is_null null = true
is_null p = false

-- The numbers of the elements of `ntv_info`, from `i` on.
positions_from : ℕ → List ℕ → List ℕ
positions_from i [] = []
positions_from i (code ∷ codes) = i ∷ positions_from (i + 1) codes

module _ {σ : Type 0} where
  rocm_smi_init_thread : Session σ → PapiErrno × Session σ
  rocm_smi_init_thread t =
      (papi_ok, record t { initialized = true; opened = false; running = false })

  rocm_smi_shutdown_thread : Session σ → PapiErrno × Session σ
  rocm_smi_shutdown_thread t =
      (papi_ok, record t { initialized = false; opened = false; running = false })

  -- `update_native_events`: `codes` are the `ni_event` of the elements of `ntv_info` and `positions`
  -- their `ni_position`; `memory` says whether `papi_calloc` succeeds.
  update_native_events : Bool → List ℕ → List ℕ → Session σ → PapiErrno × List ℕ × Session σ
  unfolding positions_from
  update_native_events memory codes positions t =
      if memory
      then (papi_ok, positions_from 0 codes, record t { events_id = codes })
      else (papi_enomem, positions, record t { events_id = [] })

  -- `initialized` is what `_rocm_smi_check_n_initialize` returns.
  pub rocm_smi_update_control_state :
      PapiErrno → Bool → List ℕ → List ℕ → Session σ → PapiErrno × List ℕ × Session σ
  unfolding is_ok update_native_events
  rocm_smi_update_control_state checked memory codes positions t =
      if is_ok checked
      then (if t.running
          then (papi_emisc, positions, t)
          else update_native_events memory codes positions t)
      else (checked, positions, t)

  -- The error path of `_rocm_smi_start`: the pointer is not cleared.
  after_start_failure : PapiErrno → Session σ → PapiErrno × Pointer × Rocs σ → PapiErrno × Session σ
  after_start_failure e t (e', ptr, s) =
      (e, record t { opened = false; running = false; rocs_ctx = ptr; rocs = s })

  start_outcome : Functions σ → Session σ → PapiErrno × Ctx × Rocs σ → Run (PapiErrno × Session σ)
  unfolding is_ok after_start_failure
  start_outcome lib t (e, ctx, s) =
      if is_ok e
      then ok (papi_ok, record t { opened = true; running = true; rocs_ctx = live ctx; rocs = s })
      else (do r ← rocs_ctx_close lib ctx s; ok (after_start_failure e t r))

  open_outcome :
      Functions σ → Session σ → PapiErrno × Pointer × Rocs σ → Run (PapiErrno × Session σ)
  unfolding is_ok deref start_outcome
  open_outcome lib t (e, ptr, s) =
      if is_ok e
      then (do ctx ← deref ptr; r ← rocs_ctx_start lib ctx s; start_outcome lib t r)
      else ok (e, record t { rocs_ctx = ptr; rocs = s })

  pub rocm_smi_start : CtxMemory → Functions σ → Session σ → Run (PapiErrno × Session σ)
  unfolding open_outcome
  rocm_smi_start mem lib t =
      if t.opened
      then ok (papi_emisc, t)
      else (do r ← rocs_ctx_open mem lib t.events_id t.rocs_ctx t.rocs; open_outcome lib t r)

  stop_closed : Session σ → PapiErrno × Pointer × Rocs σ → PapiErrno × Session σ
  stop_closed t (e, ptr, s) =
      (e, record t { opened = false; running = false; rocs_ctx = null; rocs = s })

  stop_outcome : Functions σ → Session σ → PapiErrno × Ctx × Rocs σ → Run (PapiErrno × Session σ)
  unfolding is_ok stop_closed
  stop_outcome lib t (e, ctx, s) =
      if is_ok e
      then (do r ← rocs_ctx_close lib ctx s; ok (stop_closed t r))
      else ok (e, record t { rocs_ctx = live ctx; rocs = s })

  pub rocm_smi_stop : Functions σ → Session σ → Run (PapiErrno × Session σ)
  unfolding deref stop_outcome
  rocm_smi_stop lib t =
      if t.running
      then (do ctx ← deref t.rocs_ctx; r ← rocs_ctx_stop lib ctx t.rocs; stop_outcome lib t r)
      else ok (papi_emisc, t)

  -- `*values` stands last, where the call writes it.
  pub rocm_smi_read : Functions σ → Session σ → Run (PapiErrno × Session σ × Option (List ℕ))
  unfolding deref
  rocm_smi_read lib t =
      if t.running
      then (do
        ctx ← deref t.rocs_ctx
        r ← rocs_ctx_read lib ctx t.rocs
        ok (r.0, record t { rocs_ctx = live r.1; rocs = r.2 }, r.3))
      else ok (papi_emisc, t, none)

  pub rocm_smi_write : Functions σ → List ℕ → Session σ → Run (PapiErrno × Session σ)
  unfolding deref
  rocm_smi_write lib values t =
      if t.running
      then (do
        ctx ← deref t.rocs_ctx
        r ← rocs_ctx_write lib ctx values t.rocs
        ok (r.0, record t { rocs = r.1 }))
      else ok (papi_emisc, t)

  pub rocm_smi_reset : Session σ → Run (PapiErrno × Session σ)
  unfolding deref
  rocm_smi_reset t =
      if t.running
      then (do
        ctx ← deref t.rocs_ctx
        r ← rocs_ctx_reset ctx t.rocs
        ok (r.0, record t { rocs_ctx = live r.1; rocs = r.2 }))
      else ok (papi_emisc, t)

  pub rocm_smi_cleanup_eventset : Session σ → PapiErrno × Session σ
  unfolding is_null
  rocm_smi_cleanup_eventset t =
      if is_null t.rocs_ctx then (papi_ok, record t { events_id = [] }) else (papi_emisc, t)
