-- ===== src/RocmSmi/Examples.antt =====
-- The theorems on patches/rocm_smi/linux-rocm-smi.c at a concrete session.
use scorep_amd.Common.{
  ℕ, ◌<◌, ◌≡◌, refl, true, false, some, [], ◌∷◌, arith, replicate, get_or-replicate,
}
use mathlib.Core.Option.{some-injective}
use mathlib.Core.Path.{subst}
use scorep_amd.Common.Run.{fault, ◌>>=◌, Returns, double_free}
use scorep_amd.Rocs.Masks.{mask_or, mask_and, is_nonzero, bit, no_devices}
use scorep_amd.Rocs.Devices.{AreEvents, uses, acquire_devices}
use scorep_amd.Rocs.Contexts.Loops.{KeepsDevice, Works}
use scorep_amd.Rocs.Contexts.{null, freed, CtxMemory, is_ok, rocs_ctx_open}
use scorep_amd.Rocs.{papi_ok, papi_emisc, mode_read, NtvEvent, Functions, Rocs, ntv_event, call}
use scorep_amd.RocmSmi.{Session, rocm_smi_start, rocm_smi_stop}
use scorep_amd.RocmSmi.Sessions.{Restored, rocm_smi_start-Restored}
use scorep_amd.RocmSmi.Reopening.{rocm_smi_start-twice}

-- One event, on the device 3.
abbrev event : NtvEvent
event = record {
  id = 0;
  device = some 3;
  variant = 0;
  subvariant = 0;
  value = 0;
  offset = 0;
  mode = mode_read;
  scratch = 0;
}

abbrev rocs_state : Rocs Unit
rocs_state = record {
  events = event ∷ [];
  device_mask = replicate 32 false;
  devices = tt;
  calls = [];
}

abbrev session : Session Unit
session = record {
  initialized = true;
  opened = false;
  running = false;
  events_id = 0 ∷ [];
  rocs_ctx = null;
  rocs = rocs_state;
}

-- Nothing fails.
abbrev working : Functions Unit
working f ev u = (papi_ok, ev, u)

working-KeepsDevice : KeepsDevice working
unfolding KeepsDevice
working-KeepsDevice f ev u = refl

working-Works : Works working
unfolding Works is_ok
working-Works f ev u = refl

on_small : (d : ℕ) → some 3 ≡ some d → d < 32
on_small d at = subst (λ x. x < 32) (some-injective 3 d at) (omega arith)

session-AreEvents : AreEvents rocs_state.events session.events_id
unfolding ntv_event
session-AreEvents = ((event, refl, on_small), tt)

abbrev memory : CtxMemory
memory = record { ctx = true; counters = true }

rocm_smi_start-Restored_example :
    Returns
      (do first ← rocm_smi_start memory working session; rocm_smi_stop working first.1)
      (Restored session)
rocm_smi_start-Restored_example =
    rocm_smi_start-Restored memory working session working-KeepsDevice working-Works
      session-AreEvents refl refl (λ d u. get_or-replicate 32 d false) refl

-- No event can be opened.
abbrev failing : Functions Unit
failing f ev u = (papi_emisc, ev, u)

failing-KeepsDevice : KeepsDevice failing
unfolding KeepsDevice
failing-KeepsDevice f ev u = refl

rocm_smi_start-twice_example :
    (do first ← rocm_smi_start memory failing session; rocm_smi_start memory failing first.1)
    ≡ fault double_free
unfolding rocs_ctx_open acquire_devices mask_or mask_and is_nonzero bit no_devices call is_ok uses
rocm_smi_start-twice_example =
    rocm_smi_start-twice memory memory failing failing session 3 (papi_emisc, freed, _)
      failing-KeepsDevice session-AreEvents refl refl (λ d u. get_or-replicate 32 d false) refl refl
      refl refl
