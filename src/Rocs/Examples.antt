-- ===== src/Rocs/Examples.antt =====
-- The theorems on devices and contexts of patches/rocm_smi/rocs.c at a concrete table of events.
use scorep_amd.Common.{
  map, ◌++◌, ℕ, ◌/◌, ◌%◌, ◌^◌, ◌≤◌, ◌<◌, ◌≡◌, refl, ◌≢◌, none, Bool, true, false, ◌&&◌, not, some,
  List, [], ◌∷◌, arith, replicate, ◌⊎◌, if◌then◌else◌, ◌==◌, get_or-replicate,
}
use mathlib.Core.Option.{some-injective}
use mathlib.Core.Path.{subst}
use scorep_amd.Common.Run.{Returns}
use scorep_amd.Rocs.Masks.{mask_xor, has}
use scorep_amd.Rocs.Devices.{
  AreEvents, Acquires, Refuses, acquire_devices, acquire_devices-exclusive, release_devices,
  release_devices-has,
}
use scorep_amd.Rocs.Library.{Rsmi}
use scorep_amd.Rocs.Access.{version_value}
use scorep_amd.Rocs.Access.Version.{version_value-parts}
use scorep_amd.Rocs.Access.Table.{dev_id, is_xgmi_evt, event_functions}
use scorep_amd.Rocs.Access.Table.Harmless.{event_functions-harmless}
use scorep_amd.Rocs.Contexts.Loops.{KeepsDevice}
use scorep_amd.Rocs.Contexts.Failures.{
  Started, Opened, rocs_ctx_start-stops_failed, rocs_ctx_open-Opened,
}
use scorep_amd.Rocs.Contexts.Exclusive.{Op, opening, closing, holders, performs, performs-exclusive}
use scorep_amd.Rocs.Contexts.Values.{ReadAs, Have, NotIn, rocs_ctx_read-Have, rocs_ctx_reset-Have}
use scorep_amd.Rocs.Contexts.{
  is_ok, rocs_ctx_read, rocs_ctx_reset, Ctx, null, CtxMemory, rocs_ctx_open, rocs_ctx_start,
}
use scorep_amd.Rocs.{
  papi_ok, papi_emisc, mode_read, NtvEvent, Function, start_func, read_func, Functions, Mask, Rocs,
  ntv_event,
}

abbrev event_on : ℕ → ℕ → NtvEvent
event_on id d = record {
  id = id;
  device = some d;
  variant = 0;
  subvariant = 0;
  value = 0;
  offset = 0;
  mode = mode_read;
  scratch = 0;
}

-- Two events on the devices 0 and 1; nothing is kept of the devices themselves.
abbrev state : Rocs Unit
state = record {
  events = event_on 0 0 ∷ event_on 1 1 ∷ [];
  device_mask = replicate 32 false;
  devices = tt;
  calls = [];
}

abbrev fails : Function → ℕ → Bool
fails start_func id = id == 1
fails f id = false

-- Every function succeeds, but the event 1 cannot be started.
abbrev functions : Functions Unit
functions f ev u = (if fails f ev.id then papi_emisc else papi_ok, ev, u)

functions-KeepsDevice : KeepsDevice functions
unfolding KeepsDevice
functions-KeepsDevice f ev u = refl

on_small : (d e : ℕ) → d < 32 → some d ≡ some e → e < 32
on_small d e h at = subst (λ x. x < 32) (some-injective d e at) h

-- Both events.
abbrev both : List ℕ
both = 0 ∷ 1 ∷ []

both-AreEvents : AreEvents state.events both
unfolding ntv_event
both-AreEvents = (
  (event_on 0 0, refl, λ d at. on_small 0 d (omega arith) at),
  ((event_on 1 1, refl, λ d at. on_small 1 d (omega arith) at), tt),
)

acquire_devices-exclusive_example :
    Returns (acquire_devices both state) (λ r. Acquires state both r ⊎ Refuses state both r)
acquire_devices-exclusive_example = acquire_devices-exclusive both state both-AreEvents

abbrev context : Ctx
context = record {
  opened = true;
  running = false;
  events_id = both;
  counters = 0 ∷ 0 ∷ [];
  device_mask = true ∷ true ∷ replicate 30 false;
}

rocs_ctx_start-stops_failed_example :
    Returns (rocs_ctx_start functions context state) (Started functions context state)
rocs_ctx_start-stops_failed_example =
    rocs_ctx_start-stops_failed functions context state functions-KeepsDevice both-AreEvents refl
      refl

abbrev memory : CtxMemory
memory = record { ctx = true; counters = true }

rocs_ctx_open-Opened_example :
    Returns (rocs_ctx_open memory functions both null state) (Opened functions state both)
rocs_ctx_open-Opened_example =
    rocs_ctx_open-Opened memory functions both null state functions-KeepsDevice both-AreEvents refl
      refl (λ q h. get_or-replicate 32 q false)

-- Two callers want the same devices.
abbrev ops : List Op
ops = opening memory both ∷ opening memory both ∷ closing 0 ∷ []

performs-exclusive_example :
    Returns (performs functions ops (record { contexts = []; state = state })) (λ w.
      (holders 1 w.contexts ≤ 1) × (0 < holders 1 w.contexts → has w.state.device_mask 1 ≡ true))
performs-exclusive_example =
    performs-exclusive functions ops state 1 functions-KeepsDevice
      (both-AreEvents, (both-AreEvents, (tt, tt)))

abbrev one_device : Mask
one_device = false ∷ true ∷ []

abbrev in_use : Rocs Unit
in_use = record state { device_mask = true ∷ true ∷ [] }

release_devices-has_example :
    (((q : ℕ) → has one_device q ≡ true → has in_use.device_mask q ≡ true)
      → (release_devices one_device in_use ≡ (
        papi_ok,
        record in_use { device_mask = mask_xor in_use.device_mask one_device },
        mask_xor one_device one_device,
      ))
        × ((q : ℕ)
            → (has (mask_xor one_device one_device) q ≡ false)
              × (has (mask_xor in_use.device_mask one_device) q
                  ≡ (has in_use.device_mask q && not (has one_device q)))))
    × ((d : ℕ)
        → has one_device d ≡ true
        → has in_use.device_mask d ≡ false
        → release_devices one_device in_use ≡ (papi_emisc, in_use, one_device))
release_devices-has_example = release_devices-has one_device in_use

zero_ne_one : ◌≢◌ {A = ℕ} 0 1
zero_ne_one e = omega (arith, e)

rocs_ctx_read-Have_example : Returns (rocs_ctx_read functions context state) (λ r.
    (is_ok r.0 ≡ true
      → (r.3 ≡ some r.1.counters)
        × ReadAs functions state.events both state.devices r.1.counters r.2.devices
        × (r.2.calls ≡ state.calls ++ map (λ id. (read_func, id)) both)
        × Have r.2.events both r.1.counters)
    × (is_ok r.0 ≡ false → r.3 ≡ none)
    × ((j : ℕ) → NotIn j both → ntv_event r.2.events j ≡ ntv_event state.events j))
rocs_ctx_read-Have_example =
    rocs_ctx_read-Have functions context state (omega arith, (omega arith, tt))
      ((zero_ne_one, tt), (tt, tt)) refl

rocs_ctx_reset-Have_example : Returns (rocs_ctx_reset context state) (λ r.
    (r.0 ≡ papi_ok)
    × (r.1 ≡ context)
    × Have r.2.events both (0 ∷ 0 ∷ [])
    × ((j : ℕ) → NotIn j both → ntv_event r.2.events j ≡ ntv_event state.events j))
rocs_ctx_reset-Have_example =
    rocs_ctx_reset-Have context state (omega arith, (omega arith, tt)) ((zero_ne_one, tt), (tt, tt))
      refl

-- A library that answers every question.
abbrev library : Rsmi Unit
library = record {
  enosupp = 0;
  device_count = 0;
  version_get = λ _. some (5, 7, 1);
  counter_available_counters_get = λ _ _ _. some 7;
  dev_counter_create = λ _ _ s. some (7, s);
  dev_counter_destroy = λ _ s. some s;
  counter_start = λ _ s. some s;
  counter_stop = λ _ s. some s;
  counter_read = λ _ s. some (7, s);
  minmax_bandwidth_get = λ _ _ _. some (7, 8);
  dev_overdrive_level_get = λ _ _. some 7;
  dev_overdrive_level_set = λ _ _ s. some s;
  dev_perf_level_get = λ _ _. some 7;
  dev_perf_level_set = λ _ _ s. some s;
  dev_pci_throughput_get = λ _ _. some (5, 7, 1);
  dev_power_profile_presets_get = λ _ _ _. some (5, 7, 1);
  dev_power_profile_set = λ _ _ _ s. some s;
  dev_fan_reset = λ _ _ s. some s;
  dev_fan_speed_get = λ _ _ _. some 7;
  dev_power_cap_get = λ _ _ _. some 7;
  dev_power_cap_set = λ _ _ _ s. some s;
  dev_power_cap_range_get = λ _ _ _. some (7, 8);
  dev_id_get = λ _ _. some 7;
  dev_subsystem_vendor_id_get = λ _ _. some 7;
  dev_vendor_id_get = λ _ _. some 7;
  dev_unique_id_get = λ _ _. some 7;
  dev_subsystem_id_get = λ _ _. some 7;
  dev_drm_render_minor_get = λ _ _. some 7;
  dev_memory_total_get = λ _ _ _. some 7;
  dev_memory_usage_get = λ _ _ _. some 7;
  dev_memory_busy_percent_get = λ _ _. some 7;
  dev_busy_percent_get = λ _ _. some 7;
  dev_pci_id_get = λ _ _. some 7;
  dev_pci_replay_counter_get = λ _ _. some 7;
  dev_fan_rpms_get = λ _ _ _. some 7;
  dev_fan_speed_max_get = λ _ _ _. some 7;
  dev_power_avg_get = λ _ _ _. some 7;
  dev_temp_metric_get = λ _ _ _ _. some 7;
}

event_functions-harmless_example :
    let r = event_functions library 0 (λ _. dev_id) read_func (event_on 0 0) tt in
    (r.1.device ≡ some 0)
    × (r.1.id ≡ 0)
    × (r.1.mode ≡ mode_read)
    × (read_func ≡ read_func → is_xgmi_evt dev_id ≡ false → r.2 ≡ tt)
event_functions-harmless_example =
    event_functions-harmless library 0 (λ _. dev_id) read_func (event_on 0 0) tt

-- The version 5.7.1.
version_value-parts_example :
    let v = version_value (5, 7, 1) in
    (v / 2 ^ 32 ≡ 5) × (v / 2 ^ 16 % 2 ^ 16 ≡ 7) × (v % 2 ^ 16 ≡ 1)
version_value-parts_example = version_value-parts 5 7 1
