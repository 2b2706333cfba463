-- ===== src/Rocs/Events/Examples.antt =====
-- The event table of patches/rocm_smi/rocs.c for a library with two devices.
use scorep_amd.Common.{
  arith, ℕ, ◌+◌, ◌≤◌, ◌≡◌, refl, Bool, true, false, Option, none, some, List, [], ◌∷◌, length,
  if◌then◌else◌, ◌==◌, map, replicate,
}
use mathlib.Core.Option.{some-injective}
use scorep_amd.Common.Run.{Run, ok, fault, out_of_bounds}
use scorep_amd.Common.Strings.{Text, codes, same_text, c_string}
use scorep_amd.Htable
use scorep_amd.Htable.{Memory, Errno, success, same_key, hash_func, htable_init, htable_insert}
use scorep_amd.Htable.Laws.{HasMemory}
use scorep_amd.Rocs.Events.Table.{
  EventTable, shutdown_event_table, init_event_table, rocs_evt_name_to_code, rocs_evt_code_to_name,
  rocs_evt_enum, enum_first,
}
use scorep_amd.Rocs.Events.Distinct.{are_distinct, are_distinct_sound}
use scorep_amd.Rocs.Events.RoundTrip.{name_to_code-code_to_name}
use scorep_amd.Rocs.Events.Forgotten.{shutdown_event_table-forgets}
use scorep_amd.Rocs.Events.Enumeration.{codes_met, numbers, codes_met-all}
use scorep_amd.Rocs.{PapiErrno, papi_ok, papi_enoevnt, AccessMode, mode_read, mode_rdwr}
use scorep_amd.Rocs.Events.{Catalog, Listing, Supported, Statics}
use scorep_amd.Rocs.Events.Walk.{walk_devices}
use scorep_amd.Rocs.Events.Counting.{Tally, get_ntv_events_count}
use scorep_amd.Rocs.Events.Filling.{Fill, get_ntv_events}
use scorep_amd.Rocs.Events.Agreement.{AreBelow}
use scorep_amd.Rocs.Events.Agreement.Groups.{Ordinary, groups}
use scorep_amd.Rocs.Events.Agreement.Totals.{all_groups}
use scorep_amd.Rocs.Events.Initialized.{init_event_table-counted}
use scorep_amd.Rocs.Events.Numbering.{IsNumbered}

abbrev plain : Text → Supported
plain name = record { name = name; variants = []; variants_close = true }

-- The fan's speed can be read and set, there are two temperatures, and a clock has three
-- frequencies.
abbrev functions_of : Listing
functions_of = record {
  first = plain (codes "rsmi_dev_fan_speed_get");
  others =
      plain (codes "rsmi_dev_fan_speed_set")
      ∷ record {
        name = codes "rsmi_dev_gpu_clk_freq_get";
        variants = record { id = 1; subvariants = []; subvariants_close = true } ∷ [];
        variants_close = true;
      }
      ∷ record {
        name = codes "rsmi_dev_temp_metric_get";
        variants = record { id = 0; subvariants = 0 ∷ 1 ∷ []; subvariants_close = true } ∷ [];
        variants_close = true;
      }
      ∷ [];
  functions_close = true;
}

-- The second device cannot be listed; `b` says whether the first one has a group of XGMI counters.
abbrev library : Bool → Catalog
library b = record {
  device_count = 2;
  listing = λ d. if d == 0 then some functions_of else none;
  pcie_rates = λ _. 0;
  freqs = λ _. 3;
  group_supported = λ d g. b;
  first_type = λ g. 2;
  last_type = λ g. 5;
  p2p_accessible = λ d i. some 1;
  minmax_bandwidth = λ d i. true;
  event_name = λ func d v sub. some func;
}

one_at_most : (res : ℕ) → some 1 ≡ some res → res ≤ 1
one_at_most res e = omega (arith, some-injective 1 res e)

library-Ordinary : (b : Bool) → Ordinary (library b)
library-Ordinary b = record {
  rates = λ d. refl;
  types = λ g. omega arith;
  symmetric = λ d i. refl;
  answers = λ d i res e. one_at_most res e;
  bandwidths = λ d i. refl;
  named = λ leaf e. (leaf.name, refl);
}

abbrev no_statics : Statics
no_statics = record { fan_speed = λ _. 0; power_cap = λ _ _. 0; perf_level_count = λ _. 0 }

clear : AreBelow no_statics 1
clear = record { fan = λ d. omega arith; cap = λ d sub. omega arith; perf = λ d. omega arith }

count_of : Run (Bool × Tally) → ℕ
count_of (ok (d, c)) = c.count
count_of (fault w) = 0

tally_of : Run (Bool × Tally) → Tally
tally_of (ok (d, c)) = c
tally_of (fault w) = record { statics = no_statics; count = 0 }

-- The fan's speed is one event, the clock has 5, the temperatures 2, and there are 2 for the
-- bandwidth to the other device.
count_test : count_of (get_ntv_events_count (library false) no_statics) ≡ 13
unfolding get_ntv_events_count same_text count_of walk_devices
count_test = refl

modes_of : Run (PapiErrno × Fill) → List (AccessMode)
modes_of (ok (e, f)) = map (λ e. e.mode) f.events
modes_of (fault w) = []

-- The event of the fan's speed can be read and written.
modes_test :
    modes_of (get_ntv_events (library false) no_statics 13)
    ≡ mode_read ∷ mode_read ∷ mode_read ∷ mode_rdwr ∷ replicate 9 mode_read
unfolding get_ntv_events same_text modes_of walk_devices
modes_test = refl

groups_test : get_ntv_events (library true) no_statics 19 ≡ fault out_of_bounds
unfolding get_ntv_events same_text walk_devices
groups_test = refl

-- A library with one device, and short names.
abbrev named_library : Catalog
named_library = record (library false) {
  device_count = 1;
  listing = λ d. some (record {
    first = plain (codes "rsmi_dev_fan_speed_get");
    others = plain (codes "rsmi_dev_fan_speed_set") ∷ [];
    functions_close = true;
  });
  event_name = λ func d v sub. some (length func ∷ []);
}

abbrev memory : Memory
memory = record { entry = true; table = true; buckets = true }

memory-HasMemory : HasMemory memory
memory-HasMemory = record { entry = refl; table = refl; buckets = refl }

made_of : Run (Errno × Option (Htable.Table ℕ)) → Errno × Option (Htable.Table ℕ)
made_of (ok r) = r
made_of (fault w) = (success, none)

abbrev made : Errno × Option (Htable.Table ℕ)
made = made_of (htable_init memory)

abbrev start : EventTable
start = record { events = []; names = made.1; counting = no_statics; filling = no_statics }

table_of : Run (PapiErrno × EventTable) → EventTable
table_of (ok (e, s)) = s
table_of (fault w) = start

abbrev table : EventTable
table = table_of (init_event_table memory true named_library start)

name_to_code-code_to_name_example :
    (to : Text) × (rocs_evt_code_to_name table 3 64 ≡ ok (papi_ok, some to))
    × (rocs_evt_name_to_code table (c_string to) ≡ ok (papi_ok, some 3))
unfolding init_event_table htable_init htable_insert table_of made_of walk_devices same_text
    get_ntv_events_count get_ntv_events hash_func same_key are_distinct
name_to_code-code_to_name_example =
    name_to_code-code_to_name memory named_library start table made 3 64 _ _ memory-HasMemory refl
      refl refl (omega arith) (are_distinct_sound table.events refl) refl refl (omega arith)
      (omega arith)

codes_met-all_example :
    codes_met 20 table (rocs_evt_enum table 0 enum_first) ≡ numbers (length table.events) 0
unfolding init_event_table htable_init htable_insert table_of made_of walk_devices same_text
    get_ntv_events_count get_ntv_events hash_func same_key are_distinct
codes_met-all_example = codes_met-all table 20 0 (omega arith) (omega arith)

init_event_table-counted_example :
    (s' : EventTable) × (length s'.events
      ≡ (tally_of (get_ntv_events_count (library true) no_statics)).count
        + all_groups (library true))
    × IsNumbered 0 s'.events
    × (init_event_table memory true (library true) start
        ≡ (if all_groups (library true) == 0 then ok (papi_ok, s') else fault out_of_bounds))
unfolding get_ntv_events_count same_text tally_of walk_devices all_groups made_of htable_init groups
init_event_table-counted_example =
    init_event_table-counted memory (library true) start
      (tally_of (get_ntv_events_count (library true) no_statics)) made memory-HasMemory refl refl
      (library-Ordinary true) clear clear refl (omega arith)

statics_of : Run (Bool × Tally) → Statics
statics_of (ok (d, c)) = c.statics
statics_of (fault w) = no_statics

-- A second initialization does not count the event of the fan's speed again.
again_test :
    count_of (
      get_ntv_events_count
        (library false)
        (statics_of (get_ntv_events_count (library false) no_statics)))
    ≡ 12
unfolding get_ntv_events_count same_text count_of statics_of walk_devices
again_test = refl

shutdown_event_table-forgets_example :
    (t : EventTable) × (shutdown_event_table memory table ≡ ok (papi_ok, t))
    × (t.events ≡ [])
    × (rocs_evt_name_to_code t (22 ∷ []) ≡ ok (papi_enoevnt, none))
unfolding init_event_table htable_init htable_insert table_of made_of walk_devices same_text
    get_ntv_events_count get_ntv_events hash_func same_key are_distinct
shutdown_event_table-forgets_example =
    shutdown_event_table-forgets memory named_library start table made (22 ∷ []) memory-HasMemory
      refl refl refl (omega arith)

-- After another initialization the setter of the fan's speed writes to the place that its event had in the
-- first table, although nothing stands there now: here behind an array of 3 elements.
stale_test :
    get_ntv_events named_library (record no_statics { fan_speed = λ _. 3 }) 3 ≡ fault out_of_bounds
unfolding get_ntv_events same_text walk_devices
stale_test = refl
