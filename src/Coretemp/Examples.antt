-- ===== src/Coretemp/Examples.antt =====
-- Tests of the component coretemp, and the theorems at concrete inputs.
use scorep_amd.Common.{
  ℕ, ◌+◌, ◌≤◌, ◌<◌, ◌≡◌, ◌≢◌, refl, Bool, true, false, Option, none, some, List, [], ◌∷◌, ◌++◌, map,
  length, replicate, get_or, arith, take, ◌==◌, if◌then◌else◌,
}
use mathlib.Core.Path.{subst}
use scorep_amd.Common.Run.{ok, fault, out_of_bounds, double_free, null_dereference}
use scorep_amd.Common.Strings.{Text, codes, same_text, decimal, starts_digit}
use scorep_amd.Common.Strings.Numerals.{numeral}
use scorep_amd.Common.Papi.{papi_ok, papi_ecmp, papi_enomem}
use scorep_amd.Coretemp.{DirEntry, World, TempEvent, Search, events, error, NativeEvent, Component}
use scorep_amd.Coretemp.Hwmon.{Scan, going, failed, crashed}
use scorep_amd.Coretemp.Cray.{generate_event_list}
use scorep_amd.Coretemp.Sightings.{sighting, hwmon_dir, all_seen}
use scorep_amd.Coretemp.Found.{HasRoom}
use scorep_amd.Coretemp.Found.Counters.{generate_event_list-all_seen}
use scorep_amd.Coretemp.Tame.{IsTame, AreShort, NoNul, CanCopy, IsSteady}
use scorep_amd.Coretemp.Tame.Counters.{generate_event_list-goes}
use scorep_amd.Coretemp.Values.{get_event_value}
use scorep_amd.Coretemp.Values.Fields.{spaced, get_event_value-numeral}
use scorep_amd.Coretemp.Setup.{cleared, base_dir, can_copy, init_component, shutdown_component}
use scorep_amd.Coretemp.Setup.Filled.{native_sighting, init_component-all_seen}
use scorep_amd.Coretemp.Setup.Lifecycle.{
  init_component-again, open_fds, shutdown_component-open_fds,
}
use scorep_amd.Coretemp.Setup.Leftover.{init_component-leftover}
use scorep_amd.Coretemp.Measuring.{Control, update_control_state, read_counts}
use scorep_amd.Coretemp.Measuring.Updated.{IsNumbered}
use scorep_amd.Coretemp.Measuring.Opened.{IsOpened}
use scorep_amd.Coretemp.Measuring.Counted.{current, update-read-current}
use scorep_amd.Coretemp.Names.{ntv_code_to_name}
use scorep_amd.Coretemp.Names.Enumerated.{enumerated, enumerated-names}

abbrev dir_of : Text → Option (List DirEntry)
dir_of path =
    if same_text path (codes "/sys/class/hwmon")
    then some (
        record { d_name = codes "."; regular = false }
        ∷ record { d_name = codes "hwmon0"; regular = false }
        ∷ [])
    else (if same_text path (codes "/sys/class/hwmon/hwmon0/.")
        then some []
        else (if same_text path (codes "/sys/cray/pm_counters/")
            then some (
                record { d_name = codes "version"; regular = true }
                ∷ record { d_name = codes "cpu_energy"; regular = true }
                ∷ [])
            else none))

abbrev file_of : Text → Option Text
file_of path =
    if same_text path (codes "/sys/class/hwmon/hwmon0/./name")
    then some (codes "k10temp" ++ 10 ∷ [])
    else (if same_text path (codes "/sys/class/hwmon/hwmon0/./temp1_label")
        then some (codes "Tctl" ++ 10 ∷ [])
        else (if same_text path (codes "/sys/class/hwmon/hwmon0/./temp1_input")
            then some (codes "45000" ++ 10 ∷ [])
            else (if same_text path (codes "/sys/cray/pm_counters/cpu_energy")
                then some (codes "123 J 456" ++ 10 ∷ [])
                else none)))

abbrev machine : World
machine = record {
  min_str_len = 64;
  max_str_len = 128;
  path_max = 4096;
  dir = dir_of;
  file = file_of;
  memory = λ n. true;
  old_modulename = [];
  old_location = [];
  old_unit = λ d_name. codes "?";
}

abbrev nothing_found : Search
nothing_found = record { root = []; last = false; modulename = []; location = []; count = 0 }

abbrev events_of : Scan → List TempEvent
events_of (going s) = s.root
events_of (failed e s) = []
events_of (crashed why) = []

search_test :
    map
      (λ ev. ev.description)
      (events_of (generate_event_list machine (codes "/sys/class/hwmon") nothing_found))
    ≡ codes "degrees C, k10temp module, label Tctl"
      ∷ codes "J, energy measurement"
      ∷ codes "microseconds, timestamp of last measurement"
      ∷ []
unfolding generate_event_list same_text
search_test = refl

some-injective {ℓ} : {A : Type ℓ} (x y : A) → some x ≡ some y → x ≡ y
some-injective x y e = cc

none_ne_some {ℓ} : {A : Type ℓ} (y : A) → none ≡ some y → ⊥
none_ne_some y e = cc

-- Where the first file is not there, the property of what is found.
choice-some {ℓ} :
    {A : Type ℓ} (P : A → Type 0) (b : Bool) (x y : A) (o : Option A)
    → P x
    → (o ≡ some y → P y)
    → (if b then some x else o) ≡ some y
    → P y
choice-some P true x y o p q e = subst P (some-injective x y e) p
choice-some P false x y o p q e = q e

some-ne-none {ℓ} : {A : Type ℓ} (P : A → Type 0) (y : A) → none ≡ some y → P y
some-ne-none P y e = absurd (none_ne_some y e)

abbrev IsShortText : Text → Type 0
IsShortText t = (length t ≤ 48) × NoNul t

machine-short_files : (path bytes : Text) → file_of path ≡ some bytes → IsShortText bytes
machine-short_files path bytes =
    choice-some IsShortText _ (codes "k10temp" ++ 10 ∷ []) bytes _ (omega arith) (
      choice-some IsShortText _ (codes "Tctl" ++ 10 ∷ []) bytes _ (omega arith) (
        choice-some IsShortText _ (codes "45000" ++ 10 ∷ []) bytes _ (omega arith) (
          choice-some IsShortText _ (codes "123 J 456" ++ 10 ∷ []) bytes none (omega arith)
            (some-ne-none IsShortText bytes))))

machine-short_names :
    (path : Text) (entries : List DirEntry) → dir_of path ≡ some entries → AreShort entries
machine-short_names path entries =
    choice-some AreShort (same_text path (codes "/sys/class/hwmon"))
      (record { d_name = codes "."; regular = false }
        ∷ record { d_name = codes "hwmon0"; regular = false }
        ∷ [])
      entries _ (omega arith)
      (choice-some AreShort (same_text path (codes "/sys/class/hwmon/hwmon0/.")) [] entries _ tt (
        choice-some AreShort (same_text path (codes "/sys/cray/pm_counters/"))
          (record { d_name = codes "version"; regular = true }
            ∷ record { d_name = codes "cpu_energy"; regular = true }
            ∷ [])
          entries none (omega arith) (some-ne-none AreShort entries)))

machine-IsTame : IsTame machine
machine-IsTame = record {
  min_size = omega arith;
  max_size = omega arith;
  path_size = omega arith;
  allocated = λ n. refl;
  short_names = machine-short_names;
  short_files = machine-short_files;
  short_modulename = omega arith;
  short_location = omega arith;
  short_unit = λ d_name. omega arith;
}

machine-HasRoom : HasRoom machine
machine-HasRoom = record {
  units_fit = omega arith;
  units_fit_name = omega arith;
  path_fits = omega arith;
}

-- What the search leaves on the machine.
abbrev temperature : TempEvent
temperature = record {
  name = codes "hwmon0:temp1_input";
  units = codes "degrees C";
  description = codes "degrees C, k10temp module, label Tctl";
  path = codes "/sys/class/hwmon/hwmon0/./temp1_input";
  offset = 0;
}

abbrev energy_value : TempEvent
energy_value = record {
  name = codes "craypm:cpu_energy";
  units = codes "J";
  description = codes "J, energy measurement";
  path = codes "/sys/cray/pm_counters/cpu_energy";
  offset = 0;
}

abbrev energy_time : TempEvent
energy_time = record {
  name = codes "craypm:cpu_energy_timestamp";
  units = codes "microseconds";
  description = codes "microseconds, timestamp of last measurement";
  path = codes "/sys/cray/pm_counters/cpu_energy";
  offset = 2;
}

abbrev three_found : Search
three_found = record {
  root = temperature ∷ energy_value ∷ energy_time ∷ [];
  last = true;
  modulename = codes "k10temp";
  location = codes "?";
  count = 3;
}

machine_goes : generate_event_list machine base_dir nothing_found ≡ going three_found
unfolding generate_event_list same_text
machine_goes = refl

generate_event_list-all_seen_example :
    (map sighting three_found.root
      ≡ map sighting nothing_found.root ++ all_seen machine base_dir (dir_of base_dir))
    × (three_found.count ≡ length (all_seen machine base_dir (dir_of base_dir)))
generate_event_list-all_seen_example =
    generate_event_list-all_seen machine base_dir nothing_found three_found machine-HasRoom
      machine_goes

generate_event_list-goes_example :
    (s' : Search) × (generate_event_list machine base_dir nothing_found ≡ going s')
    × IsSteady machine s'
generate_event_list-goes_example =
    generate_event_list-goes machine base_dir nothing_found machine-IsTame (omega arith) tt tt

all_seen_count : length (all_seen machine base_dir (dir_of base_dir)) ≡ 3
unfolding all_seen same_text decimal
all_seen_count = refl

abbrev energy_file : Text → Option Text
energy_file path = some (codes "123 J 456" ++ 10 ∷ [])

abbrev fresh : Component
fresh = record {
  table = none;
  num_events = events 0;
  is_initialized = false;
  search = nothing_found;
  num_native_events = 0;
  disabled = papi_ok;
  closed = [];
}

init_component-all_seen_example :
    (c' : Component) × (table : List NativeEvent) × (init_component machine true energy_file fresh
      ≡ ok (papi_ok, c'))
    × (c'.table ≡ some table)
    × (map native_sighting table ≡ all_seen machine hwmon_dir (dir_of hwmon_dir))
    × IsNumbered 0 table
    × (c'.num_events ≡ events (length (all_seen machine hwmon_dir (dir_of hwmon_dir))))
    × (c'.is_initialized ≡ true)
    × (c'.search.root ≡ [])
init_component-all_seen_example =
    init_component-all_seen machine energy_file fresh machine-IsTame refl refl
      (λ path. (codes "123 J 456" ++ 10 ∷ [], refl)) (omega (arith, all_seen_count))

-- The search that fails at the second event, and what comes of it.
abbrev without_memory : World
without_memory = record machine { memory = λ n. n == 0 }

-- The error path of a failed insertion closes a directory twice.
double_close_test : generate_event_list without_memory base_dir nothing_found ≡ crashed double_free
unfolding generate_event_list same_text
double_close_test = refl

abbrev no_table : Component
no_table = record fresh {
  is_initialized = true;
  num_events = events 3;
  search = three_found;
  disabled = papi_enomem;
}

no_table_test : init_component machine false energy_file fresh ≡ ok (papi_enomem, no_table)
unfolding init_component same_text
no_table_test = refl

-- The next call takes the component for initialized, although it has no table.
init_component-again_example :
    init_component machine true energy_file no_table
    ≡ ok (papi_ok, record no_table { disabled = papi_ok })
init_component-again_example =
    init_component-again machine machine false true energy_file energy_file fresh no_table
      papi_enomem refl no_table_test

shutdown_no_table_test : shutdown_component no_table ≡ fault null_dereference
unfolding shutdown_component
shutdown_no_table_test = refl

-- An event is left from a search that failed.
abbrev leftover : Component
leftover = record fresh {
  num_events = error papi_ecmp;
  search = record nothing_found { root = temperature ∷ []; last = true };
}

temperature-CanCopy : CanCopy machine (temperature ∷ [])
unfolding can_copy
temperature-CanCopy = (refl, tt)

init_component-leftover_example :
    init_component machine true energy_file leftover ≡ fault out_of_bounds
init_component-leftover_example =
    init_component-leftover machine energy_file leftover machine-IsTame refl refl
      temperature-CanCopy (omega arith) (omega (arith, all_seen_count))

abbrev element_of : TempEvent → ℕ → Option ℕ → NativeEvent
element_of ev i fd = record cleared {
  name = ev.name;
  units = ev.units;
  description = ev.description;
  path = ev.path;
  offset = ev.offset;
  fd = fd;
  selector = i + 1;
}

abbrev two_elements : List NativeEvent
two_elements = element_of temperature 0 none ∷ element_of energy_time 1 (some 7) ∷ []

abbrev filled_component : Component
filled_component = record fresh {
  table = some two_elements;
  num_events = events 2;
  is_initialized = true;
}

shutdown_component-open_fds_example :
    (c' : Component) × (shutdown_component filled_component ≡ ok (papi_ok, c'))
    × (c'.closed ≡ [] ++ open_fds two_elements)
    × (c'.table ≡ none)
    × (c'.is_initialized ≡ false)
shutdown_component-open_fds_example =
    shutdown_component-open_fds filled_component two_elements refl refl refl

enumerated-names_example :
    map (λ k. ntv_code_to_name filled_component k 128) (enumerated 3 (events 2) 0)
    ≡ map (λ (ev : NativeEvent). ok (papi_ok, some (take 128 ev.name))) two_elements
enumerated-names_example =
    enumerated-names filled_component two_elements 128 3 0 refl refl (omega arith) (omega arith)

-- The file of an energy counter.
abbrev energy_bytes : ℕ → Text
energy_bytes fd = codes "123 J 456 us" ++ 10 ∷ []

bytes_lem :
    energy_bytes 7
    ≡ spaced (codes "123" ∷ codes "J" ∷ []) ++ (codes "456" ++ (codes " us" ++ 10 ∷ []))
unfolding spaced
bytes_lem = refl

not_digit : starts_digit (codes " us" ++ 10 ∷ []) ≡ false
unfolding starts_digit
not_digit = refl

numeral_test : numeral (codes "456") ≡ 456
unfolding numeral
numeral_test = refl

get_event_value-numeral_example :
    get_event_value 128 energy_bytes (element_of energy_time 1 (some 7)) ≡ numeral (codes "456")
get_event_value-numeral_example =
    get_event_value-numeral 128 energy_bytes (element_of energy_time 1 (some 7)) 7
      (codes "123" ∷ codes "J" ∷ []) b'4' (codes "56") (codes " us" ++ 10 ∷ []) refl refl refl
      bytes_lem (omega arith) (omega arith) (omega arith) (omega (arith, numeral_test)) not_digit

abbrev idle : Control
idle = record { counts = replicate 512 0; active_count = 0; active_idx = replicate 512 0 }

update-read-current_example :
    (table' : List NativeEvent) × (ctl' : Control) × (ctl'' : Control) × (update_control_state
        (λ path. some 9)
        (1 ∷ 0 ∷ [])
        (0 ∷ 0 ∷ [])
        two_elements
        idle
      ≡ ok (papi_ok, 1 ∷ 0 ∷ [], table', ctl'))
    × (read_counts 128 energy_bytes table' ctl' ≡ ok (papi_ok, ctl''))
    × ((k : ℕ)
        → k < 2
        → IsOpened
            (λ path. some 9)
            (get_or two_elements (get_or (1 ∷ 0 ∷ []) k 0) cleared)
            (get_or table' (get_or (1 ∷ 0 ∷ []) k 0) cleared)
          × (get_or ctl''.counts (get_or (1 ∷ 0 ∷ []) k 0) 0
              ≡ current 128 energy_bytes table' (get_or (1 ∷ 0 ∷ []) k 0)))
    × ((j : ℕ)
        → ((k : ℕ) → k < 2 → get_or (1 ∷ 0 ∷ []) k 0 ≢ j)
        → (get_or table' j cleared ≡ get_or two_elements j cleared)
          × (get_or ctl''.counts j 0 ≡ get_or idle.counts j 0))
update-read-current_example =
    update-read-current (λ path. some 9) 128 energy_bytes (1 ∷ 0 ∷ []) (0 ∷ 0 ∷ []) two_elements
      idle (λ path. (9, refl)) (omega arith) (omega arith) (omega arith) (omega arith) (omega arith)
      refl
