-- ===== src/Coretemp/Sightings.antt =====
-- What generateEventList (patches/coretemp/linux-coretemp.c) is to find, from the directories and files of
-- a machine alone: one event for each input file of a sensor, and one or two for each counter of a Cray
-- machine. None of the search's own definitions is used.
use scorep_amd.Common.{ℕ, zero, suc, ◌+◌, Option, none, some, List, [], ◌∷◌, ◌++◌, if◌then◌else◌}
use scorep_amd.Common.Strings.{
  Text, codes, starts_with, same_text, decimal, printed, c_string, next_word,
}
use scorep_amd.Coretemp.{DirEntry, World, TempEvent}

pub record Sighting : Type 0 where
  pub name : Text
  pub units : Text
  pub path : Text
  pub offset : ℕ

unfoldable pub sighting : TempEvent → Sighting
sighting ev = record { name = ev.name; units = ev.units; path = ev.path; offset = ev.offset }

-- Where a file is there, what it stands for.
unfoldable pub where_there : Option Text → List Sighting → List Sighting
where_there none seen = []
where_there (some bytes) seen = seen

-- What the kernel's hwmon files measure: the beginning of the files' names, and the unit.
abbrev pub sensor_kinds : List (Text × Text)
sensor_kinds =
    (codes "in", codes "V")
    ∷ (codes "temp", codes "degrees C")
    ∷ (codes "power", codes "microwatts")
    ∷ (codes "fan", codes "RPM")
    ∷ []

-- The input file of the sensor `i`.
abbrev pub sensor_file : Text → Text → ℕ → Text
sensor_file path prefix i = path ++ codes "/" ++ prefix ++ decimal i ++ codes "_input"

unfoldable pub sensor_sighting : Text → Text → Text → Text → ℕ → Sighting
sensor_sighting hwmon path prefix units i = record {
  name = hwmon ++ codes ":" ++ prefix ++ decimal i ++ codes "_input";
  units = units;
  path = sensor_file path prefix i;
  offset = 0;
}

-- The sensors `i`, `i + 1` and so on, `n` of them.
unfoldable pub sensors_seen : World → Text → Text → Text → Text → ℕ → ℕ → List Sighting
unfolding where_there sensor_sighting
sensors_seen w hwmon path prefix units zero i = []
sensors_seen w hwmon path prefix units (suc n) i =
    where_there (w.file (sensor_file path prefix i))
      (sensor_sighting hwmon path prefix units i ∷ [])
    ++ sensors_seen w hwmon path prefix units n (i + 1)

unfoldable pub kinds_seen : World → Text → Text → List (Text × Text) → List Sighting
unfolding sensors_seen
kinds_seen w hwmon path [] = []
kinds_seen w hwmon path ((prefix, units) ∷ kinds) =
    sensors_seen w hwmon path prefix units 32 0 ++ kinds_seen w hwmon path kinds

unfoldable pub directory_seen : World → Text → Text → Option (List DirEntry) → List Sighting
unfolding kinds_seen
directory_seen w hwmon path none = []
directory_seen w hwmon path (some entries) = kinds_seen w hwmon path sensor_kinds

abbrev pub part_seen : World → Text → Text → Text → List Sighting
part_seen w base hwmon part =
    let path = base ++ codes "/" ++ hwmon ++ codes "/" ++ part in
    directory_seen w hwmon path (w.dir path)

unfoldable pub monitors_seen : World → Text → List DirEntry → List Sighting
unfolding directory_seen starts_with
monitors_seen w base [] = []
monitors_seen w base (entry ∷ entries) =
    (if starts_with (codes "hwmon") entry.d_name
      then part_seen w base entry.d_name (codes "device")
        ++ part_seen w base entry.d_name (codes ".")
      else [])
    ++ monitors_seen w base entries

abbrev pub pm_counters : Text
pm_counters = codes "/sys/cray/pm_counters/"

-- The word of the number `n` in a file, which is empty if the file has fewer.
unfoldable pub word_at : ℕ → Text → Text
unfolding next_word
word_at zero bytes = (next_word bytes).0
word_at (suc n) bytes = word_at n (next_word bytes).1

-- The unit of a counter is the second word of its file, cut to its array, or what was left in the array.
unfoldable pub unit_seen : World → Text → Text → Text
unit_seen w d_name [] = printed w.min_str_len (c_string (w.old_unit d_name))
unit_seen w d_name (c ∷ t) = printed w.min_str_len (c_string (c ∷ t))

unfoldable pub value_sighting : World → Text → Text → Sighting
unfolding unit_seen
value_sighting w d_name unit = record {
  name = codes "craypm:" ++ d_name;
  units = unit_seen w d_name unit;
  path = pm_counters ++ d_name;
  offset = 0;
}

-- The third word of a counter's file, if there is one, is a timestamp.
unfoldable pub timestamp_seen : Text → Text → List Sighting
timestamp_seen d_name [] = []
timestamp_seen d_name (c ∷ t) =
    record {
      name = codes "craypm:" ++ d_name ++ codes "_timestamp";
      units = codes "microseconds";
      path = pm_counters ++ d_name;
      offset = 2;
    }
    ∷ []

unfoldable pub counter_file_seen : World → Text → Option Text → List Sighting
unfolding value_sighting timestamp_seen word_at
counter_file_seen w d_name none = []
counter_file_seen w d_name (some bytes) =
    value_sighting w d_name (word_at 1 bytes) ∷ timestamp_seen d_name (word_at 2 bytes)

-- The regular files `version` and `startup` are no counters.
unfoldable pub counter_seen : World → DirEntry → List Sighting
unfolding counter_file_seen same_text
counter_seen w entry =
    if entry.regular
    then (if same_text entry.d_name (codes "version")
        then []
        else (if same_text entry.d_name (codes "startup")
            then []
            else counter_file_seen w entry.d_name (w.file (pm_counters ++ entry.d_name))))
    else []

unfoldable pub counters_seen : World → List DirEntry → List Sighting
unfolding counter_seen
counters_seen w [] = []
counters_seen w (entry ∷ entries) = counter_seen w entry ++ counters_seen w entries

unfoldable pub cray_seen : World → Option (List DirEntry) → List Sighting
unfolding counters_seen
cray_seen w none = []
cray_seen w (some entries) = counters_seen w entries

abbrev pub hwmon_dir : Text
hwmon_dir = codes "/sys/class/hwmon"

-- Everything that there is to be found. Without the base directory nothing is.
unfoldable pub all_seen : World → Text → Option (List DirEntry) → List Sighting
unfolding monitors_seen cray_seen
all_seen w base none = []
all_seen w base (some entries) = monitors_seen w base entries ++ cray_seen w (w.dir pm_counters)
