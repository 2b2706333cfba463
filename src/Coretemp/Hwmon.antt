-- ===== src/Coretemp/Hwmon.antt =====
-- The search for events: generateEventList of patches/coretemp/linux-coretemp.c.
use scorep_amd.Common.{ℕ, zero, suc, ◌+◌, Option, none, some, List, [], ◌∷◌, ◌++◌, if◌then◌else◌}
use scorep_amd.Common.Run.{Fault, out_of_bounds}
use scorep_amd.Common.Strings.{
  Text, codes, decimal, starts_with, c_string, printed, formatted, fgets,
}
use scorep_amd.Common.Papi.{PapiErrno, papi_ok, papi_einval, papi_ecmp}
use scorep_amd.Coretemp.{DirEntry, World, Search, insert_in_list}

-- Where the search stands: it goes on, it has returned an error, or it has undefined behaviour.
pub data Scan : Type 0 where
  going : Search → Scan
  failed : PapiErrno → Search → Scan
  crashed : Fault → Scan

-- The search goes on with the next part.
unfoldable pub and_then : Scan → (Search → Scan) → Scan
and_then (going s) next = next s
and_then (failed e s) next = failed e s
and_then (crashed why) next = crashed why

-- `if (retlen <= 0 || size <= retlen) return PAPI_EINVAL;` and then the rest, with the text.
unfoldable pub require : Option Text → Search → (Text → Scan) → Scan
require none s next = failed papi_einval s
require (some t) s next = next t

unfoldable pub but_last : ℕ → Text → Text
but_last c [] = []
but_last c (d ∷ s) = c ∷ but_last d s

-- `array[strlen(array) - 1] = '\0'`
unfoldable pub chop : Text → Search → (Text → Scan) → Scan
unfolding but_last
chop [] s next = crashed out_of_bounds
chop (c ∷ t) s next = next (but_last c t)

-- What an array holds after `fgets` and the cut; it is as before if nothing could be read.
unfoldable pub after_fgets : Option Text → Text → Search → (Text → Scan) → Scan
unfolding chop c_string
after_fgets none old s next = next old
after_fgets (some line) old s next = chop (c_string line) s next

-- The first line of a file, without its last byte, or `missing` if it cannot be opened.
unfoldable pub read_line : World → Option Text → Text → Text → Search → (Text → Scan) → Scan
unfolding fgets after_fgets
read_line w none missing old s next = next missing
read_line w (some bytes) missing old s next = after_fgets (fgets w.min_str_len bytes) old s next

-- A kind of sensors: how its files begin, and the unit of their values.
pub record Kind : Type 0 where
  pub prefix : Text
  pub units : Text

abbrev pub kinds : List Kind
kinds =
    record { prefix = codes "in"; units = codes "V" }
    ∷ record { prefix = codes "temp"; units = codes "degrees C" }
    ∷ record { prefix = codes "power"; units = codes "microwatts" }
    ∷ record { prefix = codes "fan"; units = codes "RPM" }
    ∷ []

abbrev pub label_path : Text → Kind → ℕ → Text
label_path path k i = path ++ codes "/" ++ k.prefix ++ decimal i ++ codes "_label"

abbrev pub input_path : Text → Kind → ℕ → Text
input_path path k i = path ++ codes "/" ++ k.prefix ++ decimal i ++ codes "_input"

abbrev pub input_name : Text → Kind → ℕ → Text
input_name hwmon k i = hwmon ++ codes ":" ++ k.prefix ++ decimal i ++ codes "_input"

-- `if (insert_in_list(…) != PAPI_OK) goto done_error; count++;` where both directories are open.
unfoldable pub after_insert : PapiErrno × Search → Scan
after_insert (papi_ok, s) = going (record s { count = s.count + 1 })
after_insert (e, s) = failed papi_ecmp s

-- The event of a sensor whose input file is there.
unfoldable pub found : World → Text → Text → Kind → ℕ → Search → Scan
unfolding require formatted decimal insert_in_list after_insert
found w hwmon filename k i s = require (formatted w.max_str_len (input_name hwmon k i)) s (λ name.
    require
      (formatted w.max_str_len
        (k.units ++ codes ", " ++ s.modulename ++ codes " module, label " ++ s.location))
      s
      (λ description. after_insert (
        insert_in_list w
          record {
            name = name;
            units = printed w.min_str_len k.units;
            description = description;
            path = filename;
            offset = 0;
          }
          s)))

unfoldable pub with_input : World → Text → Text → Kind → ℕ → Search → Option Text → Scan
unfolding found
with_input w hwmon filename k i s none = going s
with_input w hwmon filename k i s (some bytes) = found w hwmon filename k i s

-- One round of a loop over the sensors of a kind.
unfoldable pub sensor : World → Text → Text → Kind → ℕ → Search → Scan
unfolding require formatted decimal read_line with_input
sensor w hwmon path k i s = require (formatted w.max_str_len (label_path path k i)) s (λ label.
    read_line w (w.file label) (codes "?") s.location s (λ location.
      let s' = record s { location = location } in
      require (formatted w.max_str_len (input_path path k i)) s'
        (λ filename. with_input w hwmon filename k i s' (w.file filename))))

-- `for (i = …; i < 32; i++)`, with the rounds that are left.
unfoldable pub sensor_loop : World → Text → Text → Kind → ℕ → ℕ → Search → Scan
unfolding and_then sensor
sensor_loop w hwmon path k zero i s = going s
sensor_loop w hwmon path k (suc n) i s =
    and_then (sensor w hwmon path k i s) (sensor_loop w hwmon path k n (i + 1))

-- The four loops, one for each kind.
unfoldable pub kind_loop : World → Text → Text → List Kind → Search → Scan
unfolding and_then sensor_loop
kind_loop w hwmon path [] s = going s
kind_loop w hwmon path (k ∷ ks) s =
    and_then (sensor_loop w hwmon path k 32 0 s) (kind_loop w hwmon path ks)

-- A directory of a monitor that could be opened.
unfoldable pub monitor_opened : World → Text → Text → Search → Option (List DirEntry) → Scan
unfolding require formatted read_line kind_loop
monitor_opened w hwmon path s none = going s
monitor_opened w hwmon path s (some entries) =
    require (formatted w.max_str_len (path ++ codes "/name")) s (λ filename.
      read_line w (w.file filename) (codes "Unknown") s.modulename s
        (λ modulename. kind_loop w hwmon path kinds (record s { modulename = modulename })))

abbrev pub monitor_path : Text → Text → Text → Text
monitor_path base hwmon part = base ++ codes "/" ++ hwmon ++ codes "/" ++ part

-- One round of the loop over `paths`.
unfoldable pub monitor : World → Text → Text → Text → Search → Scan
unfolding require formatted monitor_opened
monitor w base hwmon part s =
    require (formatted w.path_max (monitor_path base hwmon part)) s
      (λ path. monitor_opened w hwmon path s (w.dir path))

-- The loop over the entries of `base_dir`.
unfoldable pub monitor_loop : World → Text → List DirEntry → Search → Scan
unfolding starts_with and_then monitor
monitor_loop w base [] s = going s
monitor_loop w base (entry ∷ entries) s =
    let rest = monitor_loop w base entries in
    if starts_with (codes "hwmon") entry.d_name
    then and_then (monitor w base entry.d_name (codes "device") s)
        (λ s'. and_then (monitor w base entry.d_name (codes ".") s') rest)
    else rest s
