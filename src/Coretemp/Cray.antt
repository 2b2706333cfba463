-- ===== src/Coretemp/Cray.antt =====
-- The second half of generateEventList (patches/coretemp/linux-coretemp.c): the counters of Cray
-- machines, and the function as a whole.
use scorep_amd.Common.{
  ◌+◌, Bool, true, false, ◌||◌, Option, none, some, List, [], ◌∷◌, ◌++◌, length, if◌then◌else◌, leb,
  not,
}
use scorep_amd.Common.Run.{double_free, out_of_bounds}
use scorep_amd.Common.Strings.{
  Text, codes, same_text, contains, c_string, printed, formatted, next_word,
}
use scorep_amd.Common.Papi.{PapiErrno, papi_ok}
use scorep_amd.Coretemp.{DirEntry, World, Search, insert_in_list}
use scorep_amd.Coretemp.Hwmon.{Scan, going, crashed, and_then, require, monitor_loop}

abbrev pub base_cray_dir : Text
base_cray_dir = codes "/sys/cray/pm_counters/"

-- `done_error` is reached when `base_dir` has been closed, and closes it again.
unfoldable pub after_cray_insert : PapiErrno × Search → Scan
after_cray_insert (papi_ok, s) = going (record s { count = s.count + 1 })
after_cray_insert (e, s) = crashed double_free

-- The three words that `fscanf` reads.
pub record Reading : Type 0 where
  pub value : Text
  pub unit : Text
  pub timestamp : Text

-- The array `unit` of the round is not written where the file has no second word.
unfoldable pub unit_of : World → Text → Text → Text
unit_of w d_name [] = w.old_unit d_name
unit_of w d_name (c ∷ t) = c ∷ t

unfoldable pub read_counter : Text → Reading
unfolding next_word
read_counter bytes =
    let first = next_word bytes in
    let second = next_word first.1 in
    record { value = first.0; unit = second.0; timestamp = (next_word second.1).0 }

unfoldable pub is_empty : Text → Bool
is_empty [] = true
is_empty (c ∷ t) = false

abbrev pub measurement_type : Text → Text
measurement_type d_name =
    if contains (codes "energy") d_name
    then codes "energy measurement"
    else codes "power measurement"

abbrev pub cray_units : World → Text → Reading → Text
cray_units w d_name r = printed w.min_str_len (c_string (unit_of w d_name r.unit))

-- The event of the time at which the counter was read last.
unfoldable pub timestamp_event : World → Text → Text → Search → Scan
unfolding require formatted insert_in_list after_cray_insert
timestamp_event w d_name filename s =
    require (formatted w.max_str_len (codes "craypm:" ++ d_name ++ codes "_timestamp")) s (λ name.
      let units = printed w.max_str_len (codes "microseconds") in
      require (formatted w.max_str_len (units ++ codes ", timestamp of last measurement")) s
        (λ description. after_cray_insert (
          insert_in_list w
            record {
              name = name;
              units = units;
              description = description;
              path = filename;
              offset = 2;
            }
            s)))

-- The event of a counter's value.
unfoldable pub value_event : World → Text → Text → Reading → Search → Scan
unfolding require formatted insert_in_list after_cray_insert printed unit_of c_string contains
value_event w d_name filename r s =
    require (formatted w.max_str_len (codes "craypm:" ++ d_name)) s (λ name.
      require
        (formatted w.max_str_len (cray_units w d_name r ++ codes ", " ++ measurement_type d_name)) s
        (λ description. after_cray_insert (
          insert_in_list w
            record {
              name = name;
              units = cray_units w d_name r;
              description = description;
              path = filename;
              offset = 0;
            }
            s)))

-- `fscanf` writes each word with its NUL.
unfoldable pub words_fit : World → Reading → Bool
words_fit w r = not (
    leb w.max_str_len (length r.value)
    || (leb w.max_str_len (length r.unit) || leb w.max_str_len (length r.timestamp)))

unfoldable pub counter_words : World → Text → Text → Reading → Search → Scan
unfolding and_then value_event timestamp_event words_fit is_empty
counter_words w d_name filename r s =
    if words_fit w r
    then and_then (value_event w d_name filename r s)
        (λ s'. if is_empty r.timestamp then going s' else timestamp_event w d_name filename s')
    else crashed out_of_bounds

unfoldable pub counter_opened : World → Text → Text → Search → Option Text → Scan
unfolding read_counter counter_words
counter_opened w d_name filename s none = going s
counter_opened w d_name filename s (some bytes) =
    counter_words w d_name filename (read_counter bytes) s

unfoldable pub is_excluded : Text → Bool
unfolding same_text
is_excluded d_name = same_text d_name (codes "version") || same_text d_name (codes "startup")

-- One entry of the directory.
unfoldable pub counter : World → DirEntry → Search → Scan
unfolding require formatted counter_opened is_excluded
counter w entry s =
    if entry.regular
    then (if is_excluded entry.d_name
        then going s
        else require (formatted w.path_max (base_cray_dir ++ entry.d_name)) s
            (λ filename. counter_opened w entry.d_name filename s (w.file filename)))
    else going s

unfoldable pub counter_loop : World → List DirEntry → Search → Scan
unfolding and_then counter
counter_loop w [] s = going s
counter_loop w (entry ∷ entries) s = and_then (counter w entry s) (counter_loop w entries)

unfoldable pub cray_counters : World → Option (List DirEntry) → Search → Scan
unfolding counter_loop
cray_counters w none s = going s
cray_counters w (some entries) s = counter_loop w entries s

unfoldable pub monitors_opened : World → Text → Option (List DirEntry) → Search → Scan
unfolding and_then monitor_loop cray_counters
monitors_opened w base none s = going s
monitors_opened w base (some entries) s =
    and_then (monitor_loop w base entries s) (cray_counters w (w.dir base_cray_dir))

-- `generateEventList`; it returns `count` where the search has gone through.
unfoldable pub generate_event_list : World → Text → Search → Scan
unfolding monitors_opened
generate_event_list w base s =
    monitors_opened w base (w.dir base)
      (record s { modulename = w.old_modulename; location = w.old_location; count = 0 })
