-- ===== src/Coretemp/Found.antt =====
-- generateEventList (patches/coretemp/linux-coretemp.c) finds what is there.
pub mod Counters
use scorep_amd.Common.{
  ℕ, zero, suc, ◌+◌, ◌-◌, ◌≤◌, ◌<◌, ◌≡◌, refl, ap, sym, ◌∙◌, Bool, true, false, Option, none, some,
  List, [], ◌∷◌, ◌++◌, map, arith, length, if◌then◌else◌, Bool-cases, inl, inr,
}
use mathlib.Core.Path.{subst}
use mathlib.Core.List.{append_assoc, append-nil}
use scorep_amd.Common.Strings.{Text, codes, printed, formatted, starts_with, decimal}
use scorep_amd.Coretemp.{DirEntry, World, TempEvent, Search, stored, insert_in_list}
use scorep_amd.Coretemp.Hwmon.{
  Scan, going, failed, crashed, and_then, Kind, kinds, input_path, input_name, label_path,
  monitor_path, found, with_input, sensor, sensor_loop, kind_loop, monitor_opened, monitor,
  monitor_loop, require, read_line, after_insert,
}
use scorep_amd.Coretemp.Cray.{
  Reading, read_counter, is_excluded, cray_units, base_cray_dir, is_empty, measurement_type,
  value_event, timestamp_event, words_fit, counter_words, counter_opened, counter, counter_loop,
  cray_counters, monitors_opened, generate_event_list,
}
use scorep_amd.Coretemp.Sightings.{
  Sighting, sighting, where_there, sensor_sighting, sensors_seen, kinds_seen, directory_seen,
  part_seen, monitors_seen, counter_file_seen, counters_seen, cray_seen, all_seen,
}
use scorep_amd.Coretemp.Finds.{
  Finds, Finds-nothing, Finds-and_then, printed-all, printed_idem, Finds-require, Finds-read_line,
  Finds-after_insert, Finds-after_cray_insert,
}

-- The arrays are long enough for the units, and for a path that fits a name.
pub record HasRoom (w : World) : Type 0 where
  pub units_fit : 13 ≤ w.min_str_len
  pub units_fit_name : 13 ≤ w.max_str_len
  pub path_fits : w.max_str_len ≤ w.path_max

module _ (w : World) (room : HasRoom w) where
  stored_sensor :
      (name description filename units : Text)
      → length name < w.max_str_len
      → length filename < w.max_str_len
      → length units < w.min_str_len
      → sighting (
          stored w record {
            name = name;
            units = printed w.min_str_len units;
            description = description;
            path = filename;
            offset = 0;
          })
        ≡ record { name = name; units = units; path = filename; offset = 0 }
  unfolding sighting stored
  stored_sensor name description filename units n f u =
      rw
        (
          printed-all w.max_str_len name n,
          printed-all w.min_str_len units u,
          printed-all w.min_str_len units u,
          printed-all w.path_max filename (omega (arith, room.path_fits)),
        )
        refl

  Finds-sensor_event :
      (name description filename units : Text) (s : Search)
      → length name < w.max_str_len
      → length filename < w.max_str_len
      → length units < w.min_str_len
      → let ev : TempEvent = record {
        name = name;
        units = printed w.min_str_len units;
        description = description;
        path = filename;
        offset = 0;
      } in
        Finds
          (after_insert (insert_in_list w ev s))
          s.root
          s.count
          (record { name = name; units = units; path = filename; offset = 0 } ∷ [])
  Finds-sensor_event name description filename units s n f u =
      let ev : TempEvent = record {
        name = name;
        units = printed w.min_str_len units;
        description = description;
        path = filename;
        offset = 0;
      } in
      subst (λ x. Finds (after_insert (insert_in_list w ev s)) s.root s.count (x ∷ []))
        (stored_sensor name description filename units n f u) (Finds-after_insert w ev s)

  Finds-found :
      (hwmon path : Text) (k : Kind) (i : ℕ) (s : Search)
      → length (input_path path k i) < w.max_str_len
      → length k.units < w.min_str_len
      → Finds
          (found w hwmon (input_path path k i) k i s)
          s.root
          s.count
          (sensor_sighting hwmon path k.prefix k.units i ∷ [])
  unfolding found sensor_sighting
  Finds-found hwmon path k i s f u =
      let description =
        k.units ++ codes ", " ++ s.modulename ++ codes " module, label " ++ s.location in
      Finds-require w.max_str_len (input_name hwmon k i) s _ s.root s.count _ (λ n.
        Finds-require w.max_str_len description s _ s.root s.count _ (λ d.
          Finds-sensor_event (input_name hwmon k i) description (input_path path k i) k.units s n f
            u))

  Finds-with_input :
      (o : Option Text) (hwmon path : Text) (k : Kind) (i : ℕ) (s : Search)
      → length (input_path path k i) < w.max_str_len
      → length k.units < w.min_str_len
      → Finds
          (with_input w hwmon (input_path path k i) k i s o)
          s.root
          s.count
          (where_there o (sensor_sighting hwmon path k.prefix k.units i ∷ []))
  unfolding with_input where_there
  Finds-with_input none hwmon path k i s f u = Finds-nothing s
  Finds-with_input (some bytes) hwmon path k i s f u = Finds-found hwmon path k i s f u

  Finds-sensor :
      (hwmon path : Text) (k : Kind) (i : ℕ) (s : Search)
      → length k.units < w.min_str_len
      → Finds (sensor w hwmon path k i s) s.root s.count (
          where_there
            (w.file (input_path path k i))
            (sensor_sighting hwmon path k.prefix k.units i ∷ []))
  unfolding sensor
  Finds-sensor hwmon path k i s u =
      Finds-require w.max_str_len (label_path path k i) s _ s.root s.count _ (λ l.
        Finds-read_line w (w.file (label_path path k i)) _ s.location s _ s.root s.count _
          (λ location.
            let s' = record s { location = location } in
            Finds-require w.max_str_len (input_path path k i) s' _ s.root s.count _
              (λ f. Finds-with_input (w.file (input_path path k i)) hwmon path k i s' f u)))

  Finds-sensor_loop :
      (hwmon path : Text) (k : Kind) (n i : ℕ) (s : Search)
      → length k.units < w.min_str_len
      → Finds
          (sensor_loop w hwmon path k n i s)
          s.root
          s.count
          (sensors_seen w hwmon path k.prefix k.units n i)
  unfolding sensor_loop sensors_seen
  Finds-sensor_loop hwmon path k zero i s u = Finds-nothing s
  Finds-sensor_loop hwmon path k (suc n) i s u =
      Finds-and_then (sensor w hwmon path k i s) _ s.root s.count _ _
        (Finds-sensor hwmon path k i s u) (λ s'. Finds-sensor_loop hwmon path k n (i + 1) s' u)

  abbrev UnitsFit : List Kind → Type 0
  UnitsFit [] = Unit
  UnitsFit (k ∷ ks) = (length k.units < w.min_str_len) × UnitsFit ks

  Finds-kind_loop :
      (hwmon path : Text) (ks : List Kind) (s : Search)
      → UnitsFit ks
      → Finds
          (kind_loop w hwmon path ks s)
          s.root
          s.count
          (kinds_seen w hwmon path (map (λ k. (k.prefix, k.units)) ks))
  unfolding kind_loop kinds_seen
  Finds-kind_loop hwmon path [] s u = Finds-nothing s
  Finds-kind_loop hwmon path (k ∷ ks) s (u, us) =
      Finds-and_then (sensor_loop w hwmon path k 32 0 s) _ s.root s.count _ _
        (Finds-sensor_loop hwmon path k 32 0 s u) (λ s'. Finds-kind_loop hwmon path ks s' us)

  kinds-UnitsFit : UnitsFit kinds
  kinds-UnitsFit = omega (arith, room.units_fit)

  Finds-monitor_opened :
      (o : Option (List DirEntry)) (hwmon path : Text) (s : Search)
      → Finds (monitor_opened w hwmon path s o) s.root s.count (directory_seen w hwmon path o)
  unfolding monitor_opened directory_seen
  Finds-monitor_opened none hwmon path s = Finds-nothing s
  Finds-monitor_opened (some entries) hwmon path s =
      Finds-require w.max_str_len _ s _ s.root s.count _ (λ l.
        Finds-read_line w _ _ s.modulename s _ s.root s.count _ (λ modulename.
          Finds-kind_loop hwmon path kinds (record s { modulename = modulename }) kinds-UnitsFit))

  Finds-monitor :
      (base hwmon part : Text) (s : Search)
      → let path = monitor_path base hwmon part in
        Finds
          (monitor w base hwmon part s)
          s.root
          s.count
          (directory_seen w hwmon path (w.dir path))
  unfolding monitor
  Finds-monitor base hwmon part s =
      let path = monitor_path base hwmon part in
      Finds-require w.path_max path s _ s.root s.count _
        (λ l. Finds-monitor_opened (w.dir path) hwmon path s)

  -- Both directories of a monitor, and then the rest.
  Finds-monitor_parts :
      (base hwmon : Text) (s : Search) (next : Search → Scan) (rest : List Sighting)
      → ((s' : Search) → Finds (next s') s'.root s'.count rest)
      → Finds
          (and_then
            (monitor w base hwmon (codes "device") s)
            (λ s'. and_then (monitor w base hwmon (codes ".") s') next))
          s.root
          s.count
          ((part_seen w base hwmon (codes "device") ++ part_seen w base hwmon (codes ".")) ++ rest)
  Finds-monitor_parts base hwmon s next rest h =
      let scan =
        and_then (monitor w base hwmon (codes "device") s)
          (λ s'. and_then (monitor w base hwmon (codes ".") s') next) in
      let device = part_seen w base hwmon (codes "device") in
      let here = part_seen w base hwmon (codes ".") in
      subst (λ l. Finds scan s.root s.count l) (sym (append_assoc device here rest))
        (Finds-and_then (monitor w base hwmon (codes "device") s) _ s.root s.count device
          (here ++ rest) (Finds-monitor base hwmon (codes "device") s)
          (λ s'.
            Finds-and_then (monitor w base hwmon (codes ".") s') next s'.root s'.count here rest
              (Finds-monitor base hwmon (codes ".") s') h))

  pub Finds-monitor_loop :
      (base : Text) (entries : List DirEntry) (s : Search)
      → Finds (monitor_loop w base entries s) s.root s.count (monitors_seen w base entries)
  unfolding monitor_loop monitors_seen
  Finds-monitor_loop base [] s = Finds-nothing s
  Finds-monitor_loop base (entry ∷ entries) s =
      elim (Bool-cases (starts_with (codes "hwmon") entry.d_name)) [
        | inl e ↦ rw e (
            Finds-monitor_parts base entry.d_name s (monitor_loop w base entries)
              (monitors_seen w base entries) (λ s'. Finds-monitor_loop base entries s'))
        | inr e ↦ rw e (Finds-monitor_loop base entries s)
      ]
