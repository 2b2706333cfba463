-- ===== src/Coretemp/Found/Counters.antt =====
-- The counters of Cray machines, and generateEventList (patches/coretemp/linux-coretemp.c) as a whole.
use scorep_amd.Common.{
  ℕ, ◌<◌, ◌≡◌, refl, ap, ◌∙◌, Option, none, some, List, [], ◌∷◌, ◌++◌, map, arith, length,
  if◌then◌else◌, Bool-cases, inl, inr,
}
use mathlib.Core.Path.{subst}
use scorep_amd.Common.Strings.{Text, codes, printed, c_string, same_text}
use scorep_amd.Coretemp.{DirEntry, World, TempEvent, Search, stored, insert_in_list}
use scorep_amd.Coretemp.Hwmon.{Scan, going, monitor_loop}
use scorep_amd.Coretemp.Cray.{
  Reading, read_counter, is_excluded, cray_units, is_empty, unit_of, after_cray_insert,
  measurement_type, value_event, timestamp_event, words_fit, counter_words, counter_opened, counter,
  counter_loop, cray_counters, monitors_opened, generate_event_list,
}
use scorep_amd.Coretemp.Found.{HasRoom, Finds-monitor_loop}
use scorep_amd.Coretemp.Sightings.{
  Sighting, sighting, monitors_seen, pm_counters, word_at, unit_seen, value_sighting,
  timestamp_seen, counter_file_seen, counters_seen, counter_seen, cray_seen, all_seen,
}
use scorep_amd.Coretemp.Finds.{
  Finds, Finds-nothing, Finds-and_then, printed-all, printed_idem, Finds-require,
  Finds-after_cray_insert,
}

module _ (w : World) (room : HasRoom w) where
  stored_value :
      (name description filename units : Text)
      → length name < w.max_str_len
      → length filename < w.path_max
      → sighting (
          stored w record {
            name = name;
            units = printed w.min_str_len units;
            description = description;
            path = filename;
            offset = 0;
          })
        ≡ record { name = name; units = printed w.min_str_len units; path = filename; offset = 0 }
  unfolding sighting stored
  stored_value name description filename units n f =
      rw
        (
          printed-all w.max_str_len name n,
          printed_idem w.min_str_len units,
          printed-all w.path_max filename f,
        )
        refl

  stored_timestamp :
      (name description filename : Text)
      → length name < w.max_str_len
      → length filename < w.path_max
      → sighting (
          stored w record {
            name = name;
            units = printed w.max_str_len (codes "microseconds");
            description = description;
            path = filename;
            offset = 2;
          })
        ≡ record { name = name; units = codes "microseconds"; path = filename; offset = 2 }
  unfolding sighting stored
  stored_timestamp name description filename n f =
      rw
        (
          printed-all w.max_str_len name n,
          printed-all w.max_str_len (codes "microseconds") (omega (arith, room.units_fit_name)),
          printed-all w.min_str_len (codes "microseconds") (omega (arith, room.units_fit)),
          printed-all w.path_max filename f,
        )
        refl

  Finds-cray_event :
      (ev : TempEvent) (s : Search) (seen : Sighting)
      → sighting (stored w ev) ≡ seen
      → Finds (after_cray_insert (insert_in_list w ev s)) s.root s.count (seen ∷ [])
  Finds-cray_event ev s seen e =
      subst (λ x. Finds (after_cray_insert (insert_in_list w ev s)) s.root s.count (x ∷ [])) e
        (Finds-after_cray_insert w ev s)

  unit_seen_lem :
      (d_name u : Text)
      → printed w.min_str_len (c_string (unit_of w d_name u)) ≡ unit_seen w d_name u
  unfolding unit_of unit_seen
  unit_seen_lem d_name [] = refl
  unit_seen_lem d_name (c ∷ u) = refl

  Finds-value_event :
      (d_name : Text) (r : Reading) (s : Search)
      → length (pm_counters ++ d_name) < w.path_max
      → Finds
          (value_event w d_name (pm_counters ++ d_name) r s)
          s.root
          s.count
          (value_sighting w d_name r.unit ∷ [])
  unfolding value_event value_sighting
  Finds-value_event d_name r s f =
      let name = codes "craypm:" ++ d_name in
      let filename = pm_counters ++ d_name in
      let description = cray_units w d_name r ++ codes ", " ++ measurement_type d_name in
      let ev : TempEvent = record {
        name = name;
        units = cray_units w d_name r;
        description = description;
        path = filename;
        offset = 0;
      } in
      Finds-require w.max_str_len name s _ s.root s.count _ (λ n.
        Finds-require w.max_str_len description s _ s.root s.count _ (λ d.
          Finds-cray_event ev s (value_sighting w d_name r.unit) (
            stored_value name description filename (c_string (unit_of w d_name r.unit)) n f
            ∙ ap (λ (u : Text). record { name = name; units = u; path = filename; offset = 0 })
                (unit_seen_lem d_name r.unit))))

  -- What a third word that is not empty stands for.
  timestamp_sighting : Text → Sighting
  timestamp_sighting d_name = record {
    name = codes "craypm:" ++ d_name ++ codes "_timestamp";
    units = codes "microseconds";
    path = pm_counters ++ d_name;
    offset = 2;
  }

  Finds-timestamp_event :
      (d_name : Text) (s : Search)
      → length (pm_counters ++ d_name) < w.path_max
      → Finds
          (timestamp_event w d_name (pm_counters ++ d_name) s)
          s.root
          s.count
          (timestamp_sighting d_name ∷ [])
  unfolding timestamp_event timestamp_sighting
  Finds-timestamp_event d_name s f =
      let filename = pm_counters ++ d_name in
      let name = codes "craypm:" ++ d_name ++ codes "_timestamp" in
      let units = printed w.max_str_len (codes "microseconds") in
      let description = units ++ codes ", timestamp of last measurement" in
      let ev : TempEvent = record {
        name = name;
        units = units;
        description = description;
        path = filename;
        offset = 2;
      } in
      Finds-require w.max_str_len name s _ s.root s.count _ (λ n.
        Finds-require w.max_str_len description s _ s.root s.count _
          (λ d. Finds-cray_event ev s _ (stored_timestamp name description filename n f)))

  Finds-timestamp_if :
      (timestamp d_name : Text) (s : Search)
      → length (pm_counters ++ d_name) < w.path_max
      → Finds
          (if is_empty timestamp
            then going s
            else timestamp_event w d_name (pm_counters ++ d_name) s)
          s.root
          s.count
          (timestamp_seen d_name timestamp)
  unfolding is_empty timestamp_seen timestamp_sighting
  Finds-timestamp_if [] d_name s f = Finds-nothing s
  Finds-timestamp_if (c ∷ t) d_name s f = Finds-timestamp_event d_name s f

  Finds-counter_words :
      (d_name : Text) (r : Reading) (s : Search)
      → length (pm_counters ++ d_name) < w.path_max
      → Finds
          (counter_words w d_name (pm_counters ++ d_name) r s)
          s.root
          s.count
          (value_sighting w d_name r.unit ∷ timestamp_seen d_name r.timestamp)
  unfolding counter_words
  Finds-counter_words d_name r s f = elim (Bool-cases (words_fit w r)) [
    | inl e ↦ rw e (
        Finds-and_then (value_event w d_name (pm_counters ++ d_name) r s) _ s.root s.count
          (value_sighting w d_name r.unit ∷ []) _ (Finds-value_event d_name r s f)
          (λ s'. Finds-timestamp_if r.timestamp d_name s' f))
    | inr e ↦ rw e tt
  ]

  Finds-counter_opened :
      (o : Option Text) (d_name : Text) (s : Search)
      → length (pm_counters ++ d_name) < w.path_max
      → Finds
          (counter_opened w d_name (pm_counters ++ d_name) s o)
          s.root
          s.count
          (counter_file_seen w d_name o)
  unfolding counter_opened counter_file_seen read_counter word_at
  Finds-counter_opened none d_name s f = Finds-nothing s
  Finds-counter_opened (some bytes) d_name s f = Finds-counter_words d_name (read_counter bytes) s f

  Finds-counter :
      (entry : DirEntry) (s : Search)
      → Finds (counter w entry s) s.root s.count (counter_seen w entry)
  unfolding counter counter_seen is_excluded
  Finds-counter entry s = elim (Bool-cases entry.regular) [
    | inl e ↦ elim (Bool-cases (same_text entry.d_name (codes "version"))) [
      | inl x ↦ rw (e, x) (Finds-nothing s)
      | inr x ↦ elim (Bool-cases (same_text entry.d_name (codes "startup"))) [
        | inl y ↦ rw (e, x, y) (Finds-nothing s)
        | inr y ↦
            rw (e, x, y)
              (let path = pm_counters ++ entry.d_name in
                Finds-require w.path_max path s _ s.root s.count _
                  (λ f. Finds-counter_opened (w.file path) entry.d_name s f))
      ]
    ]
    | inr e ↦ rw e (Finds-nothing s)
  ]

  Finds-counter_loop :
      (entries : List DirEntry) (s : Search)
      → Finds (counter_loop w entries s) s.root s.count (counters_seen w entries)
  unfolding counter_loop counters_seen
  Finds-counter_loop [] s = Finds-nothing s
  Finds-counter_loop (entry ∷ entries) s =
      Finds-and_then (counter w entry s) (counter_loop w entries) s.root s.count
        (counter_seen w entry) (counters_seen w entries) (Finds-counter entry s)
        (λ s'. Finds-counter_loop entries s')

  Finds-cray_counters :
      (o : Option (List DirEntry)) (s : Search)
      → Finds (cray_counters w o s) s.root s.count (cray_seen w o)
  unfolding cray_counters cray_seen
  Finds-cray_counters none s = Finds-nothing s
  Finds-cray_counters (some entries) s = Finds-counter_loop entries s

  Finds-monitors_opened :
      (base : Text) (o : Option (List DirEntry)) (s : Search)
      → Finds (monitors_opened w base o s) s.root s.count (all_seen w base o)
  unfolding monitors_opened all_seen
  Finds-monitors_opened base none s = Finds-nothing s
  Finds-monitors_opened base (some entries) s =
      Finds-and_then (monitor_loop w base entries s) (cray_counters w (w.dir pm_counters)) s.root
        s.count (monitors_seen w base entries) (cray_seen w (w.dir pm_counters))
        (Finds-monitor_loop w room base entries s)
        (λ s'. Finds-cray_counters (w.dir pm_counters) s')

Finds-going :
    (scan : Scan) (root : List TempEvent) (count : ℕ) (seen : List Sighting) (s : Search)
    → scan ≡ going s
    → Finds scan root count seen
    → Finds (going s) root count seen
Finds-going scan root count seen s e f = subst (λ x. Finds x root count seen) e f

-- A search that goes through appends to the list exactly what there is to be found, in order, and
-- returns their number. What there is to be found is said from the machine's directories and files
-- alone: for each directory `device` or `.` of a monitor that can be opened, an event for each input
-- file with a number below 32 of the voltages, temperatures, powers and fans, in this order, with its
-- unit; and for each regular file of /sys/cray/pm_counters/ but `version` and `startup` that can be
-- read, the event of its value, whose unit is the file's second word or what the array held before, and,
-- if the file has three words, that of its timestamp. Names, units and paths are stored whole where the
-- arrays have room for the units of the sensors, and a path array for a name.
pub generate_event_list-all_seen :
    (w : World) (base : Text) (s s' : Search)
    → HasRoom w
    → generate_event_list w base s ≡ going s'
    → (map sighting s'.root ≡ map sighting s.root ++ all_seen w base (w.dir base))
      × (s'.count ≡ length (all_seen w base (w.dir base)))
unfolding generate_event_list
generate_event_list-all_seen w base s s' room e =
    let start = record s { modulename = w.old_modulename; location = w.old_location; count = 0 } in
    let seen = all_seen w base (w.dir base) in
    let found : Finds (going s') s.root 0 seen =
      Finds-going _ s.root 0 seen s' e (Finds-monitors_opened w room base (w.dir base) start) in
    (found.0, omega (arith, found.1))
