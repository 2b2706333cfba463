-- ===== src/Coretemp/Tame/Counters.antt =====
-- generateEventList (patches/coretemp/linux-coretemp.c) goes through on a tame machine.
use scorep_amd.Common.{
  ◌≤◌, ◌≡◌, refl, sym, List, [], ◌∷◌, ◌++◌, arith, length, Bool-cases, Option-cases, inl, inr,
}
use mathlib.Core.Path.{subst}
use scorep_amd.Common.Strings.{Text, codes, printed}
use scorep_amd.Coretemp.{DirEntry, World, Search}
use scorep_amd.Coretemp.Hwmon.{Scan, going, failed, crashed, monitor_loop}
use scorep_amd.Coretemp.Cray.{
  Reading, read_counter, is_excluded, cray_units, base_cray_dir, is_empty, measurement_type,
  value_event, timestamp_event, counter_words, counter_opened, counter, counter_loop, cray_counters,
  monitors_opened, generate_event_list,
}
use scorep_amd.Coretemp.Finds.{printed-all}
use scorep_amd.Coretemp.Tame.{
  IsTame, AreShort, IsSteady, Goes, IsFit, IsLinked, CanCopy, Goes-and_then, IsFit-name, IsFit-path,
  Goes-require, Goes-after_cray_insert,
}
use scorep_amd.Coretemp.Tame.Monitors.{Goes-monitor_loop}
use scorep_amd.Coretemp.Tame.Words.{
  cray_units_lem, read_counter-IsShortReading, words_fit_lem, measurement_type-short,
  description-IsFit, value_name-IsFit, timestamp_name-IsFit, cray_path-IsFit, IsShortReading,
}

module _ (w : World) (tame : IsTame w) where
  Goes-value_event :
      (d_name filename : Text) (r : Reading) (s : Search)
      → IsSteady w s
      → length d_name ≤ 40
      → IsFit 128 filename
      → IsShortReading r
      → Goes w (value_event w d_name filename r s)
  unfolding value_event
  Goes-value_event d_name filename r s g h f short =
      let name = codes "craypm:" ++ d_name in
      let units = cray_units w d_name r in
      let u = cray_units_lem w d_name r tame short.short_unit in
      let description = units ++ codes ", " ++ measurement_type d_name in
      let n = IsFit-name w tame name (value_name-IsFit d_name h) in
      let d =
        IsFit-name w tame description
          (description-IsFit units (measurement_type d_name) u.1 (measurement_type-short d_name)) in
      Goes-require w w.max_str_len name s _ n (
        Goes-require w w.max_str_len description s _ d (
          Goes-after_cray_insert w tame
            record {
              name = name;
              units = units;
              description = description;
              path = filename;
              offset = 0;
            }
            s g n (IsFit-path w tame filename f) (u.0, omega (arith, u.1, tame.min_size)) d))

  Goes-timestamp_event :
      (d_name filename : Text) (s : Search)
      → IsSteady w s
      → length d_name ≤ 40
      → IsFit 128 filename
      → Goes w (timestamp_event w d_name filename s)
  unfolding timestamp_event
  Goes-timestamp_event d_name filename s g h f =
      let name = codes "craypm:" ++ d_name ++ codes "_timestamp" in
      let units = printed w.max_str_len (codes "microseconds") in
      let e : units ≡ codes "microseconds" =
        printed-all w.max_str_len (codes "microseconds") (omega (arith, tame.max_size)) in
      let description = units ++ codes ", timestamp of last measurement" in
      let n = IsFit-name w tame name (timestamp_name-IsFit d_name h) in
      let d : IsFit w.max_str_len description =
        subst (λ t. IsFit w.max_str_len (t ++ codes ", timestamp of last measurement")) (sym e)
          (omega (arith, tame.max_size)) in
      Goes-require w w.max_str_len name s _ n (
        Goes-require w w.max_str_len description s _ d (
          Goes-after_cray_insert w tame
            record {
              name = name;
              units = units;
              description = description;
              path = filename;
              offset = 2;
            }
            s g n (IsFit-path w tame filename f)
            (subst (IsFit w.min_str_len) (sym e) (omega (arith, tame.min_size))) d))

  Goes-counter_words :
      (d_name filename : Text) (r : Reading) (s : Search)
      → IsSteady w s
      → length d_name ≤ 40
      → IsFit 128 filename
      → IsShortReading r
      → Goes w (counter_words w d_name filename r s)
  unfolding counter_words
  Goes-counter_words d_name filename r s g h f short = rw (words_fit_lem w r tame short) (
      Goes-and_then w (value_event w d_name filename r s) _
        (Goes-value_event d_name filename r s g h f short)
        (λ s' g'. elim (Bool-cases (is_empty r.timestamp)) [
          | inl e ↦ rw e g'
          | inr e ↦ rw e (Goes-timestamp_event d_name filename s' g' h f)
        ]))

  Goes-counter :
      (entry : DirEntry) (s : Search)
      → IsSteady w s
      → length entry.d_name ≤ 40
      → Goes w (counter w entry s)
  unfolding counter counter_opened
  Goes-counter entry s g h = elim (Bool-cases entry.regular) [
    | inl e ↦ elim (Bool-cases (is_excluded entry.d_name)) [
      | inl x ↦ rw (e, x) g
      | inr x ↦
          rw (e, x)
            (let path = base_cray_dir ++ entry.d_name in
              let f = cray_path-IsFit entry.d_name h in
              Goes-require w w.path_max path s _ (IsFit-path w tame path f)
                (elim (Option-cases (w.file path)) [
                  | inl no_file ↦ rw no_file g
                  | inr there ↦ rw there.1 (
                      Goes-counter_words entry.d_name path (read_counter there.0) s g h f (
                        read_counter-IsShortReading there.0
                          (tame.short_files path there.0 there.1)))
                ]))
    ]
    | inr e ↦ rw e g
  ]

  Goes-counter_loop :
      (entries : List DirEntry) (s : Search)
      → IsSteady w s
      → AreShort entries
      → Goes w (counter_loop w entries s)
  unfolding counter_loop
  Goes-counter_loop [] s g a = g
  Goes-counter_loop (entry ∷ entries) s g (h, a) =
      Goes-and_then w (counter w entry s) (counter_loop w entries) (Goes-counter entry s g h)
        (λ s' g'. Goes-counter_loop entries s' g' a)

  Goes-cray_counters :
      (s : Search) → IsSteady w s → Goes w (cray_counters w (w.dir base_cray_dir) s)
  unfolding cray_counters
  Goes-cray_counters s g = elim (Option-cases (w.dir base_cray_dir)) [
    | inl e ↦ rw e g
    | inr there ↦
        rw there.1 (Goes-counter_loop there.0 s g (tame.short_names base_cray_dir there.0 there.1))
  ]

  Goes-monitors_opened :
      (base : Text) (s : Search)
      → IsSteady w s
      → length base ≤ 40
      → Goes w (monitors_opened w base (w.dir base) s)
  unfolding monitors_opened
  Goes-monitors_opened base s g a = elim (Option-cases (w.dir base)) [
    | inl e ↦ rw e g
    | inr there ↦ rw there.1 (
        Goes-and_then w (monitor_loop w base there.0 s) (cray_counters w (w.dir base_cray_dir))
          (Goes-monitor_loop w tame base there.0 s g a (tame.short_names base there.0 there.1))
          (λ s' g'. Goes-cray_counters s' g'))
  ]

Goes-cases :
    (w : World) (scan : Scan) → Goes w scan → (s : Search) × (scan ≡ going s) × IsSteady w s
Goes-cases w (going s) g = (s, refl, g)
Goes-cases w (failed e s) g = absurd g
Goes-cases w (crashed why) g = absurd g

-- The search goes through where the allocations succeed, the arrays have the sizes that PAPI gives them
-- or larger ones, the base directory's path and names have at most 40 bytes, the files that can be read
-- have at most 48, without NUL, and the arrays that the source may use unwritten happen to hold texts of
-- at most 48 bytes: `modulename`, `location`, and, for a counter whose file has no second word, `unit`,
-- whose text is also not empty and has no NUL. Then the texts of all events in the list fit the table,
-- and `last` is set if there are any. It is assumed that this held of the list before.
pub generate_event_list-goes :
    (w : World) (base : Text) (s : Search)
    → IsTame w
    → length base ≤ 40
    → IsLinked s.root s.last
    → CanCopy w s.root
    → (s' : Search) × (generate_event_list w base s ≡ going s') × IsSteady w s'
unfolding generate_event_list
generate_event_list-goes w base s tame short l c =
    let start = record s { modulename = w.old_modulename; location = w.old_location; count = 0 } in
    Goes-cases w (monitors_opened w base (w.dir base) start) (
      Goes-monitors_opened w tame base start
        record {
          module_short = tame.short_modulename;
          location_short = tame.short_location;
          linked = l;
          copied = c;
        }
        short)
