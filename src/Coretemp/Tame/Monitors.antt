-- ===== src/Coretemp/Tame/Monitors.antt =====
-- The loops of generateEventList (patches/coretemp/linux-coretemp.c) over monitors go through on a tame
-- machine.
use scorep_amd.Common.{
  ℕ, zero, suc, ◌+◌, ◌≤◌, ◌<◌, ◌≡◌, sym, Option, none, some, List, [], ◌∷◌, ◌++◌, arith, length,
  length-append, Bool-cases, inl, inr,
}
use mathlib.Core.Path.{subst}
use scorep_amd.Common.Strings.{Text, codes, printed, starts_with}
use scorep_amd.Coretemp.{DirEntry, World, Search}
use scorep_amd.Coretemp.Hwmon.{
  Kind, kinds, label_path, input_path, input_name, monitor_path, found, with_input, sensor,
  sensor_loop, kind_loop, monitor_opened, monitor, monitor_loop,
}
use scorep_amd.Coretemp.Finds.{printed-all}
use scorep_amd.Coretemp.Tame.{
  IsTame, AreShort, IsSteady, Goes, IsFit, Goes-and_then, IsFit-name, IsFit-path, Goes-require,
  Goes-after_insert,
}
use scorep_amd.Coretemp.Tame.Texts.{Goes-read_line, length-decimal, input_path-IsFit}

abbrev pub AreKinds : List Kind → Type 0
AreKinds [] = Unit
AreKinds (k ∷ ks) =
    (length k.prefix ≤ 5) × (0 < length k.units) × (length k.units ≤ 10) × AreKinds ks

description_of : Kind → Text → Text → Text
description_of k modulename location =
    k.units ++ codes ", " ++ modulename ++ codes " module, label " ++ location

description_of-IsFit :
    (k : Kind) (modulename location : Text)
    → length k.units ≤ 10
    → length modulename ≤ 48
    → length location ≤ 48
    → IsFit 128 (description_of k modulename location)
unfolding description_of
description_of-IsFit k m l a b c = omega (arith, length-append {0})

input_name-IsFit :
    (hwmon : Text) (k : Kind) (i : ℕ)
    → length hwmon ≤ 40
    → length k.prefix ≤ 5
    → IsFit 128 (input_name hwmon k i)
input_name-IsFit hwmon k i a b = omega (arith, length-append {0}, length-decimal i)

label_path-IsFit :
    (path : Text) (k : Kind) (i : ℕ)
    → length path ≤ 105
    → length k.prefix ≤ 5
    → IsFit 128 (label_path path k i)
label_path-IsFit path k i a b = omega (arith, length-append {0}, length-decimal i)

module _ (w : World) (tame : IsTame w) where
  Goes-found :
      (hwmon filename : Text) (k : Kind) (i : ℕ) (s : Search)
      → IsSteady w s
      → length hwmon ≤ 40
      → IsFit 128 filename
      → length k.prefix ≤ 5
      → 0 < length k.units
      → length k.units ≤ 10
      → Goes w (found w hwmon filename k i s)
  unfolding found description_of
  Goes-found hwmon filename k i s g h f p pos u =
      let name = input_name hwmon k i in
      let description = description_of k s.modulename s.location in
      let n : IsFit w.max_str_len name = IsFit-name w tame name (input_name-IsFit hwmon k i h p) in
      let d : IsFit w.max_str_len description =
        IsFit-name w tame description
          (description_of-IsFit k s.modulename s.location u g.module_short g.location_short) in
      let whole : printed w.min_str_len k.units ≡ k.units =
        printed-all w.min_str_len k.units (omega (arith, tame.min_size)) in
      Goes-require w w.max_str_len name s _ n (
        Goes-require w w.max_str_len description s _ d (
          Goes-after_insert w tame
            record {
              name = name;
              units = printed w.min_str_len k.units;
              description = description;
              path = filename;
              offset = 0;
            }
            s g n (IsFit-path w tame filename f)
            (subst (IsFit w.min_str_len) (sym whole) (pos, omega (arith, tame.min_size))) d))

  Goes-with_input :
      (o : Option Text) (hwmon filename : Text) (k : Kind) (i : ℕ) (s : Search)
      → IsSteady w s
      → length hwmon ≤ 40
      → IsFit 128 filename
      → length k.prefix ≤ 5
      → 0 < length k.units
      → length k.units ≤ 10
      → Goes w (with_input w hwmon filename k i s o)
  unfolding with_input
  Goes-with_input none hwmon filename k i s g h f p pos u = g
  Goes-with_input (some bytes) hwmon filename k i s g h f p pos u =
      Goes-found hwmon filename k i s g h f p pos u

  Goes-sensor :
      (hwmon path : Text) (k : Kind) (i : ℕ) (s : Search)
      → IsSteady w s
      → length hwmon ≤ 40
      → length path ≤ 90
      → length k.prefix ≤ 5
      → 0 < length k.units
      → length k.units ≤ 10
      → Goes w (sensor w hwmon path k i s)
  unfolding sensor
  Goes-sensor hwmon path k i s g h l p pos u =
      let label = label_path path k i in
      let filename = input_path path k i in
      let f : IsFit 128 filename = input_path-IsFit 128 path k i (omega arith) in
      Goes-require w w.max_str_len label s _
        (IsFit-name w tame label (label_path-IsFit path k i (omega arith) p))
        (Goes-read_line w tame label (codes "?") s.location s _ (omega arith) g.location_short
          (λ location short.
            let s' = record s { location = location } in
            let g' : IsSteady w s' = record {
              module_short = g.module_short;
              location_short = short;
              linked = g.linked;
              copied = g.copied;
            } in
            Goes-require w w.max_str_len filename s' _ (IsFit-name w tame filename f)
              (Goes-with_input (w.file filename) hwmon filename k i s' g' h f p pos u)))

  Goes-sensor_loop :
      (hwmon path : Text) (k : Kind) (n i : ℕ) (s : Search)
      → IsSteady w s
      → length hwmon ≤ 40
      → length path ≤ 90
      → length k.prefix ≤ 5
      → 0 < length k.units
      → length k.units ≤ 10
      → Goes w (sensor_loop w hwmon path k n i s)
  unfolding sensor_loop
  Goes-sensor_loop hwmon path k zero i s g h l p pos u = g
  Goes-sensor_loop hwmon path k (suc n) i s g h l p pos u =
      Goes-and_then w (sensor w hwmon path k i s) _ (Goes-sensor hwmon path k i s g h l p pos u)
        (λ s' g'. Goes-sensor_loop hwmon path k n (i + 1) s' g' h l p pos u)

  Goes-kind_loop :
      (hwmon path : Text) (ks : List Kind) (s : Search)
      → IsSteady w s
      → length hwmon ≤ 40
      → length path ≤ 90
      → AreKinds ks
      → Goes w (kind_loop w hwmon path ks s)
  unfolding kind_loop
  Goes-kind_loop hwmon path [] s g h l a = g
  Goes-kind_loop hwmon path (k ∷ ks) s g h l (p, pos, u, a) =
      Goes-and_then w (sensor_loop w hwmon path k 32 0 s) _
        (Goes-sensor_loop hwmon path k 32 0 s g h l p pos u)
        (λ s' g'. Goes-kind_loop hwmon path ks s' g' h l a)

  name_path-IsFit : (path : Text) → length path ≤ 90 → IsFit 128 (path ++ codes "/name")
  name_path-IsFit path h = omega (arith, length-append {0})

  Goes-monitor_opened :
      (o : Option (List DirEntry)) (hwmon path : Text) (s : Search)
      → IsSteady w s
      → length hwmon ≤ 40
      → length path ≤ 90
      → Goes w (monitor_opened w hwmon path s o)
  unfolding monitor_opened
  Goes-monitor_opened none hwmon path s g h l = g
  Goes-monitor_opened (some entries) hwmon path s g h l =
      let filename = path ++ codes "/name" in
      Goes-require w w.max_str_len filename s _
        (IsFit-name w tame filename (name_path-IsFit path l))
        (Goes-read_line w tame filename (codes "Unknown") s.modulename s _ (omega arith)
          g.module_short
          (λ modulename short.
            Goes-kind_loop hwmon path kinds (record s { modulename = modulename })
              record {
                module_short = short;
                location_short = g.location_short;
                linked = g.linked;
                copied = g.copied;
              }
              h l (omega arith)))

  monitor_path-short :
      (base hwmon part : Text)
      → length base ≤ 40
      → length hwmon ≤ 40
      → length part ≤ 6
      → (0 < length (monitor_path base hwmon part)) × (length (monitor_path base hwmon part) ≤ 90)
  monitor_path-short base hwmon part a b c = omega (arith, length-append {0})

  Goes-monitor :
      (base hwmon part : Text) (s : Search)
      → IsSteady w s
      → length base ≤ 40
      → length hwmon ≤ 40
      → length part ≤ 6
      → Goes w (monitor w base hwmon part s)
  unfolding monitor
  Goes-monitor base hwmon part s g a b c =
      let path = monitor_path base hwmon part in
      let short = monitor_path-short base hwmon part a b c in
      Goes-require w w.path_max path s _ (IsFit-path w tame path (short.0, omega (arith, short.1)))
        (Goes-monitor_opened (w.dir path) hwmon path s g b short.1)

  pub Goes-monitor_loop :
      (base : Text) (entries : List DirEntry) (s : Search)
      → IsSteady w s
      → length base ≤ 40
      → AreShort entries
      → Goes w (monitor_loop w base entries s)
  unfolding monitor_loop
  Goes-monitor_loop base [] s g a short = g
  Goes-monitor_loop base (entry ∷ entries) s g a (h, short) =
      elim (Bool-cases (starts_with (codes "hwmon") entry.d_name)) [
        | inl e ↦ rw e (
            Goes-and_then w (monitor w base entry.d_name (codes "device") s) _
              (Goes-monitor base entry.d_name (codes "device") s g a h (omega arith))
              (λ s1 g1.
                Goes-and_then w (monitor w base entry.d_name (codes ".") s1) _
                  (Goes-monitor base entry.d_name (codes ".") s1 g1 a h (omega arith))
                  (λ s2 g2. Goes-monitor_loop base entries s2 g2 a short)))
        | inr e ↦ rw e (Goes-monitor_loop base entries s g a short)
      ]
