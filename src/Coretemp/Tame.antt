-- ===== src/Coretemp/Tame.antt =====
-- Machines on which generateEventList (patches/coretemp/linux-coretemp.c) goes through: their texts are
-- short, and there is memory.
pub mod Texts
pub mod Monitors
pub mod Words
pub mod Counters
use scorep_amd.Common.{
  ℕ, zero, suc, ◌+◌, ◌-◌, ◌≤◌, ◌<◌, ◌≡◌, ◌≢◌, refl, ap, sym, ◌∙◌, Bool, true, false, ◌&&◌, Option,
  none, some, List, [], ◌∷◌, ◌++◌, arith, length, if◌then◌else◌, ltb, lt→ltb, Bool-cases, inl, inr,
}
use scorep_amd.Common.Run.{Fault}
pub use scorep_amd.Common.Strings.{NoNul}
use scorep_amd.Common.Strings.{Text, printed, formatted}
use scorep_amd.Common.Papi.{PapiErrno, papi_ok}
use scorep_amd.Coretemp.{DirEntry, World, TempEvent, Search, stored, link, insert_in_list}
use scorep_amd.Coretemp.Hwmon.{Scan, going, failed, crashed, and_then, require, after_insert}
use scorep_amd.Coretemp.Cray.{after_cray_insert}
use scorep_amd.Coretemp.Setup.{can_copy, fits_array}
use scorep_amd.Coretemp.Finds.{printed-all}

abbrev pub AreShort : List DirEntry → Type 0
AreShort [] = Unit
AreShort (entry ∷ entries) = (length entry.d_name ≤ 40) × AreShort entries

-- The arrays have the sizes that PAPI gives them or larger ones, all allocations succeed, names of
-- files have at most 40 bytes, and the files that can be read hold at most 48, without NUL. The arrays
-- `modulename` and `location` hold short texts before they are written. So does the array `unit`, whose
-- text is moreover not empty and has no NUL: the source uses it unwritten for a counter whose file has
-- no second word, and an empty text would end the program (`exit(-1)`) when the table is filled.
pub record IsTame (w : World) : Type 0 where
  pub min_size : 64 ≤ w.min_str_len
  pub max_size : 128 ≤ w.max_str_len
  pub path_size : w.max_str_len ≤ w.path_max
  pub allocated : (n : ℕ) → w.memory n ≡ true
  pub short_names :
      (path : Text) (entries : List DirEntry) → w.dir path ≡ some entries → AreShort entries
  pub short_files :
      (path bytes : Text) → w.file path ≡ some bytes → (length bytes ≤ 48) × NoNul bytes
  pub short_modulename : length w.old_modulename ≤ 48
  pub short_location : length w.old_location ≤ 48
  pub short_unit :
      (d_name : Text)
      → (0 < length (w.old_unit d_name))
        × (length (w.old_unit d_name) ≤ 48)
        × NoNul (w.old_unit d_name)

abbrev pub CanCopy : World → List TempEvent → Type 0
CanCopy w [] = Unit
CanCopy w (ev ∷ evs) = (can_copy w ev ≡ true) × CanCopy w evs

abbrev pub IsLinked : List TempEvent → Bool → Type 0
IsLinked [] last = Unit
IsLinked (ev ∷ evs) last = last ≡ true

-- A search that has not gone wrong: its texts are short, `last` is set if there is a list, and the
-- events of the list fit the table.
pub record IsSteady (w : World) (s : Search) : Type 0 where
  pub module_short : length s.modulename ≤ 48
  pub location_short : length s.location ≤ 48
  pub linked : IsLinked s.root s.last
  pub copied : CanCopy w s.root

-- The search goes on, and has not gone wrong.
abbrev pub Goes : World → Scan → Type 0
Goes w (going s) = IsSteady w s
Goes w (failed e s) = ⊥
Goes w (crashed why) = ⊥

abbrev pub IsFit : ℕ → Text → Type 0
IsFit size t = (0 < length t) × (length t < size)

-- A text below 128 bytes fits an array of a name, and one of a path.
module _ (w : World) (tame : IsTame w) where
  pub IsFit-name : (t : Text) → IsFit 128 t → IsFit w.max_str_len t
  IsFit-name t (pos, short) = (pos, omega (arith, tame.max_size))

  pub IsFit-path : (t : Text) → IsFit 128 t → IsFit w.path_max t
  IsFit-path t (pos, short) = (pos, omega (arith, tame.max_size, tame.path_size))

pub Goes-and_then :
    (w : World) (scan : Scan) (next : Search → Scan)
    → Goes w scan
    → ((s : Search) → IsSteady w s → Goes w (next s))
    → Goes w (and_then scan next)
unfolding and_then
Goes-and_then w (going s) next g h = h s g
Goes-and_then w (failed e s) next g h = g
Goes-and_then w (crashed why) next g h = g

pub Goes-require :
    (w : World) (size : ℕ) (t : Text) (s : Search) (next : Text → Scan)
    → IsFit size t
    → Goes w (next t)
    → Goes w (require (formatted size t) s next)
unfolding require formatted
Goes-require w size [] s next (pos, short) g = absurd (omega arith)
Goes-require w size (c ∷ t) s next (pos, short) g = rw (lt→ltb (length (c ∷ t)) size short) g

CanCopy-append :
    (w : World) (evs : List TempEvent) (ev : TempEvent)
    → CanCopy w evs
    → can_copy w ev ≡ true
    → CanCopy w (evs ++ ev ∷ [])
CanCopy-append w [] ev h e = (e, tt)
CanCopy-append w (x ∷ evs) ev (f, h) e = (f, CanCopy-append w evs ev h e)

fits_array-IsFit : (size : ℕ) (t : Text) → IsFit size t → fits_array size t ≡ true
unfolding fits_array
fits_array-IsFit size t (pos, short) =
    rw (lt→ltb 0 (length t) pos, lt→ltb (length t) size short) refl

-- An event whose texts fit is stored so that it can be copied.
can_copy-stored :
    (w : World) (ev : TempEvent)
    → IsFit w.max_str_len ev.name
    → IsFit w.path_max ev.path
    → IsFit w.min_str_len ev.units
    → IsFit w.max_str_len ev.description
    → can_copy w (stored w ev) ≡ true
unfolding can_copy stored
can_copy-stored w ev n p u d =
    rw
      (
        printed-all w.max_str_len ev.name n.1,
        printed-all w.path_max ev.path p.1,
        printed-all w.min_str_len ev.units u.1,
        printed-all w.max_str_len ev.description d.1,
        fits_array-IsFit w.max_str_len ev.name n,
        fits_array-IsFit w.path_max ev.path p,
        fits_array-IsFit w.min_str_len ev.units u,
        fits_array-IsFit w.max_str_len ev.description d,
      )
      refl

Goes-link :
    (w : World) (ev : TempEvent) (root : List TempEvent) (s : Search)
    → can_copy w ev ≡ true
    → IsSteady w s
    → IsLinked root s.last
    → CanCopy w root
    → Goes w (after_insert (link ev root s))
unfolding link after_insert
Goes-link w ev [] s e g l c = record {
  module_short = g.module_short;
  location_short = g.location_short;
  linked = refl;
  copied = (e, tt);
}
Goes-link w ev (x ∷ xs) s e g l c = rw l record {
  module_short = g.module_short;
  location_short = g.location_short;
  linked = refl;
  copied = CanCopy-append w (x ∷ xs) ev c e;
}

Goes-link_cray :
    (w : World) (ev : TempEvent) (root : List TempEvent) (s : Search)
    → can_copy w ev ≡ true
    → IsSteady w s
    → IsLinked root s.last
    → CanCopy w root
    → Goes w (after_cray_insert (link ev root s))
unfolding link after_cray_insert
Goes-link_cray w ev [] s e g l c = record {
  module_short = g.module_short;
  location_short = g.location_short;
  linked = refl;
  copied = (e, tt);
}
Goes-link_cray w ev (x ∷ xs) s e g l c = rw l record {
  module_short = g.module_short;
  location_short = g.location_short;
  linked = refl;
  copied = CanCopy-append w (x ∷ xs) ev c e;
}

module _ (w : World) (tame : IsTame w) (ev : TempEvent) (s : Search) (g : IsSteady w s) where
  pub Goes-after_insert :
      IsFit w.max_str_len ev.name
      → IsFit w.path_max ev.path
      → IsFit w.min_str_len ev.units
      → IsFit w.max_str_len ev.description
      → Goes w (after_insert (insert_in_list w ev s))
  unfolding insert_in_list
  Goes-after_insert n p u d =
      rw (tame.allocated (length s.root))
        (Goes-link w (stored w ev) s.root s (can_copy-stored w ev n p u d) g g.linked g.copied)

  pub Goes-after_cray_insert :
      IsFit w.max_str_len ev.name
      → IsFit w.path_max ev.path
      → IsFit w.min_str_len ev.units
      → IsFit w.max_str_len ev.description
      → Goes w (after_cray_insert (insert_in_list w ev s))
  unfolding insert_in_list
  Goes-after_cray_insert n p u d =
      rw (tame.allocated (length s.root))
        (Goes-link_cray w (stored w ev) s.root s (can_copy-stored w ev n p u d) g g.linked g.copied)
