-- ===== src/Coretemp/Tame/Words.antt =====
-- The words of a counter's file, and the texts that the search makes of them
-- (patches/coretemp/linux-coretemp.c), on a tame machine.
use scorep_amd.Common.{
  ◌≤◌, ◌<◌, ◌≡◌, refl, ap, sym, ◌∙◌, true, [], ◌∷◌, ◌++◌, arith, length, length-append, Bool-cases,
  inl, inr,
}
use mathlib.Core.Path.{subst}
use scorep_amd.Common.Strings.{
  Text, codes, c_string, printed, contains, read_word, next_word, skip_spaces, is_space,
}
use scorep_amd.Coretemp.{World}
use scorep_amd.Coretemp.Cray.{
  Reading, read_counter, cray_units, base_cray_dir, unit_of, measurement_type, words_fit,
}
use scorep_amd.Coretemp.Finds.{printed-all}
use scorep_amd.Coretemp.Tame.{NoNul, IsTame, IsFit}

-- Words and what stands behind them are no longer than the text, and have no NUL if it has none.
abbrev pub IsShort : Text → Type 0
IsShort s = (length s ≤ 48) × NoNul s

skip_spaces-NoNul : (s : Text) → NoNul s → NoNul (skip_spaces s)
unfolding skip_spaces
skip_spaces-NoNul [] n = tt
skip_spaces-NoNul (c ∷ s) (nz, n) = elim (Bool-cases (is_space c)) [
  | inl e ↦ rw e (skip_spaces-NoNul s n)
  | inr e ↦ rw e (nz, n)
]

length-skip_spaces : (s : Text) → length (skip_spaces s) ≤ length s
unfolding skip_spaces
length-skip_spaces [] = omega arith
length-skip_spaces (c ∷ s) = ground (arith, length-skip_spaces s)

read_word-NoNul : (s : Text) → NoNul s → NoNul (read_word s).0 × NoNul (read_word s).1
unfolding read_word
read_word-NoNul [] n = (tt, tt)
read_word-NoNul (c ∷ s) (nz, n) = elim (Bool-cases (is_space c)) [
  | inl e ↦ rw e (tt, (nz, n))
  | inr e ↦ rw e ((nz, (read_word-NoNul s n).0), (read_word-NoNul s n).1)
]

length-read_word :
    (s : Text) → (length (read_word s).0 ≤ length s) × (length (read_word s).1 ≤ length s)
unfolding read_word
length-read_word [] = (omega arith, omega arith)
length-read_word (c ∷ s) = ground (arith, length-read_word s)

next_word-IsShort : (s : Text) → IsShort s → IsShort (next_word s).0 × IsShort (next_word s).1
unfolding next_word
next_word-IsShort s (l, n) =
    let n' = read_word-NoNul (skip_spaces s) (skip_spaces-NoNul s n) in
    let l' = length-read_word (skip_spaces s) in
    (
      (omega (arith, l'.0, length-skip_spaces s), n'.0),
      (omega (arith, l'.1, length-skip_spaces s), n'.1),
    )

c_string-all : (s : Text) → NoNul s → c_string s ≡ s
unfolding c_string
c_string-all [] n = refl
c_string-all (c ∷ s) (nz, n) = ground (arith, c_string-all s)

unit_of-IsShort :
    (w : World) (d_name u : Text)
    → IsTame w
    → IsShort u
    → (0 < length (unit_of w d_name u)) × IsShort (unit_of w d_name u)
unfolding unit_of
unit_of-IsShort w d_name [] tame h = let u = tame.short_unit d_name in (u.0, (u.1, u.2))
unit_of-IsShort w d_name (c ∷ u) tame h = (omega arith, h)

pub cray_units_lem :
    (w : World) (d_name : Text) (r : Reading)
    → IsTame w
    → IsShort r.unit
    → (0 < length (cray_units w d_name r)) × (length (cray_units w d_name r) ≤ 48)
cray_units_lem w d_name r tame h =
    let u = unit_of-IsShort w d_name r.unit tame h in
    let e : cray_units w d_name r ≡ unit_of w d_name r.unit =
      ap (printed w.min_str_len) (c_string-all (unit_of w d_name r.unit) u.1.1)
      ∙ printed-all w.min_str_len (unit_of w d_name r.unit) (omega (arith, tame.min_size, u.1.0)) in
    subst (λ t. (0 < length t) × (length t ≤ 48)) (sym e) (u.0, u.1.0)

pub record IsShortReading (r : Reading) : Type 0 where
  pub short_value : IsShort r.value
  pub short_unit : IsShort r.unit
  pub short_timestamp : IsShort r.timestamp

pub read_counter-IsShortReading :
    (bytes : Text) → IsShort bytes → IsShortReading (read_counter bytes)
unfolding read_counter
read_counter-IsShortReading bytes h =
    let first = next_word-IsShort bytes h in
    let second = next_word-IsShort (next_word bytes).1 first.1 in
    record {
      short_value = first.0;
      short_unit = second.0;
      short_timestamp = (next_word-IsShort (next_word (next_word bytes).1).1 second.1).0;
    }

pub words_fit_lem : (w : World) (r : Reading) → IsTame w → IsShortReading r → words_fit w r ≡ true
unfolding words_fit
words_fit_lem w r tame h =
    ground (arith, tame.max_size, h.short_value.0, h.short_unit.0, h.short_timestamp.0)

pub measurement_type-short : (d_name : Text) → length (measurement_type d_name) ≤ 18
measurement_type-short d_name = elim (Bool-cases (contains (codes "energy") d_name)) [
  | inl e ↦ rw e (omega arith)
  | inr e ↦ rw e (omega arith)
]

pub description-IsFit :
    (u m : Text) → length u ≤ 48 → length m ≤ 18 → IsFit 128 (u ++ codes ", " ++ m)
description-IsFit u m a b = omega (arith, length-append {0})

pub value_name-IsFit : (d : Text) → length d ≤ 40 → IsFit 128 (codes "craypm:" ++ d)
value_name-IsFit d h = omega (arith, length-append {0})

pub timestamp_name-IsFit :
    (d : Text) → length d ≤ 40 → IsFit 128 (codes "craypm:" ++ d ++ codes "_timestamp")
timestamp_name-IsFit d h = omega (arith, length-append d (codes "_timestamp"))

pub cray_path-IsFit : (d : Text) → length d ≤ 40 → IsFit 128 (base_cray_dir ++ d)
cray_path-IsFit d h = omega (arith, length-append {0})
