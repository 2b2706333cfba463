-- ===== src/Coretemp/Tame/Texts.antt =====
-- Lengths of the texts that generateEventList (patches/coretemp/linux-coretemp.c) reads and prints on a
-- tame machine.
use scorep_amd.Common.{
  ℕ, zero, suc, ◌+◌, ◌-◌, ◌≤◌, ◌<◌, ◌≡◌, ◌≢◌, sym, [], ◌∷◌, arith, length, length-append,
  Option-cases, inl, inr,
}
use mathlib.Core.Path.{subst}
use scorep_amd.Common.Strings.{Text, decimal, c_string, first_line, fgets}
use scorep_amd.Coretemp.{World, Search}
use scorep_amd.Coretemp.Hwmon.{Scan, but_last, chop, after_fgets, read_line, Kind, input_path}
use scorep_amd.Coretemp.Tame.{NoNul, IsTame, Goes, IsFit}

pub length-decimal : (i : ℕ) → length (decimal i) ≤ 2
unfolding decimal
length-decimal i = ground arith

length-first_line : (n : ℕ) (s : Text) → length (first_line n s) ≤ length s
unfolding first_line
length-first_line zero s = omega arith
length-first_line (suc n) [] = omega arith
length-first_line (suc n) (c ∷ s) = ground (arith, length-first_line n s)

length-c_string : (s : Text) → length (c_string s) ≤ length s
unfolding c_string
length-c_string [] = omega arith
length-c_string (c ∷ s) = ground (arith, length-c_string s)

length-but_last : (c : ℕ) (s : Text) → length (but_last c s) ≤ length s
unfolding but_last
length-but_last c [] = omega arith
length-but_last c (d ∷ s) = omega (arith, length-but_last d s)

-- The cut writes inside the array, and leaves no more than there was.
Goes-chop :
    (w : World) (t : Text) (s : Search) (next : Text → Scan)
    → 0 < length t
    → ((u : Text) → length u ≤ length t → Goes w (next u))
    → Goes w (chop t s next)
unfolding chop
Goes-chop w [] s next pos h = absurd (omega arith)
Goes-chop w (c ∷ t) s next pos h = h (but_last c t) (omega (arith, length-but_last c t))

first_line-nonempty :
    (n c : ℕ) (s : Text) → c ≢ 0 → 0 < length (c_string (first_line (suc n) (c ∷ s)))
unfolding first_line c_string
first_line-nonempty n c s h = ground arith

Goes-after_fgets :
    (w : World) (bytes old : Text) (s : Search) (next : Text → Scan)
    → 2 ≤ w.min_str_len
    → length bytes ≤ 48
    → NoNul bytes
    → length old ≤ 48
    → ((u : Text) → length u ≤ 48 → Goes w (next u))
    → Goes w (after_fgets (fgets w.min_str_len bytes) old s next)
unfolding after_fgets fgets
Goes-after_fgets w [] old s next m l n o h = h old o
Goes-after_fgets w (c ∷ bytes) old s next m l (nz, n) o h =
    let line = first_line (w.min_str_len - 1) (c ∷ bytes) in
    let size : w.min_str_len - 1 ≡ suc (w.min_str_len - 2) = omega arith in
    Goes-chop w (c_string line) s next
      (subst (λ k. 0 < length (c_string (first_line k (c ∷ bytes)))) (sym size)
        (first_line-nonempty (w.min_str_len - 2) c bytes nz))
      (λ u hu.
        h u
          (omega (arith, length-c_string line, length-first_line (w.min_str_len - 1) (c ∷ bytes))))

-- The first line of a file is short.
pub Goes-read_line :
    (w : World) (tame : IsTame w) (path missing old : Text) (s : Search) (next : Text → Scan)
    → length missing ≤ 48
    → length old ≤ 48
    → ((u : Text) → length u ≤ 48 → Goes w (next u))
    → Goes w (read_line w (w.file path) missing old s next)
unfolding read_line
Goes-read_line w tame path missing old s next m o h = elim (Option-cases (w.file path)) [
  | inl e ↦ rw e (h missing m)
  | inr there ↦ rw there.1 (
      Goes-after_fgets w there.0 old s next (omega (arith, tame.min_size))
        (tame.short_files path there.0 there.1).0 (tame.short_files path there.0 there.1).1 o h)
]

pub input_path-IsFit :
    (size : ℕ) (path : Text) (k : Kind) (i : ℕ)
    → length path + length k.prefix + 9 < size
    → IsFit size (input_path path k i)
input_path-IsFit size path k i h = omega (arith, length-append {0}, length-decimal i)
