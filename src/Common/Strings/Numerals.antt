-- ===== src/Common/Strings/Numerals.antt =====
-- What `strtoll` reads from a decimal numeral.
use Prim.Native.Nat.{ℕ, suc, ◌+◌, ◌-◌, ◌*◌, ◌^◌, ◌≤◌}
use mathlib.Core.Path.{◌≡◌, ap, ◌∙◌}
use mathlib.Core.Bool.{true, false}
use mathlib.Core.List.{[], ◌∷◌, ◌++◌}
use native.Mathlib.Omega.{arith}
use native.Mathlib.Nat.{pow-suc, pow-zero}
use scorep_amd.Common.Lists.{length}
use scorep_amd.Common.Strings.{
  Text, is_digit, skip_spaces, read_digits, starts_digit, positive, strtoll_sign, strtoll,
}

-- The number that a list of decimal digits denotes, most significant first.
unfoldable pub numeral : Text → ℕ
numeral [] = 0
numeral (d ∷ ds) = (d - 48) * 10 ^ length ds + numeral ds

abbrev pub AreDigits : Text → Type 0
AreDigits [] = Unit
AreDigits (d ∷ ds) = (48 ≤ d) × (d ≤ 57) × AreDigits ds

horner : (acc e l n : ℕ) → (acc * 10 + e) * 10 ^ l + n ≡ acc * 10 ^ suc l + (e * 10 ^ l + n)
horner acc e l n = rw (pow-suc 10 l) (omega arith)

digit_test : (d : ℕ) → 48 ≤ d → d ≤ 57 → is_digit d ≡ true
unfolding is_digit
digit_test d lo hi = ground arith

pub read_digits-numeral :
    (ds rest : Text) (acc : ℕ)
    → AreDigits ds
    → starts_digit rest ≡ false
    → read_digits acc (ds ++ rest) ≡ (acc * 10 ^ length ds + numeral ds, rest)
unfolding read_digits numeral starts_digit
read_digits-numeral [] [] acc a e = ground (arith, pow-zero 10)
read_digits-numeral [] (c ∷ cs) acc a e = ground (arith, pow-zero 10)
read_digits-numeral (d ∷ ds) rest acc (lo, hi, a) e = rw (digit_test d lo hi) (
    read_digits-numeral ds rest (acc * 10 + (d - 48)) a e
    ∙ ap (λ n. (n, rest)) (horner acc (d - 48) (length ds) (numeral ds)))

skip_spaces-digit : (d : ℕ) (cs : Text) → 48 ≤ d → d ≤ 57 → skip_spaces (d ∷ cs) ≡ d ∷ cs
unfolding skip_spaces
skip_spaces-digit d cs lo hi = ground arith

strtoll_sign-digit :
    (s : Text) (d : ℕ) (cs : Text)
    → 48 ≤ d
    → d ≤ 57
    → strtoll_sign s (d ∷ cs) ≡ positive (read_digits 0 (d ∷ cs))
unfolding strtoll_sign
strtoll_sign-digit s d cs lo hi = ground arith

zero_add_lem : (l n : ℕ) → 0 * 10 ^ l + n ≡ n
zero_add_lem l n = omega arith

positive_lem : (n : ℕ) (rest : Text) → n ≤ 2 ^ 63 - 1 → positive (n, rest) ≡ (n, rest)
unfolding positive
positive_lem n rest h = ground arith

pub strtoll-numeral :
    (d : ℕ) (ds rest : Text)
    → AreDigits (d ∷ ds)
    → numeral (d ∷ ds) ≤ 2 ^ 63 - 1
    → starts_digit rest ≡ false
    → strtoll (d ∷ ds ++ rest) ≡ (numeral (d ∷ ds), rest)
unfolding strtoll
strtoll-numeral d ds rest (lo, hi, a) small e =
    ap (strtoll_sign (d ∷ (ds ++ rest))) (skip_spaces-digit d (ds ++ rest) lo hi)
    ∙ strtoll_sign-digit (d ∷ (ds ++ rest)) d (ds ++ rest) lo hi
    ∙ ap positive (read_digits-numeral (d ∷ ds) rest 0 (lo, hi, a) e)
    ∙ ap (λ n. positive (n, rest)) (zero_add_lem (length (d ∷ ds)) (numeral (d ∷ ds)))
    ∙ positive_lem (numeral (d ∷ ds)) rest small
