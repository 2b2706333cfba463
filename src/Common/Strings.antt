-- ===== src/Common/Strings.antt =====
-- C strings and what the programs use of the C library on them.
pub mod Numerals
use Prim.Native.Char.{code}
use Prim.Native.String.{String}
use scorep_amd.Common.Tests.{leb, ltb, ◌==◌, if◌then◌else◌}
use scorep_amd.Common.Lists.{length, take}
use Prim.Native.Nat.{ℕ, zero, suc, ◌+◌, ◌-◌, ◌*◌, ◌/◌, ◌%◌, ◌^◌}
use mathlib.Core.Bool.{Bool, true, false, ◌&&◌, ◌||◌}
use mathlib.Core.Logic.{◌≢◌}
use mathlib.Core.List.{List, [], ◌∷◌}
use mathlib.Core.Option.{Option, none, some}

-- A C string: its bytes, without the final NUL.
abbrev pub Text : Type 0
Text = List ℕ

unfoldable pub is_space : ℕ → Bool
is_space c = c == 32 || (leb 9 c && leb c 13)

unfoldable pub is_digit : ℕ → Bool
is_digit c = leb b'0' c && leb c b'9'

unfoldable pub skip_spaces : Text → Text
unfolding is_space
skip_spaces [] = []
skip_spaces (c ∷ cs) = if is_space c then skip_spaces cs else c ∷ cs

-- The digits of the C library's `strtoll`, from a value read so far; the rest begins at the first
-- byte that is no digit.
unfoldable pub read_digits : ℕ → Text → ℕ × Text
unfolding is_digit
read_digits acc [] = (acc, [])
read_digits acc (c ∷ cs) =
    let rest = read_digits (acc * 10 + (c - 48)) cs in if is_digit c then rest else (acc, c ∷ cs)

unfoldable pub starts_digit : Text → Bool
unfolding is_digit
starts_digit [] = false
starts_digit (c ∷ cs) = is_digit c

-- The value saturates at the ends of `long long`, and is returned as 64 bits.
unfoldable pub positive : ℕ × Text → ℕ × Text
positive (n, rest) = (if leb n (2 ^ 63 - 1) then n else 2 ^ 63 - 1, rest)

unfoldable pub negative : ℕ × Text → ℕ × Text
negative (n, rest) = (if leb n (2 ^ 63) then (2 ^ 64 - n) % 2 ^ 64 else 2 ^ 63, rest)

-- Without a digit nothing is consumed, and the value is 0.
unfoldable pub strtoll_sign : Text → Text → ℕ × Text
unfolding starts_digit read_digits positive negative
strtoll_sign s [] = (0, s)
strtoll_sign s (c ∷ cs) =
    if c == b'-'
    then (if starts_digit cs then negative (read_digits 0 cs) else (0, s))
    else (if c == b'+'
        then (if starts_digit cs then positive (read_digits 0 cs) else (0, s))
        else (if starts_digit (c ∷ cs) then positive (read_digits 0 (c ∷ cs)) else (0, s)))

unfoldable pub strtoll : Text → ℕ × Text
unfolding skip_spaces strtoll_sign
strtoll s = strtoll_sign s (skip_spaces s)

-- The bytes of a literal.
abbrev pub codes : String → Text
codes String.[] = []
codes (String.◌∷◌ c s) = code c ∷ codes s

-- `%d` of a number below 100.
unfoldable pub decimal : ℕ → Text
decimal n = if ltb n 10 then (48 + n) ∷ [] else (48 + n / 10) ∷ (48 + n % 10) ∷ []

-- `strcmp(s, t) == 0`
unfoldable pub same_text : Text → Text → Bool
same_text [] [] = true
same_text [] (d ∷ t) = false
same_text (c ∷ s) [] = false
same_text (c ∷ s) (d ∷ t) = c == d && same_text s t

-- `!strncmp(prefix, s, strlen(prefix))`
unfoldable pub starts_with : Text → Text → Bool
starts_with [] s = true
starts_with (c ∷ prefix) [] = false
starts_with (c ∷ prefix) (d ∷ s) = c == d && starts_with prefix s

-- `strstr(s, part) != NULL`
unfoldable pub contains : Text → Text → Bool
unfolding starts_with
contains part [] = starts_with part []
contains part (c ∷ s) = starts_with part (c ∷ s) || contains part s

-- A text without NUL.
abbrev pub NoNul : Text → Type 0
NoNul [] = Unit
NoNul (c ∷ s) = (c ≢ 0) × NoNul s

-- What a string function sees of an array: the bytes before the first NUL.
unfoldable pub c_string : Text → Text
c_string [] = []
c_string (c ∷ s) = if c == 0 then [] else c ∷ c_string s

-- `snprintf(buf, size, …)` of the text `s`: what `buf` holds afterwards.
unfoldable pub printed : ℕ → Text → Text
printed size s = take (size - 1) s

-- The same with the test `retlen <= 0 || size <= retlen` after it: `none` where the test holds.
unfoldable pub formatted : ℕ → Text → Option Text
formatted size [] = none
formatted size (c ∷ s) = if ltb (length (c ∷ s)) size then some (c ∷ s) else none

-- The first line of a file, with its newline, and at most `n` bytes of it.
unfoldable pub first_line : ℕ → Text → Text
first_line zero s = []
first_line (suc n) [] = []
first_line (suc n) (c ∷ s) = if c == 10 then c ∷ [] else c ∷ first_line n s

-- `fgets(buf, size, file)` at the start of the file; `none` is NULL.
unfoldable pub fgets : ℕ → Text → Option Text
unfolding first_line
fgets size [] = none
fgets size (c ∷ s) = some (first_line (size - 1) (c ∷ s))

-- One `%s` of `fscanf`: the word, which is empty at the end of the file, and the rest.
unfoldable pub read_word : Text → Text × Text
unfolding is_space
read_word [] = ([], [])
read_word (c ∷ s) =
    let (word, rest) = read_word s in if is_space c then ([], c ∷ s) else (c ∷ word, rest)

unfoldable pub next_word : Text → Text × Text
unfolding skip_spaces read_word
next_word s = read_word (skip_spaces s)
