-- ===== src/Plugin/BufferSize/Numeral.antt =====
-- What parse_buffer_size (plugins/scorep-coretemp-plugin/apapi.c) reads from a decimal numeral with a
-- unit, and the sizes that init_coretemp accepts.
use scorep_amd.Common.{
  ℕ, zero, suc, ◌-◌, ◌*◌, ◌%◌, ◌^◌, ◌≤◌, ◌<◌, ◌≡◌, refl, ◌∙◌, ap, ◌≢◌, false, Option, none, some,
  [], ◌∷◌, ◌++◌, arith, if◌then◌else◌, ltb, ◌==◌, replicate,
}
use scorep_amd.Common.Strings.{
  Text, is_digit, skip_spaces, read_digits, starts_digit, positive, negative, strtoll_sign, strtoll,
}
use scorep_amd.Common.Strings.Numerals.{numeral, AreDigits, strtoll-numeral}
use scorep_amd.Plugin.{Globals, default_buf_size}
use scorep_amd.Plugin.BufferSize.{
  skip_blanks, scale, parse_read, parse_buffer_size, atoi, interval_of, buf_size_of, InitCalls,
  init,
}

-- The power of 1024 that a unit stands for.
unfoldable pub exponent : ℕ → ℕ
exponent c = if c == b'G' then 3 else (if c == b'M' then 2 else (if c == b'K' then 1 else 0))

-- A byte that ends a numeral and its blanks.
abbrev pub IsEnd : ℕ → Type 0
IsEnd c = (c ≢ 32) × (is_digit c ≡ false)

skip_blanks-replicate :
    (n c : ℕ) (cs : Text) → c ≢ 32 → skip_blanks (replicate n 32 ++ c ∷ cs) ≡ c ∷ cs
unfolding skip_blanks
skip_blanks-replicate zero c cs h = ground arith
skip_blanks-replicate (suc n) c cs h = ground (arith, skip_blanks-replicate n c cs)

scale-exponent :
    (c n : ℕ) (cs : Text) → n < 2 ^ 64 → scale (c ∷ cs) n ≡ n * 1024 ^ exponent c % 2 ^ 64
unfolding scale exponent
scale-exponent c n cs h = ground arith

starts_digit-blanks :
    (n c : ℕ) (cs : Text) → IsEnd c → starts_digit (replicate n 32 ++ c ∷ cs) ≡ false
unfolding starts_digit
starts_digit-blanks zero c cs h = h.1
starts_digit-blanks (suc n) c cs h = refl

parse_read_lem : (n : ℕ) (rest : Text) → 0 < n → parse_read (n, rest) ≡ scale (skip_blanks rest) n
unfolding parse_read
parse_read_lem n rest pos = ground arith

-- A decimal numeral from 1 to 2 ^ 63 - 1, then blanks, then a byte that is neither a digit nor a
-- blank, is read as the numeral times 1024 to the power that the byte stands for (3 for G, 2 for M, 1
-- for K, 0 for any other), modulo 2 ^ 64; what follows the byte is ignored.
pub parse_buffer_size-numeral :
    (d : ℕ) (ds cs : Text) (blanks c : ℕ)
    → AreDigits (d ∷ ds)
    → 0 < numeral (d ∷ ds)
    → numeral (d ∷ ds) ≤ 2 ^ 63 - 1
    → IsEnd c
    → parse_buffer_size (d ∷ ds ++ (replicate blanks b' ' ++ c ∷ cs))
      ≡ numeral (d ∷ ds) * 1024 ^ exponent c % 2 ^ 64
unfolding parse_buffer_size
parse_buffer_size-numeral d ds cs blanks c a pos small e =
    let rest = replicate blanks 32 ++ c ∷ cs in
    let read = strtoll-numeral d ds rest a small (starts_digit-blanks blanks c cs e) in
    ap parse_read read
    ∙ parse_read_lem (numeral (d ∷ ds)) rest pos
    ∙ ap (λ t. scale t (numeral (d ∷ ds))) (skip_blanks-replicate blanks c cs e.0)
    ∙ scale-exponent c (numeral (d ∷ ds)) cs (omega arith)

positive_bound : (r : ℕ × Text) → (positive r).0 < 2 ^ 64
unfolding positive
positive_bound (n, rest) = ground arith

negative_bound : (r : ℕ × Text) → (negative r).0 < 2 ^ 64
unfolding negative
negative_bound (n, rest) = ground arith

strtoll_sign_bound : (s t : Text) → (strtoll_sign s t).0 < 2 ^ 64
unfolding strtoll_sign
strtoll_sign_bound s [] = omega arith
strtoll_sign_bound s (c ∷ cs) = ground (
  arith,
  positive_bound (read_digits 0 cs),
  negative_bound (read_digits 0 cs),
  positive_bound (read_digits 0 (c ∷ cs)),
)

scale_bound : (t : Text) (n : ℕ) → n < 2 ^ 64 → scale t n < 2 ^ 64
unfolding scale
scale_bound [] n h = h
scale_bound (c ∷ cs) n h = ground arith

parse_read_bound : (n : ℕ) (t : Text) → n < 2 ^ 64 → parse_read (n, t) < 2 ^ 64
unfolding parse_read
parse_read_bound n t h = ground (arith, scale_bound (skip_blanks t) n)

parse_buffer_size_bound : (s : Text) → parse_buffer_size s < 2 ^ 64
unfolding parse_buffer_size
parse_buffer_size_bound s =
    parse_read_bound (strtoll s).0 (strtoll s).1 (strtoll_sign_bound s (skip_spaces s))

choose_size :
    (n : ℕ)
    → n < 2 ^ 64
    → let m = if ltb n 1024 then default_buf_size else n in (1024 ≤ m) × (m < 2 ^ 64)
choose_size n h = ground arith

choose_interval :
    (n : ℕ) → n < 2 ^ 32 → let m = if n == 0 then 100000 else n in (0 < m) × (m < 2 ^ 32)
choose_interval n h = ground arith

atoi_bound : (s : Text) → atoi s < 2 ^ 32
unfolding atoi
atoi_bound s = omega arith

buf_size_of_bounds :
    (size : ℕ) (o : Option Text)
    → 1024 ≤ size
    → size < 2 ^ 64
    → (1024 ≤ buf_size_of size o) × (buf_size_of size o < 2 ^ 64)
unfolding buf_size_of
buf_size_of_bounds size none lo hi = (lo, hi)
buf_size_of_bounds size (some s) lo hi =
    choose_size (parse_buffer_size s) (parse_buffer_size_bound s)

interval_of_bounds : (o : Option Text) → (0 < interval_of o) × (interval_of o < 2 ^ 32)
unfolding interval_of
interval_of_bounds none = omega arith
interval_of_bounds (some s) = choose_interval (atoi s) (atoi_bound s)

-- Whatever the environment holds, `init` leaves an interval of at least 1 and a buffer size of at least
-- 1024, if that held of the size before; the size is below 2 ^ 64 and the interval below 2 ^ 32. These
-- are all the bounds that there are: a value of "-1" gives the largest ones.
pub init_bounds :
    (calls : InitCalls) (interval size : Option Text) (g : Globals)
    → 1024 ≤ g.buf_size
    → g.buf_size < 2 ^ 64
    → let g' = (init calls interval size g).0 in
      (1024 ≤ g'.buf_size)
      × (g'.buf_size < 2 ^ 64)
      × (0 < g'.interval_us)
      × (g'.interval_us < 2 ^ 32)
unfolding init
init_bounds calls interval size g lo hi = (
  (buf_size_of_bounds g.buf_size size lo hi).0,
  (buf_size_of_bounds g.buf_size size lo hi).1,
  (interval_of_bounds interval).0,
  (interval_of_bounds interval).1,
)
