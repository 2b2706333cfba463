-- ===== src/Plugin/BufferSize.antt =====
-- Reading the environment (parse_buffer_size and init_coretemp of
-- plugins/scorep-coretemp-plugin/apapi.c).
pub mod Numeral
use scorep_amd.Common.{
  ℕ, zero, suc, ◌+◌, ◌-◌, ◌*◌, ◌/◌, ◌%◌, ◌^◌, ◌≤◌, ◌<◌, ◌≡◌, refl, sym, ◌∙◌, Bool, true, false,
  ◌||◌, ◌&&◌, Option, none, some, List, [], ◌∷◌, ◌++◌, arith, if◌then◌else◌, leb, ltb, ◌==◌,
  replicate,
}
use scorep_amd.Common.Strings.{Text, strtoll}
use scorep_amd.Plugin.{Globals, default_buf_size}

-- `while (*tmp == ' ') tmp++;`
skip_blanks : Text → Text
skip_blanks [] = []
skip_blanks (c ∷ cs) = if c == b' ' then skip_blanks cs else c ∷ cs

times_k : ℕ → ℕ
times_k size = size * 1024 % 2 ^ 64

-- The `switch`, whose cases fall through.
scale : Text → ℕ → ℕ
unfolding times_k
scale [] size = size
scale (c ∷ cs) size =
    if c == b'G'
    then times_k (times_k (times_k size))
    else (if c == b'M' then times_k (times_k size) else (if c == b'K' then times_k size else size))

parse_read : ℕ × Text → ℕ
unfolding skip_blanks scale
parse_read (size, tmp) = if size == 0 then default_buf_size else scale (skip_blanks tmp) size

pub parse_buffer_size : Text → ℕ
unfolding strtoll parse_read
parse_buffer_size s = parse_read (strtoll s)

-- `atoi`: the low 32 bits of the value.
atoi : Text → ℕ
unfolding strtoll
atoi s = (strtoll s).0 % 2 ^ 32

interval_of : Option Text → ℕ
unfolding atoi
interval_of none = 100000
interval_of (some s) = if atoi s == 0 then 100000 else atoi s

-- Without the variable the size stays as it was.
buf_size_of : ℕ → Option Text → ℕ
unfolding parse_buffer_size
buf_size_of size none = size
buf_size_of size (some s) =
    let parsed = parse_buffer_size s in if ltb parsed 1024 then default_buf_size else parsed

-- What the two PAPI calls of `init` return: the first is right if it is PAPI_VER_CURRENT, the second
-- if it is PAPI_OK.
pub record InitCalls : Type 0 where
  pub library_ok : Bool
  pub thread_ok : Bool

-- `init_coretemp`: the state, and whether it returned 0.
pub init : InitCalls → Option Text → Option Text → Globals → Globals × Bool
unfolding interval_of buf_size_of
init calls interval size g = (
  record g { interval_us = interval_of interval; buf_size = buf_size_of g.buf_size size },
  if calls.library_ok then calls.thread_ok else false,
)
