-- ===== src/Coretemp/Values.antt =====
-- Reading a value: getEventValue of patches/coretemp/linux-coretemp.c.
pub mod Fields
use scorep_amd.Common.{
  ℕ, zero, suc, ◌+◌, ◌-◌, ◌^◌, Bool, true, false, Option, none, some, List, [], ◌∷◌, take,
  if◌then◌else◌, ◌==◌,
}
use scorep_amd.Common.Strings.{Text, c_string, strtoll}
use scorep_amd.Coretemp.{NativeEvent}

-- INVALID_RESULT, -1000000 in 64 bits.
abbrev pub invalid_result : ℕ
invalid_result = 2 ^ 64 - 1000000

-- `strchr(s, ' ')`: what stands before the first space, and what stands behind it, if there is one.
unfoldable pub split_space : Text → Text × Option Text
split_space [] = ([], none)
split_space (c ∷ s) =
    let (before, behind) = split_space s in if c == b' ' then ([], some s) else (c ∷ before, behind)

unfoldable pub after_skip : Text → Option Text → (Text → Text) → Text
after_skip s none next = s
after_skip s (some behind) next = next behind

-- `while (offset)`: the text from the value with the number `offset` on; the last value is taken
-- where there are not so many.
unfoldable pub skip_values : ℕ → Text → Text
unfolding split_space after_skip
skip_values zero s = s
skip_values (suc offset) s = after_skip s (split_space s).1 (skip_values offset)

-- The value of the file's text: `bytes` are at most PAPI_MAX_STR_LEN - 1 of it.
unfoldable pub field_value : ℕ → Text → ℕ
unfolding skip_values split_space c_string strtoll
field_value offset bytes = (strtoll (split_space (skip_values offset (c_string bytes))).0).0

unfoldable pub value_read : ℕ → ℕ → Text → ℕ
unfolding field_value
value_read max_str_len offset [] = invalid_result
value_read max_str_len offset (c ∷ bytes) = field_value offset (take (max_str_len - 1) (c ∷ bytes))

unfoldable pub value_at : ℕ → (ℕ → Text) → ℕ → Option ℕ → ℕ
unfolding value_read
value_at max_str_len pread offset none = invalid_result
value_at max_str_len pread offset (some fd) = value_read max_str_len offset (pread fd)

-- `getEventValue` of an element of the table. `pread` has the bytes of the file behind a descriptor;
-- there are none where the call fails.
unfoldable pub get_event_value : ℕ → (ℕ → Text) → NativeEvent → ℕ
unfolding value_at
get_event_value max_str_len pread ev =
    if ev.stone then ev.value else value_at max_str_len pread ev.offset ev.fd
