-- ===== src/Coretemp/Names.antt =====
-- Enumeration of the event codes, and their names and descriptions (patches/coretemp/linux-coretemp.c).
pub mod Enumerated
use scorep_amd.Common.{
  ℕ, zero, suc, ◌+◌, ◌-◌, ◌^◌, ◌≡◌, refl, Bool, true, false, Option, none, some, List, [], ◌∷◌,
  take, if◌then◌else◌, ltb, ◌==◌, ◌<◌, ◌≤◌, arith,
}
use scorep_amd.Common.Run.{Run, fault, ok, ◌>>=◌, null_dereference}
use scorep_amd.Common.Strings.{Text, printed}
use scorep_amd.Common.Papi.{PapiErrno, papi_ok, papi_einval, papi_enoevnt}
use scorep_amd.Coretemp.{EventCount, events, error, NativeEvent, Component}
use scorep_amd.Coretemp.Measuring.{element}

-- The modifier of an enumeration.
pub data Modifier : Type 0 where
  enum_first enum_events other_modifier : Modifier

-- `num_events == 0`
none_found : EventCount → Bool
none_found (events n) = n == 0
none_found (error e) = false

-- `index < num_events - 1`, for an index of `int` that is not negative.
before_last : ℕ → EventCount → Bool
before_last i (events n) = ltb (i + 1) n
before_last i (error e) = false

-- `_coretemp_ntv_enum_events`: the return value and `*EventCode`, which is below 2 ^ 31.
pub ntv_enum_events : EventCount → Modifier → ℕ → PapiErrno × ℕ
unfolding none_found before_last
ntv_enum_events count enum_first code =
    if none_found count then (papi_enoevnt, code) else (papi_ok, 0)
ntv_enum_events count enum_events code =
    if before_last code count then (papi_ok, code + 1) else (papi_enoevnt, code)
ntv_enum_events count other_modifier code = (papi_einval, code)

-- `index >= 0 && index < num_events`, where `index` is the code as an `int`.
is_index : ℕ → EventCount → Bool
is_index code (events n) = if ltb code (2 ^ 31) then ltb code n else false
is_index code (error e) = false

-- `_coretemp_native_events[index]`
table_element : Option (List NativeEvent) → ℕ → Run NativeEvent
unfolding element
table_element none i = fault null_dereference
table_element (some table) i = element table i

-- What `_coretemp_ntv_code_to_name` and `_coretemp_ntv_code_to_descr` copy: `strncpy` writes at most
-- `len` bytes of the text.
unfoldable pub code_to_text :
    (NativeEvent → Text) → Component → ℕ → ℕ → Run (PapiErrno × Option Text)
unfolding is_index table_element
code_to_text text c code len =
    if is_index code c.num_events
    then (table_element c.table code >>= λ ev. ok (papi_ok, some (take len (text ev))))
    else ok (papi_enoevnt, none)

unfoldable pub ntv_code_to_name : Component → ℕ → ℕ → Run (PapiErrno × Option Text)
unfolding code_to_text
ntv_code_to_name = code_to_text (λ ev. ev.name)

pub ntv_code_to_descr : Component → ℕ → ℕ → Run (PapiErrno × Option Text)
unfolding code_to_text
ntv_code_to_descr = code_to_text (λ ev. ev.description)

-- `_coretemp_ntv_code_to_info`: the symbol, the description and the units, cut to the sizes of their
-- arrays; the last byte of the units is a NUL.
pub ntv_code_to_info : ℕ → ℕ → ℕ → Component → ℕ → Run (PapiErrno × Option (Text × Text × Text))
unfolding is_index table_element printed
ntv_code_to_info symbol_size descr_size units_size c code =
    if is_index code c.num_events
    then (table_element c.table code >>= λ ev. ok (
      papi_ok,
      some (take symbol_size ev.name, take descr_size ev.description, printed units_size ev.units),
    ))
    else ok (papi_enoevnt, none)
