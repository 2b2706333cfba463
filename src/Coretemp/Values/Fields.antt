-- ===== src/Coretemp/Values/Fields.antt =====
-- The value that getEventValue (patches/coretemp/linux-coretemp.c) takes from a file of several values.
use scorep_amd.Common.{
  ℕ, zero, suc, ◌-◌, ◌^◌, ◌≤◌, ◌<◌, ◌≡◌, ◌≢◌, refl, ap, sym, ◌∙◌, false, Option, none, some, List,
  [], ◌∷◌, ◌++◌, arith, length, length-append, take, if◌then◌else◌,
}
use mathlib.Core.List.{append_assoc}
use scorep_amd.Common.Strings.{Text, starts_digit, c_string, strtoll}
use scorep_amd.Common.Strings.Numerals.{numeral, AreDigits, strtoll-numeral}
use scorep_amd.Coretemp.{NativeEvent}
use scorep_amd.Coretemp.Values.{
  split_space, after_skip, skip_values, field_value, value_read, value_at, get_event_value,
}

-- A word holds no space and no NUL.
abbrev pub IsWord : Text → Type 0
IsWord [] = Unit
IsWord (c ∷ s) = (c ≢ 0) × (c ≢ 32) × IsWord s

abbrev pub AreWords : List Text → Type 0
AreWords [] = Unit
AreWords (f ∷ fs) = IsWord f × AreWords fs

-- Words, with a space behind each.
unfoldable pub spaced : List Text → Text
spaced [] = []
spaced (f ∷ fs) = f ++ (32 ∷ spaced fs)

c_string-word : (f s : Text) → IsWord f → c_string (f ++ s) ≡ f ++ c_string s
unfolding c_string
c_string-word [] s h = refl
c_string-word (c ∷ f) s (n, sp, h) = ground (arith, c_string-word f s h)

c_string-spaced :
    (fs : List Text) (s : Text) → AreWords fs → c_string (spaced fs ++ s) ≡ spaced fs ++ c_string s
unfolding spaced c_string
c_string-spaced [] s h = refl
c_string-spaced (f ∷ fs) s (h, hs) =
    ap c_string (append_assoc f (32 ∷ spaced fs) s)
    ∙ c_string-word f (32 ∷ (spaced fs ++ s)) h
    ∙ ap (λ t. f ++ (32 ∷ t)) (c_string-spaced fs s hs)
    ∙ sym (append_assoc f (32 ∷ spaced fs) (c_string s))

split_space-word : (f s : Text) → IsWord f → split_space (f ++ (32 ∷ s)) ≡ (f, some s)
unfolding split_space
split_space-word [] s h = refl
split_space-word (c ∷ f) s (n, sp, h) = rw (split_space-word f s h) (ground arith)

skip_values-spaced :
    (fs : List Text) (s : Text) → AreWords fs → skip_values (length fs) (spaced fs ++ s) ≡ s
unfolding skip_values spaced after_skip
skip_values-spaced [] s h = refl
skip_values-spaced (f ∷ fs) s (h, hs) =
    rw (append_assoc f (32 ∷ spaced fs) s, split_space-word f (spaced fs ++ s) h)
      (skip_values-spaced fs s hs)

split_space-prefix : (f s : Text) → IsWord f → (split_space (f ++ s)).0 ≡ f ++ (split_space s).0
unfolding split_space
split_space-prefix [] s h = refl
split_space-prefix (c ∷ f) s (n, sp, h) = ground (arith, split_space-prefix f s h)

digits-IsWord : (ds : Text) → AreDigits ds → IsWord ds
digits-IsWord [] a = tt
digits-IsWord (d ∷ ds) (lo, hi, a) =
    (λ e. absurd (omega arith), λ e. absurd (omega arith), digits-IsWord ds a)

starts_digit-cut :
    (s : Text) → starts_digit s ≡ false → starts_digit (split_space (c_string s)).0 ≡ false
unfolding starts_digit split_space c_string
starts_digit-cut [] h = refl
starts_digit-cut (c ∷ s) h = ground arith

take-all : (n : ℕ) (t : Text) → length t ≤ n → take n t ≡ t
take-all zero [] h = refl
take-all zero (c ∷ t) h = absurd (omega arith)
take-all (suc n) [] h = refl
take-all (suc n) (c ∷ t) h = ap (λ u. c ∷ u) (take-all n t (omega arith))

field_value-numeral :
    (fs : List Text) (d : ℕ) (ds rest : Text)
    → AreWords fs
    → AreDigits (d ∷ ds)
    → numeral (d ∷ ds) ≤ 2 ^ 63 - 1
    → starts_digit rest ≡ false
    → field_value (length fs) (spaced fs ++ (d ∷ ds ++ rest)) ≡ numeral (d ∷ ds)
unfolding field_value
field_value-numeral fs d ds rest h a small e =
    let word = digits-IsWord (d ∷ ds) a in
    let cut = c_string rest in
    ap (λ t. (strtoll (split_space (skip_values (length fs) t)).0).0)
      (c_string-spaced fs (d ∷ ds ++ rest) h
        ∙ ap (λ t. spaced fs ++ t) (c_string-word (d ∷ ds) rest word))
    ∙ ap (λ t. (strtoll (split_space t).0).0) (skip_values-spaced fs (d ∷ ds ++ cut) h)
    ∙ ap (λ t. (strtoll t).0) (split_space-prefix (d ∷ ds) cut word)
    ∙ ap (λ r. r.0) (strtoll-numeral d ds (split_space cut).0 a small (starts_digit-cut rest e))

value_read-nonempty :
    (max_str_len offset : ℕ) (s : Text)
    → 0 < length s
    → length s < max_str_len
    → value_read max_str_len offset s ≡ field_value offset s
unfolding value_read
value_read-nonempty max_str_len offset [] pos short = absurd (omega arith)
value_read-nonempty max_str_len offset (c ∷ s) pos short =
    ap (field_value offset) (take-all (max_str_len - 1) (c ∷ s) (omega arith))

value_at-open :
    (max_str_len : ℕ) (pread : ℕ → Text) (offset : ℕ) (o : Option ℕ) (fd : ℕ)
    → o ≡ some fd
    → value_at max_str_len pread offset o ≡ value_read max_str_len offset (pread fd)
unfolding value_at
value_at-open max_str_len pread offset none fd e = cc
value_at-open max_str_len pread offset (some x) fd e = cc

-- The value of an event that is read from an open file: of the values in the file, which spaces
-- separate, that with the number of the event's offset, if it begins with a decimal numeral up to
-- 2 ^ 63 - 1. What follows the numeral is ignored. The text is shorter than PAPI_MAX_STR_LEN.
pub get_event_value-numeral :
    (max_str_len : ℕ) (pread : ℕ → Text) (ev : NativeEvent) (fd : ℕ) (before : List Text) (d : ℕ)
    (ds rest : Text)
    → ev.stone ≡ false
    → ev.fd ≡ some fd
    → length before ≡ ev.offset
    → pread fd ≡ spaced before ++ (d ∷ ds ++ rest)
    → length (pread fd) < max_str_len
    → AreWords before
    → AreDigits (d ∷ ds)
    → numeral (d ∷ ds) ≤ 2 ^ 63 - 1
    → starts_digit rest ≡ false
    → get_event_value max_str_len pread ev ≡ numeral (d ∷ ds)
unfolding get_event_value
get_event_value-numeral max_str_len pread ev fd before d ds rest s o k e short h a small t =
    let text = spaced before ++ (d ∷ ds ++ rest) in
    let whole : value_read max_str_len ev.offset (pread fd) ≡ field_value ev.offset (pread fd) =
      value_read-nonempty max_str_len ev.offset (pread fd)
        (omega (arith, ap length e, length-append (spaced before) (d ∷ ds ++ rest))) short in
    ap (λ b. if b then ev.value else value_at max_str_len pread ev.offset ev.fd) s
    ∙ value_at-open max_str_len pread ev.offset ev.fd fd o
    ∙ whole
    ∙ ap (field_value ev.offset) e
    ∙ ap (λ n. field_value n text) (sym k)
    ∙ field_value-numeral before d ds rest h a small t
