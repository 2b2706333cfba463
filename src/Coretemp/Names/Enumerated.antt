-- ===== src/Coretemp/Names/Enumerated.antt =====
-- The enumeration of the event codes (patches/coretemp/linux-coretemp.c) reaches each event of the
-- table.
use scorep_amd.Common.{
  ℕ, zero, suc, ◌+◌, ◌^◌, ◌≤◌, ◌<◌, ◌≡◌, refl, ap, ◌∙◌, true, false, Option, none, some, List, [],
  ◌∷◌, ◌++◌, map, arith, length, length-append, take, if◌then◌else◌, lt→ltb, le→ltb, ◌==◌,
}
use mathlib.Core.Path.{subst}
use mathlib.Core.List.{append_assoc}
use scorep_amd.Common.Run.{Run, ok, ◌>>=◌}
use scorep_amd.Common.Strings.{Text}
use scorep_amd.Common.Papi.{PapiErrno, papi_ok, papi_enoevnt}
use scorep_amd.Coretemp.{EventCount, events, NativeEvent, Component}
use scorep_amd.Coretemp.Measuring.{element}
use scorep_amd.Coretemp.Names.{
  enum_first, enum_events, none_found, before_last, ntv_enum_events, is_index, table_element,
  code_to_text, ntv_code_to_name,
}

-- The codes that a caller meets who goes on from a first answer until a call fails, in at most as many
-- rounds as there is fuel.
unfoldable pub follow : ℕ → EventCount → PapiErrno × ℕ → List ℕ
unfolding ntv_enum_events
follow zero count r = []
follow (suc fuel) count (papi_ok, code) =
    code ∷ follow fuel count (ntv_enum_events count enum_events code)
follow (suc fuel) count (e, code) = []

unfoldable pub enumerated : ℕ → EventCount → ℕ → List ℕ
unfolding follow ntv_enum_events
enumerated fuel count code = follow fuel count (ntv_enum_events count enum_first code)

follow-stops :
    (fuel : ℕ) (count : EventCount) (code : ℕ) → follow fuel count (papi_enoevnt, code) ≡ []
unfolding follow
follow-stops zero count code = refl
follow-stops (suc fuel) count code = refl

enum_events-next :
    (n code : ℕ) → code + 1 < n → ntv_enum_events (events n) enum_events code ≡ (papi_ok, code + 1)
unfolding ntv_enum_events before_last
enum_events-next n code h = rw (lt→ltb (code + 1) n h) refl

enum_events-last :
    (n code : ℕ) → n ≤ code + 1 → ntv_enum_events (events n) enum_events code ≡ (papi_enoevnt, code)
unfolding ntv_enum_events before_last
enum_events-last n code h = rw (le→ltb (code + 1) n h) refl

element-append :
    (pre rest : List NativeEvent) (ev : NativeEvent)
    → element (pre ++ ev ∷ rest) (length pre) ≡ ok ev
unfolding element
element-append [] rest ev = refl
element-append (x ∷ pre) rest ev = element-append pre rest ev

module _ (text : NativeEvent → Text) (len : ℕ) where
  -- With the parts of the component that matter.
  text_of : Option (List NativeEvent) → EventCount → ℕ → Run (PapiErrno × Option Text)
  text_of table count code =
      if is_index code count
      then (table_element table code >>= λ ev. ok (papi_ok, some (take len (text ev))))
      else ok (papi_enoevnt, none)

  is_index-below : (code n : ℕ) → code < n → n ≤ 2 ^ 31 → is_index code (events n) ≡ true
  unfolding is_index
  is_index-below code n h b = rw (lt→ltb code (2 ^ 31) (omega arith), lt→ltb code n h) refl

  text_of-append :
      (pre rest : List NativeEvent) (ev : NativeEvent) (n : ℕ)
      → length pre < n
      → n ≤ 2 ^ 31
      → text_of (some (pre ++ ev ∷ rest)) (events n) (length pre)
        ≡ ok (papi_ok, some (take len (text ev)))
  unfolding text_of table_element
  text_of-append pre rest ev n h b =
      rw (is_index-below (length pre) n h b, element-append pre rest ev) refl

  abbrev answer : NativeEvent → Run (PapiErrno × Option Text)
  answer ev = ok (papi_ok, some (take len (text ev)))

  follow-answers :
      (rest pre : List NativeEvent) (ev : NativeEvent) (fuel n : ℕ)
      → length rest < fuel
      → n ≡ length pre + suc (length rest)
      → n ≤ 2 ^ 31
      → map
          (text_of (some (pre ++ ev ∷ rest)) (events n))
          (follow fuel (events n) (papi_ok, length pre))
        ≡ map answer (ev ∷ rest)
  unfolding follow
  follow-answers rest pre ev zero n h e b = absurd (omega arith)
  follow-answers [] pre ev (suc fuel) n h e b =
      rw
        (
          text_of-append pre [] ev n (omega arith) b,
          enum_events-last n (length pre) (omega arith),
          follow-stops fuel (events n) (length pre),
        )
        refl
  follow-answers (y ∷ rest) pre ev (suc fuel) n h e b =
      let next : length (pre ++ ev ∷ []) ≡ length pre + 1 =
        omega (arith, length-append pre (ev ∷ [])) in
      let ih = follow-answers rest (pre ++ ev ∷ []) y fuel n (omega arith) (omega arith) b in
      rw
        (
          text_of-append pre (y ∷ rest) ev n (omega arith) b,
          enum_events-next n (length pre) (omega arith),
        )
        (ap (λ l. answer ev ∷ l)
          (subst
            (λ i.
              map (text_of (some (pre ++ ev ∷ y ∷ rest)) (events n))
                (follow fuel (events n) (papi_ok, i))
              ≡ map answer (y ∷ rest))
            next
            (subst
              (λ t.
                map (text_of (some t) (events n))
                  (follow fuel (events n) (papi_ok, length (pre ++ ev ∷ [])))
                ≡ map answer (y ∷ rest))
              (append_assoc pre (ev ∷ []) (y ∷ rest)) ih)))

  enumerated-answers :
      (table : List NativeEvent) (fuel code : ℕ)
      → length table < fuel
      → length table ≤ 2 ^ 31
      → map
          (text_of (some table) (events (length table)))
          (enumerated fuel (events (length table)) code)
        ≡ map answer table
  unfolding enumerated ntv_enum_events none_found
  enumerated-answers [] fuel code h b =
      ap (map (text_of (some []) (events 0))) (follow-stops fuel (events 0) code)
  enumerated-answers (ev ∷ rest) fuel code h b =
      let n = suc (length rest) in
      let e : (n == 0) ≡ false = ground arith in
      rw e (follow-answers rest [] ev fuel n (omega arith) (omega arith) b)

-- Going through the codes of an initialized component, a caller is given the name of each event of
-- the table, once and in order, and then no more: the names come without an error and without
-- undefined behaviour, cut to the length that the caller asks for. As many rounds as the table has
-- elements, and one more, are enough.
pub enumerated-names :
    (c : Component) (table : List NativeEvent) (len fuel code : ℕ)
    → c.table ≡ some table
    → c.num_events ≡ events (length table)
    → length table < fuel
    → length table ≤ 2 ^ 31
    → map (λ k. ntv_code_to_name c k len) (enumerated fuel c.num_events code)
      ≡ map (λ ev. ok (papi_ok, some (take len ev.name))) table
unfolding ntv_code_to_name code_to_text text_of
enumerated-names c table len fuel code t n h b =
    let name = λ (ev : NativeEvent). ev.name in
    ap (λ o. map (text_of name len o c.num_events) (enumerated fuel c.num_events code)) t
    ∙ ap (λ k. map (text_of name len (some table) k) (enumerated fuel k code)) n
    ∙ enumerated-answers name len table fuel code h b
