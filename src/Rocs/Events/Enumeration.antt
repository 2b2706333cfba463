-- ===== src/Rocs/Events/Enumeration.antt =====
-- The enumeration of event codes (patches/rocm_smi/rocs.c, `rocs_evt_enum`).
use scorep_amd.Common.{
  arith, ℕ, zero, suc, ◌+◌, ◌^◌, ◌%◌, ◌<◌, ◌≡◌, refl, ap, ◌∙◌, false, List, [], ◌∷◌, length,
  if◌then◌else◌, ◌==◌, lt→ltb, le→ltb,
}
use scorep_amd.Rocs.{PapiErrno, papi_ok, papi_enoevnt, papi_end}
use scorep_amd.Rocs.Events.Table.{EventTable, enum_first, enum_events, rocs_evt_enum}

-- The codes that a caller meets who goes on from an answer until a call fails, in at most as many
-- rounds as there is fuel.
unfoldable pub codes_met : ℕ → EventTable → PapiErrno × ℕ → List ℕ
unfolding rocs_evt_enum
codes_met zero s r = []
codes_met (suc fuel) s (papi_ok, code) = code ∷ codes_met fuel s (rocs_evt_enum s code enum_events)
codes_met (suc fuel) s (e, code) = []

-- `left` numbers from `code` on.
unfoldable pub numbers : ℕ → ℕ → List ℕ
numbers zero code = []
numbers (suc left) code = code ∷ numbers left (code + 1)

module _ (s : EventTable) (small : length s.events < 2 ^ 32) where
  enum-next :
      (code : ℕ)
      → code + 1 < length s.events
      → rocs_evt_enum s code enum_events ≡ (papi_ok, code + 1)
  unfolding rocs_evt_enum
  enum-next code h =
      let same : (code + 1) % 2 ^ 32 ≡ code + 1 = omega arith in
      rw (same, lt→ltb (code + 1) (length s.events) h) refl

  enum-last :
      (code : ℕ) → code + 1 ≡ length s.events → rocs_evt_enum s code enum_events ≡ (papi_end, code)
  unfolding rocs_evt_enum
  enum-last code h =
      let same : (code + 1) % 2 ^ 32 ≡ code + 1 = omega arith in
      rw (same, le→ltb (code + 1) (length s.events) (omega arith)) refl

  codes_met-end : (fuel code : ℕ) → codes_met fuel s (papi_end, code) ≡ []
  unfolding codes_met
  codes_met-end zero code = refl
  codes_met-end (suc fuel) code = refl

  codes_met-from :
      (left fuel code : ℕ)
      → code + suc left ≡ length s.events
      → left < fuel
      → codes_met fuel s (papi_ok, code) ≡ numbers (suc left) code
  unfolding codes_met numbers
  codes_met-from left zero code e lt = absurd (omega (arith, lt))
  codes_met-from zero (suc fuel) code e lt =
      ap (λ r. code ∷ codes_met fuel s r) (enum-last code (omega arith))
      ∙ ap (λ r. code ∷ r) (codes_met-end fuel code)
  codes_met-from (suc left) (suc fuel) code e lt =
      ap (λ r. code ∷ codes_met fuel s r) (enum-next code (omega arith))
      ∙ ap (λ r. code ∷ r) (codes_met-from left fuel (code + 1) (omega arith) (omega arith))

  codes_met-first :
      (fuel n : ℕ)
      → n ≡ length s.events
      → n < fuel
      → codes_met fuel s ((if n == 0 then papi_enoevnt else papi_ok), 0) ≡ numbers n 0
  unfolding codes_met numbers
  codes_met-first zero n e lt = absurd (omega (arith, lt))
  codes_met-first (suc fuel) zero e lt = refl
  codes_met-first (suc fuel) (suc left) e lt =
      let some_left : (suc left == 0) ≡ false = ground arith in
      ap (λ b. codes_met (suc fuel) s ((if b then papi_enoevnt else papi_ok), 0)) some_left
      ∙ codes_met-from left (suc fuel) 0 (omega arith) (omega arith)

-- A caller who enumerates the events of a table with fewer than 2 ^ 32 of them, from
-- PAPI_ENUM_FIRST on until a call fails, meets exactly the codes below the number of events, in
-- order; there is no code in an empty table. One round more than there are events is enough.
pub codes_met-all :
    (s : EventTable) (fuel code : ℕ)
    → length s.events < 2 ^ 32
    → length s.events < fuel
    → codes_met fuel s (rocs_evt_enum s code enum_first) ≡ numbers (length s.events) 0
unfolding rocs_evt_enum
codes_met-all s fuel code small lt = codes_met-first s small fuel (length s.events) refl lt
