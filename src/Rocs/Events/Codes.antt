-- ===== src/Rocs/Events/Codes.antt =====
-- Codes and names of events (patches/rocm_smi/rocs.c), through the table that `init_event_table` makes.
use scorep_amd.Common.{
  arith, ℕ, zero, suc, ◌-◌, ◌^◌, ◌≤◌, ◌<◌, ◌≡◌, refl, ap, ◌∙◌, false, Option, none, some,
  Option-cases, Bool-cases, inl, inr, List, [], ◌∷◌, length, get_elem?,
}
use mathlib.Core.Option.{some-injective}
use scorep_amd.Common.Run.{Run, ok, fault, ok_ne_fault, ◌>>=◌}
use scorep_amd.Common.Strings.{Text, NoNul, c_string}
use scorep_amd.Htable
use scorep_amd.Htable.{Memory, Errno, same_key, htable_insert, htable_find, htable_init}
use scorep_amd.Htable.Chain.{same_key_iff}
use scorep_amd.Htable.Laws.{HasMemory, htable_insert_null}
use scorep_amd.Htable.History.{
  Call, insert, performs, perform, meanings, meaning, answer, htable_refines_map,
}
use scorep_amd.Rocs.Events.Filling.{TableEvent}
use scorep_amd.Rocs.Events.Table.{insert_events, strncpy}

-- The insertions of the events that have a name.
unfoldable pub inserts : List TableEvent → List (Call ℕ)
inserts [] = []
inserts (e ∷ es) = elim e.name [
  | none ↦ inserts es
  | some key ↦ insert key (some e.id) ∷ inserts es
]

pub bind_agree :
    {A B : Type 0} (run : Run A) (next next' : A → Run B)
    → ((a : A) → next a ≡ next' a)
    → (run >>= next) ≡ (run >>= next')
bind_agree (fault w) next next' h = refl
bind_agree (ok a) next next' h = h a

pub insert_events-performs :
    (mem : Memory) (es : List TableEvent) (names : Option (Htable.Table ℕ))
    → insert_events mem es names ≡ performs mem (inserts es) names
unfolding insert_events inserts performs perform
insert_events-performs mem [] names = refl
insert_events-performs mem (e ∷ es) names = elim (Option-cases e.name) [
  | inl n ↦ rw (n, htable_insert_null mem names (some e.id)) (insert_events-performs mem es names)
  | inr (key, n) ↦ rw n (
      bind_agree (htable_insert mem names (some key) (some e.id)) _ _
        (λ r. insert_events-performs mem es r.1))
]

pub length-inserts : (es : List TableEvent) → length (inserts es) ≤ length es
unfolding inserts
length-inserts [] = omega arith
length-inserts (e ∷ es) =
    elim e.name
      as (λ o.
        length (elim o [ none ↦ inserts es | some key ↦ insert key (some e.id) ∷ inserts es ])
        ≤ suc (length es)) [
          | none ↦ omega (arith, length-inserts es)
          | some key ↦ omega (arith, length-inserts es)
        ]

-- No event has the name.
unfoldable IsAbsent : Text → List TableEvent → Type 0
IsAbsent q es = (i : ℕ) (e : TableEvent) → get_elem? es i ≡ some e → e.name ≡ some q → ⊥

meanings_absent :
    (es : List TableEvent) (f : Htable.Key → Option (Option ℕ)) (q : Text)
    → IsAbsent q es
    → meanings (inserts es) f q ≡ f q
unfolding IsAbsent inserts meanings meaning
meanings_absent [] f q h = refl
meanings_absent (e ∷ es) f q h =
    let tail : IsAbsent q es = λ i d g. h (suc i) d g in
    elim (Option-cases e.name) [
      | inl n ↦ rw n (meanings_absent es f q tail)
      | inr (key, n) ↦ elim (Bool-cases (same_key key q)) [
        | inl s ↦ absurd (h zero e refl (n ∙ ap some ((same_key_iff key q).0 s)))
        | inr s ↦ rw n (meanings_absent es (meaning (insert key (some e.id)) f) q tail ∙ rw s refl)
      ]
    ]

-- Events with the same name are the same.
unfoldable pub HasDistinctNames : List TableEvent → Type 0
HasDistinctNames es =
    (i j : ℕ) (d e : TableEvent) (q : Text)
    → get_elem? es i ≡ some d
    → get_elem? es j ≡ some e
    → d.name ≡ some q
    → e.name ≡ some q
    → i ≡ j

meanings_present :
    (es : List TableEvent) (f : Htable.Key → Option (Option ℕ)) (i : ℕ) (e : TableEvent) (q : Text)
    → get_elem? es i ≡ some e
    → e.name ≡ some q
    → HasDistinctNames es
    → meanings (inserts es) f q ≡ some (some e.id)
unfolding IsAbsent HasDistinctNames inserts meanings meaning
meanings_present [] f i e q g n h = cc
meanings_present (d ∷ es) f zero e q g n h =
    let same = some-injective d e g in
    let n' : d.name ≡ some q = ap (λ (x : TableEvent). x.name) same ∙ n in
    rw n' (
      meanings_absent es (meaning (insert q (some d.id)) f) q
        (λ j c g' n''. (let no : ⊥ = omega (arith, h zero (suc j) d c q refl g' n' n'') in no))
      ∙ rw ((same_key_iff q q).1 refl) (ap (λ (x : TableEvent). some (some x.id)) same))
meanings_present (d ∷ es) f (suc i) e q g n h =
    let tail : HasDistinctNames es =
      λ a b c c' r g' g'' n' n''. (omega (arith, h (suc a) (suc b) c c' r g' g'' n' n'')) in
    elim (Option-cases d.name) [
      | inl n' ↦ rw n' (meanings_present es f i e q g n tail)
      | inr (key, n') ↦
          rw n' (meanings_present es (meaning (insert key (some d.id)) f) i e q g n tail)
    ]

pub strncpy-c_string :
    (len : ℕ) (name : Text) → NoNul name → length name < len → c_string (strncpy len name) ≡ name
unfolding strncpy c_string
strncpy-c_string zero name h lt = absurd (omega (arith, lt))
strncpy-c_string (suc len) [] h lt = let all : suc len - 0 ≡ suc len = omega arith in rw all refl
strncpy-c_string (suc len) (c ∷ name) (n, h) lt =
    (ground (arith, n, strncpy-c_string len name h (omega (arith, lt))))

pub run_before :
    {A B : Type 0} (run : Run A) (next : A → Run B) (b : B)
    → (run >>= next) ≡ ok b
    → (a : A) × (run ≡ ok a)
run_before (ok a) next b e = (a, refl)
run_before (fault w) next b e = absurd (ok_ne_fault b w e)

-- The insertions go through.
pub insert_events-ok :
    (mem : Memory) (es : List TableEvent) (made : Errno × Option (Htable.Table ℕ))
    → HasMemory mem
    → length es < 2 ^ 28
    → htable_init mem ≡ ok made
    → (names : Option (Htable.Table ℕ)) × (insert_events mem es made.1 ≡ ok names)
insert_events-ok mem es made h lt init =
    let all = htable_refines_map mem (inserts es) [] h (omega (arith, length-inserts es, lt)) in
    let (names, run) =
      run_before (performs mem (inserts es) made.1) (λ names. htable_find names (some []) false) _
        (rw (init, ◌>>=◌) at all) in
    (names, insert_events-performs mem es made.1 ∙ run)

pub found_name :
    (mem : Memory) (es : List TableEvent) (i : ℕ) (e : TableEvent) (q : Text)
    → HasMemory mem
    → length es < 2 ^ 28
    → HasDistinctNames es
    → get_elem? es i ≡ some e
    → e.name ≡ some q
    → (htable_init mem >>= λ made.
        insert_events mem es made.1 >>= λ names. htable_find names (some q) false)
      ≡ ok (answer (some (some e.id)))
found_name mem es i e q h lt d g n =
    let find : Option (Htable.Table ℕ) → Run (Errno × Option (Option ℕ)) =
      λ names. htable_find names (some q) false in
    bind_agree (htable_init mem) (λ made. insert_events mem es made.1 >>= find)
      (λ made. performs mem (inserts es) made.1 >>= find)
      (λ made. ap (λ run. run >>= find) (insert_events-performs mem es made.1))
    ∙ htable_refines_map mem (inserts es) q h (omega (arith, length-inserts es, lt))
    ∙ ap (λ v. ok (answer v)) (meanings_present es (λ _. none) i e q g n d)
