-- ===== src/Rocs/Events/Distinct.antt =====
-- A test for events with different names (patches/rocm_smi/rocs.c).
use scorep_amd.Common.{
  ℕ, zero, suc, ◌≡◌, refl, ap, sym, ◌∙◌, Bool, true, false, none, some, List, [], ◌∷◌, get_elem?,
  not, ◌&&◌,
}
use mathlib.Core.Option.{some-injective}
use scorep_amd.Common.Strings.{Text}
use scorep_amd.Htable.{same_key}
use scorep_amd.Htable.Chain.{same_key_iff}
use scorep_amd.Rocs.Events.Filling.{TableEvent}
use scorep_amd.Rocs.Events.Codes.{HasDistinctNames}

both_true : (a b : Bool) → (a && b) ≡ true → (a ≡ true) × (b ≡ true)
both_true true b h = (refl, h)
both_true false b h = cc

true_ne_false : true ≡ false → ⊥
true_ne_false e = cc

-- Whether no event has the name, and whether the names of a list differ.
unfoldable pub is_absent : Text → List TableEvent → Bool
is_absent q [] = true
is_absent q (e ∷ es) = elim e.name [ none ↦ true | some r ↦ not (same_key r q) ] && is_absent q es

unfoldable pub are_distinct : List TableEvent → Bool
unfolding is_absent
are_distinct [] = true
are_distinct (e ∷ es) = elim e.name [ none ↦ true | some q ↦ is_absent q es ] && are_distinct es

is_absent_sound :
    (q : Text) (es : List TableEvent) (i : ℕ) (e : TableEvent)
    → is_absent q es ≡ true
    → get_elem? es i ≡ some e
    → e.name ≡ some q
    → ⊥
unfolding is_absent
is_absent_sound q [] i e h g n = cc
is_absent_sound q (d ∷ es) zero e h g n =
    let same : d.name ≡ some q = ap (λ (x : TableEvent). x.name) (some-injective d e g) ∙ n in
    true_ne_false (sym h ∙ rw (same, (same_key_iff q q).1 refl) refl)
is_absent_sound q (d ∷ es) (suc i) e h g n =
    is_absent_sound q es i e (both_true _ (is_absent q es) h).1 g n

head_absent :
    (c : TableEvent) (es : List TableEvent) (q : Text)
    → c.name ≡ some q
    → are_distinct (c ∷ es) ≡ true
    → is_absent q es ≡ true
unfolding are_distinct
head_absent c es q n h = (both_true (is_absent q es) (are_distinct es) (rw n at h)).0

pub are_distinct_sound : (es : List TableEvent) → are_distinct es ≡ true → HasDistinctNames es
unfolding are_distinct HasDistinctNames
are_distinct_sound [] h i j d e q g g' n n' = cc
are_distinct_sound (c ∷ es) h zero zero d e q g g' n n' = refl
are_distinct_sound (c ∷ es) h zero (suc j) d e q g g' n n' = absurd (
    is_absent_sound q es j e
      (head_absent c es q (ap (λ (x : TableEvent). x.name) (some-injective c d g) ∙ n) h) g' n')
are_distinct_sound (c ∷ es) h (suc i) zero d e q g g' n n' = absurd (
    is_absent_sound q es i d
      (head_absent c es q (ap (λ (x : TableEvent). x.name) (some-injective c e g') ∙ n') h) g n)
are_distinct_sound (c ∷ es) h (suc i) (suc j) d e q g g' n n' =
    ap suc (are_distinct_sound es (both_true _ (are_distinct es) h).1 i j d e q g g' n n')
