-- ===== src/Coretemp/Finds.antt =====
-- How a part of generateEventList (patches/coretemp/linux-coretemp.c) finds its share of the events.
use scorep_amd.Common.{
  ℕ, zero, suc, ◌+◌, ◌-◌, ◌≤◌, ◌<◌, ◌≡◌, refl, ap, sym, ◌∙◌, Option, none, some, List, [], ◌∷◌,
  ◌++◌, map, arith, length, take, length-append, Bool-cases, lt→ltb, le→ltb, inl, inr,
}
use native.Mathlib.Decide.{dec_lt}
use mathlib.Core.List.{append_assoc, append-nil, map-append}
use scorep_amd.Common.Strings.{Text, printed, formatted, c_string, fgets}
use scorep_amd.Coretemp.{World, TempEvent, Search, stored, insert_in_list, link}
use scorep_amd.Coretemp.Hwmon.{
  Scan, going, failed, crashed, and_then, require, read_line, after_fgets, chop, after_insert,
}
use scorep_amd.Coretemp.Cray.{after_cray_insert}
use scorep_amd.Coretemp.Sightings.{Sighting, sighting}

-- A search that goes on has found `seen`: appended to the list, and counted.
abbrev pub Finds : Scan → List TempEvent → ℕ → List Sighting → Type 0
Finds (going s) root count seen =
    (map sighting s.root ≡ map sighting root ++ seen) × (s.count ≡ count + length seen)
Finds (failed e s) root count seen = Unit
Finds (crashed why) root count seen = Unit

pub Finds-nothing : (s : Search) → Finds (going s) s.root s.count []
Finds-nothing s = (sym (append-nil (map sighting s.root)), omega arith)

Finds-after :
    (scan : Scan) (s : Search) (root : List TempEvent) (count : ℕ) (xs ys : List Sighting)
    → Finds (going s) root count xs
    → Finds scan s.root s.count ys
    → Finds scan root count (xs ++ ys)
Finds-after (going s') s root count xs ys (e, n) (e', n') = (
  e' ∙ ap (λ l. l ++ ys) e ∙ append_assoc (map sighting root) xs ys,
  omega (arith, length-append xs ys),
)
Finds-after (failed e s') s root count xs ys p q = tt
Finds-after (crashed why) s root count xs ys p q = tt

pub Finds-and_then :
    (scan : Scan) (next : Search → Scan) (root : List TempEvent) (count : ℕ) (xs ys : List Sighting)
    → Finds scan root count xs
    → ((s : Search) → Finds (next s) s.root s.count ys)
    → Finds (and_then scan next) root count (xs ++ ys)
unfolding and_then
Finds-and_then (going s) next root count xs ys p q = Finds-after (next s) s root count xs ys p (q s)
Finds-and_then (failed e s) next root count xs ys p q = tt
Finds-and_then (crashed why) next root count xs ys p q = tt

take-all : (n : ℕ) (t : Text) → length t ≤ n → take n t ≡ t
take-all zero [] h = refl
take-all zero (c ∷ t) h = absurd (omega arith)
take-all (suc n) [] h = refl
take-all (suc n) (c ∷ t) h = ap (λ u. c ∷ u) (take-all n t (omega arith))

-- A text that fits is stored whole.
pub printed-all : (size : ℕ) (t : Text) → length t < size → printed size t ≡ t
unfolding printed
printed-all size t h = take-all (size - 1) t (omega arith)

length-take : (n : ℕ) (t : Text) → length (take n t) ≤ n
length-take zero t = omega arith
length-take (suc n) [] = omega arith
length-take (suc n) (c ∷ t) = omega (arith, length-take n t)

pub printed_idem : (size : ℕ) (t : Text) → printed size (printed size t) ≡ printed size t
unfolding printed
printed_idem size t = take-all (size - 1) (take (size - 1) t) (length-take (size - 1) t)

-- The rest of a search finds something if the text that it needs fits.
pub Finds-require :
    (size : ℕ) (t : Text) (s : Search) (next : Text → Scan) (root : List TempEvent) (count : ℕ)
    (seen : List Sighting)
    → (length t < size → Finds (next t) root count seen)
    → Finds (require (formatted size t) s next) root count seen
unfolding require formatted
Finds-require size [] s next root count seen h = tt
Finds-require size (c ∷ t) s next root count seen h = elim (dec_lt (length (c ∷ t)) size) [
  | yes short ↦ rw (lt→ltb (length (c ∷ t)) size short) (h short)
  | no long ↦ rw (le→ltb (length (c ∷ t)) size (omega arith)) tt
]

Finds-chop :
    (t : Text) (s : Search) (next : Text → Scan) (root : List TempEvent) (count : ℕ)
    (seen : List Sighting)
    → ((u : Text) → Finds (next u) root count seen)
    → Finds (chop t s next) root count seen
unfolding chop
Finds-chop [] s next root count seen h = tt
Finds-chop (c ∷ t) s next root count seen h = h _

Finds-after_fgets :
    (o : Option Text) (old : Text) (s : Search) (next : Text → Scan) (root : List TempEvent)
    (count : ℕ) (seen : List Sighting)
    → ((u : Text) → Finds (next u) root count seen)
    → Finds (after_fgets o old s next) root count seen
unfolding after_fgets
Finds-after_fgets none old s next root count seen h = h old
Finds-after_fgets (some line) old s next root count seen h =
    Finds-chop (c_string line) s next root count seen h

pub Finds-read_line :
    (w : World) (o : Option Text) (missing old : Text) (s : Search) (next : Text → Scan)
    (root : List TempEvent) (count : ℕ) (seen : List Sighting)
    → ((u : Text) → Finds (next u) root count seen)
    → Finds (read_line w o missing old s next) root count seen
unfolding read_line
Finds-read_line w none missing old s next root count seen h = h missing
Finds-read_line w (some bytes) missing old s next root count seen h =
    Finds-after_fgets (fgets w.min_str_len bytes) old s next root count seen h

Finds-link :
    (ev : TempEvent) (root : List TempEvent) (s : Search)
    → Finds (after_insert (link ev root s)) root s.count (sighting ev ∷ [])
unfolding link after_insert
Finds-link ev [] s = (refl, omega arith)
Finds-link ev (x ∷ xs) s = elim (Bool-cases s.last) [
  | inl e ↦ rw e (map-append sighting (x ∷ xs) (ev ∷ []), omega arith)
  | inr e ↦ rw e tt
]

Finds-link_cray :
    (ev : TempEvent) (root : List TempEvent) (s : Search)
    → Finds (after_cray_insert (link ev root s)) root s.count (sighting ev ∷ [])
unfolding link after_cray_insert
Finds-link_cray ev [] s = (refl, omega arith)
Finds-link_cray ev (x ∷ xs) s = elim (Bool-cases s.last) [
  | inl e ↦ rw e (map-append sighting (x ∷ xs) (ev ∷ []), omega arith)
  | inr e ↦ rw e tt
]

-- An insertion finds the event as it is stored.
pub Finds-after_insert :
    (w : World) (ev : TempEvent) (s : Search)
    → Finds (after_insert (insert_in_list w ev s)) s.root s.count (sighting (stored w ev) ∷ [])
unfolding insert_in_list after_insert
Finds-after_insert w ev s = elim (Bool-cases (w.memory (length s.root))) [
  | inl e ↦ rw e (Finds-link (stored w ev) s.root s)
  | inr e ↦ rw e tt
]

pub Finds-after_cray_insert :
    (w : World) (ev : TempEvent) (s : Search)
    → Finds (after_cray_insert (insert_in_list w ev s)) s.root s.count (sighting (stored w ev) ∷ [])
unfolding insert_in_list after_cray_insert
Finds-after_cray_insert w ev s = elim (Bool-cases (w.memory (length s.root))) [
  | inl e ↦ rw e (Finds-link_cray (stored w ev) s.root s)
  | inr e ↦ rw e tt
]
