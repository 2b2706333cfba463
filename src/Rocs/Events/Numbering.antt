-- ===== src/Rocs/Events/Numbering.antt =====
-- The id of an event is its place in the table (patches/rocm_smi/rocs.c).
pub mod Leaves
pub mod Passes
use scorep_amd.Common.{
  arith, ℕ, zero, suc, ◌+◌, ◌-◌, ◌≡◌, refl, Bool, true, false, Option, none, some, Option-cases,
  Bool-cases, inl, inr, List, [], ◌∷◌, ◌++◌, length, if◌then◌else◌, ◌&&◌, ltb, ◌==◌, get_elem?, set,
  ap, sym, ◌∙◌,
}
use mathlib.Core.Option.{some-injective}
use scorep_amd.Common.Run.{Run, ok, fault, ok-injective, ◌>>=◌, out_of_bounds}
use scorep_amd.Common.Strings.{Text, codes}
use scorep_amd.Rocs.{AccessMode, mode_read, mode_write, mode_rdwr}
use scorep_amd.Rocs.Library.{XgmiGroup, grp_xgmi, grp_xgmi_data_out}
use scorep_amd.Rocs.Events.{
  Catalog, Leaf, Case, pci_throughput, power_presets, power_cap_range, ecc_count, pci_bandwidth_get,
  pci_bandwidth_set, clk_freq_get, clk_freq_set, fan_speed_get, fan_speed_set, power_cap_get,
  power_cap_set, perf_level_set, perf_level, other_function, case_of, num_freqs, Statics, EventType,
  normal, special,
}
use scorep_amd.Rocs.Events.Filling.{
  TableEvent, Fill, add_event, leaf_event, for_each, fill_case, fill_bandwidths, fill_freqs,
  fill_fan, fill_power_cap, fill_perf, fill_leaf, fill_named, fill_group, fill_peer, fill_peers,
  fill_xgmi, fill_events, merge_event, rewrite_event, info_events,
}
use scorep_amd.Rocs.Events.Agreement.{Both}
use scorep_amd.Rocs.Events.Agreement.Loops.{Outcome, devices-Both}

-- The events are numbered from `n` on.
unfoldable pub IsNumbered : ℕ → List TableEvent → Type 0
IsNumbered n [] = Unit
IsNumbered n (e ∷ es) = (e.id ≡ n) × IsNumbered (n + 1) es

snoc-IsNumbered :
    (n : ℕ) (es : List TableEvent) (e : TableEvent)
    → IsNumbered n es
    → e.id ≡ n + length es
    → IsNumbered n (es ++ e ∷ [])
unfolding IsNumbered
snoc-IsNumbered n [] e h i = (omega (arith, i), _)
snoc-IsNumbered n (d ∷ es) e (same, h) i = (same, snoc-IsNumbered (n + 1) es e h (omega (arith, i)))

set-IsNumbered :
    (n i : ℕ) (es : List TableEvent) (e : TableEvent)
    → IsNumbered n es
    → get_elem? es i ≡ some e
    → IsNumbered n (set es i (record e { mode = mode_rdwr }))
unfolding IsNumbered
set-IsNumbered n i [] e h g = _
set-IsNumbered n zero (d ∷ es) e (same, h) g =
    (sym (ap (λ (x : TableEvent). x.id) (some-injective d e g)) ∙ same, h)
set-IsNumbered n (suc i) (d ∷ es) e (same, h) g = (same, set-IsNumbered (n + 1) i es e h g)

pub get_elem-id :
    (n i : ℕ) (es : List TableEvent) (e : TableEvent)
    → IsNumbered n es
    → get_elem? es i ≡ some e
    → e.id ≡ n + i
unfolding IsNumbered
get_elem-id n i [] e h g = cc
get_elem-id n zero (d ∷ es) e (same, h) g =
    sym (ap (λ (x : TableEvent). x.id) (some-injective d e g)) ∙ same ∙ omega arith
get_elem-id n (suc i) (d ∷ es) e (same, h) g = omega (arith, get_elem-id (n + 1) i es e h g)

-- The numbering of the events of the second pass.
unfoldable Kept : Fill → Type 0
Kept f = IsNumbered 0 f.events

add_event-Kept :
    (m : Catalog) (func : Text) (dev v sub : Option ℕ) (mode : AccessMode) (f : Fill)
    → Kept f
    → Kept (add_event m func dev v sub mode f)
unfolding add_event Kept
add_event-Kept m func dev v sub mode f h = snoc-IsNumbered 0 f.events _ h (omega arith)

for_each-Kept :
    (n i : ℕ) (step : ℕ → Fill → Fill) (f : Fill)
    → ((j : ℕ) (g : Fill) → Kept g → Kept (step j g))
    → Kept f
    → Kept (for_each n i step f)
unfolding for_each
for_each-Kept zero i step f ih h = h
for_each-Kept (suc n) i step f ih h = for_each-Kept n (i + 1) step (step i f) ih (ih i f h)

chosen-IsNumbered :
    (i : ℕ) (es : List TableEvent) (o : Option TableEvent)
    → get_elem? es i ≡ o
    → IsNumbered 0 es
    → IsNumbered 0 (elim o [ none ↦ es | some e ↦ set es i (record e { mode = mode_rdwr }) ])
chosen-IsNumbered i es none g h = h
chosen-IsNumbered i es (some e) g h = set-IsNumbered 0 i es e h g

rewrite_event-IsNumbered :
    (i : ℕ) (es : List TableEvent) → IsNumbered 0 es → IsNumbered 0 (rewrite_event i es)
unfolding rewrite_event
rewrite_event-IsNumbered i es h = chosen-IsNumbered i es (get_elem? es i) refl h

-- Where the run has a value, it satisfies `P`.
unfoldable Ends {ℓ} : {A : Type ℓ} → (A → Type 0) → Run A → Type 0
Ends P (fault why) = Unit
Ends P (ok a) = P a

guarded-Ends :
    {A : Type 0} (P : A → Type 0) (b : Bool) (a : A)
    → P a
    → Ends P (if b then ok a else fault out_of_bounds)
unfolding Ends
guarded-Ends P true a h = h
guarded-Ends P false a h = _

bind-Ends :
    {A B : Type 0} (P : A → Type 0) (Q : B → Type 0) (run : Run A) (next : A → Run B)
    → Ends P run
    → ((a : A) → P a → Ends Q (next a))
    → Ends Q (run >>= next)
unfolding Ends
bind-Ends P Q (fault w) next h k = _
bind-Ends P Q (ok a) next h k = k a h

any-Ends : {A : Type 0} (run : Run A) → Ends (λ _. Unit) run
unfolding Ends
any-Ends (fault w) = _
any-Ends (ok a) = _

abbrev KeptPair : EventType × Fill → Type 0
KeptPair r = Kept r.1
