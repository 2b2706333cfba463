-- ===== src/Rocs/Events/Numbering/Leaves.antt =====
-- What the second pass (patches/rocm_smi/rocs.c) does with a function keeps the ids right.
use scorep_amd.Common.{
  ℕ, ◌+◌, Bool, true, false, Option, none, some, Bool-cases, inl, inr, if◌then◌else◌, ◌&&◌, ltb,
  ◌==◌,
}
use scorep_amd.Common.Strings.{Text}
use scorep_amd.Rocs.{AccessMode, mode_read, mode_write, mode_rdwr}
use scorep_amd.Rocs.Events.{
  Catalog, Leaf, Case, pci_throughput, power_presets, power_cap_range, ecc_count, pci_bandwidth_get,
  pci_bandwidth_set, clk_freq_get, clk_freq_set, fan_speed_get, fan_speed_set, power_cap_get,
  power_cap_set, perf_level_set, perf_level, other_function, case_of, num_freqs, Statics, EventType,
  normal, special,
}
use scorep_amd.Rocs.Events.Filling.{
  Fill, leaf_event, for_each, fill_case, fill_bandwidths, fill_freqs, fill_fan, fill_power_cap,
  fill_perf, fill_leaf, fill_named, merge_event,
}
use scorep_amd.Rocs.Events.Numbering.{
  Kept, add_event-Kept, for_each-Kept, rewrite_event-IsNumbered, Ends, guarded-Ends, bind-Ends,
  any-Ends, KeptPair,
}

module _ (m : Catalog) (leaf : Leaf) (f : Fill) (h : Kept f) where
  merge_event-Kept : (mode : AccessMode) (n : ℕ) (st : Statics) → KeptPair (merge_event mode n st f)
  unfolding merge_event Kept
  merge_event-Kept mode_read n st = h
  merge_event-Kept mode_rdwr n st = h
  merge_event-Kept mode_write n st = elim (Bool-cases (n == 0)) [
    | inl e ↦ rw e h
    | inr e ↦ rw e (rewrite_event-IsNumbered n f.events h)
  ]

  leaf_events-Kept :
      (n i : ℕ) (v sub : ℕ → Option ℕ) (g : Fill)
      → Kept g
      → Kept (for_each n i (λ j. leaf_event m leaf (v j) (sub j) mode_read) g)
  unfolding leaf_event
  leaf_events-Kept n i v sub g k =
      for_each-Kept n i _ g
        (λ j g' k'. add_event-Kept m leaf.name (some leaf.device) (v j) (sub j) mode_read g' k') k

  maybe-Kept :
      (b : Bool) (v sub : Option ℕ) (mode : AccessMode) (g : Fill)
      → Kept g
      → Kept (if b then g else leaf_event m leaf v sub mode g)
  unfolding leaf_event
  maybe-Kept true v sub mode g k = k
  maybe-Kept false v sub mode g k = add_event-Kept m leaf.name (some leaf.device) v sub mode g k

  fill_bandwidths-Kept : (rates : ℕ) → Kept (fill_bandwidths m leaf rates f)
  unfolding fill_bandwidths
  fill_bandwidths-Kept rates = elim (Bool-cases (rates == 0)) [
    | inl e ↦ rw e h
    | inr e ↦ rw e (
        for_each-Kept 2 2 _ _ (λ i g k. leaf_events-Kept rates 0 (λ _. some i) (λ j. some j) g k)
          (leaf_events-Kept 2 0 (λ i. some i) (λ _. none) f h))
  ]

  fill_freqs-Kept : (n : ℕ) → Kept (fill_freqs m leaf n f)
  unfolding fill_freqs
  fill_freqs-Kept n =
      leaf_events-Kept n 0 (λ _. leaf.variant) (λ i. some (2 + i)) _
        (for_each-Kept 2 0 _ f (λ i g k. maybe-Kept (n == 0) leaf.variant (some i) mode_read g k) h)

  fan-Ends : (mode : AccessMode) → Ends KeptPair (fill_fan leaf mode f)
  unfolding fill_fan
  fan-Ends mode = guarded-Ends KeptPair (ltb leaf.device 32) _ (merge_event-Kept mode _ _)

  cap-Ends : (mode : AccessMode) (sub : Option ℕ) → Ends KeptPair (fill_power_cap leaf sub mode f)
  unfolding fill_power_cap Ends
  cap-Ends mode none = _
  cap-Ends mode (some sub) =
      guarded-Ends KeptPair (ltb leaf.device 32 && ltb sub 32) _ (merge_event-Kept mode _ _)

  perf-Ends : (mode : AccessMode) → Ends KeptPair (fill_perf leaf mode f)
  unfolding fill_perf
  perf-Ends mode = guarded-Ends KeptPair (ltb leaf.device 32) _ (merge_event-Kept mode _ _)

  case-Ends : (case : Case) → Ends KeptPair (fill_case m leaf case f)
  unfolding fill_case Ends
  case-Ends pci_throughput = leaf_events-Kept 3 0 (λ i. some i) (λ _. none) f h
  case-Ends power_presets = leaf_events-Kept 3 0 (λ i. some i) (λ _. none) f h
  case-Ends power_cap_range = leaf_events-Kept 2 0 (λ i. some i) (λ _. leaf.subvariant) f h
  case-Ends ecc_count = leaf_events-Kept 2 0 (λ _. leaf.variant) (λ i. some i) f h
  case-Ends pci_bandwidth_get = fill_bandwidths-Kept (m.pcie_rates leaf.device)
  case-Ends pci_bandwidth_set =
      maybe-Kept (m.pcie_rates leaf.device == 0) leaf.variant leaf.subvariant mode_write f h
  case-Ends clk_freq_get =
      bind-Ends (λ _. Unit) KeptPair (num_freqs m leaf.device leaf.variant) _ (any-Ends _)
        (λ n _. fill_freqs-Kept n)
  case-Ends clk_freq_set =
      bind-Ends (λ _. Unit) KeptPair (num_freqs m leaf.device leaf.variant) _ (any-Ends _)
        (λ n _. maybe-Kept (n == 0) leaf.variant none mode_write f h)
  case-Ends fan_speed_get = fan-Ends mode_read
  case-Ends fan_speed_set = fan-Ends mode_write
  case-Ends power_cap_get = cap-Ends mode_read leaf.subvariant
  case-Ends power_cap_set = cap-Ends mode_write leaf.subvariant
  case-Ends perf_level_set = perf-Ends mode_write
  case-Ends perf_level = perf-Ends mode_read
  case-Ends other_function = h

named-Kept :
    (m : Catalog) (leaf : Leaf) (name : Option Text) (r : EventType × Fill)
    → KeptPair r
    → Kept (fill_named m leaf name r)
unfolding fill_named leaf_event
named-Kept m leaf (some name) (normal, f) h =
    add_event-Kept m leaf.name (some leaf.device) _ _ _ f h
named-Kept m leaf (some name) (special, f) h = h
named-Kept m leaf none (t, f) h = h

pub leaf-Ends : (m : Catalog) (leaf : Leaf) (f : Fill) → Kept f → Ends Kept (fill_leaf m leaf f)
unfolding fill_leaf Ends
leaf-Ends m leaf f h =
    bind-Ends KeptPair Kept _ _ (case-Ends m leaf f h (case_of leaf.name))
      (λ r k. named-Kept m leaf _ r k)
