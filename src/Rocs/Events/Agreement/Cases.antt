-- ===== src/Rocs/Events/Agreement/Cases.antt =====
-- The cases of `handle_special_events_count` and of `handle_special_events` agree
-- (patches/rocm_smi/rocs.c).
use scorep_amd.Common.{
  ℕ, ◌≡◌, refl, Bool, true, false, Option, none, some, if◌then◌else◌, ◌&&◌, ltb, ◌==◌,
}
use scorep_amd.Common.Run.{ok, fault, out_of_bounds}
use scorep_amd.Common.Strings.{Text}
use scorep_amd.Rocs.{AccessMode, mode_read, mode_write}
use scorep_amd.Rocs.Events.{
  Catalog, Leaf, Case, pci_throughput, power_presets, power_cap_range, ecc_count, pci_bandwidth_get,
  pci_bandwidth_set, clk_freq_get, clk_freq_set, fan_speed_get, fan_speed_set, power_cap_get,
  power_cap_set, perf_level_set, perf_level, other_function, case_of, num_freqs, EventType,
}
use scorep_amd.Rocs.Events.Counting.{
  Tally, count_case, count_fan, count_cap, count_perf, count_leaf,
}
use scorep_amd.Rocs.Events.Filling.{Fill, fill_case, fill_fan, fill_power_cap, fill_perf, fill_leaf}
use scorep_amd.Rocs.Events.Counting.{name_of}
use scorep_amd.Rocs.Events.{is_merged}
use scorep_amd.Rocs.Events.Agreement.Merged.{merge_event-Match, fan-Follow, cap-Follow, perf-Follow}
use scorep_amd.Rocs.Events.Agreement.{Agree, Both}
use scorep_amd.Rocs.Events.Agreement.Loops.{bind-Both}
use scorep_amd.Rocs.Events.Agreement.Leaves.{
  Match, named-normal, variants-Adds, maybe-Adds, fill_freqs-Adds, special-Adds, bandwidths_none,
  freqs-Both,
}

guarded-Both :
    (R : EventType × Tally → EventType × Fill → Type 0) (b : Bool) (x : EventType × Tally)
    (y : EventType × Fill)
    → R x y
    → Both R (if b then ok x else fault out_of_bounds) (if b then ok y else fault out_of_bounds)
unfolding Both
guarded-Both R true x y h = h
guarded-Both R false x y h = _

module _ (m : Catalog) (leaf : Leaf) (k : ℕ) (c : Tally) (f : Fill) (a : Agree k c f) where
  fan-Both :
      (mode : AccessMode) (t : Text)
      → name_of m leaf ≡ some t
      → Both (Match m leaf k) (count_fan leaf.device c) (fill_fan leaf mode f)
  unfolding count_fan fill_fan
  fan-Both mode t named = guarded-Both (Match m leaf k) (ltb leaf.device 32) _ _ (
      merge_event-Match m leaf k c f a mode _ _ _ _ t (a.zeros.fan leaf.device)
        (fan-Follow m leaf k c f a leaf.device) named)

  cap-Both :
      (mode : AccessMode) (sub : Option ℕ) (t : Text)
      → name_of m leaf ≡ some t
      → Both (Match m leaf k) (count_cap leaf.device sub c) (fill_power_cap leaf sub mode f)
  unfolding count_cap fill_power_cap Both
  cap-Both mode none t named = _
  cap-Both mode (some sub) t named =
      guarded-Both (Match m leaf k) (ltb leaf.device 32 && ltb sub 32) _ _ (
        merge_event-Match m leaf k c f a mode _ _ _ _ t (a.zeros.cap leaf.device sub)
          (cap-Follow m leaf k c f a leaf.device sub) named)

  perf-Both :
      (mode : AccessMode) (t : Text)
      → name_of m leaf ≡ some t
      → Both (Match m leaf k) (count_perf leaf.device c) (fill_perf leaf mode f)
  unfolding count_perf fill_perf
  perf-Both mode t named = guarded-Both (Match m leaf k) (ltb leaf.device 32) _ _ (
      merge_event-Match m leaf k c f a mode _ _ _ _ t (a.zeros.perf leaf.device)
        (perf-Follow m leaf k c f a leaf.device) named)

  case-Both :
      (case : Case)
      → m.pcie_rates leaf.device ≡ 0
      → (is_merged case ≡ true → (t : Text) × (name_of m leaf ≡ some t))
      → Both (Match m leaf k) (count_case m leaf case c) (fill_case m leaf case f)
  unfolding count_case fill_case Both Match is_merged
  case-Both pci_throughput e named =
      special-Adds m leaf k 3 c f _ a (variants-Adds m leaf 3 0 (λ j. some j) (λ _. none) f)
  case-Both power_presets e named =
      special-Adds m leaf k 3 c f _ a (variants-Adds m leaf 3 0 (λ j. some j) (λ _. none) f)
  case-Both power_cap_range e named =
      special-Adds m leaf k 2 c f _ a
        (variants-Adds m leaf 2 0 (λ j. some j) (λ _. leaf.subvariant) f)
  case-Both ecc_count e named =
      special-Adds m leaf k 2 c f _ a (variants-Adds m leaf 2 0 (λ _. leaf.variant) (λ j. some j) f)
  case-Both pci_bandwidth_get e named = bandwidths_none m leaf k _ c f e a
  case-Both pci_bandwidth_set e named =
      special-Adds m leaf k _ c f _ a (maybe-Adds m leaf (m.pcie_rates leaf.device == 0) _ _ _ f)
  case-Both clk_freq_get e named =
      freqs-Both m leaf k (num_freqs m leaf.device leaf.variant) _ c f _ a
        (λ n. fill_freqs-Adds m leaf n f)
  case-Both clk_freq_set e named =
      freqs-Both m leaf k (num_freqs m leaf.device leaf.variant) _ c f _ a
        (λ n. maybe-Adds m leaf (n == 0) _ _ _ f)
  case-Both fan_speed_get e named = let (t, h) = named refl in fan-Both mode_read t h
  case-Both fan_speed_set e named = let (t, h) = named refl in fan-Both mode_write t h
  case-Both power_cap_get e named =
      let (t, h) = named refl in cap-Both mode_read leaf.subvariant t h
  case-Both power_cap_set e named =
      let (t, h) = named refl in cap-Both mode_write leaf.subvariant t h
  case-Both perf_level_set e named = let (t, h) = named refl in perf-Both mode_write t h
  case-Both perf_level e named = let (t, h) = named refl in perf-Both mode_read t h
  case-Both other_function e named = named-normal m leaf k (name_of m leaf) c f a

pub leaf-Both :
    (m : Catalog) (leaf : Leaf) (k : ℕ) (c : Tally) (f : Fill)
    → m.pcie_rates leaf.device ≡ 0
    → (is_merged (case_of leaf.name) ≡ true → (t : Text) × (name_of m leaf ≡ some t))
    → Agree k c f
    → Both (Agree k) (count_leaf m leaf c) (fill_leaf m leaf f)
unfolding count_leaf fill_leaf Both Match
leaf-Both m leaf k c f e named a =
    bind-Both (Match m leaf k) (Agree k) _ _ _ _
      (case-Both m leaf k c f a (case_of leaf.name) e named) (λ r r' h. h)
