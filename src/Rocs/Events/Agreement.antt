-- ===== src/Rocs/Events/Agreement.antt =====
-- The two passes over the same catalog (patches/rocm_smi/rocs.c).
pub mod Loops
pub mod Leaves
pub mod Merged
pub mod Cases
pub mod Groups
pub mod Totals
use scorep_amd.Common.{ℕ, ◌+◌, ◌≡◌, ◌≤◌, ◌<◌, length, ◌==◌}
use scorep_amd.Common.Run.{Run, ok, fault}
use scorep_amd.Rocs.{PapiErrno}
use scorep_amd.Rocs.Events.{Statics, EventType}
use scorep_amd.Rocs.Events.Counting.{Tally}
use scorep_amd.Rocs.Events.Filling.{Fill}

-- The same elements are 0.
pub record SameZeros (a b : Statics) : Type 0 where
  pub fan : (d : ℕ) → (a.fan_speed d == 0) ≡ (b.fan_speed d == 0)
  pub cap : (d sub : ℕ) → (a.power_cap d sub == 0) ≡ (b.power_cap d sub == 0)
  pub perf : (d : ℕ) → (a.perf_level_count d == 0) ≡ (b.perf_level_count d == 0)

-- The elements are below a bound, such as the number of events.
pub record AreBelow (st : Statics) (n : ℕ) : Type 0 where
  pub fan : (d : ℕ) → st.fan_speed d < n
  pub cap : (d sub : ℕ) → st.power_cap d sub < n
  pub perf : (d : ℕ) → st.perf_level_count d < n

-- The second pass has written `k` events more than the first one has counted.
pub record Agree (k : ℕ) (c : Tally) (f : Fill) : Type 0 where
  pub zeros : SameZeros c.statics f.statics
  pub written : length f.events ≡ c.count + k
  pub begun : 3 ≤ c.count
  pub below : AreBelow f.statics (length f.events)
  pub reached : f.reach ≤ length f.events

-- Both runs fail, or both have values that are related.
unfoldable pub Both {ℓ ℓ'} : {A : Type ℓ} {B : Type ℓ'} → (A → B → Type 0) → Run A → Run B → Type 0
Both R (fault why) (fault why') = Unit
Both R (fault why) (ok b) = ⊥
Both R (ok a) (fault why) = ⊥
Both R (ok a) (ok b) = R a b
