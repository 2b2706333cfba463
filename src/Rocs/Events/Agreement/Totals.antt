-- ===== src/Rocs/Events/Agreement/Totals.antt =====
-- The number of events written against the number counted (patches/rocm_smi/rocs.c).
use scorep_amd.Common.{
  ◌≤◌, arith, ℕ, ◌+◌, ◌≡◌, refl, ap, ◌∙◌, Bool, true, false, length, if◌then◌else◌, ◌==◌,
}
use scorep_amd.Common.Run.{Run, ok, fault, out_of_bounds, ok-injective, ◌>>=◌}
use scorep_amd.Rocs.{papi_ok}
use scorep_amd.Rocs.Events.{Catalog, Statics}
use scorep_amd.Rocs.Events.Counting.{Tally, count_leaf, count_xgmi, get_ntv_events_count}
use scorep_amd.Rocs.Events.Filling.{
  Fill, fill_leaf, fill_xgmi, fill_events, info_events, written_within, get_ntv_events, add_event,
}
use scorep_amd.Rocs.Events.Walk.{errno_of}
use scorep_amd.Rocs.Events.Agreement.{AreBelow, SameZeros, Agree, Both}
use scorep_amd.Rocs.Events.Agreement.Loops.{Outcome, added, devices-Both}
use scorep_amd.Rocs.Events.Agreement.Cases.{leaf-Both}
use scorep_amd.Rocs.Events.Agreement.Groups.{Ordinary, groups, xgmi-Both}

info_events-Agree :
    (m : Catalog) (st st' : Statics)
    → SameZeros st st'
    → AreBelow st' 3
    → Agree 0 (record { statics = st; count = 3 }) (info_events m st')
unfolding info_events add_event
info_events-Agree m st st' h b = record {
  zeros = h;
  written = refl;
  begun = omega arith;
  below = b;
  reached = omega arith;
}

-- The supported XGMI groups of the devices that are listed.
unfoldable pub all_groups : Catalog → ℕ
unfolding added
all_groups m = added m (groups m) m.device_count 0

events-Both :
    (m : Catalog) (st st' : Statics)
    → Ordinary m
    → SameZeros st st'
    → AreBelow st' 3
    → Both (Outcome (Agree (0 + all_groups m))) (get_ntv_events_count m st) (fill_events m st')
unfolding get_ntv_events_count fill_events all_groups
events-Both m st st' o h b =
    devices-Both Agree (count_leaf m) (fill_leaf m) (count_xgmi m) (fill_xgmi m) (groups m)
      (λ k leaf c f a. leaf-Both m leaf k c f (o.rates leaf.device) (o.named leaf) a)
      (λ k dev c f a. xgmi-Both m o k dev c f a) m m.device_count 0 0 _ _
      (info_events-Agree m st st' h b)

counted-Both :
    (c : Tally) (k : ℕ) (run : Run (Bool × Tally)) (run' : Run (Bool × Fill))
    → Both (Outcome (Agree k)) run run'
    → run ≡ ok (true, c)
    → (f : Fill) × (run' ≡ ok (true, f)) × Agree k c f
unfolding Both Outcome
counted-Both c k (ok (true, c')) (ok (true, f)) (same, a) e =
    (f, refl, rw (ap (λ r. r.1) (ok-injective (true, c') (true, c) e)) at (a refl))
counted-Both c k (ok (true, c')) (ok (false, f)) (same, a) e = cc
counted-Both c k (ok (false, c')) (ok (d, f)) (same, a) e = cc
counted-Both c k (ok (d, c')) (fault w) b e = elim b [ ]
counted-Both c k (fault w) run' b e = cc

written_within-at :
    (n k : ℕ) (f : Fill)
    → length f.events ≡ n + k
    → f.reach ≤ length f.events
    → written_within n (true, f) ≡ (if k == 0 then ok (papi_ok, f) else fault out_of_bounds)
unfolding written_within errno_of
written_within-at n k f e r = ground arith

-- The second pass after the first one.
pub get_ntv_events-counted :
    (m : Catalog) (st st' : Statics) (c : Tally)
    → Ordinary m
    → SameZeros st st'
    → AreBelow st' 3
    → get_ntv_events_count m st ≡ ok (true, c)
    → (f : Fill) × (fill_events m st' ≡ ok (true, f))
      × (length f.events ≡ c.count + all_groups m)
      × (get_ntv_events m st' c.count
          ≡ (if all_groups m == 0 then ok (papi_ok, f) else fault out_of_bounds))
unfolding get_ntv_events
get_ntv_events-counted m st st' c o h b e =
    let (f, run, a) = counted-Both c (0 + all_groups m) _ _ (events-Both m st st' o h b) e in
    let long : length f.events ≡ c.count + all_groups m = omega (arith, a.written) in
    (
      f,
      run,
      long,
      ap (λ run. run >>= written_within c.count) run
          ∙ written_within-at c.count (all_groups m) f long a.reached,
    )
