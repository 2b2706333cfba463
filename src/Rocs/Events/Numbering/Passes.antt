-- ===== src/Rocs/Events/Numbering/Passes.antt =====
-- The ids of all events that the second pass (patches/rocm_smi/rocs.c) makes.
use scorep_amd.Common.{
  ℕ, zero, suc, ◌+◌, ◌-◌, ◌≡◌, refl, Bool, true, false, none, some, Option-cases, Bool-cases, inl,
  inr, ◌==◌, ap, sym,
}
use scorep_amd.Common.Run.{Run, ok, fault, ok-injective}
use scorep_amd.Common.Strings.{codes}
use scorep_amd.Rocs.{mode_read}
use scorep_amd.Rocs.Library.{XgmiGroup, grp_xgmi, grp_xgmi_data_out}
use scorep_amd.Rocs.Events.{Catalog, Statics}
use scorep_amd.Rocs.Events.Filling.{
  Fill, add_event, fill_leaf, fill_group, fill_peer, fill_peers, fill_xgmi, fill_events,
  info_events,
}
use scorep_amd.Rocs.Events.Agreement.{Both}
use scorep_amd.Rocs.Events.Agreement.Loops.{Outcome, devices-Both}
use scorep_amd.Rocs.Events.Numbering.{IsNumbered, Kept, add_event-Kept, for_each-Kept, Ends}
use scorep_amd.Rocs.Events.Numbering.Leaves.{leaf-Ends}

module _ (m : Catalog) (dev : ℕ) where
  group-Kept : (g : XgmiGroup) (f : Fill) → Kept f → Kept (fill_group m dev g f)
  unfolding fill_group
  group-Kept g f h = elim (Bool-cases (m.group_supported dev g)) [
    | inl e ↦ rw e (
        for_each-Kept (m.last_type g + 1 - m.first_type g) (m.first_type g) _ f
          (λ i k' h'.
            add_event-Kept m (codes "rsmi_dev_xgmi_evt_get") (some dev) (some i) none mode_read k'
              h')
          h)
    | inr e ↦ rw e h
  ]

  peer-Kept : (i : ℕ) (f : Fill) → Kept f → Kept (fill_peer m dev i f)
  unfolding fill_peer
  peer-Kept i f h =
      for_each-Kept 2 0 _ f
        (λ j g k.
          add_event-Kept m (codes "rsmi_dev_xgmi_bw_get") (some dev) (some j) (some i) mode_read g
            k)
        h

  peers-Kept : (left i : ℕ) (f : Fill) → Kept f → Kept (fill_peers m dev left i f)
  unfolding fill_peers
  peers-Kept zero i f h = h
  peers-Kept (suc left) i f h = elim (Bool-cases (i == dev)) [
    | inl e ↦ rw e (peers-Kept left (i + 1) f h)
    | inr e ↦ elim (Option-cases (m.p2p_accessible i dev)) [
      | inl e' ↦ rw (e, e') h
      | inr (zero, e') ↦ rw (e, e') (peers-Kept left (i + 1) f h)
      | inr (suc r, e') ↦ elim (Bool-cases (m.minmax_bandwidth dev i)) [
        | inl w ↦ rw (e, e', w) (peers-Kept left (i + 1) _ (peer-Kept i f h))
        | inr w ↦ rw (e, e', w) h
      ]
    ]
  ]

-- A run against itself.
same-Both : (run : Run Fill) → Ends Kept run → Both (λ f g. (f ≡ g) × Kept f) run run
unfolding Ends Both
same-Both (fault w) h = _
same-Both (ok f) h = (refl, h)

info-Kept : (m : Catalog) (st : Statics) → Kept (info_events m st)
unfolding info_events add_event IsNumbered Kept
info-Kept m st = (refl, (refl, (refl, _)))

events-Kept :
    (run : Run (Bool × Fill)) (f : Fill)
    → Both (Outcome (λ (f g : Fill). (f ≡ g) × Kept f)) run run
    → run ≡ ok (true, f)
    → Kept f
unfolding Both Outcome
events-Kept (ok (true, g)) f (same, h) e =
    rw (ap (λ r. r.1) (ok-injective (true, g) (true, f) e)) at (h refl).1
events-Kept (ok (false, g)) f b e = cc
events-Kept (fault w) f b e = cc

xgmi-Ends : (m : Catalog) (dev : ℕ) (f : Fill) → Kept f → Ends Kept (fill_xgmi m dev f)
unfolding fill_xgmi Ends
xgmi-Ends m dev f h =
    peers-Kept m dev m.device_count 0 _
      (group-Kept m dev grp_xgmi_data_out _ (group-Kept m dev grp_xgmi f h))

walk-Both :
    (m : Catalog) (st : Statics)
    → Both (Outcome (λ (f g : Fill). (f ≡ g) × Kept f)) (fill_events m st) (fill_events m st)
unfolding fill_events
walk-Both m st =
    devices-Both (λ k f g. (f ≡ g) × Kept f) (fill_leaf m) (fill_leaf m) (fill_xgmi m) (fill_xgmi m)
      (λ _. 0)
      (λ k leaf f g (e, h). rw (sym e) (same-Both (fill_leaf m leaf f) (leaf-Ends m leaf f h)))
      (λ k dev f g (e, h). rw (sym e) (same-Both (fill_xgmi m dev f) (xgmi-Ends m dev f h))) m
      m.device_count 0 0 _ _ (refl, info-Kept m st)

-- Whatever the library answers, every event that the second pass makes has its place in the table as its
-- id, if the pass gets through all iterators.
pub fill_events-IsNumbered :
    (m : Catalog) (st : Statics) (f : Fill)
    → fill_events m st ≡ ok (true, f)
    → IsNumbered 0 f.events
unfolding Kept
fill_events-IsNumbered m st f e = events-Kept (fill_events m st) f (walk-Both m st) e
