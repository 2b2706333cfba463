-- ===== src/Rocs/Events/Agreement/Groups.antt =====
-- The XGMI events of the two passes (patches/rocm_smi/rocs.c).
use scorep_amd.Common.{
  length, arith, ℕ, zero, suc, ◌+◌, ◌-◌, ◌≤◌, ◌≡◌, Bool, true, false, none, some, if◌then◌else◌,
  ◌==◌, Bool-cases, Option-cases, inl, inr, sym,
}
use scorep_amd.Common.Strings.{Text, codes}
use scorep_amd.Rocs.{mode_read}
use scorep_amd.Rocs.Library.{XgmiGroup, grp_xgmi, grp_xgmi_data_out}
use scorep_amd.Rocs.Events.{Catalog, Leaf, is_merged, case_of}
use scorep_amd.Rocs.Events.Counting.{Tally, name_of, count_group, count_peers, count_xgmi}
use scorep_amd.Rocs.Events.Filling.{
  Fill, fill_group, fill_peer, fill_peers, fill_xgmi, add_event, for_each,
}
use scorep_amd.Rocs.Events.Agreement.{Agree, Both}
use scorep_amd.Rocs.Events.Agreement.Leaves.{
  below_more, Adds, Agree-Adds, for_each-Adds, add_event-Adds,
}

-- A library whose devices have no PCIe rates in the table, as in builds without NO_PCIE, whose
-- groups have at least one type of event, whose answers about P2P access are symmetric and 0 or 1,
-- whose bandwidths can be read,
-- and whose functions that share an event have names, as in the source.
pub record Ordinary (m : Catalog) : Type 0 where
  pub rates : (d : ℕ) → m.pcie_rates d ≡ 0
  pub types : (g : XgmiGroup) → m.first_type g ≤ m.last_type g
  pub symmetric : (d i : ℕ) → m.p2p_accessible d i ≡ m.p2p_accessible i d
  pub answers : (d i res : ℕ) → m.p2p_accessible d i ≡ some res → res ≤ 1
  pub named :
      (leaf : Leaf) → is_merged (case_of leaf.name) ≡ true → (t : Text) × (name_of m leaf ≡ some t)
  pub bandwidths : (d i : ℕ) → m.minmax_bandwidth d i ≡ true

-- The supported groups of a device.
unfoldable pub groups : Catalog → ℕ → ℕ
groups m dev =
    (if m.group_supported dev grp_xgmi then 1 else 0)
    + (if m.group_supported dev grp_xgmi_data_out then 1 else 0)

-- The count, set to another number.
abbrev at_count : Tally → ℕ → Tally
at_count c n = record c { count = n }

more :
    (k k' n n' : ℕ) (c : Tally) (f : Fill)
    → Agree k (at_count c n) f
    → n + k ≡ n' + k'
    → 3 ≤ n'
    → Agree k' (at_count c n') f
more k k' n n' c f a e lt = record {
  zeros = a.zeros;
  written = omega (arith, a.written);
  begun = lt;
  below = a.below;
  reached = a.reached;
}

module _ (m : Catalog) (o : Ordinary m) (dev : ℕ) (c : Tally) where
  types-Adds :
      (n i : ℕ) (f : Fill)
      → Adds n f (
          for_each n i
            (λ j. add_event m (codes "rsmi_dev_xgmi_evt_get") (some dev) (some j) none mode_read)
            f)
  types-Adds n i f =
      for_each-Adds n i _ f (λ j g.
        add_event-Adds m (codes "rsmi_dev_xgmi_evt_get") (some dev) (some j) none mode_read g)

  group-Agree :
      (k n : ℕ) (g : XgmiGroup) (f : Fill)
      → Agree k (at_count c n) f
      → Agree
          (k + (if m.group_supported dev g then 1 else 0))
          (at_count c (count_group m dev g n))
          (fill_group m dev g f)
  unfolding count_group fill_group
  group-Agree k n g f a =
      elim (m.group_supported dev g)
        as (λ b.
          Agree (k + (if b then 1 else 0))
            (at_count c (if b then n + (m.last_type g - m.first_type g) else n))
            (if b
              then for_each (m.last_type g + 1 - m.first_type g) (m.first_type g)
                  (λ j.
                    add_event m (codes "rsmi_dev_xgmi_evt_get") (some dev) (some j) none mode_read)
                  f
              else f)) [
                | true ↦
                    let (same, far, long) =
                      types-Adds (m.last_type g + 1 - m.first_type g) (m.first_type g) f in
                    record {
                      zeros = rw same a.zeros;
                      written = omega (arith, a.written, long, o.types g);
                      begun = omega (arith, a.begun);
                      below =
                          rw same (
                            below_more f.statics (length f.events) _ (omega (arith, long)) a.below);
                      reached = omega (arith, a.reached, far, long);
                    }
                | false ↦ more k (k + 0) n n c f a (omega arith) a.begun
              ]

  peer-Agree :
      (k n i : ℕ) (f : Fill)
      → Agree k (at_count c n) f
      → Agree k (at_count c (n + 2)) (fill_peer m dev i f)
  unfolding fill_peer
  peer-Agree k n i f a = Agree-Adds k 2 (at_count c n) f _ a (
      for_each-Adds 2 0 _ f (λ j g.
        add_event-Adds m (codes "rsmi_dev_xgmi_bw_get") (some dev) (some j) (some i) mode_read g))

  -- After an answer about P2P access: `next` and `next'` are the rest of the loops.
  answered-Agree :
      (k i n res : ℕ) (w : Bool) (f : Fill) (next : ℕ → ℕ) (next' : Fill → Fill)
      → res ≤ 1
      → w ≡ true
      → ((n' : ℕ) (f' : Fill)
          → Agree k (at_count c n') f'
          → Agree k (at_count c (next n')) (next' f'))
      → Agree k (at_count c n) f
      → Agree k
          (at_count c (elim w [ false ↦ n | true ↦ next (if res == 1 then n + 2 else n) ]))
          (elim res [
            | zero ↦ next' f
            | suc r ↦ elim w [ false ↦ f | true ↦ next' (fill_peer m dev i f) ]
          ])
  answered-Agree k i n zero true f next next' lt e ih a = ih n f a
  answered-Agree k i n (suc zero) true f next next' lt e ih a = ih (n + 2) _ (peer-Agree k n i f a)
  answered-Agree k i n (suc (suc r)) true f next next' lt e ih a =
      let no : ⊥ = omega (arith, lt) in elim no [ ]
  answered-Agree k i n res false f next next' lt e ih a = cc

  peers-Agree :
      (k left i n : ℕ) (f : Fill)
      → Agree k (at_count c n) f
      → Agree k (at_count c (count_peers m dev left i n)) (fill_peers m dev left i f)
  unfolding count_peers fill_peers
  peers-Agree k zero i n f a = a
  peers-Agree k (suc left) i n f a = elim (Bool-cases (i == dev)) [
    | inl e ↦ rw e (peers-Agree k left (i + 1) n f a)
    | inr e ↦ elim (Option-cases (m.p2p_accessible dev i)) [
      | inl e' ↦ rw (e, sym (o.symmetric dev i), e') a
      | inr (res, e') ↦
          rw (e, sym (o.symmetric dev i), e')
            (answered-Agree k i n res (m.minmax_bandwidth dev i) f (count_peers m dev left (i + 1))
              (fill_peers m dev left (i + 1)) (o.answers dev i res e') (o.bandwidths dev i)
              (λ n' f' a'. peers-Agree k left (i + 1) n' f' a') a)
    ]
  ]

pub xgmi-Both :
    (m : Catalog) (o : Ordinary m) (k dev : ℕ) (c : Tally) (f : Fill)
    → Agree k c f
    → Both (Agree (k + groups m dev)) (count_xgmi m dev c) (fill_xgmi m dev f)
unfolding count_xgmi fill_xgmi Both groups
xgmi-Both m o k dev c f a =
    let a' = group-Agree m o dev c k c.count grp_xgmi f a in
    let a'' = group-Agree m o dev c _ _ grp_xgmi_data_out _ a' in
    let b = peers-Agree m o dev c _ m.device_count 0 _ _ a'' in
    record {
      zeros = b.zeros;
      written = omega (arith, b.written);
      begun = b.begun;
      below = b.below;
      reached = b.reached;
    }
