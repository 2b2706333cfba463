-- ===== src/Rocs/Events/Agreement/Merged.antt =====
-- The functions that share an event with another one, in both passes (patches/rocm_smi/rocs.c).
use scorep_amd.Common.{
  arith, ℕ, ◌+◌, ◌≤◌, ◌<◌, ◌≡◌, refl, ◌∙◌, Bool, true, false, Option, none, some, length, ◌==◌,
  if◌then◌else◌, Bool-cases, inl, inr, List, get_elem?, set, length-set,
}
use scorep_amd.Common.Strings.{Text}
use scorep_amd.Rocs.{AccessMode, mode_read, mode_write, mode_rdwr}
use scorep_amd.Rocs.Events.{
  Catalog, Leaf, update, Statics, special, normal, first_time, set_fan, set_cap, set_perf,
}
use scorep_amd.Rocs.Events.Counting.{Tally, count_named, name_of}
use scorep_amd.Rocs.Events.Filling.{TableEvent, Fill, merge_event, fill_named, rewrite_event}
use scorep_amd.Rocs.Events.Agreement.{AreBelow, SameZeros, Agree}
use scorep_amd.Rocs.Events.Filling.{overwrite_event, get_access_mode}
use scorep_amd.Common.{ltb}
use scorep_amd.Rocs.Events.Agreement.Leaves.{Match, one-Adds, named-special, below_more}

-- Setting an element of two arrays to numbers that are not 0 keeps their zeros alike.
update-zeros :
    (a b : ℕ → ℕ) (d n n' : ℕ)
    → 3 ≤ n
    → 3 ≤ n'
    → ((q : ℕ) → (a q == 0) ≡ (b q == 0))
    → (q : ℕ) → ((if d == q then n else a q) == 0) ≡ ((if d == q then n' else b q) == 0)
update-zeros a b d n n' lt lt' h q = grind (arith, h q)

rewrite_event-length :
    (i : ℕ) (events : List TableEvent) → length (rewrite_event i events) ≡ length events
unfolding rewrite_event
rewrite_event-length i events =
    elim (get_elem? events i)
      as (λ o.
        length (elim o [ none ↦ events | some e ↦ set events i (record e { mode = mode_rdwr }) ])
        ≡ length events) [
          | none ↦ refl
          | some e ↦ length-set events i (record e { mode = mode_rdwr })
        ]

same_choice :
    (b b' : Bool) (x x' y y' : Statics)
    → b ≡ b'
    → SameZeros x x'
    → SameZeros y y'
    → SameZeros (if b then x else y) (if b' then x' else y')
same_choice true true x x' y y' e h h' = h
same_choice true false x x' y y' e h h' = cc
same_choice false true x x' y y' e h h' = cc
same_choice false false x x' y y' e h h' = h'

cell :
    (f : ℕ → ℕ) (g : ℕ → ℕ) (t : Bool) (r : ℕ) → (if t then f else g) r ≡ (if t then f r else g r)
cell f g true r = refl
cell f g false r = refl

module _ (a b : Statics) (n n' : ℕ) (lt : 3 ≤ n) (lt' : 3 ≤ n') (h : SameZeros a b) where
  pub set_fan-SameZeros : (d : ℕ) → SameZeros (set_fan d n a) (set_fan d n' b)
  unfolding set_fan
  set_fan-SameZeros d =
      same_choice _ _ _ _ a b (h.fan d)
        (record {
          fan = update-zeros a.fan_speed b.fan_speed d n n' lt lt' h.fan;
          cap = h.cap;
          perf = h.perf;
        })
        h

  pub set_perf-SameZeros : (d : ℕ) → SameZeros (set_perf d n a) (set_perf d n' b)
  unfolding set_perf
  set_perf-SameZeros d =
      same_choice _ _ _ _ a b (h.perf d)
        (record {
          fan = h.fan;
          cap = h.cap;
          perf = update-zeros a.perf_level_count b.perf_level_count d n n' lt lt' h.perf;
        })
        h

  row-zeros :
      (d sub q r : ℕ) (t : Bool)
      → ((if t then (if sub == r then n else a.power_cap d r) else a.power_cap q r) == 0)
        ≡ ((if t then (if sub == r then n' else b.power_cap d r) else b.power_cap q r) == 0)
  row-zeros d sub q r true =
      update-zeros (a.power_cap d) (b.power_cap d) sub n n' lt lt' (h.cap d) r
  row-zeros d sub q r false = h.cap q r

  pub set_cap-SameZeros : (d sub : ℕ) → SameZeros (set_cap d sub n a) (set_cap d sub n' b)
  unfolding set_cap
  set_cap-SameZeros d sub =
      same_choice _ _ _ _ a b (h.cap d sub)
        (record {
          fan = h.fan;
          cap = λ q r.
              rw
                (
                  cell (update (a.power_cap d) sub n) (a.power_cap q) (d == q) r,
                  cell (update (b.power_cap d) sub n') (b.power_cap q) (d == q) r,
                )
                (row-zeros d sub q r (d == q));
          perf = h.perf;
        })
        h

rewrite_event-Agree :
    (k i : ℕ) (c : Tally) (f : Fill)
    → i < length f.events
    → Agree k c f
    → Agree k c (overwrite_event i f)
unfolding overwrite_event
rewrite_event-Agree k i c f lt a =
    let same = rewrite_event-length i f.events in
    record {
      zeros = a.zeros;
      written = same ∙ a.written;
      begun = a.begun;
      below = rw same a.below;
      reached = elim (Bool-cases (ltb f.reach (i + 1))) [
        | inl e ↦ rw (e, same) (omega (arith, lt))
        | inr e ↦ rw (e, same) a.reached
      ];
    }

-- A bound on the elements holds after one is set.
update-below :
    (a : ℕ → ℕ) (d n b : ℕ)
    → n < b
    → ((q : ℕ) → a q < b)
    → (q : ℕ) → (if d == q then n else a q) < b
update-below a d n b lt h q = grind (arith, h q)

choice_below :
    (t : Bool) (x y : Statics) (b : ℕ)
    → AreBelow x b
    → AreBelow y b
    → AreBelow (if t then x else y) b
choice_below true x y b h h' = h
choice_below false x y b h h' = h'

module _ (a : Statics) (n b : ℕ) (lt : n < b) (h : AreBelow a b) where
  pub set_fan-AreBelow : (d : ℕ) → AreBelow (set_fan d n a) b
  unfolding set_fan
  set_fan-AreBelow d =
      choice_below (a.fan_speed d == 0) _ a b
        (record { fan = update-below a.fan_speed d n b lt h.fan; cap = h.cap; perf = h.perf }) h

  pub set_perf-AreBelow : (d : ℕ) → AreBelow (set_perf d n a) b
  unfolding set_perf
  set_perf-AreBelow d =
      choice_below (a.perf_level_count d == 0) _ a b
        (record {
          fan = h.fan;
          cap = h.cap;
          perf = update-below a.perf_level_count d n b lt h.perf;
        })
        h

  row-below :
      (d sub q r : ℕ) (t : Bool)
      → (if t then (if sub == r then n else a.power_cap d r) else a.power_cap q r) < b
  row-below d sub q r true = update-below (a.power_cap d) sub n b lt (h.cap d) r
  row-below d sub q r false = h.cap q r

  pub set_cap-AreBelow : (d sub : ℕ) → AreBelow (set_cap d sub n a) b
  unfolding set_cap
  set_cap-AreBelow d sub =
      choice_below (a.power_cap d sub == 0) _ a b
        (record {
          fan = h.fan;
          cap = λ q r.
              rw (cell (update (a.power_cap d) sub n) (a.power_cap q) (d == q) r)
                (row-below d sub q r (d == q));
          perf = h.perf;
        })
        h

-- The static arrays after the call: unchanged where the element was set already.
set_fan-kept : (d n : ℕ) (st : Statics) → (st.fan_speed d == 0) ≡ false → set_fan d n st ≡ st
unfolding set_fan
set_fan-kept d n st e = rw e refl

set_perf-kept :
    (d n : ℕ) (st : Statics) → (st.perf_level_count d == 0) ≡ false → set_perf d n st ≡ st
unfolding set_perf
set_perf-kept d n st e = rw e refl

set_cap-kept :
    (d sub n : ℕ) (st : Statics) → (st.power_cap d sub == 0) ≡ false → set_cap d sub n st ≡ st
unfolding set_cap
set_cap-kept d sub n st e = rw e refl

-- The static arrays after a call of either pass.
pub record Follow (st st' : Statics) (f : Fill) (n' : ℕ) : Type 0 where
  pub zeros : SameZeros st st'
  pub below : AreBelow st' (length f.events + 1)
  pub kept : (n' == 0) ≡ false → st' ≡ f.statics
  pub index : n' < length f.events

module _ (m : Catalog) (leaf : Leaf) (k : ℕ) (c : Tally) (f : Fill) (a : Agree k c f) where
  -- The event that the first of the merged functions makes.
  fresh-Agree :
      (n' : ℕ) (st st' : Statics) (t : Text)
      → Follow st st' f n'
      → Agree k
          (count_named (some t) (normal, record c { statics = st }))
          (fill_named m leaf (some t) (normal, record f { statics = st' }))
  unfolding count_named fill_named
  fresh-Agree n' st st' t h =
      let (same, far, more) =
        one-Adds m leaf leaf.variant leaf.subvariant (get_access_mode leaf.name)
          (record f { statics = st' }) in
      record {
        zeros = rw same h.zeros;
        written = omega (arith, a.written, more);
        begun = omega (arith, a.begun);
        below = rw (same, more) h.below;
        reached = omega (arith, a.reached, far, more);
      }

  kept-Agree :
      (n' : ℕ) (st st' : Statics)
      → Follow st st' f n'
      → (n' == 0) ≡ false
      → Agree k (record c { statics = st }) (record f { statics = st' })
  kept-Agree n' st st' h e = record {
    zeros = h.zeros;
    written = a.written;
    begun = a.begun;
    below = rw (h.kept e) a.below;
    reached = a.reached;
  }

  -- The event of an element that was set before.
  again-Agree :
      (mode : AccessMode) (n' : ℕ) (st st' : Statics) (name : Option Text)
      → Follow st st' f n'
      → (n' == 0) ≡ false
      → Agree k
          (count_named name (special, record c { statics = st }))
          (fill_named m leaf name (merge_event mode n' st' f))
  unfolding merge_event first_time
  again-Agree mode_read n' st st' name h e =
      rw e (named-special m leaf k name _ _ (kept-Agree n' st st' h e))
  again-Agree mode_rdwr n' st st' name h e =
      rw e (named-special m leaf k name _ _ (kept-Agree n' st st' h e))
  again-Agree mode_write n' st st' name h e = rw e (
      named-special m leaf k name _ _ (
        rewrite_event-Agree k n' (record c { statics = st }) (record f { statics = st' }) h.index
          (kept-Agree n' st st' h e)))

  merge_event-first :
      (mode : AccessMode) (n' : ℕ) (st' : Statics)
      → (n' == 0) ≡ true
      → merge_event mode n' st' f ≡ (normal, record f { statics = st' })
  unfolding merge_event first_time
  merge_event-first mode_read n' st' e = rw e refl
  merge_event-first mode_rdwr n' st' e = rw e refl
  merge_event-first mode_write n' st' e = rw e refl

  pub merge_event-Match :
      (mode : AccessMode) (n n' : ℕ) (st st' : Statics) (t : Text)
      → (n == 0) ≡ (n' == 0)
      → Follow st st' f n'
      → name_of m leaf ≡ some t
      → Match m leaf k (first_time n, record c { statics = st }) (merge_event mode n' st' f)
  unfolding Match first_time
  merge_event-Match mode n n' st st' t e h named = elim (Bool-cases (n' == 0)) [
    | inl z ↦ rw (named, e, z, merge_event-first mode n' st' z) (fresh-Agree n' st st' t h)
    | inr z ↦ rw (named, e, z) (again-Agree mode n' st st' (some t) h z)
  ]

  pub fan-Follow :
      (d : ℕ)
      → Follow
          (set_fan d c.count c.statics)
          (set_fan d (length f.events) f.statics)
          f
          (f.statics.fan_speed d)
  fan-Follow d = record {
    zeros = set_fan-SameZeros _ _ _ _ a.begun (omega (arith, a.begun, a.written)) a.zeros d;
    below =
        set_fan-AreBelow f.statics (length f.events) (length f.events + 1) (omega arith)
          (below_more f.statics (length f.events) (length f.events + 1) (omega arith) a.below) d;
    kept = set_fan-kept d (length f.events) f.statics;
    index = a.below.fan d;
  }

  pub perf-Follow :
      (d : ℕ)
      → Follow
          (set_perf d c.count c.statics)
          (set_perf d (length f.events) f.statics)
          f
          (f.statics.perf_level_count d)
  perf-Follow d = record {
    zeros = set_perf-SameZeros _ _ _ _ a.begun (omega (arith, a.begun, a.written)) a.zeros d;
    below =
        set_perf-AreBelow f.statics (length f.events) (length f.events + 1) (omega arith)
          (below_more f.statics (length f.events) (length f.events + 1) (omega arith) a.below) d;
    kept = set_perf-kept d (length f.events) f.statics;
    index = a.below.perf d;
  }

  pub cap-Follow :
      (d sub : ℕ)
      → Follow
          (set_cap d sub c.count c.statics)
          (set_cap d sub (length f.events) f.statics)
          f
          (f.statics.power_cap d sub)
  cap-Follow d sub = record {
    zeros = set_cap-SameZeros _ _ _ _ a.begun (omega (arith, a.begun, a.written)) a.zeros d sub;
    below =
        set_cap-AreBelow f.statics (length f.events) (length f.events + 1) (omega arith)
          (below_more f.statics (length f.events) (length f.events + 1) (omega arith) a.below) d
          sub;
    kept = set_cap-kept d sub (length f.events) f.statics;
    index = a.below.cap d sub;
  }
