-- ===== src/Rocs/Events/Agreement/Leaves.antt =====
-- What the two passes do with a function, a variant and a subvariant agrees (patches/rocm_smi/rocs.c).
use scorep_amd.Common.{
  arith, ℕ, zero, suc, ◌+◌, ◌*◌, ◌≤◌, ◌≡◌, refl, ◌∙◌, Bool, true, false, Option, none, some, length,
  ◌==◌, if◌then◌else◌, length-append,
}
use scorep_amd.Common.Run.{Run, ok, fault, ◌>>=◌}
use scorep_amd.Common.Strings.{Text}
use scorep_amd.Rocs.{AccessMode, mode_read}
use scorep_amd.Rocs.Events.{Catalog, Leaf, Statics, EventType, special, normal}
use scorep_amd.Rocs.Events.Counting.{Tally, count_named, name_of}
use scorep_amd.Rocs.Events.Filling.{
  Fill, add_event, leaf_event, for_each, fill_bandwidths, fill_freqs, fill_named,
}
use scorep_amd.Rocs.Events.Agreement.{AreBelow, Agree, Both}

-- `f'` has `n` events more than `f`, and is otherwise the same.
abbrev pub Adds : ℕ → Fill → Fill → Type 0
Adds n f f' =
    (f'.statics ≡ f.statics) × (f'.reach ≡ f.reach) × (length f'.events ≡ length f.events + n)

pub add_event-Adds :
    (m : Catalog) (func : Text) (dev v sub : Option ℕ) (mode : AccessMode) (f : Fill)
    → Adds 1 f (add_event m func dev v sub mode f)
unfolding add_event
add_event-Adds m func dev v sub mode f = (refl, refl, omega (arith, length-append {0}))

pub for_each-Adds :
    (n i : ℕ) (step : ℕ → Fill → Fill) (f : Fill)
    → ((j : ℕ) (g : Fill) → Adds 1 g (step j g))
    → Adds n f (for_each n i step f)
unfolding for_each
for_each-Adds zero i step f h = (refl, refl, omega arith)
for_each-Adds (suc n) i step f h =
    let (same, far, more) = h i f in
    let (same', far', more') = for_each-Adds n (i + 1) step (step i f) h in
    (same' ∙ same, far' ∙ far, omega (arith, more, more'))

pub below_more : (st : Statics) (n n' : ℕ) → n ≤ n' → AreBelow st n → AreBelow st n'
below_more st n n' lt b = record {
  fan = λ d. omega (arith, b.fan d);
  cap = λ d sub. omega (arith, b.cap d sub);
  perf = λ d. omega (arith, b.perf d);
}

pub Agree-Adds :
    (k n : ℕ) (c : Tally) (f f' : Fill)
    → Agree k c f
    → Adds n f f'
    → Agree k (record c { count = c.count + n }) f'
Agree-Adds k n c f f' a (same, far, more) = record {
  zeros = rw same a.zeros;
  written = omega (arith, a.written, more);
  begun = omega (arith, a.begun);
  below =
      rw same
        (below_more f.statics (length f.events) (length f'.events) (omega (arith, more)) a.below);
  reached = omega (arith, a.reached, far, more);
}

module _ (m : Catalog) (leaf : Leaf) where
  pub variants-Adds :
      (n i : ℕ) (v sub : ℕ → Option ℕ) (f : Fill)
      → Adds n f (for_each n i (λ j. leaf_event m leaf (v j) (sub j) mode_read) f)
  unfolding leaf_event
  variants-Adds n i v sub f =
      for_each-Adds n i _ f
        (λ j g. add_event-Adds m leaf.name (some leaf.device) (v j) (sub j) mode_read g)

  pub one-Adds :
      (v sub : Option ℕ) (mode : AccessMode) (f : Fill) → Adds 1 f (leaf_event m leaf v sub mode f)
  unfolding leaf_event
  one-Adds v sub mode f = add_event-Adds m leaf.name (some leaf.device) v sub mode f

  pub maybe-Adds :
      (b : Bool) (v sub : Option ℕ) (mode : AccessMode) (f : Fill)
      → Adds (if b then 0 else 1) f (if b then f else leaf_event m leaf v sub mode f)
  maybe-Adds true v sub mode f = (refl, refl, omega arith)
  maybe-Adds false v sub mode f = one-Adds v sub mode f

  current-Adds :
      (b : Bool) (f : Fill)
      → Adds (if b then 0 else 2) f (
          for_each 2 0
            (λ i g. if b then g else leaf_event m leaf leaf.variant (some i) mode_read g)
            f)
  unfolding for_each
  current-Adds true f = (refl, refl, omega arith)
  current-Adds false f = variants-Adds 2 0 (λ i. leaf.variant) (λ i. some i) f

  pub fill_freqs-Adds :
      (n : ℕ) (f : Fill) → Adds (n + (if n == 0 then 0 else 2)) f (fill_freqs m leaf n f)
  unfolding fill_freqs
  fill_freqs-Adds n f =
      let (same, far, more) = current-Adds (n == 0) f in
      let (same', far', more') = variants-Adds n 0 (λ i. leaf.variant) (λ i. some (2 + i)) _ in
      (same' ∙ same, far' ∙ far, omega (arith, more, more'))

  -- What is left after the event has been counted and added if it is to be: both passes agree.
  unfoldable pub Match : ℕ → EventType × Tally → EventType × Fill → Type 0
  Match k r r' = Agree k (count_named (name_of m leaf) r) (fill_named m leaf (name_of m leaf) r')

  pub named-special :
      (k : ℕ) (name : Option Text) (c : Tally) (f : Fill)
      → Agree k c f
      → Agree k (count_named name (special, c)) (fill_named m leaf name (special, f))
  unfolding count_named fill_named
  named-special k (some name) c f a = a
  named-special k none c f a = a

  pub named-normal :
      (k : ℕ) (name : Option Text) (c : Tally) (f : Fill)
      → Agree k c f
      → Agree k (count_named name (normal, c)) (fill_named m leaf name (normal, f))
  unfolding count_named fill_named
  named-normal k (some name) c f a = Agree-Adds k 1 c f _ a (one-Adds _ _ _ f)
  named-normal k none c f a = a

  pub special-Adds :
      (k n : ℕ) (c : Tally) (f f' : Fill)
      → Agree k c f
      → Adds n f f'
      → Both (Match k) (ok (special, record c { count = c.count + n })) (ok (special, f'))
  unfolding Both Match
  special-Adds k n c f f' a d = named-special k (name_of m leaf) _ f' (Agree-Adds k n c f f' a d)

  pub bandwidths_none :
      (k rates : ℕ) (c : Tally) (f : Fill)
      → rates ≡ 0
      → Agree k c f
      → Both
          (Match k)
          (ok (special, record c { count = c.count + ((if rates == 0 then 0 else 2) + 3 * rates) }))
          (ok (special, fill_bandwidths m leaf rates f))
  unfolding fill_bandwidths
  bandwidths_none k rates c f e a = rw e (special-Adds k 0 c f f a (refl, refl, omega arith))

  -- The table of frequencies has the same number for both.
  pub freqs-Both :
      (k : ℕ) (run : Run ℕ) (more : ℕ → ℕ) (c : Tally) (f : Fill) (g : ℕ → Fill)
      → Agree k c f
      → ((n : ℕ) → Adds (more n) f (g n))
      → Both
          (Match k)
          (run >>= λ n. ok (special, record c { count = c.count + more n }))
          (run >>= λ n. ok (special, g n))
  unfolding Both
  freqs-Both k (fault w) more c f g a h = _
  freqs-Both k (ok n) more c f g a h = special-Adds k (more n) c f (g n) a (h n)
