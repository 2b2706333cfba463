-- ===== src/Htable/History.antt =====
-- Any sequence of calls on a table of patches/rocm_smi/htable.h, against a function from keys to
-- values.
use scorep_amd.Common.{
  ℕ, ◌+◌, ◌*◌, ◌^◌, ◌≤◌, ◌<◌, ◌≡◌, refl, ◌∙◌, ap, false, Option, none, some, List, [], ◌∷◌, arith,
  if◌then◌else◌, length, inl, inr, Option-cases, replicate,
}
use mathlib.Core.Option
use scorep_amd.Common.Run.{Run, ok, ◌>>=◌, Returns}
use scorep_amd.Htable.Chain.{same_key_iff}
use scorep_amd.Htable.Buckets.{view, replicate-Holds}
use scorep_amd.Htable.Resize.{IsValid}
use scorep_amd.Htable.Laws.{
  HasMemory, htable_insert_new, htable_insert_found, htable_delete_found, htable_delete_absent,
  result_of, htable_find-view,
}
use scorep_amd.Htable.{
  Key, Entry, Table, Memory, Errno, success, enoval, same_key, htable_insert, htable_delete,
  htable_find, htable_init, create_table, init_created,
}

-- The calls that change a table.
pub data Call {ℓ} (V : Type ℓ) : Type ℓ where
  insert : Key → Option V → Call V
  delete : Key → Call V

module _ {ℓ} {V : Type ℓ} where
  -- What a call means for the map.
  unfoldable pub meaning : Call V → (Key → Option (Option V)) → Key → Option (Option V)
  meaning (insert k v) f q = if same_key k q then some v else f q
  meaning (delete k) f q = if same_key k q then none else f q

  unfoldable pub meanings : List (Call V) → (Key → Option (Option V)) → Key → Option (Option V)
  meanings [] f = f
  meanings (c ∷ cs) f = meanings cs (meaning c f)

  unfoldable pub perform : Memory → Call V → Option (Table V) → Run (Errno × Option (Table V))
  perform mem (insert k v) handle = htable_insert mem handle (some k) v
  perform mem (delete k) handle = htable_delete mem handle (some k)

  -- The caller goes on whatever error number a call returns.
  unfoldable pub performs : Memory → List (Call V) → Option (Table V) → Run (Option (Table V))
  unfolding perform
  performs mem [] handle = ok handle
  performs mem (c ∷ cs) handle = do r ← perform mem c handle; performs mem cs r.1

  -- `htable_find` on a map.
  abbrev pub answer : Option (Option V) → Errno × Option (Option V)
  answer none = (enoval, none)
  answer (some v) = (success, some v)

  -- The table reads as the map, and is as large as `n` calls can make it.
  pub record Models (n : ℕ) (f : Key → Option (Option V)) (t : Table V) : Type ℓ where
    pub valid : IsValid t
    pub few : t.size ≤ n
    pub small : t.capacity ≤ 8 + 4 * n
    pub reads : (q : Key) → Option.map (λ (e : Entry V). e.val) (view t q) ≡ f q

  perform-Models :
      (mem : Memory) (c : Call V) (n : ℕ) (f : Key → Option (Option V)) (t : Table V)
      → HasMemory mem
      → n < 2 ^ 28
      → Models n f t
      → Returns
          (perform mem c (some t))
          (λ r. (t' : Table V) × (r.1 ≡ some t') × Models (n + 1) (meaning c f) t')
  unfolding perform meaning
  perform-Models mem (insert k v) n f t m lt h = elim (Option-cases (view t k)) [
    | inl e ↦
        let (r, run, l) = htable_insert_new mem t k v m h.valid (omega (arith, h.small)) e in
        (
          r,
          run,
          (
            l.table,
            l.left,
            record {
              valid = l.valid;
              few = omega (arith, l.size, h.few);
              small = omega (arith, l.bounded, h.small, h.few);
              reads = λ q. ground (arith, l.reads q, h.reads q);
            },
          ),
        )
    | inr (e, p) ↦
        let (r, run, l) = htable_insert_found mem t k v e h.valid p in
        (
          r,
          run,
          (
            l.table,
            l.left,
            record {
              valid = l.valid;
              few = omega (arith, l.size, h.few);
              small = omega (arith, l.bounded, h.small);
              reads = λ q. ground (arith, l.reads q, h.reads q);
            },
          ),
        )
  ]
  perform-Models mem (delete k) n f t m lt h = elim (Option-cases (view t k)) [
    | inl e ↦ (
      (enoval, some t),
      htable_delete_absent mem t k h.valid e,
      (
        t,
        refl,
        record {
          valid = h.valid;
          few = omega (arith, h.few);
          small = omega (arith, h.small);
          reads = λ q. ground (arith, h.reads q, same_key_iff k q);
        },
      ),
    )
    | inr (e, p) ↦
        let (r, run, l) = htable_delete_found mem t k e m h.valid (omega (arith, h.small)) p in
        (
          r,
          run,
          (
            l.table,
            l.left,
            record {
              valid = l.valid;
              few = omega (arith, l.size, h.few);
              small = omega (arith, l.bounded, h.small, h.few);
              reads = λ q. ground (arith, l.reads q, h.reads q);
            },
          ),
        )
  ]

  performs_run :
      (mem : Memory) (c : Call V) (cs : List (Call V)) (t t' : Table V)
      (r : Errno × Option (Table V)) (handle : Option (Table V))
      → perform mem c (some t) ≡ ok r
      → r.1 ≡ some t'
      → performs mem cs (some t') ≡ ok handle
      → performs mem (c ∷ cs) (some t) ≡ ok handle
  unfolding performs
  performs_run mem c cs t t' (e, h) handle run left run' = rw (run, ◌>>=◌, left) run'

  performs-Models :
      (mem : Memory) (cs : List (Call V)) (n : ℕ) (f : Key → Option (Option V)) (t : Table V)
      → HasMemory mem
      → n + length cs < 2 ^ 28
      → Models n f t
      → Returns (performs mem cs (some t)) (λ handle.
        (t' : Table V) × (handle ≡ some t') × Models (n + length cs) (meanings cs f) t')
  unfolding performs meanings
  performs-Models mem [] n f t m lt h = (
    some t,
    refl,
    (
      t,
      refl,
      record {
        valid = h.valid;
        few = omega (arith, h.few);
        small = omega (arith, h.small);
        reads = h.reads;
      },
    ),
  )
  performs-Models mem (c ∷ cs) n f t m lt h =
      let (r, run, (t', left, k)) = perform-Models mem c n f t m (omega arith) h in
      let (handle, run', (t'', left', k')) =
        performs-Models mem cs (n + 1) (meaning c f) t' m (omega arith) k in
      (
        handle,
        performs_run mem c cs t t' r handle run left run',
        (
          t'',
          left',
          record {
            valid = k'.valid;
            few = omega (arith, k'.few);
            small = omega (arith, k'.small);
            reads = k'.reads;
          },
        ),
      )

  htable_init-Models :
      (mem : Memory)
      → HasMemory mem
      → Returns
          (htable_init {V = V} mem)
          (λ r. (r.0 ≡ success) × ((t : Table V) × (r.1 ≡ some t) × Models 0 (λ _. none) t))
  unfolding htable_init create_table init_created
  htable_init-Models mem m =
      let h = replicate-Holds {V = V} 8 (omega arith) in
      (
        (success, some (record { capacity = 8; size = 0; buckets = replicate 8 [] })),
        simp (m.table, m.buckets),
        (
          refl,
          (
            _,
            refl,
            record {
              valid = record { table = h.valid; power = (0, refl); load = omega arith };
              few = omega arith;
              small = omega arith;
              reads = λ q. rw (h.reads q) refl;
            },
          ),
        ),
      )

  result_of-map :
      (o : Option (Entry V)) → result_of o ≡ answer (Option.map (λ (e : Entry V). e.val) o)
  result_of-map none = refl
  result_of-map (some e) = refl

  -- A table that `htable_init` makes, after any sequence of at most 2 ^ 28 - 1 insertions and
  -- deletions, deletions of absent keys included, answers `htable_find` as the map that the
  -- sequence means: with the value inserted last, or with HTABLE_ENOVAL if there is none. No call
  -- has undefined behaviour. All allocations succeed.
  pub htable_refines_map :
      (mem : Memory) (cs : List (Call V)) (q : Key)
      → HasMemory mem
      → length cs < 2 ^ 28
      → (do
        made ← htable_init mem
        handle ← performs mem cs made.1
        htable_find handle (some q) false)
        ≡ ok (answer (meanings cs (λ _. none) q))
  htable_refines_map mem cs q m lt =
      let (made, run, (_, (t, left, h))) = htable_init-Models mem m in
      let (handle, run', (t', left', k)) =
        performs-Models mem cs 0 (λ _. none) t m (omega arith) h in
      rw (run, left, run', left', htable_find-view t' q k.valid)
        (ap ok (result_of-map (view t' q) ∙ ap answer (k.reads q)))
