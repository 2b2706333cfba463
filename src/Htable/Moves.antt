-- ===== src/Htable/Moves.antt =====
-- Moving the entries of one chain to another table (the inner loop of rehash_table of
-- patches/rocm_smi/htable.h).
use scorep_amd.Common.{
  ℕ, ◌+◌, ◌-◌, ◌^◌, ◌≤◌, ◌<◌, ◌≡◌, refl, ◌∙◌, ap, ◌≢◌, Option, none, some, [], ◌∷◌, arith, length,
  get_or, set, length-set, get_or-set_self, get_or-set_ne,
}
use native.Mathlib.Decide.{ℕ_discrete}
use scorep_amd.Common.Run.{ok, ◌>>=◌, Returns}
use scorep_amd.Htable.Chain.{count, same_key_iff, find_chain-eq-none, count-eq-zero, same_key_refl}
use scorep_amd.Htable.Buckets.{
  home, total, total-set, bucket_at-get_or, bucket_id-home, IsTable, chain_of, view, Holds, update,
  bucket_at-home, set-Holds,
}
use scorep_amd.Htable.{
  Key, Entry, Chain, Table, find_chain, remove_chain, u32, unlink, insert_table_entry,
  delete_table_entry, move_chain,
}

module _ {ℓ} {V : Type ℓ} where
  -- `insert_table_entry` prepends the entry to its home chain; the count wraps at 2 ^ 32 only.
  pub insert_table_entry-Holds :
      (t : Table V) (e : Entry V)
      → IsTable t
      → t.size + 1 < 2 ^ 32
      → view t e.key ≡ none
      → Returns
          (insert_table_entry t e)
          (Holds t.capacity (t.size + 1) (update (view t) e.key (some e)))
  unfolding insert_table_entry view count find_chain
  insert_table_entry-Holds t e v small absent =
      let c = chain_of t e.key in
      (
        record t { size = t.size + 1; buckets = set t.buckets (home e.key t.capacity) (e ∷ c) },
        rw (bucket_id-home t e.key v.nonempty, ◌>>=◌, bucket_at-home t e.key v) (ground arith),
        set-Holds t v e.key (e ∷ c) (t.size + 1) (some e) (omega arith)
            (λ q. ground (arith, count-eq-zero e.key c absent, same_key_iff e.key q)) (λ q. refl),
      )

  -- The same for a table that reads as `f`.
  insert-Holds :
      (t : Table V) (e : Entry V) (n s : ℕ) (f : Key → Option (Entry V))
      → Holds n s f t
      → s + 1 < 2 ^ 32
      → f e.key ≡ none
      → Returns (insert_table_entry t e) (Holds n (s + 1) (update f e.key (some e)))
  insert-Holds t e n s f h small absent =
      let (t', run, k) =
        insert_table_entry-Holds t e h.valid (omega (arith, h.size_is)) (h.reads e.key ∙ absent) in
      (
        t',
        run,
        record {
          valid = k.valid;
          capacity_is = k.capacity_is ∙ h.capacity_is;
          size_is = omega (arith, k.size_is, h.size_is);
          reads = λ q. ground (arith, k.reads q, h.reads q);
        },
      )

  -- Deleting the head of a chain that stands in place leaves the tail, and no other chain changes.
  pub delete_head :
      (t : Table V) (i : ℕ) (e : Entry V) (es : Chain V)
      → 0 < t.capacity
      → home e.key t.capacity ≡ i
      → i < length t.buckets
      → get_or t.buckets i [] ≡ e ∷ es
      → delete_table_entry t e.key
        ≡ ok (record t { size = u32 (t.size + 2 ^ 32 - 1); buckets = set t.buckets i es })
  unfolding delete_table_entry unlink
  delete_head t i e es pos at lt head = rw (
    bucket_id-home t e.key pos,
    ◌>>=◌,
    at,
    bucket_at-get_or t.buckets i lt,
    head,
    remove_chain,
    same_key_refl e.key,
  )

  -- Emptying one bucket leaves the capacity and the other buckets as they are.
  pub record Drained (old : Table V) (i : ℕ) (t : Table V) : Type ℓ where
    pub capacity : t.capacity ≡ old.capacity
    pub width : length t.buckets ≡ length old.buckets
    pub empty : get_or t.buckets i [] ≡ []
    pub others : (j : ℕ) → i ≢ j → get_or t.buckets j [] ≡ get_or old.buckets j []
    pub counted : total t.buckets + length (get_or old.buckets i []) ≡ total old.buckets

  -- The entries of `es` before those of `f`.
  abbrev pub over : Chain V → (Key → Option (Entry V)) → Key → Option (Entry V)
  over es f q = elim (find_chain q es) [ none ↦ f q | some e ↦ some e ]

  -- `es` is a chain that stands in bucket `i` of a table of capacity `n`.
  pub record Stands (n i : ℕ) (es : Chain V) : Type 0 where
    pub once : (q : Key) → count q es ≤ 1
    pub here : (q : Key) → home q n ≢ i → count q es ≡ 0

  pub Stands-head : (n i : ℕ) (e : Entry V) (es : Chain V) → Stands n i (e ∷ es) → home e.key n ≡ i
  unfolding count
  Stands-head n i e es st = elim (ℕ_discrete (home e.key n) i) [
    | yes p ↦ p
    | no p ↦ absurd (ground (arith, st.here e.key p, same_key_refl e.key))
  ]

  pub Stands-tail : (n i : ℕ) (e : Entry V) (es : Chain V) → Stands n i (e ∷ es) → Stands n i es
  unfolding count
  Stands-tail n i e es st = record {
    once = λ q. omega (arith, st.once q);
    here = λ q h. omega (arith, st.here q h);
  }

  over-head :
      (n i : ℕ) (e : Entry V) (es : Chain V) (f : Key → Option (Entry V))
      → Stands n i (e ∷ es)
      → (q : Key) → over es (update f e.key (some e)) q ≡ over (e ∷ es) f q
  unfolding count find_chain
  over-head n i e es f st q = ground (arith, st.once q, find_chain-eq-none q es)

  -- The inner loop moves a chain that stands in place, and the new table gains just its entries.
  pub move_chain-Holds :
      (es : Chain V) (old new : Table V) (i n s : ℕ) (f : Key → Option (Entry V))
      → 0 < old.capacity
      → i < length old.buckets
      → get_or old.buckets i [] ≡ es
      → Stands old.capacity i es
      → Holds n s f new
      → s + length es < 2 ^ 32
      → ((q : Key) → 0 < count q es → f q ≡ none)
      → Returns
          (move_chain es old new)
          (λ r. Drained old i r.0 × Holds n (s + length es) (over es f) r.1)
  unfolding move_chain find_chain count
  move_chain-Holds [] old new i n s f pos lt at st h small apart = (
    (old, new),
    refl,
    (
      record {
        capacity = refl;
        width = refl;
        empty = at;
        others = λ j d. refl;
        counted = omega (arith, ap length at);
      },
      record {
        valid = h.valid;
        capacity_is = h.capacity_is;
        size_is = omega (arith, h.size_is);
        reads = h.reads;
      },
    ),
  )
  move_chain-Holds (e ∷ es) old new i n s f pos lt at st h small apart =
      let home_i = Stands-head old.capacity i e es st in
      let (new', ran, h') =
        insert-Holds new e n s f h (omega arith)
          (apart e.key (ground (arith, same_key_refl e.key))) in
      let old' : Table V = record old {
        size = u32 (old.size + 2 ^ 32 - 1);
        buckets = set old.buckets i es;
      } in
      let (r, run, (d, k)) =
        move_chain-Holds es old' new' i n (s + 1) (update f e.key (some e)) pos (rw length-set lt)
          (get_or-set_self old.buckets i es [] lt) (Stands-tail old.capacity i e es st) h'
          (omega arith) (λ q c. ground (arith, st.once q, apart q)) in
      (
        r,
        rw (delete_head old i e es pos home_i lt at, ◌>>=◌, ran) run,
        (
          record {
            capacity = d.capacity;
            width = d.width ∙ length-set old.buckets i es;
            empty = d.empty;
            others = λ j ne. d.others j ne ∙ get_or-set_ne old.buckets i j es [] ne;
            counted = omega (
              arith,
              d.counted,
              total-set old.buckets i es lt,
              ap length (get_or-set_self old.buckets i es [] lt),
            );
          },
          record {
            valid = k.valid;
            capacity_is = k.capacity_is;
            size_is = omega (arith, k.size_is);
            reads = λ q. k.reads q ∙ over-head old.capacity i e es f st q;
          },
        ),
      )

  pub placed-Stands :
      (t : Table V) (i : ℕ) → IsTable t → Stands t.capacity i (get_or t.buckets i [])
  placed-Stands t i v = record { once = λ q. (v.placed q i).0; here = λ q. (v.placed q i).1 }
