-- ===== src/Htable/Laws.antt =====
-- The calls of patches/rocm_smi/htable.h as operations on a map from keys to values.
use scorep_amd.Common.{
  ℕ, ◌+◌, ◌-◌, ◌*◌, ◌^◌, ◌≤◌, ◌<◌, ◌≡◌, refl, ◌∙◌, true, false, Option, none, some, [], ◌∷◌, arith,
  length, set, inl, inr, Option-cases,
}
use Prim.Native.Nat.{max}
use scorep_amd.Common.Run.{ok, ◌>>=◌, Returns}
use scorep_amd.Htable.Chain.{
  same_key_refl, find_chain-assign, count-assign, find_chain-remove, count-remove-le, length-assign,
  length-remove,
}
use scorep_amd.Htable.Buckets.{
  home, home-lt, total-set, bucket_id-home, IsTable, chain_of, view, Holds, update, bucket_at-home,
  set-Holds,
}
use scorep_amd.Htable.Moves.{insert_table_entry-Holds}
use scorep_amd.Htable.Resize.{IsValid, Keeps, check_n_resize_table-Keeps}
use scorep_amd.Htable.{
  Key, Entry, Chain, Table, Memory, Errno, success, enoval, einval, find_chain, assign_chain,
  remove_chain, found_errno, find_table_entry, assign_table_entry, insert_table_entry, unlink,
  delete_table_entry, check_n_resize_table, insert_found, htable_insert, delete_found,
  htable_delete, found_val, htable_find, u32,
}

u32_pred : (n : ℕ) → 0 < n → n < 2 ^ 32 → u32 (n + 2 ^ 32 - 1) ≡ n - 1
u32_pred n h lt = omega arith

-- All allocations of a call succeed.
pub record HasMemory (mem : Memory) : Type 0 where
  pub entry : mem.entry ≡ true
  pub table : mem.table ≡ true
  pub buckets : mem.buckets ≡ true

module _ {ℓ} {V : Type ℓ} where
  find_table_entry_lem :
      (t : Table V) (k : Key)
      → IsTable t
      → find_table_entry t k ≡ ok (found_errno (view t k), view t k)
  unfolding find_table_entry view
  find_table_entry_lem t k v = rw (bucket_id-home t k v.nonempty, ◌>>=◌, bucket_at-home t k v) refl

  assign_table_entry-Holds :
      (t : Table V) (k : Key) (v : Option V) (e : Entry V)
      → IsTable t
      → view t k ≡ some e
      → Returns
          (assign_table_entry t k v)
          (Holds t.capacity t.size (update (view t) k (some (record { key = k; val = v }))))
  unfolding assign_table_entry view
  assign_table_entry-Holds t k v e valid found =
      let c = chain_of t k in
      (
        record t { buckets = set t.buckets (home k t.capacity) (assign_chain k v c) },
        rw (bucket_id-home t k valid.nonempty, ◌>>=◌, bucket_at-home t k valid) refl,
        set-Holds t valid k (assign_chain k v c) t.size (some (record { key = k; val = v }))
            (omega (arith, length-assign k v c))
            (λ q. ground (arith, count-assign k q v c, valid.placed q (home k t.capacity)))
            (λ q. find_chain-assign k q v c e found),
      )

  unlink-found :
      (k : Key) (c : Chain V) (e : Entry V)
      → find_chain k c ≡ some e
      → unlink k c ≡ ok (remove_chain k c)
  unfolding unlink find_chain
  unlink-found k [] e h = ground arith
  unlink-found k (d ∷ c) e h = refl

  delete_table_entry-Holds :
      (t : Table V) (k : Key) (e : Entry V)
      → IsTable t
      → t.size < 2 ^ 32
      → view t k ≡ some e
      → (Returns (delete_table_entry t k) (Holds t.capacity (t.size - 1) (update (view t) k none)))
        × (0 < t.size)
  unfolding delete_table_entry view
  delete_table_entry-Holds t k e valid small found =
      let c = chain_of t k in
      let shorter = length-remove k c e found in
      let lt : home k t.capacity < length t.buckets =
        omega (arith, home-lt k t.capacity valid.nonempty, valid.width) in
      let full : 0 < t.size =
        omega (arith, total-set t.buckets (home k t.capacity) [] lt, valid.sized) in
      (
        (
          record t {
            size = t.size - 1;
            buckets = set t.buckets (home k t.capacity) (remove_chain k c);
          },
          rw
              (
                bucket_id-home t k valid.nonempty,
                ◌>>=◌,
                bucket_at-home t k valid,
                unlink-found k c e found,
                u32_pred t.size full small,
              )
              refl,
          set-Holds t valid k (remove_chain k c) (t.size - 1) none (omega arith)
              (λ q. ground (arith, count-remove-le k q c, valid.placed q (home k t.capacity)))
              (λ q. find_chain-remove k q c (valid.placed q (home k t.capacity)).0),
        ),
        full,
      )

  -- What a call leaves: a valid table with `s` entries and at most `c` buckets that reads as `f`.
  pub record Leaves (c s : ℕ) (f : Key → Option (Entry V)) (r : Errno × Option (Table V))
      : Type ℓ where
    pub table : Table V
    pub done : r.0 ≡ success
    pub left : r.1 ≡ some table
    pub valid : IsValid table
    pub size : table.size ≡ s
    pub reads : (q : Key) → view table q ≡ f q
    pub bounded : table.capacity ≤ c

  Keeps-Leaves :
      (t : Table V) (c s : ℕ) (f : Key → Option (Entry V)) (r : Errno × Table V)
      → Keeps t r
      → max t.capacity (4 * t.size) ≤ c
      → t.size ≡ s
      → ((q : Key) → view t q ≡ f q)
      → Leaves c s f (r.0, some r.1)
  Keeps-Leaves t c s f r k below size reads = record {
    table = r.1;
    done = k.done;
    left = refl;
    valid = k.valid;
    size = k.size ∙ size;
    reads = λ q. k.reads q ∙ reads q;
    bounded = omega (arith, k.bounded);
  }

  pub htable_insert_run :
      (mem : Memory) (t t' : Table V) (k : Key) (v : Option V) (r : Errno × Table V)
      → mem.entry ≡ true
      → IsTable t
      → view t k ≡ none
      → insert_table_entry t (record { key = k; val = v }) ≡ ok t'
      → check_n_resize_table mem t' ≡ ok r
      → htable_insert mem (some t) (some k) v ≡ ok (r.0, some r.1)
  unfolding htable_insert found_errno insert_found
  htable_insert_run mem t t' k v r m valid absent run run' =
      rw (find_table_entry_lem t k valid, ◌>>=◌, absent) (simp (m, run, run'))

  htable_delete_run :
      (mem : Memory) (t t' t'' : Table V) (k : Key) (e : Entry V) (r : Errno × Table V)
      → IsTable t
      → view t k ≡ some e
      → assign_table_entry t k none ≡ ok t'
      → delete_table_entry t' k ≡ ok t''
      → check_n_resize_table mem t'' ≡ ok r
      → htable_delete mem (some t) (some k) ≡ ok (r.0, some r.1)
  unfolding htable_delete found_errno delete_found
  htable_delete_run mem t t' t'' k e r valid found run run' run'' =
      rw (find_table_entry_lem t k valid, ◌>>=◌, found, run, run', run'') refl

  -- Inserting under a key that a valid table of fewer than 2 ^ 31 buckets lacks succeeds, if all
  -- allocations do, and leaves a valid table with one entry more that reads as before, but for the
  -- new entry under the key. It has at most four buckets for each entry, or as many as before.
  pub htable_insert_new :
      (mem : Memory) (t : Table V) (k : Key) (v : Option V)
      → HasMemory mem
      → IsValid t
      → t.capacity < 2 ^ 31
      → view t k ≡ none
      → Returns (htable_insert mem (some t) (some k) v) (
          Leaves
            (max t.capacity (4 * (t.size + 1)))
            (t.size + 1)
            (update (view t) k (some (record { key = k; val = v }))))
  unfolding htable_insert found_errno insert_found
  htable_insert_new mem t k v m valid small absent =
      let (t', run, h) =
        insert_table_entry-Holds t (record { key = k; val = v }) valid.table
          (omega (arith, valid.load)) absent in
      let (r, run', keeps) =
        check_n_resize_table-Keeps mem t' m.table m.buckets h.valid (rw h.capacity_is valid.power)
          (omega (arith, h.capacity_is)) (omega (arith, h.capacity_is, h.size_is, valid.load)) in
      (
        (r.0, some r.1),
        htable_insert_run mem t t' k v r m.entry valid.table absent run run',
        Keeps-Leaves t' (max t.capacity (4 * (t.size + 1))) (t.size + 1)
            (update (view t) k (some (record { key = k; val = v }))) r keeps
            (omega (arith, h.capacity_is, h.size_is)) h.size_is h.reads,
      )

  pub htable_insert_found :
      (mem : Memory) (t : Table V) (k : Key) (v : Option V) (e : Entry V)
      → IsValid t
      → view t k ≡ some e
      → Returns
          (htable_insert mem (some t) (some k) v)
          (Leaves t.capacity t.size (update (view t) k (some (record { key = k; val = v }))))
  unfolding htable_insert found_errno insert_found
  htable_insert_found mem t k v e valid found =
      let (t', run, h) = assign_table_entry-Holds t k v e valid.table found in
      (
        (success, some t'),
        rw (find_table_entry_lem t k valid.table, ◌>>=◌, found, run) refl,
        record {
          table = t';
          done = refl;
          left = refl;
          valid = record {
            table = h.valid;
            power = rw h.capacity_is valid.power;
            load = omega (arith, h.capacity_is, h.size_is, valid.load);
          };
          size = h.size_is;
          reads = h.reads;
          bounded = omega (arith, h.capacity_is);
        },
      )

  -- Deleting a key that a valid table of fewer than 2 ^ 31 buckets has succeeds, if all allocations
  -- do, and leaves a valid table with one entry less that reads as before, but that the key is absent.
  pub htable_delete_found :
      (mem : Memory) (t : Table V) (k : Key) (e : Entry V)
      → HasMemory mem
      → IsValid t
      → t.capacity < 2 ^ 31
      → view t k ≡ some e
      → Returns
          (htable_delete mem (some t) (some k))
          (Leaves (max t.capacity (4 * (t.size - 1))) (t.size - 1) (update (view t) k none))
  unfolding htable_delete found_errno delete_found
  htable_delete_found mem t k e m valid small found =
      let (t', run, h) = assign_table_entry-Holds t k none e valid.table found in
      let here : view t' k ≡ some (record { key = k; val = none }) =
        h.reads k ∙ rw (same_key_refl k) refl in
      let ((t'', run', h'), full) =
        delete_table_entry-Holds t' k (record { key = k; val = none }) h.valid
          (omega (arith, h.size_is, valid.load)) here in
      let (r, run'', keeps) =
        check_n_resize_table-Keeps mem t'' m.table m.buckets h'.valid
          (rw (h'.capacity_is, h.capacity_is) valid.power)
          (omega (arith, h'.capacity_is, h.capacity_is))
          (omega (arith, h'.capacity_is, h.capacity_is, h'.size_is, h.size_is, valid.load)) in
      (
        (r.0, some r.1),
        htable_delete_run mem t t' t'' k e r valid.table found run run' run'',
        Keeps-Leaves t'' (max t.capacity (4 * (t.size - 1))) (t.size - 1) (update (view t) k none) r
            keeps (omega (arith, h'.capacity_is, h.capacity_is, h'.size_is, h.size_is))
            (omega (arith, h'.size_is, h.size_is)) (λ q. ground (arith, h'.reads q, h.reads q)),
      )

  pub htable_delete_absent :
      (mem : Memory) (t : Table V) (k : Key)
      → IsValid t
      → view t k ≡ none
      → htable_delete mem (some t) (some k) ≡ ok (enoval, some t)
  unfolding htable_delete found_errno delete_found
  htable_delete_absent mem t k valid absent =
      rw (find_table_entry_lem t k valid.table, ◌>>=◌, absent) refl

  abbrev pub result_of : Option (Entry V) → Errno × Option (Option V)
  result_of none = (enoval, none)
  result_of (some e) = (success, some e.val)

  -- A null key.
  pub htable_insert_null :
      (mem : Memory) (handle : Option (Table V)) (v : Option V)
      → htable_insert mem handle none v ≡ ok (einval, handle)
  unfolding htable_insert
  htable_insert_null mem none v = refl
  htable_insert_null mem (some t) v = refl

  pub htable_delete_null :
      (mem : Memory) (handle : Option (Table V))
      → htable_delete mem handle none ≡ ok (einval, handle)
  unfolding htable_delete
  htable_delete_null mem none = refl
  htable_delete_null mem (some t) = refl

  pub htable_find-view :
      (t : Table V) (k : Key)
      → IsValid t
      → htable_find (some t) (some k) false ≡ ok (result_of (view t k))
  unfolding htable_find found_errno found_val
  htable_find-view t k valid = elim (Option-cases (view t k)) [
    | inl e ↦ rw (find_table_entry_lem t k valid.table, ◌>>=◌, e) refl
    | inr (a, e) ↦ rw (find_table_entry_lem t k valid.table, ◌>>=◌, e) refl
  ]
