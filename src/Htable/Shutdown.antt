-- ===== src/Htable/Shutdown.antt =====
-- Taking a table down (destroy_table_entries and htable_shutdown of patches/rocm_smi/htable.h).
use scorep_amd.Common.{
  ℕ, zero, suc, ◌+◌, ◌-◌, ◌^◌, ◌≤◌, ◌<◌, ◌≡◌, refl, sym, ◌∙◌, ◌≢◌, Option, none, some, List, [],
  ◌∷◌, ◌++◌, arith, length, get_or, set, length-set, get_or-set_self, get_or-set_ne, map, drop,
  drop-eq_cons, drop-length,
}
use mathlib.Core.List.{flatten, append-nil, append_assoc, map-append}
use native.Mathlib.Numerals.{add-one}
use scorep_amd.Common.Run.{Run, ok, ◌>>=◌, Returns}
use scorep_amd.Htable.Buckets.{IsTable, bucket_at-get_or}
use scorep_amd.Htable.Moves.{delete_head, Stands, Stands-head, Stands-tail, placed-Stands}
use scorep_amd.Htable.{
  Key, Chain, Table, Errno, success, einval, bucket_at, delete_table_entry, u32,
}

module _ {ℓ} {V : Type ℓ} where
  -- The inner loop: `entry` is read on before `tmp` is unlinked and freed. The keys of the freed
  -- entries are kept, in order, as an account of `papi_free`.
  destroy_chain : Chain V → Table V → List Key → Run (Table V × List Key)
  destroy_chain [] t freed = ok (t, freed)
  destroy_chain (tmp ∷ entry) t freed = do
    t' ← delete_table_entry t tmp.key
    destroy_chain entry t' (freed ++ tmp.key ∷ [])

  -- The outer loop, with the rounds left and `i`.
  destroy_loop : ℕ → ℕ → Table V → List Key → Run (Table V × List Key)
  unfolding destroy_chain
  destroy_loop zero i t freed = ok (t, freed)
  destroy_loop (suc rounds) i t freed = do
    entry ← bucket_at t.buckets i
    r ← destroy_chain entry t freed
    destroy_loop rounds (i + 1) r.0 r.1

  destroy_table_entries : Table V → Run (Table V × List Key)
  unfolding destroy_loop
  destroy_table_entries t = destroy_loop t.capacity 0 t []

  -- `destroy_table` then frees the array and the table itself, so only the account is left.
  pub htable_shutdown : Option (Table V) → Run (Errno × List Key)
  unfolding destroy_table_entries
  htable_shutdown none = ok (einval, [])
  htable_shutdown (some t) = do r ← destroy_table_entries t; ok (success, r.1)

  -- The keys of a list of entries.
  unfoldable pub keys : Chain V → List Key
  keys = map (λ e. e.key)

  destroy_chain_lem :
      (es : Chain V) (t : Table V) (i : ℕ) (freed : List Key)
      → 0 < t.capacity
      → i < length t.buckets
      → get_or t.buckets i [] ≡ es
      → Stands t.capacity i es
      → Returns (destroy_chain es t freed) (λ r.
        (r.1 ≡ freed ++ keys es)
        × (r.0.capacity ≡ t.capacity)
        × (length r.0.buckets ≡ length t.buckets)
        × ((j : ℕ) → i ≢ j → get_or r.0.buckets j [] ≡ get_or t.buckets j []))
  unfolding destroy_chain keys
  destroy_chain_lem [] t i freed pos lt at st =
      ((t, freed), refl, (sym (append-nil freed), refl, refl, λ j ne. refl))
  destroy_chain_lem (e ∷ es) t i freed pos lt at st =
      let (r, run, (f, c, w, o)) =
        destroy_chain_lem es
          (record t { size = u32 (t.size + 2 ^ 32 - 1); buckets = set t.buckets i es }) i
          (freed ++ e.key ∷ []) pos (rw length-set lt) (get_or-set_self t.buckets i es [] lt)
          (Stands-tail t.capacity i e es st) in
      (
        r,
        rw (delete_head t i e es pos (Stands-head t.capacity i e es st) lt at, ◌>>=◌) run,
        (
          f ∙ append_assoc freed (e.key ∷ []) (keys es),
          c,
          w ∙ length-set t.buckets i es,
          λ j ne. o j ne ∙ get_or-set_ne t.buckets i j es [] ne,
        ),
      )

  -- The loop at `i`: the buckets from `i` on are those of the table that is shut down.
  record Ahead (s : Table V) (i : ℕ) (t : Table V) : Type ℓ where
    capacity : t.capacity ≡ s.capacity
    width : length t.buckets ≡ length s.buckets
    kept : (j : ℕ) → i ≤ j → get_or t.buckets j [] ≡ get_or s.buckets j []

  destroy_loop_lem :
      (rounds i : ℕ) (s t : Table V) (freed : List Key)
      → IsTable s
      → i + rounds ≡ s.capacity
      → Ahead s i t
      → Returns
          (destroy_loop rounds i t freed)
          (λ r. r.1 ≡ freed ++ keys (flatten (drop i s.buckets)))
  unfolding destroy_loop keys flatten
  destroy_loop_lem zero i s t freed v e h =
      let end : i ≡ length s.buckets = omega (arith, v.width) in
      ((t, freed), refl, rw (end, drop-length) (sym (append-nil freed)))
  destroy_loop_lem (suc rounds) i s t freed v e h =
      let lt : i < length s.buckets = omega (arith, v.width) in
      let es = get_or s.buckets i [] in
      let (r, run, (f, c, w, o)) =
        destroy_chain_lem es t i freed (omega (arith, v.nonempty, h.capacity))
          (omega (arith, h.width)) (h.kept i (omega arith))
          (rw (← h.capacity) at (placed-Stands s i v)) in
      let (r', run', f') = destroy_loop_lem rounds (i + 1) s r.0 r.1 v (omega arith) (record {
        capacity = c ∙ h.capacity;
        width = w ∙ h.width;
        kept = λ j p. o j (omega arith) ∙ h.kept j (omega arith);
      }) in
      (
        r',
        rw
            (
              bucket_at-get_or t.buckets i (omega (arith, h.width)),
              ◌>>=◌,
              h.kept i (omega arith),
              run,
            )
            run',
        f' ∙ rw (f, drop-eq_cons s.buckets i [] lt, add-one) (simp (map-append, append_assoc)),
      )

  -- Shutting a well-formed table down runs without undefined behaviour, returns HTABLE_SUCCESS, and
  -- frees the entries that are linked into the table, each as often as it is linked, in the order of
  -- the array and of its chains.
  pub htable_shutdown_frees :
      (t : Table V) → IsTable t → htable_shutdown (some t) ≡ ok (success, keys (flatten t.buckets))
  unfolding htable_shutdown
  htable_shutdown_frees t v =
      let (r, run, f) =
        destroy_loop_lem t.capacity 0 t t [] v (omega arith)
          (record { capacity = refl; width = refl; kept = λ j p. refl }) in
      rw (run, ◌>>=◌, f) refl
