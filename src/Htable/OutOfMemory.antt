-- ===== src/Htable/OutOfMemory.antt =====
-- What htable_insert of patches/rocm_smi/htable.h leaves when the array of buckets cannot be allocated.
use scorep_amd.Common.{
  ◌+◌, ◌*◌, ◌/◌, ◌^◌, ◌<◌, ◌≡◌, refl, true, false, ◌||◌, Option, none, some, arith, if◌then◌else◌,
  inl, inr, Bool-cases,
}
use scorep_amd.Common.Run.{ok, Returns}
use scorep_amd.Htable.Buckets.{view, Holds, update}
use scorep_amd.Htable.Moves.{insert_table_entry-Holds}
use scorep_amd.Htable.Resize.{IsValid, resize_no_memory}
use scorep_amd.Htable.Laws.{htable_insert_run}
use scorep_amd.Htable.{
  Key, Table, Memory, success, enomem, check_n_resize_table, needs_to_grow, needs_to_shrink, u32,
  htable_insert,
}

module _ {ℓ} {V : Type ℓ} where
  check_n_resize_table_no_memory :
      (mem : Memory) (t : Table V)
      → mem.table ≡ true
      → mem.buckets ≡ false
      → check_n_resize_table mem t
        ≡ ok (if needs_to_grow t || needs_to_shrink t then enomem else success, t)
  unfolding check_n_resize_table
  check_n_resize_table_no_memory mem t m₁ m₂ = elim (Bool-cases (needs_to_grow t)) [
    | inl g ↦ rw (g, resize_no_memory mem (u32 (t.capacity * 2)) t m₁ m₂) refl
    | inr g ↦ elim (Bool-cases (needs_to_shrink t)) [
      | inl s ↦ rw (g, s, resize_no_memory mem (t.capacity / 2) t m₁ m₂) refl
      | inr s ↦ rw (g, s) refl
    ]
  ]

  -- If the array of a larger or smaller table cannot be allocated, a call of `htable_insert` with a
  -- new key still inserts: the table has the entry and keeps its capacity, whether the call returns
  -- HTABLE_ENOMEM, as it does where the table needs to be rebuilt, or HTABLE_SUCCESS.
  pub htable_insert_no_memory :
      (mem : Memory) (t : Table V) (k : Key) (v : Option V)
      → mem.entry ≡ true
      → mem.table ≡ true
      → mem.buckets ≡ false
      → IsValid t
      → t.capacity < 2 ^ 31
      → view t k ≡ none
      → Returns (htable_insert mem (some t) (some k) v) (λ r.
        (t' : Table V) × (r
          ≡ (if needs_to_grow t' || needs_to_shrink t' then enomem else success, some t'))
        × Holds t.capacity (t.size + 1) (update (view t) k (some (record { key = k; val = v }))) t')
  htable_insert_no_memory mem t k v m m₁ m₂ valid small absent =
      let (t', run, h) =
        insert_table_entry-Holds t (record { key = k; val = v }) valid.table
          (omega (arith, valid.load)) absent in
      let e = if needs_to_grow t' || needs_to_shrink t' then enomem else success in
      (
        (e, some t'),
        htable_insert_run mem t t' k v (e, t') m valid.table absent run
            (check_n_resize_table_no_memory mem t' m₁ m₂),
        (t', refl, h),
      )
