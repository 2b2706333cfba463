-- ===== src/Htable/Examples.antt =====
-- Tests of the model of patches/rocm_smi/htable.h, and its theorems at concrete tables.
use scorep_amd.Common.{
  ℕ, ◌*◌, ◌^◌, ◌<◌, ◌≡◌, refl, ◌-◌, replicate, true, false, ◌||◌, none, some, List, [], ◌∷◌, arith,
  if◌then◌else◌,
}
use Prim.Native.Nat.{max}
use mathlib.Core.List.{flatten}
use scorep_amd.Common.Run.{ok, fault, ◌>>=◌, Returns, null_dereference}
use scorep_amd.Htable.Buckets.{view, Holds, update, replicate-Holds}
use scorep_amd.Htable.Rehash.{rehash_table-Holds}
use scorep_amd.Htable.Resize.{IsValid, Keeps, check_n_resize_table-Keeps}
use scorep_amd.Htable.Laws.{HasMemory, Leaves, htable_insert_new, htable_delete_found}
use scorep_amd.Htable.History.{
  Call, insert, delete, meaning, meanings, performs, htable_refines_map,
}
use scorep_amd.Htable.Shutdown.{keys, htable_shutdown, htable_shutdown_frees}
use scorep_amd.Htable.OutOfMemory.{htable_insert_no_memory}
use scorep_amd.Htable.{
  Key, Table, Memory, success, enomem, einval, hash_func, hash_loop, same_key, htable_insert,
  htable_delete, htable_find, htable_init, create_table, init_created, check_n_resize_table,
  needs_to_grow, needs_to_shrink, rehash_table,
}

abbrev plenty : Memory
plenty = record { entry = true; table = true; buckets = true }

abbrev plenty-HasMemory : HasMemory plenty
plenty-HasMemory = record { entry = refl; table = refl; buckets = refl }

-- The names "a" and "b".
abbrev a : Key
a = b'a' ∷ []

abbrev b : Key
b = b'b' ∷ []

abbrev empty : Table ℕ
empty = record { capacity = 8; size = 0; buckets = [] ∷ [] ∷ [] ∷ [] ∷ [] ∷ [] ∷ [] ∷ [] ∷ [] }

hash_test : hash_func a ≡ 177670
unfolding hash_func hash_loop
hash_test = refl

null_table_test : htable_insert {V = ℕ} plenty none (some a) none ≡ ok (einval, none)
unfolding htable_insert
null_table_test = refl

-- A table that cannot be allocated at all.
init_null_test :
    htable_init {V = ℕ} (record { entry = true; table = false; buckets = true })
    ≡ fault null_dereference
unfolding htable_init create_table
init_null_test = refl

init_no_buckets_test :
    htable_init {V = ℕ} (record { entry = true; table = true; buckets = false }) ≡ ok (enomem, none)
unfolding htable_init create_table init_created
init_no_buckets_test = refl

abbrev empty-IsValid : IsValid empty
empty-IsValid = record {
  table = (replicate-Holds {V = ℕ} 8 (omega arith)).valid;
  power = (0, refl);
  load = omega arith;
}

abbrev empty_reads : (q : Key) → view empty q ≡ none
empty_reads q = (replicate-Holds {V = ℕ} 8 (omega arith)).reads q

abbrev calls : List (Call ℕ)
calls = insert a (some 1) ∷ insert b (some 2) ∷ insert b (some 3) ∷ delete a ∷ []

htable_refines_map_example :
    (do
      made ← htable_init {V = ℕ} plenty
      handle ← performs plenty calls made.1
      htable_find handle (some b) false)
    ≡ ok (success, some (some 3))
unfolding meanings meaning same_key
htable_refines_map_example = htable_refines_map plenty calls b plenty-HasMemory (omega arith)

-- The table with "a" in it.
abbrev with_a :
    Returns
      (htable_insert plenty (some empty) (some a) (some 1))
      (Leaves 8 1 (update (view empty) a (some (record { key = a; val = some 1 }))))
with_a =
    htable_insert_new plenty empty a (some 1) plenty-HasMemory empty-IsValid (omega arith)
      (empty_reads a)

htable_insert_new_example :
    Returns
      (htable_insert plenty (some empty) (some a) (some 1))
      (Leaves 8 1 (update (view empty) a (some (record { key = a; val = some 1 }))))
htable_insert_new_example =
    htable_insert_new plenty empty a (some 1) plenty-HasMemory empty-IsValid (omega arith)
      (empty_reads a)

abbrev a_table : Table ℕ
a_table = with_a.2.table

a_entry : view a_table a ≡ some (record { key = a; val = some 1 })
unfolding same_key
a_entry = with_a.2.reads a

a_small : a_table.capacity < 2 ^ 31
a_small = omega (arith, with_a.2.bounded)

htable_delete_found_example : Returns (htable_delete plenty (some a_table) (some a)) (
    Leaves
      (max a_table.capacity (4 * (a_table.size - 1)))
      (a_table.size - 1)
      (update (view a_table) a none))
htable_delete_found_example =
    htable_delete_found plenty a_table a (record { key = a; val = some 1 }) plenty-HasMemory
      with_a.2.valid a_small a_entry

htable_shutdown_frees_example :
    htable_shutdown (some a_table) ≡ ok (success, keys (flatten a_table.buckets))
htable_shutdown_frees_example = htable_shutdown_frees a_table with_a.2.valid.table

abbrev no_buckets : Memory
no_buckets = record { entry = true; table = true; buckets = false }

htable_insert_no_memory_example :
    Returns (htable_insert no_buckets (some empty) (some a) (some 1)) (λ r.
      (t' : Table ℕ) × (r
        ≡ (if needs_to_grow t' || needs_to_shrink t' then enomem else success, some t'))
      × Holds 8 1 (update (view empty) a (some (record { key = a; val = some 1 }))) t')
htable_insert_no_memory_example =
    htable_insert_no_memory no_buckets empty a (some 1) refl refl refl empty-IsValid (omega arith)
      (empty_reads a)

-- A table of eight buckets with one entry is large enough to keep.
check_n_resize_table-Keeps_example : Returns (check_n_resize_table plenty a_table) (Keeps a_table)
check_n_resize_table-Keeps_example =
    check_n_resize_table-Keeps plenty a_table refl refl with_a.2.valid.table with_a.2.valid.power
      a_small (omega (arith, with_a.2.valid.load))

rehash_table-Holds_example :
    Returns
      (rehash_table a_table (record { capacity = 16; size = 0; buckets = replicate 16 [] }))
      (λ r. Holds 16 a_table.size (view a_table) r.1)
rehash_table-Holds_example =
    rehash_table-Holds a_table 16 with_a.2.valid.table (omega (arith, with_a.2.size)) (omega arith)
