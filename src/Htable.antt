-- ===== src/Htable.antt =====
-- The hash table from event names to event structures (patches/rocm_smi/htable.h): djb2 hashing,
-- separate chaining, and a table that is rebuilt at twice or half its capacity.
-- A chain of `next` pointers is a list. A pointer to an entry is the entry's key: `find` returns the
-- first entry with the key, and the keys of a table are distinct (Htable/Buckets.antt).
pub mod Chain
pub mod Buckets
pub mod Moves
pub mod Rehash
pub mod Resize
pub mod Laws
pub mod History
pub mod Shutdown
pub mod OutOfMemory
mod Examples
use scorep_amd.Common.{
  ℕ, zero, suc, ◌+◌, ◌-◌, ◌*◌, ◌/◌, ◌%◌, ◌^◌, Bool, true, false, ◌&&◌, Option, none, some, List, [],
  ◌∷◌, ◌++◌, ltb, ◌==◌, if◌then◌else◌, length, get_elem?, set, replicate,
}
use scorep_amd.Common.Run.{Run, ok, fault, ◌>>=◌, null_dereference, division_by_zero, out_of_bounds}

-- A C string: its bytes, without the final NUL.
abbrev pub Key : Type 0
Key = List ℕ

pub data Errno : Type 0 where
  success enoval einval enomem : Errno

pub record Entry {ℓ} (V : Type ℓ) : Type ℓ where
  pub key : Key
  pub val : Option V

abbrev pub Chain {ℓ} : Type ℓ → Type ℓ
Chain V = List (Entry V)

pub record Table {ℓ} (V : Type ℓ) : Type ℓ where
  pub capacity : ℕ
  pub size : ℕ
  pub buckets : List (Chain V)

-- What `papi_calloc` yields at its three calls: an entry, a table, an array of buckets.
pub record Memory : Type 0 where
  pub entry : Bool
  pub table : Bool
  pub buckets : Bool

abbrev pub u32 : ℕ → ℕ
u32 n = n % 2 ^ 32

abbrev pub u64 : ℕ → ℕ
u64 n = n % 2 ^ 64

-- `int c = *string`: `char` is signed, and the sum is taken in `uint64_t`.
abbrev pub char_value : ℕ → ℕ
char_value b = if ltb b 128 then b else b + 2 ^ 64 - 256

unfoldable pub hash_loop : ℕ → Key → ℕ
hash_loop hash [] = hash
hash_loop hash (c ∷ cs) = hash_loop (u64 (u64 (hash * 2 ^ 5) + hash + char_value c)) cs

unfoldable pub hash_func : Key → ℕ
unfolding hash_loop
hash_func key = hash_loop 5381 key

-- `strcmp(a, b) == 0`
unfoldable pub same_key : Key → Key → Bool
same_key [] [] = true
same_key [] (b ∷ bs) = false
same_key (a ∷ as') [] = false
same_key (a ∷ as') (b ∷ bs) = a == b && same_key as' bs

module _ {ℓ} {V : Type ℓ} where
  pub bucket_at : List (Chain V) → ℕ → Run (Chain V)
  bucket_at [] i = fault out_of_bounds
  bucket_at (c ∷ cs) zero = ok c
  bucket_at (c ∷ cs) (suc i) = bucket_at cs i

  -- `hash_func(key) % table->capacity`
  pub bucket_id : Table V → Key → Run ℕ
  bucket_id t key =
      if t.capacity == 0 then fault division_by_zero else ok (hash_func key % t.capacity)

  -- The loop of `find_table_entry`.
  pub find_chain : Key → Chain V → Option (Entry V)
  find_chain k [] = none
  find_chain k (e ∷ c) = if same_key e.key k then some e else find_chain k c

  -- `entry->val = v` for the entry that `find_chain` returns.
  pub assign_chain : Key → Option V → Chain V → Chain V
  assign_chain k v [] = []
  assign_chain k v (e ∷ c) =
      if same_key e.key k then record e { val = v } ∷ c else e ∷ assign_chain k v c

  -- The list that `delete_table_entry` leaves: the first entry that is `entry` is unlinked.
  pub remove_chain : Key → Chain V → Chain V
  remove_chain k [] = []
  remove_chain k (e ∷ c) = if same_key e.key k then c else e ∷ remove_chain k c

  found_errno : Option (Entry V) → Errno
  found_errno none = enoval
  found_errno (some e) = success

  -- An empty bucket is answered before the loop; the loop over no entry gives the same.
  pub find_table_entry : Table V → Key → Run (Errno × Option (Entry V))
  unfolding bucket_id bucket_at found_errno find_chain
  find_table_entry t key = do
    id ← bucket_id t key
    head ← bucket_at t.buckets id
    ok (found_errno (find_chain key head), find_chain key head)

  pub assign_table_entry : Table V → Key → Option V → Run (Table V)
  unfolding bucket_id bucket_at assign_chain
  assign_table_entry t key v = do
    id ← bucket_id t key
    head ← bucket_at t.buckets id
    ok (record t { buckets = set t.buckets id (assign_chain key v head) })

  pub insert_table_entry : Table V → Entry V → Run (Table V)
  unfolding bucket_id bucket_at
  insert_table_entry t e = do
    id ← bucket_id t e.key
    head ← bucket_at t.buckets id
    ok (record t { size = u32 (t.size + 1); buckets = set t.buckets id (e ∷ head) })

  -- `table->buckets[id]->next` is read where the head is not the entry, an empty bucket included.
  unlink : Key → Chain V → Run (Chain V)
  unfolding remove_chain
  unlink key [] = fault null_dereference
  unlink key (e ∷ c) = ok (remove_chain key (e ∷ c))

  pub delete_table_entry : Table V → Key → Run (Table V)
  unfolding bucket_id bucket_at unlink
  delete_table_entry t key = do
    id ← bucket_id t key
    head ← bucket_at t.buckets id
    rest ← unlink key head
    ok (record t { size = u32 (t.size + 2 ^ 32 - 1); buckets = set t.buckets id rest })

  -- The test after the first `papi_calloc` looks at `table` and not at `*table`, so a failed call
  -- is followed by a write through a null pointer. `capacity` is `uint32_t`.
  pub create_table : Memory → ℕ → Run (Errno × Table V)
  create_table mem n =
      if mem.table
      then (if mem.buckets
          then ok (success, record { capacity = u32 n; size = 0; buckets = replicate n [] })
          else ok (enomem, record { capacity = 0; size = 0; buckets = [] }))
      else fault null_dereference

  -- The inner loop of `rehash_table`. `next` is read before the entry is moved, so the loop goes
  -- over the chain as it was.
  pub move_chain : Chain V → Table V → Table V → Run (Table V × Table V)
  unfolding insert_table_entry delete_table_entry
  move_chain [] old new = ok (old, new)
  move_chain (e ∷ es) old new = do
    old' ← delete_table_entry old e.key
    new' ← insert_table_entry new e
    move_chain es old' new'

  -- The outer loop, with the rounds left and `old_id`.
  pub rehash_loop : ℕ → ℕ → Table V → Table V → Run (Table V × Table V)
  unfolding move_chain bucket_at
  rehash_loop zero old_id old new = ok (old, new)
  rehash_loop (suc rounds) old_id old new = do
    entry ← bucket_at old.buckets old_id
    tables ← move_chain entry old new
    rehash_loop rounds (old_id + 1) tables.0 tables.1

  pub rehash_table : Table V → Table V → Run (Table V × Table V)
  unfolding rehash_loop
  rehash_table old new = rehash_loop old.capacity 0 old new

  -- The first argument is `new_table`; its array goes over to `old_table`.
  pub move_table : Table V → Table V → Table V
  move_table new old = record old {
    capacity = new.capacity;
    size = new.size;
    buckets = new.buckets;
  }

  pub needs_to_grow : Table V → Bool
  needs_to_grow t = ltb 0 t.size && ltb (t.capacity / t.size) 2

  pub needs_to_shrink : Table V → Bool
  needs_to_shrink t = ltb 0 t.size && ltb 8 (t.capacity / t.size)

  resize_created : Table V → Errno × Table V → Run (Errno × Table V)
  unfolding rehash_table move_table
  resize_created t (success, new) = do
    tables ← rehash_table t new
    ok (success, move_table tables.1 tables.0)
  resize_created t (e, new) = ok (e, t)

  pub resize : Memory → ℕ → Table V → Run (Errno × Table V)
  unfolding create_table resize_created
  resize mem new_capacity t = do created ← create_table mem new_capacity; resize_created t created

  pub check_n_resize_table : Memory → Table V → Run (Errno × Table V)
  unfolding needs_to_grow needs_to_shrink resize
  check_n_resize_table mem t =
      if needs_to_grow t
      then resize mem (u32 (t.capacity * 2)) t
      else (if needs_to_shrink t then resize mem (t.capacity / 2) t else ok (success, t))

  insert_new : Memory → Table V → Key → Option V → Run (Errno × Table V)
  unfolding insert_table_entry check_n_resize_table
  insert_new mem t key v =
      if mem.entry
      then (do
        t' ← insert_table_entry t (record { key = key; val = v })
        check_n_resize_table mem t')
      else ok (enomem, t)

  insert_found :
      Memory → Table V → Key → Option V → Errno × Option (Entry V) → Run (Errno × Table V)
  unfolding assign_table_entry insert_new
  insert_found mem t key v (success, entry) = do t' ← assign_table_entry t key v; ok (success, t')
  insert_found mem t key v (e, entry) = insert_new mem t key v

  -- A null handle is `none`; the table that a call leaves stands beside its error number.
  unfoldable pub htable_insert :
      Memory → Option (Table V) → Option Key → Option V → Run (Errno × Option (Table V))
  unfolding find_table_entry insert_found
  htable_insert mem (some t) (some key) v = do
    found ← find_table_entry t key
    r ← insert_found mem t key v found
    ok (r.0, some r.1)
  htable_insert mem handle key v = ok (einval, handle)

  delete_found : Memory → Table V → Key → Errno × Option (Entry V) → Run (Errno × Table V)
  unfolding assign_table_entry delete_table_entry check_n_resize_table
  delete_found mem t key (success, entry) = do
    t' ← assign_table_entry t key none
    t'' ← delete_table_entry t' key
    check_n_resize_table mem t''
  delete_found mem t key (e, entry) = ok (e, t)

  pub htable_delete : Memory → Option (Table V) → Option Key → Run (Errno × Option (Table V))
  unfolding find_table_entry delete_found
  htable_delete mem (some t) (some key) = do
    found ← find_table_entry t key
    r ← delete_found mem t key found
    ok (r.0, some r.1)
  htable_delete mem handle key = ok (einval, handle)

  found_val : Errno × Option (Entry V) → Errno × Option (Option V)
  found_val (success, some entry) = (success, some entry.val)
  found_val (e, entry) = (e, none)

  -- `*out`, where the call writes it; the last argument says whether `out` is a null pointer.
  unfoldable pub htable_find :
      Option (Table V) → Option Key → Bool → Run (Errno × Option (Option V))
  unfolding find_table_entry found_val
  htable_find (some t) (some key) false = do found ← find_table_entry t key; ok (found_val found)
  htable_find handle key out_null = ok (einval, none)

  init_created : Errno × Table V → Errno × Option (Table V)
  init_created (success, t) = (success, some t)
  init_created (e, t) = (e, none)

  unfoldable pub htable_init : Memory → Run (Errno × Option (Table V))
  unfolding create_table init_created
  htable_init mem = do created ← create_table mem 8; ok (init_created created)
