-- ===== src/Htable/Buckets.antt =====
-- Where the entries of a table stand (patches/rocm_smi/htable.h), what the table means as a map, and
-- what a write to one bucket does to both.
use scorep_amd.Common.{
  ℕ, zero, suc, ◌+◌, ◌%◌, ◌≤◌, ◌<◌, ◌≡◌, refl, sym, ◌∙◌, ap, ◌≢◌, Option, none, List, [], ◌∷◌,
  arith, if◌then◌else◌, length, get_or, set, replicate, length-set, length-replicate,
  get_or-replicate, get_or-set_self, get_or-set_ne,
}
use native.Mathlib.Decide.{ℕ_discrete}
use scorep_amd.Common.Run.{ok}
use scorep_amd.Htable.Chain.{count, same_key_iff}
use scorep_amd.Htable.{
  Key, Entry, Chain, Table, hash_func, same_key, bucket_at, bucket_id, find_chain,
}

pub home : Key → ℕ → ℕ
home k n = hash_func k % n

pub home-lt : (k : Key) (n : ℕ) → 0 < n → home k n < n
unfolding home
home-lt k n h = grind arith

module _ {ℓ} {V : Type ℓ} where
  -- The number of entries that are linked into an array of buckets.
  unfoldable pub total : List (Chain V) → ℕ
  total [] = 0
  total (c ∷ cs) = length c + total cs

  pub total-set :
      (bs : List (Chain V)) (i : ℕ) (c : Chain V)
      → i < length bs
      → total (set bs i c) + length (get_or bs i []) ≡ total bs + length c
  unfolding total
  total-set [] i c h = elim h [ ]
  total-set (b ∷ bs) zero c h = omega arith
  total-set (b ∷ bs) (suc i) c h = omega (arith, total-set bs i c (omega arith))

  pub total_empty : (bs : List (Chain V)) → ((i : ℕ) → get_or bs i [] ≡ []) → total bs ≡ 0
  unfolding total
  total_empty [] h = refl
  total_empty (b ∷ bs) h = omega (arith, ap length (h 0), total_empty bs (λ i. h (suc i)))

pub total-replicate {ℓ} : (V : Type ℓ) (n : ℕ) → total (replicate {A = Chain V} n []) ≡ 0
unfolding total
total-replicate V zero = refl
total-replicate V (suc n) = omega (arith, total-replicate V n)

module _ {ℓ} {V : Type ℓ} where
  pub bucket_at-get_or :
      (bs : List (Chain V)) (i : ℕ) → i < length bs → bucket_at bs i ≡ ok (get_or bs i [])
  unfolding bucket_at
  bucket_at-get_or [] i h = elim h [ ]
  bucket_at-get_or (c ∷ cs) zero h = refl
  bucket_at-get_or (c ∷ cs) (suc i) h = bucket_at-get_or cs i (omega arith)

  pub bucket_id-home :
      (t : Table V) (k : Key) → 0 < t.capacity → bucket_id t k ≡ ok (home k t.capacity)
  unfolding bucket_id home
  bucket_id-home t k h = ground arith

  -- A key occurs at most once, and only in its home bucket.
  abbrev pub IsPlaced : ℕ → List (Chain V) → Type 0
  IsPlaced n bs =
      (q : Key) (i : ℕ)
      → (count q (get_or bs i []) ≤ 1) × (home q n ≢ i → count q (get_or bs i []) ≡ 0)

  -- The array is as long as `capacity` says, `size` counts the entries, and they are in place.
  pub record IsTable (t : Table V) : Type 0 where
    pub nonempty : 0 < t.capacity
    pub width : length t.buckets ≡ t.capacity
    pub sized : t.size ≡ total t.buckets
    pub placed : IsPlaced t.capacity t.buckets

  -- The chain that a key belongs to.
  abbrev pub chain_of : Table V → Key → Chain V
  chain_of t k = get_or t.buckets (home k t.capacity) []

  -- The table as a map: the entry under a key.
  unfoldable pub view : Table V → Key → Option (Entry V)
  view t q = find_chain q (chain_of t q)

  -- `t` is a table of `n` buckets and `s` entries that reads as `f`.
  pub record Holds (n s : ℕ) (f : Key → Option (Entry V)) (t : Table V) : Type ℓ where
    pub valid : IsTable t
    pub capacity_is : t.capacity ≡ n
    pub size_is : t.size ≡ s
    pub reads : (q : Key) → view t q ≡ f q

  abbrev pub update : (Key → Option (Entry V)) → Key → Option (Entry V) → Key → Option (Entry V)
  update f k e q = if same_key k q then e else f q

  pub bucket_at-home :
      (t : Table V) (k : Key)
      → IsTable t
      → bucket_at t.buckets (home k t.capacity) ≡ ok (chain_of t k)
  bucket_at-home t k v =
      bucket_at-get_or t.buckets _ (omega (arith, home-lt k t.capacity v.nonempty, v.width))

  -- All writes replace the home chain of a key `k` by some chain `c`.
  module _ (t : Table V) (v : IsTable t) (k : Key) (c : Chain V) (s : ℕ) where
    abbrev written : Table V
    written = record t { size = s; buckets = set t.buckets (home k t.capacity) c }

    home_ok : home k t.capacity < length t.buckets
    home_ok = omega (arith, home-lt k t.capacity v.nonempty, v.width)

    set-IsPlaced :
        ((q : Key) → count q c ≤ (if same_key k q then 1 else count q (chain_of t k)))
        → IsPlaced t.capacity written.buckets
    set-IsPlaced few q i = elim (ℕ_discrete (home k t.capacity) i) [
      | yes p ↦
          rw (← p, get_or-set_self t.buckets (home k t.capacity) c [] home_ok)
            (ground (arith, few q, v.placed q (home k t.capacity), same_key_iff k q))
      | no p ↦ rw (get_or-set_ne t.buckets (home k t.capacity) i c [] p) (v.placed q i)
    ]

    view-set :
        (e : Option (Entry V))
        → ((q : Key) → find_chain q c ≡ (if same_key k q then e else find_chain q (chain_of t k)))
        → (q : Key) → view written q ≡ update (view t) k e q
    unfolding view
    view-set e reads q = elim (ℕ_discrete (home k t.capacity) (home q t.capacity)) [
      | yes p ↦ rw (← p, get_or-set_self t.buckets (home k t.capacity) c [] home_ok) (reads q)
      | no p ↦
          rw (get_or-set_ne t.buckets (home k t.capacity) (home q t.capacity) c [] p)
            (ground (arith, same_key_iff k q))
    ]

    pub set-Holds :
        (e : Option (Entry V))
        → s + length (chain_of t k) ≡ t.size + length c
        → ((q : Key) → count q c ≤ (if same_key k q then 1 else count q (chain_of t k)))
        → ((q : Key) → find_chain q c ≡ (if same_key k q then e else find_chain q (chain_of t k)))
        → Holds t.capacity s (update (view t) k e) written
    set-Holds e size few reads = record {
      valid = record {
        nonempty = v.nonempty;
        width = length-set t.buckets (home k t.capacity) c ∙ v.width;
        sized = omega (arith, total-set t.buckets (home k t.capacity) c home_ok, v.sized);
        placed = set-IsPlaced few;
      };
      capacity_is = refl;
      size_is = refl;
      reads = view-set e reads;
    }

  -- An empty array of buckets holds nothing.
  pub replicate-Holds :
      (n : ℕ)
      → 0 < n
      → Holds n 0
          (λ _. none)
          (record { capacity = n; size = 0; buckets = replicate {A = Chain V} n [] })
  unfolding count view find_chain
  replicate-Holds n h = record {
    valid = record {
      nonempty = h;
      width = length-replicate n [];
      sized = sym (total-replicate V n);
      placed = λ q i. rw get_or-replicate (omega arith);
    };
    capacity_is = refl;
    size_is = refl;
    reads = λ q. rw get_or-replicate;
  }
