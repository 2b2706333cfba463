-- ===== src/Htable/Resize.antt =====
-- When a table is rebuilt, and what the rebuilt table is (check_n_resize_table of
-- patches/rocm_smi/htable.h).
use scorep_amd.Common.{
  ℕ, zero, suc, ◌+◌, ◌-◌, ◌*◌, ◌/◌, ◌^◌, ◌≤◌, ◌<◌, ◌≡◌, refl, true, false, arith, ltb, Bool-cases,
  inl, inr,
}
use native.Mathlib.Nat.{div-lt_iff_lt-mul, le-div_iff_mul-le, pow-suc, mod-eq_of_lt}
use Prim.Native.Nat.{max}
use scorep_amd.Common.Run.{ok, ◌>>=◌, Returns}
use scorep_amd.Htable.Buckets.{IsTable, view, Holds}
use scorep_amd.Htable.Rehash.{rehash_table-Holds}
use scorep_amd.Htable.{
  Key, Table, Memory, Errno, success, enomem, resize, check_n_resize_table, needs_to_grow,
  needs_to_shrink, u32,
}

div_lt_two : (c s : ℕ) → 0 < s → ltb (c / s) 2 ≡ ltb c (2 * s)
div_lt_two c s h = ground (arith, div-lt_iff_lt-mul {k = s} {x = c} {y = 2} h)

eight_lt_div : (c s : ℕ) → 0 < s → ltb 8 (c / s) ≡ ltb (9 * s - 1) c
eight_lt_div c s h = ground (arith, le-div_iff_mul-le {k = s} {x = 9} {y = c} h)

-- A capacity that the code reaches from HTABLE_MIN_SIZE.
abbrev pub IsPower : ℕ → Type 0
IsPower n = (k : ℕ) × (n ≡ 8 * 2 ^ k)

IsPower-double : (n : ℕ) → IsPower n → IsPower (n * 2)
IsPower-double n (k, e) = (suc k, rw (e, pow-suc) (omega arith))

IsPower-half : (n : ℕ) → 8 < n → IsPower n → IsPower (n / 2)
IsPower-half n h (zero, e) = absurd (omega (arith, e))
IsPower-half n h (suc k, e) = (k, rw (e, pow-suc) (omega arith))

pow_pos : (k : ℕ) → 1 ≤ 2 ^ k
pow_pos zero = omega arith
pow_pos (suc k) = rw pow-suc (omega (arith, pow_pos k))

IsPower-pos : (n : ℕ) → IsPower n → 8 ≤ n
IsPower-pos n (k, e) = omega (arith, pow_pos k)

u32_double : (n : ℕ) → n < 2 ^ 31 → u32 (n * 2) ≡ n * 2
u32_double n h = omega arith

module _ {ℓ} {V : Type ℓ} where
  -- Between two calls: the table is well formed, its capacity is 8 * 2 ^ k, and it is at most half full.
  pub record IsValid (t : Table V) : Type 0 where
    pub table : IsTable t
    pub power : IsPower t.capacity
    pub load : 2 * t.size ≤ t.capacity

  needs_to_grow_lem : (t : Table V) → needs_to_grow t ≡ ltb t.capacity (2 * t.size)
  unfolding needs_to_grow
  needs_to_grow_lem t = ground (arith, div_lt_two t.capacity t.size)

  needs_to_shrink_lem :
      (t : Table V) → needs_to_shrink t ≡ true → (9 * t.size ≤ t.capacity) × (0 < t.size)
  unfolding needs_to_shrink
  needs_to_shrink_lem t h = ground (arith, eight_lt_div t.capacity t.size)

  pub resize-Holds :
      (mem : Memory) (n : ℕ) (t : Table V)
      → mem.table ≡ true
      → mem.buckets ≡ true
      → IsTable t
      → t.size < 2 ^ 32
      → 0 < n
      → n < 2 ^ 32
      → Returns (resize mem n t) (λ r. (r.0 ≡ success) × Holds n t.size (view t) r.1)
  unfolding resize
  resize-Holds mem n t m₁ m₂ v small pos lt =
      let (r, run, h) = rehash_table-Holds t n v small pos in
      (
        (success, record { capacity = r.1.capacity; size = r.1.size; buckets = r.1.buckets }),
        rw (m₁, m₂, mod-eq_of_lt lt, ◌>>=◌, run) refl,
        (refl, h),
      )

  pub resize_no_memory :
      (mem : Memory) (n : ℕ) (t : Table V)
      → mem.table ≡ true
      → mem.buckets ≡ false
      → resize mem n t ≡ ok (enomem, t)
  unfolding resize
  resize_no_memory mem n t m₁ m₂ = rw (m₁, m₂) refl

  -- A call of `check_n_resize_table` that ran well: the same map, in a valid table.
  pub record Keeps (t : Table V) (r : Errno × Table V) : Type ℓ where
    pub done : r.0 ≡ success
    pub valid : IsValid r.1
    pub size : r.1.size ≡ t.size
    pub reads : (q : Key) → view r.1 q ≡ view t q
    pub bounded : r.1.capacity ≤ max t.capacity (4 * t.size)

  Holds-Keeps :
      (t : Table V) (n : ℕ) (r : Errno × Table V)
      → r.0 ≡ success
      → Holds n t.size (view t) r.1
      → IsPower n
      → 2 * t.size ≤ n
      → n ≤ max t.capacity (4 * t.size)
      → Keeps t r
  Holds-Keeps t n r d h p load below = record {
    done = d;
    valid = record {
      table = h.valid;
      power = rw h.capacity_is p;
      load = omega (arith, h.capacity_is, h.size_is);
    };
    size = h.size_is;
    reads = h.reads;
    bounded = omega (arith, h.capacity_is);
  }

  grow_bound : (t : Table V) → needs_to_grow t ≡ true → t.capacity * 2 ≤ max t.capacity (4 * t.size)
  grow_bound t g = ground (arith, needs_to_grow_lem t)

  no_grow_load : (t : Table V) → needs_to_grow t ≡ false → 2 * t.size ≤ t.capacity
  no_grow_load t g = ground (arith, needs_to_grow_lem t)

  -- `check_n_resize_table`, after a call that added at most one entry to a valid table, or took one
  -- out, has no undefined behaviour if the table and the array can be allocated. It leaves a valid
  -- table (its capacity is 8 times a power of 2, and it has at most half as many entries) that
  -- has the same entries, and whose capacity has not grown beyond four times their number.
  pub check_n_resize_table-Keeps :
      (mem : Memory) (t : Table V)
      → mem.table ≡ true
      → mem.buckets ≡ true
      → IsTable t
      → IsPower t.capacity
      → t.capacity < 2 ^ 31
      → 2 * t.size ≤ t.capacity + 2
      → Returns (check_n_resize_table mem t) (Keeps t)
  unfolding check_n_resize_table resize
  check_n_resize_table-Keeps mem t m₁ m₂ v p small load =
      let big = IsPower-pos t.capacity p in
      elim (Bool-cases (needs_to_grow t)) [
        | inl g ↦
            let (r, run, (d, h)) =
              resize-Holds mem (t.capacity * 2) t m₁ m₂ v (omega arith) (omega arith)
                (omega arith) in
            (
              r,
              rw (g, u32_double t.capacity small) run,
              Holds-Keeps t (t.capacity * 2) r d h (IsPower-double t.capacity p) (omega arith)
                  (grow_bound t g),
            )
        | inr g ↦ elim (Bool-cases (needs_to_shrink t)) [
          | inl s ↦
              let (few, some') = needs_to_shrink_lem t s in
              let (r, run, (d, h)) =
                resize-Holds mem (t.capacity / 2) t m₁ m₂ v (omega arith) (omega arith)
                  (omega arith) in
              (
                r,
                rw (g, s) run,
                Holds-Keeps t (t.capacity / 2) r d h (IsPower-half t.capacity (omega arith) p)
                    (omega arith) (omega arith),
              )
          | inr s ↦ (
            (success, t),
            rw (g, s) refl,
            record {
              done = refl;
              valid = record { table = v; power = p; load = no_grow_load t g };
              size = refl;
              reads = λ q. refl;
              bounded = omega arith;
            },
          )
        ]
      ]
