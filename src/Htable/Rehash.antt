-- ===== src/Htable/Rehash.antt =====
-- Moving every entry to another array (rehash_table of patches/rocm_smi/htable.h).
use scorep_amd.Common.{
  ℕ, zero, suc, ◌+◌, ◌^◌, ◌≤◌, ◌<◌, ◌≡◌, refl, sym, ◌∙◌, ap, Option, none, [], arith, if◌then◌else◌,
  ltb, length, get_or, replicate, le→ltb, lt→ltb, ltb-suc_ne, get_or_of_le,
}
use mathlib.Core.Path.{subst}
use native.Mathlib.Decide.{ℕ_discrete, dec_lt}
use scorep_amd.Common.Run.{◌>>=◌, Returns}
use scorep_amd.Htable.Chain.{count, find_chain-eq-none}
use scorep_amd.Htable.Buckets.{
  home, home-lt, total, total-set, total_empty, bucket_at-get_or, IsTable, view, Holds,
  replicate-Holds,
}
use scorep_amd.Htable.Moves.{move_chain-Holds, over, placed-Stands}
use scorep_amd.Htable.{Key, Entry, Table, move_chain, rehash_loop, rehash_table}

module _ {ℓ} {V : Type ℓ} where
  -- What `t` holds in its first `id` buckets.
  abbrev moved : Table V → ℕ → Key → Option (Entry V)
  moved t id q = if ltb (home q t.capacity) id then view t q else none

  -- The loop of `rehash_table` at `old_id = id`, started from `t` with a new table of `n` buckets.
  record Half (t : Table V) (n id : ℕ) (old new : Table V) : Type ℓ where
    capacity : old.capacity ≡ t.capacity
    width : length old.buckets ≡ length t.buckets
    emptied : (j : ℕ) → j < id → get_or old.buckets j [] ≡ []
    kept : (j : ℕ) → id ≤ j → get_or old.buckets j [] ≡ get_or t.buckets j []
    gained : Holds n new.size (moved t id) new
    all : new.size + total old.buckets ≡ t.size

  in_place :
      (t : Table V) (id : ℕ)
      → IsTable t
      → (q : Key) → 0 < count q (get_or t.buckets id [])
      → id ≤ home q t.capacity
  in_place t id v q c = elim (ℕ_discrete (home q t.capacity) id) [
    | yes p ↦ omega arith
    | no p ↦ absurd (omega (arith, (v.placed q id).1 p))
  ]

  over-moved :
      (t : Table V) (id : ℕ)
      → IsTable t
      → (q : Key) → over (get_or t.buckets id []) (moved t id) q ≡ moved t (id + 1) q
  unfolding view
  over-moved t id v q = elim (ℕ_discrete (home q t.capacity) id) [
    | yes p ↦ rw (← p) (ground arith)
    | no p ↦
        rw
          (
            over,
            find_chain-eq-none q (get_or t.buckets id []) ((v.placed q id).1 p),
            ltb-suc_ne (home q t.capacity) id p,
          )
          refl
  ]

  rehash_step :
      (t old new : Table V) (n id : ℕ)
      → IsTable t
      → t.size < 2 ^ 32
      → id < t.capacity
      → Half t n id old new
      → Returns (move_chain (get_or t.buckets id []) old new) (λ r. Half t n (id + 1) r.0 r.1)
  rehash_step t old new n id v small lt h =
      let es = get_or t.buckets id [] in
      let lt' : id < length old.buckets = omega (arith, v.width, h.width) in
      let here = h.kept id (omega arith) in
      let fits = total-set old.buckets id [] lt' in
      let (r, run, (d, k)) =
        move_chain-Holds es old new id n new.size (moved t id)
          (omega (arith, v.nonempty, h.capacity)) lt' here
          (rw (← h.capacity) at (placed-Stands t id v)) h.gained
          (omega (arith, ap length here, h.all))
          (λ q c. rw (le→ltb (home q t.capacity) id (in_place t id v q c)) refl) in
      (
        r,
        run,
        record {
          capacity = d.capacity ∙ h.capacity;
          width = d.width ∙ h.width;
          emptied = λ j p. elim (ℕ_discrete id j) [
            | yes e ↦ subst (λ x. get_or r.0.buckets x [] ≡ []) e d.empty
            | no ne ↦ d.others j ne ∙ h.emptied j (omega arith)
          ];
          kept = λ j p. d.others j (omega arith) ∙ h.kept j (omega arith);
          gained = record {
            valid = k.valid;
            capacity_is = k.capacity_is;
            size_is = refl;
            reads = λ q. k.reads q ∙ over-moved t id v q;
          };
          all = omega (arith, d.counted, k.size_is, ap length here, h.all);
        },
      )

  rehash_loop-Half :
      (rounds id n : ℕ) (t old new : Table V)
      → IsTable t
      → t.size < 2 ^ 32
      → id + rounds ≡ t.capacity
      → Half t n id old new
      → Returns (rehash_loop rounds id old new) (λ r. Half t n t.capacity r.0 r.1)
  unfolding rehash_loop
  rehash_loop-Half zero id n t old new v small e h =
      ((old, new), refl, subst (λ x. Half t n x old new) (omega arith) h)
  rehash_loop-Half (suc rounds) id n t old new v small e h =
      let (r, run, k) = rehash_step t old new n id v small (omega arith) h in
      let (r', run', k') = rehash_loop-Half rounds (id + 1) n t r.0 r.1 v small (omega arith) k in
      (
        r',
        rw
            (
              bucket_at-get_or old.buckets id (omega (arith, v.width, h.width)),
              ◌>>=◌,
              h.kept id (omega arith),
              run,
            )
            run',
        k',
      )

  all_empty :
      (t : Table V) (n : ℕ) (old new : Table V)
      → IsTable t
      → Half t n t.capacity old new
      → (j : ℕ) → get_or old.buckets j [] ≡ []
  all_empty t n old new v h j = elim (dec_lt j t.capacity) [
    | yes p ↦ h.emptied j p
    | no p ↦ get_or_of_le old.buckets j [] (omega (arith, v.width, h.width))
  ]

  -- Every entry arrives: the new table has the capacity that it was made with, and holds what the
  -- old table held.
  pub rehash_table-Holds :
      (t : Table V) (n : ℕ)
      → IsTable t
      → t.size < 2 ^ 32
      → 0 < n
      → Returns
          (rehash_table t (record { capacity = n; size = 0; buckets = replicate n [] }))
          (λ r. Holds n t.size (view t) r.1)
  unfolding rehash_table
  rehash_table-Holds t n v small pos =
      let start = replicate-Holds {V = V} n pos in
      let (r, run, h) =
        rehash_loop-Half t.capacity 0 n t t
          (record { capacity = n; size = 0; buckets = replicate n [] }) v small (omega arith)
          (record {
            capacity = refl;
            width = refl;
            emptied = λ j p. elim p [ ];
            kept = λ j p. refl;
            gained = record {
              valid = start.valid;
              capacity_is = refl;
              size_is = refl;
              reads =
                  λ q. start.reads q ∙ sym (rw (le→ltb (home q t.capacity) 0 (omega arith)) refl);
            };
            all = omega (arith, v.sized);
          }) in
      let gone : total r.0.buckets ≡ 0 = total_empty r.0.buckets (all_empty t n r.0 r.1 v h) in
      (
        r,
        run,
        record {
          valid = h.gained.valid;
          capacity_is = h.gained.capacity_is;
          size_is = omega (arith, h.all);
          reads = λ q.
              h.gained.reads q
              ∙ rw (lt→ltb (home q t.capacity) t.capacity (home-lt q t.capacity v.nonempty)) refl;
        },
      )
