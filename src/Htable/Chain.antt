-- ===== src/Htable/Chain.antt =====
-- One chain of patches/rocm_smi/htable.h: what its search, assignment and unlinking do.
use scorep_amd.Common.{
  ℕ, ◌+◌, ◌≤◌, ◌≡◌, refl, ◌↔◌, true, Option, none, some, [], ◌∷◌, arith, if◌then◌else◌, length,
}
use scorep_amd.Htable.{Key, Entry, Chain, same_key, find_chain, assign_chain, remove_chain}

pub same_key_refl : (k : Key) → same_key k k ≡ true
unfolding same_key
same_key_refl [] = refl
same_key_refl (a ∷ as') = ground (arith, same_key_refl as')

pub same_key_eq : (a b : Key) → same_key a b ≡ true → a ≡ b
unfolding same_key
same_key_eq [] [] h = refl
same_key_eq [] (b ∷ bs) h = ground arith
same_key_eq (a ∷ as') [] h = ground arith
same_key_eq (a ∷ as') (b ∷ bs) h = ground (arith, same_key_eq as' bs)

pub same_key_iff : (a b : Key) → (same_key a b ≡ true) ↔ (a ≡ b)
same_key_iff a b = (same_key_eq a b, λ e. ground (arith, same_key_refl a))

module _ {ℓ} {V : Type ℓ} where
  -- How often a key occurs in a chain.
  unfoldable pub count : Key → Chain V → ℕ
  count q [] = 0
  count q (e ∷ c) = (if same_key e.key q then 1 else 0) + count q c

  pub find_chain-eq-none : (q : Key) (c : Chain V) → count q c ≡ 0 → find_chain q c ≡ none
  unfolding count find_chain
  find_chain-eq-none q [] h = refl
  find_chain-eq-none q (e ∷ c) h = ground (arith, find_chain-eq-none q c)

  pub count-eq-zero : (q : Key) (c : Chain V) → find_chain q c ≡ none → count q c ≡ 0
  unfolding count find_chain
  count-eq-zero q [] h = refl
  count-eq-zero q (e ∷ c) h = ground (arith, count-eq-zero q c)

  pub find_chain-key : (q : Key) (c : Chain V) (e : Entry V) → find_chain q c ≡ some e → e.key ≡ q
  unfolding find_chain
  find_chain-key q [] e h = ground arith
  find_chain-key q (d ∷ c) e h = ground (arith, find_chain-key q c e, same_key_iff d.key q)

  module _ (k q : Key) where
    pub find_chain-assign :
        (v : Option V) (c : Chain V) (old : Entry V)
        → find_chain k c ≡ some old
        → find_chain q (assign_chain k v c)
          ≡ (if same_key k q then some (record { key = k; val = v }) else find_chain q c)
    unfolding find_chain assign_chain
    find_chain-assign v [] old h = ground arith
    find_chain-assign v (e ∷ c) old h = ground (
      arith,
      find_chain-assign v c old,
      same_key_iff e.key k,
      same_key_iff e.key q,
      same_key_iff k q,
    )

    pub count-assign : (v : Option V) (c : Chain V) → count q (assign_chain k v c) ≡ count q c
    unfolding count assign_chain
    count-assign v [] = refl
    count-assign v (e ∷ c) = ground (arith, count-assign v c)

    pub find_chain-remove :
        (c : Chain V)
        → count q c ≤ 1
        → find_chain q (remove_chain k c) ≡ (if same_key k q then none else find_chain q c)
    unfolding find_chain remove_chain count
    find_chain-remove [] h = ground arith
    find_chain-remove (e ∷ c) h = ground (
      arith,
      find_chain-remove c,
      find_chain-eq-none q c,
      same_key_iff e.key k,
      same_key_iff e.key q,
      same_key_iff k q,
    )

    pub count-remove-le : (c : Chain V) → count q (remove_chain k c) ≤ count q c
    unfolding count remove_chain
    count-remove-le [] = omega arith
    count-remove-le (e ∷ c) = ground (arith, count-remove-le c)

  pub length-assign :
      (k : Key) (v : Option V) (c : Chain V) → length (assign_chain k v c) ≡ length c
  unfolding assign_chain
  length-assign k v [] = refl
  length-assign k v (e ∷ c) = ground (arith, length-assign k v c)

  pub length-remove :
      (k : Key) (c : Chain V) (old : Entry V)
      → find_chain k c ≡ some old
      → length (remove_chain k c) + 1 ≡ length c
  unfolding remove_chain find_chain
  length-remove k [] old h = ground arith
  length-remove k (e ∷ c) old h = ground (arith, length-remove k c old)
