-- ===== src/Plugin/Sampler/Buffer.antt =====
-- The layout of a sampling buffer (plugins/scorep-coretemp-plugin/apapi.c): each sample is a
-- timestamp and then the value of each counter.
use scorep_amd.Common.{
  ℕ, zero, suc, ◌+◌, ◌*◌, ◌/◌, ◌≤◌, ◌<◌, ◌≡◌, refl, ◌∙◌, ap, some, List, [], ◌∷◌, ◌++◌, arith,
  length, replicate, map, set-append, lt→ltb, length-append,
}
use mathlib.Core.List.{append_assoc, append-nil}
use native.Mathlib.Nat.{le-div_iff_mul-le, div-lt_iff_lt-mul}
use scorep_amd.Common.Run.{ok, ◌>>=◌}
use scorep_amd.Plugin.Sampler.{store, store_all, u64}

unfoldable pub encode : List (ℕ × List ℕ) → List ℕ
encode [] = []
encode ((t, vs) ∷ ss) = u64 t ∷ (map u64 vs ++ encode ss)

-- Every sample has `m` values.
abbrev pub AreWide : ℕ → List (ℕ × List ℕ) → Type 0
AreWide m [] = Unit
AreWide m ((t, vs) ∷ ss) = (length vs ≡ m) × AreWide m ss

pub length-map {ℓ κ} :
    {A : Type ℓ} {B : Type κ} (f : A → B) (xs : List A) → length (map f xs) ≡ length xs
length-map f [] = refl
length-map f (x ∷ xs) = ap suc (length-map f xs)

pub length-encode :
    (m : ℕ) (ss : List (ℕ × List ℕ)) → AreWide m ss → length (encode ss) ≡ length ss * (m + 1)
unfolding encode
length-encode m [] w = omega arith
length-encode m ((t, vs) ∷ ss) (w, ws) =
    rw (length-append, length-map) (omega (arith, length-encode m ss ws))

pub encode-append : (as' bs : List (ℕ × List ℕ)) → encode (as' ++ bs) ≡ encode as' ++ encode bs
unfolding encode
encode-append [] bs = refl
encode-append ((t, vs) ∷ as') bs = simp (encode-append as' bs, append_assoc)

pub AreWide-append :
    (m : ℕ) (as' bs : List (ℕ × List ℕ)) → AreWide m as' → AreWide m bs → AreWide m (as' ++ bs)
AreWide-append m [] bs wa wb = wb
AreWide-append m ((t, vs) ∷ as') bs (w, wa) wb = (w, AreWide-append m as' bs wa wb)

-- Storing at the end of what is filled.
pub store-filled :
    (pre : List ℕ) (z v : ℕ)
    → store (some (pre ++ replicate (suc z) 0)) (length pre) v
      ≡ ok ((pre ++ u64 v ∷ []) ++ replicate z 0)
unfolding store
store-filled pre z v =
    rw
      (lt→ltb (length pre) (length (pre ++ replicate (suc z) 0))
        (omega (arith, length-append pre (replicate (suc z) 0))))
      (ap ok (set-append pre 0 (u64 v) (replicate z 0)))

pub zero_plus : (n : ℕ) → 0 + n ≡ n
zero_plus n = omega arith

pub length-snoc : (xs : List ℕ) (x : ℕ) → length (xs ++ x ∷ []) ≡ length xs + 1
length-snoc xs x = length-append xs (x ∷ [])

pub store_all-filled :
    (vs pre : List ℕ) (w z : ℕ)
    → w ≡ length vs + z
    → store_all (pre ++ replicate w 0) (length pre) vs ≡ ok ((pre ++ map u64 vs) ++ replicate z 0)
unfolding store_all
store_all-filled [] pre w z e =
    ap ok (rw append-nil (ap (λ n. pre ++ replicate n 0) (e ∙ zero_plus z)))
store_all-filled (v ∷ vs) pre zero z e = absurd (omega (arith, e))
store_all-filled (v ∷ vs) pre (suc w) z e =
    rw (store-filled pre w v, ◌>>=◌, ← length-snoc pre (u64 v))
      (store_all-filled vs (pre ++ u64 v ∷ []) w z (omega (arith, e))
        ∙ ap (λ l. ok (l ++ replicate z 0)) (append_assoc pre (u64 v ∷ []) (map u64 vs)))

-- How many samples of `w` cells fit into `n` cells.
pub full_iff :
    (n w c k : ℕ) → 0 < w → k + c ≡ n / w → (k ≡ 0 → n < c * w + w) × (0 < k → c * w + w ≤ n)
full_iff n w c k pos e = (
  λ z. omega (arith, (div-lt_iff_lt-mul {k = w} {x = n} {y = c + 1} pos).0 (omega arith)),
  λ z. omega (arith, (le-div_iff_mul-le {k = w} {x = c + 1} {y = n} pos).0 (omega arith)),
)
