-- ===== src/Rocs/Masks.antt =====
-- The bits of device_mask (patches/rocm_smi/rocs.c).
use scorep_amd.Common.{
  ℕ, zero, suc, ◌<◌, ◌≡◌, refl, sym, Bool-cases, true_ne_false, inl, inr, ◌∙◌, Bool, true, false,
  ◌||◌, ◌&&◌, not, [], ◌∷◌, arith, get_or, set, replicate, if◌then◌else◌, ◌==◌, get_or-replicate,
}
use scorep_amd.Rocs.{Mask}

unfoldable pub mask_or : Mask → Mask → Mask
mask_or [] ms = ms
mask_or (x ∷ xs) [] = x ∷ xs
mask_or (x ∷ xs) (y ∷ ys) = (x || y) ∷ mask_or xs ys

unfoldable pub mask_and : Mask → Mask → Mask
mask_and [] ms = []
mask_and (x ∷ xs) [] = []
mask_and (x ∷ xs) (y ∷ ys) = (x && y) ∷ mask_and xs ys

differ : Bool → Bool → Bool
differ true b = not b
differ false b = b

pub mask_xor : Mask → Mask → Mask
unfolding differ
mask_xor [] ms = ms
mask_xor (x ∷ xs) [] = x ∷ xs
mask_xor (x ∷ xs) (y ∷ ys) = differ x y ∷ mask_xor xs ys

-- `mask != 0`
unfoldable pub is_nonzero : Mask → Bool
is_nonzero [] = false
is_nonzero (x ∷ xs) = x || is_nonzero xs

pub same_mask : Mask → Mask → Bool
same_mask xs ys = not (is_nonzero (mask_xor xs ys))

-- `1 << d`
unfoldable pub bit : ℕ → Mask
bit d = set (replicate 32 false) d true

unfoldable pub no_devices : Mask
no_devices = replicate 32 false

-- Whether a mask has the bit of a device.
abbrev pub has : Mask → ℕ → Bool
has m d = get_or m d false

pub or-has : (xs ys : Mask) (d : ℕ) → has (mask_or xs ys) d ≡ (has xs d || has ys d)
unfolding mask_or
or-has [] ys d = refl
or-has (x ∷ xs) [] zero = ground arith
or-has (x ∷ xs) [] (suc d) = ground arith
or-has (x ∷ xs) (y ∷ ys) zero = refl
or-has (x ∷ xs) (y ∷ ys) (suc d) = or-has xs ys d

pub and-has : (xs ys : Mask) (d : ℕ) → has (mask_and xs ys) d ≡ (has xs d && has ys d)
unfolding mask_and
and-has [] ys d = refl
and-has (x ∷ xs) [] zero = ground arith
and-has (x ∷ xs) [] (suc d) = ground arith
and-has (x ∷ xs) (y ∷ ys) zero = refl
and-has (x ∷ xs) (y ∷ ys) (suc d) = and-has xs ys d

pub xor-has :
    (xs ys : Mask) (d : ℕ)
    → has (mask_xor xs ys) d ≡ (if has xs d then not (has ys d) else has ys d)
unfolding mask_xor differ
xor-has [] ys d = refl
xor-has (x ∷ xs) [] zero = ground arith
xor-has (x ∷ xs) [] (suc d) = ground arith
xor-has (true ∷ xs) (y ∷ ys) zero = refl
xor-has (false ∷ xs) (y ∷ ys) zero = refl
xor-has (x ∷ xs) (y ∷ ys) (suc d) = xor-has xs ys d

pub zero-has : (xs : Mask) (d : ℕ) → is_nonzero xs ≡ false → has xs d ≡ false
unfolding is_nonzero
zero-has [] d h = refl
zero-has (true ∷ xs) d h = cc
zero-has (false ∷ xs) zero h = refl
zero-has (false ∷ xs) (suc d) h = zero-has xs d h

pub has-zero : (xs : Mask) → ((d : ℕ) → has xs d ≡ false) → is_nonzero xs ≡ false
unfolding is_nonzero
has-zero [] h = refl
has-zero (true ∷ xs) h = cc (h 0)
has-zero (false ∷ xs) h = has-zero xs (λ d. h (suc d))

zero_ne : (q : ℕ) → false ≡ (0 == suc q)
zero_ne q = ground arith

suc_eq : (d q : ℕ) → (d == q) ≡ (suc d == suc q)
suc_eq d q = ground arith

bits-has : (n d q : ℕ) → d < n → has (set (replicate n false) d true) q ≡ (d == q)
bits-has zero d q h = elim h [ ]
bits-has (suc n) zero zero h = ground arith
bits-has (suc n) zero (suc q) h = get_or-replicate n q false ∙ zero_ne q
bits-has (suc n) (suc d) zero h = ground arith
bits-has (suc n) (suc d) (suc q) h = bits-has n d q (omega arith) ∙ suc_eq d q

pub bit-has : (d q : ℕ) → d < 32 → has (bit d) q ≡ (d == q)
unfolding bit
bit-has d q h = bits-has 32 d q h

pub no_devices-has : (q : ℕ) → has no_devices q ≡ false
unfolding no_devices
no_devices-has q = get_or-replicate 32 q false

pub nonzero-has : (xs : Mask) → is_nonzero xs ≡ true → (d : ℕ) × (has xs d ≡ true)
unfolding is_nonzero
nonzero-has [] h = cc
nonzero-has (true ∷ xs) h = (0, refl)
nonzero-has (false ∷ xs) h = let (d, e) = nonzero-has xs h in (suc d, e)

xor_eq : (a b : Bool) → a ≡ b → (if a then not b else b) ≡ false
xor_eq true b h = rw (← h) refl
xor_eq false b h = rw (← h) refl

pub same_mask_of_has : (xs ys : Mask) → ((q : ℕ) → has xs q ≡ has ys q) → same_mask xs ys ≡ true
unfolding same_mask
same_mask_of_has xs ys h =
    rw (has-zero (mask_xor xs ys) (λ q. xor-has xs ys q ∙ xor_eq (has xs q) (has ys q) (h q))) refl

pub same_mask_of_ne :
    (xs ys : Mask) (d : ℕ) → has xs d ≡ false → has ys d ≡ true → same_mask xs ys ≡ false
unfolding same_mask
same_mask_of_ne xs ys d h k = elim (Bool-cases (is_nonzero (mask_xor xs ys))) [
  | inl e ↦ rw e refl
  | inr e ↦
      let x = xor-has xs ys d in
      let z = zero-has (mask_xor xs ys) d e in absurd (true_ne_false (rw (h, k) at (sym x ∙ z)))
]
