-- ===== src/Common/Run.antt =====
-- Runs of C code that may end in undefined behaviour, or in a call of exit.
use mathlib.Core.Path.{◌≡◌, refl}
use mathlib.Core.Logic.{◌⊎◌, inl, inr}

pub data Fault : Type 0 where
  null_dereference division_by_zero out_of_bounds double_free use_after_free not_joinable
        program_exit :
      Fault

-- A fault ends a run for good; otherwise it has a value.
pub data Run {ℓ} (R : Type ℓ) : Type ℓ where
  fault : Fault → Run R
  ok : R → Run R

-- Going on with the value.
infixl 5 ◌>>=◌
abbrev pub ◌>>=◌ {ℓ ℓ'} : {R : Type ℓ} {S : Type ℓ'} → Run R → (R → Run S) → Run S
fault why >>= next = fault why
ok value >>= next = next value

-- The run ends without undefined behaviour, in a value that satisfies `P`.
abbrev pub Returns {ℓ ℓ'} : {R : Type ℓ} → Run R → (R → Type ℓ') → Type (ℓ ⊔ ℓ')
Returns {R} run P = (value : R) × (run ≡ ok value) × P value

pub ok-injective {ℓ} : {R : Type ℓ} (a b : R) → ok a ≡ ok b → a ≡ b
ok-injective a b e = cc

pub ok_ne_fault {ℓ} : {R : Type ℓ} (a : R) (why : Fault) → fault why ≡ ok a → ⊥
ok_ne_fault a why e = cc

pub Run-cases {ℓ} :
    {R : Type ℓ} (run : Run R) → ((a : R) × (run ≡ ok a)) ⊎ ((why : Fault) × (run ≡ fault why))
Run-cases (ok a) = inl (a, refl)
Run-cases (fault why) = inr (why, refl)
