-- ===== src/Rocs/Events/Walk.antt =====
-- The loops that both passes make over devices, functions, variants and subvariants
-- (patches/rocm_smi/rocs.c).
use scorep_amd.Common.{ℕ, zero, suc, ◌+◌, Bool, true, false, Option, none, some, List, [], ◌∷◌}
use scorep_amd.Common.Run.{Run, ok, fault, ◌>>=◌}
use scorep_amd.Common.Strings.{Text}
use scorep_amd.Rocs.{PapiErrno, papi_ok, papi_emisc}
use scorep_amd.Rocs.Events.{Variant, Supported, Listing, Catalog, Leaf}

-- `papi_errno` of both passes: PAPI_EMISC where an iterator could not be closed, which is `false`
-- below and ends the pass.
unfoldable pub errno_of : Bool → PapiErrno
errno_of true = papi_ok
errno_of false = papi_emisc

-- What a pass does after a loop.
unfoldable pub proceed {ℓ} : {S : Type ℓ} → Run (Bool × S) → (S → Run (Bool × S)) → Run (Bool × S)
proceed (fault why) next = fault why
proceed (ok (true, s)) next = next s
proceed (ok (false, s)) next = ok (false, s)

-- Closing an iterator.
unfoldable pub closed {ℓ} : {S : Type ℓ} → Bool → S → Run (Bool × S)
closed true s = ok (true, s)
closed false s = ok (false, s)

-- `visit` is what a pass does with a function, a variant and a subvariant, `xgmi` what it does at
-- the end of a device.
module _ {ℓ} {S : Type ℓ} (visit : Leaf → S → Run S) (xgmi : ℕ → S → Run S) where
  unfoldable pub walk_subvariants : Text → ℕ → ℕ → Bool → List ℕ → S → Run (Bool × S)
  unfolding closed
  walk_subvariants name dev v closes [] s = closed closes s
  walk_subvariants name dev v closes (sub ∷ subs) s =
      visit (record { name = name; device = dev; variant = some v; subvariant = some sub }) s
      >>= λ s'. walk_subvariants name dev v closes subs s'

  unfoldable pub walk_variant : Text → ℕ → ℕ → Bool → List ℕ → S → Run (Bool × S)
  unfolding walk_subvariants
  walk_variant name dev v closes [] s =
      visit (record { name = name; device = dev; variant = some v; subvariant = none }) s >>= λ s'.
      ok (true, s')
  walk_variant name dev v closes (sub ∷ subs) s = walk_subvariants name dev v closes (sub ∷ subs) s

  unfoldable pub walk_variants : Text → ℕ → Bool → List Variant → S → Run (Bool × S)
  unfolding walk_variant closed proceed
  walk_variants name dev closes [] s = closed closes s
  walk_variants name dev closes (v ∷ vs) s =
      proceed (walk_variant name dev v.id v.subvariants_close v.subvariants s)
        (λ s'. walk_variants name dev closes vs s')

  unfoldable pub walk_function : Text → ℕ → Bool → List Variant → S → Run (Bool × S)
  unfolding walk_variants
  walk_function name dev closes [] s =
      visit (record { name = name; device = dev; variant = none; subvariant = none }) s >>= λ s'.
      ok (true, s')
  walk_function name dev closes (v ∷ vs) s = walk_variants name dev closes (v ∷ vs) s

  unfoldable pub walk_functions : ℕ → Bool → List Supported → S → Run (Bool × S)
  unfolding walk_function closed proceed
  walk_functions dev closes [] s = closed closes s
  walk_functions dev closes (g ∷ gs) s =
      proceed (walk_function g.name dev g.variants_close g.variants s)
        (λ s'. walk_functions dev closes gs s')

  -- A device whose iterator cannot be opened is left out, its XGMI events included.
  unfoldable pub walk_device : ℕ → Option Listing → S → Run (Bool × S)
  unfolding walk_functions proceed
  walk_device dev none s = ok (true, s)
  walk_device dev (some listing) s =
      proceed (walk_functions dev listing.functions_close (listing.first ∷ listing.others) s)
        (λ s'. xgmi dev s' >>= λ s''. ok (true, s''))

  -- The devices from `dev` on.
  unfoldable pub walk_devices : Catalog → ℕ → ℕ → S → Run (Bool × S)
  unfolding walk_device proceed
  walk_devices m zero dev s = ok (true, s)
  walk_devices m (suc left) dev s =
      proceed (walk_device dev (m.listing dev) s) (λ s'. walk_devices m left (dev + 1) s')
