-- ===== src/Rocs/Events/Agreement/Loops.antt =====
-- The loops of the two passes agree where what they do with a leaf and with a device agrees
-- (patches/rocm_smi/rocs.c).
use scorep_amd.Common.{
  arith, ℕ, zero, suc, ◌+◌, Bool, true, false, ◌≡◌, refl, Option, none, some, List, [], ◌∷◌,
}
use scorep_amd.Common.Run.{Run, ok, fault, ◌>>=◌}
use scorep_amd.Common.Strings.{Text}
use scorep_amd.Rocs.Events.{Variant, Supported, Listing, Catalog, Leaf}
use scorep_amd.Rocs.Events.Walk.{
  proceed, closed, walk_subvariants, walk_variant, walk_variants, walk_function, walk_functions,
  walk_device, walk_devices,
}
use scorep_amd.Rocs.Events.Agreement.{Both}

-- Both loops are at an end, or both go on, and their states are related then.
unfoldable pub Outcome {ℓ ℓ'} :
    {S : Type ℓ} {T : Type ℓ'} → (S → T → Type 0) → Bool × S → Bool × T → Type 0
Outcome R (d, s) (d', t) = (d ≡ d') × (d ≡ true → R s t)

module _ {S T : Type 0} where
  pub bind-Both :
      {S' T' : Type 0} (R : S → T → Type 0) (R' : S' → T' → Type 0) (run : Run S) (run' : Run T)
      (next : S → Run S') (next' : T → Run T')
      → Both R run run'
      → ((s : S) (t : T) → R s t → Both R' (next s) (next' t))
      → Both R' (run >>= next) (run' >>= next')
  unfolding Both
  bind-Both R R' (fault w) (fault w') next next' b h = b
  bind-Both R R' (fault w) (ok t) next next' b h = elim b [ ]
  bind-Both R R' (ok s) (fault w') next next' b h = elim b [ ]
  bind-Both R R' (ok s) (ok t) next next' b h = h s t b

  pub done-Both :
      (R : S → T → Type 0) (run : Run S) (run' : Run T)
      → Both R run run'
      → Both (Outcome R) (run >>= λ s. ok (true, s)) (run' >>= λ t. ok (true, t))
  unfolding Both Outcome
  done-Both R run run' b =
      bind-Both R (Outcome R) run run' (λ s. ok (true, s)) (λ t. ok (true, t)) b
        (λ s t r. (refl, λ _. r))

  pub closed-Both :
      (R : S → T → Type 0) (c : Bool) (s : S) (t : T)
      → R s t
      → Both (Outcome R) (closed c s) (closed c t)
  unfolding Both Outcome closed
  closed-Both R true s t r = (refl, λ _. r)
  closed-Both R false s t r = (refl, λ _. r)

  pub proceed-Both :
      (R R' : S → T → Type 0) (run : Run (Bool × S)) (run' : Run (Bool × T))
      (next : S → Run (Bool × S)) (next' : T → Run (Bool × T))
      → Both (Outcome R) run run'
      → ((s : S) (t : T) → R s t → Both (Outcome R') (next s) (next' t))
      → Both (Outcome R') (proceed run next) (proceed run' next')
  unfolding Both Outcome proceed
  proceed-Both R R' (fault w) (fault w') next next' b h = b
  proceed-Both R R' (fault w) (ok r) next next' b h = elim b [ ]
  proceed-Both R R' (ok (false, s)) (fault w') next next' b h = elim b [ ]
  proceed-Both R R' (ok (true, s)) (fault w') next next' b h = elim b [ ]
  proceed-Both R R' (ok (true, s)) (ok (true, t)) next next' (e, r) h = h s t (r refl)
  proceed-Both R R' (ok (false, s)) (ok (false, t)) next next' (e, r) h = (e, λ e'. cc)
  proceed-Both R R' (ok (true, s)) (ok (false, t)) next next' (e, r) h = cc
  proceed-Both R R' (ok (false, s)) (ok (true, t)) next next' (e, r) h = cc

-- What a device adds: nothing where it is left out.
unfoldable pub listed : Option Listing → ℕ → ℕ
listed none n = 0
listed (some listing) n = n

unfoldable pub added : Catalog → (ℕ → ℕ) → ℕ → ℕ → ℕ
unfolding listed
added m more zero dev = 0
added m more (suc left) dev = listed (m.listing dev) (more dev) + added m more left (dev + 1)

-- `visit` and `visit'` keep every relation `R k`, and `xgmi` and `xgmi'` at the end of device `dev` lead
-- from `R k` to `R (k + more dev)`.
module _ {S T : Type 0} (R : ℕ → S → T → Type 0) (visit : Leaf → S → Run S)
    (visit' : Leaf → T → Run T) (xgmi : ℕ → S → Run S) (xgmi' : ℕ → T → Run T) (more : ℕ → ℕ)
    (visits : (k : ℕ) (leaf : Leaf) (s : S) (t : T)
      → R k s t
      → Both (R k) (visit leaf s) (visit' leaf t))
    (ends : (k dev : ℕ) (s : S) (t : T)
      → R k s t
      → Both (R (k + more dev)) (xgmi dev s) (xgmi' dev t)) where
  subvariants-Both :
      (k : ℕ) (name : Text) (dev v : ℕ) (c : Bool) (subs : List ℕ) (s : S) (t : T)
      → R k s t
      → Both
          (Outcome (R k))
          (walk_subvariants visit xgmi name dev v c subs s)
          (walk_subvariants visit' xgmi' name dev v c subs t)
  unfolding walk_subvariants
  subvariants-Both k name dev v c [] s t r = closed-Both (R k) c s t r
  subvariants-Both k name dev v c (sub ∷ subs) s t r =
      bind-Both (R k) (Outcome (R k)) _ _ _ _ (visits k _ s t r)
        (λ s' t' r'. subvariants-Both k name dev v c subs s' t' r')

  variant-Both :
      (k : ℕ) (name : Text) (dev v : ℕ) (c : Bool) (subs : List ℕ) (s : S) (t : T)
      → R k s t
      → Both
          (Outcome (R k))
          (walk_variant visit xgmi name dev v c subs s)
          (walk_variant visit' xgmi' name dev v c subs t)
  unfolding walk_variant
  variant-Both k name dev v c [] s t r = done-Both (R k) _ _ (visits k _ s t r)
  variant-Both k name dev v c (sub ∷ subs) s t r =
      subvariants-Both k name dev v c (sub ∷ subs) s t r

  variants-Both :
      (k : ℕ) (name : Text) (dev : ℕ) (c : Bool) (vs : List Variant) (s : S) (t : T)
      → R k s t
      → Both
          (Outcome (R k))
          (walk_variants visit xgmi name dev c vs s)
          (walk_variants visit' xgmi' name dev c vs t)
  unfolding walk_variants
  variants-Both k name dev c [] s t r = closed-Both (R k) c s t r
  variants-Both k name dev c (v ∷ vs) s t r =
      proceed-Both (R k) (R k) _ _ _ _
        (variant-Both k name dev v.id v.subvariants_close v.subvariants s t r)
        (λ s' t' r'. variants-Both k name dev c vs s' t' r')

  function-Both :
      (k : ℕ) (name : Text) (dev : ℕ) (c : Bool) (vs : List Variant) (s : S) (t : T)
      → R k s t
      → Both
          (Outcome (R k))
          (walk_function visit xgmi name dev c vs s)
          (walk_function visit' xgmi' name dev c vs t)
  unfolding walk_function
  function-Both k name dev c [] s t r = done-Both (R k) _ _ (visits k _ s t r)
  function-Both k name dev c (v ∷ vs) s t r = variants-Both k name dev c (v ∷ vs) s t r

  functions-Both :
      (k dev : ℕ) (c : Bool) (gs : List Supported) (s : S) (t : T)
      → R k s t
      → Both
          (Outcome (R k))
          (walk_functions visit xgmi dev c gs s)
          (walk_functions visit' xgmi' dev c gs t)
  unfolding walk_functions
  functions-Both k dev c [] s t r = closed-Both (R k) c s t r
  functions-Both k dev c (g ∷ gs) s t r =
      proceed-Both (R k) (R k) _ _ _ _
        (function-Both k g.name dev g.variants_close g.variants s t r)
        (λ s' t' r'. functions-Both k dev c gs s' t' r')

  -- The level of a relation, rewritten.
  level :
      (k k' : ℕ) (run : Run (Bool × S)) (run' : Run (Bool × T))
      → k ≡ k'
      → Both (Outcome (R k)) run run'
      → Both (Outcome (R k')) run run'
  level k k' run run' e b = rw e at b

  device-Both :
      (k dev : ℕ) (o : Option Listing) (s : S) (t : T)
      → R k s t
      → Both
          (Outcome (R (k + listed o (more dev))))
          (walk_device visit xgmi dev o s)
          (walk_device visit' xgmi' dev o t)
  unfolding walk_device listed
  device-Both k dev none s t r = level k (k + 0) _ _ (omega arith) (closed-Both (R k) true s t r)
  device-Both k dev (some listing) s t r =
      proceed-Both (R k) (R (k + more dev)) _ _ _ _
        (functions-Both k dev listing.functions_close (listing.first ∷ listing.others) s t r)
        (λ s' t' r'. done-Both (R (k + more dev)) _ _ (ends k dev s' t' r'))

  -- The devices from `dev` on add up.
  pub devices-Both :
      (m : Catalog) (left k dev : ℕ) (s : S) (t : T)
      → R k s t
      → Both
          (Outcome (R (k + added m more left dev)))
          (walk_devices visit xgmi m left dev s)
          (walk_devices visit' xgmi' m left dev t)
  unfolding walk_devices added
  devices-Both m zero k dev s t r = level k (k + 0) _ _ (omega arith) (closed-Both (R k) true s t r)
  devices-Both m (suc left) k dev s t r =
      let n = listed (m.listing dev) (more dev) in
      level (k + n + added m more left (dev + 1)) (k + (n + added m more left (dev + 1))) _ _
        (omega arith)
        (proceed-Both (R (k + n)) (R (k + n + added m more left (dev + 1))) _ _ _ _
          (device-Both k dev (m.listing dev) s t r)
          (λ s' t' r'. devices-Both m left (k + n) (dev + 1) s' t' r'))
