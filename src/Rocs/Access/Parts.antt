-- ===== src/Rocs/Access/Parts.antt =====
-- What the common parts of the access functions leave alone (patches/rocm_smi/rocs.c).
use scorep_amd.Common.{
  ℕ, zero, suc, ◌≡◌, refl, Bool, true, false, Option, none, some, if◌then◌else◌,
}
use scorep_amd.Rocs.Library.{Rsmi}
use scorep_amd.Rocs.Access.{
  Result, same_mode, only, allows, got_value, did_set, read_only, unsupported, Kept, did_set-Kept,
  read_write, write_only, pick_three, pick_two,
}
use scorep_amd.Rocs.{
  PapiErrno, papi_emisc, papi_enosupp, AccessMode, mode_read, mode_write, mode_rdwr, NtvEvent,
}

module _ {σ : Type 0} where
  -- Of the fields that matter to contexts, and in a read of the state behind the library, nothing
  -- changes.
  pub record Harmless (mode : AccessMode) (ev : NtvEvent) (s : σ) (r : Result σ) : Type 0 where
    pub kept : Kept ev r
    pub state : mode ≡ mode_read → r.2 ≡ s

  pub got_value-Harmless :
      (mode : AccessMode) (ev : NtvEvent) (s : σ) (o : Option ℕ)
      → Harmless mode ev s (got_value ev s o)
  unfolding got_value
  got_value-Harmless mode ev s none = record {
    kept = record { device = refl; id = refl; mode = refl };
    state = λ e. refl;
  }
  got_value-Harmless mode ev s (some v) = record {
    kept = record { device = refl; id = refl; mode = refl };
    state = λ e. refl;
  }

  pub same-Harmless :
      (mode : AccessMode) (ev : NtvEvent) (s : σ) (e : PapiErrno) → Harmless mode ev s (e, ev, s)
  same-Harmless mode ev s e = record {
    kept = record { device = refl; id = refl; mode = refl };
    state = λ e. refl;
  }

  pub unsupported-Harmless :
      (lib : Rsmi σ) (mode : AccessMode) (ev : NtvEvent) (s : σ)
      → Harmless mode ev s (unsupported lib ev s)
  unfolding unsupported
  unsupported-Harmless lib mode ev s = record {
    kept = record { device = refl; id = refl; mode = refl };
    state = λ e. refl;
  }

  pub if-Harmless :
      (mode : AccessMode) (ev : NtvEvent) (s : σ) (b : Bool) (r r' : Result σ)
      → Harmless mode ev s r
      → Harmless mode ev s r'
      → Harmless mode ev s (if b then r else r')
  if-Harmless mode ev s true r r' h h' = h
  if-Harmless mode ev s false r r' h h' = h'

  pub read_only-Harmless :
      (mode : AccessMode) (ev : NtvEvent) (s : σ) (o : Option ℕ)
      → Harmless mode ev s (read_only mode ev s o)
  unfolding read_only
  read_only-Harmless mode ev s o =
      if-Harmless mode ev s (only mode_read mode ev.mode) _ _ (got_value-Harmless mode ev s o)
        (same-Harmless mode ev s papi_enosupp)

  -- A call that sets something is made in a mode other than reading.
  not_read :
      (mode : AccessMode) (ev : NtvEvent) (s : σ) (o : Option σ)
      → (mode ≡ mode_read → ⊥)
      → Harmless mode ev s (did_set ev s o)
  not_read mode ev s o h = record { kept = did_set-Kept ev s o; state = λ e. absurd (h e) }

  pub read_write-Harmless :
      (lib : Rsmi σ) (mode : AccessMode) (ev : NtvEvent) (s : σ) (o : Option ℕ) (o' : Option σ)
      → Harmless mode ev s (read_write lib mode ev s o o')
  unfolding read_write same_mode
  read_write-Harmless lib mode_read ev s o o' =
      if-Harmless mode_read ev s (allows mode_read ev.mode) _ _
        (got_value-Harmless mode_read ev s o) (unsupported-Harmless lib mode_read ev s)
  read_write-Harmless lib mode_write ev s o o' =
      if-Harmless mode_write ev s (allows mode_write ev.mode) _ _
        (not_read mode_write ev s o' (λ e. cc)) (unsupported-Harmless lib mode_write ev s)
  read_write-Harmless lib mode_rdwr ev s o o' =
      if-Harmless mode_rdwr ev s (allows mode_rdwr ev.mode) _ _
        (not_read mode_rdwr ev s o' (λ e. cc)) (unsupported-Harmless lib mode_rdwr ev s)

  pub write_only-Harmless :
      (lib : Rsmi σ) (mode : AccessMode) (ev : NtvEvent) (s : σ) (o : Option σ)
      → Harmless mode ev s (write_only lib mode ev s o)
  unfolding write_only only same_mode
  write_only-Harmless lib mode_read ev s o = unsupported-Harmless lib mode_read ev s
  write_only-Harmless lib mode_write ev s o =
      if-Harmless mode_write ev s (same_mode mode_write ev.mode) _ _
        (not_read mode_write ev s o (λ e. cc)) (unsupported-Harmless lib mode_write ev s)
  write_only-Harmless lib mode_rdwr ev s o = unsupported-Harmless lib mode_rdwr ev s

  pub pick_three-Harmless :
      (mode : AccessMode) (e : PapiErrno) (ev : NtvEvent) (s : σ) (v : ℕ) (o : Option (ℕ × ℕ × ℕ))
      → Harmless mode ev s (pick_three e ev s v o)
  unfolding pick_three got_value
  pick_three-Harmless mode e ev s v none = same-Harmless mode ev s papi_emisc
  pick_three-Harmless mode e ev s zero (some (a, b, c)) = got_value-Harmless mode ev s (some a)
  pick_three-Harmless mode e ev s (suc zero) (some (a, b, c)) =
      got_value-Harmless mode ev s (some b)
  pick_three-Harmless mode e ev s (suc (suc zero)) (some (a, b, c)) =
      got_value-Harmless mode ev s (some c)
  pick_three-Harmless mode e ev s (suc (suc (suc v))) (some (a, b, c)) = same-Harmless mode ev s e

  pub pick_two-Harmless :
      (mode : AccessMode) (e : PapiErrno) (ev : NtvEvent) (s : σ) (v : ℕ) (o : Option (ℕ × ℕ))
      → Harmless mode ev s (pick_two e ev s v o)
  unfolding pick_two got_value
  pick_two-Harmless mode e ev s v none = same-Harmless mode ev s papi_emisc
  pick_two-Harmless mode e ev s zero (some (a, b)) = got_value-Harmless mode ev s (some a)
  pick_two-Harmless mode e ev s (suc zero) (some (a, b)) = got_value-Harmless mode ev s (some b)
  pick_two-Harmless mode e ev s (suc (suc v)) (some (a, b)) = same-Harmless mode ev s e
