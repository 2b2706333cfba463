-- ===== src/RocmSmi/Reopening.antt =====
-- A second start after one that failed (patches/rocm_smi/linux-rocm-smi.c with rocs.c).
use scorep_amd.Common.{
  ℕ, ◌≡◌, refl, sym, ◌∙◌, ap, Bool, true, false, ◌||◌, ◌&&◌, List, if◌then◌else◌, true_ne_false,
  inl, inr,
}
use mathlib.Core.Path.{subst}
use scorep_amd.Common.Run.{ok, fault, ◌>>=◌, double_free, ok-injective}
use scorep_amd.Rocs.Masks.{has}
use scorep_amd.Rocs.Devices.{AreEvents, uses, acquire_devices-exclusive}
use scorep_amd.Rocs.Contexts.Loops.{KeepsDevice, uses-same, AreEvents-same}
use scorep_amd.Rocs.Contexts.Failures.{Opened, rocs_ctx_open-Opened}
use scorep_amd.Rocs.Contexts.{Pointer, freed, CtxMemory, is_ok, rocs_ctx_open, rocs_ctx_open_freed}
use scorep_amd.Rocs.{PapiErrno, Functions, Rocs}
use scorep_amd.RocmSmi.{Session, rocm_smi_start, open_outcome}

both_hold : (a b : Bool) → a ≡ true → b ≡ true → (a && b) ≡ true
both_hold a b h k = rw (h, k) refl

or_true : (a b : Bool) → b ≡ true → (a || b) ≡ true
or_true true b h = refl
or_true false b h = h

false_branch : {R : Type 0} (a : Bool) (x y : R) → a ≡ false → (if a then x else y) ≡ y
false_branch a x y h = rw h refl

module _ {σ : Type 0} where
  open_failed_run :
      (mem : CtxMemory) (lib : Functions σ) (t : Session σ) (e : PapiErrno) (p : Pointer)
      (s : Rocs σ)
      → t.opened ≡ false
      → rocs_ctx_open mem lib t.events_id t.rocs_ctx t.rocs ≡ ok (e, p, s)
      → is_ok e ≡ false
      → rocm_smi_start mem lib t ≡ ok (e, record t { rocs_ctx = p; rocs = s })
  unfolding rocm_smi_start open_outcome
  open_failed_run mem lib t e p s closed run bad =
      false_branch t.opened _ _ closed ∙ rw (run, ◌>>=◌, bad) refl

  -- One device is in use, and the pointer is dangling.
  conflict_faults :
      (mem : CtxMemory) (lib : Functions σ) (ids : List ℕ) (s : Rocs σ) (q : ℕ)
      → AreEvents s.events ids
      → uses s.events ids q ≡ true
      → has s.device_mask q ≡ true
      → rocs_ctx_open mem lib ids freed s ≡ fault double_free
  conflict_faults mem lib ids s q h wanted taken =
      let (acq, run, o) = acquire_devices-exclusive ids s h in
      elim o [
        | inl got ↦ absurd (
            true_ne_false (
              sym (both_hold (has got.acq q) (has s.device_mask q) (got.used q ∙ wanted) taken)
              ∙ got.free q))
        | inr refused ↦ rocs_ctx_open_freed mem lib ids s (run ∙ ap ok refused.result)
      ]

  start_faults :
      (mem : CtxMemory) (lib : Functions σ) (t : Session σ)
      → t.opened ≡ false
      → rocs_ctx_open mem lib t.events_id t.rocs_ctx t.rocs ≡ fault double_free
      → rocm_smi_start mem lib t ≡ fault double_free
  unfolding rocm_smi_start
  start_faults mem lib t closed run = false_branch t.opened _ _ closed ∙ rw run refl

  -- If `_rocm_smi_start` fails because one of the events cannot be opened, where the devices of the
  -- events were free and the memory could be had, and one of the events is on a device, then the
  -- next `_rocm_smi_start` frees the context a second time, whatever it meets.
  pub rocm_smi_start-twice :
      (mem mem' : CtxMemory) (lib lib' : Functions σ) (t : Session σ) (q : ℕ)
      (r : PapiErrno × Pointer × Rocs σ)
      → KeepsDevice lib
      → AreEvents t.rocs.events t.events_id
      → mem.ctx ≡ true
      → mem.counters ≡ true
      → ((d : ℕ) → uses t.rocs.events t.events_id d ≡ true → has t.rocs.device_mask d ≡ false)
      → t.opened ≡ false
      → uses t.rocs.events t.events_id q ≡ true
      → rocs_ctx_open mem lib t.events_id t.rocs_ctx t.rocs ≡ ok r
      → is_ok r.0 ≡ false
      → (do first ← rocm_smi_start mem lib t; rocm_smi_start mem' lib' first.1) ≡ fault double_free
  rocm_smi_start-twice mem mem' lib lib' t q r keeps h m₁ m₂ free closed used run bad =
      let ids = t.events_id in
      let ((e, p, s), run', o') =
        rocs_ctx_open-Opened mem lib ids t.rocs_ctx t.rocs keeps h m₁ m₂ free in
      let o : Opened lib t.rocs ids r =
        subst (Opened lib t.rocs ids) (ok-injective (e, p, s) r (sym run' ∙ run)) o' in
      let dangling : r.1 ≡ freed = (o.failed bad).3 in
      let t' = record t { rocs_ctx = freed; rocs = r.2 } in
      let again =
        conflict_faults mem' lib' ids r.2 q (AreEvents-same t.rocs.events r.2.events ids o.same h)
          (uses-same t.rocs.events r.2.events ids q o.same h ∙ used)
          (o.mask q ∙ or_true (has t.rocs.device_mask q) (uses t.rocs.events ids q) used) in
      rw
        (
          open_failed_run mem lib t r.0 r.1 r.2 closed run bad,
          ◌>>=◌,
          dangling,
          start_faults mem' lib' t' closed again,
        )
        refl
