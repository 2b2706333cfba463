-- ===== src/Rocs/Contexts/Closing.antt =====
-- What rocs_ctx_close of patches/rocm_smi/rocs.c does, whatever fails.
use scorep_amd.Common.{
  ◌++◌, true_ne_false, ℕ, ◌≡◌, refl, sym, ◌∙◌, ap, true, false, ◌&&◌, not, Bool-cases, inl, inr,
  ◌⊎◌,
}
use scorep_amd.Common.Run.{ok, Returns}
use scorep_amd.Rocs.Masks.{has}
use scorep_amd.Rocs.Devices.{AreEvents, release_devices, release_devices-has}
use scorep_amd.Rocs.Contexts.Loops.{Works, made, KeepsDevice, SameDevices, call_all-Called}
use scorep_amd.Rocs.Contexts.{
  Ctx, Pointer, freed, live, is_ok, call_all, close_result, rocs_ctx_close,
}
use scorep_amd.Rocs.{PapiErrno, papi_ok, close_func, Functions, Rocs, Mask}

module _ {σ : Type 0} where
  -- What closing does with a context whose devices are in use.
  pub record Closes (lib : Functions σ) (ctx : Ctx) (s : Rocs σ) (r : PapiErrno × Pointer × Rocs σ)
      : Type 0 where
    pub works : Works lib → r.0 ≡ papi_ok
    pub log : r.0 ≡ papi_ok → r.2.calls ≡ s.calls ++ made close_func ctx.events_id
    pub released :
        r.0 ≡ papi_ok
        → (q : ℕ) → has r.2.device_mask q ≡ (has s.device_mask q && not (has ctx.device_mask q))
    pub same : SameDevices s.events r.2.events
    pub outcome :
        ((r.1 ≡ freed)
          × ((q : ℕ)
              → has r.2.device_mask q ≡ (has s.device_mask q && not (has ctx.device_mask q))))
        ⊎ ((r.1 ≡ live ctx) × (r.2.device_mask ≡ s.device_mask))

  close_run :
      (lib : Functions σ) (ctx : Ctx) (s : Rocs σ) (r : PapiErrno × ℕ × Rocs σ)
      → call_all lib close_func ctx.events_id s ≡ ok r
      → rocs_ctx_close lib ctx s ≡ ok (close_result ctx r)
  unfolding rocs_ctx_close
  close_run lib ctx s r run = rw (rocs_ctx_close, run) refl

  close_well :
      (ctx : Ctx) (e : PapiErrno) (i : ℕ) (s s' : Rocs σ) (m : Mask)
      → is_ok e ≡ true
      → release_devices ctx.device_mask s ≡ (papi_ok, s', m)
      → close_result ctx (e, i, s) ≡ (papi_ok, freed, s')
  unfolding close_result
  close_well ctx e i s s' m good rel = rw (close_result, good, rel) refl

  close_failed :
      (ctx : Ctx) (e : PapiErrno) (i : ℕ) (s : Rocs σ)
      → is_ok e ≡ false
      → close_result ctx (e, i, s) ≡ (e, live ctx, s)
  unfolding close_result
  close_failed ctx e i s bad = rw (close_result, bad) refl

  pub rocs_ctx_close-Closes :
      (lib : Functions σ) (ctx : Ctx) (s : Rocs σ)
      → KeepsDevice lib
      → AreEvents s.events ctx.events_id
      → ((q : ℕ) → has ctx.device_mask q ≡ true → has s.device_mask q ≡ true)
      → Returns (rocs_ctx_close lib ctx s) (Closes lib ctx s)
  unfolding is_ok
  rocs_ctx_close-Closes lib ctx s keeps h own =
      let ((e, i, s'), run, c) = call_all-Called lib close_func ctx.events_id s keeps h in
      elim (Bool-cases (is_ok e)) [
        | inl good ↦
            let (n, a) = c.well good in
            let (rel, bits) =
              (release_devices-has ctx.device_mask s').0
                (λ q b. ap (λ m. has m q) a.mask ∙ own q b) in
            (
              _,
              close_run lib ctx s (e, i, s') run ∙ ap ok (close_well ctx e i s' _ _ good rel),
              record {
                works = λ w. refl;
                log = λ g. a.log;
                released =
                    λ g q. (bits q).1 ∙ ap (λ m. has m q && not (has ctx.device_mask q)) a.mask;
                same = a.same;
                outcome = inl (
                  refl,
                  λ q. (bits q).1 ∙ ap (λ m. has m q && not (has ctx.device_mask q)) a.mask,
                );
              },
            )
        | inr bad ↦
            let (id, at, a) = c.failed bad in
            (
              (e, live ctx, s'),
              close_run lib ctx s (e, i, s') run ∙ ap ok (close_failed ctx e i s' bad),
              record {
                works = λ w. absurd (true_ne_false (sym (c.works w) ∙ bad));
                log = λ g. absurd (true_ne_false (ap is_ok (sym g) ∙ bad));
                released = λ g. absurd (true_ne_false (ap is_ok (sym g) ∙ bad));
                same = a.same;
                outcome = inr (refl, a.mask);
              },
            )
      ]
