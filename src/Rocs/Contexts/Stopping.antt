-- ===== src/Rocs/Contexts/Stopping.antt =====
-- What rocs_ctx_stop of patches/rocm_smi/rocs.c does.
use scorep_amd.Common.{
  ℕ, ◌≡◌, refl, sym, ◌∙◌, ap, Bool, true, false, if◌then◌else◌, Bool-cases, true_ne_false, inl, inr,
}
use scorep_amd.Common.Run.{ok, Returns}
use scorep_amd.Rocs.Devices.{AreEvents}
use scorep_amd.Rocs.Contexts.Loops.{KeepsDevice, Works, made, After, call_all-Called}
use scorep_amd.Rocs.Contexts.{Ctx, is_ok, call_all, stop_result, rocs_ctx_stop}
use scorep_amd.Rocs.{PapiErrno, papi_ok, stop_func, Functions, Rocs}

busy_branch :
    {R : Type 0} (a b : Bool) (x y z : R)
    → a ≡ true
    → b ≡ true
    → (if a then (if b then x else y) else z) ≡ x
busy_branch a b x y z h k = rw (h, k) refl

module _ {σ : Type 0} where
  pub record Stopped (lib : Functions σ) (ctx : Ctx) (s : Rocs σ) (r : PapiErrno × Ctx × Rocs σ)
      : Type 0 where
    pub works : Works lib → is_ok r.0 ≡ true
    pub well :
        is_ok r.0 ≡ true
        → (r.1 ≡ record ctx { running = false }) × After s (made stop_func ctx.events_id) r.2
    pub failed : is_ok r.0 ≡ false → r.1 ≡ ctx

  stop_run :
      (lib : Functions σ) (ctx : Ctx) (s : Rocs σ) (r : PapiErrno × ℕ × Rocs σ)
      → ctx.opened ≡ true
      → ctx.running ≡ true
      → call_all lib stop_func ctx.events_id s ≡ ok r
      → rocs_ctx_stop lib ctx s ≡ ok (stop_result ctx r)
  unfolding rocs_ctx_stop
  stop_run lib ctx s r opened running run =
      busy_branch ctx.opened ctx.running _ _ _ opened running ∙ rw run refl

  stop_well :
      (ctx : Ctx) (e : PapiErrno) (i : ℕ) (s : Rocs σ)
      → is_ok e ≡ true
      → stop_result ctx (e, i, s) ≡ (papi_ok, record ctx { running = false }, s)
  unfolding stop_result
  stop_well ctx e i s good = rw (stop_result, good) refl

  stop_failed :
      (ctx : Ctx) (e : PapiErrno) (i : ℕ) (s : Rocs σ)
      → is_ok e ≡ false
      → stop_result ctx (e, i, s) ≡ (e, ctx, s)
  unfolding stop_result
  stop_failed ctx e i s bad = rw (stop_result, bad) refl

  pub rocs_ctx_stop-Stopped :
      (lib : Functions σ) (ctx : Ctx) (s : Rocs σ)
      → KeepsDevice lib
      → AreEvents s.events ctx.events_id
      → ctx.opened ≡ true
      → ctx.running ≡ true
      → Returns (rocs_ctx_stop lib ctx s) (Stopped lib ctx s)
  unfolding is_ok
  rocs_ctx_stop-Stopped lib ctx s keeps h opened running =
      let ((e, i, s'), run, c) = call_all-Called lib stop_func ctx.events_id s keeps h in
      let end = stop_run lib ctx s (e, i, s') opened running run in
      elim (Bool-cases (is_ok e)) [
        | inl good ↦ (
          (papi_ok, record ctx { running = false }, s'),
          end ∙ ap ok (stop_well ctx e i s' good),
          record {
            works = λ w. refl;
            well = λ g. (refl, (c.well good).1);
            failed = λ g. absurd (true_ne_false g);
          },
        )
        | inr bad ↦ (
          (e, ctx, s'),
          end ∙ ap ok (stop_failed ctx e i s' bad),
          record {
            works = c.works;
            well = λ g. absurd (true_ne_false (sym g ∙ bad));
            failed = λ g. refl;
          },
        )
      ]
