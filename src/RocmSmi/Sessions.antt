-- ===== src/RocmSmi/Sessions.antt =====
-- A measurement of one thread, from _rocm_smi_start to _rocm_smi_stop
-- (patches/rocm_smi/linux-rocm-smi.c).
use scorep_amd.Common.{
  ℕ, ◌≡◌, refl, sym, ◌∙◌, ap, Bool, true, false, ◌||◌, ◌&&◌, not, List, ◌++◌, if◌then◌else◌,
}
use mathlib.Core.Path.{subst}
use mathlib.Core.List.{append_assoc}
use scorep_amd.Common.Run.{ok, ◌>>=◌, Returns}
use scorep_amd.Rocs.Masks.{has}
use scorep_amd.Rocs.Devices.{AreEvents, uses}
use scorep_amd.Rocs.Contexts.Loops.{KeepsDevice, Works, made, AreEvents-same}
use scorep_amd.Rocs.Contexts.Failures.{rocs_ctx_start-stops_failed, rocs_ctx_open-Opened}
use scorep_amd.Rocs.Contexts.Closing.{rocs_ctx_close-Closes}
use scorep_amd.Rocs.Contexts.Stopping.{rocs_ctx_stop-Stopped}
use scorep_amd.Rocs.Contexts.{
  Ctx, Pointer, null, live, CtxMemory, is_ok, rocs_ctx_open, rocs_ctx_start, rocs_ctx_stop,
  rocs_ctx_close,
}
use scorep_amd.Rocs.{
  PapiErrno, papi_ok, open_func, start_func, stop_func, close_func, Function, Functions, Rocs,
}
use scorep_amd.RocmSmi.{
  Session, deref, rocm_smi_start, open_outcome, start_outcome, rocm_smi_stop, stop_outcome,
  stop_closed,
}

-- The calls of one measurement: each event is opened, started, stopped and closed.
pub measured : List ℕ → List (Function × ℕ)
measured ids =
    made open_func ids ++ (made start_func ids ++ (made stop_func ids ++ made close_func ids))

branch : {R : Type 0} (a b : Bool) (x y : R) → a ≡ b → (if a then x else y) ≡ (if b then x else y)
branch a b x y h = rw h refl

restored_bit : (t u : Bool) → (u ≡ true → t ≡ false) → ((t || u) && not u) ≡ t
restored_bit true true h = sym (h refl)
restored_bit true false h = refl
restored_bit false true h = refl
restored_bit false false h = refl

or_right : (a b : Bool) → b ≡ true → (a || b) ≡ true
or_right true b h = refl
or_right false b h = h

append_four :
    {A : Type 0} (l a b c d x y z w : List A)
    → x ≡ l ++ a
    → y ≡ x ++ b
    → z ≡ y ++ c
    → w ≡ z ++ d
    → w ≡ l ++ (a ++ (b ++ (c ++ d)))
append_four l a b c d x y z w e f g h = h ∙ rw (g, f, e) (simp append_assoc)

module _ {σ : Type 0} where
  start_run :
      (mem : CtxMemory) (lib : Functions σ) (t : Session σ) (e e' : PapiErrno) (ctx ctx' : Ctx)
      (s s' : Rocs σ)
      → t.opened ≡ false
      → rocs_ctx_open mem lib t.events_id t.rocs_ctx t.rocs ≡ ok (e, live ctx, s)
      → is_ok e ≡ true
      → rocs_ctx_start lib ctx s ≡ ok (e', ctx', s')
      → is_ok e' ≡ true
      → rocm_smi_start mem lib t
        ≡ ok (papi_ok, record t { opened = true; running = true; rocs_ctx = live ctx'; rocs = s' })
  unfolding rocm_smi_start open_outcome start_outcome deref
  start_run mem lib t e e' ctx ctx' s s' closed run good run' good' =
      branch t.opened false _ _ closed ∙ rw (run, ◌>>=◌, good, run', good') refl

  stop_run :
      (lib : Functions σ) (t : Session σ) (e : PapiErrno) (ctx ctx' : Ctx) (s s' : Rocs σ)
      (p : Pointer)
      → t.running ≡ true
      → t.rocs_ctx ≡ live ctx
      → rocs_ctx_stop lib ctx t.rocs ≡ ok (e, ctx', s)
      → is_ok e ≡ true
      → rocs_ctx_close lib ctx' s ≡ ok (papi_ok, p, s')
      → rocm_smi_stop lib t
        ≡ ok (papi_ok, record t { opened = false; running = false; rocs_ctx = null; rocs = s' })
  unfolding rocm_smi_stop stop_outcome stop_closed deref
  stop_run lib t e ctx ctx' s s' p on at run good run' =
      branch t.running true _ _ on
      ∙ ap (λ x. deref x >>= λ c. rocs_ctx_stop lib c t.rocs >>= stop_outcome lib t) at
      ∙ rw (run, ◌>>=◌, good, run') refl

  -- What a measurement leaves of a session.
  pub record Restored (t : Session σ) (r : PapiErrno × Session σ) : Type 0 where
    pub done : r.0 ≡ papi_ok
    pub idle : (r.1.opened ≡ false) × (r.1.running ≡ false) × (r.1.rocs_ctx ≡ null)
    pub mask : (q : ℕ) → has r.1.rocs.device_mask q ≡ has t.rocs.device_mask q
    pub log : r.1.rocs.calls ≡ t.rocs.calls ++ measured t.events_id

  -- A measurement of a thread whose event set is closed, on events of the table with free devices:
  -- where no function of an event fails and the memory can be had, `_rocm_smi_start` and then
  -- `_rocm_smi_stop` succeed without undefined behaviour. Each event is opened, started, stopped and
  -- closed, in this order of the phases; the session is closed again without a context, and the
  -- devices in use are those of before.
  pub rocm_smi_start-Restored :
      (mem : CtxMemory) (lib : Functions σ) (t : Session σ)
      → KeepsDevice lib
      → Works lib
      → AreEvents t.rocs.events t.events_id
      → mem.ctx ≡ true
      → mem.counters ≡ true
      → ((d : ℕ) → uses t.rocs.events t.events_id d ≡ true → has t.rocs.device_mask d ≡ false)
      → t.opened ≡ false
      → Returns (do first ← rocm_smi_start mem lib t; rocm_smi_stop lib first.1) (Restored t)
  unfolding measured
  rocm_smi_start-Restored mem lib t keeps w h m₁ m₂ free closed =
      let ids = t.events_id in
      let ((e, p, s₁), run, o) =
        rocs_ctx_open-Opened mem lib ids t.rocs_ctx t.rocs keeps h m₁ m₂ free in
      let (ctx, ptr, its, is_open, is_idle, own, log₁) = o.well (o.works w) in
      let h₁ = AreEvents-same t.rocs.events s₁.events ids o.same h in
      let h₁' = subst (AreEvents s₁.events) (sym its) h₁ in
      let ((e₂, ctx₂, s₂), run₂, st) =
        rocs_ctx_start-stops_failed lib ctx s₁ keeps h₁' is_open is_idle in
      let (same₂, a₂) = st.well (st.works w) in
      let c₂ = record ctx { running = true } in
      let h₂ = AreEvents-same s₁.events s₂.events ctx.events_id a₂.same h₁' in
      let ((e₃, ctx₃, s₃), run₃, sp) = rocs_ctx_stop-Stopped lib c₂ s₂ keeps h₂ is_open refl in
      let (same₃, a₃) = sp.well (sp.works w) in
      let c₃ = record ctx { running = false } in
      let h₃ = AreEvents-same s₂.events s₃.events ctx.events_id a₃.same h₂ in
      let masks : (q : ℕ)
          → has s₃.device_mask q ≡ (has t.rocs.device_mask q || uses t.rocs.events ids q) =
        λ q. ap (λ m. has m q) (a₃.mask ∙ a₂.mask) ∙ o.mask q in
      let ((e₄, p₄, s₄), run₄, cl) = rocs_ctx_close-Closes lib c₃ s₃ keeps h₃ (λ q b.
        masks q
        ∙ or_right (has t.rocs.device_mask q) (uses t.rocs.events ids q) (sym (own q) ∙ b)) in
      let started =
        start_run mem lib t e e₂ ctx c₂ s₁ s₂ closed (run ∙ ap (λ x. ok (e, x, s₁)) ptr) (o.works w)
          (run₂ ∙ ap (λ x. ok (e₂, x, s₂)) same₂) (st.works w) in
      let t' = record t { opened = true; running = true; rocs_ctx = live c₂; rocs = s₂ } in
      let stopped =
        stop_run lib t' e₃ c₂ c₃ s₃ s₄ p₄ refl refl (run₃ ∙ ap (λ x. ok (e₃, x, s₃)) same₃)
          (sp.works w) (run₄ ∙ ap (λ x. ok (x, p₄, s₄)) (cl.works w)) in
      (
        (papi_ok, record t { opened = false; running = false; rocs_ctx = null; rocs = s₄ }),
        rw (started, ◌>>=◌) stopped,
        record {
          done = refl;
          idle = (refl, refl, refl);
          mask = λ q.
              cl.released (cl.works w) q
              ∙ ap (λ x. x && not (has ctx.device_mask q)) (masks q)
              ∙ ap (λ x. (has t.rocs.device_mask q || uses t.rocs.events ids q) && not x) (own q)
              ∙ restored_bit (has t.rocs.device_mask q) (uses t.rocs.events ids q) (free q);
          log =
              append_four t.rocs.calls (made open_func ids) (made start_func ids)
                (made stop_func ids) (made close_func ids) s₁.calls s₂.calls s₃.calls s₄.calls log₁
                (a₂.log ∙ ap (λ x. s₁.calls ++ made start_func x) its)
                (a₃.log ∙ ap (λ x. s₂.calls ++ made stop_func x) its)
                (cl.log (cl.works w) ∙ ap (λ x. s₃.calls ++ made close_func x) its);
        },
      )
