-- ===== src/Rocs/Contexts/Failures.antt =====
-- What a context leaves when one of its events fails to open or to start (patches/rocm_smi/rocs.c).
use scorep_amd.Common.{
  ℕ, Bool, length, ◌≡◌, refl, sym, ◌∙◌, ap, true, false, ◌||◌, some, List, [], ◌∷◌, ◌++◌,
  if◌then◌else◌, take, replicate, get_elem?, Bool-cases, true_ne_false, inl, inr,
}
use scorep_amd.Common.Run.{ok, Returns}
use scorep_amd.Rocs.Masks.{mask_or, has, or-has}
use scorep_amd.Rocs.Devices.{AreEvents, uses, acquire_devices, acquire_devices-exclusive}
use scorep_amd.Rocs.Contexts.Loops.{
  KeepsDevice, SameDevices, Works, made, After, After-trans, call_all-Called, call_each-After,
  AreEvents-same, AreEvents-take, AreEvents-replicate,
}
use scorep_amd.Rocs.Contexts.{
  Ctx, Pointer, freed, live, CtxMemory, is_ok, call_all, call_each, open_result, open_acquired,
  rocs_ctx_open, start_result, rocs_ctx_start,
}
use scorep_amd.Rocs.{
  PapiErrno, papi_ok, open_func, close_func, start_func, stop_func, Functions, Rocs, Mask,
}

idle_branch :
    {R : Type 0} (a b : Bool) (x y z : R)
    → a ≡ true
    → b ≡ false
    → (if a then (if b then x else y) else z) ≡ y
idle_branch a b x y z h k = rw (h, k) refl

module _ {σ : Type 0} where
  -- Starting a context.
  pub record Started (lib : Functions σ) (ctx : Ctx) (s : Rocs σ) (r : PapiErrno × Ctx × Rocs σ)
      : Type 0 where
    pub works : Works lib → is_ok r.0 ≡ true
    pub well :
        is_ok r.0 ≡ true
        → (r.1 ≡ record ctx { running = true }) × After s (made start_func ctx.events_id) r.2
    pub failed :
        is_ok r.0 ≡ false
        → (i : ℕ) × (id : ℕ) × (get_elem? ctx.events_id i ≡ some id)
          × (r.1 ≡ ctx)
          × After s
              (made start_func (take i ctx.events_id ++ id ∷ []) ++ made stop_func (replicate i id))
              r.2

  start_failed :
      (lib : Functions σ) (ctx : Ctx) (s s' s'' : Rocs σ) (e : PapiErrno) (i id : ℕ)
      → is_ok e ≡ false
      → get_elem? ctx.events_id i ≡ some id
      → call_each lib stop_func (replicate i id) s' ≡ ok s''
      → start_result lib ctx (e, i, s') ≡ ok (e, ctx, s'')
  unfolding start_result
  start_failed lib ctx s s' s'' e i id bad at run = rw (start_result, bad) (rw (at, run) refl)

  start_run :
      (lib : Functions σ) (ctx : Ctx) (s : Rocs σ) (r : PapiErrno × ℕ × Rocs σ)
      (r' : PapiErrno × Ctx × Rocs σ)
      → ctx.opened ≡ true
      → ctx.running ≡ false
      → call_all lib start_func ctx.events_id s ≡ ok r
      → start_result lib ctx r ≡ ok r'
      → rocs_ctx_start lib ctx s ≡ ok r'
  unfolding rocs_ctx_start
  start_run lib ctx s r r' opened idle run run' =
      idle_branch ctx.opened ctx.running _ _ _ opened idle ∙ rw run run'

  start_well :
      (lib : Functions σ) (ctx : Ctx) (s : Rocs σ) (e : PapiErrno) (i : ℕ)
      → is_ok e ≡ true
      → start_result lib ctx (e, i, s) ≡ ok (papi_ok, record ctx { running = true }, s)
  unfolding start_result
  start_well lib ctx s e i good = rw (start_result, good) refl

  -- Starting an open context that is not running, whose events are in the table: if all of its events
  -- start, it is running, and each was started once, in order. If one fails, the context is as it was,
  -- and the event that failed, not those that had been started, is stopped, once for each of those.
  pub rocs_ctx_start-stops_failed :
      (lib : Functions σ) (ctx : Ctx) (s : Rocs σ)
      → KeepsDevice lib
      → AreEvents s.events ctx.events_id
      → ctx.opened ≡ true
      → ctx.running ≡ false
      → Returns (rocs_ctx_start lib ctx s) (Started lib ctx s)
  unfolding is_ok
  rocs_ctx_start-stops_failed lib ctx s keeps h opened idle =
      let ((e, i, s'), run, c) = call_all-Called lib start_func ctx.events_id s keeps h in
      elim (Bool-cases (is_ok e)) [
        | inl good ↦ (
          (papi_ok, record ctx { running = true }, s'),
          start_run lib ctx s (e, i, s') _ opened idle run (start_well lib ctx s' e i good),
          record {
            works = λ w. refl;
            well = λ g. (refl, (c.well good).1);
            failed = λ g. absurd (true_ne_false g);
          },
        )
        | inr bad ↦
            let (id, at, a) = c.failed bad in
            let (s'', run', b) = call_each-After lib stop_func (replicate i id) s' keeps (
              AreEvents-replicate s'.events i i id ctx.events_id
                (AreEvents-same s.events s'.events ctx.events_id a.same h) at) in
            (
              (e, ctx, s''),
              start_run lib ctx s (e, i, s') _ opened idle run
                  (start_failed lib ctx s s' s'' e i id bad at run'),
              record {
                works = c.works;
                well = λ g. absurd (true_ne_false (sym g ∙ bad));
                failed = λ g. (i, id, at, refl, After-trans s s' s'' _ _ a b);
              },
            )
      ]

  -- Opening a context: what it leaves where the devices were free and all memory could be had.
  pub record Opened (lib : Functions σ) (s : Rocs σ) (ids : List ℕ)
      (r : PapiErrno × Pointer × Rocs σ) : Type 0 where
    pub same : SameDevices s.events r.2.events
    pub mask : (q : ℕ) → has r.2.device_mask q ≡ (has s.device_mask q || uses s.events ids q)
    pub works : Works lib → is_ok r.0 ≡ true
    pub well :
        is_ok r.0 ≡ true
        → (ctx : Ctx) × (r.1 ≡ live ctx)
          × (ctx.events_id ≡ ids)
          × (ctx.opened ≡ true)
          × (ctx.running ≡ false)
          × ((q : ℕ) → has ctx.device_mask q ≡ uses s.events ids q)
          × (r.2.calls ≡ s.calls ++ made open_func ids)
    pub failed :
        is_ok r.0 ≡ false
        → (i : ℕ) × (id : ℕ) × (get_elem? ids i ≡ some id)
          × (r.1 ≡ freed)
          × (r.2.calls
              ≡ s.calls ++ (made open_func (take i ids ++ id ∷ []) ++ made close_func (take i ids)))

  pub open_well :
      (lib : Functions σ) (ids : List ℕ) (m : Mask) (e : PapiErrno) (i : ℕ) (s : Rocs σ)
      → is_ok e ≡ true
      → (ctx : Ctx) × (open_result lib ids m (e, i, s) ≡ ok (papi_ok, live ctx, s))
        × (ctx.events_id ≡ ids)
        × (ctx.opened ≡ true)
        × (ctx.running ≡ false)
        × (ctx.device_mask ≡ m)
  unfolding open_result
  open_well lib ids m e i s good = (
    record {
      opened = true;
      running = false;
      events_id = ids;
      counters = replicate (length ids) 0;
      device_mask = m;
    },
    rw (open_result, good) refl,
    refl,
    refl,
    refl,
    refl,
  )

  pub open_failed :
      (lib : Functions σ) (ids : List ℕ) (m : Mask) (e : PapiErrno) (i : ℕ) (s s' : Rocs σ)
      → is_ok e ≡ false
      → call_each lib close_func (take i ids) s ≡ ok s'
      → open_result lib ids m (e, i, s) ≡ ok (e, freed, s')
  unfolding open_result
  open_failed lib ids m e i s s' bad run = rw (open_result, bad) (rw (run) refl)

  pub open_run :
      (mem : CtxMemory) (lib : Functions σ) (ids : List ℕ) (ptr : Pointer) (s s' : Rocs σ)
      (m : Mask) (r : PapiErrno × ℕ × Rocs σ) (r' : PapiErrno × Pointer × Rocs σ)
      → mem.ctx ≡ true
      → mem.counters ≡ true
      → acquire_devices ids s ≡ ok (papi_ok, s', some m)
      → call_all lib open_func ids s' ≡ ok r
      → open_result lib ids m r ≡ ok r'
      → rocs_ctx_open mem lib ids ptr s ≡ ok r'
  unfolding rocs_ctx_open open_acquired
  open_run mem lib ids ptr s s' m r r' m₁ m₂ acq run run' =
      rw (rocs_ctx_open, acq) (simp (m₁, m₂, run) run')

  -- Opening a context on events of the table whose devices are free, where the memory can be had, has
  -- no undefined behaviour. The devices of the events are in use afterwards, in every case. If all
  -- events open, the context is for them and has their devices. If one fails, the events that had
  -- been opened are closed, in the same order, the context is freed, and the caller's variable still
  -- points to it.
  pub rocs_ctx_open-Opened :
      (mem : CtxMemory) (lib : Functions σ) (ids : List ℕ) (ptr : Pointer) (s : Rocs σ)
      → KeepsDevice lib
      → AreEvents s.events ids
      → mem.ctx ≡ true
      → mem.counters ≡ true
      → ((q : ℕ) → uses s.events ids q ≡ true → has s.device_mask q ≡ false)
      → Returns (rocs_ctx_open mem lib ids ptr s) (Opened lib s ids)
  unfolding is_ok
  rocs_ctx_open-Opened mem lib ids ptr s keeps h m₁ m₂ free =
      let (acq, run, o) = acquire_devices-exclusive ids s h in
      elim o [
        | inr refused ↦
            absurd (true_ne_false (sym refused.taken ∙ free refused.device refused.wanted))
        | inl got_all ↦
            let s' = record s { device_mask = mask_or s.device_mask got_all.acq } in
            let ((e, i, s''), run', c) = call_all-Called lib open_func ids s' keeps h in
            let got = run ∙ ap ok got_all.result in
            let bits : (q : ℕ)
                → has s'.device_mask q ≡ (has s.device_mask q || uses s.events ids q) =
              λ q.
                or-has s.device_mask got_all.acq q
                ∙ ap (λ b. has s.device_mask q || b) (got_all.used q) in
            elim (Bool-cases (is_ok e)) [
              | inl good ↦
                  let (ctx, end, its, is_open, is_idle, mask) =
                    open_well lib ids got_all.acq e i s'' good in
                  let (n, a) = c.well good in
                  (
                    (papi_ok, live ctx, s''),
                    open_run mem lib ids ptr s s' got_all.acq (e, i, s'') _ m₁ m₂ got run' end,
                    record {
                      same = a.same;
                      mask = λ q. ap (λ x. has x q) a.mask ∙ bits q;
                      works = λ w. refl;
                      well = λ g. (
                        ctx,
                        refl,
                        its,
                        is_open,
                        is_idle,
                        λ q. ap (λ x. has x q) mask ∙ got_all.used q,
                        a.log,
                      );
                      failed = λ g. absurd (true_ne_false g);
                    },
                  )
              | inr bad ↦
                  let (id, at, a) = c.failed bad in
                  let (s₃, run₃, b) = call_each-After lib close_func (take i ids) s'' keeps (
                    AreEvents-take s''.events i ids
                      (AreEvents-same s'.events s''.events ids a.same h)) in
                  let both = After-trans s' s'' s₃ _ _ a b in
                  (
                    (e, freed, s₃),
                    open_run mem lib ids ptr s s' got_all.acq (e, i, s'') _ m₁ m₂ got run'
                        (open_failed lib ids got_all.acq e i s'' s₃ bad run₃),
                    record {
                      same = both.same;
                      mask = λ q. ap (λ x. has x q) both.mask ∙ bits q;
                      works = c.works;
                      well = λ g. absurd (true_ne_false (sym g ∙ bad));
                      failed = λ g. (i, id, at, refl, both.log);
                    },
                  )
            ]
      ]
