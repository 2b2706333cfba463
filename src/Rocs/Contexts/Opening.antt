-- ===== src/Rocs/Contexts/Opening.antt =====
-- What rocs_ctx_open of patches/rocm_smi/rocs.c does, whatever fails.
use scorep_amd.Common.{
  ℕ, ◌≡◌, refl, sym, ◌∙◌, ap, Bool, true, false, ◌||◌, ◌&&◌, none, some, List, take, Bool-cases,
  inl, inr,
}
use scorep_amd.Common.Run.{ok, Returns}
use scorep_amd.Rocs.Masks.{mask_or, has, or-has}
use scorep_amd.Rocs.Devices.{AreEvents, acquire_devices, acquire_devices-exclusive}
use scorep_amd.Rocs.Contexts.Loops.{
  KeepsDevice, SameDevices, SameDevices-refl, SameDevices-trans, call_all-Called, call_each-After,
  AreEvents-same, AreEvents-take,
}
use scorep_amd.Rocs.Contexts.Failures.{open_well, open_failed, open_run}
use scorep_amd.Rocs.Contexts.{
  Ctx, Pointer, null, freed, live, CtxMemory, is_ok, open_acquired, free_pointer, rocs_ctx_open,
}
use scorep_amd.Rocs.{
  PapiErrno, papi_ok, papi_enomem, papi_ecnflct, open_func, close_func, Functions, Rocs, Mask,
}

or_true : (a b : Bool) → a ≡ true → (a || b) ≡ true
or_true a b h = rw h refl

or_true' : (a b : Bool) → b ≡ true → (a || b) ≡ true
or_true' true b h = refl
or_true' false b h = h

and_free : (a b : Bool) → (a && b) ≡ false → a ≡ true → b ≡ false
and_free a b h e = rw e at h

live_injective : (c d : Ctx) → live c ≡ live d → c ≡ d
live_injective c d e = cc

null_ne_live : (c : Ctx) → null ≡ live c → ⊥
null_ne_live c e = cc

freed_ne_live : (c : Ctx) → freed ≡ live c → ⊥
freed_ne_live c e = cc

module _ {σ : Type 0} where
  -- What opening does, whatever fails.
  pub record Opens (s : Rocs σ) (ids : List ℕ) (r : PapiErrno × Pointer × Rocs σ) : Type 0 where
    pub same : SameDevices s.events r.2.events
    pub more : (q : ℕ) → has s.device_mask q ≡ true → has r.2.device_mask q ≡ true
    pub if_live :
        (ctx : Ctx)
        → r.1 ≡ live ctx
        → (ctx.events_id ≡ ids)
          × ((q : ℕ)
              → has ctx.device_mask q ≡ true
              → (has s.device_mask q ≡ false) × (has r.2.device_mask q ≡ true))

  Opens-union :
      (s s' : Rocs σ) (ids : List ℕ) (m : Mask) (e : PapiErrno) (p : Pointer)
      → SameDevices s.events s'.events
      → s'.device_mask ≡ mask_or s.device_mask m
      → ((q : ℕ) → (has m q && has s.device_mask q) ≡ false)
      → ((ctx : Ctx) → p ≡ live ctx → (ctx.events_id ≡ ids) × (ctx.device_mask ≡ m))
      → Opens s ids (e, p, s')
  Opens-union s s' ids m e p same mask free if_live =
      let bits : (q : ℕ) → has s'.device_mask q ≡ (has s.device_mask q || has m q) =
        λ q. ap (λ x. has x q) mask ∙ or-has s.device_mask m q in
      record {
        same = same;
        more = λ q h. bits q ∙ or_true (has s.device_mask q) (has m q) h;
        if_live = λ ctx l.
            let (its, own) = if_live ctx l in
            (
              its,
              λ q h.
                  let h' : has m q ≡ true = ap (λ x. has x q) (sym own) ∙ h in
                  (
                    and_free (has m q) (has s.device_mask q) (free q) h',
                    bits q ∙ or_true' (has s.device_mask q) (has m q) h',
                  ),
            );
      }

  no_ctx_run :
      (mem : CtxMemory) (lib : Functions σ) (ids : List ℕ) (s s' : Rocs σ) (m : Mask)
      → mem.ctx ≡ false
      → acquire_devices ids s ≡ ok (papi_ok, s', some m)
      → rocs_ctx_open mem lib ids null s ≡ ok (papi_enomem, null, s')
  unfolding rocs_ctx_open open_acquired
  no_ctx_run mem lib ids s s' m m₁ acq = rw (rocs_ctx_open, acq) (simp m₁)

  no_counters_run :
      (mem : CtxMemory) (lib : Functions σ) (ids : List ℕ) (s s' : Rocs σ) (m : Mask)
      → mem.ctx ≡ true
      → mem.counters ≡ false
      → acquire_devices ids s ≡ ok (papi_ok, s', some m)
      → rocs_ctx_open mem lib ids null s ≡ ok (papi_enomem, freed, s')
  unfolding rocs_ctx_open open_acquired
  no_counters_run mem lib ids s s' m m₁ m₂ acq = rw (rocs_ctx_open, acq) (simp (m₁, m₂))

  all_memory_run :
      (mem : CtxMemory) (lib : Functions σ) (ids : List ℕ) (s s' : Rocs σ) (m : Mask)
      → KeepsDevice lib
      → AreEvents s'.events ids
      → SameDevices s.events s'.events
      → s'.device_mask ≡ mask_or s.device_mask m
      → ((q : ℕ) → (has m q && has s.device_mask q) ≡ false)
      → mem.ctx ≡ true
      → mem.counters ≡ true
      → acquire_devices ids s ≡ ok (papi_ok, s', some m)
      → Returns (rocs_ctx_open mem lib ids null s) (Opens s ids)
  all_memory_run mem lib ids s s' m keeps h same mask free m₁ m₂ acq =
      let ((e, i, s''), run, c) = call_all-Called lib open_func ids s' keeps h in
      elim (Bool-cases (is_ok e)) [
        | inl good ↦
            let (ctx, end, its, is_open, is_idle, own) = open_well lib ids m e i s'' good in
            let (n, a) = c.well good in
            (
              (papi_ok, live ctx, s''),
              open_run mem lib ids null s s' m (e, i, s'') _ m₁ m₂ acq run end,
              Opens-union s s'' ids m papi_ok (live ctx) (SameDevices-trans _ _ _ same a.same)
                  (a.mask ∙ mask) free
                  (λ x l.
                    let eq = live_injective ctx x l in
                    (ap (λ y. y.events_id) (sym eq) ∙ its, ap (λ y. y.device_mask) (sym eq) ∙ own)),
            )
        | inr bad ↦
            let (id, at, a) = c.failed bad in
            let (s₃, run₃, b) = call_each-After lib close_func (take i ids) s'' keeps (
              AreEvents-take s''.events i ids (AreEvents-same s'.events s''.events ids a.same h)) in
            (
              (e, freed, s₃),
              open_run mem lib ids null s s' m (e, i, s'') _ m₁ m₂ acq run
                  (open_failed lib ids m e i s'' s₃ bad run₃),
              Opens-union s s₃ ids m e freed
                  (SameDevices-trans _ _ _ same (SameDevices-trans _ _ _ a.same b.same))
                  (b.mask ∙ a.mask ∙ mask) free (λ x l. absurd (freed_ne_live x l)),
            )
      ]

  opened_run :
      (mem : CtxMemory) (lib : Functions σ) (ids : List ℕ) (s s' : Rocs σ) (m : Mask)
      → KeepsDevice lib
      → AreEvents s'.events ids
      → SameDevices s.events s'.events
      → s'.device_mask ≡ mask_or s.device_mask m
      → ((q : ℕ) → (has m q && has s.device_mask q) ≡ false)
      → acquire_devices ids s ≡ ok (papi_ok, s', some m)
      → Returns (rocs_ctx_open mem lib ids null s) (Opens s ids)
  opened_run mem lib ids s s' m keeps h same mask free acq = elim (Bool-cases mem.ctx) [
    | inr m₁ ↦ (
      (papi_enomem, null, s'),
      no_ctx_run mem lib ids s s' m m₁ acq,
      Opens-union s s' ids m papi_enomem null same mask free (λ x l. absurd (null_ne_live x l)),
    )
    | inl m₁ ↦ elim (Bool-cases mem.counters) [
      | inr m₂ ↦ (
        (papi_enomem, freed, s'),
        no_counters_run mem lib ids s s' m m₁ m₂ acq,
        Opens-union s s' ids m papi_enomem freed same mask free (λ x l. absurd (freed_ne_live x l)),
      )
      | inl m₂ ↦ all_memory_run mem lib ids s s' m keeps h same mask free m₁ m₂ acq
    ]
  ]

  refused_run :
      (mem : CtxMemory) (lib : Functions σ) (ids : List ℕ) (s : Rocs σ)
      → acquire_devices ids s ≡ ok (papi_ecnflct, s, none)
      → rocs_ctx_open mem lib ids null s ≡ ok (papi_ecnflct, null, s)
  unfolding rocs_ctx_open open_acquired free_pointer
  refused_run mem lib ids s acq = rw (rocs_ctx_open, acq) refl

  pub rocs_ctx_open-Opens :
      (mem : CtxMemory) (lib : Functions σ) (ids : List ℕ) (s : Rocs σ)
      → KeepsDevice lib
      → AreEvents s.events ids
      → Returns (rocs_ctx_open mem lib ids null s) (Opens s ids)
  rocs_ctx_open-Opens mem lib ids s keeps h =
      let (acq, run, o) = acquire_devices-exclusive ids s h in
      elim o [
        | inl got ↦
            opened_run mem lib ids s (record s { device_mask = mask_or s.device_mask got.acq })
              got.acq keeps h (SameDevices-refl s.events) refl got.free (run ∙ ap ok got.result)
        | inr refused ↦ (
          (papi_ecnflct, null, s),
          refused_run mem lib ids s (run ∙ ap ok refused.result),
          record {
            same = SameDevices-refl s.events;
            more = λ q e. e;
            if_live = λ ctx l. absurd (null_ne_live ctx l);
          },
        )
      ]
