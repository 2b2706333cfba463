-- ===== src/Rocs/Contexts/Exclusive.antt =====
-- Contexts of patches/rocm_smi/rocs.c that are opened and closed in any order, by any callers.
use scorep_amd.Common.{
  ℕ, zero, suc, ◌+◌, ◌≤◌, ◌<◌, ◌≡◌, refl, Bool, true, false, none, some, List, [], ◌∷◌, arith,
  if◌then◌else◌, get_elem?, Option-cases, inl, inr,
}
use mathlib.Core.Path.{subst}
use mathlib.Core.Option.{some-injective}
use scorep_amd.Common.Run.{Run, ok, ◌>>=◌, Returns}
use scorep_amd.Rocs.Masks.{has}
use scorep_amd.Rocs.Devices.{AreEvents}
use scorep_amd.Rocs.Contexts.Loops.{KeepsDevice, SameDevices, SameDevices-refl, AreEvents-same}
use scorep_amd.Rocs.Contexts.Closing.{Closes, rocs_ctx_close-Closes}
use scorep_amd.Rocs.Contexts.Opening.{Opens, rocs_ctx_open-Opens}
use scorep_amd.Rocs.Contexts.{
  Ctx, Pointer, null, freed, live, CtxMemory, rocs_ctx_open, rocs_ctx_close,
}
use scorep_amd.Rocs.{PapiErrno, NtvEvent, Functions, Rocs}

-- A caller opens a context, or closes the context with some position among those that are open.
pub data Op : Type 0 where
  opening : CtxMemory → List ℕ → Op
  closing : ℕ → Op

remove_at : ℕ → List Ctx → List Ctx
remove_at i [] = []
remove_at zero (c ∷ cs) = cs
remove_at (suc i) (c ∷ cs) = c ∷ remove_at i cs

after_open : List Ctx → Pointer → List Ctx
after_open cs (live ctx) = ctx ∷ cs
after_open cs p = cs

after_close : ℕ → List Ctx → Pointer → List Ctx
unfolding remove_at
after_close i cs (live ctx) = cs
after_close i cs p = remove_at i cs

-- How many of the contexts have the device.
pub holders : ℕ → List Ctx → ℕ
holders q [] = 0
holders q (c ∷ cs) = if has c.device_mask q then holders q cs + 1 else holders q cs

-- The open contexts, and the state they share.
pub record World (σ : Type 0) : Type 0 where
  pub contexts : List Ctx
  pub state : Rocs σ

pub bit_of : Bool → ℕ
bit_of true = 1
bit_of false = 0

holders-remove :
    (cs : List Ctx) (i : ℕ) (ctx : Ctx) (q : ℕ)
    → get_elem? cs i ≡ some ctx
    → holders q (remove_at i cs) + bit_of (has ctx.device_mask q) ≡ holders q cs
unfolding holders remove_at bit_of
holders-remove [] i ctx q at = cc
holders-remove (c ∷ cs) zero ctx q at = rw (← some-injective c ctx at) (ground arith)
holders-remove (c ∷ cs) (suc i) ctx q at = ground (arith, holders-remove cs i ctx q at)

-- The contexts' events are in the table.
abbrev pub AllEvents : List NtvEvent → List Ctx → Type 0
AllEvents events [] = Unit
AllEvents events (c ∷ cs) = AreEvents events c.events_id × AllEvents events cs

-- The events that an operation names are in the table.
abbrev pub IsOp : List NtvEvent → Op → Type 0
IsOp events (opening mem ids) = AreEvents events ids
IsOp events (closing i) = Unit

abbrev pub AreOps : List NtvEvent → List Op → Type 0
AreOps events [] = Unit
AreOps events (op ∷ ops) = IsOp events op × AreOps events ops

AllEvents-same :
    (es es' : List NtvEvent) (cs : List Ctx)
    → SameDevices es es'
    → AllEvents es cs
    → AllEvents es' cs
AllEvents-same es es' [] same h = tt
AllEvents-same es es' (c ∷ cs) same (one, h) =
    (AreEvents-same es es' c.events_id same one, AllEvents-same es es' cs same h)

AllEvents-remove :
    (es : List NtvEvent) (cs : List Ctx) (i : ℕ) → AllEvents es cs → AllEvents es (remove_at i cs)
unfolding remove_at
AllEvents-remove es [] i h = tt
AllEvents-remove es (c ∷ cs) zero (one, h) = h
AllEvents-remove es (c ∷ cs) (suc i) (one, h) = (one, AllEvents-remove es cs i h)

AllEvents-get :
    (es : List NtvEvent) (cs : List Ctx) (i : ℕ) (ctx : Ctx)
    → AllEvents es cs
    → get_elem? cs i ≡ some ctx
    → AreEvents es ctx.events_id
AllEvents-get es [] i ctx h at = cc
AllEvents-get es (c ∷ cs) zero ctx (one, h) at =
    subst (λ x. AreEvents es x.events_id) (some-injective c ctx at) one
AllEvents-get es (c ∷ cs) (suc i) ctx (one, h) at = AllEvents-get es cs i ctx h at

AreOps-same :
    (es es' : List NtvEvent) (ops : List Op) → SameDevices es es' → AreOps es ops → AreOps es' ops
AreOps-same es es' [] same h = tt
AreOps-same es es' (opening mem ids ∷ ops) same (one, h) =
    (AreEvents-same es es' ids same one, AreOps-same es es' ops same h)
AreOps-same es es' (closing i ∷ ops) same (one, h) = (tt, AreOps-same es es' ops same h)

module _ {σ : Type 0} where
  perform : Functions σ → Op → World σ → Run (World σ)
  unfolding after_open after_close
  perform lib (opening mem ids) w = do
    r ← rocs_ctx_open mem lib ids null w.state
    ok (record { contexts = after_open w.contexts r.1; state = r.2 })
  perform lib (closing i) w = elim (get_elem? w.contexts i) [
    | none ↦ ok w
    | some ctx ↦ (do
      r ← rocs_ctx_close lib ctx w.state
      ok (record { contexts = after_close i w.contexts r.1; state = r.2 }))
  ]

  pub performs : Functions σ → List Op → World σ → Run (World σ)
  unfolding perform
  performs lib [] w = ok w
  performs lib (op ∷ ops) w = do w' ← perform lib op w; performs lib ops w'

  -- A device that a context has is in use, and no other context has it.
  pub record Owned (w : World σ) : Type 0 where
    pub valid : AllEvents w.state.events w.contexts
    pub held : (q : ℕ) → holders q w.contexts ≤ bit_of (has w.state.device_mask q)

  after_open-Owned :
      (cs : List Ctx) (s s' : Rocs σ) (ids : List ℕ) (e : PapiErrno) (p : Pointer)
      → AreEvents s.events ids
      → Owned (record { contexts = cs; state = s })
      → Opens s ids (e, p, s')
      → Owned (record { contexts = after_open cs p; state = s' })
  unfolding after_open holders bit_of
  after_open-Owned cs s s' ids e null h o k = record {
    valid = AllEvents-same s.events s'.events cs k.same o.valid;
    held = λ q. ground (arith, o.held q, k.more q);
  }
  after_open-Owned cs s s' ids e freed h o k = record {
    valid = AllEvents-same s.events s'.events cs k.same o.valid;
    held = λ q. ground (arith, o.held q, k.more q);
  }
  after_open-Owned cs s s' ids e (live ctx) h o k =
      let (its, own) = k.if_live ctx refl in
      record {
        valid = (
          rw its (AreEvents-same s.events s'.events ids k.same h),
          AllEvents-same s.events s'.events cs k.same o.valid,
        );
        held = λ q. ground (arith, o.held q, k.more q, own q);
      }

  after_close-Owned :
      (cs : List Ctx) (i : ℕ) (lib : Functions σ) (ctx : Ctx) (s s' : Rocs σ) (e : PapiErrno)
      (p : Pointer)
      → get_elem? cs i ≡ some ctx
      → Owned (record { contexts = cs; state = s })
      → Closes lib ctx s (e, p, s')
      → Owned (record { contexts = after_close i cs p; state = s' })
  unfolding after_close bit_of
  after_close-Owned cs i lib ctx s s' e p at o k = elim k.outcome [
    | inl (gone, bits) ↦ rw gone (record {
      valid = AllEvents-remove s'.events cs i (AllEvents-same s.events s'.events cs k.same o.valid);
      held = λ q. ground (arith, o.held q, bits q, holders-remove cs i ctx q at);
    })
    | inr (kept, mask) ↦ rw kept (record {
      valid = AllEvents-same s.events s'.events cs k.same o.valid;
      held = λ q. rw mask (o.held q);
    })
  ]

  perform-Owned :
      (lib : Functions σ) (op : Op) (w : World σ)
      → KeepsDevice lib
      → IsOp w.state.events op
      → Owned w
      → Returns (perform lib op w) (λ w'. Owned w' × SameDevices w.state.events w'.state.events)
  unfolding perform bit_of
  perform-Owned lib (opening mem ids) w keeps h o =
      let ((e, p, s'), run, k) = rocs_ctx_open-Opens mem lib ids w.state keeps h in
      (
        record { contexts = after_open w.contexts p; state = s' },
        rw (run, ◌>>=◌) refl,
        (after_open-Owned w.contexts w.state s' ids e p h o k, k.same),
      )
  perform-Owned lib (closing i) w keeps h o = elim (Option-cases (get_elem? w.contexts i)) [
    | inl at ↦ (w, rw (perform, at) refl, (o, SameDevices-refl w.state.events))
    | inr (ctx, at) ↦
        let ((e, p, s'), run, k) =
          rocs_ctx_close-Closes lib ctx w.state keeps
            (AllEvents-get w.state.events w.contexts i ctx o.valid at)
            (λ q b. ground (arith, o.held q, holders-remove w.contexts i ctx q at)) in
        (
          record { contexts = after_close i w.contexts p; state = s' },
          rw (perform, at, run, ◌>>=◌) refl,
          (after_close-Owned w.contexts i lib ctx w.state s' e p at o k, k.same),
        )
  ]

  performs-Owned :
      (lib : Functions σ) (ops : List Op) (w : World σ)
      → KeepsDevice lib
      → AreOps w.state.events ops
      → Owned w
      → Returns (performs lib ops w) Owned
  unfolding performs
  performs-Owned lib [] w keeps h o = (w, refl, o)
  performs-Owned lib (op ∷ ops) w keeps (one, h) o =
      let (w', run, (o', same)) = perform-Owned lib op w keeps one o in
      let (w'', run', o'') =
        performs-Owned lib ops w' keeps (AreOps-same w.state.events w'.state.events ops same h)
          o' in
      (w'', rw (run, ◌>>=◌) run', o'')

  -- From a state without contexts, contexts are opened and closed in any order, on events of the
  -- table. Whatever allocations and events fail on the way, no operation has undefined behaviour, and
  -- in the end no device belongs to two open contexts, and each device of an open context is in use.
  -- The caller's variable is a null pointer before each opening.
  pub performs-exclusive :
      (lib : Functions σ) (ops : List Op) (s : Rocs σ) (q : ℕ)
      → KeepsDevice lib
      → AreOps s.events ops
      → Returns (performs lib ops (record { contexts = []; state = s })) (λ w.
        (holders q w.contexts ≤ 1) × (0 < holders q w.contexts → has w.state.device_mask q ≡ true))
  unfolding holders bit_of
  performs-exclusive lib ops s q keeps h =
      let (w, run, o) =
        performs-Owned lib ops (record { contexts = []; state = s }) keeps h
          (record { valid = tt; held = λ q. omega arith }) in
      (w, run, (ground (arith, o.held q), λ p. ground (arith, o.held q)))
