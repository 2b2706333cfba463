-- ===== src/Rocs/Contexts/Loops.antt =====
-- The loops over the events of a context (patches/rocm_smi/rocs.c).
use scorep_amd.Common.{
  ℕ, zero, suc, ◌<◌, ◌≡◌, refl, sym, ◌∙◌, ap, true, false, ◌||◌, Option, some, List, [], ◌∷◌, ◌++◌,
  length, set, take, replicate, get_elem?, Bool-cases, true_ne_false, inl, inr, map,
}
use mathlib.Core.Path.{subst}
use mathlib.Core.Option.{some-injective}
use mathlib.Core.List.{append_assoc, append-nil}
use scorep_amd.Common.Run.{Run, ok, ◌>>=◌, Returns, ok-injective, ok_ne_fault, Run-cases}
use scorep_amd.Rocs.Devices.{AreEvents, uses, uses-cons, uses-nil, on_device}
use scorep_amd.Rocs.Contexts.{is_ok, call_all, call_each}
use scorep_amd.Rocs.{
  PapiErrno, papi_ok, NtvEvent, Function, Functions, Rocs, ntv_event, call, after_call,
}

-- The device of an event, where there is one.
device_at : List NtvEvent → ℕ → Run (Option ℕ)
device_at events id = do ev ← ntv_event events id; ok ev.device

-- An event of the table is replaced by one on the same device.
device_at-set :
    (events : List NtvEvent) (id j : ℕ) (ev ev' : NtvEvent)
    → ntv_event events id ≡ ok ev
    → ev'.device ≡ ev.device
    → device_at (set events id ev') j ≡ device_at events j
unfolding device_at ntv_event
device_at-set [] id j ev ev' at e = cc
device_at-set (x ∷ events) zero zero ev ev' at e =
    ap ok (e ∙ ap (λ y. y.device) (sym (ok-injective x ev at)))
device_at-set (x ∷ events) zero (suc j) ev ev' at e = refl
device_at-set (x ∷ events) (suc id) zero ev ev' at e = refl
device_at-set (x ∷ events) (suc id) (suc j) ev ev' at e = device_at-set events id j ev ev' at e

-- The tables have the same devices.
pub SameDevices : List NtvEvent → List NtvEvent → Type 0
SameDevices events events' = (id : ℕ) → device_at events' id ≡ device_at events id

pub SameDevices-refl : (events : List NtvEvent) → SameDevices events events
unfolding SameDevices
SameDevices-refl events id = refl

pub SameDevices-trans :
    (es es' es'' : List NtvEvent) → SameDevices es es' → SameDevices es' es'' → SameDevices es es''
unfolding SameDevices
SameDevices-trans es es' es'' h k id = k id ∙ h id

AreEvents-one :
    (events events' : List NtvEvent) (id : ℕ)
    → device_at events' id ≡ device_at events id
    → Returns (ntv_event events id) (λ ev. (d : ℕ) → ev.device ≡ some d → d < 32)
    → Returns (ntv_event events' id) (λ ev. (d : ℕ) → ev.device ≡ some d → d < 32)
unfolding device_at
AreEvents-one events events' id same (ev, at, small) = elim (Run-cases (ntv_event events' id)) [
  | inl (ev', at') ↦
      let e : ok ev'.device ≡ ok ev.device = rw (at, at', ◌>>=◌) at same in
      (ev', at', λ d h. small d (sym (ok-injective ev'.device ev.device e) ∙ h))
  | inr (f, at') ↦ absurd (ok_ne_fault ev.device f (rw (at, at', ◌>>=◌) at same))
]

pub AreEvents-same :
    (events events' : List NtvEvent) (ids : List ℕ)
    → SameDevices events events'
    → AreEvents events ids
    → AreEvents events' ids
unfolding SameDevices
AreEvents-same events events' [] same h = tt
AreEvents-same events events' (id ∷ ids) same (one, h) =
    (AreEvents-one events events' id (same id) one, AreEvents-same events events' ids same h)

device_at_ok :
    (events events' : List NtvEvent) (id : ℕ) (ev ev' : NtvEvent)
    → device_at events' id ≡ device_at events id
    → ntv_event events id ≡ ok ev
    → ntv_event events' id ≡ ok ev'
    → ev'.device ≡ ev.device
unfolding device_at
device_at_ok events events' id ev ev' same at at' =
    ok-injective ev'.device ev.device (rw (at, at', ◌>>=◌) at same)

pub uses-same :
    (events events' : List NtvEvent) (ids : List ℕ) (q : ℕ)
    → SameDevices events events'
    → AreEvents events ids
    → uses events' ids q ≡ uses events ids q
unfolding SameDevices
uses-same events events' [] q same h = uses-nil events' q ∙ sym (uses-nil events q)
uses-same events events' (id ∷ ids) q same ((ev, at, small), h) =
    let (ev', at', small') = AreEvents-one events events' id (same id) (ev, at, small) in
    let e = device_at_ok events events' id ev ev' (same id) at at' in
    uses-cons events' ids id q ev' at'
    ∙ ap (λ o. on_device o q || uses events' ids q) e
    ∙ ap (λ b. on_device ev.device q || b) (uses-same events events' ids q same h)
    ∙ sym (uses-cons events ids id q ev at)

-- The functions of events leave the devices of events alone.
unfoldable pub KeepsDevice : {σ : Type 0} → Functions σ → Type 0
KeepsDevice {σ} lib =
    (f : Function) (ev : NtvEvent) (devices : σ) → (lib f ev devices).1.device ≡ ev.device

-- No function of an event fails.
unfoldable pub Works : {σ : Type 0} → Functions σ → Type 0
Works {σ} lib = (f : Function) (ev : NtvEvent) (devices : σ) → is_ok (lib f ev devices).0 ≡ true

-- The calls of `f` for some events.
pub made : Function → List ℕ → List (Function × ℕ)
made f ids = map (λ id. (f, id)) ids

module _ {σ : Type 0} where
  -- A state that calls have been made in.
  pub record After (s : Rocs σ) (calls : List (Function × ℕ)) (s' : Rocs σ) : Type 0 where
    pub mask : s'.device_mask ≡ s.device_mask
    pub same : SameDevices s.events s'.events
    pub log : s'.calls ≡ s.calls ++ calls

  call-After :
      (lib : Functions σ) (f : Function) (id : ℕ) (s : Rocs σ) (ev : NtvEvent)
      → KeepsDevice lib
      → ntv_event s.events id ≡ ok ev
      → Returns (call lib f id s) (λ r. After s ((f, id) ∷ []) r.1 × (Works lib → is_ok r.0 ≡ true))
  unfolding call after_call KeepsDevice SameDevices Works
  call-After lib f id s ev keeps at =
      let (e, ev', devices) = lib f ev s.devices in
      (
        (
          e,
          record s {
            events = set s.events id ev';
            devices = devices;
            calls = s.calls ++ (f, id) ∷ [];
          },
        ),
        rw (at, ◌>>=◌) refl,
        (
          record {
            mask = refl;
            same = λ j. device_at-set s.events id j ev ev' at (keeps f ev s.devices);
            log = refl;
          },
          λ w. w f ev s.devices,
        ),
      )

  After-refl : (s : Rocs σ) → After s [] s
  unfolding SameDevices
  After-refl s = record { mask = refl; same = λ id. refl; log = sym (append-nil s.calls) }

  pub After-trans :
      (s s' s'' : Rocs σ) (c c' : List (Function × ℕ))
      → After s c s'
      → After s' c' s''
      → After s (c ++ c') s''
  unfolding SameDevices
  After-trans s s' s'' c c' h k = record {
    mask = k.mask ∙ h.mask;
    same = λ id. k.same id ∙ h.same id;
    log = k.log ∙ ap (λ l. l ++ c') h.log ∙ append_assoc s.calls c c';
  }

  -- What a loop that stops at the first failure does.
  pub record Called (lib : Functions σ) (f : Function) (ids : List ℕ) (s : Rocs σ)
      (r : PapiErrno × ℕ × Rocs σ) : Type 0 where
    pub works : Works lib → is_ok r.0 ≡ true
    pub well : is_ok r.0 ≡ true → (r.1 ≡ length ids) × After s (made f ids) r.2
    pub failed :
        is_ok r.0 ≡ false
        → (id : ℕ) × (get_elem? ids r.1 ≡ some id) × After s (made f (take r.1 ids ++ id ∷ [])) r.2

  pub call_all-Called :
      (lib : Functions σ) (f : Function) (ids : List ℕ) (s : Rocs σ)
      → KeepsDevice lib
      → AreEvents s.events ids
      → Returns (call_all lib f ids s) (Called lib f ids s)
  unfolding call_all made is_ok
  call_all-Called lib f [] s keeps h = (
    (papi_ok, 0, s),
    refl,
    record { works = λ w. refl; well = λ e. (refl, After-refl s); failed = λ e. cc },
  )
  call_all-Called lib f (id ∷ ids) s keeps ((ev, at, small), h) =
      let ((e, s'), run, (a, works)) = call-After lib f id s ev keeps at in
      elim (Bool-cases (is_ok e)) [
        | inl good ↦
            let ((e', i, s''), run', c) =
              call_all-Called lib f ids s' keeps (AreEvents-same s.events s'.events ids a.same h) in
            (
              (e', suc i, s''),
              rw (run, ◌>>=◌, good, run') refl,
              record {
                works = c.works;
                well = λ g. let (n, b) = c.well g in (ap suc n, After-trans s s' s'' _ _ a b);
                failed = λ g.
                    let (bad, here, b) = c.failed g in (bad, here, After-trans s s' s'' _ _ a b);
              },
            )
        | inr bad ↦ (
          (e, 0, s'),
          rw (run, ◌>>=◌, bad) refl,
          record {
            works = works;
            well = λ g. absurd (true_ne_false (sym g ∙ bad));
            failed = λ g. (id, refl, a);
          },
        )
      ]

  pub call_each-After :
      (lib : Functions σ) (f : Function) (ids : List ℕ) (s : Rocs σ)
      → KeepsDevice lib
      → AreEvents s.events ids
      → Returns (call_each lib f ids s) (λ s'. After s (made f ids) s')
  unfolding call_each made
  call_each-After lib f [] s keeps h = (s, refl, After-refl s)
  call_each-After lib f (id ∷ ids) s keeps ((ev, at, small), h) =
      let ((e, s'), run, (a, works)) = call-After lib f id s ev keeps at in
      let (s'', run', b) =
        call_each-After lib f ids s' keeps (AreEvents-same s.events s'.events ids a.same h) in
      (s'', rw (run, ◌>>=◌) run', After-trans s s' s'' _ _ a b)

pub AreEvents-take :
    (events : List NtvEvent) (i : ℕ) (ids : List ℕ)
    → AreEvents events ids
    → AreEvents events (take i ids)
AreEvents-take events zero ids h = tt
AreEvents-take events (suc i) [] h = tt
AreEvents-take events (suc i) (id ∷ ids) (one, h) = (one, AreEvents-take events i ids h)

pub AreEvents-replicate :
    (events : List NtvEvent) (n i id : ℕ) (ids : List ℕ)
    → AreEvents events ids
    → get_elem? ids i ≡ some id
    → AreEvents events (replicate n id)
AreEvents-replicate events zero i id ids h at = tt
AreEvents-replicate events (suc n) i id [] h at = cc
AreEvents-replicate events (suc n) zero id (x ∷ ids) (one, h) at = (
  subst (λ y. Returns (ntv_event events y) (λ ev. (d : ℕ) → ev.device ≡ some d → d < 32))
      (some-injective x id at) one,
  AreEvents-replicate events n zero id (x ∷ ids) (one, h) at,
)
AreEvents-replicate events (suc n) (suc i) id (x ∷ ids) (one, h) at =
    AreEvents-replicate events (suc n) i id ids h at
