-- ===== src/Rocs/Devices.antt =====
-- Acquiring and releasing devices (acquire_devices and release_devices of patches/rocm_smi/rocs.c).
use scorep_amd.Common.{
  ℕ, ◌<◌, ◌≡◌, refl, sym, ◌∙◌, ap, Bool, true, false, ◌||◌, ◌&&◌, not, Option, none, some, List, [],
  ◌∷◌, arith, if◌then◌else◌, ltb, lt→ltb, ◌==◌, Bool-cases, inl, inr, ◌⊎◌,
}
use scorep_amd.Common.Run.{Run, ok, fault, ◌>>=◌, Returns, out_of_bounds}
use scorep_amd.Rocs.Masks.{
  mask_or, mask_and, mask_xor, is_nonzero, same_mask, same_mask_of_has, same_mask_of_ne, bit,
  no_devices, has, or-has, and-has, xor-has, zero-has, nonzero-has, bit-has, no_devices-has,
}
use scorep_amd.Rocs.{PapiErrno, papi_ok, papi_ecnflct, papi_emisc, NtvEvent, Mask, Rocs, ntv_event}

-- One round of the loop of `acquire_devices`; a shift by 32 or more is undefined. `1 << 31`
-- is taken to give the bit 31, as GCC documents it for a signed `int`.
acquire_device : Option ℕ → Mask → Run Mask
acquire_device none mask = ok mask
acquire_device (some d) mask = if ltb d 32 then ok (mask_or mask (bit d)) else fault out_of_bounds

acquire_loop : List NtvEvent → List ℕ → Mask → Run Mask
unfolding acquire_device
acquire_loop events [] mask = ok mask
acquire_loop events (id ∷ ids) mask = do
  ev ← ntv_event events id
  mask' ← acquire_device ev.device mask
  acquire_loop events ids mask'

module _ {σ : Type 0} where
  -- `*bitmask`, where the call writes it, stands last.
  acquired : Rocs σ → Mask → PapiErrno × Rocs σ × Option Mask
  acquired s acq =
      if is_nonzero (mask_and acq s.device_mask)
      then (papi_ecnflct, s, none)
      else (papi_ok, record s { device_mask = mask_or s.device_mask acq }, some acq)

  unfoldable pub acquire_devices : List ℕ → Rocs σ → Run (PapiErrno × Rocs σ × Option Mask)
  unfolding acquire_loop acquired
  acquire_devices ids s = do acq ← acquire_loop s.events ids no_devices; ok (acquired s acq)

  -- `*bitmask` stands last.
  pub release_devices : Mask → Rocs σ → PapiErrno × Rocs σ × Mask
  release_devices bitmask s =
      if same_mask (mask_and bitmask s.device_mask) bitmask
      then (
        papi_ok,
        record s { device_mask = mask_xor s.device_mask bitmask },
        mask_xor bitmask bitmask,
      )
      else (papi_emisc, s, bitmask)

-- Whether one of the events is on a device.
pub on_device : Option ℕ → ℕ → Bool
on_device none q = false
on_device (some d) q = d == q

unfoldable pub uses : List NtvEvent → List ℕ → ℕ → Bool
unfolding on_device
uses events [] q = false
uses events (id ∷ ids) q = elim (ntv_event events id) [
  | fault e ↦ false
  | ok ev ↦ on_device ev.device q || uses events ids q
]

-- The ids are those of events on devices that a mask has bits for.
abbrev pub AreEvents : List NtvEvent → List ℕ → Type 0
AreEvents events [] = Unit
AreEvents events (id ∷ ids) =
    Returns (ntv_event events id) (λ ev. (d : ℕ) → ev.device ≡ some d → d < 32)
    × AreEvents events ids

acquire_device_lem :
    (o : Option ℕ) (mask : Mask)
    → ((d : ℕ) → o ≡ some d → d < 32)
    → Returns (acquire_device o mask) (λ m. (q : ℕ) → has m q ≡ (has mask q || on_device o q))
unfolding acquire_device on_device
acquire_device_lem none mask h = (mask, refl, λ q. ground arith)
acquire_device_lem (some d) mask h = (
  mask_or mask (bit d),
  rw (lt→ltb d 32 (h d refl)) refl,
  λ q. or-has mask (bit d) q ∙ ap (λ b. has mask q || b) (bit-has d q (h d refl)),
)

or_assoc : (a b c : Bool) → ((a || b) || c) ≡ (a || (b || c))
or_assoc true b c = refl
or_assoc false b c = refl

or_false : (a : Bool) → (a || false) ≡ a
or_false true = refl
or_false false = refl

pub uses-nil : (events : List NtvEvent) (q : ℕ) → uses events [] q ≡ false
unfolding uses
uses-nil events q = refl

pub uses-cons :
    (events : List NtvEvent) (ids : List ℕ) (id q : ℕ) (ev : NtvEvent)
    → ntv_event events id ≡ ok ev
    → uses events (id ∷ ids) q ≡ (on_device ev.device q || uses events ids q)
unfolding uses
uses-cons events ids id q ev at = rw (uses, at) refl

acquire_loop_lem :
    (events : List NtvEvent) (ids : List ℕ) (mask : Mask)
    → AreEvents events ids
    → Returns
        (acquire_loop events ids mask)
        (λ m. (q : ℕ) → has m q ≡ (has mask q || uses events ids q))
unfolding acquire_loop uses
acquire_loop_lem events [] mask h = (mask, refl, λ q. sym (or_false (has mask q)))
acquire_loop_lem events (id ∷ ids) mask ((ev, at, small), h) =
    let (mask', run, now) = acquire_device_lem ev.device mask small in
    let (m, run', later) = acquire_loop_lem events ids mask' h in
    (
      m,
      rw (at, ◌>>=◌, run) run',
      λ q.
          later q
          ∙ ap (λ b. b || uses events ids q) (now q)
          ∙ or_assoc (has mask q) (on_device ev.device q) (uses events ids q)
          ∙ ap (λ b. has mask q || b) (sym (uses-cons events ids id q ev at)),
    )

and_true : (a b : Bool) → (a && b) ≡ true → (a ≡ true) × (b ≡ true)
and_true true b h = (refl, h)
and_true false b h = cc

module _ {σ : Type 0} where
  -- The devices of the events are free, and become the mask `acq`.
  pub record Acquires (s : Rocs σ) (ids : List ℕ) (r : PapiErrno × Rocs σ × Option Mask)
      : Type 0 where
    pub acq : Mask
    pub result : r ≡ (papi_ok, record s { device_mask = mask_or s.device_mask acq }, some acq)
    pub used : (q : ℕ) → has acq q ≡ uses s.events ids q
    pub free : (q : ℕ) → (has acq q && has s.device_mask q) ≡ false

  -- One of the devices is in use, and nothing changes.
  pub record Refuses (s : Rocs σ) (ids : List ℕ) (r : PapiErrno × Rocs σ × Option Mask)
      : Type 0 where
    pub result : r ≡ (papi_ecnflct, s, none)
    pub device : ℕ
    pub wanted : uses s.events ids device ≡ true
    pub taken : has s.device_mask device ≡ true

  -- For events of the table on devices below 32, `acquire_devices` has no undefined behaviour. Either
  -- no device of the events is in use: then it succeeds, and writes to `*bitmask` exactly the devices
  -- of the events, which it adds to those in use. Or one is: then it returns PAPI_ECNFLCT and
  -- changes nothing.
  pub acquire_devices-exclusive :
      (ids : List ℕ) (s : Rocs σ)
      → AreEvents s.events ids
      → Returns (acquire_devices ids s) (λ r. Acquires s ids r ⊎ Refuses s ids r)
  unfolding acquire_devices acquired
  acquire_devices-exclusive ids s h =
      let (acq, run, used') = acquire_loop_lem s.events ids no_devices h in
      let used : (q : ℕ) → has acq q ≡ uses s.events ids q =
        λ q. used' q ∙ ap (λ b. b || uses s.events ids q) (no_devices-has q) in
      elim (Bool-cases (is_nonzero (mask_and acq s.device_mask))) [
        | inl some' ↦
            let (d, e) = nonzero-has (mask_and acq s.device_mask) some' in
            let (a, b) =
              and_true (has acq d) (has s.device_mask d) (sym (and-has acq s.device_mask d) ∙ e) in
            (
              (papi_ecnflct, s, none),
              rw (run, ◌>>=◌, some') refl,
              inr (record { result = refl; device = d; wanted = sym (used d) ∙ a; taken = b }),
            )
        | inr none' ↦ (
          (papi_ok, record s { device_mask = mask_or s.device_mask acq }, some acq),
          rw (run, ◌>>=◌, none') refl,
          inl (record {
            acq = acq;
            result = refl;
            used = used;
            free = λ q.
                sym (and-has acq s.device_mask q) ∙ zero-has (mask_and acq s.device_mask) q none';
          }),
        )
      ]

xor_same : (a : Bool) → (if a then not a else a) ≡ false
xor_same true = refl
xor_same false = refl

and_of_imp : (a b : Bool) → (a ≡ true → b ≡ true) → (a && b) ≡ a
and_of_imp true b h = h refl
and_of_imp false b h = refl

xor_and_not : (m b : Bool) → (b ≡ true → m ≡ true) → (if m then not b else b) ≡ (m && not b)
xor_and_not true b h = refl
xor_and_not false true h = cc (h refl)
xor_and_not false false h = refl

module _ {σ : Type 0} where
  -- Releasing devices that are all in use takes exactly them out, and clears `*bitmask`; it fails,
  -- and changes nothing, if one of them is not in use.
  pub release_devices-has :
      (bitmask : Mask) (s : Rocs σ)
      → (((q : ℕ) → has bitmask q ≡ true → has s.device_mask q ≡ true)
          → (release_devices bitmask s ≡ (
            papi_ok,
            record s { device_mask = mask_xor s.device_mask bitmask },
            mask_xor bitmask bitmask,
          ))
            × ((q : ℕ)
                → (has (mask_xor bitmask bitmask) q ≡ false)
                  × (has (mask_xor s.device_mask bitmask) q
                      ≡ (has s.device_mask q && not (has bitmask q)))))
        × ((d : ℕ)
            → has bitmask d ≡ true
            → has s.device_mask d ≡ false
            → release_devices bitmask s ≡ (papi_emisc, s, bitmask))
  unfolding release_devices
  release_devices-has bitmask s = (
    λ h. (
      rw
          (same_mask_of_has (mask_and bitmask s.device_mask) bitmask (λ q.
            and-has bitmask s.device_mask q
            ∙ and_of_imp (has bitmask q) (has s.device_mask q) (h q)))
          refl,
      λ q. (
        xor-has bitmask bitmask q ∙ xor_same (has bitmask q),
        xor-has s.device_mask bitmask q ∙ xor_and_not (has s.device_mask q) (has bitmask q) (h q),
      ),
    ),
    λ d b f.
        rw
          (same_mask_of_ne (mask_and bitmask s.device_mask) bitmask d
            (and-has bitmask s.device_mask d ∙ rw (f, b) refl) b)
          refl,
  )
