-- ===== src/Rocs/Contexts/Values.antt =====
-- The counters of a context (rocs_ctx_read and rocs_ctx_reset of patches/rocm_smi/rocs.c).
use scorep_amd.Common.{
  ℕ, zero, suc, ◌+◌, ◌<◌, ◌≡◌, refl, sym, ◌∙◌, ap, ◌≢◌, true, false, none, some, List, [], ◌∷◌,
  ◌++◌, map, arith, if◌then◌else◌, length, set, set-append, length-set, length-append, replicate,
  Bool-cases, true_ne_false, inl, inr,
}
use mathlib.Core.Path.{subst}
use mathlib.Core.List.{append_assoc, append-nil}
use scorep_amd.Common.Run.{ok, ◌>>=◌, Returns}
use scorep_amd.Rocs.Contexts.{
  Ctx, is_ok, read_loop, rocs_ctx_read, set_value, reset_loop, rocs_ctx_reset,
}
use scorep_amd.Rocs.{
  PapiErrno, papi_ok, NtvEvent, read_func, Functions, Rocs, ntv_event, call, after_call,
}

-- The ids are below the number of events.
abbrev pub AreBelow : ℕ → List ℕ → Type 0
AreBelow n [] = Unit
AreBelow n (id ∷ ids) = (id < n) × AreBelow n ids

-- An id occurs in no later place.
abbrev pub NotIn : ℕ → List ℕ → Type 0
NotIn id [] = Unit
NotIn id (x ∷ xs) = (id ≢ x) × NotIn id xs

abbrev pub AreDistinct : List ℕ → Type 0
AreDistinct [] = Unit
AreDistinct (x ∷ xs) = NotIn x xs × AreDistinct xs

-- The events have these values.
abbrev pub Have : List NtvEvent → List ℕ → List ℕ → Type 0
Have events [] [] = Unit
Have events [] (v ∷ vs) = ⊥
Have events (id ∷ ids) [] = ⊥
Have events (id ∷ ids) (v ∷ vs) =
    ((ev : NtvEvent) × (ntv_event events id ≡ ok ev) × (ev.value ≡ v)) × Have events ids vs

ntv_event_total :
    (events : List NtvEvent) (id : ℕ)
    → id < length events
    → (ev : NtvEvent) × (ntv_event events id ≡ ok ev)
unfolding ntv_event
ntv_event_total [] id h = elim h [ ]
ntv_event_total (e ∷ es) zero h = (e, refl)
ntv_event_total (e ∷ es) (suc id) h = ntv_event_total es id (omega arith)

ntv_event-set :
    (events : List NtvEvent) (id : ℕ) (ev : NtvEvent)
    → id < length events
    → ntv_event (set events id ev) id ≡ ok ev
unfolding ntv_event
ntv_event-set [] id ev h = elim h [ ]
ntv_event-set (e ∷ es) zero ev h = refl
ntv_event-set (e ∷ es) (suc id) ev h = ntv_event-set es id ev (omega arith)

ntv_event-set_ne :
    (events : List NtvEvent) (id j : ℕ) (ev : NtvEvent)
    → id ≢ j
    → ntv_event (set events id ev) j ≡ ntv_event events j
unfolding ntv_event
ntv_event-set_ne [] id j ev h = refl
ntv_event-set_ne (e ∷ es) zero zero ev h = absurd (h refl)
ntv_event-set_ne (e ∷ es) zero (suc j) ev h = refl
ntv_event-set_ne (e ∷ es) (suc id) zero ev h = refl
ntv_event-set_ne (e ∷ es) (suc id) (suc j) ev h = ntv_event-set_ne es id j ev (λ e. h (ap suc e))

module _ {σ : Type 0} where
  -- The events are read one after the other, from the state `d` of the devices on to `d'`: each with the
  -- function that reads it, which succeeds and leaves the value in its event.
  abbrev pub ReadAs : Functions σ → List NtvEvent → List ℕ → σ → List ℕ → σ → Type 0
  ReadAs lib events [] d [] d' = d ≡ d'
  ReadAs lib events [] d (v ∷ vs) d' = ⊥
  ReadAs lib events (id ∷ ids) d [] d' = ⊥
  ReadAs lib events (id ∷ ids) d (v ∷ vs) d' =
      (ev : NtvEvent) × (ntv_event events id ≡ ok ev)
      × (is_ok (lib read_func ev d).0 ≡ true)
      × (v ≡ (lib read_func ev d).1.value)
      × ReadAs lib events ids (lib read_func ev d).2 vs d'

  -- Another table with the same events.
  move-ReadAs :
      (lib : Functions σ) (events events' : List NtvEvent) (id : ℕ) (ids vs : List ℕ) (d d' : σ)
      → ((j : ℕ) → id ≢ j → ntv_event events' j ≡ ntv_event events j)
      → NotIn id ids
      → ReadAs lib events' ids d vs d'
      → ReadAs lib events ids d vs d'
  move-ReadAs lib events events' id [] [] d d' same n h = h
  move-ReadAs lib events events' id [] (v ∷ vs) d d' same n h = elim h [ ]
  move-ReadAs lib events events' id (x ∷ ids) [] d d' same n h = elim h [ ]
  move-ReadAs lib events events' id (x ∷ ids) (v ∷ vs) d d' same (ne, n) (ev, at, good, e, h) =
      (ev, sym (same x ne) ∙ at, good, e, move-ReadAs lib events events' id ids vs _ d' same n h)

  -- A call writes its own event only.
  call_lem :
      (lib : Functions σ) (id : ℕ) (s : Rocs σ)
      → id < length s.events
      → Returns (call lib read_func id s) (λ r.
        (length r.1.events ≡ length s.events)
        × ((old : NtvEvent) × (ntv_event s.events id ≡ ok old)
            × (ntv_event r.1.events id ≡ ok (lib read_func old s.devices).1)
            × (r.0 ≡ (lib read_func old s.devices).0)
            × (r.1.devices ≡ (lib read_func old s.devices).2))
        × (r.1.calls ≡ s.calls ++ (read_func, id) ∷ [])
        × ((j : ℕ) → id ≢ j → ntv_event r.1.events j ≡ ntv_event s.events j))
  unfolding call after_call
  call_lem lib id s h =
      let (ev, at) = ntv_event_total s.events id h in
      let (e, ev', devices) = lib read_func ev s.devices in
      (
        (
          e,
          record s {
            events = set s.events id ev';
            devices = devices;
            calls = s.calls ++ (read_func, id) ∷ [];
          },
        ),
        rw (at, ◌>>=◌) refl,
        (
          length-set s.events id ev',
          (ev, at, ntv_event-set s.events id ev' h, refl, refl),
          refl,
          λ j ne. ntv_event-set_ne s.events id j ev' ne,
        ),
      )

  -- What the loop leaves with `pre` read and as many counters as ids to go.
  record Read (lib : Functions σ) (pre ids old : List ℕ) (s : Rocs σ)
      (r : PapiErrno × List ℕ × Rocs σ) : Type 0 where
    others : (j : ℕ) → NotIn j ids → ntv_event r.2.events j ≡ ntv_event s.events j
    well :
        is_ok r.0 ≡ true
        → (vs : List ℕ) × (r.1 ≡ pre ++ vs)
          × Have r.2.events ids vs
          × ReadAs lib s.events ids s.devices vs r.2.devices
          × (r.2.calls ≡ s.calls ++ map (λ id. (read_func, id)) ids)

  read_loop-Read :
      (lib : Functions σ) (ids pre old : List ℕ) (i : ℕ) (s : Rocs σ)
      → AreBelow (length s.events) ids
      → AreDistinct ids
      → length old ≡ length ids
      → i ≡ length pre
      → Returns (read_loop lib i ids (pre ++ old) s) (Read lib pre ids old s)
  unfolding read_loop is_ok
  read_loop-Read lib [] pre [] i s b d e f = (
    (papi_ok, pre ++ [], s),
    refl,
    record { others = λ j n. refl; well = λ g. ([], refl, tt, refl, sym (append-nil s.calls)) },
  )
  read_loop-Read lib [] pre (x ∷ old) i s b d e f = absurd (omega arith)
  read_loop-Read lib (id ∷ ids) pre [] i s b d e f = absurd (omega arith)
  read_loop-Read lib (id ∷ ids) pre (x ∷ old) i s (lt, b) (new, d) e f =
      let ((err, s'), run, (len, (old_ev, at, here, same_err, same_devices), log, keep)) =
        call_lem lib id s lt in
      let ev = (lib read_func old_ev s.devices).1 in
      let step : set (pre ++ x ∷ old) i ev.value ≡ (pre ++ ev.value ∷ []) ++ old =
        ap (λ k. set (pre ++ x ∷ old) k ev.value) f ∙ set-append pre x ev.value old in
      let (r, run', h) =
        read_loop-Read lib ids (pre ++ ev.value ∷ []) old (i + 1) s' (rw len b) d (omega arith)
          (omega (arith, length-append pre (ev.value ∷ []))) in
      elim (Bool-cases (is_ok err)) [
        | inl good ↦ (
          r,
          rw (run, ◌>>=◌, here, step, good) run',
          record {
            others = λ j n. h.others j n.1 ∙ keep j (λ q. n.0 (sym q));
            well = λ g.
                let (vs, out, have, as_read, logged) = h.well g in
                (
                  ev.value ∷ vs,
                  out ∙ append_assoc pre (ev.value ∷ []) vs,
                  ((ev, h.others id new ∙ here, refl), have),
                  (
                    old_ev,
                    at,
                    sym (ap is_ok same_err) ∙ good,
                    refl,
                    move-ReadAs lib s.events s'.events id ids vs _ _ keep new
                        (rw same_devices at as_read),
                  ),
                  logged
                      ∙ ap (λ calls. calls ++ map (λ id. (read_func, id)) ids) log
                      ∙ append_assoc s.calls ((read_func, id) ∷ [])
                          (map (λ id. (read_func, id)) ids),
                );
          },
        )
        | inr bad ↦ (
          (err, pre ++ x ∷ old, s'),
          rw (run, ◌>>=◌, here, bad) refl,
          record {
            others = λ j n. keep j (λ q. n.0 (sym q));
            well = λ g. absurd (true_ne_false (sym g ∙ bad));
          },
        )
      ]

  -- Reading a context of distinct events of the table, with a counter for each, has no undefined
  -- behaviour. If the call returns PAPI_OK, the function that reads has been called for each event once,
  -- in order, each time with success on the state that the devices were left in, and nothing else has
  -- been called; `*counts` is the array of counters, which holds for each event, in order, the value
  -- that its function has read, and which the event has after the call. Otherwise `*counts` is not
  -- written. Events of the table that are not in the context are as before.
  pub rocs_ctx_read-Have :
      (lib : Functions σ) (ctx : Ctx) (s : Rocs σ)
      → AreBelow (length s.events) ctx.events_id
      → AreDistinct ctx.events_id
      → length ctx.counters ≡ length ctx.events_id
      → Returns (rocs_ctx_read lib ctx s) (λ r.
        (is_ok r.0 ≡ true
          → (r.3 ≡ some r.1.counters)
            × ReadAs lib s.events ctx.events_id s.devices r.1.counters r.2.devices
            × (r.2.calls ≡ s.calls ++ map (λ id. (read_func, id)) ctx.events_id)
            × Have r.2.events ctx.events_id r.1.counters)
        × (is_ok r.0 ≡ false → r.3 ≡ none)
        × ((j : ℕ) → NotIn j ctx.events_id → ntv_event r.2.events j ≡ ntv_event s.events j))
  unfolding rocs_ctx_read
  rocs_ctx_read-Have lib ctx s b d e =
      let ((err, counters, s'), run, h) =
        read_loop-Read lib ctx.events_id [] ctx.counters 0 s b d e refl in
      (
        (err, record ctx { counters = counters }, s', if is_ok err then some counters else none),
        rw (rocs_ctx_read, run) refl,
        (
          λ g.
              let (vs, out, have, as_read, logged) = h.well g in
              (
                rw g refl,
                subst (λ vs. ReadAs lib s.events ctx.events_id s.devices vs s'.devices) (sym out)
                    as_read,
                logged,
                subst (Have s'.events ctx.events_id) (sym out) have,
              ),
          λ g. rw g refl,
          h.others,
        ),
      )

  set_value_lem :
      (id v : ℕ) (s : Rocs σ)
      → id < length s.events
      → Returns (set_value id v s) (λ s'.
        (length s'.events ≡ length s.events)
        × ((ev : NtvEvent) × (ntv_event s'.events id ≡ ok ev) × (ev.value ≡ v))
        × ((j : ℕ) → id ≢ j → ntv_event s'.events j ≡ ntv_event s.events j))
  unfolding set_value
  set_value_lem id v s h =
      let (ev, at) = ntv_event_total s.events id h in
      let ev' = record ev { value = v } in
      (
        record s { events = set s.events id ev' },
        rw (at, ◌>>=◌) refl,
        (
          length-set s.events id ev',
          (ev', ntv_event-set s.events id ev' h, refl),
          λ j ne. ntv_event-set_ne s.events id j ev' ne,
        ),
      )

  reset_loop_lem :
      (ids pre old : List ℕ) (i : ℕ) (s : Rocs σ)
      → AreBelow (length s.events) ids
      → AreDistinct ids
      → length old ≡ length ids
      → i ≡ length pre
      → Returns (reset_loop i ids (pre ++ old) s) (λ r.
        (r.0 ≡ pre ++ replicate (length ids) 0)
        × Have r.1.events ids (replicate (length ids) 0)
        × ((j : ℕ) → NotIn j ids → ntv_event r.1.events j ≡ ntv_event s.events j))
  unfolding reset_loop
  reset_loop_lem [] pre [] i s b d e f = ((pre ++ [], s), refl, (refl, tt, λ j n. refl))
  reset_loop_lem [] pre (x ∷ old) i s b d e f = absurd (omega arith)
  reset_loop_lem (id ∷ ids) pre [] i s b d e f = absurd (omega arith)
  reset_loop_lem (id ∷ ids) pre (x ∷ old) i s (lt, b) (new, d) e f =
      let (s', run, (len, (ev, here, z), keep)) = set_value_lem id 0 s lt in
      let step : set (pre ++ x ∷ old) i 0 ≡ (pre ++ 0 ∷ []) ++ old =
        ap (λ k. set (pre ++ x ∷ old) k 0) f ∙ set-append pre x 0 old in
      let (r, run', (out, have, others)) =
        reset_loop_lem ids (pre ++ 0 ∷ []) old (i + 1) s' (rw len b) d (omega arith)
          (omega (arith, length-append pre (0 ∷ []))) in
      (
        r,
        rw (run, ◌>>=◌, step) run',
        (
          out ∙ append_assoc pre (0 ∷ []) (replicate (length ids) 0),
          ((ev, others id new ∙ here, z), have),
          λ j n. others j n.1 ∙ keep j (λ q. n.0 (sym q)),
        ),
      )

  -- Resetting a context of distinct events of the table, with a counter for each, succeeds. All its
  -- counters and the values of its events are 0 afterwards, and all other events are as before.
  pub rocs_ctx_reset-Have :
      (ctx : Ctx) (s : Rocs σ)
      → AreBelow (length s.events) ctx.events_id
      → AreDistinct ctx.events_id
      → length ctx.counters ≡ length ctx.events_id
      → let zeros : List ℕ = replicate (length ctx.events_id) 0 in
        Returns (rocs_ctx_reset ctx s) (λ r.
          (r.0 ≡ papi_ok)
          × (r.1 ≡ record ctx { counters = zeros })
          × Have r.2.events ctx.events_id zeros
          × ((j : ℕ) → NotIn j ctx.events_id → ntv_event r.2.events j ≡ ntv_event s.events j))
  unfolding rocs_ctx_reset
  rocs_ctx_reset-Have ctx s b d e =
      let ((counters, s'), run, (out, have, others)) =
        reset_loop_lem ctx.events_id [] ctx.counters 0 s b d e refl in
      (
        (papi_ok, record ctx { counters = counters }, s'),
        rw (rocs_ctx_reset, run) refl,
        (refl, ap (λ c. record ctx { counters = c }) out, have, others),
      )
