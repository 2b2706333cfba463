-- ===== src/Coretemp/Setup/Lifecycle.antt =====
-- Initializing again, and shutting down (patches/coretemp/linux-coretemp.c).
use scorep_amd.Common.{
  ℕ, zero, suc, ◌≡◌, refl, ap, sym, ◌∙◌, Bool, true, false, Option, none, some, List, [], ◌∷◌, ◌++◌,
  length, replicate, if◌then◌else◌, ◌==◌, Bool-cases, inl, inr,
}
use mathlib.Core.List.{append_assoc, append-nil}
use scorep_amd.Common.Run.{ok, ◌>>=◌, ok_ne_fault, ok-injective, Run-cases}
use scorep_amd.Common.Strings.{Text}
use scorep_amd.Common.Papi.{PapiErrno, papi_ok, papi_enomem, papi_ecmp}
use scorep_amd.Coretemp.{World, Search, EventCount, events, error, NativeEvent, Component}
use scorep_amd.Coretemp.Hwmon.{Scan, going, failed, crashed}
use scorep_amd.Coretemp.Cray.{generate_event_list}
use scorep_amd.Coretemp.Setup.{
  cleared, copy_events, energy_loop, exit_init, after_energy, fill, after_search, base_dir,
  init_component, close_fd, close_rest, close_table, rounds_of, shutdown_component,
}
use scorep_amd.Coretemp.Setup.Filled.{init_component-fresh}

-- The component counts as initialized after the search, whatever came of it.
after_energy-initialized :
    (c : Component) (n : ℕ) (r : Bool × List NativeEvent)
    → (after_energy c n r).1.is_initialized ≡ c.is_initialized
unfolding after_energy exit_init
after_energy-initialized c n (true, table) = refl
after_energy-initialized c n (false, table) = refl

fill-initialized :
    (w : World) (energy : Text → Option Text) (c c' : Component) (s : Search) (e : PapiErrno)
    → fill w energy c s ≡ ok (e, c')
    → c'.is_initialized ≡ c.is_initialized
unfolding fill
fill-initialized w energy c c' s e h =
    let c1 = record c { search = record s { root = [] } } in
    elim (Run-cases (copy_events w s.root (replicate s.count cleared))) [
      | inl r ↦
          let result = after_energy c1 s.count (energy_loop w energy r.0) in
          let h' : ok result ≡ ok (e, c') = rw r.1 at h in
          ap (λ p. p.1.is_initialized) (sym (ok-injective result (e, c') h'))
          ∙ after_energy-initialized c1 s.count (energy_loop w energy r.0)
      | inr r ↦ absurd (ok_ne_fault (e, c') r.0 (rw r.1 at h))
    ]

exit_init-initialized :
    (c c' : Component) (e e' : PapiErrno)
    → ok (exit_init e' c) ≡ ok (e, c')
    → c'.is_initialized ≡ c.is_initialized
unfolding exit_init
exit_init-initialized c c' e e' h =
    ap (λ p. p.1.is_initialized) (sym (ok-injective (exit_init e' c) (e, c') h))

allocated-initialized :
    (w : World) (memory : Bool) (energy : Text → Option Text) (c c' : Component) (s : Search)
    (e : PapiErrno)
    → (if memory then fill w energy c s else ok (exit_init papi_enomem (record c { table = none })))
      ≡ ok (e, c')
    → c'.is_initialized ≡ c.is_initialized
allocated-initialized w true energy c c' s e h = fill-initialized w energy c c' s e h
allocated-initialized w false energy c c' s e h =
    exit_init-initialized (record c { table = none }) c' e papi_enomem h

after_search-initialized :
    (w : World) (memory : Bool) (energy : Text → Option Text) (c c' : Component) (scan : Scan)
    (e : PapiErrno)
    → after_search w memory energy c scan ≡ ok (e, c')
    → c'.is_initialized ≡ c.is_initialized
unfolding after_search
after_search-initialized w memory energy c c' (crashed why) e h = absurd (ok_ne_fault (e, c') why h)
after_search-initialized w memory energy c c' (failed e' s) e h =
    exit_init-initialized (record c { num_events = error e'; search = s }) c' e papi_ecmp h
after_search-initialized w memory energy c c' (going s) e h =
    let c1 = record c { num_events = events s.count; search = s } in
    elim (Bool-cases (s.count == 0)) [
      | inl zero_count ↦ exit_init-initialized c1 c' e papi_ecmp (rw zero_count at h)
      | inr some_count ↦ allocated-initialized w memory energy c1 c' s e (rw some_count at h)
    ]

init_component-second :
    (w : World) (memory : Bool) (energy : Text → Option Text) (c : Component)
    → c.is_initialized ≡ true
    → init_component w memory energy c ≡ ok (papi_ok, record c { disabled = papi_ok })
unfolding init_component exit_init
init_component-second w memory energy c e =
    ap
      (λ b.
        if b
        then ok (papi_ok, record c { disabled = papi_ok })
        else after_search w memory energy (record c { is_initialized = true })
            (generate_event_list w base_dir c.search))
      e

-- Whatever the first initialization returned, an error too, and on whatever machine, the next one
-- returns PAPI_OK, enables the component, and changes nothing else.
pub init_component-again :
    (w w' : World) (memory memory' : Bool) (energy energy' : Text → Option Text) (c c' : Component)
    (e : PapiErrno)
    → c.is_initialized ≡ false
    → init_component w memory energy c ≡ ok (e, c')
    → init_component w' memory' energy' c' ≡ ok (papi_ok, record c' { disabled = papi_ok })
init_component-again w w' memory memory' energy energy' c c' e fresh h =
    let scan = generate_event_list w base_dir c.search in
    let c1 = record c { is_initialized = true } in
    init_component-second w' memory' energy' c' (
      after_search-initialized w memory energy c1 c' scan e
        (sym (init_component-fresh w memory energy c fresh) ∙ h))

-- The descriptors of the elements that have one.
unfoldable pub open_fds : List NativeEvent → List ℕ
open_fds [] = []
open_fds (ev ∷ table) = elim ev.fd [ none ↦ open_fds table | some fd ↦ fd ∷ open_fds table ]

open_fds-cons :
    (o : Option ℕ) (ev : NativeEvent) (table : List NativeEvent) (closed : List ℕ)
    → ev.fd ≡ o
    → close_fd o closed ++ open_fds table ≡ closed ++ open_fds (ev ∷ table)
unfolding close_fd open_fds
open_fds-cons none ev table closed e = rw e refl
open_fds-cons (some fd) ev table closed e = rw e (append_assoc closed (fd ∷ []) (open_fds table))

close_rest-open_fds :
    (table : List NativeEvent) (closed : List ℕ)
    → close_rest (length table) table closed ≡ ok (closed ++ open_fds table)
unfolding close_rest open_fds
close_rest-open_fds [] closed = ap ok (sym (append-nil closed))
close_rest-open_fds (ev ∷ table) closed =
    close_rest-open_fds table (close_fd ev.fd closed)
    ∙ ap ok (open_fds-cons ev.fd ev table closed refl)

close_table-rest :
    (n : ℕ) (table : List NativeEvent) (closed : List ℕ)
    → close_table n (some table) closed ≡ close_rest n table closed
unfolding close_table
close_table-rest zero table closed = refl
close_table-rest (suc n) table closed = refl

close_table-open_fds :
    (count : EventCount) (o : Option (List NativeEvent)) (table : List NativeEvent)
    (closed : List ℕ)
    → o ≡ some table
    → count ≡ events (length table)
    → close_table (rounds_of count) o closed ≡ ok (closed ++ open_fds table)
unfolding rounds_of
close_table-open_fds count o table closed e n =
    ap (λ k. close_table (rounds_of k) o closed) n
    ∙ ap (λ t. close_table (length table) t closed) e
    ∙ close_table-rest (length table) table closed
    ∙ close_rest-open_fds table closed

-- Shutting an initialized component down whose table has `num_events` elements has no undefined
-- behaviour: it closes the descriptors that the elements have, each once and in order, and frees the
-- table.
pub shutdown_component-open_fds :
    (c : Component) (table : List NativeEvent)
    → c.is_initialized ≡ true
    → c.table ≡ some table
    → c.num_events ≡ events (length table)
    → (c' : Component) × (shutdown_component c ≡ ok (papi_ok, c'))
      × (c'.closed ≡ c.closed ++ open_fds table)
      × (c'.table ≡ none)
      × (c'.is_initialized ≡ false)
unfolding shutdown_component
shutdown_component-open_fds c table init here n =
    let closed = c.closed ++ open_fds table in
    let c' = record c { is_initialized = false; table = none; closed = closed } in
    (
      c',
      ap
            (λ b.
              if b
              then (close_table (rounds_of c.num_events) c.table c.closed >>= λ closed'.
                  ok (papi_ok, record c { is_initialized = false; table = none; closed = closed' }))
              else ok (papi_ok, c))
            init
          ∙ ap
              (λ r. r >>= λ closed'.
                ok (papi_ok, record c { is_initialized = false; table = none; closed = closed' }))
              (close_table-open_fds c.num_events c.table table c.closed here n),
      refl,
      refl,
      refl,
    )
