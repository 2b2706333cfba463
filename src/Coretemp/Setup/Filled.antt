-- ===== src/Coretemp/Setup/Filled.antt =====
-- _coretemp_init_component (patches/coretemp/linux-coretemp.c) on a tame machine fills the table.
use scorep_amd.Common.{
  ℕ, suc, ◌+◌, ◌<◌, ◌≡◌, refl, ap, sym, ◌∙◌, Bool, true, false, Option, some, List, [], ◌∷◌, ◌++◌,
  map, arith, length, length-append, length-replicate, replicate, set-append, if◌then◌else◌, lt→ltb,
  ◌==◌, Bool-cases, inl, inr,
}
use mathlib.Core.Path.{subst}
use mathlib.Core.List.{append_assoc}
use scorep_amd.Common.Run.{ok}
use scorep_amd.Common.Strings.{Text, codes, contains}
use scorep_amd.Common.Papi.{papi_ok, papi_ecmp}
use scorep_amd.Coretemp.{World, TempEvent, Search, events, NativeEvent, Component}
use scorep_amd.Coretemp.Hwmon.{going}
use scorep_amd.Coretemp.Cray.{generate_event_list}
use scorep_amd.Coretemp.Sightings.{Sighting, sighting, hwmon_dir, all_seen}
use scorep_amd.Coretemp.Found.{HasRoom}
use scorep_amd.Coretemp.Found.Counters.{generate_event_list-all_seen}
use scorep_amd.Coretemp.Tame.{IsTame, CanCopy, IsLinked}
use scorep_amd.Coretemp.Tame.Counters.{generate_event_list-goes}
use scorep_amd.Coretemp.Measuring.Updated.{IsNumbered}
use scorep_amd.Coretemp.Setup.{
  cleared, can_copy, native_event, copy_event, copy_loop, copy_events, initial_of, opened_energy,
  energy_loop, exit_init, after_energy, fill, after_search, base_dir, init_component,
}

-- The elements that the events are copied to, from the number `i` on.
unfoldable pub native_events : List TempEvent → ℕ → List NativeEvent
unfolding native_event
native_events [] i = []
native_events (ev ∷ evs) i = native_event ev i ∷ native_events evs (i + 1)

pub copy_event-words_fit :
    (w : World) (ev : TempEvent) (pre rest : List NativeEvent) (x : NativeEvent)
    → can_copy w ev ≡ true
    → copy_event w ev (length pre) (pre ++ x ∷ rest)
      ≡ ok ((pre ++ native_event ev (length pre) ∷ []) ++ rest)
unfolding copy_event
copy_event-words_fit w ev pre rest x e =
    let new = native_event ev (length pre) in
    rw
      (
        lt→ltb (length pre) (length (pre ++ x ∷ rest))
            (omega (arith, length-append pre (x ∷ rest))),
        e,
        set-append pre x new rest,
      )
      refl

copy_loop-append :
    (w : World) (evs : List TempEvent) (pre rest : List NativeEvent)
    → CanCopy w evs
    → length rest ≡ length evs
    → copy_loop w evs (length pre) (pre ++ rest) ≡ ok (pre ++ native_events evs (length pre))
unfolding copy_loop native_events
copy_loop-append w [] pre [] c h = refl
copy_loop-append w [] pre (x ∷ rest) c h = absurd (omega arith)
copy_loop-append w (ev ∷ evs) pre [] c h = absurd (omega arith)
copy_loop-append w (ev ∷ evs) pre (x ∷ rest) (e, c) h =
    let new = native_event ev (length pre) in
    let next : length (pre ++ new ∷ []) ≡ length pre + 1 =
      omega (arith, length-append pre (new ∷ [])) in
    rw (copy_event-words_fit w ev pre rest x e) (
      subst
        (λ i. copy_loop w evs i ((pre ++ new ∷ []) ++ rest) ≡ ok (pre ++ new ∷ native_events evs i))
        next
        (copy_loop-append w evs (pre ++ new ∷ []) rest c (omega arith)
          ∙ ap ok (append_assoc pre (new ∷ []) (native_events evs (length (pre ++ new ∷ []))))))

copy_events-all :
    (w : World) (evs : List TempEvent) (n : ℕ)
    → CanCopy w evs
    → length evs ≡ n
    → 0 < n
    → copy_events w evs (replicate n cleared) ≡ ok (native_events evs 0)
unfolding copy_events
copy_events-all w [] n c h pos = absurd (omega arith)
copy_events-all w (ev ∷ evs) n c h pos =
    copy_loop-append w (ev ∷ evs) [] (replicate n cleared) c (length-replicate n cleared ∙ sym h)

-- What the table says of an event.
unfoldable pub native_sighting : NativeEvent → Sighting
native_sighting ev = record { name = ev.name; units = ev.units; path = ev.path; offset = ev.offset }

native_events-sightings :
    (evs : List TempEvent) (i : ℕ) → map native_sighting (native_events evs i) ≡ map sighting evs
unfolding native_events native_sighting sighting
native_events-sightings [] i = refl
native_events-sightings (ev ∷ evs) i =
    ap (λ l. sighting ev ∷ l) (native_events-sightings evs (i + 1))

native_events-IsNumbered : (evs : List TempEvent) (i : ℕ) → IsNumbered i (native_events evs i)
unfolding native_events
native_events-IsNumbered [] i = tt
native_events-IsNumbered (ev ∷ evs) i = (refl, native_events-IsNumbered evs (i + 1))

-- What the loop over the energy counters keeps.
record IsKept (i : ℕ) (table table' : List NativeEvent) : Type 0 where
  same_sightings : map native_sighting table' ≡ map native_sighting table
  numbered : IsNumbered i table'

IsKept-cons :
    (i v : ℕ) (ev : NativeEvent) (table table' : List NativeEvent)
    → ev.selector ≡ i + 1
    → IsKept (i + 1) table table'
    → IsKept i (ev ∷ table) (record ev { initial_value = v } ∷ table')
unfolding native_sighting
IsKept-cons i v ev table table' e k = record {
  same_sightings = ap (λ l. native_sighting ev ∷ l) k.same_sightings;
  numbered = (e, k.numbered);
}

energy_loop-IsKept :
    (w : World) (energy : Text → Option Text) (table : List NativeEvent) (i : ℕ)
    → ((path : Text) → (bytes : Text) × (energy path ≡ some bytes))
    → IsNumbered i table
    → (table' : List NativeEvent) × (energy_loop w energy table ≡ (true, table'))
      × IsKept i table table'
unfolding energy_loop opened_energy
energy_loop-IsKept w energy [] i o n = ([], refl, record { same_sightings = refl; numbered = tt })
energy_loop-IsKept w energy (ev ∷ table) i o (e, n) =
    let rest = energy_loop-IsKept w energy table (i + 1) o n in
    elim (Bool-cases (contains (codes "energy") ev.name)) [
      | inl has ↦ (
        record ev { initial_value = initial_of w (o ev.path).0 } ∷ rest.0,
        rw (has, (o ev.path).1, rest.1) refl,
        IsKept-cons i (initial_of w (o ev.path).0) ev table rest.0 e rest.2,
      )
      | inr no_energy ↦ (
        record ev { initial_value = 0 } ∷ rest.0,
        rw (no_energy, rest.1) refl,
        IsKept-cons i 0 ev table rest.0 e rest.2,
      )
    ]

pub length-map-sighting : (evs : List TempEvent) → length (map sighting evs) ≡ length evs
length-map-sighting [] = refl
length-map-sighting (ev ∷ evs) = ap suc (length-map-sighting evs)

pub init_component-fresh :
    (w : World) (memory : Bool) (energy : Text → Option Text) (c : Component)
    → c.is_initialized ≡ false
    → init_component w memory energy c
      ≡ after_search w memory energy
          (record c { is_initialized = true })
          (generate_event_list w base_dir c.search)
unfolding init_component
init_component-fresh w memory energy c e =
    ap
      (λ b.
        if b
        then ok (exit_init papi_ok c)
        else after_search w memory energy (record c { is_initialized = true })
            (generate_event_list w base_dir c.search))
      e

pub after_search-fill :
    (w : World) (energy : Text → Option Text) (c : Component) (s : Search)
    → 0 < s.count
    → after_search w true energy c (going s)
      ≡ fill w energy (record c { num_events = events s.count; search = s }) s
unfolding after_search
after_search-fill w energy c s pos =
    let c' = record c { num_events = events s.count; search = s } in
    let e : (s.count == 0) ≡ false = ground arith in
    ap (λ b. if b then ok (exit_init papi_ecmp c') else fill w energy c' s) e

-- What `fill` leaves.
filled : Component → Search → List NativeEvent → Component
filled c s table = record c {
  search = record s { root = [] };
  table = some table;
  num_native_events = s.count;
  disabled = papi_ok;
}

fill-filled :
    (w : World) (energy : Text → Option Text) (c : Component) (s : Search)
    (table : List NativeEvent)
    → CanCopy w s.root
    → length s.root ≡ s.count
    → 0 < s.count
    → energy_loop w energy (native_events s.root 0) ≡ (true, table)
    → fill w energy c s ≡ ok (papi_ok, filled c s table)
unfolding fill after_energy exit_init filled
fill-filled w energy c s table copied n pos e =
    rw (copy_events-all w s.root s.count copied n pos, e) refl

-- On a tame machine where something is to be found, the table can be allocated and the files of the
-- energy counters opened, the component is initialized from a state without a list, with no undefined
-- behaviour and without ending the program. The table then has exactly the events that are to be found,
-- in order, with the selectors 1, 2 and so on; `num_events` is their number, and the list is gone. What
-- is to be found under /sys/class/hwmon and /sys/cray/pm_counters is said from the directories and files
-- alone. Tame means that the arrays have the sizes that PAPI gives them or larger ones, allocations
-- succeed, names have at most 40 bytes and files at most 48, without NUL, and that the arrays which the
-- source may use unwritten happen to hold texts of at most 48 bytes: `modulename`, `location`, and, for
-- a counter whose file has no second word, `unit`, whose text is also not empty (an empty one would end
-- the program) and has no NUL.
pub init_component-all_seen :
    (w : World) (energy : Text → Option Text) (c : Component)
    → IsTame w
    → c.is_initialized ≡ false
    → c.search.root ≡ []
    → ((path : Text) → (bytes : Text) × (energy path ≡ some bytes))
    → 0 < length (all_seen w hwmon_dir (w.dir hwmon_dir))
    → (c' : Component) × (table : List NativeEvent) × (init_component w true energy c
        ≡ ok (papi_ok, c'))
      × (c'.table ≡ some table)
      × (map native_sighting table ≡ all_seen w hwmon_dir (w.dir hwmon_dir))
      × IsNumbered 0 table
      × (c'.num_events ≡ events (length (all_seen w hwmon_dir (w.dir hwmon_dir))))
      × (c'.is_initialized ≡ true)
      × (c'.search.root ≡ [])
unfolding filled
init_component-all_seen w energy c tame fresh empty opens pos =
    let room : HasRoom w = record {
      units_fit = omega (arith, tame.min_size);
      units_fit_name = omega (arith, tame.max_size);
      path_fits = tame.path_size;
    } in
    let goes =
      generate_event_list-goes w base_dir c.search tame (omega arith)
        (subst (λ l. IsLinked l c.search.last) (sym empty) tt) (subst (CanCopy w) (sym empty) tt) in
    let s = goes.0 in
    let seen = all_seen w base_dir (w.dir base_dir) in
    let found = generate_event_list-all_seen w base_dir c.search s room goes.1 in
    let sightings : map sighting s.root ≡ seen = found.0 ∙ ap (λ l. map sighting l ++ seen) empty in
    let n : length s.root ≡ s.count =
      sym (length-map-sighting s.root) ∙ ap length sightings ∙ sym found.1 in
    let kept =
      energy_loop-IsKept w energy (native_events s.root 0) 0 opens
        (native_events-IsNumbered s.root 0) in
    let c1 = record c { is_initialized = true } in
    let c2 = record c1 { num_events = events s.count; search = s } in
    (
      filled c2 s kept.0,
      kept.0,
      init_component-fresh w true energy c fresh
          ∙ ap (after_search w true energy c1) goes.1
          ∙ after_search-fill w energy c1 s (omega (arith, found.1))
          ∙ fill-filled w energy c2 s kept.0 goes.2.copied n (omega (arith, found.1)) kept.1,
      refl,
      kept.2.same_sightings ∙ native_events-sightings s.root 0 ∙ sightings,
      kept.2.numbered,
      ap events found.1,
      refl,
      refl,
    )
