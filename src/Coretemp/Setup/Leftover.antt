-- ===== src/Coretemp/Setup/Leftover.antt =====
-- _coretemp_init_component (patches/coretemp/linux-coretemp.c) where an earlier search has left events in
-- the list.
use scorep_amd.Common.{
  ℕ, ◌+◌, ◌<◌, ◌≡◌, refl, ap, sym, ◌∙◌, Bool, true, false, Option, List, [], ◌∷◌, ◌++◌, map, arith,
  length, length-append, length-replicate, replicate, le→ltb,
}
use scorep_amd.Common.Run.{ok, fault, ◌>>=◌, out_of_bounds}
use scorep_amd.Common.Strings.{Text}
use scorep_amd.Coretemp.{World, TempEvent, events, NativeEvent, Component}
use scorep_amd.Coretemp.Sightings.{Sighting, sighting, all_seen}
use scorep_amd.Coretemp.Found.{HasRoom}
use scorep_amd.Coretemp.Found.Counters.{generate_event_list-all_seen}
use scorep_amd.Coretemp.Tame.{IsTame, CanCopy, IsLinked}
use scorep_amd.Coretemp.Tame.Counters.{generate_event_list-goes}
use scorep_amd.Coretemp.Setup.{
  cleared, native_event, copy_event, copy_loop, copy_events, energy_loop, after_energy, fill,
  after_search, base_dir, init_component,
}
use scorep_amd.Coretemp.Setup.Filled.{
  init_component-fresh, copy_event-words_fit, length-map-sighting, after_search-fill,
}

all-IsLinked : (root : List TempEvent) (last : Bool) → last ≡ true → IsLinked root last
all-IsLinked [] last e = tt
all-IsLinked (ev ∷ evs) last e = e

-- The table can hold fewer events than are left to be copied.
copy_loop-overflows :
    (w : World) (evs : List TempEvent) (pre rest : List NativeEvent)
    → CanCopy w evs
    → length rest < length evs
    → copy_loop w evs (length pre) (pre ++ rest) ≡ fault out_of_bounds
unfolding copy_loop copy_event
copy_loop-overflows w [] pre rest c h = absurd (omega arith)
copy_loop-overflows w (ev ∷ evs) pre [] c h =
    rw (le→ltb (length pre) (length (pre ++ [])) (omega (arith, length-append pre []))) refl
copy_loop-overflows w (ev ∷ evs) pre (x ∷ rest) (e, c) h =
    let new = native_event ev (length pre) in
    let next : length (pre ++ new ∷ []) ≡ length pre + 1 =
      omega (arith, length-append pre (new ∷ [])) in
    ap (λ r. r >>= λ t. copy_loop w evs (length pre + 1) t) (copy_event-words_fit w ev pre rest x e)
    ∙ ap (λ i. copy_loop w evs i ((pre ++ new ∷ []) ++ rest)) (sym next)
    ∙ copy_loop-overflows w evs (pre ++ new ∷ []) rest c (omega arith)

copy_events-overflows :
    (w : World) (evs : List TempEvent) (n : ℕ)
    → CanCopy w evs
    → n < length evs
    → copy_events w evs (replicate n cleared) ≡ fault out_of_bounds
unfolding copy_events
copy_events-overflows w [] n c h = absurd (omega arith)
copy_events-overflows w (ev ∷ evs) n c h =
    copy_loop-overflows w (ev ∷ evs) [] (replicate n cleared) c
      (omega (arith, length-replicate n cleared))

length_of-append :
    (xs ys : List Sighting) (zs : List Sighting) → zs ≡ xs ++ ys → length zs ≡ length xs + length ys
length_of-append xs ys zs e = ap length e ∙ length-append xs ys

-- Where events of an earlier search are still in the list, and fit the table, an initialization that
-- finds some on a tame machine writes behind the table, which it allocates for those that it has found.
pub init_component-leftover :
    (w : World) (energy : Text → Option Text) (c : Component)
    → IsTame w
    → c.is_initialized ≡ false
    → c.search.last ≡ true
    → CanCopy w c.search.root
    → 0 < length c.search.root
    → 0 < length (all_seen w base_dir (w.dir base_dir))
    → init_component w true energy c ≡ fault out_of_bounds
unfolding fill
init_component-leftover w energy c tame fresh linked copied left pos =
    let room : HasRoom w = record {
      units_fit = omega (arith, tame.min_size);
      units_fit_name = omega (arith, tame.max_size);
      path_fits = tame.path_size;
    } in
    let goes =
      generate_event_list-goes w base_dir c.search tame (omega arith)
        (all-IsLinked c.search.root c.search.last linked) copied in
    let s = goes.0 in
    let seen = all_seen w base_dir (w.dir base_dir) in
    let found = generate_event_list-all_seen w base_dir c.search s room goes.1 in
    let n : length s.root ≡ length c.search.root + s.count = omega (
      arith,
      length-map-sighting s.root,
      length-map-sighting c.search.root,
      length_of-append (map sighting c.search.root) seen (map sighting s.root) found.0,
      found.1,
    ) in
    let c1 = record c { is_initialized = true } in
    let c2 = record c1 { num_events = events s.count; search = s } in
    init_component-fresh w true energy c fresh
    ∙ ap (after_search w true energy c1) goes.1
    ∙ after_search-fill w energy c1 s (omega (arith, found.1))
    ∙ ap
        (λ r. r >>= λ table. ok (
          after_energy (record c2 { search = record s { root = [] } }) s.count
            (energy_loop w energy table)))
        (copy_events-overflows w s.root s.count goes.2.copied (omega arith))
