-- ===== src/Rocs/Events/Forgotten.antt =====
-- A table that was made and shut down again (patches/rocm_smi/rocs.c).
use scorep_amd.Common.{
  arith, ℕ, ◌^◌, ◌≤◌, ◌<◌, ◌≡◌, refl, ap, sym, ◌∙◌, true, false, Option, none, some, Option-cases,
  Bool-cases, inl, inr, ◌⊎◌, List, [], ◌∷◌, ◌++◌, length, length-append,
}
use scorep_amd.Common.Run.{Run, ok, Run-cases, ◌>>=◌}
use scorep_amd.Common.Strings.{Text}
use scorep_amd.Htable
use scorep_amd.Htable.{Memory, Errno, Key, same_key, htable_init, htable_delete, htable_find}
use scorep_amd.Htable.Laws.{HasMemory, htable_delete_null}
use scorep_amd.Htable.History.{
  Call, insert, delete, performs, perform, meanings, meaning, answer, htable_refines_map,
}
use scorep_amd.Rocs.{papi_ok, papi_enoevnt}
use scorep_amd.Rocs.Events.{Catalog}
use scorep_amd.Rocs.Events.Filling.{TableEvent}
use scorep_amd.Rocs.Events.Table.{
  EventTable, insert_events, delete_events, init_event_table, shutdown_event_table,
  rocs_evt_name_to_code, found_code,
}
use scorep_amd.Rocs.Events.Codes.{
  inserts, length-inserts, insert_events-performs, bind_agree, run_before,
}
use scorep_amd.Rocs.Events.RoundTrip.{IsFilled-counted}
use scorep_amd.Rocs.Events.Counting.{get_ntv_events_count}

-- The deletions of the events that have a name.
unfoldable deletes : List TableEvent → List (Call ℕ)
deletes [] = []
deletes (e ∷ es) = elim e.name [ none ↦ deletes es | some key ↦ delete key ∷ deletes es ]

delete_events-performs :
    (mem : Memory) (es : List TableEvent) (names : Option (Htable.Table ℕ))
    → delete_events mem es names ≡ performs mem (deletes es) names
unfolding delete_events deletes performs perform
delete_events-performs mem [] names = refl
delete_events-performs mem (e ∷ es) names = elim (Option-cases e.name) [
  | inl n ↦ rw (n, htable_delete_null mem names) (delete_events-performs mem es names)
  | inr (key, n) ↦
      rw n (
        bind_agree (htable_delete mem names (some key)) _ _
          (λ r. delete_events-performs mem es r.1))
]

length-deletes : (es : List TableEvent) → length (deletes es) ≤ length es
unfolding deletes
length-deletes [] = omega arith
length-deletes (e ∷ es) = elim (Option-cases e.name) [
  | inl n ↦ rw n (omega (arith, length-deletes es))
  | inr (key, n) ↦ rw n (omega (arith, length-deletes es))
]

performs-append :
    (mem : Memory) (cs ds : List (Call ℕ)) (names : Option (Htable.Table ℕ))
    → performs mem (cs ++ ds) names ≡ (performs mem cs names >>= performs mem ds)
unfolding performs
performs-append mem [] ds names = refl
performs-append mem (c ∷ cs) ds names = elim (Run-cases (perform mem c names)) [
  | inl (r, e) ↦ rw (e, ◌>>=◌) (performs-append mem cs ds r.1)
  | inr (w, e) ↦ rw (e, ◌>>=◌) refl
]

meanings-append :
    (cs ds : List (Call ℕ)) (f : Key → Option (Option ℕ)) (q : Key)
    → meanings (cs ++ ds) f q ≡ meanings ds (meanings cs f) q
unfolding meanings
meanings-append [] ds f q = refl
meanings-append (c ∷ cs) ds f q = meanings-append cs ds (meaning c f) q

stays_none :
    (es : List TableEvent) (f : Key → Option (Option ℕ)) (q : Key)
    → f q ≡ none
    → meanings (deletes es) f q ≡ none
unfolding deletes meanings meaning
stays_none [] f q h = h
stays_none (e ∷ es) f q h = elim (Option-cases e.name) [
  | inl n ↦ rw n (stays_none es f q h)
  | inr (key, n) ↦ rw n (stays_none es (meaning (delete key) f) q (ground (arith, h)))
]

after_key :
    (es : List TableEvent) (q key : Key) (id : ℕ)
    → ((f : Key → Option (Option ℕ)) → meanings (deletes es) f q ≡ none)
      ⊎ ((f : Key → Option (Option ℕ)) → meanings (inserts es) f q ≡ f q)
    → ((f : Key → Option (Option ℕ)) → meanings (delete key ∷ deletes es) f q ≡ none)
      ⊎ ((f : Key → Option (Option ℕ)) → meanings (insert key (some id) ∷ inserts es) f q ≡ f q)
unfolding meanings meaning
after_key es q key id (inl h) = inl (λ f. h (meaning (delete key) f))
after_key es q key id (inr h) = elim (Bool-cases (same_key key q)) [
  | inl s ↦ inl (λ f. stays_none es (meaning (delete key) f) q (rw s refl))
  | inr s ↦ inr (λ f. h (meaning (insert key (some id)) f) ∙ rw s refl)
]

-- A key is deleted, or it was never inserted.
deleted_or_absent :
    (es : List TableEvent) (q : Key)
    → ((f : Key → Option (Option ℕ)) → meanings (deletes es) f q ≡ none)
      ⊎ ((f : Key → Option (Option ℕ)) → meanings (inserts es) f q ≡ f q)
unfolding inserts deletes meanings meaning
deleted_or_absent [] q = inr (λ f. refl)
deleted_or_absent (e ∷ es) q = elim (Option-cases e.name) [
  | inl n ↦ rw n (deleted_or_absent es q)
  | inr (key, n) ↦ rw n (after_key es q key e.id (deleted_or_absent es q))
]

forgotten :
    (es : List TableEvent) (q : Key) → meanings (inserts es ++ deletes es) (λ _. none) q ≡ none
forgotten es q =
    meanings-append (inserts es) (deletes es) (λ _. none) q ∙ elim (deleted_or_absent es q) [
      | inl h ↦ h (meanings (inserts es) (λ _. none))
      | inr h ↦ stays_none es (meanings (inserts es) (λ _. none)) q (h (λ _. none))
    ]

-- The calls of a table's life: what a lookup says then.
deleted_lookup :
    (mem : Memory) (es : List TableEvent) (made : Errno × Option (Htable.Table ℕ))
    (names : Option (Htable.Table ℕ)) (q : Key)
    → HasMemory mem
    → htable_init mem ≡ ok made
    → length es < 2 ^ 27
    → insert_events mem es made.1 ≡ ok names
    → (delete_events mem es names >>= λ left. htable_find left (some q) false) ≡ ok (answer none)
deleted_lookup mem es made names q has init few inserted =
    let find : Option (Htable.Table ℕ) → Run (Errno × Option (Option ℕ)) =
      λ left. htable_find left (some q) false in
    let all =
      htable_refines_map mem (inserts es ++ deletes es) q has
        (omega (arith, length-append {0}, length-inserts es, length-deletes es, few)) in
    let ran : performs mem (inserts es ++ deletes es) made.1 ≡ performs mem (deletes es) names =
      (performs-append mem (inserts es) (deletes es) made.1
        ∙ ap (λ run. run >>= performs mem (deletes es))
            (sym (insert_events-performs mem es made.1) ∙ inserted)) in
    ap (λ run. run >>= find) (delete_events-performs mem es names ∙ sym ran)
    ∙ (rw (init, ◌>>=◌) at all)
    ∙ ap (λ v. ok (answer v)) (forgotten es q)

-- A table that `init_event_table` makes of any library with a fresh hash table, when all
-- allocations succeed and it returns PAPI_OK, with fewer than 2 ^ 27 events: shutting it down
-- returns PAPI_OK, leaves no events, and no name is found in the hash table any more.
pub shutdown_event_table-forgets :
    (mem : Memory) (m : Catalog) (s s' : EventTable) (made : Errno × Option (Htable.Table ℕ))
    (name : Text)
    → HasMemory mem
    → htable_init mem ≡ ok made
    → s.names ≡ made.1
    → init_event_table mem true m s ≡ ok (papi_ok, s')
    → length s'.events < 2 ^ 27
    → (t : EventTable) × (shutdown_event_table mem s' ≡ ok (papi_ok, t))
      × (t.events ≡ [])
      × (rocs_evt_name_to_code t name ≡ ok (papi_enoevnt, none))
unfolding init_event_table shutdown_event_table rocs_evt_name_to_code
shutdown_event_table-forgets mem m s s' made name has init fresh run few =
    let h = IsFilled-counted mem m s s' (get_ntv_events_count m s.counting) run in
    let inserted : insert_events mem s'.events made.1 ≡ ok s'.names =
      (ap (λ events. insert_events mem events made.1) h.events
        ∙ ap (insert_events mem h.f.events) (sym fresh)
        ∙ h.inserted) in
    let looked = deleted_lookup mem s'.events made s'.names name has init few inserted in
    let (left, deleted) =
      run_before (delete_events mem s'.events s'.names) (λ left. htable_find left (some name) false)
        _ looked in
    let found : htable_find left (some name) false ≡ ok (answer none) =
      (rw (deleted, ◌>>=◌) at looked) in
    (
      record s' { events = []; names = left },
      rw (deleted, ◌>>=◌) refl,
      refl,
      rw (found, ◌>>=◌, answer, found_code) refl,
    )
