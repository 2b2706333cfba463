-- ===== src/Rocs/Events/RoundTrip.antt =====
-- From the code of an event to its name and back (patches/rocm_smi/rocs.c).
use scorep_amd.Common.{
  arith, ℕ, ◌^◌, ◌<◌, ◌≡◌, refl, ap, sym, ◌∙◌, Bool, true, false, some, inl, inr, length, get_elem?,
  Option,
}
use mathlib.Core.Path.{subst}
use scorep_amd.Common.Run.{Run, ok, fault, ok-injective, ok_ne_fault, Run-cases, ◌>>=◌}
use scorep_amd.Common.Strings.{Text, NoNul, c_string}
use scorep_amd.Htable
use scorep_amd.Htable.{Memory, Errno, htable_init, htable_find}
use scorep_amd.Htable.History.{answer}
use scorep_amd.Htable.Laws.{HasMemory}
use scorep_amd.Rocs.{
  PapiErrno, papi_ok, papi_einval, papi_enomem, papi_ecmp, papi_ecnflct, papi_emisc, papi_enosupp,
  papi_enoevnt, papi_end,
}
use scorep_amd.Common.Papi.{papi_esys}
use scorep_amd.Rocs.Events.{Catalog}
use scorep_amd.Rocs.Events.Counting.{Tally, get_ntv_events_count}
use scorep_amd.Rocs.Events.Filling.{TableEvent, Fill, fill_events, get_ntv_events, written_within}
use scorep_amd.Rocs.Events.Walk.{errno_of}
use scorep_amd.Rocs.Events.Table.{
  EventTable, insert_events, table_filled, table_counted, init_event_table, rocs_evt_name_to_code,
  rocs_evt_code_to_name, found_code, copied_name, strncpy,
}
use scorep_amd.Rocs.Events.Numbering.{IsNumbered, get_elem-id}
use scorep_amd.Rocs.Events.Numbering.Passes.{fill_events-IsNumbered}
use scorep_amd.Rocs.Events.Codes.{HasDistinctNames, strncpy-c_string, found_name}

-- What a table holds after `init_event_table` has returned PAPI_OK.
pub record IsFilled (mem : Memory) (m : Catalog) (s s' : EventTable) : Type 0 where
  pub f : Fill
  pub events : s'.events ≡ f.events
  pub inserted : insert_events mem f.events s.names ≡ ok s'.names
  pub written : fill_events m s.filling ≡ ok (true, f)

filled_ok :
    (s s' : EventTable) (names : Option (Htable.Table ℕ)) (e : PapiErrno) (f : Fill)
    → table_filled s names (e, f) ≡ (papi_ok, s')
    → (e ≡ papi_ok) × ((s'.events ≡ f.events) × (names ≡ s'.names))
unfolding table_filled
filled_ok s s' names papi_ok f h = (refl, (sym (ap (λ r. r.1.events) h), ap (λ r. r.1.names) h))
filled_ok s s' names papi_einval f h = cc
filled_ok s s' names papi_enomem f h = cc
filled_ok s s' names papi_ecmp f h = cc
filled_ok s s' names papi_ecnflct f h = cc
filled_ok s s' names papi_emisc f h = cc
filled_ok s s' names papi_enosupp f h = cc
filled_ok s s' names papi_enoevnt f h = cc
filled_ok s s' names papi_esys f h = cc
filled_ok s s' names papi_end f h = cc

written_ok :
    (n : ℕ) (d : Bool) (f g : Fill)
    → written_within n (d, f) ≡ ok (papi_ok, g)
    → (d ≡ true) × (f ≡ g)
unfolding written_within errno_of
written_ok n true f g h = ground arith
written_ok n false f g h = ground arith

get_ntv_events_ok :
    (n : ℕ) (f : Fill) (run : Run (Bool × Fill))
    → (run >>= written_within n) ≡ ok (papi_ok, f)
    → run ≡ ok (true, f)
get_ntv_events_ok n f (fault w) h = cc
get_ntv_events_ok n f (ok (d, g)) h =
    let (done, same) = written_ok n d g f h in
    ap ok (ap (λ d. (d, g)) done ∙ ap (λ g. (true, g)) same)

-- After the second pass.
IsFilled-from :
    (mem : Memory) (m : Catalog) (s s₁ s' : EventTable) (n : ℕ) (run : Run (PapiErrno × Fill))
    → s₁.names ≡ s.names
    → get_ntv_events m s.filling n ≡ run
    → (run >>= λ r. insert_events mem r.1.events s.names >>= λ names. ok (table_filled s₁ names r))
      ≡ ok (papi_ok, s')
    → IsFilled mem m s s'
unfolding get_ntv_events
IsFilled-from mem m s s₁ s' n (fault w) same e h = cc
IsFilled-from mem m s s₁ s' n (ok (r, f)) same e h =
    elim (Run-cases (insert_events mem f.events s.names)) [
      | inr (w, i) ↦ absurd (ok_ne_fault (papi_ok, s') w (rw (i, ◌>>=◌) at h))
      | inl (names, i) ↦
          let h' : ok (table_filled s₁ names (r, f)) ≡ ok (papi_ok, s') = (rw (i, ◌>>=◌) at h) in
          let (fine, (kept, table)) = filled_ok s₁ s' names r f (ok-injective _ _ h') in
          record {
            f = f;
            events = kept;
            inserted = i ∙ ap ok table;
            written =
                get_ntv_events_ok n f (fill_events m s.filling) (e ∙ ap (λ r. ok (r, f)) fine);
          }
    ]

pub IsFilled-counted :
    (mem : Memory) (m : Catalog) (s s' : EventTable) (run : Run (Bool × Tally))
    → (run >>= table_counted mem true m s) ≡ ok (papi_ok, s')
    → IsFilled mem m s s'
unfolding table_counted
IsFilled-counted mem m s s' (fault w) h = cc
IsFilled-counted mem m s s' (ok (false, c)) h = cc
IsFilled-counted mem m s s' (ok (true, c)) h =
    IsFilled-from mem m s (record s { counting = c.statics }) s' c.count _ refl refl h

-- A table that `init_event_table` makes of any library with a fresh hash table, when all
-- allocations succeed and it returns PAPI_OK, with fewer than 2 ^ 28 events and without two of the
-- same name: the code of an event whose name has no NUL and is shorter than the caller's array
-- gives a C string that gives the code back.
pub name_to_code-code_to_name :
    (mem : Memory) (m : Catalog) (s s' : EventTable) (made : Errno × Option (Htable.Table ℕ))
    (code len : ℕ) (e : TableEvent) (name : Text)
    → HasMemory mem
    → htable_init mem ≡ ok made
    → s.names ≡ made.1
    → init_event_table mem true m s ≡ ok (papi_ok, s')
    → length s'.events < 2 ^ 28
    → HasDistinctNames s'.events
    → get_elem? s'.events code ≡ some e
    → e.name ≡ some name
    → NoNul name
    → length name < len
    → (to : Text) × (rocs_evt_code_to_name s' code len ≡ ok (papi_ok, some to))
      × (rocs_evt_name_to_code s' (c_string to) ≡ ok (papi_ok, some code))
unfolding init_event_table rocs_evt_code_to_name copied_name rocs_evt_name_to_code found_code
name_to_code-code_to_name mem m s s' made code len e name has init fresh run few distinct at named
      word short =
    let h = IsFilled-counted mem m s s' (get_ntv_events_count m s.counting) run in
    let numbered : IsNumbered 0 s'.events =
      subst (IsNumbered 0) (sym h.events) (fill_events-IsNumbered m s.filling h.f h.written) in
    let id : e.id ≡ code = get_elem-id 0 code s'.events e numbered at ∙ omega arith in
    let inserted : insert_events mem s'.events made.1 ≡ ok s'.names =
      (ap (λ events. insert_events mem events made.1) h.events
        ∙ ap (insert_events mem h.f.events) (sym fresh)
        ∙ h.inserted) in
    let found = found_name mem s'.events code e name has few distinct at named in
    let found' : htable_find s'.names (some name) false ≡ ok (answer (some (some e.id))) =
      (rw (init, ◌>>=◌, inserted) at found) in
    (
      strncpy len name,
      rw (rocs_evt_code_to_name, at, copied_name, named) refl,
      rw (strncpy-c_string len name word short, rocs_evt_name_to_code, found', answer, id) refl,
    )
