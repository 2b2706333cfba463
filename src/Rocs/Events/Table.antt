-- ===== src/Rocs/Events/Table.antt =====
-- The event table (patches/rocm_smi/rocs.c): `init_event_table`, `shutdown_event_table`, and the
-- functions that look events up.
use scorep_amd.Common.{
  ℕ, ◌+◌, ◌-◌, ◌%◌, ◌^◌, Bool, true, false, Option, none, some, List, [], ◌∷◌, ◌++◌, length,
  if◌then◌else◌, ltb, ◌==◌, get_elem?, take, replicate,
}
use scorep_amd.Common.Run.{Run, ok, fault, ◌>>=◌, null_dereference}
use scorep_amd.Common.Strings.{Text}
use scorep_amd.Htable
use scorep_amd.Htable.{
  Memory, Errno, success, enoval, einval, enomem, htable_insert, htable_delete, htable_find,
}
use scorep_amd.Rocs.{
  PapiErrno, papi_ok, papi_einval, papi_enomem, papi_ecmp, papi_emisc, papi_enoevnt, papi_end,
}
use scorep_amd.Rocs.Events.{Catalog, Statics}
use scorep_amd.Rocs.Events.Counting.{Tally, get_ntv_events_count}
use scorep_amd.Rocs.Events.Filling.{TableEvent, Fill, get_ntv_events}

-- `ntv_table`, `htable` and the static arrays of both passes. The pointer to an event that the hash
-- table keeps is the event's id.
pub record EventTable : Type 0 where
  pub events : List TableEvent
  pub names : Option (Htable.Table ℕ)
  pub counting : Statics
  pub filling : Statics

-- The calls of `htable_insert`, one for each event; their error numbers are not looked at.
unfoldable pub insert_events :
    Memory → List TableEvent → Option (Htable.Table ℕ) → Run (Option (Htable.Table ℕ))
insert_events mem [] names = ok names
insert_events mem (e ∷ events) names =
    htable_insert mem names e.name (some e.id) >>= λ r. insert_events mem events r.1

-- After the second pass: where it failed, the events are freed again.
unfoldable pub table_filled :
    EventTable → Option (Htable.Table ℕ) → PapiErrno × Fill → PapiErrno × EventTable
table_filled s names (papi_ok, f) =
    (papi_ok, record s { events = f.events; names = names; filling = f.statics })
table_filled s names (e, f) = (e, record s { names = names; filling = f.statics })

-- After the first pass.
unfoldable pub table_counted :
    Memory → Bool → Catalog → EventTable → Bool × Tally → Run (PapiErrno × EventTable)
unfolding insert_events table_filled
table_counted mem has_array m s (false, c) = ok (papi_emisc, record s { counting = c.statics })
table_counted mem false m s (true, c) = ok (papi_enomem, record s { counting = c.statics })
table_counted mem true m s (true, c) = get_ntv_events m s.filling c.count >>= λ r.
    insert_events mem r.1.events s.names >>= λ names.
    ok (table_filled (record s { counting = c.statics }) names r)

-- `init_event_table`; `has_array` says whether the array can be allocated.
unfoldable pub init_event_table :
    Memory → Bool → Catalog → EventTable → Run (PapiErrno × EventTable)
unfolding table_counted
init_event_table mem has_array m s =
    get_ntv_events_count m s.counting >>= table_counted mem has_array m s

unfoldable pub delete_events :
    Memory → List TableEvent → Option (Htable.Table ℕ) → Run (Option (Htable.Table ℕ))
delete_events mem [] names = ok names
delete_events mem (e ∷ events) names =
    htable_delete mem names e.name >>= λ r. delete_events mem events r.1

-- `shutdown_event_table`
unfoldable pub shutdown_event_table : Memory → EventTable → Run (PapiErrno × EventTable)
unfolding delete_events
shutdown_event_table mem s = delete_events mem s.events s.names >>= λ names.
    ok (papi_ok, record s { events = []; names = names })

-- `PAPI_ENUM_FIRST`, `PAPI_ENUM_EVENTS`, and the other modifiers.
pub data EnumModifier : Type 0 where
  enum_first enum_events other_modifier : EnumModifier

-- `rocs_evt_enum`: the result and `*event_code`, an `unsigned int`.
unfoldable pub rocs_evt_enum : EventTable → ℕ → EnumModifier → PapiErrno × ℕ
rocs_evt_enum s code enum_first = ((if length s.events == 0 then papi_enoevnt else papi_ok), 0)
rocs_evt_enum s code enum_events =
    if ltb ((code + 1) % 2 ^ 32) (length s.events)
    then (papi_ok, (code + 1) % 2 ^ 32)
    else (papi_end, code)
rocs_evt_enum s code other_modifier = (papi_einval, code)

-- `event->id`, where the event was found.
unfoldable pub found_code : Errno × Option (Option ℕ) → Run (PapiErrno × Option ℕ)
found_code (success, some (some id)) = ok (papi_ok, some id)
found_code (success, found) = fault null_dereference
found_code (enoval, found) = ok (papi_enoevnt, none)
found_code (e, found) = ok (papi_ecmp, none)

-- `rocs_evt_name_to_code`: the result, and `*event_code` where it is written.
unfoldable pub rocs_evt_name_to_code : EventTable → Text → Run (PapiErrno × Option ℕ)
unfolding found_code
rocs_evt_name_to_code s name = htable_find s.names (some name) false >>= found_code

-- `strncpy(to, from, len)` of a string: exactly `len` bytes are written.
unfoldable pub strncpy : ℕ → Text → Text
strncpy len from = take len from ++ replicate (len - length from) 0

unfoldable pub copied_name : ℕ → Option Text → Run (PapiErrno × Option Text)
unfolding strncpy
copied_name len none = fault null_dereference
copied_name len (some name) = ok (papi_ok, some (strncpy len name))

-- `rocs_evt_code_to_name`: the result, and what the caller's array holds where it is written.
unfoldable pub rocs_evt_code_to_name : EventTable → ℕ → ℕ → Run (PapiErrno × Option Text)
unfolding copied_name
rocs_evt_code_to_name s code len = elim (get_elem? s.events code) [
  | none ↦ ok (papi_einval, none)
  | some e ↦ copied_name len e.name
]
