-- ===== src/Rocs/Events/Initialized.antt =====
-- What `init_event_table` (patches/rocm_smi/rocs.c) comes to.
use scorep_amd.Common.{
  arith, ℕ, ◌+◌, ◌^◌, ◌<◌, ◌≡◌, refl, ap, ◌∙◌, Bool, true, false, Option, length, if◌then◌else◌,
  ◌==◌,
}
use scorep_amd.Common.Run.{ok, fault, ◌>>=◌, out_of_bounds}
use scorep_amd.Htable
use scorep_amd.Htable.{Memory, Errno, htable_init}
use scorep_amd.Htable.Laws.{HasMemory}
use scorep_amd.Rocs.{papi_ok}
use scorep_amd.Rocs.Events.{Catalog, Statics}
use scorep_amd.Rocs.Events.Counting.{Tally, get_ntv_events_count}
use scorep_amd.Rocs.Events.Filling.{Fill, get_ntv_events}
use scorep_amd.Rocs.Events.Table.{
  EventTable, insert_events, table_filled, table_counted, init_event_table,
}
use scorep_amd.Rocs.Events.Agreement.{AreBelow, SameZeros}
use scorep_amd.Rocs.Events.Agreement.Leaves.{below_more}
use scorep_amd.Rocs.Events.Agreement.Groups.{Ordinary}
use scorep_amd.Rocs.Events.Agreement.Totals.{all_groups, get_ntv_events-counted}
use scorep_amd.Rocs.Events.Numbering.{IsNumbered}
use scorep_amd.Rocs.Events.Numbering.Passes.{fill_events-IsNumbered}
use scorep_amd.Rocs.Events.Codes.{insert_events-ok}

-- The table with the events of a pass.
abbrev completed : EventTable → Tally → Fill → Option (Htable.Table ℕ) → EventTable
completed s c f names = record s {
  events = f.events;
  names = names;
  counting = c.statics;
  filling = f.statics;
}

-- The second pass, and what follows it.
table_counted-choice :
    (mem : Memory) (m : Catalog) (s : EventTable) (c : Tally) (f : Fill)
    (names : Option (Htable.Table ℕ)) (fits : Bool)
    → get_ntv_events m s.filling c.count ≡ (if fits then ok (papi_ok, f) else fault out_of_bounds)
    → insert_events mem f.events s.names ≡ ok names
    → table_counted mem true m s (true, c)
      ≡ (if fits then ok (papi_ok, completed s c f names) else fault out_of_bounds)
unfolding table_counted table_filled
table_counted-choice mem m s c f names true run inserted = rw (run, ◌>>=◌, inserted) refl
table_counted-choice mem m s c f names false run inserted = rw (run, ◌>>=◌) refl

clear-SameZeros : (a b : Statics) → AreBelow a 1 → AreBelow b 1 → SameZeros a b
clear-SameZeros a b h h' = record {
  fan = λ d. ground (arith, h.fan d, h'.fan d);
  cap = λ d sub. ground (arith, h.cap d sub, h'.cap d sub);
  perf = λ d. ground (arith, h.perf d, h'.perf d);
}

-- The first pass counts `c.count` events and closes all iterators, both passes' static arrays hold 0
-- only, as before a first initialization, the functions that share an event have names, the table of
-- PCIe rates is empty, as in builds without NO_PCIE, the first type of an XGMI group is not behind its
-- last one, P2P access is symmetric and 0 or 1, the bandwidths can be read, all allocations succeed,
-- the hash table is a fresh one and there are fewer than 2 ^ 28 events. Then the second pass makes one event more than were counted for each
-- XGMI group that a listed device supports: `init_event_table` returns PAPI_OK where there is none,
-- and writes behind the end of the array of the counted size where there is one. The events that it
-- makes have their places as their ids.
pub init_event_table-counted :
    (mem : Memory) (m : Catalog) (s : EventTable) (c : Tally)
    (made : Errno × Option (Htable.Table ℕ))
    → HasMemory mem
    → htable_init mem ≡ ok made
    → s.names ≡ made.1
    → Ordinary m
    → AreBelow s.counting 1
    → AreBelow s.filling 1
    → get_ntv_events_count m s.counting ≡ ok (true, c)
    → c.count + all_groups m < 2 ^ 28
    → (s' : EventTable) × (length s'.events ≡ c.count + all_groups m)
      × IsNumbered 0 s'.events
      × (init_event_table mem true m s
          ≡ (if all_groups m == 0 then ok (papi_ok, s') else fault out_of_bounds))
unfolding init_event_table
init_event_table-counted mem m s c made has init fresh o clear clear' counted few =
    let (f, filled, long, run) =
      get_ntv_events-counted m s.counting s.filling c o
        (clear-SameZeros s.counting s.filling clear clear')
        (below_more s.filling 1 3 (omega arith) clear') counted in
    let (names, inserted) =
      insert_events-ok mem f.events made has (omega (arith, long, few)) init in
    (
      completed s c f names,
      long,
      fill_events-IsNumbered m s.filling f filled,
      ap (λ run. run >>= table_counted mem true m s) counted
          ∙ table_counted-choice mem m s c f names (all_groups m == 0) run
              (ap (insert_events mem f.events) fresh ∙ inserted),
    )
