-- ===== src/Plugin/Counters.antt =====
-- The registration of counters (get_event_info and add_counter of
-- plugins/scorep-coretemp-plugin/apapi.c).
pub mod Codes
pub mod Threads
pub mod History
pub mod Enabling
use scorep_amd.Common.{
  ℕ, zero, suc, ◌+◌, ◌*◌, ◌^◌, Bool, true, false, Option, none, some, List, [], ◌∷◌, if◌then◌else◌,
  ltb, ◌==◌, length, set, take, replicate,
}
use scorep_amd.Common.Run.{Run, ok, fault, ◌>>=◌, out_of_bounds}
use scorep_amd.Plugin.{Event, Globals, event_at, default_buf_size}
use scorep_amd.Common.Strings.{Text}

-- What the calls of PAPI and of the thread library yield: `none` and `false` are failures. An event
-- set is created for an element of `event_list`, and a thread as well.
pub record Calls : Type 0 where
  pub event_name_to_code : Text → Option ℕ
  pub query_event : ℕ → Bool
  pub create_eventset : ℕ → Option ℕ
  pub add_events : ℕ → List ℕ → Bool
  pub start : ℕ → Bool
  pub create_thread : ℕ → Bool

-- An element of a static array, and one that `memset` cleared.
abbrev pub cleared_event : Event
cleared_event = record {
  enabled = false;
  cpu = 0;
  event_set = some 0;
  num_cntrs = 0;
  started = false;
  timevalues = none;
  sample_count = 0;
}

-- The globals before the first call; `EventCodes` has NUM_EVENTS elements.
abbrev pub initial_globals : Globals
initial_globals = record {
  event_codes = replicate 32 0;
  global_num_cntrs = 0;
  event_list = replicate 512 cleared_event;
  event_list_size = 0;
  counter_enabled = true;
  buf_size = default_buf_size;
  interval_us = 100000;
}

-- `apapi_name`: "A2" and as much of the name as 128 bytes hold.
abbrev pub metric_name : Text → Text
metric_name name = b'A' ∷ b'2' ∷ take 125 name

-- The part of `get_event_info` after the event code is known. `memory` says whether `malloc` succeeds.
register_code : Calls → Bool → Text → ℕ → Globals → Globals × Option Text
register_code calls memory name code g =
    if calls.query_event code
    then (
      record g { global_num_cntrs = g.global_num_cntrs + 1 },
      if memory then some (metric_name name) else none,
    )
    else (g, none)

-- The result is the name of the one metric, or `none` for a null pointer. `PAPI_event_name_to_code`
-- writes to `EventCodes[global_num_cntrs]` when it succeeds, without a test of the index.
pub get_event_info : Calls → Bool → Text → Globals → Run (Globals × Option Text)
unfolding register_code
get_event_info calls memory name g = elim (calls.event_name_to_code name) [
  | none ↦ ok (g, none)
  | some code ↦
      if ltb g.global_num_cntrs (length g.event_codes)
      then ok (
          register_code calls memory name code
            (record g { event_codes = set g.event_codes g.global_num_cntrs code }))
      else fault out_of_bounds
]

-- The loop of `add_counter` over the threads that are sampled, with the rounds left and `i`.
find_thread : ℕ → ℕ → ℕ → List Event → Run (Option ℕ)
find_thread cpu zero i events = ok none
find_thread cpu (suc left) i [] = fault out_of_bounds
find_thread cpu (suc left) i (ev ∷ events) =
    let rest = find_thread cpu left (i + 1) events in if ev.cpu == cpu then ok (some i) else rest

put_event : ℕ → Event → Globals → Globals
put_event id ev g = record g { event_list = set g.event_list id ev }

new_event : ℕ → Event
new_event cpu = record cleared_event { enabled = true; cpu = cpu; event_set = none }

-- The index of the calling thread's event, which is made at the end of `event_list` if need be.
choose_event : ℕ → Globals → Option ℕ → Run (Globals × ℕ)
unfolding put_event new_event
choose_event cpu g (some id) = ok (g, id)
choose_event cpu g none =
    if ltb g.event_list_size (length g.event_list)
    then ok (
      put_event g.event_list_size (new_event cpu)
          (record g { event_list_size = g.event_list_size + 1 }),
      g.event_list_size,
    )
    else fault out_of_bounds

-- An event set is filled with the first `num_cntrs` codes, started, and given to a new thread.
start_eventset : Calls → ℕ → ℕ → ℕ → Event → Globals → Globals × Option ℕ
unfolding put_event
start_eventset calls counter_id id event_set ev g =
    let ev' = record ev { event_set = some event_set } in
    if calls.add_events event_set (take ev.num_cntrs g.event_codes)
    then (if calls.start event_set
        then (if calls.create_thread id
            then (put_event id (record ev' { started = true }) g, some counter_id)
            else (put_event id ev' g, none))
        else (put_event id ev' g, none))
    else (put_event id ev' g, none)

start_sampling : Calls → ℕ → ℕ → Event → Globals → Globals × Option ℕ
unfolding start_eventset
start_sampling calls counter_id id ev g = elim (calls.create_eventset id) [
  | none ↦ (g, none)
  | some event_set ↦ start_eventset calls counter_id id event_set ev g
]

-- The part of `add_counter` from `counter_id` on.
count_counter : Calls → ℕ → Event → Globals → Globals × Option ℕ
unfolding put_event start_sampling
count_counter calls id ev g =
    let counter_id = id * 2 ^ 8 + ev.num_cntrs in
    let ev' = record ev { num_cntrs = ev.num_cntrs + 1 } in
    let g' = put_event id ev' g in
    if ev.num_cntrs + 1 == g.global_num_cntrs
    then start_sampling calls counter_id id ev' g'
    else (g', some counter_id)

-- `cpu` is the identity of the calling thread; the result is the counter's id, or `none` for -1.
pub add_counter : Calls → ℕ → Globals → Run (Globals × Option ℕ)
unfolding find_thread choose_event event_at count_counter
add_counter calls cpu g = do
  found ← find_thread cpu g.event_list_size 0 g.event_list
  chosen ← choose_event cpu g found
  ev ← event_at chosen.0.event_list chosen.1
  ok (count_counter calls chosen.1 ev chosen.0)

-- `enable_counter` and `disable_counter`: the counter's id is the index into `event_list`.
pub set_enabled : Bool → ℕ → Globals → Run Globals
unfolding event_at put_event
set_enabled on id g = do
  ev ← event_at g.event_list id
  ok (put_event id (record ev { enabled = on }) g)
