-- ===== src/Plugin/Sampler.antt =====
-- The sampling thread and the hand-over of its buffer (thread_report and get_all_values of
-- plugins/scorep-coretemp-plugin/apapi.c). `debug` says whether HAVE_DEBUG is defined, as it is in
-- the two rocm_smi plugins.
pub mod Buffer
pub mod Recorded
pub mod Loop
pub mod Values
use scorep_amd.Common.{
  ℕ, zero, suc, ◌+◌, ◌*◌, ◌/◌, ◌%◌, ◌^◌, Bool, true, false, Option, none, some, List, [], ◌∷◌,
  if◌then◌else◌, ltb, ◌==◌, length, get_elem?, set, replicate,
}
use scorep_amd.Common.Run.{
  Run, ok, fault, ◌>>=◌, null_dereference, division_by_zero, out_of_bounds, not_joinable,
}
use scorep_amd.Plugin.{Event, Globals, event_at}

abbrev pub u64 : ℕ → ℕ
u64 n = n % 2 ^ 64

-- What one turn of the loop meets: `wtime` is `none` if no clock is set, and `read` holds the values
-- that `PAPI_read` writes, or `none` if it fails.
pub record Round : Type 0 where
  pub wtime : Option ℕ
  pub enabled : Bool
  pub read : Option (List ℕ)

-- `ev->timevalues` (`none` is a null pointer), `tv_pos` and `ev->sample_count`.
pub record Progress : Type 0 where
  pub timevalues : Option (List ℕ)
  pub tv_pos : ℕ
  pub sample_count : ℕ

-- How the loop is left: by `return`, or by its test or `break`, after which the counters are stopped.
pub data Ending : Type 0 where
  returned stopped : Ending

pub data Turn : Type 0 where
  again : Progress → Turn
  leave : Ending → Progress → Turn

pub store : Option (List ℕ) → ℕ → ℕ → Run (List ℕ)
store none pos v = fault null_dereference
store (some buf) pos v =
    if ltb pos (length buf) then ok (set buf pos (u64 v)) else fault out_of_bounds

-- `PAPI_read(ev->EventSet, &ev->timevalues[pos])`
pub store_all : List ℕ → ℕ → List ℕ → Run (List ℕ)
store_all buf pos [] = ok buf
store_all buf pos (v ∷ vs) = do buf' ← store (some buf) pos v; store_all buf' (pos + 1) vs

-- The reading part of a turn.
pub read_counters : ℕ → Option (List ℕ) → List ℕ → Progress → Run Turn
read_counters num_cntrs none buf p =
    ok (leave returned (record p { timevalues = some buf; tv_pos = p.tv_pos + 1 }))
read_counters num_cntrs (some values) buf p = do
  buf' ← store_all buf (p.tv_pos + 1) values
  ok (
      again (record {
        timevalues = some buf';
        tv_pos = u64 (p.tv_pos + 1 + num_cntrs);
        sample_count = (p.sample_count + 1) % 2 ^ 32;
      }))

pub take_sample : ℕ → ℕ → ℕ → Option (List ℕ) → Progress → Run Turn
take_sample num_buf_elems num_cntrs timestamp read p =
    if ltb num_buf_elems (u64 (p.tv_pos + num_cntrs + 1))
    then ok (leave stopped p)
    else (do buf ← store p.timevalues p.tv_pos timestamp; read_counters num_cntrs read buf p)

-- The body of the loop, by the clock, `ev->enabled` and what can be read.
pub turn : ℕ → ℕ → Option ℕ → Bool → Option (List ℕ) → Progress → Run Turn
turn num_buf_elems num_cntrs none enabled read p = ok (leave returned p)
turn num_buf_elems num_cntrs (some timestamp) true read p =
    take_sample num_buf_elems num_cntrs timestamp read p
turn num_buf_elems num_cntrs (some timestamp) false read p = ok (again p)

-- `while (counter_enabled)`: the list ends when the flag is cleared.
pub sample_loop : ℕ → ℕ → List Round → Progress → Run (Ending × Progress)
sample_loop num_buf_elems num_cntrs [] p = ok (stopped, p)
sample_loop num_buf_elems num_cntrs (r ∷ rs) p = do
  next ← turn num_buf_elems num_cntrs r.wtime r.enabled r.read p
  elim next [ again p' ↦ sample_loop num_buf_elems num_cntrs rs p' | leave e p' ↦ ok (e, p') ]

-- With HAVE_DEBUG the last line prints `timesum / ev->sample_count++`.
pub print_average : Bool → ℕ → Run ℕ
print_average false n = ok n
print_average true n = if n == 0 then fault division_by_zero else ok ((n + 1) % 2 ^ 32)

pub after_loop : Bool → Ending × Progress → Event → Run Event
after_loop debug (returned, p) ev =
    ok (record ev { timevalues = p.timevalues; sample_count = p.sample_count })
after_loop debug (stopped, p) ev = do
  n ← print_average debug p.sample_count
  ok (record ev { timevalues = p.timevalues; sample_count = n })

-- The second argument says whether `calloc` succeeds.
pub thread_report : Bool → Bool → ℕ → List Round → Event → Run Event
thread_report debug memory buf_size rounds ev = do
  let num_buf_elems = buf_size / 8
  let buf = if memory then some (replicate num_buf_elems 0) else none
  r ←
      sample_loop num_buf_elems ev.num_cntrs rounds
        (record { timevalues = buf; tv_pos = 0; sample_count = 0 })
  after_loop debug r ev

load : Option (List ℕ) → ℕ → Run ℕ
load none pos = fault null_dereference
load (some buf) pos = elim (get_elem? buf pos) [ none ↦ fault out_of_bounds | some v ↦ ok v ]

-- The loop of `get_all_values`, with the rounds left.
pub collect : ℕ → ℕ → ℕ → ℕ → Option (List ℕ) → Run (List (ℕ × ℕ))
collect zero tv_pos cntr_id num_cntrs timevalues = ok []
collect (suc n) tv_pos cntr_id num_cntrs timevalues = do
  timestamp ← load timevalues tv_pos
  value ← load timevalues (tv_pos + 1 + cntr_id)
  rest ← collect n (tv_pos + 1 + num_cntrs) cntr_id num_cntrs timevalues
  ok ((timestamp, value) ∷ rest)

-- What each sampling thread meets before the flag is cleared, and whether its `calloc` succeeds.
pub record Threads : Type 0 where
  pub rounds : ℕ → List Round
  pub memory : ℕ → Bool

-- `pthread_join`: the thread has run; a handle that `pthread_create` never set is not joinable.
join_thread : Bool → Bool → ℕ → List Round → Event → Run Event
unfolding thread_report
join_thread debug memory buf_size rounds ev =
    if ev.started then thread_report debug memory buf_size rounds ev else fault not_joinable

-- The joins for the events below `event_list_size`.
join_loop : Bool → ℕ → Threads → ℕ → ℕ → List Event → Run (List Event)
unfolding join_thread
join_loop debug buf_size th zero i events = ok events
join_loop debug buf_size th (suc left) i [] = fault out_of_bounds
join_loop debug buf_size th (suc left) i (ev ∷ events) = do
  ev' ← join_thread debug (th.memory i) buf_size (th.rounds i) ev
  rest ← join_loop debug buf_size th left (i + 1) events
  ok (ev' ∷ rest)

stop_threads : Bool → Threads → Globals → Run Globals
unfolding join_loop
stop_threads debug th g =
    if g.counter_enabled
    then (do
      events ← join_loop debug g.buf_size th g.event_list_size 0 g.event_list
      ok (record g { counter_enabled = false; event_list = events }))
    else ok g

-- `malloc` fails if `memory` is `false`; then the number of values is 0 and `*result` is left alone.
pub get_all_values : Bool → Bool → Threads → ℕ → Globals → Run (Globals × List (ℕ × ℕ))
unfolding stop_threads event_at collect
get_all_values debug memory th id g = do
  g' ← stop_threads debug th g
  ev ← event_at g'.event_list (id / 2 ^ 8)
  if memory
      then (do
        values ← collect ev.sample_count 0 (id % 2 ^ 8) ev.num_cntrs ev.timevalues
        ok (g', values))
      else ok (g', [])
