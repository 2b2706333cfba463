-- ===== src/Plugin/Examples.antt =====
-- Tests of the model of plugins/scorep-coretemp-plugin/apapi.c, and its theorems at concrete inputs.
use scorep_amd.Common.{
  ℕ, ◌*◌, ◌^◌, ◌≤◌, ◌<◌, ◌≡◌, refl, true, false, some, List, [], ◌∷◌, arith, drop, leb, length,
  replicate,
}
use mathlib.Core.Path.{subst}
use mathlib.Core.Option.{some-injective}
use scorep_amd.Common.Run.{fault, Returns, out_of_bounds}
use scorep_amd.Plugin.{Event, Globals}
use scorep_amd.Common.Strings.{is_digit}
use scorep_amd.Common.Strings.Numerals.{numeral}
use scorep_amd.Plugin.BufferSize.{init, parse_buffer_size}
use scorep_amd.Plugin.BufferSize.Numeral.{exponent, parse_buffer_size-numeral, init_bounds}
use scorep_amd.Plugin.Sampler.{Round, Threads, thread_report, get_all_values}
use scorep_amd.Plugin.Sampler.Loop.{thread_report-HasSamples}
use scorep_amd.Plugin.Sampler.Recorded.{HasSamples, ReadsAll, record_round, recorded}
use scorep_amd.Plugin.Sampler.Values.{samples_of, values, get_all_values-values}
use scorep_amd.Plugin.Counters.{Calls, initial_globals, cleared_event, add_counter}
use scorep_amd.Plugin.Counters.Codes.{get_event_infos, get_event_infos-codes}
use scorep_amd.Plugin.Counters.Threads.{Work, threads, Added, add_counter-Added}
use scorep_amd.Plugin.Counters.History.{
  add_counters, counters_of, sampled_of, count, add_counters-sampled,
}

-- "64 MB"
parse_buffer_size-numeral_example :
    parse_buffer_size (b'6' ∷ b'4' ∷ b' ' ∷ b'M' ∷ b'B' ∷ []) ≡ 64 * 1024 ^ 2
unfolding numeral exponent is_digit
parse_buffer_size-numeral_example =
    parse_buffer_size-numeral b'6' (b'4' ∷ []) (b'B' ∷ []) 1 b'M' (omega arith) (omega arith)
      (omega arith) ((omega arith), refl)

-- An interval of "0" and a buffer of "12".
init_bounds_example :
    let g' =
      (init
        (record { library_ok = true; thread_ok = true })
        (some (b'0' ∷ []))
        (some (b'1' ∷ b'2' ∷ []))
        initial_globals).0 in
    (1024 ≤ g'.buf_size) × (g'.buf_size < 2 ^ 64) × (0 < g'.interval_us) × (g'.interval_us < 2 ^ 32)
init_bounds_example =
    init_bounds (record { library_ok = true; thread_ok = true }) (some (b'0' ∷ []))
      (some (b'1' ∷ b'2' ∷ [])) initial_globals (omega arith) (omega arith)

-- Two samples of one counter, a round in which the event is disabled, and one sample more than fits.
abbrev rounds : List Round
rounds =
    record { wtime = some 10; enabled = true; read = some (7 ∷ []) }
    ∷ record { wtime = some 11; enabled = false; read = some (8 ∷ []) }
    ∷ record { wtime = some 12; enabled = true; read = some (9 ∷ []) }
    ∷ record { wtime = some 13; enabled = true; read = some (9 ∷ []) }
    ∷ []

abbrev event : Event
event = record cleared_event { enabled = true; cpu = 42; num_cntrs = 1; started = true }

one_value : (x : ℕ) (vs : List ℕ) → some (x ∷ []) ≡ some vs → length vs ≡ 1
one_value x vs e = subst (λ l. length l ≡ 1) (some-injective (x ∷ []) vs e) refl

rounds-ReadsAll : ReadsAll 1 rounds
rounds-ReadsAll = (one_value 7, (one_value 8, (one_value 9, (one_value 9, tt))))

thread_report-HasSamples_example :
    Returns
      (thread_report false true 40 rounds event)
      (λ ev'. HasSamples 5 ((10, 7 ∷ []) ∷ (12, 9 ∷ []) ∷ []) ev' × (ev'.num_cntrs ≡ 1))
unfolding recorded record_round
thread_report-HasSamples_example =
    thread_report-HasSamples 40 rounds event (omega arith) (omega arith) rounds-ReadsAll

abbrev one_thread : Globals
one_thread = record initial_globals {
  event_list = event ∷ [];
  event_list_size = 1;
  buf_size = 40;
  global_num_cntrs = 1;
}

abbrev run_threads : Threads
run_threads = record { rounds = λ _. rounds; memory = λ _. true }

get_all_values-values_example :
    Returns
      (get_all_values false true run_threads 0 one_thread)
      (λ r. (r.0.counter_enabled ≡ false) × (r.1 ≡ (10, 7) ∷ (12, 9) ∷ []))
unfolding recorded record_round values samples_of
get_all_values-values_example =
    get_all_values-values run_threads 0 0 one_thread event refl (omega arith) (omega arith) refl
      (omega arith) (omega arith) (omega arith) (refl, refl, omega arith, rounds-ReadsAll, tt)

-- PAPI knows every name by one code, and all its calls succeed.
abbrev all_work : Calls
all_work = record {
  event_name_to_code = λ _. some 5;
  query_event = λ _. true;
  create_eventset = λ id. some id;
  add_events = λ s codes. true;
  start = λ _. true;
  create_thread = λ _. true;
}

abbrev all_work-Work : Work all_work
all_work-Work = record {
  event_set = λ id. id;
  created = λ _. refl;
  added = λ _ _. refl;
  began = λ _. refl;
  thread = λ _. refl;
}

get_event_infos-codes_example :
    (1 ≤ 32
      → Returns
          (get_event_infos all_work true ((b'x' ∷ []) ∷ []) initial_globals)
          (λ r. (r.0.event_codes ≡ 5 ∷ drop 1 (replicate 32 0)) × (r.0.global_num_cntrs ≡ 1)))
    × (32 < 1
        → get_event_infos all_work true ((b'x' ∷ []) ∷ []) initial_globals ≡ fault out_of_bounds)
get_event_infos-codes_example =
    get_event_infos-codes all_work true ((b'x' ∷ []) ∷ []) (5 ∷ []) initial_globals (refl, refl, tt)
      refl

abbrev one_code : Globals
one_code = record initial_globals { global_num_cntrs = 1 }

add_counter-Added_example : Returns (add_counter all_work 42 one_code) (Added one_code 42)
add_counter-Added_example = add_counter-Added all_work 42 one_code all_work-Work (omega arith)

add_counters-sampled_example : Returns (add_counters all_work (42 ∷ 43 ∷ []) one_code) (λ r.
    (counters_of 42 (threads r.0) ≡ count 42 (42 ∷ 43 ∷ []))
    × (sampled_of 42 (threads r.0) ≡ leb 1 (count 42 (42 ∷ 43 ∷ []))))
add_counters-sampled_example =
    add_counters-sampled all_work (42 ∷ 43 ∷ []) 42 one_code all_work-Work refl (omega arith)
      (omega arith)
