-- ===== src/Plugin/Counters/Threads.antt =====
-- Which counters add_counter (plugins/scorep-coretemp-plugin/apapi.c) hands out to which thread, and
-- when it starts to sample one.
use scorep_amd.Common.{
  ℕ, zero, suc, ◌+◌, ◌*◌, ◌≤◌, ◌<◌, ◌≡◌, refl, sym, ◌∙◌, ap, Bool, true, false, Option, none, some,
  List, [], ◌∷◌, arith, if◌then◌else◌, ◌==◌, lt→ltb, length, get_elem?, set, length-set, Bool-cases,
  ◌⊎◌, inl, inr,
}
use scorep_amd.Common.Run.{ok, ◌>>=◌, Returns}
use scorep_amd.Plugin.{Event, Globals, event_at_lem}
use scorep_amd.Plugin.Counters.{
  Calls, find_thread, put_event, new_event, choose_event, start_eventset, start_sampling,
  count_counter, add_counter,
}

-- A thread, how many counters it has, and whether it is sampled.
pub record Thread : Type 0 where
  pub tid : ℕ
  pub counters : ℕ
  pub sampled : Bool

thread_of : Event → Thread
thread_of ev = record { tid = ev.cpu; counters = ev.num_cntrs; sampled = ev.started }

threads_of : ℕ → List Event → List Thread
unfolding thread_of
threads_of zero events = []
threads_of (suc left) [] = []
threads_of (suc left) (ev ∷ events) = thread_of ev ∷ threads_of left events

pub threads : Globals → List Thread
unfolding threads_of
threads g = threads_of g.event_list_size g.event_list

-- With one counter more, a thread that has `n` counters is sampled.
unfoldable pub one_more : ℕ → Thread → Thread
one_more n t = record {
  tid = t.tid;
  counters = t.counters + 1;
  sampled = if t.counters + 1 == n then true else t.sampled;
}

-- The thread `tid` adds a counter; a thread that is not in the list has had none.
unfoldable pub add : ℕ → ℕ → List Thread → List Thread
unfolding one_more
add n tid [] = one_more n (record { tid = tid; counters = 0; sampled = false }) ∷ []
add n tid (t ∷ ts) = if t.tid == tid then one_more n t ∷ ts else t ∷ add n tid ts

-- The id of the counter that the thread `tid` adds, where the first of the threads has index `i`.
pub next_id : ℕ → ℕ → List Thread → ℕ
next_id tid i [] = i * 256
next_id tid i (t ∷ ts) = if t.tid == tid then i * 256 + t.counters else next_id tid (i + 1) ts

-- All calls of PAPI and of the thread library succeed.
pub record Work (calls : Calls) : Type 0 where
  pub event_set : ℕ → ℕ
  pub created : (id : ℕ) → calls.create_eventset id ≡ some (event_set id)
  pub added : (s : ℕ) (codes : List ℕ) → calls.add_events s codes ≡ true
  pub began : (s : ℕ) → calls.start s ≡ true
  pub thread : (id : ℕ) → calls.create_thread id ≡ true

-- The loop finds the thread's event at `j`, or none, and where the event is then written.
record Found (n tid left i : ℕ) (es : List Event) : Type 0 where
  index : ℕ
  event : Event
  runs : find_thread tid left i es ≡ ok (some (i + index))
  below : index < left
  here : get_elem? es index ≡ some event
  writes :
      (ev : Event)
      → thread_of ev ≡ one_more n (thread_of event)
      → threads_of left (set es index ev) ≡ add n tid (threads_of left es)
  id : next_id tid i (threads_of left es) ≡ (i + index) * 256 + event.num_cntrs

record Missing (n tid left i : ℕ) (es : List Event) : Type 0 where
  runs : find_thread tid left i es ≡ ok none
  writes :
      (ev : Event)
      → left < length es
      → thread_of ev ≡ one_more n (record { tid = tid; counters = 0; sampled = false })
      → threads_of (suc left) (set es left ev) ≡ add n tid (threads_of left es)
  id : next_id tid i (threads_of left es) ≡ (i + left) * 256

plus_zero : (i : ℕ) → i ≡ i + 0
plus_zero i = omega arith

one_plus : (i j : ℕ) → (i + 1) + j ≡ i + suc j
one_plus i j = omega arith

cons-Found_here :
    (n tid left i : ℕ) (e : Event) (es : List Event)
    → (e.cpu == tid) ≡ true
    → Found n tid (suc left) i (e ∷ es)
unfolding find_thread threads_of add next_id thread_of
cons-Found_here n tid left i e es same = record {
  index = 0;
  event = e;
  runs = rw same (ap (λ k. ok (some k)) (plus_zero i));
  below = omega arith;
  here = refl;
  writes = λ ev h. rw (same, h) refl;
  id = rw same (omega arith);
}

cons-Found_later :
    (n tid left i : ℕ) (e : Event) (es : List Event)
    → (e.cpu == tid) ≡ false
    → Found n tid left (i + 1) es
    → Found n tid (suc left) i (e ∷ es)
unfolding find_thread threads_of add next_id thread_of
cons-Found_later n tid left i e es other f = record {
  index = suc f.index;
  event = f.event;
  runs = rw other (f.runs ∙ ap (λ k. ok (some k)) (one_plus i f.index));
  below = omega (arith, f.below);
  here = f.here;
  writes = λ ev h. rw other (ap (λ ts. thread_of e ∷ ts) (f.writes ev h));
  id = rw other (f.id ∙ ap (λ k. k * 256 + f.event.num_cntrs) (one_plus i f.index));
}

cons-Missing :
    (n tid left i : ℕ) (e : Event) (es : List Event)
    → (e.cpu == tid) ≡ false
    → Missing n tid left (i + 1) es
    → Missing n tid (suc left) i (e ∷ es)
unfolding find_thread threads_of add next_id thread_of
cons-Missing n tid left i e es other f = record {
  runs = rw other f.runs;
  writes = λ ev lt h. rw other (ap (λ ts. thread_of e ∷ ts) (f.writes ev (omega arith) h));
  id = rw other (f.id ∙ ap (λ k. k * 256) (one_plus i left));
}

Missing-zero : (n tid i : ℕ) (es : List Event) → Missing n tid zero i es
unfolding find_thread threads_of add next_id thread_of
Missing-zero n tid i [] = record {
  runs = refl;
  writes = λ ev lt h. elim lt [ ];
  id = ap (λ k. k * 256) (plus_zero i);
}
Missing-zero n tid i (e ∷ es) = record {
  runs = refl;
  writes = λ ev lt h. ap (λ t. t ∷ []) h;
  id = ap (λ k. k * 256) (plus_zero i);
}

find_thread_lem :
    (n tid left i : ℕ) (es : List Event)
    → left ≤ length es
    → Found n tid left i es ⊎ Missing n tid left i es
find_thread_lem n tid zero i es le = inr (Missing-zero n tid i es)
find_thread_lem n tid (suc left) i [] le = absurd (omega arith)
find_thread_lem n tid (suc left) i (e ∷ es) le = elim (Bool-cases (e.cpu == tid)) [
  | inl same ↦ inl (cons-Found_here n tid left i e es same)
  | inr other ↦ elim (find_thread_lem n tid left (i + 1) es (omega arith)) [
    | inl f ↦ inl (cons-Found_later n tid left i e es other f)
    | inr f ↦ inr (cons-Missing n tid left i e es other f)
  ]
]

-- What a call of `add_counter` leaves.
pub record Added (g : Globals) (tid : ℕ) (r : Globals × Option ℕ) : Type 0 where
  pub id : r.1 ≡ some (next_id tid 0 (threads g))
  pub now : threads r.0 ≡ add g.global_num_cntrs tid (threads g)
  pub room : length r.0.event_list ≡ length g.event_list
  pub size : r.0.event_list_size ≤ g.event_list_size + 1
  pub fits : r.0.event_list_size ≤ length r.0.event_list
  pub codes : r.0.global_num_cntrs ≡ g.global_num_cntrs

set-set : (es : List Event) (i : ℕ) (x y : Event) → set (set es i x) i y ≡ set es i y
set-set [] i x y = refl
set-set (e ∷ es) zero x y = refl
set-set (e ∷ es) (suc i) x y = ap (λ l. e ∷ l) (set-set es i x y)

get_elem?-set :
    (es : List Event) (i : ℕ) (x : Event) → i < length es → get_elem? (set es i x) i ≡ some x
get_elem?-set [] i x lt = elim lt [ ]
get_elem?-set (e ∷ es) zero x lt = refl
get_elem?-set (e ∷ es) (suc i) x lt = get_elem?-set es i x (omega arith)

start_sampling_lem :
    (calls : Calls) (counter_id id : ℕ) (ev : Event) (g : Globals) (w : Work calls)
    → start_sampling calls counter_id id ev g ≡ (
      put_event id (record ev { event_set = some (w.event_set id); started = true }) g,
      some counter_id,
    )
unfolding start_sampling start_eventset
start_sampling_lem calls counter_id id ev g w =
    rw
      (
        start_sampling,
        w.created id,
        start_eventset,
        w.added (w.event_set id),
        w.began (w.event_set id),
        w.thread id,
      )
      refl

-- The event that is written last.
count_counter_lem :
    (calls : Calls) (id : ℕ) (ev : Event) (g : Globals)
    → Work calls
    → (ev' : Event) × (thread_of ev' ≡ one_more g.global_num_cntrs (thread_of ev))
      × (count_counter calls id ev g
          ≡ (record g { event_list = set g.event_list id ev' }, some (id * 256 + ev.num_cntrs)))
unfolding count_counter put_event thread_of one_more
count_counter_lem calls id ev g w = elim (Bool-cases (ev.num_cntrs + 1 == g.global_num_cntrs)) [
  | inl full ↦ (
    record ev { num_cntrs = ev.num_cntrs + 1; event_set = some (w.event_set id); started = true },
    simp full,
    rw
        (
          full,
          start_sampling_lem calls (id * 256 + ev.num_cntrs) id
              (record ev { num_cntrs = ev.num_cntrs + 1 })
              (record g {
                event_list = set g.event_list id (record ev { num_cntrs = ev.num_cntrs + 1 });
              })
              w,
          set-set,
        )
        refl,
  )
  | inr more ↦ (record ev { num_cntrs = ev.num_cntrs + 1 }, simp more, simp more)
]

plus_one : (i : ℕ) → i + 1 ≡ suc i
plus_one i = omega arith

plus_zero_eq : (i : ℕ) → i * 256 + 0 ≡ i * 256
plus_zero_eq i = omega arith

zero_plus : (i : ℕ) → 0 + i ≡ i
zero_plus i = omega arith

-- Where the call has found or made the thread's event.
add_counter_run :
    (calls : Calls) (tid id : ℕ) (g g' : Globals) (found : Option ℕ) (ev : Event)
    → find_thread tid g.event_list_size 0 g.event_list ≡ ok found
    → choose_event tid g found ≡ ok (g', id)
    → get_elem? g'.event_list id ≡ some ev
    → add_counter calls tid g ≡ ok (count_counter calls id ev g')
unfolding add_counter
add_counter_run calls tid id g g' found ev run run' here =
    rw (run, ◌>>=◌, run', event_at_lem g'.event_list id ev here) refl

-- A call of `add_counter` where PAPI and the thread library succeed, and `event_list` is not full,
-- has no undefined behaviour. It gives the calling thread one counter more, returns the id of that
-- counter (256 times the index of the thread plus the counters it had), starts the thread's sampler
-- exactly when the thread then has as many counters as codes are registered, and leaves all other
-- threads alone.
pub add_counter-Added :
    (calls : Calls) (tid : ℕ) (g : Globals)
    → Work calls
    → g.event_list_size < length g.event_list
    → Returns (add_counter calls tid g) (Added g tid)
unfolding choose_event threads put_event thread_of
add_counter-Added calls tid g w lt =
    elim (find_thread_lem g.global_num_cntrs tid g.event_list_size 0 g.event_list (omega arith)) [
      | inl f ↦
          let (ev, shape, run) = count_counter_lem calls f.index f.event g w in
          (
            (
              record g { event_list = set g.event_list f.index ev },
              some (f.index * 256 + f.event.num_cntrs),
            ),
            add_counter_run calls tid f.index g g (some f.index) f.event
                  (f.runs ∙ ap (λ k. ok (some k)) (zero_plus f.index)) refl f.here
                ∙ ap ok run,
            record {
              id = ap some (sym (f.id ∙ ap (λ k. k * 256 + f.event.num_cntrs) (zero_plus f.index)));
              now = f.writes ev shape;
              room = length-set g.event_list f.index ev;
              size = omega arith;
              fits = omega (arith, length-set g.event_list f.index ev);
              codes = refl;
            },
          )
      | inr f ↦
          let size = g.event_list_size in
          let fresh = new_event tid in
          let g' = put_event size fresh (record g { event_list_size = size + 1 }) in
          let (ev, shape, run) = count_counter_lem calls size fresh g' w in
          let same = set-set g.event_list size fresh ev in
          (
            (record g' { event_list = set g'.event_list size ev }, some (size * 256 + 0)),
            add_counter_run calls tid size g g' none fresh f.runs
                  (rw (lt→ltb size (length g.event_list) lt) refl)
                  (get_elem?-set g.event_list size fresh lt)
                ∙ ap ok run,
            record {
              id = ap some (plus_zero_eq size ∙ sym (f.id ∙ ap (λ k. k * 256) (zero_plus size)));
              now =
                  ap (λ es. threads_of (size + 1) es) same
                  ∙ ap (λ k. threads_of k (set g.event_list size ev)) (plus_one size)
                  ∙ f.writes ev lt shape;
              room = rw same (length-set g.event_list size ev);
              size = omega arith;
              fits = rw same (omega (arith, length-set g.event_list size ev));
              codes = refl;
            },
          )
    ]

pub threads_none : (g : Globals) → g.event_list_size ≡ 0 → threads g ≡ []
unfolding threads threads_of
threads_none g e = rw e refl
