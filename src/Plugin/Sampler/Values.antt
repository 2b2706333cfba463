-- ===== src/Plugin/Sampler/Values.antt =====
-- What get_all_values (plugins/scorep-coretemp-plugin/apapi.c) hands to Score-P.
use scorep_amd.Common.{
  ℕ, zero, suc, ◌+◌, ◌*◌, ◌/◌, ◌%◌, ◌^◌, ◌≤◌, ◌<◌, ◌≡◌, refl, ◌∙◌, ap, true, false, Option, some,
  List, [], ◌∷◌, ◌++◌, arith, length, map, length-append, get_elem?, get_or,
}
use mathlib.Core.Path.{subst}
use mathlib.Core.Option.{some-injective}
use mathlib.Core.List.{append_assoc}
use scorep_amd.Common.Run.{ok, ◌>>=◌, Returns}
use scorep_amd.Plugin.{Event, Globals, event_at_lem}
use scorep_amd.Plugin.Sampler.Buffer.{encode, AreWide, length-map, zero_plus}
use scorep_amd.Plugin.Sampler.Loop.{thread_report-HasSamples}
use scorep_amd.Plugin.Sampler.Recorded.{recorded, ReadsAll, HasSamples}
use scorep_amd.Plugin.Sampler.{
  u64, load, collect, Threads, join_thread, join_loop, stop_threads, get_all_values,
}

-- The times and the values of counter `c` in the samples, as 64 bits.
unfoldable pub values : ℕ → List (ℕ × List ℕ) → List (ℕ × ℕ)
values c [] = []
values c ((t, vs) ∷ ss) = (u64 t, u64 (get_or vs c 0)) ∷ values c ss

suc_plus : (n i : ℕ) → suc n + i ≡ suc (n + i)
suc_plus n i = omega arith

get_elem?-append :
    (pre post : List ℕ) (i : ℕ) → get_elem? (pre ++ post) (length pre + i) ≡ get_elem? post i
get_elem?-append [] post i = ap (get_elem? post) (zero_plus i)
get_elem?-append (p ∷ pre) post i =
    ap (get_elem? (p ∷ (pre ++ post))) (suc_plus (length pre) i) ∙ get_elem?-append pre post i

get_elem?-map :
    (vs rest : List ℕ) (c : ℕ)
    → c < length vs
    → get_elem? (map u64 vs ++ rest) c ≡ some (u64 (get_or vs c 0))
get_elem?-map [] rest c h = elim h [ ]
get_elem?-map (v ∷ vs) rest zero h = refl
get_elem?-map (v ∷ vs) rest (suc c) h = get_elem?-map vs rest c (omega arith)

load_at :
    (pre post : List ℕ) (pos i v : ℕ)
    → pos ≡ length pre + i
    → get_elem? post i ≡ some v
    → load (some (pre ++ post)) pos ≡ ok v
unfolding load
load_at pre post pos i v at e = rw (at, load, get_elem?-append pre post i, e) refl

length-sample :
    (pre vs : List ℕ) (x : ℕ) → length (pre ++ x ∷ map u64 vs) ≡ length pre + 1 + length vs
length-sample pre vs x = omega (arith, length-append pre (x ∷ map u64 vs), length-map u64 vs)

pub collect-values :
    (ss : List (ℕ × List ℕ)) (m c pos : ℕ) (pre tail : List ℕ)
    → AreWide m ss
    → c < m
    → pos ≡ length pre
    → collect (length ss) pos c m (some (pre ++ (encode ss ++ tail))) ≡ ok (values c ss)
unfolding collect values encode
collect-values [] m c pos pre tail w lt at = refl
collect-values ((t, vs) ∷ ss) m c pos pre tail (wv, w) lt at =
    let rest = encode ss ++ tail in
    let body = map u64 vs ++ rest in
    rw
      (
        append_assoc (map u64 vs) (encode ss) tail,
        load_at pre (u64 t ∷ body) pos 0 (u64 t) (omega arith) refl,
        ◌>>=◌,
        load_at pre (u64 t ∷ body) (pos + 1 + c) (suc c) (u64 (get_or vs c 0)) (omega arith)
            (get_elem?-map vs rest c (omega arith)),
      )
      (rw
        (
          ← append_assoc pre (u64 t ∷ map u64 vs) rest,
          collect-values ss m c (pos + 1 + m) (pre ++ u64 t ∷ map u64 vs) tail w lt
              (omega (arith, length-sample pre vs (u64 t))),
        )
        refl)

-- What holds of the first `left` events, from event `i` on: their threads were started, the buffers
-- can be allocated, and `PAPI_read` writes a value for each counter.
abbrev pub RunWell : Threads → ℕ → ℕ → List Event → Type 0
RunWell th zero i events = Unit
RunWell th (suc left) i [] = Unit
RunWell th (suc left) i (ev ∷ events) =
    (ev.started ≡ true)
    × (th.memory i ≡ true)
    × (ev.num_cntrs < 2 ^ 31)
    × ReadsAll ev.num_cntrs (th.rounds i)
    × RunWell th left (i + 1) events

-- The samples that the thread of an event records in a buffer of `n` cells.
unfoldable pub samples_of : ℕ → Threads → ℕ → Event → List (ℕ × List ℕ)
samples_of n th i ev = recorded (n / (ev.num_cntrs + 1)) (th.rounds i)

-- Every event among the first `left` has its samples, in its own place.
Joined : ℕ → Threads → ℕ → ℕ → List Event → List Event → Type 0
Joined n th left i events events' =
    (j : ℕ) (ev : Event)
    → j < left
    → get_elem? events j ≡ some ev
    → (ev' : Event) × (get_elem? events' j ≡ some ev')
      × HasSamples n (samples_of n th (i + j) ev) ev'
      × (ev'.num_cntrs ≡ ev.num_cntrs)

join_one :
    (buf_size i : ℕ) (th : Threads) (ev : Event)
    → buf_size / 8 < 2 ^ 31
    → ev.started ≡ true
    → th.memory i ≡ true
    → ev.num_cntrs < 2 ^ 31
    → ReadsAll ev.num_cntrs (th.rounds i)
    → Returns (join_thread false (th.memory i) buf_size (th.rounds i) ev) (λ ev'.
      HasSamples (buf_size / 8) (samples_of (buf_size / 8) th i ev) ev'
      × (ev'.num_cntrs ≡ ev.num_cntrs))
unfolding samples_of join_thread
join_one buf_size i th ev small started mem few reads =
    let (ev', run, h) = thread_report-HasSamples buf_size (th.rounds i) ev small few reads in
    (ev', simp (started, mem) run, h)

Joined-cons :
    (n i left : ℕ) (th : Threads) (ev ev' : Event) (events events' : List Event)
    → HasSamples n (samples_of n th i ev) ev' × (ev'.num_cntrs ≡ ev.num_cntrs)
    → Joined n th left (i + 1) events events'
    → Joined n th (suc left) i (ev ∷ events) (ev' ∷ events')
unfolding Joined
Joined-cons n i left th ev ev' events events' (has, cntrs) later zero e lt at =
    subst
      (λ x.
        (y : Event) × (some ev' ≡ some y)
        × HasSamples n (samples_of n th (i + 0) x) y
        × (y.num_cntrs ≡ x.num_cntrs))
      (some-injective ev e at)
      (ev', refl, subst (λ a. HasSamples n (samples_of n th a ev) ev') (omega arith) has, cntrs)
Joined-cons n i left th ev ev' events events' first later (suc j) e lt at =
    let (y, here, has, cntrs) = later j e (omega arith) at in
    (y, here, subst (λ a. HasSamples n (samples_of n th a e) y) (omega arith) has, cntrs)

join_loop-Joined :
    (left buf_size i : ℕ) (th : Threads) (events : List Event)
    → left ≤ length events
    → buf_size / 8 < 2 ^ 31
    → RunWell th left i events
    → Returns (join_loop false buf_size th left i events) (Joined (buf_size / 8) th left i events)
unfolding join_loop Joined
join_loop-Joined zero buf_size i th events le small well = (events, refl, λ j ev lt. elim lt [ ])
join_loop-Joined (suc left) buf_size i th [] le small well = absurd (omega arith)
join_loop-Joined (suc left) buf_size i th (ev ∷ events) le small (started, mem, few, reads, well) =
    let (ev', run, h) = join_one buf_size i th ev small started mem few reads in
    let (rest, run', k) =
      join_loop-Joined left buf_size (i + 1) th events (omega arith) small well in
    (
      ev' ∷ rest,
      rw (run, ◌>>=◌, run') refl,
      Joined-cons (buf_size / 8) i left th ev ev' events rest h k,
    )

-- `id >> 8` and `id & 0xff`
id_parts : (i c : ℕ) → c < 256 → ((i * 256 + c) / 2 ^ 8 ≡ i) × ((i * 256 + c) % 2 ^ 8 ≡ c)
id_parts i c h = omega arith

collect-filled :
    (cnt m c : ℕ) (tv : Option (List ℕ)) (ss : List (ℕ × List ℕ)) (tail : List ℕ)
    → tv ≡ some (encode ss ++ tail)
    → cnt ≡ length ss
    → AreWide m ss
    → c < m
    → collect cnt 0 c m tv ≡ ok (values c ss)
collect-filled cnt m c tv ss tail buffer count wide lt =
    rw (buffer, count) (collect-values ss m c 0 [] tail wide lt refl)

get_all_values-event :
    (th : Threads) (id i c : ℕ) (g g' : Globals) (ev : Event) (vs : List (ℕ × ℕ))
    → stop_threads false th g ≡ ok g'
    → id / 2 ^ 8 ≡ i
    → id % 2 ^ 8 ≡ c
    → get_elem? g'.event_list i ≡ some ev
    → collect ev.sample_count 0 c ev.num_cntrs ev.timevalues ≡ ok vs
    → get_all_values false true th id g ≡ ok (g', vs)
unfolding get_all_values
get_all_values-event th id i c g g' ev vs run e f here got =
    rw (run, ◌>>=◌, e, event_at_lem g'.event_list i ev here, f, got) refl

stop_threads-joined :
    (th : Threads) (g : Globals) (es : List Event)
    → g.counter_enabled ≡ true
    → join_loop false g.buf_size th g.event_list_size 0 g.event_list ≡ ok es
    → stop_threads false th g ≡ ok (record g { counter_enabled = false; event_list = es })
unfolding stop_threads
stop_threads-joined th g es on run = simp (on, run)

-- The end of the measurement: the flag is cleared, all threads are joined, and the call returns,
-- without undefined behaviour, the time and the value of counter `c` in every sample that the thread
-- of event `i` recorded, in order. This holds in a build without HAVE_DEBUG where all threads were
-- started, all allocations succeed and `PAPI_read` writes a value for each counter of an event set, for buffers below 16 GiB.
pub get_all_values-values :
    (th : Threads) (i c : ℕ) (g : Globals) (ev : Event)
    → g.counter_enabled ≡ true
    → g.event_list_size ≤ length g.event_list
    → i < g.event_list_size
    → get_elem? g.event_list i ≡ some ev
    → c < ev.num_cntrs
    → c < 256
    → g.buf_size / 8 < 2 ^ 31
    → RunWell th g.event_list_size 0 g.event_list
    → Returns (get_all_values false true th (i * 256 + c) g) (λ r.
      (r.0.counter_enabled ≡ false) × (r.1 ≡ values c (samples_of (g.buf_size / 8) th i ev)))
unfolding Joined
get_all_values-values th i c g ev on size lt at c_lt byte small well =
    let (es, run, joined) =
      join_loop-Joined g.event_list_size g.buf_size 0 th g.event_list size small well in
    let (ev', here, has, cntrs) = joined i ev lt at in
    let g' = record g { counter_enabled = false; event_list = es } in
    let ss = samples_of (g.buf_size / 8) th (0 + i) ev in
    let got =
      collect-filled ev'.sample_count ev'.num_cntrs c ev'.timevalues ss has.tail has.buffer
        has.count has.wide (omega (arith, cntrs)) in
    let (e, f) = id_parts i c byte in
    (
      (g', values c ss),
      get_all_values-event th (i * 256 + c) i c g g' ev' (values c ss)
          (stop_threads-joined th g es on run) e f here got,
      (refl, ap (λ a. values c (samples_of (g.buf_size / 8) th a ev)) (zero_plus i)),
    )
