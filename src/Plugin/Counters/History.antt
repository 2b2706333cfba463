-- ===== src/Plugin/Counters/History.antt =====
-- Any threads that call add_counter (plugins/scorep-coretemp-plugin/apapi.c), in any order.
use scorep_amd.Common.{
  ℕ, ◌+◌, ◌≤◌, ◌<◌, ◌≡◌, refl, ◌∙◌, ap, Bool, false, Option, some, List, [], ◌∷◌, arith,
  if◌then◌else◌, leb, ◌==◌, length,
}
use scorep_amd.Common.Run.{Run, ok, ◌>>=◌, Returns}
use scorep_amd.Plugin.{Globals}
use scorep_amd.Plugin.Counters.Threads.{
  Thread, threads, one_more, add, next_id, Work, add_counter-Added, threads_none,
}
use scorep_amd.Plugin.Counters.{Calls, add_counter}

-- The calls of any threads, in the order in which they take the mutex.
pub add_counters : Calls → List ℕ → Globals → Run (Globals × List (Option ℕ))
add_counters calls [] g = ok (g, [])
add_counters calls (tid ∷ tids) g = do
  r ← add_counter calls tid g
  rest ← add_counters calls tids r.0
  ok (rest.0, r.1 ∷ rest.1)

-- The threads and the ids after the calls, by counting.
pub adds : ℕ → List ℕ → List Thread → List Thread × List (Option ℕ)
adds n [] ts = (ts, [])
adds n (tid ∷ tids) ts =
    let rest = adds n tids (add n tid ts) in (rest.0, some (next_id tid 0 ts) ∷ rest.1)

add_counters-adds :
    (calls : Calls) (tids : List ℕ) (g : Globals)
    → Work calls
    → g.event_list_size + length tids ≤ length g.event_list
    → Returns
        (add_counters calls tids g)
        (λ r. (threads r.0, r.1) ≡ adds g.global_num_cntrs tids (threads g))
unfolding add_counters adds
add_counters-adds calls [] g w le = ((g, []), refl, refl)
add_counters-adds calls (tid ∷ tids) g w le =
    let ((g', id), run, a) = add_counter-Added calls tid g w (omega arith) in
    let ((g'', ids), run', e) = add_counters-adds calls tids g' w (omega (arith, a.size, a.room)) in
    (
      (g'', id ∷ ids),
      rw (run, ◌>>=◌, run') refl,
      ap (λ x. (x.0, id ∷ x.1))
            (e
              ∙ ap (λ n. adds n tids (threads g')) a.codes
              ∙ ap (adds g.global_num_cntrs tids) a.now)
          ∙ ap
              (λ i.
                let rest = adds g.global_num_cntrs tids (add g.global_num_cntrs tid (threads g)) in
                (rest.0, i ∷ rest.1))
              a.id,
    )

-- How many counters a thread has, and whether it is sampled.
pub counters_of : ℕ → List Thread → ℕ
counters_of q [] = 0
counters_of q (t ∷ ts) = if t.tid == q then t.counters else counters_of q ts

pub sampled_of : ℕ → List Thread → Bool
sampled_of q [] = false
sampled_of q (t ∷ ts) = if t.tid == q then t.sampled else sampled_of q ts

pub count : ℕ → List ℕ → ℕ
count q [] = 0
count q (tid ∷ tids) = if tid == q then count q tids + 1 else count q tids

add-counters_of :
    (n tid q : ℕ) (ts : List Thread)
    → counters_of q (add n tid ts) ≡ (if tid == q then counters_of q ts + 1 else counters_of q ts)
unfolding add counters_of one_more
add-counters_of n tid q [] = ground arith
add-counters_of n tid q (t ∷ ts) = ground (arith, add-counters_of n tid q ts)

add-sampled_of :
    (n tid q : ℕ) (ts : List Thread)
    → 0 < n
    → sampled_of q ts ≡ leb n (counters_of q ts)
    → sampled_of q (add n tid ts) ≡ leb n (counters_of q (add n tid ts))
unfolding add counters_of sampled_of one_more
add-sampled_of n tid q [] pos h = ground arith
add-sampled_of n tid q (t ∷ ts) pos h = ground (arith, add-sampled_of n tid q ts pos)

adds-counters_of :
    (n q : ℕ) (tids : List ℕ) (ts : List Thread)
    → counters_of q (adds n tids ts).0 ≡ counters_of q ts + count q tids
unfolding adds count
adds-counters_of n q [] ts = omega arith
adds-counters_of n q (tid ∷ tids) ts =
    ground (arith, adds-counters_of n q tids (add n tid ts), add-counters_of n tid q ts)

adds-sampled_of :
    (n q : ℕ) (tids : List ℕ) (ts : List Thread)
    → 0 < n
    → sampled_of q ts ≡ leb n (counters_of q ts)
    → sampled_of q (adds n tids ts).0 ≡ leb n (counters_of q (adds n tids ts).0)
unfolding adds
adds-sampled_of n q [] ts pos h = h
adds-sampled_of n q (tid ∷ tids) ts pos h =
    adds-sampled_of n q tids (add n tid ts) pos (add-sampled_of n tid q ts pos h)

-- Where no thread is sampled yet and some codes are registered, any threads call `add_counter` in any
-- order, as often as `event_list` has elements at most, and PAPI and the thread library succeed. Then
-- no call has undefined behaviour, and in the end each thread has as many counters as calls it made,
-- and is sampled if and only if it made at least as many calls as codes are registered.
pub add_counters-sampled :
    (calls : Calls) (tids : List ℕ) (q : ℕ) (g : Globals)
    → Work calls
    → g.event_list_size ≡ 0
    → 0 < g.global_num_cntrs
    → length tids ≤ length g.event_list
    → Returns (add_counters calls tids g) (λ r.
      (counters_of q (threads r.0) ≡ count q tids)
      × (sampled_of q (threads r.0) ≡ leb g.global_num_cntrs (count q tids)))
unfolding counters_of sampled_of
add_counters-sampled calls tids q g w none_yet pos few =
    let n = g.global_num_cntrs in
    let (r, run, e) = add_counters-adds calls tids g w (omega (arith, none_yet)) in
    let start : threads g ≡ [] = threads_none g none_yet in
    let ends : threads r.0 ≡ (adds n tids []).0 =
      ap (λ x. x.0) e ∙ ap (λ ts. (adds n tids ts).0) start in
    let counted : counters_of q (adds n tids []).0 ≡ count q tids =
      omega (arith, adds-counters_of n q tids []) in
    (
      r,
      run,
      (
        rw ends counted,
        rw ends (adds-sampled_of n q tids [] pos (ground arith) ∙ ap (leb n) counted),
      ),
    )
