-- ===== src/Plugin/Sampler/Loop.antt =====
-- What thread_report (plugins/scorep-coretemp-plugin/apapi.c) leaves in its buffer.
use scorep_amd.Common.{
  ℕ, zero, suc, ◌+◌, ◌-◌, ◌/◌, ◌^◌, ◌≤◌, ◌<◌, ◌≡◌, refl, sym, ◌∙◌, ap, Bool, true, false, Option,
  none, some, List, [], ◌∷◌, ◌++◌, arith, length, replicate, map, lt→ltb, le→ltb, length-append,
  length-replicate,
}
use mathlib.Core.List.{append_assoc, append-nil}
use scorep_amd.Common.Run.{Run, ok, ◌>>=◌, Returns}
use scorep_amd.Plugin.{Event}
use scorep_amd.Plugin.Sampler.Buffer.{
  encode, AreWide, length-map, length-encode, encode-append, AreWide-append, store-filled,
  store_all-filled, length-snoc, full_iff,
}
use scorep_amd.Plugin.Sampler.Recorded.{recorded, ReadsAll, HasSamples, recorded-AreWide}
use scorep_amd.Plugin.Sampler.{
  u64, Round, Progress, Ending, returned, stopped, Turn, again, leave, read_counters, take_sample,
  turn, sample_loop, print_average, after_loop, thread_report,
}

-- The buffer of `n` cells begins with the samples `ss`, and `sample_count` counts them; after a
-- loop that did not return, the rest is as `calloc` made it.
pub record Sampled (n : ℕ) (ss : List (ℕ × List ℕ)) (r : Ending × Progress) : Type 0 where
  pub tail : List ℕ
  pub buffer : r.1.timevalues ≡ some (encode ss ++ tail)
  pub room : length (encode ss ++ tail) ≡ n
  pub count : r.1.sample_count ≡ length ss
  pub zeros : r.0 ≡ stopped → tail ≡ replicate (length tail) 0

-- The state of the loop with `ss` recorded and `z` cells free.
abbrev state : ℕ → List (ℕ × List ℕ) → Progress
state z ss = record {
  timevalues = some (encode ss ++ replicate z 0);
  tv_pos = length (encode ss);
  sample_count = length ss;
}

again_eq :
    (b b' : List ℕ) (p p' c c' : ℕ)
    → b ≡ b'
    → p ≡ p'
    → c ≡ c'
    → ◌≡◌ {A = Run Turn}
        (ok (again (record { timevalues = some b; tv_pos = p; sample_count = c })))
        (ok (again (record { timevalues = some b'; tv_pos = p'; sample_count = c' })))
again_eq b b' p p' c c' e f g = cc

u64_small : (x : ℕ) → x < 2 ^ 64 → u64 x ≡ x
u64_small x h = omega arith

encode-snoc :
    (ss : List (ℕ × List ℕ)) (t : ℕ) (vs rest : List ℕ)
    → ((encode ss ++ u64 t ∷ []) ++ map u64 vs) ++ rest ≡ encode (ss ++ (t, vs) ∷ []) ++ rest
unfolding encode
encode-snoc ss t vs rest = simp (encode-append, append_assoc, append-nil)

length-encode_snoc :
    (ss : List (ℕ × List ℕ)) (t : ℕ) (vs : List ℕ)
    → length (encode (ss ++ (t, vs) ∷ [])) ≡ length (encode ss) + 1 + length vs
unfolding encode
length-encode_snoc ss t vs = omega (
  arith,
  ap length (encode-append ss ((t, vs) ∷ [])),
  length-append (encode ss) (u64 t ∷ (map u64 vs ++ [])),
  length-append (map u64 vs) [],
  length-map u64 vs,
)

module _ (n m : ℕ) (n_small : n < 2 ^ 31) (m_small : m < 2 ^ 31) where
  -- `k` samples still fit, and `z` cells are free.
  record At (k z : ℕ) (ss : List (ℕ × List ℕ)) : Type 0 where
    wide : AreWide m ss
    fit : k + length ss ≡ n / (m + 1)
    room : length (encode ss) + z ≡ n

  At-cells :
      (k z : ℕ) (ss : List (ℕ × List ℕ))
      → At k z ss
      → (k ≡ 0 → n < length (encode ss) + m + 1) × (0 < k → length (encode ss) + m + 1 ≤ n)
  At-cells k z ss h =
      let f = full_iff n (m + 1) (length ss) k (omega arith) h.fit in
      let l = length-encode m ss h.wide in
      (λ e. omega (arith, f.0 e, l), λ e. omega (arith, f.1 e, l))

  count_small : (k z : ℕ) (ss : List (ℕ × List ℕ)) → At k z ss → length ss ≤ n
  count_small k z ss h = omega (arith, length-encode m ss h.wide, h.room)

  At-Sampled :
      (k z : ℕ) (ss : List (ℕ × List ℕ)) (e : Ending)
      → At k z ss
      → Sampled n (ss ++ []) (e, state z ss)
  At-Sampled k z ss e h = rw append-nil (record {
    tail = replicate z 0;
    buffer = refl;
    room =
        omega
          (arith, length-append (encode ss) (replicate z 0), length-replicate {A = ℕ} z 0, h.room);
    count = refl;
    zeros = λ _. ap (λ x. replicate x 0) (sym (length-replicate {A = ℕ} z 0));
  })

  take_sample-full :
      (z t : ℕ) (read : Option (List ℕ)) (ss : List (ℕ × List ℕ))
      → At 0 z ss
      → take_sample n m t read (state z ss) ≡ ok (leave stopped (state z ss))
  unfolding take_sample
  take_sample-full z t read ss h =
      let full = (At-cells 0 z ss h).0 refl in
      rw
        (
          u64_small (length (encode ss) + m + 1) (omega (arith, h.room)),
          lt→ltb n (length (encode ss) + m + 1) full,
        )
        refl

  -- A turn with room for a sample and values to read appends the sample.
  take_sample-again :
      (k z t : ℕ) (vs : List ℕ) (ss : List (ℕ × List ℕ))
      → At (suc k) z ss
      → length vs ≡ m
      → take_sample n m t (some vs) (state z ss)
        ≡ ok (again (state (z - (m + 1)) (ss ++ (t, vs) ∷ [])))
  unfolding take_sample read_counters
  take_sample-again k zero t vs ss h w =
      absurd (omega (arith, (At-cells (suc k) 0 ss h).1 (omega arith), h.room))
  take_sample-again k (suc z) t vs ss h w =
      let fits = (At-cells (suc k) (suc z) ss h).1 (omega arith) in
      rw
        (
          u64_small (length (encode ss) + m + 1) (omega (arith, h.room)),
          le→ltb n (length (encode ss) + m + 1) fits,
          store-filled (encode ss) z t,
          ◌>>=◌,
        )
        (rw
          (
            ← length-snoc (encode ss) (u64 t),
            store_all-filled vs (encode ss ++ u64 t ∷ []) z (z - m) (omega (arith, w, h.room)),
          )
          (again_eq _ (encode (ss ++ (t, vs) ∷ []) ++ replicate (suc z - (m + 1)) 0) _ _ _ _
            (encode-snoc ss t vs (replicate (z - m) 0)
              ∙ ap (λ x. encode (ss ++ (t, vs) ∷ []) ++ replicate x 0) (omega arith))
            (omega (arith, length-encode_snoc ss t vs, length-snoc (encode ss) (u64 t), w, h.room))
            (omega (arith, length-append ss ((t, vs) ∷ []), count_small (suc k) (suc z) ss h))))

  At-again :
      (k z t : ℕ) (vs : List ℕ) (ss : List (ℕ × List ℕ))
      → At (suc k) z ss
      → length vs ≡ m
      → At k (z - (m + 1)) (ss ++ (t, vs) ∷ [])
  At-again k z t vs ss h w = record {
    wide = AreWide-append m ss ((t, vs) ∷ []) h.wide (w, tt);
    fit = omega (arith, length-append ss ((t, vs) ∷ []), h.fit);
    room =
        omega
          (arith, length-encode_snoc ss t vs, h.room, w, (At-cells (suc k) z ss h).1 (omega arith));
  }

  -- If the counters cannot be read, the timestamp is in the buffer and no sample is counted.
  take_sample-failed :
      (k z t : ℕ) (ss : List (ℕ × List ℕ))
      → At (suc k) z ss
      → (p : Progress) × (take_sample n m t none (state z ss) ≡ ok (leave returned p))
        × Sampled n (ss ++ []) (returned, p)
  unfolding take_sample read_counters
  take_sample-failed k zero t ss h =
      absurd (omega (arith, (At-cells (suc k) 0 ss h).1 (omega arith), h.room))
  take_sample-failed k (suc z) t ss h =
      let fits = (At-cells (suc k) (suc z) ss h).1 (omega arith) in
      (
        record {
          timevalues = some ((encode ss ++ u64 t ∷ []) ++ replicate z 0);
          tv_pos = length (encode ss) + 1;
          sample_count = length ss;
        },
        rw
            (
              u64_small (length (encode ss) + m + 1) (omega (arith, h.room)),
              le→ltb n (length (encode ss) + m + 1) fits,
              store-filled (encode ss) z t,
              ◌>>=◌,
            )
            refl,
        rw append-nil (record {
          tail = u64 t ∷ replicate z 0;
          buffer = ap some (append_assoc (encode ss) (u64 t ∷ []) (replicate z 0));
          room = omega (
            arith,
            length-append (encode ss) (u64 t ∷ replicate z 0),
            length-replicate {A = ℕ} z 0,
            h.room,
          );
          count = refl;
          zeros = λ e. cc;
        }),
      )

  -- What the loop does with the rounds `rs`, whatever it has recorded.
  abbrev LoopRecords : List Round → Type 0
  LoopRecords rs =
      (k z : ℕ) (ss : List (ℕ × List ℕ))
      → At k z ss
      → Returns (sample_loop n m rs (state z ss)) (Sampled n (ss ++ recorded k rs))

  sample_loop-cons :
      (w : Option ℕ) (e : Bool) (v : Option (List ℕ)) (rs : List Round)
      → ((vs : List ℕ) → v ≡ some vs → length vs ≡ m)
      → LoopRecords rs
      → LoopRecords (record { wtime = w; enabled = e; read = v } ∷ rs)
  unfolding sample_loop turn recorded
  sample_loop-cons none e v rs reads later k z ss h =
      ((returned, state z ss), refl, At-Sampled k z ss returned h)
  sample_loop-cons (some t) false v rs reads later k z ss h = later k z ss h
  sample_loop-cons (some t) true v rs reads later zero z ss h =
      ((stopped, state z ss), rw (take_sample-full z t v ss h) refl, At-Sampled 0 z ss stopped h)
  sample_loop-cons (some t) true none rs reads later (suc k) z ss h =
      let (p, run, s) = take_sample-failed k z t ss h in ((returned, p), rw run refl, s)
  sample_loop-cons (some t) true (some vs) rs reads later (suc k) z ss h =
      let w = reads vs refl in
      let (r, run, s) = later k (z - (m + 1)) (ss ++ (t, vs) ∷ []) (At-again k z t vs ss h w) in
      (
        r,
        rw (take_sample-again k z t vs ss h w) run,
        rw (append_assoc ss ((t, vs) ∷ []) (recorded k rs)) at s,
      )

  sample_loop-records : (rs : List Round) → ReadsAll m rs → LoopRecords rs
  unfolding sample_loop recorded
  sample_loop-records [] reads k z ss h = ((stopped, state z ss), refl, At-Sampled k z ss stopped h)
  sample_loop-records (r ∷ rs) (first, reads) k z ss h =
      sample_loop-cons r.wtime r.enabled r.read rs first (sample_loop-records rs reads) k z ss h

after_loop-HasSamples :
    (n : ℕ) (ss : List (ℕ × List ℕ)) (e : Ending) (p : Progress) (ev : Event)
    → AreWide ev.num_cntrs ss
    → Sampled n ss (e, p)
    → Returns
        (after_loop false (e, p) ev)
        (λ ev'. HasSamples n ss ev' × (ev'.num_cntrs ≡ ev.num_cntrs))
unfolding after_loop print_average
after_loop-HasSamples n ss returned p ev w s = (
  record ev { timevalues = p.timevalues; sample_count = p.sample_count },
  refl,
  (record { tail = s.tail; buffer = s.buffer; room = s.room; count = s.count; wide = w }, refl),
)
after_loop-HasSamples n ss stopped p ev w s = (
  record ev { timevalues = p.timevalues; sample_count = p.sample_count },
  refl,
  (record { tail = s.tail; buffer = s.buffer; room = s.room; count = s.count; wide = w }, refl),
)

thread_loop :
    (n m : ℕ) (rs : List Round)
    → n < 2 ^ 31
    → m < 2 ^ 31
    → ReadsAll m rs
    → Returns
        (sample_loop n m rs
          (record { timevalues = some (replicate n 0); tv_pos = 0; sample_count = 0 }))
        (Sampled n (recorded (n / (m + 1)) rs))
unfolding encode
thread_loop n m rs n_small m_small reads =
    sample_loop-records n m n_small m_small rs reads (n / (m + 1)) n []
      (record { wide = tt; fit = omega arith; room = omega arith })

-- A sampling thread whose buffer of `buf_size / 8` cells could be allocated never reads or writes
-- outside it, and has no other undefined behaviour in a build without HAVE_DEBUG. It ends with its
-- buffer holding, at the front, exactly the samples of the rounds in which the event was enabled, as
-- many as whole samples fit, and `sample_count` counts them.
pub thread_report-HasSamples :
    (buf_size : ℕ) (rs : List Round) (ev : Event)
    → buf_size / 8 < 2 ^ 31
    → ev.num_cntrs < 2 ^ 31
    → ReadsAll ev.num_cntrs rs
    → let n = buf_size / 8 in
      Returns (thread_report false true buf_size rs ev) (λ ev'.
        HasSamples n (recorded (n / (ev.num_cntrs + 1)) rs) ev' × (ev'.num_cntrs ≡ ev.num_cntrs))
unfolding thread_report
thread_report-HasSamples buf_size rs ev n_small m_small reads =
    let n = buf_size / 8 in
    let ((e, p), run, s) = thread_loop n ev.num_cntrs rs n_small m_small reads in
    let (ev', run', h) =
      after_loop-HasSamples n _ e p ev
        (recorded-AreWide ev.num_cntrs rs (n / (ev.num_cntrs + 1)) reads) s in
    (ev', rw (run, ◌>>=◌) run', h)
