-- ===== src/Plugin/Sampler/Recorded.antt =====
-- Which samples thread_report records (plugins/scorep-coretemp-plugin/apapi.c).
use scorep_amd.Common.{
  ℕ, zero, suc, ◌≡◌, refl, Bool, true, false, Option, none, some, List, [], ◌∷◌, ◌++◌, length,
}
use scorep_amd.Plugin.{Event}
use scorep_amd.Plugin.Sampler.Buffer.{encode, AreWide}
use scorep_amd.Plugin.Sampler.{Round}

-- The samples that a run records where `k` fit into the buffer: those of the rounds in which the
-- event is enabled, up to the first failure to read, the first missing clock or the `k`-th sample.
unfoldable pub record_round :
    ℕ → Option ℕ → Bool → Option (List ℕ) → (ℕ → List (ℕ × List ℕ)) → List (ℕ × List ℕ)
record_round k none enabled read later = []
record_round k (some t) false read later = later k
record_round zero (some t) true read later = []
record_round (suc k) (some t) true none later = []
record_round (suc k) (some t) true (some vs) later = (t, vs) ∷ later k

unfoldable pub recorded : ℕ → List Round → List (ℕ × List ℕ)
unfolding record_round
recorded k [] = []
recorded k (r ∷ rs) = record_round k r.wtime r.enabled r.read (λ j. recorded j rs)

-- `PAPI_read` writes one value for each of the `m` counters of the event set.
abbrev pub ReadsAll : ℕ → List Round → Type 0
ReadsAll m [] = Unit
ReadsAll m (r ∷ rs) = ((vs : List ℕ) → r.read ≡ some vs → length vs ≡ m) × ReadsAll m rs

record_round-AreWide :
    (m k : ℕ) (w : Option ℕ) (e : Bool) (v : Option (List ℕ)) (later : ℕ → List (ℕ × List ℕ))
    → ((vs : List ℕ) → v ≡ some vs → length vs ≡ m)
    → ((j : ℕ) → AreWide m (later j))
    → AreWide m (record_round k w e v later)
unfolding record_round
record_round-AreWide m k none e v later reads ih = tt
record_round-AreWide m k (some t) false v later reads ih = ih k
record_round-AreWide m zero (some t) true v later reads ih = tt
record_round-AreWide m (suc k) (some t) true none later reads ih = tt
record_round-AreWide m (suc k) (some t) true (some vs) later reads ih = (reads vs refl, ih k)

pub recorded-AreWide : (m : ℕ) (rs : List Round) (k : ℕ) → ReadsAll m rs → AreWide m (recorded k rs)
unfolding recorded
recorded-AreWide m [] k reads = tt
recorded-AreWide m (r ∷ rs) k (first, reads) =
    record_round-AreWide m k r.wtime r.enabled r.read (λ j. recorded j rs) first
      (λ j. recorded-AreWide m rs j reads)

-- The buffer of the event has `n` cells and begins with the samples `ss`, which `sample_count` counts.
pub record HasSamples (n : ℕ) (ss : List (ℕ × List ℕ)) (ev : Event) : Type 0 where
  pub tail : List ℕ
  pub buffer : ev.timevalues ≡ some (encode ss ++ tail)
  pub room : length (encode ss ++ tail) ≡ n
  pub count : ev.sample_count ≡ length ss
  pub wide : AreWide ev.num_cntrs ss
