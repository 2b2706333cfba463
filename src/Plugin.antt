-- ===== src/Plugin.antt =====
-- The Score-P metric plugins (plugins/scorep-coretemp-plugin/apapi.c; the two rocm_smi plugins have
-- the same text up to names, and define HAVE_DEBUG): the globals of one plugin, shared by the
-- registration of counters and the sampling threads.
pub mod BufferSize
pub mod Sampler
pub mod Counters
mod Examples
use scorep_amd.Common.{ℕ, zero, suc, ◌*◌, ◌≡◌, ap, Bool, Option, some, List, [], ◌∷◌, get_elem?}
use mathlib.Core.Option.{some-injective}
use scorep_amd.Common.Run.{Run, ok, fault, out_of_bounds}

-- `event_set` is `none` for `PAPI_NULL`; `started` says whether `thread` was created.
pub record Event : Type 0 where
  pub enabled : Bool
  pub cpu : ℕ
  pub event_set : Option ℕ
  pub num_cntrs : ℕ
  pub started : Bool
  pub timevalues : Option (List ℕ)
  pub sample_count : ℕ

pub record Globals : Type 0 where
  pub event_codes : List ℕ
  pub global_num_cntrs : ℕ
  pub event_list : List Event
  pub event_list_size : ℕ
  pub counter_enabled : Bool
  pub buf_size : ℕ
  pub interval_us : ℕ

-- `DEFAULT_BUF_SIZE`
abbrev pub default_buf_size : ℕ
default_buf_size = 4 * 1024 * 1024

-- `&event_list[i]`
pub event_at : List Event → ℕ → Run Event
event_at [] i = fault out_of_bounds
event_at (e ∷ es) zero = ok e
event_at (e ∷ es) (suc i) = event_at es i

pub event_at_lem :
    (es : List Event) (i : ℕ) (ev : Event) → get_elem? es i ≡ some ev → event_at es i ≡ ok ev
unfolding event_at
event_at_lem [] i ev e = cc
event_at_lem (x ∷ es) zero ev e = ap ok (some-injective x ev e)
event_at_lem (x ∷ es) (suc i) ev e = event_at_lem es i ev e
