-- ===== src/Coretemp/Measuring.antt =====
-- An event set of the component coretemp: update_control_state, read, stop and init_control_state of
-- patches/coretemp/linux-coretemp.c, in the build without READALL.
pub mod Updated
pub mod Opened
pub mod Counted
use scorep_amd.Common.{
  ℕ, zero, suc, ◌+◌, ◌-◌, ◌%◌, ◌^◌, Bool, true, false, Option, none, some, List, [], ◌∷◌, length,
  set, if◌then◌else◌, ltb,
}
use scorep_amd.Common.Run.{Run, fault, ok, ◌>>=◌, null_dereference, out_of_bounds}
use scorep_amd.Common.Strings.{Text}
use scorep_amd.Common.Papi.{PapiErrno, papi_ok, papi_esys}
use scorep_amd.Coretemp.{NativeEvent}
use scorep_amd.Coretemp.Values.{get_event_value}

-- `CORETEMP_control_state_t`, without `lastupdate`, which is never used; both arrays have
-- CORETEMP_MAX_COUNTERS elements.
pub record Control : Type 0 where
  pub counts : List ℕ
  pub active_count : ℕ
  pub active_idx : List ℕ

-- `_coretemp_native_events[index]`
unfoldable pub element : List NativeEvent → ℕ → Run NativeEvent
element [] i = fault out_of_bounds
element (ev ∷ table) zero = ok ev
element (ev ∷ table) (suc i) = element table i

-- `array[i] = x`
unfoldable pub store_at {ℓ} : {A : Type ℓ} → List A → ℕ → A → Run (List A)
store_at xs i x = if ltb i (length xs) then ok (set xs i x) else fault out_of_bounds

-- `array[i]`
unfoldable pub fetch : List ℕ → ℕ → Run ℕ
fetch [] i = fault out_of_bounds
fetch (x ∷ xs) zero = ok x
fetch (x ∷ xs) (suc i) = fetch xs i

-- The element with its file open, where it can be opened; `open` has the new descriptor.
unfoldable pub ensure_open : (Text → Option ℕ) → NativeEvent → Option NativeEvent
ensure_open open_file ev = elim ev.fd [
  | some fd ↦ some ev
  | none ↦ elim (open_file ev.path) [ none ↦ none | some fd ↦ some (record ev { fd = some fd }) ]
]

-- What the loop of the update changes: the table, `active_idx`, and the positions that it hands out.
pub record Update : Type 0 where
  pub table : List NativeEvent
  pub active_idx : List ℕ
  pub positions : List ℕ

-- The rest of a round, with the element whose file is open.
unfoldable pub activate : ℕ → ℕ → Update → Option NativeEvent → Run (PapiErrno × Update)
unfolding store_at
activate i index u none = ok (papi_esys, u)
activate i index u (some ev) = store_at u.active_idx i index >>= λ active_idx. ok (
  papi_ok,
  record {
    table = set u.table index ev;
    active_idx = active_idx;
    positions = set u.positions i ((ev.selector + (2 ^ 32 - 1)) % 2 ^ 32);
  },
)

unfoldable pub then_rest :
    PapiErrno × Update → (Update → Run (PapiErrno × Update)) → Run (PapiErrno × Update)
then_rest (papi_ok, u) next = next u
then_rest (e, u) next = ok (e, u)

-- The loop over `native[i].ni_event`, from `i` on.
unfoldable pub update_loop : (Text → Option ℕ) → List ℕ → ℕ → Update → Run (PapiErrno × Update)
unfolding element ensure_open activate then_rest
update_loop open_file [] i u = ok (papi_ok, u)
update_loop open_file (index ∷ codes) i u = element u.table index >>= λ ev.
    activate i index u (ensure_open open_file ev) >>= λ r.
    then_rest r (update_loop open_file codes (i + 1))

-- `_coretemp_update_control_state` for the event codes; `positions` is the caller's `ni_position` of
-- each. `active_count` is set first.
unfoldable pub update_control_state :
    (Text → Option ℕ)
    → List ℕ
    → List ℕ
    → List NativeEvent
    → Control
    → Run (PapiErrno × List ℕ × List NativeEvent × Control)
unfolding update_loop
update_control_state open_file codes positions table ctl =
    update_loop open_file codes 0
      record { table = table; active_idx = ctl.active_idx; positions = positions }
    >>= λ r. ok (
      r.0,
      r.1.positions,
      r.1.table,
      record ctl { active_count = length codes; active_idx = r.1.active_idx },
    )

-- The loop of `_coretemp_read` and `_coretemp_stop`, with the rounds that are left.
unfoldable pub count_loop :
    ℕ → (ℕ → Text) → List NativeEvent → ℕ → ℕ → List ℕ → List ℕ → Run (List ℕ)
unfolding fetch element store_at get_event_value
count_loop max_str_len pread table zero i active_idx counts = ok counts
count_loop max_str_len pread table (suc n) i active_idx counts = fetch active_idx i >>= λ idx.
    element table idx >>= λ ev.
    store_at counts idx (get_event_value max_str_len pread ev) >>= λ counts'.
    count_loop max_str_len pread table n (i + 1) active_idx counts'

-- `_coretemp_read`, whose `*events` is then the array of counts, and `_coretemp_stop`.
unfoldable pub read_counts : ℕ → (ℕ → Text) → List NativeEvent → Control → Run (PapiErrno × Control)
unfolding count_loop
read_counts max_str_len pread table ctl =
    count_loop max_str_len pread table ctl.active_count 0 ctl.active_idx ctl.counts >>= λ counts.
    ok (papi_ok, record ctl { counts = counts })

-- The loop of `_coretemp_init_control_state` over the table.
init_loop : ℕ → (ℕ → Text) → List NativeEvent → ℕ → List ℕ → Run (List ℕ)
unfolding store_at get_event_value
init_loop max_str_len pread [] i counts = ok counts
init_loop max_str_len pread (ev ∷ table) i counts =
    store_at counts i (get_event_value max_str_len pread ev) >>= λ counts'.
    init_loop max_str_len pread table (i + 1) counts'

pub init_control_state : ℕ → (ℕ → Text) → List NativeEvent → Control → Run (PapiErrno × Control)
unfolding init_loop
init_control_state max_str_len pread table ctl =
    init_loop max_str_len pread table 0 ctl.counts >>= λ counts.
    ok (papi_ok, record ctl { counts = counts })
