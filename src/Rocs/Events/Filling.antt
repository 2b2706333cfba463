-- ===== src/Rocs/Events/Filling.antt =====
-- The second pass (patches/rocm_smi/rocs.c, `get_ntv_events` and the functions it calls).
use scorep_amd.Common.{
  ℕ, Bool, not, zero, suc, ◌+◌, ◌-◌, true, false, ◌&&◌, ◌||◌, Option, none, some, List, [], ◌∷◌,
  ◌++◌, length, if◌then◌else◌, ltb, leb, ◌==◌, get_elem?, set,
}
use scorep_amd.Common.Run.{Run, ok, fault, ◌>>=◌, out_of_bounds}
use scorep_amd.Common.Strings.{Text, codes, contains}
use scorep_amd.Rocs.{PapiErrno, papi_ecmp, AccessMode, mode_read, mode_write, mode_rdwr}
use scorep_amd.Rocs.Library.{XgmiGroup, grp_xgmi, grp_xgmi_data_out}
use scorep_amd.Rocs.Events.{
  Catalog, Leaf, Case, pci_throughput, power_presets, power_cap_range, ecc_count, pci_bandwidth_get,
  pci_bandwidth_set, clk_freq_get, clk_freq_set, fan_speed_get, fan_speed_set, power_cap_get,
  power_cap_set, perf_level_set, perf_level, other_function, case_of, num_freqs, Statics, EventType,
  normal, special, first_time, set_fan, set_cap, set_perf,
}
use scorep_amd.Rocs.Events.Walk.{errno_of, walk_devices}

-- `ntv_event_t`, as the event table fills it in. `func` is the name that the description and the
-- function pointers are chosen by. -1 is `none`.
pub record TableEvent : Type 0 where
  pub id : ℕ
  pub name : Option Text
  pub func : Text
  pub device : Option ℕ
  pub variant : Option ℕ
  pub subvariant : Option ℕ
  pub mode : AccessMode

-- The static arrays, the events written so far (`events_count` is their number), and the number of
-- elements up to the last one that `Set overwrites Get` has changed.
pub record Fill : Type 0 where
  pub statics : Statics
  pub events : List TableEvent
  pub reach : ℕ

unfoldable pub get_access_mode : Text → AccessMode
unfolding contains
get_access_mode name =
    if contains (codes "_get") name
    then mode_read
    else if contains (codes "_put") name || contains (codes "_reset") name
    then mode_write
    else mode_read

-- The assignments to an element of `events`, in all places where they stand. The write is checked
-- against the size of the array by `get_ntv_events`.
unfoldable pub add_event :
    Catalog → Text → Option ℕ → Option ℕ → Option ℕ → AccessMode → Fill → Fill
add_event m func dev variant subvariant mode f = record f {
  events =
      f.events
      ++ record {
        id = length f.events;
        name = m.event_name func dev variant subvariant;
        func = func;
        device = dev;
        variant = variant;
        subvariant = subvariant;
        mode = mode;
      }
        ∷ [];
}

-- `for (; left > 0; --left, ++i)`
unfoldable pub for_each : ℕ → ℕ → (ℕ → Fill → Fill) → Fill → Fill
for_each zero i step f = f
for_each (suc left) i step f = for_each left (i + 1) step (step i f)

-- The mode of an element that is written already; one that is not is overwritten in full later.
unfoldable pub rewrite_event : ℕ → List TableEvent → List TableEvent
rewrite_event i events = elim (get_elem? events i) [
  | none ↦ events
  | some e ↦ set events i (record e { mode = mode_rdwr })
]

-- `Set overwrites Get`: the element `i` of the array is written, wherever it stands.
unfoldable pub overwrite_event : ℕ → Fill → Fill
unfolding rewrite_event
overwrite_event i f = record f {
  events = rewrite_event i f.events;
  reach = if ltb f.reach (i + 1) then i + 1 else f.reach;
}

-- A function merged with another one: the first of the two makes the event, the setter changes it.
-- `n` is the element of the static array, `st` the static arrays after the call.
unfoldable pub merge_event : AccessMode → ℕ → Statics → Fill → EventType × Fill
unfolding first_time overwrite_event
merge_event mode_write n st f = (
  first_time n,
  (if n == 0 then record f { statics = st } else overwrite_event n (record f { statics = st })),
)
merge_event mode n st f = (first_time n, record f { statics = st })

unfoldable pub fill_fan : Leaf → AccessMode → Fill → Run (EventType × Fill)
unfolding merge_event set_fan
fill_fan leaf mode f =
    if ltb leaf.device 32
    then ok (
        merge_event mode (f.statics.fan_speed leaf.device)
          (set_fan leaf.device (length f.events) f.statics) f)
    else fault out_of_bounds

unfoldable pub fill_power_cap : Leaf → Option ℕ → AccessMode → Fill → Run (EventType × Fill)
unfolding merge_event set_cap
fill_power_cap leaf none mode f = fault out_of_bounds
fill_power_cap leaf (some sub) mode f =
    if ltb leaf.device 32 && ltb sub 32
    then ok (
        merge_event mode (f.statics.power_cap leaf.device sub)
          (set_cap leaf.device sub (length f.events) f.statics) f)
    else fault out_of_bounds

unfoldable pub fill_perf : Leaf → AccessMode → Fill → Run (EventType × Fill)
unfolding merge_event set_perf
fill_perf leaf mode f =
    if ltb leaf.device 32
    then ok (
        merge_event mode (f.statics.perf_level_count leaf.device)
          (set_perf leaf.device (length f.events) f.statics) f)
    else fault out_of_bounds

-- An event of the leaf's device and function.
unfoldable pub leaf_event : Catalog → Leaf → Option ℕ → Option ℕ → AccessMode → Fill → Fill
unfolding add_event
leaf_event m leaf variant subvariant mode f =
    add_event m leaf.name (some leaf.device) variant subvariant mode f

unfoldable pub fill_bandwidths : Catalog → Leaf → ℕ → Fill → Fill
unfolding leaf_event for_each
fill_bandwidths m leaf rates f =
    if rates == 0
    then f
    else for_each 2 2 (λ i. for_each rates 0 (λ j. leaf_event m leaf (some i) (some j) mode_read))
        (for_each 2 0 (λ i. leaf_event m leaf (some i) none mode_read) f)

unfoldable pub fill_freqs : Catalog → Leaf → ℕ → Fill → Fill
unfolding leaf_event for_each
fill_freqs m leaf n f =
    for_each n 0 (λ i. leaf_event m leaf leaf.variant (some (2 + i)) mode_read)
      (for_each 2 0
        (λ i g. if n == 0 then g else leaf_event m leaf leaf.variant (some i) mode_read g) f)

-- `handle_special_events`, by its cases.
unfoldable pub fill_case : Catalog → Leaf → Case → Fill → Run (EventType × Fill)
unfolding leaf_event for_each fill_bandwidths fill_freqs num_freqs fill_fan fill_power_cap fill_perf
fill_case m leaf pci_throughput f =
    ok (special, for_each 3 0 (λ i. leaf_event m leaf (some i) none mode_read) f)
fill_case m leaf power_presets f =
    ok (special, for_each 3 0 (λ i. leaf_event m leaf (some i) none mode_read) f)
fill_case m leaf power_cap_range f =
    ok (special, for_each 2 0 (λ i. leaf_event m leaf (some i) leaf.subvariant mode_read) f)
fill_case m leaf ecc_count f =
    ok (special, for_each 2 0 (λ i. leaf_event m leaf leaf.variant (some i) mode_read) f)
fill_case m leaf pci_bandwidth_get f =
    ok (special, fill_bandwidths m leaf (m.pcie_rates leaf.device) f)
fill_case m leaf pci_bandwidth_set f = ok (
  special,
  (if m.pcie_rates leaf.device == 0
      then f
      else leaf_event m leaf leaf.variant leaf.subvariant mode_write f),
)
fill_case m leaf clk_freq_get f =
    num_freqs m leaf.device leaf.variant >>= λ n. ok (special, fill_freqs m leaf n f)
fill_case m leaf clk_freq_set f = num_freqs m leaf.device leaf.variant >>= λ n.
    ok (special, (if n == 0 then f else leaf_event m leaf leaf.variant none mode_write f))
fill_case m leaf fan_speed_get f = fill_fan leaf mode_read f
fill_case m leaf fan_speed_set f = fill_fan leaf mode_write f
fill_case m leaf power_cap_get f = fill_power_cap leaf leaf.subvariant mode_read f
fill_case m leaf power_cap_set f = fill_power_cap leaf leaf.subvariant mode_write f
fill_case m leaf perf_level_set f = fill_perf leaf mode_write f
fill_case m leaf perf_level f = fill_perf leaf mode_read f
fill_case m leaf other_function f = ok (normal, f)

-- A known event is added.
unfoldable pub fill_named : Catalog → Leaf → Option Text → EventType × Fill → Fill
unfolding leaf_event get_access_mode
fill_named m leaf (some name) (normal, f) =
    leaf_event m leaf leaf.variant leaf.subvariant (get_access_mode leaf.name) f
fill_named m leaf name (t, f) = f

unfoldable pub fill_leaf : Catalog → Leaf → Fill → Run Fill
unfolding fill_case case_of fill_named
fill_leaf m leaf f = fill_case m leaf (case_of leaf.name) f >>= λ r.
    ok
      (fill_named m leaf (m.event_name leaf.name (some leaf.device) leaf.variant leaf.subvariant) r)

-- The events of a group, from the first type to the last, both included.
unfoldable pub fill_group : Catalog → ℕ → XgmiGroup → Fill → Fill
unfolding add_event for_each
fill_group m dev g f =
    if m.group_supported dev g
    then for_each (m.last_type g + 1 - m.first_type g) (m.first_type g)
        (λ i. add_event m (codes "rsmi_dev_xgmi_evt_get") (some dev) (some i) none mode_read) f
    else f

-- The events of two devices between which P2P access is possible.
unfoldable pub fill_peer : Catalog → ℕ → ℕ → Fill → Fill
unfolding add_event for_each
fill_peer m dev i f =
    for_each 2 0
      (λ j. add_event m (codes "rsmi_dev_xgmi_bw_get") (some dev) (some j) (some i) mode_read) f

-- The loop over the other devices, from `i` on.
unfoldable pub fill_peers : Catalog → ℕ → ℕ → ℕ → Fill → Fill
unfolding fill_peer
fill_peers m dev zero i f = f
fill_peers m dev (suc left) i f =
    if i == dev then fill_peers m dev left (i + 1) f else elim (m.p2p_accessible i dev) [
      | none ↦ f
      | some zero ↦ fill_peers m dev left (i + 1) f
      | some (suc res) ↦ elim (m.minmax_bandwidth dev i) [
        | false ↦ f
        | true ↦ fill_peers m dev left (i + 1) (fill_peer m dev i f)
      ]
    ]

-- `handle_xgmi_events`
unfoldable pub fill_xgmi : Catalog → ℕ → Fill → Run Fill
unfolding fill_group fill_peers
fill_xgmi m dev f = ok (
    fill_peers m dev m.device_count 0
      (fill_group m dev grp_xgmi_data_out (fill_group m dev grp_xgmi f)))

-- The events about the library.
unfoldable pub info_events : Catalog → Statics → Fill
unfolding add_event
info_events m st = add_event m (codes "rsmi_dev_driver_version_str_get") none none none mode_read (
    add_event m (codes "rsmi_lib_version") none none none mode_read (
      add_event m (codes "rsmi_dev_count") none none none mode_read
        (record { statics = st; events = []; reach = 0 })))

-- The loops of `get_ntv_events`.
unfoldable pub fill_events : Catalog → Statics → Run (Bool × Fill)
unfolding fill_leaf fill_xgmi info_events
fill_events m st = walk_devices (fill_leaf m) (fill_xgmi m) m m.device_count 0 (info_events m st)

-- The result, where `events` has `count` elements: a write behind them, of a new event or of one that
-- the static arrays name, is undefined behaviour, and
-- `events_count - count` is compared at the end.
unfoldable pub written_within : ℕ → Bool × Fill → Run (PapiErrno × Fill)
written_within count (done, f) =
    if leb (length f.events) count && leb f.reach count
    then ok ((if done && not (length f.events == count) then papi_ecmp else errno_of done), f)
    else fault out_of_bounds

unfoldable pub get_ntv_events : Catalog → Statics → ℕ → Run (PapiErrno × Fill)
unfolding fill_events written_within errno_of
get_ntv_events m st count = fill_events m st >>= written_within count
