-- ===== src/Rocs/Events.antt =====
-- The table of events (patches/rocm_smi/rocs.c): one pass over what the library supports counts the
-- events, a second one makes them.
pub mod Walk
pub mod Counting
pub mod Filling
pub mod Agreement
pub mod Table
pub mod Numbering
pub mod Codes
pub mod RoundTrip
pub mod Enumeration
pub mod Initialized
pub mod Distinct
pub mod Forgotten
mod Examples
use scorep_amd.Common.{
  ℕ, zero, ◌+◌, ◌-◌, ◌*◌, Bool, true, false, Option, none, some, List, if◌then◌else◌, ltb, ◌==◌,
}
use scorep_amd.Common.Run.{Run, ok, fault, out_of_bounds}
use scorep_amd.Common.Strings.{Text, codes, same_text, starts_with}
use scorep_amd.Rocs.Library.{XgmiGroup}

-- What the library's iterators yield for a device: its functions, for each the variants, for each of
-- those the subvariants. A device whose iterator can be opened has a function. Where the iterator of
-- variants or of subvariants has no data the list is empty. `closes` says whether the
-- iterator can be closed.
pub record Variant : Type 0 where
  pub id : ℕ
  pub subvariants : List ℕ
  pub subvariants_close : Bool

pub record Supported : Type 0 where
  pub name : Text
  pub variants : List Variant
  pub variants_close : Bool

pub record Listing : Type 0 where
  pub first : Supported
  pub others : List Supported
  pub functions_close : Bool

-- The library, as far as both passes ask it, the tables of frequencies and of PCIe rates (the numbers
-- of supported values), the first and last types of XGMI events, and whether a function with a variant
-- and a subvariant has a name (`get_event_name`). A listing is `none` where the iterator cannot be
-- opened, P2P access where the call fails. -1 as a variant or a subvariant is `none`.
pub record Catalog : Type 0 where
  pub device_count : ℕ
  pub listing : ℕ → Option Listing
  pub pcie_rates : ℕ → ℕ
  pub freqs : ℕ → ℕ
  pub group_supported : ℕ → XgmiGroup → Bool
  pub first_type : XgmiGroup → ℕ
  pub last_type : XgmiGroup → ℕ
  pub p2p_accessible : ℕ → ℕ → Option ℕ
  pub minmax_bandwidth : ℕ → ℕ → Bool
  pub event_name : Text → Option ℕ → Option ℕ → Option ℕ → Option Text

-- The arguments of a call of `handle_special_events`.
pub record Leaf : Type 0 where
  pub name : Text
  pub device : ℕ
  pub variant : Option ℕ
  pub subvariant : Option ℕ

-- The cases of `handle_special_events`, in the order of its tests.
pub data Case : Type 0 where
  pci_throughput power_presets power_cap_range ecc_count pci_bandwidth_get pci_bandwidth_set
        clk_freq_get clk_freq_set fan_speed_get fan_speed_set power_cap_get power_cap_set
        perf_level_set perf_level other_function :
      Case

unfoldable pub perf_case : Text → Case
unfolding same_text
perf_case name =
    if same_text name (codes "rsmi_dev_perf_level_set") then perf_level_set else perf_level

unfoldable pub merged_case : Text → Case
unfolding same_text starts_with perf_case
merged_case name =
    if same_text name (codes "rsmi_dev_fan_speed_get")
    then fan_speed_get
    else if same_text name (codes "rsmi_dev_fan_speed_set")
    then fan_speed_set
    else if same_text name (codes "rsmi_dev_power_cap_get")
    then power_cap_get
    else if same_text name (codes "rsmi_dev_power_cap_set")
    then power_cap_set
    else if starts_with (codes "rsmi_dev_perf_level") name
    then perf_case name
    else other_function

unfoldable pub case_of : Text → Case
unfolding same_text merged_case
case_of name =
    if same_text name (codes "rsmi_dev_pci_throughput_get")
    then pci_throughput
    else if same_text name (codes "rsmi_dev_power_profile_presets_get")
    then power_presets
    else if same_text name (codes "rsmi_dev_power_cap_range_get")
    then power_cap_range
    else if same_text name (codes "rsmi_dev_ecc_count_get")
    then ecc_count
    else if same_text name (codes "rsmi_dev_pci_bandwidth_get")
    then pci_bandwidth_get
    else if same_text name (codes "rsmi_dev_pci_bandwidth_set")
    then pci_bandwidth_set
    else if same_text name (codes "rsmi_dev_gpu_clk_freq_get")
    then clk_freq_get
    else if same_text name (codes "rsmi_dev_gpu_clk_freq_set")
    then clk_freq_set
    else merged_case name

-- The functions that share an event with another one.
unfoldable pub is_merged : Case → Bool
is_merged fan_speed_get = true
is_merged fan_speed_set = true
is_merged power_cap_get = true
is_merged power_cap_set = true
is_merged perf_level_set = true
is_merged perf_level = true
is_merged case = false

-- `freq_table[table_id].num_supported`; ROCS_GPU_CLK_FREQ_VARIANT__NUM is 5.
unfoldable pub num_freqs : Catalog → ℕ → Option ℕ → Run ℕ
num_freqs m dev none =
    if dev == 0
    then fault out_of_bounds
    else if ltb (dev * 5 - 1) (m.device_count * 5)
    then ok (m.freqs (dev * 5 - 1))
    else fault out_of_bounds
num_freqs m dev (some v) =
    if ltb (dev * 5 + v) (m.device_count * 5)
    then ok (m.freqs (dev * 5 + v))
    else fault out_of_bounds

-- The static arrays of `handle_special_events_count` and of `handle_special_events`, each with
-- PAPI_ROCMSMI_MAX_DEV_COUNT (32) elements, and PAPI_ROCMSMI_MAX_SUBVAR (32) for each device.
pub record Statics : Type 0 where
  pub fan_speed : ℕ → ℕ
  pub power_cap : ℕ → ℕ → ℕ
  pub perf_level_count : ℕ → ℕ

abbrev pub update {ℓ} : {A : Type ℓ} → (ℕ → A) → ℕ → A → ℕ → A
update f d v q = if d == q then v else f q

-- `rocs_event_type_e`
pub data EventType : Type 0 where
  normal special : EventType

-- Whether the element of a static array is 0; it is then set to the number of events so far.
unfoldable pub first_time : ℕ → EventType
first_time n = if n == 0 then normal else special

unfoldable pub set_fan : ℕ → ℕ → Statics → Statics
set_fan d n st =
    if st.fan_speed d == 0 then record st { fan_speed = update st.fan_speed d n } else st

unfoldable pub set_cap : ℕ → ℕ → ℕ → Statics → Statics
set_cap d sub n st =
    if st.power_cap d sub == 0
    then record st { power_cap = update st.power_cap d (update (st.power_cap d) sub n) }
    else st

unfoldable pub set_perf : ℕ → ℕ → Statics → Statics
set_perf d n st =
    if st.perf_level_count d == 0
    then record st { perf_level_count = update st.perf_level_count d n }
    else st
