-- ===== src/Rocs/Events/Counting.antt =====
-- The first pass (patches/rocm_smi/rocs.c, `get_ntv_events_count` and the functions it calls).
use scorep_amd.Common.{
  ℕ, zero, suc, ◌+◌, ◌-◌, ◌*◌, true, false, ◌&&◌, Bool, Option, none, some, if◌then◌else◌, ltb,
  ◌==◌,
}
use scorep_amd.Common.Run.{Run, ok, fault, ◌>>=◌, out_of_bounds}
use scorep_amd.Common.Strings.{Text}
use scorep_amd.Rocs.Library.{XgmiGroup, grp_xgmi, grp_xgmi_data_out}
use scorep_amd.Rocs.Events.{
  Catalog, Leaf, Case, pci_throughput, power_presets, power_cap_range, ecc_count, pci_bandwidth_get,
  pci_bandwidth_set, clk_freq_get, clk_freq_set, fan_speed_get, fan_speed_set, power_cap_get,
  power_cap_set, perf_level_set, perf_level, other_function, case_of, num_freqs, Statics, EventType,
  normal, special, first_time, set_fan, set_cap, set_perf,
}
use scorep_amd.Rocs.Events.Walk.{walk_devices}

-- The first pass: the static arrays, and `events_count`.
pub record Tally : Type 0 where
  pub statics : Statics
  pub count : ℕ

unfoldable pub count_fan : ℕ → Tally → Run (EventType × Tally)
unfolding first_time set_fan
count_fan dev c =
    if ltb dev 32
    then ok
        (first_time (c.statics.fan_speed dev), record c { statics = set_fan dev c.count c.statics })
    else fault out_of_bounds

unfoldable pub count_cap : ℕ → Option ℕ → Tally → Run (EventType × Tally)
unfolding first_time set_cap
count_cap dev none c = fault out_of_bounds
count_cap dev (some sub) c =
    if ltb dev 32 && ltb sub 32
    then ok (
      first_time (c.statics.power_cap dev sub),
      record c { statics = set_cap dev sub c.count c.statics },
    )
    else fault out_of_bounds

unfoldable pub count_perf : ℕ → Tally → Run (EventType × Tally)
unfolding first_time set_perf
count_perf dev c =
    if ltb dev 32
    then ok (
      first_time (c.statics.perf_level_count dev),
      record c { statics = set_perf dev c.count c.statics },
    )
    else fault out_of_bounds

abbrev pub counted : ℕ → Tally → Run (EventType × Tally)
counted n c = ok (special, record c { count = c.count + n })

-- `handle_special_events_count`, by its cases. The variants of PCI throughput, of power presets, of
-- the power cap's range and of ECC counts are 3, 3, 2 and 2; the number and the current one of PCI
-- rates and of frequencies are 2 events.
unfoldable pub count_case : Catalog → Leaf → Case → Tally → Run (EventType × Tally)
unfolding num_freqs count_fan count_cap count_perf
count_case m leaf pci_throughput c = counted 3 c
count_case m leaf power_presets c = counted 3 c
count_case m leaf power_cap_range c = counted 2 c
count_case m leaf ecc_count c = counted 2 c
count_case m leaf pci_bandwidth_get c =
    let rates = m.pcie_rates leaf.device in counted ((if rates == 0 then 0 else 2) + 3 * rates) c
count_case m leaf pci_bandwidth_set c = counted (if m.pcie_rates leaf.device == 0 then 0 else 1) c
count_case m leaf clk_freq_get c =
    num_freqs m leaf.device leaf.variant >>= λ n. counted (n + (if n == 0 then 0 else 2)) c
count_case m leaf clk_freq_set c =
    num_freqs m leaf.device leaf.variant >>= λ n. counted (if n == 0 then 0 else 1) c
count_case m leaf fan_speed_get c = count_fan leaf.device c
count_case m leaf fan_speed_set c = count_fan leaf.device c
count_case m leaf power_cap_get c = count_cap leaf.device leaf.subvariant c
count_case m leaf power_cap_set c = count_cap leaf.device leaf.subvariant c
count_case m leaf perf_level_set c = count_perf leaf.device c
count_case m leaf perf_level c = count_perf leaf.device c
count_case m leaf other_function c = ok (normal, c)

-- An event with a name is counted.
unfoldable pub count_named : Option Text → EventType × Tally → Tally
count_named (some name) (normal, c) = record c { count = c.count + 1 }
count_named name (t, c) = c

abbrev pub name_of : Catalog → Leaf → Option Text
name_of m leaf = m.event_name leaf.name (some leaf.device) leaf.variant leaf.subvariant

unfoldable pub count_leaf : Catalog → Leaf → Tally → Run Tally
unfolding count_case case_of count_named
count_leaf m leaf c =
    count_case m leaf (case_of leaf.name) c >>= λ r. ok (count_named (name_of m leaf) r)

-- The types between the first and the last of a group, as the first pass counts them.
unfoldable pub count_group : Catalog → ℕ → XgmiGroup → ℕ → ℕ
count_group m dev g n = if m.group_supported dev g then n + (m.last_type g - m.first_type g) else n

-- The loop over the other devices, from `i` on.
unfoldable pub count_peers : Catalog → ℕ → ℕ → ℕ → ℕ → ℕ
count_peers m dev zero i n = n
count_peers m dev (suc left) i n =
    if i == dev then count_peers m dev left (i + 1) n else elim (m.p2p_accessible dev i) [
      | none ↦ n
      | some res ↦ elim (m.minmax_bandwidth dev i) [
        | false ↦ n
        | true ↦ count_peers m dev left (i + 1) (if res == 1 then n + 2 else n)
      ]
    ]

-- `handle_xgmi_events_count`
unfoldable pub count_xgmi : Catalog → ℕ → Tally → Run Tally
unfolding count_group count_peers
count_xgmi m dev c =
    let n = count_group m dev grp_xgmi_data_out (count_group m dev grp_xgmi c.count) in
    ok (record c { count = count_peers m dev m.device_count 0 n })

-- `get_ntv_events_count`, from the 3 events about the library on.
unfoldable pub get_ntv_events_count : Catalog → Statics → Run (Bool × Tally)
unfolding count_leaf count_xgmi
get_ntv_events_count m st =
    walk_devices (count_leaf m) (count_xgmi m) m m.device_count 0
      (record { statics = st; count = 3 })
