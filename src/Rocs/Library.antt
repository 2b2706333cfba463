-- ===== src/Rocs/Library.antt =====
-- The library's calls that the events make (patches/rocm_smi/rocs.c), as functions of the state
-- behind the library: `none` is any status but RSMI_STATUS_SUCCESS. `enosupp` is the bit pattern of
-- PAPI_ENOSUPP.
use scorep_amd.Common.{ℕ, Option}

-- `rsmi_event_group_t`, as far as the code names it.
pub data XgmiGroup : Type 0 where
  grp_xgmi grp_xgmi_data_out : XgmiGroup

pub record Rsmi (σ : Type 0) : Type 0 where
  pub enosupp : ℕ
  pub device_count : ℕ
  pub version_get : σ → Option (ℕ × ℕ × ℕ)
  pub counter_available_counters_get : ℕ → XgmiGroup → σ → Option ℕ
  pub dev_counter_create : ℕ → ℕ → σ → Option (ℕ × σ)
  pub dev_counter_destroy : ℕ → σ → Option σ
  pub counter_start : ℕ → σ → Option σ
  pub counter_stop : ℕ → σ → Option σ
  pub counter_read : ℕ → σ → Option (ℕ × σ)
  pub minmax_bandwidth_get : ℕ → ℕ → σ → Option (ℕ × ℕ)
  pub dev_overdrive_level_get : ℕ → σ → Option ℕ
  pub dev_overdrive_level_set : ℕ → ℕ → σ → Option σ
  pub dev_perf_level_get : ℕ → σ → Option ℕ
  pub dev_perf_level_set : ℕ → ℕ → σ → Option σ
  pub dev_pci_throughput_get : ℕ → σ → Option (ℕ × ℕ × ℕ)
  pub dev_power_profile_presets_get : ℕ → ℕ → σ → Option (ℕ × ℕ × ℕ)
  pub dev_power_profile_set : ℕ → ℕ → ℕ → σ → Option σ
  pub dev_fan_reset : ℕ → ℕ → σ → Option σ
  pub dev_fan_speed_get : ℕ → ℕ → σ → Option ℕ
  pub dev_power_cap_get : ℕ → ℕ → σ → Option ℕ
  pub dev_power_cap_set : ℕ → ℕ → ℕ → σ → Option σ
  pub dev_power_cap_range_get : ℕ → ℕ → σ → Option (ℕ × ℕ)
  pub dev_id_get : ℕ → σ → Option ℕ
  pub dev_subsystem_vendor_id_get : ℕ → σ → Option ℕ
  pub dev_vendor_id_get : ℕ → σ → Option ℕ
  pub dev_unique_id_get : ℕ → σ → Option ℕ
  pub dev_subsystem_id_get : ℕ → σ → Option ℕ
  pub dev_drm_render_minor_get : ℕ → σ → Option ℕ
  pub dev_memory_total_get : ℕ → ℕ → σ → Option ℕ
  pub dev_memory_usage_get : ℕ → ℕ → σ → Option ℕ
  pub dev_memory_busy_percent_get : ℕ → σ → Option ℕ
  pub dev_busy_percent_get : ℕ → σ → Option ℕ
  pub dev_pci_id_get : ℕ → σ → Option ℕ
  pub dev_pci_replay_counter_get : ℕ → σ → Option ℕ
  pub dev_fan_rpms_get : ℕ → ℕ → σ → Option ℕ
  pub dev_fan_speed_max_get : ℕ → ℕ → σ → Option ℕ
  pub dev_power_avg_get : ℕ → ℕ → σ → Option ℕ
  pub dev_temp_metric_get : ℕ → ℕ → ℕ → σ → Option ℕ
