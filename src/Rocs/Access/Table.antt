-- ===== src/Rocs/Access/Table.antt =====
-- The table of event functions (event_function_table of patches/rocm_smi/rocs.c), and what a row of
-- it does.
pub mod Harmless
use scorep_amd.Common.{
  ℕ, zero, suc, ◌%◌, ◌^◌, ◌≡◌, refl, Bool, true, false, Option, none, some, if◌then◌else◌, ltb,
  Bool-cases, inl, inr,
}
use scorep_amd.Rocs.Library.{Rsmi}
use scorep_amd.Rocs.Contexts.Loops.{KeepsDevice}
use scorep_amd.Rocs.Access.Xgmi.{
  open_simple, close_simple, start_simple, stop_simple, open_xgmi_evt, close_xgmi_evt,
  start_xgmi_evt, stop_xgmi_evt, access_xgmi_evt, open_xgmi_evt-Kept, access_xgmi_evt-Kept,
}
use scorep_amd.Rocs.Access.{
  Result, same_mode, only, allows, got_value, did_set, read_only, unsupported, Kept, did_set-Kept,
  read_write, write_only, map_version, swap_pair, pick_three, pick_two, index, access_rsmi_dev_id,
  access_rsmi_dev_subsystem_vendor_id, access_rsmi_dev_vendor_id, access_rsmi_dev_unique_id,
  access_rsmi_dev_subsystem_id, access_rsmi_dev_drm_render_minor, access_rsmi_dev_memory_total,
  access_rsmi_dev_memory_usage, access_rsmi_dev_memory_busy_percent, access_rsmi_dev_busy_percent,
  access_rsmi_dev_pci_id, access_rsmi_dev_pci_replay_counter, access_rsmi_dev_fan_rpms,
  access_rsmi_dev_fan_speed_max, access_rsmi_dev_power_ave, access_rsmi_dev_temp_metric,
  access_rsmi_dev_overdrive_level, access_rsmi_dev_perf_level, access_rsmi_dev_power_cap,
  access_rsmi_dev_power_profile_set, access_rsmi_dev_fan_reset, access_rsmi_dev_fan_speed,
  access_rsmi_dev_count, access_rsmi_lib_version, access_rsmi_dev_pci_throughput,
  access_rsmi_dev_power_profile_presets, access_rsmi_dev_power_cap_range, access_xgmi_bw,
}
use scorep_amd.Rocs.{
  PapiErrno, papi_ok, papi_emisc, papi_enosupp, AccessMode, mode_read, mode_write, mode_rdwr,
  NtvEvent, Function, open_func, close_func, start_func, stop_func, read_func, write_func,
  Functions,
}

-- The rows of the table that are modelled, by the access function; one row has the functions of XGMI
-- counters. The other rows are left out: those of the driver's and the firmware's version, the ECC
-- counts and states, the clock frequencies and PCIe rates, the texts (brand, names, serial number,
-- BIOS version), and those of builds with ADDENERGY or ADDPOWER.
pub data EventKind : Type 0 where
  xgmi_evt : EventKind
  dev_id dev_subsystem_vendor_id dev_vendor_id dev_unique_id dev_subsystem_id dev_drm_render_minor
        dev_memory_total dev_memory_usage dev_memory_busy_percent dev_busy_percent dev_pci_id
        dev_pci_replay_counter dev_fan_rpms dev_fan_speed_max dev_power_ave dev_temp_metric
        dev_overdrive_level dev_perf_level dev_power_cap dev_power_profile_set dev_fan_reset
        dev_fan_speed dev_count lib_version dev_pci_throughput dev_power_profile_presets
        dev_power_cap_range xgmi_bw :
      EventKind

pub is_xgmi_evt : EventKind → Bool
is_xgmi_evt xgmi_evt = true
is_xgmi_evt kind = false

module _ {σ : Type 0} where
  -- `garbage` is what a failed read of an XGMI counter leaves.
  access_func : Rsmi σ → ℕ → EventKind → AccessMode → NtvEvent → σ → Result σ
  unfolding access_rsmi_dev_id access_rsmi_dev_subsystem_vendor_id access_rsmi_dev_vendor_id
      access_rsmi_dev_unique_id access_rsmi_dev_subsystem_id access_rsmi_dev_drm_render_minor
      access_rsmi_dev_memory_total access_rsmi_dev_memory_usage access_rsmi_dev_memory_busy_percent
      access_rsmi_dev_busy_percent access_rsmi_dev_pci_id access_rsmi_dev_pci_replay_counter
      access_rsmi_dev_fan_rpms access_rsmi_dev_fan_speed_max access_rsmi_dev_power_ave
      access_rsmi_dev_temp_metric access_rsmi_dev_overdrive_level access_rsmi_dev_perf_level
      access_rsmi_dev_power_cap access_rsmi_dev_power_profile_set access_rsmi_dev_fan_reset
      access_rsmi_dev_fan_speed access_rsmi_dev_count access_rsmi_lib_version
      access_rsmi_dev_pci_throughput access_rsmi_dev_power_profile_presets
      access_rsmi_dev_power_cap_range access_xgmi_bw
  access_func lib garbage xgmi_evt mode ev s = access_xgmi_evt lib garbage mode ev s
  access_func lib garbage dev_id mode ev s = access_rsmi_dev_id lib mode ev s
  access_func lib garbage dev_subsystem_vendor_id mode ev s =
      access_rsmi_dev_subsystem_vendor_id lib mode ev s
  access_func lib garbage dev_vendor_id mode ev s = access_rsmi_dev_vendor_id lib mode ev s
  access_func lib garbage dev_unique_id mode ev s = access_rsmi_dev_unique_id lib mode ev s
  access_func lib garbage dev_subsystem_id mode ev s = access_rsmi_dev_subsystem_id lib mode ev s
  access_func lib garbage dev_drm_render_minor mode ev s =
      access_rsmi_dev_drm_render_minor lib mode ev s
  access_func lib garbage dev_memory_total mode ev s = access_rsmi_dev_memory_total lib mode ev s
  access_func lib garbage dev_memory_usage mode ev s = access_rsmi_dev_memory_usage lib mode ev s
  access_func lib garbage dev_memory_busy_percent mode ev s =
      access_rsmi_dev_memory_busy_percent lib mode ev s
  access_func lib garbage dev_busy_percent mode ev s = access_rsmi_dev_busy_percent lib mode ev s
  access_func lib garbage dev_pci_id mode ev s = access_rsmi_dev_pci_id lib mode ev s
  access_func lib garbage dev_pci_replay_counter mode ev s =
      access_rsmi_dev_pci_replay_counter lib mode ev s
  access_func lib garbage dev_fan_rpms mode ev s = access_rsmi_dev_fan_rpms lib mode ev s
  access_func lib garbage dev_fan_speed_max mode ev s = access_rsmi_dev_fan_speed_max lib mode ev s
  access_func lib garbage dev_power_ave mode ev s = access_rsmi_dev_power_ave lib mode ev s
  access_func lib garbage dev_temp_metric mode ev s = access_rsmi_dev_temp_metric lib mode ev s
  access_func lib garbage dev_overdrive_level mode ev s =
      access_rsmi_dev_overdrive_level lib mode ev s
  access_func lib garbage dev_perf_level mode ev s = access_rsmi_dev_perf_level lib mode ev s
  access_func lib garbage dev_power_cap mode ev s = access_rsmi_dev_power_cap lib mode ev s
  access_func lib garbage dev_power_profile_set mode ev s =
      access_rsmi_dev_power_profile_set lib mode ev s
  access_func lib garbage dev_fan_reset mode ev s = access_rsmi_dev_fan_reset lib mode ev s
  access_func lib garbage dev_fan_speed mode ev s = access_rsmi_dev_fan_speed lib mode ev s
  access_func lib garbage dev_count mode ev s = access_rsmi_dev_count lib mode ev s
  access_func lib garbage lib_version mode ev s = access_rsmi_lib_version lib mode ev s
  access_func lib garbage dev_pci_throughput mode ev s =
      access_rsmi_dev_pci_throughput lib mode ev s
  access_func lib garbage dev_power_profile_presets mode ev s =
      access_rsmi_dev_power_profile_presets lib mode ev s
  access_func lib garbage dev_power_cap_range mode ev s =
      access_rsmi_dev_power_cap_range lib mode ev s
  access_func lib garbage xgmi_bw mode ev s = access_xgmi_bw lib mode ev s

  -- The function pointers of an event with some kind.
  row : Rsmi σ → ℕ → EventKind → Function → NtvEvent → σ → Result σ
  unfolding access_func is_xgmi_evt
  row lib garbage kind open_func ev s =
      if is_xgmi_evt kind then open_xgmi_evt lib ev s else open_simple ev s
  row lib garbage kind close_func ev s =
      if is_xgmi_evt kind then close_xgmi_evt lib ev s else close_simple ev s
  row lib garbage kind start_func ev s =
      if is_xgmi_evt kind then start_xgmi_evt lib ev s else start_simple ev s
  row lib garbage kind stop_func ev s =
      if is_xgmi_evt kind then stop_xgmi_evt lib ev s else stop_simple ev s
  row lib garbage kind read_func ev s = access_func lib garbage kind mode_read ev s
  row lib garbage kind write_func ev s = access_func lib garbage kind mode_write ev s

  -- `kind` gives the row that the event with an id was made from.
  pub event_functions : Rsmi σ → ℕ → (ℕ → EventKind) → Functions σ
  unfolding row
  event_functions lib garbage kind f ev s = row lib garbage (kind ev.id) f ev s
