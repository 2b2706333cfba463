-- ===== src/Rocs/Access/Table/Harmless.antt =====
-- What all event functions have in common (event_function_table of patches/rocm_smi/rocs.c).
use scorep_amd.Common.{
  ℕ, ◌%◌, ◌^◌, ◌≡◌, refl, Bool, true, false, some, if◌then◌else◌, Bool-cases, inl, inr,
}
use scorep_amd.Rocs.Library.{Rsmi}
use scorep_amd.Rocs.Access.Xgmi.{
  open_simple, close_simple, start_simple, stop_simple, close_xgmi_evt, start_xgmi_evt,
  stop_xgmi_evt, access_xgmi_evt, open_xgmi_evt-Kept, access_xgmi_evt-Kept,
}
use scorep_amd.Rocs.Access.{
  Result, only, got_value, Kept, did_set-Kept, swap_pair, index, access_rsmi_dev_id,
  access_rsmi_dev_subsystem_vendor_id, access_rsmi_dev_vendor_id, access_rsmi_dev_unique_id,
  access_rsmi_dev_subsystem_id, access_rsmi_dev_drm_render_minor, access_rsmi_dev_memory_total,
  access_rsmi_dev_memory_usage, access_rsmi_dev_memory_busy_percent, access_rsmi_dev_busy_percent,
  access_rsmi_dev_pci_id, access_rsmi_dev_pci_replay_counter, access_rsmi_dev_fan_rpms,
  access_rsmi_dev_fan_speed_max, access_rsmi_dev_power_ave, access_rsmi_dev_temp_metric,
  access_rsmi_dev_overdrive_level, access_rsmi_dev_perf_level, access_rsmi_dev_power_cap,
  access_rsmi_dev_power_profile_set, access_rsmi_dev_fan_reset, access_rsmi_dev_fan_speed,
  access_rsmi_dev_count, access_rsmi_lib_version, access_rsmi_dev_pci_throughput,
  access_rsmi_dev_power_profile_presets, access_rsmi_dev_power_cap_range, access_xgmi_bw,
}
use scorep_amd.Rocs.{
  papi_emisc, papi_enosupp, AccessMode, mode_read, mode_write, NtvEvent, Function, open_func,
  close_func, start_func, stop_func, read_func, write_func,
}
use scorep_amd.Rocs.Access.Parts.{
  Harmless, got_value-Harmless, same-Harmless, unsupported-Harmless, if-Harmless,
  read_only-Harmless, read_write-Harmless, write_only-Harmless, pick_three-Harmless,
  pick_two-Harmless,
}
use scorep_amd.Rocs.Access.Table.{
  EventKind, xgmi_evt, dev_id, dev_subsystem_vendor_id, dev_vendor_id, dev_unique_id,
  dev_subsystem_id, dev_drm_render_minor, dev_memory_total, dev_memory_usage,
  dev_memory_busy_percent, dev_busy_percent, dev_pci_id, dev_pci_replay_counter, dev_fan_rpms,
  dev_fan_speed_max, dev_power_ave, dev_temp_metric, dev_overdrive_level, dev_perf_level,
  dev_power_cap, dev_power_profile_set, dev_fan_reset, dev_fan_speed, dev_count, lib_version,
  dev_pci_throughput, dev_power_profile_presets, dev_power_cap_range, xgmi_bw, access_func,
  is_xgmi_evt, row, event_functions,
}

module _ {σ : Type 0} where
  access_func-Harmless :
      (lib : Rsmi σ) (garbage : ℕ) (kind : EventKind) (mode : AccessMode) (ev : NtvEvent) (s : σ)
      → is_xgmi_evt kind ≡ false
      → Harmless mode ev s (access_func lib garbage kind mode ev s)
  unfolding access_func is_xgmi_evt got_value access_rsmi_dev_id access_rsmi_dev_subsystem_vendor_id
      access_rsmi_dev_vendor_id access_rsmi_dev_unique_id access_rsmi_dev_subsystem_id
      access_rsmi_dev_drm_render_minor access_rsmi_dev_memory_total access_rsmi_dev_memory_usage
      access_rsmi_dev_memory_busy_percent access_rsmi_dev_busy_percent access_rsmi_dev_pci_id
      access_rsmi_dev_pci_replay_counter access_rsmi_dev_fan_rpms access_rsmi_dev_fan_speed_max
      access_rsmi_dev_power_ave access_rsmi_dev_temp_metric access_rsmi_dev_overdrive_level
      access_rsmi_dev_perf_level access_rsmi_dev_power_cap access_rsmi_dev_power_profile_set
      access_rsmi_dev_fan_reset access_rsmi_dev_fan_speed access_rsmi_dev_count
      access_rsmi_lib_version access_rsmi_dev_pci_throughput access_rsmi_dev_power_profile_presets
      access_rsmi_dev_power_cap_range access_xgmi_bw
  access_func-Harmless lib g xgmi_evt mode ev s h = cc
  access_func-Harmless lib g dev_id mode ev s h = read_only-Harmless mode ev s _
  access_func-Harmless lib g dev_subsystem_vendor_id mode ev s h = read_only-Harmless mode ev s _
  access_func-Harmless lib g dev_vendor_id mode ev s h = read_only-Harmless mode ev s _
  access_func-Harmless lib g dev_unique_id mode ev s h = read_only-Harmless mode ev s _
  access_func-Harmless lib g dev_subsystem_id mode ev s h = read_only-Harmless mode ev s _
  access_func-Harmless lib g dev_drm_render_minor mode ev s h = read_only-Harmless mode ev s _
  access_func-Harmless lib g dev_memory_total mode ev s h = read_only-Harmless mode ev s _
  access_func-Harmless lib g dev_memory_usage mode ev s h = read_only-Harmless mode ev s _
  access_func-Harmless lib g dev_memory_busy_percent mode ev s h = read_only-Harmless mode ev s _
  access_func-Harmless lib g dev_busy_percent mode ev s h = read_only-Harmless mode ev s _
  access_func-Harmless lib g dev_pci_id mode ev s h = read_only-Harmless mode ev s _
  access_func-Harmless lib g dev_pci_replay_counter mode ev s h = read_only-Harmless mode ev s _
  access_func-Harmless lib g dev_fan_rpms mode ev s h = read_only-Harmless mode ev s _
  access_func-Harmless lib g dev_fan_speed_max mode ev s h = read_only-Harmless mode ev s _
  access_func-Harmless lib g dev_power_ave mode ev s h = read_only-Harmless mode ev s _
  access_func-Harmless lib g dev_temp_metric mode ev s h = read_only-Harmless mode ev s _
  access_func-Harmless lib g dev_overdrive_level mode ev s h = read_write-Harmless lib mode ev s _ _
  access_func-Harmless lib g dev_perf_level mode ev s h = read_write-Harmless lib mode ev s _ _
  access_func-Harmless lib g dev_power_cap mode ev s h = read_write-Harmless lib mode ev s _ _
  access_func-Harmless lib g dev_power_profile_set mode ev s h = write_only-Harmless lib mode ev s _
  access_func-Harmless lib g dev_fan_reset mode ev s h = write_only-Harmless lib mode ev s _
  access_func-Harmless lib g dev_fan_speed mode ev s h =
      if-Harmless mode ev s (only mode_read mode ev.mode) _ _
        (got_value-Harmless mode ev s (lib.dev_fan_speed_get (index ev) ev.subvariant s))
        (unsupported-Harmless lib mode ev s)
  access_func-Harmless lib g dev_count mode ev s h =
      read_only-Harmless mode ev s (some lib.device_count)
  access_func-Harmless lib g lib_version mode ev s h = read_only-Harmless mode ev s _
  access_func-Harmless lib g dev_pci_throughput mode ev s h =
      if-Harmless mode ev s (only mode_read mode ev.mode) _ _
        (pick_three-Harmless mode papi_emisc ev s ev.variant
          (lib.dev_pci_throughput_get (index ev) s))
        (same-Harmless mode ev s papi_enosupp)
  access_func-Harmless lib g dev_power_profile_presets mode ev s h =
      if-Harmless mode ev s (only mode_read mode ev.mode) _ _
        (pick_three-Harmless mode papi_emisc ev s ev.variant
          (lib.dev_power_profile_presets_get (index ev) ev.variant s))
        (same-Harmless mode ev s papi_enosupp)
  access_func-Harmless lib g dev_power_cap_range mode ev s h =
      if-Harmless mode ev s (only mode_read mode ev.mode) _ _
        (pick_two-Harmless mode papi_emisc ev s ev.variant
          (swap_pair (lib.dev_power_cap_range_get (index ev) ev.subvariant s)))
        (same-Harmless mode ev s papi_enosupp)
  access_func-Harmless lib g xgmi_bw mode ev s h =
      if-Harmless mode ev s (only mode_read mode ev.mode) _ _
        (pick_two-Harmless mode papi_enosupp ev s ev.variant
          (lib.minmax_bandwidth_get (index ev) (ev.subvariant % 2 ^ 32) s))
        (same-Harmless mode ev s papi_enosupp)

  xgmi_access :
      (lib : Rsmi σ) (garbage : ℕ) (kind : EventKind) (mode : AccessMode) (ev : NtvEvent) (s : σ)
      → is_xgmi_evt kind ≡ true
      → access_func lib garbage kind mode ev s ≡ access_xgmi_evt lib garbage mode ev s
  unfolding access_func is_xgmi_evt
  xgmi_access lib g xgmi_evt mode ev s h = refl
  xgmi_access lib g dev_id mode ev s h = cc
  xgmi_access lib g dev_subsystem_vendor_id mode ev s h = cc
  xgmi_access lib g dev_vendor_id mode ev s h = cc
  xgmi_access lib g dev_unique_id mode ev s h = cc
  xgmi_access lib g dev_subsystem_id mode ev s h = cc
  xgmi_access lib g dev_drm_render_minor mode ev s h = cc
  xgmi_access lib g dev_memory_total mode ev s h = cc
  xgmi_access lib g dev_memory_usage mode ev s h = cc
  xgmi_access lib g dev_memory_busy_percent mode ev s h = cc
  xgmi_access lib g dev_busy_percent mode ev s h = cc
  xgmi_access lib g dev_pci_id mode ev s h = cc
  xgmi_access lib g dev_pci_replay_counter mode ev s h = cc
  xgmi_access lib g dev_fan_rpms mode ev s h = cc
  xgmi_access lib g dev_fan_speed_max mode ev s h = cc
  xgmi_access lib g dev_power_ave mode ev s h = cc
  xgmi_access lib g dev_temp_metric mode ev s h = cc
  xgmi_access lib g dev_overdrive_level mode ev s h = cc
  xgmi_access lib g dev_perf_level mode ev s h = cc
  xgmi_access lib g dev_power_cap mode ev s h = cc
  xgmi_access lib g dev_power_profile_set mode ev s h = cc
  xgmi_access lib g dev_fan_reset mode ev s h = cc
  xgmi_access lib g dev_fan_speed mode ev s h = cc
  xgmi_access lib g dev_count mode ev s h = cc
  xgmi_access lib g lib_version mode ev s h = cc
  xgmi_access lib g dev_pci_throughput mode ev s h = cc
  xgmi_access lib g dev_power_profile_presets mode ev s h = cc
  xgmi_access lib g dev_power_cap_range mode ev s h = cc
  xgmi_access lib g xgmi_bw mode ev s h = cc

  access_func-Kept :
      (lib : Rsmi σ) (garbage : ℕ) (kind : EventKind) (mode : AccessMode) (ev : NtvEvent) (s : σ)
      → Kept ev (access_func lib garbage kind mode ev s)
  access_func-Kept lib g kind mode ev s = elim (Bool-cases (is_xgmi_evt kind)) [
    | inl e ↦ rw (xgmi_access lib g kind mode ev s e) (access_xgmi_evt-Kept lib g mode ev s)
    | inr e ↦ (access_func-Harmless lib g kind mode ev s e).kept
  ]

  if-Kept :
      (ev : NtvEvent) (b : Bool) (r r' : Result σ)
      → Kept ev r
      → Kept ev r'
      → Kept ev (if b then r else r')
  if-Kept ev true r r' h h' = h
  if-Kept ev false r r' h h' = h'

  row-Kept :
      (lib : Rsmi σ) (garbage : ℕ) (kind : EventKind) (f : Function) (ev : NtvEvent) (s : σ)
      → Kept ev (row lib garbage kind f ev s)
  unfolding row open_simple close_simple start_simple stop_simple close_xgmi_evt start_xgmi_evt
      stop_xgmi_evt
  row-Kept lib g kind open_func ev s =
      if-Kept ev (is_xgmi_evt kind) _ _ (open_xgmi_evt-Kept lib ev s)
        (record { device = refl; id = refl; mode = refl })
  row-Kept lib g kind close_func ev s =
      if-Kept ev (is_xgmi_evt kind) _ _ (did_set-Kept ev s (lib.dev_counter_destroy ev.scratch s))
        (record { device = refl; id = refl; mode = refl })
  row-Kept lib g kind start_func ev s =
      if-Kept ev (is_xgmi_evt kind) _ _ (did_set-Kept ev s (lib.counter_start ev.scratch s))
        (record { device = refl; id = refl; mode = refl })
  row-Kept lib g kind stop_func ev s =
      if-Kept ev (is_xgmi_evt kind) _ _ (did_set-Kept ev s (lib.counter_stop ev.scratch s))
        (record { device = refl; id = refl; mode = refl })
  row-Kept lib g kind read_func ev s = access_func-Kept lib g kind mode_read ev s
  row-Kept lib g kind write_func ev s = access_func-Kept lib g kind mode_write ev s

  -- No function of an event of a kind that `EventKind` lists changes the event's device, id or mode,
  -- whatever the library's calls return. The access function of such an event that is no XGMI counter
  -- leaves the state behind the library alone when it is called to read: it calls only functions of
  -- the library that `Rsmi` takes to leave it alone, not those that set, create, start or stop.
  pub event_functions-harmless :
      (lib : Rsmi σ) (garbage : ℕ) (kind : ℕ → EventKind) (f : Function) (ev : NtvEvent) (s : σ)
      → let r = event_functions lib garbage kind f ev s in
        (r.1.device ≡ ev.device)
        × (r.1.id ≡ ev.id)
        × (r.1.mode ≡ ev.mode)
        × (f ≡ read_func → is_xgmi_evt (kind ev.id) ≡ false → r.2 ≡ s)
  unfolding event_functions row
  event_functions-harmless lib g kind f ev s =
      let k = row-Kept lib g (kind ev.id) f ev s in
      (
        k.device,
        k.id,
        k.mode,
        λ e h. rw e ((access_func-Harmless lib g (kind ev.id) mode_read ev s h).state refl),
      )
