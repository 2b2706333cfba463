-- ===== src/Rocs/Access.antt =====
-- The access functions of events (patches/rocm_smi/rocs.c), each under its own name.
pub mod Xgmi
pub mod Parts
pub mod Table
pub mod Version
use scorep_amd.Common.{
  ℕ, zero, suc, ◌+◌, ◌-◌, ◌*◌, ◌%◌, ◌^◌, Bool, true, false, ◌&&◌, not, Option, none, some, List, [],
  ◌∷◌, if◌then◌else◌, ◌≡◌, refl,
}
use scorep_amd.Rocs.Library.{Rsmi}
use scorep_amd.Rocs.{
  PapiErrno, papi_ok, papi_emisc, papi_enosupp, AccessMode, mode_read, mode_write, mode_rdwr,
  NtvEvent,
}

-- The result of a function: its error number, the event, and the state behind the library.
abbrev pub Result : Type 0 → Type 0
Result σ = PapiErrno × NtvEvent × σ

-- `event->device` as an unsigned argument; a negative device is -1.
pub index : NtvEvent → ℕ
index ev = elim ev.device [ none ↦ 2 ^ 32 - 1 | some d ↦ d ]

pub same_mode : AccessMode → AccessMode → Bool
same_mode mode_read mode_read = true
same_mode mode_write mode_write = true
same_mode mode_rdwr mode_rdwr = true
same_mode m n = false

-- `!(mode != m || mode != event->mode)`
pub only : AccessMode → AccessMode → AccessMode → Bool
unfolding same_mode
only m mode event_mode = same_mode mode m && same_mode mode event_mode

-- `mode & event->mode`, where modes are 1, 2 and 3.
pub allows : AccessMode → AccessMode → Bool
allows mode_read mode_write = false
allows mode_write mode_read = false
allows m n = true

-- The version as 16-bit numbers, shifted into one another.
pub version_value : ℕ × ℕ × ℕ → ℕ
version_value (major, minor, patch) =
    ((major % 2 ^ 16) * 2 ^ 16 + minor % 2 ^ 16) * 2 ^ 16 + patch % 2 ^ 16

map_version : Option (ℕ × ℕ × ℕ) → Option ℕ
unfolding version_value
map_version none = none
map_version (some v) = some (version_value v)

swap_pair : Option (ℕ × ℕ) → Option (ℕ × ℕ)
swap_pair none = none
swap_pair (some (a, b)) = some (b, a)

module _ {σ : Type 0} where
  -- A status that is not success, or a value for the event.
  pub got_value : NtvEvent → σ → Option ℕ → Result σ
  got_value ev s none = (papi_emisc, ev, s)
  got_value ev s (some v) = (papi_ok, record ev { value = v }, s)

  pub did_set : NtvEvent → σ → Option σ → Result σ
  did_set ev s none = (papi_emisc, ev, s)
  did_set ev s (some s') = (papi_ok, ev, s')

  pub read_only : AccessMode → NtvEvent → σ → Option ℕ → Result σ
  unfolding only got_value
  read_only mode ev s got =
      if only mode_read mode ev.mode then got_value ev s got else (papi_enosupp, ev, s)

  -- The error number is left in the event as its value.
  pub unsupported : Rsmi σ → NtvEvent → σ → Result σ
  unsupported lib ev s = (papi_ok, record ev { value = lib.enosupp }, s)

  pub read_write : Rsmi σ → AccessMode → NtvEvent → σ → Option ℕ → Option σ → Result σ
  unfolding allows same_mode got_value did_set unsupported
  read_write lib mode ev s got set' =
      if allows mode ev.mode
      then (if same_mode mode mode_read then got_value ev s got else did_set ev s set')
      else unsupported lib ev s

  pub write_only : Rsmi σ → AccessMode → NtvEvent → σ → Option σ → Result σ
  unfolding only did_set unsupported
  write_only lib mode ev s set' =
      if only mode_write mode ev.mode then did_set ev s set' else unsupported lib ev s

  pub access_rsmi_dev_id : Rsmi σ → AccessMode → NtvEvent → σ → Result σ
  unfolding read_only index
  access_rsmi_dev_id lib mode ev s = read_only mode ev s (lib.dev_id_get (index ev) s)

  pub access_rsmi_dev_subsystem_vendor_id : Rsmi σ → AccessMode → NtvEvent → σ → Result σ
  unfolding read_only index
  access_rsmi_dev_subsystem_vendor_id lib mode ev s =
      read_only mode ev s (lib.dev_subsystem_vendor_id_get (index ev) s)

  pub access_rsmi_dev_vendor_id : Rsmi σ → AccessMode → NtvEvent → σ → Result σ
  unfolding read_only index
  access_rsmi_dev_vendor_id lib mode ev s = read_only mode ev s (lib.dev_vendor_id_get (index ev) s)

  pub access_rsmi_dev_unique_id : Rsmi σ → AccessMode → NtvEvent → σ → Result σ
  unfolding read_only index
  access_rsmi_dev_unique_id lib mode ev s = read_only mode ev s (lib.dev_unique_id_get (index ev) s)

  pub access_rsmi_dev_subsystem_id : Rsmi σ → AccessMode → NtvEvent → σ → Result σ
  unfolding read_only index
  access_rsmi_dev_subsystem_id lib mode ev s =
      read_only mode ev s (lib.dev_subsystem_id_get (index ev) s)

  pub access_rsmi_dev_drm_render_minor : Rsmi σ → AccessMode → NtvEvent → σ → Result σ
  unfolding read_only index
  access_rsmi_dev_drm_render_minor lib mode ev s =
      read_only mode ev s (lib.dev_drm_render_minor_get (index ev) s)

  pub access_rsmi_dev_memory_total : Rsmi σ → AccessMode → NtvEvent → σ → Result σ
  unfolding read_only index
  access_rsmi_dev_memory_total lib mode ev s =
      read_only mode ev s (lib.dev_memory_total_get (index ev) ev.variant s)

  pub access_rsmi_dev_memory_usage : Rsmi σ → AccessMode → NtvEvent → σ → Result σ
  unfolding read_only index
  access_rsmi_dev_memory_usage lib mode ev s =
      read_only mode ev s (lib.dev_memory_usage_get (index ev) ev.variant s)

  pub access_rsmi_dev_memory_busy_percent : Rsmi σ → AccessMode → NtvEvent → σ → Result σ
  unfolding read_only index
  access_rsmi_dev_memory_busy_percent lib mode ev s =
      read_only mode ev s (lib.dev_memory_busy_percent_get (index ev) s)

  pub access_rsmi_dev_busy_percent : Rsmi σ → AccessMode → NtvEvent → σ → Result σ
  unfolding read_only index
  access_rsmi_dev_busy_percent lib mode ev s =
      read_only mode ev s (lib.dev_busy_percent_get (index ev) s)

  pub access_rsmi_dev_pci_id : Rsmi σ → AccessMode → NtvEvent → σ → Result σ
  unfolding read_only index
  access_rsmi_dev_pci_id lib mode ev s = read_only mode ev s (lib.dev_pci_id_get (index ev) s)

  pub access_rsmi_dev_pci_replay_counter : Rsmi σ → AccessMode → NtvEvent → σ → Result σ
  unfolding read_only index
  access_rsmi_dev_pci_replay_counter lib mode ev s =
      read_only mode ev s (lib.dev_pci_replay_counter_get (index ev) s)

  pub access_rsmi_dev_fan_rpms : Rsmi σ → AccessMode → NtvEvent → σ → Result σ
  unfolding read_only index
  access_rsmi_dev_fan_rpms lib mode ev s =
      read_only mode ev s (lib.dev_fan_rpms_get (index ev) ev.subvariant s)

  pub access_rsmi_dev_fan_speed_max : Rsmi σ → AccessMode → NtvEvent → σ → Result σ
  unfolding read_only index
  access_rsmi_dev_fan_speed_max lib mode ev s =
      read_only mode ev s (lib.dev_fan_speed_max_get (index ev) ev.subvariant s)

  pub access_rsmi_dev_power_ave : Rsmi σ → AccessMode → NtvEvent → σ → Result σ
  unfolding read_only index
  access_rsmi_dev_power_ave lib mode ev s =
      read_only mode ev s (lib.dev_power_avg_get (index ev) ev.subvariant s)

  pub access_rsmi_dev_temp_metric : Rsmi σ → AccessMode → NtvEvent → σ → Result σ
  unfolding read_only index
  access_rsmi_dev_temp_metric lib mode ev s =
      read_only mode ev s (lib.dev_temp_metric_get (index ev) ev.subvariant ev.variant s)

  pub access_rsmi_dev_overdrive_level : Rsmi σ → AccessMode → NtvEvent → σ → Result σ
  unfolding read_write index
  access_rsmi_dev_overdrive_level lib mode ev s =
      read_write lib mode ev s (lib.dev_overdrive_level_get (index ev) s)
        (lib.dev_overdrive_level_set (index ev) (ev.value % 2 ^ 32) s)

  pub access_rsmi_dev_perf_level : Rsmi σ → AccessMode → NtvEvent → σ → Result σ
  unfolding read_write index
  access_rsmi_dev_perf_level lib mode ev s =
      read_write lib mode ev s (lib.dev_perf_level_get (index ev) s)
        (lib.dev_perf_level_set (index ev) (ev.value % 2 ^ 32) s)

  pub access_rsmi_dev_power_cap : Rsmi σ → AccessMode → NtvEvent → σ → Result σ
  unfolding read_write index
  access_rsmi_dev_power_cap lib mode ev s =
      read_write lib mode ev s (lib.dev_power_cap_get (index ev) ev.subvariant s)
        (lib.dev_power_cap_set (index ev) ev.subvariant ev.value s)

  pub access_rsmi_dev_power_profile_set : Rsmi σ → AccessMode → NtvEvent → σ → Result σ
  unfolding write_only index
  access_rsmi_dev_power_profile_set lib mode ev s =
      write_only lib mode ev s
        (lib.dev_power_profile_set (index ev) ev.variant (ev.value % 2 ^ 32) s)

  pub access_rsmi_dev_fan_reset : Rsmi σ → AccessMode → NtvEvent → σ → Result σ
  unfolding write_only index
  access_rsmi_dev_fan_reset lib mode ev s =
      write_only lib mode ev s (lib.dev_fan_reset (index ev) ev.subvariant s)

  -- In any other mode the error number is left as the value.
  pub access_rsmi_dev_fan_speed : Rsmi σ → AccessMode → NtvEvent → σ → Result σ
  unfolding only got_value unsupported index
  access_rsmi_dev_fan_speed lib mode ev s =
      if only mode_read mode ev.mode
      then got_value ev s (lib.dev_fan_speed_get (index ev) ev.subvariant s)
      else unsupported lib ev s

  pub access_rsmi_dev_count : Rsmi σ → AccessMode → NtvEvent → σ → Result σ
  unfolding read_only
  access_rsmi_dev_count lib mode ev s = read_only mode ev s (some lib.device_count)

  pub access_rsmi_lib_version : Rsmi σ → AccessMode → NtvEvent → σ → Result σ
  unfolding read_only map_version
  access_rsmi_lib_version lib mode ev s = read_only mode ev s (map_version (lib.version_get s))

  -- A `switch` on the variant, whose default returns `otherwise`.
  pub pick_three : PapiErrno → NtvEvent → σ → ℕ → Option (ℕ × ℕ × ℕ) → Result σ
  pick_three otherwise ev s v none = (papi_emisc, ev, s)
  pick_three otherwise ev s zero (some (a, b, c)) = (papi_ok, record ev { value = a }, s)
  pick_three otherwise ev s (suc zero) (some (a, b, c)) = (papi_ok, record ev { value = b }, s)
  pick_three otherwise ev s (suc (suc zero)) (some (a, b, c)) =
      (papi_ok, record ev { value = c }, s)
  pick_three otherwise ev s v (some d) = (otherwise, ev, s)

  pub pick_two : PapiErrno → NtvEvent → σ → ℕ → Option (ℕ × ℕ) → Result σ
  pick_two otherwise ev s v none = (papi_emisc, ev, s)
  pick_two otherwise ev s zero (some (a, b)) = (papi_ok, record ev { value = a }, s)
  pick_two otherwise ev s (suc zero) (some (a, b)) = (papi_ok, record ev { value = b }, s)
  pick_two otherwise ev s v (some d) = (otherwise, ev, s)

  pub access_rsmi_dev_pci_throughput : Rsmi σ → AccessMode → NtvEvent → σ → Result σ
  unfolding only pick_three index
  access_rsmi_dev_pci_throughput lib mode ev s =
      if only mode_read mode ev.mode
      then pick_three papi_emisc ev s ev.variant (lib.dev_pci_throughput_get (index ev) s)
      else (papi_enosupp, ev, s)

  pub access_rsmi_dev_power_profile_presets : Rsmi σ → AccessMode → NtvEvent → σ → Result σ
  unfolding only pick_three index
  access_rsmi_dev_power_profile_presets lib mode ev s =
      if only mode_read mode ev.mode
      then pick_three papi_emisc ev s ev.variant
          (lib.dev_power_profile_presets_get (index ev) ev.variant s)
      else (papi_enosupp, ev, s)

  -- The library gives the maximum first; the variants are MIN and MAX.
  pub access_rsmi_dev_power_cap_range : Rsmi σ → AccessMode → NtvEvent → σ → Result σ
  unfolding only pick_two swap_pair index
  access_rsmi_dev_power_cap_range lib mode ev s =
      if only mode_read mode ev.mode
      then pick_two papi_emisc ev s ev.variant
          (swap_pair (lib.dev_power_cap_range_get (index ev) ev.subvariant s))
      else (papi_enosupp, ev, s)

  pub access_xgmi_bw : Rsmi σ → AccessMode → NtvEvent → σ → Result σ
  unfolding only pick_two index
  access_xgmi_bw lib mode ev s =
      if only mode_read mode ev.mode
      then pick_two papi_enosupp ev s ev.variant
          (lib.minmax_bandwidth_get (index ev) (ev.subvariant % 2 ^ 32) s)
      else (papi_enosupp, ev, s)

  -- The fields that no function of an event writes.
  pub record Kept (ev : NtvEvent) (r : Result σ) : Type 0 where
    pub device : r.1.device ≡ ev.device
    pub id : r.1.id ≡ ev.id
    pub mode : r.1.mode ≡ ev.mode

  pub did_set-Kept : (ev : NtvEvent) (s : σ) (o : Option σ) → Kept ev (did_set ev s o)
  unfolding did_set
  did_set-Kept ev s none = record { device = refl; id = refl; mode = refl }
  did_set-Kept ev s (some s') = record { device = refl; id = refl; mode = refl }
