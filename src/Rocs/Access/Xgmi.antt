-- ===== src/Rocs/Access/Xgmi.antt =====
-- The functions that open, close, start and stop events, and read XGMI counters
-- (patches/rocm_smi/rocs.c).
use scorep_amd.Common.{
  ℕ, ◌&&◌, Option, none, some, if◌then◌else◌, ltb, leb, Bool-cases, inl, inr, refl,
}
use scorep_amd.Rocs.Library.{Rsmi, XgmiGroup, grp_xgmi, grp_xgmi_data_out}
use scorep_amd.Rocs.Access.{Result, index, only, did_set, Kept}
use scorep_amd.Rocs.{
  papi_ok, papi_emisc, papi_ecnflct, papi_enosupp, AccessMode, mode_read, NtvEvent,
}

-- The `switch` of `open_xgmi_evt`; the header of the library numbers the variants from 0 and from 10.
xgmi_group : ℕ → Option XgmiGroup
xgmi_group v =
    if ltb v 8
    then some grp_xgmi
    else (if leb 10 v && ltb v 16 then some grp_xgmi_data_out else none)

module _ {σ : Type 0} where
  unfoldable pub open_simple : NtvEvent → σ → Result σ
  open_simple ev s = (papi_ok, ev, s)

  unfoldable pub close_simple : NtvEvent → σ → Result σ
  close_simple ev s = (papi_ok, ev, s)

  unfoldable pub start_simple : NtvEvent → σ → Result σ
  start_simple ev s = (papi_ok, record ev { value = 0 }, s)

  unfoldable pub stop_simple : NtvEvent → σ → Result σ
  stop_simple ev s = (papi_ok, ev, s)

  -- The handle is written to `scratch`.
  created : NtvEvent → σ → Option (ℕ × σ) → Result σ
  created ev s none = (papi_emisc, ev, s)
  created ev s (some (handle, s')) = (papi_ok, record ev { scratch = handle }, s')

  create_counter : Rsmi σ → NtvEvent → σ → Option ℕ → Result σ
  unfolding created index
  create_counter lib ev s none = (papi_emisc, ev, s)
  create_counter lib ev s (some counters) =
      if ltb counters 1
      then (papi_ecnflct, ev, s)
      else created ev s (lib.dev_counter_create (index ev) ev.variant s)

  open_group : Rsmi σ → NtvEvent → σ → Option XgmiGroup → Result σ
  unfolding create_counter index
  open_group lib ev s none = (papi_enosupp, ev, s)
  open_group lib ev s (some grp) =
      create_counter lib ev s (lib.counter_available_counters_get (index ev) grp s)

  unfoldable pub open_xgmi_evt : Rsmi σ → NtvEvent → σ → Result σ
  unfolding open_group xgmi_group
  open_xgmi_evt lib ev s = open_group lib ev s (xgmi_group ev.variant)

  unfoldable pub close_xgmi_evt : Rsmi σ → NtvEvent → σ → Result σ
  unfolding did_set
  close_xgmi_evt lib ev s = did_set ev s (lib.dev_counter_destroy ev.scratch s)

  unfoldable pub start_xgmi_evt : Rsmi σ → NtvEvent → σ → Result σ
  unfolding did_set
  start_xgmi_evt lib ev s = did_set ev s (lib.counter_start ev.scratch s)

  unfoldable pub stop_xgmi_evt : Rsmi σ → NtvEvent → σ → Result σ
  unfolding did_set
  stop_xgmi_evt lib ev s = did_set ev s (lib.counter_stop ev.scratch s)

  -- If the library fails, the value is not determined; `garbage` is what `value` then holds.
  counter_value : NtvEvent → σ → ℕ → Option (ℕ × σ) → Result σ
  counter_value ev s garbage none = (papi_emisc, record ev { value = garbage }, s)
  counter_value ev s garbage (some (v, s')) = (papi_ok, record ev { value = v }, s')

  unfoldable pub access_xgmi_evt : Rsmi σ → ℕ → AccessMode → NtvEvent → σ → Result σ
  unfolding only counter_value
  access_xgmi_evt lib garbage mode ev s =
      if only mode_read mode ev.mode
      then counter_value ev s garbage (lib.counter_read ev.scratch s)
      else (papi_enosupp, ev, s)

  created-Kept : (ev : NtvEvent) (s : σ) (o : Option (ℕ × σ)) → Kept ev (created ev s o)
  unfolding created
  created-Kept ev s none = record { device = refl; id = refl; mode = refl }
  created-Kept ev s (some (h, s')) = record { device = refl; id = refl; mode = refl }

  create_counter-Kept :
      (lib : Rsmi σ) (ev : NtvEvent) (s : σ) (o : Option ℕ) → Kept ev (create_counter lib ev s o)
  unfolding create_counter
  create_counter-Kept lib ev s none = record { device = refl; id = refl; mode = refl }
  create_counter-Kept lib ev s (some n) = elim (Bool-cases (ltb n 1)) [
    | inl e ↦ rw e (record { device = refl; id = refl; mode = refl })
    | inr e ↦ rw e (created-Kept ev s (lib.dev_counter_create (index ev) ev.variant s))
  ]

  open_group-Kept :
      (lib : Rsmi σ) (ev : NtvEvent) (s : σ) (o : Option XgmiGroup)
      → Kept ev (open_group lib ev s o)
  unfolding open_group
  open_group-Kept lib ev s none = record { device = refl; id = refl; mode = refl }
  open_group-Kept lib ev s (some g) =
      create_counter-Kept lib ev s (lib.counter_available_counters_get (index ev) g s)

  pub open_xgmi_evt-Kept : (lib : Rsmi σ) (ev : NtvEvent) (s : σ) → Kept ev (open_xgmi_evt lib ev s)
  unfolding open_xgmi_evt
  open_xgmi_evt-Kept lib ev s = open_group-Kept lib ev s (xgmi_group ev.variant)

  counter_value-Kept :
      (ev : NtvEvent) (s : σ) (g : ℕ) (o : Option (ℕ × σ)) → Kept ev (counter_value ev s g o)
  unfolding counter_value
  counter_value-Kept ev s g none = record { device = refl; id = refl; mode = refl }
  counter_value-Kept ev s g (some (v, s')) = record { device = refl; id = refl; mode = refl }

  pub access_xgmi_evt-Kept :
      (lib : Rsmi σ) (g : ℕ) (mode : AccessMode) (ev : NtvEvent) (s : σ)
      → Kept ev (access_xgmi_evt lib g mode ev s)
  unfolding access_xgmi_evt
  access_xgmi_evt-Kept lib g mode ev s = elim (Bool-cases (only mode_read mode ev.mode)) [
    | inl e ↦ rw e (counter_value-Kept ev s g (lib.counter_read ev.scratch s))
    | inr e ↦ rw e (record { device = refl; id = refl; mode = refl })
  ]
