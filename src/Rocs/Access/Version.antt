-- ===== src/Rocs/Access/Version.antt =====
-- The version of the library as one value (access_rsmi_lib_version of patches/rocm_smi/rocs.c).
use scorep_amd.Common.{ℕ, ◌/◌, ◌%◌, ◌^◌, ◌≡◌, arith}
use scorep_amd.Rocs.Access.{version_value}

-- The low 16 bits of the major, the minor and the patch number can be read back from the value.
pub version_value-parts :
    (major minor patch : ℕ)
    → let v = version_value (major, minor, patch) in
      (v / 2 ^ 32 ≡ major % 2 ^ 16)
      × (v / 2 ^ 16 % 2 ^ 16 ≡ minor % 2 ^ 16)
      × (v % 2 ^ 16 ≡ patch % 2 ^ 16)
unfolding version_value
version_value-parts major minor patch = omega arith
