-- ===== src/Coretemp.antt =====
-- The state of the PAPI component coretemp (patches/coretemp/linux-coretemp.c), the machine that it
-- searches, and the list of the events that it has found.
pub mod Hwmon
pub mod Cray
pub mod Sightings
pub mod Finds
pub mod Found
pub mod Values
pub mod Setup
pub mod Tame
pub mod Measuring
pub mod Names
mod Examples
use scorep_amd.Common.{
  ℕ, zero, suc, ◌+◌, Bool, true, false, Option, none, some, List, [], ◌∷◌, ◌++◌, length,
  if◌then◌else◌,
}
use scorep_amd.Common.Strings.{Text, printed}
use scorep_amd.Common.Papi.{PapiErrno, papi_ok, papi_enomem, papi_ecmp}

-- `struct dirent`: the name, and whether it is a regular file.
pub record DirEntry : Type 0 where
  pub d_name : Text
  pub regular : Bool

-- What the search meets: PAPI_MIN_STR_LEN, PAPI_MAX_STR_LEN and PATH_MAX, the entries of each
-- directory that can be opened, the bytes of each file that can be read, whether the allocation of the
-- n-th event of the list succeeds, what the arrays `modulename` and `location` hold before anything is
-- written to them, and for each counter what the array `unit` of its round holds before it is read,
-- which may be the unit of another counter.
pub record World : Type 0 where
  pub min_str_len : ℕ
  pub max_str_len : ℕ
  pub path_max : ℕ
  pub dir : Text → Option (List DirEntry)
  pub file : Text → Option Text
  pub memory : ℕ → Bool
  pub old_modulename : Text
  pub old_location : Text
  pub old_unit : Text → Text

-- `struct temp_event`, without the fields that are never read.
pub record TempEvent : Type 0 where
  pub name : Text
  pub units : Text
  pub description : Text
  pub path : Text
  pub offset : ℕ

-- The list from `root`, whether `last` is set, and the variables `modulename`, `location` and `count`
-- of the search. Where both are set, `last` is the end of the list from `root`.
pub record Search : Type 0 where
  pub root : List TempEvent
  pub last : Bool
  pub modulename : Text
  pub location : Text
  pub count : ℕ

-- The event as it is stored: each text is cut to its array.
unfoldable pub stored : World → TempEvent → TempEvent
stored w ev = record {
  name = printed w.max_str_len ev.name;
  units = printed w.min_str_len ev.units;
  description = printed w.max_str_len ev.description;
  path = printed w.path_max ev.path;
  offset = ev.offset;
}

unfoldable pub link : TempEvent → List TempEvent → Search → PapiErrno × Search
link ev [] s = (papi_ok, record s { root = ev ∷ []; last = true })
link ev (x ∷ xs) s =
    if s.last then (papi_ok, record s { root = x ∷ (xs ++ ev ∷ []) }) else (papi_ecmp, s)

-- `insert_in_list_with_offset`; `insert_in_list` is its call with the offset 0.
unfoldable pub insert_in_list : World → TempEvent → Search → PapiErrno × Search
unfolding stored link
insert_in_list w ev s =
    if w.memory (length s.root) then link (stored w ev) s.root s else (papi_enomem, s)

-- `num_events`: a number, or the negative error number of a search that failed.
pub data EventCount : Type 0 where
  events : ℕ → EventCount
  error : PapiErrno → EventCount

-- `CORETEMP_native_event_entry_t`; `fd` is `none` where it is -1, and the values are 64-bit patterns.
pub record NativeEvent : Type 0 where
  pub name : Text
  pub units : Text
  pub description : Text
  pub path : Text
  pub stone : Bool
  pub offset : ℕ
  pub fd : Option ℕ
  pub value : ℕ
  pub initial_value : ℕ
  pub selector : ℕ

-- The globals of the component: the table (`none` is NULL), what the search has left, and of
-- `cmp_info` the number of events and the error that disables the component. `closed` are the
-- descriptors that have been closed.
pub record Component : Type 0 where
  pub table : Option (List NativeEvent)
  pub num_events : EventCount
  pub is_initialized : Bool
  pub search : Search
  pub num_native_events : ℕ
  pub disabled : PapiErrno
  pub closed : List ℕ
