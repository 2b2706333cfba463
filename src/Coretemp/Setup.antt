-- ===== src/Coretemp/Setup.antt =====
-- Making and freeing the table of events: _coretemp_init_component and _coretemp_shutdown_component of
-- patches/coretemp/linux-coretemp.c.
pub mod Filled
pub mod Lifecycle
pub mod Leftover
use scorep_amd.Common.{
  ℕ, zero, suc, ◌+◌, ◌-◌, Bool, true, false, ◌&&◌, Option, none, some, List, [], ◌∷◌, ◌++◌, length,
  take, replicate, set, if◌then◌else◌, ltb, ◌==◌,
}
use scorep_amd.Common.Run.{Run, fault, ok, ◌>>=◌, null_dereference, out_of_bounds, program_exit}
use scorep_amd.Common.Strings.{Text, codes, contains}
use scorep_amd.Common.Papi.{PapiErrno, papi_ok, papi_ecmp, papi_enomem, papi_esys}
use scorep_amd.Coretemp.{
  World, TempEvent, Search, EventCount, events, error, NativeEvent, Component,
}
use scorep_amd.Coretemp.Hwmon.{Scan, going, failed, crashed}
use scorep_amd.Coretemp.Cray.{generate_event_list}
use scorep_amd.Coretemp.Values.{field_value}

-- What `papi_calloc` leaves.
abbrev pub cleared : NativeEvent
cleared = record {
  name = [];
  units = [];
  description = [];
  path = [];
  stone = false;
  offset = 0;
  fd = some 0;
  value = 0;
  initial_value = 0;
  selector = 0;
}

-- Where the test `retlen <= 0 || retlen >= size` does not hold.
unfoldable pub fits_array : ℕ → Text → Bool
fits_array size t = ltb 0 (length t) && ltb (length t) size

-- Whether none of the four tests ends the program.
unfoldable pub can_copy : World → TempEvent → Bool
unfolding fits_array
can_copy w ev =
    fits_array w.max_str_len ev.name
    && (fits_array w.path_max ev.path
        && (fits_array w.min_str_len ev.units && fits_array w.max_str_len ev.description))

-- The element that the event is copied to.
unfoldable pub native_event : TempEvent → ℕ → NativeEvent
native_event ev i = record cleared {
  name = ev.name;
  units = ev.units;
  description = ev.description;
  path = ev.path;
  offset = ev.offset;
  fd = none;
  stone = false;
  selector = i + 1;
}

unfoldable pub copy_event : World → TempEvent → ℕ → List NativeEvent → Run (List NativeEvent)
unfolding can_copy native_event
copy_event w ev i table =
    if ltb i (length table)
    then (if can_copy w ev then ok (set table i (native_event ev i)) else fault program_exit)
    else fault out_of_bounds

-- The rounds of `do … while (t != NULL)`, from the element `i` on.
unfoldable pub copy_loop : World → List TempEvent → ℕ → List NativeEvent → Run (List NativeEvent)
unfolding copy_event
copy_loop w [] i table = ok table
copy_loop w (ev ∷ evs) i table =
    copy_event w ev i table >>= λ table'. copy_loop w evs (i + 1) table'

-- The first round reads through `root` without a test.
unfoldable pub copy_events : World → List TempEvent → List NativeEvent → Run (List NativeEvent)
unfolding copy_loop
copy_events w [] table = fault null_dereference
copy_events w (ev ∷ evs) table = copy_loop w (ev ∷ evs) 0 table

-- The initial value from the bytes that `pread` reads: the first value in them.
unfoldable pub initial_of : World → Text → ℕ
unfolding field_value
initial_of w [] = 0
initial_of w (c ∷ bytes) = field_value 0 (take (w.max_str_len - 1) (c ∷ bytes))

unfoldable pub opened_energy :
    World
    → NativeEvent
    → List NativeEvent
    → Bool × List NativeEvent
    → Option Text
    → Bool × List NativeEvent
unfolding initial_of
opened_energy w ev evs rest none = (false, ev ∷ evs)
opened_energy w ev evs (done, evs') (some bytes) =
    (done, record ev { initial_value = initial_of w bytes } ∷ evs')

-- The loop under ENERGYZERO; `energy` has the bytes of a file that can be opened. It ends early where
-- one cannot.
unfoldable pub energy_loop :
    World → (Text → Option Text) → List NativeEvent → Bool × List NativeEvent
unfolding opened_energy contains
energy_loop w energy [] = (true, [])
energy_loop w energy (ev ∷ evs) =
    let rest = energy_loop w energy evs in
    if contains (codes "energy") ev.name
    then opened_energy w ev evs rest (energy ev.path)
    else (rest.0, record ev { initial_value = 0 } ∷ rest.1)

-- `fn_exit`
unfoldable pub exit_init : PapiErrno → Component → PapiErrno × Component
exit_init e c = (e, record c { disabled = e })

unfoldable pub after_energy : Component → ℕ → Bool × List NativeEvent → PapiErrno × Component
unfolding exit_init
after_energy c n (true, table) =
    exit_init papi_ok (record c { table = some table; num_native_events = n })
after_energy c n (false, table) = exit_init papi_esys (record c { table = some table })

-- The table is filled, and the list is gone.
unfoldable pub fill :
    World → (Text → Option Text) → Component → Search → Run (PapiErrno × Component)
unfolding copy_events energy_loop after_energy
fill w energy c s = copy_events w s.root (replicate s.count cleared) >>= λ table. ok (
    after_energy (record c { search = record s { root = [] } }) s.count
      (energy_loop w energy table))

-- After the search; `memory` says whether the table can be allocated.
unfoldable pub after_search :
    World → Bool → (Text → Option Text) → Component → Scan → Run (PapiErrno × Component)
unfolding exit_init fill
after_search w memory energy c (crashed why) = fault why
after_search w memory energy c (failed e s) =
    ok (exit_init papi_ecmp (record c { num_events = error e; search = s }))
after_search w memory energy c (going s) =
    let c' = record c { num_events = events s.count; search = s } in
    if s.count == 0
    then ok (exit_init papi_ecmp c')
    else (if memory
        then fill w energy c' s
        else ok (exit_init papi_enomem (record c' { table = none })))

abbrev pub base_dir : Text
base_dir = codes "/sys/class/hwmon"

unfoldable pub init_component :
    World → Bool → (Text → Option Text) → Component → Run (PapiErrno × Component)
unfolding after_search exit_init generate_event_list
init_component w memory energy c =
    if c.is_initialized
    then ok (exit_init papi_ok c)
    else after_search w memory energy (record c { is_initialized = true })
        (generate_event_list w base_dir c.search)

-- One element: its descriptor is closed, if it has one.
unfoldable pub close_fd : Option ℕ → List ℕ → List ℕ
close_fd none closed = closed
close_fd (some fd) closed = closed ++ fd ∷ []

-- The loop from an element on.
unfoldable pub close_rest : ℕ → List NativeEvent → List ℕ → Run (List ℕ)
unfolding close_fd
close_rest zero table closed = ok closed
close_rest (suc n) [] closed = fault out_of_bounds
close_rest (suc n) (ev ∷ table) closed = close_rest n table (close_fd ev.fd closed)

unfoldable pub close_table : ℕ → Option (List NativeEvent) → List ℕ → Run (List ℕ)
unfolding close_rest
close_table zero none closed = ok closed
close_table (suc n) none closed = fault null_dereference
close_table n (some table) closed = close_rest n table closed

unfoldable pub rounds_of : EventCount → ℕ
rounds_of (events n) = n
rounds_of (error e) = 0

-- `num_events` stays as it is.
unfoldable pub shutdown_component : Component → Run (PapiErrno × Component)
unfolding close_table rounds_of
shutdown_component c =
    if c.is_initialized
    then (close_table (rounds_of c.num_events) c.table c.closed >>= λ closed.
        ok (papi_ok, record c { is_initialized = false; table = none; closed = closed }))
    else ok (papi_ok, c)
