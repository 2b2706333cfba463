-- ===== src/Lib.antt =====
-- Score-P measurements of AMD machines: the plugins and PAPI components of this repository.
--
-- Score-P asks a metric plugin (plugins/scorep-*-plugin/apapi.c) for the metrics' names, adds
-- counters for each thread, lets a thread of the plugin sample the counters through PAPI into a
-- buffer, and collects all values at the end. PAPI in turn reads the values through its
-- components: that for AMD GPUs (patches/rocm_smi) looks its events up in a hash table
-- (patches/rocm_smi/htable.h), and coretemp (patches/coretemp) finds sensors and power counters in
-- sysfs.
--
-- Files:
--   Common            shared names, Boolean tests, arrays as lists; Common/Run is a C run that may end
--                     in undefined behaviour or a call of exit (`fault`), Common/Strings what the
--                     programs use of the C library on strings, Common/Papi has the error numbers.
--   Htable            all of patches/rocm_smi/htable.h, each function under its own name. Chain and
--                     Buckets relate chains and the array to a map from keys to entries (`view`);
--                     Moves and Rehash follow rehash_table, Resize follows check_n_resize_table, Laws
--                     has htable_insert, htable_delete and htable_find, History any sequence of calls,
--                     Shutdown the end of a table, OutOfMemory an array that cannot be allocated.
--   Rocs              events, devices and contexts of patches/rocm_smi/rocs.c. Masks has the bits of
--                     device_mask, Devices acquire_devices and release_devices, Contexts the functions
--                     rocs_ctx_*; below it, Loops follows the loops over events, Failures and Opening
--                     the error paths, Exclusive any sequence of openings and closings, Values the
--                     counters. Library is what the events call of the ROCm library, Access the
--                     functions of the events (access_rsmi_* and, in Access/Xgmi, those of XGMI
--                     counters), Access/Table the table that joins them, with what all have in common.
--                     Events is the event table: Walk has the loops that both passes share, Counting
--                     get_ntv_events_count, Filling get_ntv_events, Table init_event_table and the
--                     rocs_evt_* functions. Agreement compares the passes, Numbering follows the ids
--                     and Codes the hash table; Initialized, RoundTrip, Enumeration and Forgotten say what
--                     the table is good for. Distinct is a test on names.
--   RocmSmi           a thread's session of patches/rocm_smi/linux-rocm-smi.c: _rocm_smi_start, stop, read
--                     and the like, on top of Rocs/Contexts. Sessions follows a measurement from start
--                     to stop, Reopening a start after one that failed.
--   Coretemp          the globals of patches/coretemp/linux-coretemp.c and the list of events that are
--                     found. Hwmon and Cray are the two halves of generateEventList; Sightings says
--                     what it is to find, without using their definitions, Finds and Found that
--                     it does, and Tame that it goes through where texts are short. Setup has
--                     _coretemp_init_component and _coretemp_shutdown_component, Measuring the update
--                     and the reading of an event set, Values getEventValue, Names the enumeration and
--                     the names.
--   Plugin            the globals of plugins/scorep-coretemp-plugin/apapi.c. BufferSize has
--                     parse_buffer_size and init_coretemp, Counters get_event_info, add_counter,
--                     enable_counter and disable_counter, Sampler thread_report and get_all_values.
--
-- State and operations: a C object is a record, a static array a list of its length, a function
-- the function of its name that takes the state and returns it changed. `1 << 31` is the bit 31,
-- as GCC has it. `uint32_t`, `uint64_t` and `size_t` wrap around as `% 2 ^ 32` and `% 2 ^ 64`.
-- Strings are lists of bytes. What lies outside the repository's code is an argument: the success
-- of each allocation (`Memory`), the calls of PAPI and of the thread library (`Calls`,
-- `InitCalls`), and for a sampling thread the clock, the flag of its event and the values read in
-- each round (`Round`). The function pointers of an event of the ROCm component are an argument as
-- well (`Functions`): any function of the event and of a state behind the library, of which the
-- theorems use that it leaves the event's device alone and, where they say so, that it does not
-- fail. Access/Table has the functions of the source as one such argument, over any library
-- (`Rsmi`). Loops are recursion on the list or on the number of rounds that the C loop counts;
-- none needs fuel beyond that. A chain of the hash table is a list and its entries are named by
-- their keys, which are distinct in every table that the code builds.
--
-- In Coretemp a machine (`World`) has the entries of its directories and the bytes of its files,
-- which do not change during a search; the values are read from the bytes that each descriptor has
-- at that time. The lengths PAPI_MIN_STR_LEN, PAPI_MAX_STR_LEN and PATH_MAX are fields of the
-- machine. What an array holds that has not been written is a field as well, for the array `unit`,
-- which each round of the loop over the counters may find with another text, one for each counter.
-- 64-bit values are bit patterns.
--
-- In Rocs/Events the library (`Catalog`) lists the functions of each device with their variants
-- and subvariants; an iterator that is open yields each of its values and then
-- RSMI_STATUS_NO_DATA. The writes to the array of events are checked against its size at the end
-- of the second pass, since a write behind it is a fault wherever it happens. So that such a write
-- is seen even where the source writes to an element that it has not made, the pass keeps the
-- furthest place it has written to (`reach`): a static array of fan speeds, power caps or
-- performance levels may hold the number of an event of an earlier initialization.
--
-- The add_counter of the model runs under its mutex as a whole; the part behind the unlock only
-- touches the caller's own event. The threads run between their start and the joins of
-- get_all_values, each on its own event.
--
-- Not modelled: printed messages, strdup that fails, negative ids, in rocs.c the names and
-- descriptions of events (`event_name` is an argument), the energy events of builds with
-- ADDENERGY_NO_ROCM_SMI_PATCH, init_device_table, loading the library, and the access functions
-- that Access/Table does not list, the enumeration of events in linux-rocm-smi.c; in
-- linux-coretemp.c the builds with READALL or LSEEK, debug messages, and the functions that only
-- return a constant; patches/rocm_smi_lib is another project's library, and the programs of runs/
-- drive a GPU.
pub mod Common
pub mod Htable
pub mod Plugin
pub mod Rocs
pub mod RocmSmi
pub mod Coretemp
