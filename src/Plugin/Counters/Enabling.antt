-- ===== src/Plugin/Counters/Enabling.antt =====
-- What enable_counter and disable_counter (plugins/scorep-coretemp-plugin/apapi.c) do to a thread.
