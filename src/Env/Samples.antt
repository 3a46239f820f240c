-- ===== src/Env/Samples.antt =====
-- The options of RocksDB as the program finds them, for tests.
use lsm_workload_aware_compa.Prelude.{[], true, false, none}
use lsm_workload_aware_compa.Prelude.Int.{pos}
use lsm_workload_aware_compa.Env.{DbEnv}
use lsm_workload_aware_compa.Env.Rocksdb.{
  TableOptions, Options, min_overlapping_ratio, skip_list, style_level, data_block_binary_search,
  binary_search, shorten_separators, snappy, read_all_tier, bytewise, disable_all, disable,
}
use lsm_workload_aware_compa.Env.Config.{Setup}

-- What the options hold before; the values do not matter.
abbrev table_options : TableOptions
table_options = record {
  filter_policy = none;
  no_block_cache = false;
  block_cache = none;
  cache_index_and_filter_blocks = false;
  read_amp_bytes_per_bit = 0;
  data_block_index_type = data_block_binary_search;
  index_type = binary_search;
  partition_filters = false;
  block_size = 4096;
  metadata_block_size = 4096;
  pin_top_level_index_and_filter = true;
  index_shortening = shorten_separators;
  block_size_deviation = 10;
  enable_index_compression = true;
}

abbrev options : Options
options = record {
  create_if_missing = false;
  max_open_files = 0;
  max_file_opening_threads = 16;
  bytes_per_sync = 0;
  enable_thread_tracking = false;
  allow_concurrent_memtable_write = true;
  stats_history_buffer_size = 1048576;
  dump_malloc_stats = false;
  avoid_flush_during_shutdown = false;
  advise_random_on_open = true;
  delete_obsolete_files_period_micros = 21600000000;
  allow_mmap_reads = false;
  allow_mmap_writes = false;
  max_bytes_for_level_multiplier = pos 10;
  write_buffer_size = 67108864;
  target_file_size_base = 67108864;
  max_bytes_for_level_base = 268435456;
  max_write_buffer_number = 2;
  compaction_pri = min_overlapping_ratio;
  memtable_factory = skip_list;
  level_compaction_dynamic_level_bytes = true;
  compaction_style = style_level;
  disable_auto_compactions = false;
  level0_file_num_compaction_trigger = pos 4;
  num_levels = 7;
  target_file_size_multiplier = 1;
  max_background_jobs = 2;
  soft_pending_compaction_bytes_limit = 68719476736;
  hard_pending_compaction_bytes_limit = 274877906944;
  periodic_compaction_seconds = 0;
  use_direct_io_for_flush_and_compaction = false;
  use_direct_reads = false;
  table_factory = table_options;
  compression = snappy;
  comparator = bytewise;
  max_sequential_skip_in_iterations = 8;
  memtable_prefix_bloom_size_ratio = record { num = 0; den = 1 };
  level0_slowdown_writes_trigger = pos 20;
  level0_stop_writes_trigger = pos 36;
  paranoid_file_checks = false;
  optimize_filters_for_hits = false;
  inplace_update_support = false;
  inplace_update_num_locks = 10000;
  report_bg_io_stats = false;
  arena_block_size = 0;
  stats_level = disable_all;
}

abbrev pub setup_of : DbEnv → Setup
setup_of env = record {
  env = env;
  options = options;
  table_options = table_options;
  read_options = record {
    verify_checksums = true;
    fill_cache = true;
    ignore_range_deletions = false;
    read_tier = read_all_tier;
  };
  write_options = record {
    low_pri = false;
    sync = false;
    disable_wal = false;
    no_slowdown = false;
    ignore_missing_column_families = false;
  };
  flush_options = record { wait = true; allow_write_stall = false };
  measuring = record {
    perf_level = disable;
    per_level_perf_context = false;
    disable_iostats = false;
    perf_counts = [];
    per_level_counts = [];
    iostats_counts = [];
  };
}
