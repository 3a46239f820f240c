-- ===== src/Env/Defaults.antt =====
-- The defaults of the options of an experiment (include/db_env.h).
use lsm_workload_aware_compa.Prelude.{◌*◌, ◌-◌, true, false}
use lsm_workload_aware_compa.Prelude.Int.{pos}
use lsm_workload_aware_compa.Env.Default
use lsm_workload_aware_compa.Env.{DbOptions, TableKnobs, ColumnFamilyKnobs, DbEnv}

abbrev default_db : DbOptions
default_db = record {
  create_if_missing = true;
  clear_system_cache = true;
  max_open_files = Default.max_open_files;
  max_file_opening_threads = Default.max_file_opening_threads;
  bytes_per_sync = 0;
  enable_thread_tracking = false;
  allow_concurrent_memtable_write = false;
  stats_history_buffer_size = 1024 * 1024;
  dump_malloc_stats = false;
  avoid_flush_during_shutdown = false;
  advise_random_on_open = true;
  delete_obsolete_files_period_micros = 6 * 60 * 60 * 1000000;
  allow_mmap_reads = false;
  allow_mmap_writes = false;
  verbosity = pos 0;
}

abbrev default_table : TableKnobs
default_table = record {
  no_block_cache = false;
  block_cache = pos 0;
  block_cache_high_priority_ratio = record { num = 1; den = 2 };
  cache_index_and_filter_blocks = true;
  read_amp_bytes_per_bit = 0;
  data_block_index_type = 1;
  index_type = 1;
  partition_filters = false;
  metadata_block_size = 4096;
  pin_top_level_index_and_filter = false;
  index_shortening = 1;
  block_size_deviation = 0;
  enable_index_compression = false;
}

abbrev default_column_family : ColumnFamilyKnobs
default_column_family = record {
  comparator = 1;
  max_sequential_skip_in_iterations = 8;
  memtable_prefix_bloom_size_ratio = record { num = 0; den = 1 };
  level0_slowdown_writes_trigger = pos (Default.size_ratio - 1);
  level0_stop_writes_trigger = pos Default.size_ratio;
  paranoid_file_checks = false;
  optimize_filters_for_hits = false;
  inplace_update_support = false;
  inplace_update_num_locks = 10000;
  report_bg_io_stats = true;
}

-- The object that DBEnv::GetInstance makes.
abbrev pub new_env : DbEnv
new_env = record {
  buffer_size = 0;
  rocksdb_stats = false;
  perf_stats = false;
  iostat_stats = false;
  destroy_database = true;
  show_progress_bar = false;
  is_per_op_timer = false;
  is_total_timer = false;
  db = default_db;
  entry_size = Default.entry_size;
  entries_per_page = Default.entries_per_page;
  buffer_size_in_pages = Default.buffer_size_in_pages;
  size_ratio = pos Default.size_ratio;
  file_to_memtable_size_ratio = Default.file_to_memtable_size_ratio;
  max_write_buffer_number = Default.max_write_buffer_number;
  bits_per_key = pos 10;
  compaction_pri = 1;
  memtable_factory = 1;
  level_compaction_dynamic_level_bytes = false;
  compaction_style = 1;
  disable_auto_compactions = false;
  level0_file_num_compaction_trigger = pos Default.level0_file_num_compaction_trigger;
  num_levels = 10;
  target_file_size_multiplier = 1;
  max_background_jobs = 1;
  soft_pending_compaction_bytes_limit = 0;
  hard_pending_compaction_bytes_limit = 0;
  periodic_compaction_seconds = 0;
  use_direct_io_for_flush_and_compaction = true;
  use_direct_reads = true;
  table = default_table;
  compression = 1;
  read = record {
    verify_checksums = true;
    fill_cache = false;
    ignore_range_deletions = false;
    read_tier = 1;
  };
  write = record {
    low_pri = true;
    sync = false;
    disable_wal = true;
    no_slowdown = false;
    ignore_missing_column_families = false;
  };
  column_family = default_column_family;
  flush = record { wait = true; allow_write_stall = true };
}
