-- ===== src/Env/Config.antt =====
-- configOptions (include/config_options.h): RocksDB's options from those of the experiment. A number
-- outside a switch leaves the option as it was (the error message is left out).
use lsm_workload_aware_compa.Prelude.{
  [], ℕ, suc, ◌-◌, ◌*◌, ◌^◌, Bool, true, false, Option, some, none, if◌then◌else◌, ◌>>=◌, ltb,
}
use lsm_workload_aware_compa.Prelude.Int.{ℤ, pos, negsuc, nonzero, to_unsigned}
use lsm_workload_aware_compa.Env.{
  DbEnv, get_block_size, get_buffer_size, get_target_file_size_base, get_max_bytes_for_level_base,
}
use lsm_workload_aware_compa.Env.Rocksdb.{
  CompactionStyle, TableOptions, Options, ReadOptions, WriteOptions, FlushOptions, Measuring,
  style_universal, all_stats, disable_all, disable, enable_count,
  enable_time_and_cpu_time_except_for_mutex,
}
use lsm_workload_aware_compa.Env.Choices.{
  choose_compaction_pri, choose_memtable_factory, choose_compaction_style,
  choose_data_block_index_type, choose_index_type, choose_index_shortening, choose_compression,
  choose_read_tier, choose_comparator,
}

-- `env->block_cache * 1024 * 1024`, an `int` that is then a `size_t`; `none` is an overflow of `int`.
unfoldable pub cache_bytes : ℤ → Option ℕ
cache_bytes (pos n) = if ltb (n * 2 ^ 20) (2 ^ 31) then some (n * 2 ^ 20) else none
cache_bytes (negsuc n) =
    if ltb (2 ^ 31) (suc n * 2 ^ 20) then none else some (2 ^ 64 - suc n * 2 ^ 20)

-- The branch on `env->block_cache`.
unfoldable pub config_cache : DbEnv → TableOptions → Option TableOptions
unfolding cache_bytes
config_cache e t =
    if nonzero e.table.block_cache
    then (do
      capacity ← cache_bytes e.table.block_cache
      some (record t {
        no_block_cache = false;
        block_cache = some (record {
          capacity = capacity;
          high_pri_pool_ratio = e.table.block_cache_high_priority_ratio;
        });
        cache_index_and_filter_blocks = e.table.cache_index_and_filter_blocks;
      }))
    else some (record t { no_block_cache = true; cache_index_and_filter_blocks = false })

-- `if (env->bits_per_key == 0)`
unfoldable pub choose_filter_policy : ℤ → Option ℤ → Option ℤ
choose_filter_policy bits old = if nonzero bits then some bits else old

-- The table options, the block cache apart.
unfoldable pub config_table : DbEnv → TableOptions → TableOptions
config_table e t = record t {
  read_amp_bytes_per_bit = e.table.read_amp_bytes_per_bit;
  data_block_index_type =
      choose_data_block_index_type e.table.data_block_index_type t.data_block_index_type;
  index_type = choose_index_type e.table.index_type t.index_type;
  partition_filters = e.table.partition_filters;
  block_size = get_block_size e;
  metadata_block_size = e.table.metadata_block_size;
  pin_top_level_index_and_filter = e.table.pin_top_level_index_and_filter;
  index_shortening = choose_index_shortening e.table.index_shortening t.index_shortening;
  block_size_deviation = e.table.block_size_deviation;
  enable_index_compression = e.table.enable_index_compression;
}

-- The region DBOptions.
unfoldable pub config_db : DbEnv → Options → Options
config_db e o = record o {
  create_if_missing = e.db.create_if_missing;
  max_open_files = e.db.max_open_files;
  max_file_opening_threads = e.db.max_file_opening_threads;
  bytes_per_sync = e.db.bytes_per_sync;
  enable_thread_tracking = e.db.enable_thread_tracking;
  allow_concurrent_memtable_write = e.db.allow_concurrent_memtable_write;
  stats_history_buffer_size = e.db.stats_history_buffer_size;
  dump_malloc_stats = e.db.dump_malloc_stats;
  avoid_flush_during_shutdown = e.db.avoid_flush_during_shutdown;
  advise_random_on_open = e.db.advise_random_on_open;
  delete_obsolete_files_period_micros = e.db.delete_obsolete_files_period_micros;
  allow_mmap_reads = e.db.allow_mmap_reads;
  allow_mmap_writes = e.db.allow_mmap_writes;
}

-- `options->compaction_style != CompactionStyle::kCompactionStyleUniversal`
abbrev is_universal : CompactionStyle → Bool
is_universal style_universal = true
is_universal _ = false

-- The sizes, the choices of the tree, and what depends on the compaction style.
unfoldable pub config_tree : DbEnv → Options → Options
config_tree e o =
    let style = choose_compaction_style e.compaction_style o.compaction_style in
    record o {
      max_bytes_for_level_multiplier = e.size_ratio;
      write_buffer_size = get_buffer_size e;
      target_file_size_base = to_unsigned 64 (get_target_file_size_base e);
      max_bytes_for_level_base = get_max_bytes_for_level_base e;
      max_write_buffer_number = e.max_write_buffer_number;
      compaction_pri = choose_compaction_pri e.compaction_pri o.compaction_pri;
      memtable_factory = choose_memtable_factory e.memtable_factory o.memtable_factory;
      level_compaction_dynamic_level_bytes = e.level_compaction_dynamic_level_bytes;
      compaction_style = style;
      disable_auto_compactions = e.disable_auto_compactions;
      level0_file_num_compaction_trigger =
          if is_universal style
          then o.level0_file_num_compaction_trigger
          else e.level0_file_num_compaction_trigger;
      num_levels = if is_universal style then o.num_levels else e.num_levels;
      target_file_size_multiplier = e.target_file_size_multiplier;
      max_background_jobs = e.max_background_jobs;
      soft_pending_compaction_bytes_limit = e.soft_pending_compaction_bytes_limit;
      hard_pending_compaction_bytes_limit = e.hard_pending_compaction_bytes_limit;
      periodic_compaction_seconds = e.periodic_compaction_seconds;
      use_direct_io_for_flush_and_compaction = e.use_direct_io_for_flush_and_compaction;
      use_direct_reads = e.use_direct_reads;
    }

-- The region ColumnFamilyOptions.
unfoldable pub config_column_family : DbEnv → Options → Options
config_column_family e o = record o {
  comparator = choose_comparator e.column_family.comparator o.comparator;
  max_sequential_skip_in_iterations = e.column_family.max_sequential_skip_in_iterations;
  memtable_prefix_bloom_size_ratio = e.column_family.memtable_prefix_bloom_size_ratio;
  level0_slowdown_writes_trigger = e.column_family.level0_slowdown_writes_trigger;
  level0_stop_writes_trigger = e.column_family.level0_stop_writes_trigger;
  paranoid_file_checks = e.column_family.paranoid_file_checks;
  optimize_filters_for_hits = e.column_family.optimize_filters_for_hits;
  inplace_update_support = e.column_family.inplace_update_support;
  inplace_update_num_locks = e.column_family.inplace_update_num_locks;
  report_bg_io_stats = e.column_family.report_bg_io_stats;
  arena_block_size = get_block_size e;
}

unfoldable pub config_read : DbEnv → ReadOptions → ReadOptions
config_read e r = record {
  verify_checksums = e.read.verify_checksums;
  fill_cache = e.read.fill_cache;
  ignore_range_deletions = e.read.ignore_range_deletions;
  read_tier = choose_read_tier e.read.read_tier r.read_tier;
}

abbrev pub config_write : DbEnv → WriteOptions
config_write e = record {
  low_pri = e.write.low_pri;
  sync = e.write.sync;
  disable_wal = e.write.disable_wal;
  no_slowdown = e.write.no_slowdown;
  ignore_missing_column_families = e.write.ignore_missing_column_families;
}

abbrev pub config_flush : DbEnv → FlushOptions
config_flush e = record { wait = e.flush.wait; allow_write_stall = e.flush.allow_write_stall }

-- The performance level and what is measured for each thread: Reset and ClearPerLevelPerfContext drop the
-- counts.
unfoldable pub config_measuring : DbEnv → Measuring → Measuring
config_measuring e m = record {
  perf_level =
      if e.perf_stats
      then enable_time_and_cpu_time_except_for_mutex
      else if e.iostat_stats
      then enable_count
      else disable;
  per_level_perf_context = e.perf_stats;
  disable_iostats = if e.iostat_stats then m.disable_iostats else true;
  perf_counts = if e.perf_stats then [] else m.perf_counts;
  per_level_counts = if e.perf_stats then [] else m.per_level_counts;
  iostats_counts = if e.iostat_stats then [] else m.iostats_counts;
}

-- What configOptions works on.
pub record Setup : Type 0 where
  pub env : DbEnv
  pub options : Options
  pub table_options : TableOptions
  pub read_options : ReadOptions
  pub write_options : WriteOptions
  pub flush_options : FlushOptions
  pub measuring : Measuring

abbrev pub with_filter : Setup → TableOptions
with_filter s = record s.table_options {
  filter_policy = choose_filter_policy s.env.bits_per_key s.table_options.filter_policy;
}

-- Everything but the block cache, on the table options that it leaves. A new object of RocksDB (statistics,
-- cache, filter, factory) is the record of what it is made with; which of two equal ones it is, and what
-- the old one had counted, is not part of the state.
unfoldable pub finish_config : Setup → TableOptions → Setup
finish_config s cached =
    let e = record s.env {
      table = record s.env.table { no_block_cache = cached.no_block_cache };
    } in
    let tree = config_tree e (config_db e s.options) in
    let table = config_table e cached in
    let made = record tree {
      table_factory = table;
      compression = choose_compression e.compression tree.compression;
    } in
    record {
      env = e;
      options = record (config_column_family e made) {
        stats_level = if e.rocksdb_stats then all_stats else disable_all;
      };
      table_options = table;
      read_options = config_read e s.read_options;
      write_options = config_write e;
      flush_options = config_flush e;
      measuring = config_measuring e s.measuring;
    }

-- configOptions
unfoldable pub config_options : Setup → Option Setup
config_options s = config_cache s.env (with_filter s) >>= λ cached. some (finish_config s cached)
