-- ===== src/Env.antt =====
-- include/db_env.h: the options of an experiment, with their defaults and the sizes derived from them.
-- A field of type `int` that the command line sets is an integer, and one that only has its default is a
-- natural number. The doubles `size_ratio` and `bits_per_key` only ever hold an `int`, exactly.
pub mod Rocksdb
pub mod Choices
pub mod Config
pub mod Arguments
pub mod Parsing
pub mod Sizes
pub mod Configured
pub mod Default
pub mod Defaults
pub mod Instance
pub mod Samples
mod Tests
use lsm_workload_aware_compa.Prelude.{ℕ, ◌*◌, ◌%◌, ◌^◌, Bool, true, false, if◌then◌else◌, ◌==◌}
use lsm_workload_aware_compa.Prelude.Int.{ℤ, pos, long_of_bits, to_unsigned}
use lsm_workload_aware_compa.Double.{Fraction}

pub record DbOptions : Type 0 where
  pub create_if_missing : Bool
  pub clear_system_cache : Bool
  pub max_open_files : ℕ
  pub max_file_opening_threads : ℕ
  pub bytes_per_sync : ℕ
  pub enable_thread_tracking : Bool
  pub allow_concurrent_memtable_write : Bool
  pub stats_history_buffer_size : ℕ
  pub dump_malloc_stats : Bool
  pub avoid_flush_during_shutdown : Bool
  pub advise_random_on_open : Bool
  pub delete_obsolete_files_period_micros : ℕ
  pub allow_mmap_reads : Bool
  pub allow_mmap_writes : Bool
  pub verbosity : ℤ

pub record TableKnobs : Type 0 where
  pub no_block_cache : Bool
  pub block_cache : ℤ
  pub block_cache_high_priority_ratio : Fraction
  pub cache_index_and_filter_blocks : Bool
  pub read_amp_bytes_per_bit : ℕ
  pub data_block_index_type : ℕ
  pub index_type : ℕ
  pub partition_filters : Bool
  pub metadata_block_size : ℕ
  pub pin_top_level_index_and_filter : Bool
  pub index_shortening : ℕ
  pub block_size_deviation : ℕ
  pub enable_index_compression : Bool

pub record ReadKnobs : Type 0 where
  pub verify_checksums : Bool
  pub fill_cache : Bool
  pub ignore_range_deletions : Bool
  pub read_tier : ℕ

pub record WriteKnobs : Type 0 where
  pub low_pri : Bool
  pub sync : Bool
  pub disable_wal : Bool
  pub no_slowdown : Bool
  pub ignore_missing_column_families : Bool

pub record ColumnFamilyKnobs : Type 0 where
  pub comparator : ℕ
  pub max_sequential_skip_in_iterations : ℕ
  pub memtable_prefix_bloom_size_ratio : Fraction
  pub level0_slowdown_writes_trigger : ℤ
  pub level0_stop_writes_trigger : ℤ
  pub paranoid_file_checks : Bool
  pub optimize_filters_for_hits : Bool
  pub inplace_update_support : Bool
  pub inplace_update_num_locks : ℕ
  pub report_bg_io_stats : Bool

pub record FlushKnobs : Type 0 where
  pub wait : Bool
  pub allow_write_stall : Bool

-- The regions of the class are records of their own.
pub record DbEnv : Type 0 where
  pub buffer_size : ℕ  -- size_t
  pub rocksdb_stats : Bool
  pub perf_stats : Bool
  pub iostat_stats : Bool
  pub destroy_database : Bool
  pub show_progress_bar : Bool
  pub is_per_op_timer : Bool
  pub is_total_timer : Bool
  pub db : DbOptions
  pub entry_size : ℕ  -- unsigned int, as the next two
  pub entries_per_page : ℕ
  pub buffer_size_in_pages : ℕ
  pub size_ratio : ℤ
  pub file_to_memtable_size_ratio : ℕ
  pub max_write_buffer_number : ℕ
  pub bits_per_key : ℤ
  pub compaction_pri : ℕ  -- uint16_t, as memtable_factory and compression
  pub memtable_factory : ℕ
  pub level_compaction_dynamic_level_bytes : Bool
  pub compaction_style : ℕ  -- uint64_t
  pub disable_auto_compactions : Bool
  pub level0_file_num_compaction_trigger : ℤ
  pub num_levels : ℕ
  pub target_file_size_multiplier : ℕ
  pub max_background_jobs : ℕ
  pub soft_pending_compaction_bytes_limit : ℕ
  pub hard_pending_compaction_bytes_limit : ℕ
  pub periodic_compaction_seconds : ℕ
  pub use_direct_io_for_flush_and_compaction : Bool
  pub use_direct_reads : Bool
  pub table : TableKnobs
  pub compression : ℕ
  pub read : ReadKnobs
  pub write : WriteKnobs
  pub column_family : ColumnFamilyKnobs
  pub flush : FlushKnobs

-- DBEnv::GetBlockSize: a product of two 32-bit numbers, and so are the products of GetBufferSize.
unfoldable pub get_block_size : DbEnv → ℕ
get_block_size e = e.entries_per_page * e.entry_size % 2 ^ 32

-- DBEnv::GetBufferSize
unfoldable pub get_buffer_size : DbEnv → ℕ
get_buffer_size e =
    if e.buffer_size == 0
    then e.buffer_size_in_pages * e.entries_per_page % 2 ^ 32 * e.entry_size % 2 ^ 32
    else e.buffer_size

-- DBEnv::GetTargetFileSizeBase and DBEnv::GetMaxBytesForLevelBase, by way of `long`.
unfoldable pub get_target_file_size_base : DbEnv → ℤ
get_target_file_size_base e = long_of_bits (get_buffer_size e)

unfoldable pub get_max_bytes_for_level_base : DbEnv → ℕ
get_max_bytes_for_level_base e = to_unsigned 64 (get_target_file_size_base e)
