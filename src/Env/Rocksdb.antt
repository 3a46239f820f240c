-- ===== src/Env/Rocksdb.antt =====
-- What include/config_options.h sets of RocksDB's option types, with the choices by name.
use lsm_workload_aware_compa.Prelude.{List, ℕ, Bool, Option}
use lsm_workload_aware_compa.Prelude.Int.{ℤ}
use lsm_workload_aware_compa.Double.{Fraction}

pub data CompactionPri : Type 0 where
  min_overlapping_ratio by_compensated_size oldest_largest_seq_first oldest_smallest_seq_first
        round_robin :
      CompactionPri

pub data MemtableFactory : Type 0 where
  skip_list vector_rep hash_skip_list hash_link_list : MemtableFactory

pub data CompactionStyle : Type 0 where
  style_level style_universal style_fifo style_none : CompactionStyle

pub data DataBlockIndexType : Type 0 where
  data_block_binary_search data_block_binary_and_hash : DataBlockIndexType

pub data IndexType : Type 0 where
  binary_search hash_search two_level_index_search binary_search_with_first_key : IndexType

pub data IndexShortening : Type 0 where
  no_shortening shorten_separators shorten_separators_and_successor : IndexShortening

pub data CompressionType : Type 0 where
  no_compression snappy zlib bzip2 lz4 lz4hc xpress zstd disable_compression_option :
      CompressionType

pub data ReadTier : Type 0 where
  read_all_tier block_cache_tier persisted_tier memtable_tier : ReadTier

pub data Comparator : Type 0 where
  bytewise reverse_bytewise : Comparator

pub data StatsLevel : Type 0 where
  all_stats disable_all : StatsLevel

pub data PerfLevel : Type 0 where
  disable enable_count enable_time_and_cpu_time_except_for_mutex : PerfLevel

-- The arguments of NewLRUCache that vary.
pub record Cache : Type 0 where
  pub capacity : ℕ  -- size_t
  pub high_pri_pool_ratio : Fraction

pub record TableOptions : Type 0 where
  pub filter_policy : Option ℤ  -- the bits per key of a Bloom filter
  pub no_block_cache : Bool
  pub block_cache : Option Cache
  pub cache_index_and_filter_blocks : Bool
  pub read_amp_bytes_per_bit : ℕ
  pub data_block_index_type : DataBlockIndexType
  pub index_type : IndexType
  pub partition_filters : Bool
  pub block_size : ℕ
  pub metadata_block_size : ℕ
  pub pin_top_level_index_and_filter : Bool
  pub index_shortening : IndexShortening
  pub block_size_deviation : ℕ
  pub enable_index_compression : Bool

pub record Options : Type 0 where
  pub create_if_missing : Bool
  pub max_open_files : ℕ
  pub max_file_opening_threads : ℕ
  pub bytes_per_sync : ℕ
  pub enable_thread_tracking : Bool
  pub allow_concurrent_memtable_write : Bool
  pub stats_history_buffer_size : ℕ
  pub dump_malloc_stats : Bool
  pub avoid_flush_during_shutdown : Bool
  pub advise_random_on_open : Bool
  pub delete_obsolete_files_period_micros : ℕ
  pub allow_mmap_reads : Bool
  pub allow_mmap_writes : Bool
  pub max_bytes_for_level_multiplier : ℤ
  pub write_buffer_size : ℕ
  pub target_file_size_base : ℕ
  pub max_bytes_for_level_base : ℕ
  pub max_write_buffer_number : ℕ
  pub compaction_pri : CompactionPri
  pub memtable_factory : MemtableFactory
  pub level_compaction_dynamic_level_bytes : Bool
  pub compaction_style : CompactionStyle
  pub disable_auto_compactions : Bool
  pub level0_file_num_compaction_trigger : ℤ
  pub num_levels : ℕ
  pub target_file_size_multiplier : ℕ
  pub max_background_jobs : ℕ
  pub soft_pending_compaction_bytes_limit : ℕ
  pub hard_pending_compaction_bytes_limit : ℕ
  pub periodic_compaction_seconds : ℕ
  pub use_direct_io_for_flush_and_compaction : Bool
  pub use_direct_reads : Bool
  pub table_factory : TableOptions
  pub compression : CompressionType
  pub comparator : Comparator
  pub max_sequential_skip_in_iterations : ℕ
  pub memtable_prefix_bloom_size_ratio : Fraction
  pub level0_slowdown_writes_trigger : ℤ
  pub level0_stop_writes_trigger : ℤ
  pub paranoid_file_checks : Bool
  pub optimize_filters_for_hits : Bool
  pub inplace_update_support : Bool
  pub inplace_update_num_locks : ℕ
  pub report_bg_io_stats : Bool
  pub arena_block_size : ℕ
  pub stats_level : StatsLevel

pub record ReadOptions : Type 0 where
  pub verify_checksums : Bool
  pub fill_cache : Bool
  pub ignore_range_deletions : Bool
  pub read_tier : ReadTier

pub record WriteOptions : Type 0 where
  pub low_pri : Bool
  pub sync : Bool
  pub disable_wal : Bool
  pub no_slowdown : Bool
  pub ignore_missing_column_families : Bool

pub record FlushOptions : Type 0 where
  pub wait : Bool
  pub allow_write_stall : Bool

-- RocksDB's thread-local measuring, as far as the code sets it, and what has been counted so far: in the
-- perf context, in its part for each level, and in the I/O context. A context that is reset has no counts.
pub record Measuring : Type 0 where
  pub perf_level : PerfLevel
  pub per_level_perf_context : Bool
  pub disable_iostats : Bool
  pub perf_counts : List ℕ
  pub per_level_counts : List ℕ
  pub iostats_counts : List ℕ
