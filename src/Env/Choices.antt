-- ===== src/Env/Choices.antt =====
-- The switches of configOptions (include/config_options.h). A number outside a switch leaves the option
-- as it was (the error message is left out).
use lsm_workload_aware_compa.Prelude.{ℕ, if◌then◌else◌, ◌==◌, List, [], ◌∷◌}
use lsm_workload_aware_compa.Env.Rocksdb.{
  CompactionPri, MemtableFactory, CompactionStyle, DataBlockIndexType, IndexType, IndexShortening,
  CompressionType, ReadTier, Comparator, min_overlapping_ratio, by_compensated_size,
  oldest_largest_seq_first, oldest_smallest_seq_first, round_robin, skip_list, vector_rep,
  hash_skip_list, hash_link_list, style_level, style_universal, style_fifo, style_none,
  data_block_binary_search, data_block_binary_and_hash, binary_search, hash_search,
  two_level_index_search, binary_search_with_first_key, no_shortening, shorten_separators,
  shorten_separators_and_successor, no_compression, snappy, zlib, bzip2, lz4, lz4hc, xpress, zstd,
  disable_compression_option, read_all_tier, block_cache_tier, persisted_tier, memtable_tier,
  bytewise, reverse_bytewise,
}

-- A switch over the listed numbers.
unfoldable pub switch {ℓ} : {A : Type ℓ} → List (ℕ × A) → ℕ → A → A
switch [] n old = old
switch ((m, a) ∷ cases) n old = if n == m then a else switch cases n old

-- switch (env->compaction_pri)
abbrev pub choose_compaction_pri : ℕ → CompactionPri → CompactionPri
choose_compaction_pri = switch (
    (1, min_overlapping_ratio)
    ∷ (2, by_compensated_size)
    ∷ (3, oldest_largest_seq_first)
    ∷ (4, oldest_smallest_seq_first)
    ∷ (5, round_robin)
    ∷ [])

-- switch (env->memtable_factory)
abbrev pub choose_memtable_factory : ℕ → MemtableFactory → MemtableFactory
choose_memtable_factory =
    switch ((1, skip_list) ∷ (2, vector_rep) ∷ (3, hash_skip_list) ∷ (4, hash_link_list) ∷ [])

-- switch (env->compaction_style)
abbrev pub choose_compaction_style : ℕ → CompactionStyle → CompactionStyle
choose_compaction_style =
    switch ((1, style_level) ∷ (2, style_universal) ∷ (3, style_fifo) ∷ (4, style_none) ∷ [])

-- switch (env->data_block_index_type)
abbrev pub choose_data_block_index_type : ℕ → DataBlockIndexType → DataBlockIndexType
choose_data_block_index_type =
    switch ((1, data_block_binary_search) ∷ (2, data_block_binary_and_hash) ∷ [])

-- switch (env->index_type)
abbrev pub choose_index_type : ℕ → IndexType → IndexType
choose_index_type = switch (
    (1, binary_search)
    ∷ (2, hash_search)
    ∷ (3, two_level_index_search)
    ∷ (4, binary_search_with_first_key)
    ∷ [])

-- switch (env->index_shortening)
abbrev pub choose_index_shortening : ℕ → IndexShortening → IndexShortening
choose_index_shortening =
    switch
      ((1, no_shortening) ∷ (2, shorten_separators) ∷ (3, shorten_separators_and_successor) ∷ [])

-- switch (env->compression): 9 is deprecated
abbrev pub choose_compression : ℕ → CompressionType → CompressionType
choose_compression = switch (
    (1, no_compression)
    ∷ (2, snappy)
    ∷ (3, zlib)
    ∷ (4, bzip2)
    ∷ (5, lz4)
    ∷ (6, lz4hc)
    ∷ (7, xpress)
    ∷ (8, zstd)
    ∷ (10, disable_compression_option)
    ∷ [])

-- switch (env->read_tier)
abbrev pub choose_read_tier : ℕ → ReadTier → ReadTier
choose_read_tier =
    switch
      ((1, read_all_tier) ∷ (2, block_cache_tier) ∷ (3, persisted_tier) ∷ (4, memtable_tier) ∷ [])

-- switch (env->comparator)
abbrev pub choose_comparator : ℕ → Comparator → Comparator
choose_comparator = switch ((1, bytewise) ∷ (2, reverse_bytewise) ∷ [])
