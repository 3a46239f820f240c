-- ===== src/Env/Configured.antt =====
-- What configOptions leaves: the sizes and ratios, the block cache, and that it settles the options.
use lsm_workload_aware_compa.Prelude.{
  ℕ, ◌*◌, ◌<◌, ◌^◌, ◌≡◌, refl, sym, ap, ◌∙◌, Bool, true, false, not, ◌&&◌, Option, some, some_inj,
  arith, >>=-eq-some, ◌>>=◌, ltb, lt→ltb, if◌then◌else◌, inl, inr, Bool-cases,
}
use mathlib.Core.Path.{subst}
use lsm_workload_aware_compa.Prelude.Int.{pos, nonzero}
use lsm_workload_aware_compa.Env.{
  DbEnv, get_block_size, get_buffer_size, get_target_file_size_base, get_max_bytes_for_level_base,
}
use lsm_workload_aware_compa.Env.Rocksdb.{Cache, TableOptions, Options}
use lsm_workload_aware_compa.Env.Config.{
  Setup, cache_bytes, config_cache, config_table, config_tree, config_column_family, with_filter,
  finish_config, config_options,
}
use lsm_workload_aware_compa.Env.Sizes.{get_max_bytes_for_level_base-same}

pub config_inv :
    (s s' : Setup)
    → config_options s ≡ some s'
    → (cached : TableOptions) × (config_cache s.env (with_filter s) ≡ some cached)
      × (finish_config s cached ≡ s')
unfolding config_options
config_inv s s' h =
    let (cached, at, e) =
      >>=-eq-some (config_cache s.env (with_filter s)) (λ cached. some (finish_config s cached))
        h in
    (cached, at, some_inj e)

pub config_options-show_progress_bar :
    (s s' : Setup) → config_options s ≡ some s' → s'.env.show_progress_bar ≡ s.env.show_progress_bar
unfolding finish_config
config_options-show_progress_bar s s' h =
    let (cached, at, same) = config_inv s s' h in
    ap (λ (x : Setup). x.env.show_progress_bar) (sym same)

-- The sizes and ratios that RocksDB works with.
pub record IsSized (e : DbEnv) (o : Options) (t : TableOptions) : Type 0 where
  pub write_buffer : o.write_buffer_size ≡ get_buffer_size e
  pub target_file : o.target_file_size_base ≡ o.write_buffer_size
  pub level_base : o.max_bytes_for_level_base ≡ o.write_buffer_size
  pub multiplier : o.max_bytes_for_level_multiplier ≡ e.size_ratio
  pub blocks : t.block_size ≡ get_block_size e
  pub arena : o.arena_block_size ≡ t.block_size
  pub factory : o.table_factory ≡ t

config_options-IsSized :
    (s s' : Setup)
    → config_options s ≡ some s'
    → s.env.buffer_size < 2 ^ 64
    → IsSized s.env s'.options s'.table_options
unfolding finish_config config_tree config_column_family config_table get_buffer_size get_block_size
    get_target_file_size_base get_max_bytes_for_level_base
config_options-IsSized s s' h fits =
    let (cached, at, same) = config_inv s s' h in
    let (target, base) = get_max_bytes_for_level_base-same s.env fits in
    subst (λ (x : Setup). IsSized s.env x.options x.table_options) same
      (record {
        write_buffer = refl;
        target_file = target;
        level_base = base;
        multiplier = refl;
        blocks = refl;
        arena = refl;
        factory = refl;
      })

cache_bytes_small : (n : ℕ) → n < 2 ^ 11 → cache_bytes (pos n) ≡ some (n * 2 ^ 20)
unfolding cache_bytes
cache_bytes_small n fits = rw (lt→ltb (n * 2 ^ 20) (2 ^ 31) (omega arith))

-- The table options with a block cache, and without one.
abbrev pub cached_table : DbEnv → TableOptions → ℕ → TableOptions
cached_table e t capacity = record t {
  no_block_cache = false;
  block_cache = some (record {
    capacity = capacity;
    high_pri_pool_ratio = e.table.block_cache_high_priority_ratio;
  });
  cache_index_and_filter_blocks = e.table.cache_index_and_filter_blocks;
}

abbrev pub uncached_table : TableOptions → TableOptions
uncached_table t = record t { no_block_cache = true; cache_index_and_filter_blocks = false }

pub config_cache_on :
    (e : DbEnv) (t : TableOptions) (capacity : ℕ)
    → nonzero e.table.block_cache ≡ true
    → cache_bytes e.table.block_cache ≡ some capacity
    → config_cache e t ≡ some (cached_table e t capacity)
unfolding config_cache
config_cache_on e t capacity on bytes = rw (on, bytes)

pub config_cache_off :
    (e : DbEnv) (t : TableOptions)
    → nonzero e.table.block_cache ≡ false
    → config_cache e t ≡ some (uncached_table t)
unfolding config_cache
config_cache_off e t off = rw off

pub config_from :
    (s : Setup) (t : TableOptions)
    → config_cache s.env (with_filter s) ≡ some t
    → config_options s ≡ some (finish_config s t)
unfolding config_options
config_from s t at = ap (λ o. o >>= λ cached. some (finish_config s cached)) at

abbrev pub cache_if : Setup → ℕ → Bool → Option Cache
cache_if s n b =
    if b
    then some (record {
      capacity = n * 2 ^ 20;
      high_pri_pool_ratio = s.env.table.block_cache_high_priority_ratio;
    })
    else s.table_options.block_cache

-- What a block cache of `n` MB is to mean.
pub record IsCached (s : Setup) (n : ℕ) (s' : Setup) : Type 0 where
  pub table_says : s'.table_options.no_block_cache ≡ not (ltb 0 n)
  pub env_says : s'.env.table.no_block_cache ≡ not (ltb 0 n)
  pub index_too :
      s'.table_options.cache_index_and_filter_blocks
      ≡ (ltb 0 n && s.env.table.cache_index_and_filter_blocks)
  pub cache : s'.table_options.block_cache ≡ cache_if s n (ltb 0 n)

pub config_options-cache :
    (s : Setup) (n : ℕ)
    → s.env.table.block_cache ≡ pos n
    → n < 2 ^ 11
    → (s' : Setup) × (config_options s ≡ some s') × IsCached s n s'
unfolding finish_config config_table
config_options-cache s n is_n fits = elim (Bool-cases (ltb 0 n)) [
  | inl cached ↦ (
    finish_config s (cached_table s.env (with_filter s) (n * 2 ^ 20)),
    config_from s (cached_table s.env (with_filter s) (n * 2 ^ 20)) (
        config_cache_on s.env (with_filter s) (n * 2 ^ 20) (ap nonzero is_n ∙ cached)
          (ap cache_bytes is_n ∙ cache_bytes_small n fits)),
    record {
      table_says = sym (ap not cached);
      env_says = sym (ap not cached);
      index_too = sym (ap (λ b. b && s.env.table.cache_index_and_filter_blocks) cached);
      cache = sym (ap (cache_if s n) cached);
    },
  )
  | inr uncached ↦ (
    finish_config s (uncached_table (with_filter s)),
    config_from s (uncached_table (with_filter s))
        (config_cache_off s.env (with_filter s) (ap nonzero is_n ∙ uncached)),
    record {
      table_says = sym (ap not uncached);
      env_says = sym (ap not uncached);
      index_too = sym (ap (λ b. b && s.env.table.cache_index_and_filter_blocks) uncached);
      cache = sym (ap (cache_if s n) uncached);
    },
  )
]

-- With a block cache of `n` MB, below 2 GB, configOptions ends without a fault. There is no block cache
-- exactly if `n` is 0, and the environment says so too; a cache has `n` MB, and only with one are index and
-- filter blocks cached. The memtable, the files and the first level are of one size, the buffer size of
-- the environment; the level multiplier is the size ratio, the blocks are of the environment's block size,
-- and the table factory has been made from the final table options.
pub config_options_settles :
    (s : Setup) (n : ℕ)
    → s.env.table.block_cache ≡ pos n
    → n < 2 ^ 11
    → s.env.buffer_size < 2 ^ 64
    → (s' : Setup) × (config_options s ≡ some s')
      × IsCached s n s'
      × IsSized s.env s'.options s'.table_options
config_options_settles s n is_n small fits =
    let (s', ended, cached) = config_options-cache s n is_n small in
    (s', ended, cached, config_options-IsSized s s' ended fits)
