-- ===== src/Fluid/Compaction/State.antt =====
-- The data of fluid_lsm.h for compactions: CompactionTask, and FluidLSM with its constructor.
use lsm_workload_aware_compa.Prelude.{ℕ, zero, suc, String, Bool, List, [], ◌∷◌}
use lsm_workload_aware_compa.Fluid.Structure.{LazyLevel}

-- What the code reads of RocksDB's `Options`, and the two fields that it sets of `CompactionOptions`.
pub record TreeOptions : Type 0 where
  pub num_levels : ℕ
  pub write_buffer_size : ℕ
  pub target_file_size_base : ℕ
  pub compression : ℕ

pub record CompactionOptions : Type 0 where
  pub compression : ℕ
  pub output_file_size_limit : ℕ

pub record CompactionTask : Type 0 where
  pub cf_name : String
  pub input_file_names : List String
  pub output_lvl : ℕ
  pub compact_options : CompactionOptions
  pub retry_on_fail : Bool
  pub debug_mode : Bool

-- `scheduled` holds the tasks handed to `options_.env->Schedule`, oldest first.
pub record FluidLsm : Type 0 where
  pub lazy_levels : List LazyLevel
  pub size_ratio : ℕ
  pub smaller_lvl_runs_count : ℕ
  pub larger_lvl_runs_count : ℕ
  pub file_size : ℕ
  pub options : TreeOptions
  pub compact_options : CompactionOptions
  pub parallel_compactions_allowed : ℕ
  pub parallel_compactions_running : ℕ
  pub debug_mode : Bool
  pub scheduled : List CompactionTask

unfoldable pub empty_levels : ℕ → List LazyLevel
empty_levels zero = []
empty_levels (suc n) = record { runs = [] } ∷ empty_levels n

-- The constructor. It does not initialise `debug_mode_`: the value found there is an argument.
unfoldable pub new_tree : ℕ → ℕ → ℕ → ℕ → TreeOptions → Bool → FluidLsm
unfolding empty_levels
new_tree size_ratio smaller_lvl_runs_count larger_lvl_runs_count file_size options found = record {
  lazy_levels = empty_levels options.num_levels;
  size_ratio = size_ratio;
  smaller_lvl_runs_count = smaller_lvl_runs_count;
  larger_lvl_runs_count = larger_lvl_runs_count;
  file_size = file_size;
  options = options;
  compact_options = record {
    compression = options.compression;
    output_file_size_limit = options.target_file_size_base;
  };
  parallel_compactions_allowed = 1;
  parallel_compactions_running = 0;
  debug_mode = found;
  scheduled = [];
}
