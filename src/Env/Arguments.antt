-- ===== src/Env/Arguments.antt =====
-- parse_arguments (include/parse_arguments.h). The parser is a library: what it makes of the command line
-- is an argument, a value for each flag that was given.
use lsm_workload_aware_compa.Prelude.{ℕ, ◌^◌, Option, none, some, if◌then◌else◌, ltb, ◌>>=◌}
use lsm_workload_aware_compa.Prelude.Int.{ℤ, pos, negsuc, nonzero, pred_ℤ, to_unsigned}
use lsm_workload_aware_compa.Env.{DbEnv}

-- The flags, each an `int` or a `long`. `file_size` is parsed and not used.
pub record Arguments : Type 0 where
  pub destroy_database : Option ℤ
  pub clear_system_cache : Option ℤ
  pub size_ratio : Option ℤ
  pub buffer_size_in_pages : Option ℤ
  pub entries_per_page : Option ℤ
  pub entry_size : Option ℤ
  pub buffer_size : Option ℤ
  pub file_to_memtable_size_ratio : Option ℤ
  pub file_size : Option ℤ
  pub compaction_pri : Option ℤ
  pub compaction_style : Option ℤ
  pub bits_per_key : Option ℤ
  pub block_cache : Option ℤ
  pub enable_perf : Option ℤ
  pub enable_iostat : Option ℤ
  pub enable_rocksdb_stats : Option ℤ
  pub show_progress : Option ℤ
  pub verbosity : Option ℤ
  pub enable_per_op_time : Option ℤ
  pub enable_total_time : Option ℤ
  pub low_pri : Option ℤ

-- How `parser.ParseCLI` ends: normally, or with one of the exceptions that are caught.
pub data Outcome : Type 0 where
  parsed : Arguments → Outcome
  help parse_error validation_error : Outcome

-- How parse_arguments ends: with `exit`, or with a result and the environment.
pub data Ending : Type 0 where
  exits : ℕ → Ending
  returns : ℕ → DbEnv → Ending

-- `flag ? args::get(flag) : old`, with the conversion to the type of the target.
unfoldable pub given {ℓ} : {A : Type ℓ} → Option ℤ → (ℤ → A) → A → A
given none convert old = old
given (some v) convert old = convert v

abbrev pub itself : ℤ → ℤ
itself v = v

-- The conversion of a whole double to `int`; out of range it is undefined.
unfoldable pub int_of_double : ℤ → Option ℤ
int_of_double (pos n) = if ltb n (2 ^ 31) then some (pos n) else none
int_of_double (negsuc n) = if ltb n (2 ^ 31) then some (negsuc n) else none

-- The assignments behind the parser; `slowdown` and `stop` are the converted ratios.
unfoldable pub apply_arguments : Arguments → ℤ → ℤ → DbEnv → DbEnv
apply_arguments a slowdown stop e = record e {
  destroy_database = given a.destroy_database nonzero e.destroy_database;
  db = record e.db {
    clear_system_cache = given a.clear_system_cache nonzero e.db.clear_system_cache;
    verbosity = given a.verbosity itself e.db.verbosity;
  };
  size_ratio = given a.size_ratio itself e.size_ratio;
  column_family = record e.column_family {
    level0_slowdown_writes_trigger = slowdown;
    level0_stop_writes_trigger = stop;
  };
  level0_file_num_compaction_trigger = stop;
  buffer_size_in_pages = given a.buffer_size_in_pages (to_unsigned 32) e.buffer_size_in_pages;
  entries_per_page = given a.entries_per_page (to_unsigned 32) e.entries_per_page;
  entry_size = given a.entry_size (to_unsigned 32) e.entry_size;
  is_per_op_timer = given a.enable_per_op_time nonzero e.is_per_op_timer;
  is_total_timer = given a.enable_total_time nonzero e.is_total_timer;
  buffer_size = given a.buffer_size (to_unsigned 64) 0;
  file_to_memtable_size_ratio =
      given a.file_to_memtable_size_ratio (to_unsigned 32) e.file_to_memtable_size_ratio;
  compaction_pri = given a.compaction_pri (to_unsigned 16) e.compaction_pri;
  compaction_style = given a.compaction_style (to_unsigned 64) e.compaction_style;
  bits_per_key = given a.bits_per_key itself e.bits_per_key;
  table = record e.table { block_cache = given a.block_cache itself e.table.block_cache };
  perf_stats = given a.enable_perf nonzero e.perf_stats;
  iostat_stats = given a.enable_iostat nonzero e.iostat_stats;
  rocksdb_stats = given a.enable_rocksdb_stats nonzero e.rocksdb_stats;
  show_progress_bar = given a.show_progress nonzero e.show_progress_bar;
  write = record e.write { low_pri = given a.low_pri nonzero e.write.low_pri };
}

-- parse_arguments; `none` is an undefined conversion.
unfoldable pub parse_arguments : Outcome → DbEnv → Option Ending
parse_arguments help e = some (exits 0)
parse_arguments parse_error e = some (returns 1 e)
parse_arguments validation_error e = some (returns 1 e)
parse_arguments (parsed a) e = do
  let ratio = given a.size_ratio itself e.size_ratio
  slowdown ← int_of_double (pred_ℤ ratio)
  stop ← int_of_double ratio
  some (returns 0 (apply_arguments a slowdown stop e))
