-- ===== src/Utils/Tests.antt =====
-- The table, the bar and the report on small inputs.
use lsm_workload_aware_compa.Prelude.{◌≡◌, refl, true, [], ◌++◌, arith}
use lsm_workload_aware_compa.Prelude.Int.{pos}
use lsm_workload_aware_compa.Double.{exact_double}
use lsm_workload_aware_compa.Buffer.{new_buffer}
use lsm_workload_aware_compa.Buffer.Stream.{contents}
use lsm_workload_aware_compa.Env.{DbEnv, get_buffer_size}
use lsm_workload_aware_compa.Env.Defaults.{new_env}
use lsm_workload_aware_compa.Utils.{titles, values, print_experimental_setup}
use lsm_workload_aware_compa.Utils.Decimal.{decimal, signed}
use lsm_workload_aware_compa.Utils.Samples.{fraction_text}
use lsm_workload_aware_compa.Utils.Columns.{
  row, ends, IsPrintable, print_experimental_setup-aligned,
}

abbrev shown_env : DbEnv
shown_env = record new_env {
  db = record new_env.db { verbosity = pos 1 };
  show_progress_bar = true;
  rocksdb_stats = true;
}

shown_env-IsPrintable : IsPrintable exact_double fraction_text shown_env
unfolding decimal signed get_buffer_size
shown_env-IsPrintable = omega arith

print_experimental_setup-aligned_example :
    (contents (print_experimental_setup exact_double fraction_text shown_env (new_buffer 8))
      ≡ [] ++ (row titles ++ row (values exact_double fraction_text shown_env)))
    × (ends 0 titles ≡ ends 0 (values exact_double fraction_text shown_env))
print_experimental_setup-aligned_example =
    print_experimental_setup-aligned exact_double fraction_text shown_env (new_buffer 8) refl
      shown_env-IsPrintable
