-- ===== src/Workload/Ending.antt =====
-- What is logged behind the loop.
use lsm_workload_aware_compa.Prelude.{ℕ, ◌||◌, [], ◌∷◌, ◌++◌, if◌then◌else◌}
use lsm_workload_aware_compa.Prelude.Int.{pos, ltb_ℤ}
use lsm_workload_aware_compa.Double.{DoubleOps}
use lsm_workload_aware_compa.Buffer.{Text, Buffer}
use lsm_workload_aware_compa.Buffer.Stream.{concat}
use lsm_workload_aware_compa.Buffer.Adding.{Adds, Adds-then, Adds-if, put_all-Adds}
use lsm_workload_aware_compa.Env.{DbEnv}
use lsm_workload_aware_compa.Utils.{DoubleText}
use lsm_workload_aware_compa.Utils.Decimal.{newline}
use lsm_workload_aware_compa.Utils.Reports.{
  TreeState, Counters, cfd_details, log_tree_state, print_rocksdb_perf_stats, report,
}
use lsm_workload_aware_compa.Utils.Written.{print_rocksdb_perf_stats-report}
use lsm_workload_aware_compa.Workload.{Database, ExecTimes}
use lsm_workload_aware_compa.Workload.Run.{separator, time_entry, sums_pieces, print_times, log_end}

times_text : DbEnv → ℕ → ExecTimes → Text
times_text e total_exec_time ts =
    (if e.is_per_op_timer || e.is_total_timer then concat separator else [])
    ++ ((if e.is_total_timer
          then concat (time_entry "Workload Execution Time: " total_exec_time)
          else [])
        ++ (if e.is_per_op_timer then concat (sums_pieces ts) else []))

-- The end of the log, from the tree's state, the measured times and what RocksDB has counted.
unfoldable pub end_text :
    (fp : DoubleOps) → DoubleText fp → DbEnv → ℕ → TreeState → ExecTimes → Counters fp → Text
unfolding times_text
end_text fp print e total_exec_time tree ts counters =
    let verbose = ltb_ℤ (pos 0) e.db.verbosity in
    ((if verbose then concat separator else [])
      ++ ((if verbose then concat (cfd_details tree ∷ newline ∷ []) else [])
          ++ times_text e total_exec_time ts))
    ++ report fp print e counters

print_times-Adds :
    (e : DbEnv) (n : ℕ) (ts : ExecTimes) (b : Buffer)
    → Adds b (print_times e n ts b) (times_text e n ts)
unfolding print_times times_text
print_times-Adds e n ts b =
    Adds-then (Adds-if (e.is_per_op_timer || e.is_total_timer) (put_all-Adds b separator)) (
      Adds-then
        (Adds-if e.is_total_timer (put_all-Adds _ (time_entry "Workload Execution Time: " n)))
        (Adds-if e.is_per_op_timer (put_all-Adds _ (sums_pieces ts))))

log_tree_state-Adds :
    (e : DbEnv) (t : TreeState) (b : Buffer)
    → Adds b
        (log_tree_state e t b)
        (if ltb_ℤ (pos 0) e.db.verbosity then concat (cfd_details t ∷ newline ∷ []) else [])
unfolding log_tree_state
log_tree_state-Adds e t b =
    Adds-if (ltb_ℤ (pos 0) e.db.verbosity) (put_all-Adds b (cfd_details t ∷ newline ∷ []))

module _ (d : Database) (fp : DoubleOps) (print : DoubleText fp) where
  pub log_end-Adds :
      (e : DbEnv) (n : ℕ) (db : d.Db) (ts : ExecTimes) (c : Counters fp) (b : Buffer)
      → Adds b
          (print_rocksdb_perf_stats fp print e c (log_end d e n db ts b))
          (end_text fp print e n (d.tree_state db) ts c)
  unfolding log_end end_text
  log_end-Adds e n db ts c b =
      Adds-then
        (Adds-then (Adds-if (ltb_ℤ (pos 0) e.db.verbosity) (put_all-Adds b separator))
          (Adds-then (log_tree_state-Adds e (d.tree_state db) _) (print_times-Adds e n ts _)))
        (print_rocksdb_perf_stats-report fp print e c _)
