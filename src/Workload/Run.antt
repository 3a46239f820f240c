-- ===== src/Workload/Run.antt =====
-- runWorkload as a whole, and main (src/working_version.cc). Messages on the standard error stream and the
-- clearing of the system's cache are left out. Both log files can be opened.
use lsm_workload_aware_compa.Prelude.{
  ℕ, ◌*◌, String, Bool, true, ◌||◌, Option, none, some, List, [], ◌∷◌, ◌++◌, if◌then◌else◌, ltb,
  ◌>>=◌, length,
}
use lsm_workload_aware_compa.Prelude.Int.{pos, ltb_ℤ}
use lsm_workload_aware_compa.Double.{DoubleOps}
use lsm_workload_aware_compa.Buffer.{Text, Buffer, new_buffer, flush}
use lsm_workload_aware_compa.Buffer.Stream.{put_all}
use lsm_workload_aware_compa.Env.{DbEnv}
use lsm_workload_aware_compa.Env.Config.{Setup, config_options}
use lsm_workload_aware_compa.Env.Instance.{get_instance}
use lsm_workload_aware_compa.Env.Arguments.{Outcome, Ending, exits, returns, parse_arguments}
use lsm_workload_aware_compa.Utils.{DoubleText, print_experimental_setup}
use lsm_workload_aware_compa.Utils.Decimal.{codes, newline, decimal}
use lsm_workload_aware_compa.Utils.Reports.{Counters, log_tree_state, print_rocksdb_perf_stats}
use lsm_workload_aware_compa.Workload.{Database, Timer, ExecTimes, Progress, close_after, run_lines}

-- The limit that a Buffer is made with where none is given.
abbrev pub default_limit : ℕ
default_limit = 10 * 1024 * 1024

abbrev pub separator : List Text
separator = codes "=====================" ∷ newline ∷ []

abbrev pub no_times : ExecTimes
no_times = record {
  inserts_exec_time = 0;
  updates_exec_time = 0;
  pq_exec_time = 0;
  pdelete_exec_time = 0;
  rq_exec_time = 0;
}

abbrev pub time_entry : String → ℕ → List Text
time_entry name n = codes name ∷ decimal n ∷ newline ∷ []

abbrev pub sums_pieces : ExecTimes → List Text
sums_pieces ts =
    time_entry "Inserts Execution Time: " ts.inserts_exec_time
    ++ time_entry "Updates Execution Time: " ts.updates_exec_time
    ++ time_entry "PointQuery Execution Time: " ts.pq_exec_time
    ++ time_entry "PointDelete Execution Time: " ts.pdelete_exec_time
    ++ time_entry "RangeQuery Execution Time: " ts.rq_exec_time

-- The summary of the timers.
unfoldable pub print_times : DbEnv → ℕ → ExecTimes → Buffer → Buffer
print_times e total_exec_time ts b =
    let b1 = if e.is_per_op_timer || e.is_total_timer then put_all b separator else b in
    let b2 =
      if e.is_total_timer
      then put_all b1 (time_entry "Workload Execution Time: " total_exec_time)
      else b1 in
    if e.is_per_op_timer then put_all b2 (sums_pieces ts) else b2

-- `workload_file.open`, and `assert(workload_file)`: without assertions, a file that cannot be opened has
-- no lines.
unfoldable pub open_workload : Bool → Option (List Text) → Option (List Text)
open_workload asserts (some lines) = some lines
open_workload asserts none = if asserts then none else some []

-- The lines are counted in front of the loop only where the bar is on.
abbrev pub count_operations : DbEnv → List Text → ℕ
count_operations e lines = if e.show_progress_bar then length lines else 0

-- What is logged between the loop and the closing.
unfoldable pub log_end : (d : Database) → DbEnv → ℕ → d.Db → ExecTimes → Buffer → Buffer
log_end d e total_exec_time db ts b =
    let b1 = if ltb_ℤ (pos 0) e.db.verbosity then put_all b separator else b in
    print_times e total_exec_time ts (log_tree_state e (d.tree_state db) b1)

abbrev pub timer : (ℕ → ℕ) → DbEnv → Timer
timer elapsed e = record { per_op_timer = e.is_per_op_timer; elapsed = elapsed }

-- The state in front of the loop.
abbrev pub loop_start :
    (d : Database) (fp : DoubleOps) → DoubleText fp → DbEnv → d.Db → Text → Progress d
loop_start d fp print e db screen = record {
  db = db;
  ok = true;
  ith_op = 0;
  buffer = print_experimental_setup fp print e (new_buffer default_limit);
  stats = new_buffer default_limit;
  times = no_times;
  screen = screen;
}

module _ (d : Database) (fp : DoubleOps) (print : DoubleText fp) (asserts : Bool) (elapsed : ℕ → ℕ)
    (counters : d.Db → Counters fp) where
  -- What follows the loop, with PROFILE defined: the tree's state, the summary, the closing, the report
  -- and the two flushes.
  unfoldable pub finish : DbEnv → ℕ → Progress d → Option (Progress d)
  finish e total_exec_time p = do
    let db = d.get_live_files p.db
    closed ←
        close_after d asserts
          (record p { db = db; buffer = log_end d e total_exec_time db p.times p.buffer })
    let reported = print_rocksdb_perf_stats fp print e (counters closed.db) closed.buffer
    some (record closed { buffer = flush reported; stats = flush closed.stats })

  -- runWorkload, on the default-constructed options, the disk, the lines of the file (none where it cannot
  -- be opened) and the measured time. It returns 0. A database that cannot be opened is a failed
  -- assertion, or else a null pointer that the loop or LogTreeState follows.
  unfoldable pub run_workload :
      Setup → d.Disk → Option (List Text) → ℕ → Text → Option (ℕ × Progress d)
  run_workload s disk workload total_exec_time screen = do
    configured ← config_options s
    let e = configured.env
    let found = if e.destroy_database then d.destroy_db configured disk else disk
    db ← d.open_db configured found
    lines ← open_workload asserts workload
    p ←
        run_lines d (timer elapsed e) fp print e (count_operations e lines)
          (loop_start d fp print e db screen) lines
    q ← finish e total_exec_time p
    some (0, q)

  -- How main ends: with an exit code, and with what the run has left, if there was one.
  pub record Exit : Type 0 where
    pub code : ℕ
    pub left : Option (Progress d)

  unfoldable pub continue : Setup → d.Disk → Option (List Text) → ℕ → Text → Ending → Option Exit
  unfolding run_workload
  continue s disk workload total_exec_time screen (exits n) =
      some (record { code = n; left = none })
  continue s disk workload total_exec_time screen (returns n e) =
      if ltb 0 n
      then some (record { code = 1; left = none })
      else (run_workload (record s { env = e }) disk workload total_exec_time screen >>= λ r.
          some (record { code = r.0; left = some r.1 }))

  -- main, with the static pointer that GetInstance finds.
  unfoldable pub main :
      Setup → Option DbEnv → Outcome → d.Disk → Option (List Text) → ℕ → Text → Option Exit
  unfolding continue
  main s instance_ outcome disk workload total_exec_time screen =
      parse_arguments outcome (get_instance instance_).0
      >>= continue s disk workload total_exec_time screen
