-- ===== src/Workload.antt =====
-- src/run_workload.cc: the loop of runWorkload over the lines of the workload. The database and the clock
-- are parameters, and so is whether assertions are compiled in. The whole function is in Run.
pub mod Requests
pub mod Lines
pub mod Times
pub mod Showing
pub mod Run
pub mod Ending
pub mod Whole
pub mod Program
mod Tests
use lsm_workload_aware_compa.Prelude.{
  ℕ, suc, ◌+◌, ◌%◌, ◌^◌, Bool, true, false, ◌&&◌, ◌||◌, not, Option, none, some, List, [], ◌∷◌,
  if◌then◌else◌, ◌>>=◌, ◌==◌, leb, ltb, ◌-◌, ◌*◌, is_empty,
}
use lsm_workload_aware_compa.Double.{DoubleOps}
use lsm_workload_aware_compa.Buffer.{Text, Buffer, put as put_text}
use lsm_workload_aware_compa.Buffer.Stream.{put_all}
use lsm_workload_aware_compa.Env.{DbEnv}
use lsm_workload_aware_compa.Env.Config.{Setup}
use lsm_workload_aware_compa.Utils.{DoubleText, size_of_double, update_progress_bar}
use lsm_workload_aware_compa.Utils.Decimal.{codes, newline, decimal}
use lsm_workload_aware_compa.Utils.Reports.{TreeState}
use lsm_workload_aware_compa.Workload.Requests.{
  Request, insert, update, delete_range, scan, delete, query, no_match, read_request,
}

-- The database: a result is whether the status is `ok`; a scan returns the text of a failure, and opening
-- a database that is not ok returns none. GetLiveFiles flushes the memtable.
pub record Database : Type 1 where
  pub Db : Type 0
  pub Disk : Type 0
  pub destroy_db : Setup → Disk → Disk
  pub open_db : Setup → Disk → Option Db
  pub put : Db → Text → Text → Bool × Db
  pub delete_key : Db → Text → Bool × Db
  pub get : Db → Text → Bool
  pub scan_range : Db → Text → Text → Option Text
  pub delete_range_of : Db → Text → Text → Bool × Db
  pub get_live_files : Db → Db
  pub tree_state : Db → TreeState
  pub close_db : Db → Bool × Db

abbrev pub mismatch : Text
mismatch = codes "ERROR: Case match NOT found !!"

-- The operations that are timed; a range delete is not.
pub data Kind : Type 0 where
  inserts updates point_queries point_deletes range_queries : Kind

unfoldable pub kind_of : Request → Option Kind
kind_of (insert key value) = some inserts
kind_of (update key value) = some updates
kind_of (delete key) = some point_deletes
kind_of (query key) = some point_queries
kind_of (scan start_key end_key) = some range_queries
kind_of (delete_range start_key end_key) = none
kind_of no_match = none

abbrev pub label : Kind → Text
label inserts = codes "InsertTime: "
label updates = codes "UpdateTime: "
label point_queries = codes "GetTime: "
label point_deletes = codes "DeleteTime: "
label range_queries = codes "ScanTime: "

-- The five sums, of type `unsigned long`.
pub record ExecTimes : Type 0 where
  pub inserts_exec_time : ℕ
  pub updates_exec_time : ℕ
  pub pq_exec_time : ℕ
  pub pdelete_exec_time : ℕ
  pub rq_exec_time : ℕ

abbrev add_64 : ℕ → ℕ → ℕ
add_64 a b = (a + b) % 2 ^ 64

unfoldable pub charge : Kind → ℕ → ExecTimes → ExecTimes
charge inserts n ts = record ts { inserts_exec_time = add_64 ts.inserts_exec_time n }
charge updates n ts = record ts { updates_exec_time = add_64 ts.updates_exec_time n }
charge point_queries n ts = record ts { pq_exec_time = add_64 ts.pq_exec_time n }
charge point_deletes n ts = record ts { pdelete_exec_time = add_64 ts.pdelete_exec_time n }
charge range_queries n ts = record ts { rq_exec_time = add_64 ts.rq_exec_time n }

-- Whether operations are timed, and the nanoseconds that the clock measures for each, by its number.
pub record Timer : Type 0 where
  pub per_op_timer : Bool
  pub elapsed : ℕ → ℕ

unfoldable pub log_time : Timer → ℕ → Option Kind → Buffer → Buffer
unfolding put_all
log_time t ith_op none b = b
log_time t ith_op (some kind) b =
    if t.per_op_timer then put_all b (label kind ∷ decimal (t.elapsed ith_op) ∷ newline ∷ []) else b

unfoldable pub sum_time : Timer → ℕ → Option Kind → ExecTimes → ExecTimes
unfolding charge
sum_time t ith_op none ts = ts
sum_time t ith_op (some kind) ts = if t.per_op_timer then charge kind (t.elapsed ith_op) ts else ts

-- `if (!it->status().ok())` behind a scan.
abbrev pub log_failure : Buffer → Option Text → Buffer
log_failure b none = b
log_failure b (some failure) = put_text (put_text (put_text b failure) newline) []

module _ (d : Database) where
  open d use {Db, put, delete_key, get, scan_range, delete_range_of, close_db}

  -- The loop's state: the database, whether `s` is ok, the number of operations, the two logs, the sums of
  -- the timers, and what is on the screen.
  pub record Progress : Type 0 where
    pub db : Db
    pub ok : Bool
    pub ith_op : ℕ  -- unsigned long
    pub buffer : Buffer
    pub stats : Buffer
    pub times : ExecTimes
    pub screen : Text

  abbrev took : Progress → Bool × Db → Progress
  took p (ok, db) = record p { db = db; ok = ok }

  -- One case of the switch. The status of a new iterator is taken to be ok.
  unfoldable pub perform : Progress → Request → Progress
  perform p (insert key value) = took p (put p.db key value)
  perform p (update key value) = took p (put p.db key value)
  perform p (delete key) = took p (delete_key p.db key)
  perform p (query key) = record p { ok = get p.db key }
  perform p (scan start_key end_key) = record p {
    buffer = log_failure p.buffer (scan_range p.db start_key end_key);
  }
  perform p (delete_range start_key end_key) = took p (delete_range_of p.db start_key end_key)
  perform p no_match = record p { buffer = put_text (put_text p.buffer mismatch) newline }

  -- The `if (per_op_timer)` at the end of the timed cases.
  unfoldable pub record_time : Timer → Progress → Request → Progress
  record_time t p request = record p {
    stats = log_time t p.ith_op (kind_of request) p.stats;
    times = sum_time t p.ith_op (kind_of request) p.times;
  }

  -- The body of the loop behind the test for an empty line, without the progress bar.
  unfoldable pub step : Timer → Progress → Request → Progress
  unfolding perform record_time
  step t p request =
      let q = record_time t (perform p request) request in
      record q { ith_op = (q.ith_op + 1) % 2 ^ 64 }

  -- `assert(ok)`; without assertions nothing is tested.
  abbrev asserted {ℓ} : {A : Type ℓ} → Bool → Bool → A → Option A
  asserted asserts ok a = if asserts && not ok then none else some a

  -- `assert(s.ok()); s = db->Close(); … assert(s.ok())`; `none` is a failed assertion.
  unfoldable pub close_after : Bool → Progress → Option Progress
  close_after asserts p = do
    q ← asserted asserts p.ok p
    let closed = took q (close_db q.db)
    asserted asserts closed.ok closed

-- `(int)total_operations * 0.02`, as a `size_t`. The cast to `int` wraps, and a negative product is
-- undefined from -1 on. The literal is the quotient of 2 and 100, rounded.
unfoldable pub update_interval : DoubleOps → ℕ → Option ℕ
update_interval fp total_operations =
    let total = total_operations % 2 ^ 32 in
    if ltb total (2 ^ 31)
    then size_of_double
        (fp.truncate (fp.mul (fp.of_int total) (fp.div (fp.of_int 2) (fp.of_int 100))))
    else if ltb (2 ^ 32 - total) 50
    then some 0
    else none

module _ (d : Database) (t : Timer) (fp : DoubleOps) (print : DoubleText fp) (e : DbEnv)
    (total_operations : ℕ) where
  -- The call of UpdateProgressBar behind an operation.
  unfoldable pub show_progress : Progress d → Option (Progress d)
  show_progress p = do
    interval ← update_interval fp total_operations
    screen ← update_progress_bar fp print e p.ith_op total_operations interval 50 p.screen
    some (record p { screen = screen })

  -- `while (std::getline(workload_file, line))`: the last line, and an empty one, end it.
  unfoldable pub run_lines : Progress d → List Text → Option (Progress d)
  run_lines p [] = some p
  run_lines p (line ∷ lines) =
      if is_empty line
      then some p
      else (read_request line >>= λ request.
          show_progress (step d t p request) >>= λ q. run_lines q lines)
