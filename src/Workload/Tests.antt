-- ===== src/Workload/Tests.antt =====
-- Runs of a small workload on a database that only remembers its last key, and refuses the key `x`.
mod Runs
use lsm_workload_aware_compa.Prelude.{
  ◌+◌, ◌%◌, ◌^◌, ◌≡◌, refl, Bool, true, false, not, none, some, List, [], ◌∷◌, ◌++◌, arith, length,
  ◌==◌,
}
use lsm_workload_aware_compa.Double.{exact_double, exact_double-IsExact}
use lsm_workload_aware_compa.Buffer.{Text, Buffer, new_buffer}
use lsm_workload_aware_compa.Env.{DbEnv}
use lsm_workload_aware_compa.Env.Defaults.{new_env}
use lsm_workload_aware_compa.Env.Config.{
  Setup, with_filter, config_cache, finish_config, config_options,
}
use lsm_workload_aware_compa.Env.Samples.{setup_of}
use lsm_workload_aware_compa.Env.Arguments.{
  parse_error, parsed, returns, given, int_of_double, apply_arguments, parse_arguments,
}
use lsm_workload_aware_compa.Env.Parsing.{no_flags}
use lsm_workload_aware_compa.Env.Instance.{get_instance}
use lsm_workload_aware_compa.Workload.Program.{IsDone, main-IsDone}
use lsm_workload_aware_compa.Utils.Samples.{fraction_text}
use lsm_workload_aware_compa.Utils.Reports.{Counters}
use lsm_workload_aware_compa.Workload.{ExecTimes, Database, Timer, Progress, run_lines}
use lsm_workload_aware_compa.Workload.Requests.{
  Request, insert, query, skip_spaces, split_word, next_word, request_of, read_request,
}
use lsm_workload_aware_compa.Workload.Lines.{requests_of, perform_all, perform_all-forgets_status}
use lsm_workload_aware_compa.Workload.Showing.{IsShowable, off-IsShowable, run_lines-requests_of}
use lsm_workload_aware_compa.Workload.Times.{perform_all-retimed}
use lsm_workload_aware_compa.Workload.Run.{no_times, count_operations, timer, run_workload}
use lsm_workload_aware_compa.Workload.Run
use lsm_workload_aware_compa.Workload.Whole.{IsLeft, run_workload-IsLeft, run_workload-few}

abbrev accepts : Text → Bool
accepts [] = true
accepts (c ∷ cs) = not (c == 120)

abbrev pub last_key : Database
last_key = record {
  Db = Text;
  Disk = Text;
  destroy_db = λ options disk. [];
  open_db = λ options disk. some [];
  put = λ db key value. (accepts key, key);
  delete_key = λ db key. (accepts key, key);
  get = λ db key. accepts key;
  scan_range = λ db start_key end_key. none;
  delete_range_of = λ db start_key end_key. (true, db);
  get_live_files = λ db. db;
  tree_state = λ db. record { name = []; size = length db; file_count = 1; levels = [] };
  close_db = λ db. (true, db);
}

abbrev start : Progress last_key
start = record {
  db = [];
  ok = true;
  ith_op = 0;
  buffer = new_buffer 100;
  stats = new_buffer 100;
  times = no_times;
  screen = [];
}

-- Each operation takes as many nanoseconds as there were operations before it.
abbrev counting : Timer
counting = record { per_op_timer = true; elapsed = λ i. i }

abbrev resting : Timer
resting = record counting { per_op_timer = false }

-- `I x 1`, `Q  a`, an empty line, and one that is not reached.
abbrev pub insert_line : Text
insert_line = 73 ∷ 32 ∷ 120 ∷ 32 ∷ 49 ∷ []

abbrev pub more_lines : List Text
more_lines = (81 ∷ 32 ∷ 32 ∷ 97 ∷ []) ∷ [] ∷ (68 ∷ []) ∷ []

abbrev pub lines : List Text
lines = insert_line ∷ more_lines

abbrev pub requests : List Request
requests = insert (120 ∷ []) (49 ∷ []) ∷ query (97 ∷ []) ∷ []

pub insert_read : read_request insert_line ≡ some (insert (120 ∷ []) (49 ∷ []))
unfolding read_request request_of next_word split_word skip_spaces
insert_read = refl

pub lines_read : requests_of lines ≡ some requests
unfolding requests_of read_request request_of next_word split_word skip_spaces
lines_read = refl

run_lines-requests_of_example :
    (x : Text) × (run_lines last_key counting exact_double fraction_text new_env 0 start lines
      ≡ some (record (perform_all last_key counting start requests) { screen = x }))
    × ((perform_all last_key counting start requests).ith_op ≡ (0 + length requests) % 2 ^ 64)
run_lines-requests_of_example =
    run_lines-requests_of exact_double exact_double-IsExact fraction_text new_env 0
      (off-IsShowable exact_double new_env exact_double-IsExact refl) last_key counting lines start
      requests lines_read (omega arith) (λ on. cc)

perform_all-forgets_status_example :
    (perform_all last_key counting
      (record start { ok = false })
      (requests ++ query (97 ∷ []) ∷ [])).ok
    ≡ (perform_all last_key counting start (requests ++ query (97 ∷ []) ∷ [])).ok
perform_all-forgets_status_example =
    perform_all-forgets_status last_key counting start false requests (query (97 ∷ [])) refl

perform_all-retimed_example :
    (b : Buffer) × (ts : ExecTimes) × (perform_all last_key resting start requests
      ≡ record (perform_all last_key counting start requests) { stats = b; times = ts })
perform_all-retimed_example = perform_all-retimed last_key counting resting requests start
