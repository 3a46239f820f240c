-- ===== src/Workload/Tests/Runs.antt =====
-- Whole runs of that workload, and of the program.
use lsm_workload_aware_compa.Prelude.{◌≡◌, refl, true, false, none, some, [], ◌∷◌, arith}
use lsm_workload_aware_compa.Double.{exact_double, exact_double-IsExact}
use lsm_workload_aware_compa.Buffer.{Text}
use lsm_workload_aware_compa.Env.{DbEnv}
use lsm_workload_aware_compa.Env.Defaults.{new_env}
use lsm_workload_aware_compa.Env.Config.{
  Setup, with_filter, config_cache, finish_config, config_options,
}
use lsm_workload_aware_compa.Env.Samples.{setup_of}
use lsm_workload_aware_compa.Env.Arguments.{
  parse_error, parsed, returns, given, int_of_double, apply_arguments, parse_arguments,
}
use lsm_workload_aware_compa.Env.Parsing.{no_flags}
use lsm_workload_aware_compa.Env.Instance.{get_instance}
use lsm_workload_aware_compa.Workload.Program.{IsDone, main-IsDone}
use lsm_workload_aware_compa.Utils.Samples.{fraction_text}
use lsm_workload_aware_compa.Utils.Reports.{Counters}
use lsm_workload_aware_compa.Workload.{Progress}
use lsm_workload_aware_compa.Workload.Requests.{insert}
use lsm_workload_aware_compa.Workload.Lines.{perform_all}
use lsm_workload_aware_compa.Workload.Showing.{IsShowable, off-IsShowable}
use lsm_workload_aware_compa.Workload.Run.{no_times, count_operations, timer, run_workload}
use lsm_workload_aware_compa.Workload.Run
use lsm_workload_aware_compa.Workload.Whole.{IsLeft, run_workload-IsLeft, run_workload-few}
use lsm_workload_aware_compa.Workload.Tests.{
  last_key, requests, lines, lines_read, insert_line, more_lines, insert_read,
}

abbrev showing : DbEnv
showing = record new_env { show_progress_bar = true }

abbrev no_counters : Text → Counters exact_double
no_counters db = record { tickers = []; histograms = []; perf_context = []; iostats_context = [] }

-- What configOptions makes of an environment without a block cache.
abbrev configured : DbEnv → Setup
configured e = finish_config (setup_of e) (record (with_filter (setup_of e)) {
  no_block_cache = true;
  cache_index_and_filter_blocks = false;
})

abbrev timing : DbEnv
timing = record new_env { is_per_op_timer = true }

timing-configured : config_options (setup_of timing) ≡ some (configured timing)
unfolding config_options config_cache
timing-configured = refl

showing-configured : config_options (setup_of showing) ≡ some (configured showing)
unfolding config_options config_cache
showing-configured = refl

run_workload-few_example :
    run_workload last_key exact_double fraction_text false
      (λ i. i)
      no_counters
      (setup_of showing)
      []
      (some lines)
      9
      []
    ≡ none
unfolding finish_config
run_workload-few_example =
    run_workload-few last_key exact_double fraction_text false (λ i. i) no_counters
      (setup_of showing) (configured showing) [] [] insert_line more_lines
      (insert (120 ∷ []) (49 ∷ [])) 9 [] exact_double-IsExact showing-configured refl refl
      (omega arith) refl insert_read

abbrev left_by_loop : Progress last_key
left_by_loop =
    perform_all last_key (timer (λ i. i) (configured timing).env)
      (Run.loop_start last_key exact_double fraction_text (configured timing).env [] []) requests

timing-IsShowable :
    IsShowable exact_double (configured timing).env (count_operations (configured timing).env lines)
unfolding finish_config
timing-IsShowable = off-IsShowable exact_double (configured timing).env exact_double-IsExact refl

run_workload-IsLeft_example :
    (q : Progress last_key) × (run_workload last_key exact_double fraction_text false
        (λ i. i)
        no_counters
        (setup_of timing)
        []
        (some lines)
        9
        []
      ≡ some (0, q))
    × IsLeft last_key exact_double fraction_text false
        (λ i. i)
        no_counters
        (configured timing).env
        9
        requests
        left_by_loop
        q
run_workload-IsLeft_example =
    run_workload-IsLeft last_key exact_double fraction_text false (λ i. i) no_counters
      exact_double-IsExact (setup_of timing) (configured timing) [] [] lines 9 [] timing-configured
      refl requests lines_read timing-IsShowable (λ on. cc)

-- A command line that cannot be parsed ends the program before the database is touched.
refused :
    Run.main last_key exact_double fraction_text false
      (λ i. i)
      no_counters
      (setup_of timing)
      none
      parse_error
      []
      (some lines)
      9
      []
    ≡ some (record { code = 1; left = none })
unfolding Run.main parse_arguments
refused = refl

-- Without flags, and with the defaults.
program_parsed : parse_arguments (parsed no_flags) (get_instance none).0 ≡ some (returns 0 new_env)
unfolding parse_arguments apply_arguments given int_of_double get_instance
program_parsed = refl

main-IsDone_example :
    (q : Progress last_key) × (Run.main last_key exact_double fraction_text false
        (λ i. i)
        no_counters
        (setup_of timing)
        none
        (parsed no_flags)
        []
        (some lines)
        9
        []
      ≡ some (record { code = 0; left = some q }))
    × IsDone last_key exact_double fraction_text
        (λ i. i)
        no_counters
        (setup_of timing)
        new_env
        0
        []
        9
        []
        requests
        q
main-IsDone_example =
    main-IsDone last_key exact_double fraction_text (λ i. i) no_counters (setup_of timing) none
      no_flags new_env 0 [] lines requests 9 [] exact_double-IsExact program_parsed refl
      (omega arith) (omega arith) refl (λ s found. ([], refl)) lines_read
