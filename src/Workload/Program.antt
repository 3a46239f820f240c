-- ===== src/Workload/Program.antt =====
-- The program as a whole: main (src/working_version.cc) from the command line to the closed database.
use mathlib.Core.Path.{subst}
use lsm_workload_aware_compa.Prelude.{
  ℕ, ◌^◌, ◌<◌, ◌≡◌, refl, sym, ap, length, ◌∙◌, false, Option, some, List, if◌then◌else◌,
}
use lsm_workload_aware_compa.Prelude.Int.{pos}
use lsm_workload_aware_compa.Double.{DoubleOps, IsExact}
use lsm_workload_aware_compa.Buffer.{Text}
use lsm_workload_aware_compa.Env.{DbEnv}
use lsm_workload_aware_compa.Env.Config.{Setup}
use lsm_workload_aware_compa.Env.Instance.{get_instance}
use lsm_workload_aware_compa.Env.Arguments.{Arguments, parsed, returns, parse_arguments}
use lsm_workload_aware_compa.Env.Parsing.{IsRatio, parse_arguments-IsRatio}
use lsm_workload_aware_compa.Env.Configured.{
  IsSized, IsCached, config_options_settles, config_options-show_progress_bar,
}
use lsm_workload_aware_compa.Utils.{DoubleText}
use lsm_workload_aware_compa.Utils.Reports.{Counters}
use lsm_workload_aware_compa.Workload.{Database, Progress}
use lsm_workload_aware_compa.Workload.Requests.{Request}
use lsm_workload_aware_compa.Workload.Lines.{requests_of, perform_all}
use lsm_workload_aware_compa.Workload.Showing.{IsShowable, off-IsShowable}
use lsm_workload_aware_compa.Workload.Run.{count_operations, timer, loop_start, continue, main}
use lsm_workload_aware_compa.Workload.Whole.{IsLeft, run_workload-IsLeft}

module _ (d : Database) (fp : DoubleOps) (print : DoubleText fp) (elapsed : ℕ → ℕ)
    (counters : d.Db → Counters fp) where
  shown_off :
      (e : DbEnv) (lines : List Text)
      → IsExact fp
      → e.show_progress_bar ≡ false
      → IsShowable fp e (count_operations e lines)
  shown_off e lines exact off =
      subst (IsShowable fp e) (sym (ap (λ b. if b then length lines else 0) off))
        (off-IsShowable fp e exact off)

  -- What a program that has ended with code 0 has done, in a build without assertions: the sizes of its
  -- options fit the environment that the command line has left, the database has been opened with these
  -- options, and the run has left it and the logs as IsLeft says.
  pub record IsDone (s : Setup) (e : DbEnv) (m : ℕ) (disk : d.Disk) (n : ℕ) (screen : Text)
      (requests : List Request) (q : Progress d) : Type 0 where
    pub configured : Setup
    pub db : d.Db
    pub ratio : IsRatio e
    pub cached : IsCached (record s { env = e }) m configured
    pub sized : IsSized e configured.options configured.table_options
    pub opened :
        d.open_db configured
          (if configured.env.destroy_database then d.destroy_db configured disk else disk)
        ≡ some db
    pub done :
        IsLeft d fp print false elapsed counters configured.env n requests
          (perform_all d
            (timer elapsed configured.env)
            (loop_start d fp print configured.env db screen)
            requests)
          q

  -- The program, in a build without assertions, with a database that can be opened, a workload file that can
  -- be read and has no line of white space alone in front of the first empty one, a block cache below 2 GB,
  -- a buffer size that fits 64 bits, and the progress bar off: if the command line is accepted, main ends
  -- with code 0, and all of its parts have done their work (IsDone). By the arithmetic of IEEE 754.
  pub main-IsDone :
      (s : Setup) (instance_ : Option DbEnv) (a : Arguments) (e : DbEnv) (m : ℕ) (disk : d.Disk)
      (lines : List Text) (requests : List Request) (n : ℕ) (screen : Text)
      → IsExact fp
      → parse_arguments (parsed a) (get_instance instance_).0 ≡ some (returns 0 e)
      → e.table.block_cache ≡ pos m
      → m < 2 ^ 11
      → e.buffer_size < 2 ^ 64
      → e.show_progress_bar ≡ false
      → ((configured : Setup) (found : d.Disk)
          → (db : d.Db) × (d.open_db configured found ≡ some db))
      → requests_of lines ≡ some requests
      → (q : Progress d) × (main d fp print false elapsed counters s instance_
            (parsed a)
            disk
            (some lines)
            n
            screen
          ≡ some (record { code = 0; left = some q }))
        × IsDone s e m disk n screen requests q
  unfolding main continue
  main-IsDone s instance_ a e m disk lines requests n screen exact accepted is_m small fits off
        opens read =
      let (configured, config, cached, sized) =
        config_options_settles (record s { env = e }) m is_m small fits in
      let off' : configured.env.show_progress_bar ≡ false =
        config_options-show_progress_bar (record s { env = e }) configured config ∙ off in
      let (db, opened) =
        opens configured
          (if configured.env.destroy_database then d.destroy_db configured disk else disk) in
      let (q, ran, done) =
        run_workload-IsLeft d fp print false elapsed counters exact (record s { env = e })
          configured disk db lines n screen config opened requests read
          (shown_off configured.env lines exact off') (λ on. cc) in
      (
        q,
        rw accepted (rw ran refl),
        record {
          configured = configured;
          db = db;
          ratio = parse_arguments-IsRatio a (get_instance instance_).0 e accepted;
          cached = cached;
          sized = sized;
          opened = opened;
          done = done;
        },
      )
