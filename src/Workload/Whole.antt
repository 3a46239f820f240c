-- ===== src/Workload/Whole.antt =====
-- What a whole run leaves: the database, and the two logs.
use lsm_workload_aware_compa.Prelude.{
  ℕ, ◌^◌, ◌<◌, ◌≡◌, refl, ap, ◌∙◌, Bool, true, false, none, some, List, [], ◌∷◌, ◌++◌, arith,
  if◌then◌else◌, length, Bool-cases, inl, inr, is_empty,
}
use lsm_workload_aware_compa.Double.{DoubleOps, IsExact}
use lsm_workload_aware_compa.Buffer.{Text, flush}
use lsm_workload_aware_compa.Buffer.Stream.{contents, flush-contents}
use lsm_workload_aware_compa.Env.{DbEnv}
use lsm_workload_aware_compa.Env.Config.{Setup, config_options}
use lsm_workload_aware_compa.Utils.{DoubleText}
use lsm_workload_aware_compa.Utils.Reports.{Counters, print_rocksdb_perf_stats}
use lsm_workload_aware_compa.Workload.{Kind, inserts, Database, Progress, close_after}
use lsm_workload_aware_compa.Workload.Requests.{Request, read_request}
use lsm_workload_aware_compa.Workload.Lines.{requests_of, perform_all}
use lsm_workload_aware_compa.Workload.Showing.{IsShowable, run_lines-requests_of, run_lines-few}
use lsm_workload_aware_compa.Workload.Times.{
  time_of, time_lines, perform_all-timed, perform_all-untimed,
}
use lsm_workload_aware_compa.Workload.Run.{
  no_times, open_workload, count_operations, timer, loop_start, log_end, finish, run_workload,
}
use lsm_workload_aware_compa.Workload.Ending.{end_text, log_end-Adds}

eq_if :
    (b : Bool) {x y z : Text} → (b ≡ true → x ≡ y) → (b ≡ false → x ≡ z) → x ≡ (if b then y else z)
eq_if true on off = on refl
eq_if false on off = off refl

none_yet : (k : Kind) → time_of no_times k < 2 ^ 64
none_yet inserts = omega arith
none_yet _ = omega arith

stats_of_run :
    (d : Database) (fp : DoubleOps) (print : DoubleText fp) (elapsed : ℕ → ℕ) (e : DbEnv)
    (db : d.Db) (screen : Text) (requests : List Request)
    → contents (perform_all d (timer elapsed e) (loop_start d fp print e db screen) requests).stats
      ≡ (if e.is_per_op_timer then time_lines elapsed 0 requests else [])
stats_of_run d fp print elapsed e db screen requests =
    let t = timer elapsed e in
    let p = loop_start d fp print e db screen in
    eq_if e.is_per_op_timer
      (λ on. let (_, lines) = perform_all-timed d t on requests p none_yet in lines.added)
      (λ off. let (_, same) = perform_all-untimed d t requests p off in ap contents same)

module _ (d : Database) (fp : DoubleOps) (print : DoubleText fp) (asserts : Bool) (elapsed : ℕ → ℕ)
    (counters : d.Db → Counters fp) where
  -- What a run leaves, from what the loop has left: the closed database, behind a flush of its memtable;
  -- nothing pending in either log, where the end of the log is its summary; and a log of single times with
  -- a line for each timed operation, if that timer is on.
  pub record IsLeft (e : DbEnv) (n : ℕ) (requests : List Request) (p q : Progress d) : Type 0 where
    pub closed : q.db ≡ (d.close_db (d.get_live_files p.db)).1
    pub flushed : q.buffer.pending ≡ []
    pub logged :
        q.buffer.written
        ≡ contents p.buffer
          ++ end_text fp print e n (d.tree_state (d.get_live_files p.db)) p.times (counters q.db)
    pub stats_flushed : q.stats.pending ≡ []
    pub stats_logged :
        q.stats.written ≡ (if e.is_per_op_timer then time_lines elapsed 0 requests else [])

  -- The statuses that the assertions behind the loop see.
  abbrev pub IsAccepted : Progress d → Type 0
  IsAccepted p = asserts ≡ true → (p.ok ≡ true) × ((d.close_db (d.get_live_files p.db)).0 ≡ true)

  close_found :
      (p : Progress d)
      → (asserts ≡ true → (p.ok ≡ true) × ((d.close_db p.db).0 ≡ true))
      → close_after d asserts p
        ≡ some (record p { db = (d.close_db p.db).1; ok = (d.close_db p.db).0 })
  unfolding close_after
  close_found p h = elim (Bool-cases asserts) [
    | inl on ↦ let (ok, closed) = h on in rw on (rw ok (rw closed refl))
    | inr off ↦ rw off refl
  ]

  -- What `finish` leaves.
  left : DbEnv → ℕ → Progress d → Progress d
  left e n p =
      let live = d.get_live_files p.db in
      let closed = d.close_db live in
      record p {
        db = closed.1;
        ok = closed.0;
        buffer = flush (
            print_rocksdb_perf_stats fp print e (counters closed.1)
              (log_end d e n live p.times p.buffer));
        stats = flush p.stats;
      }

  finish_found :
      (e : DbEnv) (n : ℕ) (p : Progress d)
      → IsAccepted p
      → finish d fp print asserts elapsed counters e n p ≡ some (left e n p)
  unfolding finish left
  finish_found e n p h =
      let live = d.get_live_files p.db in
      rw (close_found (record p { db = live; buffer = log_end d e n live p.times p.buffer }) h) refl

  left-IsLeft :
      (e : DbEnv) (n : ℕ) (db : d.Db) (screen x : Text) (requests : List Request)
      → let p = perform_all d (timer elapsed e) (loop_start d fp print e db screen) requests in
        IsLeft e n requests p (left e n (record p { screen = x }))
  unfolding left
  left-IsLeft e n db screen x requests =
      let p = perform_all d (timer elapsed e) (loop_start d fp print e db screen) requests in
      let live = d.get_live_files p.db in
      let c = counters (d.close_db live).1 in
      let reported = print_rocksdb_perf_stats fp print e c (log_end d e n live p.times p.buffer) in
      let (emptied, all) = flush-contents reported in
      let (stats_emptied, stats_all) = flush-contents p.stats in
      record {
        closed = refl;
        flushed = emptied;
        logged = all ∙ (log_end-Adds d fp print e n live p.times c p.buffer).added;
        stats_flushed = stats_emptied;
        stats_logged = stats_all ∙ stats_of_run d fp print elapsed e db screen requests;
      }

  module _ (exact : IsExact fp) (s configured : Setup) (disk : d.Disk) (db : d.Db)
      (lines : List Text) (n : ℕ) (screen : Text) (config : config_options s ≡ some configured)
      (opened : d.open_db configured
          (if configured.env.destroy_database then d.destroy_db configured disk else disk)
        ≡ some db) where
    -- A run returns 0 where the options can be configured, the database be opened, the workload file be
    -- read and the bar be drawn, no line in front of the first empty one is all white space, and, if
    -- assertions are compiled in, the status behind the loop and that of the closing are ok. It has performed
    -- the requests of those lines, and leaves the closed database and the two logs as IsLeft says. By the
    -- arithmetic of IEEE 754.
    pub run_workload-IsLeft :
        (requests : List Request)
        → requests_of lines ≡ some requests
        → IsShowable fp configured.env (count_operations configured.env lines)
        → IsAccepted (
            perform_all d
              (timer elapsed configured.env)
              (loop_start d fp print configured.env db screen)
              requests)
        → (q : Progress d) × (run_workload d fp print asserts elapsed counters s disk
              (some lines)
              n
              screen
            ≡ some (0, q))
          × IsLeft configured.env n requests
              (perform_all d
                (timer elapsed configured.env)
                (loop_start d fp print configured.env db screen)
                requests)
              q
    unfolding run_workload open_workload
    run_workload-IsLeft requests read shows accepted =
        let e = configured.env in
        let p0 = loop_start d fp print e db screen in
        let total = count_operations e lines in
        let p = perform_all d (timer elapsed e) p0 requests in
        let (x, ran, _) =
          run_lines-requests_of fp exact print e total shows d (timer elapsed e) lines p0 requests
            read (omega arith) (λ on. rw on (omega arith)) in
        (
          left e n (record p { screen = x }),
          rw config
              (rw opened (rw ran (rw (finish_found e n (record p { screen = x }) accepted) refl))),
          left-IsLeft e n db screen x requests,
        )

counted_lines :
    (e : DbEnv) (lines : List Text)
    → e.show_progress_bar ≡ true
    → count_operations e lines ≡ length lines
counted_lines e lines on = ap (λ b. if b then length lines else 0) on

module _ (d : Database) (fp : DoubleOps) (print : DoubleText fp) (asserts : Bool) (elapsed : ℕ → ℕ)
    (counters : d.Db → Counters fp) where
  -- A run with the progress bar on and a workload of fewer than 50 lines, whose first line asks for an
  -- operation, does not get to its end, although the options can be configured and the database can be
  -- opened: it divides by zero. By the arithmetic of IEEE 754.
  pub run_workload-few :
      (s configured : Setup) (disk : d.Disk) (db : d.Db) (line : Text) (lines : List Text)
      (request : Request) (n : ℕ) (screen : Text)
      → IsExact fp
      → config_options s ≡ some configured
      → d.open_db configured
          (if configured.env.destroy_database then d.destroy_db configured disk else disk)
        ≡ some db
      → configured.env.show_progress_bar ≡ true
      → length (line ∷ lines) < 50
      → is_empty line ≡ false
      → read_request line ≡ some request
      → run_workload d fp print asserts elapsed counters s disk (some (line ∷ lines)) n screen
        ≡ none
  unfolding run_workload open_workload
  run_workload-few s configured disk db line lines request n screen exact config opened on few
        filled read =
      let e = configured.env in
      let stopped =
        run_lines-few fp exact print e d (timer elapsed e) line lines
          (loop_start d fp print e db screen) request on few filled read in
      rw config (rw opened (rw (counted_lines e (line ∷ lines) on) (rw stopped refl)))
