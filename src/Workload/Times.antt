-- ===== src/Workload/Times.antt =====
-- The timers: what the sums and the log of the single times hold behind the loop.
use lsm_workload_aware_compa.Prelude.{
  ℕ, ◌+◌, ◌%◌, ◌^◌, ◌<◌, ◌≡◌, refl, ap, ◌∙◌, Bool, true, false, Option, none, some, List, [], ◌∷◌,
  ◌++◌, arith, if◌then◌else◌, ◌==◌,
}
use lsm_workload_aware_compa.Buffer.{Text, Buffer}
use lsm_workload_aware_compa.Buffer.Stream.{concat}
use lsm_workload_aware_compa.Buffer.Adding.{Adds, Adds-then, Adds-nothing, put_all-Adds}
use lsm_workload_aware_compa.Utils.Decimal.{newline, decimal}
use lsm_workload_aware_compa.Workload.{
  Kind, inserts, updates, point_queries, point_deletes, range_queries, kind_of, label, ExecTimes,
  charge, Database, Timer, Progress, log_time, sum_time, perform, record_time, step,
}
use lsm_workload_aware_compa.Workload.Requests.{
  Request, insert, update, delete_range, scan, delete, query, no_match,
}
use lsm_workload_aware_compa.Workload.Lines.{perform_all, counted}

abbrev pub time_of : ExecTimes → Kind → ℕ
time_of ts inserts = ts.inserts_exec_time
time_of ts updates = ts.updates_exec_time
time_of ts point_queries = ts.pq_exec_time
time_of ts point_deletes = ts.pdelete_exec_time
time_of ts range_queries = ts.rq_exec_time

abbrev number : Kind → ℕ
number inserts = 0
number updates = 1
number point_queries = 2
number point_deletes = 3
number range_queries = 4

abbrev pub is_kind : Kind → Option Kind → Bool
is_kind k none = false
is_kind k (some j) = number j == number k

-- The time of the operations of a kind, from the `i`-th operation on.
unfoldable pub time_spent : (ℕ → ℕ) → Kind → ℕ → List Request → ℕ
time_spent elapsed k i [] = 0
time_spent elapsed k i (r ∷ rs) =
    (if is_kind k (kind_of r) then elapsed i else 0) + time_spent elapsed k ((i + 1) % 2 ^ 64) rs

abbrev time_line : (ℕ → ℕ) → ℕ → Option Kind → Text
time_line elapsed i none = []
time_line elapsed i (some k) = label k ++ (decimal (elapsed i) ++ (newline ++ []))

-- The line of each timed operation, from the `i`-th on.
unfoldable pub time_lines : (ℕ → ℕ) → ℕ → List Request → Text
time_lines elapsed i [] = []
time_lines elapsed i (r ∷ rs) =
    time_line elapsed i (kind_of r) ++ time_lines elapsed ((i + 1) % 2 ^ 64) rs

time_of-charge :
    (j k : Kind) (n : ℕ) (ts : ExecTimes)
    → time_of ts k < 2 ^ 64
    → time_of (charge j n ts) k ≡ (time_of ts k + (if number j == number k then n else 0)) % 2 ^ 64
unfolding charge
time_of-charge inserts k n ts h = grind arith
time_of-charge _ k n ts h = grind arith

sum_time-time_of :
    (t : Timer) (k : Kind) (i : ℕ) (o : Option Kind) (ts : ExecTimes)
    → t.per_op_timer ≡ true
    → time_of ts k < 2 ^ 64
    → time_of (sum_time t i o ts) k
      ≡ (time_of ts k + (if is_kind k o then t.elapsed i else 0)) % 2 ^ 64
unfolding sum_time
sum_time-time_of t k i none ts on h = omega arith
sum_time-time_of t k i (some j) ts on h = rw on (time_of-charge j k (t.elapsed i) ts h)

log_time-Adds :
    (t : Timer) (i : ℕ) (o : Option Kind) (b : Buffer)
    → t.per_op_timer ≡ true
    → Adds b (log_time t i o b) (time_line t.elapsed i o)
unfolding log_time concat
log_time-Adds t i none b on = Adds-nothing b
log_time-Adds t i (some k) b on =
    rw on (put_all-Adds b (label k ∷ decimal (t.elapsed i) ∷ newline ∷ []))

module _ (d : Database) (t : Timer) where
  step-timed :
      (p : Progress d) (r : Request)
      → ((step d t p r).times ≡ sum_time t p.ith_op (kind_of r) p.times)
        × ((step d t p r).stats ≡ log_time t p.ith_op (kind_of r) p.stats)
  unfolding step perform record_time
  step-timed p (insert key value) = (refl, refl)
  step-timed p (update key value) = (refl, refl)
  step-timed p (delete key) = (refl, refl)
  step-timed p (query key) = (refl, refl)
  step-timed p (scan start_key end_key) = (refl, refl)
  step-timed p (delete_range start_key end_key) = (refl, refl)
  step-timed p no_match = (refl, refl)

  module _ (on : t.per_op_timer ≡ true) where
    all_time_of :
        (k : Kind) (rs : List Request) (p : Progress d)
        → time_of p.times k < 2 ^ 64
        → time_of (perform_all d t p rs).times k
          ≡ (time_of p.times k + time_spent t.elapsed k p.ith_op rs) % 2 ^ 64
    unfolding perform_all time_spent
    all_time_of k [] p h = omega arith
    all_time_of k (r ∷ rs) p h =
        let q = step d t p r in
        let here : time_of q.times k
            ≡ (time_of p.times k + (if is_kind k (kind_of r) then t.elapsed p.ith_op else 0))
              % 2 ^ 64 =
          ap (λ ts. time_of ts k) (step-timed p r).0
          ∙ sum_time-time_of t k p.ith_op (kind_of r) p.times on h in
        let later = all_time_of k rs q (omega (arith, here)) in
        let at : time_spent t.elapsed k q.ith_op rs
            ≡ time_spent t.elapsed k ((p.ith_op + 1) % 2 ^ 64) rs =
          ap (λ i. time_spent t.elapsed k i rs) (counted d t p r) in
        omega (arith, here, later, at)

    all_lines :
        (rs : List Request) (p : Progress d)
        → Adds p.stats (perform_all d t p rs).stats (time_lines t.elapsed p.ith_op rs)
    unfolding perform_all time_lines
    all_lines [] p = Adds-nothing p.stats
    all_lines (r ∷ rs) p =
        let first : Adds p.stats (step d t p r).stats (time_line t.elapsed p.ith_op (kind_of r)) =
          rw (step-timed p r).1 (log_time-Adds t p.ith_op (kind_of r) p.stats on) in
        let later : Adds (step d t p r).stats (perform_all d t (step d t p r) rs).stats
            (time_lines t.elapsed ((p.ith_op + 1) % 2 ^ 64) rs) =
          rw (← counted d t p r) (all_lines rs (step d t p r)) in
        Adds-then first later

    pub perform_all-timed :
        (requests : List Request) (p : Progress d)
        → ((k : Kind) → time_of p.times k < 2 ^ 64)
        → ((k : Kind)
            → time_of (perform_all d t p requests).times k
              ≡ (time_of p.times k + time_spent t.elapsed k p.ith_op requests) % 2 ^ 64)
          × Adds p.stats (perform_all d t p requests).stats (time_lines t.elapsed p.ith_op requests)
    perform_all-timed requests p h = (λ k. all_time_of k requests p (h k), all_lines requests p)

  untimed :
      (i : ℕ) (o : Option Kind) (b : Buffer) (ts : ExecTimes)
      → t.per_op_timer ≡ false
      → (sum_time t i o ts ≡ ts) × (log_time t i o b ≡ b)
  unfolding sum_time log_time
  untimed i none b ts off = (refl, refl)
  untimed i (some k) b ts off = rw off (refl, refl)

  -- With that timer off, the sums and the log of single times stay as they are.
  pub perform_all-untimed :
      (requests : List Request) (p : Progress d)
      → t.per_op_timer ≡ false
      → ((perform_all d t p requests).times ≡ p.times)
        × ((perform_all d t p requests).stats ≡ p.stats)
  unfolding perform_all
  perform_all-untimed [] p off = (refl, refl)
  perform_all-untimed (r ∷ rs) p off =
      let (times, stats) = perform_all-untimed rs (step d t p r) off in
      let (same_times, same_stats) = untimed p.ith_op (kind_of r) p.stats p.times off in
      (times ∙ (step-timed p r).0 ∙ same_times, stats ∙ (step-timed p r).1 ∙ same_stats)

module _ (d : Database) (t t' : Timer) where
  step-retimed :
      (p : Progress d) (b : Buffer) (ts : ExecTimes) (r : Request)
      → let q = step d t' (record p { stats = b; times = ts }) r in
        q ≡ record (step d t p r) { stats = q.stats; times = q.times }
  unfolding step perform record_time
  step-retimed p b ts (insert key value) = refl
  step-retimed p b ts (update key value) = refl
  step-retimed p b ts (delete key) = refl
  step-retimed p b ts (query key) = refl
  step-retimed p b ts (scan start_key end_key) = refl
  step-retimed p b ts (delete_range start_key end_key) = refl
  step-retimed p b ts no_match = refl

  all_retimed :
      (requests : List Request) (p : Progress d) (b : Buffer) (ts : ExecTimes)
      → (b' : Buffer) × (ts' : ExecTimes) × (perform_all d t'
            (record p { stats = b; times = ts })
            requests
          ≡ record (perform_all d t p requests) { stats = b'; times = ts' })
  unfolding perform_all
  all_retimed [] p b ts = (b, ts, refl)
  all_retimed (r ∷ rs) p b ts =
      let q = step d t' (record p { stats = b; times = ts }) r in
      let (b', ts', same) = all_retimed rs (step d t p r) q.stats q.times in
      (b', ts', ap (λ z. perform_all d t' z rs) (step-retimed p b ts r) ∙ same)

  -- Timing makes no difference to the rest: with another timer and clock, the loop leaves the same
  -- database, status, count, log and screen.
  pub perform_all-retimed :
      (requests : List Request) (p : Progress d)
      → (b : Buffer) × (ts : ExecTimes) × (perform_all d t' p requests
          ≡ record (perform_all d t p requests) { stats = b; times = ts })
  perform_all-retimed requests p = all_retimed requests p p.stats p.times
