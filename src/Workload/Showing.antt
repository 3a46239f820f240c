-- ===== src/Workload/Showing.antt =====
-- The loop with its progress bar: when the bar can be drawn, what the loop does, and when it divides by
-- zero.
use lsm_workload_aware_compa.Prelude.{
  ℕ, suc, ◌+◌, ◌%◌, ◌^◌, ◌≤◌, ◌<◌, ◌≡◌, refl, ap, ◌∙◌, true, false, ◌||◌, none, some, List, [], ◌∷◌,
  ◌++◌, arith, is_empty, length, ◌>>=◌, >>=-eq-some, some_inj, Bool-cases, inl, inr, lt→ltb, ◌==◌,
}
use lsm_workload_aware_compa.Double.{DoubleOps, IsExact, exact_limit}
use lsm_workload_aware_compa.Buffer.{Text}
use lsm_workload_aware_compa.Env.{DbEnv}
use lsm_workload_aware_compa.Utils.{
  DoubleText, size_of_double, bar_text, bar_line, update_progress_bar,
}
use lsm_workload_aware_compa.Workload.{
  Database, Timer, Progress, step, update_interval, show_progress, run_lines,
}
use lsm_workload_aware_compa.Workload.Requests.{Request, read_request}
use lsm_workload_aware_compa.Workload.Lines.{
  requests_of, perform_all, counted, all_screen, count_in_order,
}

module _ (fp : DoubleOps) (e : DbEnv) (total_operations : ℕ) where
  -- The interval between two updates can be computed, and is not zero if the bar is on.
  pub record IsShowable : Type 0 where
    pub interval : ℕ
    pub found : update_interval fp total_operations ≡ some interval
    pub positive : e.show_progress_bar ≡ true → 0 < interval
    pub fits : total_operations < exact_limit

-- With fewer than 50 lines the interval is zero.
update_interval_small :
    (fp : DoubleOps) (n : ℕ) → IsExact fp → n < 50 → update_interval fp n ≡ some 0
unfolding update_interval size_of_double
update_interval_small fp n e few =
    let same : n % 2 ^ 32 ≡ n = omega arith in
    rw same (
      rw (lt→ltb n (2 ^ 31) (omega arith))
        (rw (e.truncate_mul_small n 2 100 (omega arith) (omega arith)) refl))

-- With the bar off, there is nothing to fear.
pub off-IsShowable :
    (fp : DoubleOps) (env : DbEnv)
    → IsExact fp
    → env.show_progress_bar ≡ false
    → IsShowable fp env 0
off-IsShowable fp env e off = record {
  interval = 0;
  found = update_interval_small fp 0 e (omega arith);
  positive = λ on. cc;
  fits = omega arith;
}

one_more : (i j n total : ℕ) → j ≡ i + 1 → i + suc n ≤ total → (0 < j) × (j ≤ total)
one_more i j n total e h = (omega arith, omega arith)

module _ (fp : DoubleOps) (e : IsExact fp) (print : DoubleText fp) where
  bar_line_found :
      (current total w : ℕ)
      → current ≤ total
      → 0 < total
      → total < exact_limit
      → w < exact_limit
      → (line : Text) × (bar_line fp print current total w ≡ some line)
  unfolding bar_line size_of_double
  bar_line_found current total w within some_ops small narrow =
      let (m, part, below) = e.truncate_mul_part w current total within some_ops narrow small in
      (
        bar_text fp print (fp.div (fp.of_int current) (fp.of_int total)) w m,
        rw part (rw (lt→ltb m (2 ^ 64) (omega arith)) refl),
      )

  module _ (env : DbEnv) (total : ℕ) (h : IsShowable fp env total) where
    update_found :
        (current : ℕ) (screen : Text)
        → (env.show_progress_bar ≡ true → (0 < current) × (current ≤ total))
        → (x : Text) × (update_progress_bar fp print env current total h.interval 50 screen
            ≡ some x)
    unfolding update_progress_bar
    update_found current screen room = elim (Bool-cases env.show_progress_bar) [
      | inr off ↦ (screen, rw off refl)
      | inl on ↦
          let (some_ops, within) = room on in
          let (line, drawn) =
            bar_line_found current total 50 within (omega arith) h.fits (omega arith) in
          let nonzero : (h.interval == 0) ≡ false = ground (arith, h.positive on) in
          elim (Bool-cases ((current % h.interval == 0) || (current == total))) [
            | inl due ↦ (screen ++ line, rw on (rw nonzero (rw due (rw drawn refl))))
            | inr between ↦ (screen, rw on (rw nonzero (rw between refl)))
          ]
    ]

    module _ (d : Database) (t : Timer) where
      counted_one :
          (p : Progress d) (request : Request) (n : ℕ)
          → p.ith_op + suc n ≤ total
          → (step d t p request).ith_op ≡ p.ith_op + 1
      counted_one p request n room = omega (arith, counted d t p request, h.fits)

      show_found :
          (p : Progress d) (request : Request) (n : ℕ)
          → (env.show_progress_bar ≡ true → p.ith_op + suc n ≤ total)
          → (x : Text) × (show_progress d t fp print env total (step d t p request)
              ≡ some (record (step d t p request) { screen = x }))
      unfolding show_progress
      show_found p request n room =
          let q = step d t p request in
          let (x, drawn) = update_found q.ith_op q.screen (λ on.
            one_more p.ith_op q.ith_op n total (counted_one p request n (room on)) (room on)) in
          (x, rw (h.found, drawn) refl)

      run_one :
          (line : Text) (lines : List Text) (p q : Progress d) (request : Request)
          → is_empty line ≡ false
          → read_request line ≡ some request
          → show_progress d t fp print env total (step d t p request) ≡ some q
          → run_lines d t fp print env total p (line ∷ lines)
            ≡ run_lines d t fp print env total q lines
      unfolding run_lines
      run_one line lines p q request filled read shown = rw (filled, read) (rw shown refl)

      run_in_order :
          (lines : List Text) (p : Progress d) (requests : List Request)
          → requests_of lines ≡ some requests
          → (env.show_progress_bar ≡ true → p.ith_op + length lines ≤ total)
          → (x : Text) × (run_lines d t fp print env total p lines
              ≡ some (record (perform_all d t p requests) { screen = x }))
      unfolding requests_of run_lines perform_all
      run_in_order [] p requests r room = (p.screen, rw (← some_inj r) refl)
      run_in_order (line ∷ lines) p requests r room = elim (Bool-cases (is_empty line)) [
        | inl blank ↦
            let same : some [] ≡ some requests = rw blank at r in
            (p.screen, rw (blank, ← some_inj same) refl)
        | inr filled ↦
            let (request, read, r1) =
              >>=-eq-some (read_request line) (λ a. requests_of lines >>= λ rs. some (a ∷ rs))
                (rw filled at r) in
            let (others, rest, r2) =
              >>=-eq-some (requests_of lines) (λ rs. some (request ∷ rs)) r1 in
            let q = step d t p request in
            let (x, shown) = show_found p request (length lines) room in
            let (y, ended) =
              run_in_order lines (record q { screen = x }) others rest
                (λ on. omega (arith, counted_one p request (length lines) (room on), room on)) in
            (
              y,
              run_one line lines p (record q { screen = x }) request filled read shown
                  ∙ ended
                  ∙ ap (λ (z : Progress d). some (record z { screen = y }))
                      (all_screen d t others q x)
                  ∙ ap (λ rs. some (record (perform_all d t p rs) { screen = y })) (some_inj r2),
            )
      ]

      -- The loop performs the requests of the lines in front of the first empty one, in their order and
      -- each once, and counts them, whatever the bar shows, if none of these lines is all white space, the
      -- interval of the bar can be computed and, where the bar is on, is not zero, and there are not more
      -- lines than are counted for the bar. By the arithmetic of IEEE 754.
      pub run_lines-requests_of :
          (lines : List Text) (p : Progress d) (requests : List Request)
          → requests_of lines ≡ some requests
          → p.ith_op < 2 ^ 64
          → (env.show_progress_bar ≡ true → p.ith_op + length lines ≤ total)
          → (x : Text) × (run_lines d t fp print env total p lines
              ≡ some (record (perform_all d t p requests) { screen = x }))
            × ((perform_all d t p requests).ith_op ≡ (p.ith_op + length requests) % 2 ^ 64)
      run_lines-requests_of lines p requests r small room =
          let (x, ran) = run_in_order lines p requests r room in
          (x, ran, count_in_order d t requests p small)

module _ (fp : DoubleOps) (e : IsExact fp) (print : DoubleText fp) (env : DbEnv) (d : Database)
    (t : Timer) where
  -- With the progress bar on, a workload with fewer than 50 lines, whose first line asks for an operation,
  -- ends in a division by zero behind that operation: the interval, 2 % of the lines, is rounded to zero.
  pub run_lines-few :
      (line : Text) (lines : List Text) (p : Progress d) (request : Request)
      → env.show_progress_bar ≡ true
      → length (line ∷ lines) < 50
      → is_empty line ≡ false
      → read_request line ≡ some request
      → run_lines d t fp print env (length (line ∷ lines)) p (line ∷ lines) ≡ none
  unfolding run_lines show_progress update_progress_bar
  run_lines-few line lines p request on few filled read =
      rw (filled, read) (rw (update_interval_small fp (length (line ∷ lines)) e few) (rw on refl))
