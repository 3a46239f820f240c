-- ===== src/Utils/Bar.antt =====
-- The progress bar: its shape, and what the last update shows.
use lsm_workload_aware_compa.Prelude.{
  ℕ, zero, suc, ◌+◌, ◌-◌, ◌%◌, ◌^◌, ◌≤◌, ◌<◌, ◌≡◌, ◌≢◌, ◌⊎◌, refl, sym, ap, ◌∙◌, true, false, some,
  [], ◌∷◌, ◌++◌, arith, Bool-cases, inl, inr, ltb, lt→ltb, ◌==◌, ◌||◌,
}
use lsm_workload_aware_compa.Double.{DoubleOps, IsExact, exact_limit}
use lsm_workload_aware_compa.Buffer.{Text}
use lsm_workload_aware_compa.Env.{DbEnv}
use lsm_workload_aware_compa.Utils.{
  DoubleText, bar_char, draw_bar, size_of_double, bar_text, bar_line, update_progress_bar,
}
use lsm_workload_aware_compa.Utils.Decimal.{codes}

unfoldable pub replicate : ℕ → ℕ → Text
replicate zero c = []
replicate (suc n) c = c ∷ replicate n c

behind_head : (rounds i head : ℕ) → head < i → draw_bar rounds i head ≡ replicate rounds 32
unfolding draw_bar replicate
behind_head zero i head h = refl
behind_head (suc rounds) i head h =
    let e : bar_char i head ≡ 32 = ground arith in
    rw e (ap (◌∷◌ 32) (behind_head rounds (i + 1) head (omega arith)))

before_head : (rounds i head : ℕ) → i + rounds ≤ head → draw_bar rounds i head ≡ replicate rounds 61
unfolding draw_bar replicate
before_head zero i head h = refl
before_head (suc rounds) i head h =
    let e : bar_char i head ≡ 61 = ground arith in
    rw e (ap (◌∷◌ 61) (before_head rounds (i + 1) head (omega arith)))

across_head :
    (done left i head : ℕ)
    → i + done ≡ head
    → draw_bar (done + suc left) i head ≡ replicate done 61 ++ 62 ∷ replicate left 32
unfolding draw_bar replicate
across_head zero left i head h =
    let e : bar_char i head ≡ 62 = ground arith in
    let s : zero + suc left ≡ suc left = omega arith in
    rw s (unfold draw_bar in rw e (ap (◌∷◌ 62) (behind_head left (i + 1) head (omega arith))))
across_head (suc done) left i head h =
    let e : bar_char i head ≡ 61 = ground arith in
    let s : suc done + suc left ≡ suc (done + suc left) = omega arith in
    rw s (unfold draw_bar in rw e (ap (◌∷◌ 61) (across_head done left (i + 1) head (omega arith))))

-- The bar has the given width. Where the head is in it, there are `=` up to the head, a `>` and spaces;
-- where the head is behind it, there are `=` only.
draw_bar-shape :
    (bar_width head : ℕ)
    → ((head < bar_width)
        × (draw_bar bar_width 0 head
            ≡ replicate head 61 ++ 62 ∷ replicate (bar_width - suc head) 32))
      ⊎ ((bar_width ≤ head) × (draw_bar bar_width 0 head ≡ replicate bar_width 61))
draw_bar-shape bar_width head = elim (Bool-cases (ltb head bar_width)) [
  | inl inside ↦
      let below : head < bar_width = ground arith in
      let e : head + suc (bar_width - suc head) ≡ bar_width = omega arith in
      inl (
        below,
        ap (λ w. draw_bar w 0 head) (sym e)
            ∙ across_head head (bar_width - suc head) 0 head (omega arith),
      )
  | inr outside ↦
      let above : bar_width ≤ head = ground arith in
      inr (above, before_head bar_width 0 head (omega arith))
]

module _ (fp : DoubleOps) (e : IsExact fp) (print : DoubleText fp) where
  last_line :
      (n w : ℕ)
      → 0 < n
      → n < exact_limit
      → w < exact_limit
      → bar_line fp print n n w
        ≡ some (
            codes "["
            ++ replicate w 61
            ++ codes "] "
            ++ print.fixed_text (fp.mul (fp.div (fp.of_int n) (fp.of_int n)) (fp.of_int 100))
            ++ 37 ∷ 13 ∷ [])
  unfolding bar_line size_of_double bar_text
  last_line n w some_ops small narrow =
      rw (e.truncate_mul_one w n some_ops narrow small)
        (rw (lt→ltb w (2 ^ 64) (omega arith)) (rw (before_head w 0 w (omega arith)) refl))

  -- With the progress bar on, an update at the last of some operations, whatever the interval, if it is
  -- not zero, draws a bar that is full, by the arithmetic of IEEE 754.
  update_progress_bar-full :
      (env : DbEnv) (n update_interval bar_width : ℕ) (screen : Text)
      → env.show_progress_bar ≡ true
      → update_interval ≢ 0
      → 0 < n
      → n < exact_limit
      → bar_width < exact_limit
      → update_progress_bar fp print env n n update_interval bar_width screen
        ≡ some (
            screen
            ++ (codes "["
                ++ replicate bar_width 61
                ++ codes "] "
                ++ print.fixed_text (fp.mul (fp.div (fp.of_int n) (fp.of_int n)) (fp.of_int 100))
                ++ 37 ∷ 13 ∷ []))
  unfolding update_progress_bar
  update_progress_bar-full env n update_interval bar_width screen shown interval some_ops small
        narrow =
      let due : ((n % update_interval == 0) || (n == n)) ≡ true = ground arith in
      let test : (update_interval == 0) ≡ false = ground (arith, interval) in
      rw shown (rw test (rw due (rw (last_line n bar_width some_ops small narrow) refl)))
