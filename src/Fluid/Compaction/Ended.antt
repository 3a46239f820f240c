-- ===== src/Fluid/Compaction/Ended.antt =====
-- What a pick has done when it has ended without a fault, whatever the tree and the metadata were.
use mathlib.Core.Path.{subst}
use lsm_workload_aware_compa.Prelude.{
  ℕ, zero, suc, ◌+◌, ◌-◌, ◌*◌, ◌≤◌, ◌<◌, ◌≡◌, sym, ap, ◌∙◌, String, true, false, some, List, [],
  arith, Bool-cases, inl, inr, get_elem?, length, is_empty, get_elem?-lt, ltb, lt→ltb, le→ltb,
  if◌then◌else◌, >>=-eq-some, some_inj,
}
use lsm_workload_aware_compa.Double.{DoubleOps}
use lsm_workload_aware_compa.Fluid.Structure.{LazyLevel, Run, num_live_runs}
use lsm_workload_aware_compa.Fluid.Compaction.{
  FluidLsm, FileRef, level_refs, add_files_to_compaction, get_compaction_target_level,
  find_empty_run, output_level, schedule_compaction, has_too_many_runs, compact_level, pick_level,
  pick_levels,
}
use lsm_workload_aware_compa.Fluid.Compaction.Flush.{quiet_below}
use lsm_workload_aware_compa.Fluid.Compaction.Picking.{
  after_schedule, is_overfull, is_overfull_of_get, compact_level_schedules, pick_levels_full,
  length-mark_level,
}

-- Over the levels below `n`: nothing, where none of them has too many runs, or one task for one that has.
pub data Outcome (t : FluidLsm) (cf_name : String) (g n : ℕ) : FluidLsm → Type 0 where
  calm : ((i : ℕ) → i < n → is_overfull t g i ≡ false) → Outcome t cf_name g n t
  serves :
      (lvl x : ℕ) (l : LazyLevel)
      → lvl < n
      → get_elem? t.lazy_levels lvl ≡ some l
      → has_too_many_runs t g lvl (num_live_runs l) ≡ true
      → 0 < x
      → Outcome t cf_name g n (after_schedule t cf_name lvl l x)

Outcome-extend :
    (t : FluidLsm) (cf_name : String) (g i : ℕ) {s' : FluidLsm}
    → is_overfull t g i ≡ false
    → Outcome t cf_name g i s'
    → Outcome t cf_name g (suc i) s'
Outcome-extend t cf_name g i here (calm none_above) = calm (quiet_below t g i here none_above)
Outcome-extend t cf_name g i here (serves lvl x l below at many positive) =
    serves lvl x l (omega arith) at many positive

find_empty_run_pos :
    (rounds lvl k t : ℕ) (runs : List Run) {x : ℕ}
    → lvl + rounds ≡ k + 1
    → find_empty_run rounds lvl k (suc t) runs ≡ some x
    → 0 < x
unfolding find_empty_run
find_empty_run_pos zero lvl k t runs e h = grind arith
find_empty_run_pos (suc rounds) lvl k t runs {x} e h =
    let rest = find_empty_run rounds (lvl + 1) k (suc t) runs in
    let (run, at, chosen) =
      >>=-eq-some (get_elem? runs (k - lvl))
        (λ (r : Run). if is_empty r.files then some (1 + suc t * (k + 1) - lvl) else rest) h in
    elim (Bool-cases (is_empty run.files)) [
      | inl free ↦
          let x_is : 1 + suc t * (k + 1) - lvl ≡ x = some_inj (rw free at chosen) in grind arith
      | inr taken ↦ find_empty_run_pos rounds (lvl + 1) k t runs (omega arith) (rw taken at chosen)
    ]

output_level_pos :
    (ls : List LazyLevel) (k origin_lvl target_lvl : ℕ) {x : ℕ}
    → output_level ls k origin_lvl target_lvl ≡ some x
    → 0 < x
unfolding output_level
output_level_pos ls k origin_lvl zero {x} h =
    let x_is : 1 + 0 * (k + 1) ≡ x = some_inj (rw (le→ltb origin_lvl 0 (omega arith)) at h) in
    omega arith
output_level_pos ls k origin_lvl (suc t) {x} h = elim (Bool-cases (ltb origin_lvl (suc t))) [
  | inl above ↦
      let (l, at, found) =
        >>=-eq-some (get_elem? ls (suc t))
          (λ (l : LazyLevel). find_empty_run (k + 1) 0 k (suc t) l.runs) (rw above at h) in
      find_empty_run_pos (k + 1) 0 k t l.runs (omega arith) found
  | inr same ↦ let x_is : 1 + suc t * (k + 1) ≡ x = some_inj (rw same at h) in omega arith
]

module _ (fp : DoubleOps) (t : FluidLsm) (cf_name : String) (g : ℕ)
    (one : t.parallel_compactions_allowed ≡ t.parallel_compactions_running + 1) where
  schedule_output :
      (lvl target_lvl : ℕ) (refs : List FileRef) {u : FluidLsm}
      → schedule_compaction t cf_name lvl target_lvl refs ≡ some u
      → (x : ℕ) × (output_level t.lazy_levels t.smaller_lvl_runs_count lvl target_lvl ≡ some x)
  unfolding schedule_compaction
  schedule_output lvl target_lvl refs h =
      let room : ltb t.parallel_compactions_running t.parallel_compactions_allowed ≡ true =
        lt→ltb _ _ (omega arith) in
      let (x, found, rest) =
        >>=-eq-some (output_level t.lazy_levels t.smaller_lvl_runs_count lvl target_lvl) _
          (rw room at h) in
      (x, found)

  level_refs_read :
      (lvl : ℕ) (l : LazyLevel)
      → get_elem? t.lazy_levels lvl ≡ some l
      → add_files_to_compaction t.lazy_levels lvl [] ≡ some (level_refs lvl 0 l.runs)
  unfolding add_files_to_compaction
  level_refs_read lvl l at = rw at

  compact_level-Outcome :
      (lvl : ℕ) (l : LazyLevel) {u : FluidLsm}
      → get_elem? t.lazy_levels lvl ≡ some l
      → compact_level fp t cf_name lvl ≡ some u
      → (x : ℕ) × (u ≡ after_schedule t cf_name lvl l x) × (0 < x)
  unfolding compact_level
  compact_level-Outcome lvl l {u} at h =
      let (target_lvl, target, scheduled) =
        >>=-eq-some (get_compaction_target_level fp t lvl (level_refs lvl 0 l.runs)) _
          (rw (level_refs_read lvl l at) at h) in
      let (x, found) = schedule_output lvl target_lvl (level_refs lvl 0 l.runs) scheduled in
      let made =
        compact_level_schedules fp t cf_name lvl target_lvl x l (omega arith) at target found in
      (x, cc, output_level_pos t.lazy_levels t.smaller_lvl_runs_count lvl target_lvl found)

  stops_behind :
      (i x : ℕ) (m : LazyLevel) (u s' : FluidLsm)
      → i ≤ length t.lazy_levels
      → u ≡ after_schedule t cf_name i m x
      → pick_levels fp i u cf_name g ≡ some s'
      → after_schedule t cf_name i m x ≡ s'
  stops_behind i x m u s' in_view made rest = some_inj (
      sym (
        pick_levels_full fp (after_schedule t cf_name i m x) cf_name i g
          (omega (arith, length-mark_level t.lazy_levels i)) (omega arith))
      ∙ ap (λ v. pick_levels fp i v cf_name g) (sym made)
      ∙ rest)

  -- With room for just one more compaction, a loop that ends has scheduled at most one task.
  pub pick_levels-Outcome :
      (n : ℕ) {s' : FluidLsm}
      → n ≤ length t.lazy_levels
      → pick_levels fp n t cf_name g ≡ some s'
      → Outcome t cf_name g n s'
  unfolding pick_levels pick_level
  pick_levels-Outcome zero {s'} in_view h =
      subst (Outcome t cf_name g 0) (some_inj h) (calm (λ i p. absurd (omega arith)))
  pick_levels-Outcome (suc i) {s'} in_view h =
      let (m, at) = get_elem?-lt t.lazy_levels i (omega arith) in
      elim (Bool-cases (has_too_many_runs t g i (num_live_runs m))) [
        | inl many ↦
            let (u, first, rest) =
              >>=-eq-some (compact_level fp t cf_name i) _ (rw (at, many) at h) in
            let (x, made, positive) = compact_level-Outcome i m at first in
            let same = stops_behind i x m u s' (omega arith) made rest in
            subst (Outcome t cf_name g (suc i)) same (serves i x m (omega arith) at many positive)
        | inr few ↦
            Outcome-extend t cf_name g i (is_overfull_of_get t g i m at ∙ few)
              (pick_levels-Outcome i (omega arith) (rw (at, few) at h))
      ]
