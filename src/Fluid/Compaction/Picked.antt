-- ===== src/Fluid/Compaction/Picked.antt =====
-- What a flush has done when OnFlushCompleted has ended, in sorted runs.
use native.Mathlib.Decide.{dec_lt}
use lsm_workload_aware_compa.Prelude.{
  ℕ, zero, suc, ◌≤◌, ◌<◌, ◌≡◌, ◌≢◌, ◌⊎◌, refl, sym, ap, ◌∙◌, String, true, false, some, List, [],
  ◌∷◌, ◌++◌, arith, inl, inr, get_elem?, get_elem?-lt, length,
}
use lsm_workload_aware_compa.Double.{DoubleOps, IsExact}
use lsm_workload_aware_compa.Fluid.Structure.{
  ColumnFamilyMetaData, LazyLevel, Run, any_being_compacted, num_live_runs, count_live_runs,
  build_levels, get_largest_occupied_level,
}
use lsm_workload_aware_compa.Fluid.Structure.Slots.{runs_at}
use lsm_workload_aware_compa.Fluid.Structure.Files.{run_files}
use lsm_workload_aware_compa.Fluid.Structure.Built.{IsReadable}
use lsm_workload_aware_compa.Fluid.Structure.Build.{build_levels_keeps_files, length-build_levels}
use lsm_workload_aware_compa.Fluid.Structure.Counts.{
  IsLargest, get_largest_occupied_level-IsLargest,
}
use lsm_workload_aware_compa.Fluid.Structure.Live.{IsIdle, live_in, live_runs_at}
use lsm_workload_aware_compa.Fluid.Compaction.{
  FluidLsm, has_too_many_runs, build_structure, pick_compaction, on_flush_completed,
}
use lsm_workload_aware_compa.Fluid.Compaction.Picking.{
  after_schedule, is_overfull, is_overfull_of_get,
}
use lsm_workload_aware_compa.Fluid.Compaction.Covering.{num_live_runs-live_in}
use lsm_workload_aware_compa.Fluid.Compaction.Ended.{Outcome, calm, serves, pick_levels-Outcome}

abbrev pub viewing : FluidLsm → List LazyLevel → FluidLsm
viewing s ls = record s { lazy_levels = ls }

many_live :
    (s : FluidLsm) (g lvl live d : ℕ)
    → d ≤ s.smaller_lvl_runs_count
    → d ≤ s.larger_lvl_runs_count
    → has_too_many_runs s g lvl live ≡ true
    → suc d ≤ live
many_live s g lvl live d small large h = ground arith

few_live :
    (s : FluidLsm) (g lvl live c : ℕ)
    → s.smaller_lvl_runs_count ≤ c
    → s.larger_lvl_runs_count ≤ c
    → lvl ≤ g
    → has_too_many_runs s g lvl live ≡ false
    → live ≤ c
few_live s g lvl live c small large below h = ground arith

-- A level of the view with files is in the view.
runs_at_lt : (ls : List LazyLevel) (i : ℕ) → runs_at ls i ≢ [] → i < length ls
unfolding runs_at
runs_at_lt [] i h = absurd (h refl)
runs_at_lt (l ∷ ls) zero h = omega arith
runs_at_lt (l ∷ ls) (suc i) h = omega (arith, runs_at_lt ls i h)

run_files_none : run_files [] ≡ []
unfolding run_files
run_files_none = refl

append_nil_split {ℓ} : {A : Type ℓ} (xs ys : List A) → xs ++ ys ≡ [] → (xs ≡ []) × (ys ≡ [])
append_nil_split [] ys h = (refl, h)
append_nil_split (x ∷ xs) ys h = cc

pub largest_lt : (ls : List LazyLevel) (g : ℕ) → 0 < length ls → IsLargest ls g → g < length ls
largest_lt ls g some_levels h = go h.here
  where
    go :
        (run_files (runs_at ls g) ≢ []) ⊎ ((g ≡ 0) × (run_files (runs_at ls 0) ≡ []))
        → g < length ls
    go (inl occupied) = runs_at_lt ls g (λ e. occupied (ap run_files e ∙ run_files_none))
    go (inr (e, none_here)) = omega arith

-- The runs of a level without files.
no_files-live : (rs : List Run) → run_files rs ≡ [] → count_live_runs 0 rs ≡ 0
unfolding run_files count_live_runs any_being_compacted
no_files-live [] h = refl
no_files-live (r ∷ rs) h =
    let (here, there) = append_nil_split r.files (run_files rs) h in
    simp (here, no_files-live rs there)

-- What the pick of a flush has made of the tree, with `c` at least as large and `d` at most as large as
-- both limits on runs: the view alone, where no fluid level has more than `c` sorted runs, or a task for
-- a level with more than `d`.
pub data Picked (fp : DoubleOps) (s : FluidLsm) (cf_name : String) (m : ColumnFamilyMetaData)
    (c d : ℕ) : FluidLsm → Type 0 where
  quiet :
      (ls' : List LazyLevel)
      → length ls' ≡ length s.lazy_levels
      → ((f : ℕ) → live_in s.smaller_lvl_runs_count f m ≤ c)
      → Picked fp s cf_name m c d (viewing s ls')
  schedules :
      (ls' : List LazyLevel) (lvl x : ℕ) (l : LazyLevel)
      → length ls' ≡ length s.lazy_levels
      → build_levels fp s.smaller_lvl_runs_count m s.lazy_levels ≡ some ls'
      → get_elem? ls' lvl ≡ some l
      → 0 < x
      → suc d ≤ live_in s.smaller_lvl_runs_count lvl m
      → Picked fp s cf_name m c d (after_schedule (viewing s ls') cf_name lvl l x)

module _ (fp : DoubleOps) (e : IsExact fp) (s : FluidLsm) (cf_name : String)
    (m : ColumnFamilyMetaData) (c d : ℕ) (h : IsReadable s.smaller_lvl_runs_count m s.lazy_levels)
    (idle : IsIdle m) (small_c : s.smaller_lvl_runs_count ≤ c)
    (large_c : s.larger_lvl_runs_count ≤ c) (small_d : d ≤ s.smaller_lvl_runs_count)
    (large_d : d ≤ s.larger_lvl_runs_count) where
  module _ (ls' : List LazyLevel)
      (b : build_levels fp s.smaller_lvl_runs_count m s.lazy_levels ≡ some ls') where
    no_files_in :
        (f : ℕ) → get_largest_occupied_level ls' < f → live_in s.smaller_lvl_runs_count f m ≡ 0
    no_files_in f above =
        sym (live_runs_at fp e s.smaller_lvl_runs_count m s.lazy_levels ls' f h idle b)
        ∙ no_files-live (runs_at ls' f) ((get_largest_occupied_level-IsLargest ls').above f above)

    calm_live :
        ((i : ℕ)
          → i < suc (get_largest_occupied_level ls')
          → is_overfull (viewing s ls') (get_largest_occupied_level ls') i ≡ false)
        → get_largest_occupied_level ls' < length ls'
        → (f : ℕ) → live_in s.smaller_lvl_runs_count f m ≤ c
    calm_live none_over in_view f = elim (dec_lt (get_largest_occupied_level ls') f) [
      | yes above ↦ omega (arith, no_files_in f above)
      | no below ↦
          let g = get_largest_occupied_level ls' in
          let (l, at) = get_elem?-lt ls' f (omega arith) in
          let few = sym (is_overfull_of_get (viewing s ls') g f l at) ∙ none_over f (omega arith) in
          omega (
            arith,
            few_live (viewing s ls') g f (num_live_runs l) c small_c large_c (omega arith) few,
            num_live_runs-live_in fp e s.smaller_lvl_runs_count m s.lazy_levels ls' h idle b f l at,
          )
    ]

    Outcome-Picked :
        {t : FluidLsm}
        → length ls' ≡ length s.lazy_levels
        → get_largest_occupied_level ls' < length ls'
        → Outcome
            (viewing s ls')
            cf_name
            (get_largest_occupied_level ls')
            (suc (get_largest_occupied_level ls'))
            t
        → Picked fp s cf_name m c d t
    Outcome-Picked same in_view (calm none_over) = quiet ls' same (calm_live none_over in_view)
    Outcome-Picked same in_view (serves lvl x l below at many positive) =
        let g = get_largest_occupied_level ls' in
        schedules ls' lvl x l same b at positive (
          omega (
            arith,
            many_live (viewing s ls') g lvl (num_live_runs l) d small_d large_d many,
            num_live_runs-live_in fp e s.smaller_lvl_runs_count m s.lazy_levels ls' h idle b lvl l
                at,
          ))

  pub on_flush_completed-Picked :
      {t : FluidLsm}
      → s.parallel_compactions_allowed ≡ 1
      → s.parallel_compactions_running ≡ 0
      → on_flush_completed fp s cf_name m ≡ some t
      → Picked fp s cf_name m c d t
  unfolding on_flush_completed pick_compaction build_structure
  on_flush_completed-Picked {t} one none_running ended =
      let (ls', b, kept) =
        build_levels_keeps_files fp e s.smaller_lvl_runs_count m s.lazy_levels h in
      let same = length-build_levels fp e s.smaller_lvl_runs_count m s.lazy_levels ls' h b in
      let g = get_largest_occupied_level ls' in
      let in_view =
        largest_lt ls' g (omega (arith, same, h.room, h.two_levels))
          (get_largest_occupied_level-IsLargest ls') in
      Outcome-Picked ls' b same in_view (
        pick_levels-Outcome fp (viewing s ls') cf_name g (omega arith) (suc g) (omega arith)
          (rw b at ended))
