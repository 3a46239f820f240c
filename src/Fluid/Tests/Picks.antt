-- ===== src/Fluid/Tests/Picks.antt =====
-- Picks of the listener on the small tree of Samples, and the theorems at that tree.
use lsm_workload_aware_compa.Prelude.{
  length, ℕ, zero, suc, ◌+◌, ◌-◌, ◌*◌, ◌^◌, ◌≤◌, ◌<◌, ◌≡◌, ◌≢◌, ◌⊎◌, refl, false, [], ◌∷◌, some,
  none, arith, if◌then◌else◌, ltb,
}
use lsm_workload_aware_compa.Double.{exact_double, exact_double-IsExact}
use lsm_workload_aware_compa.Fluid.Structure.{
  insert_name, add_file, any_being_compacted, count_live_runs, num_live_runs, add_files, create_run,
  clear_all, create_empty_runs, create_level0_runs, fluid_level, create_run_at, create_deep_runs,
  build_levels, occupied_by, largest_from, get_largest_occupied_level,
}
use lsm_workload_aware_compa.Fluid.Structure.Bands.{band}
use lsm_workload_aware_compa.Fluid.Structure.Files.{run_files}
use lsm_workload_aware_compa.Fluid.Structure.Built.{IsReadable}
use lsm_workload_aware_compa.Fluid.Structure.Counts.{total_size}
use lsm_workload_aware_compa.Fluid.Compaction.{
  FluidLsm, empty_levels, new_tree, deref, mark, run_refs, level_refs, add_files_to_compaction,
  add_ref_sizes, get_compaction_size, level_capacity, get_compaction_target_level, find_empty_run,
  output_level, take_files, schedule_compaction, build_structure, compact_level, pick_level,
  pick_levels, pick_compaction, on_flush_completed, pick_next,
}
use lsm_workload_aware_compa.Fluid.Compaction.Refs.{names, idle_files}
use lsm_workload_aware_compa.Fluid.Compaction.Marking.{mark_level, take_files-level_refs}
use lsm_workload_aware_compa.Fluid.Tests.{meta-IsReadable, build_view}
use lsm_workload_aware_compa.Fluid.Samples.{
  tree, meta, view, viewed, level0, options, shallow_meta, shallow_view, compacted_meta,
  compacted_view,
}
use lsm_workload_aware_compa.Fluid.Compaction.Interleaving.{
  compacting, World, Reach, starts, steps, flushes, begins, waits, IsCounted, Reach-IsCounted,
  pick_next-schedules_nothing,
}
use lsm_workload_aware_compa.Fluid.Compaction.Target.{target_level_exact}
use lsm_workload_aware_compa.Fluid.Compaction.Slot.{
  level_files, output_level_deepest_free, output_level_out_of_range,
}
use lsm_workload_aware_compa.Fluid.Compaction.Chosen.{bottom}
use lsm_workload_aware_compa.Fluid.Compaction.Picking.{
  task_for, after_schedule, is_overfull, pick_levels_serves_last,
}

take_files-level_refs_example :
    take_files view (level_refs 0 0 level0.runs)
    ≡ some (names (idle_files (run_files level0.runs)), mark_level view 0)
take_files-level_refs_example = take_files-level_refs view 0 level0 refl

target_level_exact_example :
    get_compaction_target_level exact_double viewed 0 (level_refs 0 0 level0.runs)
    ≡ some (
        if ltb (10 * 2 ^ 0 * (2 - 1)) (total_size (idle_files (run_files level0.runs)))
        then 0 + 1
        else 0)
unfolding new_tree total_size idle_files run_files
target_level_exact_example =
    target_level_exact exact_double exact_double-IsExact viewed 0 level0 refl (omega arith)
      (omega arith) (omega arith) (omega arith)

output_level_deepest_free_example :
    (x : ℕ) × (output_level view 1 0 1 ≡ some x)
    × (band 1 x ≡ 1)
    × (((level_files meta x ≡ []) × ((y : ℕ) → x < y → y ≤ bottom 1 1 → level_files meta y ≢ []))
        ⊎ ((x ≡ bottom 1 1)
            × ((y : ℕ) → bottom 1 1 ≤ y + 1 → y ≤ bottom 1 1 → level_files meta y ≢ [])))
output_level_deepest_free_example =
    output_level_deepest_free exact_double exact_double-IsExact 1 meta tree.lazy_levels view
      meta-IsReadable build_view 0 0 (omega arith) (omega arith)

target_of_level0 :
    get_compaction_target_level exact_double viewed 0 (level_refs 0 0 level0.runs) ≡ some 1
unfolding get_compaction_target_level get_compaction_size add_ref_sizes deref level_capacity
    level_refs run_refs new_tree
target_of_level0 = refl

output_from_level0 : output_level view 1 0 1 ≡ some 2
unfolding output_level find_empty_run
output_from_level0 = refl

level1_is_calm : (i : ℕ) → 0 < i → i < 2 → is_overfull viewed 1 i ≡ false
unfolding new_tree num_live_runs count_live_runs any_being_compacted
level1_is_calm zero above below = absurd (omega arith)
level1_is_calm (suc zero) above below = refl
level1_is_calm (suc (suc i)) above below = absurd (omega arith)

pick_levels_serves_last_example :
    pick_levels exact_double 2 viewed "default" 1
    ≡ some (after_schedule viewed "default" 0 level0 2)
unfolding new_tree num_live_runs count_live_runs any_being_compacted
pick_levels_serves_last_example =
    pick_levels_serves_last exact_double viewed "default" 1 0 1 2 level0 refl refl refl
      target_of_level0 output_from_level0 2 (omega arith) (omega arith) level1_is_calm

shallow-IsReadable : IsReadable 1 shallow_meta tree.lazy_levels
unfolding new_tree empty_levels
shallow-IsReadable = record {
  two_levels = omega arith;
  numbered = (refl, (refl, (refl, tt)));
  room = omega arith;
  exact = omega arith;
}

build_shallow_view : build_levels exact_double 1 shallow_meta tree.lazy_levels ≡ some shallow_view
unfolding insert_name add_file add_files create_run clear_all create_empty_runs create_level0_runs
    fluid_level create_run_at create_deep_runs build_levels new_tree empty_levels
build_shallow_view = refl

output_level_out_of_range_example : output_level shallow_view 1 0 1 ≡ none
unfolding new_tree empty_levels
output_level_out_of_range_example =
    output_level_out_of_range exact_double exact_double-IsExact 1 shallow_meta tree.lazy_levels
      shallow_view shallow-IsReadable build_shallow_view 0 0 (omega arith) (omega arith)
      (omega arith)

-- The tree behind a flush, and the world in which the scheduled task has reached the database.
abbrev after_flush : FluidLsm
after_flush = after_schedule viewed "default" 0 level0 2

abbrev after_pick : FluidLsm
after_pick = record after_flush { lazy_levels = compacted_view }

abbrev at_work : World
at_work = record { tree = after_flush; phases = compacting ∷ [] }

flush_schedules : on_flush_completed exact_double tree "default" meta ≡ some after_flush
unfolding insert_name add_file add_files create_run clear_all create_empty_runs create_level0_runs
    fluid_level create_run_at create_deep_runs build_levels new_tree empty_levels on_flush_completed
    pick_compaction build_structure pick_levels pick_level compact_level add_files_to_compaction
    level_refs run_refs get_compaction_target_level get_compaction_size add_ref_sizes deref
    level_capacity schedule_compaction output_level find_empty_run take_files mark num_live_runs
    count_live_runs any_being_compacted get_largest_occupied_level largest_from occupied_by
    mark_level names idle_files run_files
flush_schedules = refl

at_work-Reach : Reach exact_double (new_tree 2 1 1 10 options false) at_work
unfolding waits new_tree
at_work-Reach =
    steps (steps starts (flushes "default" meta after_flush flush_schedules)) (begins 0 refl)

Reach-IsCounted_example : IsCounted at_work
Reach-IsCounted_example = Reach-IsCounted exact_double 2 1 1 10 options false at_work-Reach

-- Level 1 has too many runs now, and no task for it is scheduled.
next_pick :
    pick_next exact_double after_flush (task_for viewed "default" level0 2) false compacted_meta
    ≡ some after_pick
unfolding insert_name add_file add_files create_run clear_all create_empty_runs create_level0_runs
    fluid_level create_run_at create_deep_runs build_levels new_tree empty_levels pick_next
    pick_compaction build_structure pick_levels pick_level compact_level add_files_to_compaction
    level_refs run_refs get_compaction_target_level get_compaction_size add_ref_sizes deref
    level_capacity schedule_compaction output_level find_empty_run take_files mark num_live_runs
    count_live_runs any_being_compacted get_largest_occupied_level largest_from occupied_by
    mark_level names idle_files run_files
next_pick = refl

pick_next-schedules_nothing_example : length after_pick.scheduled ≡ length after_flush.scheduled
pick_next-schedules_nothing_example =
    pick_next-schedules_nothing exact_double 2 1 1 10 options false 0
      (task_for viewed "default" level0 2) false compacted_meta after_pick at_work-Reach refl
      next_pick
