-- ===== src/Fluid/Tests.antt =====
-- Runs of the listener of BuildStructure on the small tree of Samples.
mod Picks
mod Flushes
mod Races
mod Rounds
mod Bounded
mod Limits
use mathlib.Core.List.{filter}
use lsm_workload_aware_compa.Prelude.{
  ℕ, zero, suc, ◌+◌, ◌-◌, ◌*◌, ◌^◌, ◌≤◌, ◌<◌, ◌%◌, ◌≡◌, ◌≢◌, ◌⊎◌, refl, true, false, [], ◌∷◌, some,
  none, arith, if◌then◌else◌, ltb, get_elem?, length, List,
}
use lsm_workload_aware_compa.Prelude.Int.{pos}
use lsm_workload_aware_compa.Double.{exact_double, exact_double-IsExact}
use lsm_workload_aware_compa.Fluid.Structure.{
  LevelMetaData, LazyLevel, Run, insert_name, add_file, any_being_compacted, count_live_runs,
  num_live_runs, add_sizes, add_run_sizes, size_in_bytes, add_files, create_run, clear_all,
  create_empty_runs, create_level0_runs, fluid_level, create_run_at, create_deep_runs, build_levels,
  occupied_by, largest_from, get_largest_occupied_level,
}
use lsm_workload_aware_compa.Fluid.Structure.Bands.{band}
use lsm_workload_aware_compa.Fluid.Structure.Slots.{runs_at, slots_used}
use lsm_workload_aware_compa.Fluid.Structure.Files.{run_files, all_files, meta_files}
use lsm_workload_aware_compa.Fluid.Structure.Build.{
  build_levels_keeps_files, build_levels_slot, build_levels_slots, build_levels_fresh,
}
use lsm_workload_aware_compa.Fluid.Structure.Built.{IsReadable}
use lsm_workload_aware_compa.Fluid.Structure.Counts.{
  dec_live, total_size, IsLargest, get_largest_occupied_level-IsLargest,
}
use lsm_workload_aware_compa.Fluid.Compaction.{
  FluidLsm, empty_levels, new_tree, deref, mark, run_refs, level_refs, add_files_to_compaction,
  add_ref_sizes, get_compaction_size, level_capacity, get_compaction_target_level, find_empty_run,
  output_level, take_files, schedule_compaction, build_structure, compact_level, pick_level,
  pick_levels, pick_compaction, on_flush_completed,
}
use lsm_workload_aware_compa.Fluid.Compaction.Refs.{names, idle_files}
use lsm_workload_aware_compa.Fluid.Compaction.Marking.{
  mark_level, take_files-level_refs, num_live_runs-mark_level,
}
use lsm_workload_aware_compa.Fluid.Samples.{
  tree, meta, view, viewed, level0, level3, flushed, shallow_meta, shallow_view,
}
use lsm_workload_aware_compa.Fluid.Compaction.Target.{level_capacity_exact, target_level_exact}
use lsm_workload_aware_compa.Fluid.Compaction.Slot.{
  level_files, output_level_deepest_free, output_level_out_of_range,
}
use lsm_workload_aware_compa.Fluid.Compaction.Chosen.{bottom}
use lsm_workload_aware_compa.Fluid.Compaction.Picking.{
  after_schedule, is_overfull, compact_level_schedules, pick_levels_full, pick_levels_serves_last,
}

meta-IsReadable : IsReadable 1 meta tree.lazy_levels
unfolding new_tree empty_levels
meta-IsReadable = record {
  two_levels = omega arith;
  numbered = (refl, (refl, (refl, (refl, (refl, (refl, tt))))));
  room = omega arith;
  exact = omega arith;
}

build_view : build_levels exact_double 1 meta tree.lazy_levels ≡ some view
unfolding insert_name add_file add_files create_run clear_all create_empty_runs create_level0_runs
    fluid_level create_run_at create_deep_runs build_levels new_tree empty_levels
build_view = refl

build_levels_keeps_files_example :
    (ls : List LazyLevel) × (build_levels exact_double 1 meta tree.lazy_levels ≡ some ls)
    × (all_files ls ≡ meta_files meta)
build_levels_keeps_files_example =
    build_levels_keeps_files exact_double exact_double-IsExact 1 meta tree.lazy_levels
      meta-IsReadable

build_levels_slot_example :
    (r : Run) × (get_elem? (runs_at view (band 1 (1 + 2))) (1 % (1 + 1)) ≡ some r)
    × (r.files ≡ level3.files)
    × (r.rocksdb_level ≡ level3.level)
build_levels_slot_example =
    build_levels_slot exact_double exact_double-IsExact 1 meta tree.lazy_levels view 1 level3
      meta-IsReadable build_view refl

build_levels_slots_example : length (runs_at view (suc 1)) ≡ slots_used 1 (length meta - 2) 1
unfolding new_tree empty_levels
build_levels_slots_example =
    build_levels_slots exact_double exact_double-IsExact 1 meta tree.lazy_levels view 1
      meta-IsReadable build_view (omega arith)

get_largest_occupied_level-IsLargest_example : IsLargest view (get_largest_occupied_level view)
get_largest_occupied_level-IsLargest_example = get_largest_occupied_level-IsLargest view
