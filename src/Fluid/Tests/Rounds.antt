-- ===== src/Fluid/Tests/Rounds.antt =====
-- Two flushes into an empty database, the second with a compaction of both files into level 3, carried out
-- or failed.
use lsm_workload_aware_compa.Prelude.{◌≡◌, refl, String, true, false, List, [], ◌∷◌, some}
use lsm_workload_aware_compa.Double.{exact_double}
use lsm_workload_aware_compa.Fluid.Structure.{
  ColumnFamilyMetaData, LazyLevel, insert_name, add_file, any_being_compacted, count_live_runs,
  num_live_runs, add_files, create_run, clear_all, create_empty_runs, create_level0_runs,
  fluid_level, create_run_at, create_deep_runs, build_levels, occupied_by, largest_from,
  get_largest_occupied_level,
}
use lsm_workload_aware_compa.Fluid.Structure.Files.{run_files}
use lsm_workload_aware_compa.Fluid.Structure.Total.{add_flushed}
use lsm_workload_aware_compa.Fluid.Compaction.{
  FluidLsm, empty_levels, new_tree, deref, mark, run_refs, level_refs, add_files_to_compaction,
  add_ref_sizes, get_compaction_size, level_capacity, get_compaction_target_level, find_empty_run,
  output_level, take_files, schedule_compaction, build_structure, compact_level, pick_level,
  pick_levels, pick_compaction, on_flush_completed, pick_next, compact_files,
}
use lsm_workload_aware_compa.Fluid.Compaction.Refs.{names, idle_files}
use lsm_workload_aware_compa.Fluid.Compaction.Marking.{mark_level}
use lsm_workload_aware_compa.Fluid.Compaction.Picking.{after_schedule, task_for}
use lsm_workload_aware_compa.Fluid.Compaction.Merging.{contains, without, Compacts}
use lsm_workload_aware_compa.Fluid.Compaction.Rounds.{
  Store, Round, flushed, merged, failed, Rounds, start, after,
}
use lsm_workload_aware_compa.Fluid.Samples.{file, level, run, no_runs, tree}

abbrev deep_levels : List LazyLevel
deep_levels = record { runs = run 4 [] [] ∷ run 5 [] [] ∷ [] } ∷ no_runs ∷ no_runs ∷ no_runs ∷ []

abbrev pub empty : ColumnFamilyMetaData
empty = level 0 [] ∷ level 1 [] ∷ level 2 [] ∷ level 3 [] ∷ level 4 [] ∷ level 5 [] ∷ []

abbrev empty_level1 : LazyLevel
empty_level1 = record { runs = run 2 [] [] ∷ run 3 [] [] ∷ [] }

abbrev pub one_file : Store
one_file = record {
  tree = record tree {
    lazy_levels =
        record { runs = run 0 (file "a" 15 ∷ []) ("a" ∷ []) ∷ run 1 [] [] ∷ [] }
        ∷ empty_level1
        ∷ deep_levels;
  };
  cf_meta = add_flushed (file "a" 15) empty;
}

abbrev two_files : LazyLevel
two_files = record {
  runs =
      run 0 (file "b" 15 ∷ []) ("b" ∷ []) ∷ run 0 (file "a" 15 ∷ []) ("a" ∷ []) ∷ run 1 [] [] ∷ [];
}

abbrev pub seen : FluidLsm
seen = record one_file.tree { lazy_levels = two_files ∷ empty_level1 ∷ deep_levels }

abbrev handed : FluidLsm
handed = after_schedule seen "default" 0 two_files 3

abbrev merged_meta : ColumnFamilyMetaData
merged_meta =
    level 0 [] ∷ level 1 [] ∷ level 2 [] ∷ level 3 (file "c" 30 ∷ []) ∷ level 4 [] ∷ level 5 [] ∷ []

abbrev pub one_run : Store
one_run = record {
  tree = record handed {
    lazy_levels =
        record { runs = run 0 [] [] ∷ run 1 [] [] ∷ [] }
        ∷ record { runs = run 2 [] [] ∷ run 3 (file "c" 30 ∷ []) ("c" ∷ []) ∷ [] }
        ∷ deep_levels;
    parallel_compactions_running = 0;
  };
  cf_meta = merged_meta;
}

first_flush :
    on_flush_completed exact_double tree "default" (add_flushed (file "a" 15) empty)
    ≡ some one_file.tree
unfolding insert_name add_file add_files create_run clear_all create_empty_runs create_level0_runs
    fluid_level create_run_at create_deep_runs build_levels new_tree empty_levels on_flush_completed
    pick_compaction build_structure pick_levels pick_level compact_level add_files_to_compaction
    level_refs run_refs get_compaction_target_level get_compaction_size add_ref_sizes deref
    level_capacity schedule_compaction output_level find_empty_run take_files mark num_live_runs
    count_live_runs any_being_compacted get_largest_occupied_level largest_from occupied_by
    mark_level names idle_files run_files add_flushed
first_flush = refl

second_flush :
    on_flush_completed exact_double one_file.tree "default"
      (add_flushed (file "b" 15) (add_flushed (file "a" 15) empty))
    ≡ some handed
unfolding insert_name add_file add_files create_run clear_all create_empty_runs create_level0_runs
    fluid_level create_run_at create_deep_runs build_levels new_tree empty_levels on_flush_completed
    pick_compaction build_structure pick_levels pick_level compact_level add_files_to_compaction
    level_refs run_refs get_compaction_target_level get_compaction_size add_ref_sizes deref
    level_capacity schedule_compaction output_level find_empty_run take_files mark num_live_runs
    count_live_runs any_being_compacted get_largest_occupied_level largest_from occupied_by
    mark_level names idle_files run_files add_flushed
second_flush = refl

compacted :
    compact_files exact_double handed (task_for seen "default" two_files 3) false merged_meta
    ≡ some one_run.tree
unfolding insert_name add_file add_files create_run clear_all create_empty_runs create_level0_runs
    fluid_level create_run_at create_deep_runs build_levels new_tree empty_levels on_flush_completed
    pick_compaction build_structure pick_levels pick_level compact_level add_files_to_compaction
    level_refs run_refs get_compaction_target_level get_compaction_size add_ref_sizes deref
    level_capacity schedule_compaction output_level find_empty_run take_files mark num_live_runs
    count_live_runs any_being_compacted get_largest_occupied_level largest_from occupied_by
    mark_level names idle_files run_files add_flushed compact_files pick_next
compacted = refl

replaces :
    Compacts
      ("b" ∷ "a" ∷ [])
      3
      (add_flushed (file "b" 15) (add_flushed (file "a" 15) empty))
      merged_meta
unfolding add_flushed without contains
replaces = (
  refl,
  tt,
  λ e. refl,
  (
    refl,
    tt,
    λ e. refl,
    (
      refl,
      tt,
      λ e. refl,
      (refl, (refl, tt), λ e. cc, (refl, tt, λ e. refl, (refl, tt, λ e. refl, tt))),
    ),
  ),
)

named :
    (n : String)
    → contains n (task_for seen "default" two_files 3).input_file_names ≡ true
    → contains n ("b" ∷ "a" ∷ []) ≡ true
unfolding names idle_files run_files
named n h = h

pub one_merge : Round exact_double "default" one_file one_run
unfolding names idle_files run_files
one_merge =
    merged (file "b" 15) handed one_run.tree (task_for seen "default" two_files 3) ("b" ∷ "a" ∷ [])
      merged_meta refl second_flush refl named replaces compacted

pub two_rounds :
    Rounds exact_double "default" (record { tree = tree; cf_meta = empty }) 2 1 0 one_run
unfolding one_merge new_tree
two_rounds =
    after (after start (flushed (file "a" 15) one_file.tree refl first_flush refl)) one_merge

-- The database fails with an I/O error in place of that compaction.
io_error :
    compact_files exact_double handed
      (task_for seen "default" two_files 3)
      true
      (add_flushed (file "b" 15) one_file.cf_meta)
    ≡ some (record handed { parallel_compactions_running = 0 })
unfolding compact_files pick_next new_tree
io_error = refl

failing_rounds :
    Rounds exact_double "default"
      (record { tree = tree; cf_meta = empty })
      2
      0
      1
      (record {
        tree = record handed { parallel_compactions_running = 0 };
        cf_meta = add_flushed (file "b" 15) one_file.cf_meta;
      })
unfolding names idle_files run_files new_tree
failing_rounds = after (after start (flushed (file "a" 15) one_file.tree refl first_flush refl)) (
    failed (file "b" 15) handed (record handed { parallel_compactions_running = 0 })
      (task_for seen "default" two_files 3) true refl second_flush refl io_error)
