-- ===== src/Fluid/Tests/Races.antt =====
-- Two threads on the small tree of Samples.
use lsm_workload_aware_compa.Prelude.{◌+◌, ◌≤◌, ◌≡◌, refl, false, none, [], ◌∷◌, arith}
use lsm_workload_aware_compa.Double.{exact_double}
use lsm_workload_aware_compa.Fluid.Structure.Files.{run_files}
use lsm_workload_aware_compa.Fluid.Compaction.{
  level_refs, get_compaction_size, take_files, new_tree,
}
use lsm_workload_aware_compa.Fluid.Compaction.Refs.{idle_files}
use lsm_workload_aware_compa.Fluid.Compaction.Dangling.{
  Sharing, SharingReach, SharingReach-dangling,
}
use lsm_workload_aware_compa.Fluid.Compaction.Racing.{
  Race, RaceReach, race_of, count_up, tests, counts_up, AloneReach, RaceReach-any_number,
  AloneReach-limited,
}
use lsm_workload_aware_compa.Fluid.Samples.{tree, options, view, level0, file}

abbrev sharing : Sharing
sharing = record { lazy_levels = view; lazy_levels_mutex = false; input_files = [] }

SharingReach-dangling_example :
    (t : Sharing) × SharingReach exact_double 1 sharing t
    × (t.input_files ≡ level_refs 0 0 level0.runs)
    × (get_compaction_size t.lazy_levels t.input_files ≡ none)
    × (take_files t.lazy_levels t.input_files ≡ none)
unfolding idle_files run_files
SharingReach-dangling_example =
    SharingReach-dangling exact_double 1 sharing 0 level0 (file "a" 15)
      (file "b" 15 ∷ file "c" 5 ∷ []) refl refl refl

RaceReach-any_number_example :
    (r : Race) × RaceReach (race_of tree) r × (r.parallel_compactions_running ≡ 3) × (r.tasks ≡ 3)
RaceReach-any_number_example = RaceReach-any_number 2 1 1 10 options false 3

-- One thread has passed the test and counted up.
abbrev counted : Race
counted = count_up (record (race_of tree) { passed = 1 })

counted-AloneReach : AloneReach (race_of tree) counted
unfolding new_tree
counted-AloneReach =
    AloneReach.goes_on (AloneReach.goes_on AloneReach.begins (tests refl) (omega arith))
      (counts_up (omega arith)) (omega arith)

AloneReach-limited_example :
    (counted.parallel_compactions_running ≡ counted.tasks)
    × (counted.parallel_compactions_running + counted.passed ≤ 1)
AloneReach-limited_example = AloneReach-limited 2 1 1 10 options false counted-AloneReach
