-- ===== src/Fluid/Tests/Bounded.antt =====
-- The bound on sorted runs at those two flushes, and the next round behind the first.
use lsm_workload_aware_compa.Prelude.{ℕ, ◌+◌, ◌*◌, ◌≤◌, ◌≡◌, ◌⊎◌, refl, false, some, arith}
use lsm_workload_aware_compa.Double.{exact_double, exact_double-IsExact}
use lsm_workload_aware_compa.Fluid.Structure.{
  insert_name, add_file, add_files, create_run, clear_all, create_empty_runs, create_level0_runs,
  fluid_level, create_run_at, create_deep_runs, build_levels,
}
use lsm_workload_aware_compa.Fluid.Structure.Built.{IsReadable}
use lsm_workload_aware_compa.Fluid.Structure.Live.{live_runs, live_in}
use lsm_workload_aware_compa.Fluid.Structure.Total.{fluid_levels, add_flushed}
use lsm_workload_aware_compa.Fluid.Compaction.{empty_levels, new_tree}
use lsm_workload_aware_compa.Fluid.Compaction.Rounds.{compactions, failures}
use lsm_workload_aware_compa.Fluid.Compaction.Steady.{IsSteady}
use lsm_workload_aware_compa.Fluid.Compaction.Settling.{Round-settles}
use lsm_workload_aware_compa.Fluid.Compaction.Bounded.{Rounds-bounded, Rounds-amortized}
use lsm_workload_aware_compa.Fluid.Samples.{file, options, tree}
use lsm_workload_aware_compa.Fluid.Tests.Rounds.{
  empty, one_file, seen, one_run, one_merge, two_rounds,
}

empty-IsReadable : IsReadable 1 empty tree.lazy_levels
unfolding new_tree empty_levels
empty-IsReadable = record {
  two_levels = omega arith;
  numbered = (refl, (refl, (refl, (refl, (refl, (refl, tt))))));
  room = omega arith;
  exact = omega arith;
}

-- With three fluid levels of one run each as the bound.
Rounds-bounded_example : live_runs one_run.cf_meta ≤ fluid_levels 1 empty * 1 + 0
unfolding new_tree
Rounds-bounded_example =
    Rounds-bounded exact_double exact_double-IsExact "default" 2 1 1 10 options false empty 1 1
      empty-IsReadable (tt, (tt, (tt, (tt, (tt, (tt, tt)))))) (omega arith) (omega arith)
      (omega arith) (omega arith) (omega arith) (unfold live_runs in omega arith) two_rounds

Rounds-amortized_example : 1 * 1 + live_runs one_run.cf_meta ≤ 2 + live_runs empty
unfolding new_tree
Rounds-amortized_example =
    Rounds-amortized exact_double exact_double-IsExact "default" 2 1 1 10 options false empty 1 1
      empty-IsReadable (tt, (tt, (tt, (tt, (tt, (tt, tt)))))) (omega arith) (omega arith)
      (omega arith) (omega arith) (omega arith) two_rounds

one_file-IsReadable : IsReadable 1 one_file.cf_meta one_file.tree.lazy_levels
unfolding new_tree empty_levels add_flushed
one_file-IsReadable = record {
  two_levels = omega arith;
  numbered = (refl, (refl, (refl, (refl, (refl, (refl, tt))))));
  room = omega arith;
  exact = omega arith;
}

one_file-IsSteady : IsSteady one_file
unfolding new_tree add_flushed
one_file-IsSteady = record {
  one = refl;
  none_running = refl;
  readable = one_file-IsReadable;
  idle = ((refl, tt), (tt, (tt, (tt, (tt, (tt, tt))))));
}

pub seen_view :
    build_levels exact_double 1
      (add_flushed (file "b" 15) one_file.cf_meta)
      one_file.tree.lazy_levels
    ≡ some seen.lazy_levels
unfolding insert_name add_file add_files create_run clear_all create_empty_runs create_level0_runs
    fluid_level create_run_at create_deep_runs build_levels new_tree empty_levels add_flushed
seen_view = refl

-- Level 0 had one run, and none is left of it and of the one of the flush.
Round-settles_example :
    ((compactions one_merge + failures one_merge ≡ 0) × ((f : ℕ) → live_in 1 f one_run.cf_meta ≤ 1))
    ⊎ (((compactions one_merge ≡ 1)
          × (lvl : ℕ) × (1 ≤ live_in 1 lvl one_file.cf_meta)
          × (live_in 1 lvl one_run.cf_meta ≤ 1))
        ⊎ ((failures one_merge ≡ 1)
            × ((f : ℕ) → live_in 1 f one_run.cf_meta ≤ live_in 1 f one_file.cf_meta + 1)))
unfolding new_tree
Round-settles_example =
    Round-settles exact_double exact_double-IsExact "default" 1 1 one_file-IsSteady (omega arith)
      one_merge
