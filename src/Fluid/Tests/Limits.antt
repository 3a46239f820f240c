-- ===== src/Fluid/Tests/Limits.antt =====
-- The second flush of Rounds, behind which level 0 has two sorted runs and may have one.
use lsm_workload_aware_compa.Prelude.{◌≤◌, ◌<◌, ◌≡◌, ◌⊎◌, refl, some, ℕ, ◌++◌, [], ◌∷◌, arith}
use lsm_workload_aware_compa.Double.{exact_double, exact_double-IsExact}
use lsm_workload_aware_compa.Fluid.Structure.{
  ColumnFamilyMetaData, get_largest_occupied_level, largest_from, occupied_by,
}
use lsm_workload_aware_compa.Fluid.Structure.Built.{IsReadable}
use lsm_workload_aware_compa.Fluid.Structure.Live.{live_in}
use lsm_workload_aware_compa.Fluid.Structure.Total.{add_flushed}
use lsm_workload_aware_compa.Fluid.Compaction.{
  CompactionTask, FluidLsm, on_flush_completed, new_tree, empty_levels,
}
use lsm_workload_aware_compa.Fluid.Compaction.Limits.{on_flush_completed_limits}
use lsm_workload_aware_compa.Fluid.Samples.{file}
use lsm_workload_aware_compa.Fluid.Tests.Rounds.{one_file, seen}
use lsm_workload_aware_compa.Fluid.Tests.Bounded.{seen_view}

abbrev two_flushed : ColumnFamilyMetaData
two_flushed = add_flushed (file "b" 15) one_file.cf_meta

two_flushed-IsReadable : IsReadable 1 two_flushed one_file.tree.lazy_levels
unfolding new_tree empty_levels add_flushed
two_flushed-IsReadable = record {
  two_levels = omega arith;
  numbered = (refl, (refl, (refl, (refl, (refl, (refl, tt))))));
  room = omega arith;
  exact = omega arith;
}

on_flush_completed_limits_example :
    (t : FluidLsm) × (on_flush_completed exact_double one_file.tree "default" two_flushed ≡ some t)
    × (((t.scheduled ≡ one_file.tree.scheduled)
          × ((f : ℕ)
              → f < get_largest_occupied_level seen.lazy_levels
              → live_in 1 f two_flushed ≤ 1)
          × (live_in 1 (get_largest_occupied_level seen.lazy_levels) two_flushed ≤ 1))
        ⊎ ((task : CompactionTask) × (lvl : ℕ) × (t.scheduled
              ≡ one_file.tree.scheduled ++ task ∷ [])
            × (((lvl < get_largest_occupied_level seen.lazy_levels)
                  × (1 < live_in 1 lvl two_flushed))
                ⊎ ((lvl ≡ get_largest_occupied_level seen.lazy_levels)
                    × (1 < live_in 1 lvl two_flushed)))))
unfolding new_tree get_largest_occupied_level largest_from occupied_by add_flushed
on_flush_completed_limits_example =
    on_flush_completed_limits exact_double exact_double-IsExact one_file.tree "default" two_flushed
      seen.lazy_levels two_flushed-IsReadable ((refl, (refl, tt)), (tt, (tt, (tt, (tt, (tt, tt))))))
      seen_view (omega arith) refl refl
