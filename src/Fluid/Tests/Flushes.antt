-- ===== src/Fluid/Tests/Flushes.antt =====
-- A whole flush on the small tree of Samples.
use lsm_workload_aware_compa.Prelude.{◌≡◌, suc, refl, some, arith}
use lsm_workload_aware_compa.Double.{exact_double, exact_double-IsExact}
use lsm_workload_aware_compa.Fluid.Structure.{occupied_by, largest_from, get_largest_occupied_level}
use lsm_workload_aware_compa.Fluid.Compaction.{FluidLsm, new_tree, on_flush_completed}
use lsm_workload_aware_compa.Fluid.Compaction.Flush.{Served, on_flush_completed-Served}
use lsm_workload_aware_compa.Fluid.Tests.{meta-IsReadable, build_view}
use lsm_workload_aware_compa.Fluid.Samples.{tree, meta, view, viewed}

on_flush_completed-Served_example :
    (s' : FluidLsm) × (on_flush_completed exact_double tree "default" meta ≡ some s')
    × Served exact_double meta viewed "default"
        (get_largest_occupied_level view)
        (suc (get_largest_occupied_level view))
        s'
unfolding get_largest_occupied_level largest_from occupied_by new_tree
on_flush_completed-Served_example =
    on_flush_completed-Served exact_double exact_double-IsExact tree "default" meta view
      meta-IsReadable build_view (omega arith) refl refl
