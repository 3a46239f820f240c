-- ===== src/Fluid/Compaction/Bounded.antt =====
-- The sorted runs of the database over any number of flushes and compactions.
use lsm_workload_aware_compa.Prelude.{
  ℕ, suc, ◌+◌, ◌-◌, ◌*◌, ◌≤◌, ◌≡◌, refl, ap, ◌∙◌, String, Bool, arith, length,
}
use lsm_workload_aware_compa.Double.{DoubleOps, IsExact}
use lsm_workload_aware_compa.Fluid.Structure.{ColumnFamilyMetaData}
use lsm_workload_aware_compa.Fluid.Structure.Bands.{band}
use lsm_workload_aware_compa.Fluid.Structure.Built.{IsReadable}
use lsm_workload_aware_compa.Fluid.Structure.Live.{IsIdle, live_runs}
use lsm_workload_aware_compa.Fluid.Structure.Total.{fluid_levels}
use lsm_workload_aware_compa.Fluid.Compaction.{TreeOptions, new_tree, empty_levels}
use lsm_workload_aware_compa.Fluid.Compaction.Rounds.{
  Store, Round, flushed, merged, failed, compactions, failures, Rounds, start, after,
}
use lsm_workload_aware_compa.Fluid.Compaction.Steady.{IsSteady, IsBetween, flush-Picked}
use lsm_workload_aware_compa.Fluid.Compaction.Advancing.{
  Advances, flushed-Advances, merged-Advances, failed-Advances,
}

module _ (fp : DoubleOps) (e : IsExact fp) (cf_name : String) where
  Round-Advances :
      {v w : Store} (r : Round fp cf_name v w) (c d : ℕ)
      → IsSteady v
      → IsBetween c d v.tree
      → Advances c d (compactions r) (failures r) v w
  Round-Advances {v = v} (flushed file t idle picked same) c d steady limits =
      flushed-Advances fp e cf_name v steady c d limits file idle
        (flush-Picked fp e cf_name v steady c d limits file idle picked) same
  Round-Advances {v = v} (merged file t u task taken cf_meta idle picked one_task named done ended)
        c d steady limits =
      merged-Advances fp e cf_name v steady c d limits file idle task taken cf_meta
        (flush-Picked fp e cf_name v steady c d limits file idle picked) one_task named done ended
  Round-Advances {v = v} (failed file t u task is_io_error idle picked one_task ended) c d steady
        limits =
      failed-Advances fp e cf_name v steady c d limits file idle task is_io_error
        (flush-Picked fp e cf_name v steady c d limits file idle picked) one_task ended

  -- What any number of rounds does.
  record Lasts (c d n j i : ℕ) (v w : Store) : Type 0 where
    steady : IsSteady w
    between : IsBetween c d w.tree
    smaller : w.tree.smaller_lvl_runs_count ≡ v.tree.smaller_lvl_runs_count
    same_levels : length w.cf_meta ≡ length v.cf_meta
    amortized : live_runs w.cf_meta + d * j ≤ live_runs v.cf_meta + n
    bounded :
        (bound : ℕ)
        → fluid_levels v.tree.smaller_lvl_runs_count v.cf_meta * c ≤ bound
        → live_runs v.cf_meta ≤ bound
        → live_runs w.cf_meta ≤ bound + i

  Rounds-Lasts :
      {v w : Store} {n j i : ℕ} (c d : ℕ)
      → IsSteady v
      → IsBetween c d v.tree
      → Rounds fp cf_name v n j i w
      → Lasts c d n j i v w
  Rounds-Lasts c d steady limits start = record {
    steady = steady;
    between = limits;
    smaller = refl;
    same_levels = refl;
    amortized = omega arith;
    bounded = λ bound enough before. omega (arith, before);
  }
  Rounds-Lasts {v = v} c d steady limits (after {n = n} {j = j} {i = i} {w = w} {x = x} before r) =
      let lasts = Rounds-Lasts c d steady limits before in
      let step = Round-Advances r c d lasts.steady lasts.between in
      record {
        steady = step.steady;
        between = record {
          positive = limits.positive;
          small_d = omega (arith, lasts.between.small_d, step.smaller);
          large_d = omega (arith, lasts.between.large_d, step.larger);
          small_c = omega (arith, lasts.between.small_c, step.smaller);
          large_c = omega (arith, lasts.between.large_c, step.larger);
        };
        smaller = step.smaller ∙ lasts.smaller;
        same_levels = step.same_levels ∙ lasts.same_levels;
        amortized = grind (arith, lasts.amortized, step.amortized);
        bounded = λ bound enough low.
            let levels : fluid_levels w.tree.smaller_lvl_runs_count w.cf_meta
                ≡ fluid_levels v.tree.smaller_lvl_runs_count v.cf_meta =
              ap (λ k. fluid_levels k w.cf_meta) lasts.smaller
              ∙ ap (λ m. suc (band v.tree.smaller_lvl_runs_count (m - 1))) lasts.same_levels in
            let settled =
              step.bounded (bound + i) (omega (arith, ap (λ f. f * c) levels))
                (lasts.bounded bound enough low) in
            omega (arith, settled);
      }

module _ (fp : DoubleOps) (e : IsExact fp) (cf_name : String)
    (size_ratio smaller larger file_size : ℕ) (options : TreeOptions) (found : Bool)
    (m : ColumnFamilyMetaData) (c d : ℕ)
    (readable : IsReadable smaller m (empty_levels options.num_levels)) (idle : IsIdle m)
    (positive : 1 ≤ d) (small_d : d ≤ smaller) (large_d : d ≤ larger) (small_c : smaller ≤ c)
    (large_c : larger ≤ c) where
  -- The listener as it is constructed, at a database.
  abbrev pub opened : Store
  opened = record { tree = new_tree size_ratio smaller larger file_size options found; cf_meta = m }

  opened-Lasts :
      {n j i : ℕ} {w : Store}
      → Rounds fp cf_name opened n j i w
      → Lasts fp e cf_name c d n j i opened w
  unfolding new_tree
  opened-Lasts rounds =
      Rounds-Lasts fp e cf_name c d
        (record { one = refl; none_running = refl; readable = readable; idle = idle })
        (record {
          positive = positive;
          small_d = small_d;
          large_d = large_d;
          small_c = small_c;
          large_c = large_c;
        })
        rounds

  -- From the construction of the listener on, at readable metadata without a running compaction, with exact
  -- doubles, limits K and Z that are not zero, and `c` no less than both: if the database has at most `c`
  -- sorted runs for each of its fluid levels, it has after any number of flushes, each of which comes to
  -- its end before the next one with the compaction that it schedules (Rounds), at most one more for
  -- each compaction that failed in the database, and no more without such a failure.
  pub Rounds-bounded :
      {n j i : ℕ} {w : Store}
      → live_runs m ≤ fluid_levels smaller m * c
      → Rounds fp cf_name opened n j i w
      → live_runs w.cf_meta ≤ fluid_levels smaller m * c + i
  unfolding new_tree
  Rounds-bounded before rounds =
      (opened-Lasts rounds).bounded (fluid_levels smaller m * c) (omega arith) before

  -- From the construction of the listener on, at readable metadata without a running compaction, with exact
  -- doubles, and `d` from 1 on and no more than the limits K and Z: `d` for each compaction that was
  -- carried out and the sorted runs that are left come to no more than the flushes and the sorted runs at
  -- the start, so that there is at most one such compaction for every `d` flushes in the long run, whatever
  -- else failed.
  pub Rounds-amortized :
      {n j i : ℕ} {w : Store}
      → Rounds fp cf_name opened n j i w
      → d * j + live_runs w.cf_meta ≤ n + live_runs m
  Rounds-amortized rounds = omega (arith, (opened-Lasts rounds).amortized)
