-- ===== src/Fluid/Compaction/Steady.antt =====
-- The state between two rounds, and that the background thread comes back to it.
use lsm_workload_aware_compa.Prelude.{
  ℕ, ◌+◌, ◌-◌, ◌≤◌, ◌≡◌, ◌⊎◌, inl, inr, refl, ◌∙◌, String, Bool, Bool, false, some, List, [], ◌∷◌,
  ◌++◌, arith, length,
}
use lsm_workload_aware_compa.Double.{DoubleOps, IsExact}
use lsm_workload_aware_compa.Fluid.Structure.{SstFileMetaData, ColumnFamilyMetaData, LazyLevel}
use lsm_workload_aware_compa.Fluid.Structure.Built.{IsReadable}
use lsm_workload_aware_compa.Fluid.Structure.Placing.{IsNumbered}
use lsm_workload_aware_compa.Fluid.Structure.Live.{IsIdle, live_runs}
use lsm_workload_aware_compa.Fluid.Structure.Total.{
  add_flushed, length-add_flushed, live_runs-add_flushed, IsNumbered-add_flushed,
  IsIdle-add_flushed,
}
use lsm_workload_aware_compa.Fluid.Compaction.{
  CompactionTask, FluidLsm, compact_files, on_flush_completed,
}
use lsm_workload_aware_compa.Fluid.Compaction.Picking.{after_schedule, task_for, length-mark_level}
use lsm_workload_aware_compa.Fluid.Compaction.Merging.{
  Compacts, Compacts-length, Compacts-IsNumbered, Compacts-IsIdle,
}
use lsm_workload_aware_compa.Fluid.Compaction.Picked.{
  Picked, quiet, schedules, viewing, on_flush_completed-Picked,
}
use lsm_workload_aware_compa.Fluid.Compaction.Rounds.{Store}
use lsm_workload_aware_compa.Fluid.Compaction.Quiet.{compact_files-quiet, IsReadable-same}

-- Between two rounds no compaction runs, of the one that is allowed, and the metadata is readable.
pub record IsSteady (w : Store) : Type 0 where
  pub one : w.tree.parallel_compactions_allowed ≡ 1
  pub none_running : w.tree.parallel_compactions_running ≡ 0
  pub readable : IsReadable w.tree.smaller_lvl_runs_count w.cf_meta w.tree.lazy_levels
  pub idle : IsIdle w.cf_meta

-- `c` is no less and `d` no more than both limits on runs, and `d` is not zero.
pub record IsBetween (c d : ℕ) (s : FluidLsm) : Type 0 where
  pub positive : 1 ≤ d
  pub small_d : d ≤ s.smaller_lvl_runs_count
  pub large_d : d ≤ s.larger_lvl_runs_count
  pub small_c : s.smaller_lvl_runs_count ≤ c
  pub large_c : s.larger_lvl_runs_count ≤ c

module _ (fp : DoubleOps) (e : IsExact fp) (cf_name : String) (v : Store) (steady : IsSteady v)
    (c d : ℕ) (limits : IsBetween c d v.tree) (file : SstFileMetaData)
    (file_idle : file.being_compacted ≡ false) where
  abbrev k : ℕ
  k = v.tree.smaller_lvl_runs_count

  -- The levels behind the flush.
  abbrev pub m1 : ColumnFamilyMetaData
  m1 = add_flushed file v.cf_meta

  pub one_more : live_runs m1 ≡ live_runs v.cf_meta + 1
  one_more =
      live_runs-add_flushed file v.cf_meta steady.readable.numbered
        (omega (arith, steady.readable.two_levels))

  pub m1-IsReadable : IsReadable k m1 v.tree.lazy_levels
  m1-IsReadable =
      IsReadable-same steady.readable (length-add_flushed file v.cf_meta) refl
        (IsNumbered-add_flushed file v.cf_meta steady.readable.numbered)

  pub m1-IsIdle : IsIdle m1
  m1-IsIdle = IsIdle-add_flushed file v.cf_meta file_idle steady.idle

  pub flush-Picked :
      {t : FluidLsm}
      → on_flush_completed fp v.tree cf_name m1 ≡ some t
      → Picked fp v.tree cf_name m1 c d t
  flush-Picked =
      on_flush_completed-Picked fp e v.tree cf_name m1 c d m1-IsReadable m1-IsIdle limits.small_c
        limits.large_c limits.small_d limits.large_d steady.one steady.none_running

  -- The background thread comes to its end, and the store is as between two rounds.
  pub task_ends :
      (ls' : List LazyLevel) (lvl x : ℕ) (l : LazyLevel) (task : CompactionTask)
      (is_io_error : Bool) (m2 : ColumnFamilyMetaData)
      → length ls' ≡ length v.tree.lazy_levels
      → length m2 ≡ length m1
      → IsNumbered 0 m2
      → IsIdle m2
      → (u : FluidLsm) × (compact_files fp
            (after_schedule (viewing v.tree ls') cf_name lvl l x)
            task
            is_io_error
            m2
          ≡ some u)
        × IsSteady (record { tree = u; cf_meta = m2 })
        × (u.smaller_lvl_runs_count ≡ k)
        × (u.larger_lvl_runs_count ≡ v.tree.larger_lvl_runs_count)
  task_ends ls' lvl x l task is_io_error m2 same same_meta numbered idle =
      let t = after_schedule (viewing v.tree ls') cf_name lvl l x in
      let readable : IsReadable k m2 t.lazy_levels =
        IsReadable-same m1-IsReadable same_meta (length-mark_level ls' lvl ∙ same) numbered in
      let (ls, same_ls, quietly) =
        compact_files-quiet fp e t task is_io_error m2 readable
          (omega (arith, steady.one, steady.none_running)) in
      (
        record t {
          lazy_levels = ls;
          parallel_compactions_running = t.parallel_compactions_running - 1;
        },
        quietly,
        record {
          one = steady.one;
          none_running = omega (arith, steady.none_running);
          readable = IsReadable-same readable refl same_ls numbered;
          idle = idle;
        },
        refl,
        refl,
      )

  pub Picked-goes_on :
      {t : FluidLsm}
      → Picked fp v.tree cf_name m1 c d t
      → (t.scheduled ≡ v.tree.scheduled)
        ⊎ ((task : CompactionTask) × (t.scheduled ≡ v.tree.scheduled ++ task ∷ [])
            × ((taken : List String) (m2 : ColumnFamilyMetaData)
                → Compacts taken task.output_lvl m1 m2
                → (u : FluidLsm) × (compact_files fp t task false m2 ≡ some u))
            × ((is_io_error : Bool)
                → (u : FluidLsm) × (compact_files fp t task is_io_error m1 ≡ some u)))
  Picked-goes_on (quiet ls' same few) = inl refl
  Picked-goes_on (schedules ls' lvl x l same b at positive many) =
      let task = task_for (viewing v.tree ls') cf_name l x in
      inr (
        task,
        refl,
        λ taken m2 done.
            let (u, ends, ready, small, large) =
              task_ends ls' lvl x l task false m2 same (Compacts-length taken x m1 m2 done)
                (Compacts-IsNumbered taken x 0 m1 m2 done m1-IsReadable.numbered)
                (Compacts-IsIdle taken x m1 m2 done) in
            (u, ends),
        λ is_io_error.
            let (u, ends, ready, small, large) =
              task_ends ls' lvl x l task is_io_error m1 same refl m1-IsReadable.numbered
                m1-IsIdle in
            (u, ends),
      )
