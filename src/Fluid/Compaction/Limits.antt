-- ===== src/Fluid/Compaction/Limits.antt =====
-- The two limits on sorted runs that PickCompaction keeps: K above the largest occupied level, Z at it.
use lsm_workload_aware_compa.Prelude.{
  ℕ, suc, ◌≤◌, ◌<◌, ◌≡◌, ◌⊎◌, refl, sym, ap, ◌∙◌, String, true, false, some, List, [], ◌∷◌, ◌++◌,
  arith, inl, inr, get_elem?, get_elem?-lt, length,
}
use lsm_workload_aware_compa.Double.{DoubleOps, IsExact}
use lsm_workload_aware_compa.Fluid.Structure.{
  ColumnFamilyMetaData, LazyLevel, build_levels, get_largest_occupied_level,
}
use lsm_workload_aware_compa.Fluid.Structure.Built.{IsReadable}
use lsm_workload_aware_compa.Fluid.Structure.Build.{length-build_levels}
use lsm_workload_aware_compa.Fluid.Structure.Counts.{get_largest_occupied_level-IsLargest}
use lsm_workload_aware_compa.Fluid.Structure.Live.{IsIdle, live_in}
use lsm_workload_aware_compa.Fluid.Compaction.{
  CompactionTask, FluidLsm, has_too_many_runs, on_flush_completed,
}
use lsm_workload_aware_compa.Fluid.Compaction.Chosen.{bottom}
use lsm_workload_aware_compa.Fluid.Compaction.Picking.{is_overfull, is_overfull_of_get, task_for}
use lsm_workload_aware_compa.Fluid.Compaction.Covering.{num_live_runs-live_in}
use lsm_workload_aware_compa.Fluid.Compaction.Flush.{
  Served, calm, serves, on_flush_completed-Served,
}
use lsm_workload_aware_compa.Fluid.Compaction.Picked.{viewing, largest_lt}

few_above :
    (s : FluidLsm) (g lvl live : ℕ)
    → has_too_many_runs s g lvl live ≡ false
    → lvl < g
    → live ≤ s.smaller_lvl_runs_count
few_above s g lvl live h above = ground arith

few_at :
    (s : FluidLsm) (g live : ℕ)
    → has_too_many_runs s g g live ≡ false
    → live ≤ s.larger_lvl_runs_count
few_at s g live h = ground arith

many_at :
    (s : FluidLsm) (g lvl live : ℕ)
    → has_too_many_runs s g lvl live ≡ true
    → ((lvl < g) × (s.smaller_lvl_runs_count < live))
      ⊎ ((lvl ≡ g) × (s.larger_lvl_runs_count < live))
many_at s g lvl live h = ground arith

module _ (fp : DoubleOps) (e : IsExact fp) (s : FluidLsm) (cf_name : String)
    (cf_meta : ColumnFamilyMetaData) (ls' : List LazyLevel)
    (h : IsReadable s.smaller_lvl_runs_count cf_meta s.lazy_levels) (idle : IsIdle cf_meta)
    (b : build_levels fp s.smaller_lvl_runs_count cf_meta s.lazy_levels ≡ some ls')
    (room : bottom s.smaller_lvl_runs_count (suc (get_largest_occupied_level ls'))
      < length cf_meta) where
  abbrev k : ℕ
  k = s.smaller_lvl_runs_count

  abbrev g : ℕ
  g = get_largest_occupied_level ls'

  -- The sorted runs of a fluid level, at which the test of PickCompaction has gone one way.
  live_tested :
      (f : ℕ) (l : LazyLevel)
      → get_elem? ls' f ≡ some l
      → has_too_many_runs s g f (live_in k f cf_meta) ≡ is_overfull (viewing s ls') g f
  live_tested f l at =
      ap (has_too_many_runs s g f)
        (sym (num_live_runs-live_in fp e k cf_meta s.lazy_levels ls' h idle b f l at))
      ∙ sym (is_overfull_of_get (viewing s ls') g f l at)

  in_view : g < length ls'
  in_view =
      largest_lt ls' g
        (omega
          (arith, length-build_levels fp e k cf_meta s.lazy_levels ls' h b, h.room, h.two_levels))
        (get_largest_occupied_level-IsLargest ls')

  calm_live :
      ((i : ℕ) → i < suc g → is_overfull (viewing s ls') g i ≡ false)
      → (f : ℕ) → f < suc g
      → has_too_many_runs s g f (live_in k f cf_meta) ≡ false
  calm_live none_over f within =
      let (l, at) = get_elem?-lt ls' f (omega (arith, in_view)) in
      live_tested f l at ∙ none_over f within

  Served-limits :
      {t : FluidLsm}
      → Served fp cf_meta (viewing s ls') cf_name g (suc g) t
      → ((t.scheduled ≡ s.scheduled)
          × ((f : ℕ) → f < g → live_in k f cf_meta ≤ k)
          × (live_in k g cf_meta ≤ s.larger_lvl_runs_count))
        ⊎ ((task : CompactionTask) × (lvl : ℕ) × (t.scheduled ≡ s.scheduled ++ task ∷ [])
            × (((lvl < g) × (k < live_in k lvl cf_meta))
                ⊎ ((lvl ≡ g) × (s.larger_lvl_runs_count < live_in k lvl cf_meta))))
  Served-limits (calm none_over) = inl (
    refl,
    λ f above. few_above s g f (live_in k f cf_meta) (calm_live none_over f (omega arith)) above,
    few_at s g (live_in k g cf_meta) (calm_live none_over g (omega arith)),
  )
  Served-limits (serves lvl target_lvl x l below at many quiet target chosen) = inr (
    task_for (viewing s ls') cf_name l x,
    lvl,
    refl,
    many_at s g lvl (live_in k lvl cf_meta) (live_tested lvl l at ∙ many),
  )

  -- On readable metadata of which no file is being compacted, with exact doubles, no compaction running of
  -- the one that is allowed, and the band of RocksDB levels below the largest occupied fluid level
  -- complete: OnFlushCompleted ends without a fault. If it has scheduled nothing, every fluid level above
  -- the largest occupied one has at most K sorted runs in the database, and that one at most Z. If it has
  -- scheduled a task, there is a level above it with more than K, or it has more than Z itself.
  pub on_flush_completed_limits :
      s.parallel_compactions_allowed ≡ 1
      → s.parallel_compactions_running ≡ 0
      → (t : FluidLsm) × (on_flush_completed fp s cf_name cf_meta ≡ some t)
        × (((t.scheduled ≡ s.scheduled)
              × ((f : ℕ) → f < g → live_in k f cf_meta ≤ k)
              × (live_in k g cf_meta ≤ s.larger_lvl_runs_count))
            ⊎ ((task : CompactionTask) × (lvl : ℕ) × (t.scheduled ≡ s.scheduled ++ task ∷ [])
                × (((lvl < g) × (k < live_in k lvl cf_meta))
                    ⊎ ((lvl ≡ g) × (s.larger_lvl_runs_count < live_in k lvl cf_meta)))))
  on_flush_completed_limits one none_running =
      let (t, ended, served) =
        on_flush_completed-Served fp e s cf_name cf_meta ls' h b room one none_running in
      (t, ended, Served-limits served)
