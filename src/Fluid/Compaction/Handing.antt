-- ===== src/Fluid/Compaction/Handing.antt =====
-- What PickCompaction may do to the count of running compactions and to the tasks handed over.
use lsm_workload_aware_compa.Prelude.{
  ℕ, zero, suc, ◌+◌, ◌≤◌, ◌<◌, ◌≡◌, refl, ◌∙◌, String, List, [], ◌∷◌, ◌++◌, arith, ltb, ltb→lt,
  get_elem?, length, length-append,
}
use lsm_workload_aware_compa.Prelude.Yields.{
  Yields, yields_some, if-Yields, bind-Yields, then-Yields, map-Yields,
}
use lsm_workload_aware_compa.Double.{DoubleOps}
use lsm_workload_aware_compa.Fluid.Structure.{
  ColumnFamilyMetaData, LazyLevel, num_live_runs, build_levels,
}
use lsm_workload_aware_compa.Fluid.Compaction.{
  CompactionTask, FluidLsm, FileRef, schedule_compaction, build_structure, compact_level,
  has_too_many_runs, add_files_to_compaction, get_compaction_target_level, pick_level, pick_levels,
  pick_compaction, output_level, take_files,
}

-- What scheduling may do to the tree: hand over some tasks, and count them.
pub record Hands (s s' : FluidLsm) : Type 0 where
  pub counted :
      s'.parallel_compactions_running + length s.scheduled
      ≡ s.parallel_compactions_running + length s'.scheduled
  pub more : s.parallel_compactions_running ≤ s'.parallel_compactions_running
  pub same_limit : s'.parallel_compactions_allowed ≡ s.parallel_compactions_allowed
  pub limited :
      s.parallel_compactions_running ≤ s.parallel_compactions_allowed
      → s'.parallel_compactions_running ≤ s.parallel_compactions_allowed

pub Hands-refl : (s : FluidLsm) → Hands s s
Hands-refl s = record { counted = refl; more = omega arith; same_limit = refl; limited = λ h. h }

Hands-trans : {s t u : FluidLsm} → Hands s t → Hands t u → Hands s u
Hands-trans a b = record {
  counted = omega (arith, a.counted, b.counted);
  more = omega (arith, a.more, b.more);
  same_limit = b.same_limit ∙ a.same_limit;
  limited = λ h. omega (arith, b.limited (omega (arith, a.limited h, a.same_limit)), a.same_limit);
}

handed-Hands :
    (s : FluidLsm) (ls : List LazyLevel) (task : CompactionTask)
    → s.parallel_compactions_running < s.parallel_compactions_allowed
    → Hands s (record s {
      lazy_levels = ls;
      parallel_compactions_running = s.parallel_compactions_running + 1;
      scheduled = s.scheduled ++ task ∷ [];
    })
handed-Hands s ls task room = record {
  counted = omega (arith, length-append s.scheduled (task ∷ []));
  more = omega arith;
  same_limit = refl;
  limited = λ h. omega arith;
}

schedule_compaction-Hands :
    (s : FluidLsm) (cf_name : String) (origin_lvl target_lvl : ℕ) (refs : List FileRef)
    → Yields (Hands s) (schedule_compaction s cf_name origin_lvl target_lvl refs)
unfolding schedule_compaction
schedule_compaction-Hands s cf_name origin_lvl target_lvl refs =
    if-Yields (ltb s.parallel_compactions_running s.parallel_compactions_allowed)
      (λ room.
        bind-Yields (output_level s.lazy_levels s.smaller_lvl_runs_count origin_lvl target_lvl)
          λ rocksdb_lvl.
            bind-Yields (take_files s.lazy_levels refs)
              λ taken. yields_some (handed-Hands s taken.1 _ (ltb→lt _ _ room)))
      (λ full. yields_some (Hands-refl s))

module _ (fp : DoubleOps) where
  compact_level-Hands :
      (s : FluidLsm) (cf_name : String) (lvl : ℕ)
      → Yields (Hands s) (compact_level fp s cf_name lvl)
  unfolding compact_level
  compact_level-Hands s cf_name lvl =
      bind-Yields (add_files_to_compaction s.lazy_levels lvl []) λ refs.
        bind-Yields (get_compaction_target_level fp s lvl refs)
          λ target. schedule_compaction-Hands s cf_name lvl target refs

  pick_level-Hands :
      (s : FluidLsm) (cf_name : String) (largest_lvl lvl : ℕ)
      → Yields (Hands s) (pick_level fp s cf_name largest_lvl lvl)
  unfolding pick_level
  pick_level-Hands s cf_name largest_lvl lvl = bind-Yields (get_elem? s.lazy_levels lvl) λ l.
      if-Yields (has_too_many_runs s largest_lvl lvl (num_live_runs l))
        (λ many. compact_level-Hands s cf_name lvl) (λ few. yields_some (Hands-refl s))

  pick_levels-Hands :
      (n : ℕ) (s : FluidLsm) (cf_name : String) (largest_lvl : ℕ)
      → Yields (Hands s) (pick_levels fp n s cf_name largest_lvl)
  unfolding pick_levels
  pick_levels-Hands zero s cf_name largest_lvl = yields_some (Hands-refl s)
  pick_levels-Hands (suc lvl) s cf_name largest_lvl =
      then-Yields (pick_level-Hands s cf_name largest_lvl lvl)
        λ t first. map-Yields (λ u. Hands-trans first) (pick_levels-Hands lvl t cf_name largest_lvl)

  build_structure-Hands :
      (s : FluidLsm) (cf_meta : ColumnFamilyMetaData)
      → Yields (Hands s) (build_structure fp s cf_meta)
  unfolding build_structure
  build_structure-Hands s cf_meta =
      bind-Yields (build_levels fp s.smaller_lvl_runs_count cf_meta s.lazy_levels) λ ls.
        yields_some
          (record { counted = refl; more = omega arith; same_limit = refl; limited = λ k. k })

  -- A pick counts each task that it hands over, and keeps to the limit on parallel compactions.
  pub pick_compaction-Hands :
      (s : FluidLsm) (cf_name : String) (cf_meta : ColumnFamilyMetaData)
      → Yields (Hands s) (pick_compaction fp s cf_name cf_meta)
  unfolding pick_compaction
  pick_compaction-Hands s cf_name cf_meta =
      then-Yields (build_structure-Hands s cf_meta)
        λ t built. map-Yields (λ u. Hands-trans built) (pick_levels-Hands _ t cf_name _)
