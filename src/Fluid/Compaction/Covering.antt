-- ===== src/Fluid/Compaction/Covering.antt =====
-- The task for a fluid level names all files of the RocksDB levels that make up that level.
use mathlib.Core.Path.{subst}
use lsm_workload_aware_compa.Prelude.{
  ℕ, zero, suc, ◌≡◌, refl, sym, ap, ◌∙◌, String, true, some, List, [], ◌∷◌, ◌++◌, arith, get_elem?,
}
use lsm_workload_aware_compa.Double.{DoubleOps, IsExact}
use lsm_workload_aware_compa.Fluid.Structure.{
  SstFileMetaData, ColumnFamilyMetaData, LazyLevel, clear_all, build_levels, num_live_runs,
  count_live_runs,
}
use lsm_workload_aware_compa.Fluid.Structure.Bands.{band, band-zero, band-one}
use lsm_workload_aware_compa.Fluid.Structure.Slots.{runs_at}
use lsm_workload_aware_compa.Fluid.Structure.Files.{run_files, all_files, meta_files}
use lsm_workload_aware_compa.Fluid.Structure.Built.{
  IsReadable, built, base_runs, build_levels-eq-built, head_level, length-clear_all,
}
use lsm_workload_aware_compa.Fluid.Structure.Live.{AreIdle, IsIdle, live_in, live_runs_at}
use lsm_workload_aware_compa.Fluid.Structure.Build.{build_levels_keeps_files}
use lsm_workload_aware_compa.Fluid.Compaction.Refs.{names, idle_files, get_elem?-runs_at}
use lsm_workload_aware_compa.Fluid.Compaction.Merging.{contains, Covers}
use lsm_workload_aware_compa.Fluid.Compaction.Named.{
  Named, CoversFiles, Named-mono, Named-names, CoversFiles-Covers, Named-place, base_files,
}

module _ (fp : DoubleOps) (e : IsExact fp) (k : ℕ) (taken : List String) where
  Named-Covers :
      (cf_meta : ColumnFamilyMetaData) (ls ls' : List LazyLevel) (f : ℕ)
      → IsReadable k cf_meta ls
      → build_levels fp k cf_meta ls ≡ some ls'
      → Named taken (run_files (runs_at ls' f))
      → CoversFiles taken k f cf_meta
  unfolding built
  Named-Covers [] ls ls' f h b n = absurd (omega (arith, h.two_levels))
  Named-Covers (x ∷ []) ls ls' f h b n = absurd (omega (arith, h.two_levels))
  Named-Covers (l0 ∷ l1 ∷ deeper) [] ls' f h b n = absurd (omega (arith, h.room))
  Named-Covers (l0 ∷ l1 ∷ deeper) (l ∷ ls) ls' f h b n =
      let same : ls' ≡ built k l0 l1 deeper ls =
        cc (build_levels-eq-built fp e k l0 l1 deeper l ls h) in
      let (based, deep) =
        Named-place taken k f 0 deeper (head_level (base_runs k l0 l1) (clear_all ls))
          h.numbered.1.1 (omega (arith, h.room, length-clear_all ls))
          (subst (λ v. Named taken (run_files (runs_at v f))) same n) in
      let (at0, at1) =
        base_files taken k f l0 l1 (ap (band k) h.numbered.0 ∙ band-zero k)
          (ap (band k) h.numbered.1.0 ∙ band-one k) (clear_all ls) based in
      (at0, (at1, deep))

idle_files_of_idle : (fs : List SstFileMetaData) → AreIdle fs → idle_files fs ≡ fs
unfolding idle_files
idle_files_of_idle [] h = refl
idle_files_of_idle (f ∷ fs) h = simp (h.0, idle_files_of_idle fs h.1)

AreIdle-split : (fs gs : List SstFileMetaData) → AreIdle (fs ++ gs) → AreIdle fs × AreIdle gs
AreIdle-split [] gs h = (tt, h)
AreIdle-split (f ∷ fs) gs h = let (l, r) = AreIdle-split fs gs h.1 in ((h.0, l), r)

AreIdle-append : (fs gs : List SstFileMetaData) → AreIdle fs → AreIdle gs → AreIdle (fs ++ gs)
AreIdle-append [] gs h i = i
AreIdle-append (f ∷ fs) gs h i = (h.0, AreIdle-append fs gs h.1 i)

AreIdle-meta_files : (m : ColumnFamilyMetaData) → IsIdle m → AreIdle (meta_files m)
unfolding meta_files
AreIdle-meta_files [] h = tt
AreIdle-meta_files (lv ∷ lvs) h = AreIdle-append lv.files _ h.0 (AreIdle-meta_files lvs h.1)

AreIdle-runs_at :
    (ls : List LazyLevel) (f : ℕ) → AreIdle (all_files ls) → AreIdle (run_files (runs_at ls f))
unfolding all_files runs_at run_files
AreIdle-runs_at [] f h = tt
AreIdle-runs_at (l ∷ ls) zero h = (AreIdle-split (run_files l.runs) (all_files ls) h).0
AreIdle-runs_at (l ∷ ls) (suc f) h =
    AreIdle-runs_at ls f (AreIdle-split (run_files l.runs) (all_files ls) h).1

module _ (fp : DoubleOps) (e : IsExact fp) (k : ℕ) (cf_meta : ColumnFamilyMetaData)
    (ls ls' : List LazyLevel) (h : IsReadable k cf_meta ls) (idle : IsIdle cf_meta)
    (b : build_levels fp k cf_meta ls ≡ some ls') (lvl : ℕ) (l : LazyLevel)
    (at : get_elem? ls' lvl ≡ some l) where
  all_idle : AreIdle (run_files l.runs)
  all_idle =
      let (built_view, ended, kept) = build_levels_keeps_files fp e k cf_meta ls h in
      let same : built_view ≡ ls' = cc in
      let files : all_files ls' ≡ meta_files cf_meta = ap all_files (sym same) ∙ kept in
      subst (λ rs. AreIdle (run_files rs)) (get_elem?-runs_at ls' lvl at)
        (AreIdle-runs_at ls' lvl (subst AreIdle (sym files) (AreIdle-meta_files cf_meta idle)))

  -- A compaction that takes the files named in a task for a fluid level takes all files of the level.
  pub task-Covers :
      (taken : List String)
      → ((n : String)
          → contains n (names (idle_files (run_files l.runs))) ≡ true
          → contains n taken ≡ true)
      → Covers taken k lvl cf_meta
  task-Covers taken more = CoversFiles-Covers taken k lvl cf_meta (
      Named-Covers fp e k taken cf_meta ls ls' lvl h b (
        subst (λ rs. Named taken (run_files rs)) (sym (get_elem?-runs_at ls' lvl at))
          (Named-mono (names (run_files l.runs)) taken (run_files l.runs)
            (λ n named. more n (
              ap (λ fs. contains n (names fs)) (idle_files_of_idle (run_files l.runs) all_idle)
              ∙ named))
            (Named-names (run_files l.runs)))))

  pub num_live_runs-live_in : num_live_runs l ≡ live_in k lvl cf_meta
  unfolding num_live_runs
  num_live_runs-live_in =
      ap (count_live_runs 0) (sym (get_elem?-runs_at ls' lvl at))
      ∙ live_runs_at fp e k cf_meta ls ls' lvl h idle b
