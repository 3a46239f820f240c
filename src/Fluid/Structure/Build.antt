-- ===== src/Fluid/Structure/Build.antt =====
-- What BuildStructure makes of the metadata: no fault, every file once and in order, every RocksDB level
-- at its slot, whatever the view held before.
use lsm_workload_aware_compa.Prelude.{
  ℕ, suc, ◌+◌, ◌-◌, ◌/◌, ◌%◌, ◌<◌, ◌≡◌, refl, ap, some, List, [], ◌∷◌, arith, length, get_elem?,
}
use lsm_workload_aware_compa.Double.{DoubleOps, IsExact}
use lsm_workload_aware_compa.Fluid.Structure.{
  LevelMetaData, ColumnFamilyMetaData, Run, LazyLevel, clear_all, build_levels,
}
use lsm_workload_aware_compa.Fluid.Structure.Bands.{band, band-round}
use lsm_workload_aware_compa.Fluid.Structure.Placing.{run_of, run_of-files, run_of-rocksdb_level}
use lsm_workload_aware_compa.Fluid.Structure.Slots.{
  runs_at, slots_used, get_elem?-place, HasUsed-place, length-place,
}
use lsm_workload_aware_compa.Fluid.Structure.Files.{all_files, meta_files}
use lsm_workload_aware_compa.Fluid.Structure.Built.{
  IsReadable, built, build_levels-eq-built, all_files-built, base_runs, HasUsed-head, head_level,
  length-clear_all,
}

module _ (fp : DoubleOps) (e : IsExact fp) (k : ℕ) where
  -- On readable metadata (IsReadable), with exact doubles, BuildStructure ends without a fault, and every
  -- file of the metadata is in the view once, in the order of the levels, and nothing else.
  pub build_levels_keeps_files :
      (cf_meta : ColumnFamilyMetaData) (ls : List LazyLevel)
      → IsReadable k cf_meta ls
      → (ls' : List LazyLevel) × (build_levels fp k cf_meta ls ≡ some ls')
        × (all_files ls' ≡ meta_files cf_meta)
  build_levels_keeps_files [] ls h = absurd (omega (arith, h.two_levels))
  build_levels_keeps_files (x ∷ []) ls h = absurd (omega (arith, h.two_levels))
  build_levels_keeps_files (l0 ∷ l1 ∷ deeper) [] h = absurd (omega (arith, h.room))
  build_levels_keeps_files (l0 ∷ l1 ∷ deeper) (l ∷ ls) h = (
    built k l0 l1 deeper ls,
    build_levels-eq-built fp e k l0 l1 deeper l ls h,
    all_files-built k l0 l1 deeper l ls h,
  )

  -- The view keeps its number of levels.
  pub length-build_levels :
      (cf_meta : ColumnFamilyMetaData) (ls ls' : List LazyLevel)
      → IsReadable k cf_meta ls
      → build_levels fp k cf_meta ls ≡ some ls'
      → length ls' ≡ length ls
  unfolding built
  length-build_levels [] ls ls' h b = absurd (omega (arith, h.two_levels))
  length-build_levels (x ∷ []) ls ls' h b = absurd (omega (arith, h.two_levels))
  length-build_levels (l0 ∷ l1 ∷ deeper) [] ls' h b = absurd (omega (arith, h.room))
  length-build_levels (l0 ∷ l1 ∷ deeper) (l ∷ ls) ls' h b =
      let same : built k l0 l1 deeper ls ≡ ls' =
        cc (build_levels-eq-built fp e k l0 l1 deeper l ls h) in
      rw (← same) (
        omega (
          arith,
          length-place k 0 deeper (head_level (base_runs k l0 l1) (clear_all ls)),
          length-clear_all ls,
        ))

  -- In the view of readable metadata, with exact doubles, RocksDB's level `m + 2` is the run at slot `m %
  -- (k + 1)` of the fluid level that its band is: the run holds the level's files and its number.
  -- The levels 2 to `k + 2` are the first of these bands, and level 1 is in none of them, unlike in the
  -- comment on FluidLSM, where a band begins at level 1.
  pub build_levels_slot :
      (cf_meta : ColumnFamilyMetaData) (ls ls' : List LazyLevel) (m : ℕ) (lv : LevelMetaData)
      → IsReadable k cf_meta ls
      → build_levels fp k cf_meta ls ≡ some ls'
      → get_elem? cf_meta (suc (suc m)) ≡ some lv
      → (r : Run) × (get_elem? (runs_at ls' (band k (m + 2))) (m % (k + 1)) ≡ some r)
        × (r.files ≡ lv.files)
        × (r.rocksdb_level ≡ lv.level)
  unfolding built
  build_levels_slot [] ls ls' m lv h b g = cc
  build_levels_slot (x ∷ []) ls ls' m lv h b g = cc
  build_levels_slot (l0 ∷ l1 ∷ deeper) [] ls' m lv h b g = absurd (omega (arith, h.room))
  build_levels_slot (l0 ∷ l1 ∷ deeper) (l ∷ ls) ls' m lv h b g =
      (run_of lv, rw (← same, band-round k m) placed, run_of-files lv, run_of-rocksdb_level lv)
    where
      same : built k l0 l1 deeper ls ≡ ls'
      same = cc (build_levels-eq-built fp e k l0 l1 deeper l ls h)

      placed :
          get_elem? (runs_at (built k l0 l1 deeper ls) (suc (m / (k + 1)))) (m % (k + 1))
          ≡ some (run_of lv)
      placed =
          let z : 0 + m ≡ m = omega arith in
          rw z at (
            get_elem?-place k 0 deeper (head_level (base_runs k l0 l1) (clear_all ls)) m
              (HasUsed-head k (base_runs k l0 l1) ls) (omega (arith, h.room, length-clear_all ls))
              g)

  -- In the view of readable metadata, with exact doubles, fluid level `f + 1` has exactly the slots that
  -- the levels from 2 on fill: `k + 1`, or what is left over for the last of them, or none. In
  -- the comment on FluidLSM the first of these bands begins at level 1 instead.
  pub build_levels_slots :
      (cf_meta : ColumnFamilyMetaData) (ls ls' : List LazyLevel) (f : ℕ)
      → IsReadable k cf_meta ls
      → build_levels fp k cf_meta ls ≡ some ls'
      → suc f < length ls
      → length (runs_at ls' (suc f)) ≡ slots_used k (length cf_meta - 2) f
  unfolding built
  build_levels_slots [] ls ls' f h b g = absurd (omega (arith, h.two_levels))
  build_levels_slots (x ∷ []) ls ls' f h b g = absurd (omega (arith, h.two_levels))
  build_levels_slots (l0 ∷ l1 ∷ deeper) [] ls' f h b g = absurd (omega (arith, h.room))
  build_levels_slots (l0 ∷ l1 ∷ deeper) (l ∷ ls) ls' f h b g = rw (← same, rounds) used
    where
      same : built k l0 l1 deeper ls ≡ ls'
      same = cc (build_levels-eq-built fp e k l0 l1 deeper l ls h)

      rounds : suc (suc (length deeper)) - 2 ≡ 0 + length deeper
      rounds = omega arith

      used : length (runs_at (built k l0 l1 deeper ls) (suc f)) ≡ slots_used k (0 + length deeper) f
      used =
          HasUsed-place k 0 deeper (head_level (base_runs k l0 l1) (clear_all ls))
            (HasUsed-head k (base_runs k l0 l1) ls) f
            (omega (
              arith,
              length-clear_all ls,
              length-place k 0 deeper (head_level (base_runs k l0 l1) (clear_all ls)),
            ))

clear_all-eq : (ls ms : List LazyLevel) → length ls ≡ length ms → clear_all ls ≡ clear_all ms
unfolding clear_all
clear_all-eq [] [] h = refl
clear_all-eq [] (m ∷ ms) h = absurd (omega arith)
clear_all-eq (l ∷ ls) [] h = absurd (omega arith)
clear_all-eq (l ∷ ls) (m ∷ ms) h =
    ap (◌∷◌ (record { runs = [] })) (clear_all-eq ls ms (omega arith))

-- What the view held before does not matter: BuildStructure makes the same of the metadata from any two
-- views with as many levels.
pub build_levels_fresh :
    (fp : DoubleOps) (k : ℕ) (cf_meta : ColumnFamilyMetaData) (ls ms : List LazyLevel)
    → length ls ≡ length ms
    → build_levels fp k cf_meta ls ≡ build_levels fp k cf_meta ms
unfolding build_levels
build_levels_fresh fp k [] ls ms h = refl
build_levels_fresh fp k (x ∷ []) ls ms h = refl
build_levels_fresh fp k (l0 ∷ l1 ∷ deeper) ls ms h = rw (clear_all-eq ls ms h)
