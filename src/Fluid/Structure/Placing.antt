-- ===== src/Fluid/Structure/Placing.antt =====
-- What the loop of BuildStructure over RocksDB's levels from 2 on does, without faults and floating
-- point: the levels are placed as runs, band by band and slot by slot.
use native.Mathlib.Nat.{div-le_self}
use lsm_workload_aware_compa.Prelude.{
  ℕ, suc, ◌+◌, ◌/◌, ◌≤◌, ◌<◌, ◌≡◌, refl, ap, ◌∙◌, some, List, [], ◌∷◌, ◌++◌, append-nil,
  append_assoc, arith, length, modify, modify?-eq-modify, length-modify,
}
use lsm_workload_aware_compa.Prelude.Int.{pos}
use lsm_workload_aware_compa.Double.{DoubleOps, IsExact, exact_limit}
use lsm_workload_aware_compa.Fluid.Structure.{
  SstFileMetaData, LevelMetaData, Run, LazyLevel, new_run, add_file, add_files, add_run, create_run,
  create_run_at, create_deep_runs, fluid_level,
}
use lsm_workload_aware_compa.Fluid.Structure.Bands.{band, fluid_level-eq-band, band-round}

-- The levels of the metadata are numbered in order from `n` on, as RocksDB does.
abbrev pub IsNumbered : ℕ → List LevelMetaData → Type 0
IsNumbered n [] = Unit
IsNumbered n (lv ∷ lvs) = (lv.level ≡ n) × IsNumbered (suc n) lvs

abbrev pub run_of : LevelMetaData → Run
run_of lv = add_files (new_run lv.level) lv.files

pub add_files-files :
    (run : Run) (files : List SstFileMetaData) → (add_files run files).files ≡ run.files ++ files
unfolding add_files add_file
add_files-files run [] = rw append-nil
add_files-files run (file ∷ files) =
    add_files-files (add_file run file) files ∙ append_assoc run.files (file ∷ []) files

add_files-rocksdb_level :
    (run : Run) (files : List SstFileMetaData)
    → (add_files run files).rocksdb_level ≡ run.rocksdb_level
unfolding add_files add_file
add_files-rocksdb_level run [] = refl
add_files-rocksdb_level run (file ∷ files) = add_files-rocksdb_level (add_file run file) files

-- A run holds the files that it is made of, and the RocksDB level that they lie at.
pub run_of-files : (lv : LevelMetaData) → (run_of lv).files ≡ lv.files
run_of-files lv = add_files-files (new_run lv.level) lv.files

pub run_of-rocksdb_level : (lv : LevelMetaData) → (run_of lv).rocksdb_level ≡ lv.level
run_of-rocksdb_level lv = add_files-rocksdb_level (new_run lv.level) lv.files

unfoldable pub place : ℕ → ℕ → List LevelMetaData → List LazyLevel → List LazyLevel
place k n [] ls = ls
place k n (lv ∷ lvs) ls = place k (suc n) lvs (modify ls (suc (n / (k + 1))) (add_run (run_of lv)))

module _ (fp : DoubleOps) (e : IsExact fp) (k : ℕ) where
  create_run_at-eq-modify :
      (n : ℕ) (lv : LevelMetaData) (ls : List LazyLevel)
      → lv.level ≡ suc (suc n)
      → n + 2 < length ls
      → length ls + k + 1 < exact_limit
      → create_run_at fp ls lv.files (fluid_level fp k lv.level) lv.level
        ≡ some (modify ls (suc (n / (k + 1))) (add_run (run_of lv)))
  unfolding create_run_at create_run
  create_run_at-eq-modify n lv ls numbered room fits =
      rw at_band (modify?-eq-modify ls (suc (n / (k + 1))) _ below)
    where
      at_band : fluid_level fp k lv.level ≡ pos (suc (n / (k + 1)))
      at_band =
          fluid_level-eq-band fp k lv.level e (omega arith) (omega arith)
          ∙ ap pos (ap (band k) numbered ∙ ap (band k) (omega arith) ∙ band-round k n)

      below : suc (n / (k + 1)) < length ls
      below = omega (arith, div-le_self n (k + 1))

  -- The loop ends with no fault, and has placed the levels.
  pub create_deep_runs-eq-place :
      (n : ℕ) (lvs : List LevelMetaData) (ls : List LazyLevel)
      → IsNumbered (suc (suc n)) lvs
      → n + 2 + length lvs ≤ length ls
      → length ls + k + 1 < exact_limit
      → create_deep_runs fp k lvs ls ≡ some (place k n lvs ls)
  unfolding create_deep_runs place
  create_deep_runs-eq-place n [] ls numbered room fits = refl
  create_deep_runs-eq-place n (lv ∷ lvs) ls numbered room fits =
      rw (create_run_at-eq-modify n lv ls numbered.0 (omega arith) fits) (
        create_deep_runs-eq-place (suc n) lvs _ numbered.1
          (omega (arith, length-modify ls (suc (n / (k + 1))) (add_run (run_of lv))))
          (omega (arith, length-modify ls (suc (n / (k + 1))) (add_run (run_of lv)))))
