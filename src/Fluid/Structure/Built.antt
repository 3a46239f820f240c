-- ===== src/Fluid/Structure/Built.antt =====
-- The view that BuildStructure makes of readable metadata, written out, and its files.
use lsm_workload_aware_compa.Prelude.{
  ℕ, zero, suc, ◌+◌, ◌-◌, ◌≤◌, ◌<◌, ◌≡◌, refl, ap, ◌∙◌, some, List, [], ◌∷◌, ◌++◌, append-nil,
  append_assoc, All, arith, bit, not, is_empty, length,
}
use lsm_workload_aware_compa.Double.{DoubleOps, IsExact, exact_limit}
use lsm_workload_aware_compa.Fluid.Structure.{
  SstFileMetaData, LevelMetaData, ColumnFamilyMetaData, Run, LazyLevel, new_run, add_file,
  add_files, create_run, clear_all, create_empty_runs, create_level0_runs, build_levels,
}
use lsm_workload_aware_compa.Fluid.Structure.Placing.{
  IsNumbered, add_files-files, place, create_deep_runs-eq-place,
}
use lsm_workload_aware_compa.Fluid.Structure.Slots.{runs_at, HasUsed, slots_used}
use lsm_workload_aware_compa.Fluid.Structure.Files.{
  run_files, all_files, meta_files, run_files-append, all_files_of_clear, all_files-place,
  IsClearPast,
}

unfoldable pub empties : ℕ → List Run
empties zero = []
empties (suc n) = new_run 0 ∷ empties n

unfoldable pub singles : List SstFileMetaData → List Run
singles [] = []
singles (file ∷ files) = add_files (new_run 0) (file ∷ []) ∷ singles files

-- The number of empty runs that fill level 0 up.
abbrev pub padding : ℕ → LevelMetaData → LevelMetaData → ℕ
padding k l0 l1 = k - (length l0.files + bit (not (is_empty l1.files)))

-- The runs of fluid level 0: the filling, one run for each file of RocksDB's level 0, and its level 1.
unfoldable pub base_runs : ℕ → LevelMetaData → LevelMetaData → List Run
unfolding empties singles
base_runs k l0 l1 =
    (empties (padding k l0 l1) ++ singles l0.files) ++ add_files (new_run 1) l1.files ∷ []

abbrev pub head_level : List Run → List LazyLevel → List LazyLevel
head_level rs ls = record { runs = rs } ∷ ls

create_empty_runs-head :
    (n : ℕ) (rs : List Run) (ls : List LazyLevel)
    → create_empty_runs n (head_level rs ls) ≡ some (head_level (rs ++ empties n) ls)
unfolding create_empty_runs create_run empties add_files
create_empty_runs-head zero rs ls = rw append-nil
create_empty_runs-head (suc n) rs ls =
    create_empty_runs-head n (rs ++ new_run 0 ∷ []) ls
    ∙ ap (λ qs. some (head_level qs ls)) (append_assoc rs _ _)

create_level0_runs-head :
    (files : List SstFileMetaData) (rs : List Run) (ls : List LazyLevel)
    → create_level0_runs files (head_level rs ls) ≡ some (head_level (rs ++ singles files) ls)
unfolding create_level0_runs create_run singles
create_level0_runs-head [] rs ls = rw append-nil
create_level0_runs-head (file ∷ files) rs ls =
    create_level0_runs-head files (rs ++ add_files (new_run 0) (file ∷ []) ∷ []) ls
    ∙ ap (λ qs. some (head_level qs ls)) (append_assoc rs _ _)

-- The view that BuildStructure leaves, as a closed form.
unfoldable pub built :
    ℕ → LevelMetaData → LevelMetaData → List LevelMetaData → List LazyLevel → List LazyLevel
built k l0 l1 deeper ls = place k 0 deeper (head_level (base_runs k l0 l1) (clear_all ls))

pub length-clear_all : (ls : List LazyLevel) → length (clear_all ls) ≡ length ls
unfolding clear_all
length-clear_all [] = refl
length-clear_all (l ∷ ls) = ap suc (length-clear_all ls)

-- What is assumed of the metadata and of the options: levels 0 and 1 are there, the levels are numbered
-- from 0 on, there are no more than the view has room for, and the numbers are exact in a double.
pub record IsReadable (k : ℕ) (cf_meta : ColumnFamilyMetaData) (ls : List LazyLevel) : Type 0 where
  pub two_levels : 2 ≤ length cf_meta
  pub numbered : IsNumbered 0 cf_meta
  pub room : length cf_meta ≤ length ls
  pub exact : length ls + k + 1 < exact_limit

module _ (fp : DoubleOps) (e : IsExact fp) (k : ℕ) where
  pub build_levels-eq-built :
      (l0 l1 : LevelMetaData) (deeper : List LevelMetaData) (l : LazyLevel) (ls : List LazyLevel)
      → IsReadable k (l0 ∷ l1 ∷ deeper) (l ∷ ls)
      → build_levels fp k (l0 ∷ l1 ∷ deeper) (l ∷ ls) ≡ some (built k l0 l1 deeper ls)
  unfolding build_levels built base_runs clear_all create_run
  build_levels-eq-built l0 l1 deeper l ls h =
      rw (create_empty_runs-head (padding k l0 l1) [] (clear_all ls)) (
        rw (create_level0_runs-head l0.files (empties (padding k l0 l1)) (clear_all ls)) (
          create_deep_runs-eq-place fp e k 0 deeper (head_level (base_runs k l0 l1) (clear_all ls))
            h.numbered.1.1 (omega (arith, h.room, length-clear_all ls))
            (omega (arith, h.exact, length-clear_all ls))))

runs_at-clear_all : (ls : List LazyLevel) (f : ℕ) → runs_at (clear_all ls) f ≡ []
unfolding runs_at clear_all
runs_at-clear_all [] f = refl
runs_at-clear_all (l ∷ ls) zero = refl
runs_at-clear_all (l ∷ ls) (suc f) = runs_at-clear_all ls f

clear_all-IsClear : (ls : List LazyLevel) → All (λ (l : LazyLevel). l.runs ≡ []) (clear_all ls)
unfolding clear_all
clear_all-IsClear [] = tt
clear_all-IsClear (l ∷ ls) = (refl, clear_all-IsClear ls)

clear-IsClearPast :
    (f : ℕ) (ls : List LazyLevel) → All (λ (l : LazyLevel). l.runs ≡ []) ls → IsClearPast f ls
clear-IsClearPast f [] h = tt
clear-IsClearPast zero (l ∷ ls) h = h.1
clear-IsClearPast (suc f) (l ∷ ls) h = clear-IsClearPast f ls h.1

pub HasUsed-head :
    (k : ℕ) (rs : List Run) (ls : List LazyLevel) → HasUsed k 0 (head_level rs (clear_all ls))
unfolding slots_used runs_at
HasUsed-head k rs ls f h = rw (runs_at-clear_all ls f) (ground arith)

run_files-empties : (n : ℕ) → run_files (empties n) ≡ []
unfolding run_files empties
run_files-empties zero = refl
run_files-empties (suc n) = run_files-empties n

run_files-singles : (files : List SstFileMetaData) → run_files (singles files) ≡ files
unfolding run_files singles add_files add_file
run_files-singles [] = refl
run_files-singles (file ∷ files) = ap (◌∷◌ file) (run_files-singles files)

pub run_files-base_runs :
    (k : ℕ) (l0 l1 : LevelMetaData) → run_files (base_runs k l0 l1) ≡ l0.files ++ l1.files
unfolding base_runs run_files
run_files-base_runs k l0 l1 =
    rw (run_files-append (empties (padding k l0 l1) ++ singles l0.files)) (
      rw (run_files-append (empties (padding k l0 l1)), run_files-empties (padding k l0 l1))
        (rw (run_files-singles l0.files)
          (ap (◌++◌ l0.files) (append-nil _ ∙ add_files-files (new_run 1) l1.files))))

pub all_files-built :
    (k : ℕ) (l0 l1 : LevelMetaData) (deeper : List LevelMetaData) (l : LazyLevel)
    (ls : List LazyLevel)
    → IsReadable k (l0 ∷ l1 ∷ deeper) (l ∷ ls)
    → all_files (built k l0 l1 deeper ls) ≡ meta_files (l0 ∷ l1 ∷ deeper)
unfolding built all_files meta_files
all_files-built k l0 l1 deeper l ls h =
    all_files-place k 0 deeper (head_level (base_runs k l0 l1) (clear_all ls))
      (clear-IsClearPast _ _ (clear_all-IsClear ls)) (omega (arith, h.room, length-clear_all ls))
    ∙ simp
        (run_files-base_runs, all_files_of_clear _ (clear_all-IsClear ls), append-nil, append_assoc)
