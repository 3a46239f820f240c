-- ===== src/Fluid/Structure.antt =====
-- The view of the tree that `FluidLSM` keeps: runs, lazy levels, and how `BuildStructure` fills them
-- from the metadata of the column family.
pub mod Bands
pub mod Placing
pub mod Slots
pub mod Files
pub mod Built
pub mod Build
pub mod Counts
pub mod Live
pub mod Total
use text.Mathlib.Text.{◌==◌ as str_eq}
use lsm_workload_aware_compa.Prelude.{
  ℕ, zero, suc, ◌+◌, ◌-◌, ◌%◌, ◌^◌, String, Bool, false, not, ◌&&◌, ◌||◌, Option, none, some, List,
  [], ◌∷◌, ◌++◌, bit, if◌then◌else◌, length, is_empty, modify?, ◌>>=◌, ltb,
}
use lsm_workload_aware_compa.Prelude.Int.{ℤ, pos, negsuc, long_of_bits}
use lsm_workload_aware_compa.Double.{DoubleOps}

-- What the code reads of RocksDB's `SstFileMetaData`, `LevelMetaData` and `ColumnFamilyMetaData`.
pub record SstFileMetaData : Type 0 where
  pub name : String
  pub size : ℕ  -- uint64_t
  pub smallestkey : String
  pub largestkey : String
  pub being_compacted : Bool

pub record LevelMetaData : Type 0 where
  pub level : ℕ
  pub files : List SstFileMetaData

abbrev pub ColumnFamilyMetaData : Type 0
ColumnFamilyMetaData = List LevelMetaData

pub record Run : Type 0 where
  pub files : List SstFileMetaData
  pub file_names : List String
  pub rocksdb_level : ℕ

pub record LazyLevel : Type 0 where
  pub runs : List Run

abbrev pub new_run : ℕ → Run
new_run rocksdb_level = record { files = []; file_names = []; rocksdb_level = rocksdb_level }

-- `std::set::insert`: a name that is there already is not added again.
unfoldable pub insert_name : String → List String → List String
insert_name n [] = n ∷ []
insert_name n (m ∷ ms) = if str_eq n m then m ∷ ms else m ∷ insert_name n ms

-- Run::AddFile
unfoldable pub add_file : Run → SstFileMetaData → Run
unfolding insert_name
add_file run file = record run {
  files = run.files ++ file ∷ [];
  file_names = insert_name file.name run.file_names;
}

-- LazyLevel::AddRun, LazyLevel::Clear
abbrev pub add_run : Run → LazyLevel → LazyLevel
add_run run l = record { runs = l.runs ++ run ∷ [] }

abbrev pub clear : LazyLevel → LazyLevel
clear l = record { runs = [] }

-- The inner loop of LazyLevel::NumLiveRuns.
unfoldable pub any_being_compacted : Bool → List SstFileMetaData → Bool
any_being_compacted being_compacted [] = being_compacted
any_being_compacted being_compacted (file ∷ files) =
    any_being_compacted (being_compacted || file.being_compacted) files

unfoldable pub count_live_runs : ℕ → List Run → ℕ
count_live_runs num_live_runs [] = num_live_runs
count_live_runs num_live_runs (run ∷ runs) =
    count_live_runs
      (num_live_runs + bit (not (any_being_compacted false run.files) && not (is_empty run.files)))
      runs

unfoldable pub num_live_runs : LazyLevel → ℕ
unfolding count_live_runs any_being_compacted
num_live_runs l = count_live_runs 0 l.runs

-- `size_in_bytes += file.size` on a `long`: the sum of the bit patterns, modulo 2 ^ 64.
unfoldable pub add_sizes : ℕ → List SstFileMetaData → ℕ
add_sizes size_in_bytes [] = size_in_bytes
add_sizes size_in_bytes (file ∷ files) = add_sizes ((size_in_bytes + file.size) % 2 ^ 64) files

unfoldable pub add_run_sizes : ℕ → List Run → ℕ
add_run_sizes size_in_bytes [] = size_in_bytes
add_run_sizes size_in_bytes (run ∷ runs) = add_run_sizes (add_sizes size_in_bytes run.files) runs

-- LazyLevel::SizeInBytes
unfoldable pub size_in_bytes : LazyLevel → ℤ
unfolding add_run_sizes add_sizes
size_in_bytes l = long_of_bits (add_run_sizes 0 l.runs)

unfoldable pub add_files : Run → List SstFileMetaData → Run
add_files run [] = run
add_files run (file ∷ files) = add_files (add_file run file) files

-- FluidLSM::CreateRun, on the member `lazy_levels_` that it changes. The metadata that it also asks for
-- is not used.
unfoldable pub create_run : List LazyLevel → List SstFileMetaData → ℕ → ℕ → Option (List LazyLevel)
create_run lazy_levels file_names lvl rocksdb_lvl =
    modify? lazy_levels lvl (add_run (add_files (new_run rocksdb_lvl) file_names))

unfoldable pub clear_all : List LazyLevel → List LazyLevel
clear_all [] = []
clear_all (l ∷ ls) = clear l ∷ clear_all ls

-- `for (i = num_runs_in_lvl1; i < smaller_lvl_runs_count_; i++)`: an empty run for each round.
unfoldable pub create_empty_runs : ℕ → List LazyLevel → Option (List LazyLevel)
create_empty_runs zero ls = some ls
create_empty_runs (suc n) ls = create_run ls [] 0 0 >>= create_empty_runs n

-- One run at level 0 for each file of RocksDB's level 0.
unfoldable pub create_level0_runs : List SstFileMetaData → List LazyLevel → Option (List LazyLevel)
create_level0_runs [] ls = some ls
create_level0_runs (file ∷ files) ls = create_run ls (file ∷ []) 0 0 >>= create_level0_runs files

module _ (fp : DoubleOps) where
  open fp use {of_int, add, sub, div, ceil, truncate}

  -- `ceil(((double)level.level - 1) / ((double)smaller_lvl_runs_count_ + 1.0))`
  unfoldable pub fluid_level : ℕ → ℕ → ℤ
  fluid_level smaller_lvl_runs_count level =
      truncate (
        ceil (div (sub (of_int level) (of_int 1)) (add (of_int smaller_lvl_runs_count) (of_int 1))))

  unfoldable pub create_run_at :
      List LazyLevel → List SstFileMetaData → ℤ → ℕ → Option (List LazyLevel)
  create_run_at ls files (pos lvl) rocksdb_lvl = create_run ls files lvl rocksdb_lvl
  create_run_at ls files (negsuc n) rocksdb_lvl = none

  -- The loop over RocksDB's levels from 2 on.
  unfoldable pub create_deep_runs :
      ℕ → List LevelMetaData → List LazyLevel → Option (List LazyLevel)
  create_deep_runs k [] ls = some ls
  create_deep_runs k (level ∷ levels) ls =
      create_run_at ls level.files (fluid_level k level.level) level.level
      >>= create_deep_runs k levels

  -- FluidLSM::BuildStructure, on `smaller_lvl_runs_count_` and `lazy_levels_`. Levels 0 and 1 of the
  -- metadata are read without a test.
  unfoldable pub build_levels : ℕ → ColumnFamilyMetaData → List LazyLevel → Option (List LazyLevel)
  build_levels k (l0 ∷ l1 ∷ deeper) ls = do
    let num_runs_in_lvl1 = length l0.files + bit (not (is_empty l1.files))
    padded ← create_empty_runs (k - num_runs_in_lvl1) (clear_all ls)
    filled ← create_level0_runs l0.files padded
    based ← create_run filled l1.files 0 1
    create_deep_runs k deeper based
  build_levels k _ ls = none

-- The inner loop of FluidLSM::GetLargestOccupiedLevel.
unfoldable pub occupied_by : ℕ → ℕ → List Run → ℕ
occupied_by lvl largest [] = largest
occupied_by lvl largest (run ∷ runs) =
    occupied_by lvl (if ltb 0 (length run.files) then lvl else largest) runs

unfoldable pub largest_from : ℕ → ℕ → List LazyLevel → ℕ
largest_from lvl largest [] = largest
largest_from lvl largest (l ∷ ls) = largest_from (lvl + 1) (occupied_by lvl largest l.runs) ls

-- FluidLSM::GetLargestOccupiedLevel
unfoldable pub get_largest_occupied_level : List LazyLevel → ℕ
unfolding largest_from occupied_by
get_largest_occupied_level lazy_levels = largest_from 0 0 lazy_levels
