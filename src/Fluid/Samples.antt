-- ===== src/Fluid/Samples.antt =====
-- A small tree: two runs a level, six RocksDB levels, files at levels 0, 1 and 3.
use lsm_workload_aware_compa.Prelude.{ℕ, String, true, false, List, [], ◌∷◌}
use lsm_workload_aware_compa.Fluid.Structure.{
  SstFileMetaData, LevelMetaData, ColumnFamilyMetaData, Run, LazyLevel,
}
use lsm_workload_aware_compa.Fluid.Compaction.{TreeOptions, FluidLsm, new_tree}

abbrev pub file : String → ℕ → SstFileMetaData
file name size = record {
  name = name;
  size = size;
  smallestkey = "k";
  largestkey = "m";
  being_compacted = false;
}

abbrev pub level : ℕ → List SstFileMetaData → LevelMetaData
level l files = record { level = l; files = files }

abbrev pub level3 : LevelMetaData
level3 = level 3 (file "d" 40 ∷ [])

abbrev pub meta : ColumnFamilyMetaData
meta =
    level 0 (file "a" 15 ∷ file "b" 15 ∷ [])
    ∷ level 1 (file "c" 5 ∷ [])
    ∷ level 2 []
    ∷ level3
    ∷ level 4 []
    ∷ level 5 []
    ∷ []

abbrev pub options : TreeOptions
options = record {
  num_levels = 6;
  write_buffer_size = 10;
  target_file_size_base = 10;
  compression = 0;
}

abbrev pub tree : FluidLsm
tree = new_tree 2 1 1 10 options false

abbrev pub run : ℕ → List SstFileMetaData → List String → Run
run rocksdb_level files file_names = record {
  files = files;
  file_names = file_names;
  rocksdb_level = rocksdb_level;
}

abbrev pub level0 : LazyLevel
level0 = record {
  runs =
      run 0 (file "a" 15 ∷ []) ("a" ∷ [])
      ∷ run 0 (file "b" 15 ∷ []) ("b" ∷ [])
      ∷ run 1 (file "c" 5 ∷ []) ("c" ∷ [])
      ∷ [];
}

abbrev pub level1 : LazyLevel
level1 = record { runs = run 2 [] [] ∷ run 3 (file "d" 40 ∷ []) ("d" ∷ []) ∷ [] }

abbrev level2 : LazyLevel
level2 = record { runs = run 4 [] [] ∷ run 5 [] [] ∷ [] }

abbrev pub no_runs : LazyLevel
no_runs = record { runs = [] }

-- The view of the metadata.
abbrev pub view : List LazyLevel
view = level0 ∷ level1 ∷ level2 ∷ no_runs ∷ no_runs ∷ no_runs ∷ []

abbrev pub viewed : FluidLsm
viewed = record tree { lazy_levels = view }

-- Level 0 behind a flush: its files are being compacted.
abbrev busy : String → ℕ → SstFileMetaData
busy name size = record (file name size) { being_compacted = true }

abbrev pub flushed : LazyLevel
flushed = record {
  runs =
      run 0 (busy "a" 15 ∷ []) ("a" ∷ [])
      ∷ run 0 (busy "b" 15 ∷ []) ("b" ∷ [])
      ∷ run 1 (busy "c" 5 ∷ []) ("c" ∷ [])
      ∷ [];
}

-- A database with three levels only, and its view.
abbrev pub shallow_meta : ColumnFamilyMetaData
shallow_meta =
    level 0 (file "a" 15 ∷ file "b" 15 ∷ []) ∷ level 1 (file "c" 5 ∷ []) ∷ level 2 [] ∷ []

abbrev pub shallow_view : List LazyLevel
shallow_view =
    level0 ∷ record { runs = run 2 [] [] ∷ [] } ∷ no_runs ∷ no_runs ∷ no_runs ∷ no_runs ∷ []

-- The database when the task is done, with the files of levels 0 and 1 in one file at level 2, and its
-- view, in which level 1 has two live runs.
abbrev pub compacted_meta : ColumnFamilyMetaData
compacted_meta =
    level 0 [] ∷ level 1 [] ∷ level 2 (file "e" 35 ∷ []) ∷ level3 ∷ level 4 [] ∷ level 5 [] ∷ []

abbrev pub compacted_view : List LazyLevel
compacted_view =
    record { runs = run 0 [] [] ∷ run 1 [] [] ∷ [] }
    ∷ record {
      runs = run 2 (file "e" 35 ∷ []) ("e" ∷ []) ∷ run 3 (file "d" 40 ∷ []) ("d" ∷ []) ∷ [];
    }
    ∷ level2
    ∷ no_runs
    ∷ no_runs
    ∷ no_runs
    ∷ []
