-- ===== src/Fluid/Printing.antt =====
-- What FluidLSM prints on the error stream in debug mode (src/fluid_lsm.cc): PrintFluidLSM, and the parts
-- of ScheduleCompaction and CompactFiles.
pub mod Listing
mod Tests
use lsm_workload_aware_compa.Prelude.{
  ℕ, zero, suc, ◌+◌, Option, some, none, List, [], ◌∷◌, ◌++◌, if◌then◌else◌, is_empty, get_elem?,
  ◌>>=◌, length, String,
}
use lsm_workload_aware_compa.Buffer.{Text}
use lsm_workload_aware_compa.Utils.Decimal.{codes, newline, decimal}
use lsm_workload_aware_compa.Fluid.Structure.{
  SstFileMetaData, Run, LazyLevel, get_largest_occupied_level, num_live_runs,
}
use lsm_workload_aware_compa.Fluid.Compaction.{FluidLsm, CompactionTask, FileRef}

-- The line of a file.
abbrev pub file_line : SstFileMetaData → Text
file_line file =
    codes "\t\t "
    ++ (decimal file.size
        ++ (codes "\t "
            ++ (codes file.smallestkey
                ++ (codes "-"
                    ++ (codes file.largestkey
                        ++ (codes " \t "
                            ++ (codes file.name
                                ++ (codes " \t "
                                    ++ (codes
                                          (if file.being_compacted then "being compacted" else "")
                                        ++ newline)))))))))

abbrev pub run_line : ℕ → Run → Text
run_line j run =
    codes "\t run: "
    ++ (decimal j
        ++ (codes "   (RocksDBLvl: " ++ (decimal run.rocksdb_level ++ (codes ")" ++ newline))))

abbrev pub level_line : ℕ → Text
level_line i = codes "lvl: " ++ (decimal i ++ newline)

unfoldable pub print_files : List SstFileMetaData → Text
print_files [] = []
print_files (file ∷ files) = file_line file ++ print_files files

-- The runs of a level from the `j`-th on; those without files are skipped.
unfoldable pub print_runs : ℕ → List Run → Text
print_runs j [] = []
print_runs j (run ∷ runs) =
    (if is_empty run.files then [] else run_line j run ++ print_files run.files)
    ++ print_runs (suc j) runs

-- `for (i = 0; i < num_levels + 1; i++)`, on the rounds left.
unfoldable pub print_levels : ℕ → ℕ → List LazyLevel → Option Text
print_levels zero i lazy_levels = some []
print_levels (suc rounds) i lazy_levels = do
  l ← get_elem? lazy_levels i
  rest ← print_levels rounds (suc i) lazy_levels
  some ((level_line i ++ print_runs 0 l.runs) ++ rest)

unfoldable pub print_fluid_lsm : List LazyLevel → Option Text
print_fluid_lsm lazy_levels = do
  printed ← print_levels (suc (get_largest_occupied_level lazy_levels)) 0 lazy_levels
  some (printed ++ newline)

-- What ScheduleCompaction prints in debug mode where it skips a compaction.
unfoldable pub print_skipped : FluidLsm → ℕ → List FileRef → Option Text
print_skipped s origin_lvl input_files = do
  l ← get_elem? s.lazy_levels origin_lvl
  some (
      codes "skip compaction.  origin lvl: "
      ++ decimal origin_lvl
      ++ codes "   num files: "
      ++ decimal (length input_files)
      ++ codes "   ongoing compactions: "
      ++ decimal s.parallel_compactions_running
      ++ newline
      ++ codes "runs "
      ++ decimal (length l.runs)
      ++ codes "    live runs:  "
      ++ decimal (num_live_runs l)
      ++ newline)

unfoldable pub print_names : Text → List String → Text
print_names lead [] = []
print_names lead (name ∷ names) = (lead ++ codes name ++ newline) ++ print_names lead names

-- What CompactFiles prints in debug mode of the database's compaction: the files that it made, and the
-- text of its status.
unfoldable pub print_finished : CompactionTask → List String → Text → Text
print_finished task output_file_names status =
    print_names (codes " ---- new file created:    ") output_file_names
    ++ codes "CompactFiles() finished with status "
    ++ status
    ++ newline
    ++ print_names (codes "     ") task.input_file_names
    ++ codes "   -> level "
    ++ decimal task.output_lvl
    ++ newline
