-- ===== src/Fluid/Compaction.antt =====
-- `FluidLSM` itself: picking a compaction, choosing its target and its output level, scheduling it and
-- what the background thread does with it. What is only printed in debug mode is in Fluid.Printing.
mod State
mod Inputs
pub mod Refs
pub mod Marking
pub mod Target
pub mod Chosen
pub mod Slot
pub mod Picking
pub mod Flush
pub mod Racing
pub mod Dangling
pub mod Handing
pub mod Interleaving
pub mod Merging
pub mod Named
pub mod Covering
pub mod Ended
pub mod Rounds
pub mod Picked
pub mod Limits
pub mod Quiet
pub mod Steady
pub mod Advancing
pub mod Settling
pub mod Bounded
use lsm_workload_aware_compa.Prelude.{
  ℕ, zero, suc, ◌+◌, ◌-◌, ◌*◌, ◌%◌, ◌^◌, String, Bool, true, false, ◌&&◌, ◌||◌, Option, some, List,
  [], ◌∷◌, ◌++◌, if◌then◌else◌, is_empty, get_elem?, modify, ◌>>=◌, ltb, ◌==◌,
}
use lsm_workload_aware_compa.Prelude.Int.{ℤ, ltb_ℤ, long_of_bits}
use lsm_workload_aware_compa.Double.{DoubleOps}
use lsm_workload_aware_compa.Fluid.Structure.{
  SstFileMetaData, ColumnFamilyMetaData, Run, LazyLevel, num_live_runs, build_levels,
  get_largest_occupied_level,
}
pub use lsm_workload_aware_compa.Fluid.Compaction.State.{
  TreeOptions, CompactionOptions, CompactionTask, FluidLsm,
}
unfoldable pub use lsm_workload_aware_compa.Fluid.Compaction.State.{empty_levels, new_tree}
pub use lsm_workload_aware_compa.Fluid.Compaction.Inputs.{FileRef, set_being_compacted}
unfoldable pub use lsm_workload_aware_compa.Fluid.Compaction.Inputs.{
  deref, mark, run_refs, level_refs, add_files_to_compaction, add_ref_sizes, get_compaction_size,
  level_capacity, get_compaction_target_level,
}

-- `for (lvl = 0; lvl <= smaller_lvl_runs_count_ && …; lvl++)` of ScheduleCompaction, over the runs of the
-- target level: the first empty one, counted from the run at `smaller_lvl_runs_count_` down. The rounds
-- left are the first argument, and the result is `RocksDB_lvl`.
unfoldable pub find_empty_run : ℕ → ℕ → ℕ → ℕ → List Run → Option ℕ
find_empty_run zero lvl k target_lvl runs = some (1 + target_lvl * (k + 1))
find_empty_run (suc rounds) lvl k target_lvl runs =
    let rest = find_empty_run rounds (lvl + 1) k target_lvl runs in
    get_elem? runs (k - lvl) >>= λ run.
    if is_empty run.files then some (1 + target_lvl * (k + 1) - lvl) else rest

-- The choice of `RocksDB_lvl` in ScheduleCompaction: the bottom level of the target, or the level of the
-- deepest empty run if the target is not the origin.
unfoldable pub output_level : List LazyLevel → ℕ → ℕ → ℕ → Option ℕ
output_level ls k origin_lvl target_lvl =
    if ltb origin_lvl target_lvl
    then (get_elem? ls target_lvl >>= λ l. find_empty_run (k + 1) 0 k target_lvl l.runs)
    else some (1 + target_lvl * (k + 1))

-- The loop of ScheduleCompaction over the input files: their names, and the view with the files marked.
unfoldable pub take_files : List LazyLevel → List FileRef → Option (List String × List LazyLevel)
take_files ls [] = some ([], ls)
take_files ls (r ∷ refs) = do
  file ← deref ls r
  rest ← take_files (mark ls r) refs
  some (file.name ∷ rest.0, rest.1)

-- FluidLSM::ScheduleCompaction. The limit on `target_lvl` and the largest level, which it computes behind
-- the choice of the output level, are not used.
unfoldable pub schedule_compaction : FluidLsm → String → ℕ → ℕ → List FileRef → Option FluidLsm
schedule_compaction s cf_name origin_lvl target_lvl input_files =
    if ltb s.parallel_compactions_running s.parallel_compactions_allowed
    then (do
      rocksdb_lvl ← output_level s.lazy_levels s.smaller_lvl_runs_count origin_lvl target_lvl
      taken ← take_files s.lazy_levels input_files
      some (record s {
        lazy_levels = taken.1;
        parallel_compactions_running = s.parallel_compactions_running + 1;
        scheduled =
            s.scheduled
            ++ record {
              cf_name = cf_name;
              input_file_names = taken.0;
              output_lvl = rocksdb_lvl;
              compact_options = record s.compact_options { output_file_size_limit = s.file_size };
              retry_on_fail = false;
              debug_mode = s.debug_mode;
            }
              ∷ [];
      }))
    else some s

-- The test of PickCompaction: too many live runs for the level's place in the tree.
abbrev pub has_too_many_runs : FluidLsm → ℕ → ℕ → ℕ → Bool
has_too_many_runs s largest_lvl lvl live =
    (ltb lvl largest_lvl && ltb s.smaller_lvl_runs_count live)
    || (lvl == largest_lvl && ltb s.larger_lvl_runs_count live)

module _ (fp : DoubleOps) where
  -- FluidLSM::BuildStructure
  unfoldable pub build_structure : FluidLsm → ColumnFamilyMetaData → Option FluidLsm
  build_structure s cf_meta = do
    lazy_levels ← build_levels fp s.smaller_lvl_runs_count cf_meta s.lazy_levels
    some (record s { lazy_levels = lazy_levels })

  -- The branch of PickCompaction's loop that schedules.
  unfoldable pub compact_level : FluidLsm → String → ℕ → Option FluidLsm
  compact_level s cf_name lvl = do
    input_files ← add_files_to_compaction s.lazy_levels lvl []
    target_lvl ← get_compaction_target_level fp s lvl input_files
    schedule_compaction s cf_name lvl target_lvl input_files

  -- One round of PickCompaction's loop.
  unfoldable pub pick_level : FluidLsm → String → ℕ → ℕ → Option FluidLsm
  pick_level s cf_name largest_lvl lvl = do
    l ← get_elem? s.lazy_levels lvl
    if has_too_many_runs s largest_lvl lvl (num_live_runs l)
        then compact_level s cf_name lvl
        else some s

  -- `for (lvl = largest_lvl; lvl >= 0; lvl--)`, on the number of levels left.
  unfoldable pub pick_levels : ℕ → FluidLsm → String → ℕ → Option FluidLsm
  pick_levels zero s cf_name largest_lvl = some s
  pick_levels (suc lvl) s cf_name largest_lvl =
      pick_level s cf_name largest_lvl lvl >>= λ s'. pick_levels lvl s' cf_name largest_lvl

  -- FluidLSM::PickCompaction, with the metadata that the database returns.
  unfoldable pub pick_compaction : FluidLsm → String → ColumnFamilyMetaData → Option FluidLsm
  pick_compaction s cf_name cf_meta = do
    built ← build_structure s cf_meta
    let largest_lvl = get_largest_occupied_level built.lazy_levels
    pick_levels (suc largest_lvl) built cf_name largest_lvl

  -- FluidLSM::OnFlushCompleted
  unfoldable pub on_flush_completed : FluidLsm → String → ColumnFamilyMetaData → Option FluidLsm
  on_flush_completed s cf_name cf_meta = pick_compaction s cf_name cf_meta

  -- FluidLSM::CompactFiles behind the database's own CompactFiles: the next pick, unless that ended in an
  -- I/O error, and then the count of running compactions.
  unfoldable pub pick_next :
      FluidLsm → CompactionTask → Bool → ColumnFamilyMetaData → Option FluidLsm
  pick_next s task is_io_error cf_meta =
      if is_io_error then some s else pick_compaction s task.cf_name cf_meta

  unfoldable pub compact_files :
      FluidLsm → CompactionTask → Bool → ColumnFamilyMetaData → Option FluidLsm
  compact_files s task is_io_error cf_meta = do
    picked ← pick_next s task is_io_error cf_meta
    some (record picked { parallel_compactions_running = picked.parallel_compactions_running - 1 })
