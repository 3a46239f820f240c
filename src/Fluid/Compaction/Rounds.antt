-- ===== src/Fluid/Compaction/Rounds.antt =====
-- Flushes one after the other, each with its pick and, if that schedules a task, the compaction in the
-- background to its end before the next flush comes (fluid_lsm.cc, OnFlushCompleted and CompactFiles).
use lsm_workload_aware_compa.Prelude.{
  ℕ, suc, ◌+◌, ◌≡◌, String, Bool, true, false, some, List, [], ◌∷◌, ◌++◌,
}
use lsm_workload_aware_compa.Double.{DoubleOps}
use lsm_workload_aware_compa.Fluid.Structure.{SstFileMetaData, ColumnFamilyMetaData}
use lsm_workload_aware_compa.Fluid.Structure.Total.{add_flushed}
use lsm_workload_aware_compa.Fluid.Compaction.{
  CompactionTask, FluidLsm, on_flush_completed, compact_files,
}
use lsm_workload_aware_compa.Fluid.Compaction.Merging.{contains, Compacts}

-- The listener and the levels of the database.
pub record Store : Type 0 where
  pub tree : FluidLsm
  pub cf_meta : ColumnFamilyMetaData

-- What a flush, or the compaction behind it, leaves: `flushed` without a task, `merged` with the one
-- that the flush has scheduled, for which the database may take more files than the task names, and
-- `failed` where the database has not carried that one out, with an I/O error or another status.
pub data Round (fp : DoubleOps) (cf_name : String) (v : Store) : Store → Type 0 where
  flushed :
      (file : SstFileMetaData) (t : FluidLsm)
      → file.being_compacted ≡ false
      → on_flush_completed fp v.tree cf_name (add_flushed file v.cf_meta) ≡ some t
      → t.scheduled ≡ v.tree.scheduled
      → Round fp cf_name v (record { tree = t; cf_meta = add_flushed file v.cf_meta })
  merged :
      (file : SstFileMetaData) (t u : FluidLsm) (task : CompactionTask) (taken : List String)
      (cf_meta : ColumnFamilyMetaData)
      → file.being_compacted ≡ false
      → on_flush_completed fp v.tree cf_name (add_flushed file v.cf_meta) ≡ some t
      → t.scheduled ≡ v.tree.scheduled ++ task ∷ []
      → ((n : String) → contains n task.input_file_names ≡ true → contains n taken ≡ true)
      → Compacts taken task.output_lvl (add_flushed file v.cf_meta) cf_meta
      → compact_files fp t task false cf_meta ≡ some u
      → Round fp cf_name v (record { tree = u; cf_meta = cf_meta })
  failed :
      (file : SstFileMetaData) (t u : FluidLsm) (task : CompactionTask) (is_io_error : Bool)
      → file.being_compacted ≡ false
      → on_flush_completed fp v.tree cf_name (add_flushed file v.cf_meta) ≡ some t
      → t.scheduled ≡ v.tree.scheduled ++ task ∷ []
      → compact_files fp t task is_io_error (add_flushed file v.cf_meta) ≡ some u
      → Round fp cf_name v (record { tree = u; cf_meta = add_flushed file v.cf_meta })

-- How many compactions a round has, and how many that failed.
abbrev pub compactions :
    {fp : DoubleOps} {cf_name : String} {v w : Store} → Round fp cf_name v w → ℕ
compactions (flushed file t idle picked same) = 0
compactions (merged file t u task taken cf_meta idle picked one_task named done ended) = 1
compactions (failed file t u task is_io_error idle picked one_task ended) = 0

abbrev pub failures : {fp : DoubleOps} {cf_name : String} {v w : Store} → Round fp cf_name v w → ℕ
failures (flushed file t idle picked same) = 0
failures (merged file t u task taken cf_meta idle picked one_task named done ended) = 0
failures (failed file t u task is_io_error idle picked one_task ended) = 1

-- A number of rounds, with so many compactions and failures.
pub data Rounds (fp : DoubleOps) (cf_name : String) (v : Store) : ℕ → ℕ → ℕ → Store → Type 0 where
  start : Rounds fp cf_name v 0 0 0 v
  after :
      {n j i : ℕ} {w x : Store}
      → Rounds fp cf_name v n j i w
      → (r : Round fp cf_name w x)
      → Rounds fp cf_name v (suc n) (j + compactions r) (i + failures r) x
