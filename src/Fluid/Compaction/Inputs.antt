-- ===== src/Fluid/Compaction/Inputs.antt =====
-- The input files of a compaction, as pointers into the view: AddFilesToCompaction, GetCompactionSize and
-- GetCompactionTargetLevel of FluidLSM.
use lsm_workload_aware_compa.Prelude.{
  ℕ, suc, ◌+◌, ◌-◌, ◌%◌, ◌^◌, true, Option, some, List, [], ◌∷◌, ◌++◌, if◌then◌else◌, get_elem?,
  modify, ◌>>=◌,
}
use lsm_workload_aware_compa.Prelude.Int.{ℤ, ltb_ℤ, long_of_bits}
use lsm_workload_aware_compa.Double.{DoubleOps}
use lsm_workload_aware_compa.Fluid.Structure.{SstFileMetaData, Run, LazyLevel}
use lsm_workload_aware_compa.Fluid.Compaction.State.{FluidLsm}

-- A `SstFileMetaData*` into `lazy_levels_`: the level, the run in it and the file in that.
pub record FileRef : Type 0 where
  pub lvl : ℕ
  pub run : ℕ
  pub file : ℕ

-- `none` is a pointer to nothing. The triple leads somewhere again once the levels are rebuilt, where the
-- code's pointer may still dangle: within one pick the levels are not rebuilt by the thread itself.
unfoldable pub deref : List LazyLevel → FileRef → Option SstFileMetaData
deref ls r = do l ← get_elem? ls r.lvl; run ← get_elem? l.runs r.run; get_elem? run.files r.file

abbrev pub set_being_compacted : SstFileMetaData → SstFileMetaData
set_being_compacted file = record file { being_compacted = true }

-- `file->being_compacted = true`
unfoldable pub mark : List LazyLevel → FileRef → List LazyLevel
mark ls r = modify ls r.lvl λ l. record {
  runs =
      modify l.runs r.run λ run. record run { files = modify run.files r.file set_being_compacted };
}

-- The loops of FluidLSM::AddFilesToCompaction, over the files of a run and over the runs of a level.
unfoldable pub run_refs : ℕ → ℕ → ℕ → List SstFileMetaData → List FileRef
run_refs lvl run i [] = []
run_refs lvl run i (file ∷ files) =
    let rest = run_refs lvl run (suc i) files in
    if file.being_compacted then rest else record { lvl = lvl; run = run; file = i } ∷ rest

unfoldable pub level_refs : ℕ → ℕ → List Run → List FileRef
level_refs lvl i [] = []
level_refs lvl i (run ∷ runs) = run_refs lvl i 0 run.files ++ level_refs lvl (suc i) runs

-- FluidLSM::AddFilesToCompaction
unfoldable pub add_files_to_compaction : List LazyLevel → ℕ → List FileRef → Option (List FileRef)
unfolding level_refs run_refs
add_files_to_compaction ls lvl input_files = do
  l ← get_elem? ls lvl
  some (input_files ++ level_refs lvl 0 l.runs)

unfoldable pub add_ref_sizes : List LazyLevel → ℕ → List FileRef → Option ℕ
add_ref_sizes ls size_in_bytes [] = some size_in_bytes
add_ref_sizes ls size_in_bytes (r ∷ refs) =
    deref ls r >>= λ file. add_ref_sizes ls ((size_in_bytes + file.size) % 2 ^ 64) refs

-- FluidLSM::GetCompactionSize
unfoldable pub get_compaction_size : List LazyLevel → List FileRef → Option ℤ
unfolding add_ref_sizes
get_compaction_size ls refs = do
  size_in_bytes ← add_ref_sizes ls 0 refs
  some (long_of_bits size_in_bytes)

module _ (fp : DoubleOps) where
  open fp use {of_int, mul, div, pow, truncate}

  -- `write_buffer_size * pow(size_ratio_, origin_lvl + 1) * (size_ratio_ - 1) / size_ratio_`
  unfoldable pub level_capacity : ℕ → ℕ → ℕ → ℤ
  level_capacity write_buffer_size size_ratio origin_lvl = truncate (
      div
        (mul (mul (of_int write_buffer_size) (pow (of_int size_ratio) (of_int (origin_lvl + 1))))
          (of_int (size_ratio - 1)))
        (of_int size_ratio))

  -- FluidLSM::GetCompactionTargetLevel
  unfoldable pub get_compaction_target_level : FluidLsm → ℕ → List FileRef → Option ℕ
  get_compaction_target_level s origin_lvl input_files = do
    projected_output_size ← get_compaction_size s.lazy_levels input_files
    let capacity = level_capacity s.options.write_buffer_size s.size_ratio origin_lvl
    some (if ltb_ℤ capacity projected_output_size then origin_lvl + 1 else origin_lvl)
