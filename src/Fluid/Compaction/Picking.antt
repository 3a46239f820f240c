-- ===== src/Fluid/Compaction/Picking.antt =====
-- PickCompaction as a whole: what a round schedules, that the loop stops scheduling at the limit on
-- parallel compactions, and which level it serves.
use native.Mathlib.Decide.{ℕ_discrete}
use lsm_workload_aware_compa.Prelude.{
  ℕ, zero, suc, ◌+◌, ◌≤◌, ◌<◌, ◌≡◌, refl, sym, ◌∙◌, String, Bool, true, false, inl, inr, some, none,
  List, [], ◌∷◌, ◌++◌, arith, Bool-cases, lt→ltb, le→ltb, get_elem?, get_elem?-lt, length,
  length-modify,
}
use lsm_workload_aware_compa.Double.{DoubleOps}
use lsm_workload_aware_compa.Fluid.Structure.{LazyLevel, num_live_runs}
use lsm_workload_aware_compa.Fluid.Structure.Files.{run_files}
use lsm_workload_aware_compa.Fluid.Compaction.{
  CompactionTask, FluidLsm, add_files_to_compaction, get_compaction_target_level, output_level,
  schedule_compaction, has_too_many_runs, compact_level, pick_level, pick_levels, level_refs,
}
use lsm_workload_aware_compa.Fluid.Compaction.Refs.{names, idle_files}
use lsm_workload_aware_compa.Fluid.Compaction.Marking.{mark_level, take_files-level_refs}
use lsm_workload_aware_compa.Fluid.Compaction.Target.{get_compaction_size-level_refs}

-- The task for a compaction of a level's idle files into a RocksDB level.
abbrev pub task_for : FluidLsm → String → LazyLevel → ℕ → CompactionTask
task_for s cf_name l rocksdb_lvl = record {
  cf_name = cf_name;
  input_file_names = names (idle_files (run_files l.runs));
  output_lvl = rocksdb_lvl;
  compact_options = record s.compact_options { output_file_size_limit = s.file_size };
  retry_on_fail = false;
  debug_mode = s.debug_mode;
}

-- The tree after that task is handed to the environment.
abbrev pub after_schedule : FluidLsm → String → ℕ → LazyLevel → ℕ → FluidLsm
after_schedule s cf_name lvl l rocksdb_lvl = record s {
  lazy_levels = mark_level s.lazy_levels lvl;
  parallel_compactions_running = s.parallel_compactions_running + 1;
  scheduled = s.scheduled ++ task_for s cf_name l rocksdb_lvl ∷ [];
}

module _ (fp : DoubleOps) (s : FluidLsm) (cf_name : String) where
  -- A round that schedules, with room for one more compaction and its target and output level found: one
  -- task, with the names of the level's idle files and the chosen output level; all files of the level
  -- marked; and nothing else changed.
  pub compact_level_schedules :
      (lvl target_lvl rocksdb_lvl : ℕ) (l : LazyLevel)
      → s.parallel_compactions_running < s.parallel_compactions_allowed
      → get_elem? s.lazy_levels lvl ≡ some l
      → get_compaction_target_level fp s lvl (level_refs lvl 0 l.runs) ≡ some target_lvl
      → output_level s.lazy_levels s.smaller_lvl_runs_count lvl target_lvl ≡ some rocksdb_lvl
      → compact_level fp s cf_name lvl ≡ some (after_schedule s cf_name lvl l rocksdb_lvl)
  unfolding compact_level add_files_to_compaction schedule_compaction
  compact_level_schedules lvl target_lvl rocksdb_lvl l room at target output = rw at (
      rw target
        (rw (lt→ltb _ _ room) (rw output (rw (take_files-level_refs s.lazy_levels lvl l at)))))

  full_stops :
      (lvl : ℕ) (l : LazyLevel)
      → s.parallel_compactions_allowed ≤ s.parallel_compactions_running
      → get_elem? s.lazy_levels lvl ≡ some l
      → compact_level fp s cf_name lvl ≡ some s
  unfolding compact_level add_files_to_compaction schedule_compaction get_compaction_target_level
  full_stops lvl l full at = rw at (
      rw (get_compaction_size-level_refs s.lazy_levels lvl l at)
        (rw (le→ltb s.parallel_compactions_running s.parallel_compactions_allowed full)))

  -- With at least as many compactions running as are allowed, the loop over levels of the view changes
  -- nothing.
  pub pick_levels_full :
      (n largest_lvl : ℕ)
      → n ≤ length s.lazy_levels
      → s.parallel_compactions_allowed ≤ s.parallel_compactions_running
      → pick_levels fp n s cf_name largest_lvl ≡ some s
  unfolding pick_levels pick_level
  pick_levels_full zero largest_lvl in_view full = refl
  pick_levels_full (suc lvl) largest_lvl in_view full =
      let (l, at) = get_elem?-lt s.lazy_levels lvl in_view in
      let rest = pick_levels_full lvl largest_lvl (omega arith) full in
      elim (Bool-cases (has_too_many_runs s largest_lvl lvl (num_live_runs l))) [
        | inl many ↦ rw (at, many) (rw (full_stops lvl l full at) rest)
        | inr few ↦ rw (at, few) rest
      ]

-- Whether a level has too many runs for its place in the tree.
abbrev pub is_overfull : FluidLsm → ℕ → ℕ → Bool
is_overfull s largest_lvl lvl = elim (get_elem? s.lazy_levels lvl) [
  | none ↦ false
  | some l ↦ has_too_many_runs s largest_lvl lvl (num_live_runs l)
]

pub is_overfull_of_get :
    (s : FluidLsm) (largest_lvl i : ℕ) (m : LazyLevel)
    → get_elem? s.lazy_levels i ≡ some m
    → is_overfull s largest_lvl i ≡ has_too_many_runs s largest_lvl i (num_live_runs m)
is_overfull_of_get s largest_lvl i m at = rw (at, is_overfull)

pub length-mark_level : (ls : List LazyLevel) (lvl : ℕ) → length (mark_level ls lvl) ≡ length ls
unfolding mark_level
length-mark_level ls lvl = length-modify ls lvl _

module _ (fp : DoubleOps) (s : FluidLsm) (cf_name : String)
    (largest_lvl lvl target_lvl rocksdb_lvl : ℕ) (l : LazyLevel)
    (last_one : s.parallel_compactions_allowed ≡ s.parallel_compactions_running + 1)
    (at : get_elem? s.lazy_levels lvl ≡ some l)
    (overfull : has_too_many_runs s largest_lvl lvl (num_live_runs l) ≡ true)
    (target : get_compaction_target_level fp s lvl (level_refs lvl 0 l.runs) ≡ some target_lvl)
    (output : output_level s.lazy_levels s.smaller_lvl_runs_count lvl target_lvl
      ≡ some rocksdb_lvl) where
  serves_here :
      lvl < length s.lazy_levels
      → pick_levels fp (suc lvl) s cf_name largest_lvl
        ≡ some (after_schedule s cf_name lvl l rocksdb_lvl)
  unfolding pick_levels pick_level
  serves_here in_view =
      rw (at, overfull)
        (rw
          (compact_level_schedules fp s cf_name lvl target_lvl rocksdb_lvl l (omega arith) at target
            output)
          (pick_levels_full fp (after_schedule s cf_name lvl l rocksdb_lvl) cf_name lvl largest_lvl
            (omega (arith, length-mark_level s.lazy_levels lvl)) (omega arith)))

  -- With room for just one more compaction, PickCompaction serves the last of the levels that have too
  -- many runs, if the target and the output level of that one are found, and schedules nothing for the
  -- levels before it.
  pub pick_levels_serves_last :
      (n : ℕ)
      → lvl < n
      → n ≤ length s.lazy_levels
      → ((i : ℕ) → lvl < i → i < n → is_overfull s largest_lvl i ≡ false)
      → pick_levels fp n s cf_name largest_lvl ≡ some (after_schedule s cf_name lvl l rocksdb_lvl)
  unfolding pick_levels pick_level
  pick_levels_serves_last zero below in_view quiet = absurd (omega arith)
  pick_levels_serves_last (suc i) below in_view quiet = elim (ℕ_discrete i lvl) [
    | yes same ↦ rw same (unfold pick_levels in serves_here (omega arith))
    | no other ↦
        let (m, there) = get_elem?-lt s.lazy_levels i in_view in
        let calm : has_too_many_runs s largest_lvl i (num_live_runs m) ≡ false =
          sym (is_overfull_of_get s largest_lvl i m there) ∙ quiet i (omega arith) (omega arith) in
        rw (there, calm)
          (pick_levels_serves_last i (omega arith) (omega arith) (λ j p q. quiet j p (omega arith)))
  ]
