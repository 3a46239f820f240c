-- ===== src/Fluid/Compaction/Flush.antt =====
-- A flush from its start to its end: BuildStructure, the loop of PickCompaction and what it hands over.
use native.Mathlib.Decide.{ℕ_discrete}
use lsm_workload_aware_compa.Prelude.{
  ℕ, zero, suc, ◌+◌, ◌%◌, ◌^◌, ◌≤◌, ◌<◌, ◌≡◌, ◌≢◌, ◌⊎◌, inl, inr, refl, ap, ◌∙◌, String, true,
  false, some, List, [], arith, Bool-cases, get_elem?, get_elem?-lt, lt-get_elem?, length, le→ltb,
}
use lsm_workload_aware_compa.Prelude.Int.{ltb_ℤ, long_of_bits}
use lsm_workload_aware_compa.Double.{DoubleOps, IsExact}
use lsm_workload_aware_compa.Fluid.Structure.{
  ColumnFamilyMetaData, LazyLevel, build_levels, num_live_runs, get_largest_occupied_level,
}
use lsm_workload_aware_compa.Fluid.Structure.Bands.{band}
use lsm_workload_aware_compa.Fluid.Structure.Built.{IsReadable}
use lsm_workload_aware_compa.Fluid.Structure.Files.{run_files}
use lsm_workload_aware_compa.Fluid.Structure.Counts.{total_size}
use lsm_workload_aware_compa.Fluid.Compaction.{
  FluidLsm, level_refs, level_capacity, get_compaction_target_level, output_level,
  has_too_many_runs, build_structure, pick_level, pick_levels, pick_compaction, on_flush_completed,
}
use lsm_workload_aware_compa.Fluid.Compaction.Refs.{idle_files}
use lsm_workload_aware_compa.Fluid.Compaction.Target.{get_compaction_size-level_refs}
use lsm_workload_aware_compa.Fluid.Compaction.Slot.{
  level_files, get_elem?_of_runs, runs_of_band, output_level_deepest_free,
}
use lsm_workload_aware_compa.Fluid.Compaction.Chosen.{bottom}
use lsm_workload_aware_compa.Fluid.Compaction.Picking.{
  after_schedule, is_overfull, is_overfull_of_get, pick_levels_serves_last,
}

-- The output level of a task from fluid level `lvl`: the bottom level of the same band, or a level of the
-- next band, the deepest one without files or else the bottom one.
abbrev pub IsOutput : ℕ → ColumnFamilyMetaData → ℕ → ℕ → ℕ → Type 0
IsOutput k cf_meta lvl target_lvl x =
    ((target_lvl ≡ lvl) × (x ≡ bottom k lvl))
    ⊎ ((target_lvl ≡ suc lvl)
        × (band k x ≡ suc lvl)
        × (((level_files cf_meta x ≡ [])
              × ((y : ℕ) → x < y → y ≤ bottom k (suc lvl) → level_files cf_meta y ≢ []))
            ⊎ ((x ≡ bottom k (suc lvl))
                × ((y : ℕ)
                    → bottom k (suc lvl) ≤ y + k
                    → y ≤ bottom k (suc lvl)
                    → level_files cf_meta y ≢ []))))

-- What a pick makes of the tree `t` with the view of the metadata, over the levels below `n`: nothing,
-- where none of them has too many runs; or the one task for the last of those that have.
pub data Served (fp : DoubleOps) (cf_meta : ColumnFamilyMetaData) (t : FluidLsm) (cf_name : String)
    (largest_lvl n : ℕ) : FluidLsm → Type 0 where
  calm :
      ((i : ℕ) → i < n → is_overfull t largest_lvl i ≡ false)
      → Served fp cf_meta t cf_name largest_lvl n t
  serves :
      (lvl target_lvl x : ℕ) (l : LazyLevel)
      → lvl < n
      → get_elem? t.lazy_levels lvl ≡ some l
      → is_overfull t largest_lvl lvl ≡ true
      → ((i : ℕ) → lvl < i → i < n → is_overfull t largest_lvl i ≡ false)
      → get_compaction_target_level fp t lvl (level_refs lvl 0 l.runs) ≡ some target_lvl
      → IsOutput t.smaller_lvl_runs_count cf_meta lvl target_lvl x
      → Served fp cf_meta t cf_name largest_lvl n (after_schedule t cf_name lvl l x)

target_cases :
    (fp : DoubleOps) (t : FluidLsm) (lvl : ℕ) (l : LazyLevel)
    → get_elem? t.lazy_levels lvl ≡ some l
    → (get_compaction_target_level fp t lvl (level_refs lvl 0 l.runs) ≡ some lvl)
      ⊎ (get_compaction_target_level fp t lvl (level_refs lvl 0 l.runs) ≡ some (suc lvl))
unfolding get_compaction_target_level
target_cases fp t lvl l at =
    let size = long_of_bits (total_size (idle_files (run_files l.runs)) % 2 ^ 64) in
    elim (Bool-cases
      (ltb_ℤ (level_capacity fp t.options.write_buffer_size t.size_ratio lvl) size)) [
        | inl large ↦ inr (
            rw (get_compaction_size-level_refs t.lazy_levels lvl l at)
              (rw large (ap some (omega arith))))
        | inr small ↦ inl (rw (get_compaction_size-level_refs t.lazy_levels lvl l at) (rw small))
      ]

extend_quiet :
    (t : FluidLsm) (g lvl i : ℕ)
    → is_overfull t g i ≡ false
    → ((j : ℕ) → lvl < j → j < i → is_overfull t g j ≡ false)
    → (j : ℕ) → lvl < j
    → j < suc i
    → is_overfull t g j ≡ false
extend_quiet t g lvl i here below j above in_range = elim (ℕ_discrete j i) [
  | yes same ↦ ap (is_overfull t g) same ∙ here
  | no other ↦ below j above (omega arith)
]

pub quiet_below :
    (t : FluidLsm) (g i : ℕ)
    → is_overfull t g i ≡ false
    → ((j : ℕ) → j < i → is_overfull t g j ≡ false)
    → (j : ℕ) → j < suc i
    → is_overfull t g j ≡ false
quiet_below t g i here below j in_range = elim (ℕ_discrete j i) [
  | yes same ↦ ap (is_overfull t g) same ∙ here
  | no other ↦ below j (omega arith)
]

Served-extend :
    {fp : DoubleOps} {cf_meta : ColumnFamilyMetaData} {cf_name : String} (t : FluidLsm) (g i : ℕ)
    {s' : FluidLsm}
    → is_overfull t g i ≡ false
    → Served fp cf_meta t cf_name g i s'
    → Served fp cf_meta t cf_name g (suc i) s'
Served-extend t g i here (calm none_above) = calm (quiet_below t g i here none_above)
Served-extend t g i here (serves lvl target_lvl x l below at many quiet target chosen) =
    serves lvl target_lvl x l (omega arith) at many (extend_quiet t g lvl i here quiet) target
      chosen

bottom_mono : (k a c : ℕ) → a ≤ c → bottom k a ≤ bottom k c
bottom_mono k a c h = grind arith

module _ (fp : DoubleOps) (e : IsExact fp) (t : FluidLsm) (cf_name : String)
    (cf_meta : ColumnFamilyMetaData) (ls : List LazyLevel) (g : ℕ)
    (h : IsReadable t.smaller_lvl_runs_count cf_meta ls)
    (b : build_levels fp t.smaller_lvl_runs_count cf_meta ls ≡ some t.lazy_levels)
    (room : bottom t.smaller_lvl_runs_count (suc g) < length cf_meta) where
  IsOutput-found :
      (lvl : ℕ) (l : LazyLevel)
      → lvl ≤ g
      → get_elem? t.lazy_levels lvl ≡ some l
      → (target_lvl x : ℕ) × (get_compaction_target_level fp t lvl (level_refs lvl 0 l.runs)
          ≡ some target_lvl)
        × (output_level t.lazy_levels t.smaller_lvl_runs_count lvl target_lvl ≡ some x)
        × IsOutput t.smaller_lvl_runs_count cf_meta lvl target_lvl x
  unfolding output_level
  IsOutput-found lvl l within at =
      let k = t.smaller_lvl_runs_count in
      elim (target_cases fp t lvl l at) [
        | inl stays ↦
            (lvl, bottom k lvl, stays, rw (le→ltb lvl lvl (omega arith)), inl (refl, refl))
        | inr moves ↦
            let (x, found, in_band, choice) =
              output_level_deepest_free fp e k cf_meta ls t.lazy_levels h b lvl lvl (omega arith)
                (omega (arith, bottom_mono k (suc lvl) (suc g) (omega arith))) in
            (suc lvl, x, moves, unfold output_level in found, inr (refl, in_band, choice))
      ]

  serve :
      (n : ℕ)
      → n ≤ suc g
      → n ≤ length t.lazy_levels
      → t.parallel_compactions_allowed ≡ t.parallel_compactions_running + 1
      → (s' : FluidLsm) × (pick_levels fp n t cf_name g ≡ some s')
        × Served fp cf_meta t cf_name g n s'
  unfolding pick_levels pick_level
  serve zero within in_view one = (t, refl, calm (λ i p. absurd (omega arith)))
  serve (suc i) within in_view one =
      let (m, at) = get_elem?-lt t.lazy_levels i (omega arith) in
      let same = is_overfull_of_get t g i m at in
      elim (Bool-cases (has_too_many_runs t g i (num_live_runs m))) [
        | inl many ↦
            let (target_lvl, x, target, output, chosen) = IsOutput-found i m (omega arith) at in
            (
              after_schedule t cf_name i m x,
              unfold pick_levels pick_level in
                  pick_levels_serves_last fp t cf_name g i target_lvl x m one at many target output
                    (suc i) (omega arith) in_view (λ j p q. absurd (omega arith)),
              serves i target_lvl x m (omega arith) at (same ∙ many) (λ j p q. absurd (omega arith))
                  target chosen,
            )
        | inr few ↦
            let (s', ended, served) = serve i (omega arith) (omega arith) one in
            (s', rw (at, few) ended, Served-extend t g i (same ∙ few) served)
      ]

  -- The band below the largest level is in the view.
  in_view_below : suc g < length t.lazy_levels
  in_view_below =
      let k = t.smaller_lvl_runs_count in
      let full = runs_of_band fp e k cf_meta ls t.lazy_levels h b g room in
      let (l, at, _) = get_elem?_of_runs t.lazy_levels (suc g) (omega (arith, full)) in
      lt-get_elem? t.lazy_levels (suc g) at

module _ (fp : DoubleOps) (e : IsExact fp) (s : FluidLsm) (cf_name : String)
    (cf_meta : ColumnFamilyMetaData) (ls' : List LazyLevel)
    (h : IsReadable s.smaller_lvl_runs_count cf_meta s.lazy_levels)
    (b : build_levels fp s.smaller_lvl_runs_count cf_meta s.lazy_levels ≡ some ls')
    (room : bottom s.smaller_lvl_runs_count (suc (get_largest_occupied_level ls'))
      < length cf_meta) where
  -- What OnFlushCompleted does on readable metadata, with exact doubles, no compaction running of the one
  -- that is allowed, and the band of RocksDB levels below the largest occupied fluid level complete. It ends
  -- without a fault, with the view of the metadata. Where no level up to the largest has too many runs,
  -- nothing else changes. Otherwise there is one task, for the last level that has too many: with the names
  -- of its idle files, and at the bottom RocksDB level of that level or a level of the next band, the
  -- deepest one without files, and the bottom one if all have files; all files of the level are marked.
  pub on_flush_completed-Served :
      s.parallel_compactions_allowed ≡ 1
      → s.parallel_compactions_running ≡ 0
      → (s' : FluidLsm) × (on_flush_completed fp s cf_name cf_meta ≡ some s')
        × Served fp cf_meta
            (record s { lazy_levels = ls' })
            cf_name
            (get_largest_occupied_level ls')
            (suc (get_largest_occupied_level ls'))
            s'
  unfolding on_flush_completed pick_compaction build_structure
  on_flush_completed-Served one idle =
      let t : FluidLsm = record s { lazy_levels = ls' } in
      let g = get_largest_occupied_level ls' in
      let there = in_view_below fp e t cf_name cf_meta s.lazy_levels g h b room in
      let (s', ended, served) =
        serve fp e t cf_name cf_meta s.lazy_levels g h b room (suc g) (omega arith) (omega arith)
          (omega arith) in
      (s', rw b ended, served)
