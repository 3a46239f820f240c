-- ===== src/Fluid/Compaction/Quiet.antt =====
-- What a round of a flush and its compaction leaves as it was.
use lsm_workload_aware_compa.Prelude.{
  ℕ, suc, ◌-◌, ◌≤◌, ◌≡◌, refl, ap, Bool, true, false, some, List, [], ◌∷◌, ◌++◌, arith, length,
  length-append,
}
use lsm_workload_aware_compa.Double.{DoubleOps, IsExact}
use lsm_workload_aware_compa.Fluid.Structure.{
  ColumnFamilyMetaData, LazyLevel, get_largest_occupied_level,
}
use lsm_workload_aware_compa.Fluid.Structure.Placing.{IsNumbered}
use lsm_workload_aware_compa.Fluid.Structure.Built.{IsReadable}
use lsm_workload_aware_compa.Fluid.Structure.Build.{build_levels_keeps_files, length-build_levels}
use lsm_workload_aware_compa.Fluid.Structure.Counts.{get_largest_occupied_level-IsLargest}
use lsm_workload_aware_compa.Fluid.Compaction.{
  CompactionTask, FluidLsm, build_structure, pick_compaction, pick_next, compact_files,
}
use lsm_workload_aware_compa.Fluid.Compaction.Picking.{pick_levels_full}
use lsm_workload_aware_compa.Fluid.Compaction.Picked.{viewing, largest_lt}

-- The end of a background compaction, with an I/O error or without: it comes without a fault, and the
-- pick in it schedules nothing.
pub compact_files-quiet :
    (fp : DoubleOps) (e : IsExact fp) (t : FluidLsm) (task : CompactionTask) (is_io_error : Bool)
    (m : ColumnFamilyMetaData)
    → IsReadable t.smaller_lvl_runs_count m t.lazy_levels
    → t.parallel_compactions_allowed ≤ t.parallel_compactions_running
    → (ls : List LazyLevel) × (length ls ≡ length t.lazy_levels)
      × (compact_files fp t task is_io_error m
          ≡ some (record t {
            lazy_levels = ls;
            parallel_compactions_running = t.parallel_compactions_running - 1;
          }))
unfolding compact_files pick_next pick_compaction build_structure
compact_files-quiet fp e t task true m h full = (t.lazy_levels, refl, refl)
compact_files-quiet fp e t task false m h full =
    let k = t.smaller_lvl_runs_count in
    let (ls, b, kept) = build_levels_keeps_files fp e k m t.lazy_levels h in
    let same = length-build_levels fp e k m t.lazy_levels ls h b in
    let g = get_largest_occupied_level ls in
    let in_view =
      largest_lt ls g (omega (arith, same, h.room, h.two_levels))
        (get_largest_occupied_level-IsLargest ls) in
    let stopped = pick_levels_full fp (viewing t ls) task.cf_name (suc g) g (omega arith) full in
    (ls, same, rw b (rw stopped))

pub append_last_inj {ℓ} : {A : Type ℓ} (xs : List A) (a b : A) → xs ++ a ∷ [] ≡ xs ++ b ∷ [] → a ≡ b
append_last_inj [] a b h = cc
append_last_inj (x ∷ xs) a b h = append_last_inj xs a b (cc)

pub append_last_ne {ℓ} : {A : Type ℓ} (xs : List A) (a : A) → xs ≡ xs ++ a ∷ [] → ⊥
append_last_ne xs a h = omega (arith, ap length h, length-append xs (a ∷ []))

pub IsReadable-same :
    {k : ℕ} {m m' : ColumnFamilyMetaData} {ls ls' : List LazyLevel}
    → IsReadable k m ls
    → length m' ≡ length m
    → length ls' ≡ length ls
    → IsNumbered 0 m'
    → IsReadable k m' ls'
IsReadable-same h same_meta same_levels numbered = record {
  two_levels = omega (arith, h.two_levels);
  numbered = numbered;
  room = omega (arith, h.room);
  exact = omega (arith, h.exact);
}
