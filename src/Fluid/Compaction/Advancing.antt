-- ===== src/Fluid/Compaction/Advancing.antt =====
-- What one round does to the sorted runs of the database.
use mathlib.Core.Path.{subst}
use lsm_workload_aware_compa.Prelude.{
  ℕ, suc, ◌<◌, get_elem?, ◌+◌, ◌-◌, ◌*◌, ◌≤◌, ◌≡◌, refl, sym, ap, ◌∙◌, String, Bool, Bool, true,
  false, some, List, [], ◌∷◌, ◌++◌, arith, length, some_inj,
}
use lsm_workload_aware_compa.Double.{DoubleOps, IsExact}
use lsm_workload_aware_compa.Fluid.Structure.{
  SstFileMetaData, ColumnFamilyMetaData, LazyLevel, build_levels,
}
use lsm_workload_aware_compa.Fluid.Structure.Bands.{band}
use lsm_workload_aware_compa.Fluid.Structure.Built.{IsReadable}
use lsm_workload_aware_compa.Fluid.Structure.Live.{IsIdle, live_runs, live_in}
use lsm_workload_aware_compa.Fluid.Structure.Total.{
  fluid_levels, live_runs-le, add_flushed, length-add_flushed, live_in-add_flushed,
}
use lsm_workload_aware_compa.Fluid.Compaction.{CompactionTask, FluidLsm, compact_files}
use lsm_workload_aware_compa.Fluid.Compaction.Picking.{task_for}
use lsm_workload_aware_compa.Fluid.Compaction.Merging.{
  contains, Compacts, Compacts-live, Compacts-length, Compacts-IsNumbered, Compacts-IsIdle,
}
use lsm_workload_aware_compa.Fluid.Compaction.Covering.{task-Covers}
use lsm_workload_aware_compa.Fluid.Compaction.Picked.{Picked, quiet, schedules, viewing}
use lsm_workload_aware_compa.Fluid.Compaction.Rounds.{Store}
use lsm_workload_aware_compa.Fluid.Compaction.Quiet.{
  append_last_inj, append_last_ne, IsReadable-same,
}
use lsm_workload_aware_compa.Fluid.Compaction.Steady.{
  IsSteady, IsBetween, m1-IsReadable, m1-IsIdle, one_more, task_ends,
}

-- What a round with `j` compactions and `i` failures does to the sorted runs: on the whole there is at most
-- one more for the flush, and `d` less for each compaction; and a bound that allows `c` for each fluid
-- level is kept, up to one more for each failure.
pub record Advances (c d j i : ℕ) (v w : Store) : Type 0 where
  pub steady : IsSteady w
  pub smaller : w.tree.smaller_lvl_runs_count ≡ v.tree.smaller_lvl_runs_count
  pub larger : w.tree.larger_lvl_runs_count ≡ v.tree.larger_lvl_runs_count
  pub same_levels : length w.cf_meta ≡ length v.cf_meta
  pub amortized : live_runs w.cf_meta + d * j ≤ live_runs v.cf_meta + 1
  pub bounded :
      (bound : ℕ)
      → fluid_levels v.tree.smaller_lvl_runs_count v.cf_meta * c ≤ bound
      → live_runs v.cf_meta ≤ bound
      → live_runs w.cf_meta ≤ bound + i

module _ (fp : DoubleOps) (e : IsExact fp) (cf_name : String) (v : Store) (steady : IsSteady v)
    (c d : ℕ) (limits : IsBetween c d v.tree) (file : SstFileMetaData)
    (file_idle : file.being_compacted ≡ false) where
  abbrev k : ℕ
  k = v.tree.smaller_lvl_runs_count

  abbrev m1 : ColumnFamilyMetaData
  m1 = add_flushed file v.cf_meta

  readable : IsReadable k m1 v.tree.lazy_levels
  readable = m1-IsReadable fp e cf_name v steady c d limits file file_idle

  idle : IsIdle m1
  idle = m1-IsIdle fp e cf_name v steady c d limits file file_idle

  more : live_runs m1 ≡ live_runs v.cf_meta + 1
  more = one_more fp e cf_name v steady c d limits file file_idle

  pub flushed-Advances :
      {t : FluidLsm}
      → Picked fp v.tree cf_name m1 c d t
      → t.scheduled ≡ v.tree.scheduled
      → Advances c d 0 0 v (record { tree = t; cf_meta = m1 })
  flushed-Advances (quiet ls' same few) h = record {
    steady = record {
      one = steady.one;
      none_running = steady.none_running;
      readable = IsReadable-same readable refl same readable.numbered;
      idle = idle;
    };
    smaller = refl;
    larger = refl;
    same_levels = length-add_flushed file v.cf_meta;
    amortized = omega (arith, more);
    bounded = λ bound enough before.
        let levels : fluid_levels k m1 ≡ fluid_levels k v.cf_meta =
          ap (λ n. suc (band k (n - 1))) (length-add_flushed file v.cf_meta) in
        omega (arith, live_runs-le k c m1 readable.numbered few, ap (λ n. n * c) levels);
  }
  flushed-Advances (schedules ls' lvl x l same b at positive many) h =
      absurd (append_last_ne v.tree.scheduled _ (sym h))

  -- What is left of the level that the task is for, and of all, when the task has been carried out.
  served-live :
      (ls' : List LazyLevel) (lvl x : ℕ) (l : LazyLevel) (task : CompactionTask)
      (taken : List String) (m2 : ColumnFamilyMetaData)
      → build_levels fp k m1 v.tree.lazy_levels ≡ some ls'
      → get_elem? ls' lvl ≡ some l
      → 0 < x
      → task_for (viewing v.tree ls') cf_name l x ≡ task
      → ((n : String) → contains n task.input_file_names ≡ true → contains n taken ≡ true)
      → Compacts taken task.output_lvl m1 m2
      → (live_runs m2 + live_in k lvl m1 ≤ live_runs m1 + 1) × (live_in k lvl m2 ≤ 1)
  served-live ls' lvl x l task taken m2 b at positive task_is named done =
      Compacts-live taken x k lvl positive m1 m2 readable.numbered
        (subst (λ (j : CompactionTask). Compacts taken j.output_lvl m1 m2) (sym task_is) done)
        (task-Covers fp e k m1 v.tree.lazy_levels ls' readable idle b lvl l at taken (λ n p.
          named n (ap (λ (j : CompactionTask). contains n j.input_file_names) (sym task_is) ∙ p)))

  pub merged-Advances :
      {t u : FluidLsm} (task : CompactionTask) (taken : List String) (m2 : ColumnFamilyMetaData)
      → Picked fp v.tree cf_name m1 c d t
      → t.scheduled ≡ v.tree.scheduled ++ task ∷ []
      → ((n : String) → contains n task.input_file_names ≡ true → contains n taken ≡ true)
      → Compacts taken task.output_lvl m1 m2
      → compact_files fp t task false m2 ≡ some u
      → Advances c d 1 0 v (record { tree = u; cf_meta = m2 })
  merged-Advances task taken m2 (quiet ls' same few) h named done ended =
      absurd (append_last_ne v.tree.scheduled task h)
  merged-Advances task taken m2 (schedules ls' lvl x l same b at positive many) h named done ended =
      let (total, settled) =
        served-live ls' lvl x l task taken m2 b at positive (append_last_inj v.tree.scheduled _ _ h)
          named done in
      let same_meta = Compacts-length taken task.output_lvl m1 m2 done in
      let (u', ends, steady', small, large) =
        task_ends fp e cf_name v steady c d limits file file_idle ls' lvl x l task false m2 same
          same_meta (Compacts-IsNumbered taken task.output_lvl 0 m1 m2 done readable.numbered)
          (Compacts-IsIdle taken task.output_lvl m1 m2 done) in
      subst (λ w. Advances c d 1 0 v (record { tree = w; cf_meta = m2 }))
        (some_inj (sym ends ∙ ended))
        (record {
          steady = steady';
          smaller = small;
          larger = large;
          same_levels = same_meta ∙ length-add_flushed file v.cf_meta;
          amortized = omega (arith, total, more, many, limits.positive);
          bounded = λ bound enough before. omega (arith, total, more, many, limits.positive);
        })

  -- The level that a task has been scheduled for, when the task has been carried out.
  pub Picked-settles :
      {t : FluidLsm} (task : CompactionTask) (taken : List String) (m2 : ColumnFamilyMetaData)
      → Picked fp v.tree cf_name m1 c d t
      → t.scheduled ≡ v.tree.scheduled ++ task ∷ []
      → ((n : String) → contains n task.input_file_names ≡ true → contains n taken ≡ true)
      → Compacts taken task.output_lvl m1 m2
      → (lvl : ℕ) × (d ≤ live_in k lvl v.cf_meta) × (live_in k lvl m2 ≤ 1)
  Picked-settles task taken m2 (quiet ls' same few) h named done =
      absurd (append_last_ne v.tree.scheduled task h)
  Picked-settles task taken m2 (schedules ls' lvl x l same b at positive many) h named done = (
    lvl,
    omega (arith, many, live_in-add_flushed k lvl file v.cf_meta steady.readable.numbered),
    (served-live ls' lvl x l task taken m2 b at positive (append_last_inj v.tree.scheduled _ _ h)
        named done).1,
  )

  pub Picked-few :
      {t : FluidLsm}
      → Picked fp v.tree cf_name m1 c d t
      → t.scheduled ≡ v.tree.scheduled
      → (f : ℕ) → live_in k f m1 ≤ c
  Picked-few (quiet ls' same few) h = few
  Picked-few (schedules ls' lvl x l same b at positive many) h =
      absurd (append_last_ne v.tree.scheduled _ (sym h))

  pub failed-Advances :
      {t u : FluidLsm} (task : CompactionTask) (is_io_error : Bool)
      → Picked fp v.tree cf_name m1 c d t
      → t.scheduled ≡ v.tree.scheduled ++ task ∷ []
      → compact_files fp t task is_io_error m1 ≡ some u
      → Advances c d 0 1 v (record { tree = u; cf_meta = m1 })
  failed-Advances task is_io_error (quiet ls' same few) h ended =
      absurd (append_last_ne v.tree.scheduled task h)
  failed-Advances task is_io_error (schedules ls' lvl x l same b at positive many) h ended =
      let (u', ends, steady', small, large) =
        task_ends fp e cf_name v steady c d limits file file_idle ls' lvl x l task is_io_error m1
          same refl readable.numbered idle in
      subst (λ w. Advances c d 0 1 v (record { tree = w; cf_meta = m1 }))
        (some_inj (sym ends ∙ ended))
        (record {
          steady = steady';
          smaller = small;
          larger = large;
          same_levels = length-add_flushed file v.cf_meta;
          amortized = omega (arith, more);
          bounded = λ bound enough before. omega (arith, more);
        })
