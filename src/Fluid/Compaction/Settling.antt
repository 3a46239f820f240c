-- ===== src/Fluid/Compaction/Settling.antt =====
-- What one round leaves in the fluid levels: whether the level that has been served is within its limit.
use lsm_workload_aware_compa.Prelude.{ℕ, ◌+◌, ◌≤◌, ◌≡◌, ◌⊎◌, inl, inr, refl, String}
use lsm_workload_aware_compa.Double.{DoubleOps, IsExact}
use lsm_workload_aware_compa.Fluid.Structure.Live.{live_in}
use lsm_workload_aware_compa.Fluid.Structure.Total.{live_in-add_flushed}
use lsm_workload_aware_compa.Fluid.Compaction.Rounds.{
  Store, Round, flushed, merged, failed, compactions, failures,
}
use lsm_workload_aware_compa.Fluid.Compaction.Steady.{IsSteady, IsBetween, flush-Picked}
use lsm_workload_aware_compa.Fluid.Compaction.Advancing.{Picked-few, Picked-settles}

module _ (fp : DoubleOps) (e : IsExact fp) (cf_name : String) {v : Store} (c d : ℕ)
    (steady : IsSteady v) (limits : IsBetween c d v.tree) where
  abbrev k : ℕ
  k = v.tree.smaller_lvl_runs_count

  -- What a round leaves that begins between two rounds (IsSteady), with exact doubles, `c` no less and `d` no
  -- more than the limits K and Z, and `d` not zero. If the flush has scheduled nothing, no fluid level has
  -- more than `c` sorted runs. If a compaction has been carried out, there is a fluid level that had at
  -- least `d` sorted runs in front of the flush and has at most one now. If it has failed, each fluid
  -- level has at most one sorted run more than in front of the flush.
  pub Round-settles :
      {w : Store} (r : Round fp cf_name v w)
      → ((compactions r + failures r ≡ 0) × ((f : ℕ) → live_in k f w.cf_meta ≤ c))
        ⊎ (((compactions r ≡ 1)
              × (lvl : ℕ) × (d ≤ live_in k lvl v.cf_meta)
              × (live_in k lvl w.cf_meta ≤ 1))
            ⊎ ((failures r ≡ 1) × ((f : ℕ) → live_in k f w.cf_meta ≤ live_in k f v.cf_meta + 1)))
  Round-settles (flushed file t idle picked same) = inl (
    refl,
    Picked-few fp e cf_name v steady c d limits file idle
        (flush-Picked fp e cf_name v steady c d limits file idle picked) same,
  )
  Round-settles (merged file t u task taken cf_meta idle picked one_task named done ended) =
      let (lvl, many, few) =
        Picked-settles fp e cf_name v steady c d limits file idle task taken cf_meta
          (flush-Picked fp e cf_name v steady c d limits file idle picked) one_task named done in
      inr (inl (refl, lvl, many, few))
  Round-settles (failed file t u task is_io_error idle picked one_task ended) =
      inr (inr (refl, λ f. live_in-add_flushed k f file v.cf_meta steady.readable.numbered))
