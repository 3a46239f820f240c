-- ===== src/Fluid/Compaction/Interleaving.antt =====
-- The listener and its background tasks, interleaved: flushes and the parts of CompactFiles in any order
-- (fluid_lsm.cc, OnFlushCompleted and CompactFiles). A pick, with the test and the increment of
-- ScheduleCompaction in it, is one step, and so is the decrement.
use lsm_workload_aware_compa.Prelude.{
  ℕ, zero, suc, ◌+◌, ◌-◌, ◌≤◌, ◌≡◌, refl, ap, ◌∙◌, String, Bool, some, some_inj, List, [], ◌∷◌,
  ◌++◌, arith, get_elem?, modify, length, length-append, length-modify,
}
use lsm_workload_aware_compa.Prelude.Yields.{yielded, Yields, if-Yields, yields_some}
use lsm_workload_aware_compa.Double.{DoubleOps}
use lsm_workload_aware_compa.Fluid.Structure.{ColumnFamilyMetaData}
use lsm_workload_aware_compa.Fluid.Compaction.{
  TreeOptions, CompactionTask, FluidLsm, new_tree, pick_next, on_flush_completed,
}
use lsm_workload_aware_compa.Fluid.Compaction.Handing.{Hands, Hands-refl, pick_compaction-Hands}

-- How far a scheduled task has come: not begun, in the database's CompactFiles, or behind the next pick
-- and before the decrement; `done` afterwards.
pub data Phase : Type 0 where
  waiting compacting picked done : Phase

abbrev pub active : Phase → ℕ
active done = 0
active _ = 1

unfoldable pub count_active : List Phase → ℕ
count_active [] = 0
count_active (p ∷ ps) = active p + count_active ps

-- The tree and the phases of the tasks that it has scheduled, in their order.
pub record World : Type 0 where
  pub tree : FluidLsm
  pub phases : List Phase

unfoldable pub waits : ℕ → List Phase
waits zero = []
waits (suc n) = waiting ∷ waits n

-- The phases with a new one for each task that `t` has scheduled and `s` has not.
abbrev extend : List Phase → FluidLsm → FluidLsm → List Phase
extend ps s t = ps ++ waits (length t.scheduled - length s.scheduled)

abbrev set_phase : List Phase → ℕ → Phase → List Phase
set_phase ps i p = modify ps i λ _. p

pub data Step (fp : DoubleOps) (w : World) : World → Type 0 where
  flushes :
      (cf_name : String) (cf_meta : ColumnFamilyMetaData) (t : FluidLsm)
      → on_flush_completed fp w.tree cf_name cf_meta ≡ some t
      → Step fp w (record { tree = t; phases = extend w.phases w.tree t })
  begins :
      (i : ℕ)
      → get_elem? w.phases i ≡ some waiting
      → Step fp w (record { tree = w.tree; phases = set_phase w.phases i compacting })
  picks :
      (i : ℕ) (task : CompactionTask) (is_io_error : Bool) (cf_meta : ColumnFamilyMetaData)
      (t : FluidLsm)
      → get_elem? w.phases i ≡ some compacting
      → get_elem? w.tree.scheduled i ≡ some task
      → pick_next fp w.tree task is_io_error cf_meta ≡ some t
      → Step fp w (record { tree = t; phases = extend (set_phase w.phases i picked) w.tree t })
  ends :
      (i : ℕ)
      → get_elem? w.phases i ≡ some picked
      → Step fp w (record {
        tree = record w.tree {
          parallel_compactions_running = w.tree.parallel_compactions_running - 1;
        };
        phases = set_phase w.phases i done;
      })

-- The states that the listener comes to from its construction.
pub data Reach (fp : DoubleOps) (start : FluidLsm) : World → Type 0 where
  starts : Reach fp start (record { tree = start; phases = [] })
  steps : {v w : World} → Reach fp start v → Step fp v w → Reach fp start w

count_active-append :
    (ps qs : List Phase) → count_active (ps ++ qs) ≡ count_active ps + count_active qs
unfolding count_active
count_active-append [] qs = omega arith
count_active-append (p ∷ ps) qs = omega (arith, count_active-append ps qs)

count_active-waits : (n : ℕ) → count_active (waits n) ≡ n
unfolding count_active waits
count_active-waits zero = refl
count_active-waits (suc n) = omega (arith, count_active-waits n)

length-waits : (n : ℕ) → length (waits n) ≡ n
unfolding waits
length-waits zero = refl
length-waits (suc n) = ap suc (length-waits n)

count_active-set_phase :
    (ps : List Phase) (i : ℕ) (p q : Phase)
    → get_elem? ps i ≡ some p
    → count_active (set_phase ps i q) + active p ≡ count_active ps + active q
unfolding count_active
count_active-set_phase [] i p q at = cc
count_active-set_phase (x ∷ ps) zero p q at = rw (some_inj at) (omega arith)
count_active-set_phase (x ∷ ps) (suc i) p q at = omega (arith, count_active-set_phase ps i p q at)

-- One phase for each scheduled task, a count of running compactions that is the number of tasks not yet
-- done, and the limit of one.
pub record IsCounted (w : World) : Type 0 where
  pub matched : length w.phases ≡ length w.tree.scheduled
  pub counted : w.tree.parallel_compactions_running ≡ count_active w.phases
  pub one : w.tree.parallel_compactions_allowed ≡ 1
  pub limited : w.tree.parallel_compactions_running ≤ 1

extend-IsCounted :
    (w : World) (ps : List Phase) (t : FluidLsm)
    → IsCounted (record { tree = w.tree; phases = ps })
    → Hands w.tree t
    → length w.tree.scheduled ≤ length t.scheduled
    → IsCounted (record { tree = t; phases = extend ps w.tree t })
extend-IsCounted w ps t ok hands longer =
    let new = length t.scheduled - length w.tree.scheduled in
    record {
      matched = omega (arith, length-append ps (waits new), length-waits new, ok.matched);
      counted = omega (
        arith,
        count_active-append ps (waits new),
        count_active-waits new,
        ok.counted,
        hands.counted,
      );
      one = hands.same_limit ∙ ok.one;
      limited = omega (arith, hands.limited (omega (arith, ok.limited, ok.one)), ok.one);
    }

module _ (fp : DoubleOps) where
  pick_next-Hands :
      (s : FluidLsm) (task : CompactionTask) (is_io_error : Bool) (cf_meta : ColumnFamilyMetaData)
      → Yields (Hands s) (pick_next fp s task is_io_error cf_meta)
  unfolding pick_next
  pick_next-Hands s task is_io_error cf_meta =
      if-Yields is_io_error (λ failed. yields_some (Hands-refl s))
        (λ worked. pick_compaction-Hands fp s task.cf_name cf_meta)

  Step-IsCounted : {v w : World} → Step fp v w → IsCounted v → IsCounted w
  unfolding on_flush_completed
  Step-IsCounted {v = v} (flushes cf_name cf_meta t picked_some) ok =
      let hands = yielded (pick_compaction-Hands fp v.tree cf_name cf_meta) picked_some in
      extend-IsCounted v v.phases t ok hands (omega (arith, hands.counted, hands.more))
  Step-IsCounted {v = v} (begins i at) ok = record {
    matched = length-modify v.phases i _ ∙ ok.matched;
    counted = omega (arith, count_active-set_phase v.phases i waiting compacting at, ok.counted);
    one = ok.one;
    limited = ok.limited;
  }
  Step-IsCounted {v = v} (picks i task is_io_error cf_meta t at its picked_some) ok =
      let hands = yielded (pick_next-Hands v.tree task is_io_error cf_meta) picked_some in
      extend-IsCounted v (set_phase v.phases i picked) t
        (record {
          matched = length-modify v.phases i _ ∙ ok.matched;
          counted =
              omega (arith, count_active-set_phase v.phases i compacting picked at, ok.counted);
          one = ok.one;
          limited = ok.limited;
        })
        hands (omega (arith, hands.counted, hands.more))
  Step-IsCounted {v = v} (ends i at) ok = record {
    matched = length-modify v.phases i _ ∙ ok.matched;
    counted = omega (arith, count_active-set_phase v.phases i picked done at, ok.counted);
    one = ok.one;
    limited = omega (arith, ok.limited);
  }

  module _ (size_ratio smaller larger file_size : ℕ) (options : TreeOptions) (found : Bool) where
    -- If each pick is one step, so that no other thread comes between its test of the limit and its counting
    -- (which the code does not ensure): from the construction of the listener on, whatever flushes come and
    -- in whatever order picks, compactions and decrements follow, the count of running compactions is the
    -- number of scheduled tasks that are not yet done, and it is not above the limit of one.
    pub Reach-IsCounted :
        {w : World}
        → Reach fp (new_tree size_ratio smaller larger file_size options found) w
        → IsCounted w
    unfolding new_tree count_active
    Reach-IsCounted starts = record {
      matched = refl;
      counted = refl;
      one = refl;
      limited = omega arith;
    }
    Reach-IsCounted (steps before step) = Step-IsCounted step (Reach-IsCounted before)

    -- If each pick is one step: the pick at the end of a background compaction schedules nothing: until the decrement behind it, the
    -- task that picks still fills the limit.
    pub pick_next-schedules_nothing :
        {w : World} (i : ℕ) (task : CompactionTask) (is_io_error : Bool)
        (cf_meta : ColumnFamilyMetaData) (t : FluidLsm)
        → Reach fp (new_tree size_ratio smaller larger file_size options found) w
        → get_elem? w.phases i ≡ some compacting
        → pick_next fp w.tree task is_io_error cf_meta ≡ some t
        → length t.scheduled ≡ length w.tree.scheduled
    pick_next-schedules_nothing {w = w} i task is_io_error cf_meta t reached at picked_some =
        let ok = Reach-IsCounted reached in
        let hands = yielded (pick_next-Hands w.tree task is_io_error cf_meta) picked_some in
        omega (
          arith,
          hands.counted,
          hands.more,
          hands.limited (omega (arith, ok.limited, ok.one)),
          ok.one,
          ok.counted,
          count_active-set_phase w.phases i compacting done at,
        )
