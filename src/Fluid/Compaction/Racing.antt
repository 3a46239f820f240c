-- ===== src/Fluid/Compaction/Racing.antt =====
-- The count of running compactions with the steps of ScheduleCompaction taken apart (fluid_lsm.cc): the
-- test against the limit is made without the mutex that guards the increment and the decrement. Any
-- number of threads may be in OnFlushCompleted or CompactFiles.
use mathlib.Core.Path.{subst}
use lsm_workload_aware_compa.Prelude.{
  ℕ, zero, suc, ◌+◌, ◌-◌, ◌≤◌, ◌<◌, ◌≡◌, ap, Bool, true, arith, ltb, lt→ltb,
}
use lsm_workload_aware_compa.Fluid.Compaction.{FluidLsm, new_tree, TreeOptions}

-- The two counters of the tree, the threads that have passed the test and not yet counted up, and the
-- tasks that are handed over and not yet at their end.
pub record Race : Type 0 where
  pub parallel_compactions_allowed : ℕ
  pub parallel_compactions_running : ℕ
  pub passed : ℕ
  pub tasks : ℕ

-- `parallel_compactions_allowed_ > parallel_compactions_running_`
abbrev pub has_room : Race → Bool
has_room r = ltb r.parallel_compactions_running r.parallel_compactions_allowed

-- `parallel_compactions_running_++`, and the task that is scheduled behind it.
abbrev pub count_up : Race → Race
count_up r = record r {
  parallel_compactions_running = r.parallel_compactions_running + 1;
  passed = r.passed - 1;
  tasks = r.tasks + 1;
}

-- `parallel_compactions_running_--`, at the end of CompactFiles.
abbrev pub count_down : Race → Race
count_down r = record r {
  parallel_compactions_running = r.parallel_compactions_running - 1;
  tasks = r.tasks - 1;
}

pub data RaceStep (r : Race) : Race → Type 0 where
  tests : has_room r ≡ true → RaceStep r (record r { passed = r.passed + 1 })
  counts_up : 0 < r.passed → RaceStep r (count_up r)
  counts_down : 0 < r.tasks → RaceStep r (count_down r)

-- The counters of a tree.
abbrev pub race_of : FluidLsm → Race
race_of s = record {
  parallel_compactions_allowed = s.parallel_compactions_allowed;
  parallel_compactions_running = s.parallel_compactions_running;
  passed = 0;
  tasks = 0;
}

pub data RaceReach (s : Race) : Race → Type 0 where
  begins : RaceReach s s
  goes_on : {t u : Race} → RaceReach s t → RaceStep t u → RaceReach s u

-- The steps in which at most one thread is between the test and the counting.
pub data AloneReach (s : Race) : Race → Type 0 where
  begins : AloneReach s s
  goes_on : {t u : Race} → AloneReach s t → RaceStep t u → u.passed ≤ 1 → AloneReach s u

abbrev standing : ℕ → ℕ → ℕ → Race
standing allowed passed tasks = record {
  parallel_compactions_allowed = allowed;
  parallel_compactions_running = tasks;
  passed = passed;
  tasks = tasks;
}

all_test : (n allowed : ℕ) → 0 < allowed → RaceReach (standing allowed 0 0) (standing allowed n 0)
all_test zero allowed h = begins
all_test (suc n) allowed h =
    let one_more : standing allowed (n + 1) 0 ≡ standing allowed (suc n) 0 =
      ap (λ m. standing allowed m 0) (omega arith) in
    subst (RaceReach (standing allowed 0 0)) one_more
      (goes_on (all_test n allowed h) (tests (lt→ltb 0 allowed h)))

all_count :
    (n allowed tasks : ℕ)
    → RaceReach (standing allowed 0 0) (standing allowed n tasks)
    → RaceReach (standing allowed 0 0) (standing allowed 0 (tasks + n))
all_count zero allowed tasks h =
    subst (λ m. RaceReach (standing allowed 0 0) (standing allowed 0 m)) (omega arith) h
all_count (suc n) allowed tasks h =
    let left : suc n - 1 ≡ n = omega arith in
    subst (λ m. RaceReach (standing allowed 0 0) (standing allowed 0 m)) (omega arith)
      (all_count n allowed (tasks + 1) (
        subst (λ m. RaceReach (standing allowed 0 0) (standing allowed m (tasks + 1))) left
          (goes_on h (counts_up (omega arith)))))

record IsLimited (r : Race) : Type 0 where
  one : r.parallel_compactions_allowed ≡ 1
  counted : r.parallel_compactions_running ≡ r.tasks
  limited : r.parallel_compactions_running + r.passed ≤ 1

RaceStep-IsLimited : {t u : Race} → RaceStep t u → u.passed ≤ 1 → IsLimited t → IsLimited u
RaceStep-IsLimited (tests room) alone v = ground arith
RaceStep-IsLimited (counts_up some_passed) alone v = omega arith
RaceStep-IsLimited (counts_down some_tasks) alone v = omega arith

AloneReach-IsLimited : {s r : Race} → IsLimited s → AloneReach s r → IsLimited r
AloneReach-IsLimited v AloneReach.begins = v
AloneReach-IsLimited v (AloneReach.goes_on reach step alone) =
    RaceStep-IsLimited step alone (AloneReach-IsLimited v reach)

module _ (size_ratio smaller larger file_size : ℕ) (options : TreeOptions) (debug : Bool) where
  -- From the construction of the tree, with its limit of one, any number of tasks can be running at once:
  -- that many threads make the test before one of them counts up.
  pub RaceReach-any_number :
      (n : ℕ)
      → (r : Race) × RaceReach
          (race_of (new_tree size_ratio smaller larger file_size options debug))
          r
        × (r.parallel_compactions_running ≡ n)
        × (r.tasks ≡ n)
  unfolding new_tree
  RaceReach-any_number n =
      (standing 1 0 (0 + n), all_count n 1 0 (all_test n 1 (omega arith)), omega arith, omega arith)

  -- As long as at most one thread at a time is between the test and the counting, the count is the number
  -- of running tasks, and with the thread in between it is not above the limit of one.
  pub AloneReach-limited :
      {r : Race}
      → AloneReach (race_of (new_tree size_ratio smaller larger file_size options debug)) r
      → (r.parallel_compactions_running ≡ r.tasks) × (r.parallel_compactions_running + r.passed ≤ 1)
  unfolding new_tree
  AloneReach-limited reach =
      let v = AloneReach-IsLimited (omega arith) reach in (v.counted, v.limited)
