-- ===== src/Listeners.antt =====
-- src/event_listners.cc: the flag that a finished compaction sets, and the loop that waits for it.
-- What the database's properties are at each reading is part of the events.
pub mod Waits
mod Tests
use lsm_workload_aware_compa.Prelude.{
  ℕ, Bool, true, false, ◌&&◌, List, [], ◌∷◌, if◌then◌else◌, ◌==◌, String,
}
use lsm_workload_aware_compa.Prelude.Int.{pos, ltb_ℤ}
use lsm_workload_aware_compa.Buffer.{Text}
use lsm_workload_aware_compa.Env.{DbEnv}
use lsm_workload_aware_compa.Utils.Decimal.{codes}

-- The three numbers that are read with GetIntProperty.
pub record IntProperties : Type 0 where
  pub num_running_compactions : ℕ
  pub pending_compaction_bytes : ℕ
  pub num_pending_compactions : ℕ

-- The test of both functions.
unfoldable pub is_settled : IntProperties → Bool
is_settled p =
    (p.num_running_compactions == 0)
    && ((p.pending_compaction_bytes == 0) && (p.num_pending_compactions == 0))

-- The global flag, and whether WaitForCompactions has returned.
pub record Waiting : Type 0 where
  pub compaction_complete : Bool
  pub returned : Bool

abbrev pub begin : Waiting
begin = record { compaction_complete = false; returned = false }

-- One round of the loop of WaitForCompactions: its test, the reading and the `break`. The wait of 10 ms
-- is what may come between two rounds.
unfoldable pub wait_round : Waiting → IntProperties → Waiting
wait_round w p =
    if w.returned
    then w
    else if w.compaction_complete
    then record w { returned = true }
    else if is_settled p
    then record w { returned = true }
    else w

-- What the two handlers print, with PROFILE defined, where the verbosity is above MEDIUM.
abbrev banner : DbEnv → String → Text
banner e text = if ltb_ℤ (pos 2) e.db.verbosity then codes text else []

-- CompactionsListner::OnCompactionBegin, which only prints.
abbrev on_compaction_begin : DbEnv → Text
on_compaction_begin e = banner e "    ================> Before compaction <================"

abbrev after_compaction : DbEnv → Text
after_compaction e = banner e "    ================> After compaction <================"

-- CompactionsListner::OnCompactionCompleted, but for what it prints.
unfoldable pub on_compaction_completed : Waiting → IntProperties → Waiting
on_compaction_completed w p = if is_settled p then record w { compaction_complete = true } else w

-- The two threads, one after the other under the mutex.
pub data Event : Type 0 where
  waits completes : IntProperties → Event

unfoldable pub happen : Waiting → Event → Waiting
happen w (waits p) = wait_round w p
happen w (completes p) = on_compaction_completed w p

unfoldable pub happen_all : Waiting → List Event → Waiting
happen_all w [] = w
happen_all w (event ∷ events) = happen_all (happen w event) events
