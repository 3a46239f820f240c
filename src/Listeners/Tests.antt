-- ===== src/Listeners/Tests.antt =====
-- A wait during two compactions, and one after them.
use lsm_workload_aware_compa.Prelude.{ℕ, ◌≡◌, refl, true, List, [], ◌∷◌, ◌++◌}
use lsm_workload_aware_compa.Listeners.{
  IntProperties, is_settled, begin, wait_round, on_compaction_completed, Event, waits, completes,
  happen, happen_all,
}
use lsm_workload_aware_compa.Listeners.Waits.{
  reading, IsQuiet, happen_all-IsQuiet, happen_all-returned,
}

abbrev running : ℕ → IntProperties
running n = record {
  num_running_compactions = n;
  pending_compaction_bytes = 0;
  num_pending_compactions = 0;
}

abbrev events : List Event
events = waits (running 2) ∷ completes (running 1) ∷ completes (running 0) ∷ waits (running 0) ∷ []

returned : (happen_all begin events).returned ≡ true
unfolding happen_all happen wait_round on_compaction_completed is_settled
returned = refl

happen_all-IsQuiet_example :
    (before : List Event) × (event : Event) × (later : List Event) × (events
      ≡ before ++ event ∷ later)
    × IsQuiet (reading event)
happen_all-IsQuiet_example = happen_all-IsQuiet events returned

happen_all-returned_example :
    (happen_all
      (record begin { compaction_complete = true })
      ([] ++ waits (running 3) ∷ [])).returned
    ≡ true
happen_all-returned_example =
    happen_all-returned (record begin { compaction_complete = true }) [] (running 3) refl
