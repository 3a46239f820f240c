-- ===== src/Listeners/Waits.antt =====
-- When WaitForCompactions returns.
use lsm_workload_aware_compa.Prelude.{
  ◌≡◌, refl, sym, ap, ◌∙◌, true, false, List, [], ◌∷◌, ◌++◌, Bool-cases, inl, inr, arith,
}
use lsm_workload_aware_compa.Listeners.{
  IntProperties, is_settled, Waiting, begin, wait_round, on_compaction_completed, Event, waits,
  completes, happen, happen_all,
}

-- What an event reads.
abbrev pub reading : Event → IntProperties
reading (waits p) = p
reading (completes p) = p

-- No compaction runs, none is pending, and no bytes are left for one.
abbrev pub IsQuiet : IntProperties → Type 0
IsQuiet p =
    (p.num_running_compactions ≡ 0)
    × (p.pending_compaction_bytes ≡ 0)
    × (p.num_pending_compactions ≡ 0)

is_settled-IsQuiet : (p : IntProperties) → is_settled p ≡ true → IsQuiet p
unfolding is_settled
is_settled-IsQuiet p h = ground arith

unsettled : (event : Event) → is_settled (reading event) ≡ false → happen begin event ≡ begin
unfolding happen wait_round on_compaction_completed
unsettled (waits p) h = rw h
unsettled (completes p) h = rw h

-- The first wait of the process returns only if one of the readings so far, the loop's own or that of a
-- finished compaction, found no compaction running, none pending, and no bytes estimated to be pending.
pub happen_all-IsQuiet :
    (events : List Event)
    → (happen_all begin events).returned ≡ true
    → (before : List Event) × (event : Event) × (later : List Event) × (events
        ≡ before ++ event ∷ later)
      × IsQuiet (reading event)
unfolding happen_all
happen_all-IsQuiet [] h = cc
happen_all-IsQuiet (event ∷ events) h = elim (Bool-cases (is_settled (reading event))) [
  | inl now ↦ ([], event, events, refl, is_settled-IsQuiet (reading event) now)
  | inr not_yet ↦
      let (before, found, later, split, quiet) =
        happen_all-IsQuiet events
          (sym (ap (λ w. (happen_all w events).returned) (unsettled event not_yet)) ∙ h) in
      (event ∷ before, found, later, ap (◌∷◌ event) split, quiet)
]

stays_complete :
    (w : Waiting) (event : Event)
    → w.compaction_complete ≡ true
    → (happen w event).compaction_complete ≡ true
unfolding happen wait_round on_compaction_completed
stays_complete w (waits p) h = ground arith
stays_complete w (completes p) h = ground arith

returns_now :
    (w : Waiting) (p : IntProperties)
    → w.compaction_complete ≡ true
    → (wait_round w p).returned ≡ true
unfolding wait_round
returns_now w p h = ground arith

-- The flag is never cleared: once a compaction has found everything settled, a wait returns at its next
-- round, whatever is running or pending by then.
pub happen_all-returned :
    (w : Waiting) (events : List Event) (p : IntProperties)
    → w.compaction_complete ≡ true
    → (happen_all w (events ++ waits p ∷ [])).returned ≡ true
unfolding happen_all happen
happen_all-returned w [] p h = returns_now w p h
happen_all-returned w (event ∷ events) p h =
    happen_all-returned (happen w event) events p (stays_complete w event h)
