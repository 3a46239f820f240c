-- ===== src/Buffer/Signals.antt =====
-- What Buffer::handle_signal saves before the process exits.
use lsm_workload_aware_compa.Prelude.{
  ℕ, ◌≡◌, refl, sym, ap, ◌∙◌, true, false, ◌||◌, inl, inr, some, List, [], ◌∷◌, ◌==◌, Bool,
  Bool-cases, if◌then◌else◌, append-nil, ltb, length, ◌++◌, ◌<◌, lt→ltb, modify, get_elem?,
  get_elem?-modify_self, get_elem?-modify_ne,
}
use native.Mathlib.Decide.{ℕ_discrete}
use lsm_workload_aware_compa.Buffer.{
  Buffer, Registry, flush, flush_all, handle_signal, write_pending,
}
use lsm_workload_aware_compa.Buffer.Stream.{contents, flush-contents}
use lsm_workload_aware_compa.Buffer.Instances.{mem, open_now, same_eq, other_eq, BufferReach}
use lsm_workload_aware_compa.Buffer.Lifecycle.{BufferReach-IsRegistered}

flush_idem : (b : Buffer) → flush (flush b) ≡ flush b
unfolding flush
flush_idem b = elim (Bool-cases (ltb 0 (length b.pending))) [
  | inl some_left ↦ rw some_left
  | inr none_left ↦ rw (none_left, none_left)
]

flush_if :
    (p q : Bool) (b : Buffer)
    → (if q then flush (if p then flush b else b) else (if p then flush b else b))
      ≡ (if p || q then flush b else b)
flush_if true true b = flush_idem b
flush_if true false b = refl
flush_if false q b = refl

flush_all-at :
    (is : List ℕ) (bs : List Buffer) (i : ℕ) (b : Buffer)
    → get_elem? bs i ≡ some b
    → get_elem? (flush_all bs is) i ≡ some (if mem i is then flush b else b)
unfolding flush_all mem
flush_all-at [] bs i b at = at
flush_all-at (j ∷ is) bs i b at = elim (ℕ_discrete i j) [
  | yes same ↦
      let eq : (i == j) ≡ true = rw same (same_eq j) in
      flush_all-at is (modify bs j flush) i (flush b)
        (rw (← same) (get_elem?-modify_self bs i flush at))
      ∙ ap some (flush_if true (mem i is) b ∙ rw eq)
  | no other ↦
      flush_all-at is (modify bs j flush) i b
        (get_elem?-modify_ne bs j i flush (λ e. other (sym e)) ∙ at)
      ∙ ap some (rw (other_eq i j other))
]

flush-written : (b : Buffer) → 0 < length b.pending → (flush b).written ≡ b.written ++ b.pending
unfolding flush
flush-written b h = rw (lt→ltb 0 (length b.pending) h) refl

-- If a signal comes between two operations on the buffers, that is, outside the constructor, the destructor,
-- `<<` and flush: every buffer that has been created has all its text in its file when the process exits, in
-- order, and nothing pending.
pub handle_signal-contents :
    {r : Registry} (i : ℕ) (b : Buffer)
    → BufferReach r
    → get_elem? r.buffers i ≡ some b
    → (c : Buffer) × (get_elem? (handle_signal r).buffers i ≡ some c)
      × (c.pending ≡ [])
      × (c.written ≡ contents b)
unfolding handle_signal
handle_signal-contents {r} i b reached at =
    let ok = BufferReach-IsRegistered reached in
    let flushed = flush_all-at r.instances r.buffers i b at in
    elim (Bool-cases (mem i r.instances)) [
      | inl known ↦
          let (emptied, all) = flush-contents b in (flush b, rw known at flushed, emptied, all)
      | inr unknown ↦
          let closed : b.is_open ≡ false = ap open_now (sym at) ∙ sym (ok.registered i) ∙ unknown in
          let empty = ok.destroyed i b at closed in
          (b, rw unknown at flushed, empty, rw (empty, append-nil))
    ]

-- If a signal comes within flush instead, after the pending text has gone to the file and before the
-- stream is emptied, the handler writes the pending text of that buffer a second time.
pub handle_signal-twice :
    {r : Registry} (i : ℕ) (b : Buffer)
    → BufferReach r
    → get_elem? r.buffers i ≡ some b
    → b.is_open ≡ true
    → 0 < length b.pending
    → (c : Buffer) × (get_elem?
          (handle_signal (record r { buffers = modify r.buffers i write_pending })).buffers
          i
        ≡ some c)
      × (c.written ≡ contents b ++ b.pending)
unfolding handle_signal
handle_signal-twice {r} i b reached found still_open some_left =
    let known : mem i r.instances ≡ true =
      (BufferReach-IsRegistered reached).registered i ∙ ap open_now found ∙ still_open in
    let written : get_elem? (modify r.buffers i write_pending) i ≡ some (write_pending b) =
      get_elem?-modify_self r.buffers i write_pending found in
    (
      flush (write_pending b),
      rw known at
          (flush_all-at r.instances (modify r.buffers i write_pending) i (write_pending b) written),
      flush-written (write_pending b) some_left,
    )
