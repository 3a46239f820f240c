-- ===== src/Buffer/Lifecycle.antt =====
-- Creating and destroying buffers keeps the list of instances right.
use native.Mathlib.Decide.{ℕ_discrete, dec_lt}
use mathlib.Core.Path.{subst}
use lsm_workload_aware_compa.Prelude.{
  ℕ, zero, suc, ◌<◌, ◌≡◌, refl, sym, ap, ◌∙◌, true, false, none, some, some_inj, List, [], ◌∷◌,
  ◌++◌, arith, length, modify, get_elem?, get_elem?-modify_ne, get_elem?-append_last,
  get_elem?-append_left, get_elem?-ge, get_elem?-lt, length-append,
}
use lsm_workload_aware_compa.Buffer.{Buffer, Registry, flush, put, remove, create, destroy, close}
use lsm_workload_aware_compa.Buffer.Stream.{flush-contents}
use lsm_workload_aware_compa.Buffer.Instances.{
  mem, open_now, is_open_at, BufferStep, BufferReach, IsRegistered, mem-append_self, mem-append_ne,
  mem-remove_self, mem-remove_ne, changed-IsRegistered, flush-is_open, put-is_open, creates, puts,
  flushes, destroys, starts, steps,
}

abbrev fresh : ℕ → Buffer
fresh limit = record { pending = []; written = []; is_open = true; buffer_limit = limit }

abbrev created : Registry → ℕ → Registry
created r limit = record {
  buffers = r.buffers ++ fresh limit ∷ [];
  instances = r.instances ++ length r.buffers ∷ [];
}

append_before :
    (bs : List Buffer) (b : Buffer) (i : ℕ)
    → i < length bs
    → get_elem? (bs ++ b ∷ []) i ≡ get_elem? bs i
append_before bs b i h =
    let (c, at) = get_elem?-lt bs i h in get_elem?-append_left bs (b ∷ []) i at ∙ sym at

append_past :
    (bs : List Buffer) (b : Buffer) (i : ℕ) → length bs < i → get_elem? (bs ++ b ∷ []) i ≡ none
append_past bs b i h = get_elem?-ge (bs ++ b ∷ []) i (omega (arith, length-append bs (b ∷ [])))

created-IsRegistered : (r : Registry) (limit : ℕ) → IsRegistered r → IsRegistered (created r limit)
created-IsRegistered r limit ok = record { registered = reg; destroyed = gone }
  where
    new : get_elem? (r.buffers ++ fresh limit ∷ []) (length r.buffers) ≡ some (fresh limit)
    new = get_elem?-append_last r.buffers (length r.buffers) (fresh limit) refl

    reg : (i : ℕ) → mem i (r.instances ++ length r.buffers ∷ []) ≡ is_open_at (created r limit) i
    reg i = elim (ℕ_discrete i (length r.buffers)) [
      | yes same ↦ rw (same, mem-append_self, new)
      | no other ↦
          mem-append_ne i (length r.buffers) r.instances other
          ∙ ok.registered i
          ∙ elim (dec_lt i (length r.buffers)) [
            | yes below ↦ ap open_now (sym (append_before r.buffers (fresh limit) i below))
            | no above ↦ ap open_now (
                get_elem?-ge r.buffers i (omega arith)
                ∙ sym (append_past r.buffers (fresh limit) i (omega arith)))
          ]
    ]

    gone :
        (i : ℕ) (b : Buffer)
        → get_elem? (r.buffers ++ fresh limit ∷ []) i ≡ some b
        → b.is_open ≡ false
        → b.pending ≡ []
    gone i b found closed = elim (ℕ_discrete i (length r.buffers)) [
      | yes same ↦
          let is_new : some (fresh limit) ≡ some b =
            sym new ∙ ap (get_elem? (r.buffers ++ fresh limit ∷ [])) (sym same) ∙ found in
          cc (ap open_now is_new)
      | no other ↦ elim (dec_lt i (length r.buffers)) [
        | yes below ↦
            ok.destroyed i b (sym (append_before r.buffers (fresh limit) i below) ∙ found) closed
        | no above ↦ cc (append_past r.buffers (fresh limit) i (omega arith))
      ]
    ]

shut_at :
    (bs : List Buffer) (i : ℕ) → open_now (get_elem? (modify bs i (λ b. close (flush b))) i) ≡ false
shut_at [] i = refl
shut_at (b ∷ bs) zero = refl
shut_at (b ∷ bs) (suc i) = shut_at bs i

shut_pending :
    (bs : List Buffer) (i : ℕ) (b : Buffer)
    → get_elem? (modify bs i (λ b. close (flush b))) i ≡ some b
    → b.pending ≡ []
shut_pending [] i b found = cc
shut_pending (c ∷ bs) zero b found = sym (ap Buffer.pending (some_inj found)) ∙ (flush-contents c).0
shut_pending (c ∷ bs) (suc i) b found = shut_pending bs i b found

destroy-IsRegistered :
    (r : Registry) (i : ℕ) → is_open_at r i ≡ true → IsRegistered r → IsRegistered (destroy r i)
unfolding destroy
destroy-IsRegistered r i here ok = record { registered = reg; destroyed = gone }
  where
    reg :
        (j : ℕ)
        → mem j (remove i r.instances)
          ≡ open_now (get_elem? (modify r.buffers i (λ b. close (flush b))) j)
    reg j = elim (ℕ_discrete i j) [
      | yes same ↦ rw (← same) (mem-remove_self i r.instances ∙ sym (shut_at r.buffers i))
      | no other ↦
          mem-remove_ne j i r.instances (λ e. other (sym e))
          ∙ ok.registered j
          ∙ ap open_now (sym (get_elem?-modify_ne r.buffers i j (λ b. close (flush b)) other))
    ]

    gone :
        (j : ℕ) (b : Buffer)
        → get_elem? (modify r.buffers i (λ b. close (flush b))) j ≡ some b
        → b.is_open ≡ false
        → b.pending ≡ []
    gone j b found closed = elim (ℕ_discrete i j) [
      | yes same ↦ shut_pending r.buffers i b (rw (← same) at found)
      | no other ↦
          ok.destroyed j b
            (sym (get_elem?-modify_ne r.buffers i j (λ b. close (flush b)) other) ∙ found) closed
    ]

BufferStep-IsRegistered : {r r' : Registry} → BufferStep r r' → IsRegistered r → IsRegistered r'
unfolding create
BufferStep-IsRegistered {r} (creates limit true r' made) ok =
    subst IsRegistered (some_inj made) (created-IsRegistered r limit ok)
BufferStep-IsRegistered {r} (creates limit false r' made) ok = cc
BufferStep-IsRegistered {r} (puts i text here) ok =
    changed-IsRegistered r i (λ b. put b text) (λ b. put-is_open b text) here ok
BufferStep-IsRegistered {r} (flushes i here) ok =
    changed-IsRegistered r i flush flush-is_open here ok
BufferStep-IsRegistered {r} (destroys i here) ok = destroy-IsRegistered r i here ok

-- However buffers are created, filled, flushed and destroyed, the registered ones are those that are not
-- destroyed, and a destroyed one has left nothing pending.
pub BufferReach-IsRegistered : {r : Registry} → BufferReach r → IsRegistered r
unfolding mem
BufferReach-IsRegistered starts = record {
  registered = λ i. refl;
  destroyed = λ i b found closed. cc;
}
BufferReach-IsRegistered (steps before step) =
    BufferStep-IsRegistered step (BufferReach-IsRegistered before)
