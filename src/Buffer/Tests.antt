-- ===== src/Buffer/Tests.antt =====
-- Runs of two buffers, one with a limit of four characters.
use lsm_workload_aware_compa.Prelude.{
  ℕ, ◌<◌, ◌≡◌, refl, true, false, List, [], ◌∷◌, ◌++◌, some, get_elem?, length, arith, modify,
}
use lsm_workload_aware_compa.Buffer.{
  Text, Buffer, Registry, flush, put, create, destroy, remove, handle_signal, write_pending,
}
use lsm_workload_aware_compa.Buffer.Stream.{contents, put_all, concat, put_all-contents}
use lsm_workload_aware_compa.Buffer.Instances.{
  BufferReach, IsRegistered, starts, steps, creates, puts, destroys,
}
use lsm_workload_aware_compa.Buffer.Lifecycle.{BufferReach-IsRegistered}
use lsm_workload_aware_compa.Buffer.Signals.{handle_signal-contents, handle_signal-twice}

abbrev empty : ℕ → Buffer
empty limit = record { pending = []; written = []; is_open = true; buffer_limit = limit }

abbrev texts : List Text
texts = (1 ∷ 2 ∷ 3 ∷ []) ∷ (4 ∷ 5 ∷ []) ∷ (6 ∷ []) ∷ []

put_all-contents_example :
    (contents (put_all (empty 4) texts) ≡ contents (empty 4) ++ concat texts)
    × (length (put_all (empty 4) texts).pending < 4)
put_all-contents_example = put_all-contents (empty 4) texts (omega arith) (omega arith)

-- A buffer with pending text beside one that is destroyed.
abbrev held : Buffer
held = record { pending = 1 ∷ 2 ∷ []; written = []; is_open = true; buffer_limit = 4 }

abbrev two : Registry
two = record {
  buffers = held ∷ record { pending = []; written = []; is_open = false; buffer_limit = 9 } ∷ [];
  instances = 0 ∷ [];
}

two-BufferReach : BufferReach two
unfolding create put destroy remove flush
two-BufferReach =
    steps
      (steps
        (steps
          (steps starts
            (creates 4 true (record { buffers = empty 4 ∷ []; instances = 0 ∷ [] }) refl))
          (creates 9 true (record { buffers = empty 4 ∷ empty 9 ∷ []; instances = 0 ∷ 1 ∷ [] })
            refl))
        (puts 0 (1 ∷ 2 ∷ []) refl))
      (destroys 1 refl)

BufferReach-IsRegistered_example : IsRegistered two
BufferReach-IsRegistered_example = BufferReach-IsRegistered two-BufferReach

handle_signal-contents_example :
    (c : Buffer) × (get_elem? (handle_signal two).buffers 0 ≡ some c)
    × (c.pending ≡ [])
    × (c.written ≡ contents held)
handle_signal-contents_example = handle_signal-contents 0 held two-BufferReach refl

handle_signal-twice_example :
    (c : Buffer) × (get_elem?
        (handle_signal (record two { buffers = modify two.buffers 0 write_pending })).buffers
        0
      ≡ some c)
    × (c.written ≡ contents held ++ (1 ∷ 2 ∷ []))
handle_signal-twice_example = handle_signal-twice 0 held two-BufferReach refl refl (omega arith)
