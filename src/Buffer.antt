-- ===== src/Buffer.antt =====
-- include/buffer.h and src/buffer.cc: a text buffer in front of an output file, and the list of buffers
-- that the signal handler flushes. Writes to the file are taken to succeed.
pub mod Stream
pub mod Adding
pub mod Instances
pub mod Lifecycle
pub mod Signals
mod Tests
use lsm_workload_aware_compa.Prelude.{
  ℕ, zero, suc, ◌+◌, Bool, true, false, ◌||◌, Option, none, some, List, [], ◌∷◌, ◌++◌,
  if◌then◌else◌, ltb, ◌==◌, length, modify,
}
use lsm_workload_aware_compa.Prelude.Int.{pos, ltb_ℤ, long_of_bits}

-- Text is a list of character codes.
abbrev pub Text : Type 0
Text = List ℕ

-- `pending` is what the stringstream `buffer` holds, `written` what has gone to `output_file`.
pub record Buffer : Type 0 where
  pub pending : Text
  pub written : Text
  pub is_open : Bool
  pub buffer_limit : ℕ

-- The first half of Buffer::flush: what is pending has gone to the file, and the stream still holds it.
abbrev pub write_pending : Buffer → Buffer
write_pending b = record b { written = b.written ++ b.pending }

-- Buffer::flush. The put position of the stream is the length of what it holds.
unfoldable pub flush : Buffer → Buffer
flush b =
    if ltb 0 (length b.pending)
    then record b { pending = []; written = b.written ++ b.pending }
    else b

-- Both forms of Buffer::operator<<, on the text that the value or the manipulator inserts. The limit is
-- cast to the signed type of stream positions.
unfoldable pub put : Buffer → Text → Buffer
put b text =
    let filled = record b { pending = b.pending ++ text } in
    if ltb_ℤ (pos (length filled.pending)) (long_of_bits filled.buffer_limit)
    then filled
    else flush filled

-- All buffers that there have been, a buffer's index being its address, and `instances_`.
pub record Registry : Type 0 where
  pub buffers : List Buffer
  pub instances : List ℕ

-- `std::list::remove`
unfoldable pub remove : ℕ → List ℕ → List ℕ
remove i [] = []
remove i (j ∷ js) = let rest = remove i js in if i == j then rest else j ∷ rest

-- Buffer::register_instance and Buffer::unregister_instance
abbrev pub register_instance : Registry → ℕ → Registry
register_instance r i = record r { instances = r.instances ++ i ∷ [] }

abbrev pub unregister_instance : Registry → ℕ → Registry
unregister_instance r i = record r { instances = remove i r.instances }

abbrev pub new_buffer : ℕ → Buffer
new_buffer limit = record { pending = []; written = []; is_open = true; buffer_limit = limit }

-- Buffer::Buffer, on whether the file could be opened; `none` is the exception.
unfoldable pub create : Registry → ℕ → Bool → Option Registry
create r limit true = some (
    register_instance (record r { buffers = r.buffers ++ new_buffer limit ∷ [] })
      (length r.buffers))
create r limit false = none

abbrev close : Buffer → Buffer
close b = record b { is_open = false }

-- Buffer::~Buffer
unfoldable pub destroy : Registry → ℕ → Registry
destroy r i = unregister_instance (record r { buffers = modify r.buffers i λ b. close (flush b) }) i

-- The loop of Buffer::handle_signal over the instances; the process exits behind it.
unfoldable pub flush_all : List Buffer → List ℕ → List Buffer
flush_all bs [] = bs
flush_all bs (i ∷ instances) = flush_all (modify bs i flush) instances

-- At a moment when `mutex_` is free. Where the thread that the handler interrupts is registering or removing a
-- buffer, the handler waits for the mutex of its own thread; that is left out.
unfoldable pub handle_signal : Registry → Registry
handle_signal r = record r { buffers = flush_all r.buffers r.instances }
