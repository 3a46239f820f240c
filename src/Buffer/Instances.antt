-- ===== src/Buffer/Instances.antt =====
-- The life of the buffers: which ones are registered, and what the signal handler saves.
use native.Mathlib.Decide.{ℕ_discrete}
use lsm_workload_aware_compa.Prelude.{
  ℕ, zero, suc, ◌≡◌, ◌≢◌, refl, sym, ap, ◌∙◌, Bool, true, false, ◌||◌, Option, none, some, List, [],
  ◌∷◌, ◌++◌, arith, ◌==◌, modify, get_elem?, get_elem?-modify_ne,
}
use lsm_workload_aware_compa.Buffer.{Text, Buffer, Registry, flush, put, remove, create, destroy}

unfoldable pub mem : ℕ → List ℕ → Bool
mem i [] = false
mem i (j ∷ js) = (i == j) || mem i js

-- Whether the buffer at an index is there and not destroyed.
abbrev pub open_now : Option Buffer → Bool
open_now none = false
open_now (some b) = b.is_open

abbrev pub is_open_at : Registry → ℕ → Bool
is_open_at r i = open_now (get_elem? r.buffers i)

-- What the program may do with its buffers, each on one that is not destroyed.
pub data BufferStep (r : Registry) : Registry → Type 0 where
  creates :
      (limit : ℕ) (opened : Bool) (r' : Registry)
      → create r limit opened ≡ some r'
      → BufferStep r r'
  puts :
      (i : ℕ) (text : Text)
      → is_open_at r i ≡ true
      → BufferStep r (record r { buffers = modify r.buffers i λ b. put b text })
  flushes :
      (i : ℕ)
      → is_open_at r i ≡ true
      → BufferStep r (record r { buffers = modify r.buffers i flush })
  destroys : (i : ℕ) → is_open_at r i ≡ true → BufferStep r (destroy r i)

abbrev pub no_buffers : Registry
no_buffers = record { buffers = []; instances = [] }

pub data BufferReach : Registry → Type 0 where
  starts : BufferReach no_buffers
  steps : {r r' : Registry} → BufferReach r → BufferStep r r' → BufferReach r'

-- The registered buffers are those that are not destroyed, and a destroyed one has nothing pending.
pub record IsRegistered (r : Registry) : Type 0 where
  pub registered : (i : ℕ) → mem i r.instances ≡ is_open_at r i
  pub destroyed :
      (i : ℕ) (b : Buffer) → get_elem? r.buffers i ≡ some b → b.is_open ≡ false → b.pending ≡ []

pub same_eq : (i : ℕ) → (i == i) ≡ true
same_eq i = ground arith

pub other_eq : (i j : ℕ) → i ≢ j → (i == j) ≡ false
other_eq i j h = ground arith

pub mem-append_self : (i : ℕ) (js : List ℕ) → mem i (js ++ i ∷ []) ≡ true
unfolding mem
mem-append_self i [] = rw (same_eq i)
mem-append_self i (j ∷ js) = ground (arith, mem-append_self i js)

pub mem-append_ne : (i k : ℕ) (js : List ℕ) → i ≢ k → mem i (js ++ k ∷ []) ≡ mem i js
unfolding mem
mem-append_ne i k [] h = rw (other_eq i k h)
mem-append_ne i k (j ∷ js) h = ap (λ b. (i == j) || b) (mem-append_ne i k js h)

pub mem-remove_self : (i : ℕ) (js : List ℕ) → mem i (remove i js) ≡ false
unfolding mem remove
mem-remove_self i [] = refl
mem-remove_self i (j ∷ js) = elim (ℕ_discrete i j) [
  | yes same ↦ rw (← same, same_eq i) (mem-remove_self i js)
  | no other ↦ rw (other_eq i j other) (rw (other_eq i j other) (mem-remove_self i js))
]

pub mem-remove_ne : (i k : ℕ) (js : List ℕ) → i ≢ k → mem i (remove k js) ≡ mem i js
unfolding mem remove
mem-remove_ne i k [] h = refl
mem-remove_ne i k (j ∷ js) h = elim (ℕ_discrete k j) [
  | yes same ↦ rw (← same, same_eq k, other_eq i k h) (mem-remove_ne i k js h)
  | no other ↦ rw (other_eq k j other) (ap (λ b. (i == j) || b) (mem-remove_ne i k js h))
]

-- A change of one buffer that leaves it open.
is_open_at-modify :
    (bs : List Buffer) (i j : ℕ) (f : Buffer → Buffer)
    → ((b : Buffer) → (f b).is_open ≡ b.is_open)
    → open_now (get_elem? (modify bs i f) j) ≡ open_now (get_elem? bs j)
is_open_at-modify [] i j f h = refl
is_open_at-modify (b ∷ bs) zero zero f h = h b
is_open_at-modify (b ∷ bs) zero (suc j) f h = refl
is_open_at-modify (b ∷ bs) (suc i) zero f h = refl
is_open_at-modify (b ∷ bs) (suc i) (suc j) f h = is_open_at-modify bs i j f h

pub flush-is_open : (b : Buffer) → (flush b).is_open ≡ b.is_open
unfolding flush
flush-is_open b = ground arith

pub put-is_open : (b : Buffer) (text : Text) → (put b text).is_open ≡ b.is_open
unfolding put
put-is_open b text = ground (arith, flush-is_open (record b { pending = b.pending ++ text }))

-- A change of an open buffer that leaves it open changes no destroyed one.
pub changed-IsRegistered :
    (r : Registry) (i : ℕ) (f : Buffer → Buffer)
    → ((b : Buffer) → (f b).is_open ≡ b.is_open)
    → is_open_at r i ≡ true
    → IsRegistered r
    → IsRegistered (record r { buffers = modify r.buffers i f })
changed-IsRegistered r i f keeps here ok = record {
  registered = λ j. ok.registered j ∙ sym (is_open_at-modify r.buffers i j f keeps);
  destroyed = at;
}
  where
    at :
        (j : ℕ) (b : Buffer)
        → get_elem? (modify r.buffers i f) j ≡ some b
        → b.is_open ≡ false
        → b.pending ≡ []
    at j b found closed = elim (ℕ_discrete i j) [
      | yes same ↦
          let still : open_now (get_elem? (modify r.buffers i f) j) ≡ true =
            is_open_at-modify r.buffers i j f keeps ∙ ap (is_open_at r) (sym same) ∙ here in
          cc (ap open_now found)
      | no other ↦ ok.destroyed j b (sym (get_elem?-modify_ne r.buffers i j f other) ∙ found) closed
    ]
