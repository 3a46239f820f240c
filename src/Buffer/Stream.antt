-- ===== src/Buffer/Stream.antt =====
-- What a buffer does with the text that is put into it.
use lsm_workload_aware_compa.Prelude.{
  ℕ, ◌<◌, ◌≤◌, ◌^◌, ◌⊎◌, inl, inr, ◌≡◌, refl, sym, ap, ◌∙◌, true, false, List, [], ◌∷◌, ◌++◌,
  append-nil, append_assoc, arith, Bool-cases, ltb, ltb→le, length,
}
use lsm_workload_aware_compa.Prelude.Int.{pos, ltb_ℤ, long_of_bits}
use lsm_workload_aware_compa.Buffer.{Text, Buffer, flush, put}

-- What the file holds if the buffer is flushed now.
abbrev pub contents : Buffer → Text
contents b = b.written ++ b.pending

length-zero : {xs : Text} → length xs ≤ 0 → xs ≡ []
length-zero {xs = []} h = refl
length-zero {xs = x ∷ xs} h = absurd (omega arith)

-- A flush leaves nothing pending, and the file has all the text, in order.
pub flush-contents : (b : Buffer) → ((flush b).pending ≡ []) × ((flush b).written ≡ contents b)
unfolding flush
flush-contents b = elim (Bool-cases (ltb 0 (length b.pending))) [
  | inl some_left ↦ rw some_left (refl, refl)
  | inr none_left ↦
      let e : b.pending ≡ [] = length-zero (ltb→le 0 (length b.pending) none_left) in
      rw none_left (e, sym (append-nil b.written) ∙ ap (◌++◌ b.written) (sym e))
]

flush-buffer_limit : (b : Buffer) → (flush b).buffer_limit ≡ b.buffer_limit
unfolding flush
flush-buffer_limit b = ground arith

-- Text that is put in comes behind all that was there, whether it is written at once or not.
pub put-contents : (b : Buffer) (text : Text) → contents (put b text) ≡ contents b ++ text
unfolding put
put-contents b text =
    let filled : Buffer = record b { pending = b.pending ++ text } in
    let (emptied, all) = flush-contents filled in
    elim (Bool-cases (ltb_ℤ (pos (length filled.pending)) (long_of_bits filled.buffer_limit))) [
      | inl below ↦ rw below (sym (append_assoc b.written b.pending text))
      | inr reached ↦
          rw (reached, emptied, all, append-nil) (sym (append_assoc b.written b.pending text))
    ]

put-buffer_limit : (b : Buffer) (text : Text) → (put b text).buffer_limit ≡ b.buffer_limit
unfolding put
put-buffer_limit b text =
    let filled : Buffer = record b { pending = b.pending ++ text } in
    ground (arith, flush-buffer_limit filled)

below_limit : (n limit : ℕ) → limit < 2 ^ 63 → ltb_ℤ (pos n) (long_of_bits limit) ≡ true → n < limit
below_limit n limit fits h = ground arith

put-bounded :
    (b : Buffer) (text : Text)
    → 0 < b.buffer_limit
    → b.buffer_limit < 2 ^ 63
    → length (put b text).pending < b.buffer_limit
unfolding put
put-bounded b text room fits =
    let filled : Buffer = record b { pending = b.pending ++ text } in
    let (emptied, _) = flush-contents filled in
    elim (Bool-cases (ltb_ℤ (pos (length filled.pending)) (long_of_bits filled.buffer_limit))) [
      | inl below ↦ rw below (below_limit _ _ fits below)
      | inr reached ↦ rw (reached, emptied) room
    ]

-- A run of insertions.
unfoldable pub put_all : Buffer → List Text → Buffer
put_all b [] = b
put_all b (text ∷ texts) = put_all (put b text) texts

unfoldable pub concat : List Text → Text
concat [] = []
concat (text ∷ texts) = text ++ concat texts

pub put_all-contents_from :
    (b : Buffer) (texts : List Text) → contents (put_all b texts) ≡ contents b ++ concat texts
unfolding put_all concat
put_all-contents_from b [] = sym (append-nil (contents b))
put_all-contents_from b (text ∷ texts) =
    put_all-contents_from (put b text) texts
    ∙ ap (λ xs. xs ++ concat texts) (put-contents b text)
    ∙ append_assoc (contents b) text (concat texts)

put_all-bounded :
    (b : Buffer) (texts : List Text)
    → b.buffer_limit < 2 ^ 63
    → length b.pending < b.buffer_limit
    → length (put_all b texts).pending < b.buffer_limit
unfolding put_all
put_all-bounded b [] fits small = small
put_all-bounded b (text ∷ texts) fits small =
    let kept = put-buffer_limit b text in
    let bounded = put-bounded b text (omega arith) fits in
    omega (arith, kept, put_all-bounded (put b text) texts (omega arith) (omega arith))

-- After any run of insertions into a buffer whose limit fits a signed 64-bit position and is above what
-- is pending, the file and the pending text together are what they were, followed by the inserted texts
-- in order, and less than the limit is pending.
pub put_all-contents :
    (b : Buffer) (texts : List Text)
    → b.buffer_limit < 2 ^ 63
    → length b.pending < b.buffer_limit
    → (contents (put_all b texts) ≡ contents b ++ concat texts)
      × (length (put_all b texts).pending < b.buffer_limit)
put_all-contents b texts fits small =
    (put_all-contents_from b texts, put_all-bounded b texts fits small)

reached_at_once :
    (n limit : ℕ)
    → limit < 2 ^ 64
    → (limit ≡ 0) ⊎ (2 ^ 63 ≤ limit)
    → ltb_ℤ (pos n) (long_of_bits limit) ≡ false
reached_at_once n limit fits h = ground arith

-- A limit of zero, and one that does not fit a signed position, make the buffer unbuffered: each insertion
-- is written to the file at once.
pub put-unbuffered :
    (b : Buffer) (text : Text)
    → b.buffer_limit < 2 ^ 64
    → (b.buffer_limit ≡ 0) ⊎ (2 ^ 63 ≤ b.buffer_limit)
    → ((put b text).pending ≡ []) × ((put b text).written ≡ contents b ++ text)
unfolding put
put-unbuffered b text fits extreme =
    let filled : Buffer = record b { pending = b.pending ++ text } in
    let (emptied, all) = flush-contents filled in
    rw (reached_at_once (length filled.pending) b.buffer_limit fits extreme)
      (emptied, all ∙ sym (append_assoc b.written b.pending text))
