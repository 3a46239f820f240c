-- ===== src/Clocks/Elapsed.antt =====
-- The time between two readings of the clock (src/aux_time.cc).
use lsm_workload_aware_compa.Prelude.{
  ℕ, ◌+◌, ◌-◌, ◌*◌, ◌/◌, ◌^◌, ◌≤◌, ◌<◌, ◌≡◌, ap, ◌∙◌, inl, inr, Option, some, none, ◌>>=◌, arith,
  ltb, Bool-cases, lt→ltb, le→ltb, if◌then◌else◌,
}
use lsm_workload_aware_compa.Prelude.Int.{ℤ, pos, negsuc, pos_part, neg_part, sub_ℕ, ◌+ℤ◌, ◌-ℤ◌}
use lsm_workload_aware_compa.Clocks.{MyClock, as_long, divided, getclock_diff_us, getclock_diff_ns}

-- Nanoseconds since the epoch.
abbrev pub total : ℕ → ℕ → ℕ
total s n = s * 1000000000 + n

abbrev pub reading : ℕ → ℕ → MyClock
reading s n = record { tv_sec = pos s; tv_nsec = pos n }

pos_part-sub_ℕ : (a b : ℕ) → pos_part (sub_ℕ a b) ≡ a - b
pos_part-sub_ℕ a b = elim (Bool-cases (ltb a b)) [
  | inl less ↦
      ap (λ t. pos_part (if t then negsuc (b - a - 1) else pos (a - b))) less ∙ ground arith
  | inr more ↦ ap (λ t. pos_part (if t then negsuc (b - a - 1) else pos (a - b))) more
]

neg_part-sub_ℕ : (a b : ℕ) → neg_part (sub_ℕ a b) ≡ b - a
neg_part-sub_ℕ a b = elim (Bool-cases (ltb a b)) [
  | inl less ↦
      ap (λ t. neg_part (if t then negsuc (b - a - 1) else pos (a - b))) less ∙ ground arith
  | inr more ↦
      ap (λ t. neg_part (if t then negsuc (b - a - 1) else pos (a - b))) more ∙ ground arith
]

sub_ℕ-pos : (a b c : ℕ) → a ≡ b + c → sub_ℕ a b ≡ pos c
sub_ℕ-pos a b c same =
    ap (λ t. if t then negsuc (b - a - 1) else pos (a - b)) (le→ltb a b (omega arith))
    ∙ ap pos (omega arith)

as_long-fits : (z : ℤ) → pos_part z < 2 ^ 63 → neg_part z < 2 ^ 63 → as_long z ≡ some z
unfolding as_long
as_long-fits (pos n) p q = ap (λ t. if t then some (pos n) else none) (lt→ltb n (2 ^ 63) p)
as_long-fits (negsuc n) p q =
    ap (λ t. if t then some (negsuc n) else none) (lt→ltb n (2 ^ 63) (omega arith))

as_long-pos : (a b c : ℕ) → a ≡ b + c → c < 2 ^ 63 → as_long (sub_ℕ a b) ≡ some (pos c)
as_long-pos a b c same small =
    ap as_long (sub_ℕ-pos a b c same) ∙ as_long-fits (pos c) small (omega arith)

bind-some :
    {A B : Type 0} {m : Option A} (f : A → Option B) {a : A} {r : Option B}
    → m ≡ some a
    → f a ≡ r
    → (m >>= f) ≡ r
bind-some f m_is f_is = ap (λ m. m >>= f) m_is ∙ f_is

-- The same three for a number whose two parts are known.
as_long-parts :
    (z : ℤ) (p m : ℕ)
    → pos_part z ≡ p
    → neg_part z ≡ m
    → p < 2 ^ 63
    → m < 2 ^ 63
    → as_long z ≡ some z
as_long-parts z p m p_is m_is p_low m_low = as_long-fits z (omega arith) (omega arith)

as_long-add :
    (k : ℕ) (z : ℤ) (p m c : ℕ)
    → pos_part z ≡ p
    → neg_part z ≡ m
    → k + p ≡ m + c
    → c < 2 ^ 63
    → as_long (pos k +ℤ z) ≡ some (pos c)
as_long-add k z p m c p_is m_is same small =
    as_long-pos (k + pos_part z) (0 + neg_part z) c (omega arith) small

parts-divided :
    (z : ℤ) (p m k : ℕ)
    → pos_part z ≡ p
    → neg_part z ≡ m
    → (pos_part (divided z k) ≡ p / k - m / k) × (neg_part (divided z k) ≡ m / k - p / k)
parts-divided z p m k p_is m_is = (
  pos_part-sub_ℕ (pos_part z / k) (neg_part z / k)
      ∙ ap (λ x. x / k - neg_part z / k) p_is
      ∙ ap (λ y. p / k - y / k) m_is,
  neg_part-sub_ℕ (pos_part z / k) (neg_part z / k)
      ∙ ap (λ x. neg_part z / k - x / k) p_is
      ∙ ap (λ y. y / k - p / k) m_is,
)

-- Two readings of which the second is not earlier, up to the year 2262.
module _ (s1 n1 s2 n2 : ℕ) (low1 : n1 < 1000000000) (low2 : n2 < 1000000000)
    (year : s2 < 9223372036) (order : total s1 n1 ≤ total s2 n2) where
  abbrev nsec : ℤ
  nsec = pos n2 -ℤ pos n1

  sec_is : as_long (pos s2 -ℤ pos s1) ≡ some (pos (s2 - s1))
  sec_is = as_long-pos (s2 + 0) (0 + s1) (s2 - s1) (omega arith) (omega arith)

  plus : pos_part nsec ≡ n2 - n1
  plus = pos_part-sub_ℕ (n2 + 0) (0 + n1) ∙ omega arith

  minus : neg_part nsec ≡ n1 - n2
  minus = neg_part-sub_ℕ (n2 + 0) (0 + n1) ∙ omega arith

  nsec_is : as_long nsec ≡ some nsec
  nsec_is = as_long-parts nsec (n2 - n1) (n1 - n2) plus minus (omega arith) (omega arith)

  getclock_diff_ns-exact :
      getclock_diff_ns (reading s1 n1) (reading s2 n2) ≡ some (pos (total s2 n2 - total s1 n1))
  unfolding getclock_diff_ns
  getclock_diff_ns-exact = bind-some _ sec_is (
      bind-some _
        (as_long-pos (1000000000 * (s2 - s1)) 0 (1000000000 * (s2 - s1)) (omega arith)
          (omega arith))
        (bind-some _ nsec_is (
          as_long-add (1000000000 * (s2 - s1)) nsec (n2 - n1) (n1 - n2) (total s2 n2 - total s1 n1)
            plus minus (omega arith) (omega arith))))

  -- The microseconds: the fraction is dropped from the difference of the nanoseconds alone.
  abbrev us : ℕ
  us = 1000000 * (s2 - s1) + (n2 - n1) / 1000 - (n1 - n2) / 1000

  getclock_diff_us-us : getclock_diff_us (reading s1 n1) (reading s2 n2) ≡ some (pos us)
  unfolding getclock_diff_us
  getclock_diff_us-us =
      let (plus_us, minus_us) = parts-divided nsec (n2 - n1) (n1 - n2) 1000 plus minus in
      bind-some _ sec_is (
        bind-some _
          (as_long-pos (1000000 * (s2 - s1)) 0 (1000000 * (s2 - s1)) (omega arith) (omega arith))
          (bind-some _ nsec_is (
            as_long-add (1000000 * (s2 - s1)) (divided nsec 1000)
              ((n2 - n1) / 1000 - (n1 - n2) / 1000) ((n1 - n2) / 1000 - (n2 - n1) / 1000) us plus_us
              minus_us (omega arith) (omega arith))))

  -- Of two readings with nanoseconds below 10^9, the second not earlier and its seconds below
  -- 9223372036: nothing overflows, getclock_diff_ns is the exact time between them, and
  -- getclock_diff_us is less than a microsecond away from it.
  pub getclock_diff_us-near :
      (getclock_diff_ns (reading s1 n1) (reading s2 n2) ≡ some (pos (total s2 n2 - total s1 n1)))
      × ((us : ℕ) × (getclock_diff_us (reading s1 n1) (reading s2 n2) ≡ some (pos us))
          × (us * 1000 < total s2 n2 - total s1 n1 + 1000)
          × (total s2 n2 - total s1 n1 < us * 1000 + 1000))
  getclock_diff_us-near =
      (getclock_diff_ns-exact, (us, getclock_diff_us-us, omega arith, omega arith))
