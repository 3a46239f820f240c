-- ===== src/Utils/Decimal.antt =====
-- Text as the program's streams print it: literals, and whole numbers in decimal.
use Prim.Native.Char.{code}
use native.Mathlib.Nat.{pow-suc}
use lsm_workload_aware_compa.Prelude.{
  ℕ, zero, suc, ◌+◌, ◌-◌, ◌*◌, ◌/◌, ◌%◌, ◌^◌, ◌≤◌, ◌<◌, ◌≡◌, refl, ◌∙◌, [], ◌∷◌, ◌++◌, arith, ltb,
  lt→ltb, Bool-cases, inl, inr, ltb→le, if◌then◌else◌, length, length-append, String,
}
use lsm_workload_aware_compa.Prelude.Int.{ℤ, pos, negsuc}
use lsm_workload_aware_compa.Buffer.{Text}

abbrev pub codes : String → Text
codes String.[] = []
codes (String.◌∷◌ c s) = code c ∷ codes s

abbrev pub newline : Text
newline = 10 ∷ []

digits : ℕ → ℕ → Text
digits zero n = []
digits (suc fuel) n =
    let more = digits fuel (n / 10) in
    if ltb n 10 then (48 + n) ∷ [] else more ++ (48 + n % 10) ∷ []

-- An unsigned number; each round divides it by ten, so that many rounds are enough.
unfoldable pub decimal : ℕ → Text
unfolding digits
decimal n = digits (suc n) n

unfoldable pub signed : ℤ → Text
unfolding decimal
signed (pos n) = decimal n
signed (negsuc n) = 45 ∷ decimal (suc n)

-- The number that a text of digits stands for.
unfoldable pub value_from : ℕ → Text → ℕ
value_from acc [] = acc
value_from acc (c ∷ cs) = value_from (acc * 10 + (c - 48)) cs

value_from-append :
    (acc : ℕ) (cs : Text) (c : ℕ)
    → value_from acc (cs ++ c ∷ []) ≡ value_from acc cs * 10 + (c - 48)
unfolding value_from
value_from-append acc [] c = refl
value_from-append acc (d ∷ cs) c = value_from-append (acc * 10 + (d - 48)) cs c

value_from-digits : (fuel n : ℕ) → n < fuel → value_from 0 (digits fuel n) ≡ n
unfolding digits value_from
value_from-digits zero n h = elim h [ ]
value_from-digits (suc fuel) n h = elim (Bool-cases (ltb n 10)) [
  | inl small ↦ rw small (omega arith)
  | inr large ↦
      let whole = ltb→le n 10 large in
      let before = value_from-digits fuel (n / 10) (omega arith) in
      rw large (
        unfold value_from in
        value_from-append 0 (digits fuel (n / 10)) (48 + n % 10) ∙ omega (arith, before))
]

-- The decimal text of a number stands for that number: no digit is lost.
value_from-decimal : (n : ℕ) → value_from 0 (decimal n) ≡ n
unfolding decimal
value_from-decimal n = value_from-digits (suc n) n (omega arith)

-- A digit less for each division by ten.
tenth-lt : (n w : ℕ) → n < 10 ^ suc w → n / 10 < 10 ^ w
tenth-lt n w h = let e : n < 10 ^ w * 10 = rw pow-suc at h in omega (arith, e)

length-digits : (fuel n w : ℕ) → n < 10 ^ suc w → length (digits fuel n) ≤ suc w
unfolding digits
length-digits zero n w h = omega arith
length-digits (suc fuel) n zero h =
    let e : n < 10 ^ 0 * 10 = rw pow-suc at h in
    let small : n < 10 = omega (arith, e) in rw (lt→ltb n 10 small) (omega arith)
length-digits (suc fuel) n (suc v) h = elim (Bool-cases (ltb n 10)) [
  | inl small ↦ rw small (omega arith)
  | inr large ↦ rw large (
      omega (
        arith,
        length-append {0} (digits fuel (n / 10)) ((48 + n % 10) ∷ []),
        length-digits fuel (n / 10) v (tenth-lt n (suc v) h),
      ))
]

-- A number below a power of ten has at most as many digits.
pub length-decimal : (n w : ℕ) → n < 10 ^ suc w → length (decimal n) ≤ suc w
unfolding decimal
length-decimal n w h = length-digits (suc n) n w h
