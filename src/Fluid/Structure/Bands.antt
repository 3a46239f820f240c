-- ===== src/Fluid/Structure/Bands.antt =====
-- The arithmetic of levels: which RocksDB levels make up a fluid level.
use native.Mathlib.Nat.{div-eq_of_lt-le, mod-add-div', mod-lt, le-div_iff_mul-le, div-mul-le_self}
use lsm_workload_aware_compa.Prelude.{
  ℕ, zero, suc, ◌+◌, ◌-◌, ◌*◌, ◌/◌, ◌%◌, ◌≤◌, ◌<◌, ◌≡◌, ap, arith,
}
use lsm_workload_aware_compa.Prelude.Int.{ℤ, pos}
use lsm_workload_aware_compa.Double.{DoubleOps, IsExact, exact_limit}
use lsm_workload_aware_compa.Fluid.Structure.{fluid_level}

-- The fluid level of a RocksDB level from 1 on: they follow one another in bands of `k + 1`.
pub band : ℕ → ℕ → ℕ
band k level = (level - 1 + k) / (k + 1)

numerator : (k level : ℕ) → (level - 1 + (k + 1) - 1) / (k + 1) ≡ (level - 1 + k) / (k + 1)
numerator k level = ap (λ n. n / (k + 1)) (omega arith)

-- The computation in floating point finds the band, with no error from rounding.
pub fluid_level-eq-band :
    (fp : DoubleOps) (k level : ℕ)
    → IsExact fp
    → 0 < level
    → level + k + 1 < exact_limit
    → fluid_level fp k level ≡ pos (band k level)
unfolding fluid_level band
fluid_level-eq-band fp k level e h fits = ground (
  arith,
  e.sub_exact level 1,
  e.add_exact k 1,
  e.truncate_ceil_div (level - 1) (k + 1),
  ap {B = ℤ} pos (numerator k level),
)

-- The level `offset` above the bottom of a fluid level's band is in that band.
pub band-bottom : (k f offset : ℕ) → 0 < f → offset ≤ k → band k (1 + f * (k + 1) - offset) ≡ f
unfolding band
band-bottom k zero offset h in_band = elim h [ ]
band-bottom k (suc f) offset h in_band = div-eq_of_lt-le (k + 1) (grind arith) (grind arith)

pub div_unique : (n d q r : ℕ) → r < d → n ≡ q * d + r → n / d ≡ q
div_unique n d q r h e = div-eq_of_lt-le d (grind arith) (grind arith)

pub mod_unique : (n d q r : ℕ) → r < d → n ≡ q * d + r → n % d ≡ r
mod_unique n d q r h e = grind (arith, div_unique n d q r, mod-add-div' n d)

-- The band of the level that the loop of BuildStructure reaches after `n` rounds.
pub band-round : (k n : ℕ) → band k (n + 2) ≡ suc (n / (k + 1))
unfolding band
band-round k n =
    div_unique _ (k + 1) (suc (n / (k + 1))) (n % (k + 1)) (mod-lt n (omega arith))
      (grind (arith, mod-add-div' n (k + 1)))

-- One more round: the next slot of the same band, or the first one of the next band.
pub next_slot :
    (k n : ℕ)
    → n % (k + 1) < k
    → (suc n / (k + 1) ≡ n / (k + 1)) × (suc n % (k + 1) ≡ suc (n % (k + 1)))
next_slot k n h =
    let e : suc n ≡ n / (k + 1) * (k + 1) + suc (n % (k + 1)) =
      omega (arith, mod-add-div' n (k + 1)) in
    (
      div_unique (suc n) (k + 1) (n / (k + 1)) (suc (n % (k + 1))) (omega arith) e,
      mod_unique (suc n) (k + 1) (n / (k + 1)) (suc (n % (k + 1))) (omega arith) e,
    )

pub next_band :
    (k n : ℕ) → n % (k + 1) ≡ k → (suc n / (k + 1) ≡ suc (n / (k + 1))) × (suc n % (k + 1) ≡ 0)
next_band k n h =
    let e : suc n ≡ suc (n / (k + 1)) * (k + 1) + 0 = omega (arith, mod-add-div' n (k + 1)) in
    (
      div_unique (suc n) (k + 1) (suc (n / (k + 1))) 0 (omega arith) e,
      mod_unique (suc n) (k + 1) (suc (n / (k + 1))) 0 (omega arith) e,
    )

pub band-zero : (k : ℕ) → band k 0 ≡ 0
unfolding band
band-zero k = div_unique (0 - 1 + k) (k + 1) 0 k (omega arith) (omega arith)

pub band-one : (k : ℕ) → band k 1 ≡ 0
unfolding band
band-one k = div_unique (1 - 1 + k) (k + 1) 0 k (omega arith) (omega arith)

pub band_mono : (k a b : ℕ) → a ≤ b → band k a ≤ band k b
unfolding band
band_mono k a b h =
    (le-div_iff_mul-le (omega arith)).1 (omega (arith, div-mul-le_self (a - 1 + k) (k + 1)))
