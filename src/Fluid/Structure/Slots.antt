-- ===== src/Fluid/Structure/Slots.antt =====
-- Where the levels that are placed lie: the runs of each fluid level, how many of its slots are used, and
-- which slot a level has.
use native.Mathlib.Nat.{mod-lt, div-le_self, add-zero}
use native.Mathlib.Decide.{dec_lt, ℕ_discrete}
use lsm_workload_aware_compa.Prelude.{
  ℕ, zero, suc, ◌+◌, ◌/◌, ◌%◌, ◌<◌, ◌≡◌, ◌≢◌, refl, sym, ap, ◌∙◌, false, some, List, [], ◌∷◌, ◌++◌,
  arith, ltb, ◌==◌, if◌then◌else◌, length, get_elem?, modify, length-modify, length-append,
  get_elem?-append_left, get_elem?-append_last,
}
use lsm_workload_aware_compa.Fluid.Structure.{LevelMetaData, Run, LazyLevel, add_run}
use lsm_workload_aware_compa.Fluid.Structure.Bands.{next_slot, next_band}
use lsm_workload_aware_compa.Fluid.Structure.Placing.{run_of, place}

-- The runs of a fluid level; none where there is no such level.
unfoldable pub runs_at : List LazyLevel → ℕ → List Run
runs_at [] i = []
runs_at (l ∷ ls) zero = l.runs
runs_at (l ∷ ls) (suc i) = runs_at ls i

pub runs_at-modify_self :
    (ls : List LazyLevel) (f : ℕ) (r : Run)
    → f < length ls
    → runs_at (modify ls f (add_run r)) f ≡ runs_at ls f ++ r ∷ []
unfolding runs_at
runs_at-modify_self [] f r h = absurd (omega arith)
runs_at-modify_self (l ∷ ls) zero r h = refl
runs_at-modify_self (l ∷ ls) (suc f) r h = runs_at-modify_self ls f r (omega arith)

pub runs_at-modify_ne :
    (ls : List LazyLevel) (f g : ℕ) (r : Run)
    → (f == g) ≡ false
    → runs_at (modify ls f (add_run r)) g ≡ runs_at ls g
unfolding runs_at
runs_at-modify_ne [] f g r h = refl
runs_at-modify_ne (l ∷ ls) zero zero r h = absurd (ground arith)
runs_at-modify_ne (l ∷ ls) zero (suc g) r h = refl
runs_at-modify_ne (l ∷ ls) (suc f) zero r h = refl
runs_at-modify_ne (l ∷ ls) (suc f) (suc g) r h = runs_at-modify_ne ls f g r (ground arith)

-- A run that is there stays where it is.
modify_keeps :
    (ls : List LazyLevel) (f g i : ℕ) (r : Run) {a : Run}
    → get_elem? (runs_at ls g) i ≡ some a
    → get_elem? (runs_at (modify ls f (add_run r)) g) i ≡ some a
unfolding runs_at
modify_keeps [] f g i r h = h
modify_keeps (l ∷ ls) zero zero i r h = get_elem?-append_left l.runs (r ∷ []) i h
modify_keeps (l ∷ ls) zero (suc g) i r h = h
modify_keeps (l ∷ ls) (suc f) zero i r h = h
modify_keeps (l ∷ ls) (suc f) (suc g) i r h = modify_keeps ls f g i r h

place_keeps :
    (k n : ℕ) (lvs : List LevelMetaData) (ls : List LazyLevel) (g i : ℕ) {a : Run}
    → get_elem? (runs_at ls g) i ≡ some a
    → get_elem? (runs_at (place k n lvs ls) g) i ≡ some a
unfolding place
place_keeps k n [] ls g i h = h
place_keeps k n (lv ∷ lvs) ls g i h =
    place_keeps k (suc n) lvs _ g i (modify_keeps ls (suc (n / (k + 1))) g i (run_of lv) h)

-- How many runs fluid level `f + 1` has after `n` rounds.
unfoldable pub slots_used : ℕ → ℕ → ℕ → ℕ
slots_used k n f =
    if ltb f (n / (k + 1)) then k + 1 else if f == n / (k + 1) then n % (k + 1) else 0

abbrev pub HasUsed : ℕ → ℕ → List LazyLevel → Type 0
HasUsed k n ls = (f : ℕ) → suc f < length ls → length (runs_at ls (suc f)) ≡ slots_used k n f

slots_used-suc_self :
    (k n : ℕ) → slots_used k (suc n) (n / (k + 1)) ≡ suc (slots_used k n (n / (k + 1)))
unfolding slots_used
slots_used-suc_self k n = elim (dec_lt (n % (k + 1)) k) [
  | yes h ↦ ground (arith, next_slot k n h)
  | no h ↦ ground (arith, next_band k n, mod-lt n {m = k + 1})
]

slots_used-suc_ne : (k n f : ℕ) → f ≢ n / (k + 1) → slots_used k (suc n) f ≡ slots_used k n f
unfolding slots_used
slots_used-suc_ne k n f ne = elim (dec_lt (n % (k + 1)) k) [
  | yes h ↦ ground (arith, next_slot k n h)
  | no h ↦ ground (arith, next_band k n, mod-lt n {m = k + 1})
]

length-runs_at-modify_self :
    (ls : List LazyLevel) (f : ℕ) (r : Run)
    → f < length ls
    → length (runs_at (modify ls f (add_run r)) f) ≡ suc (length (runs_at ls f))
length-runs_at-modify_self ls f r h =
    rw (runs_at-modify_self ls f r h) (omega (arith, length-append (runs_at ls f) (r ∷ [])))

HasUsed-modify :
    (k n : ℕ) (ls : List LazyLevel) (r : Run)
    → HasUsed k n ls
    → HasUsed k (suc n) (modify ls (suc (n / (k + 1))) (add_run r))
HasUsed-modify k n ls r used f h = elim (ℕ_discrete f (n / (k + 1))) [
  | yes hit ↦
      let room : suc (n / (k + 1)) < length ls =
        omega (arith, length-modify ls (suc (n / (k + 1))) (add_run r)) in
      rw hit (
        length-runs_at-modify_self ls (suc (n / (k + 1))) r room
        ∙ ap suc (used (n / (k + 1)) room)
        ∙ sym (slots_used-suc_self k n))
  | no miss ↦
      rw
        (
          runs_at-modify_ne ls (suc (n / (k + 1))) (suc f) r (ground arith),
          slots_used-suc_ne k n f miss,
        )
        (used f (omega (arith, length-modify ls (suc (n / (k + 1))) (add_run r))))
]

pub HasUsed-place :
    (k n : ℕ) (lvs : List LevelMetaData) (ls : List LazyLevel)
    → HasUsed k n ls
    → HasUsed k (n + length lvs) (place k n lvs ls)
unfolding place
HasUsed-place k n [] ls used = rw add-zero used
HasUsed-place k n (lv ∷ lvs) ls used =
    let e : n + suc (length lvs) ≡ suc n + length lvs = omega arith in
    rw e (HasUsed-place k (suc n) lvs _ (HasUsed-modify k n ls (run_of lv) used))

pub length-place :
    (k n : ℕ) (lvs : List LevelMetaData) (ls : List LazyLevel)
    → length (place k n lvs ls) ≡ length ls
unfolding place
length-place k n [] ls = refl
length-place k n (lv ∷ lvs) ls =
    length-place k (suc n) lvs _ ∙ length-modify ls (suc (n / (k + 1))) (add_run (run_of lv))

slots_used_here : (k n : ℕ) → slots_used k n (n / (k + 1)) ≡ n % (k + 1)
unfolding slots_used
slots_used_here k n = ground arith

get_elem?-modify_next :
    (k n : ℕ) (ls : List LazyLevel) (r : Run)
    → HasUsed k n ls
    → suc (n / (k + 1)) < length ls
    → get_elem?
        (runs_at (modify ls (suc (n / (k + 1))) (add_run r)) (suc (n / (k + 1))))
        (n % (k + 1))
      ≡ some r
get_elem?-modify_next k n ls r used room =
    rw (runs_at-modify_self ls (suc (n / (k + 1))) r room)
      (get_elem?-append_last _ _ r (sym (used (n / (k + 1)) room ∙ slots_used_here k n)))

-- Each level becomes the run at its own slot of its own band.
pub get_elem?-place :
    (k n : ℕ) (lvs : List LevelMetaData) (ls : List LazyLevel) (m : ℕ) {lv : LevelMetaData}
    → HasUsed k n ls
    → n + 1 + length lvs < length ls
    → get_elem? lvs m ≡ some lv
    → get_elem? (runs_at (place k n lvs ls) (suc ((n + m) / (k + 1)))) ((n + m) % (k + 1))
      ≡ some (run_of lv)
unfolding place
get_elem?-place k n [] ls m used room h = cc
get_elem?-place k n (x ∷ lvs) ls zero {lv} used room h =
    let e : n + 0 ≡ n = add-zero n in
    let same : x ≡ lv = cc in
    rw (e, ← same)
      (place_keeps k (suc n) lvs _ (suc (n / (k + 1))) (n % (k + 1))
        (get_elem?-modify_next k n ls (run_of x) used (omega (arith, div-le_self n (k + 1)))))
get_elem?-place k n (x ∷ lvs) ls (suc m) used room h =
    let e : n + suc m ≡ suc n + m = omega arith in
    rw e (
      get_elem?-place k (suc n) lvs _ m (HasUsed-modify k n ls (run_of x) used)
        (omega (arith, length-modify ls (suc (n / (k + 1))) (add_run (run_of x)))) h)
