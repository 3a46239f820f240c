-- ===== src/Fluid/Compaction/Chosen.antt =====
-- The loop of ScheduleCompaction over the runs of the target level: which run it finds.
use native.Mathlib.Decide.{ℕ_discrete}
use lsm_workload_aware_compa.Prelude.{
  ℕ, zero, suc, ◌+◌, ◌-◌, ◌*◌, ◌≤◌, ◌<◌, ◌≡◌, ◌≢◌, ◌⊎◌, refl, ◌∙◌, true, false, inl, inr, some,
  List, [], ◌∷◌, arith, Bool-cases, length, is_empty, get_elem?-lt,
}
use lsm_workload_aware_compa.Fluid.Structure.{SstFileMetaData, Run}
use lsm_workload_aware_compa.Fluid.Compaction.{find_empty_run}
use lsm_workload_aware_compa.Fluid.Compaction.Refs.{files_in, files_in_of_get}

-- The bottom RocksDB level of a fluid level.
abbrev pub bottom : ℕ → ℕ → ℕ
bottom k target_lvl = 1 + target_lvl * (k + 1)

-- The first empty run from offset `lvl` on, or none.
abbrev pub Chosen : ℕ → ℕ → List Run → ℕ → ℕ → Type 0
Chosen k t runs lvl x =
    ((o : ℕ) × (lvl ≤ o)
      × (o ≤ k)
      × (x ≡ bottom k t - o)
      × (files_in runs (k - o) ≡ [])
      × ((p : ℕ) → lvl ≤ p → p < o → files_in runs (k - p) ≢ []))
    ⊎ ((x ≡ bottom k t) × ((p : ℕ) → lvl ≤ p → p ≤ k → files_in runs (k - p) ≢ []))

is_empty-true : (fs : List SstFileMetaData) → is_empty fs ≡ true → fs ≡ []
is_empty-true [] h = refl
is_empty-true (f ∷ fs) h = cc

is_empty-false : (fs : List SstFileMetaData) → is_empty fs ≡ false → fs ≢ []
is_empty-false [] h = cc
is_empty-false (f ∷ fs) h = λ e. cc

Chosen-here :
    (k t : ℕ) (runs : List Run) (lvl : ℕ)
    → lvl ≤ k
    → files_in runs (k - lvl) ≡ []
    → Chosen k t runs lvl (bottom k t - lvl)
Chosen-here k t runs lvl h e = inl (lvl, omega arith, h, refl, e, λ p q r. absurd (omega arith))

Chosen-later :
    (k t : ℕ) (runs : List Run) (lvl x : ℕ)
    → files_in runs (k - lvl) ≢ []
    → Chosen k t runs (lvl + 1) x
    → Chosen k t runs lvl x
Chosen-later k t runs lvl x occupied (inl (o, a, b, e, free, before)) =
    inl (o, omega arith, b, e, free, at)
  where
    at : (p : ℕ) → lvl ≤ p → p < o → files_in runs (k - p) ≢ []
    at p h q = elim (ℕ_discrete p lvl) [
      | yes same ↦ rw same occupied
      | no other ↦ before p (omega arith) q
    ]
Chosen-later k t runs lvl x occupied (inr (e, all)) = inr (e, at)
  where
    at : (p : ℕ) → lvl ≤ p → p ≤ k → files_in runs (k - p) ≢ []
    at p h q = elim (ℕ_discrete p lvl) [
      | yes same ↦ rw same occupied
      | no other ↦ all p (omega arith) q
    ]

pub find_empty_run-Chosen :
    (rounds lvl k t : ℕ) (runs : List Run)
    → lvl + rounds ≡ k + 1
    → k < length runs
    → (x : ℕ) × (find_empty_run rounds lvl k t runs ≡ some x) × Chosen k t runs lvl x
unfolding find_empty_run
find_empty_run-Chosen zero lvl k t runs e h =
    (bottom k t, refl, inr (refl, λ p q r. absurd (omega arith)))
find_empty_run-Chosen (suc rounds) lvl k t runs e h =
    let (run, there) = get_elem?-lt runs (k - lvl) (omega arith) in
    let rest = find_empty_run-Chosen rounds (lvl + 1) k t runs (omega arith) h in
    let same = files_in_of_get runs (k - lvl) there in
    elim (Bool-cases (is_empty run.files)) [
      | inl free ↦ (
        bottom k t - lvl,
        rw (there, free),
        Chosen-here k t runs lvl (omega arith) (same ∙ is_empty-true run.files free),
      )
      | inr taken ↦ (
        rest.0,
        rw (there, taken) rest.1,
        Chosen-later k t runs lvl rest.0 (rw same (is_empty-false run.files taken)) rest.2,
      )
    ]
