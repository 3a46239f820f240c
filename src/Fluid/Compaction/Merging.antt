-- ===== src/Fluid/Compaction/Merging.antt =====
-- What a compaction of the database leaves: DB::CompactFiles as far as its documentation tells, and what
-- that does to the sorted runs.
use text.Mathlib.Text.{◌==◌ as str_eq}
use lsm_workload_aware_compa.Prelude.{
  ℕ, suc, ◌+◌, ◌≤◌, ◌<◌, ◌≡◌, refl, ap, ◌∙◌, String, Bool, true, false, not, ◌||◌, List, [], ◌∷◌,
  All, arith, bit, is_empty, length, if◌then◌else◌, ◌==◌, Bool-cases, inl, inr,
}
use lsm_workload_aware_compa.Fluid.Structure.{SstFileMetaData, LevelMetaData, ColumnFamilyMetaData}
use lsm_workload_aware_compa.Fluid.Structure.Bands.{band}
use lsm_workload_aware_compa.Fluid.Structure.Placing.{IsNumbered}
use lsm_workload_aware_compa.Fluid.Structure.Live.{AreIdle, IsIdle, level_live, live_runs, live_in}

unfoldable pub contains : String → List String → Bool
contains n [] = false
contains n (m ∷ ms) = str_eq n m || contains n ms

-- The files that a compaction does not take.
unfoldable pub without : List String → List SstFileMetaData → List SstFileMetaData
unfolding contains
without taken [] = []
without taken (f ∷ fs) = if contains f.name taken then without taken fs else f ∷ without taken fs

-- The levels before and after a compaction of the taken files into a level: the other levels have lost
-- those files and nothing else. What the output level holds is left open. None of the files is being
-- compacted any more.
abbrev pub Compacts : List String → ℕ → ColumnFamilyMetaData → ColumnFamilyMetaData → Type 0
Compacts taken out [] [] = Unit
Compacts taken out [] (lv' ∷ lvs') = ⊥
Compacts taken out (lv ∷ lvs) [] = ⊥
Compacts taken out (lv ∷ lvs) (lv' ∷ lvs') =
    (lv'.level ≡ lv.level)
    × AreIdle lv'.files
    × ((lv.level == out) ≡ false → lv'.files ≡ without taken lv.files)
    × Compacts taken out lvs lvs'

-- All files of a fluid level are taken.
abbrev pub Covers : List String → ℕ → ℕ → ColumnFamilyMetaData → Type 0
Covers taken k f m =
    All (λ (lv : LevelMetaData). (band k lv.level == f) ≡ true → without taken lv.files ≡ []) m

-- How often the level occurs.
hits : ℕ → ColumnFamilyMetaData → ℕ
hits out [] = 0
hits out (lv ∷ lvs) = bit (lv.level == out) + hits out lvs

hits_above : (out n : ℕ) (m : ColumnFamilyMetaData) → IsNumbered n m → out < n → hits out m ≡ 0
unfolding hits
hits_above out n [] numbered h = refl
hits_above out n (lv ∷ lvs) numbered h =
    ground (arith, hits_above out (suc n) lvs numbered.1 (omega arith), numbered.0)

hits_one : (out n : ℕ) (m : ColumnFamilyMetaData) → IsNumbered n m → hits out m ≤ 1
unfolding hits
hits_one out n [] numbered = omega arith
hits_one out n (lv ∷ lvs) numbered = elim (Bool-cases (lv.level == out)) [
  | inl hit ↦
      let same : lv.level ≡ out = ground arith in
      rw hit (omega (arith, hits_above out (suc n) lvs numbered.1 (omega (arith, numbered.0))))
  | inr miss ↦ rw miss (omega (arith, hits_one out (suc n) lvs numbered.1))
]

length-without :
    (taken : List String) (fs : List SstFileMetaData) → length (without taken fs) ≤ length fs
unfolding without
length-without taken [] = omega arith
length-without taken (f ∷ fs) = ground (arith, length-without taken fs)

bit-is_empty :
    (fs gs : List SstFileMetaData)
    → length fs ≤ length gs
    → bit (not (is_empty fs)) ≤ bit (not (is_empty gs))
bit-is_empty [] gs h = omega arith
bit-is_empty (f ∷ fs) [] h = absurd (omega arith)
bit-is_empty (f ∷ fs) (g ∷ gs) h = omega arith

bit_le_one : (b : Bool) → bit b ≤ 1
bit_le_one true = omega arith
bit_le_one false = omega arith

-- Fewer files, no more runs.
level_live_mono :
    (lv lv' : LevelMetaData)
    → lv'.level ≡ lv.level
    → length lv'.files ≤ length lv.files
    → level_live lv' ≤ level_live lv
level_live_mono lv lv' e h = elim (Bool-cases (lv.level == 0)) [
  | inl zero_level ↦ rw (e, zero_level) h
  | inr deep ↦ rw (e, deep) (bit-is_empty lv'.files lv.files h)
]

level_live_empty : (lv : LevelMetaData) → lv.files ≡ [] → level_live lv ≡ 0
level_live_empty lv h = rw h (ground arith)

level_live_out :
    (lv : LevelMetaData) (out : ℕ) → 0 < out → (lv.level == out) ≡ true → level_live lv ≤ 1
level_live_out lv out positive h =
    let deep : (lv.level == 0) ≡ false = ground arith in rw deep (bit_le_one _)

module _ (taken : List String) (out : ℕ) (k f : ℕ) (positive : 0 < out) where
  kept_or_new :
      (lv lv' : LevelMetaData)
      → lv'.level ≡ lv.level
      → ((lv.level == out) ≡ false → lv'.files ≡ without taken lv.files)
      → level_live lv' ≤ level_live lv + bit (lv.level == out)
  kept_or_new lv lv' same stays = elim (Bool-cases (lv.level == out)) [
    | inl hit ↦ rw hit (omega (arith, level_live_out lv' out positive (rw same hit)))
    | inr miss ↦ rw miss (
        omega
          (arith, level_live_mono lv lv' same (rw (stays miss) (length-without taken lv.files))))
  ]

  emptied_or_new :
      (lv lv' : LevelMetaData)
      → lv'.level ≡ lv.level
      → ((lv.level == out) ≡ false → lv'.files ≡ without taken lv.files)
      → without taken lv.files ≡ []
      → level_live lv' ≤ bit (lv.level == out)
  emptied_or_new lv lv' same stays none_left = elim (Bool-cases (lv.level == out)) [
    | inl hit ↦ rw hit (level_live_out lv' out positive (rw same hit))
    | inr miss ↦ rw miss (omega (arith, level_live_empty lv' (stays miss ∙ none_left)))
  ]

  -- The runs of the fluid level are gone, and at most the one at the output level is new.
  live_runs-hits :
      (m m' : ColumnFamilyMetaData)
      → Compacts taken out m m'
      → Covers taken k f m
      → live_runs m' + live_in k f m ≤ live_runs m + hits out m
  unfolding live_runs live_in hits
  live_runs-hits [] [] c v = omega arith
  live_runs-hits [] (lv' ∷ lvs') c v = absurd c
  live_runs-hits (lv ∷ lvs) [] c v = absurd c
  live_runs-hits (lv ∷ lvs) (lv' ∷ lvs') c v = elim (Bool-cases (band k lv.level == f)) [
    | inl inside ↦
        rw inside (
          omega
            (arith, emptied_or_new lv lv' c.0 c.2 (v.0 inside), live_runs-hits lvs lvs' c.3 v.1))
    | inr outside ↦
        rw outside (omega (arith, kept_or_new lv lv' c.0 c.2, live_runs-hits lvs lvs' c.3 v.1))
  ]

  live_in-hits :
      (m m' : ColumnFamilyMetaData)
      → Compacts taken out m m'
      → Covers taken k f m
      → live_in k f m' ≤ hits out m
  unfolding live_in hits
  live_in-hits [] [] c v = omega arith
  live_in-hits [] (lv' ∷ lvs') c v = absurd c
  live_in-hits (lv ∷ lvs) [] c v = absurd c
  live_in-hits (lv ∷ lvs) (lv' ∷ lvs') c v = elim (Bool-cases (band k lv.level == f)) [
    | inl inside ↦
        rw (c.0, inside)
          (omega (
            arith,
            (rw (c.0) at (emptied_or_new lv lv' c.0 c.2 (v.0 inside))),
            live_in-hits lvs lvs' c.3 v.1,
          ))
    | inr outside ↦ rw (c.0, outside) (omega (arith, live_in-hits lvs lvs' c.3 v.1))
  ]

  -- After a compaction of all files of a fluid level, the level has at most one sorted run, and with those
  -- that it had, there is at most one more than before.
  pub Compacts-live :
      (m m' : ColumnFamilyMetaData)
      → IsNumbered 0 m
      → Compacts taken out m m'
      → Covers taken k f m
      → (live_runs m' + live_in k f m ≤ live_runs m + 1) × (live_in k f m' ≤ 1)
  Compacts-live m m' numbered c v = (
    omega (arith, live_runs-hits m m' c v, hits_one out 0 m numbered),
    omega (arith, live_in-hits m m' c v, hits_one out 0 m numbered),
  )

pub Compacts-length :
    (taken : List String) (out : ℕ) (m m' : ColumnFamilyMetaData)
    → Compacts taken out m m'
    → length m' ≡ length m
Compacts-length taken out [] [] c = refl
Compacts-length taken out [] (lv' ∷ lvs') c = absurd c
Compacts-length taken out (lv ∷ lvs) [] c = absurd c
Compacts-length taken out (lv ∷ lvs) (lv' ∷ lvs') c =
    ap suc (Compacts-length taken out lvs lvs' c.3)

pub Compacts-IsNumbered :
    (taken : List String) (out n : ℕ) (m m' : ColumnFamilyMetaData)
    → Compacts taken out m m'
    → IsNumbered n m
    → IsNumbered n m'
Compacts-IsNumbered taken out n [] [] c h = tt
Compacts-IsNumbered taken out n [] (lv' ∷ lvs') c h = absurd c
Compacts-IsNumbered taken out n (lv ∷ lvs) [] c h = absurd c
Compacts-IsNumbered taken out n (lv ∷ lvs) (lv' ∷ lvs') c h =
    (c.0 ∙ h.0, Compacts-IsNumbered taken out (suc n) lvs lvs' c.3 h.1)

pub Compacts-IsIdle :
    (taken : List String) (out : ℕ) (m m' : ColumnFamilyMetaData)
    → Compacts taken out m m'
    → IsIdle m'
Compacts-IsIdle taken out [] [] c = tt
Compacts-IsIdle taken out [] (lv' ∷ lvs') c = absurd c
Compacts-IsIdle taken out (lv ∷ lvs) [] c = absurd c
Compacts-IsIdle taken out (lv ∷ lvs) (lv' ∷ lvs') c = (c.1, Compacts-IsIdle taken out lvs lvs' c.3)
