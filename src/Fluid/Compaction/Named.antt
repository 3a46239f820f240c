-- ===== src/Fluid/Compaction/Named.antt =====
-- Files that a compaction takes by their names, and the levels that are placed in a view.
use mathlib.Core.Path.{subst}
use text.Mathlib.TextPositions.{eq_refl}
use native.Mathlib.Nat.{div-le_self}
use lsm_workload_aware_compa.Prelude.{
  ℕ, suc, ◌+◌, ◌/◌, ◌<◌, ◌≡◌, refl, ap, ◌∙◌, append-nil, String, true, List, [], ◌∷◌, ◌++◌, All,
  arith, length, ◌==◌, Bool-cases, inl, inr, modify, length-modify,
}
use lsm_workload_aware_compa.Fluid.Structure.{
  SstFileMetaData, LevelMetaData, LazyLevel, Run, add_run,
}
use lsm_workload_aware_compa.Fluid.Structure.Bands.{band, band-round}
use lsm_workload_aware_compa.Fluid.Structure.Placing.{IsNumbered, run_of, run_of-files, place}
use lsm_workload_aware_compa.Fluid.Structure.Slots.{runs_at, runs_at-modify_self, runs_at-modify_ne}
use lsm_workload_aware_compa.Fluid.Structure.Files.{run_files, run_files-append}
use lsm_workload_aware_compa.Fluid.Structure.Built.{base_runs, run_files-base_runs, head_level}
use lsm_workload_aware_compa.Fluid.Compaction.Refs.{names}
use lsm_workload_aware_compa.Fluid.Compaction.Merging.{contains, without, Covers}

-- Each of the files is taken.
abbrev pub Named : List String → List SstFileMetaData → Type 0
Named taken fs = All (λ (f : SstFileMetaData). contains f.name taken ≡ true) fs

Named-without :
    (taken : List String) (fs : List SstFileMetaData) → Named taken fs → without taken fs ≡ []
unfolding without
Named-without taken [] h = refl
Named-without taken (f ∷ fs) h = rw (h.0) (Named-without taken fs h.1)

Named-split :
    (taken : List String) (fs gs : List SstFileMetaData)
    → Named taken (fs ++ gs)
    → Named taken fs × Named taken gs
Named-split taken [] gs h = (tt, h)
Named-split taken (f ∷ fs) gs h = let (l, r) = Named-split taken fs gs h.1 in ((h.0, l), r)

Named-add :
    (n : String) (taken : List String) (fs : List SstFileMetaData)
    → Named taken fs
    → Named (n ∷ taken) fs
unfolding contains
Named-add n taken [] h = tt
Named-add n taken (f ∷ fs) h = (ground (arith, h.0), Named-add n taken fs h.1)

pub Named-names : (fs : List SstFileMetaData) → Named (names fs) fs
unfolding contains names
Named-names [] = tt
Named-names (f ∷ fs) =
    (rw (eq_refl f.name), unfold names in Named-add f.name (names fs) fs (Named-names fs))

pub Named-mono :
    (named taken : List String) (fs : List SstFileMetaData)
    → ((n : String) → contains n named ≡ true → contains n taken ≡ true)
    → Named named fs
    → Named taken fs
Named-mono named taken [] more h = tt
Named-mono named taken (f ∷ fs) more h = (more f.name h.0, Named-mono named taken fs more h.1)

-- The levels of the list that lie in the band have all their files taken.
abbrev pub CoversFiles : List String → ℕ → ℕ → List LevelMetaData → Type 0
CoversFiles taken k f m =
    All (λ (lv : LevelMetaData). (band k lv.level == f) ≡ true → Named taken lv.files) m

pub CoversFiles-Covers :
    (taken : List String) (k f : ℕ) (m : List LevelMetaData)
    → CoversFiles taken k f m
    → Covers taken k f m
CoversFiles-Covers taken k f [] h = tt
CoversFiles-Covers taken k f (lv ∷ lvs) h =
    (λ inside. Named-without taken lv.files (h.0 inside), CoversFiles-Covers taken k f lvs h.1)

run_files-runs_of : (lv : LevelMetaData) → run_files (run_of lv ∷ []) ≡ lv.files
unfolding run_files
run_files-runs_of lv = append-nil (run_of lv).files ∙ run_of-files lv

runs_at_head : (rs : List Run) (ls : List LazyLevel) → runs_at (head_level rs ls) 0 ≡ rs
unfolding runs_at
runs_at_head rs ls = refl

module _ (taken : List String) (k f : ℕ) where
  Named-modify :
      (g : ℕ) (lv : LevelMetaData) (ls : List LazyLevel)
      → g < length ls
      → Named taken (run_files (runs_at (modify ls g (add_run (run_of lv))) f))
      → Named taken (run_files (runs_at ls f)) × ((g == f) ≡ true → Named taken lv.files)
  Named-modify g lv ls below h = elim (Bool-cases (g == f)) [
    | inl hit ↦
        let same : g ≡ f = ground arith in
        let runs : runs_at (modify ls g (add_run (run_of lv))) f ≡ runs_at ls f ++ run_of lv ∷ [] =
          rw (← same) (runs_at-modify_self ls g (run_of lv) below) in
        let files = run_files-append (runs_at ls f) (run_of lv ∷ []) in
        let (old, new) =
          Named-split taken (run_files (runs_at ls f)) (run_files (run_of lv ∷ []))
            (subst (Named taken) (ap run_files runs ∙ files) h) in
        (old, λ inside. subst (Named taken) (run_files-runs_of lv) new)
    | inr miss ↦ (
      subst (λ rs. Named taken (run_files rs)) (runs_at-modify_ne ls g f (run_of lv) miss) h,
      λ inside. cc,
    )
  ]

  pub Named-place :
      (n : ℕ) (lvs : List LevelMetaData) (ls : List LazyLevel)
      → IsNumbered (suc (suc n)) lvs
      → n + 1 + length lvs < length ls
      → Named taken (run_files (runs_at (place k n lvs ls) f))
      → Named taken (run_files (runs_at ls f)) × CoversFiles taken k f lvs
  unfolding place
  Named-place n [] ls numbered room h = (h, tt)
  Named-place n (lv ∷ lvs) ls numbered room h =
      let g = suc (n / (k + 1)) in
      let at : band k lv.level ≡ g = ap (band k) (numbered.0 ∙ omega arith) ∙ band-round k n in
      let (placed, later) =
        Named-place (suc n) lvs (modify ls g (add_run (run_of lv))) numbered.1
          (omega (arith, length-modify ls g (add_run (run_of lv)))) h in
      let (old, here) = Named-modify g lv ls (omega (arith, div-le_self n (k + 1))) placed in
      (old, (rw at here, later))

  pub base_files :
      (l0 l1 : LevelMetaData)
      → band k l0.level ≡ 0
      → band k l1.level ≡ 0
      → (rest : List LazyLevel)
      → Named taken (run_files (runs_at (head_level (base_runs k l0 l1) rest) f))
      → ((band k l0.level == f) ≡ true → Named taken l0.files)
        × ((band k l1.level == f) ≡ true → Named taken l1.files)
  base_files l0 l1 e0 e1 rest h =
      (λ in0. (halves (rw e0 at in0)).0, λ in1. (halves (rw e1 at in1)).1)
    where
      halves : (0 == f) ≡ true → Named taken l0.files × Named taken l1.files
      halves here =
          let zero_is : f ≡ 0 = ground arith in
          Named-split taken l0.files l1.files (
            subst (Named taken)
              (ap (λ i. run_files (runs_at (head_level (base_runs k l0 l1) rest) i)) zero_is
                ∙ ap run_files (runs_at_head (base_runs k l0 l1) rest)
                ∙ run_files-base_runs k l0 l1)
              h)
