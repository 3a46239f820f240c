-- ===== src/Fluid/Structure/Files.antt =====
-- The files of a view and of the metadata: placing keeps them all, in order.
use native.Mathlib.Nat.{mod-lt, div-le_self}
use native.Mathlib.Decide.{dec_lt}
use lsm_workload_aware_compa.Prelude.{
  All, ℕ, zero, suc, ◌+◌, ◌/◌, ◌%◌, ◌<◌, ◌≡◌, refl, sym, ap, ◌∙◌, List, [], ◌∷◌, ◌++◌, append-nil,
  append_assoc, arith, length, modify, length-modify,
}
use lsm_workload_aware_compa.Fluid.Structure.{
  SstFileMetaData, LevelMetaData, Run, LazyLevel, add_run,
}
use lsm_workload_aware_compa.Fluid.Structure.Bands.{next_slot, next_band}
use lsm_workload_aware_compa.Fluid.Structure.Placing.{run_of, run_of-files, place}

-- The files of a level, and those of all levels in order.
unfoldable pub run_files : List Run → List SstFileMetaData
run_files [] = []
run_files (r ∷ rs) = r.files ++ run_files rs

unfoldable pub all_files : List LazyLevel → List SstFileMetaData
unfolding run_files
all_files [] = []
all_files (l ∷ ls) = run_files l.runs ++ all_files ls

unfoldable pub meta_files : List LevelMetaData → List SstFileMetaData
meta_files [] = []
meta_files (lv ∷ lvs) = lv.files ++ meta_files lvs

-- No level past `f` holds a run.
abbrev pub IsClearPast : ℕ → List LazyLevel → Type 0
IsClearPast f [] = Unit
IsClearPast zero (l ∷ ls) = All (λ (m : LazyLevel). m.runs ≡ []) ls
IsClearPast (suc f) (l ∷ ls) = IsClearPast f ls

pub run_files-append : (rs ss : List Run) → run_files (rs ++ ss) ≡ run_files rs ++ run_files ss
unfolding run_files
run_files-append [] ss = refl
run_files-append (r ∷ rs) ss = rw (run_files-append rs ss) (sym (append_assoc r.files _ _))

pub all_files_of_clear :
    (ls : List LazyLevel) → All (λ (m : LazyLevel). m.runs ≡ []) ls → all_files ls ≡ []
unfolding all_files
all_files_of_clear [] h = refl
all_files_of_clear (l ∷ ls) h = rw (h.0) (all_files_of_clear ls h.1)

all_files-modify :
    (f : ℕ) (ls : List LazyLevel) (r : Run)
    → IsClearPast f ls
    → f < length ls
    → all_files (modify ls f (add_run r)) ≡ all_files ls ++ r.files
unfolding all_files
all_files-modify f [] r clear h = absurd (omega arith)
all_files-modify zero (l ∷ ls) r clear h =
    simp (run_files-append, all_files_of_clear ls clear, append-nil)
all_files-modify (suc f) (l ∷ ls) r clear h =
    rw (all_files-modify f ls r clear (omega arith)) (sym (append_assoc (run_files l.runs) _ _))

IsClearPast-modify :
    (f : ℕ) (ls : List LazyLevel) (r : Run)
    → IsClearPast f ls
    → IsClearPast f (modify ls f (add_run r))
IsClearPast-modify f [] r clear = clear
IsClearPast-modify zero (l ∷ ls) r clear = clear
IsClearPast-modify (suc f) (l ∷ ls) r clear = IsClearPast-modify f ls r clear

IsClearPast-suc : (f : ℕ) (ls : List LazyLevel) → IsClearPast f ls → IsClearPast (suc f) ls
IsClearPast-suc f [] clear = tt
IsClearPast-suc zero (l ∷ []) clear = tt
IsClearPast-suc zero (l ∷ m ∷ ls) clear = clear.1
IsClearPast-suc (suc f) (l ∷ ls) clear = IsClearPast-suc f ls clear

IsClearPast-next :
    (k n : ℕ) (ls : List LazyLevel)
    → IsClearPast (suc (n / (k + 1))) ls
    → IsClearPast (suc (suc n / (k + 1))) ls
IsClearPast-next k n ls clear = elim (dec_lt (n % (k + 1)) k) [
  | yes h ↦ rw ((next_slot k n h).0) clear
  | no h ↦
      rw ((next_band k n (omega (arith, mod-lt n {m = k + 1}))).0)
        (IsClearPast-suc (suc (n / (k + 1))) ls clear)
]

-- Placing keeps every file, in order, and adds those of the levels that it places.
pub all_files-place :
    (k n : ℕ) (lvs : List LevelMetaData) (ls : List LazyLevel)
    → IsClearPast (suc (n / (k + 1))) ls
    → n + 1 + length lvs < length ls
    → all_files (place k n lvs ls) ≡ all_files ls ++ meta_files lvs
unfolding place meta_files
all_files-place k n [] ls clear room = sym (append-nil (all_files ls))
all_files-place k n (lv ∷ lvs) ls clear room =
    all_files-place k (suc n) lvs _
      (IsClearPast-next k n _ (IsClearPast-modify (suc (n / (k + 1))) ls (run_of lv) clear))
      (omega (arith, length-modify ls (suc (n / (k + 1))) (add_run (run_of lv))))
    ∙ ap (λ fs. fs ++ meta_files lvs)
        (all_files-modify (suc (n / (k + 1))) ls (run_of lv) clear
            (omega (arith, div-le_self n (k + 1)))
          ∙ ap (◌++◌ (all_files ls)) (run_of-files lv))
    ∙ append_assoc (all_files ls) lv.files (meta_files lvs)
