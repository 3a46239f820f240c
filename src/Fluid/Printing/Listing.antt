-- ===== src/Fluid/Printing/Listing.antt =====
-- The debug listing of the view, line by line.
use lsm_workload_aware_compa.Prelude.{
  ℕ, zero, suc, ◌≤◌, ◌<◌, ◌≡◌, refl, sym, ap, ◌∙◌, true, some, List, [], ◌∷◌, ◌++◌, append_assoc,
  arith, if◌then◌else◌, is_empty, length, drop, drop-suc, get_elem?-drop, Bool-cases, inl, inr,
}
use lsm_workload_aware_compa.Buffer.{Text}
use lsm_workload_aware_compa.Utils.Decimal.{newline}
use lsm_workload_aware_compa.Fluid.Structure.{
  SstFileMetaData, Run, LazyLevel, get_largest_occupied_level,
}
use lsm_workload_aware_compa.Fluid.Structure.Slots.{runs_at}
use lsm_workload_aware_compa.Fluid.Structure.Files.{run_files, all_files}
use lsm_workload_aware_compa.Fluid.Structure.Counts.{get_largest_occupied_level-IsLargest}
use lsm_workload_aware_compa.Fluid.Compaction.Picked.{largest_lt}
use lsm_workload_aware_compa.Fluid.Printing.{
  file_line, run_line, level_line, print_files, print_runs, print_levels, print_fluid_lsm,
}

-- A line of the listing.
pub data Line : Type 0 where
  of_level : ℕ → Line
  of_run : ℕ → Run → Line
  of_file : SstFileMetaData → Line

abbrev shown : Line → Text
shown (of_level i) = level_line i
shown (of_run j run) = run_line j run
shown (of_file file) = file_line file

unfoldable pub text_of : List Line → Text
text_of [] = []
text_of (line ∷ lines) = shown line ++ text_of lines

-- The files that the lines show.
unfoldable pub files_of : List Line → List SstFileMetaData
files_of [] = []
files_of (of_file file ∷ lines) = file ∷ files_of lines
files_of (of_level i ∷ lines) = files_of lines
files_of (of_run j run ∷ lines) = files_of lines

text_of-append : (ls ms : List Line) → text_of (ls ++ ms) ≡ text_of ls ++ text_of ms
unfolding text_of
text_of-append [] ms = refl
text_of-append (l ∷ ls) ms = rw (text_of-append ls ms) (sym (append_assoc (shown l) _ _))

files_of-append : (ls ms : List Line) → files_of (ls ++ ms) ≡ files_of ls ++ files_of ms
unfolding files_of
files_of-append [] ms = refl
files_of-append (of_file file ∷ ls) ms = ap (◌∷◌ file) (files_of-append ls ms)
files_of-append (of_level i ∷ ls) ms = files_of-append ls ms
files_of-append (of_run j run ∷ ls) ms = files_of-append ls ms

-- The lines of the files, of a level's runs, and of the levels.
file_lines : List SstFileMetaData → List Line
file_lines [] = []
file_lines (file ∷ files) = of_file file ∷ file_lines files

run_lines : ℕ → List Run → List Line
run_lines j [] = []
run_lines j (run ∷ runs) =
    (if is_empty run.files then [] else of_run j run ∷ file_lines run.files)
    ++ run_lines (suc j) runs

text_of-file_lines : (files : List SstFileMetaData) → text_of (file_lines files) ≡ print_files files
unfolding text_of file_lines print_files
text_of-file_lines [] = refl
text_of-file_lines (file ∷ files) = ap (◌++◌ (file_line file)) (text_of-file_lines files)

files_of-file_lines : (files : List SstFileMetaData) → files_of (file_lines files) ≡ files
unfolding files_of file_lines
files_of-file_lines [] = refl
files_of-file_lines (file ∷ files) = ap (◌∷◌ file) (files_of-file_lines files)

is_empty-nil : (files : List SstFileMetaData) → is_empty files ≡ true → files ≡ []
is_empty-nil [] h = refl
is_empty-nil (file ∷ files) h = cc

text_of-run_part :
    (j : ℕ) (run : Run)
    → text_of (if is_empty run.files then [] else of_run j run ∷ file_lines run.files)
      ≡ (if is_empty run.files then [] else run_line j run ++ print_files run.files)
unfolding text_of
text_of-run_part j run = elim (Bool-cases (is_empty run.files)) [
  | inl none_here ↦ rw none_here
  | inr some_here ↦ rw some_here (ap (◌++◌ (run_line j run)) (text_of-file_lines run.files))
]

text_of-run_lines : (j : ℕ) (runs : List Run) → text_of (run_lines j runs) ≡ print_runs j runs
unfolding run_lines print_runs
text_of-run_lines j [] = unfold text_of in refl
text_of-run_lines j (run ∷ runs) =
    text_of-append (if is_empty run.files then [] else of_run j run ∷ file_lines run.files) _
    ∙ ap (λ t. t ++ text_of (run_lines (suc j) runs)) (text_of-run_part j run)
    ∙ ap (◌++◌ _) (text_of-run_lines (suc j) runs)

files_of-run_part :
    (j : ℕ) (run : Run)
    → files_of (if is_empty run.files then [] else of_run j run ∷ file_lines run.files) ≡ run.files
unfolding files_of
files_of-run_part j run = elim (Bool-cases (is_empty run.files)) [
  | inl none_here ↦ rw none_here (sym (is_empty-nil run.files none_here))
  | inr some_here ↦ rw some_here (files_of-file_lines run.files)
]

files_of-run_lines : (j : ℕ) (runs : List Run) → files_of (run_lines j runs) ≡ run_files runs
unfolding run_lines run_files
files_of-run_lines j [] = unfold files_of in refl
files_of-run_lines j (run ∷ runs) =
    files_of-append (if is_empty run.files then [] else of_run j run ∷ file_lines run.files) _
    ∙ ap (λ fs. fs ++ files_of (run_lines (suc j) runs)) (files_of-run_part j run)
    ∙ ap (◌++◌ run.files) (files_of-run_lines (suc j) runs)

-- The lines of so many levels, the first of which has the given number.
level_lines : ℕ → ℕ → List LazyLevel → List Line
level_lines zero i ls = []
level_lines (suc rounds) i [] = []
level_lines (suc rounds) i (l ∷ ls) =
    (of_level i ∷ run_lines 0 l.runs) ++ level_lines rounds (suc i) ls

text_of-level_part :
    (i : ℕ) (l : LazyLevel)
    → text_of (of_level i ∷ run_lines 0 l.runs) ≡ level_line i ++ print_runs 0 l.runs
unfolding text_of
text_of-level_part i l = ap (◌++◌ (level_line i)) (text_of-run_lines 0 l.runs)

print_levels-text_of :
    (rounds i : ℕ) (ls rest : List LazyLevel)
    → drop i ls ≡ rest
    → rounds ≤ length rest
    → print_levels rounds i ls ≡ some (text_of (level_lines rounds i rest))
unfolding print_levels level_lines
print_levels-text_of zero i ls rest e h = unfold text_of in refl
print_levels-text_of (suc rounds) i ls [] e h = absurd (omega arith)
print_levels-text_of (suc rounds) i ls (l ∷ rest) e h = rw (get_elem?-drop i ls e) (
    rw (print_levels-text_of rounds (suc i) ls rest (drop-suc i ls e) (omega arith)) (
      ap some (
        ap (λ t. t ++ text_of (level_lines rounds (suc i) rest)) (sym (text_of-level_part i l))
        ∙ sym
            (text_of-append (of_level i ∷ run_lines 0 l.runs) (level_lines rounds (suc i) rest)))))

all_files_none :
    (ls : List LazyLevel) → ((j : ℕ) → run_files (runs_at ls j) ≡ []) → all_files ls ≡ []
unfolding all_files runs_at
all_files_none [] h = refl
all_files_none (l ∷ ls) h = rw (h 0) (all_files_none ls (λ j. h (suc j)))

files_of-level_lines :
    (rounds i : ℕ) (ls : List LazyLevel)
    → ((j : ℕ) → rounds ≤ j → run_files (runs_at ls j) ≡ [])
    → files_of (level_lines rounds i ls) ≡ all_files ls
unfolding level_lines files_of all_files runs_at
files_of-level_lines zero i ls h = sym (all_files_none ls (λ j. h j (omega arith)))
files_of-level_lines (suc rounds) i [] h = refl
files_of-level_lines (suc rounds) i (l ∷ ls) h =
    files_of-append (run_lines 0 l.runs) (level_lines rounds (suc i) ls)
    ∙ ap (λ fs. fs ++ files_of (level_lines rounds (suc i) ls)) (files_of-run_lines 0 l.runs)
    ∙ ap (◌++◌ (run_files l.runs))
        (files_of-level_lines rounds (suc i) ls (λ j p. h (suc j) (omega arith)))

-- On a view with levels the listing comes to its end. It is made of lines for levels, runs and files, and
-- though it skips the levels past the largest occupied one and the runs without files, the lines for
-- files show every file of the view once, in order.
pub print_fluid_lsm-files_of :
    (ls : List LazyLevel)
    → 0 < length ls
    → (lines : List Line) × (print_fluid_lsm ls ≡ some (text_of lines ++ newline))
      × (files_of lines ≡ all_files ls)
unfolding print_fluid_lsm
print_fluid_lsm-files_of ls some_levels =
    let g = get_largest_occupied_level ls in
    let largest = get_largest_occupied_level-IsLargest ls in
    (
      level_lines (suc g) 0 ls,
      rw (print_levels-text_of (suc g) 0 ls ls refl (largest_lt ls g some_levels largest)),
      files_of-level_lines (suc g) 0 ls (λ j past. largest.above j past),
    )
