-- ===== src/Fluid/Structure/Counts.antt =====
-- What the loops of NumLiveRuns, SizeInBytes and GetLargestOccupiedLevel compute.
use mathlib.Core.List.{filter, cons≢nil}
use mathlib.Core.Logic.{if_pos, if_neg}
use lsm_workload_aware_compa.Prelude.{
  ℕ, zero, suc, ◌+◌, ◌%◌, ◌^◌, ◌<◌, ◌≡◌, ◌≢◌, ◌⊎◌, inl, inr, refl, sym, ap, ◌∙◌, Bool, true, false,
  not, ◌&&◌, List, [], ◌∷◌, ◌++◌, All, arith, bit, is_empty, length, Bool-cases, if◌then◌else◌, ltb,
  lt→ltb,
}
use lsm_workload_aware_compa.Prelude.Int.{pos}
use lsm_workload_aware_compa.Fluid.Structure.{
  SstFileMetaData, Run, LazyLevel, any_being_compacted, count_live_runs, num_live_runs, add_sizes,
  add_run_sizes, size_in_bytes, occupied_by, largest_from, get_largest_occupied_level,
}
use lsm_workload_aware_compa.Fluid.Structure.Slots.{runs_at}
use lsm_workload_aware_compa.Fluid.Structure.Files.{run_files}

-- A live run holds files, and none of them is being compacted.
abbrev pub IsLive : Run → Type 0
IsLive r = (r.files ≢ []) × All (λ (f : SstFileMetaData). f.being_compacted ≡ false) r.files

any_true : (files : List SstFileMetaData) → any_being_compacted true files ≡ true
unfolding any_being_compacted
any_true [] = refl
any_true (f ∷ fs) = any_true fs

any_All :
    (files : List SstFileMetaData)
    → any_being_compacted false files ≡ false
    → All (λ (f : SstFileMetaData). f.being_compacted ≡ false) files
unfolding any_being_compacted
any_All [] h = tt
any_All (f ∷ fs) h = ground (arith, any_true fs, any_All fs)

All-any_being_compacted :
    (files : List SstFileMetaData)
    → All (λ (f : SstFileMetaData). f.being_compacted ≡ false) files
    → any_being_compacted false files ≡ false
unfolding any_being_compacted
All-any_being_compacted [] h = refl
All-any_being_compacted (f ∷ fs) h = rw (h.0) (All-any_being_compacted fs h.1)

dec_live_at :
    (r : Run) (b : Bool)
    → any_being_compacted false r.files ≡ b
    → (fs : List SstFileMetaData) → r.files ≡ fs
    → Dec (IsLive r)
dec_live_at r b e [] h = no (λ l. l.0 h)
dec_live_at r true e (f ∷ fs) h = no (λ l. cc (All-any_being_compacted r.files l.1))
dec_live_at r false e (f ∷ fs) h = yes (λ p. cons≢nil (sym h ∙ p), any_All r.files e)

pub dec_live : (r : Run) → Dec (IsLive r)
dec_live r = dec_live_at r (any_being_compacted false r.files) refl r.files refl

is_empty_ne : (fs : List SstFileMetaData) → fs ≢ [] → is_empty fs ≡ false
is_empty_ne [] h = absurd (h refl)
is_empty_ne (f ∷ fs) h = refl

ne_is_empty : (fs : List SstFileMetaData) → is_empty fs ≡ false → fs ≢ []
ne_is_empty [] h = cc
ne_is_empty (f ∷ fs) h = cons≢nil

abbrev live_bit : Run → ℕ
live_bit r = bit (not (any_being_compacted false r.files) && not (is_empty r.files))

live_bit_one : (r : Run) → IsLive r → live_bit r ≡ 1
live_bit_one r h = rw (All-any_being_compacted r.files h.1, is_empty_ne r.files h.0)

live_bit_zero : (r : Run) → ¬ IsLive r → live_bit r ≡ 0
live_bit_zero r h = elim (Bool-cases (any_being_compacted false r.files)) [
  | inl busy ↦ rw busy
  | inr idle ↦ elim (Bool-cases (is_empty r.files)) [
    | inl none_left ↦ rw (idle, none_left)
    | inr some_left ↦ absurd (h (ne_is_empty r.files some_left, any_All r.files idle))
  ]
]

count_live_runs-eq :
    (n : ℕ) (rs : List Run) → count_live_runs n rs ≡ n + length (filter dec_live rs)
unfolding count_live_runs
count_live_runs-eq n [] = omega arith
count_live_runs-eq n (r ∷ rs) = elim (dec_live r) [
  | yes h ↦ rw (live_bit_one r h, if_pos _ h) (omega (arith, count_live_runs-eq (n + 1) rs))
  | no h ↦ rw (live_bit_zero r h, if_neg _ h) (omega (arith, count_live_runs-eq (n + 0) rs))
]

-- NumLiveRuns counts the live runs.
pub num_live_runs-length : (l : LazyLevel) → num_live_runs l ≡ length (filter dec_live l.runs)
unfolding num_live_runs
num_live_runs-length l = count_live_runs-eq 0 l.runs ∙ omega arith

unfoldable pub total_size : List SstFileMetaData → ℕ
total_size [] = 0
total_size (f ∷ fs) = f.size + total_size fs

pub add_sizes-eq :
    (n : ℕ) (fs : List SstFileMetaData) → n < 2 ^ 64 → add_sizes n fs ≡ (n + total_size fs) % 2 ^ 64
unfolding add_sizes total_size
add_sizes-eq n [] h = omega arith
add_sizes-eq n (f ∷ fs) h = omega (arith, add_sizes-eq ((n + f.size) % 2 ^ 64) fs (omega arith))

total_size-append :
    (fs gs : List SstFileMetaData) → total_size (fs ++ gs) ≡ total_size fs + total_size gs
unfolding total_size
total_size-append [] gs = omega arith
total_size-append (f ∷ fs) gs = omega (arith, total_size-append fs gs)

add_run_sizes-eq :
    (n : ℕ) (rs : List Run)
    → n < 2 ^ 64
    → add_run_sizes n rs ≡ (n + total_size (run_files rs)) % 2 ^ 64
unfolding add_run_sizes run_files total_size
add_run_sizes-eq n [] h = omega arith
add_run_sizes-eq n (r ∷ rs) h = omega (
  arith,
  add_run_sizes-eq ((n + total_size r.files) % 2 ^ 64) rs (omega arith),
  ap (λ m. add_run_sizes m rs) (add_sizes-eq n r.files h),
  total_size-append r.files (run_files rs),
)

-- SizeInBytes is the sum of the sizes of the level's files, if that is below 2 ^ 63.
size_in_bytes-total_size :
    (l : LazyLevel)
    → total_size (run_files l.runs) < 2 ^ 63
    → size_in_bytes l ≡ pos (total_size (run_files l.runs))
unfolding size_in_bytes
size_in_bytes-total_size l h = ground (arith, add_run_sizes-eq 0 l.runs)

-- No level has files past the largest occupied one, and that one has some if any has.
pub record IsLargest (ls : List LazyLevel) (g : ℕ) : Type 0 where
  pub above : (i : ℕ) → g < i → run_files (runs_at ls i) ≡ []
  pub here : (run_files (runs_at ls g) ≢ []) ⊎ ((g ≡ 0) × (run_files (runs_at ls 0) ≡ []))

abbrev OccupiedBy : ℕ → ℕ → List Run → ℕ → Type 0
OccupiedBy lvl largest rs g =
    ((run_files rs ≡ []) × (g ≡ largest)) ⊎ ((run_files rs ≢ []) × (g ≡ lvl))

occupied_step :
    (lvl largest : ℕ) (fs : List SstFileMetaData) (rs : List Run)
    → OccupiedBy lvl largest rs (occupied_by lvl largest rs)
    → OccupiedBy lvl lvl rs (occupied_by lvl lvl rs)
    → let g = occupied_by lvl (if ltb 0 (length fs) then lvl else largest) rs in
      ((fs ++ run_files rs ≡ []) × (g ≡ largest)) ⊎ ((fs ++ run_files rs ≢ []) × (g ≡ lvl))
occupied_step lvl largest [] rs kept reset = kept
occupied_step lvl largest (f ∷ fs) rs kept reset =
    rw (lt→ltb 0 (suc (length fs)) (omega arith)) (inr (cons≢nil, ground arith))

occupied_by_cases :
    (lvl largest : ℕ) (rs : List Run) → OccupiedBy lvl largest rs (occupied_by lvl largest rs)
unfolding occupied_by run_files
occupied_by_cases lvl largest [] = inl (refl, refl)
occupied_by_cases lvl largest (r ∷ rs) =
    occupied_step lvl largest r.files rs (occupied_by_cases lvl largest rs)
      (occupied_by_cases lvl lvl rs)

-- Either no level of the list is occupied, or the result is the last that is.
abbrev LargestOf : ℕ → ℕ → List LazyLevel → ℕ → Type 0
LargestOf lvl largest ls g =
    (((i : ℕ) → run_files (runs_at ls i) ≡ []) × (g ≡ largest))
    ⊎ ((i : ℕ) × (g ≡ lvl + i)
        × (run_files (runs_at ls i) ≢ [])
        × ((j : ℕ) → i < j → run_files (runs_at ls j) ≡ []))

largest_step :
    (lvl largest largest' g : ℕ) (l : LazyLevel) (ls : List LazyLevel)
    → OccupiedBy lvl largest l.runs largest'
    → LargestOf (lvl + 1) largest' ls g
    → LargestOf lvl largest (l ∷ ls) g
unfolding runs_at
largest_step lvl largest largest' g l ls (inl (none_here, kept)) (inl (clear, e)) =
    inl (λ i. at i, e ∙ kept)
  where
    at : (i : ℕ) → run_files (runs_at (l ∷ ls) i) ≡ []
    at zero = none_here
    at (suc i) = clear i
largest_step lvl largest largest' g l ls (inr (some_here, set)) (inl (clear, e)) =
    inr (0, omega arith, some_here, past)
  where
    past : (j : ℕ) → 0 < j → run_files (runs_at (l ∷ ls) j) ≡ []
    past zero h = absurd (omega arith)
    past (suc j) h = clear j
largest_step lvl largest largest' g l ls o (inr (i, e, occupied, clear)) =
    inr (suc i, omega arith, occupied, past)
  where
    past : (j : ℕ) → suc i < j → run_files (runs_at (l ∷ ls) j) ≡ []
    past zero h = absurd (omega arith)
    past (suc j) h = clear j (omega arith)

largest_from_cases :
    (lvl largest : ℕ) (ls : List LazyLevel) → LargestOf lvl largest ls (largest_from lvl largest ls)
unfolding largest_from runs_at run_files
largest_from_cases lvl largest [] = inl (λ i. refl, refl)
largest_from_cases lvl largest (l ∷ ls) =
    largest_step lvl largest (occupied_by lvl largest l.runs) _ l ls
      (occupied_by_cases lvl largest l.runs)
      (largest_from_cases (lvl + 1) (occupied_by lvl largest l.runs) ls)

-- GetLargestOccupiedLevel returns the last level with files, or 0 if there is none.
pub get_largest_occupied_level-IsLargest :
    (ls : List LazyLevel) → IsLargest ls (get_largest_occupied_level ls)
unfolding get_largest_occupied_level
get_largest_occupied_level-IsLargest ls = go (largest_from 0 0 ls) (largest_from_cases 0 0 ls)
  where
    go : (g : ℕ) → LargestOf 0 0 ls g → IsLargest ls g
    go g (inl (clear, e)) = record { above = λ i h. clear i; here = inr (e, clear 0) }
    go g (inr (i, e, occupied, clear)) =
        let same : g ≡ i = omega arith in
        record { above = λ j h. clear j (omega arith); here = inl (rw same occupied) }
