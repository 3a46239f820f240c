-- ===== src/Fluid/Structure/Live.antt =====
-- The sorted runs of the database as its metadata shows them, by fluid level, and NumLiveRuns of the view.
use native.Mathlib.Nat.{div-le_self}
use lsm_workload_aware_compa.Prelude.{
  ℕ, zero, suc, ◌+◌, ◌/◌, ◌<◌, ◌≡◌, refl, sym, ap, ◌∙◌, false, not, ◌&&◌, List, [], ◌∷◌, ◌++◌, All,
  arith, bit, is_empty, length, if◌then◌else◌, ◌==◌, Bool-cases, inl, inr, some, modify,
  length-modify,
}
use lsm_workload_aware_compa.Double.{DoubleOps, IsExact}
use lsm_workload_aware_compa.Fluid.Structure.{
  SstFileMetaData, LevelMetaData, ColumnFamilyMetaData, Run, LazyLevel, any_being_compacted,
  count_live_runs, new_run, add_files, add_run, clear_all, build_levels,
}
use lsm_workload_aware_compa.Fluid.Structure.Bands.{band, band-round, band-zero, band-one}
use lsm_workload_aware_compa.Fluid.Structure.Placing.{
  IsNumbered, run_of, add_files-files, run_of-files, place,
}
use lsm_workload_aware_compa.Fluid.Structure.Slots.{runs_at, runs_at-modify_self, runs_at-modify_ne}
use lsm_workload_aware_compa.Fluid.Structure.Built.{
  IsReadable, built, base_runs, empties, singles, padding, build_levels-eq-built, head_level,
  length-clear_all,
}

-- No file is being compacted.
abbrev pub AreIdle : List SstFileMetaData → Type 0
AreIdle fs = All (λ (f : SstFileMetaData). f.being_compacted ≡ false) fs

abbrev pub IsIdle : ColumnFamilyMetaData → Type 0
IsIdle m = All (λ (lv : LevelMetaData). AreIdle lv.files) m

-- The sorted runs of a RocksDB level: each file of level 0 is one, any other level is one if it has files.
abbrev pub level_live : LevelMetaData → ℕ
level_live lv = if lv.level == 0 then length lv.files else bit (not (is_empty lv.files))

unfoldable pub live_runs : ColumnFamilyMetaData → ℕ
live_runs [] = 0
live_runs (lv ∷ lvs) = level_live lv + live_runs lvs

-- Those of the levels that make up one fluid level.
unfoldable pub live_in : ℕ → ℕ → ColumnFamilyMetaData → ℕ
live_in k f [] = 0
live_in k f (lv ∷ lvs) = (if band k lv.level == f then level_live lv else 0) + live_in k f lvs

count_live_runs_add : (n : ℕ) (rs : List Run) → count_live_runs n rs ≡ n + count_live_runs 0 rs
unfolding count_live_runs
count_live_runs_add n [] = omega arith
count_live_runs_add n (r ∷ rs) =
    let b = bit (not (any_being_compacted false r.files) && not (is_empty r.files)) in
    omega (arith, count_live_runs_add (n + b) rs, count_live_runs_add (0 + b) rs)

count_live_runs-append :
    (rs ss : List Run) → count_live_runs 0 (rs ++ ss) ≡ count_live_runs 0 rs + count_live_runs 0 ss
unfolding count_live_runs
count_live_runs-append [] ss = omega arith
count_live_runs-append (r ∷ rs) ss =
    let b = bit (not (any_being_compacted false r.files) && not (is_empty r.files)) in
    omega (
      arith,
      count_live_runs_add (0 + b) (rs ++ ss),
      count_live_runs_add (0 + b) rs,
      count_live_runs-append rs ss,
    )

any_idle : (fs : List SstFileMetaData) → AreIdle fs → any_being_compacted false fs ≡ false
unfolding any_being_compacted
any_idle [] h = refl
any_idle (f ∷ fs) h = rw (h.0) (any_idle fs h.1)

-- One run without a file that is being compacted.
count_live_run :
    (r : Run) (fs : List SstFileMetaData)
    → r.files ≡ fs
    → AreIdle fs
    → count_live_runs 0 (r ∷ []) ≡ bit (not (is_empty fs))
unfolding count_live_runs
count_live_run r fs e idle = rw (e, any_idle fs idle) (omega arith)

level_live_deep :
    (lv : LevelMetaData) (n : ℕ) → lv.level ≡ suc n → level_live lv ≡ bit (not (is_empty lv.files))
level_live_deep lv n e = ground arith

live_run_of :
    (lv : LevelMetaData) (n : ℕ)
    → lv.level ≡ suc n
    → AreIdle lv.files
    → count_live_runs 0 (run_of lv ∷ []) ≡ level_live lv
live_run_of lv n e idle =
    count_live_run (run_of lv) lv.files (run_of-files lv) idle ∙ sym (level_live_deep lv n e)

-- One more level placed.
live_modify :
    (g f : ℕ) (lv : LevelMetaData) (ls : List LazyLevel) (n : ℕ)
    → lv.level ≡ suc n
    → AreIdle lv.files
    → g < length ls
    → count_live_runs 0 (runs_at (modify ls g (add_run (run_of lv))) f)
      ≡ count_live_runs 0 (runs_at ls f) + (if g == f then level_live lv else 0)
live_modify g f lv ls n e idle below = elim (Bool-cases (g == f)) [
  | inl hit ↦
      let same : g ≡ f = ground arith in
      rw hit (
        rw (← same) (
          rw (runs_at-modify_self ls g (run_of lv) below) (
            count_live_runs-append (runs_at ls g) (run_of lv ∷ [])
            ∙ ap (◌+◌ (count_live_runs 0 (runs_at ls g))) (live_run_of lv n e idle))))
  | inr miss ↦ rw (miss, runs_at-modify_ne ls g f (run_of lv) miss) (omega arith)
]

live_place :
    (k n f : ℕ) (lvs : List LevelMetaData) (ls : List LazyLevel)
    → IsNumbered (suc (suc n)) lvs
    → IsIdle lvs
    → n + 1 + length lvs < length ls
    → count_live_runs 0 (runs_at (place k n lvs ls) f)
      ≡ count_live_runs 0 (runs_at ls f) + live_in k f lvs
unfolding place live_in
live_place k n f [] ls numbered idle room = omega arith
live_place k n f (lv ∷ lvs) ls numbered idle room =
    let g = suc (n / (k + 1)) in
    let at : band k lv.level ≡ g = ap (band k) (numbered.0 ∙ omega arith) ∙ band-round k n in
    rw at (
      omega (
        arith,
        live_place k (suc n) f lvs (modify ls g (add_run (run_of lv))) numbered.1 idle.1
            (omega (arith, length-modify ls g (add_run (run_of lv)))),
        live_modify g f lv ls (suc n) numbered.0 idle.0 (omega (arith, div-le_self n (k + 1))),
      ))

live_empties : (n : ℕ) → count_live_runs 0 (empties n) ≡ 0
unfolding count_live_runs empties any_being_compacted
live_empties zero = refl
live_empties (suc n) = live_empties n

live_singles : (fs : List SstFileMetaData) → AreIdle fs → count_live_runs 0 (singles fs) ≡ length fs
unfolding singles
live_singles [] idle = unfold count_live_runs in refl
live_singles (f ∷ fs) idle =
    count_live_runs-append (add_files (new_run 0) (f ∷ []) ∷ []) (singles fs)
    ∙ omega (
      arith,
      count_live_run (add_files (new_run 0) (f ∷ [])) (f ∷ [])
          (add_files-files (new_run 0) (f ∷ [])) (idle.0, tt),
      live_singles fs idle.1,
    )

live_base_runs :
    (k : ℕ) (l0 l1 : LevelMetaData)
    → l0.level ≡ 0
    → l1.level ≡ 1
    → AreIdle l0.files
    → AreIdle l1.files
    → count_live_runs 0 (base_runs k l0 l1) ≡ level_live l0 + level_live l1
unfolding base_runs
live_base_runs k l0 l1 e0 e1 idle0 idle1 =
    rw (e0, e1)
      (omega (
        arith,
        count_live_runs-append (empties (padding k l0 l1) ++ singles l0.files)
            (add_files (new_run 1) l1.files ∷ []),
        count_live_runs-append (empties (padding k l0 l1)) (singles l0.files),
        live_empties (padding k l0 l1),
        live_singles l0.files idle0,
        count_live_run (add_files (new_run 1) l1.files) l1.files
            (add_files-files (new_run 1) l1.files) idle1,
      ))

live_clear : (ls : List LazyLevel) (f : ℕ) → count_live_runs 0 (runs_at (clear_all ls) f) ≡ 0
unfolding runs_at clear_all count_live_runs
live_clear [] f = refl
live_clear (l ∷ ls) zero = refl
live_clear (l ∷ ls) (suc f) = live_clear ls f

live_head :
    (rs : List Run) (ls : List LazyLevel) (f : ℕ)
    → count_live_runs 0 (runs_at (head_level rs (clear_all ls)) f)
      ≡ (if 0 == f then count_live_runs 0 rs else 0)
unfolding runs_at
live_head rs ls zero = refl
live_head rs ls (suc f) = live_clear ls f ∙ ground arith

module _ (fp : DoubleOps) (e : IsExact fp) (k : ℕ) where
  -- In the view of metadata without a running compaction, the live runs of a fluid level are the sorted
  -- runs of its band.
  pub live_runs_at :
      (cf_meta : ColumnFamilyMetaData) (ls ls' : List LazyLevel) (f : ℕ)
      → IsReadable k cf_meta ls
      → IsIdle cf_meta
      → build_levels fp k cf_meta ls ≡ some ls'
      → count_live_runs 0 (runs_at ls' f) ≡ live_in k f cf_meta
  unfolding built live_in
  live_runs_at [] ls ls' f h idle b = absurd (omega (arith, h.two_levels))
  live_runs_at (x ∷ []) ls ls' f h idle b = absurd (omega (arith, h.two_levels))
  live_runs_at (l0 ∷ l1 ∷ deeper) [] ls' f h idle b = absurd (omega (arith, h.room))
  live_runs_at (l0 ∷ l1 ∷ deeper) (l ∷ ls) ls' f h idle b =
      let same : built k l0 l1 deeper ls ≡ ls' =
        cc (build_levels-eq-built fp e k l0 l1 deeper l ls h) in
      let zero_at : band k l0.level ≡ 0 = ap (band k) h.numbered.0 ∙ band-zero k in
      let one_at : band k l1.level ≡ 0 = ap (band k) h.numbered.1.0 ∙ band-one k in
      let placed =
        live_place k 0 f deeper (head_level (base_runs k l0 l1) (clear_all ls)) h.numbered.1.1
          idle.1.1 (omega (arith, h.room, length-clear_all ls)) in
      let based = live_base_runs k l0 l1 h.numbered.0 h.numbered.1.0 idle.0 idle.1.0 in
      let headed = live_head (base_runs k l0 l1) ls f in
      rw (← same) (
        rw (zero_at, one_at)
          (elim (Bool-cases (0 == f)) [
            | inl here ↦ rw here (omega (arith, placed, based, (rw here at headed)))
            | inr past ↦ rw past (omega (arith, placed, (rw past at headed)))
          ]))
