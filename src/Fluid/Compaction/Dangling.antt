-- ===== src/Fluid/Compaction/Dangling.antt =====
-- Two threads at the levels of the tree (fluid_lsm.cc): BuildStructure holds lazy_levels_mutex_ from the
-- clearing of the levels to their rebuilding; what PickCompaction does behind its own BuildStructure, the
-- collecting and the reading of the pointers, is outside the mutex. A pointer is a triple of indices: it
-- leads nowhere while the levels are cleared, and what it would read in rebuilt ones is left out.
use lsm_workload_aware_compa.Prelude.{
  ℕ, zero, suc, ◌≡◌, refl, Bool, true, false, none, some, List, [], ◌∷◌, ◌++◌, Bool-cases, inl, inr,
  get_elem?,
}
use lsm_workload_aware_compa.Double.{DoubleOps}
use lsm_workload_aware_compa.Fluid.Structure.{
  SstFileMetaData, ColumnFamilyMetaData, Run, LazyLevel, clear_all, build_levels,
}
use lsm_workload_aware_compa.Fluid.Structure.Files.{run_files}
use lsm_workload_aware_compa.Fluid.Compaction.{
  FileRef, deref, run_refs, level_refs, add_files_to_compaction, add_ref_sizes, get_compaction_size,
  take_files,
}
use lsm_workload_aware_compa.Fluid.Compaction.Refs.{idle_files}

-- The levels, whether their mutex is held, and the pointers that a first thread holds in PickCompaction.
pub record Sharing : Type 0 where
  pub lazy_levels : List LazyLevel
  pub lazy_levels_mutex : Bool
  pub input_files : List FileRef

-- The first thread collects the pointers to the idle files of a level, whoever holds the mutex. A second
-- one is in BuildStructure: it takes the mutex and clears the levels, and then rebuilds them and lets go.
pub data SharingStep (fp : DoubleOps) (k : ℕ) (s : Sharing) : Sharing → Type 0 where
  collects :
      (lvl : ℕ) (refs : List FileRef)
      → add_files_to_compaction s.lazy_levels lvl [] ≡ some refs
      → SharingStep fp k s (record s { input_files = refs })
  clears :
      s.lazy_levels_mutex ≡ false
      → SharingStep fp k s
          (record s { lazy_levels = clear_all s.lazy_levels; lazy_levels_mutex = true })
  rebuilds :
      (cf_meta : ColumnFamilyMetaData) (ls : List LazyLevel)
      → s.lazy_levels_mutex ≡ true
      → build_levels fp k cf_meta s.lazy_levels ≡ some ls
      → SharingStep fp k s (record s { lazy_levels = ls; lazy_levels_mutex = false })

pub data SharingReach (fp : DoubleOps) (k : ℕ) (s : Sharing) : Sharing → Type 0 where
  begins : SharingReach fp k s s
  goes_on : {t u : Sharing} → SharingReach fp k s t → SharingStep fp k t u → SharingReach fp k s u

deref-clear_all :
    (ls : List LazyLevel) (lvl run file : ℕ)
    → deref (clear_all ls) (record { lvl = lvl; run = run; file = file }) ≡ none
unfolding deref clear_all
deref-clear_all [] lvl run file = refl
deref-clear_all (l ∷ ls) zero run file = refl
deref-clear_all (l ∷ ls) (suc lvl) run file = deref-clear_all ls lvl run file

-- There is a first pointer.
HasRef : List FileRef → Type 0
HasRef refs = (r : FileRef) × (rest : List FileRef) × (refs ≡ r ∷ rest)

run_refs-HasRef :
    (lvl run i : ℕ) (fs more : List SstFileMetaData) (rest : List FileRef) (f : SstFileMetaData)
    (gs : List SstFileMetaData)
    → idle_files (fs ++ more) ≡ f ∷ gs
    → (idle_files more ≡ f ∷ gs → HasRef rest)
    → HasRef (run_refs lvl run i fs ++ rest)
unfolding HasRef run_refs idle_files
run_refs-HasRef lvl run i [] more rest f gs h later = later h
run_refs-HasRef lvl run i (x ∷ fs) more rest f gs h later = elim (Bool-cases x.being_compacted) [
  | inl busy ↦ rw busy (run_refs-HasRef lvl run (suc i) fs more rest f gs (rw busy at h) later)
  | inr idle ↦ rw idle (_, _, refl)
]

level_refs-HasRef :
    (lvl i : ℕ) (rs : List Run) (f : SstFileMetaData) (gs : List SstFileMetaData)
    → idle_files (run_files rs) ≡ f ∷ gs
    → HasRef (level_refs lvl i rs)
unfolding level_refs run_files
level_refs-HasRef lvl i [] f gs h = unfold idle_files in cc
level_refs-HasRef lvl i (r ∷ rs) f gs h =
    run_refs-HasRef lvl i 0 r.files (run_files rs) (level_refs lvl (suc i) rs) f gs h
      (λ later. level_refs-HasRef lvl (suc i) rs f gs later)

level_refs-dangle :
    (ls : List LazyLevel) (lvl : ℕ) (l : LazyLevel) (f : SstFileMetaData)
    (gs : List SstFileMetaData)
    → idle_files (run_files l.runs) ≡ f ∷ gs
    → (get_compaction_size (clear_all ls) (level_refs lvl 0 l.runs) ≡ none)
      × (take_files (clear_all ls) (level_refs lvl 0 l.runs) ≡ none)
unfolding get_compaction_size add_ref_sizes take_files HasRef
level_refs-dangle ls lvl l f gs h =
    let (r, rest, e) = level_refs-HasRef lvl 0 l.runs f gs h in
    let nowhere : deref (clear_all ls) r ≡ none = deref-clear_all ls r.lvl r.run r.file in
    (rw e (rw nowhere refl), rw e (rw nowhere refl))

-- From any levels one of which has an idle file, with the mutex free: one thread can collect the pointers to
-- the idle files of that level, and a second one, in BuildStructure, clear the levels, so that the pointers
-- lead nowhere. Both the sum of the sizes and the collection of the names, which come next in
-- PickCompaction, fault then.
pub SharingReach-dangling :
    (fp : DoubleOps) (k : ℕ) (s : Sharing) (lvl : ℕ) (l : LazyLevel) (f : SstFileMetaData)
    (gs : List SstFileMetaData)
    → s.lazy_levels_mutex ≡ false
    → get_elem? s.lazy_levels lvl ≡ some l
    → idle_files (run_files l.runs) ≡ f ∷ gs
    → (t : Sharing) × SharingReach fp k s t
      × (t.input_files ≡ level_refs lvl 0 l.runs)
      × (get_compaction_size t.lazy_levels t.input_files ≡ none)
      × (take_files t.lazy_levels t.input_files ≡ none)
unfolding add_files_to_compaction
SharingReach-dangling fp k s lvl l f gs free at h =
    let (sizes, names) = level_refs-dangle s.lazy_levels lvl l f gs h in
    (
      record {
        lazy_levels = clear_all s.lazy_levels;
        lazy_levels_mutex = true;
        input_files = level_refs lvl 0 l.runs;
      },
      goes_on (goes_on begins (collects lvl (level_refs lvl 0 l.runs) (rw at refl))) (clears free),
      refl,
      sizes,
      names,
    )
