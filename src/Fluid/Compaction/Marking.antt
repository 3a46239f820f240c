-- ===== src/Fluid/Compaction/Marking.antt =====
-- What ScheduleCompaction does through the pointers that AddFilesToCompaction collects: it takes the
-- names of the level's idle files and marks them, and leaves the rest of the view alone.
use mathlib.Core.List.{filter}
use mathlib.Core.Logic.{if_neg}
use lsm_workload_aware_compa.Prelude.{
  All, length, ℕ, suc, ◌≡◌, refl, sym, ap, ◌∙◌, ◌≢◌, String, true, false, Option, inl, inr, some,
  none, List, [], ◌∷◌, ◌++◌, append_assoc, Bool-cases, ◌>>=◌, get_elem?, modify, drop, map_from,
  drop-suc, modify-modify, map_from-modify, map_from_fixed, map_from_end, get_elem?-modify_ne,
}
use lsm_workload_aware_compa.Fluid.Structure.{SstFileMetaData, Run, LazyLevel, num_live_runs}
use lsm_workload_aware_compa.Fluid.Structure.Slots.{runs_at}
use lsm_workload_aware_compa.Fluid.Structure.Files.{run_files}
use lsm_workload_aware_compa.Fluid.Structure.Counts.{dec_live, num_live_runs-length}
use lsm_workload_aware_compa.Fluid.Compaction.{
  FileRef, set_being_compacted, mark, run_refs, level_refs, take_files,
}
use lsm_workload_aware_compa.Fluid.Compaction.Refs.{
  idle_files, names, files_in, with_files, change_runs, change_files, deref-drop,
  change_files_congr, change_files_id, change_files_twice, change_runs_congr, change_runs_id,
  drop-change_runs, files_in-drop, drop-change_files, runs_at-change_runs, get_elem?-runs_at,
}

busy_fixed : (f : SstFileMetaData) → f.being_compacted ≡ true → set_being_compacted f ≡ f
busy_fixed f h = λ i. record f { being_compacted = sym h i }

abbrev add_names :
    List String → Option (List String × List LazyLevel) → Option (List String × List LazyLevel)
add_names ns none = none
add_names ns (some (ms, ls)) = some (ns ++ ms, ls)

add_names_nil : (o : Option (List String × List LazyLevel)) → add_names [] o ≡ o
add_names_nil none = refl
add_names_nil (some (ms, ls)) = refl

add_names_append :
    (ns ms : List String) (o : Option (List String × List LazyLevel))
    → add_names ns (add_names ms o) ≡ add_names (ns ++ ms) o
add_names_append ns ms none = refl
add_names_append ns ms (some (ps, ls)) = ap (λ qs. some (qs, ls)) (sym (append_assoc ns ms ps))

add_name :
    (n : String) (ns : List String) (o : Option (List String × List LazyLevel))
    → (add_names ns o >>= λ rest. some (n ∷ rest.0, rest.1)) ≡ add_names (n ∷ ns) o
add_name n ns none = refl
add_name n ns (some (ms, ls)) = refl

-- A file that is followed is marked, and gives its name.
take_one :
    (ls : List LazyLevel) (lvl run i : ℕ) (refs : List FileRef) {f : SstFileMetaData}
    {fs : List SstFileMetaData}
    → drop i (files_in (runs_at ls lvl) run) ≡ f ∷ fs
    → take_files ls (record { lvl = lvl; run = run; file = i } ∷ refs) ≡ (
        take_files (change_files ls lvl run (λ gs. modify gs i set_being_compacted)) refs
        >>= λ rest. some (f.name ∷ rest.0, rest.1))
unfolding take_files mark
take_one ls lvl run i refs h = rw (deref-drop ls lvl run i h)

-- The pointers into one run, followed by others.
take_run :
    (ls : List LazyLevel) (lvl run i : ℕ) (fs : List SstFileMetaData) (rest : List FileRef)
    → drop i (files_in (runs_at ls lvl) run) ≡ fs
    → take_files ls (run_refs lvl run i fs ++ rest)
      ≡ add_names
          (names (idle_files fs))
          (take_files (change_files ls lvl run (map_from i set_being_compacted)) rest)
unfolding run_refs names idle_files
take_run ls lvl run i [] rest h =
    ap (λ ms. take_files ms rest)
      (sym (change_files_id ls lvl run (map_from i set_being_compacted) (map_from_end i _ _ h)))
    ∙ sym (add_names_nil _)
take_run ls lvl run i (f ∷ fs) rest h = elim (Bool-cases f.being_compacted) [
  | inl busy ↦ rw busy (
      take_run ls lvl run (suc i) fs rest (drop-suc i _ h)
      ∙ ap (λ ms. add_names (names (idle_files fs)) (take_files ms rest))
          (change_files_congr ls lvl run _ _ (map_from_fixed i _ _ h (busy_fixed f busy))))
  | inr idle ↦
      let marked = change_files ls lvl run (λ gs. modify gs i set_being_compacted) in
      rw idle (
        take_one ls lvl run i (run_refs lvl run (suc i) fs ++ rest) h
        ∙ ap (λ o. o >>= λ more. some (f.name ∷ more.0, more.1))
            (take_run marked lvl run (suc i) fs rest (drop-change_files ls lvl run i h))
        ∙ add_name f.name (names (idle_files fs)) _
        ∙ ap (λ ms. add_names (f.name ∷ names (idle_files fs)) (take_files ms rest))
            (change_files_twice ls lvl run _ _
              ∙ change_files_congr ls lvl run _ _ (map_from-modify i set_being_compacted _)))
]

-- Every file of a run marked; every run of a level from an index on.
abbrev mark_run : Run → Run
mark_run = with_files (map_from 0 set_being_compacted)

names-append :
    (fs gs : List SstFileMetaData)
    → names (idle_files (fs ++ gs)) ≡ names (idle_files fs) ++ names (idle_files gs)
unfolding names idle_files
names-append [] gs = refl
names-append (f ∷ fs) gs = elim (Bool-cases f.being_compacted) [
  | inl busy ↦ rw busy (names-append fs gs)
  | inr idle ↦ rw idle (ap (◌∷◌ f.name) (names-append fs gs))
]

take_level_end :
    (ls : List LazyLevel) (lvl i : ℕ)
    → drop i (runs_at ls lvl) ≡ []
    → take_files ls (level_refs lvl i [])
      ≡ some (names (idle_files (run_files [])), change_runs ls lvl (map_from i mark_run))
unfolding level_refs take_files run_files names idle_files
take_level_end ls lvl i h =
    ap (λ ms. some ([], ms)) (sym (change_runs_id ls lvl _ (map_from_end i mark_run _ h)))

-- The pointers into the runs of a level, from a run on.
take_level :
    (ls : List LazyLevel) (lvl i : ℕ) (rs : List Run)
    → drop i (runs_at ls lvl) ≡ rs
    → take_files ls (level_refs lvl i rs)
      ≡ some (names (idle_files (run_files rs)), change_runs ls lvl (map_from i mark_run))
unfolding level_refs run_files
take_level ls lvl i [] h = take_level_end ls lvl i h
take_level ls lvl i (r ∷ rs) h =
    let marked = change_runs ls lvl (λ qs. modify qs i mark_run) in
    take_run ls lvl i 0 r.files (level_refs lvl (suc i) rs) (files_in-drop (runs_at ls lvl) i h)
    ∙ ap (add_names (names (idle_files r.files)))
        (take_level marked lvl (suc i) rs (drop-change_runs ls lvl i mark_run h))
    ∙ ap (λ ns. some (ns, change_runs marked lvl (map_from (suc i) mark_run)))
        (sym (names-append r.files (run_files rs)))
    ∙ ap (λ ms. some (names (idle_files (r.files ++ run_files rs)), ms))
        (modify-modify ls lvl _ _
          ∙ change_runs_congr ls lvl (λ qs. map_from (suc i) mark_run (modify qs i mark_run))
              (map_from i mark_run) (map_from-modify i mark_run (runs_at ls lvl)))

-- The view with every file of one level marked.
unfoldable pub mark_level : List LazyLevel → ℕ → List LazyLevel
mark_level ls lvl = change_runs ls lvl (map_from 0 mark_run)

-- Following the pointers into a level of the view never fails. It yields the names of the level's idle
-- files, in order, and leaves the view in which every file of that level is marked and nothing else is
-- changed.
pub take_files-level_refs :
    (ls : List LazyLevel) (lvl : ℕ) (l : LazyLevel)
    → get_elem? ls lvl ≡ some l
    → take_files ls (level_refs lvl 0 l.runs)
      ≡ some (names (idle_files (run_files l.runs)), mark_level ls lvl)
unfolding mark_level
take_files-level_refs ls lvl l h = take_level ls lvl 0 l.runs (get_elem?-runs_at ls lvl h)

pub runs_at-mark_level_self :
    (ls : List LazyLevel) (lvl : ℕ)
    → runs_at (mark_level ls lvl) lvl ≡ map_from 0 mark_run (runs_at ls lvl)
unfolding mark_level
runs_at-mark_level_self ls lvl = runs_at-change_runs ls lvl (map_from 0 mark_run) refl

pub get_elem?-mark_level_ne :
    (ls : List LazyLevel) (lvl i : ℕ) → lvl ≢ i → get_elem? (mark_level ls lvl) i ≡ get_elem? ls i
unfolding mark_level
get_elem?-mark_level_ne ls lvl i h = get_elem?-modify_ne ls lvl i _ h

marked_dead :
    (fs : List SstFileMetaData)
    → map_from 0 set_being_compacted fs ≢ []
    → ¬ All (λ (f : SstFileMetaData). f.being_compacted ≡ false) (map_from 0 set_being_compacted fs)
marked_dead [] some_left idle = some_left refl
marked_dead (f ∷ fs) some_left idle = cc (idle.0)

live_marked : (rs : List Run) → length (filter dec_live (map_from 0 mark_run rs)) ≡ 0
live_marked [] = refl
live_marked (r ∷ rs) =
    rw (if_neg (dec_live (mark_run r)) (λ h. marked_dead r.files h.0 h.1)) (live_marked rs)

-- No run of a marked level is live.
pub num_live_runs-mark_level :
    (ls : List LazyLevel) (lvl : ℕ) (l : LazyLevel)
    → get_elem? (mark_level ls lvl) lvl ≡ some l
    → num_live_runs l ≡ 0
num_live_runs-mark_level ls lvl l h =
    num_live_runs-length l
    ∙ ap (λ rs. length (filter dec_live rs))
        (sym (get_elem?-runs_at (mark_level ls lvl) lvl h) ∙ runs_at-mark_level_self ls lvl)
    ∙ live_marked (runs_at ls lvl)
