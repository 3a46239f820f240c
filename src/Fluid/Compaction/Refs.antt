-- ===== src/Fluid/Compaction/Refs.antt =====
-- Pointers into the view: what they read, and changes of the view at the place of a run or a level.
use lsm_workload_aware_compa.Prelude.{
  ℕ, zero, suc, ◌≡◌, refl, sym, ap, ◌∙◌, String, some, List, [], ◌∷◌, arith, if◌then◌else◌, ◌>>=◌,
  get_elem?, modify, drop, drop-suc, get_elem?-drop, drop-modify, modify-modify, modify_congr,
  modify_id,
}
use lsm_workload_aware_compa.Fluid.Structure.{SstFileMetaData, Run, LazyLevel}
use lsm_workload_aware_compa.Fluid.Structure.Slots.{runs_at}
use lsm_workload_aware_compa.Fluid.Compaction.{deref, set_being_compacted}

-- The files that are not being compacted.
unfoldable pub idle_files : List SstFileMetaData → List SstFileMetaData
idle_files [] = []
idle_files (f ∷ fs) = if f.being_compacted then idle_files fs else f ∷ idle_files fs

unfoldable pub names : List SstFileMetaData → List String
names [] = []
names (f ∷ fs) = f.name ∷ names fs

-- The files of a run, given by its place; none where there is no such run.
unfoldable pub files_in : List Run → ℕ → List SstFileMetaData
files_in [] i = []
files_in (r ∷ rs) zero = r.files
files_in (r ∷ rs) (suc i) = files_in rs i

abbrev pub with_files : (List SstFileMetaData → List SstFileMetaData) → Run → Run
with_files g run = record run { files = g run.files }

abbrev pub change_runs : List LazyLevel → ℕ → (List Run → List Run) → List LazyLevel
change_runs ls lvl g = modify ls lvl (λ l. record { runs = g l.runs })

abbrev pub change_files :
    List LazyLevel → ℕ → ℕ → (List SstFileMetaData → List SstFileMetaData) → List LazyLevel
change_files ls lvl run g = change_runs ls lvl (λ rs. modify rs run (with_files g))

pub runs_at-change_runs :
    (ls : List LazyLevel) (lvl : ℕ) (g : List Run → List Run)
    → g [] ≡ []
    → runs_at (change_runs ls lvl g) lvl ≡ g (runs_at ls lvl)
unfolding runs_at
runs_at-change_runs [] lvl g h = sym h
runs_at-change_runs (l ∷ ls) zero g h = refl
runs_at-change_runs (l ∷ ls) (suc lvl) g h = runs_at-change_runs ls lvl g h

pub files_in-modify :
    (rs : List Run) (i : ℕ) (g : List SstFileMetaData → List SstFileMetaData)
    → g [] ≡ []
    → files_in (modify rs i (with_files g)) i ≡ g (files_in rs i)
unfolding files_in
files_in-modify [] i g h = sym h
files_in-modify (r ∷ rs) zero g h = refl
files_in-modify (r ∷ rs) (suc i) g h = files_in-modify rs i g h

pub get_elem?-runs_at :
    (ls : List LazyLevel) (lvl : ℕ) {l : LazyLevel}
    → get_elem? ls lvl ≡ some l
    → runs_at ls lvl ≡ l.runs
unfolding runs_at
get_elem?-runs_at [] lvl h = cc
get_elem?-runs_at (x ∷ ls) zero h = ground arith
get_elem?-runs_at (x ∷ ls) (suc lvl) h = get_elem?-runs_at ls lvl h

pub files_in_of_get :
    (rs : List Run) (i : ℕ) {r : Run} → get_elem? rs i ≡ some r → files_in rs i ≡ r.files
unfolding files_in
files_in_of_get [] i h = cc
files_in_of_get (x ∷ rs) zero h = ground arith
files_in_of_get (x ∷ rs) (suc i) h = files_in_of_get rs i h

-- A pointer reads the file at its place.
pub deref_run :
    (rs : List Run) (i j : ℕ)
    → (get_elem? rs i >>= λ r. get_elem? r.files j) ≡ get_elem? (files_in rs i) j
unfolding files_in
deref_run [] i j = refl
deref_run (r ∷ rs) zero j = refl
deref_run (r ∷ rs) (suc i) j = deref_run rs i j

pub deref_level :
    (ls : List LazyLevel) (lvl i j : ℕ)
    → (get_elem? ls lvl >>= λ l. get_elem? l.runs i >>= λ r. get_elem? r.files j)
      ≡ get_elem? (files_in (runs_at ls lvl) i) j
unfolding runs_at files_in
deref_level [] lvl i j = refl
deref_level (l ∷ ls) zero i j = deref_run l.runs i j
deref_level (l ∷ ls) (suc lvl) i j = deref_level ls lvl i j

-- A pointer that is followed reads the file at its place.
pub deref-drop :
    (ls : List LazyLevel) (lvl run i : ℕ) {f : SstFileMetaData} {fs : List SstFileMetaData}
    → drop i (files_in (runs_at ls lvl) run) ≡ f ∷ fs
    → deref ls (record { lvl = lvl; run = run; file = i }) ≡ some f
unfolding deref
deref-drop ls lvl run i h = deref_level ls lvl run i ∙ get_elem?-drop i _ h

pub files_in-change_files :
    (ls : List LazyLevel) (lvl run : ℕ) (g : List SstFileMetaData → List SstFileMetaData)
    → g [] ≡ []
    → files_in (runs_at (change_files ls lvl run g) lvl) run ≡ g (files_in (runs_at ls lvl) run)
files_in-change_files ls lvl run g h =
    rw (runs_at-change_runs ls lvl (λ rs. modify rs run (with_files g)) refl)
      (files_in-modify (runs_at ls lvl) run g h)

pub change_files_congr :
    (ls : List LazyLevel) (lvl run : ℕ) (f g : List SstFileMetaData → List SstFileMetaData)
    → f (files_in (runs_at ls lvl) run) ≡ g (files_in (runs_at ls lvl) run)
    → change_files ls lvl run f ≡ change_files ls lvl run g
change_files_congr ls lvl run f g h = modify_congr ls lvl _ _ λ l at.
    ap (λ rs. record { runs = rs })
      (modify_congr l.runs run _ _ λ r in_run.
        let e : files_in (runs_at ls lvl) run ≡ r.files =
          ap (λ rs. files_in rs run) (get_elem?-runs_at ls lvl at)
          ∙ files_in_of_get l.runs run in_run in
        ap (λ fs. record r { files = fs }) (ap f (sym e) ∙ h ∙ ap g e))

pub change_files_id :
    (ls : List LazyLevel) (lvl run : ℕ) (f : List SstFileMetaData → List SstFileMetaData)
    → f (files_in (runs_at ls lvl) run) ≡ files_in (runs_at ls lvl) run
    → change_files ls lvl run f ≡ ls
change_files_id ls lvl run f h =
    change_files_congr ls lvl run f (λ fs. fs) h
    ∙ modify_id ls lvl _
        (λ l at. ap (λ rs. record { runs = rs }) (modify_id l.runs run _ (λ r e. refl)))

pub change_files_twice :
    (ls : List LazyLevel) (lvl run : ℕ) (f g : List SstFileMetaData → List SstFileMetaData)
    → change_files (change_files ls lvl run f) lvl run g ≡ change_files ls lvl run (λ fs. g (f fs))
change_files_twice ls lvl run f g =
    modify-modify ls lvl _ _
    ∙ modify_congr ls lvl _ _
        (λ l at. ap (λ rs. record { runs = rs }) (modify-modify l.runs run _ _))

pub change_runs_congr :
    (ls : List LazyLevel) (lvl : ℕ) (f g : List Run → List Run)
    → f (runs_at ls lvl) ≡ g (runs_at ls lvl)
    → change_runs ls lvl f ≡ change_runs ls lvl g
change_runs_congr ls lvl f g h = modify_congr ls lvl _ _ λ l at.
    let e : runs_at ls lvl ≡ l.runs = get_elem?-runs_at ls lvl at in
    ap (λ rs. record { runs = rs }) (ap f (sym e) ∙ h ∙ ap g e)

pub change_runs_id :
    (ls : List LazyLevel) (lvl : ℕ) (f : List Run → List Run)
    → f (runs_at ls lvl) ≡ runs_at ls lvl
    → change_runs ls lvl f ≡ ls
change_runs_id ls lvl f h =
    change_runs_congr ls lvl f (λ rs. rs) h ∙ modify_id ls lvl _ (λ l at. refl)

pub drop-change_runs :
    (ls : List LazyLevel) (lvl i : ℕ) (f : Run → Run) {r : Run} {rs : List Run}
    → drop i (runs_at ls lvl) ≡ r ∷ rs
    → drop (suc i) (runs_at (change_runs ls lvl (λ qs. modify qs i f)) lvl) ≡ rs
drop-change_runs ls lvl i f h =
    ap (drop (suc i)) (runs_at-change_runs ls lvl (λ qs. modify qs i f) refl)
    ∙ drop-modify i (runs_at ls lvl) f
    ∙ drop-suc i _ h

pub files_in-drop :
    (rs : List Run) (i : ℕ) {r : Run} {ss : List Run} → drop i rs ≡ r ∷ ss → files_in rs i ≡ r.files
files_in-drop rs i h = files_in_of_get rs i (get_elem?-drop i rs h)

pub drop-change_files :
    (ls : List LazyLevel) (lvl run i : ℕ) {f : SstFileMetaData} {fs : List SstFileMetaData}
    → drop i (files_in (runs_at ls lvl) run) ≡ f ∷ fs
    → drop (suc i) (
        files_in
          (runs_at (change_files ls lvl run (λ gs. modify gs i set_being_compacted)) lvl)
          run)
      ≡ fs
drop-change_files ls lvl run i h =
    ap (drop (suc i))
      (files_in-change_files ls lvl run (λ gs. modify gs i set_being_compacted) refl)
    ∙ drop-modify i (files_in (runs_at ls lvl) run) set_being_compacted
    ∙ drop-suc i _ h
