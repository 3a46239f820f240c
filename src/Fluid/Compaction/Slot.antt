-- ===== src/Fluid/Compaction/Slot.antt =====
-- The output level that ScheduleCompaction chooses, in terms of RocksDB's levels.
use native.Mathlib.Nat.{mod-add-div', mod-lt}
use lsm_workload_aware_compa.Prelude.{
  ℕ, zero, suc, ◌+◌, ◌-◌, ◌*◌, ◌/◌, ◌%◌, ◌≤◌, ◌<◌, ◌≡◌, ◌≢◌, ◌⊎◌, refl, sym, ap, ◌∙◌, inl, inr,
  some, none, List, [], ◌∷◌, arith, get_elem?, length, get_elem?-lt, get_elem?-ge, lt→ltb,
  Option-cases,
}
use lsm_workload_aware_compa.Double.{DoubleOps, IsExact}
use lsm_workload_aware_compa.Fluid.Structure.{
  SstFileMetaData, LevelMetaData, ColumnFamilyMetaData, Run, LazyLevel, build_levels,
}
use lsm_workload_aware_compa.Fluid.Structure.Bands.{
  band, band-bottom, band-round, div_unique, mod_unique,
}
use lsm_workload_aware_compa.Fluid.Structure.Slots.{runs_at, slots_used}
use lsm_workload_aware_compa.Fluid.Structure.Build.{build_levels_slot, build_levels_slots}
use lsm_workload_aware_compa.Fluid.Structure.Built.{IsReadable}
use lsm_workload_aware_compa.Fluid.Compaction.{find_empty_run, output_level}
use lsm_workload_aware_compa.Fluid.Compaction.Refs.{files_in, files_in_of_get, get_elem?-runs_at}
use lsm_workload_aware_compa.Fluid.Compaction.Chosen.{bottom, Chosen, find_empty_run-Chosen}

-- The files that the metadata lists at a RocksDB level.
unfoldable pub level_files : ColumnFamilyMetaData → ℕ → List SstFileMetaData
level_files [] i = []
level_files (lv ∷ lvs) zero = lv.files
level_files (lv ∷ lvs) (suc i) = level_files lvs i

level_files_of_get :
    (cf_meta : ColumnFamilyMetaData) (i : ℕ) {lv : LevelMetaData}
    → get_elem? cf_meta i ≡ some lv
    → level_files cf_meta i ≡ lv.files
unfolding level_files
level_files_of_get [] i h = cc
level_files_of_get (x ∷ xs) zero h = ground arith
level_files_of_get (x ∷ xs) (suc i) h = level_files_of_get xs i h

pub get_elem?_of_runs :
    (ls : List LazyLevel) (i : ℕ)
    → 0 < length (runs_at ls i)
    → (l : LazyLevel) × (get_elem? ls i ≡ some l) × (runs_at ls i ≡ l.runs)
unfolding runs_at
get_elem?_of_runs [] i h = absurd (omega arith)
get_elem?_of_runs (l ∷ ls) zero h = (l, refl, refl)
get_elem?_of_runs (l ∷ ls) (suc i) h = get_elem?_of_runs ls i h

full_band : (k n f : ℕ) → suc f * (k + 1) ≤ n → slots_used k n f ≡ k + 1
unfolding slots_used
full_band k n f h = rw (lt→ltb f (n / (k + 1)) below)
  where
    below : f < n / (k + 1)
    below = grind (arith, mod-add-div' n (k + 1), mod-lt n {m = k + 1})

part_band : (k n f : ℕ) → n < suc f * (k + 1) → slots_used k n f ≤ k
unfolding slots_used
part_band k n f h = ground (arith, not_below, mod-lt n {m = k + 1})
  where
    not_below : n / (k + 1) ≤ f
    not_below = grind (arith, mod-add-div' n (k + 1))

find_out_of_range :
    (k t : ℕ) (runs : List Run) → length runs ≤ k → find_empty_run (k + 1) 0 k t runs ≡ none
find_out_of_range k t runs h =
    let s : k + 1 ≡ suc k = omega arith in
    let z : k - 0 ≡ k = omega arith in rw s (unfold find_empty_run in rw (z, get_elem?-ge runs k h))

module _ (fp : DoubleOps) (e : IsExact fp) (k : ℕ) (cf_meta : ColumnFamilyMetaData)
    (ls ls' : List LazyLevel) (h : IsReadable k cf_meta ls)
    (b : build_levels fp k cf_meta ls ≡ some ls') where
  slot_files :
      (f i : ℕ)
      → i ≤ k
      → suc (suc (f * (k + 1) + i)) < length cf_meta
      → files_in (runs_at ls' (suc f)) i ≡ level_files cf_meta (suc (suc (f * (k + 1) + i)))
  slot_files f i in_band there =
      let m = f * (k + 1) + i in
      let (lv, at) = get_elem?-lt cf_meta (suc (suc m)) there in
      let (r, placed, files, _) = build_levels_slot fp e k cf_meta ls ls' m lv h b at in
      let q : m / (k + 1) ≡ f = div_unique m (k + 1) f i (omega arith) refl in
      let s : m % (k + 1) ≡ i = mod_unique m (k + 1) f i (omega arith) refl in
      let here : get_elem? (runs_at ls' (suc f)) i ≡ some r = rw (band-round k m, q, s) at placed in
      files_in_of_get (runs_at ls' (suc f)) i here ∙ files ∙ sym (level_files_of_get cf_meta _ at)

  slot_at :
      (f o : ℕ)
      → o ≤ k
      → bottom k (suc f) < length cf_meta
      → files_in (runs_at ls' (suc f)) (k - o) ≡ level_files cf_meta (bottom k (suc f) - o)
  slot_at f o in_band there =
      let same : suc (suc (f * (k + 1) + (k - o))) ≡ bottom k (suc f) - o = omega arith in
      rw same at (slot_files f (k - o) (omega arith) (omega arith))

  pub runs_of_band :
      (f : ℕ) → bottom k (suc f) < length cf_meta → length (runs_at ls' (suc f)) ≡ k + 1
  runs_of_band f there =
      build_levels_slots fp e k cf_meta ls ls' f h b (grind (arith, h.room))
      ∙ full_band k (length cf_meta - 2) f (omega arith)

  -- The levels less than `hi` above the bottom of a band.
  occupied_in_band :
      (f x hi : ℕ)
      → bottom k (suc f) < length cf_meta
      → hi ≤ k + 1
      → ((p : ℕ) → p < hi → files_in (runs_at ls' (suc f)) (k - p) ≢ [])
      → x ≤ bottom k (suc f)
      → bottom k (suc f) < x + hi
      → level_files cf_meta x ≢ []
  occupied_in_band f x hi there in_band all low near =
      let p = bottom k (suc f) - x in
      let same : bottom k (suc f) - p ≡ x = omega arith in
      rw (← same, ← slot_at f p (omega arith) there) (all p (omega arith))

  level-Chosen :
      (f x : ℕ)
      → bottom k (suc f) < length cf_meta
      → Chosen k (suc f) (runs_at ls' (suc f)) 0 x
      → (band k x ≡ suc f)
        × (((level_files cf_meta x ≡ [])
              × ((y : ℕ) → x < y → y ≤ bottom k (suc f) → level_files cf_meta y ≢ []))
            ⊎ ((x ≡ bottom k (suc f))
                × ((y : ℕ)
                    → bottom k (suc f) ≤ y + k
                    → y ≤ bottom k (suc f)
                    → level_files cf_meta y ≢ [])))
  level-Chosen f x there (inl (o, _, in_band, at, free, before)) = (
    rw at (band-bottom k (suc f) o (omega arith) in_band),
    inl (
      rw (at, ← slot_at f o in_band there) free,
      λ y above low.
          occupied_in_band f y o there (omega arith) (λ p q. before p (omega arith) q) low
            (omega arith),
    ),
  )
  level-Chosen f x there (inr (at, all)) = (
    rw at (ap (band k) (omega arith) ∙ band-bottom k (suc f) 0 (omega arith) (omega arith)),
    inr (
      at,
      λ y near low.
          occupied_in_band f y (k + 1) there (omega arith)
            (λ p q. all p (omega arith) (omega arith)) low (omega arith),
    ),
  )

  -- In the view of readable metadata, with exact doubles, where the target is below the origin and its
  -- band of RocksDB levels is complete, the choice ends without a fault, at a level of the target's band:
  -- the deepest one without files, and the bottom one if all of them have files.
  pub output_level_deepest_free :
      (origin_lvl f : ℕ)
      → origin_lvl < suc f
      → bottom k (suc f) < length cf_meta
      → (x : ℕ) × (output_level ls' k origin_lvl (suc f) ≡ some x)
        × (band k x ≡ suc f)
        × (((level_files cf_meta x ≡ [])
              × ((y : ℕ) → x < y → y ≤ bottom k (suc f) → level_files cf_meta y ≢ []))
            ⊎ ((x ≡ bottom k (suc f))
                × ((y : ℕ)
                    → bottom k (suc f) ≤ y + k
                    → y ≤ bottom k (suc f)
                    → level_files cf_meta y ≢ [])))
  unfolding output_level
  output_level_deepest_free origin_lvl f below there =
      let (l, at, runs) = get_elem?_of_runs ls' (suc f) (omega (arith, runs_of_band f there)) in
      let (x, found, chosen) =
        find_empty_run-Chosen (k + 1) 0 k (suc f) l.runs (omega arith)
          (omega (arith, runs_of_band f there, ap length runs)) in
      let (in_band, choice) = level-Chosen f x there (rw runs chosen) in
      (x, rw (lt→ltb origin_lvl (suc f) below) (rw at found), in_band, choice)

  -- In the view of readable metadata, with exact doubles, where the target is below the origin and in the
  -- view, and its band is not complete, the choice reads a run that is not there: the code tests neither
  -- the target level nor the number of its runs.
  pub output_level_out_of_range :
      (origin_lvl f : ℕ)
      → origin_lvl < suc f
      → suc f < length ls
      → length cf_meta ≤ bottom k (suc f)
      → output_level ls' k origin_lvl (suc f) ≡ none
  unfolding output_level
  output_level_out_of_range origin_lvl f below in_view missing =
      rw (lt→ltb origin_lvl (suc f) below) (elim (Option-cases (get_elem? ls' (suc f))) [
        | inl no_level ↦ rw no_level
        | inr (l, at) ↦ rw at (find_out_of_range k (suc f) l.runs (too_few l at))
      ])
    where
      too_few : (l : LazyLevel) → get_elem? ls' (suc f) ≡ some l → length l.runs ≤ k
      too_few l at = omega (
        arith,
        build_levels_slots fp e k cf_meta ls ls' f h b in_view,
        ap length (get_elem?-runs_at ls' (suc f) at),
        part_band k (length cf_meta - 2) f,
        h.two_levels,
      )
