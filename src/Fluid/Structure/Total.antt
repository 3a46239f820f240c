-- ===== src/Fluid/Structure/Total.antt =====
-- All sorted runs of the database, fluid level by fluid level.
use lsm_workload_aware_compa.Prelude.{
  ℕ, zero, suc, ◌+◌, ◌-◌, ◌*◌, ◌≤◌, ◌<◌, ◌≡◌, refl, ap, true, false, [], ◌∷◌, arith, length,
  if◌then◌else◌, ltb, lt→ltb,
}
use lsm_workload_aware_compa.Fluid.Structure.{SstFileMetaData, ColumnFamilyMetaData}
use lsm_workload_aware_compa.Fluid.Structure.Bands.{band, band_mono}
use lsm_workload_aware_compa.Fluid.Structure.Placing.{IsNumbered}
use lsm_workload_aware_compa.Fluid.Structure.Live.{IsIdle, level_live, live_runs, live_in}

-- The runs of the fluid levels below `b`.
live_below : ℕ → ℕ → ColumnFamilyMetaData → ℕ
live_below k b [] = 0
live_below k b (lv ∷ lvs) =
    (if ltb (band k lv.level) b then level_live lv else 0) + live_below k b lvs

live_below_zero : (k : ℕ) (m : ColumnFamilyMetaData) → live_below k 0 m ≡ 0
unfolding live_below
live_below_zero k [] = refl
live_below_zero k (lv ∷ lvs) = ground (arith, live_below_zero k lvs)

live_below-suc :
    (k b : ℕ) (m : ColumnFamilyMetaData) → live_below k (suc b) m ≡ live_below k b m + live_in k b m
unfolding live_below live_in
live_below-suc k b [] = omega arith
live_below-suc k b (lv ∷ lvs) = ground (arith, live_below-suc k b lvs)

live_below-le :
    (k b c : ℕ) (m : ColumnFamilyMetaData)
    → ((f : ℕ) → live_in k f m ≤ c)
    → live_below k b m ≤ b * c
live_below-le k zero c m h = omega (arith, live_below_zero k m)
live_below-le k (suc b) c m h = grind (arith, live_below-suc k b m, live_below-le k b c m h, h b)

-- The number of fluid levels that the levels of the metadata make up.
abbrev pub fluid_levels : ℕ → ColumnFamilyMetaData → ℕ
fluid_levels k m = suc (band k (length m - 1))

live_below_all :
    (k n top : ℕ) (m : ColumnFamilyMetaData)
    → IsNumbered n m
    → n + length m ≤ suc top
    → live_below k (suc (band k top)) m ≡ live_runs m
unfolding live_below live_runs
live_below_all k n top [] numbered h = refl
live_below_all k n top (lv ∷ lvs) numbered h =
    let inside : ltb (band k lv.level) (suc (band k top)) ≡ true =
      lt→ltb _ _ (omega (arith, band_mono k lv.level top (omega (arith, numbered.0)))) in
    rw inside (ap (◌+◌ (level_live lv)) (live_below_all k (suc n) top lvs numbered.1 (omega arith)))

-- If no fluid level has more than `c` sorted runs, there are not more than that for each.
pub live_runs-le :
    (k c : ℕ) (m : ColumnFamilyMetaData)
    → IsNumbered 0 m
    → ((f : ℕ) → live_in k f m ≤ c)
    → live_runs m ≤ fluid_levels k m * c
live_runs-le k c m numbered h = omega (
  arith,
  live_below-le k (fluid_levels k m) c m h,
  live_below_all k 0 (length m - 1) m numbered (omega arith),
)

-- A flush: one more file at level 0.
unfoldable pub add_flushed : SstFileMetaData → ColumnFamilyMetaData → ColumnFamilyMetaData
add_flushed file [] = []
add_flushed file (lv ∷ lvs) = record lv { files = file ∷ lv.files } ∷ lvs

pub length-add_flushed :
    (file : SstFileMetaData) (m : ColumnFamilyMetaData) → length (add_flushed file m) ≡ length m
unfolding add_flushed
length-add_flushed file [] = refl
length-add_flushed file (lv ∷ lvs) = refl

pub live_runs-add_flushed :
    (file : SstFileMetaData) (m : ColumnFamilyMetaData)
    → IsNumbered 0 m
    → 0 < length m
    → live_runs (add_flushed file m) ≡ live_runs m + 1
unfolding add_flushed live_runs
live_runs-add_flushed file [] numbered h = absurd (omega arith)
live_runs-add_flushed file (lv ∷ lvs) numbered h = rw (numbered.0) (omega arith)

pub live_in-add_flushed :
    (k f : ℕ) (file : SstFileMetaData) (m : ColumnFamilyMetaData)
    → IsNumbered 0 m
    → live_in k f (add_flushed file m) ≤ live_in k f m + 1
unfolding add_flushed live_in
live_in-add_flushed k f file [] numbered = omega arith
live_in-add_flushed k f file (lv ∷ lvs) numbered = rw (numbered.0) (ground arith)

pub IsNumbered-add_flushed :
    (file : SstFileMetaData) (m : ColumnFamilyMetaData)
    → IsNumbered 0 m
    → IsNumbered 0 (add_flushed file m)
unfolding add_flushed
IsNumbered-add_flushed file [] h = tt
IsNumbered-add_flushed file (lv ∷ lvs) h = h

pub IsIdle-add_flushed :
    (file : SstFileMetaData) (m : ColumnFamilyMetaData)
    → file.being_compacted ≡ false
    → IsIdle m
    → IsIdle (add_flushed file m)
unfolding add_flushed
IsIdle-add_flushed file [] idle h = tt
IsIdle-add_flushed file (lv ∷ lvs) idle h = ((idle, h.0), h.1)
