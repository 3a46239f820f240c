-- ===== src/Fluid/Compaction/Target.antt =====
-- The target of a compaction: the size of the input files against the capacity of their level.
use native.Mathlib.Nat.{pow-suc, mul-div_left, one-le-pow, le-mul_of_pos_right, mul-le-mul_left}
use lsm_workload_aware_compa.Prelude.{
  ℕ, suc, ◌+◌, ◌-◌, ◌*◌, ◌/◌, ◌%◌, ◌^◌, ◌≤◌, ◌<◌, ◌≡◌, ap, ◌∙◌, inl, inr, some, List, [], ◌∷◌, ◌++◌,
  arith, Bool-cases, if◌then◌else◌, ltb, get_elem?, drop, drop-suc,
}
use lsm_workload_aware_compa.Prelude.Int.{pos, long_of_bits, ltb_ℤ}
use lsm_workload_aware_compa.Double.{DoubleOps, IsExact, exact_limit}
use lsm_workload_aware_compa.Fluid.Structure.{SstFileMetaData, Run, LazyLevel}
use lsm_workload_aware_compa.Fluid.Structure.Slots.{runs_at}
use lsm_workload_aware_compa.Fluid.Structure.Files.{run_files}
use lsm_workload_aware_compa.Fluid.Structure.Counts.{total_size}
use lsm_workload_aware_compa.Fluid.Compaction.{
  FluidLsm, FileRef, run_refs, level_refs, add_ref_sizes, get_compaction_size, level_capacity,
  get_compaction_target_level,
}
use lsm_workload_aware_compa.Fluid.Compaction.Refs.{
  idle_files, files_in, deref-drop, get_elem?-runs_at, files_in-drop,
}

add_ref_sizes-idle :
    (ls : List LazyLevel) (lvl run i : ℕ) (rest : List FileRef) (n : ℕ) {f : SstFileMetaData}
    {fs : List SstFileMetaData}
    → drop i (files_in (runs_at ls lvl) run) ≡ f ∷ fs
    → add_ref_sizes ls n (record { lvl = lvl; run = run; file = i } ∷ rest)
      ≡ add_ref_sizes ls ((n + f.size) % 2 ^ 64) rest
unfolding add_ref_sizes
add_ref_sizes-idle ls lvl run i rest n h = rw (deref-drop ls lvl run i h)

add_ref_sizes-run_refs :
    (ls : List LazyLevel) (lvl run i : ℕ) (fs : List SstFileMetaData) (rest : List FileRef) (n : ℕ)
    → n < 2 ^ 64
    → drop i (files_in (runs_at ls lvl) run) ≡ fs
    → add_ref_sizes ls n (run_refs lvl run i fs ++ rest)
      ≡ add_ref_sizes ls ((n + total_size (idle_files fs)) % 2 ^ 64) rest
unfolding run_refs idle_files total_size
add_ref_sizes-run_refs ls lvl run i [] rest n small h =
    ap (λ m. add_ref_sizes ls m rest) (omega arith)
add_ref_sizes-run_refs ls lvl run i (f ∷ fs) rest n small h = elim (Bool-cases f.being_compacted) [
  | inl busy ↦ rw busy (add_ref_sizes-run_refs ls lvl run (suc i) fs rest n small (drop-suc i _ h))
  | inr idle ↦ simp idle (
      add_ref_sizes-idle ls lvl run i _ n h
      ∙ add_ref_sizes-run_refs ls lvl run (suc i) fs rest ((n + f.size) % 2 ^ 64) (omega arith)
          (drop-suc i _ h)
      ∙ ap (λ m. add_ref_sizes ls m rest) (omega arith))
]

idle_files-append :
    (fs gs : List SstFileMetaData)
    → total_size (idle_files (fs ++ gs)) ≡ total_size (idle_files fs) + total_size (idle_files gs)
unfolding idle_files total_size
idle_files-append [] gs = omega arith
idle_files-append (f ∷ fs) gs = ground (arith, idle_files-append fs gs)

add_ref_sizes-level_refs :
    (ls : List LazyLevel) (lvl i : ℕ) (rs : List Run) (n : ℕ)
    → n < 2 ^ 64
    → drop i (runs_at ls lvl) ≡ rs
    → add_ref_sizes ls n (level_refs lvl i rs)
      ≡ some ((n + total_size (idle_files (run_files rs))) % 2 ^ 64)
unfolding level_refs run_files
add_ref_sizes-level_refs ls lvl i [] n small h =
    unfold add_ref_sizes idle_files total_size in ap some (omega arith)
add_ref_sizes-level_refs ls lvl i (r ∷ rs) n small h =
    add_ref_sizes-run_refs ls lvl i 0 r.files (level_refs lvl (suc i) rs) n small
      (files_in-drop (runs_at ls lvl) i h)
    ∙ add_ref_sizes-level_refs ls lvl (suc i) rs ((n + total_size (idle_files r.files)) % 2 ^ 64)
        (omega arith) (drop-suc i _ h)
    ∙ ap some (omega (arith, idle_files-append r.files (run_files rs)))

-- The size of a compaction from level `lvl` is the sum of the sizes of the level's idle files.
pub get_compaction_size-level_refs :
    (ls : List LazyLevel) (lvl : ℕ) (l : LazyLevel)
    → get_elem? ls lvl ≡ some l
    → get_compaction_size ls (level_refs lvl 0 l.runs)
      ≡ some (long_of_bits (total_size (idle_files (run_files l.runs)) % 2 ^ 64))
unfolding get_compaction_size
get_compaction_size-level_refs ls lvl l h =
    rw (add_ref_sizes-level_refs ls lvl 0 l.runs 0 (omega arith) (get_elem?-runs_at ls lvl h))
      (ap (λ n. some (long_of_bits n)) (omega arith))

times_le : (a b : ℕ) → 0 < a → b ≤ a * b
times_le a b h = grind arith

-- The numbers on the way are at most the one that is assumed to fit.
intermediate_le :
    (w p t : ℕ)
    → 0 < w
    → 0 < t
    → 0 < p
    → (p * t ≤ w * (p * t) * t)
      × (w * (p * t) ≤ w * (p * t) * t)
      × (w * (p * t) * (t - 1) ≤ w * (p * t) * t)
      × (t ≤ w * (p * t) * t)
intermediate_le w p t hw ht hp =
    let one : 0 < p * t = grind arith in
    let q : p * t ≤ w * (p * t) = times_le w (p * t) hw in
    let v : t ≤ p * t = times_le p t hp in
    let r : w * (p * t) ≤ w * (p * t) * t = le-mul_of_pos_right _ ht in
    (omega arith, r, mul-le-mul_left (w * (p * t)) (omega arith), omega arith)

regroup : (w p t : ℕ) → w * (p * t) * (t - 1) ≡ w * p * (t - 1) * t
regroup w p t = grind arith

-- The capacity of a level is `write_buffer_size * T ^ lvl * (T - 1)`, exactly, for a positive buffer size
-- and size ratio, as long as the numbers that come up on the way are exact in a double.
pub level_capacity_exact :
    (fp : DoubleOps) (w t lvl : ℕ)
    → IsExact fp
    → 0 < w
    → 0 < t
    → w * (t ^ lvl * t) * t < exact_limit
    → level_capacity fp w t lvl ≡ pos (w * t ^ lvl * (t - 1))
unfolding level_capacity
level_capacity_exact fp w t lvl e hw ht fits =
    ap (λ x. truncate (div (mul (mul (of_int w) x) (of_int (t - 1))) (of_int t)))
      (e.pow_exact t (lvl + 1) (rw power (omega (arith, small))) ∙ ap of_int power)
    ∙ ap (λ x. truncate (div (mul x (of_int (t - 1))) (of_int t)))
        (e.mul_exact w (t ^ lvl * t) (omega (arith, small)))
    ∙ ap (λ x. truncate (div x (of_int t)))
        (e.mul_exact (w * (t ^ lvl * t)) (t - 1) (omega (arith, small)))
    ∙ e.truncate_div (w * (t ^ lvl * t) * (t - 1)) t ht (omega (arith, small))
        (omega (arith, small))
    ∙ ap pos (ap (λ m. m / t) (regroup w (t ^ lvl) t) ∙ mul-div_left (w * t ^ lvl * (t - 1)) ht)
  where
    open fp use {of_int, mul, div, truncate}

    power : t ^ (lvl + 1) ≡ t ^ lvl * t
    power = let s : lvl + 1 ≡ suc lvl = omega arith in rw s (pow-suc t lvl)

    small :
        (t ^ lvl * t ≤ w * (t ^ lvl * t) * t)
        × (w * (t ^ lvl * t) ≤ w * (t ^ lvl * t) * t)
        × (w * (t ^ lvl * t) * (t - 1) ≤ w * (t ^ lvl * t) * t)
        × (t ≤ w * (t ^ lvl * t) * t)
    small = intermediate_le w (t ^ lvl) t hw ht (one-le-pow lvl t ht)

test_exact : (c n : ℕ) → n < 2 ^ 63 → ltb_ℤ (pos c) (long_of_bits (n % 2 ^ 64)) ≡ ltb c n
test_exact c n h = ground arith

module _ (fp : DoubleOps) (e : IsExact fp) (s : FluidLsm) (lvl : ℕ) (l : LazyLevel) where
  -- A compaction of a level goes one level down exactly if the level's idle files are larger than the
  -- capacity, and stays at its level if not: for a positive buffer size and size ratio, with numbers that
  -- are exact in a double, and a sum of file sizes that fits a `long`.
  pub target_level_exact :
      get_elem? s.lazy_levels lvl ≡ some l
      → 0 < s.options.write_buffer_size
      → 0 < s.size_ratio
      → s.options.write_buffer_size * (s.size_ratio ^ lvl * s.size_ratio) * s.size_ratio
        < exact_limit
      → total_size (idle_files (run_files l.runs)) < 2 ^ 63
      → get_compaction_target_level fp s lvl (level_refs lvl 0 l.runs)
        ≡ some (
            if ltb
              (s.options.write_buffer_size * s.size_ratio ^ lvl * (s.size_ratio - 1))
              (total_size (idle_files (run_files l.runs)))
            then lvl + 1
            else lvl)
  unfolding get_compaction_target_level
  target_level_exact at hw ht fits small =
      rw
        (
          get_compaction_size-level_refs s.lazy_levels lvl l at,
          level_capacity_exact fp s.options.write_buffer_size s.size_ratio lvl e hw ht fits,
        )
        (ap (λ b. some (if b then lvl + 1 else lvl)) (test_exact _ _ small))
