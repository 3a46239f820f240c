-- ===== src/Stats/Printing.antt =====
-- Stats::printStats (src/stats.cc): what it changes, and what it prints.
use lsm_workload_aware_compa.Prelude.{
  ℕ, ◌+◌, ◌*◌, ◌%◌, ◌^◌, Bool, true, false, Option, none, some, List, [], ◌∷◌, ◌++◌, if◌then◌else◌,
  ◌>>=◌,
}
use lsm_workload_aware_compa.Prelude.Int.{pos, ◌-ℤ◌, fits_long, to_unsigned, ltb_ℤ}
use lsm_workload_aware_compa.Buffer.{Text}
use lsm_workload_aware_compa.Env.{DbEnv}
use lsm_workload_aware_compa.Env.Instance.{get_instance}
use lsm_workload_aware_compa.Utils.{Cell, pad_left}
use lsm_workload_aware_compa.Utils.Decimal.{codes, newline, signed}
use lsm_workload_aware_compa.Utils.Columns.{row}
use lsm_workload_aware_compa.Stats.{FloatOps, Stats}

abbrev figure_cell : ℕ → Text → Cell
figure_cell width value = record { width = width; value = value }

abbrev pub headings : List Cell
headings =
    figure_cell 9 (codes "#p_ts_in_tree")
    ∷ figure_cell 12 (codes "#kv_in_tree")
    ∷ figure_cell 12 (codes "#I_done")
    ∷ figure_cell 12 (codes "L_in_tree")
    ∷ figure_cell 12 (codes "#U_done")
    ∷ figure_cell 12 (codes "#PD_done")
    ∷ figure_cell 12 (codes "#cmpt")
    ∷ figure_cell 12 (codes "#cmpt_easy")
    ∷ figure_cell 12 (codes "fls_rd_cmpt")
    ∷ figure_cell 12 (codes "fls_wr_cmpt")
    ∷ figure_cell 12 (codes "bts_rd_cmpt")
    ∷ figure_cell 12 (codes "bts_wr_cmpt")
    ∷ []

abbrev last_headings : List Cell
last_headings =
    figure_cell 9 (codes "%space_amp")
    ∷ figure_cell 12 (codes "dpth")
    ∷ figure_cell 19 (codes "exp_runtime (ms)")
    ∷ []

-- What `std::cout` keeps from one output to the next.
pub record Format : Type 0 where
  pub fixed : Bool
  pub precision : ℕ
  pub width : ℕ

-- The settings at the end; no text follows the last `setw`, so it is still pending.
abbrev pub left_behind : Format
left_behind = record { fixed = true; precision = 2; width = 19 }

module _ (f : FloatOps) where
  open f use {F, of_long, of_u64, mul, div, text}

  abbrev pub figures : Stats f → List Cell
  figures s =
      figure_cell 12 (signed s.point_tombstones_in_tree)
      ∷ figure_cell 12 (signed s.key_values_in_tree)
      ∷ figure_cell 12 (signed s.inserts_completed)
      ∷ figure_cell 12 (signed s.levels_in_tree)
      ∷ figure_cell 12 (signed s.updates_completed)
      ∷ figure_cell 12 (signed s.point_deletes_completed)
      ∷ figure_cell 12 (signed s.compaction_count)
      ∷ figure_cell 12 (signed s.compactions_by_pointer_manipulation)
      ∷ figure_cell 12 (signed s.files_read_for_compaction)
      ∷ figure_cell 12 (signed s.files_written_after_compaction)
      ∷ figure_cell 12 (signed s.bytes_read_for_compaction)
      ∷ figure_cell 12 (signed s.bytes_written_after_compaction)
      ∷ []

  abbrev pub proportion : Stats f → F
  proportion s = div (of_long s.updates_completed) (of_long s.inserts_completed)

  abbrev proportion_set : Stats f → Stats f
  proportion_set s = record s { update_proportion = proportion s }

  -- The loop over the files: what is left of its body is the assignment behind it. A counter of type
  -- `int` overflows where there are more files than it holds.
  abbrev repeated : Bool → Bool → Stats f → Option (Stats f)
  repeated false fits s = some s
  repeated true false s = none
  repeated true true s = some (proportion_set s)

  unfoldable pub set_proportion : Stats f → Option (Stats f)
  set_proportion s =
      repeated (ltb_ℤ (pos 0) s.files_in_tree) (ltb_ℤ s.files_in_tree (pos (2 ^ 31))) s

  abbrev pub superfluous_bytes : Stats f → F
  superfluous_bytes s =
      mul (of_long s.point_tombstones_in_tree) (of_u64 ((s.key_size + 1) % 2 ^ 64))

  -- The difference of two `long`s; where it does not fit, it is undefined.
  unfoldable pub unique_bytes : Stats f → Option F
  unique_bytes s =
      let left = s.inserts_completed -ℤ s.point_deletes_completed in
      if fits_long left
      then some (of_u64 (to_unsigned 64 left * ((s.key_size + s.value_size) % 2 ^ 64) % 2 ^ 64))
      else none

  abbrev space_amp_set : F → Stats f → Stats f
  space_amp_set unique s = record s {
    space_amp = div (mul (of_long (pos 100)) (superfluous_bytes s)) unique;
  }

  unfoldable pub set_space_amp : Stats f → Option (Stats f)
  set_space_amp s = unique_bytes s >>= λ unique. some (space_amp_set unique s)

  -- What it prints of the object as it is left.
  abbrev pub shown_stats : Format → Stats f → Text
  shown_stats format s =
      row headings
      ++ row (figures s)
      ++ codes "files in tree = "
      ++ signed s.files_in_tree
      ++ newline
      ++ row last_headings
      ++ pad_left 9 (text format.fixed format.precision s.space_amp)
      ++ newline

  -- Stats::printStats: the object, the static pointer that GetInstance has moved from, and the stream's
  -- settings behind it, and what it prints.
  unfoldable pub print_stats :
      Option DbEnv → Format → Stats f → Option (Stats f × Option DbEnv × Format × Text)
  print_stats instance_ format s = set_proportion s >>= λ s1. set_space_amp s1 >>= λ s2.
      some (s2, (get_instance instance_).1, left_behind, shown_stats format s2)
