-- ===== src/Utils.antt =====
-- src/utils.cc: the table of the experiment's options, the progress bar, RocksDB's counters and the state
-- of the tree, as text for a buffer or the screen. How a stream prints a `double` is a parameter, and so
-- is what RocksDB reports.
pub mod Decimal
pub mod Columns
pub mod Bar
pub mod Reports
pub mod Written
pub mod Samples
mod Tests
use lsm_workload_aware_compa.Prelude.{
  ℕ, zero, suc, ◌+◌, ◌-◌, ◌%◌, ◌^◌, Bool, true, false, ◌||◌, Option, none, some, List, [], ◌∷◌,
  ◌++◌, if◌then◌else◌, ltb, ◌==◌, ◌>>=◌, length,
}
use lsm_workload_aware_compa.Prelude.Int.{ℤ, pos, negsuc, ltb_ℤ}
use lsm_workload_aware_compa.Double.{DoubleOps}
use lsm_workload_aware_compa.Buffer.{Text, Buffer, put}
use lsm_workload_aware_compa.Env.{
  DbEnv, get_buffer_size, get_target_file_size_base, get_max_bytes_for_level_base,
}
use lsm_workload_aware_compa.Utils.Decimal.{codes, newline, decimal, signed}

-- The text of a double that holds a whole number, of any double, and of one with two digits behind the
-- point.
pub record DoubleText (fp : DoubleOps) : Type 0 where
  pub whole_text : ℤ → Text
  pub text : fp.D → Text
  pub fixed_text : fp.D → Text

-- A column: its width and its text.
pub record Cell : Type 0 where
  pub width : ℕ
  pub value : Text

unfoldable pub spaces : ℕ → Text
spaces zero = []
spaces (suc n) = 32 ∷ spaces n

-- `std::setfill(' ') << std::setw(width)`: the text stands right in its column, and is never cut.
unfoldable pub pad_left : ℕ → Text → Text
unfolding spaces
pad_left width value = spaces (width - length value) ++ value

-- PrintColumn, with its three insertions.
unfoldable pub print_column : Buffer → Cell → Buffer
unfolding pad_left
print_column b c = put (put (put b []) []) (pad_left c.width c.value)

unfoldable pub print_columns : Buffer → List Cell → Buffer
unfolding print_column
print_columns b [] = put b newline
print_columns b (c ∷ cs) = print_columns (print_column b c) cs

abbrev cell : ℕ → Text → Cell
cell width value = record { width = width; value = value }

abbrev pub titles : List Cell
titles =
    cell 10 (codes "cmpt_sty")
    ∷ cell 10 (codes "cmpt_pri")
    ∷ cell 4 (codes "T")
    ∷ cell 10 (codes "P")
    ∷ cell 10 (codes "B")
    ∷ cell 10 (codes "E")
    ∷ cell 10 (codes "M")
    ∷ cell 10 (codes "file_size")
    ∷ cell 10 (codes "L1_size")
    ∷ cell 10 (codes "blk_cch")
    ∷ cell 10 (codes "BPK")
    ∷ []

module _ (fp : DoubleOps) (print : DoubleText fp) where
  abbrev pub values : DbEnv → List Cell
  values e =
      cell 10 (decimal e.compaction_style)
      ∷ cell 10 (decimal e.compaction_pri)
      ∷ cell 4 (print.whole_text e.size_ratio)
      ∷ cell 10 (decimal e.buffer_size_in_pages)
      ∷ cell 10 (decimal e.entries_per_page)
      ∷ cell 10 (decimal e.entry_size)
      ∷ cell 10 (decimal (get_buffer_size e))
      ∷ cell 10 (signed (get_target_file_size_base e))
      ∷ cell 10 (decimal (get_max_bytes_for_level_base e))
      ∷ cell 10 (signed e.table.block_cache)
      ∷ cell 10 (print.whole_text e.bits_per_key)
      ∷ []

  -- PrintExperimentalSetup
  unfoldable pub print_experimental_setup : DbEnv → Buffer → Buffer
  unfolding print_columns
  print_experimental_setup e b =
      if ltb_ℤ (pos 0) e.db.verbosity then print_columns (print_columns b titles) (values e) else b

abbrev pub bar_char : ℕ → ℕ → ℕ
bar_char i head = if ltb i head then 61 else if i == head then 62 else 32

-- The loop of UpdateProgressBar, from the `i`-th character on, with the rounds left.
unfoldable pub draw_bar : ℕ → ℕ → ℕ → Text
draw_bar zero i head = []
draw_bar (suc rounds) i head = bar_char i head ∷ draw_bar rounds (i + 1) head

-- The conversion of a double to `size_t`; out of range it is undefined.
unfoldable pub size_of_double : ℤ → Option ℕ
size_of_double (pos n) = if ltb n (2 ^ 64) then some n else none
size_of_double (negsuc n) = none

module _ (fp : DoubleOps) (print : DoubleText fp) where
  open fp use {D, of_int, mul, div, truncate}

  unfoldable pub bar_text : D → ℕ → ℕ → Text
  unfolding draw_bar
  bar_text progress bar_width head =
      codes "["
      ++ draw_bar bar_width 0 head
      ++ codes "] "
      ++ print.fixed_text (mul progress (of_int 100))
      ++ 37 ∷ 13 ∷ []

  -- The line that UpdateProgressBar draws.
  unfoldable pub bar_line : ℕ → ℕ → ℕ → Option Text
  unfolding size_of_double
  bar_line current total bar_width = do
    let progress = div (of_int current) (of_int total)
    head ← size_of_double (truncate (mul (of_int bar_width) progress))
    some (bar_text progress bar_width head)

  -- UpdateProgressBar, with what is on the screen; `none` is the remainder by an interval of zero.
  unfoldable pub update_progress_bar : DbEnv → ℕ → ℕ → ℕ → ℕ → Text → Option Text
  update_progress_bar e current total update_interval bar_width screen =
      if e.show_progress_bar
      then (if update_interval == 0
          then none
          else if (current % update_interval == 0) || (current == total)
          then (bar_line current total bar_width >>= λ line. some (screen ++ line))
          else some screen)
      else some screen
