-- ===== src/Env/Parsing.antt =====
-- What the command line makes of the environment.
use mathlib.Core.Path.{subst}
use lsm_workload_aware_compa.Prelude.{
  lt→ltb, ℕ, ◌<◌, ◌^◌, ◌≡◌, refl, sym, ap, ◌∙◌, Option, none, some, arith, >>=-eq-some, ◌>>=◌,
}
use lsm_workload_aware_compa.Prelude.Int.{ℤ, pos, negsuc, pred_ℤ}
use lsm_workload_aware_compa.Env.{DbEnv}
use lsm_workload_aware_compa.Env.Arguments.{
  Arguments, parsed, returns, given, itself, int_of_double, apply_arguments, parse_arguments,
}

given_again {ℓ} :
    {A : Type ℓ} (flag : Option ℤ) (convert : ℤ → A) (old : A)
    → given flag convert (given flag convert old) ≡ given flag convert old
unfolding given
given_again none convert old = refl
given_again (some v) convert old = refl

apply_again :
    (a : Arguments) (slowdown stop : ℤ) (e : DbEnv)
    → apply_arguments a slowdown stop (apply_arguments a slowdown stop e)
      ≡ apply_arguments a slowdown stop e
unfolding apply_arguments
apply_again a slowdown stop e = simp given_again

parse_steps :
    (a : Arguments) (e : DbEnv) (slowdown stop : ℤ)
    → int_of_double (pred_ℤ (given a.size_ratio itself e.size_ratio)) ≡ some slowdown
    → int_of_double (given a.size_ratio itself e.size_ratio) ≡ some stop
    → parse_arguments (parsed a) e ≡ some (returns 0 (apply_arguments a slowdown stop e))
unfolding parse_arguments
parse_steps a e slowdown stop at_slowdown at_stop = rw (at_slowdown, at_stop)

parse_inv :
    (a : Arguments) (e e' : DbEnv)
    → parse_arguments (parsed a) e ≡ some (returns 0 e')
    → (slowdown : ℤ) × (stop : ℤ) × (int_of_double (pred_ℤ (given a.size_ratio itself e.size_ratio))
        ≡ some slowdown)
      × (int_of_double (given a.size_ratio itself e.size_ratio) ≡ some stop)
      × (apply_arguments a slowdown stop e ≡ e')
unfolding parse_arguments
parse_inv a e e' h =
    let ratio = given a.size_ratio itself e.size_ratio in
    let (slowdown, at_slowdown, h1) =
      >>=-eq-some (int_of_double (pred_ℤ ratio))
        (λ slowdown.
          int_of_double ratio >>= λ stop. some (returns 0 (apply_arguments a slowdown stop e)))
        h in
    let (stop, at_stop, h2) =
      >>=-eq-some (int_of_double ratio)
        (λ stop. some (returns 0 (apply_arguments a slowdown stop e))) h1 in
    (slowdown, stop, at_slowdown, at_stop, cc)

-- The command line settles the environment: with the same flags once more, nothing changes.
parse_arguments-again :
    (a : Arguments) (e e' : DbEnv)
    → parse_arguments (parsed a) e ≡ some (returns 0 e')
    → parse_arguments (parsed a) e' ≡ some (returns 0 e')
unfolding apply_arguments
parse_arguments-again a e e' h =
    let (slowdown, stop, at_slowdown, at_stop, same) = parse_inv a e e' h in
    let ratio = given_again a.size_ratio itself e.size_ratio in
    subst (λ x. parse_arguments (parsed a) x ≡ some (returns 0 x)) same
      (parse_steps a (apply_arguments a slowdown stop e) slowdown stop
          (ap (λ r. int_of_double (pred_ℤ r)) ratio ∙ at_slowdown)
          (ap int_of_double ratio ∙ at_stop)
        ∙ ap (λ x. some (returns 0 x)) (apply_again a slowdown stop e))

int_of_double_same : (z w : ℤ) → int_of_double z ≡ some w → z ≡ w
unfolding int_of_double
int_of_double_same (pos n) w h = ground arith
int_of_double_same (negsuc n) w h = ground arith

-- The size ratio and the triggers at level 0 that are derived from it.
pub record IsRatio (e : DbEnv) : Type 0 where
  pub compaction : e.level0_file_num_compaction_trigger ≡ e.size_ratio
  pub slowdown : e.column_family.level0_slowdown_writes_trigger ≡ pred_ℤ e.size_ratio
  pub stop : e.column_family.level0_stop_writes_trigger ≡ e.size_ratio

-- Whatever flags are given, and whatever the environment was.
pub parse_arguments-IsRatio :
    (a : Arguments) (e e' : DbEnv) → parse_arguments (parsed a) e ≡ some (returns 0 e') → IsRatio e'
unfolding apply_arguments
parse_arguments-IsRatio a e e' h =
    let (slowdown, stop, at_slowdown, at_stop, same) = parse_inv a e e' h in
    subst IsRatio same (record {
      compaction = sym (int_of_double_same _ _ at_stop);
      slowdown = sym (int_of_double_same _ _ at_slowdown);
      stop = sym (int_of_double_same _ _ at_stop);
    })

abbrev pub no_flags : Arguments
no_flags = record {
  destroy_database = none;
  clear_system_cache = none;
  size_ratio = none;
  buffer_size_in_pages = none;
  entries_per_page = none;
  entry_size = none;
  buffer_size = none;
  file_to_memtable_size_ratio = none;
  file_size = none;
  compaction_pri = none;
  compaction_style = none;
  bits_per_key = none;
  block_cache = none;
  enable_perf = none;
  enable_iostat = none;
  enable_rocksdb_stats = none;
  show_progress = none;
  verbosity = none;
  enable_per_op_time = none;
  enable_total_time = none;
  low_pri = none;
}

in_range : (n : ℕ) → 0 < n → n < 2 ^ 31 → int_of_double (pred_ℤ (pos n)) ≡ some (pred_ℤ (pos n))
unfolding int_of_double
in_range n positive fits = ground arith

parse_in_range :
    (a : Arguments) (e : DbEnv) (n : ℕ)
    → given a.size_ratio itself e.size_ratio ≡ pos n
    → 0 < n
    → n < 2 ^ 31
    → parse_arguments (parsed a) e ≡ some (returns 0 (apply_arguments a (pred_ℤ (pos n)) (pos n) e))
parse_in_range a e n is_n positive fits =
    parse_steps a e (pred_ℤ (pos n)) (pos n)
      (ap (λ r. int_of_double (pred_ℤ r)) is_n ∙ in_range n positive fits)
      (ap int_of_double is_n ∙ unfold int_of_double in rw (lt→ltb n (2 ^ 31) fits))

-- With a size ratio from 1 on that fits an `int`, from its flag or from the environment, and whatever the
-- other flags and the environment are: parse_arguments returns 0. It leaves that size ratio, and the
-- triggers at level 0 fit it.
pub parse_arguments_settles :
    (a : Arguments) (e : DbEnv) (n : ℕ)
    → given a.size_ratio itself e.size_ratio ≡ pos n
    → 0 < n
    → n < 2 ^ 31
    → (e' : DbEnv) × (parse_arguments (parsed a) e ≡ some (returns 0 e'))
      × (e'.size_ratio ≡ pos n)
      × IsRatio e'
unfolding apply_arguments
parse_arguments_settles a e n is_n positive fits =
    let e' = apply_arguments a (pred_ℤ (pos n)) (pos n) e in
    let parsed_so = parse_in_range a e n is_n positive fits in
    (e', parsed_so, is_n, parse_arguments-IsRatio a e e' parsed_so)

-- Without flags, an environment whose triggers fit its size ratio, with a ratio from 1 on that fits an
-- `int` and no buffer size of its own, stays as it is.
pub parse_arguments-no_flags :
    (e : DbEnv) (n : ℕ)
    → IsRatio e
    → e.size_ratio ≡ pos n
    → 0 < n
    → n < 2 ^ 31
    → e.buffer_size ≡ 0
    → parse_arguments (parsed no_flags) e ≡ some (returns 0 e)
unfolding apply_arguments given
parse_arguments-no_flags e n ratio is_n positive fits unset =
    parse_in_range no_flags e n is_n positive fits
    ∙ ap (λ x. some (returns 0 x))
        (λ i. record e {
          buffer_size = sym unset i;
          level0_file_num_compaction_trigger = (sym is_n ∙ sym ratio.compaction) i;
          column_family = record e.column_family {
            level0_slowdown_writes_trigger = (ap pred_ℤ (sym is_n) ∙ sym ratio.slowdown) i;
            level0_stop_writes_trigger = (sym is_n ∙ sym ratio.stop) i;
          };
        })
