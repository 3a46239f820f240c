-- ===== src/Stats/Tests.antt =====
-- Statistics whose figures are fractions without a sign, printed once: the environment that GetInstance
-- finds is gone afterwards.
use lsm_workload_aware_compa.Prelude.{◌*◌, ◌≡◌, refl, ℕ, false, none, some, ◌∷◌, ◌++◌}
use lsm_workload_aware_compa.Prelude.Int.{pos, pos_part}
use lsm_workload_aware_compa.Utils.Decimal.{decimal}
use lsm_workload_aware_compa.Env.Defaults.{new_env}
use lsm_workload_aware_compa.Env.Instance.{get_instance}
use lsm_workload_aware_compa.Stats.{FloatOps, Stats, new_stats}
use lsm_workload_aware_compa.Stats.Printing.{
  Format, left_behind, shown_stats, print_stats, set_proportion, set_space_amp, unique_bytes,
}

record Fraction : Type 0 where
  num : ℕ
  den : ℕ

abbrev fractions : FloatOps
fractions = record {
  F = Fraction;
  of_long = λ n. record { num = pos_part n; den = 1 };
  of_u64 = λ n. record { num = n; den = 1 };
  mul = λ a b. record { num = a.num * b.num; den = a.den * b.den };
  div = λ a b. record { num = a.num * b.den; den = a.den * b.num };
  text = λ fixed precision a. decimal a.num ++ 47 ∷ decimal a.den;
}

-- Three inserts, one of them deleted, in two files.
abbrev loaded : Stats fractions
loaded = record (new_stats fractions (pos 0)) {
  key_size = 8;
  value_size = 24;
  inserts_completed = pos 3;
  updates_completed = pos 1;
  point_deletes_completed = pos 1;
  point_tombstones_in_tree = pos 1;
  files_in_tree = pos 2;
}

abbrev printed : Stats fractions
printed = record loaded {
  update_proportion = record { num = 1; den = 3 };
  space_amp = record { num = 900; den = 64 };
}

abbrev general : Format
general = record { fixed = false; precision = 6; width = 0 }

printed_first :
    print_stats fractions (some new_env) general loaded
    ≡ some (printed, none, left_behind, shown_stats fractions general printed)
unfolding print_stats get_instance set_proportion set_space_amp unique_bytes
printed_first = refl
