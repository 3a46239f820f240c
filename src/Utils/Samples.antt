-- ===== src/Utils/Samples.antt =====
-- A way to print doubles, for tests: the fraction's numerator and denominator.
use lsm_workload_aware_compa.Prelude.{◌++◌, ◌∷◌, ◌/◌}
use lsm_workload_aware_compa.Double.{exact_double}
use lsm_workload_aware_compa.Utils.{DoubleText}
use lsm_workload_aware_compa.Utils.Decimal.{decimal, signed}

abbrev pub fraction_text : DoubleText exact_double
fraction_text = record {
  whole_text = signed;
  text = λ x. decimal x.num ++ 47 ∷ decimal x.den;
  fixed_text = λ x. decimal (x.num / x.den);
}
