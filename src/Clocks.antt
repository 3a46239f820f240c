-- ===== src/Clocks.antt =====
-- src/aux_time.cc: readings of the clock and the time between two of them, as it is built without
-- __USE_GETTIMEOFDAY. The system's clock and the arithmetic of `double` are parameters.
pub mod Elapsed
mod Tests
use lsm_workload_aware_compa.Prelude.{
  ◌*◌, ◌/◌, ℕ, ◌^◌, Option, none, some, ◌++◌, if◌then◌else◌, ◌>>=◌,
}
use lsm_workload_aware_compa.Prelude.Int.{ℤ, pos, ◌-ℤ◌, ◌+ℤ◌, sub_ℕ, pos_part, neg_part, fits_long}
use lsm_workload_aware_compa.Buffer.{Text}
use lsm_workload_aware_compa.Utils.Decimal.{codes, newline, signed}

-- my_clock, a struct timespec.
pub record MyClock : Type 0 where
  pub tv_sec : ℤ
  pub tv_nsec : ℤ

-- A `long`; an overflow is undefined.
unfoldable pub as_long : ℤ → Option ℤ
as_long n = if fits_long n then some n else none

-- The product with a constant, and the quotient by one, which drops the fraction on both sides of 0.
abbrev pub times : ℕ → ℤ → ℤ
times k n = sub_ℕ (k * pos_part n) (k * neg_part n)

abbrev pub divided : ℤ → ℕ → ℤ
divided n k = sub_ℕ (pos_part n / k) (neg_part n / k)

-- The call of clock_gettime on a struct: its code, and the struct behind it.
abbrev my_clock_get_time : (MyClock → ℤ × MyClock) → MyClock → ℤ × MyClock
my_clock_get_time clock_gettime clk = let (ret, read) = clock_gettime clk in (ret, read)

unfoldable pub getclock_diff_us : MyClock → MyClock → Option ℤ
getclock_diff_us clk1 clk2 = as_long (clk2.tv_sec -ℤ clk1.tv_sec) >>= λ sec.
    as_long (times 1000000 sec) >>= λ us.
    as_long (clk2.tv_nsec -ℤ clk1.tv_nsec) >>= λ nsec. as_long (us +ℤ divided nsec 1000)

unfoldable pub getclock_diff_ns : MyClock → MyClock → Option ℤ
getclock_diff_ns clk1 clk2 = as_long (clk2.tv_sec -ℤ clk1.tv_sec) >>= λ sec.
    as_long (times 1000000000 sec) >>= λ ns.
    as_long (clk2.tv_nsec -ℤ clk1.tv_nsec) >>= λ nsec. as_long (ns +ℤ nsec)

record SecondOps : Type 1 where
  D : Type 0
  of_long : ℤ → D
  add : D → D → D
  div : D → D → D
  text : D → Text

module _ (d : SecondOps) where
  open d use {D, of_long, add, div, text}

  abbrev seconds : ℤ → ℤ → D
  seconds sec nsec = add (of_long sec) (div (of_long nsec) (of_long (pos 1000000000)))

  abbrev getclock_diff_s : MyClock → MyClock → Option D
  getclock_diff_s clk1 clk2 = as_long (clk2.tv_sec -ℤ clk1.tv_sec) >>= λ sec.
      as_long (clk2.tv_nsec -ℤ clk1.tv_nsec) >>= λ nsec. some (seconds sec nsec)

  abbrev my_print_clock : MyClock → Text
  my_print_clock clk =
      codes "CLK: "
      ++ signed clk.tv_sec
      ++ codes " s + "
      ++ signed clk.tv_nsec
      ++ codes " ns = "
      ++ text (seconds clk.tv_sec clk.tv_nsec)
      ++ codes " sec"
      ++ newline
