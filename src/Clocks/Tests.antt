-- ===== src/Clocks/Tests.antt =====
-- Half a second past a full one, which borrows a second from the later reading.
use lsm_workload_aware_compa.Prelude.{ℕ, ◌+◌, ◌-◌, ◌*◌, ◌<◌, ◌≡◌, some, arith}
use lsm_workload_aware_compa.Prelude.Int.{pos}
use lsm_workload_aware_compa.Clocks.{getclock_diff_us, getclock_diff_ns}
use lsm_workload_aware_compa.Clocks.Elapsed.{total, reading, getclock_diff_us-near}

getclock_diff_us-near_example :
    (getclock_diff_ns (reading 10 999999500) (reading 12 499999000)
      ≡ some (pos (total 12 499999000 - total 10 999999500)))
    × ((us : ℕ) × (getclock_diff_us (reading 10 999999500) (reading 12 499999000) ≡ some (pos us))
        × (us * 1000 < total 12 499999000 - total 10 999999500 + 1000)
        × (total 12 499999000 - total 10 999999500 < us * 1000 + 1000))
getclock_diff_us-near_example =
    getclock_diff_us-near 10 999999500 12 499999000 (omega arith) (omega arith) (omega arith)
      (omega arith)
