-- ===== src/Utils/Written.antt =====
-- What the reports add to a log.
use lsm_workload_aware_compa.Prelude.{ℕ, List, [], ◌∷◌, ltb}
use lsm_workload_aware_compa.Double.{DoubleOps}
use lsm_workload_aware_compa.Buffer.{Text, Buffer}
use lsm_workload_aware_compa.Buffer.Adding.{Adds, Adds-then, Adds-if, Adds-nothing, put_all-Adds}
use lsm_workload_aware_compa.Env.{DbEnv}
use lsm_workload_aware_compa.Utils.{DoubleText}
use lsm_workload_aware_compa.Utils.Reports.{
  HistogramData, Counters, ticker_pieces, histogram_pieces, print_tickers, print_histograms,
  print_rocksdb_perf_stats, ticker_text, histogram_text, report, print_statistics, statistics_text,
  heading, perf_pieces, iostat_pieces,
}

module _ (fp : DoubleOps) (print : DoubleText fp) where
  print_tickers-Adds :
      (ts : List (Text × ℕ)) (b : Buffer)
      → Adds b (print_tickers fp print b ts) (ticker_text fp print ts)
  unfolding print_tickers ticker_text
  print_tickers-Adds [] b = Adds-nothing b
  print_tickers-Adds (t ∷ ts) b =
      Adds-then (Adds-if (ltb 0 t.1) (put_all-Adds b (ticker_pieces fp print t)))
        (print_tickers-Adds ts _)

  print_histograms-Adds :
      (hs : List (Text × HistogramData fp)) (b : Buffer)
      → Adds b (print_histograms fp print b hs) (histogram_text fp print hs)
  unfolding print_histograms histogram_text
  print_histograms-Adds [] b = Adds-nothing b
  print_histograms-Adds (h ∷ hs) b =
      Adds-then (Adds-if (ltb 0 h.1.count) (put_all-Adds b (histogram_pieces fp print h)))
        (print_histograms-Adds hs _)

  print_statistics-Adds :
      (c : Counters fp) (b : Buffer)
      → Adds b (print_statistics fp print c b) (statistics_text fp print c)
  unfolding print_statistics
  print_statistics-Adds c b =
      Adds-then (put_all-Adds b (heading fp print))
        (Adds-then (print_tickers-Adds c.tickers _) (print_histograms-Adds c.histograms _))

  pub print_rocksdb_perf_stats-report :
      (e : DbEnv) (c : Counters fp) (b : Buffer)
      → Adds b (print_rocksdb_perf_stats fp print e c b) (report fp print e c)
  unfolding print_rocksdb_perf_stats report
  print_rocksdb_perf_stats-report e c b =
      Adds-then (Adds-if e.rocksdb_stats (print_statistics-Adds c b)) (
        Adds-then (Adds-if e.perf_stats (put_all-Adds _ (perf_pieces fp print c)))
          (Adds-if e.iostat_stats (put_all-Adds _ (iostat_pieces fp print c))))
