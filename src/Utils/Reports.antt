-- ===== src/Utils/Reports.antt =====
-- PrintRocksDBPerfStats and LogTreeState. A chain of `<<` is a run of insertions. What RocksDB has counted
-- is an argument; so is its description of the tree.
use lsm_workload_aware_compa.Prelude.{ℕ, List, [], ◌∷◌, ◌++◌, if◌then◌else◌, ltb}
use lsm_workload_aware_compa.Prelude.Int.{pos, ltb_ℤ}
use lsm_workload_aware_compa.Double.{DoubleOps}
use lsm_workload_aware_compa.Buffer.{Text, Buffer}
use lsm_workload_aware_compa.Buffer.Stream.{put_all, concat}
use lsm_workload_aware_compa.Env.{DbEnv}
use lsm_workload_aware_compa.Utils.{DoubleText}
use lsm_workload_aware_compa.Utils.Decimal.{codes, newline, decimal}

-- What the database says of its tree: for each level its number, the number of its files and its size.
pub record LevelState : Type 0 where
  pub level : ℕ
  pub files : ℕ
  pub size : ℕ

pub record TreeState : Type 0 where
  pub name : Text
  pub size : ℕ
  pub file_count : ℕ
  pub levels : List LevelState

abbrev pub level_line : LevelState → Text
level_line l =
    codes "Level: "
    ++ decimal l.level
    ++ codes ", Files: "
    ++ decimal l.files
    ++ codes ", Size: "
    ++ decimal l.size
    ++ codes " bytes"
    ++ newline

unfoldable pub level_lines : List LevelState → Text
level_lines [] = []
level_lines (l ∷ ls) = level_line l ++ level_lines ls

-- The text that the stringstream of LogTreeState holds.
unfoldable pub cfd_details : TreeState → Text
unfolding level_lines
cfd_details t =
    codes "Column Family Name: "
    ++ t.name
    ++ codes ", Size: "
    ++ decimal t.size
    ++ codes " bytes, Files Count: "
    ++ decimal t.file_count
    ++ newline
    ++ codes "Level Stats:"
    ++ newline
    ++ level_lines t.levels

-- LogTreeState, behind the flush of the memtable.
unfoldable pub log_tree_state : DbEnv → TreeState → Buffer → Buffer
unfolding cfd_details put_all
log_tree_state e t b =
    if ltb_ℤ (pos 0) e.db.verbosity then put_all b (cfd_details t ∷ newline ∷ []) else b

module _ (fp : DoubleOps) where
  pub record HistogramData : Type 0 where
    pub median : fp.D
    pub percentile95 : fp.D
    pub percentile99 : fp.D
    pub max : fp.D
    pub count : ℕ
    pub sum : ℕ

  -- The values behind TickersNameMap and HistogramsNameMap, in their order, and the two contexts.
  pub record Counters : Type 0 where
    pub tickers : List (Text × ℕ)
    pub histograms : List (Text × HistogramData)
    pub perf_context : Text
    pub iostats_context : Text

module _ (fp : DoubleOps) (print : DoubleText fp) where
  abbrev pub ticker_pieces : Text × ℕ → List Text
  ticker_pieces (name, value) = name ∷ codes " COUNT: " ∷ decimal value ∷ newline ∷ []

  abbrev pub histogram_pieces : Text × HistogramData fp → List Text
  histogram_pieces (name, h) =
      name
      ∷ codes " P50 : "
      ∷ print.text h.median
      ∷ codes " P95 : "
      ∷ print.text h.percentile95
      ∷ codes " P99 : "
      ∷ print.text h.percentile99
      ∷ codes " P100 : "
      ∷ print.text h.max
      ∷ codes " COUNT : "
      ∷ decimal h.count
      ∷ codes " SUM : "
      ∷ decimal h.sum
      ∷ newline
      ∷ []

  unfoldable pub print_tickers : Buffer → List (Text × ℕ) → Buffer
  unfolding put_all
  print_tickers b [] = b
  print_tickers b (t ∷ ts) = print_tickers (if ltb 0 t.1 then put_all b (ticker_pieces t) else b) ts

  unfoldable pub print_histograms : Buffer → List (Text × HistogramData fp) → Buffer
  unfolding put_all
  print_histograms b [] = b
  print_histograms b (h ∷ hs) =
      print_histograms (if ltb 0 h.1.count then put_all b (histogram_pieces h) else b) hs

  abbrev pub perf_pieces : Counters fp → List Text
  perf_pieces c = codes "[Perf Context]\n" ∷ c.perf_context ∷ newline ∷ []

  abbrev pub iostat_pieces : Counters fp → List Text
  iostat_pieces c = codes "\n[IO Stats Context]\n" ∷ c.iostats_context ∷ newline ∷ []

  abbrev pub heading : List Text
  heading = codes "\n[Rocksdb Stats]\n" ∷ []

  -- The branch for RocksDB's statistics.
  unfoldable pub print_statistics : Counters fp → Buffer → Buffer
  print_statistics c b = print_histograms (print_tickers (put_all b heading) c.tickers) c.histograms

  -- PrintRocksDBPerfStats
  unfoldable pub print_rocksdb_perf_stats : DbEnv → Counters fp → Buffer → Buffer
  print_rocksdb_perf_stats e c b =
      let b1 = if e.rocksdb_stats then print_statistics c b else b in
      let b2 = if e.perf_stats then put_all b1 (perf_pieces c) else b1 in
      if e.iostat_stats then put_all b2 (iostat_pieces c) else b2

  -- The lines of the counters that are not zero.
  unfoldable pub ticker_text : List (Text × ℕ) → Text
  ticker_text [] = []
  ticker_text (t ∷ ts) = (if ltb 0 t.1 then concat (ticker_pieces t) else []) ++ ticker_text ts

  unfoldable pub histogram_text : List (Text × HistogramData fp) → Text
  histogram_text [] = []
  histogram_text (h ∷ hs) =
      (if ltb 0 h.1.count then concat (histogram_pieces h) else []) ++ histogram_text hs

  abbrev pub statistics_text : Counters fp → Text
  statistics_text c = concat heading ++ (ticker_text c.tickers ++ histogram_text c.histograms)

  unfoldable pub report : DbEnv → Counters fp → Text
  report e c =
      (if e.rocksdb_stats then statistics_text c else [])
      ++ ((if e.perf_stats then concat (perf_pieces c) else [])
          ++ (if e.iostat_stats then concat (iostat_pieces c) else []))
