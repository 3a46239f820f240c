-- ===== src/Env/Default.antt =====
-- The namespace Default of include/db_env.h.
use lsm_workload_aware_compa.Prelude.{ℕ}

abbrev pub entry_size : ℕ
entry_size = 64

abbrev pub entries_per_page : ℕ
entries_per_page = 64

abbrev pub buffer_size_in_pages : ℕ
buffer_size_in_pages = 128

abbrev pub size_ratio : ℕ
size_ratio = 4

abbrev pub file_to_memtable_size_ratio : ℕ
file_to_memtable_size_ratio = 1

abbrev pub max_write_buffer_number : ℕ
max_write_buffer_number = 2

abbrev pub level0_file_num_compaction_trigger : ℕ
level0_file_num_compaction_trigger = size_ratio

abbrev pub max_open_files : ℕ
max_open_files = 1000

abbrev pub max_file_opening_threads : ℕ
max_file_opening_threads = 1000
