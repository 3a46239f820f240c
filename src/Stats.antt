-- ===== src/Stats.antt =====
-- include/stats.h and src/stats.cc: the statistics object with its initial values, its one instance, and
-- printStats. The arithmetic of `float`, and how a stream prints one, are parameters.
pub mod Printing
mod Tests
use lsm_workload_aware_compa.Prelude.{
  ℕ, ◌-◌, ◌^◌, ◌≡◌, refl, String, Bool, false, Option, none, some, List, [],
}
use lsm_workload_aware_compa.Prelude.Int.{ℤ, negsuc}
use lsm_workload_aware_compa.Buffer.{Text}

pub record FadeFileInfo : Type 0 where
  pub file_id : String
  pub file_level : ℤ
  pub file_entry_count : ℤ
  pub file_tombstone_count : ℤ
  pub file_size : ℤ
  pub file_age : ℤ  -- double; nothing sets it
  pub file_ttl_expired : Bool

-- `float`, with the conversions from `long` and `uint64_t`, and its text: in fixed notation or not,
-- with a precision.
pub record FloatOps : Type 1 where
  pub F : Type 0
  pub of_long : ℤ → F
  pub of_u64 : ℕ → F
  pub mul : F → F → F
  pub div : F → F → F
  pub text : Bool → ℕ → F → Text

pub record Stats (f : FloatOps) : Type 0 where
  pub key_size : ℕ  -- uint64_t, as the next
  pub value_size : ℕ
  pub inserts_completed : ℤ
  pub updates_completed : ℤ
  pub update_proportion : f.F
  pub point_deletes_completed : ℤ
  pub range_deletes_completed : ℤ
  pub point_queries_completed : ℤ
  pub range_queries_completed : ℤ
  pub levels_in_tree : ℤ
  pub files_in_tree : ℤ
  pub key_values_in_tree : ℤ
  pub point_tombstones_in_tree : ℤ
  pub range_tombstones_in_tree : ℤ
  pub files_in_level : List ℤ
  pub fade_file_info : List FadeFileInfo
  pub compaction_count : ℤ
  pub compactions_by_pointer_manipulation : ℤ
  pub files_read_for_compaction : ℤ
  pub bytes_read_for_compaction : ℤ
  pub files_written_after_compaction : ℤ
  pub bytes_written_after_compaction : ℤ
  pub space_amp : f.F
  pub write_amp : f.F
  pub exp_runtime : ℤ
  pub completion_status : Bool
  pub db_open : Bool

abbrev minus_one : ℤ
minus_one = negsuc 0

-- The constructor. It leaves `exp_runtime` as it is found.
abbrev pub new_stats : (f : FloatOps) → ℤ → Stats f
new_stats f found = record {
  key_size = 2 ^ 64 - 1;
  value_size = 2 ^ 64 - 1;
  inserts_completed = minus_one;
  updates_completed = minus_one;
  update_proportion = f.of_long minus_one;
  point_deletes_completed = minus_one;
  range_deletes_completed = minus_one;
  point_queries_completed = minus_one;
  range_queries_completed = minus_one;
  levels_in_tree = minus_one;
  files_in_tree = minus_one;
  key_values_in_tree = minus_one;
  point_tombstones_in_tree = minus_one;
  range_tombstones_in_tree = minus_one;
  files_in_level = [];
  fade_file_info = [];
  compaction_count = minus_one;
  compactions_by_pointer_manipulation = minus_one;
  files_read_for_compaction = minus_one;
  bytes_read_for_compaction = minus_one;
  files_written_after_compaction = minus_one;
  bytes_written_after_compaction = minus_one;
  space_amp = f.of_long minus_one;
  write_amp = f.of_long minus_one;
  exp_runtime = found;
  completion_status = false;
  db_open = false;
}

-- Stats::getInstance on the static pointer: the object, and the pointer behind the call.
unfoldable pub get_instance : (f : FloatOps) → ℤ → Option (Stats f) → Stats f × Option (Stats f)
get_instance f found none = (new_stats f found, some (new_stats f found))
get_instance f found (some s) = (s, some s)

-- A second call returns what the first did, whatever memory it would find.
get_instance-again :
    (f : FloatOps) (found later : ℤ) (instance_ : Option (Stats f))
    → get_instance f later (get_instance f found instance_).1 ≡ get_instance f found instance_
unfolding get_instance
get_instance-again f found later none = refl
get_instance-again f found later (some s) = refl
