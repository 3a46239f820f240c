-- ===== src/Env/Tests.antt =====
-- Runs of the command line and of the configuration on the default environment.
use lsm_workload_aware_compa.Prelude.{◌^◌, ◌≡◌, refl, some, arith}
use lsm_workload_aware_compa.Prelude.Int.{pos}
use lsm_workload_aware_compa.Env.{DbEnv, get_buffer_size}
use lsm_workload_aware_compa.Env.Defaults.{new_env}
use lsm_workload_aware_compa.Env.Arguments.{
  Arguments, parsed, returns, given, int_of_double, apply_arguments, parse_arguments,
}
use lsm_workload_aware_compa.Env.Parsing.{IsRatio, parse_arguments_settles, no_flags}
use lsm_workload_aware_compa.Env.Config.{Setup, config_options}
use lsm_workload_aware_compa.Env.Samples.{setup_of}
use lsm_workload_aware_compa.Env.Configured.{IsSized, IsCached, config_options_settles}

-- `-T 6 -P 512 -B 4 -E 1024 --bb 8`
abbrev flags : Arguments
flags = record no_flags {
  size_ratio = some (pos 6);
  buffer_size_in_pages = some (pos 512);
  entries_per_page = some (pos 4);
  entry_size = some (pos 1024);
  block_cache = some (pos 8);
}

abbrev env : DbEnv
env = record new_env {
  size_ratio = pos 6;
  buffer_size_in_pages = 512;
  entries_per_page = 4;
  entry_size = 1024;
  level0_file_num_compaction_trigger = pos 6;
  column_family = record new_env.column_family {
    level0_slowdown_writes_trigger = pos 5;
    level0_stop_writes_trigger = pos 6;
  };
  table = record new_env.table { block_cache = pos 8 };
}

parse_flags : parse_arguments (parsed flags) new_env ≡ some (returns 0 env)
unfolding parse_arguments apply_arguments given int_of_double
parse_flags = refl

parse_arguments_settles_example :
    (e' : DbEnv) × (parse_arguments (parsed flags) new_env ≡ some (returns 0 e'))
    × (e'.size_ratio ≡ pos 6)
    × IsRatio e'
unfolding given
parse_arguments_settles_example =
    parse_arguments_settles flags new_env 6 refl (omega arith) (omega arith)

new_env-IsRatio : IsRatio new_env
new_env-IsRatio = record { compaction = refl; slowdown = refl; stop = refl }

-- A `compaction_pri` above 16 bits is cut: 65537 is 1.
cut_priority :
    parse_arguments (parsed (record no_flags { compaction_pri = some (pos 65537) })) new_env
    ≡ some (returns 0 new_env)
unfolding parse_arguments apply_arguments given int_of_double
cut_priority = refl

-- A product of 2 ^ 32 wraps to a buffer of no bytes.
wrapped_size : get_buffer_size (record new_env { buffer_size_in_pages = 2 ^ 20 }) ≡ 0
unfolding get_buffer_size
wrapped_size = refl

abbrev setup : Setup
setup = setup_of env

config_options_settles_example :
    (s' : Setup) × (config_options setup ≡ some s')
    × IsCached setup 8 s'
    × IsSized env s'.options s'.table_options
config_options_settles_example = config_options_settles setup 8 refl (omega arith) (omega arith)
