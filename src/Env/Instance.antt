-- ===== src/Env/Instance.antt =====
-- DBEnv::GetInstance (include/db_env.h), on the static pointer that it guards by a mutex.
use lsm_workload_aware_compa.Prelude.{◌≡◌, refl, Option, none, some}
use lsm_workload_aware_compa.Env.{DbEnv}
use lsm_workload_aware_compa.Env.Defaults.{new_env}

-- The pointer that is handed out, and the static one behind the call: it is moved from, not copied.
unfoldable pub get_instance : Option DbEnv → DbEnv × Option DbEnv
get_instance none = (new_env, none)
get_instance (some e) = (e, none)

-- Whatever the static pointer was, the next call makes an object of its own, with the defaults.
get_instance-again :
    (instance_ : Option DbEnv) → get_instance (get_instance instance_).1 ≡ (new_env, none)
unfolding get_instance
get_instance-again none = refl
get_instance-again (some e) = refl
