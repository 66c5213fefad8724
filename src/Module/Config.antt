-- ===== src/Module/Config.antt =====
-- The config module: its callback, its loading and the calls into it.
use whatsup.Prelude.{
  ℕ, Bool, true, false, Option, none, some, List, [], ◌∷◌, ◌&&◌, Name, codes, if◌then◌else◌, Exec,
  continue, at_pointer,
}
use whatsup.Handle.Err
use whatsup.Handle.State.{State, InfoAddr, builtin, symbol}
use whatsup.Handle.Checks.{fail_with}
use whatsup.Module.Info.{ConfigPointers, ConfigInfo, NodeupdownConfig, Env}
use whatsup.Module.Find.{find_module, closed}
use whatsup.Module.Default.{default_config_module_info}

abbrev pub config_modules : List Name
config_modules = codes "nodeupdown_config_chaos.so" ∷ []

abbrev pub config_module_signature : Name
config_module_signature = codes "nodeupdown_config_"

abbrev pub config_module_info_sym : Name
config_module_info_sym = codes "config_module_info"

abbrev pub config_complete : ConfigPointers → Bool
config_complete p = p.config_module_name && p.setup && p.cleanup && p.load_config

module _ {H T : Type 0} where
  abbrev pub set_config : Option ℕ → Option InfoAddr → State H T → State H T
  set_config dl info s = record s {
    modules = record s.modules { config_module_dl_handle = dl; config_module_info = info };
  }

  unfoldable pub config_module_unload : State H T → State H T
  config_module_unload s =
      set_config none none
        (elim s.modules.config_module_dl_handle [ none ↦ s | some dl ↦ closed s ])

  module _ (env : Env H T) where
    abbrev pub config_at : InfoAddr → ConfigInfo H T
    unfolding default_config_module_info
    config_at builtin = default_config_module_info
    config_at (symbol info) = env.config info

    unfoldable pub config_module_callback : Option ℕ → Option ℕ → Exec (State H T) Bool
    config_module_callback (some dl_handle) (some info) s =
        if config_complete (env.config info).pointers
        then (some true, set_config (some dl_handle) (some (symbol info)) s)
        else (some false, set_config none none s)
    config_module_callback none info s = fail_with Err.internal s
    config_module_callback (some dl_handle) none s = fail_with Err.internal s

    unfoldable pub config_result : Bool → Exec (State H T) (Unit {0})
    config_result true s = (some tt, s)
    config_result false s =
        (some tt, record s { modules = record s.modules { config_module_info = some builtin } })

    unfoldable pub config_module_load : Exec (State H T) (Unit {0})
    unfolding config_result config_module_callback
    config_module_load s =
        let r =
          find_module env (config_module_callback) config_module_info_sym config_modules
            config_module_signature s in
        continue r.0 config_result r.1

    unfoldable pub config_module_setup : Exec (State H T) (Unit {0})
    config_module_setup s =
        at_pointer s.modules.config_module_info (λ info. (config_at info).setup s)
          (fail_with Err.internal s)

    unfoldable pub config_module_cleanup : Exec (State H T) (Unit {0})
    config_module_cleanup s =
        at_pointer s.modules.config_module_info (λ info. (config_at info).cleanup s) (some tt, s)

    unfoldable pub config_module_load_config : NodeupdownConfig → Exec (State H T) NodeupdownConfig
    config_module_load_config conf s =
        at_pointer s.modules.config_module_info (λ info. (config_at info).load_config conf s)
          (fail_with Err.internal s)
