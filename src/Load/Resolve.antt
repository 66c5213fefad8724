-- ===== src/Load/Resolve.antt =====
-- The port and the timeout that a load uses: the caller's, the configuration file's, the config
-- module's, or the backend's default.
use whatsup.Prelude.{some, if◌then◌else◌, ℤ, is_nonpos, is_neg, Exec}
use whatsup.Handle.Err
use whatsup.Handle.State.{State}
use whatsup.Handle.Checks.{fail_with}
use whatsup.Module.Info.{NodeupdownConfig, Env}
use whatsup.Module.Backend.{backend_module_default_port, backend_module_default_timeout_len}

module _ {H T : Type 0} (env : Env H T) where
  -- the function is called once for the test and once for the value
  unfoldable pub default_port : Exec (State H T) ℤ
  default_port s =
      let (tested, s') = backend_module_default_port env s in
      let (port, s'') = backend_module_default_port env s' in
      if is_nonpos tested then fail_with Err.backend_module s' else (some port, s'')

  unfoldable pub resolve_port : ℤ → NodeupdownConfig → NodeupdownConfig → Exec (State H T) ℤ
  unfolding default_port
  resolve_port port conffile_config module_config s =
      if is_nonpos port
      then if conffile_config.port_flag
        then if is_nonpos conffile_config.port
          then fail_with Err.conf_input s
          else (some conffile_config.port, s)
        else if module_config.port_flag
        then if is_nonpos module_config.port
          then fail_with Err.config_module s
          else (some module_config.port, s)
        else default_port s
      else (some port, s)

  unfoldable pub default_timeout_len : Exec (State H T) ℤ
  default_timeout_len s =
      let (tested, s') = backend_module_default_timeout_len env s in
      let (timeout_len, s'') = backend_module_default_timeout_len env s' in
      if is_neg tested then fail_with Err.backend_module s' else (some timeout_len, s'')

  unfoldable pub resolve_timeout_len : ℤ → NodeupdownConfig → NodeupdownConfig → Exec (State H T) ℤ
  unfolding default_timeout_len
  resolve_timeout_len timeout_len conffile_config module_config s =
      if is_nonpos timeout_len
      then if conffile_config.timeout_len_flag
        then if is_nonpos conffile_config.timeout_len
          then fail_with Err.conf_input s
          else (some conffile_config.timeout_len, s)
        else if module_config.timeout_len_flag
        then if is_nonpos module_config.timeout_len
          then fail_with Err.config_module s
          else (some module_config.timeout_len, s)
        else default_timeout_len s
      else (some timeout_len, s)
