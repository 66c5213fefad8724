-- ===== src/Module/Backend.antt =====
-- The backend module: its callback, its loading and the calls into it.
use whatsup.Prelude.{
  ℕ, Bool, true, false, Option, none, some, List, [], ◌∷◌, ◌++◌, ◌&&◌, Name, codes, leb, length,
  if◌then◌else◌, ℤ, negsuc, Exec, continue, at_pointer,
}
use whatsup.Handle.Err
use whatsup.Handle.State.{State, put_errnum}
use whatsup.Handle.Checks.{fail_with}
use whatsup.Module.Info.{BackendPointers, DevelApi, Env}
use whatsup.Module.Find.{find_module, closed}

abbrev pub backend_modules : List Name
backend_modules =
    codes "nodeupdown_backend_cerebro.so"
    ∷ codes "nodeupdown_backend_ganglia.so"
    ∷ codes "nodeupdown_backend_pingd.so"
    ∷ []

abbrev pub backend_module_signature : Name
backend_module_signature = codes "nodeupdown_backend_"

abbrev pub backend_module_info_sym : Name
backend_module_info_sym = codes "backend_module_info"

abbrev pub backend_module_buflen : ℕ
backend_module_buflen = 1024

abbrev pub backend_complete : BackendPointers → Bool
backend_complete p =
    p.backend_module_name && p.default_hostname && p.default_port && p.default_timeout_len
    && p.preferred_clusterlist_module && p.setup && p.cleanup && p.get_updown_data

-- `modulebuf` after its `snprintf`, were it long enough, and whether it is too short for that
unfoldable pub backend_modulebuf : Name → Name
backend_modulebuf name = codes "nodeupdown_backend_" ++ (name ++ codes ".so")

unfoldable pub backend_name_overflow : Name → Bool
unfolding backend_modulebuf
backend_name_overflow name = leb backend_module_buflen (length (backend_modulebuf name))

module _ {H T : Type 0} where
  abbrev pub set_backend : Option ℕ → Option ℕ → State H T → State H T
  set_backend dl info s = record s {
    modules = record s.modules { backend_module_dl_handle = dl; backend_module_info = info };
  }

  module _ (env : Env H T) where
    unfoldable pub backend_module_callback : Option ℕ → Option ℕ → Exec (State H T) Bool
    backend_module_callback (some dl_handle) (some info) s =
        if backend_complete (env.backend info).pointers
        then (some true, set_backend (some dl_handle) (some info) s)
        else (some false, set_backend none none s)
    backend_module_callback none info s = fail_with Err.internal s
    backend_module_callback (some dl_handle) none s = fail_with Err.internal s

    unfoldable pub found_or : ℕ → Bool → Exec (State H T) (Unit {0})
    found_or e true s = (some tt, s)
    found_or e false s = fail_with e s

    -- the caller's module, or the first of the known ones
    unfoldable pub backend_module_load : Option Name → Exec (State H T) (Unit {0})
    unfolding found_or backend_module_callback
    backend_module_load none s =
        let r =
          find_module env (backend_module_callback) backend_module_info_sym backend_modules
            backend_module_signature s in
        continue r.0 (found_or Err.backend_module) r.1
    backend_module_load (some name) s =
        let r =
          find_module env (backend_module_callback) backend_module_info_sym
            (backend_modulebuf name ∷ []) backend_module_signature s in
        if backend_name_overflow name
        then fail_with Err.backend_module s
        else continue r.0 (found_or Err.backend_module) r.1

    unfoldable pub backend_module_default_hostname : Exec (State H T) Name
    backend_module_default_hostname s =
        at_pointer s.modules.backend_module_info (λ info. (env.backend info).default_hostname s)
          (fail_with Err.internal s)

    unfoldable pub backend_module_default_port : State H T → ℤ × State H T
    backend_module_default_port s =
        at_pointer s.modules.backend_module_info (λ info. (env.backend info).default_port s)
          (negsuc 0, put_errnum Err.internal s)

    unfoldable pub backend_module_default_timeout_len : State H T → ℤ × State H T
    backend_module_default_timeout_len s =
        at_pointer s.modules.backend_module_info (λ info. (env.backend info).default_timeout_len s)
          (negsuc 0, put_errnum Err.internal s)

    unfoldable pub backend_module_preferred_clusterlist_module : Exec (State H T) Name
    backend_module_preferred_clusterlist_module s =
        at_pointer s.modules.backend_module_info
          (λ info. (env.backend info).preferred_clusterlist_module s) (fail_with Err.internal s)

    unfoldable pub backend_module_setup : Exec (State H T) (Unit {0})
    backend_module_setup s =
        at_pointer s.modules.backend_module_info (λ info. (env.backend info).setup s)
          (fail_with Err.internal s)

    unfoldable pub backend_module_cleanup : Exec (State H T) (Unit {0})
    backend_module_cleanup s =
        at_pointer s.modules.backend_module_info (λ info. (env.backend info).cleanup s) (some tt, s)

    unfoldable pub backend_module_get_updown_data :
        DevelApi H T → Name → ℕ → ℕ → Option Name → Exec (State H T) (Unit {0})
    backend_module_get_updown_data devel hostname port timeout_len reserved s =
        at_pointer s.modules.backend_module_info
          (λ info. (env.backend info).get_updown_data devel hostname port timeout_len reserved s)
          (fail_with Err.internal s)

  unfoldable pub backend_module_unload : State H T → State H T
  backend_module_unload s =
      set_backend none none
        (elim s.modules.backend_module_dl_handle [ none ↦ s | some dl ↦ closed s ])
