-- ===== src/Load/Data.antt =====
-- `_free_handle_data`, `nodeupdown_handle_create`, `nodeupdown_load_data` and
-- `nodeupdown_handle_destroy`.
use whatsup.Prelude.{
  ℕ, ◌+◌, ◌-◌, ◌^◌, Bool, true, false, Option, none, some, Name, if◌then◌else◌, ℤ, Exec, ◌>>=◌,
  ◌>>◌,
}
use whatsup.Handle.Err
use whatsup.Handle.State.{Handle, State, LoadState, nodeupdown_magic_num, initialize_handle}
use whatsup.Handle.Checks.{fail_with, nodeupdown_handle_error_check, unloaded_handle_error_check}
use whatsup.Module.Info.{NodeupdownConfig, Env}
use whatsup.Module.Backend.{
  backend_module_load, backend_module_setup, backend_module_cleanup, backend_module_unload,
  backend_module_preferred_clusterlist_module,
}
use whatsup.Module.Clusterlist.{
  clusterlist_module_load, clusterlist_module_setup, clusterlist_module_cleanup,
  clusterlist_module_unload, clusterlist_module_get_numnodes,
  clusterlist_module_compare_to_clusterlist,
}
use whatsup.Module.Config.{
  config_module_load, config_module_setup, config_module_cleanup, config_module_unload,
  config_module_load_config,
}
use whatsup.Devel.{devel_api}
use whatsup.Load.Config.{empty_config, read_conffile}
use whatsup.Load.Resolve.{resolve_port, resolve_timeout_len}
use whatsup.Load.Connect.{to_unsigned, get_updown_data}

module _ {H T : Type 0} where
  -- `malloc` of the handle, whose contents before `_initialize_handle` are the second argument
  unfoldable pub nodeupdown_handle_create : Bool → Handle H T → Option (Handle H T)
  nodeupdown_handle_create false memory = none
  nodeupdown_handle_create true memory =
      some (record (initialize_handle memory) { errnum = Err.success })

  -- `lt_dlexit`, if this handle called `lt_dlinit`
  unfoldable pub exit_ltdl : State H T → State H T
  exit_ltdl s =
      if s.handle.ltdl_initialized
      then record s { modules = record s.modules { dl_refs = s.modules.dl_refs - 1 } }
      else s

  module _ (env : Env H T) where
    unfoldable pub free_modules : State H T → State H T
    free_modules s =
        let s1 = backend_module_unload (backend_module_cleanup env s).1 in
        let s2 = clusterlist_module_unload (clusterlist_module_cleanup env s1).1 in
        config_module_unload (config_module_cleanup env s2).1

    -- `_free_handle_data`; destroying the two lists and the table leaves no trace but their NULLs
    unfoldable pub free_handle_data : State H T → State H T
    free_handle_data s =
        let s' = exit_ltdl (free_modules s) in record s' { handle = initialize_handle s'.handle }

    -- `none` is the return value -1; after 0 the handle is freed
    unfoldable pub nodeupdown_handle_destroy : Exec (State H T) (Unit {0})
    unfolding nodeupdown_handle_error_check
    nodeupdown_handle_destroy s =
        let s' = free_handle_data s in
        if nodeupdown_handle_error_check (some s.handle)
        then (
          some tt,
          record s' { handle = record s'.handle { magic = 2 ^ 32 - 1 - nodeupdown_magic_num } },
        )
        else (none, s)

    unfoldable pub dlinit : Exec (State H T) (Unit {0})
    dlinit s =
        if env.lt_dlinit
        then (
          some tt,
          record s {
            handle = record s.handle { ltdl_initialized = true };
            modules = record s.modules { dl_refs = s.modules.dl_refs + 1 };
          },
        )
        else fail_with Err.internal s

    unfoldable pub preferred : Exec (State H T) (Option Name)
    preferred s = let r = backend_module_preferred_clusterlist_module env s in (some r.0, r.1)

    -- the modules, in the order in which they are loaded and set up; the result is the
    -- configuration of the config module
    unfoldable pub load_modules : Option Name → Exec (State H T) NodeupdownConfig
    unfolding preferred
    load_modules module_name = do
      backend_module_load env module_name
      backend_module_setup env
      preferred_clusterlist_module ← preferred
      clusterlist_module_load env preferred_clusterlist_module
      clusterlist_module_setup env
      config_module_load env
      config_module_setup env
      config_module_load_config env empty_config

    unfoldable pub created_up : Option H → Exec (State H T) (Unit {0})
    created_up none s = fail_with Err.out_mem s
    created_up (some h) s = (some tt, record s { handle = record s.handle { up_nodes = some h } })

    unfoldable pub created_down : Option H → Exec (State H T) (Unit {0})
    created_down none s = fail_with Err.out_mem s
    created_down (some h) s =
        (some tt, record s { handle = record s.handle { down_nodes = some h } })

    unfoldable pub created_times : Option T → Exec (State H T) (Unit {0})
    created_times none s = fail_with Err.out_mem s
    created_times (some t) s =
        (some tt, record s { handle = record s.handle { last_up_times = some t } })

    unfoldable pub enter_setup : Exec (State H T) (Unit {0})
    enter_setup s =
        (some tt, record s { handle = record s.handle { load_state = LoadState.setup } })

    -- the two lists, the table and the state `SETUP`
    unfoldable pub create_tables : Exec (State H T) (Unit {0})
    unfolding created_up created_down created_times enter_setup
    create_tables = do
      created_up env.hostlist.create
      created_down env.hostlist.create
      created_times env.hash.create
      enter_setup

    unfoldable pub sort_of : Option H → Option H
    sort_of none = none
    sort_of (some h) = some (env.hostlist.sort h)

    unfoldable pub sort_lists : Exec (State H T) (Unit {0})
    sort_lists s = (
      some tt,
      record s {
        handle = record s.handle {
          up_nodes = sort_of s.handle.up_nodes;
          down_nodes = sort_of s.handle.down_nodes;
        };
      },
    )

    -- `numnodes`, `LOADED` and `SUCCESS`
    unfoldable pub complete : ℕ → Exec (State H T) (Unit {0})
    complete numnodes s = (
      some tt,
      record s {
        handle = record s.handle {
          numnodes = numnodes;
          load_state = LoadState.loaded;
          errnum = Err.success;
        };
      },
    )

    -- from the comparison with the clusterlist on
    unfoldable pub finish_load : Exec (State H T) (Unit {0})
    unfolding sort_of sort_lists complete
    finish_load = do
      clusterlist_module_compare_to_clusterlist env (devel_api env)
      sort_lists
      numnodes ← clusterlist_module_get_numnodes env
      complete numnodes

    -- `nodeupdown_load_data` up to its label `cleanup`
    unfoldable pub load_body : Option Name → ℤ → ℤ → Option Name → Exec (State H T) (Unit {0})
    load_body hostname port timeout_len module_name = do
      unloaded_handle_error_check
      dlinit
      conffile_config ← read_conffile env empty_config
      module_config ← load_modules module_name
      create_tables
      port' ← resolve_port env port conffile_config module_config
      timeout_len' ← resolve_timeout_len env timeout_len conffile_config module_config
      get_updown_data env (to_unsigned port') (to_unsigned timeout_len') module_name hostname
          conffile_config module_config
      finish_load

    unfoldable pub cleanup : Option (Unit {0}) → Exec (State H T) (Unit {0})
    cleanup (some _) s = (some tt, s)
    cleanup none s = (none, free_handle_data s)

    unfoldable pub nodeupdown_load_data :
        Option Name → ℤ → ℤ → Option Name → Exec (State H T) (Unit {0})
    unfolding cleanup
    nodeupdown_load_data hostname port timeout_len module_name s =
        let r = load_body hostname port timeout_len module_name s in cleanup r.0 r.1
