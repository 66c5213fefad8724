-- ===== src/Load/Outcome.antt =====
-- What `nodeupdown_load_data` leaves behind, on every path.
use whatsup.Prelude.{
  ℕ, ◌≡◌, inl, inr, true, Bool-cases, Option, none, some, arith, is_some, ℤ, Name, Post, Triple,
  Triple-bind,
}
use whatsup.Handle.Err
use whatsup.Handle.State.{State, LoadState, nodeupdown_magic_num}
use whatsup.Handle.Checks.{unloaded_handle_error_check}
use whatsup.Module.Info.{Env}
use whatsup.Module.Counts.{Counted, Framed}
use whatsup.Module.Laws.{EnvLaws}
use whatsup.Module.Loading.{
  NoneHeld, AllHeld, backend_module_load-Loaded, clusterlist_module_load-Loaded,
  config_module_load-Loaded,
}
use whatsup.Module.Calls.{
  backend_module_setup-Framed, clusterlist_module_setup-Framed, config_module_setup-Framed,
  backend_module_preferred-Framed, config_module_load_config-Framed,
  clusterlist_module_compare_to_clusterlist-Framed, clusterlist_module_get_numnodes-Framed,
}
use whatsup.Devel.{devel_api}
use whatsup.Devel.Frame.{devel_api-DevelFramed}
use whatsup.Load.Config.{empty_config}
use whatsup.Load.Data.{
  dlinit, preferred, load_modules, created_up, created_down, created_times, create_tables, sort_of,
  sort_lists, complete, finish_load, load_body, cleanup, nodeupdown_load_data,
}
use whatsup.Load.Free.{IsFree, free_handle_data-IsFree}
use whatsup.Load.Stages.{Ready, none_held, backend_held, clusterlist_held, all_held, ready}
use whatsup.Load.Steps.{
  read_conffile-Framed, resolve_port-Framed, resolve_timeout_len-Framed, get_updown_data-Framed,
}

-- A handle whose data is there for the queries.
pub record IsLoaded {H T : Type 0} (o r : ℕ) (s : State H T) : Type 0 where
  pub counted : Counted o r s
  pub load_state : s.handle.load_state ≡ LoadState.loaded
  pub ltdl : s.handle.ltdl_initialized ≡ true
  pub backend : is_some s.modules.backend_module_info ≡ true
  pub clusterlist : is_some s.modules.clusterlist_module_info ≡ true
  pub config : is_some s.modules.config_module_info ≡ true
  pub up_nodes : is_some s.handle.up_nodes ≡ true
  pub down_nodes : is_some s.handle.down_nodes ≡ true
  pub last_up_times : is_some s.handle.last_up_times ≡ true

-- A load that has just succeeded.
pub record HasLoaded {H T : Type 0} (o r : ℕ) (s : State H T) : Type 0 where
  pub loaded : IsLoaded o r s
  pub errnum : s.handle.errnum ≡ Err.success

module _ {H T : Type 0} (env : Env H T) (laws : EnvLaws env) (o r : ℕ) where
  unloaded_handle_error_check-unloaded :
      (s : State H T)
      → s.handle.magic ≡ nodeupdown_magic_num
      → s.handle.load_state ≡ LoadState.unloaded
      → unloaded_handle_error_check s ≡ (some tt, s)
  unfolding unloaded_handle_error_check
  unloaded_handle_error_check-unloaded s m l = ground arith

  unloaded_check-IsFree :
      Triple {S = State H T}
        (IsFree o r)
        unloaded_handle_error_check
        (λ _. IsFree o r)
        (Counted o r)
  unloaded_check-IsFree = record {
    at = λ s h. rw (unloaded_handle_error_check-unloaded s h.magic h.load_state) h;
  }

  dlinit-NoneHeld : Triple (IsFree o r) (dlinit env) (λ _. NoneHeld o r) (Counted o r)
  unfolding dlinit
  dlinit-NoneHeld = record {
    at = λ s h. elim (Bool-cases env.lt_dlinit) [
      | inl e ↦ rw e (ground arith)
      | inr e ↦ rw e (ground arith)
    ];
  }

  preferred-Framed : Framed (preferred env)
  unfolding preferred
  preferred-Framed = record { at = λ s. (backend_module_preferred-Framed env laws).at s }

  load_modules-AllHeld :
      (name : Option Name)
      → Triple (NoneHeld o r) (load_modules env name) (λ _. AllHeld o r) (Counted o r)
  unfolding load_modules
  load_modules-AllHeld name =
      Triple-bind _ _ (record { at = backend_module_load-Loaded env o r name })
        λ _. Triple-bind _ _ (backend_held o r _ (backend_module_setup-Framed env laws)) λ _.
          Triple-bind _ _ (backend_held o r (preferred env) preferred-Framed) λ p.
            Triple-bind _ _ (record { at = clusterlist_module_load-Loaded env o r p })
              λ _.
                Triple-bind _ _ (clusterlist_held o r _ (clusterlist_module_setup-Framed env laws))
                  λ _.
                    Triple-bind _ _ (record { at = config_module_load-Loaded env o r })
                      λ _.
                        Triple-bind _ _ (all_held o r _ (config_module_setup-Framed env laws)) λ _.
                          all_held o r _ (config_module_load_config-Framed env laws empty_config)

  -- The tables that exist while they are created one by one.
  record UpCreated (s : State H T) : Type 0 where
    held : AllHeld o r s
    up_nodes : is_some s.handle.up_nodes ≡ true

  record DownCreated (s : State H T) : Type 0 where
    up : UpCreated s
    down_nodes : is_some s.handle.down_nodes ≡ true

  record TimesCreated (s : State H T) : Type 0 where
    down : DownCreated s
    last_up_times : is_some s.handle.last_up_times ≡ true

  created_up-UpCreated :
      (h : Option H) → Triple (AllHeld o r) (created_up env h) (λ _. UpCreated) (Counted o r)
  unfolding created_up
  created_up-UpCreated none = record { at = λ s h. ground arith }
  created_up-UpCreated (some l) = record { at = λ s h. ground arith }

  created_down-DownCreated :
      (h : Option H) → Triple UpCreated (created_down env h) (λ _. DownCreated) (Counted o r)
  unfolding created_down
  created_down-DownCreated none = record { at = λ s h. ground arith }
  created_down-DownCreated (some l) = record { at = λ s h. ground arith }

  created_times-TimesCreated :
      (t : Option T) → Triple DownCreated (created_times env t) (λ _. TimesCreated) (Counted o r)
  unfolding created_times
  created_times-TimesCreated none = record { at = λ s h. ground arith }
  created_times-TimesCreated (some l) = record { at = λ s h. ground arith }

  create_tables-Ready : Triple (AllHeld o r) (create_tables env) (λ _. Ready o r) (Counted o r)
  unfolding create_tables
  create_tables-Ready = Triple-bind _ _ (created_up-UpCreated env.hostlist.create) λ _.
      Triple-bind _ _ (created_down-DownCreated env.hostlist.create) λ _.
        Triple-bind _ _ (created_times-TimesCreated env.hash.create)
          λ _. record { at = λ s h. ground arith }

  sort_lists-Framed : Framed (sort_lists env)
  unfolding sort_lists sort_of
  sort_lists-Framed = record { at = λ s. ground arith }

  complete-HasLoaded :
      (numnodes : ℕ) → Triple (Ready o r) (complete env numnodes) (λ _. HasLoaded o r) (Counted o r)
  unfolding complete
  complete-HasLoaded numnodes = record { at = λ s h. ground arith }

  finish_load-HasLoaded : Triple (Ready o r) (finish_load env) (λ _. HasLoaded o r) (Counted o r)
  unfolding finish_load
  finish_load-HasLoaded =
      Triple-bind _ _
        (ready o r _ (
          clusterlist_module_compare_to_clusterlist-Framed env laws (devel_api env)
            (devel_api-DevelFramed env laws)))
        λ _. Triple-bind _ _ (ready o r (sort_lists env) sort_lists-Framed) λ _.
          Triple-bind _ _ (ready o r _ (clusterlist_module_get_numnodes-Framed env laws))
            complete-HasLoaded

  load_body-HasLoaded :
      (hostname : Option Name) (port timeout_len : ℤ) (name : Option Name)
      → Triple
          (IsFree o r)
          (load_body env hostname port timeout_len name)
          (λ _. HasLoaded o r)
          (Counted o r)
  unfolding load_body
  load_body-HasLoaded hostname port timeout_len name = Triple-bind _ _ unloaded_check-IsFree λ _.
      Triple-bind _ _ dlinit-NoneHeld λ _.
        Triple-bind _ _ (none_held o r _ (read_conffile-Framed env empty_config)) λ c.
          Triple-bind _ _ (load_modules-AllHeld name) λ m. Triple-bind _ _ create_tables-Ready λ _.
            Triple-bind _ _ (ready o r _ (resolve_port-Framed env laws port c m)) λ p.
              Triple-bind _ _ (ready o r _ (resolve_timeout_len-Framed env laws timeout_len c m))
                λ t.
                  Triple-bind _ _
                    (ready o r _ (get_updown_data-Framed env laws _ _ name hostname c m))
                    λ _. finish_load-HasLoaded

  cleanup-Post :
      (x : Option (Unit {0}) × State H T)
      → Post (λ _. HasLoaded o r) (Counted o r) x
      → Post (λ _. HasLoaded o r) (IsFree o r) (cleanup env x.0 x.1)
  unfolding cleanup
  cleanup-Post (none, s) h = free_handle_data-IsFree env laws o r s h
  cleanup-Post (some _, s) h = h

  -- Where the modules respect their interface (Module.Laws):
  -- from a free handle a load either succeeds, and then the handle is loaded, its error number is
  -- that of success, and the lists, the table and the modules that the queries use are there; or it
  -- fails, and then the handle is as free as before and every module that was opened on the way,
  -- and every reference to libltdl, has been given back.
  pub nodeupdown_load_data-HasLoaded :
      (hostname : Option Name) (port timeout_len : ℤ) (name : Option Name) (s : State H T)
      → IsFree o r s
      → Post
          (λ _. HasLoaded o r)
          (IsFree o r)
          (nodeupdown_load_data env hostname port timeout_len name s)
  unfolding nodeupdown_load_data
  nodeupdown_load_data-HasLoaded hostname port timeout_len name s h =
      cleanup-Post _ ((load_body-HasLoaded hostname port timeout_len name).at s h)
