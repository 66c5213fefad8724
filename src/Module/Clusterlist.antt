-- ===== src/Module/Clusterlist.antt =====
-- The clusterlist module: its callback, its loading and the calls into it.
use whatsup.Prelude.{
  ℕ, ◌+◌, Bool, true, false, Option, none, some, List, [], ◌∷◌, ◌++◌, ◌&&◌, Name, codes, leb,
  length, if◌then◌else◌, Exec, continue, at_pointer,
}
use whatsup.Handle.Err
use whatsup.Handle.State.{State, InfoAddr, builtin, symbol}
use whatsup.Handle.Checks.{fail_with}
use whatsup.Module.Info.{ClusterlistPointers, ClusterlistInfo, DevelApi, Env}
use whatsup.Module.Find.{find_module, closed}
use whatsup.Module.Default.{default_clusterlist_module_info}

abbrev pub clusterlist_modules : List Name
clusterlist_modules =
    codes "nodeupdown_clusterlist_gendersllnl.so"
    ∷ codes "nodeupdown_clusterlist_genders.so"
    ∷ codes "nodeupdown_clusterlist_hostsfile.so"
    ∷ []

abbrev pub clusterlist_module_signature : Name
clusterlist_module_signature = codes "nodeupdown_clusterlist_"

abbrev pub clusterlist_module_info_sym : Name
clusterlist_module_info_sym = codes "clusterlist_module_info"

abbrev pub clusterlist_module_buflen : ℕ
clusterlist_module_buflen = 1024

abbrev pub clusterlist_complete : ClusterlistPointers → Bool
clusterlist_complete p =
    p.clusterlist_module_name && p.setup && p.get_numnodes && p.cleanup && p.is_node_in_cluster
    && p.get_nodename && p.compare_to_clusterlist

-- `modulebuf` after its `snprintf`, were it long enough, and whether it is too short for that
unfoldable pub clusterlist_modulebuf : Name → Name
clusterlist_modulebuf name = codes "nodeupdown_clusterlist_" ++ (name ++ codes ".so")

unfoldable pub clusterlist_name_overflow : Name → Bool
unfolding clusterlist_modulebuf
clusterlist_name_overflow name = leb clusterlist_module_buflen (length (clusterlist_modulebuf name))

module _ {H T : Type 0} where
  abbrev pub set_clusterlist : Option ℕ → Option InfoAddr → State H T → State H T
  set_clusterlist dl info s = record s {
    modules = record s.modules {
      clusterlist_module_dl_handle = dl;
      clusterlist_module_info = info;
    };
  }

  -- `clusterlist_module_found++`
  abbrev pub found_clusterlist : State H T → State H T
  found_clusterlist s = record s {
    modules = record s.modules {
      clusterlist_module_found = s.modules.clusterlist_module_found + 1;
    };
  }

  unfoldable pub clusterlist_module_unload : State H T → State H T
  clusterlist_module_unload s =
      let closed_dl : State H T = elim s.modules.clusterlist_module_dl_handle [
        | none ↦ s
        | some dl ↦ closed s
      ] in
      record closed_dl {
        modules = record closed_dl.modules {
          clusterlist_module_dl_handle = none;
          clusterlist_module_info = none;
          clusterlist_module_found = 0;
        };
      }

  module _ (env : Env H T) where
    -- the info structure at an address
    abbrev pub clusterlist_at : InfoAddr → ClusterlistInfo H T
    unfolding default_clusterlist_module_info
    clusterlist_at builtin = default_clusterlist_module_info env.hostlist
    clusterlist_at (symbol info) = env.clusterlist info

    unfoldable pub clusterlist_module_callback : Option ℕ → Option ℕ → Exec (State H T) Bool
    clusterlist_module_callback (some dl_handle) (some info) s =
        if clusterlist_complete (env.clusterlist info).pointers
        then (some true, set_clusterlist (some dl_handle) (some (symbol info)) s)
        else (some false, set_clusterlist none none s)
    clusterlist_module_callback none info s = fail_with Err.internal s
    clusterlist_module_callback (some dl_handle) none s = fail_with Err.internal s

    -- the end of `clusterlist_module_load` where the caller named a module, and where not
    unfoldable pub named_result : Bool → Exec (State H T) (Unit {0})
    named_result true s = (some tt, found_clusterlist s)
    named_result false s = fail_with Err.clusterlist_module s

    unfoldable pub default_result : Bool → Exec (State H T) (Unit {0})
    default_result true s = (some tt, found_clusterlist s)
    default_result false s = (
      some tt,
      record s { modules = record s.modules { clusterlist_module_info = some builtin } },
    )

    unfoldable pub clusterlist_module_load : Option Name → Exec (State H T) (Unit {0})
    unfolding named_result default_result clusterlist_module_callback
    clusterlist_module_load none s =
        let r =
          find_module env (clusterlist_module_callback) clusterlist_module_info_sym
            clusterlist_modules clusterlist_module_signature s in
        continue r.0 default_result r.1
    clusterlist_module_load (some name) s =
        let r =
          find_module env (clusterlist_module_callback) clusterlist_module_info_sym
            (clusterlist_modulebuf name ∷ []) clusterlist_module_signature s in
        if clusterlist_name_overflow name
        then fail_with Err.clusterlist_module s
        else continue r.0 named_result r.1

    -- the call through the info pointer, or the error where it is NULL
    unfoldable pub call_clusterlist :
        {A : Type 0} → (ClusterlistInfo H T → Exec (State H T) A) → Exec (State H T) A
    call_clusterlist f s =
        at_pointer s.modules.clusterlist_module_info (λ info. f (clusterlist_at info) s)
          (fail_with Err.internal s)

    unfoldable pub clusterlist_module_setup : Exec (State H T) (Unit {0})
    unfolding call_clusterlist
    clusterlist_module_setup = call_clusterlist (λ info. info.setup)

    unfoldable pub clusterlist_module_cleanup : Exec (State H T) (Unit {0})
    clusterlist_module_cleanup s =
        at_pointer s.modules.clusterlist_module_info (λ info. (clusterlist_at info).cleanup s)
          (some tt, s)

    unfoldable pub clusterlist_module_get_numnodes : Exec (State H T) ℕ
    unfolding call_clusterlist
    clusterlist_module_get_numnodes = call_clusterlist (λ info. info.get_numnodes)

    unfoldable pub clusterlist_module_compare_to_clusterlist :
        DevelApi H T → Exec (State H T) (Unit {0})
    unfolding call_clusterlist
    clusterlist_module_compare_to_clusterlist devel =
        call_clusterlist (λ info. info.compare_to_clusterlist devel)

    unfoldable pub clusterlist_module_is_node_in_cluster : Name → Exec (State H T) Bool
    unfolding call_clusterlist
    clusterlist_module_is_node_in_cluster node =
        call_clusterlist (λ info. info.is_node_in_cluster node)

    unfoldable pub clusterlist_module_get_nodename : Name → ℕ → Exec (State H T) Name
    unfolding call_clusterlist
    clusterlist_module_get_nodename node buflen =
        call_clusterlist (λ info. info.get_nodename node buflen)
