-- ===== src/Tests/Load.antt =====
-- The theorems on loads, at the sample installation.
use whatsup.Prelude.{◌≡◌, refl, inl, none, some, List, [], ◌∷◌, codes, pos, Post, true, false}
use whatsup.Load.Free.{IsFree}
use whatsup.Load.Data.{nodeupdown_load_data, nodeupdown_handle_destroy}
use whatsup.Load.Outcome.{HasLoaded, nodeupdown_load_data-HasLoaded}
use whatsup.Session.{Call, load_data, count, last_up_time, calls}
use whatsup.Session.Invariant.{IsIdle, calls-IsIdle, destroy_restores}
use whatsup.Devel.{up_nodes}
use whatsup.Session.Invariant.{load_data-loaded}
use whatsup.Load.Outcome.{IsLoaded}
use whatsup.Load.Config.{empty_config}
use whatsup.Load.Choice.{Accepted, resolve_port-positive}
use whatsup.Module.Info.{NodeupdownConfig}
use whatsup.Module.Backend.{backend_module_default_port}
use whatsup.Prelude.{is_nonpos}
use whatsup.Tests.Sample.{
  loaded_state, setup_state, sample_env, sample_laws, new_state, hosts_ops, times_ops, sample_data,
}
use whatsup.Load.Data.{
  nodeupdown_handle_create, exit_ltdl, free_modules, free_handle_data, nodeupdown_handle_destroy,
  dlinit, preferred, load_modules, created_up, created_down, created_times, enter_setup,
  create_tables, sort_of, sort_lists, complete, finish_load, load_body, cleanup,
  nodeupdown_load_data,
}
use whatsup.Load.Config.{cb_hostnames, read_result, read_conffile}
use whatsup.Load.Resolve.{default_port, resolve_port, default_timeout_len, resolve_timeout_len}
use whatsup.Load.Connect.{get_data, after_attempt, try_hostnames, found_or_connect, get_updown_data}
use whatsup.Devel.{
  push_node, add_node, nodeupdown_add_up_node, nodeupdown_add_down_node,
  nodeupdown_add_last_up_time, nodeupdown_not_discovered_check, devel_api,
}
use whatsup.Module.Backend.{
  backend_modulebuf, backend_name_overflow, backend_module_callback, found_or, backend_module_load,
  backend_module_default_hostname, backend_module_default_port, backend_module_default_timeout_len,
  backend_module_preferred_clusterlist_module, backend_module_setup, backend_module_cleanup,
  backend_module_get_updown_data, backend_module_unload,
}
use whatsup.Module.Clusterlist.{
  clusterlist_modulebuf, clusterlist_name_overflow, clusterlist_module_unload,
  clusterlist_module_callback, named_result, default_result, clusterlist_module_load,
  call_clusterlist, clusterlist_module_setup, clusterlist_module_cleanup,
  clusterlist_module_get_numnodes, clusterlist_module_compare_to_clusterlist,
  clusterlist_module_is_node_in_cluster, clusterlist_module_get_nodename,
}
use whatsup.Module.Config.{
  config_module_unload, config_module_callback, config_result, config_module_load,
  config_module_setup, config_module_cleanup, config_module_load_config,
}
use whatsup.Module.Find.{
  filebuf, is_module_file, close_unless, load_symbol, load_opened, load_module, scan_known,
  find_known_in, find_known_module, find_unknown_in, find_unknown_module, find_in_builddir,
  find_module,
}
use whatsup.Handle.Checks.{
  nodeupdown_handle_error_check, unloaded_check, loaded_check, setup_check,
  unloaded_handle_error_check, loaded_handle_error_check, setup_handle_error_check,
  nodeupdown_errnum, nodeupdown_set_errnum,
}
use whatsup.Prelude.{str_eq, starts_with, strchr, contains}
use whatsup.Handle.State.{initialize_handle}
use whatsup.Module.Default.{
  copy_nodename, default_clusterlist_setup, default_clusterlist_cleanup,
  default_clusterlist_get_numnodes, default_clusterlist_is_node_in_cluster,
  default_clusterlist_get_nodename, default_clusterlist_compare_to_clusterlist,
  default_config_setup, default_config_cleanup, default_config_load_default,
  default_clusterlist_module_info, default_config_module_info,
}

new-IsFree : IsFree 2 1 new_state
unfolding new_state
new-IsFree = record {
  magic = refl;
  load_state = refl;
  ltdl_initialized = refl;
  up_nodes = refl;
  down_nodes = refl;
  last_up_times = refl;
  numnodes = refl;
  backend_dl = refl;
  backend_info = refl;
  clusterlist_dl = refl;
  clusterlist_info = refl;
  clusterlist_found = refl;
  config_dl = refl;
  config_info = refl;
  dl_open = refl;
  dl_refs = refl;
}

nodeupdown_load_data-HasLoaded_example :
    Post
      (λ _. HasLoaded 2 1)
      (IsFree 2 1)
      (nodeupdown_load_data sample_env none (pos 0) (pos 0) none new_state)
nodeupdown_load_data-HasLoaded_example =
    nodeupdown_load_data-HasLoaded sample_env sample_laws 2 1 none (pos 0) (pos 0) none new_state
      new-IsFree

-- two loads, the second after a failure, and two queries
abbrev sample_calls : List Call
sample_calls =
    load_data (some (codes "silent")) (pos 0) (pos 0) none
    ∷ load_data none (pos 0) (pos 0) none
    ∷ count up_nodes
    ∷ last_up_time (some (codes "a")) true
    ∷ []

calls-IsIdle_example : IsIdle 2 1 (calls sample_env sample_calls new_state)
calls-IsIdle_example =
    calls-IsIdle sample_env sample_laws 2 1 sample_calls new_state (inl new-IsFree)

destroy_restores_example :
    let t = nodeupdown_handle_destroy sample_env (calls sample_env sample_calls new_state) in
    (t.0 ≡ some tt) × (t.1.modules.dl_open ≡ 2) × (t.1.modules.dl_refs ≡ 1)
destroy_restores_example =
    destroy_restores sample_env sample_laws 2 1 sample_calls new_state (inl new-IsFree)

sample-IsLoaded : IsLoaded 2 1 loaded_state
unfolding loaded_state
sample-IsLoaded = record {
  counted = record { magic = refl; dl_open = refl; dl_refs = refl };
  load_state = refl;
  ltdl = refl;
  backend = refl;
  clusterlist = refl;
  config = refl;
  up_nodes = refl;
  down_nodes = refl;
  last_up_times = refl;
}

load_data-loaded_example :
    ((nodeupdown_load_data sample_env none (pos 0) (pos 0) none loaded_state).0 ≡ none)
    × IsFree 2 1 (nodeupdown_load_data sample_env none (pos 0) (pos 0) none loaded_state).1
load_data-loaded_example =
    load_data-loaded sample_env sample_laws 2 1 none (pos 0) (pos 0) none loaded_state
      sample-IsLoaded

-- two hosts, of which only the second answers
abbrev two_hosts : NodeupdownConfig
two_hosts = record empty_config {
  hostnames = codes "silent" ∷ codes "cluster" ∷ [];
  hostnames_flag = true;
}

sample_port :
    (backend_module_default_port sample_env
      (backend_module_default_port sample_env setup_state).1).0
    ≡ (backend_module_default_port sample_env setup_state).0
unfolding backend_module_default_port sample_env setup_state
sample_port = refl

sample_timeout_len :
    (backend_module_default_timeout_len sample_env
      (backend_module_default_timeout_len sample_env setup_state).1).0
    ≡ (backend_module_default_timeout_len sample_env setup_state).0
unfolding backend_module_default_timeout_len sample_env setup_state
sample_timeout_len = refl

-- a configuration file with a port that is not positive
abbrev bad_port : NodeupdownConfig
bad_port = record empty_config { port = pos 0; port_flag = true }

resolve_port-positive_example :
    Accepted sample_env is_nonpos
      (pos 0)
      true
      false
      true
      true
      (is_nonpos (backend_module_default_port sample_env setup_state).0)
      (resolve_port sample_env (pos 0) bad_port empty_config setup_state)
resolve_port-positive_example =
    resolve_port-positive sample_env (pos 0) bad_port empty_config setup_state sample_port

-- The sample load succeeds.
load_succeeds : (nodeupdown_load_data sample_env none (pos 0) (pos 0) none new_state).0 ≡ some tt
unfolding sample_env new_state hosts_ops times_ops sample_data nodeupdown_handle_create exit_ltdl
    free_modules free_handle_data nodeupdown_handle_destroy dlinit preferred load_modules created_up
    created_down created_times enter_setup create_tables sort_of sort_lists complete finish_load
    load_body cleanup nodeupdown_load_data cb_hostnames read_result read_conffile default_port
    resolve_port default_timeout_len resolve_timeout_len get_data after_attempt try_hostnames
    found_or_connect get_updown_data push_node add_node nodeupdown_add_up_node
    nodeupdown_add_down_node nodeupdown_add_last_up_time nodeupdown_not_discovered_check devel_api
    backend_modulebuf backend_name_overflow backend_module_callback found_or backend_module_load
    backend_module_default_hostname backend_module_default_port backend_module_default_timeout_len
    backend_module_preferred_clusterlist_module backend_module_setup backend_module_cleanup
    backend_module_get_updown_data backend_module_unload clusterlist_modulebuf
    clusterlist_name_overflow clusterlist_module_unload clusterlist_module_callback named_result
    default_result clusterlist_module_load call_clusterlist clusterlist_module_setup
    clusterlist_module_cleanup clusterlist_module_get_numnodes
    clusterlist_module_compare_to_clusterlist clusterlist_module_is_node_in_cluster
    clusterlist_module_get_nodename config_module_unload config_module_callback config_result
    config_module_load config_module_setup config_module_cleanup config_module_load_config filebuf
    is_module_file close_unless load_symbol load_opened load_module scan_known find_known_in
    find_known_module find_unknown_in find_unknown_module find_in_builddir find_module
    nodeupdown_handle_error_check unloaded_check loaded_check setup_check
    unloaded_handle_error_check loaded_handle_error_check setup_handle_error_check nodeupdown_errnum
    nodeupdown_set_errnum str_eq starts_with strchr contains initialize_handle copy_nodename
    default_clusterlist_setup default_clusterlist_cleanup default_clusterlist_get_numnodes
    default_clusterlist_is_node_in_cluster default_clusterlist_get_nodename
    default_clusterlist_compare_to_clusterlist default_config_setup default_config_cleanup
    default_config_load_default default_clusterlist_module_info default_config_module_info
load_succeeds = refl
