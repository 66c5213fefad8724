-- ===== src/Module/Calls.antt =====
-- The calls into the modules leave the frame alone, also where no module is loaded.
use whatsup.Prelude.{ℕ, ℤ, Option, some, Name, Exec, at_pointer, at_pointer-intro}
use whatsup.Handle.Err
use whatsup.Handle.State.{State, InfoAddr, builtin, symbol}
use whatsup.Handle.Checks.{fail_with}
use whatsup.Module.Info.{DevelApi, NodeupdownConfig, Env}
use whatsup.Module.Counts.{Frame, Frame-refl, Framed}
use whatsup.Module.Laws.{DevelFramed, ClusterlistFramed, ConfigFramed, EnvLaws}
use whatsup.Module.DefaultFrame.{Frame-put_errnum, default-ClusterlistFramed, default-ConfigFramed}
use whatsup.Module.Default.{default_clusterlist_module_info, default_config_module_info}
use whatsup.Module.Backend.{
  backend_module_default_hostname, backend_module_default_port, backend_module_default_timeout_len,
  backend_module_preferred_clusterlist_module, backend_module_setup, backend_module_cleanup,
  backend_module_get_updown_data,
}
use whatsup.Module.Clusterlist.{
  clusterlist_at, call_clusterlist, clusterlist_module_setup, clusterlist_module_cleanup,
  clusterlist_module_get_numnodes, clusterlist_module_compare_to_clusterlist,
  clusterlist_module_is_node_in_cluster, clusterlist_module_get_nodename,
}
use whatsup.Module.Config.{
  config_at, config_module_setup, config_module_cleanup, config_module_load_config,
}

module _ {H T : Type 0} (env : Env H T) (laws : EnvLaws env) where
  clusterlist_at-Framed : (info : InfoAddr) → ClusterlistFramed (clusterlist_at env info)
  unfolding default_clusterlist_module_info
  clusterlist_at-Framed builtin = default-ClusterlistFramed env.hostlist
  clusterlist_at-Framed (symbol info) = laws.clusterlist info

  config_at-Framed : (info : InfoAddr) → ConfigFramed (config_at env info)
  unfolding default_config_module_info
  config_at-Framed builtin = default-ConfigFramed
  config_at-Framed (symbol info) = laws.config info

  -- A function that is called through a pointer, which fails or does nothing where that is NULL.
  through-Framed :
      {I A : Type 0} (info : State H T → Option I) (call : I → Exec (State H T) A)
      (null : Exec (State H T) A)
      → ((i : I) → Framed (call i))
      → Framed null
      → Framed (λ s. at_pointer (info s) (λ i. call i s) (null s))
  through-Framed info call null h k = record {
    at = λ s. at_pointer-intro (λ x. Frame s x.1) (info s) _ (null s) (λ i. (h i).at s) (k.at s);
  }

  null-Framed : {A : Type 0} (e : ℕ) → Framed {H = H} {T = T} {A = A} (fail_with e)
  null-Framed e = record { at = Frame-put_errnum e }

  pub clusterlist_module_setup-Framed : Framed (clusterlist_module_setup env)
  unfolding clusterlist_module_setup call_clusterlist
  clusterlist_module_setup-Framed =
      through-Framed (λ s. s.modules.clusterlist_module_info) (λ i. (clusterlist_at env i).setup)
        (fail_with Err.internal) (λ i. (clusterlist_at-Framed i).setup) (null-Framed Err.internal)

  pub clusterlist_module_cleanup-Framed : Framed (clusterlist_module_cleanup env)
  unfolding clusterlist_module_cleanup
  clusterlist_module_cleanup-Framed =
      through-Framed (λ s. s.modules.clusterlist_module_info) (λ i. (clusterlist_at env i).cleanup)
        (λ s. (some tt, s)) (λ i. (clusterlist_at-Framed i).cleanup) (record { at = Frame-refl })

  pub clusterlist_module_get_numnodes-Framed : Framed (clusterlist_module_get_numnodes env)
  unfolding clusterlist_module_get_numnodes call_clusterlist
  clusterlist_module_get_numnodes-Framed =
      through-Framed (λ s. s.modules.clusterlist_module_info)
        (λ i. (clusterlist_at env i).get_numnodes) (fail_with Err.internal)
        (λ i. (clusterlist_at-Framed i).get_numnodes) (null-Framed Err.internal)

  pub clusterlist_module_is_node_in_cluster-Framed :
      (node : Name) → Framed (clusterlist_module_is_node_in_cluster env node)
  unfolding clusterlist_module_is_node_in_cluster call_clusterlist
  clusterlist_module_is_node_in_cluster-Framed node =
      through-Framed (λ s. s.modules.clusterlist_module_info)
        (λ i. (clusterlist_at env i).is_node_in_cluster node) (fail_with Err.internal)
        (λ i. (clusterlist_at-Framed i).is_node_in_cluster node) (null-Framed Err.internal)

  pub clusterlist_module_get_nodename-Framed :
      (node : Name) (buflen : ℕ) → Framed (clusterlist_module_get_nodename env node buflen)
  unfolding clusterlist_module_get_nodename call_clusterlist
  clusterlist_module_get_nodename-Framed node buflen =
      through-Framed (λ s. s.modules.clusterlist_module_info)
        (λ i. (clusterlist_at env i).get_nodename node buflen) (fail_with Err.internal)
        (λ i. (clusterlist_at-Framed i).get_nodename node buflen) (null-Framed Err.internal)

  pub clusterlist_module_compare_to_clusterlist-Framed :
      (devel : DevelApi H T)
      → DevelFramed devel
      → Framed (clusterlist_module_compare_to_clusterlist env devel)
  unfolding clusterlist_module_compare_to_clusterlist call_clusterlist
  clusterlist_module_compare_to_clusterlist-Framed devel d =
      through-Framed (λ s. s.modules.clusterlist_module_info)
        (λ i. (clusterlist_at env i).compare_to_clusterlist devel) (fail_with Err.internal)
        (λ i. (clusterlist_at-Framed i).compare_to_clusterlist devel d) (null-Framed Err.internal)

  pub config_module_setup-Framed : Framed (config_module_setup env)
  unfolding config_module_setup
  config_module_setup-Framed =
      through-Framed (λ s. s.modules.config_module_info) (λ i. (config_at env i).setup)
        (fail_with Err.internal) (λ i. (config_at-Framed i).setup) (null-Framed Err.internal)

  pub config_module_cleanup-Framed : Framed (config_module_cleanup env)
  unfolding config_module_cleanup
  config_module_cleanup-Framed =
      through-Framed (λ s. s.modules.config_module_info) (λ i. (config_at env i).cleanup)
        (λ s. (some tt, s)) (λ i. (config_at-Framed i).cleanup) (record { at = Frame-refl })

  pub config_module_load_config-Framed :
      (conf : NodeupdownConfig) → Framed (config_module_load_config env conf)
  unfolding config_module_load_config
  config_module_load_config-Framed conf =
      through-Framed (λ s. s.modules.config_module_info) (λ i. (config_at env i).load_config conf)
        (fail_with Err.internal) (λ i. (config_at-Framed i).load_config conf)
        (null-Framed Err.internal)

  pub backend_module_setup-Framed : Framed (backend_module_setup env)
  unfolding backend_module_setup
  backend_module_setup-Framed =
      through-Framed (λ s. s.modules.backend_module_info) (λ i. (env.backend i).setup)
        (fail_with Err.internal) (λ i. (laws.backend i).setup) (null-Framed Err.internal)

  pub backend_module_cleanup-Framed : Framed (backend_module_cleanup env)
  unfolding backend_module_cleanup
  backend_module_cleanup-Framed =
      through-Framed (λ s. s.modules.backend_module_info) (λ i. (env.backend i).cleanup)
        (λ s. (some tt, s)) (λ i. (laws.backend i).cleanup) (record { at = Frame-refl })

  pub backend_module_default_hostname-Framed : Framed (backend_module_default_hostname env)
  unfolding backend_module_default_hostname
  backend_module_default_hostname-Framed =
      through-Framed (λ s. s.modules.backend_module_info) (λ i. (env.backend i).default_hostname)
        (fail_with Err.internal) (λ i. (laws.backend i).default_hostname) (null-Framed Err.internal)

  pub backend_module_preferred-Framed : Framed (backend_module_preferred_clusterlist_module env)
  unfolding backend_module_preferred_clusterlist_module
  backend_module_preferred-Framed =
      through-Framed (λ s. s.modules.backend_module_info)
        (λ i. (env.backend i).preferred_clusterlist_module) (fail_with Err.internal)
        (λ i. (laws.backend i).preferred_clusterlist_module) (null-Framed Err.internal)

  pub backend_module_get_updown_data-Framed :
      (devel : DevelApi H T)
      → DevelFramed devel
      → (hostname : Name) (port timeout_len : ℕ) (reserved : Option Name)
      → Framed (backend_module_get_updown_data env devel hostname port timeout_len reserved)
  unfolding backend_module_get_updown_data
  backend_module_get_updown_data-Framed devel d hostname port timeout_len reserved =
      through-Framed (λ s. s.modules.backend_module_info)
        (λ i. (env.backend i).get_updown_data devel hostname port timeout_len reserved)
        (fail_with Err.internal)
        (λ i. (laws.backend i).get_updown_data devel d hostname port timeout_len reserved)
        (null-Framed Err.internal)

  pub Frame-default_port : (s : State H T) → Frame s (backend_module_default_port env s).1
  unfolding backend_module_default_port
  Frame-default_port s =
      at_pointer-intro {B = ℤ × State H T} (λ x. Frame s x.1) s.modules.backend_module_info _ _
        (λ i. (laws.backend i).default_port s) (Frame-put_errnum Err.internal s)

  pub Frame-default_timeout_len :
      (s : State H T) → Frame s (backend_module_default_timeout_len env s).1
  unfolding backend_module_default_timeout_len
  Frame-default_timeout_len s =
      at_pointer-intro {B = ℤ × State H T} (λ x. Frame s x.1) s.modules.backend_module_info _ _
        (λ i. (laws.backend i).default_timeout_len s) (Frame-put_errnum Err.internal s)
