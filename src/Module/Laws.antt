-- ===== src/Module/Laws.antt =====
-- What the library relies on in its modules: they act on the handle by the functions of
-- nodeupdown_devel.h, so each of their functions leaves the frame alone.
use whatsup.Prelude.{ℕ, Option, Name}
use whatsup.Handle.State.{State}
use whatsup.Module.Info.{DevelApi, BackendInfo, ClusterlistInfo, ConfigInfo, NodeupdownConfig, Env}
use whatsup.Module.Counts.{Frame, Framed}

module _ {H T : Type 0} where
  pub record DevelFramed (devel : DevelApi H T) : Type 0 where
    pub add_up_node : (node : Name) → Framed (devel.add_up_node node)
    pub add_down_node : (node : Name) → Framed (devel.add_down_node node)
    pub add_last_up_time : (node : Name) (t : ℕ) → Framed (devel.add_last_up_time node t)
    pub not_discovered_check : (node : Name) → Framed (devel.not_discovered_check node)

  pub record BackendFramed (b : BackendInfo H T) : Type 0 where
    pub default_hostname : Framed b.default_hostname
    pub default_port : (s : State H T) → Frame s (b.default_port s).1
    pub default_timeout_len : (s : State H T) → Frame s (b.default_timeout_len s).1
    pub preferred_clusterlist_module : Framed b.preferred_clusterlist_module
    pub setup : Framed b.setup
    pub cleanup : Framed b.cleanup
    pub get_updown_data :
        (devel : DevelApi H T)
        → DevelFramed devel
        → (hostname : Name) (port timeout_len : ℕ) (reserved : Option Name)
        → Framed (b.get_updown_data devel hostname port timeout_len reserved)

  pub record ClusterlistFramed (c : ClusterlistInfo H T) : Type 0 where
    pub setup : Framed c.setup
    pub cleanup : Framed c.cleanup
    pub get_numnodes : Framed c.get_numnodes
    pub is_node_in_cluster : (node : Name) → Framed (c.is_node_in_cluster node)
    pub get_nodename : (node : Name) (buflen : ℕ) → Framed (c.get_nodename node buflen)
    pub compare_to_clusterlist :
        (devel : DevelApi H T) → DevelFramed devel → Framed (c.compare_to_clusterlist devel)

  pub record ConfigFramed (c : ConfigInfo H T) : Type 0 where
    pub setup : Framed c.setup
    pub cleanup : Framed c.cleanup
    pub load_config : (conf : NodeupdownConfig) → Framed (c.load_config conf)

  pub record EnvLaws (env : Env H T) : Type 0 where
    pub backend : (info : ℕ) → BackendFramed (env.backend info)
    pub clusterlist : (info : ℕ) → ClusterlistFramed (env.clusterlist info)
    pub config : (info : ℕ) → ConfigFramed (env.config info)
