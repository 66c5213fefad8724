-- ===== src/Module/Default.antt =====
-- The modules that the library falls back on: src/libnodeupdown/nodeupdown_clusterlist_default.c and
-- nodeupdown_config_default.c; and nodeupdown_clusterlist_util.c.
use whatsup.Prelude.{ℕ, ◌+◌, Bool, true, Option, none, some, Name, length, ltb, if◌then◌else◌, Exec}
use whatsup.External.{HostlistOps}
use whatsup.Handle.Err
use whatsup.Handle.State.{State}
use whatsup.Handle.Checks.{set_and_fail}
use whatsup.Module.Info.{NodeupdownConfig, ClusterlistInfo, ConfigInfo}

-- `hostlist_count` of a pointer that may be NULL
abbrev pub count_of : {H : Type 0} → HostlistOps H → Option H → ℕ
count_of hl none = 0
count_of hl (some h) = hl.count h

module _ {H T : Type 0} where
  -- `_nodeupdown_clusterlist_copy_nodename`
  unfoldable pub copy_nodename : Name → ℕ → Exec (State H T) Name
  copy_nodename node buflen s =
      if ltb buflen (length node + 1) then set_and_fail Err.internal s else (some node, s)

  unfoldable pub default_clusterlist_setup : Exec (State H T) (Unit {0})
  default_clusterlist_setup s = (some tt, s)

  unfoldable pub default_clusterlist_cleanup : Exec (State H T) (Unit {0})
  default_clusterlist_cleanup s = (some tt, s)

  unfoldable pub default_clusterlist_get_numnodes : HostlistOps H → Exec (State H T) ℕ
  default_clusterlist_get_numnodes hl s =
      (some (count_of hl s.handle.up_nodes + count_of hl s.handle.down_nodes), s)

  unfoldable pub default_clusterlist_is_node_in_cluster : Name → Exec (State H T) Bool
  default_clusterlist_is_node_in_cluster node s = (some true, s)

  unfoldable pub default_clusterlist_get_nodename : Name → ℕ → Exec (State H T) Name
  default_clusterlist_get_nodename node buflen s =
      if ltb buflen (length node + 1) then set_and_fail Err.internal s else (some node, s)

  unfoldable pub default_clusterlist_compare_to_clusterlist : Exec (State H T) (Unit {0})
  default_clusterlist_compare_to_clusterlist s = (some tt, s)

  unfoldable pub default_config_setup : Exec (State H T) (Unit {0})
  default_config_setup s = (some tt, s)

  unfoldable pub default_config_cleanup : Exec (State H T) (Unit {0})
  default_config_cleanup s = (some tt, s)

  unfoldable pub default_config_load_default : NodeupdownConfig → Exec (State H T) NodeupdownConfig
  default_config_load_default conf s = (some conf, s)

  unfoldable pub default_clusterlist_module_info : HostlistOps H → ClusterlistInfo H T
  unfolding default_clusterlist_setup default_clusterlist_cleanup default_clusterlist_get_numnodes
      default_clusterlist_is_node_in_cluster default_clusterlist_get_nodename
      default_clusterlist_compare_to_clusterlist
  default_clusterlist_module_info hl = record {
    pointers = record {
      clusterlist_module_name = true;
      setup = true;
      get_numnodes = true;
      cleanup = true;
      is_node_in_cluster = true;
      get_nodename = true;
      compare_to_clusterlist = true;
    };
    setup = default_clusterlist_setup;
    cleanup = default_clusterlist_cleanup;
    get_numnodes = default_clusterlist_get_numnodes hl;
    is_node_in_cluster = default_clusterlist_is_node_in_cluster;
    get_nodename = default_clusterlist_get_nodename;
    compare_to_clusterlist = λ devel. default_clusterlist_compare_to_clusterlist;
  }

  unfoldable pub default_config_module_info : ConfigInfo H T
  unfolding default_config_setup default_config_cleanup default_config_load_default
  default_config_module_info = record {
    pointers = record {
      config_module_name = true;
      setup = true;
      cleanup = true;
      load_config = true;
    };
    setup = default_config_setup;
    cleanup = default_config_cleanup;
    load_config = default_config_load_default;
  }
