-- ===== src/Module/Info.antt =====
-- The info structures that a module exports (nodeupdown_backend_module.h,
-- nodeupdown_clusterlist_module.h, nodeupdown_config_module.h), the functions that the library gives
-- to its modules (nodeupdown_devel.h), and the environment: the dynamic linker, the file system and
-- the two container libraries.
use whatsup.Prelude.{ℕ, Bool, Option, List, Name, ℤ, Exec}
use whatsup.External.{HostlistOps, HashOps}
use whatsup.Handle.State.{State}

-- `struct nodeupdown_config`; `hostnames` holds the first `hostnames_len` strings.
pub record NodeupdownConfig : Type 0 where
  pub hostnames : List Name
  pub hostnames_flag : Bool
  pub port : ℤ
  pub port_flag : Bool
  pub timeout_len : ℤ
  pub timeout_len_flag : Bool

-- Which pointers of a `struct nodeupdown_backend_module_info` are not NULL.
pub record BackendPointers : Type 0 where
  pub backend_module_name : Bool
  pub default_hostname : Bool
  pub default_port : Bool
  pub default_timeout_len : Bool
  pub preferred_clusterlist_module : Bool
  pub setup : Bool
  pub cleanup : Bool
  pub get_updown_data : Bool

pub record ClusterlistPointers : Type 0 where
  pub clusterlist_module_name : Bool
  pub setup : Bool
  pub get_numnodes : Bool
  pub cleanup : Bool
  pub is_node_in_cluster : Bool
  pub get_nodename : Bool
  pub compare_to_clusterlist : Bool

pub record ConfigPointers : Type 0 where
  pub config_module_name : Bool
  pub setup : Bool
  pub cleanup : Bool
  pub load_config : Bool

module _ (H T : Type 0) where
  -- nodeupdown_devel.h, as a module that is linked against the library calls it.
  pub record DevelApi : Type 0 where
    pub add_up_node : Name → Exec (State H T) (Unit {0})
    pub add_down_node : Name → Exec (State H T) (Unit {0})
    pub add_last_up_time : Name → ℕ → Exec (State H T) (Unit {0})
    pub not_discovered_check : Name → Exec (State H T) (Unit {0})

  -- `struct nodeupdown_backend_module_info`
  pub record BackendInfo : Type 0 where
    pub pointers : BackendPointers
    pub default_hostname : Exec (State H T) Name
    pub default_port : State H T → ℤ × State H T
    pub default_timeout_len : State H T → ℤ × State H T
    pub preferred_clusterlist_module : Exec (State H T) Name
    pub setup : Exec (State H T) (Unit {0})
    pub cleanup : Exec (State H T) (Unit {0})
    pub get_updown_data : DevelApi → Name → ℕ → ℕ → Option Name → Exec (State H T) (Unit {0})

  -- `struct nodeupdown_clusterlist_module_info`
  pub record ClusterlistInfo : Type 0 where
    pub pointers : ClusterlistPointers
    pub setup : Exec (State H T) (Unit {0})
    pub cleanup : Exec (State H T) (Unit {0})
    pub get_numnodes : Exec (State H T) ℕ
    pub is_node_in_cluster : Name → Exec (State H T) Bool
    -- with the length of the caller's buffer; the result is the string in it
    pub get_nodename : Name → ℕ → Exec (State H T) Name
    pub compare_to_clusterlist : DevelApi → Exec (State H T) (Unit {0})

  -- `struct nodeupdown_config_module_info`
  pub record ConfigInfo : Type 0 where
    pub pointers : ConfigPointers
    pub setup : Exec (State H T) (Unit {0})
    pub cleanup : Exec (State H T) (Unit {0})
    pub load_config : NodeupdownConfig → Exec (State H T) NodeupdownConfig

  pub record Env : Type 0 where
    pub hostlist : HostlistOps H
    pub hash : HashOps T
    pub malloc : Bool
    -- `conffile_handle_create`, and `conffile_parse` on the nodeupdown options: the error number if
    -- it fails, and what the option callbacks stored
    pub conffile_handle_create : Bool
    pub conffile_parse : NodeupdownConfig → Option ℕ × NodeupdownConfig
    -- NODEUPDOWN_MODULE_DIR, and the build directory that a build without NDEBUG searches first
    pub module_dir : Name
    pub module_builddir : Option Name
    pub opendir : Name → Option (List Name)
    pub stat : Name → Bool
    pub lt_dlinit : Bool
    pub lt_dlopen : Name → Option ℕ
    pub lt_dlsym : ℕ → Name → Option ℕ
    -- the info structures by their addresses
    pub backend : ℕ → BackendInfo
    pub clusterlist : ℕ → ClusterlistInfo
    pub config : ℕ → ConfigInfo
