-- ===== src/Handle/State.antt =====
-- The state that the library's functions read and write.
use whatsup.Prelude.{ℕ, Bool, false, Option, none, List, Name}

-- NODEUPDOWN_LOAD_STATE_*
pub data LoadState : Type 0 where
  unloaded setup loaded : LoadState

-- `struct nodeupdown`
pub record Handle (H T : Type 0) : Type 0 where
  pub magic : ℕ
  pub errnum : ℕ
  pub load_state : LoadState
  pub ltdl_initialized : Bool
  pub up_nodes : Option H
  pub down_nodes : Option H
  pub last_up_times : Option T
  pub numnodes : ℕ

-- Where a module's info structure lies: in the library, or at an address that `lt_dlsym` gave.
pub data InfoAddr : Type 0 where
  builtin : InfoAddr
  symbol : ℕ → InfoAddr

-- The statics of nodeupdown_module.c. `dl_open` counts `lt_dlopen` less `lt_dlclose`, and `dl_refs`
-- counts `lt_dlinit` less `lt_dlexit`: libltdl keeps both for the process.
pub record Modules : Type 0 where
  pub backend_module_dl_handle : Option ℕ
  pub backend_module_info : Option ℕ
  pub clusterlist_module_dl_handle : Option ℕ
  pub clusterlist_module_info : Option InfoAddr
  pub clusterlist_module_found : ℕ
  pub config_module_dl_handle : Option ℕ
  pub config_module_info : Option InfoAddr
  pub dl_open : ℕ
  pub dl_refs : ℕ

-- With the statics of two modules: `hosts` of the hostsfile clusterlist, and whether
-- `cerebro_handle` of the cerebro backend is set.
pub record State (H T : Type 0) : Type 0 where
  pub handle : Handle H T
  pub modules : Modules
  pub hosts : Option (List Name)
  pub cerebro_handle : Bool

abbrev pub nodeupdown_magic_num : ℕ
nodeupdown_magic_num = 0xfeedbeef

module _ {H T : Type 0} where
  -- `_initialize_handle`
  unfoldable pub initialize_handle : Handle H T → Handle H T
  initialize_handle h = record h {
    magic = nodeupdown_magic_num;
    load_state = LoadState.unloaded;
    ltdl_initialized = false;
    up_nodes = none;
    down_nodes = none;
    numnodes = 0;
    last_up_times = none;
  }

  -- `handle->errnum = e`
  abbrev pub put_errnum : ℕ → State H T → State H T
  put_errnum e s = record s { handle = record s.handle { errnum = e } }
