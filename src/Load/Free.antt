-- ===== src/Load/Free.antt =====
-- Freeing a handle's data, from any point of a load.
use whatsup.Prelude.{ℕ, ◌≡◌, false, none, arith}
use whatsup.Handle.State.{State, LoadState, nodeupdown_magic_num, initialize_handle}
use whatsup.Module.Info.{Env}
use whatsup.Module.Counts.{Counted, Frame, Frame-Counted}
use whatsup.Module.Laws.{EnvLaws}
use whatsup.Module.Calls.{
  backend_module_cleanup-Framed, clusterlist_module_cleanup-Framed, config_module_cleanup-Framed,
}
use whatsup.Module.Backend.{backend_module_unload}
use whatsup.Module.Clusterlist.{clusterlist_module_unload}
use whatsup.Module.Config.{config_module_unload}
use whatsup.Load.Data.{exit_ltdl, free_modules, free_handle_data}

-- A handle that holds nothing, and a library that holds no module: of the process's modules and of its
-- references to libltdl only `o` and `r` are left.
pub record IsFree {H T : Type 0} (o r : ℕ) (s : State H T) : Type 0 where
  pub magic : s.handle.magic ≡ nodeupdown_magic_num
  pub load_state : s.handle.load_state ≡ LoadState.unloaded
  pub ltdl_initialized : s.handle.ltdl_initialized ≡ false
  pub up_nodes : s.handle.up_nodes ≡ none
  pub down_nodes : s.handle.down_nodes ≡ none
  pub last_up_times : s.handle.last_up_times ≡ none
  pub numnodes : s.handle.numnodes ≡ 0
  pub backend_dl : s.modules.backend_module_dl_handle ≡ none
  pub backend_info : s.modules.backend_module_info ≡ none
  pub clusterlist_dl : s.modules.clusterlist_module_dl_handle ≡ none
  pub clusterlist_info : s.modules.clusterlist_module_info ≡ none
  pub clusterlist_found : s.modules.clusterlist_module_found ≡ 0
  pub config_dl : s.modules.config_module_dl_handle ≡ none
  pub config_info : s.modules.config_module_info ≡ none
  pub dl_open : s.modules.dl_open ≡ o
  pub dl_refs : s.modules.dl_refs ≡ r

-- Which of the three modules have been unloaded.
record BackendGone {H T : Type 0} (o r : ℕ) (s : State H T) : Type 0 where
  counted : Counted o r s
  backend_dl : s.modules.backend_module_dl_handle ≡ none
  backend_info : s.modules.backend_module_info ≡ none

record ClusterlistGone {H T : Type 0} (o r : ℕ) (s : State H T) : Type 0 where
  backend : BackendGone o r s
  clusterlist_dl : s.modules.clusterlist_module_dl_handle ≡ none
  clusterlist_info : s.modules.clusterlist_module_info ≡ none
  clusterlist_found : s.modules.clusterlist_module_found ≡ 0

record AllGone {H T : Type 0} (o r : ℕ) (s : State H T) : Type 0 where
  clusterlist : ClusterlistGone o r s
  config_dl : s.modules.config_module_dl_handle ≡ none
  config_info : s.modules.config_module_info ≡ none

module _ {H T : Type 0} (o r : ℕ) where
  Frame-BackendGone : {s t : State H T} → Frame s t → BackendGone o r s → BackendGone o r t
  Frame-BackendGone f h = ground arith

  Frame-ClusterlistGone :
      {s t : State H T} → Frame s t → ClusterlistGone o r s → ClusterlistGone o r t
  Frame-ClusterlistGone f h = ground arith

  backend_module_unload-Gone :
      (s : State H T) → Counted o r s → BackendGone o r (backend_module_unload s)
  unfolding backend_module_unload
  backend_module_unload-Gone s c = ground arith

  clusterlist_module_unload-Gone :
      (s : State H T) → BackendGone o r s → ClusterlistGone o r (clusterlist_module_unload s)
  unfolding clusterlist_module_unload
  clusterlist_module_unload-Gone s g = ground arith

  config_module_unload-Gone :
      (s : State H T) → ClusterlistGone o r s → AllGone o r (config_module_unload s)
  unfolding config_module_unload
  config_module_unload-Gone s g = ground arith

  exit-IsFree :
      (s : State H T)
      → AllGone o r s
      → IsFree o r (record (exit_ltdl s) { handle = initialize_handle (exit_ltdl s).handle })
  unfolding exit_ltdl initialize_handle
  exit-IsFree s g = ground arith

module _ {H T : Type 0} (env : Env H T) (laws : EnvLaws env) (o r : ℕ) where
  free_modules-Gone : (s : State H T) → Counted o r s → AllGone o r (free_modules env s)
  unfolding free_modules
  free_modules-Gone s c = config_module_unload-Gone o r _ (
      Frame-ClusterlistGone o r ((config_module_cleanup-Framed env laws).at _) (
        clusterlist_module_unload-Gone o r _ (
          Frame-BackendGone o r ((clusterlist_module_cleanup-Framed env laws).at _) (
            backend_module_unload-Gone o r _
              (Frame-Counted o r ((backend_module_cleanup-Framed env laws).at s) c)))))

  pub free_handle_data-IsFree :
      (s : State H T) → Counted o r s → IsFree o r (free_handle_data env s)
  unfolding free_handle_data
  free_handle_data-IsFree s c = exit-IsFree o r (free_modules env s) (free_modules-Gone s c)
