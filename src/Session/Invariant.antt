-- ===== src/Session/Invariant.antt =====
-- Between two calls a handle is free or loaded, whatever the calls were and however they ended.
use whatsup.Prelude.{
  ℕ, ℤ, refl, ◌≡◌, ◌⊎◌, inl, inr, Option, none, some, List, [], ◌∷◌, arith, Name, Post,
}
use whatsup.Handle.State.{State, put_errnum}
use whatsup.Handle.Err
use whatsup.Handle.Checks.{unloaded_handle_error_check}
use whatsup.Module.Info.{Env}
use whatsup.Module.Counts.{Counted, Frame, Frame-Counted}
use whatsup.Module.Laws.{EnvLaws}
use whatsup.Module.DefaultFrame.{Frame-put_errnum}
use whatsup.Load.Data.{free_handle_data, load_body, nodeupdown_load_data, nodeupdown_handle_destroy}
use whatsup.Load.Free.{IsFree, free_handle_data-IsFree}
use whatsup.Load.Outcome.{IsLoaded, HasLoaded, nodeupdown_load_data-HasLoaded}
use whatsup.Query.Frame.{
  get_nodes_string-Framed, Frame-get_nodes_list, is_node-Framed, node_count-Framed,
  last_up_time-Framed, nodelist_create-Framed, Frame-nodelist_clear, nodelist_destroy-Framed,
}
use whatsup.Session.{
  Call, load_data, nodes_string, nodes_list, node_is, count, last_up_time, nodelist_create,
  nodelist_clear, nodelist_destroy, call, calls,
}

abbrev pub IsIdle : {H T : Type 0} → ℕ → ℕ → State H T → Type 0
IsIdle o r s = IsFree o r s ⊎ IsLoaded o r s

module _ {H T : Type 0} (o r : ℕ) where
  Frame-IsFree : {s t : State H T} → Frame s t → IsFree o r s → IsFree o r t
  Frame-IsFree f h = ground arith

  Frame-IsLoaded : {s t : State H T} → Frame s t → IsLoaded o r s → IsLoaded o r t
  Frame-IsLoaded f h = ground arith

  Frame-IsIdle : {s t : State H T} → Frame s t → IsIdle o r s → IsIdle o r t
  Frame-IsIdle f (inl h) = inl (Frame-IsFree f h)
  Frame-IsIdle f (inr h) = inr (Frame-IsLoaded f h)

  load_check_loaded :
      (s : State H T)
      → IsLoaded o r s
      → unloaded_handle_error_check s ≡ (none, put_errnum Err.is_loaded s)
  unfolding unloaded_handle_error_check
  load_check_loaded s h = ground arith

module _ {H T : Type 0} (env : Env H T) (laws : EnvLaws env) (o r : ℕ) where
  -- Where the modules respect their interface (Module.Laws):
  -- a second load of a loaded handle fails, and it also frees all the data that the first one loaded:
  -- afterwards the handle is as free as a new one.
  pub load_data-loaded :
      (hostname : Option Name) (port timeout_len : ℤ) (name : Option Name) (s : State H T)
      → IsLoaded o r s
      → ((nodeupdown_load_data env hostname port timeout_len name s).0 ≡ none)
        × IsFree o r (nodeupdown_load_data env hostname port timeout_len name s).1
  unfolding nodeupdown_load_data load_body
  load_data-loaded hostname port timeout_len name s h = rw (load_check_loaded o r s h) (
    refl,
    free_handle_data-IsFree env laws o r _
        (Frame-Counted o r (Frame-put_errnum Err.is_loaded s) h.counted),
  )

  Post-IsIdle :
      (x : Option (Unit {0}) × State H T)
      → Post (λ _. HasLoaded o r) (IsFree o r) x
      → IsIdle o r x.1
  Post-IsIdle (none, s) h = inl h
  Post-IsIdle (some _, s) h = inr h.loaded

  load-IsIdle :
      (hostname : Option Name) (port timeout_len : ℤ) (name : Option Name) (s : State H T)
      → IsIdle o r s
      → IsIdle o r (nodeupdown_load_data env hostname port timeout_len name s).1
  load-IsIdle hostname port timeout_len name s (inl h) =
      Post-IsIdle _ (nodeupdown_load_data-HasLoaded env laws o r hostname port timeout_len name s h)
  load-IsIdle hostname port timeout_len name s (inr h) =
      inl (load_data-loaded hostname port timeout_len name s h).1

  call-IsIdle : (c : Call) (s : State H T) → IsIdle o r s → IsIdle o r (call env c s)
  unfolding call
  call-IsIdle (load_data hostname port timeout_len name) s h =
      load-IsIdle hostname port timeout_len name s h
  call-IsIdle (nodes_string buf buflen which) s h =
      Frame-IsIdle o r ((get_nodes_string-Framed env buf buflen which).at s) h
  call-IsIdle (nodes_list array len which) s h =
      Frame-IsIdle o r (Frame-get_nodes_list env array len which s) h
  call-IsIdle (node_is which node) s h =
      Frame-IsIdle o r ((is_node-Framed env laws which node).at s) h
  call-IsIdle (count which) s h = Frame-IsIdle o r ((node_count-Framed env which).at s) h
  call-IsIdle (last_up_time node p) s h = Frame-IsIdle o r ((last_up_time-Framed env node p).at s) h
  call-IsIdle (nodelist_create malloc list) s h =
      Frame-IsIdle o r ((nodelist_create-Framed malloc list).at s) h
  call-IsIdle (nodelist_clear list) s h = Frame-IsIdle o r (Frame-nodelist_clear list s) h
  call-IsIdle (nodelist_destroy list) s h = Frame-IsIdle o r ((nodelist_destroy-Framed list).at s) h

  -- Where the modules respect their interface (Module.Laws):
  -- from a free or a loaded handle, any sequence of calls of the library, whatever their arguments
  -- and however they end, leaves the handle free or loaded, with the open modules and the references
  -- to libltdl that go with it.
  pub calls-IsIdle : (cs : List Call) (s : State H T) → IsIdle o r s → IsIdle o r (calls env cs s)
  unfolding calls
  calls-IsIdle [] s h = h
  calls-IsIdle (c ∷ cs) s h = calls-IsIdle cs (call env c s) (call-IsIdle c s h)

  IsIdle-Counted : (s : State H T) → IsIdle o r s → Counted o r s
  IsIdle-Counted s (inl h) = ground arith
  IsIdle-Counted s (inr h) = h.counted

  destroy_lem :
      (s : State H T)
      → Counted o r s
      → ((nodeupdown_handle_destroy env s).0 ≡ some tt)
        × ((nodeupdown_handle_destroy env s).1.modules ≡ (free_handle_data env s).modules)
  unfolding nodeupdown_handle_destroy
  destroy_lem s c = ground arith

  -- Where the modules respect their interface (Module.Laws):
  -- destroying a free or loaded handle after any sequence of calls succeeds, and gives back every module and every
  -- reference to libltdl: the process has as many as before the handle was used.
  pub destroy_restores :
      (cs : List Call) (s : State H T)
      → IsIdle o r s
      → let t = nodeupdown_handle_destroy env (calls env cs s) in
        (t.0 ≡ some tt) × (t.1.modules.dl_open ≡ o) × (t.1.modules.dl_refs ≡ r)
  destroy_restores cs s h =
      let c = IsIdle-Counted _ (calls-IsIdle cs s h) in
      let f = free_handle_data-IsFree env laws o r _ c in
      ground (arith, destroy_lem (calls env cs s) c, f.dl_open, f.dl_refs)
