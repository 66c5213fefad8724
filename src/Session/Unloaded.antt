-- ===== src/Session/Unloaded.antt =====
-- Handles that are not loaded, and the error numbers with their messages.
use whatsup.Prelude.{
  get_elem?-some, ◌<◌, if-cases, ℕ, ◌≡◌, refl, Bool, true, false, Option, none, some, Name, List,
  [], ℤ, pos, negsuc, leb, arith, is_some,
}
use whatsup.Handle.Err
use whatsup.Handle.State.{State, LoadState, nodeupdown_magic_num, put_errnum}
use whatsup.Handle.Checks.{loaded_handle_error_check}
use whatsup.Module.Info.{Env}
use whatsup.Load.Data.{nodeupdown_load_data}
use whatsup.Query.Message.{nodeupdown_strerror, nodeupdown_errmsg}
use whatsup.Query.Nodes.{
  get_nodes_string, get_nodes_list, list_checked, is_node, node_count, nodeupdown_last_up_time,
}
use whatsup.Query.Nodelist.{
  nodeupdown_nodelist_create, nodeupdown_nodelist_clear, clear_checked, nodeupdown_nodelist_destroy,
}
use whatsup.Session.{
  Call, load_data, nodes_string, nodes_list, node_is, count, last_up_time, nodelist_create,
  nodelist_clear, nodelist_destroy, call,
}

-- a call other than a load
abbrev pub is_query : Call → Bool
is_query (load_data hostname port timeout_len name) = false
is_query _ = true

-- the array that the caller hands over
abbrev pub array_of : Call → List (Option Name)
array_of (nodes_list array len which) = array
array_of (nodelist_clear list) = list
array_of (nodelist_destroy (some list)) = list
array_of _ = []

module _ {H T : Type 0} (env : Env H T) where
  -- whether a call succeeds, and the caller's array after it
  unfoldable pub answer : Call → State H T → Bool × List (Option Name)
  answer (load_data hostname port timeout_len name) s =
      (is_some (nodeupdown_load_data env hostname port timeout_len name s).0, [])
  answer (nodes_string buf buflen which) s =
      (is_some (get_nodes_string env buf buflen which s).0, [])
  answer (nodes_list array len which) s =
      let r = get_nodes_list env array len which s in (is_some r.0, r.1)
  answer (node_is which node) s = (is_some (is_node env which node s).0, [])
  answer (count which) s = (is_some (node_count env which s).0, [])
  answer (last_up_time node p) s = (is_some (nodeupdown_last_up_time env node p s).0, [])
  answer (nodelist_create malloc list) s =
      (is_some (nodeupdown_nodelist_create malloc list s).0, [])
  answer (nodelist_clear list) s = let r = nodeupdown_nodelist_clear list s in (is_some r.0, r.1)
  answer (nodelist_destroy none) s = (is_some (nodeupdown_nodelist_destroy none s).0, [])
  answer (nodelist_destroy (some list)) s =
      (is_some (nodeupdown_nodelist_destroy (some list) s).0, list)

  not_loaded_check :
      (s : State H T)
      → s.handle.magic ≡ nodeupdown_magic_num
      → s.handle.load_state ≡ LoadState.unloaded
      → loaded_handle_error_check s ≡ (none, put_errnum Err.not_loaded s)
  unfolding loaded_handle_error_check
  not_loaded_check s m l = ground (arith, m, l)

  -- Whatever is asked of a handle that is not loaded, the call fails, the caller's array stays as it
  -- is, the error number says that the handle is not loaded, and nothing else of the state changes.
  pub call-not_loaded :
      (c : Call) (s : State H T)
      → is_query c ≡ true
      → s.handle.magic ≡ nodeupdown_magic_num
      → s.handle.load_state ≡ LoadState.unloaded
      → (answer c s ≡ (false, array_of c)) × (call env c s ≡ put_errnum Err.not_loaded s)
  unfolding answer call get_nodes_string get_nodes_list list_checked is_node node_count
      nodeupdown_last_up_time nodeupdown_nodelist_create nodeupdown_nodelist_clear clear_checked
      nodeupdown_nodelist_destroy
  call-not_loaded (load_data hostname port timeout_len name) s q m l = cc q
  call-not_loaded (nodes_string buf buflen which) s q m l =
      (rw (answer, not_loaded_check s m l) refl, rw (call, not_loaded_check s m l) refl)
  call-not_loaded (nodes_list array len which) s q m l =
      (rw (answer, not_loaded_check s m l) refl, rw (call, not_loaded_check s m l) refl)
  call-not_loaded (node_is which none) s q m l =
      (rw (answer, not_loaded_check s m l) refl, rw (call, not_loaded_check s m l) refl)
  call-not_loaded (node_is which (some node)) s q m l =
      (rw (answer, not_loaded_check s m l) refl, rw (call, not_loaded_check s m l) refl)
  call-not_loaded (count which) s q m l =
      (rw (answer, not_loaded_check s m l) refl, rw (call, not_loaded_check s m l) refl)
  call-not_loaded (last_up_time none p) s q m l =
      (rw (answer, not_loaded_check s m l) refl, rw (call, not_loaded_check s m l) refl)
  call-not_loaded (last_up_time (some node) p) s q m l =
      (rw (answer, not_loaded_check s m l) refl, rw (call, not_loaded_check s m l) refl)
  call-not_loaded (nodelist_create malloc list) s q m l =
      (rw (answer, not_loaded_check s m l) refl, rw (call, not_loaded_check s m l) refl)
  call-not_loaded (nodelist_clear list) s q m l =
      (rw (answer, not_loaded_check s m l) refl, rw (call, not_loaded_check s m l) refl)
  call-not_loaded (nodelist_destroy none) s q m l =
      (rw (answer, not_loaded_check s m l) refl, rw (call, not_loaded_check s m l) refl)
  call-not_loaded (nodelist_destroy (some list)) s q m l =
      (rw (answer, not_loaded_check s m l) refl, rw (call, not_loaded_check s m l) refl)

leb-less : (n : ℕ) → leb n Err.errnum_range ≡ true → n < 22
leb-less n e = ground arith

-- `nodeupdown_strerror` reads within its array for every `int`, and a number out of the range of the
-- error numbers has the message that says so.
pub nodeupdown_strerror-some : (e : ℤ) → (is_some (nodeupdown_strerror e) ≡ true)
unfolding nodeupdown_strerror
nodeupdown_strerror-some (negsuc n) = refl
nodeupdown_strerror-some (pos n) =
    if-cases (λ (o : Option Name). is_some o ≡ true) (leb n Err.errnum_range) _ _
      (λ e. get_elem?-some nodeupdown_errmsg n (leb-less n e)) (λ _. refl)
