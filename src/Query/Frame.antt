-- ===== src/Query/Frame.antt =====
-- The queries change nothing of the handle but its error number and what a clusterlist module may.
use whatsup.Prelude.{
  ℕ, ℤ, Bool, true, false, ◌||◌, not, Option, none, some, List, Name, ltb, is_some, is_nonpos,
  if-intro, Exec, ◌>>=◌,
}
use whatsup.Handle.State.{State, LoadState}
use whatsup.Handle.Checks.{loaded_check, loaded_handle_error_check, nodeupdown_handle_error_check}
use whatsup.Module.Info.{Env}
use whatsup.Module.Counts.{Frame, Frame-refl, Frame-trans, Framed, Framed-bind, Framed-if}
use whatsup.Module.Laws.{EnvLaws}
use whatsup.Module.DefaultFrame.{Frame-put_errnum}
use whatsup.Module.Calls.{
  clusterlist_module_is_node_in_cluster-Framed, clusterlist_module_get_nodename-Framed,
}
use whatsup.Devel.{UpOrDown, list_of, find_in}
use whatsup.Devel.Frame.{fail_with-Framed}
use whatsup.Query.Nodes.{
  Copied, all, stopped, succeed, string_result, get_nodes_string, list_result, list_checked,
  iterator_of, get_nodes_list, is_listed, look_up_member, is_node, node_count, time_found,
  find_time, nodeupdown_last_up_time,
}
use whatsup.Query.Nodelist.{
  nodeupdown_nodelist_create, clear_result, clear_checked, nodeupdown_nodelist_clear,
  nodeupdown_nodelist_destroy,
}

module _ {H T : Type 0} where
  Frame-loaded_check : (l : LoadState) (s : State H T) → Frame s (loaded_check l s).1
  unfolding loaded_check
  Frame-loaded_check LoadState.loaded s = Frame-refl s
  Frame-loaded_check LoadState.unloaded s = Frame-put_errnum _ s
  Frame-loaded_check LoadState.setup s = Frame-put_errnum _ s

  loaded_handle_error_check-Framed : Framed {H = H} {T = T} loaded_handle_error_check
  unfolding loaded_handle_error_check
  loaded_handle_error_check-Framed =
      Framed-if (λ s. nodeupdown_handle_error_check (some s.handle)) _ (λ s. (none, s))
        (record { at = λ s. Frame-loaded_check s.handle.load_state s }) (record { at = Frame-refl })

  succeed-Framed : {A : Type 0} (a : A) → Framed {H = H} {T = T} (succeed a)
  succeed-Framed a = record { at = Frame-put_errnum _ }

  -- What follows the check of the handle.
  checked :
      {A : Type 0} (m : Exec (State H T) A)
      → Framed m
      → Framed (loaded_handle_error_check >>= (λ _. m))
  checked m f = Framed-bind _ (λ _. m) loaded_handle_error_check-Framed (λ _. f)

  pub nodelist_create-Framed :
      (malloc list : Bool) → Framed {H = H} {T = T} (nodeupdown_nodelist_create malloc list)
  unfolding nodeupdown_nodelist_create
  nodelist_create-Framed true true = checked _ (record { at = λ s. Frame-put_errnum _ s })
  nodelist_create-Framed false true = checked _ (fail_with-Framed _)
  nodelist_create-Framed true false = checked _ (fail_with-Framed _)
  nodelist_create-Framed false false = checked _ (fail_with-Framed _)

  Frame-clear_result :
      (x : Bool × List (Option Name)) (s : State H T) → Frame s (clear_result x s).2
  unfolding clear_result
  Frame-clear_result (true, list) s = Frame-put_errnum _ s
  Frame-clear_result (false, list) s = Frame-put_errnum _ s

  Frame-clear_checked :
      (list : List (Option Name)) (o : Option (Unit {0})) (s t : State H T)
      → Frame s t
      → Frame s (clear_checked list o t).2
  unfolding clear_checked
  Frame-clear_checked list none s t f = f
  Frame-clear_checked list (some _) s t f = Frame-trans f (Frame-clear_result _ t)

  pub Frame-nodelist_clear :
      (list : List (Option Name)) (s : State H T) → Frame s (nodeupdown_nodelist_clear list s).2
  unfolding nodeupdown_nodelist_clear
  Frame-nodelist_clear list s =
      Frame-clear_checked list _ s _ (loaded_handle_error_check-Framed.at s)

  pub nodelist_destroy-Framed :
      (list : Option (List (Option Name)))
      → Framed {H = H} {T = T} (nodeupdown_nodelist_destroy list)
  unfolding nodeupdown_nodelist_destroy
  nodelist_destroy-Framed none = checked _ (fail_with-Framed _)
  nodelist_destroy-Framed (some list) = checked _ (succeed-Framed tt)

module _ {H T : Type 0} (env : Env H T) where
  string_result-Framed : (o : Option Name) → Framed (string_result env o)
  unfolding string_result
  string_result-Framed none = fail_with-Framed _
  string_result-Framed (some text) = succeed-Framed text

  pub get_nodes_string-Framed :
      (buf : Bool) (buflen : ℤ) (which : UpOrDown) → Framed (get_nodes_string env buf buflen which)
  unfolding get_nodes_string
  get_nodes_string-Framed buf buflen which = checked _ (
      Framed-if (λ _. not buf || is_nonpos buflen) _ _ (fail_with-Framed _)
        (record { at = λ s. (string_result-Framed _).at s }))

  Frame-list_result :
      (x : Copied × List (Option Name)) (s : State H T) → Frame s (list_result env x s).2
  unfolding list_result
  Frame-list_result (all count, array) s = Frame-put_errnum _ s
  Frame-list_result (stopped e, array) s = Frame-put_errnum _ s

  Frame-list_checked :
      (array : List (Option Name)) (len : ℤ) (which : UpOrDown) (o : Option (Unit {0}))
      (s t : State H T)
      → Frame s t
      → Frame s (list_checked env array len which o t).2
  unfolding list_checked
  Frame-list_checked array len which none s t f = f
  Frame-list_checked array len which (some _) s t f =
      if-intro {A = Listed} (λ x. Frame s x.2) (is_nonpos len) _ _
        (Frame-trans f (Frame-put_errnum _ t))
        (if-intro {A = Listed} (λ x. Frame s x.2) (iterator_of env (list_of which t.handle)) _ _
          (Frame-trans f (Frame-list_result _ t)) (Frame-trans f (Frame-put_errnum _ t)))
    where
      Listed : Type 0
      Listed = Option ℕ × List (Option Name) × State H T

  pub Frame-get_nodes_list :
      (array : List (Option Name)) (len : ℤ) (which : UpOrDown) (s : State H T)
      → Frame s (get_nodes_list env array len which s).2
  unfolding get_nodes_list
  Frame-get_nodes_list array len which s =
      Frame-list_checked array len which _ s _ (loaded_handle_error_check-Framed.at s)

  pub node_count-Framed : (which : UpOrDown) → Framed (node_count env which)
  unfolding node_count
  node_count-Framed which = checked _ (record { at = λ s. Frame-put_errnum _ s })

  time_found-Framed : (o : Option ℕ) → Framed (time_found env o)
  unfolding time_found
  time_found-Framed none = fail_with-Framed _
  time_found-Framed (some t) = succeed-Framed t

  find_time-Framed : (o : Option T) (node : Name) → Framed (find_time env o node)
  unfolding find_time
  find_time-Framed none node = fail_with-Framed _
  find_time-Framed (some t) node =
      Framed-if (λ _. env.hash.is_empty t) _ _ (fail_with-Framed _)
        (time_found-Framed (env.hash.find t node))

  pub last_up_time-Framed :
      (node : Option Name) (p : Bool) → Framed (nodeupdown_last_up_time env node p)
  unfolding nodeupdown_last_up_time
  last_up_time-Framed none p = checked _ (fail_with-Framed _)
  last_up_time-Framed (some node) p = checked _ (
      Framed-if (λ _. p) (λ s. find_time env s.handle.last_up_times node s) _
        (record { at = λ s. (find_time-Framed _ node).at s }) (fail_with-Framed _))

module _ {H T : Type 0} (env : Env H T) (laws : EnvLaws env) where
  is_listed-Framed : (which : UpOrDown) (node : Name) → Framed (is_listed env which node)
  unfolding is_listed
  is_listed-Framed which node = record { at = λ s. Frame-put_errnum _ s }

  look_up_member-Framed :
      (which : UpOrDown) (node : Name) (b : Bool) → Framed (look_up_member env which node b)
  unfolding look_up_member
  look_up_member-Framed which node false = fail_with-Framed _
  look_up_member-Framed which node true =
      Framed-bind _ _ (clusterlist_module_get_nodename-Framed env laws node _)
        (is_listed-Framed which)

  pub is_node-Framed : (which : UpOrDown) (node : Option Name) → Framed (is_node env which node)
  unfolding is_node
  is_node-Framed which none = checked _ (fail_with-Framed _)
  is_node-Framed which (some node) = checked _ (
      Framed-if (λ s. ltb 0 s.modules.clusterlist_module_found) _ _
        (Framed-bind _ _ (clusterlist_module_is_node_in_cluster-Framed env laws node)
          (look_up_member-Framed which node))
        (Framed-if
          (λ s.
            is_some (find_in env.hostlist s.handle.up_nodes node)
            || is_some (find_in env.hostlist s.handle.down_nodes node))
          _ _ (is_listed-Framed which node) (fail_with-Framed _)))
