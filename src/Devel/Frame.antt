-- ===== src/Devel/Frame.antt =====
-- The functions for the modules leave the frame alone.
use whatsup.Prelude.{ℕ, Bool, true, false, ◌||◌, Option, none, some, Name, arith, is_some}
use whatsup.Handle.State.{State, LoadState}
use whatsup.Handle.Checks.{
  fail_with, setup_check, setup_handle_error_check, nodeupdown_handle_error_check,
}
use whatsup.Module.Info.{Env}
use whatsup.Module.Counts.{Frame, Frame-refl, Framed, Framed-bind, Framed-if}
use whatsup.Module.Laws.{DevelFramed, EnvLaws}
use whatsup.Module.DefaultFrame.{Frame-put_errnum}
use whatsup.Module.Calls.{
  clusterlist_module_is_node_in_cluster-Framed, clusterlist_module_get_nodename-Framed,
}
use whatsup.Devel.{
  UpOrDown, up_nodes, down_nodes, find_in, push_node, add_cluster_node, add_if_member, add_node,
  nodeupdown_add_up_node, nodeupdown_add_down_node, insert_time, exists_time, insert_result,
  nodeupdown_add_last_up_time, nodeupdown_not_discovered_check, devel_api,
}

module _ {H T : Type 0} where
  pub fail_with-Framed : {A : Type 0} (e : ℕ) → Framed {H = H} {T = T} {A = A} (fail_with e)
  fail_with-Framed e = record { at = Frame-put_errnum e }

  Frame-setup_check : (l : LoadState) (s : State H T) → Frame s (setup_check l s).1
  unfolding setup_check
  Frame-setup_check LoadState.setup s = Frame-refl s
  Frame-setup_check LoadState.unloaded s = Frame-put_errnum _ s
  Frame-setup_check LoadState.loaded s = Frame-put_errnum _ s

  pub setup_handle_error_check-Framed : Framed {H = H} {T = T} setup_handle_error_check
  unfolding setup_handle_error_check
  setup_handle_error_check-Framed =
      Framed-if (λ s. nodeupdown_handle_error_check (some s.handle)) _ (λ s. (none, s))
        (record { at = λ s. Frame-setup_check s.handle.load_state s }) (record { at = Frame-refl })

module _ {H T : Type 0} (env : Env H T) where
  Frame-push_node :
      (which : UpOrDown) (node : Name) (s : State H T) → Frame s (push_node env which node s).1
  unfolding push_node
  Frame-push_node up_nodes node s = ground arith
  Frame-push_node down_nodes node s = ground arith

  Frame-insert_result :
      (node : Name) (t : ℕ) (s : State H T)
      → Frame s (insert_result env node (insert_time env s.handle.last_up_times node t) s).1
  unfolding insert_result insert_time exists_time
  Frame-insert_result node t s = ground arith

  pub nodeupdown_add_last_up_time-Framed :
      (node : Option Name) (t : ℕ) → Framed (nodeupdown_add_last_up_time env node t)
  unfolding nodeupdown_add_last_up_time
  nodeupdown_add_last_up_time-Framed none t =
      Framed-bind _ _ setup_handle_error_check-Framed (λ _. fail_with-Framed _)
  nodeupdown_add_last_up_time-Framed (some node) t =
      Framed-bind _ _ setup_handle_error_check-Framed (λ _.
        Framed-if (λ _. env.malloc)
          (λ s. insert_result env node (insert_time env s.handle.last_up_times node t) s) _
          (record { at = Frame-insert_result node t }) (fail_with-Framed _))

module _ {H T : Type 0} (env : Env H T) (laws : EnvLaws env) where
  add_if_member-Framed :
      (which : UpOrDown) (node : Name) (member : Bool)
      → Framed (add_if_member env which node member)
  unfolding add_if_member add_cluster_node
  add_if_member-Framed which node true =
      Framed-bind _ _ (clusterlist_module_get_nodename-Framed env laws node _)
        (λ buffer. record { at = Frame-push_node env which buffer })
  add_if_member-Framed which node false = record { at = Frame-refl }

  pub add_node-Framed : (which : UpOrDown) (node : Option Name) → Framed (add_node env which node)
  unfolding add_node
  add_node-Framed which none =
      Framed-bind _ _ setup_handle_error_check-Framed (λ _. fail_with-Framed _)
  add_node-Framed which (some node) =
      Framed-bind _ _
        (Framed-bind _ _ setup_handle_error_check-Framed
          (λ _. clusterlist_module_is_node_in_cluster-Framed env laws node))
        (add_if_member-Framed which node)

  pub not_discovered_check-Framed :
      (node : Option Name) → Framed (nodeupdown_not_discovered_check env node)
  unfolding nodeupdown_not_discovered_check nodeupdown_add_down_node
  not_discovered_check-Framed none =
      Framed-bind _ _ setup_handle_error_check-Framed (λ _. fail_with-Framed _)
  not_discovered_check-Framed (some node) = Framed-bind _ _ setup_handle_error_check-Framed (λ _.
      Framed-if
        (λ s.
          is_some (find_in env.hostlist s.handle.up_nodes node)
          || is_some (find_in env.hostlist s.handle.down_nodes node))
        (λ s. (some tt, s)) _ (record { at = Frame-refl }) (add_node-Framed down_nodes (some node)))

  -- The functions that the library gives to its modules leave the frame alone.
  pub devel_api-DevelFramed : DevelFramed (devel_api env)
  unfolding devel_api nodeupdown_add_up_node nodeupdown_add_down_node
  devel_api-DevelFramed = record {
    add_up_node = λ node. add_node-Framed up_nodes (some node);
    add_down_node = λ node. add_node-Framed down_nodes (some node);
    add_last_up_time = λ node t. nodeupdown_add_last_up_time-Framed env (some node) t;
    not_discovered_check = λ node. not_discovered_check-Framed (some node);
  }
