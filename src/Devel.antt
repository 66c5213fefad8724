-- ===== src/Devel.antt =====
-- The functions that the library gives to its modules: src/libnodeupdown/nodeupdown_devel.c.
pub mod Frame
pub mod Discover
use whatsup.Prelude.{
  ℕ, suc, ◌+◌, Bool, true, false, ◌||◌, Option, none, some, Name, if◌then◌else◌, is_some, Exec,
  ◌>>=◌, ◌>>◌, pure, continue,
}
use whatsup.External.{HostlistOps, HashOps}
use whatsup.Handle.Err
use whatsup.Handle.State.{Handle, State, put_errnum}
use whatsup.Handle.Checks.{fail_with, setup_handle_error_check}
use whatsup.Module.Info.{Env, DevelApi}
use whatsup.Module.Clusterlist.{
  clusterlist_module_is_node_in_cluster, clusterlist_module_get_nodename,
}

-- NODEUPDOWN_MAXNODENAMELEN
abbrev pub maxnodenamelen : ℕ
maxnodenamelen = 64

-- NODEUPDOWN_UP_NODES and NODEUPDOWN_DOWN_NODES
pub data UpOrDown : Type 0 where
  up_nodes down_nodes : UpOrDown

-- `hostlist_push` into one of the two lists, which are not NULL once the handle is set up
abbrev pub push_into : {H : Type 0} → HostlistOps H → Option H → Name → Option H
push_into hl none node = none
push_into hl (some l) node = hl.push l node

abbrev pub find_in : {H : Type 0} → HostlistOps H → Option H → Name → Option ℕ
find_in hl none node = none
find_in hl (some l) node = hl.find l node

module _ {H T : Type 0} where
  abbrev pub list_of : UpOrDown → Handle H T → Option H
  list_of up_nodes h = h.up_nodes
  list_of down_nodes h = h.down_nodes

  abbrev pub put_list : UpOrDown → H → State H T → State H T
  put_list up_nodes l s = record s { handle = record s.handle { up_nodes = some l } }
  put_list down_nodes l s = record s { handle = record s.handle { down_nodes = some l } }

  module _ (env : Env H T) where
    push_result : UpOrDown → Option H → Exec (State H T) (Unit {0})
    push_result which none s = fail_with Err.out_mem s
    push_result which (some l) s = (some tt, put_list which l s)

    unfoldable pub push_node : UpOrDown → Name → Exec (State H T) (Unit {0})
    unfolding push_result
    push_node which buffer s =
        push_result which (push_into env.hostlist (list_of which s.handle) buffer) s

    -- what `_add_node` does with a node of the cluster
    add_cluster_node : UpOrDown → Name → Exec (State H T) (Unit {0})
    add_cluster_node which node =
        clusterlist_module_get_nodename env node (maxnodenamelen + 1) >>= push_node which

    add_if_member : UpOrDown → Name → Bool → Exec (State H T) (Unit {0})
    add_if_member which node true s = add_cluster_node which node s
    add_if_member which node false s = (some tt, s)

    -- a NULL `node` is the first argument `none`
    unfoldable pub add_node : UpOrDown → Option Name → Exec (State H T) (Unit {0})
    unfolding add_if_member add_cluster_node
    add_node which none = setup_handle_error_check >> λ s. fail_with Err.internal s
    add_node which (some node) =
        setup_handle_error_check
        >> clusterlist_module_is_node_in_cluster env node
        >>= add_if_member which node

    unfoldable pub nodeupdown_add_up_node : Option Name → Exec (State H T) (Unit {0})
    nodeupdown_add_up_node = add_node up_nodes

    unfoldable pub nodeupdown_add_down_node : Option Name → Exec (State H T) (Unit {0})
    nodeupdown_add_down_node = add_node down_nodes

    insert_time : Option T → Name → ℕ → Option T
    insert_time none node last_up_time = none
    insert_time (some t) node last_up_time = env.hash.insert t node last_up_time

    exists_time : Option T → Name → Bool
    exists_time none node = false
    exists_time (some t) node = env.hash.exists_already t node

    insert_result : Name → Option T → Exec (State H T) (Unit {0})
    insert_result node (some t) s =
        (some tt, record s { handle = record s.handle { last_up_times = some t } })
    insert_result node none s =
        if exists_time s.handle.last_up_times node
        then fail_with Err.backend_module s
        else fail_with Err.out_mem s

    -- `malloc` and `strdup` both succeed, or one fails
    unfoldable pub nodeupdown_add_last_up_time : Option Name → ℕ → Exec (State H T) (Unit {0})
    unfolding insert_time exists_time insert_result
    nodeupdown_add_last_up_time none last_up_time =
        setup_handle_error_check >> λ s. fail_with Err.internal s
    nodeupdown_add_last_up_time (some node) last_up_time = setup_handle_error_check >> λ s.
        if env.malloc
        then insert_result node (insert_time s.handle.last_up_times node last_up_time) s
        else fail_with Err.out_mem s

    unfoldable pub nodeupdown_not_discovered_check : Option Name → Exec (State H T) (Unit {0})
    nodeupdown_not_discovered_check none = setup_handle_error_check >> λ s. fail_with Err.internal s
    nodeupdown_not_discovered_check (some node) = setup_handle_error_check >> λ s.
        if is_some (find_in env.hostlist s.handle.up_nodes node)
          || is_some (find_in env.hostlist s.handle.down_nodes node)
        then (some tt, s)
        else nodeupdown_add_down_node (some node) s

    unfoldable pub devel_api : DevelApi H T
    devel_api = record {
      add_up_node = λ node. nodeupdown_add_up_node (some node);
      add_down_node = λ node. nodeupdown_add_down_node (some node);
      add_last_up_time = λ node t. nodeupdown_add_last_up_time (some node) t;
      not_discovered_check = λ node. nodeupdown_not_discovered_check (some node);
    }
