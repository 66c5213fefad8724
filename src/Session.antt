-- ===== src/Session.antt =====
-- A program's use of one handle: any sequence of the calls of nodeupdown.h between
-- `nodeupdown_handle_create` and `nodeupdown_handle_destroy`.
pub mod Invariant
pub mod Unloaded
use whatsup.Prelude.{ℕ, ℤ, Bool, Option, List, [], ◌∷◌, Name}
use whatsup.Handle.State.{State}
use whatsup.Module.Info.{Env}
use whatsup.Devel.{UpOrDown}
use whatsup.Load.Data.{nodeupdown_load_data}
use whatsup.Query.Nodes.{
  get_nodes_string, get_nodes_list, is_node, node_count, nodeupdown_last_up_time,
}
use whatsup.Query.Nodelist.{
  nodeupdown_nodelist_create, nodeupdown_nodelist_clear, nodeupdown_nodelist_destroy,
}

-- the calls, with their arguments
pub data Call : Type 0 where
  load_data : Option Name → ℤ → ℤ → Option Name → Call
  nodes_string : Bool → ℤ → UpOrDown → Call
  nodes_list : List (Option Name) → ℤ → UpOrDown → Call
  node_is : UpOrDown → Option Name → Call
  count : UpOrDown → Call
  last_up_time : Option Name → Bool → Call
  nodelist_create : Bool → Bool → Call
  nodelist_clear : List (Option Name) → Call
  nodelist_destroy : Option (List (Option Name)) → Call

module _ {H T : Type 0} (env : Env H T) where
  -- the state after a call
  unfoldable pub call : Call → State H T → State H T
  call (load_data hostname port timeout_len name) s =
      (nodeupdown_load_data env hostname port timeout_len name s).1
  call (nodes_string buf buflen which) s = (get_nodes_string env buf buflen which s).1
  call (nodes_list array len which) s = (get_nodes_list env array len which s).2
  call (node_is which node) s = (is_node env which node s).1
  call (count which) s = (node_count env which s).1
  call (last_up_time node p) s = (nodeupdown_last_up_time env node p s).1
  call (nodelist_create malloc list) s = (nodeupdown_nodelist_create malloc list s).1
  call (nodelist_clear list) s = (nodeupdown_nodelist_clear list s).2
  call (nodelist_destroy list) s = (nodeupdown_nodelist_destroy list s).1

  unfoldable pub calls : List Call → State H T → State H T
  calls [] s = s
  calls (c ∷ cs) s = calls cs (call c s)
