-- ===== src/Query/Nodes.antt =====
-- The nodes of a loaded handle: as a string, as a list, one by one, their counts and up times.
use whatsup.Prelude.{
  ℕ, suc, ◌+◌, Bool, true, false, not, ◌||◌, Option, none, some, List, [], ◌∷◌, Name, ltb, leb,
  length, get_elem?, set, if◌then◌else◌, ℤ, is_nonpos, is_some, Exec, ◌>>=◌, ◌>>◌,
}
use whatsup.Handle.Err
use whatsup.Handle.State.{State, put_errnum}
use whatsup.Handle.Checks.{fail_with, loaded_handle_error_check}
use whatsup.Module.Info.{Env}
use whatsup.Module.Default.{count_of}
use whatsup.Module.Clusterlist.{
  clusterlist_module_is_node_in_cluster, clusterlist_module_get_nodename,
}
use whatsup.Devel.{UpOrDown, maxnodenamelen, list_of, find_in}
use whatsup.Load.Connect.{to_unsigned}

-- how the loop over the hosts of a list ends: with a count, or with an error number
pub data Copied : Type 0 where
  all : ℕ → Copied
  stopped : ℕ → Copied

-- The loop of `_get_nodes_list`. The caller's array holds a buffer (`some`, with its string) or NULL
-- in each slot.
unfoldable pub copy_nodes : List Name → ℕ → ℕ → List (Option Name) → Copied × List (Option Name)
copy_nodes [] count len array = (all count, array)
copy_nodes (nodename ∷ rest) count len array =
    let copied = copy_nodes rest (suc count) len (set array count (some nodename)) in
    if leb len count
    then (stopped Err.overflow, array)
    else if not (is_some (elim (get_elem? array count) [ none ↦ none | some slot ↦ slot ]))
    then (stopped Err.null_ptr, array)
    else if ltb maxnodenamelen (length nodename)
    then (stopped Err.overflow, array)
    else copied

module _ {H T : Type 0} where
  -- `handle->errnum = NODEUPDOWN_ERR_SUCCESS; return r;`
  abbrev pub succeed : {A : Type 0} → A → Exec (State H T) A
  succeed r s = (some r, put_errnum Err.success s)

  module _ (env : Env H T) where
    unfoldable pub ranged_string : Option H → ℕ → Option Name
    ranged_string none n = none
    ranged_string (some h) n = env.hostlist.ranged_string h n

    unfoldable pub string_result : Option Name → Exec (State H T) Name
    string_result none s = fail_with Err.overflow s
    string_result (some text) s = succeed text s

    -- `_get_nodes_string`; `false` is a NULL buffer, and the result is the string in the buffer
    unfoldable pub get_nodes_string : Bool → ℤ → UpOrDown → Exec (State H T) Name
    unfolding ranged_string string_result
    get_nodes_string buf buflen which = loaded_handle_error_check >> λ s.
        if not buf || is_nonpos buflen
        then fail_with Err.parameters s
        else string_result (ranged_string (list_of which s.handle) (to_unsigned buflen)) s

    unfoldable pub hosts_of : Option H → List Name
    hosts_of none = []
    hosts_of (some h) = env.hostlist.hosts h

    unfoldable pub iterator_of : Option H → Bool
    iterator_of none = false
    iterator_of (some h) = env.hostlist.iterator_create h

    unfoldable pub list_result :
        Copied × List (Option Name) → State H T → Option ℕ × List (Option Name) × State H T
    list_result (all count, array) s = (some count, array, put_errnum Err.success s)
    list_result (stopped errnum, array) s = (none, array, put_errnum errnum s)

    -- the rest of `_get_nodes_list` after the check of the handle, with an array that is not NULL
    unfoldable pub list_checked :
        List (Option Name)
        → ℤ
        → UpOrDown
        → Option (Unit {0})
        → State H T
        → Option ℕ × List (Option Name) × State H T
    list_checked array len which none s = (none, array, s)
    list_checked array len which (some _) s =
        if is_nonpos len
        then (none, array, put_errnum Err.parameters s)
        else if iterator_of (list_of which s.handle)
        then list_result (copy_nodes (hosts_of (list_of which s.handle)) 0 (to_unsigned len) array)
            s
        else (none, array, put_errnum Err.out_mem s)

    -- `_get_nodes_list`: the count or the error, the caller's array afterwards, and the state
    unfoldable pub get_nodes_list :
        List (Option Name) → ℤ → UpOrDown → State H T → Option ℕ × List (Option Name) × State H T
    unfolding hosts_of iterator_of list_result list_checked copy_nodes
    get_nodes_list array len which s =
        let checked = loaded_handle_error_check s in
        list_checked array len which checked.0 checked.1

    -- the same with a NULL array
    unfoldable pub get_nodes_list_null : Exec (State H T) ℕ
    get_nodes_list_null = loaded_handle_error_check >> λ s. fail_with Err.parameters s

    unfoldable pub is_listed : UpOrDown → Name → Exec (State H T) Bool
    is_listed which node s =
        succeed (is_some (find_in env.hostlist (list_of which s.handle) node)) s

    unfoldable pub look_up_member : UpOrDown → Name → Bool → Exec (State H T) Bool
    look_up_member which node false s = fail_with Err.not_found s
    look_up_member which node true s =
        (clusterlist_module_get_nodename env node (maxnodenamelen + 1) >>= is_listed which) s

    -- `_is_node`; `none` is a NULL node
    unfoldable pub is_node : UpOrDown → Option Name → Exec (State H T) Bool
    unfolding is_listed look_up_member
    is_node which none = loaded_handle_error_check >> λ s. fail_with Err.parameters s
    is_node which (some node) = loaded_handle_error_check >> λ s.
        if ltb 0 s.modules.clusterlist_module_found
        then (clusterlist_module_is_node_in_cluster env node >>= look_up_member which node) s
        else if is_some (find_in env.hostlist s.handle.up_nodes node)
            || is_some (find_in env.hostlist s.handle.down_nodes node)
        then is_listed which node s
        else fail_with Err.not_found s

    -- `_node_count`
    unfoldable pub node_count : UpOrDown → Exec (State H T) ℕ
    node_count which =
        loaded_handle_error_check >> λ s. succeed (count_of env.hostlist (list_of which s.handle)) s

    unfoldable pub time_found : Option ℕ → Exec (State H T) ℕ
    time_found none s = fail_with Err.not_found s
    time_found (some t) s = succeed t s

    unfoldable pub find_time : Option T → Name → Exec (State H T) ℕ
    find_time none node s = fail_with Err.not_supported s
    find_time (some table) node s =
        if env.hash.is_empty table
        then fail_with Err.not_supported s
        else time_found (env.hash.find table node) s

    -- `false` is a NULL pointer for the result
    unfoldable pub nodeupdown_last_up_time : Option Name → Bool → Exec (State H T) ℕ
    unfolding time_found find_time
    nodeupdown_last_up_time none last_up_time =
        loaded_handle_error_check >> λ s. fail_with Err.parameters s
    nodeupdown_last_up_time (some node) last_up_time = loaded_handle_error_check >> λ s.
        if last_up_time then find_time s.handle.last_up_times node s else fail_with Err.parameters s
