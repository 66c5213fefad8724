-- ===== src/Program/Nodes.antt =====
-- The nodes to print: `_get_input_nodes`, `_get_all_nodes` and `_get_nodes` of
-- src/whatsup/whatsup.c. The functions return the string that they leave in their buffer.
use whatsup.Prelude.{
  ℕ, Bool, true, false, Option, none, some, List, [], ◌∷◌, ◌++◌, Name, codes, length, ltb, ◌==◌,
  if◌then◌else◌, pos, Exec, ◌>>=◌, ◌>>◌, pure,
}
use whatsup.Handle.Err
use whatsup.Devel.{UpOrDown, up_nodes, down_nodes}
use whatsup.Program.State.{
  convert_nodenames_type, WhatsupOption, LoadInfo, Statics, ProgramEnv, err_exit, in_library,
}
use whatsup.Program.Cmdline.{bufferlen, is_used, attempt, over_modules}

abbrev pub is_node_failed : UpOrDown → Name
is_node_failed up_nodes = codes "_get_input_nodes: nodeupdown_is_node_up(): "
is_node_failed down_nodes = codes "_get_input_nodes: nodeupdown_is_node_down(): "

abbrev pub get_string_failed : UpOrDown → Name
get_string_failed up_nodes = codes "_get_all_nodes: nodeupdown_get_up_nodes_string(): "
get_string_failed down_nodes = codes "_get_all_nodes: nodeupdown_get_down_nodes_string(): "

module _ {H L W : Type 0} where
  -- a result that is NULL or -1 on failure
  unfoldable pub or_exit : {A : Type 0} → Name → Option A → Exec (Statics H L W) A
  or_exit message none s = err_exit message s
  or_exit message (some a) s = (some a, s)

  unfoldable pub require : Name → Bool → Exec (Statics H L W) (Unit {0})
  require message true s = (some tt, s)
  require message false s = err_exit message s

  module _ (env : ProgramEnv H L W) where
    -- the exit with the message of the library
    unfoldable pub exit_updown : {A : Type 0} → Name → Exec (Statics H L W) A
    exit_updown function s = err_exit (function ++ env.updown.errormsg s.library) s

    unfoldable pub or_exit_updown : {A : Type 0} → Name → Option A → Exec (Statics H L W) A
    unfolding exit_updown
    or_exit_updown function none s = exit_updown function s
    or_exit_updown function (some a) s = (some a, s)

    unfoldable pub known_node : UpOrDown → Name → Option Bool → Exec (Statics H L W) Bool
    unfolding exit_updown
    known_node which node none s =
        if env.updown.errnum s.library == Err.not_found
        then err_exit (codes "Unknown node " ++ (b'"' ∷ node) ++ (b'"' ∷ [])) s
        else exit_updown (is_node_failed which) s
    known_node which node (some listed) s = (some listed, s)

    -- `nodeupdown_is_node_up` or `nodeupdown_is_node_down` of a node, and the exit if it fails
    unfoldable pub ask_node : UpOrDown → Name → Exec (Statics H L W) Bool
    unfolding known_node in_library
    ask_node which node s =
        let r = in_library (env.updown.is_node which node) s in known_node which node r.0 r.1

    unfoldable pub add_if : Bool → H → Name → Exec (Statics H L W) H
    unfolding or_exit
    add_if false hl node = pure hl
    add_if true hl node =
        or_exit (codes "_get_input_nodes: hostlist_push_host()") (env.strings.push_host hl node)

    -- the loop over the nodes that the user gave
    unfoldable pub select_nodes : UpOrDown → List Name → H → Exec (Statics H L W) H
    unfolding ask_node add_if
    select_nodes which [] hl = pure hl
    select_nodes which (node ∷ rest) hl = ask_node which node >>= λ listed.
        add_if listed hl node >>= λ hl'. select_nodes which rest hl'

    -- `_get_input_nodes`
    unfoldable pub get_input_nodes : ℕ → UpOrDown → Exec (Statics H L W) Name
    unfolding or_exit require select_nodes
    get_input_nodes buflen which s =
        (or_exit (codes "_get_input_nodes: hostlist_create()") env.hostlist.create >>= λ hl.
        require (codes "_get_input_nodes: hostlist_iterator_create()")
          (env.hostlist.iterator_create s.inputted_nodes)
        >> select_nodes which (env.hostlist.hosts s.inputted_nodes) hl
        >>= λ hl'.
            or_exit (codes "_get_input_nodes: hostlist_ranged_string()")
              (env.hostlist.ranged_string (env.hostlist.sort hl') buflen))
          s

    -- `_get_all_nodes`
    unfoldable pub get_all_nodes : ℕ → UpOrDown → Exec (Statics H L W) Name
    unfolding or_exit_updown in_library
    get_all_nodes buflen which s =
        let r = in_library (env.updown.nodes_string which (pos buflen)) s in
        or_exit_updown (get_string_failed which) r.0 r.1

    -- what `convert_nodenames` writes to `tbuf`
    unfoldable pub converted : ℕ → Name → Exec (Statics H L W) (Option Name)
    converted buflen tbuf s =
        if ltb (length tbuf) buflen
        then (some (some tbuf), s)
        else err_exit (codes "_get_nodes: overflow buffer") s

    unfoldable pub convert_nodenames :
        ℕ → Name → LoadInfo W → WhatsupOption → Exec (Statics H L W) (Option Name)
    unfolding is_used attempt converted
    convert_nodenames buflen buf m o =
        if is_used convert_nodenames_type m o
        then attempt
            (elim m.module_info.convert_nodenames [ none ↦ none | some f ↦ some (f buf bufferlen) ])
            (converted buflen)
        else pure none

    unfoldable pub or_unchanged : Name → Option Name → Name
    or_unchanged buf none = buf
    or_unchanged buf (some tbuf) = tbuf

    -- the string with the number of its hosts
    unfoldable pub with_count : Name → Exec (Statics H L W) (Name × ℕ)
    unfolding or_exit
    with_count buf =
        or_exit (codes "_get_nodes: hostlist_create()") (env.strings.create_from buf) >>= λ hl.
        pure (buf, env.hostlist.count hl)

    -- `_get_nodes`: the string, and the count
    unfoldable pub get_nodes : ℕ → UpOrDown → Exec (Statics H L W) (Name × ℕ)
    unfolding get_input_nodes get_all_nodes convert_nodenames over_modules or_unchanged with_count
    get_nodes buflen which s =
        ((if ltb 0 (env.hostlist.count s.inputted_nodes)
              then get_input_nodes buflen which
              else get_all_nodes buflen which)
            >>= λ buf. over_modules (convert_nodenames buflen buf) >>= λ tbuf.
                with_count (or_unchanged buf tbuf))
          s
