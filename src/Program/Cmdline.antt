-- ===== src/Program/Cmdline.antt =====
-- The command line as a whole: `_push_inputted_nodes`, `_read_nodes_from_stdin` and the rest of
-- `_cmdline_parse` of src/whatsup/whatsup.c.
use whatsup.Prelude.{
  ℕ, Bool, true, false, not, ◌&&◌, ◌||◌, Option, none, some, List, [], ◌∷◌, ◌++◌, is_empty, Name,
  codes, strchr, str_eq, c_string, is_some, length, ◌==◌, if◌then◌else◌, Exec, ◌>>=◌, ◌>>◌, pure,
}
use whatsup.Program.State.{
  OptionType, get_nodenames_type, convert_nodenames_type, monitor_type, WhatsupOption, LoadInfo,
  Statics, ProgramEnv, err_exit, in_world,
}
use whatsup.Program.Modules.{option_list}
use whatsup.Program.Table.{builtin_table, watch_modules, entries}
use whatsup.Program.Dispatch.{handle_options}

-- WHATSUP_BUFFERLEN
abbrev pub bufferlen : ℕ
bufferlen = 65536

abbrev pub is_separator : ℕ → Bool
is_separator c = c == b' ' || (c == b'\t' || c == b'\n')

-- the tokens of `strtok` with " \t\n", after the part of a token that is read
unfoldable pub tokens : Name → Name → List Name
tokens [] token = if is_empty token then [] else token ∷ []
tokens (c ∷ cs) token =
    let rest = tokens cs (if is_separator c then [] else token ++ c ∷ []) in
    if is_separator c && not (is_empty token) then token ∷ rest else rest

-- whether two option types are the same one of the three
abbrev pub same_type : OptionType → OptionType → Bool
same_type get_nodenames_type get_nodenames_type = true
same_type convert_nodenames_type convert_nodenames_type = true
same_type monitor_type monitor_type = true
same_type _ _ = false

-- whether an option is of the type and was on the command line, for the module
unfoldable pub is_used : {W : Type 0} → OptionType → LoadInfo W → WhatsupOption → Bool
unfolding strchr
is_used option_type m o =
    same_type o.option_type option_type && is_some (strchr o.option m.options_processed)

-- The loops over the options of the modules, which a `break` leaves where the body has a result.
module _ {H L W B : Type 0} where
  unfoldable pub unless_done :
      Exec (Statics H L W) (Option B) → Option B → Exec (Statics H L W) (Option B)
  unless_done rest none = rest
  unless_done rest (some b) = pure (some b)

  unfoldable pub first_option :
      (WhatsupOption → Exec (Statics H L W) (Option B))
      → List WhatsupOption
      → Exec (Statics H L W) (Option B)
  unfolding unless_done
  first_option body [] = pure none
  first_option body (o ∷ os) = let rest = first_option body os in body o >>= unless_done rest

  unfoldable pub first_module :
      (LoadInfo W → WhatsupOption → Exec (Statics H L W) (Option B))
      → List (LoadInfo W)
      → Exec (Statics H L W) (Option B)
  unfolding first_option unless_done
  first_module body [] = pure none
  first_module body (m ∷ ms) =
      let rest = first_module body ms in
      first_option (body m) (option_list m.module_info.options) >>= unless_done rest

  -- such a loop over all the modules, where `modules_list_itr` is not NULL
  unfoldable pub over_modules :
      (LoadInfo W → WhatsupOption → Exec (Statics H L W) (Option B))
      → Exec (Statics H L W) (Option B)
  unfolding first_module
  over_modules body s =
      if s.modules_list_itr then first_module body s.modules_list s else (some none, s)

  unfoldable pub on_success :
      {A : Type 0}
      → (A → Exec (Statics H L W) (Option B))
      → Option A
      → Exec (Statics H L W) (Option B)
  on_success body none s = (some none, s)
  on_success body (some a) s = body a s

  -- a call through a pointer that may be NULL, and what is done with its result if it succeeds
  unfoldable pub attempt :
      {A : Type 0}
      → Option (Exec W A)
      → (A → Exec (Statics H L W) (Option B))
      → Exec (Statics H L W) (Option B)
  unfolding on_success in_world
  attempt none body s = (some none, s)
  attempt (some f) body s = let r = in_world f s in on_success body r.0 r.1

module _ {H L W : Type 0} where
  module _ (env : ProgramEnv H L W) where
    unfoldable pub pushed : Name → Option H → Exec (Statics H L W) (Unit {0})
    pushed message none s = err_exit message s
    pushed message (some h) s = (some tt, record s { inputted_nodes = h })

    -- `_push_inputted_nodes`
    unfoldable pub push_inputted_nodes : Name → Exec (Statics H L W) (Unit {0})
    unfolding pushed strchr
    push_inputted_nodes nodes s =
        if is_some (strchr b'.' nodes)
        then err_exit (codes "nodes must be listed in short hostname format") s
        else pushed (codes "nodes improperly formatted") (env.hostlist.push s.inputted_nodes nodes)
            s

    unfoldable pub push_all : List Name → Exec (Statics H L W) (Unit {0})
    unfolding push_inputted_nodes
    push_all [] = pure tt
    push_all (nodes ∷ rest) = push_inputted_nodes nodes >> push_all rest

    unfoldable pub push_input : Option Name → Exec (Statics H L W) (Unit {0})
    unfolding push_all tokens c_string
    push_input none s = err_exit (codes "error reading from standard input") s
    push_input (some buf) s =
        if length buf == bufferlen
        then err_exit (codes "overflow in standard input buffer") s
        else push_all (tokens (c_string buf) []) s

    -- `_read_nodes_from_stdin`
    unfoldable pub read_nodes_from_stdin : Exec (Statics H L W) (Unit {0})
    unfolding push_input
    read_nodes_from_stdin = push_input (env.read_stdin bufferlen)

    -- `hostlist_uniq(inputted_nodes)`
    unfoldable pub uniq_inputted : Exec (Statics H L W) (Unit {0})
    uniq_inputted s = (some tt, record s { inputted_nodes = env.strings.uniq s.inputted_nodes })

    unfoldable pub push_nodenames : Name → Exec (Statics H L W) (Option (Unit {0}))
    unfolding pushed
    push_nodenames buf s =
        (pushed (codes "_cmdline_parse: hostlist_push") (env.hostlist.push s.inputted_nodes buf)
            >> pure (some tt))
          s

    -- the names that a module has, for an option of that type
    unfoldable pub get_nodenames :
        LoadInfo W → WhatsupOption → Exec (Statics H L W) (Option (Unit {0}))
    unfolding is_used attempt push_nodenames
    get_nodenames m o =
        if is_used get_nodenames_type m o
        then attempt
            (elim m.module_info.get_nodenames [ none ↦ none | some f ↦ some (f bufferlen) ])
            push_nodenames
        else pure none

    -- the nodes, from what `getopt_long` leaves of `argv`
    unfoldable pub read_nodes : List Name → Exec (Statics H L W) (Unit {0})
    unfolding push_all read_nodes_from_stdin uniq_inputted get_nodenames over_modules str_eq
    read_nodes [] = over_modules get_nodenames >> pure tt
    read_nodes (node ∷ rest) =
        (if str_eq node (codes "-") then read_nodes_from_stdin else push_all (node ∷ rest))
        >> uniq_inputted

    -- `_cmdline_parse`
    unfoldable pub cmdline_parse : List Name → Exec (Statics H L W) (Unit {0})
    unfolding watch_modules builtin_table entries handle_options read_nodes
    cmdline_parse argv s =
        let tables =
          if s.modules_list_itr
          then watch_modules s.modules_list builtin_table
          else (s.modules_list, builtin_table) in
        let parsed = env.getopt_long tables.1.soptions (entries tables.1.loptions) argv in
        (handle_options env parsed.0 >> read_nodes parsed.1) (record s { modules_list = tables.0 })
