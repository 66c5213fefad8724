-- ===== src/Program/Log.antt =====
-- The log of changes: `_log_mode` of src/whatsup/whatsup.c.
use whatsup.Prelude.{
  ℕ, zero, suc, Option, none, some, List, [], ◌∷◌, ◌++◌, Name, codes, is_some, if◌then◌else◌, pos,
  Exec, ◌>>=◌, ◌>>◌, pure,
}
use whatsup.Devel.{UpOrDown, up_nodes, down_nodes}
use whatsup.Program.State.{LogEntry, Statics, ProgramEnv, err_exit, print, in_library, in_world}
use whatsup.Program.Cmdline.{bufferlen}
use whatsup.Program.Nodes.{or_exit, require, or_exit_updown}
use whatsup.Program.Output.{state_word, load_handle}

unfoldable pub entry_text : LogEntry → Name
entry_text e = e.time ++ (b' ' ∷ e.node) ++ state_word e.which

abbrev pub up_string_failed : Name
up_string_failed = codes "_log_mode: nodeupdown_get_up_nodes_string(): "

abbrev pub down_string_failed : Name
down_string_failed = codes "_log_mode: nodeupdown_get_down_nodes_string(): "

-- `upnodes` and `downnodes`
pub record Snapshot (H : Type 0) : Type 0 where
  pub up : H
  pub down : H

module _ {H L W : Type 0} (env : ProgramEnv H L W) where
  unfoldable pub written : Option (Unit {0}) → Exec (Statics H L W) (Unit {0})
  written none s = err_exit (codes "fd_write_n") s
  written (some _) s = (some tt, s)

  -- to the log file, or to the standard output
  unfoldable pub write_text : Option Name → Name → Exec (Statics H L W) (Unit {0})
  unfolding written in_world print
  write_text none text s = print text s
  write_text (some file) text s = let r = in_world (env.write_log text) s in written r.0 r.1

  unfoldable pub write_entry : UpOrDown → Name → Exec (Statics H L W) (Unit {0})
  unfolding write_text entry_text
  write_entry which node s =
      let now = env.format_now s.world in
      let e : LogEntry = record { time = now.0; node = node; which = which } in
      write_text s.settings.log_file (entry_text e)
        (record s { world = now.1; log = s.log ++ e ∷ [] })

  -- the loop over the nodes that are up, or down, now
  unfoldable pub write_changes : UpOrDown → H → List Name → Exec (Statics H L W) (Unit {0})
  unfolding write_entry
  write_changes which before [] = pure tt
  write_changes which before (node ∷ rest) =
      (if is_some (env.hostlist.find before node) then pure tt else write_entry which node)
      >> write_changes which before rest

  unfoldable pub get_string : UpOrDown → Name → Exec (Statics H L W) Name
  unfolding in_library or_exit_updown
  get_string which function s =
      let r = in_library (env.updown.nodes_string which (pos bufferlen)) s in
      or_exit_updown env function r.0 r.1

  unfoldable pub create_list : Name → Exec (Statics H L W) H
  unfolding or_exit
  create_list text = or_exit (codes "_log_mode: hostlist_create()") (env.strings.create_from text)

  unfoldable pub create_lists : Name → Name → Exec (Statics H L W) (Snapshot H)
  unfolding create_list
  create_lists upnodesbuf downnodesbuf = do
    up ← create_list upnodesbuf
    down ← create_list downnodesbuf
    pure (record { up = up; down = down })

  -- one load: the nodes that are up and down now
  unfoldable pub take_snapshot : Exec (Statics H L W) (Snapshot H)
  unfolding load_handle get_string create_lists
  take_snapshot = do
    load_handle env (codes "_log_mode")
    upnodesbuf ← get_string up_nodes up_string_failed
    downnodesbuf ← get_string down_nodes down_string_failed
    create_lists upnodesbuf downnodesbuf

  -- what is written of a load: nothing of the first
  unfoldable pub write_log : Option (Snapshot H) → Snapshot H → Exec (Statics H L W) (Unit {0})
  unfolding write_changes require
  write_log none now = pure tt
  write_log (some before) now =
      require (codes "_log_mode: hostlist_iterator_create()") (env.hostlist.iterator_create now.up)
      >> require (codes "_log_mode: hostlist_iterator_create()")
          (env.hostlist.iterator_create now.down)
      >> write_changes up_nodes before.up (env.hostlist.hosts now.up)
      >> write_changes down_nodes before.down (env.hostlist.hosts now.down)

  -- `nodeupdown_handle_destroy`, whose result is not looked at, and `sleep`
  unfoldable pub rest_until_next : Exec (Statics H L W) (Unit {0})
  unfolding in_library
  rest_until_next s =
      let s' = (in_library env.updown.handle_destroy s).1 in
      (some tt, record s' { world = env.sleep s'.settings.log_poll s'.world })

  -- the first rounds of the loop, which has no end, from the lists of the load before
  unfoldable pub log_rounds : ℕ → Option (Snapshot H) → Exec (Statics H L W) (Option (Snapshot H))
  unfolding take_snapshot write_log rest_until_next
  log_rounds zero before = pure before
  log_rounds (suc rounds) before = take_snapshot >>= λ now.
      write_log before now >> rest_until_next >> log_rounds rounds (some now)

  unfoldable pub open_log : Option Name → Exec (Statics H L W) (Unit {0})
  unfolding require
  open_log none = pure tt
  open_log (some file) = require (codes "error opening log_file") (env.open_log file)

  -- `_log_mode`, for so many rounds
  unfoldable pub log_mode : ℕ → Exec (Statics H L W) (Option (Snapshot H))
  unfolding open_log log_rounds
  log_mode rounds s = (open_log s.settings.log_file >> log_rounds rounds none) s
