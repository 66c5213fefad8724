-- ===== src/Program/Output.antt =====
-- What the program prints: `_output_last_up_time_nodes` to `_output_mode` of src/whatsup/whatsup.c.
use whatsup.Prelude.{
  ℕ, zero, suc, ◌-◌, ◌/◌, not, Option, none, some, List, [], ◌∷◌, ◌++◌, map, Name, codes, length,
  print_ulong, ltb, ◌==◌, if◌then◌else◌, pos, Exec, ◌>>=◌, ◌>>◌, pure,
}
use whatsup.Handle.Err
use whatsup.Devel.{UpOrDown, up_nodes, down_nodes}
use whatsup.Program.State.{
  UpDownOutput, up_only, down_only, up_and_down, Statics, ProgramEnv, err_exit, print, in_library,
}
use whatsup.Program.Cmdline.{bufferlen}
use whatsup.Program.Nodes.{or_exit, require, exit_updown, get_nodes}

abbrev pub state_word : UpOrDown → Name
state_word up_nodes = codes " UP\n"
state_word down_nodes = codes " DOWN\n"

-- `_log10`: the loop that divides by ten, for a number of at most that many digits
unfoldable pub log10 : ℕ → ℕ → ℕ
log10 zero num = 0
log10 (suc digits) num =
    let rest = log10 digits (num / 10) in if ltb 0 (num / 10) then suc rest else 0

-- A format with one `%Nd`, or `%d` for width 0, between two texts; and what `fprintf` makes of it.
pub record Format : Type 0 where
  pub label : Name
  pub width : ℕ
  pub endstr : Name

unfoldable pub spaces : ℕ → Name
spaces zero = []
spaces (suc n) = b' ' ∷ spaces n

unfoldable pub print_format : Format → ℕ → Name
unfolding print_ulong spaces
print_format fmt n =
    let digits = print_ulong n in
    fmt.label ++ (spaces (fmt.width - length digits) ++ digits) ++ fmt.endstr

-- `_create_formats`: `upfmt` and `downfmt`; an `int` has at most ten digits
unfoldable pub create_formats : Name → ℕ → ℕ → Format × Format
unfolding log10
create_formats endstr up_count down_count =
    let max = if ltb down_count up_count then log10 20 up_count else log10 20 down_count in
    (
      record { label = codes "up:   "; width = suc max; endstr = endstr },
      record { label = codes "down: "; width = suc max; endstr = endstr },
    )

-- the exit status
unfoldable pub exit_value : UpDownOutput → ℕ → ℕ → ℕ
exit_value up_and_down up_count down_count = 0
exit_value up_only up_count down_count = if down_count == 0 then 0 else 1
exit_value down_only up_count down_count = if up_count == 0 then 0 else 1

module _ {H L W : Type 0} (env : ProgramEnv H L W) where
  unfoldable pub time_line : UpOrDown → Name → Option ℕ → Exec (Statics H L W) (Unit {0})
  unfolding exit_updown print
  time_line which node (some last_up_time) s =
      print (env.format_time last_up_time ++ (b' ' ∷ node) ++ state_word which) s
  time_line which node none s =
      let errnum = env.updown.errnum s.library in
      if errnum == Err.not_supported
      then err_exit (codes "last_up_time not supported") s
      else if not (errnum == Err.not_found)
      then exit_updown env (codes "_output_last_up_time_nodes: nodeupdown_last_up_time: ") s
      else print (codes "Unknown " ++ node ++ state_word which) s

  unfoldable pub time_lines : UpOrDown → List Name → Exec (Statics H L W) (Unit {0})
  unfolding time_line in_library
  time_lines which [] = pure tt
  time_lines which (node ∷ rest) =
      (λ s. let r = in_library (env.updown.last_up_time node) s in time_line which node r.0 r.1)
      >> time_lines which rest

  -- `_output_last_up_time_nodes`
  unfoldable pub output_last_up_time_nodes : Name → UpOrDown → Exec (Statics H L W) (Unit {0})
  unfolding time_lines or_exit require
  output_last_up_time_nodes nodebuf which =
      or_exit (codes "_output_last_up_time_nodes: hostlist_create() error")
        (env.strings.create_from nodebuf)
      >>= λ hl.
          require (codes "_output_last_up_time_nodes: hostlist_iterator_create error")
            (env.hostlist.iterator_create hl)
          >> time_lines which (env.hostlist.hosts hl)

  -- the commas of a string, replaced
  unfoldable pub break_lines : ℕ → Name → Name
  break_lines output_type = map (λ c. if c == b',' then output_type else c)

  unfoldable pub output_separated : UpDownOutput → ℕ → Name → Exec (Statics H L W) (Unit {0})
  unfolding or_exit print break_lines
  output_separated updown_output output_type nodebuf = do
    hl ← or_exit (codes "_output_nodes: hostlist_create() error") (env.strings.create_from nodebuf)
    tbuf ←
        or_exit (codes "_output_nodes: hostlist_deranged_string() error")
          (env.strings.deranged_string hl bufferlen)
    print (elim updown_output [
      | up_and_down ↦ if output_type == b'\n' then b'\n' ∷ [] else []
      | _ ↦ []
    ])
    print (break_lines output_type tbuf ++ b'\n' ∷ [])

  -- `_output_nodes`
  unfoldable pub output_nodes : Name → Exec (Statics H L W) (Unit {0})
  unfolding output_separated
  output_nodes nodebuf s =
      if s.settings.output_type == 0
      then print (nodebuf ++ b'\n' ∷ []) s
      else output_separated s.settings.updown_output s.settings.output_type nodebuf s

  -- the counts alone
  unfoldable pub output_counts : UpDownOutput → ℕ → ℕ → Exec (Statics H L W) (Unit {0})
  unfolding print print_format create_formats
  output_counts up_and_down up_count down_count =
      let formats = create_formats (b'\n' ∷ []) up_count down_count in
      print (print_format formats.0 up_count) >> print (print_format formats.1 down_count)
  output_counts up_only up_count down_count = print (print_ulong up_count ++ b'\n' ∷ [])
  output_counts down_only up_count down_count = print (print_ulong down_count ++ b'\n' ∷ [])

  -- the formats before the nodes; those of the newline output have no width
  unfoldable pub list_formats : ℕ → ℕ → ℕ → Format × Format
  unfolding create_formats
  list_formats output_type up_count down_count =
      if output_type == b'\n'
      then (
        record { label = codes "up "; width = 0; endstr = b':' ∷ [] },
        record { label = codes "down "; width = 0; endstr = b':' ∷ [] },
      )
      else create_formats (codes ": ") up_count down_count

  -- the nodes, up, down or both, each with its count
  unfoldable pub output_lists :
      ℕ → UpDownOutput → Name × ℕ → Name × ℕ → Exec (Statics H L W) (Unit {0})
  unfolding output_nodes list_formats print print_format
  output_lists output_type up_and_down up down =
      let formats = list_formats output_type up.1 down.1 in
      print (print_format formats.0 up.1)
      >> output_nodes up.0
      >> print (if output_type == b'\n' then b'\n' ∷ [] else [])
      >> print (print_format formats.1 down.1)
      >> output_nodes down.0
  output_lists output_type up_only up down = output_nodes up.0
  output_lists output_type down_only up down = output_nodes down.0

  unfoldable pub output : Name × ℕ → Name × ℕ → Exec (Statics H L W) (Unit {0})
  unfolding output_last_up_time_nodes output_counts output_lists
  output up down s =
      let settings = s.settings in
      if ltb 0 settings.last_up_time
      then (output_last_up_time_nodes up.0 up_nodes >> output_last_up_time_nodes down.0 down_nodes)
          s
      else if ltb 0 settings.count_only_output
      then output_counts settings.updown_output up.1 down.1 s
      else output_lists settings.output_type settings.updown_output up down s

  -- the exit where `nodeupdown_load_data` fails
  unfoldable pub load_failed : Name → Exec (Statics H L W) (Unit {0})
  unfolding exit_updown
  load_failed function s =
      let errnum = env.updown.errnum s.library in
      if errnum == Err.conf_parse
      then err_exit (codes "Parse error in conf file") s
      else if errnum == Err.connect
      then err_exit (codes "Cannot connect to server") s
      else if errnum == Err.connect_timeout
      then err_exit (codes "Timeout connecting to server") s
      else if errnum == Err.hostname
      then err_exit (codes "Invalid hostname") s
      else exit_updown env (function ++ codes ": nodeupdown_load_data(): ") s

  unfoldable pub loaded : Name → Option (Unit {0}) → Exec (Statics H L W) (Unit {0})
  unfolding load_failed
  loaded function none s = load_failed function s
  loaded function (some _) s = (some tt, s)

  -- `nodeupdown_handle_create` and `nodeupdown_load_data`, with their exits
  unfoldable pub load_handle : Name → Exec (Statics H L W) (Unit {0})
  unfolding loaded in_library or_exit
  load_handle function =
      (λ s.
        let created = in_library env.updown.handle_create s in
        or_exit (function ++ codes ": nodeupdown_handle_create()") created.0 created.1)
      >> λ s.
          let settings = s.settings in
          let r =
            in_library
              (env.updown.load_data settings.hostname settings.port (pos 0) settings.backend) s in
          loaded function r.0 r.1

  -- `_output_mode`
  unfoldable pub output_mode : Exec (Statics H L W) ℕ
  unfolding load_handle get_nodes output exit_value
  output_mode = do
    load_handle (codes "_output_mode")
    up ← get_nodes env bufferlen up_nodes
    down ← get_nodes env bufferlen down_nodes
    output up down
    λ s. (some (exit_value s.settings.updown_output up.1 down.1), s)
