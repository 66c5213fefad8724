-- ===== src/Program/Dispatch.antt =====
-- The options of the command line one by one: the `switch` of `_cmdline_parse` of
-- src/whatsup/whatsup.c.
use whatsup.Prelude.{
  ℕ, suc, Bool, false, not, ◌||◌, Option, none, some, List, [], ◌∷◌, ◌++◌, Name, codes, strchr,
  is_some, length, ltb, ◌==◌, if◌then◌else◌, ℤ, pos, negsuc, is_nonpos, Exec, ◌>>◌, pure,
}
use whatsup.Conffile.Options.{to_int}
use whatsup.Program.State.{
  up_only, down_only, up_and_down, Settings, LoadInfo, Statics, ProgramEnv, err_exit, in_world,
}
use whatsup.Program.Modules.{option_string, called}
use whatsup.Program.Usage.{usage, print_version}

-- `x > n`
abbrev pub exceeds : ℤ → ℕ → Bool
exceeds (pos x) n = ltb n x
exceeds (negsuc x) n = false

-- the call of `process_option` of a module
unfoldable pub process_option_of :
    {W : Type 0}
    → Option (ℕ → Option Name → Exec W (Unit {0}))
    → ℕ
    → Option Name
    → Option (Exec W (Unit {0}))
process_option_of none c optarg = none
process_option_of (some f) c optarg = some (f c optarg)

unfoldable pub mark_processed : {W : Type 0} → ℕ → LoadInfo W → LoadInfo W
mark_processed c m = record m { options_processed = m.options_processed ++ c ∷ [] }

-- the first module that watches a letter
unfoldable pub watching : {W : Type 0} → ℕ → List (LoadInfo W) → Option (LoadInfo W)
unfolding strchr
watching c [] = none
watching c (m ∷ ms) =
    let rest = watching c ms in if is_some (strchr c m.options_towatch) then some m else rest

-- the list with the letter noted for that module
unfoldable pub mark_watching : {W : Type 0} → ℕ → List (LoadInfo W) → List (LoadInfo W)
unfolding strchr mark_processed
mark_watching c [] = []
mark_watching c (m ∷ ms) =
    let rest = mark_watching c ms in
    if is_some (strchr c m.options_towatch) then mark_processed c m ∷ ms else m ∷ rest

module _ {H L W : Type 0} where
  unfoldable pub set_setting : (Settings → Settings) → Exec (Statics H L W) (Unit {0})
  set_setting f s = (some tt, record s { settings = f s.settings })

  -- `fprintf(stderr, "command line option error\n"); _usage();`
  unfoldable pub option_error : Exec (Statics H L W) (Unit {0})
  unfolding usage
  option_error s = usage (record s { stderr = s.stderr ++ codes "command line option error\n" })

  unfoldable pub processed : ℕ → Option (Unit {0}) → Exec (Statics H L W) (Unit {0})
  unfolding mark_watching
  processed c none s = err_exit (codes "_cmdline_parse: process_option failure") s
  processed c (some _) s = (some tt, record s { modules_list = mark_watching c s.modules_list })

  unfoldable pub give_option :
      ℕ → Option Name → Option (LoadInfo W) → Exec (Statics H L W) (Unit {0})
  unfolding option_error processed process_option_of called in_world
  give_option c optarg none s = option_error s
  give_option c optarg (some m) s =
      let r = in_world (called (process_option_of m.module_info.process_option c optarg)) s in
      processed c r.0 r.1

  -- the case `default`
  unfoldable pub module_option : ℕ → Option Name → Exec (Statics H L W) (Unit {0})
  unfolding give_option watching
  module_option c optarg s =
      if s.modules_list_itr
      then give_option c optarg (watching c s.modules_list) s
      else option_error s

  module _ (env : ProgramEnv H L W) where
    -- the test of the port: what follows the number, and its range
    unfoldable pub port_refused : Name → ℤ → Bool
    port_refused optarg port =
        let ptr = (env.strtol optarg).1 in
        (ptr == 0 || not (ptr == length optarg)) || is_nonpos port || exceeds port 65535

    unfoldable pub set_port : Name → Exec (Statics H L W) (Unit {0})
    unfolding to_int port_refused
    set_port optarg s =
        let port = to_int (env.strtol optarg).0 in
        let s' = record s { settings = record s.settings { port = port } } in
        if port_refused optarg port
        then err_exit (codes "invalid port specified") s'
        else (some tt, s')

    unfoldable pub log_poll_refused : Name → ℤ → Bool
    log_poll_refused optarg log_poll =
        not ((env.strtol optarg).1 == length optarg) || is_nonpos log_poll

    unfoldable pub set_log_poll : Name → Exec (Statics H L W) (Unit {0})
    unfolding to_int log_poll_refused
    set_log_poll optarg s =
        let log_poll = to_int (env.strtol optarg).0 in
        let s' = record s { settings = record s.settings { log_poll = log_poll } } in
        if log_poll_refused optarg log_poll
        then err_exit (codes "invalid log_poll specified") s'
        else (some tt, s')

    -- the `switch`; `getopt_long` gives an argument with each of o, p, m, f and e
    unfoldable pub handle_option : ℕ → Option Name → Exec (Statics H L W) (Unit {0})
    unfolding set_setting set_port set_log_poll usage print_version option_error module_option
    handle_option c optarg =
        if c == b'h'
        then usage
        else if c == b'v'
        then print_version env
        else if c == b'o'
        then set_setting (λ r. record r { hostname = optarg })
        else if c == b'p'
        then set_port (option_string optarg)
        else if c == b'b'
        then set_setting (λ r. record r { updown_output = up_and_down })
        else if c == b'u'
        then set_setting (λ r. record r { updown_output = up_only })
        else if c == b'd'
        then set_setting (λ r. record r { updown_output = down_only })
        else if c == b't'
        then set_setting (λ r. record r { count_only_output = suc r.count_only_output })
        else if c == b'q'
        then set_setting (λ r. record r { output_type = 0 })
        else if c == b'c'
        then set_setting (λ r. record r { output_type = b',' })
        else if c == b'n'
        then set_setting (λ r. record r { output_type = b'\n' })
        else if c == b's'
        then set_setting (λ r. record r { output_type = b' ' })
        else if c == b'm'
        then set_setting (λ r. record r { backend = optarg })
        else if c == b'r'
        then set_setting (λ r. record r { last_up_time = suc r.last_up_time })
        else if c == b'l'
        then set_setting (λ r. record r { log_mode = suc r.log_mode })
        else if c == b'f'
        then set_setting (λ r. record r { log_file = optarg })
        else if c == b'e'
        then set_log_poll (option_string optarg)
        else if c == b'?'
        then option_error
        else module_option c optarg

    unfoldable pub handle_options : List (ℕ × Option Name) → Exec (Statics H L W) (Unit {0})
    unfolding handle_option
    handle_options [] = pure tt
    handle_options ((c, optarg) ∷ rest) = handle_option c optarg >> handle_options rest
