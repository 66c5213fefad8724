-- ===== src/Program/Main.antt =====
-- `main`, `_init_whatsup` and `_cleanup_whatsup` of src/whatsup/whatsup.c.
use whatsup.Prelude.{
  ℕ, Option, none, some, Name, codes, ltb, if◌then◌else◌, Exec, ◌>>=◌, ◌>>◌, pure, ℤ, List,
}
use whatsup.Program.State.{
  monitor_type, WhatsupOption, LoadInfo, Statics, ProgramEnv, err_exit, in_library, in_world,
}
use whatsup.Program.Modules.{load_options_modules, unload_options_modules}
use whatsup.Program.Cmdline.{pushed, is_used, first_module, cmdline_parse}
use whatsup.Program.Output.{output_mode}
use whatsup.Program.Log.{log_mode}

module _ {H L W : Type 0} (env : ProgramEnv H L W) where
  -- `_init_whatsup`
  unfoldable pub init_whatsup : Exec (Statics H L W) (Unit {0})
  unfolding pushed
  init_whatsup = pushed env (codes "_init_whatsup: hostlist_create") env.hostlist.create

  -- `_cleanup_whatsup`; the list of the nodes is freed too
  unfoldable pub cleanup_whatsup : Statics H L W → Statics H L W
  unfolding in_library
  cleanup_whatsup s = (in_library env.updown.handle_destroy s).1

  unfoldable pub monitored : Option (Unit {0}) → Exec (Statics H L W) (Option (Unit {0}))
  monitored none s = err_exit (codes "monitor") s
  monitored (some _) s = (some (some tt), s)

  unfoldable pub call_monitor :
      Option (Option Name → ℤ → Exec W (Unit {0})) → Exec (Statics H L W) (Option (Unit {0}))
  unfolding monitored in_world
  call_monitor none s = (some none, s)
  call_monitor (some monitor) s =
      let r = in_world (monitor s.settings.hostname s.settings.port) s in monitored r.0 r.1

  unfoldable pub monitor_by : LoadInfo W → WhatsupOption → Exec (Statics H L W) (Option (Unit {0}))
  unfolding is_used call_monitor
  monitor_by m o =
      if is_used monitor_type m o then call_monitor m.module_info.monitor else pure none

  -- The search for a module that monitors. Where the list has no iterator, the reset of it ends the
  -- process.
  unfoldable pub monitor_mode : Exec (Statics H L W) (Option (Unit {0}))
  unfolding monitor_by first_module
  monitor_mode s =
      if ltb 0 s.monitor_option_exists
      then if s.modules_list_itr then first_module monitor_by s.modules_list s else (none, s)
      else (some none, s)

  -- From the end of the command line on. The log goes on until the process is stopped, so a run in
  -- that mode is its first rounds.
  unfoldable pub run_mode : ℕ → Exec (Statics H L W) ℕ
  unfolding log_mode output_mode
  run_mode rounds s =
      if ltb 0 s.settings.log_mode then (log_mode env rounds >> pure 0) s else output_mode env s

  unfoldable pub finish : ℕ → Exec (Statics H L W) ℕ
  unfolding unload_options_modules cleanup_whatsup
  finish exit_val s = (some exit_val, cleanup_whatsup (unload_options_modules s))

  -- `main`: the exit status, or `none` where the process ends with status 1 before
  unfoldable pub main : ℕ → List Name → Exec (Statics H L W) ℕ
  unfolding init_whatsup load_options_modules cmdline_parse monitor_mode run_mode finish
  main rounds argv = do
    init_whatsup
    load_options_modules env
    cmdline_parse env argv
    monitor_mode
    exit_val ← run_mode rounds
    finish exit_val
