-- ===== src/Program/Quiet.antt =====
-- The calls of the library that keep what a program such as src/whatsup/whatsup.c has of its own.
use whatsup.Prelude.{
  ◌≡◌, refl, Option, none, some, Name, codes, ◌==◌, pos, Exec, Keeps, Keeps-bind, Keeps-result,
  Keeps-if,
}
use whatsup.Handle.Err
use whatsup.Devel.{UpOrDown, up_nodes, down_nodes}
use whatsup.Program.State.{Statics, ProgramEnv, err_exit, in_library}
use whatsup.Program.Nodes.{or_exit, exit_updown, or_exit_updown}
use whatsup.Program.Cmdline.{bufferlen}
use whatsup.Program.Output.{load_failed, loaded, load_handle}
use whatsup.Program.Log.{
  get_string, create_list, create_lists, up_string_failed, down_string_failed, take_snapshot,
}

module _ {H L W X : Type 0} where
  -- A part of the statics that neither the library nor a message changes.
  pub record OwnPart (part : Statics H L W → X) : Type 0 where
    pub library : (s : Statics H L W) (l : L) → part (record s { library = l }) ≡ part s
    pub stderr : (s : Statics H L W) (text : Name) → part (record s { stderr = text }) ≡ part s

  module _ (part : Statics H L W → X) (own : OwnPart part) where
    pub err_exit-Keeps : {A : Type 0} (message : Name) → Keeps {A = A} part (err_exit message)
    unfolding err_exit
    err_exit-Keeps message = record { at = λ s. own.stderr s _ }

    pub or_exit-Keeps :
        {A : Type 0} (message : Name) (o : Option A) → Keeps part (or_exit message o)
    unfolding or_exit
    or_exit-Keeps message none = err_exit-Keeps message
    or_exit-Keeps message (some a) = record { at = λ s. refl }

    in_library-Keeps : {A : Type 0} (m : Exec L A) → Keeps part (in_library {H = H} {W = W} m)
    unfolding in_library
    in_library-Keeps m = record { at = λ s. own.library s _ }

    module _ (env : ProgramEnv H L W) where
      exit_updown-Keeps :
          {A : Type 0} (function : Name) → Keeps {A = A} part (exit_updown env function)
      unfolding exit_updown err_exit
      exit_updown-Keeps function = record { at = λ s. own.stderr s _ }

      load_failed-Keeps : (function : Name) → Keeps part (load_failed env function)
      unfolding load_failed
      load_failed-Keeps function =
          let exit = λ (message : Name). err_exit-Keeps {A = Unit {0}} message in
          let errnum = λ (s : Statics H L W). env.updown.errnum s.library in
          Keeps-if part (λ s. errnum s == Err.conf_parse) _ _ (exit _)
            (Keeps-if part (λ s. errnum s == Err.connect) _ _ (exit _)
              (Keeps-if part (λ s. errnum s == Err.connect_timeout) _ _ (exit _)
                (Keeps-if part (λ s. errnum s == Err.hostname) _ _ (exit _) (exit_updown-Keeps _))))

      loaded-Keeps : (function : Name) (o : Option (Unit {0})) → Keeps part (loaded env function o)
      unfolding loaded
      loaded-Keeps function none = load_failed-Keeps function
      loaded-Keeps function (some a) = record { at = λ s. refl }

      pub load_handle-Keeps : (function : Name) → Keeps part (load_handle env function)
      unfolding load_handle
      load_handle-Keeps function =
          Keeps-bind part _ _
            (Keeps-result part (in_library env.updown.handle_create) (or_exit _)
              (in_library-Keeps _) (or_exit-Keeps _))
            (λ _. record {
              at = λ s.
                  (Keeps-result part
                      (in_library (
                        env.updown.load_data s.settings.hostname s.settings.port (pos 0)
                          s.settings.backend))
                      (loaded env function) (in_library-Keeps _) (loaded-Keeps function)).at
                    s;
            })

      or_exit_updown-Keeps :
          {A : Type 0} (function : Name) (o : Option A) → Keeps part (or_exit_updown env function o)
      unfolding or_exit_updown
      or_exit_updown-Keeps function none = exit_updown-Keeps function
      or_exit_updown-Keeps function (some a) = record { at = λ s. refl }

      get_string-Keeps :
          (which : UpOrDown) (function : Name) → Keeps part (get_string env which function)
      unfolding get_string
      get_string-Keeps which function =
          Keeps-result part (in_library (env.updown.nodes_string which (pos bufferlen)))
            (or_exit_updown env function) (in_library-Keeps _) (or_exit_updown-Keeps function)

      create_list-Keeps : (text : Name) → Keeps part (create_list env text)
      unfolding create_list
      create_list-Keeps text = or_exit-Keeps _ (env.strings.create_from text)

      create_lists-Keeps : (up down : Name) → Keeps part (create_lists env up down)
      unfolding create_lists
      create_lists-Keeps up down =
          Keeps-bind part (create_list env up) _ (create_list-Keeps up) (λ h.
            Keeps-bind part (create_list env down) _ (create_list-Keeps down)
              (λ k. record { at = λ s. refl }))

      pub take_snapshot-Keeps : Keeps part (take_snapshot env)
      unfolding take_snapshot
      take_snapshot-Keeps =
          Keeps-bind part (load_handle env (codes "_log_mode")) _
            (load_handle-Keeps (codes "_log_mode"))
            (λ _.
              Keeps-bind part (get_string env up_nodes up_string_failed) _
                (get_string-Keeps up_nodes up_string_failed)
                (λ up.
                  Keeps-bind part (get_string env down_nodes down_string_failed) _
                    (get_string-Keeps down_nodes down_string_failed)
                    (λ down. create_lists-Keeps up down)))
