-- ===== src/Load/Steps.antt =====
-- The steps of a load that leave the frame alone: the configuration file, the choice of the port and
-- of the timeout, and the calls of the backend.
use whatsup.Prelude.{
  ℕ, Bool, true, false, inl, inr, Option, none, some, List, [], ◌∷◌, ◌||◌, is_nonpos, is_neg,
  Bool-cases, ℤ, Name, Exec, ◌==◌, if◌then◌else◌,
}
use whatsup.Handle.Err
use whatsup.Handle.State.{State}
use whatsup.Handle.Checks.{fail_with}
use whatsup.Module.Info.{Env, NodeupdownConfig}
use whatsup.Module.Counts.{Frame, Frame-refl, Frame-trans, Frame-if, Framed, Framed-if, Framed-bind}
use whatsup.Module.Laws.{EnvLaws}
use whatsup.Module.Backend.{backend_module_default_port, backend_module_default_timeout_len}
use whatsup.Module.DefaultFrame.{Frame-put_errnum}
use whatsup.Module.Calls.{
  Frame-default_port, Frame-default_timeout_len, backend_module_get_updown_data-Framed,
  backend_module_default_hostname-Framed,
}
use whatsup.Devel.{devel_api}
use whatsup.Devel.Frame.{fail_with-Framed, devel_api-DevelFramed}
use whatsup.Load.Config.{read_conffile, read_result, conffile_err_exist}
use whatsup.Load.Resolve.{default_port, resolve_port, default_timeout_len, resolve_timeout_len}
use whatsup.Load.Connect.{
  configured_hostnames, get_data, after_attempt, try_hostnames, found_or_connect, get_updown_data,
}

module _ {H T A : Type 0} where
  returns : (a : A) → Framed {H = H} {T = T} (λ s. (some a, s))
  returns a = record { at = Frame-refl }

module _ {H T : Type 0} (env : Env H T) where
  read_result-Framed : (o : Option ℕ) (conf : NodeupdownConfig) → Framed (read_result env o conf)
  unfolding read_result
  read_result-Framed none conf = returns conf
  read_result-Framed (some errnum) conf =
      Framed-if (λ _. errnum == conffile_err_exist) _ _ (returns conf) (fail_with-Framed _)

  pub read_conffile-Framed : (conf : NodeupdownConfig) → Framed (read_conffile env conf)
  unfolding read_conffile
  read_conffile-Framed conf =
      Framed-if (λ _. env.conffile_handle_create)
        (read_result env (env.conffile_parse conf).0 (env.conffile_parse conf).1)
        (fail_with Err.internal)
        (read_result-Framed (env.conffile_parse conf).0 (env.conffile_parse conf).1)
        (fail_with-Framed _)

module _ {H T : Type 0} (env : Env H T) (laws : EnvLaws env) where
  default_port-Framed : Framed (default_port env)
  unfolding default_port
  default_port-Framed = record {
    at = λ s.
        let (tested, s') = backend_module_default_port env s in
        Frame-if (is_nonpos tested) s (none, _) (some _, _)
          (Frame-trans (Frame-default_port env laws s) (Frame-put_errnum Err.backend_module s'))
          (Frame-trans (Frame-default_port env laws s) (Frame-default_port env laws s'));
  }

  default_timeout_len-Framed : Framed (default_timeout_len env)
  unfolding default_timeout_len
  default_timeout_len-Framed = record {
    at = λ s.
        let (tested, s') = backend_module_default_timeout_len env s in
        Frame-if (is_neg tested) s (none, _) (some _, _)
          (Frame-trans (Frame-default_timeout_len env laws s)
            (Frame-put_errnum Err.backend_module s'))
          (Frame-trans (Frame-default_timeout_len env laws s)
            (Frame-default_timeout_len env laws s'));
  }

  -- A number that is configured: an error where it is not positive.
  configured :
      (x : ℤ) (e : ℕ)
      → Framed {H = H} {T = T} (λ s. if is_nonpos x then fail_with e s else (some x, s))
  configured x e = Framed-if (λ _. is_nonpos x) _ _ (fail_with-Framed e) (returns x)

  pub resolve_port-Framed : (port : ℤ) (c m : NodeupdownConfig) → Framed (resolve_port env port c m)
  unfolding resolve_port
  resolve_port-Framed port c m = record {
    at = λ s.
        Frame-if (is_nonpos port) s _ _
          (Frame-if c.port_flag s _ _ ((configured c.port Err.conf_input).at s) (
            Frame-if m.port_flag s _ _ ((configured m.port Err.config_module).at s)
              (default_port-Framed.at s)))
          (Frame-refl s);
  }

  pub resolve_timeout_len-Framed :
      (timeout_len : ℤ) (c m : NodeupdownConfig) → Framed (resolve_timeout_len env timeout_len c m)
  unfolding resolve_timeout_len
  resolve_timeout_len-Framed timeout_len c m = record {
    at = λ s.
        Frame-if (is_nonpos timeout_len) s _ _
          (Frame-if c.timeout_len_flag s _ _ ((configured c.timeout_len Err.conf_input).at s) (
            Frame-if m.timeout_len_flag s _ _ ((configured m.timeout_len Err.config_module).at s)
              (default_timeout_len-Framed.at s)))
          (Frame-refl s);
  }

module _ {H T : Type 0} (env : Env H T) (laws : EnvLaws env) (port timeout_len : ℕ)
    (reserved : Option Name) where
  get_data-Framed : (hostname : Name) → Framed (get_data env port timeout_len reserved hostname)
  unfolding get_data
  get_data-Framed hostname =
      backend_module_get_updown_data-Framed env laws (devel_api env)
        (devel_api-DevelFramed env laws) hostname port timeout_len reserved

  Frame-after_attempt :
      (rest : Exec (State H T) Bool) (o : Option (Unit {0})) (s t : State H T)
      → Frame s t
      → Framed rest
      → Frame s (after_attempt env port timeout_len reserved rest o t).1
  unfolding after_attempt
  Frame-after_attempt rest none s t f k = Frame-trans f (k.at t)
  Frame-after_attempt rest (some _) s t f k = f

  try_hostnames-Framed :
      (hostnames : List Name) → Framed (try_hostnames env port timeout_len reserved hostnames)
  unfolding try_hostnames
  try_hostnames-Framed [] = returns false
  try_hostnames-Framed ([] ∷ hostnames) = try_hostnames-Framed hostnames
  try_hostnames-Framed ((c ∷ cs) ∷ hostnames) =
      let ih = try_hostnames-Framed hostnames in
      record { at = λ s. Frame-after_attempt _ _ s _ ((get_data-Framed (c ∷ cs)).at s) ih }

  found_or_connect-Framed :
      (found : Bool) → Framed (found_or_connect env port timeout_len reserved found)
  unfolding found_or_connect
  found_or_connect-Framed true = returns tt
  found_or_connect-Framed false = fail_with-Framed _

  pub get_updown_data-Framed :
      (hostname : Option Name) (c m : NodeupdownConfig)
      → Framed (get_updown_data env port timeout_len reserved hostname c m)
  unfolding get_updown_data
  get_updown_data-Framed (some hostname) c m = get_data-Framed hostname
  get_updown_data-Framed none c m = elim (Bool-cases (c.hostnames_flag || m.hostnames_flag)) [
    | inl e ↦
        rw e (
          Framed-bind _ _ (try_hostnames-Framed (configured_hostnames c m)) found_or_connect-Framed)
    | inr e ↦
        rw e (Framed-bind _ _ (backend_module_default_hostname-Framed env laws) get_data-Framed)
  ]
