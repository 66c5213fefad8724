-- ===== src/Program/Settled.antt =====
-- The numbers of the settings after the command line: `_cmdline_parse` of src/whatsup/whatsup.c.
use whatsup.Prelude.{
  or-false, ℕ, zero, suc, ◌≤◌, ◌≡◌, refl, sym, subst, false, inl, inr, Option, none, some, List, [],
  ◌∷◌, Name, ◌==◌, if-intro, ℤ, pos, negsuc, is_nonpos, Exec, Post, Post-then, arith, Bool-cases,
}
use whatsup.Conffile.Options.{to_int}
use whatsup.Program.State.{Settings, LoadInfo, Statics, ProgramEnv, err_exit, in_world}
use whatsup.Program.Usage.{usage, print_version}
use whatsup.Program.Dispatch.{
  watching, exceeds, set_setting, option_error, processed, give_option, module_option, set_port,
  set_log_poll, port_refused, log_poll_refused, handle_option, handle_options,
}

-- A port that `_cmdline_parse` accepts, or none: 0 where no port is given.
pub data IsPort : ℤ → Type 0 where
  is_port : (n : ℕ) → n ≤ 65535 → IsPort (pos n)

pub data IsPositive : ℤ → Type 0 where
  is_positive : (n : ℕ) → IsPositive (pos (suc n))

pub record InRange (r : Settings) : Type 0 where
  pub port : IsPort r.port
  pub log_poll : IsPositive r.log_poll

IsPort-accepted : (x : ℤ) → is_nonpos x ≡ false → exceeds x 65535 ≡ false → IsPort x
IsPort-accepted (pos zero) h k = cc
IsPort-accepted (pos (suc n)) h k = is_port (suc n) (ground (arith, k))
IsPort-accepted (negsuc n) h k = cc

IsPositive-accepted : (x : ℤ) → is_nonpos x ≡ false → IsPositive x
IsPositive-accepted (pos zero) h = cc
IsPositive-accepted (pos (suc n)) h = is_positive n
IsPositive-accepted (negsuc n) h = cc

module _ {H L W : Type 0} where
  -- what an action leaves where it returns
  abbrev Ranged : Option (Unit {0}) × Statics H L W → Type 0
  Ranged r = Post (λ _ t. InRange t.settings) (λ _. Unit {0}) r

  set_setting-Ranged :
      (f : Settings → Settings) (s : Statics H L W)
      → InRange (f s.settings)
      → Ranged (set_setting f s)
  unfolding set_setting
  set_setting-Ranged f s h = h

  option_error-Ranged : (s : Statics H L W) → Ranged (option_error s)
  unfolding option_error usage
  option_error-Ranged s = tt

  processed-Ranged :
      (c : ℕ) (o : Option (Unit {0})) (s : Statics H L W)
      → InRange s.settings
      → Ranged (processed c o s)
  unfolding processed err_exit
  processed-Ranged c none s h = tt
  processed-Ranged c (some _) s h = h

  give_option-Ranged :
      (c : ℕ) (optarg : Option Name) (o : Option (LoadInfo W)) (s : Statics H L W)
      → InRange s.settings
      → Ranged (give_option c optarg o s)
  unfolding give_option in_world
  give_option-Ranged c optarg none s h = option_error-Ranged s
  give_option-Ranged c optarg (some m) s h = processed-Ranged c _ _ h

  module_option-Ranged :
      (c : ℕ) (optarg : Option Name) (s : Statics H L W)
      → InRange s.settings
      → Ranged (module_option c optarg s)
  unfolding module_option
  module_option-Ranged c optarg s h =
      if-intro Ranged s.modules_list_itr _ _
        (give_option-Ranged c optarg (watching c s.modules_list) s h) (option_error-Ranged s)

  record Settles (m : Exec (Statics H L W) (Unit {0})) : Type 0 where
    at : (s : Statics H L W) → InRange s.settings → Ranged (m s)

  module _ (env : ProgramEnv H L W) where
    port_refused-IsPort : (optarg : Name) (x : ℤ) → port_refused env optarg x ≡ false → IsPort x
    unfolding port_refused
    port_refused-IsPort optarg x e =
        let parts = or-false _ (exceeds x 65535) e in
        IsPort-accepted x (or-false _ (is_nonpos x) parts.0).1 parts.1

    set_port-Ranged :
        (optarg : Name) (s : Statics H L W) → InRange s.settings → Ranged (set_port env optarg s)
    unfolding set_port err_exit
    set_port-Ranged optarg s h =
        let port = to_int (env.strtol optarg).0 in
        elim (Bool-cases (port_refused env optarg port)) [
          | inl e ↦ rw e tt
          | inr e ↦
              rw e (record { port = port_refused-IsPort optarg port e; log_poll = h.log_poll })
        ]

    set_log_poll-Ranged :
        (optarg : Name) (s : Statics H L W)
        → InRange s.settings
        → Ranged (set_log_poll env optarg s)
    unfolding set_log_poll err_exit log_poll_refused
    set_log_poll-Ranged optarg s h =
        let poll = to_int (env.strtol optarg).0 in
        elim (Bool-cases (log_poll_refused env optarg poll)) [
          | inl e ↦ rw e tt
          | inr e ↦ rw e (record {
            port = h.port;
            log_poll = IsPositive-accepted poll (or-false _ (is_nonpos poll) e).1;
          })
        ]

    plain_setting :
        (f : Settings → Settings)
        → ((r : Settings) → InRange r → InRange (f r))
        → Settles (set_setting f)
    plain_setting f h = record { at = λ s k. set_setting-Ranged f s (h s.settings k) }

    -- a setting that is neither of the two numbers
    kept :
        (f : Settings → Settings)
        → ((r : Settings) → (f r).port ≡ r.port)
        → ((r : Settings) → (f r).log_poll ≡ r.log_poll)
        → Settles (set_setting f)
    kept f p q = plain_setting f λ r h. record {
      port = subst IsPort (sym (p r)) h.port;
      log_poll = subst IsPositive (sym (q r)) h.log_poll;
    }

    usage-Settles : Settles usage
    unfolding usage
    usage-Settles = record { at = λ s h. tt }

    version-Settles : Settles (print_version env)
    unfolding print_version
    version-Settles = record { at = λ s h. tt }

    handle_option-Settles : (c : ℕ) (optarg : Option Name) → Settles (handle_option env c optarg)
    unfolding handle_option
    handle_option-Settles c optarg = if-intro Settles (c == b'h') _ _ usage-Settles (
        if-intro Settles (c == b'v') _ _ version-Settles (
          if-intro Settles (c == b'o') _ _ (kept _ (λ r. refl) (λ r. refl)) (
            if-intro Settles (c == b'p') _ _ (record { at = set_port-Ranged _ })
              (if-intro Settles (c == b'b') _ _ (kept _ (λ r. refl) (λ r. refl)) (
                if-intro Settles (c == b'u') _ _ (kept _ (λ r. refl) (λ r. refl)) (
                  if-intro Settles (c == b'd') _ _ (kept _ (λ r. refl) (λ r. refl)) (
                    if-intro Settles (c == b't') _ _ (kept _ (λ r. refl) (λ r. refl)) (
                      if-intro Settles (c == b'q') _ _ (kept _ (λ r. refl) (λ r. refl)) (
                        if-intro Settles (c == b'c') _ _ (kept _ (λ r. refl) (λ r. refl)) (
                          if-intro Settles (c == b'n') _ _ (kept _ (λ r. refl) (λ r. refl)) (
                            if-intro Settles (c == b's') _ _ (kept _ (λ r. refl) (λ r. refl)) (
                              if-intro Settles (c == b'm') _ _ (kept _ (λ r. refl) (λ r. refl)) (
                                if-intro Settles (c == b'r') _ _ (kept _ (λ r. refl) (λ r. refl)) (
                                  if-intro Settles (c == b'l') _ _ (kept _ (λ r. refl) (λ r. refl))
                                    (if-intro Settles (c == b'f') _ _
                                      (kept _ (λ r. refl) (λ r. refl))
                                      (if-intro Settles (c == b'e') _ _
                                        (record { at = set_log_poll-Ranged _ })
                                        (if-intro Settles (c == b'?') _ _
                                          (record { at = λ s h. option_error-Ranged s })
                                          (record {
                                            at = λ s h. module_option-Ranged c optarg s h;
                                          }))))))))))))))))))

    -- The port and the polling interval that the program uses: whatever the options and the modules
    -- are, where the options do not end the process, a port from 0 to 65535 stays one, and a positive
    -- interval stays positive.
    pub handle_options-InRange :
        (options : List (ℕ × Option Name)) (s : Statics H L W)
        → InRange s.settings
        → Post (λ _ t. InRange t.settings) (λ _. Unit {0}) (handle_options env options s)
    unfolding handle_options
    handle_options-InRange [] s h = h
    handle_options-InRange ((c, optarg) ∷ rest) s h =
        Post-then (λ _ t. InRange t.settings) (λ _ t. InRange t.settings)
          (handle_option env c optarg s) (λ _. handle_options env rest)
          ((handle_option-Settles c optarg).at s h) (λ _ t k. handle_options-InRange rest t k)
