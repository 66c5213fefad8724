-- ===== src/Load/Choice.antt =====
-- Which port and which timeout a load uses.
use whatsup.Prelude.{
  ℕ, ◌≡◌, refl, sym, Bool-differ, Bool, true, false, Option, ℤ, pos, negsuc, is_nonpos, is_neg,
  Post, if-cases, ap, ◌∙◌,
}
use whatsup.Handle.Err
use whatsup.Handle.State.{State}
use whatsup.Module.Info.{Env, NodeupdownConfig}
use whatsup.Module.Backend.{backend_module_default_port, backend_module_default_timeout_len}
use whatsup.Load.Resolve.{default_port, resolve_port, default_timeout_len, resolve_timeout_len}

-- Who gave the number that was refused, by the error number: nobody before it gave one, and the test
-- refuses its own.
pub data Blamed (file_flag module_flag bad_file bad_module bad_backend : Bool) : ℕ → Type 0 where
  file :
      file_flag ≡ true
      → bad_file ≡ true
      → Blamed file_flag module_flag bad_file bad_module bad_backend Err.conf_input
  config_module :
      file_flag ≡ false
      → module_flag ≡ true
      → bad_module ≡ true
      → Blamed file_flag module_flag bad_file bad_module bad_backend Err.config_module
  backend :
      file_flag ≡ false
      → module_flag ≡ false
      → bad_backend ≡ true
      → Blamed file_flag module_flag bad_file bad_module bad_backend Err.backend_module

is_neg-is_nonpos : (x : ℤ) → is_nonpos x ≡ false → is_neg x ≡ false
is_neg-is_nonpos (pos n) h = refl
is_neg-is_nonpos (negsuc n) h = cc h

not_given : (given x : ℤ) → is_nonpos given ≡ true → is_nonpos given ≡ false → x ≡ given
not_given given x n p = absurd (Bool-differ (sym n ∙ p))

module _ {H T : Type 0} (env : Env H T) where
  -- the argument is positive and used as it is; or it is not, and there is a number that passes a
  -- test, or whom to blame
  abbrev pub Accepted :
      (ℤ → Bool) → ℤ → Bool → Bool → Bool → Bool → Bool → Option ℤ × State H T → Type 0
  Accepted bad given file_flag module_flag bad_file bad_module bad_backend =
      Post (λ x _. (bad x ≡ false) × (is_nonpos given ≡ false → x ≡ given))
        (λ t.
          (is_nonpos given ≡ true)
          × Blamed file_flag module_flag bad_file bad_module bad_backend t.handle.errnum)

  -- The port that a load uses is positive, whoever it comes from, if the backend gives the same
  -- default both times that it is asked, and it is the port of the call where that is positive. Where
  -- there is none, the port of the call is not positive, and the error number tells whether the
  -- configuration file, the config module or the backend, the first of them that gave a port, gave one
  -- that is not positive.
  pub resolve_port-positive :
      (port : ℤ) (c m : NodeupdownConfig) (s : State H T)
      → (backend_module_default_port env (backend_module_default_port env s).1).0
        ≡ (backend_module_default_port env s).0
      → Accepted is_nonpos port c.port_flag m.port_flag
          (is_nonpos c.port)
          (is_nonpos m.port)
          (is_nonpos (backend_module_default_port env s).0)
          (resolve_port env port c m s)
  unfolding resolve_port default_port
  resolve_port-positive port c m s same =
      let P =
        Accepted is_nonpos port c.port_flag m.port_flag (is_nonpos c.port) (is_nonpos m.port)
          (is_nonpos (backend_module_default_port env s).0) in
      if-cases P (is_nonpos port) _ _
        (λ n.
          if-cases P c.port_flag _ _
            (λ e.
              if-cases P (is_nonpos c.port) _ _ (λ b. (n, file e b)) (λ h. (h, not_given port _ n)))
            (λ e.
              if-cases P m.port_flag _ _
                (λ f.
                  if-cases P (is_nonpos m.port) _ _ (λ b. (n, config_module e f b))
                    (λ h. (h, not_given port _ n)))
                (λ f.
                  if-cases P (is_nonpos (backend_module_default_port env s).0) _ _
                    (λ b. (n, backend e f b)) (λ h. (ap is_nonpos same ∙ h, not_given port _ n)))))
        (λ h. (h, λ _. refl))

  -- The timeout that a load uses is not negative, and is that of the call where that is positive.
  -- Where there is none the error number tells whose number was refused, by the same precedence: the
  -- file's and the config module's must be positive, the backend's, which is the same both times that
  -- it is asked, only not negative.
  pub resolve_timeout_len-nonneg :
      (timeout_len : ℤ) (c m : NodeupdownConfig) (s : State H T)
      → (backend_module_default_timeout_len env (backend_module_default_timeout_len env s).1).0
        ≡ (backend_module_default_timeout_len env s).0
      → Accepted is_neg timeout_len c.timeout_len_flag m.timeout_len_flag
          (is_nonpos c.timeout_len)
          (is_nonpos m.timeout_len)
          (is_neg (backend_module_default_timeout_len env s).0)
          (resolve_timeout_len env timeout_len c m s)
  unfolding resolve_timeout_len default_timeout_len
  resolve_timeout_len-nonneg timeout_len c m s same =
      let P =
        Accepted is_neg timeout_len c.timeout_len_flag m.timeout_len_flag (is_nonpos c.timeout_len)
          (is_nonpos m.timeout_len) (is_neg (backend_module_default_timeout_len env s).0) in
      if-cases P (is_nonpos timeout_len) _ _
        (λ n.
          if-cases P c.timeout_len_flag _ _
            (λ e.
              if-cases P (is_nonpos c.timeout_len) _ _ (λ b. (n, file e b))
                (λ h. (is_neg-is_nonpos c.timeout_len h, not_given timeout_len _ n)))
            (λ e.
              if-cases P m.timeout_len_flag _ _
                (λ f.
                  if-cases P (is_nonpos m.timeout_len) _ _ (λ b. (n, config_module e f b))
                    (λ h. (is_neg-is_nonpos m.timeout_len h, not_given timeout_len _ n)))
                (λ f.
                  if-cases P (is_neg (backend_module_default_timeout_len env s).0) _ _
                    (λ b. (n, backend e f b))
                    (λ h. (ap is_neg same ∙ h, not_given timeout_len _ n)))))
        (λ h. (is_neg-is_nonpos timeout_len h, λ _. refl))
