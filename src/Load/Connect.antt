-- ===== src/Load/Connect.antt =====
-- Where `nodeupdown_load_data` gets its data from: the caller's host, the configured hosts in turn,
-- or the backend's default host.
use whatsup.Prelude.{
  ℕ, ◌-◌, ◌^◌, Bool, true, false, ◌||◌, Option, none, some, List, [], ◌∷◌, Name, if◌then◌else◌, ℤ,
  pos, negsuc, Exec, ◌>>=◌,
}
use whatsup.Handle.Err
use whatsup.Handle.State.{State}
use whatsup.Handle.Checks.{fail_with}
use whatsup.Module.Info.{NodeupdownConfig, Env}
use whatsup.Module.Backend.{backend_module_default_hostname, backend_module_get_updown_data}
use whatsup.Devel.{devel_api}

-- an `int` passed as an `unsigned int`
abbrev pub to_unsigned : ℤ → ℕ
to_unsigned (pos n) = n
to_unsigned (negsuc n) = (2 ^ 32 - 1 - n)

-- the `hostnames` of the loop
abbrev pub configured_hostnames : NodeupdownConfig → NodeupdownConfig → List Name
configured_hostnames conffile_config module_config =
    if conffile_config.hostnames_flag then conffile_config.hostnames else module_config.hostnames

module _ {H T : Type 0} (env : Env H T) (port timeout_len : ℕ) (reserved : Option Name) where
  -- `backend_module_get_updown_data` for one host
  unfoldable pub get_data : Name → Exec (State H T) (Unit {0})
  get_data hostname =
      backend_module_get_updown_data env (devel_api env) hostname port timeout_len reserved

  -- the loop over the configured hosts: whether it stopped before the end
  unfoldable pub after_attempt : Exec (State H T) Bool → Option (Unit {0}) → Exec (State H T) Bool
  after_attempt rest none s = rest s
  after_attempt rest (some _) s = (some true, s)

  unfoldable pub try_hostnames : List Name → Exec (State H T) Bool
  try_hostnames [] s = (some false, s)
  try_hostnames ([] ∷ hostnames) s = try_hostnames hostnames s
  try_hostnames ((c ∷ cs) ∷ hostnames) s =
      let r = get_data (c ∷ cs) s in after_attempt (try_hostnames hostnames) r.0 r.1

  unfoldable pub found_or_connect : Bool → Exec (State H T) (Unit {0})
  found_or_connect true s = (some tt, s)
  found_or_connect false s = fail_with Err.connect s

  unfoldable pub get_updown_data :
      Option Name → NodeupdownConfig → NodeupdownConfig → Exec (State H T) (Unit {0})
  unfolding try_hostnames after_attempt found_or_connect
  get_updown_data (some hostname) conffile_config module_config = get_data hostname
  get_updown_data none conffile_config module_config =
      if conffile_config.hostnames_flag || module_config.hostnames_flag
      then try_hostnames (configured_hostnames conffile_config module_config) >>= found_or_connect
      else backend_module_default_hostname env >>= get_data
