-- ===== src/Load/Config.antt =====
-- The configuration file: `_cb_hostnames` and `_read_conffile`.
use whatsup.Prelude.{
  ℕ, Bool, false, Option, none, some, List, [], ◌∷◌, ◌&&◌, Name, length, leb, ltb, ◌==◌,
  if◌then◌else◌, pos, Exec,
}
use whatsup.Handle.Err
use whatsup.Handle.State.{State}
use whatsup.Handle.Checks.{fail_with}
use whatsup.Module.Info.{NodeupdownConfig, Env}

-- NODEUPDOWN_CONFIG_HOSTNAMES_MAX
abbrev pub config_hostnames_max : ℕ
config_hostnames_max = 8

-- NODEUPDOWN_MAXHOSTNAMELEN
abbrev pub maxhostnamelen : ℕ
maxhostnamelen = 64

-- what `memset` leaves
abbrev pub empty_config : NodeupdownConfig
empty_config = record {
  hostnames = [];
  hostnames_flag = false;
  port = pos 0;
  port_flag = false;
  timeout_len = pos 0;
  timeout_len_flag = false;
}

-- the loop over the strings, as the array that it fills
unfoldable pub copy_hostnames : List Name → Option (List Name)
copy_hostnames [] = some []
copy_hostnames (n ∷ ns) =
    if ltb maxhostnamelen (length n)
    then none
    else elim (copy_hostnames ns) [ none ↦ none | some copied ↦ some (n ∷ copied) ]

unfoldable pub store_hostnames : NodeupdownConfig → Option (List Name) → Option NodeupdownConfig
store_hostnames conf none = none
store_hostnames conf (some copied) = some (record conf { hostnames = copied })

-- `_cb_hostnames` on the arguments of the option
unfoldable pub cb_hostnames : List Name → NodeupdownConfig → Option NodeupdownConfig
unfolding copy_hostnames store_hostnames
cb_hostnames stringlist conf =
    if ltb config_hostnames_max (length stringlist)
    then none
    else store_hostnames conf (copy_hostnames stringlist)

-- CONFFILE_ERR_*
abbrev pub conffile_err_exist : ℕ
conffile_err_exist = 0x0d

abbrev pub conffile_err_outmem : ℕ
conffile_err_outmem = 0x10

-- `CONFFILE_IS_PARSE_ERR`
abbrev pub conffile_is_parse_err : ℕ → Bool
conffile_is_parse_err x = leb 0x01 x && leb x 0x0c

-- the error number for one of `conffile_parse`, where it is an error
abbrev pub conffile_error : ℕ → ℕ
conffile_error errnum =
    if conffile_is_parse_err errnum
    then Err.conf_parse
    else if errnum == conffile_err_outmem
    then Err.out_mem
    else Err.conf_internal

module _ {H T : Type 0} (env : Env H T) where
  unfoldable pub read_result : Option ℕ → NodeupdownConfig → Exec (State H T) NodeupdownConfig
  read_result none conf s = (some conf, s)
  read_result (some errnum) conf s =
      if errnum == conffile_err_exist then (some conf, s) else fail_with (conffile_error errnum) s

  -- `_read_conffile`, with the configuration that it fills
  unfoldable pub read_conffile : NodeupdownConfig → Exec (State H T) NodeupdownConfig
  unfolding read_result
  read_conffile conf s =
      if env.conffile_handle_create
      then read_result (env.conffile_parse conf).0 (env.conffile_parse conf).1 s
      else fail_with Err.internal s
