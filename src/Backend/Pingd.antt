-- ===== src/Backend/Pingd.antt =====
-- The backend module for the pingd daemon: src/libnodeupdown/nodeupdown_backend_pingd.c.
pub mod Framed
pub mod Protocol
pub mod Report
use whatsup.Prelude.{
  ℕ, zero, suc, ◌+◌, ◌-◌, ◌%◌, ◌^◌, Bool, true, false, Option, none, some, List, [], ◌∷◌, Name,
  length, codes, take, c_string, isspace, scan_ulong, is_empty, ltb, ◌==◌, if◌then◌else◌, ℤ, pos,
  Exec, continue, ◌>>=◌, ◌>>◌,
}
use whatsup.Handle.Err
use whatsup.Handle.State.{State}
use whatsup.Handle.Checks.{nodeupdown_set_errnum, set_and_fail}
use whatsup.Module.Info.{DevelApi, BackendInfo}
use whatsup.Load.Config.{maxhostnamelen}
use whatsup.Backend.Connect.{ConnectCalls, low_timeout_connect}

abbrev pub pingd_backend_default_port : ℕ
pingd_backend_default_port = 9125

abbrev pub pingd_backend_default_timeout_len : ℕ
pingd_backend_default_timeout_len = 60

abbrev pub pingd_backend_buflen : ℕ
pingd_backend_buflen = 1024

unfoldable pub skip_blanks : Name → Name
skip_blanks [] = []
skip_blanks (c ∷ cs) = let rest = skip_blanks cs in if isspace c then rest else c ∷ cs

-- the bytes of a word, at most a number of them, and what follows
unfoldable pub scan_word : ℕ → Name → Name × Name
scan_word zero cs = ([], cs)
scan_word (suc room) [] = ([], [])
scan_word (suc room) (c ∷ cs) =
    let (word, rest) = scan_word room cs in if isspace c then ([], c ∷ cs) else (c ∷ word, rest)

unfoldable pub with_number : Name → Option ℕ → Option (Name × ℕ)
with_number word none = none
with_number word (some n) = some (word, n)

-- what follows the word is the number
unfoldable pub with_scanned : Name × Name → Option (Name × ℕ)
unfolding with_number
with_scanned ([], rest) = none
with_scanned (c ∷ word, rest) = with_number (c ∷ word) (scan_ulong rest)

-- `sscanf(buf, "%64s %lu\n", hostname, &localtime)`, where `none` is any result but 2
unfoldable pub sscanf : Name → Option (Name × ℕ)
unfolding with_scanned scan_word skip_blanks
sscanf buf = with_scanned (scan_word maxhostnamelen (skip_blanks buf))

-- `abs(localtime - tv.tv_sec)` as an `unsigned int`: the difference of two `unsigned long`s is cut
-- to an `int`, of which `abs` is taken
unfoldable pub seconds_apart : ℕ → ℕ → ℕ
seconds_apart localtime tv_sec =
    let difference = ((localtime + (2 ^ 64 - tv_sec % 2 ^ 64)) % 2 ^ 64) % 2 ^ 32 in
    if ltb difference (2 ^ 31) then difference else 2 ^ 32 - difference

-- What the system tells: the name of this host, the connection, the clock, and the reads of
-- `fd_read_line`, each a line or `none` for an error, with a 0 after the last.
pub record Peer : Type 0 where
  pub gethostname : Option Name
  pub calls : Name → ℕ → ConnectCalls
  pub gettimeofday : Option ℕ
  pub reads : Name → ℕ → List (Option Name)

module _ {H T : Type 0} where
  -- the return values of the two functions are not looked at
  abbrev pub ignoring : {A : Type 0} → Exec (State H T) A → State H T → State H T
  ignoring m s = (m s).1

  unfoldable pub add_scanned : DevelApi H T → ℕ → ℕ → Name × ℕ → State H T → State H T
  add_scanned devel tv_sec timeout_len (hostname, localtime) s =
      if ltb (seconds_apart localtime tv_sec) timeout_len
      then ignoring (devel.add_up_node hostname) s
      else ignoring (devel.add_down_node hostname) s

  unfoldable pub with_line : DevelApi H T → ℕ → ℕ → Option (Name × ℕ) → Exec (State H T) (Unit {0})
  unfolding add_scanned nodeupdown_set_errnum
  with_line devel tv_sec timeout_len none s = set_and_fail Err.internal s
  with_line devel tv_sec timeout_len (some scanned) s =
      (some tt, add_scanned devel tv_sec timeout_len scanned s)

  -- the loop
  unfoldable pub read_nodes :
      DevelApi H T → ℕ → ℕ → List (Option Name) → Exec (State H T) (Unit {0})
  unfolding with_line nodeupdown_set_errnum
  read_nodes devel tv_sec timeout_len [] s = (some tt, s)
  read_nodes devel tv_sec timeout_len (none ∷ reads) s = set_and_fail Err.internal s
  read_nodes devel tv_sec timeout_len (some line ∷ reads) s =
      let buf = c_string (take (pingd_backend_buflen - 1) line) in
      let rest =
        (with_line devel tv_sec timeout_len (sscanf buf)
            >> read_nodes devel tv_sec timeout_len reads)
          s in
      if is_empty line then (some tt, s) else rest

  unfoldable pub read_at :
      DevelApi H T → Option ℕ → ℕ → List (Option Name) → Exec (State H T) (Unit {0})
  unfolding read_nodes nodeupdown_set_errnum
  read_at devel none timeout_len reads s = set_and_fail Err.internal s
  read_at devel (some tv_sec) timeout_len reads s = read_nodes devel tv_sec timeout_len reads s

  module _ (peer : Peer) where
    unfoldable pub default_hostname_result : Option Name → Exec (State H T) Name
    unfolding nodeupdown_set_errnum
    default_hostname_result none s = set_and_fail Err.internal s
    default_hostname_result (some name) s = (some name, s)

    unfoldable pub pingd_backend_default_hostname : Exec (State H T) Name
    unfolding default_hostname_result
    pingd_backend_default_hostname s = default_hostname_result peer.gethostname s

    unfoldable pub pingd_backend_get_updown_data :
        DevelApi H T → Name → ℕ → ℕ → Option Name → Exec (State H T) (Unit {0})
    unfolding low_timeout_connect read_at
    pingd_backend_get_updown_data devel hostname port timeout_len reserved s =
        (low_timeout_connect (peer.calls hostname port)
            >> read_at devel peer.gettimeofday timeout_len (peer.reads hostname port))
          s

    -- `backend_module_info`
    unfoldable pub pingd_backend_module_info : BackendInfo H T
    unfolding pingd_backend_default_hostname pingd_backend_get_updown_data
    pingd_backend_module_info = record {
      pointers = record {
        backend_module_name = true;
        default_hostname = true;
        default_port = true;
        default_timeout_len = true;
        preferred_clusterlist_module = true;
        setup = true;
        cleanup = true;
        get_updown_data = true;
      };
      default_hostname = pingd_backend_default_hostname;
      default_port = λ s. (pos pingd_backend_default_port, s);
      default_timeout_len = λ s. (pos pingd_backend_default_timeout_len, s);
      preferred_clusterlist_module = λ s. (none, s);
      setup = λ s. (some tt, s);
      cleanup = λ s. (some tt, s);
      get_updown_data = pingd_backend_get_updown_data;
    }
