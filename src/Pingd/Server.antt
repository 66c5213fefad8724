-- ===== src/Pingd/Server.antt =====
-- What the daemon tells a client: `_send_ping_data` of src/pingd/pingd_loop.c.
use whatsup.Prelude.{
  ℕ, ◌%◌, ◌^◌, ◌==◌, leb, Bool, Option, none, some, List, [], ◌∷◌, ◌++◌, Name, length, print_ulong,
  if◌then◌else◌,
}
use whatsup.Pingd.Nodes.{PingdInfo}

-- PINGD_BUFLEN
abbrev pub pingd_buflen : ℕ
pingd_buflen = 1024

-- what `fd_write_n` returns: a number of bytes, or an error, which may be EPIPE
pub data Write : Type 0 where
  wrote : ℕ → Write
  broken_pipe : Write
  write_error : Write

-- `"%s %lu\n"`
unfoldable pub ping_line : Name → ℕ → Name
ping_line hostname tv_sec = hostname ++ b' ' ∷ (print_ulong (tv_sec % 2 ^ 64) ++ 10 ∷ [])

-- what the loop does with a write
unfoldable pub after_write : Write → Name → Option (List Name) → Option (List Name)
after_write broken_pipe line rest = some []
after_write write_error line rest = none
after_write (wrote n) line none = none
after_write (wrote n) line (some lines) = if n == length line then some (line ∷ lines) else none

module _ {V A : Type 0} (tv_sec : V → ℕ) (fd_write_n : Name → Write) where
  -- the loop: the lines that were written, or `none` where the process exits
  unfoldable pub send_lines : List (PingdInfo V A) → Option (List Name)
  unfolding after_write
  send_lines [] = some []
  send_lines (info ∷ infos) =
      let line = ping_line info.hostname (tv_sec info.last_received) in
      let rest = send_lines infos in
      if leb pingd_buflen (length line) then none else after_write (fd_write_n line) line rest

  -- `_send_ping_data`, where `accept` and `list_iterator_create` may fail
  unfoldable pub send_ping_data : Bool → Bool → List (PingdInfo V A) → Option (List Name)
  unfolding send_lines
  send_ping_data accept iterator_create nodes =
      if accept then (if iterator_create then send_lines nodes else none) else none
