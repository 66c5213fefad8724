-- ===== src/Pingd/Loop.antt =====
-- The main loop of the daemon: `pingd_loop` of src/pingd/pingd_loop.c, a round at a time.
use whatsup.Prelude.{
  ℕ, ltb, pos, ◌^◌, ◌+◌, ◌*◌, ◌-◌, ◌≤◌, ◌<◌, ◌≡◌, Bool, true, false, Option, none, some, List, [],
  ◌∷◌, ◌++◌, Name, if◌then◌else◌, Exec, ◌>>=◌, ◌>>◌, ℤ, is_nonpos, ◌&&◌, ◌||◌,
}
use whatsup.Conffile.Options.{to_int}
use whatsup.Pingd.Nodes.{Pingd, PingdEnv, pingd_send_pings, receive_ping, nodes_setup}
use whatsup.Pingd.Server.{Write, send_ping_data}

-- src/libcommon/timeval.h, from Ipmiconsole
pub record TimevalOps (V : Type 0) : Type 0 where
  pub tv_sec : V → ℕ
  pub gt : V → V → Bool
  pub add_ms : V → ℕ → V
  pub sub : V → V → V
  pub millisecond_calc : V → ℕ

-- What the operations do, by the microseconds of a time, as long as a sum is a time below a limit and
-- the milliseconds, which are rounded up, are an `int`; a difference is never below zero.
pub record TimevalLaws {V : Type 0} (timeval : TimevalOps V) (micros : V → ℕ) (limit : ℕ)
    : Type 0 where
  pub gt-micros : (a b : V) → timeval.gt a b ≡ ltb (micros b) (micros a)
  pub add_ms-micros :
      (a : V) (ms : ℕ)
      → ms < 2 ^ 31
      → micros a + 1000 * ms < limit
      → micros (timeval.add_ms a ms) ≡ micros a + 1000 * ms
  pub sub-micros : (a b : V) → micros (timeval.sub a b) ≡ micros a - micros b
  pub calc-reaches :
      (a : V) → micros a < 1000 * 2 ^ 31 - 1000 → micros a ≤ 1000 * timeval.millisecond_calc a
  pub calc-close :
      (a : V)
      → micros a < 1000 * 2 ^ 31 - 1000
      → 1000 * timeval.millisecond_calc a < micros a + 1000

-- What the system answers in a round: the clock before and after the pings, what `poll` says of the
-- two descriptors, the sender of a packet with the time of its receipt, and a client.
pub record Round (V A : Type 0) : Type 0 where
  pub now : Option V
  pub later : Option V
  pub polled : Option (Bool × Bool)
  pub from : Option A
  pub received : Option V
  pub accepted : Bool
  pub fd_write_n : Name → Write

-- what the socket functions and `signal` tell, in the order of the calls
pub record Sockets : Type 0 where
  pub ping_socket : Bool
  pub ping_receive_buffer : Bool
  pub ping_bind : Bool
  pub server_socket : Bool
  pub server_reuseaddr : Bool
  pub server_bind : Bool
  pub server_listen : Bool
  pub signal : Bool

-- `_fds_setup`, with `conf.ping_socket_receive_buffer`; where it does not succeed the process exits
unfoldable pub fds_setup : ℤ → Sockets → Bool
fds_setup receive_buffer sockets =
    sockets.ping_socket
    && (is_nonpos receive_buffer || sockets.ping_receive_buffer)
    && sockets.ping_bind
    && sockets.server_socket
    && sockets.server_reuseaddr
    && sockets.server_bind
    && sockets.server_listen

module _ {T V A : Type 0} (env : PingdEnv T V A) (timeval : TimevalOps V) (ping_period : ℕ) where
  -- `_monotonic_now`
  unfoldable pub monotonic_now : Option V → Exec (Pingd T V A) V
  monotonic_now none s = (none, s)
  monotonic_now (some now) s = (some now, s)

  -- the second reading of the clock, and when the next pings are due
  unfoldable pub due_after : Option V → Exec (Pingd T V A) V
  due_after none s = (none, s)
  due_after (some now) s = (some now, record s { next_send = timeval.add_ms now ping_period })

  -- the pings, when they are due; the result is the time
  unfoldable pub send_due : V → Option V → Exec (Pingd T V A) V
  unfolding due_after
  send_due now later s =
      let sent = (pingd_send_pings env >> due_after later) s in
      if timeval.gt now s.next_send then sent else (some now, s)

  -- `poll`, which takes the unsigned number of milliseconds as an `int`
  unfoldable pub poll : V → Option (Bool × Bool) → Exec (Pingd T V A) (Bool × Bool)
  unfolding to_int
  poll now polled s =
      let timeout_ms = timeval.millisecond_calc (timeval.sub s.next_send now) in
      (polled, record s { timeouts = s.timeouts ++ to_int (pos timeout_ms) ∷ [] })

  unfoldable pub receive_if : Bool → Option A → Option V → Exec (Pingd T V A) (Unit {0})
  receive_if false from received s = (some tt, s)
  receive_if true from received s = receive_ping env from received s

  unfoldable pub answered : Option (List Name) → Exec (Pingd T V A) (Unit {0})
  answered none s = (none, s)
  answered (some lines) s = (some tt, record s { served = s.served ++ lines ∷ [] })

  unfoldable pub serve_if : Bool → Bool → (Name → Write) → Exec (Pingd T V A) (Unit {0})
  unfolding answered
  serve_if false accepted fd_write_n s = (some tt, s)
  serve_if true accepted fd_write_n s =
      answered (send_ping_data timeval.tv_sec fd_write_n accepted env.iterator_create s.nodes) s

  -- a round of the loop
  unfoldable pub pingd_round : Round V A → Exec (Pingd T V A) (Unit {0})
  unfolding monotonic_now send_due poll receive_if serve_if
  pingd_round round =
      monotonic_now round.now
      >>= (λ now. send_due now round.later)
      >>= (λ now. poll now round.polled)
      >>= λ ready.
          receive_if ready.0 round.from round.received
          >> serve_if ready.1 round.accepted round.fd_write_n

  -- the `while` of `pingd_loop`, for some rounds
  unfoldable pub pingd_rounds : List (Round V A) → Exec (Pingd T V A) (Unit {0})
  unfolding pingd_round
  pingd_rounds [] s = (some tt, s)
  pingd_rounds (round ∷ rounds) s = (pingd_round round >> pingd_rounds rounds) s

  -- `_pingd_setup`; an assertion is no part of it
  unfoldable pub pingd_setup : ℤ → Sockets → List Name → Exec (Pingd T V A) (Unit {0})
  unfolding fds_setup
  pingd_setup receive_buffer sockets hosts s =
      let reset : Pingd T V A = record s { next_send = env.zero_timeval } in
      let (rv, s') = nodes_setup env hosts reset in
      if fds_setup receive_buffer sockets
      then (if sockets.signal then (rv, s') else (none, s'))
      else (none, reset)

  unfoldable pub pingd_loop :
      ℤ → Sockets → List Name → List (Round V A) → Exec (Pingd T V A) (Unit {0})
  unfolding pingd_setup pingd_rounds
  pingd_loop receive_buffer sockets hosts rounds s =
      (pingd_setup receive_buffer sockets hosts >> pingd_rounds rounds) s
