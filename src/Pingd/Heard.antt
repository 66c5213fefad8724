-- ===== src/Pingd/Heard.antt =====
-- What the daemon knows of a node after any rounds of its loop: when it last heard from its address.
use whatsup.Prelude.{
  ℕ, ◌≡◌, refl, sym, ap, ◌∙◌, subst, Bool, true, false, Option, none, some, List, [], ◌∷◌, Name,
  get_elem?, get_elem?-map_inverse, All-get, some_injective, ℤ, if-intro, Post, Post-then,
  Post-weaken,
}
use whatsup.External.{HashLaws}
use whatsup.Pingd.Nodes.{PingdInfo, Pingd, PingdEnv, pingd_send_pings}
use whatsup.Pingd.Server.{Write, send_ping_data}
use whatsup.Pingd.Loop.{
  TimevalOps, Round, monotonic_now, due_after, send_due, poll, receive_if, answered, serve_if,
  pingd_round, pingd_rounds, Sockets, fds_setup, pingd_setup, pingd_loop,
}
use whatsup.Pingd.Index.{IsSetUp, nodes_setup-IsSetUp}
use whatsup.Pingd.Knows.{heard_from, sender, KnownIn, receive_ping-Knows, pingd_send_pings-Knows}

module _ {T V A : Type 0} (env : PingdEnv T V A) where
  -- The time that a node with an ip string was last heard from, after a round: `poll` told that
  -- there is a packet, and its sender has the string.
  abbrev heard_in : Name → Option (Bool × Bool) → Round V A → V → V
  heard_in ip none round last = last
  heard_in ip (some (false, client)) round last = last
  heard_in ip (some (true, client)) round last =
      heard_from ip (sender env round.from) round.received last

  -- The same after some rounds.
  abbrev pub last_heard : Name → List (Round V A) → V → V
  last_heard ip [] last = last
  last_heard ip (round ∷ rounds) last = last_heard ip rounds (heard_in ip round.polled round last)

  module _ (timeval : TimevalOps V) (ping_period k : ℕ) (hostname ip : Name) (address : A)
      (named : env.inet_ntoa address ≡ some ip) where
    due_after-Knows :
        (later : Option V) (s : Pingd T V A) (last : V)
        → KnownIn env k hostname address last s
        → Post
            (λ _. KnownIn env k hostname address last)
            (λ _. Unit {0})
            (due_after env timeval ping_period later s)
    unfolding due_after
    due_after-Knows none s last h = tt
    due_after-Knows (some now) s last h = h

    send_due-Knows :
        (now : V) (later : Option V) (s : Pingd T V A) (last : V)
        → KnownIn env k hostname address last s
        → Post
            (λ _. KnownIn env k hostname address last)
            (λ _. Unit {0})
            (send_due env timeval ping_period now later s)
    unfolding send_due
    send_due-Knows now later s last h =
        if-intro (Post (λ _. KnownIn env k hostname address last) (λ _. Unit {0}))
          (timeval.gt now s.next_send) _ _
          (Post-then (λ _. KnownIn env k hostname address last)
            (λ _. KnownIn env k hostname address last) (pingd_send_pings env s)
            (λ _. due_after env timeval ping_period later)
            (pingd_send_pings-Knows env k hostname ip address named s last h)
            (λ _ s' h'. due_after-Knows later s' last h'))
          h

    -- The round goes on with what `poll` told.
    abbrev Polled : Option (Bool × Bool) → V → Bool × Bool → Pingd T V A → Type 0
    Polled polled last ready s = KnownIn env k hostname address last s × (polled ≡ some ready)

    poll-Knows :
        (now : V) (polled : Option (Bool × Bool)) (s : Pingd T V A) (last : V)
        → KnownIn env k hostname address last s
        → Post (Polled polled last) (λ _. Unit {0}) (poll env timeval ping_period now polled s)
    unfolding poll
    poll-Knows now none s last h = tt
    poll-Knows now (some ready) s last h = (h, refl)

    receive_if-Knows :
        (ready : Bool × Bool) (round : Round V A) (s : Pingd T V A) (last : V)
        → Polled round.polled last ready s
        → Post
            (λ _. KnownIn env k hostname address (heard_in ip round.polled round last))
            (λ _. Unit {0})
            (receive_if env timeval ping_period ready.0 round.from round.received s)
    unfolding receive_if
    receive_if-Knows (false, client) round s last h = rw h.1 h.0
    receive_if-Knows (true, client) round s last h =
        rw h.1
          (receive_ping-Knows env k hostname ip address named round.from round.received s last h.0)

    answered-Knows :
        (lines : Option (List Name)) (s : Pingd T V A) (last : V)
        → KnownIn env k hostname address last s
        → Post
            (λ _. KnownIn env k hostname address last)
            (λ _. Unit {0})
            (answered env timeval ping_period lines s)
    unfolding answered
    answered-Knows none s last h = tt
    answered-Knows (some lines) s last h = h

    serve_if-Knows :
        (ready accepted : Bool) (fd_write_n : Name → Write) (s : Pingd T V A) (last : V)
        → KnownIn env k hostname address last s
        → Post
            (λ _. KnownIn env k hostname address last)
            (λ _. Unit {0})
            (serve_if env timeval ping_period ready accepted fd_write_n s)
    unfolding serve_if
    serve_if-Knows false accepted fd_write_n s last h = h
    serve_if-Knows true accepted fd_write_n s last h =
        answered-Knows
          (send_ping_data timeval.tv_sec fd_write_n accepted env.iterator_create s.nodes) s last h

    monotonic_now-Knows :
        (now : Option V) (s : Pingd T V A) (last : V)
        → KnownIn env k hostname address last s
        → Post
            (λ _. KnownIn env k hostname address last)
            (λ _. Unit {0})
            (monotonic_now env timeval ping_period now s)
    unfolding monotonic_now
    monotonic_now-Knows none s last h = tt
    monotonic_now-Knows (some now) s last h = h

    pingd_round-Knows :
        (round : Round V A) (s : Pingd T V A) (last : V)
        → KnownIn env k hostname address last s
        → Post
            (λ _. KnownIn env k hostname address (heard_in ip round.polled round last))
            (λ _. Unit {0})
            (pingd_round env timeval ping_period round s)
    unfolding pingd_round
    pingd_round-Knows round s last h =
        let known = λ (t : V). λ (_ : V). KnownIn env k hostname address t in
        Post-then (Polled round.polled last)
          (λ _. KnownIn env k hostname address (heard_in ip round.polled round last)) _ _
          (Post-then (known last) (Polled round.polled last) _ _
            (Post-then (known last) (known last) _ _ (monotonic_now-Knows round.now s last h)
              λ now s' h'. send_due-Knows now round.later s' last h')
            λ now s' h'. poll-Knows now round.polled s' last h')
          λ ready s' h'.
            Post-then (λ _. KnownIn env k hostname address (heard_in ip round.polled round last))
              (λ _. KnownIn env k hostname address (heard_in ip round.polled round last)) _ _
              (receive_if-Knows ready round s' last h')
              λ _ s'' h''. serve_if-Knows ready.1 round.accepted round.fd_write_n s'' _ h''

    pingd_rounds-Knows :
        (rounds : List (Round V A)) (s : Pingd T V A) (last : V)
        → KnownIn env k hostname address last s
        → Post
            (λ _. KnownIn env k hostname address (last_heard ip rounds last))
            (λ _. Unit {0})
            (pingd_rounds env timeval ping_period rounds s)
    unfolding pingd_rounds
    pingd_rounds-Knows [] s last h = h
    pingd_rounds-Knows (round ∷ rounds) s last h =
        Post-then (λ _. KnownIn env k hostname address (heard_in ip round.polled round last))
          (λ _. KnownIn env k hostname address (last_heard ip (round ∷ rounds) last)) _ _
          (pingd_round-Knows round s last h)
          λ _ s' h'. pingd_rounds-Knows rounds s' (heard_in ip round.polled round last) h'

  -- The node at a position has a host's name and was last heard from at a time.
  abbrev pub WasHeard : ℕ → Name → V → Pingd T V A → Type 0
  WasHeard k host last s =
      (info : PingdInfo V A) × (get_elem? s.nodes k ≡ some info)
      × (info.hostname ≡ host)
      × (info.last_received ≡ last)

  set_up-Known :
      (hosts : List Name) (k : ℕ) (host : Name) (address : A) (s : Pingd T V A)
      → get_elem? hosts k ≡ some host
      → env.gethostbyname host ≡ some address
      → IsSetUp env hosts s
      → KnownIn env k host address env.zero_timeval s
  set_up-Known hosts k host address s at resolves h =
      let (info, there, same) =
        get_elem?-map_inverse (λ (i : PingdInfo V A). i.hostname) s.nodes k host
          (subst (λ l. get_elem? l k ≡ some host) (sym h.names) at) in
      record {
        indexed = h.indexed;
        info = info;
        at = there;
        name = same;
        destination = some_injective (
            sym (
              All-get (λ (i : PingdInfo V A). env.gethostbyname i.hostname ≡ some i.destaddr)
                s.nodes k info h.resolves there)
            ∙ ap env.gethostbyname same
            ∙ resolves);
        time =
            All-get (λ (i : PingdInfo V A). i.last_received ≡ env.zero_timeval) s.nodes k info
              h.unheard there;
      }

  pingd_setup-IsSetUp :
      (timeval : TimevalOps V) (ping_period : ℕ) (receive_buffer : ℤ) (sockets : Sockets)
      (hosts : List Name) (s : Pingd T V A)
      → HashLaws env.hash
      → Post
          (λ _. IsSetUp env hosts)
          (λ _. Unit {0})
          (pingd_setup env timeval ping_period receive_buffer sockets hosts s)
  unfolding pingd_setup
  pingd_setup-IsSetUp timeval ping_period receive_buffer sockets hosts s laws =
      let reset : Pingd T V A = record s { next_send = env.zero_timeval } in
      if-intro (Post (λ _. IsSetUp env hosts) (λ _. Unit {0})) (fds_setup receive_buffer sockets) _
        _
        (if-intro (Post (λ _. IsSetUp env hosts) (λ _. Unit {0})) sockets.signal _ _
          (nodes_setup-IsSetUp env laws hosts reset) tt)
        tt

  -- With a hash library as documented, for a configured host whose name resolves to an address with
  -- an ip string: as long as the process has not exited, after any rounds of the loop the daemon has
  -- for this host, at its place in the configured order, the time of the last round that received a
  -- packet from an address with that string, and the time zero if there was none.
  pub pingd_loop-WasHeard :
      (timeval : TimevalOps V) (ping_period : ℕ) (receive_buffer : ℤ) (sockets : Sockets)
      (hosts : List Name) (rounds : List (Round V A)) (s : Pingd T V A) (k : ℕ) (host ip : Name)
      (address : A)
      → HashLaws env.hash
      → get_elem? hosts k ≡ some host
      → env.gethostbyname host ≡ some address
      → env.inet_ntoa address ≡ some ip
      → Post
          (λ _. WasHeard k host (last_heard ip rounds env.zero_timeval))
          (λ _. Unit {0})
          (pingd_loop env timeval ping_period receive_buffer sockets hosts rounds s)
  unfolding pingd_loop
  pingd_loop-WasHeard timeval ping_period receive_buffer sockets hosts rounds s k host ip address
        laws at resolves named =
      Post-then (λ _. IsSetUp env hosts)
        (λ _. WasHeard k host (last_heard ip rounds env.zero_timeval)) _ _
        (pingd_setup-IsSetUp timeval ping_period receive_buffer sockets hosts s laws)
        λ _ s' h.
          Post-weaken (λ _. KnownIn env k host address (last_heard ip rounds env.zero_timeval))
            (λ _. WasHeard k host (last_heard ip rounds env.zero_timeval)) (λ _. Unit {0})
            (pingd_rounds env timeval ping_period rounds s')
            (λ _ s'' known. (known.info, known.at, known.name, known.time))
            (pingd_rounds-Knows timeval ping_period k host ip address named rounds s'
              env.zero_timeval (set_up-Known hosts k host address s' at resolves h))
