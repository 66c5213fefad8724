-- ===== src/Pingd/Schedule.antt =====
-- When the daemon wakes up: the timeout of `poll` leads to the next time that pings are due.
use whatsup.Prelude.{
  get_elem?, ℕ, ℤ, pos, ltb, ◌^◌, ◌-◌, ◌+◌, ◌*◌, ◌≤◌, ◌<◌, ◌≡◌, refl, sym, ap, ◌∙◌, Bool, true,
  false, Option, none, some, List, [], ◌∷◌, ◌++◌, Name, arith, if-cases, if-intro, Post, Post-then,
  Post-any, Post-weaken, Exec, ◌>>=◌, subst,
}
use whatsup.Conffile.Options.{to_int}
use whatsup.Pingd.Nodes.{
  PingdInfo, Pingd, PingdEnv, find_index, pingd_send_pings, receive_ping, received_from, found_node,
  set_received,
}
use whatsup.Pingd.Server.{Write, send_ping_data}
use whatsup.Pingd.Loop.{
  TimevalOps, TimevalLaws, Round, monotonic_now, due_after, send_due, poll, receive_if, answered,
  serve_if, pingd_round,
}

-- The time that a round waits from, and when pings are due then: if they were not due before at the
-- clock's first reading, that reading; if they were, the second one, which the next pings follow in a
-- period.
pub data Told {V A : Type 0} (timeval : TimevalOps V) (ping_period : ℕ) (micros : V → ℕ)
    (round : Round V A) (due now next_send : V) : Type 0 where
  not_due :
      round.now ≡ some now
      → micros now ≤ micros due
      → next_send ≡ due
      → Told timeval ping_period micros round due now next_send
  were_due :
      (first : V)
      → round.now ≡ some first
      → micros due < micros first
      → round.later ≡ some now
      → next_send ≡ timeval.add_ms now ping_period
      → Told timeval ping_period micros round due now next_send

-- The period is an `int` that is not the greatest, the clock has not gone back behind the time at which the next pings were
-- planned, and the time a period after the pings is below the limit.
pub record Timely {V A : Type 0} (ping_period : ℕ) (micros : V → ℕ) (limit : ℕ) (round : Round V A)
    (due : V) : Type 0 where
  pub period : ping_period + 1 < 2 ^ 31
  pub not_back : (now : V) → round.now ≡ some now → micros due ≤ micros now + 1000 * ping_period
  pub in_range : (now : V) → round.later ≡ some now → micros now + 1000 * ping_period < limit

ltb-less : (a b : ℕ) → ltb a b ≡ true → a < b
ltb-less a b h = ground (arith, h)

ltb-least : (a b : ℕ) → ltb a b ≡ false → b ≤ a
ltb-least a b h = ground (arith, h)

to_int-small : (n : ℕ) → n < 2 ^ 31 → to_int (pos n) ≡ pos n
unfolding to_int
to_int-small n h = ground (arith, h)

module _ {T V A : Type 0} (env : PingdEnv T V A) (timeval : TimevalOps V) (ping_period : ℕ)
    (micros : V → ℕ) (limit : ℕ) (laws : TimevalLaws timeval micros limit) where
  -- The daemon has waited with these timeouts, and the next pings are due at this time.
  abbrev Waits : List ℤ → V → Pingd T V A → Type 0
  Waits timeouts due s = (s.timeouts ≡ timeouts) × (s.next_send ≡ due)

  module _ (timeouts : List ℤ) (due : V) where
    abbrev KeepsWaits : Exec (Pingd T V A) (Unit {0}) → Type 0
    KeepsWaits m =
        (s : Pingd T V A)
        → Waits timeouts due s
        → Post (λ _. Waits timeouts due) (λ _. Unit {0}) (m s)

    set_received-Waits :
        (i : ℕ) (info : Option (PingdInfo V A)) (now : Option V)
        → KeepsWaits (set_received env i info now)
    unfolding set_received
    set_received-Waits i none now s h = tt
    set_received-Waits i (some info) none s h = tt
    set_received-Waits i (some info) (some now) s h = h

    found_node-Waits : (i : Option ℕ) (now : Option V) → KeepsWaits (found_node env i now)
    unfolding found_node
    found_node-Waits none now s h = h
    found_node-Waits (some i) now s h = set_received-Waits i (get_elem? s.nodes i) now s h

    received_from-Waits :
        (ip : Option Name) (now : Option V) → KeepsWaits (received_from env ip now)
    unfolding received_from
    received_from-Waits none now s h = tt
    received_from-Waits (some ip) now s h =
        found_node-Waits (find_index env s.nodes_index ip) now s h

    receive_if-Waits :
        (ready : Bool) (from : Option A) (now : Option V)
        → KeepsWaits (receive_if env timeval ping_period ready from now)
    unfolding receive_if receive_ping
    receive_if-Waits false from now s h = h
    receive_if-Waits true none now s h = tt
    receive_if-Waits true (some from) now s h = received_from-Waits (env.inet_ntoa from) now s h

    answered-Waits :
        (lines : Option (List Name)) → KeepsWaits (answered env timeval ping_period lines)
    unfolding answered
    answered-Waits none s h = tt
    answered-Waits (some lines) s h = h

    serve_if-Waits :
        (ready accepted : Bool) (fd_write_n : Name → Write)
        → KeepsWaits (serve_if env timeval ping_period ready accepted fd_write_n)
    unfolding serve_if
    serve_if-Waits false accepted fd_write_n s h = h
    serve_if-Waits true accepted fd_write_n s h =
        answered-Waits
          (send_ping_data timeval.tv_sec fd_write_n accepted env.iterator_create s.nodes) s h

  -- The timeout, in milliseconds, covers the time to the next pings, and is less than a millisecond
  -- longer.
  abbrev pub Reaches : V → V → ℕ → Type 0
  Reaches now due timeout_ms =
      (micros now ≤ micros due)
      × (micros due ≤ micros now + 1000 * timeout_ms)
      × (micros now + 1000 * timeout_ms < micros due + 1000)

  pingd_send_pings-timeouts :
      (s : Pingd T V A)
      → Post (λ _ s'. s'.timeouts ≡ s.timeouts) (λ _. Unit {0}) (pingd_send_pings env s)
  unfolding pingd_send_pings
  pingd_send_pings-timeouts s =
      if-intro (Post (λ _ s'. s'.timeouts ≡ s.timeouts) (λ _. Unit {0})) env.iterator_create _ _
        (Post-any (λ s'. s'.timeouts ≡ s.timeouts) _ _ refl) tt

  -- The time is the one to wait from, and the next pings are due after it, within a period.
  abbrev IsAhead : Round V A → V → List ℤ → V → Pingd T V A → Type 0
  IsAhead round due timeouts now s =
      Told timeval ping_period micros round due now s.next_send
      × (micros now ≤ micros s.next_send)
      × (micros s.next_send ≤ micros now + 1000 * ping_period)
      × (s.timeouts ≡ timeouts)

  due_after-IsAhead :
      (round : Round V A) (due first : V) (later : Option V) (timeouts : List ℤ) (s : Pingd T V A)
      → Timely ping_period micros limit round due
      → round.now ≡ some first
      → micros due < micros first
      → round.later ≡ later
      → s.timeouts ≡ timeouts
      → Post
          (IsAhead round due timeouts)
          (λ _. Unit {0})
          (due_after env timeval ping_period later s)
  unfolding due_after
  due_after-IsAhead round due first none timeouts s timely f d e h = tt
  due_after-IsAhead round due first (some now) timeouts s timely f d e h =
      let sum =
        laws.add_ms-micros now ping_period (omega (arith, timely.period)) (timely.in_range now e) in
      (were_due first f d e refl, omega (arith, sum), omega (arith, sum), h)

  send_due-IsAhead :
      (round : Round V A) (now : V) (s : Pingd T V A)
      → Timely ping_period micros limit round s.next_send
      → round.now ≡ some now
      → Post
          (IsAhead round s.next_send s.timeouts)
          (λ _. Unit {0})
          (send_due env timeval ping_period now round.later s)
  unfolding send_due
  send_due-IsAhead round now s timely e =
      let gt = laws.gt-micros now s.next_send in
      if-cases (Post (IsAhead round s.next_send s.timeouts) (λ _. Unit {0}))
        (timeval.gt now s.next_send) _ _
        (λ after.
          Post-then (λ _ s'. s'.timeouts ≡ s.timeouts) (IsAhead round s.next_send s.timeouts)
            (pingd_send_pings env s) (λ _. due_after env timeval ping_period round.later)
            (pingd_send_pings-timeouts s)
            (λ _ s' h.
              due_after-IsAhead round s.next_send now round.later s.timeouts s' timely e
                (ltb-less _ _ (sym gt ∙ after)) refl h))
        (λ before.
          let ahead = ltb-least _ _ (sym gt ∙ before) in
          (not_due e ahead refl, ahead, timely.not_back now e, refl))

  -- The daemon has waited once more, from the time to wait from to the time when pings are due.
  abbrev pub WokenFor : Round V A → V → List ℤ → Pingd T V A → Type 0
  WokenFor round due timeouts s =
      (now : V) × (timeout_ms : ℕ) × Told timeval ping_period micros round due now s.next_send
      × (s.timeouts ≡ timeouts ++ pos timeout_ms ∷ [])
      × Reaches now s.next_send timeout_ms

  poll-WokenFor :
      (round : Round V A) (due now : V) (polled : Option (Bool × Bool)) (timeouts : List ℤ)
      (s : Pingd T V A)
      → ping_period + 1 < 2 ^ 31
      → IsAhead round due timeouts now s
      → Post
          (λ _. WokenFor round due timeouts)
          (λ _. Unit {0})
          (poll env timeval ping_period now polled s)
  unfolding poll
  poll-WokenFor round due now polled timeouts s period (told, ahead, near, same) =
      let gap = timeval.sub s.next_send now in
      let ms = timeval.millisecond_calc gap in
      let size = laws.sub-micros s.next_send now in
      let small : micros gap < 1000 * 2 ^ 31 - 1000 = omega (arith, size, near, period) in
      let reaches = laws.calc-reaches gap small in
      let close = laws.calc-close gap small in
      Post-any (WokenFor round due timeouts) polled _ (
        now,
        ms,
        told,
        ap (λ l. l ++ to_int (pos ms) ∷ []) same
            ∙ ap (λ z. timeouts ++ z ∷ []) (to_int-small ms (omega (arith, close, small))),
        (ahead, omega (arith, ahead, size, reaches), omega (arith, ahead, size, close)),
      )

  first_reading :
      (round : Round V A) (now : Option V) (s : Pingd T V A)
      → Timely ping_period micros limit round s.next_send
      → round.now ≡ now
      → Post
          (IsAhead round s.next_send s.timeouts)
          (λ _. Unit {0})
          ((monotonic_now env timeval ping_period now >>= λ now'.
              send_due env timeval ping_period now' round.later)
            s)
  unfolding monotonic_now
  first_reading round none s timely e = tt
  first_reading round (some now) s timely e = send_due-IsAhead round now s timely e

  WokenFor-Waits :
      (round : Round V A) (due : V) (timeouts : List ℤ) (s s' : Pingd T V A)
      → WokenFor round due timeouts s
      → Waits s.timeouts s.next_send s'
      → WokenFor round due timeouts s'
  WokenFor-Waits round due timeouts s s' (now, timeout_ms, told, one_more, reaches) same = (
    now,
    timeout_ms,
    subst (Told timeval ping_period micros round due now) (sym same.1) told,
    same.0 ∙ one_more,
    subst (λ d. Reaches now d timeout_ms) (sym same.1) reaches,
  )

  -- With functions on times that do what their names say as long as the results fit, a period below
  -- 2^31 - 1 milliseconds, and a clock that has not gone back behind the plan and is a period below
  -- the limit of times, a round of the loop that does not end the process waits in `poll` once. If
  -- pings were not due at the clock's first reading it waits from that reading, and they are due
  -- when they were; if they were, it waits from the second reading, and the next ones are due a
  -- period after that. The timeout, an `int` that is not negative, covers the time until they are
  -- due, and is less than a millisecond longer than that.
  pub pingd_round-WokenFor :
      (round : Round V A) (s : Pingd T V A)
      → Timely ping_period micros limit round s.next_send
      → Post
          (λ _. WokenFor round s.next_send s.timeouts)
          (λ _. Unit {0})
          (pingd_round env timeval ping_period round s)
  unfolding pingd_round monotonic_now
  pingd_round-WokenFor round s timely =
      let Woken = WokenFor round s.next_send s.timeouts in
      Post-then (λ _. Woken) (λ _. Woken) _ _
        (Post-then (IsAhead round s.next_send s.timeouts) (λ _. Woken) _ _
          (first_reading round round.now s timely refl)
          λ now s' h.
            poll-WokenFor round s.next_send now round.polled s.timeouts s' timely.period h)
        λ ready s' h.
          Post-weaken (λ _. Waits s'.timeouts s'.next_send) (λ _. Woken) (λ _. Unit {0}) _
            (λ _ s'' same. WokenFor-Waits round s.next_send s.timeouts s' s'' h same)
            (Post-then (λ _. Waits s'.timeouts s'.next_send) (λ _. Waits s'.timeouts s'.next_send) _
              _
              (receive_if-Waits s'.timeouts s'.next_send ready.0 round.from round.received s'
                (refl, refl))
              λ _ s'' same.
                serve_if-Waits s'.timeouts s'.next_send ready.1 round.accepted round.fd_write_n s''
                  same)
