-- ===== src/Program/Replay.antt =====
-- What the log tells of a node: the entries of `_log_mode` of src/whatsup/whatsup.c, read in order.
use whatsup.Prelude.{
  ◌≡◌, refl, ap, ◌∙◌, Bool, true, false, not, ◌&&◌, inl, inr, Option, none, some, List, [], ◌∷◌,
  ◌++◌, Name, str_eq, eq-str_eq, str_eq_refl, subst, contains, is_some, if◌then◌else◌, Bool-cases,
  Exec, pure, Post, Post-then, Triple, Triple-bind, codes, arith,
}
use whatsup.External.{HostlistLaws}
use whatsup.Devel.{UpOrDown, up_nodes, down_nodes}
use whatsup.Program.State.{LogEntry, Statics, ProgramEnv, in_world, err_exit, print}
use whatsup.Program.Nodes.{require}
use whatsup.Program.Log.{
  Snapshot, write_text, write_entry, write_changes, write_log, written, entry_text,
}

-- the state of a node after the entries of a log, from its state before them
unfoldable pub replay : Name → List LogEntry → UpOrDown → UpOrDown
unfolding str_eq
replay node [] before = before
replay node (e ∷ es) before = replay node es (if str_eq e.node node then e.which else before)

pub replay-append :
    (node : Name) (es : List LogEntry) (e : LogEntry) (before : UpOrDown)
    → replay node (es ++ e ∷ []) before
      ≡ (if str_eq e.node node then e.which else replay node es before)
unfolding replay
replay-append node [] e before = refl
replay-append node (d ∷ es) e before =
    replay-append node es e (if str_eq d.node node then d.which else before)

module _ {H L W : Type 0} (env : ProgramEnv H L W) where
  -- the state of a node in the lists of a load
  unfoldable pub status : Name → Snapshot H → UpOrDown
  unfolding contains
  status node s = if contains node (env.hostlist.hosts s.up) then up_nodes else down_nodes

  -- The node is in exactly one of the lists of a load.
  abbrev pub Once : Name → Snapshot H → Type 0
  Once node s =
      contains node (env.hostlist.hosts s.down) ≡ not (contains node (env.hostlist.hosts s.up))

  -- The log tells the state of the node.
  abbrev pub Told : Name → UpOrDown → UpOrDown → Statics H L W → Type 0
  Told node first now s = replay node s.log first ≡ now

  -- the state of the node after the changes of one of the lists
  unfoldable pub after_changes : Name → UpOrDown → H → List Name → UpOrDown → UpOrDown
  unfolding contains
  after_changes node which before nodes now =
      if contains node nodes && not (contains node (env.hostlist.hosts before)) then which else now

  write_text-log :
      (file : Option Name) (text : Name) (s : Statics H L W)
      → Post (λ _ t. t.log ≡ s.log) (λ _. Unit {0}) (write_text env file text s)
  unfolding write_text written in_world err_exit print
  write_text-log none text s = refl
  write_text-log (some file) text s = written-log (env.write_log text s.world).0
    where
      written-log :
          (o : Option (Unit {0}))
          → Post
              (λ _ t. t.log ≡ s.log)
              (λ _. Unit {0})
              (written env o (record s { world = (env.write_log text s.world).1 }))
      written-log none = tt
      written-log (some a) = refl

  log-Told :
      (node : Name) (first now : UpOrDown) (es : List LogEntry)
      (r : Option (Unit {0}) × Statics H L W)
      → Post (λ _ t. t.log ≡ es) (λ _. Unit {0}) r
      → replay node es first ≡ now
      → Post (λ _. Told node first now) (λ _. Unit {0}) r
  log-Told node first now es (none, t) h k = tt
  log-Told node first now es (some a, t) h k = ap (λ l. replay node l first) h ∙ k

  write_entry-Told :
      (node : Name) (first now : UpOrDown) (which : UpOrDown) (n : Name) (s : Statics H L W)
      → Told node first now s
      → Post
          (λ _. Told node first (if str_eq n node then which else now))
          (λ _. Unit {0})
          (write_entry env which n s)
  unfolding write_entry
  write_entry-Told node first now which n s h =
      let e : LogEntry = record { time = (env.format_now s.world).0; node = n; which = which } in
      let s' = record s { world = (env.format_now s.world).1; log = s.log ++ e ∷ [] } in
      log-Told node first _ (s.log ++ e ∷ []) (write_text env s.settings.log_file (entry_text e) s')
        (write_text-log s.settings.log_file (entry_text e) s')
        (replay-append node s.log e first
          ∙ ap (λ (u : UpOrDown). if str_eq n node then which else u) h)

  module _ {IsHost : Name → Type 0} (laws : HostlistLaws env.hostlist IsHost) where
    after_changes-cons :
        (node : Name) (which : UpOrDown) (before : H) (n : Name) (rest : List Name) (now : UpOrDown)
        → after_changes node which before rest (
            if is_some (env.hostlist.find before n)
            then now
            else if str_eq n node
            then which
            else now)
          ≡ after_changes node which before (n ∷ rest) now
    unfolding after_changes contains
    after_changes-cons node which before n rest now = elim (Bool-cases (str_eq n node)) [
      | inl e ↦
          rw (laws.find-contains before n)
            (rw (eq-str_eq n node e) (rw (str_eq_refl node) (ground arith)))
      | inr e ↦ rw e (elim (Bool-cases (is_some (env.hostlist.find before n))) [
        | inl f ↦ rw f refl
        | inr f ↦ rw f refl
      ])
    ]

    write_changes-Told :
        (node : Name) (first which : UpOrDown) (before : H) (nodes : List Name) (now : UpOrDown)
        (s : Statics H L W)
        → Told node first now s
        → Post
            (λ _. Told node first (after_changes node which before nodes now))
            (λ _. Unit {0})
            (write_changes env which before nodes s)
    unfolding write_changes after_changes contains
    write_changes-Told node first which before [] now s h = h
    write_changes-Told node first which before (n ∷ rest) now s h =
        subst
          (λ u.
            Post (λ _. Told node first u) (λ _. Unit {0})
              (write_changes env which before (n ∷ rest) s))
          (after_changes-cons node which before n rest now)
          (Post-then
            (λ _. Told node first (
              if is_some (env.hostlist.find before n)
              then now
              else if str_eq n node
              then which
              else now))
            _
            ((if is_some (env.hostlist.find before n) then pure tt else write_entry env which n) s)
            (λ _. write_changes env which before rest)
            (elim (Bool-cases (is_some (env.hostlist.find before n))) [
              | inl e ↦ rw e h
              | inr e ↦ rw e (write_entry-Told node first now which n s h)
            ])
            (λ _ t k. write_changes-Told node first which before rest _ t k))

    -- Both loops, on lists of two loads that have the node once.
    pub both_changes :
        (node : Name) (before now : Snapshot H)
        → Once node before
        → Once node now
        → after_changes node down_nodes before.down
            (env.hostlist.hosts now.down)
            (after_changes node up_nodes before.up (env.hostlist.hosts now.up) (status node before))
          ≡ status node now
    unfolding after_changes status
    both_changes node before now b n = rw b (
        rw n (elim (Bool-cases (contains node (env.hostlist.hosts before.up))) [
          | inl e ↦ elim (Bool-cases (contains node (env.hostlist.hosts now.up))) [
            | inl f ↦ rw e (rw f refl)
            | inr f ↦ rw e (rw f refl)
          ]
          | inr e ↦ elim (Bool-cases (contains node (env.hostlist.hosts now.up))) [
            | inl f ↦ rw e (rw f refl)
            | inr f ↦ rw e (rw f refl)
          ]
        ]))

    -- From one state of the node in the log to another, where the action returns.
    abbrev pub Tells :
        {A : Type 0} → Name → UpOrDown → UpOrDown → UpOrDown → Exec (Statics H L W) A → Type 0
    Tells node first u v m = Triple (Told node first u) m (λ _. Told node first v) (λ _. Unit {0})

    require-Tells :
        (node : Name) (first now : UpOrDown) (message : Name) (b : Bool)
        → Tells node first now now (require message b)
    unfolding require err_exit
    require-Tells node first now message true = record { at = λ s h. h }
    require-Tells node first now message false = record { at = λ s h. tt }

    write_changes-Tells :
        (node : Name) (first now which : UpOrDown) (before : H) (nodes : List Name)
        → Tells node first now
            (after_changes node which before nodes now)
            (write_changes env which before nodes)
    write_changes-Tells node first now which before nodes = record {
      at = write_changes-Told node first which before nodes now;
    }

    pub write_log-Tells :
        (node : Name) (first : UpOrDown) (before now : Snapshot H)
        → Tells node first
            (status node before)
            (after_changes node down_nodes before.down (env.hostlist.hosts now.down) (
              after_changes node up_nodes before.up
                (env.hostlist.hosts now.up)
                (status node before)))
            (write_log env (some before) now)
    unfolding write_log
    write_log-Tells node first before now =
        let message = codes "_log_mode: hostlist_iterator_create()" in
        let u = status node before in
        Triple-bind _ _
          (Triple-bind _ _
            (Triple-bind _ _
              (require-Tells node first u message (env.hostlist.iterator_create now.up))
              (λ _. require-Tells node first u message (env.hostlist.iterator_create now.down)))
            (λ _. write_changes-Tells node first u up_nodes before.up (env.hostlist.hosts now.up)))
          (λ _.
            write_changes-Tells node first _ down_nodes before.down (env.hostlist.hosts now.down))
