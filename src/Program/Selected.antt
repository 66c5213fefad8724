-- ===== src/Program/Selected.antt =====
-- The nodes that the user gave, by their state: `_get_input_nodes` of src/whatsup/whatsup.c.
use whatsup.Prelude.{
  is_some, ℕ, ◌≡◌, refl, sym, ap, ◌∙◌, Bool, true, false, Option, none, some, List, [], ◌∷◌, ◌++◌,
  Name, All, if◌then◌else◌, ◌>>◌, Post, Post-then, Post-weaken, codes, Bool-cases, inl, inr, ◌==◌,
}
use mathlib.Core.List.{append_assoc, append-nil}
use whatsup.Handle.Err
use whatsup.External.{HostlistLaws}
use whatsup.Devel.{UpOrDown}
use whatsup.Program.State.{UpdownOps, Statics, ProgramEnv, err_exit, in_library}
use whatsup.Program.Nodes.{
  or_exit, require, exit_updown, known_node, ask_node, add_if, select_nodes, get_input_nodes,
}

-- What hostlist.h documents of `hostlist_push_host`.
pub record PushHostLaw {H L W : Type 0} (env : ProgramEnv H L W) : Type 0 where
  pub hosts-push_host :
      (h h' : H) (n : Name)
      → env.strings.push_host h n ≡ some h'
      → env.hostlist.hosts h' ≡ env.hostlist.hosts h ++ n ∷ []

-- What the program relies on in the library: in the states `P` of the library, which the question
-- leaves, `nodeupdown_is_node_up` and `nodeupdown_is_node_down` have an answer exactly for known nodes,
-- and it is whether the node is listed.
pub record Answers {L : Type 0} (ops : UpdownOps L) (P : L → Type 0) (known : Name → Bool)
    (listed : UpOrDown → Name → Bool) : Type 0 where
  pub is_node :
      (which : UpOrDown) (node : Name) (l : L)
      → P l
      → Post
          (λ b m. P m × (known node ≡ true) × (b ≡ listed which node))
          (λ _. Unit {0})
          (ops.is_node which node l)
  pub is_node-known :
      (which : UpOrDown) (node : Name) (l : L)
      → P l
      → known node ≡ true
      → is_some (ops.is_node which node l).0 ≡ true

-- the elements that pass a test, in their order
unfoldable pub filter : (Name → Bool) → List Name → List Name
filter test [] = []
filter test (n ∷ ns) = let rest = filter test ns in if test n then n ∷ rest else rest

-- What `_get_input_nodes` has where it returns: the library in such a state, every node that the user
-- gave known, and the string of a list, sorted, of the nodes that are listed.
pub record GotNodes {H L W : Type 0} (env : ProgramEnv H L W) (P : L → Type 0) (known : Name → Bool)
    (listed : UpOrDown → Name → Bool) (which : UpOrDown) (buflen : ℕ) (nodes : List Name)
    (text : Name) (t : Statics H L W) : Type 0 where
  pub library : P t.library
  pub all_known : All (λ n. known n ≡ true) nodes
  pub list : H
  pub hosts : env.hostlist.hosts list ≡ filter (listed which) nodes
  pub printed : env.hostlist.ranged_string (env.hostlist.sort list) buflen ≡ some text

module _ {H L W : Type 0} (env : ProgramEnv H L W) where
  pub or_exit-some :
      {A : Type 0} (message : Name) (o : Option A) (s : Statics H L W)
      (Q : A → Statics H L W → Type 0)
      → ((a : A) → o ≡ some a → Q a s)
      → Post Q (λ _. Unit {0}) (or_exit message o s)
  unfolding or_exit err_exit
  or_exit-some message none s Q h = tt
  or_exit-some message (some a) s Q h = h a refl

  pub require-Post :
      (message : Name) (b : Bool) (s : Statics H L W) (Q : Statics H L W → Type 0)
      → Q s
      → Post (λ _. Q) (λ _. Unit {0}) (require message b s)
  unfolding require err_exit
  require-Post message true s Q h = h
  require-Post message false s Q h = tt

  module _ {P : L → Type 0} {known : Name → Bool} {listed : UpOrDown → Name → Bool}
      (answers : Answers env.updown P known listed) where
    -- the answer for a node
    abbrev pub Answered : UpOrDown → Name → Bool → Statics H L W → Type 0
    Answered which node b t = P t.library × (known node ≡ true) × (b ≡ listed which node)

    known_node-Answered :
        (which : UpOrDown) (node : Name) (o : Option Bool) (s : Statics H L W)
        → Post
            (λ b m. P m × (known node ≡ true) × (b ≡ listed which node))
            (λ _. Unit {0})
            (o, s.library)
        → Post (Answered which node) (λ _. Unit {0}) (known_node env which node o s)
    unfolding known_node exit_updown err_exit
    known_node-Answered which node none s h =
        elim (Bool-cases (env.updown.errnum s.library == Err.not_found)) [
          | inl e ↦ rw e tt
          | inr e ↦ rw e tt
        ]
    known_node-Answered which node (some b) s h = h

    pub ask_node-Answered :
        (which : UpOrDown) (node : Name) (s : Statics H L W)
        → P s.library
        → Post (Answered which node) (λ _. Unit {0}) (ask_node env which node s)
    unfolding ask_node in_library
    ask_node-Answered which node s h =
        known_node-Answered which node _ _ (answers.is_node which node s.library h)

    module _ (push : PushHostLaw env) where
      pub add_if-hosts :
          (b : Bool) (hl : H) (node : Name) (s : Statics H L W)
          → P s.library
          → Post
              (λ h t.
                P t.library
                × (env.hostlist.hosts h
                    ≡ (if b then env.hostlist.hosts hl ++ node ∷ [] else env.hostlist.hosts hl)))
              (λ _. Unit {0})
              (add_if env b hl node s)
      unfolding add_if
      add_if-hosts false hl node s h = (h, refl)
      add_if-hosts true hl node s h =
          or_exit-some _ (env.strings.push_host hl node) s _
            (λ hl' e. (h, push.hosts-push_host hl hl' node e))

      -- what the loop has when it is through
      abbrev pub Selected : UpOrDown → List Name → H → H → Statics H L W → Type 0
      Selected which nodes hl h t =
          P t.library
          × All (λ n. known n ≡ true) nodes
          × (env.hostlist.hosts h ≡ env.hostlist.hosts hl ++ filter (listed which) nodes)

      filter-cons :
          (which : UpOrDown) (b : Bool) (node : Name) (rest before now : List Name)
          → b ≡ listed which node
          → now ≡ (if b then before ++ node ∷ [] else before)
          → now ++ filter (listed which) rest ≡ before ++ filter (listed which) (node ∷ rest)
      unfolding filter
      filter-cons which false node rest before now e f = rw (sym e) (rw f refl)
      filter-cons which true node rest before now e f =
          rw (sym e) (rw f (append_assoc before (node ∷ []) (filter (listed which) rest)))

      pub select_nodes-Selected :
          (which : UpOrDown) (nodes : List Name) (hl : H) (s : Statics H L W)
          → P s.library
          → Post (Selected which nodes hl) (λ _. Unit {0}) (select_nodes env which nodes hl s)
      unfolding select_nodes filter
      select_nodes-Selected which [] hl s h = (h, tt, sym (append-nil (env.hostlist.hosts hl)))
      select_nodes-Selected which (node ∷ rest) hl s h =
          Post-then (Answered which node) (Selected which (node ∷ rest) hl)
            (ask_node env which node s) _ (ask_node-Answered which node s h)
            (λ b t a.
              Post-then
                (λ hl' u.
                  P u.library
                  × (env.hostlist.hosts hl'
                      ≡ (if b then env.hostlist.hosts hl ++ node ∷ [] else env.hostlist.hosts hl)))
                (Selected which (node ∷ rest) hl) (add_if env b hl node t)
                (λ hl'. select_nodes env which rest hl') (add_if-hosts b hl node t a.0)
                (λ hl' u k.
                  Post-weaken (Selected which rest hl') (Selected which (node ∷ rest) hl)
                    (λ _. Unit {0}) (select_nodes env which rest hl' u)
                    (λ g v m. (m.0, (a.1, m.1), m.2 ∙ filter-cons which b node rest _ _ a.2 k.1))
                    (select_nodes-Selected which rest hl' u k.0)))

      module _ {IsHost : Name → Type 0} (laws : HostlistLaws env.hostlist IsHost) where
        -- With a library and a hostlist library as documented: where `_get_input_nodes` returns, the
        -- library knows every node that the user gave, and the string is that of a sorted list of
        -- exactly those of them that are up, or down, as it was asked for.
        pub get_input_nodes-GotNodes :
            (which : UpOrDown) (buflen : ℕ) (s : Statics H L W)
            → P s.library
            → Post
                (GotNodes env P known listed which buflen (env.hostlist.hosts s.inputted_nodes))
                (λ _. Unit {0})
                (get_input_nodes env buflen which s)
        unfolding get_input_nodes
        get_input_nodes-GotNodes which buflen s h =
            let nodes = env.hostlist.hosts s.inputted_nodes in
            let G = GotNodes env P known listed which buflen nodes in
            let message = codes "_get_input_nodes: hostlist_iterator_create()" in
            let ready = env.hostlist.iterator_create s.inputted_nodes in
            Post-then (λ hl t. P t.library × (env.hostlist.hosts hl ≡ [])) G
              (or_exit (codes "_get_input_nodes: hostlist_create()") env.hostlist.create s) _
              (or_exit-some _ env.hostlist.create s _ (λ hl e. (h, laws.hosts-create hl e)))
              (λ hl t k.
                Post-then (Selected which nodes hl) G
                  ((require message ready >> select_nodes env which nodes hl) t)
                  (λ hl'.
                    or_exit (codes "_get_input_nodes: hostlist_ranged_string()")
                      (env.hostlist.ranged_string (env.hostlist.sort hl') buflen))
                  (Post-then (λ _ u. P u.library) (Selected which nodes hl)
                    (require message ready t) (λ _. select_nodes env which nodes hl)
                    (require-Post message ready t (λ u. P u.library) k.0)
                    (λ _ u l. select_nodes-Selected which nodes hl u l))
                  (λ hl' u l.
                    or_exit-some _ (env.hostlist.ranged_string (env.hostlist.sort hl') buflen) u G
                      (λ text e. record {
                        library = l.0;
                        all_known = l.1;
                        list = hl';
                        hosts = l.2 ∙ ap (λ x. x ++ filter (listed which) nodes) k.1;
                        printed = e;
                      })))
