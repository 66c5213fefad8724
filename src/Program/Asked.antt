-- ===== src/Program/Asked.antt =====
-- The nodes that the user gave are found: `_get_input_nodes` of src/whatsup/whatsup.c for nodes that
-- the library knows.
use whatsup.Prelude.{
  ℕ, ◌≡◌, refl, Bool, true, false, Option, none, some, List, [], ◌∷◌, ◌++◌, ap, ◌∙◌, Name, is_some,
  All, codes, ◌>>◌, Post-then, continue-some,
}
use whatsup.External.{HostlistLaws}
use whatsup.Devel.{UpOrDown}
use whatsup.Program.State.{Statics, ProgramEnv, in_library}
use whatsup.Program.Nodes.{
  or_exit, require, known_node, ask_node, add_if, select_nodes, get_input_nodes,
}
use whatsup.Program.Selected.{
  or_exit-some, require-Post, PushHostLaw, Answers, Answered, filter, ask_node-Answered,
  add_if-hosts, Selected, select_nodes-Selected,
}

-- There is memory for lists, their iterators and the nodes in them.
pub record HasLists {H L W : Type 0} (env : ProgramEnv H L W) : Type 0 where
  pub create : is_some env.hostlist.create ≡ true
  pub iterator_create : (h : H) → env.hostlist.iterator_create h ≡ true
  pub push_host : (h : H) (n : Name) → is_some (env.strings.push_host h n) ≡ true

module _ {H L W : Type 0} where
  or_exit-there :
      {A : Type 0} (message : Name) (o : Option A) (s : Statics H L W)
      → is_some o ≡ true
      → is_some (or_exit message o s).0 ≡ true
  unfolding or_exit
  or_exit-there message none s h = cc
  or_exit-there message (some a) s h = refl

  require-there :
      (message : Name) (b : Bool) (s : Statics H L W)
      → b ≡ true
      → is_some (require message b s).0 ≡ true
  unfolding require
  require-there message true s h = refl
  require-there message false s h = cc

  known_node-there :
      (env : ProgramEnv H L W) (which : UpOrDown) (node : Name) (o : Option Bool)
      (s : Statics H L W)
      → is_some o ≡ true
      → is_some (known_node env which node o s).0 ≡ true
  unfolding known_node
  known_node-there env which node none s h = cc
  known_node-there env which node (some b) s h = refl

module _ {H L W : Type 0} (env : ProgramEnv H L W) (ok : HasLists env) {P : L → Type 0}
    {known : Name → Bool} {listed : UpOrDown → Name → Bool}
    (answers : Answers env.updown P known listed) (push : PushHostLaw env) where
  ask_node-there :
      (which : UpOrDown) (node : Name) (s : Statics H L W)
      → P s.library
      → known node ≡ true
      → is_some (ask_node env which node s).0 ≡ true
  unfolding ask_node in_library
  ask_node-there which node s h k =
      known_node-there env which node _ _ (answers.is_node-known which node s.library h k)

  add_if-there :
      (b : Bool) (hl : H) (node : Name) (s : Statics H L W)
      → is_some (add_if env b hl node s).0 ≡ true
  unfolding add_if
  add_if-there false hl node s = refl
  add_if-there true hl node s = or_exit-there _ _ s (ok.push_host hl node)

  select_nodes-there :
      (which : UpOrDown) (nodes : List Name) (hl : H) (s : Statics H L W)
      → P s.library
      → All (λ n. known n ≡ true) nodes
      → is_some (select_nodes env which nodes hl s).0 ≡ true
  unfolding select_nodes
  select_nodes-there which [] hl s h k = refl
  select_nodes-there which (node ∷ rest) hl s h k =
      continue-some (Answered env answers which node) (ask_node env which node s) _
        (ask_node-there which node s h k.0) (ask_node-Answered env answers which node s h)
        (λ b t a.
          continue-some _ (add_if env b hl node t) (λ hl'. select_nodes env which rest hl')
            (add_if-there b hl node t) (add_if-hosts env answers push b hl node t a.0)
            (λ hl' u l. select_nodes-there which rest hl' u l.0 k.1))

  module _ {IsHost : Name → Type 0} (laws : HostlistLaws env.hostlist IsHost) where
    -- With libraries as documented and memory for the lists: `_get_input_nodes` returns if the library
    -- knows every node that the user gave, and the sorted list of exactly those of them that are up,
    -- or down, as it was asked for, has a string that fits into the buffer.
    pub get_input_nodes-some :
        (which : UpOrDown) (buflen : ℕ) (s : Statics H L W)
        → P s.library
        → All (λ n. known n ≡ true) (env.hostlist.hosts s.inputted_nodes)
        → ((hl : H)
            → env.hostlist.hosts hl ≡ filter (listed which) (env.hostlist.hosts s.inputted_nodes)
            → is_some (env.hostlist.ranged_string (env.hostlist.sort hl) buflen) ≡ true)
        → is_some (get_input_nodes env buflen which s).0 ≡ true
    unfolding get_input_nodes
    get_input_nodes-some which buflen s h k fits =
        let nodes = env.hostlist.hosts s.inputted_nodes in
        let made = codes "_get_input_nodes: hostlist_create()" in
        let message = codes "_get_input_nodes: hostlist_iterator_create()" in
        let ready = env.hostlist.iterator_create s.inputted_nodes in
        continue-some (λ hl t. P t.library × (env.hostlist.hosts hl ≡ []))
          (or_exit made env.hostlist.create s) _
          (or_exit-there made env.hostlist.create s ok.create)
          (or_exit-some env made env.hostlist.create s
            (λ hl t. P t.library × (env.hostlist.hosts hl ≡ []))
            (λ hl e. (h, laws.hosts-create hl e)))
          (λ hl t p.
            continue-some (Selected env answers push which nodes hl)
              ((require message ready >> select_nodes env which nodes hl) t) _
              (continue-some (λ _ u. P u.library) (require message ready t)
                (λ _. select_nodes env which nodes hl)
                (require-there message ready t (ok.iterator_create s.inputted_nodes))
                (require-Post env message ready t (λ u. P u.library) p.0)
                (λ _ u q. select_nodes-there which nodes hl u q k))
              (Post-then (λ _ u. P u.library) (Selected env answers push which nodes hl)
                (require message ready t) (λ _. select_nodes env which nodes hl)
                (require-Post env message ready t (λ u. P u.library) p.0)
                (λ _ u q. select_nodes-Selected env answers push which nodes hl u q))
              (λ hl' u q.
                or_exit-there _ _ u
                  (fits hl' (q.2 ∙ ap (λ x. x ++ filter (listed which) nodes) p.1))))
