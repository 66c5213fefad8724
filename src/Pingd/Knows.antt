-- ===== src/Pingd/Knows.antt =====
-- What the daemon knows of a node, over the receipt of a packet and over the pings that it sends.
use whatsup.Prelude.{
  ℕ, zero, suc, ◌≡◌, ◌≢◌, refl, sym, ap, ◌∙◌, subst, Option, none, some, List, [], ◌∷◌, Name,
  get_elem?, set, get_elem?-map, some_injective, get_elem?-set_self, get_elem?-set_ne, str_eq,
  str_eq_refl, str_eq-ne, Name-cases, inl, inr, if-intro, Post, Post-any, if◌then◌else◌,
}
use whatsup.Pingd.Ping.{icmp_ping_build}
use whatsup.Pingd.Nodes.{
  PingdInfo, Pingd, PingdEnv, find_index, ping_nodes, pingd_send_pings, set_received, found_node,
  received_from, receive_ping,
}
use whatsup.Pingd.Index.{HasIp, IsIndexed, addresses, destination}

-- The time that a node with an ip string was last heard from, by what was received.
abbrev pub heard_from : {V : Type 0} → Name → Option Name → Option V → V → V
heard_from ip none received last = last
heard_from ip (some from) none last = last
heard_from ip (some from) (some now) last = if str_eq from ip then now else last

heard_from-other :
    {V : Type 0} (ip from : Name) (received : Option V) (last : V)
    → from ≢ ip
    → heard_from ip (some from) received last ≡ last
heard_from-other ip from none last h = refl
heard_from-other ip from (some now) last h = rw (str_eq-ne from ip h) refl

module _ {T V A : Type 0} (env : PingdEnv T V A) where
  abbrev pub sender : Option A → Option Name
  sender none = none
  sender (some from) = env.inet_ntoa from

  -- The index is right, and the node at a position has a name, an address and a time.
  pub record Knows (k : ℕ) (hostname : Name) (address : A) (last : V) (nodes : List (PingdInfo V A))
      (index : Option T) : Type 0 where
    pub indexed : IsIndexed env (addresses nodes) index
    pub info : PingdInfo V A
    pub at : get_elem? nodes k ≡ some info
    pub name : info.hostname ≡ hostname
    pub destination : info.destaddr ≡ address
    pub time : info.last_received ≡ last

  abbrev pub KnownIn : ℕ → Name → A → V → Pingd T V A → Type 0
  KnownIn k hostname address last s = Knows k hostname address last s.nodes s.nodes_index

  module _ (k : ℕ) (hostname ip : Name) (address : A)
      (named : env.inet_ntoa address ≡ some ip) where
    set-addresses :
        (nodes : List (PingdInfo V A)) (i : ℕ) (info : PingdInfo V A) (now : V)
        → get_elem? nodes i ≡ some info
        → addresses (set nodes i (record info { last_received = now })) ≡ addresses nodes
    set-addresses [] i info now at = refl
    set-addresses (node ∷ nodes) zero info now at =
        let same : node ≡ info = cc in
        ap (λ (i : PingdInfo V A). i.destaddr ∷ addresses nodes) (sym same)
    set-addresses (node ∷ nodes) (suc i) info now at =
        ap (λ l. node.destaddr ∷ l) (set-addresses nodes i info now at)

    -- The index finds the node at the position by its ip string, and by no other.
    owner :
        (s : Pingd T V A) (last : V)
        → KnownIn k hostname address last s
        → HasIp env (addresses s.nodes) k ip
    owner s last h = (
      h.info.destaddr,
      get_elem?-map destination s.nodes k h.info h.at,
      ap env.inet_ntoa h.destination ∙ named,
    )

    finds_it :
        (s : Pingd T V A) (last : V)
        → KnownIn k hostname address last s
        → find_index env s.nodes_index ip ≡ some k
    finds_it s last h = h.indexed.finds k ip (owner s last h)

    elsewhere :
        (i : ℕ) (from : Name) (s : Pingd T V A) (last : V)
        → find_index env s.nodes_index from ≡ some i
        → from ≢ ip
        → KnownIn k hostname address last s
        → i ≢ k
    elsewhere i from s last found other h same =
        let mine : HasIp env (addresses s.nodes) k ip = owner s last h in
        let theirs : HasIp env (addresses s.nodes) k from =
          h.indexed.found k from (found ∙ ap some same) in
        let address_same : mine.0 ≡ theirs.0 = some_injective (sym mine.1 ∙ theirs.1) in
        other (some_injective (sym theirs.2 ∙ sym (ap env.inet_ntoa address_same) ∙ mine.2))

    -- The node of the sender is the one at the position, if the ip string is its own.
    set_received-Knows :
        (i : ℕ) (info : Option (PingdInfo V A)) (received : Option V) (from : Name)
        (s : Pingd T V A) (last : V)
        → get_elem? s.nodes i ≡ info
        → find_index env s.nodes_index from ≡ some i
        → KnownIn k hostname address last s
        → Post
            (λ _. KnownIn k hostname address (heard_from ip (some from) received last))
            (λ _. Unit {0})
            (set_received env i info received s)
    unfolding set_received
    set_received-Knows i none received from s last at found h = tt
    set_received-Knows i (some info) none from s last at found h = tt
    set_received-Knows i (some info) (some now) from s last at found h =
        let mine = finds_it s last h in
        elim (Name-cases from ip) [
          | inl same ↦
              let here : i ≡ k = cc in
              let it : info ≡ h.info = cc in
              record {
                indexed =
                    subst (λ l. IsIndexed env l s.nodes_index)
                      (sym (set-addresses s.nodes i info now at)) h.indexed;
                info = record info { last_received = now };
                at =
                    subst
                      (λ j.
                        get_elem? (set s.nodes i (record info { last_received = now })) j
                        ≡ some (record info { last_received = now }))
                      here (get_elem?-set_self s.nodes i info _ at);
                name = ap (λ (n : PingdInfo V A). n.hostname) it ∙ h.name;
                destination = ap (λ (n : PingdInfo V A). n.destaddr) it ∙ h.destination;
                time = rw (ap (str_eq from) (sym same) ∙ str_eq_refl from) refl;
              }
          | inr other ↦ record {
            indexed =
                subst (λ l. IsIndexed env l s.nodes_index)
                  (sym (set-addresses s.nodes i info now at)) h.indexed;
            info = h.info;
            at = get_elem?-set_ne s.nodes i k _ (elsewhere i from s last found other h) ∙ h.at;
            name = h.name;
            destination = h.destination;
            time = rw (str_eq-ne from ip other) h.time;
          }
        ]

    found_node-Knows :
        (found : Option ℕ) (received : Option V) (from : Name) (s : Pingd T V A) (last : V)
        → find_index env s.nodes_index from ≡ found
        → KnownIn k hostname address last s
        → Post
            (λ _. KnownIn k hostname address (heard_from ip (some from) received last))
            (λ _. Unit {0})
            (found_node env found received s)
    unfolding found_node
    found_node-Knows none received from s last found h =
        let mine = finds_it s last h in
        record {
          indexed = h.indexed;
          info = h.info;
          at = h.at;
          name = h.name;
          destination = h.destination;
          time = h.time ∙ sym (heard_from-other ip from received last λ e. cc);
        }
    found_node-Knows (some i) received from s last found h =
        set_received-Knows i (get_elem? s.nodes i) received from s last refl found h

    received_from-Knows :
        (from : Option Name) (received : Option V) (s : Pingd T V A) (last : V)
        → KnownIn k hostname address last s
        → Post
            (λ _. KnownIn k hostname address (heard_from ip from received last))
            (λ _. Unit {0})
            (received_from env from received s)
    unfolding received_from
    received_from-Knows none received s last h = tt
    received_from-Knows (some from) received s last h =
        found_node-Knows (find_index env s.nodes_index from) received from s last refl h

    pub receive_ping-Knows :
        (from : Option A) (received : Option V) (s : Pingd T V A) (last : V)
        → KnownIn k hostname address last s
        → Post
            (λ _. KnownIn k hostname address (heard_from ip (sender from) received last))
            (λ _. Unit {0})
            (receive_ping env from received s)
    unfolding receive_ping
    receive_ping-Knows none received s last h = tt
    receive_ping-Knows (some from) received s last h =
        received_from-Knows (env.inet_ntoa from) received s last h

    -- The pings change the sequence numbers only.
    ping_nodes-addresses :
        (nodes : List (PingdInfo V A)) → addresses (ping_nodes env nodes).1.0 ≡ addresses nodes
    unfolding ping_nodes
    ping_nodes-addresses [] = refl
    ping_nodes-addresses (info ∷ infos) =
        if-intro
          (λ (r : Option (Unit {0}) × (List (PingdInfo V A) × List (A × Name))).
            addresses r.1.0 ≡ info.destaddr ∷ addresses infos)
          (env.sendto info.destaddr (icmp_ping_build env.words_bigendian info.sequence_number).0) _
          _ (ap (λ l. info.destaddr ∷ l) (ping_nodes-addresses infos)) refl

    IsPinged : PingdInfo V A → List (PingdInfo V A) → ℕ → Type 0
    IsPinged info nodes j =
        (n : ℕ) × (get_elem? nodes j ≡ some (record info { sequence_number = n }))

    IsPinged-cons :
        (node info : PingdInfo V A) (nodes rest : List (PingdInfo V A)) (j n : ℕ)
        → get_elem? (node ∷ nodes) j ≡ some info
        → ((i : ℕ) → get_elem? nodes i ≡ some info → IsPinged info rest i)
        → IsPinged info (record node { sequence_number = n } ∷ rest) j
    unfolding IsPinged
    IsPinged-cons node info nodes rest zero n at h =
        (n, ap (λ (i : PingdInfo V A). some (record i { sequence_number = n })) (some_injective at))
    IsPinged-cons node info nodes rest (suc j) n at h = h j at

    ping_nodes-IsPinged :
        (nodes : List (PingdInfo V A)) (j : ℕ) (info : PingdInfo V A)
        → get_elem? nodes j ≡ some info
        → IsPinged info (ping_nodes env nodes).1.0 j
    unfolding ping_nodes IsPinged
    ping_nodes-IsPinged [] j info at = cc
    ping_nodes-IsPinged (node ∷ nodes) j info at =
        if-intro
          (λ (r : Option (Unit {0}) × (List (PingdInfo V A) × List (A × Name))).
            IsPinged info r.1.0 j)
          (env.sendto node.destaddr (icmp_ping_build env.words_bigendian node.sequence_number).0) _
          _
          (IsPinged-cons node info nodes (ping_nodes env nodes).1.0 j _ at
            λ i. ping_nodes-IsPinged nodes i info)
          (IsPinged-cons node info nodes nodes j _ at λ i at'. (info.sequence_number, at'))

    pub pingd_send_pings-Knows :
        (s : Pingd T V A) (last : V)
        → KnownIn k hostname address last s
        → Post (λ _. KnownIn k hostname address last) (λ _. Unit {0}) (pingd_send_pings env s)
    unfolding pingd_send_pings IsPinged
    pingd_send_pings-Knows s last h =
        if-intro (Post (λ _. KnownIn k hostname address last) (λ _. Unit {0})) env.iterator_create _
          _
          (Post-any (KnownIn k hostname address last) _ _ (
            let (n, at) = ping_nodes-IsPinged s.nodes k h.info h.at in
            record {
              indexed =
                  subst (λ l. IsIndexed env l s.nodes_index) (sym (ping_nodes-addresses s.nodes))
                    h.indexed;
              info = record h.info { sequence_number = n };
              at = at;
              name = h.name;
              destination = h.destination;
              time = h.time;
            }))
          tt
