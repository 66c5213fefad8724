-- ===== src/Pingd/Index.antt =====
-- The index of the nodes: after `_nodes_setup` it finds each node by the ip string of its address.
use whatsup.Prelude.{
  ℕ, ◌≡◌, refl, sym, ap, ◌∙◌, subst, false, Option, none, some, List, [], ◌∷◌, ◌++◌, Name, length,
  get_elem?, get_elem?-append, get_elem?-append_old, get_elem?-append_last, Name-cases, inl, inr,
  is_some, if-cases, if-intro, All, All-append, map, length-map, Post, Post-then,
}
use mathlib.Core.List.{map-append, append_assoc, append-nil}
use whatsup.External.{HashLaws}
use whatsup.Pingd.Nodes.{
  PingdInfo, Pingd, PingdEnv, insert_index, find_index, inserted, index_node, resolved, add_host,
  add_hosts, with_index, nodes_setup,
}

not_some : {B : Type 0} (o : Option B) → is_some o ≡ false → o ≡ none
not_some none h = refl
not_some (some b) h = cc

abbrev pub destination : {V A : Type 0} → PingdInfo V A → A
destination info = info.destaddr

abbrev pub addresses : {V A : Type 0} → List (PingdInfo V A) → List A
addresses = map destination

module _ {T V A : Type 0} (env : PingdEnv T V A) where
  -- The node at a position has an address with the given ip string.
  abbrev pub HasIp : List A → ℕ → Name → Type 0
  HasIp addresses k ip =
      (address : A) × (get_elem? addresses k ≡ some address) × (env.inet_ntoa address ≡ some ip)

  -- The index leads from an ip string to the only node that has it.
  pub record IsIndexed (addresses : List A) (index : Option T) : Type 0 where
    pub finds : (k : ℕ) (ip : Name) → HasIp addresses k ip → find_index env index ip ≡ some k
    pub found : (k : ℕ) (ip : Name) → find_index env index ip ≡ some k → HasIp addresses k ip

  -- What `_nodes_setup` has built of the hosts that it has seen.
  pub record IsSetUp (hosts : List Name) (s : Pingd T V A) : Type 0 where
    pub indexed : IsIndexed (addresses s.nodes) s.nodes_index
    pub names : map (λ info. info.hostname) s.nodes ≡ hosts
    pub resolves : All (λ info. env.gethostbyname info.hostname ≡ some info.destaddr) s.nodes
    pub unheard : All (λ info. info.last_received ≡ env.zero_timeval) s.nodes

  module _ (laws : HashLaws env.hash) where
    IsIndexed-append :
        (known : List A) (index : T) (index' : T) (address : A) (ip : Name)
        → env.hash.find index ip ≡ none
        → env.hash.insert index ip (length known) ≡ some index'
        → env.inet_ntoa address ≡ some ip
        → IsIndexed known (some index)
        → IsIndexed (known ++ address ∷ []) (some index')
    IsIndexed-append known index index' address ip new ins named h = record {
      finds = λ k ip' (address', at, named'). elim (get_elem?-append known address address' k at) [
        | inl old ↦
            let was : env.hash.find index ip' ≡ some k = h.finds k ip' (address', old, named') in
            laws.find-insert_ne index index' ip ip' (length known) (λ e. cc) ins ∙ was
        | inr last ↦
            let self = laws.find-insert_self index index' ip (length known) ins in
            let same : env.inet_ntoa address ≡ some ip' = ap env.inet_ntoa last.1 ∙ named' in cc
      ];
      found = λ k ip' e. elim (Name-cases ip ip') [
        | inl same ↦
            let self = laws.find-insert_self index index' ip (length known) ins in
            let at : length known ≡ k = cc in
            (
              address,
              subst (λ i. get_elem? (known ++ address ∷ []) i ≡ some address) at
                  (get_elem?-append_last known address),
              named ∙ ap some same,
            )
        | inr other ↦
            let (address', at, named') =
              h.found k ip'
                (sym (laws.find-insert_ne index index' ip ip' (length known) other ins) ∙ e) in
            (address', get_elem?-append_old known address address' k at, named')
      ];
    }

    inserted-IsSetUp :
        (done : List Name) (info : PingdInfo V A) (ip : Name) (index index' : Option T)
        (s : Pingd T V A)
        → s.nodes_index ≡ index
        → insert_index env index ip (length s.nodes) ≡ index'
        → is_some (find_index env index ip) ≡ false
        → env.inet_ntoa info.destaddr ≡ some ip
        → env.gethostbyname info.hostname ≡ some info.destaddr
        → info.last_received ≡ env.zero_timeval
        → IsSetUp done s
        → Post
            (λ _. IsSetUp (done ++ info.hostname ∷ []))
            (λ _. Unit {0})
            (inserted env info index' s)
    unfolding inserted
    inserted-IsSetUp done info ip index none s at ins new named resolves unheard h = tt
    inserted-IsSetUp done info ip none (some index') s at ins new named resolves unheard h = cc
    inserted-IsSetUp done info ip (some index) (some index') s at ins new named resolves unheard h =
        record {
          indexed =
              subst (λ l. IsIndexed l (some index'))
                (sym (map-append destination s.nodes (info ∷ [])))
                (IsIndexed-append (addresses s.nodes) index index' info.destaddr ip
                  (not_some (env.hash.find index ip) new)
                  (ap (env.hash.insert index ip) (length-map destination s.nodes) ∙ ins) named
                  (subst (IsIndexed (addresses s.nodes)) at h.indexed));
          names =
              map-append (λ (i : PingdInfo V A). i.hostname) s.nodes (info ∷ [])
              ∙ ap (λ l. l ++ info.hostname ∷ []) h.names;
          resolves =
              All-append (λ (i : PingdInfo V A). env.gethostbyname i.hostname ≡ some i.destaddr)
                s.nodes info h.resolves resolves;
          unheard =
              All-append (λ (i : PingdInfo V A). i.last_received ≡ env.zero_timeval) s.nodes info
                h.unheard unheard;
        }

    index_node-IsSetUp :
        (done : List Name) (info : PingdInfo V A) (ip : Option Name) (s : Pingd T V A)
        → env.inet_ntoa info.destaddr ≡ ip
        → env.gethostbyname info.hostname ≡ some info.destaddr
        → info.last_received ≡ env.zero_timeval
        → IsSetUp done s
        → Post
            (λ _. IsSetUp (done ++ info.hostname ∷ []))
            (λ _. Unit {0})
            (index_node env info ip s)
    unfolding index_node
    index_node-IsSetUp done info none s named resolves unheard h = tt
    index_node-IsSetUp done info (some ip) s named resolves unheard h =
        if-cases (Post (λ _. IsSetUp (done ++ info.hostname ∷ [])) (λ _. Unit {0}))
          (is_some (find_index env s.nodes_index ip)) _ _ (λ _. tt)
          λ new.
            inserted-IsSetUp done info ip s.nodes_index
              (insert_index env s.nodes_index ip (length s.nodes)) s refl refl new named resolves
              unheard h

    resolved-IsSetUp :
        (done : List Name) (host : Name) (address : Option A) (s : Pingd T V A)
        → env.gethostbyname host ≡ address
        → IsSetUp done s
        → Post (λ _. IsSetUp (done ++ host ∷ [])) (λ _. Unit {0}) (resolved env host address s)
    unfolding resolved
    resolved-IsSetUp done host none s e h = tt
    resolved-IsSetUp done host (some h_addr) s e h =
        if-intro (Post (λ _. IsSetUp (done ++ host ∷ [])) (λ _. Unit {0})) env.list_append _ _
          (index_node-IsSetUp done _ (env.inet_ntoa h_addr) s refl e refl h) tt

    add_host-IsSetUp :
        (done : List Name) (host : Name) (s : Pingd T V A)
        → IsSetUp done s
        → Post (λ _. IsSetUp (done ++ host ∷ [])) (λ _. Unit {0}) (add_host env host s)
    unfolding add_host
    add_host-IsSetUp done host s h =
        if-intro (Post (λ _. IsSetUp (done ++ host ∷ [])) (λ _. Unit {0})) env.malloc _ _
          (resolved-IsSetUp done host (env.gethostbyname host) s refl h) tt

    add_hosts-IsSetUp :
        (hosts done : List Name) (s : Pingd T V A)
        → IsSetUp done s
        → Post (λ _. IsSetUp (done ++ hosts)) (λ _. Unit {0}) (add_hosts env hosts s)
    unfolding add_hosts
    add_hosts-IsSetUp [] done s h = subst (λ l. IsSetUp l s) (sym (append-nil done)) h
    add_hosts-IsSetUp (host ∷ hosts) done s h =
        Post-then (λ _. IsSetUp (done ++ host ∷ [])) (λ _. IsSetUp (done ++ host ∷ hosts))
          (add_host env host s) (λ _. add_hosts env hosts) (add_host-IsSetUp done host s h)
          λ _ s' k.
            subst (λ l. Post (λ _. IsSetUp l) (λ _. Unit {0}) (add_hosts env hosts s'))
              (append_assoc done (host ∷ []) hosts)
              (add_hosts-IsSetUp hosts (done ++ host ∷ []) s' k)

    with_index-IsSetUp :
        (hosts : List Name) (index : Option T) (s : Pingd T V A)
        → env.hash.create ≡ index
        → Post (λ _. IsSetUp hosts) (λ _. Unit {0}) (with_index env hosts index s)
    unfolding with_index
    with_index-IsSetUp hosts none s e = tt
    with_index-IsSetUp hosts (some index) s e =
        if-intro (Post (λ _. IsSetUp hosts) (λ _. Unit {0})) env.iterator_create _ _
          (add_hosts-IsSetUp hosts [] _ (record {
            indexed = record {
              finds = λ k ip (info, at, named). cc;
              found = λ k ip at. let empty = laws.find-create index ip e in cc;
            };
            names = refl;
            resolves = tt;
            unheard = tt;
          }))
          tt

  -- With a hash library as documented, where `_nodes_setup` does not end the process the nodes have
  -- the configured host names in order, nothing was heard of any of them, and the index leads from
  -- each ip string to the node with that address and to no other.
  pub nodes_setup-IsSetUp :
      HashLaws env.hash
      → (hosts : List Name) (s : Pingd T V A)
      → Post (λ _. IsSetUp hosts) (λ _. Unit {0}) (nodes_setup env hosts s)
  unfolding nodes_setup
  nodes_setup-IsSetUp laws hosts s =
      if-intro (Post (λ _. IsSetUp hosts) (λ _. Unit {0})) env.list_create _ _
        (with_index-IsSetUp laws hosts env.hash.create s refl) tt
