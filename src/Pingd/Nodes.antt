-- ===== src/Pingd/Nodes.antt =====
-- The nodes of the daemon: `_nodes_setup`, `_pingd_send_pings` and `_receive_ping` of
-- src/pingd/pingd_loop.c. ERR_EXIT ends the process, and is the error of an action. The pointers to
-- the nodes are their positions in the list `nodes`. `T` is a `hash_t` of such pointers by ip
-- strings, `V` a `struct timeval` and `A` a `struct in_addr`.
use whatsup.Prelude.{
  ℕ, ℤ, Bool, Option, none, some, List, [], ◌∷◌, ◌++◌, Name, length, get_elem?, set, if◌then◌else◌,
  is_some, Exec, ◌>>◌,
}
use whatsup.External.{HashOps}
use whatsup.Pingd.Ping.{icmp_ping_build}

-- `struct pingd_info`
pub record PingdInfo (V A : Type 0) : Type 0 where
  pub hostname : Name
  pub destaddr : A
  pub sequence_number : ℕ
  pub last_received : V

-- the statics of pingd_loop.c but the descriptors, with what the process did: the packets that it
-- sent, the timeouts that it waited with, and the lines of each answer to a client
pub record Pingd (T V A : Type 0) : Type 0 where
  pub next_send : V
  pub nodes : List (PingdInfo V A)
  pub nodes_index : Option T
  pub sent : List (A × Name)
  pub timeouts : List ℤ
  pub served : List (List Name)

-- the libraries: a `malloc`, `strdup` or `list_append` that fails is a `false`
pub record PingdEnv (T V A : Type 0) : Type 0 where
  pub words_bigendian : Bool
  pub hash : HashOps T
  pub list_create : Bool
  pub list_append : Bool
  pub malloc : Bool
  pub iterator_create : Bool
  pub gethostbyname : Name → Option A
  pub inet_ntoa : A → Option Name
  pub sendto : A → Name → Bool
  -- `memset` to 0
  pub zero_timeval : V

module _ {T V A : Type 0} (env : PingdEnv T V A) where
  abbrev put_node : PingdInfo V A → T → Pingd T V A → Pingd T V A
  put_node info index s = record s { nodes = s.nodes ++ info ∷ []; nodes_index = some index }

  abbrev pub insert_index : Option T → Name → ℕ → Option T
  insert_index none ip info = none
  insert_index (some index) ip info = env.hash.insert index ip info

  abbrev pub find_index : Option T → Name → Option ℕ
  find_index none ip = none
  find_index (some index) ip = env.hash.find index ip

  unfoldable pub inserted : PingdInfo V A → Option T → Exec (Pingd T V A) (Unit {0})
  inserted info none s = (none, s)
  inserted info (some index) s = (some tt, put_node info index s)

  -- a node whose address has an ip string
  unfoldable pub index_node : PingdInfo V A → Option Name → Exec (Pingd T V A) (Unit {0})
  unfolding inserted
  index_node info none s = (none, s)
  index_node info (some ip) s =
      if is_some (find_index s.nodes_index ip)
      then (none, s)
      else inserted info (insert_index s.nodes_index ip (length s.nodes)) s

  unfoldable pub resolved : Name → Option A → Exec (Pingd T V A) (Unit {0})
  unfolding index_node
  resolved host none s = (none, s)
  resolved host (some h_addr) s =
      let info : PingdInfo V A = record {
        hostname = host;
        destaddr = h_addr;
        sequence_number = 0;
        last_received = env.zero_timeval;
      } in
      if env.list_append then index_node info (env.inet_ntoa h_addr) s else (none, s)

  -- a round of the loop
  unfoldable pub add_host : Name → Exec (Pingd T V A) (Unit {0})
  unfolding resolved
  add_host host s = if env.malloc then resolved host (env.gethostbyname host) s else (none, s)

  unfoldable pub add_hosts : List Name → Exec (Pingd T V A) (Unit {0})
  unfolding add_host
  add_hosts [] s = (some tt, s)
  add_hosts (host ∷ hosts) s = (add_host host >> add_hosts hosts) s

  unfoldable pub with_index : List Name → Option T → Exec (Pingd T V A) (Unit {0})
  unfolding add_hosts
  with_index hosts none s = (none, s)
  with_index hosts (some index) s =
      let started : Pingd T V A = record s { nodes = []; nodes_index = some index } in
      if env.iterator_create then add_hosts hosts started else (none, s)

  -- `_nodes_setup`, with the hosts of `conf.hosts`
  unfoldable pub nodes_setup : List Name → Exec (Pingd T V A) (Unit {0})
  unfolding with_index
  nodes_setup hosts s = if env.list_create then with_index hosts env.hash.create s else (none, s)

  -- the loop of `_pingd_send_pings`: the nodes after it and the packets that it sent
  unfoldable pub ping_nodes :
      List (PingdInfo V A) → Option (Unit {0}) × (List (PingdInfo V A) × List (A × Name))
  ping_nodes [] = (some tt, ([], []))
  ping_nodes (info ∷ infos) =
      let rest = ping_nodes infos in
      let built = icmp_ping_build env.words_bigendian info.sequence_number in
      let info' = record info { sequence_number = built.1 } in
      if env.sendto info.destaddr built.0
      then (rest.0, (info' ∷ rest.1.0, (info.destaddr, built.0) ∷ rest.1.1))
      else (none, (info' ∷ infos, []))

  unfoldable pub pingd_send_pings : Exec (Pingd T V A) (Unit {0})
  unfolding ping_nodes
  pingd_send_pings s =
      let r = ping_nodes s.nodes in
      if env.iterator_create
      then (r.0, record s { nodes = r.1.0; sent = s.sent ++ r.1.1 })
      else (none, s)

  -- `gettimeofday` into the node
  unfoldable pub set_received :
      ℕ → Option (PingdInfo V A) → Option V → Exec (Pingd T V A) (Unit {0})
  set_received i none now s = (none, s)
  set_received i (some info) none s = (none, s)
  set_received i (some info) (some now) s =
      (some tt, record s { nodes = set s.nodes i (record info { last_received = now }) })

  unfoldable pub found_node : Option ℕ → Option V → Exec (Pingd T V A) (Unit {0})
  unfolding set_received
  found_node none now s = (some tt, s)
  found_node (some i) now s = set_received i (get_elem? s.nodes i) now s

  unfoldable pub received_from : Option Name → Option V → Exec (Pingd T V A) (Unit {0})
  unfolding found_node
  received_from none now s = (none, s)
  received_from (some ip) now s = found_node (find_index s.nodes_index ip) now s

  -- `_receive_ping`, with the sender that `recvfrom` tells and the time of `gettimeofday`
  unfoldable pub receive_ping : Option A → Option V → Exec (Pingd T V A) (Unit {0})
  unfolding received_from
  receive_ping none now s = (none, s)
  receive_ping (some from) now s = received_from (env.inet_ntoa from) now s
