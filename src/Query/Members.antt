-- ===== src/Query/Members.antt =====
-- Whether a node is up or down, with the clusterlist of the library.
use whatsup.Prelude.{
  ◌+◌, ◌≤◌, ◌≡◌, refl, ap, ◌||◌, Option, none, some, Name, length, contains, if◌then◌else◌, is_some,
  arith, Post, ltb,
}
use whatsup.External.{HostlistLaws}
use whatsup.Handle.Err
use whatsup.Handle.State.{State, LoadState, put_errnum, builtin}
use whatsup.Module.Info.{Env}
use whatsup.Module.Default.{default_clusterlist_module_info}
use whatsup.Module.Clusterlist.{
  clusterlist_module_compare_to_clusterlist, clusterlist_module_get_numnodes,
}
use whatsup.Devel.{UpOrDown, up_nodes, down_nodes, list_of, find_in}
use whatsup.Load.Data.{finish_load}
use whatsup.Query.Nodes.{is_node, is_listed, hosts_of}
use whatsup.Query.Arrays.{Answering, loaded_check-Answering}

module _ {H T : Type 0} (env : Env H T) {IsHost : Name → Type 0}
    (laws : HostlistLaws env.hostlist IsHost) where
  find_in-contains :
      (o : Option H) (node : Name)
      → is_some (find_in env.hostlist o node) ≡ contains node (hosts_of env o)
  unfolding hosts_of contains
  find_in-contains none node = refl
  find_in-contains (some l) node = laws.find-contains l node

  -- With a hostlist library as documented: on a loaded handle without a clusterlist module, `_is_node` tells whether the node is in the
  -- list that is asked for, for every node of one of the two lists, and that the node is not found
  -- for any other.
  pub is_node-contains :
      (which : UpOrDown) (node : Name) (s : State H T)
      → Answering s
      → s.modules.clusterlist_module_found ≡ 0
      → is_node env which (some node) s ≡ (
          if contains node (hosts_of env s.handle.up_nodes)
            || contains node (hosts_of env s.handle.down_nodes)
          then (
            some (contains node (hosts_of env (list_of which s.handle))),
            put_errnum Err.success s,
          )
          else (none, put_errnum Err.not_found s))
  unfolding is_node is_listed
  is_node-contains which node s h e = rw (loaded_check-Answering s h) (
      rw (ap (ltb 0) e) (
        rw (find_in-contains s.handle.up_nodes node) (
          rw (find_in-contains s.handle.down_nodes node)
            (rw (find_in-contains (list_of which s.handle) node) refl))))

  count-list_of :
      (which : UpOrDown) (up down : H) (s : State H T)
      → s.handle.up_nodes ≡ some up
      → s.handle.down_nodes ≡ some down
      → length (hosts_of env (list_of which s.handle))
        ≤ env.hostlist.count up + env.hostlist.count down
  unfolding hosts_of
  count-list_of up_nodes up down s u d = rw u (omega (arith, laws.count-length up))
  count-list_of down_nodes up down s u d = rw d (omega (arith, laws.count-length down))

  -- the state at the end of a load
  abbrev finished : H → H → State H T → State H T
  finished up down s = record s {
    handle = record s.handle {
      errnum = Err.success;
      load_state = LoadState.loaded;
      up_nodes = some (env.hostlist.sort up);
      down_nodes = some (env.hostlist.sort down);
      numnodes =
          env.hostlist.count (env.hostlist.sort up) + env.hostlist.count (env.hostlist.sort down);
    };
  }

  finish_load_lem :
      (s : State H T) (up down : H)
      → s.modules.clusterlist_module_info ≡ some builtin
      → s.handle.up_nodes ≡ some up
      → s.handle.down_nodes ≡ some down
      → finish_load env s ≡ (some tt, finished up down s)
  unfolding finish_load clusterlist_module_compare_to_clusterlist clusterlist_module_get_numnodes
      default_clusterlist_module_info
  finish_load_lem s up down e u d = rw e (rw u (rw d refl))

  -- With a hostlist library as documented, and lists that are there:
  -- the end of a load without a clusterlist module succeeds, and then the handle counts at least as
  -- many nodes as each of its lists has: there is room for them in the arrays that
  -- `nodeupdown_nodelist_create` makes.
  pub finish_load-room :
      (which : UpOrDown) (s : State H T) (up down : H)
      → s.modules.clusterlist_module_info ≡ some builtin
      → s.handle.up_nodes ≡ some up
      → s.handle.down_nodes ≡ some down
      → Post
          (λ _ t.
            (length (hosts_of env (list_of which t.handle)) ≤ t.handle.numnodes)
            × (t.handle.numnodes ≡ env.hostlist.count up + env.hostlist.count down))
          (λ _. ⊥)
          (finish_load env s)
  finish_load-room which s up down e u d =
      let count = env.hostlist.count in
      let sorted : count (env.hostlist.sort up) + count (env.hostlist.sort down)
          ≡ count up + count down =
        omega (arith, laws.sort-count up, laws.sort-count down) in
      rw (finish_load_lem s up down e u d) (
        count-list_of which (env.hostlist.sort up) (env.hostlist.sort down) (finished up down s)
            refl refl,
        sorted,
      )
