-- ===== src/Devel/Discover.antt =====
-- Nodes and up times that a module gives to the library while it loads.
use whatsup.Prelude.{
  ℕ, ◌+◌, ◌≤◌, ◌≡◌, refl, ap, ◌∙◌, inl, inr, Bool, true, false, ◌||◌, Option, some, List, [], ◌∷◌,
  ◌++◌, Name, contains, length, if◌then◌else◌, is_some, arith, Bool-cases, Post, str_eq_refl,
}
use whatsup.External.{HostlistLaws}
use whatsup.Handle.State.{State, LoadState, nodeupdown_magic_num, builtin}
use whatsup.Handle.Checks.{setup_handle_error_check}
use whatsup.Module.Info.{Env}
use whatsup.Module.Default.{default_clusterlist_module_info, default_clusterlist_get_nodename}
use whatsup.Module.Clusterlist.{
  clusterlist_module_is_node_in_cluster, clusterlist_module_get_nodename,
}
use whatsup.Devel.{
  UpOrDown, down_nodes, maxnodenamelen, find_in, list_of, put_list, add_node, push_node,
  nodeupdown_add_down_node, nodeupdown_not_discovered_check,
}

-- A handle in the middle of a load.
pub record InSetup {H T : Type 0} (s : State H T) : Type 0 where
  pub magic : s.handle.magic ≡ nodeupdown_magic_num
  pub load_state : s.handle.load_state ≡ LoadState.setup

module _ {H T : Type 0} where
  pub setup_check-InSetup : (s : State H T) → InSetup s → setup_handle_error_check s ≡ (some tt, s)
  unfolding setup_handle_error_check
  setup_check-InSetup s h = ground (arith, h.magic, h.load_state)

  default_get_nodename :
      (node : Name) (buflen : ℕ) (s : State H T)
      → length node + 1 ≤ buflen
      → default_clusterlist_get_nodename node buflen s ≡ (some node, s)
  unfolding default_clusterlist_get_nodename
  default_get_nodename node buflen s h = ground arith

contains-last : (n : Name) (ns : List Name) → contains n (ns ++ n ∷ []) ≡ true
unfolding contains
contains-last n [] = rw (str_eq_refl n) refl
contains-last n (m ∷ ns) = ground (arith, contains-last n ns)

module _ {H T : Type 0} (env : Env H T) where
  -- The node is in one of the two lists.
  unfoldable pub listed : Name → State H T → Bool
  listed node s =
      is_some (find_in env.hostlist s.handle.up_nodes node)
      || is_some (find_in env.hostlist s.handle.down_nodes node)

  -- What the clusterlist module that is in use answers for a node.
  pub record Answers (node : Name) (member : Bool) (nodename : Name) (s : State H T) : Type 0 where
    pub in_cluster : clusterlist_module_is_node_in_cluster env node s ≡ (some member, s)
    pub get_nodename :
        clusterlist_module_get_nodename env node (maxnodenamelen + 1) s ≡ (some nodename, s)

  -- A node of the cluster goes to the end of the list under the name that the clusterlist module
  -- has for it, and a node of no cluster changes nothing.
  pub add_node-Answers :
      (which : UpOrDown) (node nodename : Name) (member : Bool) (s : State H T) (l l' : H)
      → InSetup s
      → Answers node member nodename s
      → list_of which s.handle ≡ some l
      → env.hostlist.push l nodename ≡ some l'
      → add_node env which (some node) s ≡ (some tt, if member then put_list which l' s else s)
  unfolding add_node push_node
  add_node-Answers which node nodename true s l l' h a eq p =
      rw (setup_check-InSetup s h) (rw a.in_cluster (rw a.get_nodename (rw eq (rw p refl))))
  add_node-Answers which node nodename false s l l' h a eq p =
      rw (setup_check-InSetup s h) (rw a.in_cluster refl)

  pub default-Answers :
      (node : Name) (s : State H T)
      → s.modules.clusterlist_module_info ≡ some builtin
      → length node ≤ maxnodenamelen
      → Answers node true node s
  unfolding clusterlist_module_is_node_in_cluster clusterlist_module_get_nodename
      default_clusterlist_module_info
  default-Answers node s e h = record {
    in_cluster = rw e refl;
    get_nodename = rw e (default_get_nodename node (maxnodenamelen + 1) _ (omega (arith, h)));
  }

  is_some-or_right : (a : Bool) (o : Option ℕ) → is_some o ≡ true → (a || is_some o) ≡ true
  is_some-or_right a o h = ground arith

  -- With a hostlist library as documented, a handle that is set up, a name that fits, the clusterlist of
  -- the library, lists that are there and a push that succeeds, a node is
  -- in one of the lists after `nodeupdown_not_discovered_check`: it was before, and then nothing
  -- has changed, or it is the last of the nodes that are down.
  pub not_discovered_check-listed :
      {IsHost : Name → Type 0} (laws : HostlistLaws env.hostlist IsHost) (node : Name)
      (s : State H T) (l l' : H)
      → IsHost node
      → InSetup s
      → s.modules.clusterlist_module_info ≡ some builtin
      → length node ≤ maxnodenamelen
      → s.handle.down_nodes ≡ some l
      → env.hostlist.push l node ≡ some l'
      → Post
          (λ _ t.
            (listed node t ≡ true) × (t ≡ (if listed node s then s else put_list down_nodes l' s)))
          (λ _. ⊥)
          (nodeupdown_not_discovered_check env (some node) s)
  unfolding nodeupdown_not_discovered_check nodeupdown_add_down_node listed
  not_discovered_check-listed laws node s l l' host h e len eq p =
      let a = default-Answers node s e len in
      let found : is_some (env.hostlist.find l' node) ≡ true =
        laws.find-contains l' node
        ∙ ap (contains node) (laws.hosts-push l l' node host p)
        ∙ contains-last node (env.hostlist.hosts l) in
      elim (Bool-cases (listed node s)) [
        | inl t ↦ rw (setup_check-InSetup s h) (rw t (t, refl))
        | inr f ↦ rw (setup_check-InSetup s h) (
            rw f (
              rw (add_node-Answers down_nodes node node true s l l' h a eq p)
                (is_some-or_right _ _ found, refl)))
      ]
