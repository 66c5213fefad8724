-- ===== src/Program/Library.antt =====
-- libnodeupdown as the program whatsup calls it: the functions of src/libnodeupdown/nodeupdown.c.
use whatsup.Prelude.{
  ℕ, ◌≡◌, refl, sym, ap, ◌∙◌, subst, Bool, true, ◌||◌, inl, inr, Option, none, some, Name, contains,
  if◌then◌else◌, Bool-cases, is_some, Exec, Post,
}
use whatsup.External.{HostlistLaws}
use whatsup.Handle.Err
use whatsup.Handle.State.{State, Handle, put_errnum}
use whatsup.Handle.Checks.{nodeupdown_errnum}
use whatsup.Module.Info.{Env}
use whatsup.Devel.{UpOrDown, up_nodes, down_nodes, list_of}
use whatsup.Load.Data.{nodeupdown_handle_create, nodeupdown_load_data, nodeupdown_handle_destroy}
use whatsup.Query.Nodes.{get_nodes_string, is_node, nodeupdown_last_up_time, hosts_of}
use whatsup.Query.Arrays.{Answering, Answering-put_errnum}
use whatsup.Query.Message.{nodeupdown_errormsg}
use whatsup.Query.Members.{is_node-contains}
use whatsup.Program.State.{UpdownOps}
use whatsup.Program.Modules.{option_string}
use whatsup.Program.Selected.{Answers}

module _ {H T : Type 0} where
  unfoldable pub created_handle : Option (Handle H T) → Exec (State H T) (Unit {0})
  created_handle none s = (none, s)
  created_handle (some handle) s = (some tt, record s { handle = handle })

  -- the library on a state of its own, with the memory that `malloc` gives to the next handle
  unfoldable pub library_ops : Env H T → Handle H T → UpdownOps (State H T)
  unfolding nodeupdown_handle_create created_handle nodeupdown_load_data nodeupdown_handle_destroy
      get_nodes_string is_node nodeupdown_last_up_time nodeupdown_errnum nodeupdown_errormsg
  library_ops env memory = record {
    handle_create = created_handle (nodeupdown_handle_create env.malloc memory);
    load_data = nodeupdown_load_data env;
    errnum = λ s. nodeupdown_errnum (some s.handle);
    errormsg = λ s. option_string (nodeupdown_errormsg (some s.handle));
    is_node = λ which node. is_node env which (some node);
    nodes_string = λ which buflen. get_nodes_string env true buflen which;
    last_up_time = λ node. nodeupdown_last_up_time env (some node) true;
    handle_destroy = nodeupdown_handle_destroy env;
  }

  module _ (env : Env H T) where
    -- A loaded handle with these lists, and no clusterlist module.
    pub record Holding (up down : Option H) (s : State H T) : Type 0 where
      pub answering : Answering s
      pub no_module : s.modules.clusterlist_module_found ≡ 0
      pub up_list : s.handle.up_nodes ≡ up
      pub down_list : s.handle.down_nodes ≡ down

    -- the list with that name
    abbrev pub held_list : Option H → Option H → UpOrDown → Option H
    held_list up down up_nodes = up
    held_list up down down_nodes = down

    abbrev pub is_known : Option H → Option H → Name → Bool
    is_known up down node = contains node (hosts_of env up) || contains node (hosts_of env down)

    abbrev pub is_held : Option H → Option H → UpOrDown → Name → Bool
    is_held up down which node = contains node (hosts_of env (held_list up down which))

    list_of-Holding :
        (up down : Option H) (which : UpOrDown) (s : State H T)
        → Holding up down s
        → list_of which s.handle ≡ held_list up down which
    list_of-Holding up down up_nodes s h = h.up_list
    list_of-Holding up down down_nodes s h = h.down_list

    Holding-put_errnum :
        (up down : Option H) (e : ℕ) (s : State H T)
        → Holding up down s
        → Holding up down (put_errnum e s)
    Holding-put_errnum up down e s h = record {
      answering = Answering-put_errnum e s h.answering;
      no_module = h.no_module;
      up_list = h.up_list;
      down_list = h.down_list;
    }

    -- what `_is_node` returns, from the two lists and the one that is asked for
    node_outcome : Name → State H T → Option H → Option H → Option H → Option Bool × State H T
    node_outcome node s up down list =
        if is_known up down node
        then (some (contains node (hosts_of env list)), put_errnum Err.success s)
        else (none, put_errnum Err.not_found s)

    module _ {IsHost : Name → Type 0} (laws : HostlistLaws env.hostlist IsHost) where
      is_node-outcome :
          (up down : Option H) (which : UpOrDown) (node : Name) (s : State H T)
          → Holding up down s
          → is_node env which (some node) s ≡ node_outcome node s up down (held_list up down which)
      unfolding node_outcome
      is_node-outcome up down which node s h =
          is_node-contains env laws which node s h.answering h.no_module
          ∙ ap
              (λ (u : Option H). node_outcome node s u s.handle.down_nodes (list_of which s.handle))
              h.up_list
          ∙ ap (λ (d : Option H). node_outcome node s up d (list_of which s.handle)) h.down_list
          ∙ ap (node_outcome node s up down) (list_of-Holding up down which s h)

      -- With a hostlist library as documented: libnodeupdown with a loaded handle and no clusterlist
      -- module is what the program relies on. It answers exactly for the nodes of its two lists, and
      -- the answer is whether the node is in the list that is asked for.
      pub library_ops-Answers :
          (memory : Handle H T) (up down : Option H)
          → Answers (library_ops env memory) (Holding up down) (is_known up down) (is_held up down)
      unfolding library_ops node_outcome
      library_ops-Answers memory up down = record {
        is_node = λ which node s h.
            let known = is_known up down node in
            subst
              (Post (λ b m. Holding up down m × (known ≡ true) × (b ≡ is_held up down which node))
                (λ _. Unit {0}))
              (sym (is_node-outcome up down which node s h))
              (elim (Bool-cases known) [
                | inl e ↦ rw e (Holding-put_errnum up down Err.success s h, refl, refl)
                | inr e ↦ rw e tt
              ]);
        is_node-known = λ which node s h k.
            ap (λ (r : Option Bool × State H T). is_some r.0)
              (is_node-outcome up down which node s h)
            ∙ rw k refl;
      }
