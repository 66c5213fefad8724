-- ===== src/Query/Arrays.antt =====
-- A program's use of the arrays: create one, fill it from a list, clear it.
use whatsup.Prelude.{
  ℕ, zero, suc, ◌-◌, ◌≤◌, ◌<◌, ◌≡◌, refl, sym, ap, ◌∙◌, true, Option, none, some, List, [], ◌∷◌,
  ◌++◌, map, Name, length, drop, is_some, arith, All, pos, Post,
}
use whatsup.Handle.Err
use whatsup.Handle.State.{State, LoadState, nodeupdown_magic_num, put_errnum}
use whatsup.Handle.Checks.{loaded_handle_error_check}
use whatsup.Module.Info.{Env}
use whatsup.Devel.{UpOrDown, up_nodes, down_nodes, list_of}
use whatsup.Query.Nodes.{
  all, copy_nodes, get_nodes_list, list_checked, list_result, iterator_of, hosts_of,
}
use whatsup.Query.Nodelist.{
  empty_slots, clear_slots, nodeupdown_nodelist_create, nodeupdown_nodelist_clear, clear_checked,
  clear_result,
}
use whatsup.Query.Copy.{has_buffer, Fits, written, written-start, copy_nodes-all}

-- A handle that is loaded.
pub record Answering {H T : Type 0} (s : State H T) : Type 0 where
  pub magic : s.handle.magic ≡ nodeupdown_magic_num
  pub load_state : s.handle.load_state ≡ LoadState.loaded

module _ {H T : Type 0} where
  pub loaded_check-Answering :
      (s : State H T) → Answering s → loaded_handle_error_check s ≡ (some tt, s)
  unfolding loaded_handle_error_check
  loaded_check-Answering s h = ground (arith, h.magic, h.load_state)

  pub Answering-put_errnum : (e : ℕ) (s : State H T) → Answering s → Answering (put_errnum e s)
  Answering-put_errnum e s h = record { magic = h.magic; load_state = h.load_state }

  pub create_lem :
      (s : State H T)
      → Answering s
      → nodeupdown_nodelist_create true true s
        ≡ (some (s.handle.numnodes, empty_slots s.handle.numnodes), put_errnum Err.success s)
  unfolding nodeupdown_nodelist_create
  create_lem s h = rw (loaded_check-Answering s h) refl

length-empty_slots : (n : ℕ) → length (empty_slots n) ≡ n
unfolding empty_slots
length-empty_slots zero = refl
length-empty_slots (suc n) = ap suc (length-empty_slots n)

drop-empty_slots : (k n : ℕ) → k ≤ n → drop k (empty_slots n) ≡ empty_slots (n - k)
unfolding empty_slots
drop-empty_slots zero n h = ap empty_slots (omega arith)
drop-empty_slots (suc k) zero h = absurd (omega (arith, h))
drop-empty_slots (suc k) (suc n) h =
    drop-empty_slots k n (omega (arith, h)) ∙ ap empty_slots (omega arith)

empty_slots-has_buffer : (n i : ℕ) → i < n → has_buffer (empty_slots n) i ≡ true
unfolding empty_slots
empty_slots-has_buffer zero i h = absurd (omega (arith, h))
empty_slots-has_buffer (suc n) zero h = refl
empty_slots-has_buffer (suc n) (suc i) h = empty_slots-has_buffer n i (omega (arith, h))

copy_empty :
    (hosts : List Name) (n : ℕ)
    → length hosts ≤ n
    → Fits hosts
    → copy_nodes hosts 0 n (empty_slots n)
      ≡ (all (length hosts), map some hosts ++ empty_slots (n - length hosts))
copy_empty hosts n h fits =
    copy_nodes-all hosts 0 n (empty_slots n) (omega (arith, h)) fits
      (λ i _ u. empty_slots-has_buffer n i (omega (arith, h, u)))
    ∙ ap (λ k. (all k, written hosts 0 (empty_slots n))) (omega arith)
    ∙ ap (λ a. (all (length hosts), a))
        (written-start hosts (empty_slots n) (omega (arith, h, length-empty_slots n))
          ∙ ap (λ a. map some hosts ++ a) (drop-empty_slots (length hosts) n h))

list_of_errnum :
    {H T : Type 0} (which : UpOrDown) (s : State H T)
    → list_of which (put_errnum Err.success s).handle ≡ list_of which s.handle
list_of_errnum up_nodes s = refl
list_of_errnum down_nodes s = refl

module _ {H T : Type 0} (env : Env H T) where
  list_nodes :
      (which : UpOrDown) (s : State H T) (l : H) (n : ℕ)
      → Answering s
      → list_of which s.handle ≡ some l
      → env.hostlist.iterator_create l ≡ true
      → 0 < n
      → length (env.hostlist.hosts l) ≤ n
      → Fits (env.hostlist.hosts l)
      → get_nodes_list env (empty_slots n) (pos n) which s ≡ (
        some (length (env.hostlist.hosts l)),
        map some (env.hostlist.hosts l) ++ empty_slots (n - length (env.hostlist.hosts l)),
        put_errnum Err.success s,
      )
  unfolding get_nodes_list list_checked iterator_of hosts_of list_result
  list_nodes which s l zero h eq it p len fits = absurd (omega (arith, p))
  list_nodes which s l (suc n) h eq it p len fits =
      rw (loaded_check-Answering s h)
        (rw eq (rw it (rw (copy_empty (env.hostlist.hosts l) (suc n) len fits) refl)))

  -- On a loaded handle that counts at least one node, whose list has at most as many nodes as it
  -- counts, with names of at most 64 bytes, and where memory and an iterator are there: the array
  -- that `nodeupdown_nodelist_create` gives suffices for `_get_nodes_list`, which then returns the
  -- number of the nodes, with the nodes in front and the other buffers empty.
  pub create_then_list :
      (which : UpOrDown) (s : State H T) (l : H)
      → Answering s
      → list_of which s.handle ≡ some l
      → env.hostlist.iterator_create l ≡ true
      → 0 < s.handle.numnodes
      → length (env.hostlist.hosts l) ≤ s.handle.numnodes
      → Fits (env.hostlist.hosts l)
      → Post
          (λ created t. get_nodes_list env created.1 (pos created.0) which t ≡ (
            some (length (env.hostlist.hosts l)),
            map some (env.hostlist.hosts l)
                ++ empty_slots (s.handle.numnodes - length (env.hostlist.hosts l)),
            put_errnum Err.success s,
          ))
          (λ _. ⊥)
          (nodeupdown_nodelist_create true true s)
  create_then_list which s l h eq it p len fits = rw (create_lem s h) (
      list_nodes which (put_errnum Err.success s) l s.handle.numnodes
        (Answering-put_errnum Err.success s h) (list_of_errnum which s ∙ eq) it p len fits)

clear_full :
    (array : List (Option Name))
    → All (λ slot. is_some slot ≡ true) array
    → clear_slots (length array) array ≡ (true, empty_slots (length array))
unfolding clear_slots empty_slots
clear_full [] h = refl
clear_full (none ∷ array) h = cc h.0
clear_full (some text ∷ array) h = ap (λ r. (r.0, some [] ∷ r.1)) (clear_full array h.1)

module _ {H T : Type 0} where
  -- On a loaded handle, an array of the handle's length without a NULL is cleared to the array that
  -- `nodeupdown_nodelist_create` makes.
  pub clear_restores :
      (array : List (Option Name)) (s : State H T)
      → Answering s
      → length array ≡ s.handle.numnodes
      → All (λ slot. is_some slot ≡ true) array
      → let cleared = nodeupdown_nodelist_clear array s in
        let created = nodeupdown_nodelist_create true true s in
        (cleared.0 ≡ some tt) × (created ≡ (some (length array, cleared.1), cleared.2))
  unfolding nodeupdown_nodelist_clear clear_checked clear_result
  clear_restores array s h len full =
      let c : clear_slots s.handle.numnodes array ≡ (true, empty_slots (length array)) =
        ap (λ k. clear_slots k array) (sym len) ∙ clear_full array full in
      rw (loaded_check-Answering s h) (
        rw c (
          refl,
          create_lem s h ∙ ap (λ k. (some (k, empty_slots k), put_errnum Err.success s)) (sym len),
        ))
