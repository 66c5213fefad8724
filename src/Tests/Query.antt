-- ===== src/Tests/Query.antt =====
-- The theorems on queries, at the sample installation.
use whatsup.Prelude.{
  ℕ, zero, suc, ◌≤◌, ◌<◌, ◌≡◌, ◌≢◌, sym, ap, refl, true, false, none, some, [], ◌∷◌, codes, pos,
  Post, str_eq, if◌then◌else◌, arith,
}
use whatsup.Handle.Err
use whatsup.Handle.State.{put_errnum}
use whatsup.Handle.Checks.{setup_handle_error_check}
use whatsup.Devel.{
  up_nodes, down_nodes, put_list, nodeupdown_add_last_up_time, nodeupdown_not_discovered_check,
}
use whatsup.Devel.Discover.{InSetup, listed, not_discovered_check-listed}
use whatsup.Query.Nodes.{all, copy_nodes, get_nodes_list, nodeupdown_last_up_time, time_found}
use whatsup.Query.Nodelist.{empty_slots, nodeupdown_nodelist_create}
use whatsup.Query.Copy.{has_buffer, written, copy_nodes-all}
use whatsup.Query.Arrays.{Answering, create_then_list}
use whatsup.Query.Times.{last_up_time-add}
use whatsup.Session.{nodelist_clear, call}
use whatsup.Session.Unloaded.{answer, call-not_loaded}
use whatsup.Tests.Sample.{
  sample_env, hosts_ops, times_ops, hosts_laws, times_laws, new_state, loaded_state, setup_state,
}

sample-Answering : Answering loaded_state
unfolding loaded_state
sample-Answering = record { magic = refl; load_state = refl }

setup-InSetup : InSetup setup_state
unfolding setup_state
setup-InSetup = record { magic = refl; load_state = refl }

two_buffers : (i : ℕ) → 0 ≤ i → i < 2 → has_buffer (some [] ∷ some (codes "old") ∷ []) i ≡ true
two_buffers zero l u = refl
two_buffers (suc zero) l u = refl
two_buffers (suc (suc i)) l u = absurd (omega (arith, u))

a-ne-b : codes "a" ≢ codes "b"
unfolding str_eq
a-ne-b e = let h : false ≡ true = ap (str_eq (codes "a")) (sym e) in cc h

copy_nodes-all_example :
    copy_nodes (codes "a" ∷ codes "b" ∷ []) 0 2 (some [] ∷ some (codes "old") ∷ [])
    ≡ (all 2, written (codes "a" ∷ codes "b" ∷ []) 0 (some [] ∷ some (codes "old") ∷ []))
copy_nodes-all_example =
    copy_nodes-all (codes "a" ∷ codes "b" ∷ []) 0 2 (some [] ∷ some (codes "old") ∷ [])
      (omega arith) (omega arith, (omega arith, tt)) two_buffers

create_then_list_example :
    Post
      (λ created t.
        get_nodes_list sample_env created.1 (pos created.0) up_nodes t
        ≡ (some 1, some (codes "a") ∷ empty_slots 1, put_errnum Err.success loaded_state))
      (λ _. ⊥)
      (nodeupdown_nodelist_create true true loaded_state)
unfolding loaded_state sample_env hosts_ops
create_then_list_example =
    create_then_list sample_env up_nodes loaded_state (codes "a" ∷ []) sample-Answering refl refl
      (omega arith) (omega arith) (omega arith, tt)

not_discovered_check-listed_example :
    Post
      (λ _ t.
        (listed sample_env (codes "c") t ≡ true)
        × (t ≡ (
            if listed sample_env (codes "c") setup_state
            then setup_state
            else put_list down_nodes (codes "c" ∷ []) setup_state)))
      (λ _. ⊥)
      (nodeupdown_not_discovered_check sample_env (some (codes "c")) setup_state)
unfolding setup_state sample_env hosts_ops
not_discovered_check-listed_example =
    not_discovered_check-listed sample_env hosts_laws (codes "c") setup_state [] (codes "c" ∷ []) tt
      setup-InSetup refl (omega arith) refl refl

last_up_time-add_example :
    (nodeupdown_last_up_time sample_env (some (codes "a")) true loaded_state
      ≡ (some 5, put_errnum Err.success loaded_state))
    × (nodeupdown_last_up_time sample_env (some (codes "b")) true loaded_state
        ≡ time_found sample_env none loaded_state)
unfolding loaded_state setup_state sample_env times_ops nodeupdown_add_last_up_time
    setup_handle_error_check
last_up_time-add_example =
    last_up_time-add sample_env times_laws (codes "a") (codes "b") 5 setup_state loaded_state []
      ((codes "a", 5) ∷ []) setup-InSetup refl refl refl a-ne-b sample-Answering refl

call-not_loaded_example :
    (answer sample_env (nodelist_clear (some (codes "a") ∷ [])) new_state
      ≡ (false, some (codes "a") ∷ []))
    × (call sample_env (nodelist_clear (some (codes "a") ∷ [])) new_state
        ≡ put_errnum Err.not_loaded new_state)
unfolding new_state
call-not_loaded_example =
    call-not_loaded sample_env (nodelist_clear (some (codes "a") ∷ [])) new_state refl refl refl
