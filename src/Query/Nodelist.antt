-- ===== src/Query/Nodelist.antt =====
-- The arrays that a program hands to the library: `nodeupdown_nodelist_create`, `_clear`, `_destroy`.
use whatsup.Prelude.{
  ℕ, zero, suc, Bool, true, false, Option, none, some, List, [], ◌∷◌, Name, if◌then◌else◌, Exec,
  ◌>>◌,
}
use whatsup.Handle.Err
use whatsup.Handle.State.{State, put_errnum}
use whatsup.Handle.Checks.{fail_with, loaded_handle_error_check}
use whatsup.Query.Nodes.{succeed}

-- `n` buffers, each with the empty string
unfoldable pub empty_slots : ℕ → List (Option Name)
empty_slots zero = []
empty_slots (suc n) = some [] ∷ empty_slots n

-- The loop of `nodeupdown_nodelist_clear` over the first `n` slots: whether it met no NULL, and the
-- array that it leaves.
unfoldable pub clear_slots : ℕ → List (Option Name) → Bool × List (Option Name)
clear_slots zero list = (true, list)
clear_slots (suc n) [] = (false, [])
clear_slots (suc n) (none ∷ list) = (false, none ∷ list)
clear_slots (suc n) (some text ∷ list) =
    let (cleared, rest) = clear_slots n list in (cleared, some [] ∷ rest)

module _ {H T : Type 0} where
  -- the first argument tells whether every `malloc` succeeds, the second whether `list` is not NULL;
  -- the return value is the length of the array
  unfoldable pub nodeupdown_nodelist_create :
      Bool → Bool → Exec (State H T) (ℕ × List (Option Name))
  unfolding empty_slots
  nodeupdown_nodelist_create malloc list = loaded_handle_error_check >> λ s.
      if list
      then if malloc
        then succeed (s.handle.numnodes, empty_slots s.handle.numnodes) s
        else fail_with Err.out_mem s
      else fail_with Err.parameters s

  unfoldable pub clear_result :
      Bool × List (Option Name) → State H T → Option (Unit {0}) × List (Option Name) × State H T
  clear_result (true, list) s = (some tt, list, put_errnum Err.success s)
  clear_result (false, list) s = (none, list, put_errnum Err.null_ptr s)

  unfoldable pub clear_checked :
      List (Option Name)
      → Option (Unit {0})
      → State H T
      → Option (Unit {0}) × List (Option Name) × State H T
  clear_checked list none s = (none, list, s)
  clear_checked list (some _) s = clear_result (clear_slots s.handle.numnodes list) s

  -- the return value, the array afterwards, and the state
  unfoldable pub nodeupdown_nodelist_clear :
      List (Option Name) → State H T → Option (Unit {0}) × List (Option Name) × State H T
  unfolding clear_slots clear_result clear_checked
  nodeupdown_nodelist_clear list s =
      let checked = loaded_handle_error_check s in clear_checked list checked.0 checked.1

  -- the same with a NULL array
  unfoldable pub nodeupdown_nodelist_clear_null : Exec (State H T) (Unit {0})
  nodeupdown_nodelist_clear_null = loaded_handle_error_check >> λ s. fail_with Err.parameters s

  unfoldable pub nodeupdown_nodelist_destroy :
      Option (List (Option Name)) → Exec (State H T) (Unit {0})
  nodeupdown_nodelist_destroy none = loaded_handle_error_check >> λ s. fail_with Err.parameters s
  nodeupdown_nodelist_destroy (some list) = loaded_handle_error_check >> λ s. succeed tt s
