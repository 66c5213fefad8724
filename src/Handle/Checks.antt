-- ===== src/Handle/Checks.antt =====
-- The checks at the head of each function, the error number and its messages.
use whatsup.Prelude.{
  ℕ, Bool, false, Option, none, some, leb, ◌==◌, if◌then◌else◌, ℤ, pos, negsuc, Exec,
}
use whatsup.Handle.Err
use whatsup.Handle.State.{Handle, State, LoadState, nodeupdown_magic_num, put_errnum}

-- the number that `nodeupdown_set_errnum` stores
unfoldable pub clamp_errnum : ℤ → ℕ
clamp_errnum (pos n) = if leb n Err.errnum_range then n else Err.internal
clamp_errnum (negsuc n) = Err.internal

module _ {H T : Type 0} where
  -- `_nodeupdown_handle_error_check`, where `true` is the return value 0
  unfoldable pub nodeupdown_handle_error_check : Option (Handle H T) → Bool
  nodeupdown_handle_error_check none = false
  nodeupdown_handle_error_check (some h) = h.magic == nodeupdown_magic_num

  -- `handle->errnum = e; return -1;`
  abbrev pub fail_with : {A : Type 0} → ℕ → Exec (State H T) A
  fail_with e s = (none, put_errnum e s)

  unfoldable pub unloaded_check : LoadState → Exec (State H T) (Unit {0})
  unloaded_check LoadState.loaded s = fail_with Err.is_loaded s
  unloaded_check LoadState.setup s = fail_with Err.internal s
  unloaded_check LoadState.unloaded s = (some tt, s)

  unfoldable pub loaded_check : LoadState → Exec (State H T) (Unit {0})
  loaded_check LoadState.unloaded s = fail_with Err.not_loaded s
  loaded_check LoadState.setup s = fail_with Err.internal s
  loaded_check LoadState.loaded s = (some tt, s)

  unfoldable pub setup_check : LoadState → Exec (State H T) (Unit {0})
  setup_check LoadState.setup s = (some tt, s)
  setup_check LoadState.unloaded s = fail_with Err.internal s
  setup_check LoadState.loaded s = fail_with Err.internal s

  unfoldable pub unloaded_handle_error_check : Exec (State H T) (Unit {0})
  unfolding nodeupdown_handle_error_check unloaded_check
  unloaded_handle_error_check s =
      if nodeupdown_handle_error_check (some s.handle)
      then unloaded_check s.handle.load_state s
      else (none, s)

  unfoldable pub loaded_handle_error_check : Exec (State H T) (Unit {0})
  unfolding nodeupdown_handle_error_check loaded_check
  loaded_handle_error_check s =
      if nodeupdown_handle_error_check (some s.handle)
      then loaded_check s.handle.load_state s
      else (none, s)

  unfoldable pub setup_handle_error_check : Exec (State H T) (Unit {0})
  unfolding nodeupdown_handle_error_check setup_check
  setup_handle_error_check s =
      if nodeupdown_handle_error_check (some s.handle)
      then setup_check s.handle.load_state s
      else (none, s)

  -- `nodeupdown_errnum`
  unfoldable pub nodeupdown_errnum : Option (Handle H T) → ℕ
  nodeupdown_errnum none = Err.null_handle
  nodeupdown_errnum (some h) = if h.magic == nodeupdown_magic_num then h.errnum else Err.magic

  unfoldable pub nodeupdown_set_errnum : ℤ → State H T → State H T
  unfolding nodeupdown_handle_error_check clamp_errnum
  nodeupdown_set_errnum e s =
      if nodeupdown_handle_error_check (some s.handle) then put_errnum (clamp_errnum e) s else s

  -- `nodeupdown_set_errnum(handle, e); return -1;`
  abbrev pub set_and_fail : {A : Type 0} → ℕ → Exec (State H T) A
  set_and_fail e s = (none, nodeupdown_set_errnum (pos e) s)
