-- ===== src/Query/Times.antt =====
-- The up times from the module that gives them to the program that asks for them.
use whatsup.Prelude.{ℕ, ◌≡◌, ◌≢◌, ◌∙◌, ap, refl, true, false, some, Name}
use whatsup.External.{HashLaws}
use whatsup.Handle.Err
use whatsup.Handle.State.{State, put_errnum}
use whatsup.Module.Info.{Env}
use whatsup.Devel.{nodeupdown_add_last_up_time}
use whatsup.Devel.Discover.{InSetup, setup_check-InSetup}
use whatsup.Query.Nodes.{nodeupdown_last_up_time, time_found}
use whatsup.Query.Arrays.{Answering, loaded_check-Answering}

module _ {H T : Type 0} (env : Env H T) where
  add_last_up_time_lem :
      (node : Name) (time : ℕ) (s : State H T) (table table' : T)
      → InSetup s
      → env.malloc ≡ true
      → s.handle.last_up_times ≡ some table
      → env.hash.insert table node time ≡ some table'
      → nodeupdown_add_last_up_time env (some node) time s
        ≡ (some tt, record s { handle = record s.handle { last_up_times = some table' } })
  unfolding nodeupdown_add_last_up_time
  add_last_up_time_lem node time s table table' h m eq i =
      rw (setup_check-InSetup s h) (rw m (rw eq (rw i refl)))

  find_time_lem :
      (node : Name) (table : T) (u : State H T)
      → Answering u
      → u.handle.last_up_times ≡ some table
      → env.hash.is_empty table ≡ false
      → nodeupdown_last_up_time env (some node) true u ≡ time_found env (env.hash.find table node) u
  unfolding nodeupdown_last_up_time
  find_time_lem node table u l eq e = rw (loaded_check-Answering u l) (rw eq (rw e refl))

  -- An up time that a module adds while a handle is set up is what `nodeupdown_last_up_time` gives
  -- for that node once the handle is loaded with the same table; the other nodes have what they had.
  -- The table library keeps what is documented of it, and there is memory.
  pub last_up_time-add :
      (laws : HashLaws env.hash) (node other : Name) (time : ℕ) (s u : State H T) (table table' : T)
      → InSetup s
      → env.malloc ≡ true
      → s.handle.last_up_times ≡ some table
      → env.hash.insert table node time ≡ some table'
      → node ≢ other
      → Answering u
      → u.handle.last_up_times
        ≡ (nodeupdown_add_last_up_time env (some node) time s).1.handle.last_up_times
      → (nodeupdown_last_up_time env (some node) true u ≡ (some time, put_errnum Err.success u))
        × (nodeupdown_last_up_time env (some other) true u
            ≡ time_found env (env.hash.find table other) u)
  unfolding time_found
  last_up_time-add laws node other time s u table table' h m eq i ne l same =
      let added =
        same
        ∙ ap (λ x. x.1.handle.last_up_times)
            (add_last_up_time_lem node time s table table' h m eq i) in
      let full = laws.is_empty-insert table table' node time i in
      (
        find_time_lem node table' u l added full
            ∙ ap (λ o. time_found env o u) (laws.find-insert_self table table' node time i),
        find_time_lem other table' u l added full
            ∙ ap (λ o. time_found env o u) (laws.find-insert_ne table table' node other time ne i),
      )
