-- ===== src/Load/Stages.antt =====
-- The stages of a load: an action that leaves the frame alone stays in its stage.
use whatsup.Prelude.{ℕ, ◌≡◌, true, Option, none, some, arith, is_some, Exec, Post, Triple}
use whatsup.Handle.State.{State, LoadState}
use whatsup.Module.Counts.{Counted, Frame, Framed}
use whatsup.Module.Loading.{NoneHeld, BackendHeld, ClusterlistHeld, AllHeld}

-- Between the creation of the tables and the end of the load.
pub record Ready {H T : Type 0} (o r : ℕ) (s : State H T) : Type 0 where
  pub held : AllHeld o r s
  pub load_state : s.handle.load_state ≡ LoadState.setup
  pub up_nodes : is_some s.handle.up_nodes ≡ true
  pub down_nodes : is_some s.handle.down_nodes ≡ true
  pub last_up_times : is_some s.handle.last_up_times ≡ true

module _ {H T : Type 0} (o r : ℕ) where
  Post-Frame :
      {A : Type 0} (P : State H T → Type 0) (s : State H T) (x : Option A × State H T)
      → ((t : State H T) → Frame s t → P t)
      → ((t : State H T) → P t → Counted o r t)
      → Frame s x.1
      → Post (λ _. P) (Counted o r) x
  Post-Frame P s (none, t) keep count f = count t (keep t f)
  Post-Frame P s (some a, t) keep count f = keep t f

  -- An action that leaves the frame alone stays in a stage, or fails with the counts right.
  framed_triple :
      {A : Type 0} (P : State H T → Type 0) (m : Exec (State H T) A)
      → ((s t : State H T) → P s → Frame s t → P t)
      → ((t : State H T) → P t → Counted o r t)
      → Framed m
      → Triple P m (λ _. P) (Counted o r)
  framed_triple P m keep count f = record {
    at = λ s h. Post-Frame P s (m s) (λ t. keep s t h) count (f.at s);
  }

  pub none_held :
      {A : Type 0} (m : Exec (State H T) A)
      → Framed m
      → Triple (NoneHeld o r) m (λ _. NoneHeld o r) (Counted o r)
  none_held m = framed_triple (NoneHeld o r) m (λ s t h f. ground arith) (λ t h. h.counted)

  pub backend_held :
      {A : Type 0} (m : Exec (State H T) A)
      → Framed m
      → Triple (BackendHeld o r) m (λ _. BackendHeld o r) (Counted o r)
  backend_held m = framed_triple (BackendHeld o r) m (λ s t h f. ground arith) (λ t h. h.counted)

  pub clusterlist_held :
      {A : Type 0} (m : Exec (State H T) A)
      → Framed m
      → Triple (ClusterlistHeld o r) m (λ _. ClusterlistHeld o r) (Counted o r)
  clusterlist_held m =
      framed_triple (ClusterlistHeld o r) m (λ s t h f. ground arith) (λ t h. h.counted)

  pub all_held :
      {A : Type 0} (m : Exec (State H T) A)
      → Framed m
      → Triple (AllHeld o r) m (λ _. AllHeld o r) (Counted o r)
  all_held m = framed_triple (AllHeld o r) m (λ s t h f. ground arith) (λ t h. h.counted)

  pub ready :
      {A : Type 0} (m : Exec (State H T) A)
      → Framed m
      → Triple (Ready o r) m (λ _. Ready o r) (Counted o r)
  ready m = framed_triple (Ready o r) m (λ s t h f. ground arith) (λ t h. h.held.counted)
