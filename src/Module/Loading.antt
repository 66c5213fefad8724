-- ===== src/Module/Loading.antt =====
-- What loading a module leaves: the module is kept, or the default one is, and every other module
-- that was opened on the way is closed.
use whatsup.Prelude.{
  ℕ, ◌≡◌, Bool, true, false, inl, inr, Option, none, some, List, arith, is_some, Bool-cases, Name,
  Exec, continue, Post,
}
use whatsup.Handle.State.{State}
use whatsup.Module.Info.{Env}
use whatsup.Module.Find.{opened, closed, find_module}
use whatsup.Module.Search.{Searched, load_module-Searched, find_module-Searched}
use whatsup.Module.Counts.{Counted}
use whatsup.Module.Backend.{
  backend_module_callback, backend_module_info_sym, backend_module_load, backend_complete,
  backend_module_signature, backend_name_overflow,
}
use whatsup.Module.Clusterlist.{
  clusterlist_module_callback, clusterlist_module_info_sym, clusterlist_module_load,
  clusterlist_complete, clusterlist_name_overflow, clusterlist_module_signature,
}
use whatsup.Module.Config.{
  config_module_callback, config_module_info_sym, config_module_load, config_complete,
  config_module_signature, config_modules,
}

-- The stages of a load, by the modules that are held.
module _ {H T : Type 0} (o r : ℕ) where
  pub record NoneHeld (s : State H T) : Type 0 where
    pub counted : Counted o r s
    pub ltdl : s.handle.ltdl_initialized ≡ true
    pub backend : s.modules.backend_module_dl_handle ≡ none
    pub clusterlist : s.modules.clusterlist_module_dl_handle ≡ none
    pub config : s.modules.config_module_dl_handle ≡ none

  pub record BackendHeld (s : State H T) : Type 0 where
    pub counted : Counted o r s
    pub ltdl : s.handle.ltdl_initialized ≡ true
    pub backend : is_some s.modules.backend_module_info ≡ true
    pub clusterlist : s.modules.clusterlist_module_dl_handle ≡ none
    pub config : s.modules.config_module_dl_handle ≡ none

  pub record ClusterlistHeld (s : State H T) : Type 0 where
    pub counted : Counted o r s
    pub ltdl : s.handle.ltdl_initialized ≡ true
    pub backend : is_some s.modules.backend_module_info ≡ true
    pub clusterlist : is_some s.modules.clusterlist_module_info ≡ true
    pub config : s.modules.config_module_dl_handle ≡ none

  pub record AllHeld (s : State H T) : Type 0 where
    pub counted : Counted o r s
    pub ltdl : s.handle.ltdl_initialized ≡ true
    pub backend : is_some s.modules.backend_module_info ≡ true
    pub clusterlist : is_some s.modules.clusterlist_module_info ≡ true
    pub config : is_some s.modules.config_module_info ≡ true

-- One search result, and what the loading function makes of it.
Post-Searched :
    {S A : Type 0} (P Q : S → Type 0) (Q' : A → S → Type 0) (R : S → Type 0) (f : Bool → Exec S A)
    (r : Option Bool × S)
    → Searched P Q r
    → ((s : S) → Q s → Post Q' R (f true s))
    → ((s : S) → P s → Post Q' R (f false s))
    → Post Q' R (continue r.0 f r.1)
Post-Searched P Q Q' R f (none, s) h found missing = absurd h
Post-Searched P Q Q' R f (some true, s) h found missing = found s h
Post-Searched P Q Q' R f (some false, s) h found missing = missing s h

module _ {H T : Type 0} (env : Env H T) (o r : ℕ) where
  backend_called :
      (dl info : ℕ) (s : State H T)
      → NoneHeld o r s
      → Searched
          (λ t. NoneHeld o r (closed t))
          (BackendHeld o r)
          (backend_module_callback env (some dl) (some info) (opened s))
  unfolding backend_module_callback
  backend_called dl info s h = elim (Bool-cases (backend_complete (env.backend info).pointers)) [
    | inl e ↦ rw e (ground arith)
    | inr e ↦ rw e (ground arith)
  ]

  backend-Searched :
      (modules_list : List Name) (s : State H T)
      → NoneHeld o r s
      → Searched (NoneHeld o r) (BackendHeld o r) (
          find_module env
            (backend_module_callback env)
            backend_module_info_sym
            modules_list
            backend_module_signature
            s)
  backend-Searched modules_list s h =
      find_module-Searched env _ _ (NoneHeld o r) (BackendHeld o r)
        (load_module-Searched env _ _ (NoneHeld o r) (BackendHeld o r) (λ t k. ground arith)
          backend_called)
        modules_list backend_module_signature s h

  pub backend_module_load-Loaded :
      (name : Option Name) (s : State H T)
      → NoneHeld o r s
      → Post (λ _. BackendHeld o r) (Counted o r) (backend_module_load env name s)
  unfolding backend_module_load
  backend_module_load-Loaded none s h =
      Post-Searched (NoneHeld o r) (BackendHeld o r) (λ _. BackendHeld o r) (Counted o r) _ _
        (backend-Searched _ s h) (λ t k. k) (λ t k. ground arith)
  backend_module_load-Loaded (some name) s h = elim (Bool-cases (backend_name_overflow name)) [
    | inl e ↦ rw e (ground arith)
    | inr e ↦ rw e (
        Post-Searched (NoneHeld o r) (BackendHeld o r) (λ _. BackendHeld o r) (Counted o r) _ _
          (backend-Searched _ s h) (λ t k. k) (λ t k. ground arith))
  ]

  clusterlist_called :
      (dl info : ℕ) (s : State H T)
      → BackendHeld o r s
      → Searched
          (λ t. BackendHeld o r (closed t))
          (ClusterlistHeld o r)
          (clusterlist_module_callback env (some dl) (some info) (opened s))
  unfolding clusterlist_module_callback
  clusterlist_called dl info s h =
      elim (Bool-cases (clusterlist_complete (env.clusterlist info).pointers)) [
        | inl e ↦ rw e (ground arith)
        | inr e ↦ rw e (ground arith)
      ]

  clusterlist-Searched :
      (modules_list : List Name) (s : State H T)
      → BackendHeld o r s
      → Searched (BackendHeld o r) (ClusterlistHeld o r) (
          find_module env
            (clusterlist_module_callback env)
            clusterlist_module_info_sym
            modules_list
            clusterlist_module_signature
            s)
  clusterlist-Searched modules_list s h =
      find_module-Searched env _ _ (BackendHeld o r) (ClusterlistHeld o r)
        (load_module-Searched env _ _ (BackendHeld o r) (ClusterlistHeld o r) (λ t k. ground arith)
          clusterlist_called)
        modules_list clusterlist_module_signature s h

  pub clusterlist_module_load-Loaded :
      (name : Option Name) (s : State H T)
      → BackendHeld o r s
      → Post (λ _. ClusterlistHeld o r) (Counted o r) (clusterlist_module_load env name s)
  unfolding clusterlist_module_load
  clusterlist_module_load-Loaded none s h =
      Post-Searched (BackendHeld o r) (ClusterlistHeld o r) (λ _. ClusterlistHeld o r) (Counted o r)
        _ _ (clusterlist-Searched _ s h) (λ t k. ground arith) (λ t k. ground arith)
  clusterlist_module_load-Loaded (some name) s h =
      elim (Bool-cases (clusterlist_name_overflow name)) [
        | inl e ↦ rw e (ground arith)
        | inr e ↦ rw e (
            Post-Searched (BackendHeld o r) (ClusterlistHeld o r) (λ _. ClusterlistHeld o r)
              (Counted o r) _ _ (clusterlist-Searched _ s h) (λ t k. ground arith)
              (λ t k. ground arith))
      ]

  config_called :
      (dl info : ℕ) (s : State H T)
      → ClusterlistHeld o r s
      → Searched
          (λ t. ClusterlistHeld o r (closed t))
          (AllHeld o r)
          (config_module_callback env (some dl) (some info) (opened s))
  unfolding config_module_callback
  config_called dl info s h = elim (Bool-cases (config_complete (env.config info).pointers)) [
    | inl e ↦ rw e (ground arith)
    | inr e ↦ rw e (ground arith)
  ]

  config-Searched :
      (s : State H T)
      → ClusterlistHeld o r s
      → Searched (ClusterlistHeld o r) (AllHeld o r) (
          find_module env
            (config_module_callback env)
            config_module_info_sym
            config_modules
            config_module_signature
            s)
  config-Searched s h =
      find_module-Searched env _ _ (ClusterlistHeld o r) (AllHeld o r)
        (load_module-Searched env _ _ (ClusterlistHeld o r) (AllHeld o r) (λ t k. ground arith)
          config_called)
        config_modules config_module_signature s h

  pub config_module_load-Loaded :
      (s : State H T)
      → ClusterlistHeld o r s
      → Post (λ _. AllHeld o r) (Counted o r) (config_module_load env s)
  unfolding config_module_load
  config_module_load-Loaded s h =
      Post-Searched (ClusterlistHeld o r) (AllHeld o r) (λ _. AllHeld o r) (Counted o r) _ _
        (config-Searched s h) (λ t k. k) (λ t k. ground arith)
