-- ===== src/Program/Unloaded.antt =====
-- From `_load_options_modules` to `_unload_options_modules` of src/whatsup/whatsup.c.
use whatsup.Prelude.{
  ℕ, suc, ◌+◌, ◌-◌, ◌≡◌, refl, ap, ◌∙◌, true, false, not, inl, inr, some, List, [], ◌∷◌, is_empty,
  length, Bool-cases, Post, Post-then, arith, if-intro, subst, sym, All,
}
use whatsup.Program.State.{LoadInfo, Statics, ProgramEnv, err_exit, in_world}
use whatsup.Program.Modules.{
  start_ltdl, search_builddir, load_options_modules_in_dir, create_iterator, load_options_modules,
  delete_module_loadinfo, delete_modules, unload_options_modules,
}
use whatsup.Program.Watched.{IsFresh}
use whatsup.Program.Loaded.{
  Held, Listed, Distinct, IsComplete, load_options_modules_in_dir-Listed, search_builddir-Listed,
}

module _ {H L W : Type 0} where
  delete_modules-dl_open :
      (ms : List (LoadInfo W)) (s : Statics H L W)
      → (delete_modules ms s).dl_open ≡ s.dl_open - length ms
  unfolding delete_modules delete_module_loadinfo in_world
  delete_modules-dl_open [] s = omega arith
  delete_modules-dl_open (m ∷ ms) s =
      omega (arith, delete_modules-dl_open ms (delete_module_loadinfo m s))

  delete_modules-dl_refs :
      (ms : List (LoadInfo W)) (s : Statics H L W) → (delete_modules ms s).dl_refs ≡ s.dl_refs
  unfolding delete_modules delete_module_loadinfo in_world
  delete_modules-dl_refs [] s = refl
  delete_modules-dl_refs (m ∷ ms) s = delete_modules-dl_refs ms (delete_module_loadinfo m s)

  -- What the program holds after the modules are loaded, in a process with `o` open modules and `r`
  -- references to libltdl of its own: a list of modules that are complete and have distinct names,
  -- the iterator exactly where there is one, and no other module; unloading them leaves the process
  -- with its own.
  pub record Balanced (o r : ℕ) (s : Statics H L W) : Type 0 where
    pub opened : s.dl_open ≡ o + length s.modules_list
    pub complete : All IsComplete s.modules_list
    pub fresh : All IsFresh s.modules_list
    pub distinct : Distinct s.modules_list
    pub iterator : s.modules_list_itr ≡ not (is_empty s.modules_list)
    pub dl_open : (unload_options_modules s).dl_open ≡ o
    pub dl_refs : (unload_options_modules s).dl_refs ≡ r

  Held-Balanced :
      (o r : ℕ) (s : Statics H L W)
      → Held o r s.dl_open s.dl_refs false s.modules_list
      → s.modules_list_itr ≡ not (is_empty s.modules_list)
      → Balanced o r s
  unfolding unload_options_modules
  Held-Balanced o r s h i = record {
    opened = h.opened;
    complete = h.complete;
    fresh = h.fresh;
    distinct = h.distinct;
    iterator = i;
    dl_open = omega (arith, delete_modules-dl_open s.modules_list s, h.opened);
    dl_refs = omega (arith, delete_modules-dl_refs s.modules_list s, h.refs);
  }

  module _ (env : ProgramEnv H L W) where
    create_iterator-Balanced :
        (o r : ℕ) (s : Statics H L W)
        → Listed o r s
        → Post (λ _. Balanced o r) (λ _. Unit {0}) (create_iterator env s)
    unfolding create_iterator err_exit
    create_iterator-Balanced o r s h =
        let k = subst (λ b. Held o r s.dl_open s.dl_refs b s.modules_list) h.iterator h in
        elim (Bool-cases (is_empty s.modules_list)) [
          | inl e ↦ rw e (Held-Balanced o r s k (h.iterator ∙ ap not (sym e)))
          | inr e ↦ rw e (
              if-intro (Post (λ _. Balanced o r) (λ _. Unit {0})) env.list_iterator_create
                (some tt, record s { modules_list_itr = true }) _
                (Held-Balanced o r (record s { modules_list_itr = true }) k (ap not (sym e))) tt)
        ]

    start_ltdl-Listed :
        (s : Statics H L W)
        → s.modules_list_itr ≡ false
        → Post (λ _. Listed s.dl_open s.dl_refs) (λ _. Unit {0}) (start_ltdl env s)
    unfolding start_ltdl err_exit
    start_ltdl-Listed s i =
        let P =
          Post {S = Statics H L W} {A = Unit {0}} (λ _. Listed s.dl_open s.dl_refs)
            (λ _. Unit {0}) in
        let t : Statics H L W = record s { dl_refs = suc s.dl_refs; modules_list = [] } in
        let held : Listed s.dl_open s.dl_refs t = record {
          iterator = i;
          opened = omega arith;
          refs = refl;
          complete = tt;
          fresh = tt;
          distinct = tt;
        } in
        if-intro P (not env.lt_dlinit) _ _ tt
          (if-intro P (not env.list_create) _ (some tt, t) tt held)

    -- In a process that has no list of modules yet: where loading the modules does not end the
    -- process, those of the list are complete, have distinct names and are the ones that are open
    -- besides the others of the process, there is an iterator exactly where there is a module, and
    -- unloading brings back the number of open modules and of references to libltdl from before.
    pub load_options_modules-Balanced :
        (s : Statics H L W)
        → s.modules_list_itr ≡ false
        → Post (λ _. Balanced s.dl_open s.dl_refs) (λ _. Unit {0}) (load_options_modules env s)
    unfolding load_options_modules
    load_options_modules-Balanced s i =
        let o = s.dl_open in
        let r = s.dl_refs in
        Post-then (λ _. Listed o r) (λ _. Balanced o r) (start_ltdl env s) _ (start_ltdl-Listed s i)
          (λ _ t h.
            Post-then (λ _. Listed o r) (λ _. Balanced o r)
              (search_builddir env env.module_builddir t) _
              (search_builddir-Listed o r env env.module_builddir t h)
              (λ _ u k.
                Post-then (λ _. Listed o r) (λ _. Balanced o r)
                  (load_options_modules_in_dir env env.module_dir u) (λ _. create_iterator env)
                  (load_options_modules_in_dir-Listed o r env env.module_dir u k)
                  (λ _ v l. create_iterator-Balanced o r v l)))
