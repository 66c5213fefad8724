-- ===== src/Program/Started.antt =====
-- Loading the modules does not end the program: `_load_options_modules` of src/whatsup/whatsup.c
-- where memory and libltdl are there.
use whatsup.Prelude.{
  ℕ, ◌≡◌, refl, true, inl, inr, Bool-cases, Exec, not, Option, none, some, List, [], ◌∷◌, is_empty,
  Name, if-intro, if-cases, arith, Returns, Returns-bind, ◌++◌, take, ◌-◌, is_some,
}
use whatsup.Program.State.{WhatsupOption, OptionsModuleInfo, Statics, ProgramEnv, in_world}
use whatsup.Program.Modules.{
  is_listed, has_pointers, count_monitors, opened, dropped, append_module, after_setup,
  set_up_module, search_name, add_module, check_options, check_module, look_up_info, open_module,
  load_options_module, is_module_file, load_files, load_entries, load_options_modules_in_dir,
  search_builddir, create_iterator, start_ltdl, load_options_modules, maxpathlen, module_info_sym,
}

-- libltdl can be used, and nothing runs out of memory.
pub record HasMemory {H L W : Type 0} (env : ProgramEnv H L W) : Type 0 where
  pub malloc : env.malloc ≡ true
  pub lt_dlinit : env.lt_dlinit ≡ true
  pub list_create : env.list_create ≡ true
  pub list_append : env.list_append ≡ true
  pub list_iterator_create : env.list_iterator_create ≡ true

-- a result that is there
abbrev IsThere : {S A : Type 0} → Option A × S → Type 0
IsThere r = is_some r.0 ≡ true

module _ {H L W : Type 0} (env : ProgramEnv H L W) (ok : HasMemory env) where
  after_setup-some :
      (dl : ℕ) (info : OptionsModuleInfo W) (result : Option (Unit {0})) (s : Statics H L W)
      → IsThere (after_setup env dl info result s)
  unfolding after_setup append_module dropped
  after_setup-some dl info none s = refl
  after_setup-some dl info (some a) s = rw ok.list_append refl

  set_up_module-some :
      (dl : ℕ) (info : OptionsModuleInfo W) (setup : Option (Exec W (Unit {0}))) (s : Statics H L W)
      → is_some setup ≡ true
      → IsThere (set_up_module env dl info setup s)
  unfolding set_up_module in_world
  set_up_module-some dl info none s h = cc h
  set_up_module-some dl info (some setup) s h =
      after_setup-some dl info (setup s.world).0 (record s { world = (setup s.world).1 })

  search_name-some :
      (dl : ℕ) (info : OptionsModuleInfo W) (module_name : Option Name) (s : Statics H L W)
      → is_some module_name ≡ true
      → is_some info.setup ≡ true
      → IsThere (search_name env dl info module_name s)
  unfolding search_name dropped
  search_name-some dl info none s n h = cc n
  search_name-some dl info (some module_name) s n h =
      if-intro IsThere (is_listed module_name s.modules_list) (dropped s) _ refl
        (set_up_module-some dl info info.setup s h)

  add_module-some :
      (dl : ℕ) (info : OptionsModuleInfo W) (s : Statics H L W)
      → is_some info.module_name ≡ true
      → is_some info.setup ≡ true
      → IsThere (add_module env dl info s)
  unfolding add_module
  add_module-some dl info s n h =
      if-intro IsThere (is_empty s.modules_list) (set_up_module env dl info info.setup s) _
        (set_up_module-some dl info info.setup s h)
        (rw ok.list_iterator_create (search_name-some dl info info.module_name s n h))

  check_options-some :
      (dl : ℕ) (info : OptionsModuleInfo W) (options : Option (List WhatsupOption))
      (s : Statics H L W)
      → is_some options ≡ true
      → is_some info.module_name ≡ true
      → is_some info.setup ≡ true
      → IsThere (check_options env dl info options s)
  unfolding check_options dropped
  check_options-some dl info none s o n h = cc o
  check_options-some dl info (some options) s o n h =
      if-intro IsThere (not (count_monitors options).0) _ _ refl (add_module-some dl info _ n h)

  check_module-some :
      (dl : ℕ) (info : OptionsModuleInfo W) (s : Statics H L W)
      → IsThere (check_module env dl info s)
  unfolding check_module has_pointers dropped
  check_module-some dl info s = elim (Bool-cases (has_pointers info)) [
    | inr e ↦ rw e refl
    | inl e ↦ rw e (
        check_options-some dl info info.options s (ground (arith, e)) (ground (arith, e))
          (ground (arith, e)))
  ]

  look_up_info-some :
      (dl : ℕ) (addr : Option ℕ) (s : Statics H L W) → IsThere (look_up_info env dl addr s)
  unfolding look_up_info dropped
  look_up_info-some dl none s = refl
  look_up_info-some dl (some addr) s = check_module-some dl (env.module_info addr) s

  open_module-some : (dl : Option ℕ) (s : Statics H L W) → IsThere (open_module env dl s)
  unfolding open_module
  open_module-some none s = refl
  open_module-some (some dl) s = look_up_info-some dl (env.lt_dlsym dl module_info_sym) (opened s)

  load_options_module-Returns : (module_path : Name) → Returns (load_options_module env module_path)
  unfolding load_options_module
  load_options_module-Returns module_path = record {
    at = λ s.
        if-cases IsThere env.malloc (open_module env (env.lt_dlopen module_path) s) _
          (λ e. open_module-some (env.lt_dlopen module_path) s) (λ e. cc (e, ok.malloc));
  }

  load_files-Returns :
      (search_dir : Name) (files : List Name) → Returns (load_files env search_dir files)
  unfolding load_files
  load_files-Returns search_dir [] = record { at = λ s. refl }
  load_files-Returns search_dir (filename ∷ rest) =
      if-intro Returns (is_module_file filename) _ _
        (Returns-bind
          (load_options_module env (take (maxpathlen - 1) (search_dir ++ b'/' ∷ filename))) _
          (load_options_module-Returns _) (λ _. load_files-Returns search_dir rest))
        (load_files-Returns search_dir rest)

  load_entries-Returns :
      (search_dir : Name) (entries : Option (List Name))
      → Returns (load_entries env search_dir entries)
  unfolding load_entries
  load_entries-Returns search_dir none = record { at = λ s. refl }
  load_entries-Returns search_dir (some files) = load_files-Returns search_dir files

  in_dir-Returns : (search_dir : Name) → Returns (load_options_modules_in_dir env search_dir)
  unfolding load_options_modules_in_dir
  in_dir-Returns search_dir = load_entries-Returns search_dir (env.opendir search_dir)

  search_builddir-Returns : (dir : Option Name) → Returns (search_builddir env dir)
  unfolding search_builddir
  search_builddir-Returns none = record { at = λ s. refl }
  search_builddir-Returns (some dir) = in_dir-Returns dir

  start_ltdl-Returns : Returns (start_ltdl env)
  unfolding start_ltdl
  start_ltdl-Returns = record { at = λ s. rw ok.lt_dlinit (rw ok.list_create refl) }

  create_iterator-Returns : Returns (create_iterator env)
  unfolding create_iterator
  create_iterator-Returns = record {
    at = λ s.
        if-intro IsThere (is_empty s.modules_list) (some tt, s) _ refl
          (rw ok.list_iterator_create refl);
  }

  -- Where libltdl can be used and nothing runs out of memory, loading the modules does not end the
  -- process, whatever is in the directories and whatever the modules are: also a module with a NULL
  -- pointer for its name, its options or its setup function, which is never read or called through.
  pub load_options_modules-Returns : Returns (load_options_modules env)
  unfolding load_options_modules
  load_options_modules-Returns = Returns-bind (start_ltdl env) _ start_ltdl-Returns (λ _.
      Returns-bind (search_builddir env env.module_builddir) _ (search_builddir-Returns _) (λ _.
        Returns-bind (load_options_modules_in_dir env env.module_dir) _ (in_dir-Returns _)
          (λ _. create_iterator-Returns)))
