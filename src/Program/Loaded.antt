-- ===== src/Program/Loaded.antt =====
-- The modules that the program holds: `_load_options_modules` and `_unload_options_modules` of
-- src/whatsup/whatsup.c.
use whatsup.Prelude.{
  or-false, Bool-differ, ℕ, suc, ◌+◌, ◌-◌, ◌≡◌, refl, sym, ap, subst, ◌∙◌, Bool, true, false, not,
  ◌||◌, inl, inr, Option, none, some, List, [], ◌∷◌, ◌++◌, is_empty, Name, str_eq, str_eq-ne,
  str_eq_refl, length, length-append, All, All-append, Bool-cases, if-intro, Exec, ◌>>◌, Post,
  Post-then, arith, take,
}
use whatsup.Program.State.{
  WhatsupOption, OptionsModuleInfo, LoadInfo, Statics, ProgramEnv, err_exit, in_world,
}
use whatsup.Program.Modules.{
  option_string, option_list, is_listed, has_pointers, count_monitors, new_loadinfo, opened, closed,
  dropped, append_module, after_setup, set_up_module, search_name, add_module, check_options,
  check_module, look_up_info, open_module, load_options_module, is_module_file, load_files,
  load_entries, load_options_modules_in_dir, search_builddir, maxpathlen,
}
use whatsup.Program.Watched.{IsFresh}

module _ {W : Type 0} where
  abbrev pub name_of : LoadInfo W → Name
  name_of m = option_string m.module_info.module_name

  -- No two modules have the same name.
  abbrev pub Distinct : List (LoadInfo W) → Type 0
  Distinct [] = Unit
  Distinct (m ∷ ms) = (is_listed (name_of m) ms ≡ false) × Distinct ms

  -- A module has its functions, and options of the three types.
  pub record IsComplete (m : LoadInfo W) : Type 0 where
    pub pointers : has_pointers m.module_info ≡ true
    pub options : (count_monitors (option_list m.module_info.options)).0 ≡ true

  is_listed-append :
      (n : Name) (ms : List (LoadInfo W)) (m : LoadInfo W)
      → is_listed n (ms ++ m ∷ []) ≡ is_listed n ms || str_eq (name_of m) n
  unfolding is_listed
  is_listed-append n [] m = ground arith
  is_listed-append n (l ∷ ms) m = ground (arith, is_listed-append n ms m)

  Distinct-append :
      (ms : List (LoadInfo W)) (m : LoadInfo W)
      → Distinct ms
      → is_listed (name_of m) ms ≡ false
      → Distinct (ms ++ m ∷ [])
  unfolding is_listed
  Distinct-append [] m h k = (refl, tt)
  Distinct-append (l ∷ ms) m h k =
      let parts = or-false (str_eq (name_of l) (name_of m)) (is_listed (name_of m) ms) k in
      (
        is_listed-append (name_of l) ms m
            ∙ rw h.0 (
                str_eq-ne (name_of m) (name_of l) (λ e.
                  Bool-differ
                    (sym (str_eq_refl (name_of m)) ∙ ap (λ x. str_eq x (name_of m)) e ∙ parts.0))),
        Distinct-append ms m h.1 parts.1,
      )

-- Besides `o` modules of the rest of the process, the open ones are those of the list, which are
-- complete, watch nothing yet and have distinct names; the list has no iterator yet.
pub record Held {W : Type 0} (o r dl_open dl_refs : ℕ) (itr : Bool) (ms : List (LoadInfo W))
    : Type 0 where
  pub iterator : itr ≡ false
  pub opened : dl_open ≡ o + length ms
  pub refs : dl_refs ≡ suc r
  pub complete : All IsComplete ms
  pub fresh : All IsFresh ms
  pub distinct : Distinct ms

abbrev pub Listed : {H L W : Type 0} → ℕ → ℕ → Statics H L W → Type 0
Listed o r s = Held o r s.dl_open s.dl_refs s.modules_list_itr s.modules_list

module _ {H L W : Type 0} (o r : ℕ) where
  -- one more module that is open
  abbrev Opened : Statics H L W → Type 0
  Opened s = Listed o r (closed s) × (s.dl_open ≡ suc (o + length s.modules_list))

  abbrev Keeping : Option (Unit {0}) × Statics H L W → Type 0
  Keeping x = Post (λ _. Listed o r) (λ _. Unit {0}) x

  dropped-Listed : (s : Statics H L W) → Opened s → Keeping (dropped s)
  unfolding dropped
  dropped-Listed s h = h.0

  module _ (env : ProgramEnv H L W) where
    append_module-Listed :
        (dl : ℕ) (info : OptionsModuleInfo W) (s : Statics H L W)
        → Opened s
        → has_pointers info ≡ true
        → (count_monitors (option_list info.options)).0 ≡ true
        → is_listed (option_string info.module_name) s.modules_list ≡ false
        → Keeping (append_module env dl info s)
    unfolding append_module err_exit new_loadinfo
    append_module-Listed dl info s h p c n = elim (Bool-cases env.list_append) [
      | inl e ↦ rw e (record {
        iterator = h.0.iterator;
        opened = omega (arith, h.1, length-append s.modules_list (new_loadinfo dl info ∷ []));
        refs = h.0.refs;
        complete =
            All-append IsComplete s.modules_list _ h.0.complete
              (record { pointers = p; options = c });
        fresh = All-append IsFresh s.modules_list _ h.0.fresh refl;
        distinct = Distinct-append s.modules_list (new_loadinfo dl info) h.0.distinct n;
      })
      | inr e ↦ rw e tt
    ]

    after_setup-Listed :
        (dl : ℕ) (info : OptionsModuleInfo W) (result : Option (Unit {0})) (s : Statics H L W)
        → Opened s
        → has_pointers info ≡ true
        → (count_monitors (option_list info.options)).0 ≡ true
        → is_listed (option_string info.module_name) s.modules_list ≡ false
        → Keeping (after_setup env dl info result s)
    unfolding after_setup
    after_setup-Listed dl info none s h p c n = dropped-Listed s h
    after_setup-Listed dl info (some _) s h p c n = append_module-Listed dl info s h p c n

    set_up_module-Listed :
        (dl : ℕ) (info : OptionsModuleInfo W) (setup : Option (Exec W (Unit {0})))
        (s : Statics H L W)
        → Opened s
        → has_pointers info ≡ true
        → (count_monitors (option_list info.options)).0 ≡ true
        → is_listed (option_string info.module_name) s.modules_list ≡ false
        → Keeping (set_up_module env dl info setup s)
    unfolding set_up_module in_world
    set_up_module-Listed dl info none s h p c n = tt
    set_up_module-Listed dl info (some setup) s h p c n =
        after_setup-Listed dl info (setup s.world).0 (record s { world = (setup s.world).1 }) h p c
          n

    search_name-Listed :
        (dl : ℕ) (info : OptionsModuleInfo W) (module_name : Option Name) (s : Statics H L W)
        → info.module_name ≡ module_name
        → Opened s
        → has_pointers info ≡ true
        → (count_monitors (option_list info.options)).0 ≡ true
        → Keeping (search_name env dl info module_name s)
    unfolding search_name
    search_name-Listed dl info none s e h p c = tt
    search_name-Listed dl info (some name) s e h p c =
        elim (Bool-cases (is_listed name s.modules_list)) [
          | inl f ↦ rw f (dropped-Listed s h)
          | inr f ↦ rw f (
              set_up_module-Listed dl info info.setup s h p c
                (ap (λ o. is_listed (option_string o) s.modules_list) e ∙ f))
        ]

    unlisted : (n : Name) (ms : List (LoadInfo W)) → is_empty ms ≡ true → is_listed n ms ≡ false
    unfolding is_listed
    unlisted n [] e = refl
    unlisted n (m ∷ ms) e = cc e

    add_module-Listed :
        (dl : ℕ) (info : OptionsModuleInfo W) (s : Statics H L W)
        → Opened s
        → has_pointers info ≡ true
        → (count_monitors (option_list info.options)).0 ≡ true
        → Keeping (add_module env dl info s)
    unfolding add_module err_exit
    add_module-Listed dl info s h p c = elim (Bool-cases (is_empty s.modules_list)) [
      | inl e ↦ rw e (
          set_up_module-Listed dl info info.setup s h p c
            (unlisted (option_string info.module_name) s.modules_list e))
      | inr e ↦ rw e (
          if-intro Keeping (not env.list_iterator_create) _ _ tt
            (search_name-Listed dl info info.module_name s refl h p c))
    ]

    abbrev counting : List WhatsupOption → Statics H L W → Statics H L W
    counting options s = record s {
      monitor_option_exists = s.monitor_option_exists + (count_monitors options).1;
    }

    check_options-Listed :
        (dl : ℕ) (info : OptionsModuleInfo W) (options : Option (List WhatsupOption))
        (s : Statics H L W)
        → info.options ≡ options
        → Opened s
        → has_pointers info ≡ true
        → Keeping (check_options env dl info options s)
    unfolding check_options
    check_options-Listed dl info none s o h p = tt
    check_options-Listed dl info (some options) s o h p =
        elim (Bool-cases (count_monitors options).0) [
          | inr f ↦ rw f (dropped-Listed (counting options s) h)
          | inl f ↦ rw f (
              add_module-Listed dl info (counting options s) h p
                (ap (λ x. (count_monitors (option_list x)).0) o ∙ f))
        ]

    check_module-Listed :
        (dl : ℕ) (info : OptionsModuleInfo W) (s : Statics H L W)
        → Opened s
        → Keeping (check_module env dl info s)
    unfolding check_module
    check_module-Listed dl info s h = elim (Bool-cases (has_pointers info)) [
      | inr e ↦ rw e (dropped-Listed s h)
      | inl e ↦ rw e (check_options-Listed dl info info.options s refl h e)
    ]

    look_up_info-Listed :
        (dl : ℕ) (addr : Option ℕ) (s : Statics H L W)
        → Opened s
        → Keeping (look_up_info env dl addr s)
    unfolding look_up_info
    look_up_info-Listed dl none s h = dropped-Listed s h
    look_up_info-Listed dl (some addr) s h = check_module-Listed dl (env.module_info addr) s h

    open_module-Listed :
        (dl : Option ℕ) (s : Statics H L W) → Listed o r s → Keeping (open_module env dl s)
    unfolding open_module
    open_module-Listed none s h = h
    open_module-Listed (some dl) s h =
        let e : s.dl_open ≡ suc s.dl_open - 1 = omega arith in
        look_up_info-Listed dl _ (opened s)
          (subst (λ n. Held o r n s.dl_refs s.modules_list_itr s.modules_list) e h, ap suc h.opened)

    load_options_module-Listed :
        (module_path : Name) (s : Statics H L W)
        → Listed o r s
        → Keeping (load_options_module env module_path s)
    unfolding load_options_module err_exit
    load_options_module-Listed module_path s h =
        if-intro Keeping env.malloc (open_module env (env.lt_dlopen module_path) s) _
          (open_module-Listed (env.lt_dlopen module_path) s h) tt

    load_files-Listed :
        (search_dir : Name) (files : List Name) (s : Statics H L W)
        → Listed o r s
        → Keeping (load_files env search_dir files s)
    unfolding load_files
    load_files-Listed search_dir [] s h = h
    load_files-Listed search_dir (filename ∷ rest) s h =
        let load =
          load_options_module env (take (maxpathlen - 1) (search_dir ++ b'/' ∷ filename)) in
        if-intro (λ (m : Exec (Statics H L W) (Unit {0})). Keeping (m s)) (is_module_file filename)
          (load >> load_files env search_dir rest) (load_files env search_dir rest)
          (Post-then (λ _. Listed o r) (λ _. Listed o r) (load s)
            (λ _. load_files env search_dir rest) (load_options_module-Listed _ s h)
            (λ _ t k. load_files-Listed search_dir rest t k))
          (load_files-Listed search_dir rest s h)

    load_entries-Listed :
        (search_dir : Name) (entries : Option (List Name)) (s : Statics H L W)
        → Listed o r s
        → Keeping (load_entries env search_dir entries s)
    unfolding load_entries
    load_entries-Listed search_dir none s h = h
    load_entries-Listed search_dir (some files) s h = load_files-Listed search_dir files s h

    pub load_options_modules_in_dir-Listed :
        (search_dir : Name) (s : Statics H L W)
        → Listed o r s
        → Keeping (load_options_modules_in_dir env search_dir s)
    unfolding load_options_modules_in_dir
    load_options_modules_in_dir-Listed search_dir s h =
        load_entries-Listed search_dir (env.opendir search_dir) s h

    pub search_builddir-Listed :
        (dir : Option Name) (s : Statics H L W) → Listed o r s → Keeping (search_builddir env dir s)
    unfolding search_builddir
    search_builddir-Listed none s h = h
    search_builddir-Listed (some dir) s h = load_options_modules_in_dir-Listed dir s h
