-- ===== src/Program/Modules.antt =====
-- The modules that add options to the program: `_load_options_module` to `_unload_options_modules`
-- of src/whatsup/whatsup.c.
use whatsup.Prelude.{
  ℕ, suc, ◌+◌, ◌-◌, Bool, true, false, not, ◌&&◌, ◌||◌, Option, none, some, List, [], ◌∷◌, ◌++◌,
  is_empty, is_some, Name, codes, str_eq, starts_with, strchr, take, if◌then◌else◌, Exec, ◌>>◌,
  pure,
}
use whatsup.Program.State.{
  OptionType, unknown_type, monitor_type, WhatsupOption, OptionsModuleInfo, LoadInfo, Statics,
  ProgramEnv, err_exit, in_world,
}

abbrev pub maxpathlen : ℕ
maxpathlen = 1024

-- WHATSUP_MODULE_SIGNATURE and WHATSUP_MODULE_INFO_SYM
abbrev pub module_signature : Name
module_signature = codes "whatsup_options_"

abbrev pub module_info_sym : Name
module_info_sym = codes "whatsup_module_info"

abbrev pub is_known : OptionType → Bool
is_known (unknown_type n) = false
is_known _ = true

abbrev pub is_monitor : OptionType → Bool
is_monitor monitor_type = true
is_monitor _ = false

abbrev pub option_string : Option Name → Name
option_string none = []
option_string (some s) = s

abbrev pub option_list : Option (List WhatsupOption) → List WhatsupOption
option_list none = []
option_list (some options) = options

-- the loop over the types of the options: whether it reaches the end, and how many options for
-- monitoring it counts on the way
unfoldable pub count_monitors : List WhatsupOption → Bool × ℕ
count_monitors [] = (true, 0)
count_monitors (o ∷ os) =
    let rest = count_monitors os in
    if not (is_known o.option_type)
    then (false, 0)
    else (rest.0, if is_monitor o.option_type then suc rest.1 else rest.1)

unfoldable pub is_listed : {W : Type 0} → Name → List (LoadInfo W) → Bool
is_listed name [] = false
is_listed name (m ∷ ms) = str_eq (option_string m.module_info.module_name) name || is_listed name ms

-- whether the module has the functions that every module has
unfoldable pub has_pointers : {W : Type 0} → OptionsModuleInfo W → Bool
has_pointers info =
    is_some info.module_name
    && is_some info.options
    && is_some info.setup
    && is_some info.cleanup
    && is_some info.process_option

-- a call through a pointer of a module that is loaded, and so has it; the error through NULL
unfoldable pub called : {W A : Type 0} → Option (Exec W A) → Exec W A
called none w = (none, w)
called (some f) w = f w

unfoldable pub new_loadinfo : {W : Type 0} → ℕ → OptionsModuleInfo W → LoadInfo W
new_loadinfo dl info = record {
  handle = dl;
  module_info = info;
  options_towatch = [];
  options_processed = [];
}

-- whether a file is named like a module: what follows its first dot is "so"
unfoldable pub is_module_file : Name → Bool
unfolding starts_with str_eq strchr
is_module_file filename =
    starts_with module_signature filename
    && elim (strchr b'.' filename) [ none ↦ false | some ptr ↦ str_eq ptr (codes ".so") ]

module _ {H L W : Type 0} where
  abbrev pub opened : Statics H L W → Statics H L W
  opened s = record s { dl_open = suc s.dl_open }

  abbrev pub closed : Statics H L W → Statics H L W
  closed s = record s { dl_open = s.dl_open - 1 }

  -- the code at the label `cleanup`, with a module that is open
  unfoldable pub dropped : Exec (Statics H L W) (Unit {0})
  dropped s = (some tt, closed s)

  module _ (env : ProgramEnv H L W) where
    unfoldable pub append_module : ℕ → OptionsModuleInfo W → Exec (Statics H L W) (Unit {0})
    append_module dl info s =
        if env.list_append
        then (some tt, record s { modules_list = s.modules_list ++ new_loadinfo dl info ∷ [] })
        else err_exit (codes "_load_options_module: list_append") s

    -- what follows the call of `setup`
    unfoldable pub after_setup :
        ℕ → OptionsModuleInfo W → Option (Unit {0}) → Exec (Statics H L W) (Unit {0})
    unfolding append_module dropped
    after_setup dl info none s = dropped s
    after_setup dl info (some _) s = append_module dl info s

    -- `setup` and what follows it; a call through NULL ends the process
    unfoldable pub set_up_module :
        ℕ → OptionsModuleInfo W → Option (Exec W (Unit {0})) → Exec (Statics H L W) (Unit {0})
    unfolding after_setup in_world
    set_up_module dl info none s = (none, s)
    set_up_module dl info (some setup) s = let r = in_world setup s in after_setup dl info r.0 r.1

    -- the search for a module of the same name; `strcmp` with NULL ends the process
    unfoldable pub search_name :
        ℕ → OptionsModuleInfo W → Option Name → Exec (Statics H L W) (Unit {0})
    unfolding set_up_module is_listed
    search_name dl info none s = (none, s)
    search_name dl info (some module_name) s =
        if is_listed module_name s.modules_list
        then dropped s
        else set_up_module dl info info.setup s

    -- from the search for a module of the same name on
    unfoldable pub add_module : ℕ → OptionsModuleInfo W → Exec (Statics H L W) (Unit {0})
    unfolding search_name
    add_module dl info s =
        if is_empty s.modules_list
        then set_up_module dl info info.setup s
        else if not env.list_iterator_create
        then err_exit (codes "_load_options_module: list_iterator_create") s
        else search_name dl info info.module_name s

    -- the loop over the options and what follows it; reading through NULL ends the process
    unfoldable pub check_options :
        ℕ → OptionsModuleInfo W → Option (List WhatsupOption) → Exec (Statics H L W) (Unit {0})
    unfolding count_monitors add_module
    check_options dl info none s = (none, s)
    check_options dl info (some options) s =
        let counted = count_monitors options in
        let s' = record s { monitor_option_exists = s.monitor_option_exists + counted.1 } in
        if not counted.0 then dropped s' else add_module dl info s'

    -- from the check of the pointers on
    unfoldable pub check_module : ℕ → OptionsModuleInfo W → Exec (Statics H L W) (Unit {0})
    unfolding has_pointers check_options
    check_module dl info s =
        if not (has_pointers info) then dropped s else check_options dl info info.options s

    unfoldable pub look_up_info : ℕ → Option ℕ → Exec (Statics H L W) (Unit {0})
    unfolding check_module
    look_up_info dl none s = dropped s
    look_up_info dl (some addr) s = check_module dl (env.module_info addr) s

    unfoldable pub open_module : Option ℕ → Exec (Statics H L W) (Unit {0})
    unfolding look_up_info
    open_module none s = (some tt, s)
    open_module (some dl) s = look_up_info dl (env.lt_dlsym dl module_info_sym) (opened s)

    -- `_load_options_module`
    unfoldable pub load_options_module : Name → Exec (Statics H L W) (Unit {0})
    unfolding open_module
    load_options_module module_path s =
        if env.malloc
        then open_module (env.lt_dlopen module_path) s
        else err_exit (codes "_load_options_module: malloc") s

    -- the loop over a directory
    unfoldable pub load_files : Name → List Name → Exec (Statics H L W) (Unit {0})
    unfolding is_module_file load_options_module
    load_files search_dir [] = pure tt
    load_files search_dir (filename ∷ rest) =
        let filebuf = take (maxpathlen - 1) (search_dir ++ b'/' ∷ filename) in
        let others = load_files search_dir rest in
        if is_module_file filename then load_options_module filebuf >> others else others

    -- the files of a directory that could be opened
    unfoldable pub load_entries : Name → Option (List Name) → Exec (Statics H L W) (Unit {0})
    unfolding load_files
    load_entries search_dir none = pure tt
    load_entries search_dir (some files) = load_files search_dir files

    -- `_load_options_modules_in_dir`
    unfoldable pub load_options_modules_in_dir : Name → Exec (Statics H L W) (Unit {0})
    unfolding load_entries
    load_options_modules_in_dir search_dir = load_entries search_dir (env.opendir search_dir)

    unfoldable pub search_builddir : Option Name → Exec (Statics H L W) (Unit {0})
    unfolding load_options_modules_in_dir
    search_builddir none = pure tt
    search_builddir (some dir) = load_options_modules_in_dir dir

    -- `list_iterator_create`, for a list that is not empty
    unfoldable pub create_iterator : Exec (Statics H L W) (Unit {0})
    create_iterator s =
        if is_empty s.modules_list
        then (some tt, s)
        else if env.list_iterator_create
        then (some tt, record s { modules_list_itr = true })
        else err_exit (codes "_load_options_modules: list_iterator_create") s

    unfoldable pub start_ltdl : Exec (Statics H L W) (Unit {0})
    start_ltdl s =
        if not env.lt_dlinit
        then err_exit (codes "_load_options_modules: lt_dlinit") s
        else if not env.list_create
        then err_exit (codes "_load_options_modules: list_create")
            (record s { dl_refs = suc s.dl_refs })
        else (some tt, record s { dl_refs = suc s.dl_refs; modules_list = [] })

    -- `_load_options_modules`
    unfoldable pub load_options_modules : Exec (Statics H L W) (Unit {0})
    unfolding start_ltdl search_builddir load_options_modules_in_dir create_iterator
    load_options_modules = do
      start_ltdl
      search_builddir env.module_builddir
      load_options_modules_in_dir env.module_dir
      create_iterator

  -- `_delete_whatsup_module_loadinfo`, which goes on after an error
  unfoldable pub delete_module_loadinfo : LoadInfo W → Statics H L W → Statics H L W
  unfolding called in_world
  delete_module_loadinfo info s = closed (in_world (called info.module_info.cleanup) s).1

  unfoldable pub delete_modules : List (LoadInfo W) → Statics H L W → Statics H L W
  unfolding delete_module_loadinfo
  delete_modules [] s = s
  delete_modules (m ∷ ms) s = delete_modules ms (delete_module_loadinfo m s)

  -- `_unload_options_modules`; the iterator goes with its list, and its pointer stays
  unfoldable pub unload_options_modules : Statics H L W → Statics H L W
  unfolding delete_modules
  unload_options_modules s =
      let s' = delete_modules s.modules_list s in
      record s' { modules_list = []; dl_refs = s'.dl_refs - 1 }
