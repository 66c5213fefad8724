-- ===== src/Module/Find.antt =====
-- `_load_module`, `_find_known_module`, `_find_unknown_module` and `_find_module`. A callback's
-- result and theirs is `some true` for 1, `some false` for 0 and `none` for -1.
use whatsup.Prelude.{
  ℕ, ◌+◌, ◌-◌, Bool, true, false, Option, none, some, List, [], ◌∷◌, ◌++◌, Name, codes, str_eq,
  strchr, starts_with, take, if◌then◌else◌, Exec, ◌>>=◌, pure,
}
use whatsup.Handle.State.{State}
use whatsup.Module.Info.{Env}

-- NODEUPDOWN_MAXPATHLEN
abbrev pub maxpathlen : ℕ
maxpathlen = 256

-- the string that `snprintf(filebuf, NODEUPDOWN_MAXPATHLEN, "%s/%s", dir, filename)` leaves
unfoldable pub filebuf : Name → Name → Name
filebuf dir filename = take (maxpathlen - 1) (dir ++ (codes "/" ++ filename))

-- an entry with the signature that ends in its first dot and "so"
unfoldable pub is_module_file : Name → Name → Bool
is_module_file signature d_name =
    if starts_with signature d_name
    then elim (strchr b'.' d_name) [ none ↦ false | some ptr ↦ str_eq ptr (codes ".so") ]
    else false

abbrev pub Callback : Type 0 → Type 0 → Type 0
Callback H T = Option ℕ → Option ℕ → Exec (State H T) Bool

module _ {H T : Type 0} where
  abbrev pub opened : State H T → State H T
  opened s = record s { modules = record s.modules { dl_open = s.modules.dl_open + 1 } }

  -- `lt_dlclose`
  abbrev pub closed : State H T → State H T
  closed s = record s { modules = record s.modules { dl_open = s.modules.dl_open - 1 } }

  unfoldable pub close_unless : Bool → Exec (State H T) Bool
  close_unless true s = (some true, s)
  close_unless false s = (some false, closed s)

  -- what follows `lt_dlopen`
  unfoldable pub load_symbol : Callback H T → ℕ → Option ℕ → Exec (State H T) Bool
  load_symbol module_callback dl_handle none s = (some false, closed s)
  load_symbol module_callback dl_handle (some info) s =
      (module_callback (some dl_handle) (some info) >>= close_unless) s

  unfoldable pub load_opened : (ℕ → Option ℕ) → Callback H T → Option ℕ → Exec (State H T) Bool
  load_opened dlsym module_callback none s = (some false, s)
  load_opened dlsym module_callback (some dl_handle) s =
      load_symbol module_callback dl_handle (dlsym dl_handle) (opened s)

  module _ (env : Env H T) (module_callback : Callback H T) (module_info_sym : Name) where
    unfoldable pub load_module : Name → Name → Exec (State H T) Bool
    unfolding load_opened load_symbol close_unless
    load_module search_dir filename =
        let path = filebuf search_dir filename in
        if env.stat path
        then load_opened (λ dl. env.lt_dlsym dl module_info_sym) module_callback
            (env.lt_dlopen path)
        else pure false

    -- one pass of `readdir` for one module name
    unfoldable pub scan_known : Name → Name → List Name → Exec (State H T) Bool
    scan_known search_dir wanted [] = pure false
    scan_known search_dir wanted (d_name ∷ dirents) =
        let rest = scan_known search_dir wanted dirents in
        if str_eq d_name wanted
        then load_module search_dir wanted >>= (λ flag. if flag then pure true else rest)
        else rest

    unfoldable pub find_known_in : Name → List Name → List Name → Exec (State H T) Bool
    find_known_in search_dir dirents [] = pure false
    find_known_in search_dir dirents (wanted ∷ modules_list) =
        let rest = find_known_in search_dir dirents modules_list in
        scan_known search_dir wanted dirents >>= (λ flag. if flag then pure true else rest)

    unfoldable pub find_known_module : Name → List Name → Exec (State H T) Bool
    unfolding find_known_in scan_known
    find_known_module search_dir modules_list = elim (env.opendir search_dir) [
      | none ↦ pure false
      | some dirents ↦ find_known_in search_dir dirents modules_list
    ]

    unfoldable pub find_unknown_in : Name → Name → List Name → Exec (State H T) Bool
    find_unknown_in search_dir signature [] = pure false
    find_unknown_in search_dir signature (d_name ∷ dirents) =
        let rest = find_unknown_in search_dir signature dirents in
        if is_module_file signature d_name
        then load_module search_dir d_name >>= (λ flag. if flag then pure true else rest)
        else rest

    unfoldable pub find_unknown_module : Name → Name → Exec (State H T) Bool
    unfolding find_unknown_in is_module_file
    find_unknown_module search_dir signature = elim (env.opendir search_dir) [
      | none ↦ pure false
      | some dirents ↦ find_unknown_in search_dir signature dirents
    ]

    unfoldable pub find_in_builddir : Option Name → List Name → Exec (State H T) Bool
    find_in_builddir none modules_list = pure false
    find_in_builddir (some dir) modules_list = find_known_module dir modules_list

    unfoldable pub find_module : List Name → Name → Exec (State H T) Bool
    unfolding find_in_builddir
    find_module modules_list signature =
        find_in_builddir env.module_builddir modules_list >>= λ found_in_builddir.
        if found_in_builddir
        then pure true
        else find_known_module env.module_dir modules_list >>= λ found_known.
            if found_known then pure true else find_unknown_module env.module_dir signature
