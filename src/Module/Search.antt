-- ===== src/Module/Search.antt =====
-- What the module search does with the state, for any callback.
use whatsup.Prelude.{
  ℕ, inl, inr, Bool, true, false, Option, none, some, List, [], ◌∷◌, Name, str_eq, if◌then◌else◌,
  Bool-cases, Exec, continue, Option-cases,
}
use whatsup.Handle.State.{State}
use whatsup.Module.Info.{Env}
use whatsup.Module.Find.{
  Callback, filebuf, opened, closed, close_unless, load_symbol, load_opened, load_module,
  is_module_file, scan_known, find_known_in, find_known_module, find_unknown_in,
  find_unknown_module, find_in_builddir, find_module,
}

-- `Q` where a module was loaded, `P` where none was, and never the fatal error.
abbrev pub Searched : {S : Type 0} → (S → Type 0) → (S → Type 0) → Option Bool × S → Type 0
Searched P Q (none, s) = ⊥
Searched P Q (some true, s) = Q s
Searched P Q (some false, s) = P s

Searched-continue :
    {S : Type 0} (P Q : S → Type 0) (r : Option Bool × S) (rest : Exec S Bool)
    → Searched P Q r
    → ((s : S) → P s → Searched P Q (rest s))
    → Searched P Q (continue r.0 (λ flag s. (if flag then (λ t. (some true, t)) else rest) s) r.1)
Searched-continue P Q (none, s) rest h k = h
Searched-continue P Q (some true, s) rest h k = h
Searched-continue P Q (some false, s) rest h k = k s h

module _ {H T : Type 0} (env : Env H T) (callback : Callback H T) (sym : Name)
    (P Q : State H T → Type 0)
    (step : (dir file : Name) (s : State H T)
      → P s
      → Searched P Q (load_module env callback sym dir file s)) where
  scan_known-Searched :
      (dir wanted : Name) (dirents : List Name) (s : State H T)
      → P s
      → Searched P Q (scan_known env callback sym dir wanted dirents s)
  unfolding scan_known
  scan_known-Searched dir wanted [] s h = h
  scan_known-Searched dir wanted (d ∷ dirents) s h = elim (Bool-cases (str_eq d wanted)) [
    | inl e ↦
        rw e
          (Searched-continue P Q _ _ (step dir wanted s h) (scan_known-Searched dir wanted dirents))
    | inr e ↦ rw e (scan_known-Searched dir wanted dirents s h)
  ]

  find_known_in-Searched :
      (dir : Name) (dirents modules_list : List Name) (s : State H T)
      → P s
      → Searched P Q (find_known_in env callback sym dir dirents modules_list s)
  unfolding find_known_in
  find_known_in-Searched dir dirents [] s h = h
  find_known_in-Searched dir dirents (wanted ∷ modules_list) s h =
      Searched-continue P Q _ _ (scan_known-Searched dir wanted dirents s h)
        (find_known_in-Searched dir dirents modules_list)

  find_known_module-Searched :
      (dir : Name) (modules_list : List Name) (s : State H T)
      → P s
      → Searched P Q (find_known_module env callback sym dir modules_list s)
  unfolding find_known_module
  find_known_module-Searched dir modules_list s h = elim (Option-cases (env.opendir dir)) [
    | inl e ↦ rw (e, find_known_module) h
    | inr (dirents, e) ↦
        rw (e, find_known_module) (find_known_in-Searched dir dirents modules_list s h)
  ]

  find_unknown_in-Searched :
      (dir signature : Name) (dirents : List Name) (s : State H T)
      → P s
      → Searched P Q (find_unknown_in env callback sym dir signature dirents s)
  unfolding find_unknown_in
  find_unknown_in-Searched dir signature [] s h = h
  find_unknown_in-Searched dir signature (d ∷ dirents) s h =
      elim (Bool-cases (is_module_file signature d)) [
        | inl e ↦ rw e (
            Searched-continue P Q _ _ (step dir d s h)
              (find_unknown_in-Searched dir signature dirents))
        | inr e ↦ rw e (find_unknown_in-Searched dir signature dirents s h)
      ]

  find_unknown_module-Searched :
      (dir signature : Name) (s : State H T)
      → P s
      → Searched P Q (find_unknown_module env callback sym dir signature s)
  unfolding find_unknown_module
  find_unknown_module-Searched dir signature s h = elim (Option-cases (env.opendir dir)) [
    | inl e ↦ rw (e, find_unknown_module) h
    | inr (dirents, e) ↦
        rw (e, find_unknown_module) (find_unknown_in-Searched dir signature dirents s h)
  ]

  find_in_builddir-Searched :
      (dir : Option Name) (modules_list : List Name) (s : State H T)
      → P s
      → Searched P Q (find_in_builddir env callback sym dir modules_list s)
  unfolding find_in_builddir
  find_in_builddir-Searched none modules_list s h = h
  find_in_builddir-Searched (some dir) modules_list s h =
      find_known_module-Searched dir modules_list s h

  -- What loading one file does, the whole search does.
  pub find_module-Searched :
      (modules_list : List Name) (signature : Name) (s : State H T)
      → P s
      → Searched P Q (find_module env callback sym modules_list signature s)
  unfolding find_module
  find_module-Searched modules_list signature s h =
      Searched-continue P Q _ _ (find_in_builddir-Searched env.module_builddir modules_list s h)
        λ t k.
          Searched-continue P Q _ _ (find_known_module-Searched env.module_dir modules_list t k)
            (find_unknown_module-Searched env.module_dir signature)

-- Loading one file, for a callback that keeps or replaces what `P` says.
module _ {H T : Type 0} (env : Env H T) (callback : Callback H T) (sym : Name)
    (P Q : State H T → Type 0) (reopened : (s : State H T) → P s → P (closed (opened s)))
    (called : (dl info : ℕ) (s : State H T)
      → P s
      → Searched (λ t. P (closed t)) Q (callback (some dl) (some info) (opened s))) where
  close_unless-Searched :
      (r : Option Bool × State H T)
      → Searched (λ t. P (closed t)) Q r
      → Searched P Q (continue r.0 close_unless r.1)
  unfolding close_unless
  close_unless-Searched (none, s) h = h
  close_unless-Searched (some true, s) h = h
  close_unless-Searched (some false, s) h = h

  load_symbol-Searched :
      (dl : ℕ) (info : Option ℕ) (s : State H T)
      → P s
      → Searched P Q (load_symbol callback dl info (opened s))
  unfolding load_symbol
  load_symbol-Searched dl none s h = reopened s h
  load_symbol-Searched dl (some info) s h = close_unless-Searched _ (called dl info s h)

  load_opened-Searched :
      (dlsym : ℕ → Option ℕ) (dl : Option ℕ) (s : State H T)
      → P s
      → Searched P Q (load_opened dlsym callback dl s)
  unfolding load_opened
  load_opened-Searched dlsym none s h = h
  load_opened-Searched dlsym (some dl) s h = load_symbol-Searched dl (dlsym dl) s h

  pub load_module-Searched :
      (dir file : Name) (s : State H T)
      → P s
      → Searched P Q (load_module env callback sym dir file s)
  unfolding load_module
  load_module-Searched dir file s h = elim (Bool-cases (env.stat (filebuf dir file))) [
    | inl e ↦ rw e (load_opened-Searched _ (env.lt_dlopen (filebuf dir file)) s h)
    | inr e ↦ rw e h
  ]
