-- ===== src/Module/Order.antt =====
-- Which module `_find_module` takes, where several are installed.
use whatsup.Prelude.{
  ◌≡◌, ◌==◌, refl, ap, inl, inr, Bool, true, false, ◌||◌, Option, none, some, List, [], ◌∷◌, ◌++◌,
  Name, str_eq, contains, Exec, pure, All, arith, Bool-cases,
}
use whatsup.Handle.State.{State}
use whatsup.Module.Info.{Env}
use whatsup.Module.Find.{
  Callback, load_module, scan_known, find_known_in, find_known_module, find_unknown_module,
  find_unknown_in, find_module, find_in_builddir,
}
use whatsup.Module.Signature.{IsModuleFile, is_module_file-true, is_module_file-false}

or_false : (a b : Bool) → (a || b) ≡ false → (a ≡ false) × (b ≡ false)
or_false a b h = ground arith

or_right : (a b : Bool) → a ≡ false → (a || b) ≡ true → b ≡ true
or_right a b e h = ground arith

module _ {H T : Type 0} (env : Env H T) (module_callback : Callback H T) (sym : Name) where
  scan_known-absent :
      (dir wanted : Name) (dirents : List Name) (s : State H T)
      → contains wanted dirents ≡ false
      → scan_known env module_callback sym dir wanted dirents s ≡ (some false, s)
  unfolding scan_known contains
  scan_known-absent dir wanted [] s h = refl
  scan_known-absent dir wanted (d ∷ dirents) s h =
      let o = or_false (str_eq d wanted) _ h in rw o.0 (scan_known-absent dir wanted dirents s o.1)

  scan_known-present :
      (dir wanted : Name) (dirents : List Name) (s t : State H T)
      → contains wanted dirents ≡ true
      → load_module env module_callback sym dir wanted s ≡ (some true, t)
      → scan_known env module_callback sym dir wanted dirents s ≡ (some true, t)
  unfolding scan_known contains
  scan_known-present dir wanted [] s t h l = cc h
  scan_known-present dir wanted (d ∷ dirents) s t h l = elim (Bool-cases (str_eq d wanted)) [
    | inl e ↦ rw e (rw l refl)
    | inr e ↦ rw e (scan_known-present dir wanted dirents s t (or_right (str_eq d wanted) _ e h) l)
  ]

  find_known_in-first :
      (dir : Name) (dirents before : List Name) (wanted : Name) (after : List Name)
      (s t : State H T)
      → All (λ n. contains n dirents ≡ false) before
      → contains wanted dirents ≡ true
      → load_module env module_callback sym dir wanted s ≡ (some true, t)
      → find_known_in env module_callback sym dir dirents (before ++ wanted ∷ after) s
        ≡ (some true, t)
  unfolding find_known_in
  find_known_in-first dir dirents [] wanted after s t a p l =
      rw (scan_known-present dir wanted dirents s t p l) refl
  find_known_in-first dir dirents (b ∷ before) wanted after s t a p l =
      rw (scan_known-absent dir b dirents s a.0)
        (find_known_in-first dir dirents before wanted after s t a.1 p l)

  nothing_built :
      (modules_list : List Name) (s : State H T)
      → env.module_builddir ≡ none
      → find_in_builddir env module_callback sym env.module_builddir modules_list s
        ≡ (some false, s)
  unfolding find_in_builddir
  nothing_built modules_list s e =
      ap (λ o. find_in_builddir env module_callback sym o modules_list s) e

  in_directory :
      (dir : Name) (dirents modules_list : List Name) (s : State H T)
      → env.opendir dir ≡ some dirents
      → find_known_module env module_callback sym dir modules_list s
        ≡ find_known_in env module_callback sym dir dirents modules_list s
  unfolding find_known_module
  in_directory dir dirents modules_list s e =
      ap
        (λ (o : Option (List Name)).
          (elim o as (λ _. Exec (State H T) Bool) [
            | none ↦ pure false
            | some ds ↦ find_known_in env module_callback sym dir ds modules_list
          ])
            s)
        e

  -- Of the known modules, the first in the order of the code's list that is in the module directory
  -- is taken, if it loads, whatever the order of the directory: in a build that has no build
  -- directory to search.
  pub find_module-first :
      (dirents before : List Name) (wanted : Name) (after : List Name) (signature : Name)
      (s t : State H T)
      → env.module_builddir ≡ none
      → env.opendir env.module_dir ≡ some dirents
      → All (λ n. contains n dirents ≡ false) before
      → contains wanted dirents ≡ true
      → load_module env module_callback sym env.module_dir wanted s ≡ (some true, t)
      → find_module env module_callback sym (before ++ wanted ∷ after) signature s ≡ (some true, t)
  unfolding find_module
  find_module-first dirents before wanted after signature s t none_built opened a p l =
      rw (nothing_built _ s none_built) (
        rw (in_directory env.module_dir dirents (before ++ wanted ∷ after) s opened)
          (rw (find_known_in-first env.module_dir dirents before wanted after s t a p l) refl))

  find_known_in-absent :
      (dir : Name) (dirents modules_list : List Name) (s : State H T)
      → All (λ n. contains n dirents ≡ false) modules_list
      → find_known_in env module_callback sym dir dirents modules_list s ≡ (some false, s)
  unfolding find_known_in
  find_known_in-absent dir dirents [] s a = refl
  find_known_in-absent dir dirents (b ∷ modules_list) s a =
      rw (scan_known-absent dir b dirents s a.0)
        (find_known_in-absent dir dirents modules_list s a.1)

  find_unknown_in-first :
      (dir signature : Name) (before : List Name) (wanted : Name) (after : List Name)
      (s t : State H T)
      → All (λ c. (c == b'.') ≡ false) signature
      → All (λ d. IsModuleFile signature d → ⊥) before
      → IsModuleFile signature wanted
      → load_module env module_callback sym dir wanted s ≡ (some true, t)
      → find_unknown_in env module_callback sym dir signature (before ++ wanted ∷ after) s
        ≡ (some true, t)
  unfolding find_unknown_in
  find_unknown_in-first dir signature [] wanted after s t n a w l =
      rw (is_module_file-true signature wanted w) (rw l refl)
  find_unknown_in-first dir signature (b ∷ before) wanted after s t n a w l =
      rw (is_module_file-false signature b n a.0)
        (find_unknown_in-first dir signature before wanted after s t n a.1 w l)

  in_unknown :
      (dir signature : Name) (dirents : List Name) (s : State H T)
      → env.opendir dir ≡ some dirents
      → find_unknown_module env module_callback sym dir signature s
        ≡ find_unknown_in env module_callback sym dir signature dirents s
  unfolding find_unknown_module
  in_unknown dir signature dirents s e =
      ap
        (λ (o : Option (List Name)).
          (elim o as (λ _. Exec (State H T) Bool) [
            | none ↦ pure false
            | some ds ↦ find_unknown_in env module_callback sym dir signature ds
          ])
            s)
        e

  -- Where none of the known modules is in the module directory, the search takes the first entry of
  -- the directory that begins with the signature and ends in ".so" with no other dot, if that entry
  -- loads: also where the only known module is the one that the caller named. This is for a
  -- signature without a dot, in a build that has no build directory to search.
  pub find_module-unknown :
      (before : List Name) (wanted : Name) (after modules_list : List Name) (signature : Name)
      (s t : State H T)
      → env.module_builddir ≡ none
      → env.opendir env.module_dir ≡ some (before ++ wanted ∷ after)
      → All (λ n. contains n (before ++ wanted ∷ after) ≡ false) modules_list
      → All (λ c. (c == b'.') ≡ false) signature
      → All (λ d. IsModuleFile signature d → ⊥) before
      → IsModuleFile signature wanted
      → load_module env module_callback sym env.module_dir wanted s ≡ (some true, t)
      → find_module env module_callback sym modules_list signature s ≡ (some true, t)
  unfolding find_module
  find_module-unknown before wanted after modules_list signature s t none_built opened a n b w l =
      let dirents = before ++ wanted ∷ after in
      rw (nothing_built modules_list s none_built) (
        rw (in_directory env.module_dir dirents modules_list s opened) (
          rw (find_known_in-absent env.module_dir dirents modules_list s a) (
            rw (in_unknown env.module_dir signature dirents s opened) (
              rw (find_unknown_in-first env.module_dir signature before wanted after s t n b w l)
                refl))))
