-- ===== src/Program/Given.antt =====
-- Which module gets an option of the command line: the `switch` of `_cmdline_parse` of
-- src/whatsup/whatsup.c after the tables of options are built.
use whatsup.Prelude.{
  Bool, sym, subst, some_injective, Bool-cases, inl, inr, is_some, ℕ, ◌≡◌, refl, ap, ◌∙◌, true,
  false, Option, some, List, [], ◌∷◌, Name, strchr, get_elem?, All, All-get, ◌==◌, arith,
}
use whatsup.Program.State.{LoadInfo, Statics, ProgramEnv}
use whatsup.Program.Dispatch.{
  give_option, module_option, handle_option, watching, mark_watching, mark_processed,
}
use whatsup.Program.Table.{builtin_table, builtin_soptions, watch_modules}
use whatsup.Program.Watched.{has, offers, options_of, IsFresh, watching-watch_modules}

-- A letter that is not in a text differs from each letter of it.
absent : (c : ℕ) (s : Name) → has c s ≡ false → All (λ a. (c == a) ≡ false) s
unfolding has strchr
absent c [] h = tt
absent c (a ∷ s) h = (ground (arith, h), absent c s (ground (arith, h)))

module _ {W : Type 0} where
  -- the list after some options of its modules were noted as processed
  pub data Marked (ms : List (LoadInfo W)) : List (LoadInfo W) → Type 0 where
    unmarked : Marked ms ms
    marked : {l : List (LoadInfo W)} (d : ℕ) → Marked ms l → Marked ms (mark_watching d l)

  -- the same module, whatever was noted
  abbrev pub Same : LoadInfo W → LoadInfo W → Type 0
  Same m n = (n.handle ≡ m.handle) × (n.module_info ≡ m.module_info)

  abbrev Watched : ℕ → LoadInfo W → List (LoadInfo W) → Type 0
  Watched c m l = (n : LoadInfo W) × (watching c l ≡ some n) × Same m n

  abbrev watches : ℕ → LoadInfo W → Bool
  watches c m = is_some (strchr c m.options_towatch)

  watching_here :
      (c : ℕ) (m : LoadInfo W) (ms : List (LoadInfo W))
      → watches c m ≡ true
      → watching c (m ∷ ms) ≡ some m
  unfolding watching
  watching_here c m ms f = rw f refl

  watching_later :
      (c : ℕ) (m : LoadInfo W) (ms : List (LoadInfo W))
      → watches c m ≡ false
      → watching c (m ∷ ms) ≡ watching c ms
  unfolding watching
  watching_later c m ms f = rw f refl

  mark_here :
      (d : ℕ) (m : LoadInfo W) (ms : List (LoadInfo W))
      → watches d m ≡ true
      → mark_watching d (m ∷ ms) ≡ mark_processed d m ∷ ms
  unfolding mark_watching
  mark_here d m ms f = rw f refl

  mark_later :
      (d : ℕ) (m : LoadInfo W) (ms : List (LoadInfo W))
      → watches d m ≡ false
      → mark_watching d (m ∷ ms) ≡ m ∷ mark_watching d ms
  unfolding mark_watching
  mark_later d m ms f = rw f refl

  -- Noting an option does not change which module watches a letter.
  watching-mark :
      (c d : ℕ) (m : LoadInfo W) (l : List (LoadInfo W))
      → Watched c m l
      → Watched c m (mark_watching d l)
  unfolding mark_processed watching
  watching-mark c d m [] w = cc w.1
  watching-mark c d m (k ∷ l) w = elim (Bool-cases (watches c k)) [
    | inl f ↦
        let same : k ≡ w.0 = some_injective (sym (watching_here c k l f) ∙ w.1) in
        let mine : Same m k = subst (Same m) (sym same) w.2 in
        elim (Bool-cases (watches d k)) [
          | inl e ↦ (
            mark_processed d k,
            ap (watching c) (mark_here d k l e) ∙ watching_here c (mark_processed d k) l f,
            mine,
          )
          | inr e ↦ (
            k,
            ap (watching c) (mark_later d k l e) ∙ watching_here c k (mark_watching d l) f,
            mine,
          )
        ]
    | inr f ↦
        let later : Watched c m l = (w.0, sym (watching_later c k l f) ∙ w.1, w.2) in
        elim (Bool-cases (watches d k)) [
          | inl e ↦ (
            later.0,
            ap (watching c) (mark_here d k l e)
                ∙ watching_later c (mark_processed d k) l f
                ∙ later.1,
            later.2,
          )
          | inr e ↦
              let ih = watching-mark c d m l later in
              (
                ih.0,
                ap (watching c) (mark_later d k l e)
                    ∙ watching_later c k (mark_watching d l) f
                    ∙ ih.1,
                ih.2,
              )
        ]
  ]

  Marked-Watched :
      (c : ℕ) (m : LoadInfo W) (ms l : List (LoadInfo W))
      → Marked ms l
      → Watched c m ms
      → Watched c m l
  Marked-Watched c m ms l unmarked w = w
  Marked-Watched c m ms _ (marked d h) w = watching-mark c d m _ (Marked-Watched c m ms _ h w)

module _ {H L W : Type 0} (env : ProgramEnv H L W) where
  not_builtin :
      (c : ℕ) (optarg : Option Name) (s : Statics H L W)
      → has c builtin_soptions ≡ false
      → (c == b'?') ≡ false
      → handle_option env c optarg s ≡ module_option c optarg s
  unfolding handle_option
  not_builtin c optarg s h q =
      let d = λ (i : ℕ) (l : ℕ) (e : get_elem? builtin_soptions i ≡ some l).
        All-get (λ a. (c == a) ≡ false) builtin_soptions i l (absent c builtin_soptions h) e in
      rw
        (
          d 0 b'h' refl,
          d 1 b'v' refl,
          d 2 b'o' refl,
          d 4 b'p' refl,
          d 6 b'b' refl,
          d 7 b'u' refl,
          d 8 b'd' refl,
          d 9 b't' refl,
          d 10 b'q' refl,
          d 11 b'c' refl,
          d 12 b'n' refl,
          d 13 b's' refl,
          d 15 b'm' refl,
          d 14 b'r' refl,
          d 17 b'l' refl,
          d 18 b'f' refl,
          d 20 b'e' refl,
          q,
        )
        refl

  is_given :
      (c : ℕ) (optarg : Option Name) (m : LoadInfo W) (s : Statics H L W)
      → s.modules_list_itr ≡ true
      → watching c s.modules_list ≡ some m
      → module_option c optarg s ≡ give_option c optarg (some m) s
  unfolding module_option
  is_given c optarg m s i w = rw (i, w) refl

  -- Where the table is built from modules that watch nothing yet: a letter other than '?' that a
  -- module watches afterwards is one of its options, it is no letter of the program's own options,
  -- and the letter on the command line, also after other options of the modules, goes to the
  -- `process_option` of that module.
  pub handle_option-watch_modules :
      (ms : List (LoadInfo W)) (c i : ℕ) (m : LoadInfo W) (optarg : Option Name) (s : Statics H L W)
      → All IsFresh ms
      → get_elem? (watch_modules ms builtin_table).0 i ≡ some m
      → has c m.options_towatch ≡ true
      → (c == b'?') ≡ false
      → Marked (watch_modules ms builtin_table).0 s.modules_list
      → s.modules_list_itr ≡ true
      → ((n : LoadInfo W) × (handle_option env c optarg s ≡ give_option c optarg (some n) s)
          × Same m n)
        × (offers c (options_of m) ≡ true)
        × (has c builtin_soptions ≡ false)
  handle_option-watch_modules ms c i m optarg s f p h q l itr =
      let w = watching-watch_modules ms c i m f p h in
      let n = Marked-Watched c m _ s.modules_list l (m, w.0, (refl, refl)) in
      ((n.0, not_builtin c optarg s w.2 q ∙ is_given c optarg n.0 s itr n.1, n.2), w.1, w.2)
