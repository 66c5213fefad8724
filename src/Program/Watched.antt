-- ===== src/Program/Watched.antt =====
-- Which module watches which letter: the tables that `_cmdline_parse` of src/whatsup/whatsup.c
-- builds.
use whatsup.Prelude.{
  ℕ, zero, suc, ◌≡◌, refl, sym, ap, subst, ◌∙◌, Bool, true, false, ◌||◌, ◌⊎◌, inl, inr, Option,
  none, some, some_injective, List, [], ◌∷◌, ◌++◌, Name, strchr, is_some, get_elem?, All, All-get,
  ◌==◌, if◌then◌else◌, Bool-cases, arith,
}
use whatsup.Program.State.{WhatsupOption, LoadInfo}
use whatsup.Program.Modules.{option_list}
use whatsup.Program.Dispatch.{watching}
use whatsup.Program.Table.{
  Table, builtin_table, builtin_soptions, is_full, add_option, add_long, watch_options,
  watch_modules,
}

unfoldable pub has : ℕ → Name → Bool
unfolding strchr
has c s = is_some (strchr c s)

has-append : (c : ℕ) (s t : Name) → has c (s ++ t) ≡ has c s || has c t
unfolding has
has-append c [] t = refl
has-append c (a ∷ s) t = ground (arith, has-append c s t)

has-singleton : (c a : ℕ) → has c (a ∷ []) ≡ (a == c)
unfolding has
has-singleton c a = ground arith

-- whether the letter is one of the options
unfoldable pub offers : ℕ → List WhatsupOption → Bool
offers c [] = false
offers c (o ∷ os) = o.option == c || offers c os

-- What the options of a module may do to the table: the letters stay, and a letter that the module
-- watches from then on is one of its options and was not there.
record Grows (os : List WhatsupOption) (t u : Table) : Type 0 where
  soptions : (c : ℕ) → has c t.soptions ≡ true → has c u.soptions ≡ true
  towatch :
      (c : ℕ)
      → has c u.towatch ≡ true
      → (has c t.towatch ≡ true)
        ⊎ ((has c t.soptions ≡ false) × (has c u.soptions ≡ true) × (offers c os ≡ true))

add_long-soptions :
    (name : Option Name) (o : WhatsupOption) (t : Table) → (add_long name o t).soptions ≡ t.soptions
unfolding add_long
add_long-soptions none o t = refl
add_long-soptions (some name) o t = refl

add_long-towatch :
    (name : Option Name) (o : WhatsupOption) (t : Table) → (add_long name o t).towatch ≡ t.towatch
unfolding add_long
add_long-towatch none o t = refl
add_long-towatch (some name) o t = refl

add_option-soptions :
    (o : WhatsupOption) (t : Table)
    → (add_option o t).soptions
      ≡ (t.soptions ++ o.option ∷ []) ++ (if is_some o.option_arg then b':' ∷ [] else [])
unfolding add_option
add_option-soptions o t = add_long-soptions o.option_long o _

add_option-towatch :
    (o : WhatsupOption) (t : Table) → (add_option o t).towatch ≡ t.towatch ++ o.option ∷ []
unfolding add_option
add_option-towatch o t = add_long-towatch o.option_long o _

has-add_option :
    (c : ℕ) (o : WhatsupOption) (t : Table)
    → has c (add_option o t).soptions
      ≡ (has c t.soptions || (o.option == c))
        || has c (if is_some o.option_arg then b':' ∷ [] else [])
has-add_option c o t = rw (add_option-soptions o t) (
    rw (has-append c (t.soptions ++ o.option ∷ []) (if is_some o.option_arg then b':' ∷ [] else []))
      (rw (has-append c t.soptions (o.option ∷ [])) (rw (has-singleton c o.option) refl)))

has-add_option_towatch :
    (c : ℕ) (o : WhatsupOption) (t : Table)
    → has c (add_option o t).towatch ≡ has c t.towatch || (o.option == c)
has-add_option_towatch c o t =
    rw (add_option-towatch o t)
      (rw (has-append c t.towatch (o.option ∷ [])) (rw (has-singleton c o.option) refl))

Grows-refl : (os : List WhatsupOption) (t : Table) → Grows os t t
Grows-refl os t = record { soptions = λ c h. h; towatch = λ c h. inl h }

Grows-add_option :
    (o : WhatsupOption) (os : List WhatsupOption) (t : Table)
    → has o.option t.soptions ≡ false
    → Grows (o ∷ os) t (add_option o t)
unfolding offers
Grows-add_option o os t h = record {
  soptions = λ c k. has-add_option c o t ∙ ground (arith, k);
  towatch = λ c k. elim (Bool-cases (o.option == c)) [
    | inl e ↦
        inr (ground (arith, h, e), has-add_option c o t ∙ ground (arith, e), ground (arith, e))
    | inr e ↦ inl (ground (arith, k, e, has-add_option_towatch c o t))
  ];
}

Grows-cons :
    (o : WhatsupOption) (os : List WhatsupOption) (t u v : Table)
    → Grows (o ∷ os) t u
    → Grows os u v
    → Grows (o ∷ os) t v
unfolding offers
Grows-cons o os t u v g h = record {
  soptions = λ c k. h.soptions c (g.soptions c k);
  towatch = λ c k. elim (h.towatch c k) [
    | inl e ↦ elim (g.towatch c e) [ inl f ↦ inl f | inr f ↦ inr (f.0, h.soptions c f.1, f.2) ]
    | inr e ↦ inr (
      elim (Bool-cases (has c t.soptions)) [ inl f ↦ cc (e.0, g.soptions c f) | inr f ↦ f ],
      e.1,
      ground (arith, e.2),
    )
  ];
}

watch_options-Grows : (os : List WhatsupOption) (t : Table) → Grows os t (watch_options os t)
unfolding watch_options has
watch_options-Grows [] t = Grows-refl [] t
watch_options-Grows (o ∷ os) t = elim (Bool-cases (is_full o t)) [
  | inl e ↦ rw e (Grows-refl (o ∷ os) t)
  | inr e ↦ rw e (elim (Bool-cases (is_some (strchr o.option t.soptions))) [
    | inl f ↦ rw f (Grows-cons o os t t _ (Grows-refl (o ∷ os) t) (watch_options-Grows os t))
    | inr f ↦ rw f (
        Grows-cons o os t (add_option o t) _ (Grows-add_option o os t f)
          (watch_options-Grows os (add_option o t)))
  ])
]

abbrev pub options_of : {W : Type 0} → LoadInfo W → List WhatsupOption
options_of m = option_list m.module_info.options

module _ {W : Type 0} where
  -- A module as `_load_options_module` lists it watches nothing.
  abbrev pub IsFresh : LoadInfo W → Type 0
  IsFresh m = m.options_towatch ≡ []

  -- the table from which the options of a module are watched
  abbrev for_module : LoadInfo W → Table → Table
  for_module m t = record t { towatch = m.options_towatch }

  -- The modules of the list watch letters of their own that are not in the table yet.
  Owned : Table → LoadInfo W → Type 0
  Owned t m =
      (c : ℕ)
      → has c m.options_towatch ≡ true
      → (has c t.soptions ≡ false) × (offers c (options_of m) ≡ true)

  fresh-Owned :
      (m : LoadInfo W) (t u : Table)
      → IsFresh m
      → Grows (options_of m) (for_module m t) u
      → (c : ℕ) → has c u.towatch ≡ true
      → (has c t.soptions ≡ false) × (has c u.soptions ≡ true) × (offers c (options_of m) ≡ true)
  unfolding has
  fresh-Owned m t u f g c h = elim (g.towatch c h) [ inl e ↦ cc e | inr e ↦ e ]

  All-Owned_mono :
      (t u : Table) (ms : List (LoadInfo W))
      → ((c : ℕ) → has c t.soptions ≡ true → has c u.soptions ≡ true)
      → All (Owned u) ms
      → All (Owned t) ms
  unfolding Owned
  All-Owned_mono t u [] g h = tt
  All-Owned_mono t u (m ∷ ms) g h = (
    λ c k. (
      elim (Bool-cases (has c t.soptions)) [ inl e ↦ cc (g c e, (h.0 c k).0) | inr e ↦ e ],
      (h.0 c k).1,
    ),
    All-Owned_mono t u ms g h.1,
  )

  watch_modules-Owned :
      (ms : List (LoadInfo W)) (t : Table) → All IsFresh ms → All (Owned t) (watch_modules ms t).0
  unfolding watch_modules Owned
  watch_modules-Owned [] t h = tt
  watch_modules-Owned (m ∷ ms) t h =
      let u = watch_options (options_of m) (for_module m t) in
      let g = watch_options-Grows (options_of m) (for_module m t) in
      (
        λ c k. ((fresh-Owned m t u h.0 g c k).0, (fresh-Owned m t u h.0 g c k).2),
        All-Owned_mono t u (watch_modules ms u).0 g.soptions (watch_modules-Owned ms u h.1),
      )

  -- no later module of the list watches a letter of an earlier one
  watch_modules-apart :
      (ms : List (LoadInfo W)) (t : Table) (c i j : ℕ) (m n : LoadInfo W)
      → All IsFresh ms
      → get_elem? (watch_modules ms t).0 i ≡ some m
      → get_elem? (watch_modules ms t).0 j ≡ some n
      → has c m.options_towatch ≡ true
      → has c n.options_towatch ≡ true
      → i ≡ j
  unfolding watch_modules Owned
  watch_modules-apart [] t c i j m n f p q h k = cc
  watch_modules-apart (l ∷ ms) t c zero zero m n f p q h k = refl
  watch_modules-apart (l ∷ ms) t c zero (suc j) m n f p q h k =
      let u = watch_options (options_of l) (for_module l t) in
      let own = All-get (Owned u) (watch_modules ms u).0 j n (watch_modules-Owned ms u f.1) q c k in
      let mine =
        fresh-Owned l t u f.0 (watch_options-Grows (options_of l) (for_module l t)) c
          (subst (λ x. has c x.options_towatch ≡ true) (sym (some_injective p)) h) in
      cc (own.0, mine.1)
  watch_modules-apart (l ∷ ms) t c (suc i) zero m n f p q h k =
      let u = watch_options (options_of l) (for_module l t) in
      let own = All-get (Owned u) (watch_modules ms u).0 i m (watch_modules-Owned ms u f.1) p c h in
      let mine =
        fresh-Owned l t u f.0 (watch_options-Grows (options_of l) (for_module l t)) c
          (subst (λ x. has c x.options_towatch ≡ true) (sym (some_injective q)) k) in
      cc (own.0, mine.1)
  watch_modules-apart (l ∷ ms) t c (suc i) (suc j) m n f p q h k =
      ap suc (
        watch_modules-apart ms (watch_options (options_of l) (for_module l t)) c i j m n f.1 p q h
          k)

  -- the first module that watches a letter is in the list
  watching-some :
      (c : ℕ) (ms : List (LoadInfo W)) (i : ℕ) (m : LoadInfo W)
      → get_elem? ms i ≡ some m
      → has c m.options_towatch ≡ true
      → (k : ℕ) × (n : LoadInfo W) × (get_elem? ms k ≡ some n)
        × (has c n.options_towatch ≡ true)
        × (watching c ms ≡ some n)
  unfolding watching has
  watching-some c [] i m p h = cc
  watching-some c (l ∷ ms) zero m p h =
      let e : is_some (strchr c l.options_towatch) ≡ true = cc in (0, l, refl, e, rw e refl)
  watching-some c (l ∷ ms) (suc i) m p h =
      elim (Bool-cases (is_some (strchr c l.options_towatch))) [
        | inl e ↦ (0, l, refl, e, rw e refl)
        | inr e ↦ let r = watching-some c ms i m p h in (suc r.0, r.1, r.2, r.3, rw e r.4)
      ]

  -- Where the table is built from modules that watch nothing yet: a letter that a module watches
  -- afterwards is one of its options, it is no letter of the program's own options, and that module
  -- is the one that is given the letter when it is found on the command line.
  pub watching-watch_modules :
      (ms : List (LoadInfo W)) (c i : ℕ) (m : LoadInfo W)
      → All IsFresh ms
      → get_elem? (watch_modules ms builtin_table).0 i ≡ some m
      → has c m.options_towatch ≡ true
      → (watching c (watch_modules ms builtin_table).0 ≡ some m)
        × (offers c (options_of m) ≡ true)
        × (has c builtin_soptions ≡ false)
  unfolding builtin_table Owned
  watching-watch_modules ms c i m f p h =
      let r = watching-some c (watch_modules ms builtin_table).0 i m p h in
      let same : r.0 ≡ i = watch_modules-apart ms builtin_table c r.0 i r.1 m f r.2 p r.3 h in
      let own =
        All-get (Owned builtin_table) (watch_modules ms builtin_table).0 i m
          (watch_modules-Owned ms builtin_table f) p c h in
      (r.4 ∙ sym r.2 ∙ ap (get_elem? (watch_modules ms builtin_table).0) same ∙ p, own.1, own.0)
