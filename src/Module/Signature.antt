-- ===== src/Module/Signature.antt =====
-- Which entries of a directory `_find_unknown_module` takes for modules.
use whatsup.Prelude.{
  ℕ, ◌≡◌, refl, sym, subst, ap, inl, inr, Bool, true, false, Option, none, some, [], ◌∷◌, ◌++◌,
  Name, is_some, codes, str_eq, strchr, starts_with, eq-str_eq, All, Bool-cases, arith, ◌==◌,
  if◌then◌else◌,
}
use whatsup.Module.Find.{is_module_file}

-- a name that ends in its only dot and "so"
pub data IsSoFile (d : Name) : Type 0 where
  so_file :
      (name : Name) → All (λ c. (c == b'.') ≡ false) name → d ≡ name ++ codes ".so" → IsSoFile d

-- a name that begins with a signature and ends in its only dot and "so"
pub data IsModuleFile (signature d : Name) : Type 0 where
  module_file :
      (name : Name)
      → All (λ c. (c == b'.') ≡ false) (signature ++ name)
      → d ≡ signature ++ (name ++ codes ".so")
      → IsModuleFile signature d

abbrev so_test : Option Name → Bool
so_test none = false
so_test (some ptr) = str_eq ptr (codes ".so")

dot_here :
    (c : ℕ) (d : Name)
    → (c == b'.') ≡ true
    → so_test (strchr b'.' (c ∷ d)) ≡ true
    → str_eq (c ∷ d) (codes ".so") ≡ true
unfolding strchr
dot_here c d e h = subst (λ b. so_test (if b then some (c ∷ d) else strchr b'.' d) ≡ true) e h

dot_later :
    (c : ℕ) (d : Name)
    → (c == b'.') ≡ false
    → so_test (strchr b'.' (c ∷ d)) ≡ true
    → so_test (strchr b'.' d) ≡ true
unfolding strchr
dot_later c d e h = subst (λ b. so_test (if b then some (c ∷ d) else strchr b'.' d) ≡ true) e h

first_of : (a b : Bool) → (if a then b else false) ≡ true → a ≡ true
first_of true b h = refl
first_of false b h = h

second_of : (a b : Bool) → (if a then b else false) ≡ true → b ≡ true
second_of true b h = h
second_of false b h = cc h

same_head : (a b : ℕ) (p d : Name) → starts_with (a ∷ p) (b ∷ d) ≡ true → a ≡ b
unfolding starts_with
same_head a b p d h = ground (arith, h)

same_cons : (a b : ℕ) (d r : Name) → a ≡ b → d ≡ r → b ∷ d ≡ a ∷ r
same_cons a b d r e f = rw (e, f) refl

same_tail : (a b : ℕ) (p d : Name) → starts_with (a ∷ p) (b ∷ d) ≡ true → starts_with p d ≡ true
unfolding starts_with
same_tail a b p d h = ground (arith, h)

so_add : (c : ℕ) (d : Name) → (c == b'.') ≡ false → IsSoFile d → IsSoFile (c ∷ d)
so_add c d n (so_file name a e) = so_file (c ∷ name) (n, a) (ap (λ x. c ∷ x) e)

so_test-IsSoFile : (d : Name) → so_test (strchr b'.' d) ≡ true → IsSoFile d
unfolding strchr
so_test-IsSoFile [] h = cc h
so_test-IsSoFile (c ∷ d) h = elim (Bool-cases (c == b'.')) [
  | inl e ↦ so_file [] tt (eq-str_eq (c ∷ d) (codes ".so") (dot_here c d e h))
  | inr e ↦ so_add c d e (so_test-IsSoFile d (dot_later c d e h))
]

-- The name that follows a signature without a dot.
signed :
    (signature d : Name)
    → All (λ c. (c == b'.') ≡ false) signature
    → starts_with signature d ≡ true
    → so_test (strchr b'.' d) ≡ true
    → IsModuleFile signature d
unfolding starts_with
signed [] d n s h = elim (so_test-IsSoFile d h) [ so_file name a e ↦ module_file name a e ]
signed (a ∷ p) [] n s h = cc s
signed (a ∷ p) (b ∷ d) n s h =
    let e = same_head a b p d s in
    elim (signed p d n.1 (same_tail a b p d s) (dot_later b d (rw (sym e) n.0) h)) [
      | module_file name al f ↦ module_file name (n.0, al) (same_cons a b d _ e f)
    ]

is_module_file-IsModuleFile :
    (signature d : Name)
    → All (λ c. (c == b'.') ≡ false) signature
    → is_module_file signature d ≡ true
    → IsModuleFile signature d
unfolding is_module_file
is_module_file-IsModuleFile signature d n h =
    signed signature d n (first_of (starts_with signature d) _ h)
      (second_of (starts_with signature d) _ h)

-- A name that is no module's is passed over.
pub is_module_file-false :
    (signature d : Name)
    → All (λ c. (c == b'.') ≡ false) signature
    → (IsModuleFile signature d → ⊥)
    → is_module_file signature d ≡ false
is_module_file-false signature d n other = elim (Bool-cases (is_module_file signature d)) [
  | inl e ↦ absurd (other (is_module_file-IsModuleFile signature d n e))
  | inr e ↦ e
]

so_test-so :
    (name : Name)
    → All (λ c. (c == b'.') ≡ false) name
    → so_test (strchr b'.' (name ++ codes ".so")) ≡ true
unfolding strchr str_eq
so_test-so [] a = refl
so_test-so (c ∷ name) a = rw a.0 (so_test-so name a.1)

starts_with-append : (p d : Name) → starts_with p (p ++ d) ≡ true
unfolding starts_with
starts_with-append [] d = refl
starts_with-append (a ∷ p) d = ground (arith, starts_with-append p d)

so_test-module :
    (signature name : Name)
    → All (λ c. (c == b'.') ≡ false) (signature ++ name)
    → so_test (strchr b'.' (signature ++ (name ++ codes ".so"))) ≡ true
unfolding strchr
so_test-module [] name a = so_test-so name a
so_test-module (c ∷ signature) name a = rw a.0 (so_test-module signature name a.1)

-- A module's name is taken.
pub is_module_file-true :
    (signature d : Name) → IsModuleFile signature d → is_module_file signature d ≡ true
unfolding is_module_file
is_module_file-true signature d (module_file name a e) =
    rw (e, starts_with-append signature (name ++ codes ".so")) (so_test-module signature name a)

-- A name in which `strchr` finds no dot.
pub dot_free : (s : Name) → is_some (strchr b'.' s) ≡ false → All (λ c. (c == b'.') ≡ false) s
unfolding strchr
dot_free [] h = tt
dot_free (c ∷ s) h = (ground (arith, h), dot_free s (ground (arith, h)))
