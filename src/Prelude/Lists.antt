-- ===== src/Prelude/Lists.antt =====
-- Lists measured and indexed by native numbers, under the library's names.
use Prim.Native.Nat.{ℕ, zero, suc, ◌+◌, ◌<◌}
use mathlib.Core.Path.{◌≡◌, refl, ap, subst}
use mathlib.Core.Logic.{◌⊎◌, inl, inr}
use mathlib.Core.List.{List, [], ◌∷◌, ◌++◌, map}
use mathlib.Core.Option.{Option, none, some}
use mathlib.Core.Bool.{Bool, true, false}
use whatsup.Prelude.Tests.{is_some}
use native.Mathlib.Omega.{arith}

module _ {ℓ} {A : Type ℓ} where
  abbrev pub length : List A → ℕ
  length [] = 0
  length (x ∷ xs) = suc (length xs)

  abbrev pub get_elem? : List A → ℕ → Option A
  get_elem? [] i = none
  get_elem? (x ∷ xs) zero = some x
  get_elem? (x ∷ xs) (suc i) = get_elem? xs i

  abbrev pub get_or : List A → ℕ → A → A
  get_or [] i d = d
  get_or (x ∷ xs) zero d = x
  get_or (x ∷ xs) (suc i) d = get_or xs i d

  -- A write out of bounds changes nothing.
  abbrev pub set : List A → ℕ → A → List A
  set [] i v = []
  set (x ∷ xs) zero v = v ∷ xs
  set (x ∷ xs) (suc i) v = x ∷ set xs i v

  abbrev pub take : ℕ → List A → List A
  take zero xs = []
  take (suc n) [] = []
  take (suc n) (x ∷ xs) = x ∷ take n xs

  abbrev pub drop : ℕ → List A → List A
  drop zero xs = xs
  drop (suc n) [] = []
  drop (suc n) (x ∷ xs) = drop n xs

  pub length-append : (xs ys : List A) → length (xs ++ ys) ≡ length xs + length ys
  length-append [] ys = omega arith
  length-append (x ∷ xs) ys = omega (arith, length-append xs ys)

  -- An element of a list with one more is one of the list, or that one, at the end.
  pub get_elem?-append :
      (xs : List A) (x y : A) (k : ℕ)
      → get_elem? (xs ++ x ∷ []) k ≡ some y
      → (get_elem? xs k ≡ some y) ⊎ ((k ≡ length xs) × (x ≡ y))
  get_elem?-append [] x y zero h = inr (refl, cc)
  get_elem?-append [] x y (suc k) h = cc
  get_elem?-append (z ∷ xs) x y zero h = inl h
  get_elem?-append (z ∷ xs) x y (suc k) h = elim (get_elem?-append xs x y k h) [
    | inl e ↦ inl e
    | inr e ↦ inr (ap suc e.0, e.1)
  ]

  pub get_elem?-append_old :
      (xs : List A) (x y : A) (k : ℕ)
      → get_elem? xs k ≡ some y
      → get_elem? (xs ++ x ∷ []) k ≡ some y
  get_elem?-append_old [] x y k h = cc
  get_elem?-append_old (z ∷ xs) x y zero h = h
  get_elem?-append_old (z ∷ xs) x y (suc k) h = get_elem?-append_old xs x y k h

  pub get_elem?-append_last : (xs : List A) (x : A) → get_elem? (xs ++ x ∷ []) (length xs) ≡ some x
  get_elem?-append_last [] x = refl
  get_elem?-append_last (z ∷ xs) x = get_elem?-append_last xs x

  pub get_elem?-set_self :
      (xs : List A) (k : ℕ) (x v : A) → get_elem? xs k ≡ some x → get_elem? (set xs k v) k ≡ some v
  get_elem?-set_self [] k x v h = cc
  get_elem?-set_self (z ∷ xs) zero x v h = refl
  get_elem?-set_self (z ∷ xs) (suc k) x v h = get_elem?-set_self xs k x v h

  pub get_elem?-set_ne :
      (xs : List A) (j k : ℕ) (v : A) → (j ≡ k → ⊥) → get_elem? (set xs j v) k ≡ get_elem? xs k
  get_elem?-set_ne [] j k v h = refl
  get_elem?-set_ne (z ∷ xs) zero zero v h = absurd (h refl)
  get_elem?-set_ne (z ∷ xs) zero (suc k) v h = refl
  get_elem?-set_ne (z ∷ xs) (suc j) zero v h = refl
  get_elem?-set_ne (z ∷ xs) (suc j) (suc k) v h = get_elem?-set_ne xs j k v (λ e. h (ap suc e))

abbrev pub All {ℓ κ} : {A : Type ℓ} → (A → Type κ) → List A → Type κ
All P [] = Unit
All P (x ∷ xs) = P x × All P xs

abbrev pub is_empty {ℓ} : {A : Type ℓ} → List A → Bool
is_empty [] = true
is_empty (x ∷ xs) = false

pub some_injective {ℓ} : {A : Type ℓ} {x y : A} → some x ≡ some y → x ≡ y
some_injective e = cc

pub All-append {ℓ κ} :
    {A : Type ℓ} (P : A → Type κ) (xs : List A) (x : A) → All P xs → P x → All P (xs ++ x ∷ [])
All-append P [] x h k = (k, tt)
All-append P (y ∷ xs) x h k = (h.0, All-append P xs x h.1 k)

pub length-map {ℓ κ} :
    {A : Type ℓ} {B : Type κ} (f : A → B) (xs : List A) → length (map f xs) ≡ length xs
length-map f [] = refl
length-map f (x ∷ xs) = ap suc (length-map f xs)

pub get_elem?-map {ℓ κ} :
    {A : Type ℓ} {B : Type κ} (f : A → B) (xs : List A) (k : ℕ) (x : A)
    → get_elem? xs k ≡ some x
    → get_elem? (map f xs) k ≡ some (f x)
get_elem?-map f [] k x h = cc
get_elem?-map f (y ∷ xs) zero x h = cc
get_elem?-map f (y ∷ xs) (suc k) x h = get_elem?-map f xs k x h

pub get_elem?-map_inverse {ℓ κ} :
    {A : Type ℓ} {B : Type κ} (f : A → B) (xs : List A) (k : ℕ) (y : B)
    → get_elem? (map f xs) k ≡ some y
    → (x : A) × (get_elem? xs k ≡ some x) × (f x ≡ y)
get_elem?-map_inverse f [] k y h = cc
get_elem?-map_inverse f (x ∷ xs) zero y h = (x, refl, cc)
get_elem?-map_inverse f (x ∷ xs) (suc k) y h = get_elem?-map_inverse f xs k y h

pub All-get {ℓ κ} :
    {A : Type ℓ} (P : A → Type κ) (xs : List A) (k : ℕ) (x : A)
    → All P xs
    → get_elem? xs k ≡ some x
    → P x
All-get P [] k x h at = cc
All-get P (y ∷ xs) zero x h at = subst P (some_injective at) h.0
All-get P (y ∷ xs) (suc k) x h at = All-get P xs k x h.1 at

pub get_elem?-some :
    {A : Type 0} (xs : List A) (i : ℕ) → i < length xs → is_some (get_elem? xs i) ≡ true
get_elem?-some [] i h = absurd (omega (arith, h))
get_elem?-some (x ∷ xs) zero h = refl
get_elem?-some (x ∷ xs) (suc i) h = get_elem?-some xs i (omega (arith, h))
