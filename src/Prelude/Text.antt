-- ===== src/Prelude/Text.antt =====
-- C strings as lists of byte values, and the functions of <string.h> and <ctype.h> that the
-- program calls.
use Prim.Native.Nat.{ℕ}
use Prim.Native.Char.{code}
use Prim.Native.String.{String}
use mathlib.Core.Path.{◌≡◌, refl, sym, ap, ◌∙◌}
use mathlib.Core.Logic.{◌≢◌, ◌⊎◌, inl, inr}
use mathlib.Core.Bool.{Bool, true, false, ◌&&◌, ◌||◌}
use mathlib.Core.List.{List, [], ◌∷◌}
use native.Mathlib.Omega.{arith}
use mathlib.Core.Option.{Option, none, some}
use whatsup.Prelude.Tests.{◌==◌, leb, if◌then◌else◌, Bool-cases, Bool-differ}

abbrev pub Name : Type 0
Name = List ℕ

-- The bytes of an ASCII literal.
abbrev pub codes : String → Name
codes String.[] = []
codes (String.◌∷◌ c s) = code c ∷ codes s

-- `strcmp(s, t) == 0`
unfoldable pub str_eq : Name → Name → Bool
str_eq [] [] = true
str_eq (a ∷ s) (b ∷ t) = a == b && str_eq s t
str_eq [] (b ∷ t) = false
str_eq (a ∷ s) [] = false

pub str_eq_refl : (s : Name) → str_eq s s ≡ true
unfolding str_eq
str_eq_refl [] = refl
str_eq_refl (a ∷ s) = ground (arith, str_eq_refl s)

pub eq-str_eq : (s t : Name) → str_eq s t ≡ true → s ≡ t
unfolding str_eq
eq-str_eq [] [] h = refl
eq-str_eq [] (b ∷ t) h = cc
eq-str_eq (a ∷ s) [] h = cc
eq-str_eq (a ∷ s) (b ∷ t) h = ground (arith, eq-str_eq s t)

pub str_eq-ne : (s t : Name) → s ≢ t → str_eq s t ≡ false
str_eq-ne s t h = elim (Bool-cases (str_eq s t)) [
  | inl e ↦ absurd (h (eq-str_eq s t e))
  | inr e ↦ e
]

-- Two strings are equal or not.
pub Name-cases : (s t : Name) → (s ≡ t) ⊎ (s ≢ t)
Name-cases s t = elim (Bool-cases (str_eq s t)) [
  | inl e ↦ inl (eq-str_eq s t e)
  | inr e ↦ inr λ h. Bool-differ (sym (str_eq_refl s) ∙ ap (str_eq s) h ∙ e)
]

-- Membership of a string in a list, by `strcmp`.
unfoldable pub contains : Name → List Name → Bool
contains n [] = false
contains n (m ∷ ms) = str_eq m n || contains n ms

-- `strchr`: what follows from the first `c` on, with it.
unfoldable pub strchr : ℕ → Name → Option Name
strchr c [] = none
strchr c (a ∷ s) = if a == c then some (a ∷ s) else strchr c s

-- `strstr(s, p) == s`
unfoldable pub starts_with : Name → Name → Bool
starts_with [] s = true
starts_with (a ∷ p) [] = false
starts_with (a ∷ p) (b ∷ s) = a == b && starts_with p s

-- `isspace` in the C locale
unfoldable pub isspace : ℕ → Bool
isspace c = c == 32 || (leb 9 c && leb c 13)

-- the string at a buffer: the bytes before the first '\0'
unfoldable pub c_string : Name → Name
c_string [] = []
c_string (c ∷ cs) = let rest = c_string cs in if c == 0 then [] else c ∷ rest
