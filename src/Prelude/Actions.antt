-- ===== src/Prelude/Actions.antt =====
-- Functions that change the state and may fail. A C function that returns -1 (or NULL) on error
-- and 0, a count, a truth value or a pointer otherwise is an action: `none` is the error, and the
-- state comes back on both ways.
use mathlib.Core.Option.{Option, none, some}

abbrev pub Exec {ℓ} : Type ℓ → Type ℓ → Type ℓ
Exec S A = S → Option A × S

abbrev pub continue {ℓ} : {S A B : Type ℓ} → Option A → (A → Exec S B) → Exec S B
continue none f s = (none, s)
continue (some a) f s = f a s

infixl 5 ◌>>=◌ ◌>>◌
abbrev pub ◌>>=◌ {ℓ} : {S A B : Type ℓ} → Exec S A → (A → Exec S B) → Exec S B
◌>>=◌ m f s = continue (m s).0 f (m s).1

abbrev pub ◌>>◌ {ℓ} : {S A B : Type ℓ} → Exec S A → Exec S B → Exec S B
m >> n = m >>= λ _. n

abbrev pub pure {ℓ} : {S A : Type ℓ} → A → Exec S A
pure a s = (some a, s)

abbrev pub fail {ℓ} : {S A : Type ℓ} → Exec S A
fail s = (none, s)

abbrev pub modify : {S : Type 0} → (S → S) → Exec S (Unit {0})
modify f s = (some tt, f s)

abbrev pub gets {ℓ} : {S A : Type ℓ} → (S → A) → Exec S A
gets f s = (some (f s), s)

-- A call through a pointer, or what is done where the pointer is NULL.
abbrev pub at_pointer {ℓ} : {I : Type 0} {B : Type ℓ} → Option I → (I → B) → B → B
at_pointer none call null = null
at_pointer (some i) call null = call i

pub at_pointer-intro {ℓ κ} :
    {I : Type 0} {B : Type ℓ} (P : B → Type κ) (o : Option I) (call : I → B) (null : B)
    → ((i : I) → P (call i))
    → P null
    → P (at_pointer o call null)
at_pointer-intro P none call null h k = k
at_pointer-intro P (some i) call null h k = h i
