-- ===== src/Prelude/Hoare.antt =====
-- What an action establishes: one postcondition where it returns, one where it fails.
use mathlib.Core.Option.{Option, none, some}
use mathlib.Core.Path.{◌≡◌, ◌∙◌}
use mathlib.Core.Bool.{Bool, true}
use whatsup.Prelude.Tests.{is_some, if◌then◌else◌, if-intro}
use whatsup.Prelude.Actions.{Exec, continue, ◌>>=◌}

abbrev pub Post : {S A : Type 0} → (A → S → Type 0) → (S → Type 0) → Option A × S → Type 0
Post Q R (none, s) = R s
Post Q R (some a, s) = Q a s

-- From `P` the action ends in `Q` with its result, or fails in `R`.
pub record Triple {S A : Type 0} (P : S → Type 0) (m : Exec S A) (Q : A → S → Type 0)
    (R : S → Type 0) : Type 0 where
  pub at : (s : S) → P s → Post Q R (m s)

module _ {S A B : Type 0} {Q : A → S → Type 0} {R : S → Type 0} {Q' : B → S → Type 0} where
  Post-continue :
      (r : Option A × S) (f : A → Exec S B)
      → Post Q R r
      → ((a : A) → Triple (Q a) (f a) Q' R)
      → Post Q' R (continue r.0 f r.1)
  Post-continue (none, s) f h k = h
  Post-continue (some a, s) f h k = (k a).at s h

  pub Triple-bind :
      {P : S → Type 0} (m : Exec S A) (f : A → Exec S B)
      → Triple P m Q R
      → ((a : A) → Triple (Q a) (f a) Q' R)
      → Triple P (m >>= f) Q' R
  Triple-bind m f hm hf = record { at = λ s h. Post-continue (m s) f (hm.at s h) hf }

pub Post-weaken :
    {S A : Type 0} (Q Q' : A → S → Type 0) (R : S → Type 0) (r : Option A × S)
    → ((a : A) (s : S) → Q a s → Q' a s)
    → Post Q R r
    → Post Q' R r
Post-weaken Q Q' R (none, s) k h = h
Post-weaken Q Q' R (some a, s) k h = k a s h

pub Post-then :
    {S A B : Type 0} (Q : A → S → Type 0) (Q' : B → S → Type 0) (r : Option A × S)
    (m : A → Exec S B)
    → Post Q (λ _. Unit {0}) r
    → ((a : A) (s : S) → Q a s → Post Q' (λ _. Unit {0}) (m a s))
    → Post Q' (λ _. Unit {0}) (continue r.0 m r.1)
Post-then Q Q' (none, s) m h k = tt
Post-then Q Q' (some a, s) m h k = k a s h

-- What holds of a state holds whether it comes with a result or with an error.
pub Post-any :
    {S A : Type 0} (Q : S → Type 0) (o : Option A) (s : S)
    → Q s
    → Post (λ _. Q) (λ _. Unit {0}) (o, s)
Post-any Q none s h = tt
Post-any Q (some a) s h = h

-- An action that leaves a part of the state as it is, whether it returns or fails.
pub record Keeps {S A X : Type 0} (part : S → X) (m : Exec S A) : Type 0 where
  pub at : (s : S) → part (m s).1 ≡ part s

module _ {S A B X : Type 0} (part : S → X) where
  Keeps-continue :
      (o : Option A) (s t : S) (f : A → Exec S B)
      → part t ≡ part s
      → ((a : A) → Keeps part (f a))
      → part (continue o f t).1 ≡ part s
  Keeps-continue none s t f h k = h
  Keeps-continue (some a) s t f h k = (k a).at t ∙ h

  pub Keeps-bind :
      (m : Exec S A) (f : A → Exec S B)
      → Keeps part m
      → ((a : A) → Keeps part (f a))
      → Keeps part (m >>= f)
  Keeps-bind m f h k = record { at = λ s. Keeps-continue (m s).0 s (m s).1 f (h.at s) k }

  -- a call whose result, error or not, what follows looks at
  pub Keeps-result :
      (m : Exec S A) (k : Option A → Exec S B)
      → Keeps part m
      → ((o : Option A) → Keeps part (k o))
      → Keeps part (λ s. k (m s).0 (m s).1)
  Keeps-result m k h l = record { at = λ s. (l (m s).0).at (m s).1 ∙ h.at s }

module _ {S A X : Type 0} (part : S → X) where
  pub Keeps-if :
      (b : S → Bool) (m n : Exec S A)
      → Keeps part m
      → Keeps part n
      → Keeps part (λ s. if b s then m s else n s)
  Keeps-if b m n h k = record {
    at =
        λ s. if-intro (λ (r : Option A × S). part r.1 ≡ part s) (b s) (m s) (n s) (h.at s) (k.at s);
  }

-- An action that returns from every state.
pub record Returns {S A : Type 0} (m : Exec S A) : Type 0 where
  pub at : (s : S) → is_some (m s).0 ≡ true

module _ {S A B : Type 0} where
  Returns-continue :
      (o : Option A) (s : S) (f : A → Exec S B)
      → is_some o ≡ true
      → ((a : A) → Returns (f a))
      → is_some (continue o f s).0 ≡ true
  Returns-continue none s f h k = cc
  Returns-continue (some a) s f h k = (k a).at s

  pub Returns-bind :
      (m : Exec S A) (f : A → Exec S B) → Returns m → ((a : A) → Returns (f a)) → Returns (m >>= f)
  Returns-bind m f h k = record { at = λ s. Returns-continue (m s).0 (m s).1 f (h.at s) k }

pub continue-some :
    {S A B : Type 0} (Q : A → S → Type 0) (r : Option A × S) (f : A → Exec S B)
    → is_some r.0 ≡ true
    → Post Q (λ _. Unit {0}) r
    → ((a : A) (s : S) → Q a s → is_some (f a s).0 ≡ true)
    → is_some (continue r.0 f r.1).0 ≡ true
continue-some Q (none, s) f h k l = cc
continue-some Q (some a, s) f h k l = l a s k
