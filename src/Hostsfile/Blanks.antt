-- ===== src/Hostsfile/Blanks.antt =====
-- What `_remove_trailing_whitespace` leaves of a buffer, byte by byte.
use whatsup.Prelude.{
  ℕ, zero, suc, ◌-◌, ◌≤◌, ◌<◌, ◌≡◌, ◌⊎◌, inl, inr, refl, ap, ◌∙◌, sym, true, false, [], ◌∷◌, Name,
  get_or, set, isspace, arith, if-cases,
}
use whatsup.Hostsfile.Lines.{remove_trailing_whitespace}

-- The byte `i` of the buffer is kept, or it was a blank and is blanked out.
abbrev pub KeptOrBlank : Name → ℕ → Name × ℕ → Type 0
KeptOrBlank buf i r =
    ((i < r.1) × (get_or r.0 i 0 ≡ get_or buf i 0))
    ⊎ ((r.1 ≤ i) × (isspace (get_or buf i 0) ≡ true) × (get_or r.0 i 0 ≡ 0))

-- The last byte that is left is no blank.
abbrev pub EndsInText : Name → Name × ℕ → Type 0
EndsInText buf r = (r.1 ≡ 0) ⊎ (isspace (get_or buf (r.1 - 1) 0) ≡ false)

get_or-set_self : (buf : Name) (n : ℕ) → get_or (set buf n 0) n 0 ≡ 0
get_or-set_self [] n = refl
get_or-set_self (c ∷ cs) zero = refl
get_or-set_self (c ∷ cs) (suc n) = get_or-set_self cs n

get_or-set_lt : (buf : Name) (n i : ℕ) → i < n → get_or (set buf n 0) i 0 ≡ get_or buf i 0
get_or-set_lt [] n i h = refl
get_or-set_lt (c ∷ cs) zero i h = absurd (omega (arith, h))
get_or-set_lt (c ∷ cs) (suc n) zero h = refl
get_or-set_lt (c ∷ cs) (suc n) (suc i) h = get_or-set_lt cs n i (omega (arith, h))

get_or-set_gt : (buf : Name) (n i : ℕ) → n < i → get_or (set buf n 0) i 0 ≡ get_or buf i 0
get_or-set_gt [] n i h = refl
get_or-set_gt (c ∷ cs) zero zero h = absurd (omega (arith, h))
get_or-set_gt (c ∷ cs) zero (suc i) h = refl
get_or-set_gt (c ∷ cs) (suc n) zero h = absurd (omega (arith, h))
get_or-set_gt (c ∷ cs) (suc n) (suc i) h = get_or-set_gt cs n i (omega (arith, h))

-- Bytes from the given length on stay as they are.
trailing-beyond :
    (buf : Name) (n i : ℕ)
    → n ≤ i
    → get_or (remove_trailing_whitespace buf n).0 i 0 ≡ get_or buf i 0
unfolding remove_trailing_whitespace
trailing-beyond buf zero i h = refl
trailing-beyond buf (suc n) i h =
    if-cases (λ (r : Name × ℕ). get_or r.0 i 0 ≡ get_or buf i 0) (isspace (get_or buf n 0)) _ _
      (λ _. trailing-beyond (set buf n 0) n i (omega (arith, h)) ∙ get_or-set_gt buf n i h)
      (λ _. refl)

trailing-length : (buf : Name) (n : ℕ) → (remove_trailing_whitespace buf n).1 ≤ n
unfolding remove_trailing_whitespace
trailing-length buf zero = omega arith
trailing-length buf (suc n) =
    if-cases (λ (r : Name × ℕ). r.1 ≤ suc n) (isspace (get_or buf n 0)) _ _
      (λ _. omega (arith, trailing-length (set buf n 0) n)) (λ _. omega arith)

le-cases : (i n : ℕ) → i < suc n → (i < n) ⊎ (i ≡ n)
le-cases i n h = ground (arith, h)

-- The step of the loop that blanks the byte `n`.
blank_step :
    (buf : Name) (n i : ℕ) (r : Name × ℕ)
    → i < n
    → KeptOrBlank (set buf n 0) i r
    → KeptOrBlank buf i r
blank_step buf n i r h (inl k) = inl (k.0, k.1 ∙ get_or-set_lt buf n i h)
blank_step buf n i r h (inr k) = inr (k.0, ap isspace (sym (get_or-set_lt buf n i h)) ∙ k.1, k.2)

trailing-KeptOrBlank :
    (n : ℕ) (buf : Name) (i : ℕ) → i < n → KeptOrBlank buf i (remove_trailing_whitespace buf n)
unfolding remove_trailing_whitespace
trailing-KeptOrBlank zero buf i h = absurd (omega (arith, h))
trailing-KeptOrBlank (suc n) buf i h =
    if-cases (KeptOrBlank buf i) (isspace (get_or buf n 0)) _ _
      (λ e. elim (le-cases i n h) [
        | inl l ↦ blank_step buf n i _ l (trailing-KeptOrBlank n (set buf n 0) i l)
        | inr q ↦ rw q (
            inr (
              trailing-length (set buf n 0) n,
              e,
              trailing-beyond (set buf n 0) n n (omega arith) ∙ get_or-set_self buf n,
            ))
      ])
      (λ _. inl (h, refl))

-- The end of the text is the same before and after the step that blanks the byte `n`.
end_step :
    (buf : Name) (n : ℕ) (r : Name × ℕ) → r.1 ≤ n → EndsInText (set buf n 0) r → EndsInText buf r
end_step buf n r h (inl z) = inl z
end_step buf n (b, zero) h (inr t) = inl refl
end_step buf n (b, suc k) h (inr t) =
    inr (ap isspace (sym (get_or-set_lt buf n (suc k - 1) (omega (arith, h)))) ∙ t)

trailing-EndsInText : (n : ℕ) (buf : Name) → EndsInText buf (remove_trailing_whitespace buf n)
unfolding remove_trailing_whitespace
trailing-EndsInText zero buf = inl refl
trailing-EndsInText (suc n) buf =
    if-cases (EndsInText buf) (isspace (get_or buf n 0)) _ _
      (λ _.
        end_step buf n (remove_trailing_whitespace (set buf n 0) n)
          (trailing-length (set buf n 0) n) (trailing-EndsInText n (set buf n 0)))
      (λ e. inr (ap (λ k. isspace (get_or buf k 0)) (omega arith) ∙ e))

-- Of the first `n` bytes of a buffer, `_remove_trailing_whitespace` keeps those before the length
-- that it returns, the last of which is no blank, and each of the others was a blank and is now NUL.
pub remove_trailing_whitespace-KeptOrBlank :
    (n : ℕ) (buf : Name) (i : ℕ)
    → i < n
    → KeptOrBlank buf i (remove_trailing_whitespace buf n)
      × EndsInText buf (remove_trailing_whitespace buf n)
remove_trailing_whitespace-KeptOrBlank n buf i h =
    (trailing-KeptOrBlank n buf i h, trailing-EndsInText n buf)
