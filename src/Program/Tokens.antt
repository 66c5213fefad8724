-- ===== src/Program/Tokens.antt =====
-- The nodes on the standard input: the `strtok` loop of `_read_nodes_from_stdin` of
-- src/whatsup/whatsup.c.
use whatsup.Prelude.{
  ℕ, ◌≡◌, ◌<◌, ◌==◌, ◌⊎◌, c_string, length, some, arith, refl, ap, ◌∙◌, true, false, List, [], ◌∷◌,
  ◌++◌, is_empty, Name, All, if◌then◌else◌, Bool-cases, inl, inr,
}
use mathlib.Core.List.{append_assoc, append-nil}
use whatsup.Program.State.{Statics, ProgramEnv}
use whatsup.Program.Cmdline.{
  tokens, is_separator, bufferlen, push_input, push_all, read_nodes_from_stdin,
}

-- words, each with the separator after it
unfoldable pub joined : List (Name × ℕ) → Name
joined [] = []
joined ((word, c) ∷ rest) = word ++ (c ∷ joined rest)

-- the words that are not empty
unfoldable pub words_of : List (Name × ℕ) → List Name
words_of [] = []
words_of ((word, c) ∷ rest) =
    let others = words_of rest in if is_empty word then others else word ∷ others

-- a byte of a word: no space, tab, newline or '\0'
abbrev pub IsLetter : ℕ → Type 0
IsLetter c = ((c == 32) ≡ false) × ((c == 9) ≡ false) × ((c == 10) ≡ false) × ((c == 0) ≡ false)

-- A word is of such bytes, and what follows it is a space, a tab or a newline.
abbrev pub IsWord : Name × ℕ → Type 0
IsWord w = All IsLetter w.0 × ((w.1 ≡ 32) ⊎ ((w.1 ≡ 9) ⊎ (w.1 ≡ 10)))

letter_apart : (c : ℕ) → IsLetter c → is_separator c ≡ false
letter_apart c h = ground (arith, h.0, h.1, h.2)

ends_word : (c : ℕ) → ((c ≡ 32) ⊎ ((c ≡ 9) ⊎ (c ≡ 10))) → is_separator c ≡ true
ends_word c (inl e) = rw e refl
ends_word c (inr (inl e)) = rw e refl
ends_word c (inr (inr e)) = rw e refl

is_empty-snoc : (w : Name) (c : ℕ) → is_empty (w ++ c ∷ []) ≡ false
is_empty-snoc [] c = refl
is_empty-snoc (d ∷ w) c = refl

tokens-word :
    (word rest token : Name) (c : ℕ)
    → All IsLetter word
    → is_separator c ≡ true
    → tokens (word ++ (c ∷ rest)) token
      ≡ (if is_empty (token ++ word) then tokens rest [] else (token ++ word) ∷ tokens rest [])
unfolding tokens
tokens-word [] rest token c h s = rw s (
    rw (append-nil token)
      (elim (Bool-cases (is_empty token)) [ inl e ↦ rw e refl | inr e ↦ rw e refl ]))
tokens-word (d ∷ word) rest token c h s =
    let ih = tokens-word word rest (token ++ d ∷ []) c h.1 s in
    rw (letter_apart d h.0) (ih ∙ rw (append_assoc token (d ∷ []) word) refl)

tokens-joined : (ws : List (Name × ℕ)) → All IsWord ws → tokens (joined ws) [] ≡ words_of ws
unfolding joined words_of tokens
tokens-joined [] h = refl
tokens-joined ((word, c) ∷ rest) h =
    tokens-word word (joined rest) [] c h.0.0 (ends_word c h.0.1)
    ∙ elim (Bool-cases (is_empty word)) [
      | inl e ↦ rw e (tokens-joined rest h.1)
      | inr e ↦ rw e (ap (λ ts. word ∷ ts) (tokens-joined rest h.1))
    ]

c_string-word :
    (word rest : Name) → All IsLetter word → c_string (word ++ rest) ≡ word ++ c_string rest
unfolding c_string
c_string-word [] rest h = refl
c_string-word (d ∷ word) rest h = rw h.0.3 (ap (λ x. d ∷ x) (c_string-word word rest h.1))

ends_byte : (c : ℕ) → ((c ≡ 32) ⊎ ((c ≡ 9) ⊎ (c ≡ 10))) → (c == 0) ≡ false
ends_byte c (inl e) = rw e refl
ends_byte c (inr (inl e)) = rw e refl
ends_byte c (inr (inr e)) = rw e refl

c_string-joined : (ws : List (Name × ℕ)) → All IsWord ws → c_string (joined ws) ≡ joined ws
unfolding joined c_string
c_string-joined [] h = refl
c_string-joined ((word, c) ∷ rest) h =
    c_string-word word (c ∷ joined rest) h.0.0
    ∙ rw (ends_byte c h.0.1) (ap (λ x. word ++ (c ∷ x)) (c_string-joined rest h.1))

module _ {H L W : Type 0} (env : ProgramEnv H L W) where
  push_input-fits :
      (buf : Name) (s : Statics H L W)
      → length buf < bufferlen
      → push_input env (some buf) s ≡ push_all env (tokens (c_string buf) []) s
  unfolding push_input
  push_input-fits buf s h =
      let e : (length buf == bufferlen) ≡ false = ground (arith, h) in rw e refl

  -- From a standard input of words, each ended by a space, a tab or a newline, that is shorter than
  -- the buffer, `_read_nodes_from_stdin` pushes exactly the words that are not empty, in their order.
  pub read_nodes_from_stdin-joined :
      (ws : List (Name × ℕ)) (s : Statics H L W)
      → All IsWord ws
      → env.read_stdin bufferlen ≡ some (joined ws)
      → length (joined ws) < bufferlen
      → read_nodes_from_stdin env s ≡ push_all env (words_of ws) s
  unfolding read_nodes_from_stdin
  read_nodes_from_stdin-joined ws s h r l =
      ap (λ i. push_input env i s) r
      ∙ push_input-fits (joined ws) s l
      ∙ ap (λ x. push_all env (tokens x []) s) (c_string-joined ws h)
      ∙ ap (λ x. push_all env x s) (tokens-joined ws h)
