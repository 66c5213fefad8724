-- ===== src/Hostsfile/Comments.antt =====
-- What the loop of `_remove_comments` leaves, against a definition without a buffer.
use whatsup.Prelude.{
  c_string, ℕ, suc, ◌+◌, ◌-◌, ◌≡◌, refl, ap, ◌∙◌, sym, true, false, none, [], ◌∷◌, Name, strchr,
  length, ◌==◌, if◌then◌else◌, arith, Option-cases, inl, inr,
}
use whatsup.Hostsfile.Lines.{blank_comment, remove_comments}

-- the bytes before the first `x`
unfoldable pub before : ℕ → Name → Name
before x [] = []
before x (c ∷ cs) = let rest = before x cs in if c == x then [] else c ∷ rest

before-none : (x : ℕ) (s : Name) → strchr x s ≡ none → before x s ≡ s
unfolding before strchr
before-none x [] h = refl
before-none x (c ∷ cs) h = ground (arith, h, before-none x cs)

c_string-before : (s : Name) → c_string s ≡ before 0 s
unfolding c_string before
c_string-before [] = refl
c_string-before (c ∷ cs) = ground (arith, c_string-before cs)

blanked_empty : (cs : Name) (r : ℕ) → c_string (blank_comment true cs r).0 ≡ []
unfolding c_string blank_comment
blanked_empty [] r = refl
blanked_empty (c ∷ cs) r = refl

blanked_count : (cs : Name) (k : ℕ) → (blank_comment true cs (k + length cs)).1 ≡ k
unfolding blank_comment
blanked_count [] k = omega arith
blanked_count (c ∷ cs) k = ap (λ r. (blank_comment true cs r).1) (omega arith) ∙ blanked_count cs k

strchr-tail : (c : ℕ) (cs : Name) → strchr 0 (c ∷ cs) ≡ none → strchr 0 cs ≡ none
unfolding strchr
strchr-tail c cs h = ground (arith, h)

commented_string :
    (s : Name) (r : ℕ) → strchr 0 s ≡ none → c_string (blank_comment false s r).0 ≡ before b'#' s
unfolding c_string blank_comment before strchr
commented_string [] r h = refl
commented_string (c ∷ cs) r h = ground (arith, h, commented_string cs r (strchr-tail c cs h))

commented_count :
    (s : Name) (k : ℕ) → (blank_comment false s (k + length s)).1 ≡ k + length (before b'#' s)
unfolding blank_comment before
commented_count [] k = omega arith
commented_count (c ∷ cs) k =
    let p : (blank_comment true cs (k + suc (length cs) - 1)).1 ≡ k =
      ap (λ r. (blank_comment true cs r).1) (omega arith) ∙ blanked_count cs k in
    let q : (blank_comment false cs (k + suc (length cs))).1 ≡ k + suc (length (before b'#' cs)) =
      ap (λ r. (blank_comment false cs r).1) (omega arith)
      ∙ commented_count cs (suc k)
      ∙ omega arith in
    ground (arith, p, q)

-- For the bytes of a line without a '\0', `_remove_comments` leaves in the buffer the string up to the
-- first '#', and returns its length.
pub remove_comments-before :
    (buf : Name)
    → strchr 0 buf ≡ none
    → (c_string (remove_comments buf (length buf)).0 ≡ before b'#' buf)
      × ((remove_comments buf (length buf)).1 ≡ length (before b'#' buf))
unfolding remove_comments
remove_comments-before buf h =
    let whole = c_string-before buf ∙ before-none 0 buf h in
    elim (Option-cases (strchr b'#' buf)) [
      | inl e ↦
          rw whole
            (rw e (whole ∙ sym (before-none b'#' buf e), ap length (sym (before-none b'#' buf e))))
      | inr found ↦ rw whole (
          rw found.1 (
            commented_string buf (length buf) h,
            ap (λ r. (blank_comment false buf r).1) (omega arith)
                ∙ commented_count buf 0
                ∙ omega arith,
          ))
    ]
