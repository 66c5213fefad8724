-- ===== src/Conffile/Message/Defined.antt =====
-- Every error has a message, and its arguments fit its format.
use whatsup.Prelude.{
  ℕ, ◌≡◌, ◌≤◌, refl, sym, subst, Bool, true, false, not, ◌||◌, Option, none, some, [], ◌∷◌,
  get_elem?, get_elem?-some, map_option, is_some, ltb, ◌==◌, ==_iff, arith, if-cases, if-intro,
  Bool-cases, inl, inr,
}
use whatsup.Conffile.Err
use whatsup.Conffile.Lines.{Conffile}
use whatsup.Conffile.Parse.{conffile_magic}
use whatsup.Conffile.Message.{
  string, number, errmsg, put_before, literally, message_at, plain_message_at,
  names_option_and_line, names_option, names_line, message_of, text_of, copied, conffile_errmsg,
}

IsDefined : {A : Type 0} → Option A → Type 0
IsDefined o = is_some o ≡ true

or_right : (a b : Bool) → a ≡ false → (a || b) ≡ true → b ≡ true
or_right true b h k = cc
or_right false b h k = k

-- One of two numbers, or of a number and more.
==-or : (P : ℕ → Type 0) (e k : ℕ) (b : Bool) → P k → (b ≡ true → P e) → (e == k || b) ≡ true → P e
==-or P e k b h rest which = elim (Bool-cases (e == k)) [
  | inl same ↦ subst P (sym ((==_iff e k).0 same)) h
  | inr other ↦ rest (or_right (e == k) b other which)
]

in_range : (e : ℕ) → ltb Err.errnumrange e ≡ false → e ≤ Err.errnumrange
in_range e h = ground (arith, h)

map_option-IsDefined :
    {A B : Type 0} (f : A → B) (o : Option A) → is_some o ≡ true → is_some (map_option f o) ≡ true
map_option-IsDefined f none h = cc
map_option-IsDefined f (some a) h = refl

plain_message_at_lem : (e : ℕ) → e ≤ Err.errnumrange → IsDefined (plain_message_at e)
unfolding plain_message_at IsDefined
plain_message_at_lem e h =
    map_option-IsDefined literally (get_elem? errmsg e) (get_elem?-some errmsg e (omega (arith, h)))

module _ (cf : Conffile) where
  abbrev Both : ℕ → Type 0
  Both e = IsDefined (message_at e (string cf.optionname ∷ number cf.line_num ∷ []))

  abbrev Name? : ℕ → Type 0
  Name? e = IsDefined (message_at e (string cf.optionname ∷ []))

  abbrev Line : ℕ → Type 0
  Line e = IsDefined (message_at e (number cf.line_num ∷ []))

  both : (e : ℕ) → names_option_and_line e ≡ true → Both e
  unfolding message_at IsDefined put_before
  both e = ==-or Both e 1 _ refl (
      ==-or Both e 7 _ refl (==-or Both e 8 _ refl (λ h. subst Both (sym ((==_iff e 9).0 h)) refl)))

  option_only : (e : ℕ) → names_option e ≡ true → Name? e
  unfolding message_at IsDefined put_before
  option_only e = ==-or Name? e 2 _ refl (λ h. subst Name? (sym ((==_iff e 3).0 h)) refl)

  line_only : (e : ℕ) → names_line e ≡ true → Line e
  unfolding message_at IsDefined put_before
  line_only e = ==-or Line e 4 _ refl (
      ==-or Line e 5 _ refl (
        ==-or Line e 6 _ refl
          (==-or Line e 10 _ refl (λ h. subst Line (sym ((==_iff e 11).0 h)) refl))))

  message_of-IsDefined : IsDefined (message_of cf)
  unfolding message_of
  message_of-IsDefined =
      if-cases IsDefined (ltb Err.errnumrange cf.errnum) _ _
        (λ _. plain_message_at_lem Err.errnumrange (omega arith))
        λ range. if-cases IsDefined (names_option_and_line cf.errnum) _ _ (both cf.errnum) λ _.
          if-cases IsDefined (names_option cf.errnum) _ _ (option_only cf.errnum) λ _.
            if-cases IsDefined (names_line cf.errnum) _ _ (line_only cf.errnum)
              λ _. plain_message_at_lem cf.errnum (in_range cf.errnum range)

text_of-IsDefined : (cf : Option Conffile) → IsDefined (text_of cf)
unfolding text_of
text_of-IsDefined none = plain_message_at_lem Err.nullhandle (omega arith)
text_of-IsDefined (some cf) =
    if-intro IsDefined (not (cf.magic == conffile_magic)) _ _
      (plain_message_at_lem Err.magic (omega arith)) (message_of-IsDefined cf)

-- `conffile_errmsg` reads within the array of its messages, and every format gets the arguments that
-- its directives want, for every handle, right or not, and every error number in it.
pub conffile_errmsg-some :
    (cf : Option Conffile) (buflen : ℕ) → is_some (conffile_errmsg cf buflen) ≡ true
unfolding conffile_errmsg IsDefined
conffile_errmsg-some cf buflen =
    map_option-IsDefined (copied buflen) (text_of cf) (text_of-IsDefined cf)
