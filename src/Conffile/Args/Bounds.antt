-- ===== src/Conffile/Args/Bounds.antt =====
-- The arguments stay within the arrays that `_parse_args` fills.
use whatsup.Prelude.{
  subst, ℕ, ◌+◌, ◌-◌, ◌≤◌, ◌<◌, ◌≡◌, refl, Bool, true, false, not, ◌&&◌, ◌||◌, List, [], ◌∷◌, ◌++◌,
  Name, length, length-append, isspace, leb, ◌==◌, All, arith, if-cases, if-intro,
}
use whatsup.Conffile.Args.{
  Checked, value, error, Place, between, inside, escaped, Scan, store, step_inside, step_at,
  after_step, finish_at, scan, before_args, parse_args, max_args, max_arglen,
}

abbrev pub Fits : List Name → Type 0
Fits = All (λ arg. length arg < max_arglen - 1)

-- Inside an argument, its slot in the array is there.
abbrev HasRoom : Place → ℕ → Type 0
HasRoom between n = n ≤ max_args
HasRoom (inside quote) n = n < max_args
HasRoom (escaped quote) n = n < max_args

record IsBounded (s : Scan) : Type 0 where
  room : HasRoom s.place (length s.args)
  fits : Fits s.args
  arg : length s.arg < max_arglen - 1

-- The result is an error or has a property.
abbrev pub IfValue {ℓ} : {A : Type ℓ} → (A → Type 0) → Checked A → Type 0
IfValue P (value a) = P a
IfValue P (error e) = Unit {0}

Fits-append :
    (args : List Name) (arg : Name)
    → Fits args
    → length arg < max_arglen - 1
    → Fits (args ++ arg ∷ [])
Fits-append [] arg h k = (k, tt)
Fits-append (a ∷ args) arg h k = (h.0, Fits-append args arg h.1 k)

not_full : (n : ℕ) → (n + 1 == max_arglen - 1) ≡ false → n < max_arglen - 1 → n + 1 < max_arglen - 1
not_full n e h = ground (arith, e, h)

lt-leb : (n : ℕ) → leb max_args n ≡ false → n < max_args
lt-leb n h = ground (arith, h)

store-IsBounded :
    (quote : Bool) (s : Scan) (c : ℕ)
    → length s.args < max_args
    → Fits s.args
    → length s.arg < max_arglen - 1
    → IfValue IsBounded (store quote s c)
unfolding store
store-IsBounded quote s c room fits h =
    if-cases (IfValue IsBounded) (length s.arg + 1 == max_arglen - 1) _ _ (λ _. tt)
      λ e. record {
        room = room;
        fits = fits;
        arg = omega (arith, not_full (length s.arg) e h, length-append s.arg (c ∷ []));
      }

step_inside-IsBounded :
    (quote : Bool) (s : Scan) (c : ℕ)
    → length s.args < max_args
    → Fits s.args
    → length s.arg < max_arglen - 1
    → IfValue IsBounded (step_inside quote s c)
unfolding step_inside
step_inside-IsBounded quote s c room fits h =
    if-intro (IfValue IsBounded) (not quote && isspace c) _ _
      (record {
        room = omega (arith, room, length-append s.args (s.arg ∷ []));
        fits = Fits-append s.args s.arg fits h;
        arg = omega arith;
      })
      (if-intro (IfValue IsBounded) (c == b'"') _ _ (record { room = room; fits = fits; arg = h })
        (if-intro (IfValue IsBounded) (c == b'\\') _ _
          (record { room = room; fits = fits; arg = h }) (store-IsBounded quote s c room fits h)))

room_at : (place : Place) (s : Scan) → s.place ≡ place → IsBounded s → HasRoom place (length s.args)
room_at place s e h = subst (λ p. HasRoom p (length s.args)) e h.room

step_at-IsBounded :
    (place : Place) (s : Scan) (c : ℕ)
    → s.place ≡ place
    → IsBounded s
    → IfValue IsBounded (step_at place s c)
unfolding step_at
step_at-IsBounded between s c e h = if-intro (IfValue IsBounded) (isspace c) _ _ h (
    if-cases (IfValue IsBounded) (leb max_args (length s.args)) _ _ (λ _. tt)
      (λ r.
        step_inside-IsBounded false (record s { arg = [] }) c (lt-leb (length s.args) r) h.fits
          (omega arith)))
step_at-IsBounded (inside quote) s c e h =
    step_inside-IsBounded quote s c (room_at (inside quote) s e h) h.fits h.arg
step_at-IsBounded (escaped quote) s c e h =
    if-intro (IfValue IsBounded) (c == b'\\' || c == b'#' || c == b'"') _ _
      (store-IsBounded quote s c (room_at (escaped quote) s e h) h.fits h.arg) tt

InBounds : List Name → Type 0
InBounds args = (length args ≤ max_args) × Fits args

finish_at-InBounds :
    (place : Place) (s : Scan)
    → s.place ≡ place
    → IsBounded s
    → IfValue InBounds (finish_at place s)
unfolding finish_at InBounds
finish_at-InBounds between s e h = (room_at between s e h, h.fits)
finish_at-InBounds (inside true) s e h = tt
finish_at-InBounds (inside false) s e h = (
  omega (arith, room_at (inside false) s e h, length-append s.args (s.arg ∷ [])),
  Fits-append s.args s.arg h.fits h.arg,
)
finish_at-InBounds (escaped quote) s e h = tt

after_step-InBounds :
    (rest : Scan → Checked (List Name)) (r : Checked Scan)
    → ((s : Scan) → IsBounded s → IfValue InBounds (rest s))
    → IfValue IsBounded r
    → IfValue InBounds (after_step rest r)
unfolding after_step
after_step-InBounds rest (value s) f h = f s h
after_step-InBounds rest (error e) f h = tt

scan-InBounds : (line : Name) (s : Scan) → IsBounded s → IfValue InBounds (scan line s)
unfolding scan
scan-InBounds [] s h = finish_at-InBounds s.place s refl h
scan-InBounds (c ∷ cs) s h =
    after_step-InBounds (scan cs) (step_at s.place s c) (scan-InBounds cs)
      (step_at-IsBounded s.place s c refl h)

-- Whatever the line is, the arguments that `_parse_args` returns are at most 64, the slots of
-- `args`, and each has at most 1022 bytes, so that it fits its slot with the '\0'.
pub parse_args_bounds :
    (linebuf : Name) → IfValue (λ args. (length args ≤ max_args) × Fits args) (parse_args linebuf)
unfolding parse_args InBounds
parse_args_bounds linebuf =
    scan-InBounds linebuf before_args (record { room = omega arith; fits = tt; arg = omega arith })
