-- ===== src/Conffile/Args/RoundTrip.antt =====
-- Arguments that are written with quotes and escapes are read back as they were.
use whatsup.Prelude.{
  ℕ, suc, ◌+◌, ◌-◌, ◌≤◌, ◌<◌, ◌≡◌, refl, ap, ◌∙◌, sym, Bool, true, false, ◌||◌, List, [], ◌∷◌, ◌++◌,
  Name, length, length-append, isspace, leb, ◌==◌, if◌then◌else◌, arith, if-cases,
}
use mathlib.Core.List.{append_assoc, append-nil}
use whatsup.Conffile.Args.Bounds.{Fits}
use whatsup.Conffile.Lines.{remove_comments}
use whatsup.Conffile.Args.{
  value, between, inside, escaped, Scan, store, step_inside, step_at, after_step, finish_at, scan,
  parse_args, max_args, max_arglen,
}

-- a byte that is written after a '\\'
abbrev is_special : ℕ → Bool
is_special c = c == b'\\' || c == b'#' || c == b'"'

-- an argument's bytes with escapes, with the closing quote and what follows
unfoldable pub escape : Name → Name → Name
escape [] rest = b'"' ∷ rest
escape (c ∷ cs) rest =
    let more = escape cs rest in if is_special c then b'\\' ∷ c ∷ more else c ∷ more

-- the arguments in quotes, each with a blank before it
unfoldable pub write_args : List Name → Name
unfolding escape
write_args [] = []
write_args (arg ∷ args) = b' ' ∷ b'"' ∷ escape arg (write_args args)

store-fits :
    (s : Scan) (quote : Bool) (c : ℕ)
    → length s.arg + 1 < max_arglen - 1
    → store quote s c ≡ value (record s { place = inside quote; arg = s.arg ++ c ∷ [] })
unfolding store
store-fits s quote c h = ground (arith, h)

-- a byte of the argument, and what is written for it
scan-special :
    (c : ℕ) (more : Name) (args : List Name) (arg : Name)
    → is_special c ≡ true
    → length arg + 1 < max_arglen - 1
    → scan (b'\\' ∷ c ∷ more) (record { place = inside true; args = args; arg = arg })
      ≡ scan more (record { place = inside true; args = args; arg = arg ++ c ∷ [] })
unfolding scan step_at step_inside after_step
scan-special c more args arg h len =
    let s : Scan = record { place = escaped true; args = args; arg = arg } in
    rw h (rw (store-fits s true c len) refl)

not_special : (c : ℕ) → is_special c ≡ false → (c == b'"' ≡ false) × (c == b'\\' ≡ false)
not_special c h = ground (arith, h)

scan-plain :
    (c : ℕ) (more : Name) (args : List Name) (arg : Name)
    → is_special c ≡ false
    → length arg + 1 < max_arglen - 1
    → scan (c ∷ more) (record { place = inside true; args = args; arg = arg })
      ≡ scan more (record { place = inside true; args = args; arg = arg ++ c ∷ [] })
unfolding scan step_at step_inside after_step
scan-plain c more args arg h len =
    let s : Scan = record { place = inside true; args = args; arg = arg } in
    let d = not_special c h in rw d.0 (rw d.1 (rw (store-fits s true c len) refl))

scan-byte :
    (c : ℕ) (more : Name) (args : List Name) (arg : Name)
    → length arg + 1 < max_arglen - 1
    → scan
        (if is_special c then b'\\' ∷ c ∷ more else c ∷ more)
        (record { place = inside true; args = args; arg = arg })
      ≡ scan more (record { place = inside true; args = args; arg = arg ++ c ∷ [] })
scan-byte c more args arg len =
    if-cases
      (λ (l : Name).
        scan l (record { place = inside true; args = args; arg = arg })
        ≡ scan more (record { place = inside true; args = args; arg = arg ++ c ∷ [] }))
      (is_special c) _ _ (λ e. scan-special c more args arg e len)
      (λ e. scan-plain c more args arg e len)

leb-lt : (n : ℕ) → n < max_args → leb max_args n ≡ false
leb-lt n h = ground (arith, h)

scan-escape :
    (cs rest : Name) (args : List Name) (pre : Name)
    → length pre + length cs < max_arglen - 1
    → scan (escape cs rest) (record { place = inside true; args = args; arg = pre })
      ≡ scan rest (record { place = inside false; args = args; arg = pre ++ cs })
unfolding escape scan step_at step_inside after_step
scan-escape [] rest args pre h =
    ap (λ arg. scan rest (record { place = inside false; args = args; arg = arg }))
      (sym (append-nil pre))
scan-escape (c ∷ cs) rest args pre h =
    scan-byte c (escape cs rest) args pre (omega (arith, h))
    ∙ scan-escape cs rest args (pre ++ c ∷ []) (omega (arith, h, length-append pre (c ∷ [])))
    ∙ ap (λ arg. scan rest (record { place = inside false; args = args; arg = arg }))
        (append_assoc pre (c ∷ []) cs)

opening_quote :
    (rest : Name) (args : List Name)
    → length args < max_args
    → scan (b'"' ∷ rest) (record { place = between; args = args; arg = [] })
      ≡ scan rest (record { place = inside true; args = args; arg = [] })
unfolding scan step_at step_inside after_step isspace
opening_quote rest args h = rw (leb-lt (length args) h) refl

scan-write_args :
    (more args : List Name) (arg : Name)
    → length args + suc (length more) ≤ max_args
    → Fits more
    → scan (write_args more) (record { place = inside false; args = args; arg = arg })
      ≡ value (args ++ arg ∷ more)
unfolding write_args scan step_at step_inside after_step finish_at isspace
scan-write_args [] args arg h fits = refl
scan-write_args (next ∷ more) args arg h fits =
    let done = args ++ arg ∷ [] in
    let count : length done ≡ length args + 1 = length-append args (arg ∷ []) in
    opening_quote (escape next (write_args more)) done (omega (arith, h, count))
    ∙ scan-escape next (write_args more) done [] (omega (arith, fits.0))
    ∙ scan-write_args more done next (omega (arith, h, count)) fits.1
    ∙ ap value (append_assoc args (arg ∷ []) (next ∷ more))

-- Arguments that are at most 64, of at most 1022 bytes each, are read back by `_parse_args` as they
-- are if they are written in quotes, with a '\\' before each '\\', '#' and '"' of theirs.
pub parse_args-write_args :
    (args : List Name)
    → length args ≤ max_args
    → Fits args
    → parse_args (write_args args) ≡ value args
unfolding parse_args write_args scan step_at step_inside after_step finish_at isspace
parse_args-write_args [] h fits = refl
parse_args-write_args (arg ∷ args) h fits =
    opening_quote (escape arg (write_args args)) [] (omega arith)
    ∙ scan-escape arg (write_args args) [] [] (omega (arith, fits.0))
    ∙ scan-write_args args [] arg (omega (arith, h)) fits.1

remove_comments-byte :
    (c : ℕ) (more : Name)
    → remove_comments false (if is_special c then b'\\' ∷ c ∷ more else c ∷ more) ≡ (
        if is_special c
        then b'\\' ∷ c ∷ remove_comments false more
        else c ∷ remove_comments false more)
unfolding remove_comments
remove_comments-byte c more = ground arith

remove_comments-escape :
    (cs rest : Name)
    → remove_comments false (escape cs rest) ≡ escape cs (remove_comments false rest)
unfolding escape remove_comments
remove_comments-escape [] rest = refl
remove_comments-escape (c ∷ cs) rest =
    remove_comments-byte c (escape cs rest)
    ∙ ap (λ l. if is_special c then b'\\' ∷ c ∷ l else c ∷ l) (remove_comments-escape cs rest)

-- No byte of such arguments is taken for a comment.
pub remove_comments-write_args :
    (args : List Name) → remove_comments false (write_args args) ≡ write_args args
unfolding write_args remove_comments
remove_comments-write_args [] = refl
remove_comments-write_args (arg ∷ args) =
    ap (λ l. b' ' ∷ b'"' ∷ l)
      (remove_comments-escape arg (write_args args)
        ∙ ap (escape arg) (remove_comments-write_args args))
