-- ===== src/Program/Bounds.antt =====
-- The sizes of the arrays that `_cmdline_parse` of src/whatsup/whatsup.c fills: `soptions`,
-- `loptions` and `options_towatch`.
use whatsup.Prelude.{
  ℕ, zero, suc, ◌+◌, ◌-◌, ◌≤◌, ◌<◌, ◌≡◌, refl, ap, ◌∙◌, Bool, false, inl, inr, Option, none, some,
  List, [], ◌∷◌, ◌++◌, Name, strchr, is_some, length, length-append, set, All, if◌then◌else◌,
  Bool-cases, arith,
}
use whatsup.Program.State.{WhatsupOption, LoadInfo}
use whatsup.Program.Modules.{option_list}
use whatsup.Program.Table.{
  Table, builtin_table, builtin_loptions, is_full, add_option, add_long, watch_options,
  watch_modules, options_len, long_options_len,
}
use whatsup.Program.Watched.{IsFresh}

-- The bounds in the loops: `soptions` has 65 bytes with its '\0', `loptions` 33 entries, and the
-- letters that a module watches are among those after the 22 bytes of the program's own.
pub record Fits (t : Table) : Type 0 where
  pub soptions : length t.soptions ≤ options_len
  pub loptions : length t.loptions ≡ suc long_options_len
  pub loptions_len : t.loptions_len ≤ long_options_len
  pub towatch : length t.towatch + 22 ≤ length t.soptions

length-set : {A : Type 0} (xs : List A) (i : ℕ) (v : A) → length (set xs i v) ≡ length xs
length-set [] i v = refl
length-set (x ∷ xs) zero v = refl
length-set (x ∷ xs) (suc i) v = ap suc (length-set xs i v)

add_long-Fits :
    (name : Option Name) (o : WhatsupOption) (t : Table)
    → t.loptions_len < long_options_len
    → Fits t
    → Fits (add_long name o t)
unfolding add_long
add_long-Fits none o t h f = f
add_long-Fits (some name) o t h f = record {
  soptions = f.soptions;
  loptions = length-set _ _ _ ∙ length-set _ _ _ ∙ f.loptions;
  loptions_len = omega (arith, h);
  towatch = f.towatch;
}

length-colon : (b : Bool) → length {A = ℕ} (if b then b':' ∷ [] else []) ≤ 1
length-colon b = ground arith

add_option-Fits :
    (o : WhatsupOption) (t : Table)
    → length t.soptions < options_len - 1
    → t.loptions_len < long_options_len
    → Fits t
    → Fits (add_option o t)
unfolding add_option
add_option-Fits o t s l f =
    let colon : Name = if is_some o.option_arg then b':' ∷ [] else [] in
    let a = length-append (t.soptions ++ o.option ∷ []) colon in
    let b = length-append t.soptions (o.option ∷ []) in
    let c = length-append t.towatch (o.option ∷ []) in
    let d = length-colon (is_some o.option_arg) in
    add_long-Fits o.option_long o _ l (record {
      soptions = omega (arith, a, b, d, s);
      loptions = f.loptions;
      loptions_len = f.loptions_len;
      towatch = omega (arith, a, b, c, f.towatch);
    })

not_full :
    (o : WhatsupOption) (t : Table)
    → is_full o t ≡ false
    → is_some (strchr o.option t.soptions) ≡ false
    → (length t.soptions < options_len - 1) × (t.loptions_len < long_options_len)
unfolding is_full
not_full o t e g = ground (arith, e, g)

watch_options-Fits : (os : List WhatsupOption) (t : Table) → Fits t → Fits (watch_options os t)
unfolding watch_options
watch_options-Fits [] t f = f
watch_options-Fits (o ∷ os) t f = elim (Bool-cases (is_full o t)) [
  | inl e ↦ rw e f
  | inr e ↦ rw e (elim (Bool-cases (is_some (strchr o.option t.soptions))) [
    | inl g ↦ rw g (watch_options-Fits os t f)
    | inr g ↦ rw g (
        let room = not_full o t e g in
        watch_options-Fits os (add_option o t) (add_option-Fits o t room.0 room.1 f))
  ])
]

builtin-Fits : Fits builtin_table
unfolding builtin_table builtin_loptions
builtin-Fits = record {
  soptions = omega arith;
  loptions = refl;
  loptions_len = omega arith;
  towatch = omega arith;
}

module _ {W : Type 0} where
  pub IsWithin : LoadInfo W → Type 0
  IsWithin m = length m.options_towatch + 22 ≤ options_len

  fresh-Fits :
      (m : LoadInfo W) (t : Table)
      → IsFresh m
      → Fits t
      → Fits (record t { towatch = m.options_towatch })
  fresh-Fits m t h f = record {
    soptions = f.soptions;
    loptions = f.loptions;
    loptions_len = f.loptions_len;
    towatch = omega (arith, ap length h, f.towatch);
  }

  watch_modules-Within :
      (ms : List (LoadInfo W)) (t : Table)
      → All IsFresh ms
      → Fits t
      → Fits (watch_modules ms t).1 × All IsWithin (watch_modules ms t).0
  unfolding watch_modules IsWithin
  watch_modules-Within [] t h f = (f, tt)
  watch_modules-Within (m ∷ ms) t h f =
      let u =
        watch_options-Fits (option_list m.module_info.options)
          (record t { towatch = m.options_towatch }) (fresh-Fits m t h.0 f) in
      let rest = watch_modules-Within ms _ h.1 u in
      (rest.0, (omega (arith, u.towatch, u.soptions), rest.1))

  -- Where the table is built from modules that watch nothing yet, whatever options they have: the
  -- letters and colons are at most 64, the entries of the long options stay within the array of 33
  -- with room for the one that ends them, and no module watches more than 42 letters, so none of the
  -- loops writes out of bounds.
  pub watch_modules-Fits :
      (ms : List (LoadInfo W))
      → All IsFresh ms
      → Fits (watch_modules ms builtin_table).1 × All IsWithin (watch_modules ms builtin_table).0
  watch_modules-Fits ms h = watch_modules-Within ms builtin_table h builtin-Fits
