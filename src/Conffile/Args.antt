-- ===== src/Conffile/Args.antt =====
-- The arguments of an option: `_parse_args` of src/libcommon/conffile.c, a byte at a time.
pub mod RoundTrip
pub mod Bounds
use whatsup.Prelude.{
  ℕ, ◌+◌, ◌-◌, Bool, true, false, not, ◌&&◌, ◌||◌, List, [], ◌∷◌, ◌++◌, Name, length, isspace, leb,
  ◌==◌, if◌then◌else◌,
}
use whatsup.Conffile.Err

-- CONFFILE_MAX_ARGS
abbrev pub max_args : ℕ
max_args = 64

-- CONFFILE_MAX_ARGLEN
abbrev pub max_arglen : ℕ
max_arglen = 1024

-- A value, or an error number.
pub data Checked {ℓ} (A : Type ℓ) : Type ℓ where
  value : A → Checked A
  error : ℕ → Checked A

-- Where the loops stand: before an argument, in one, with `quote_flag`, or after a '\\' in one.
pub data Place : Type 0 where
  between : Place
  inside : Bool → Place
  escaped : Bool → Place

-- `args` holds the arguments that are complete, and `arg` the bytes of the one that is read.
pub record Scan : Type 0 where
  pub place : Place
  pub args : List Name
  pub arg : Name

-- a byte is stored, if that does not fill the argument
unfoldable pub store : Bool → Scan → ℕ → Checked Scan
store quote s c =
    if length s.arg + 1 == max_arglen - 1
    then error Err.parse_overflow_arglen
    else value (record s { place = inside quote; arg = s.arg ++ c ∷ [] })

-- a byte of an argument
unfoldable pub step_inside : Bool → Scan → ℕ → Checked Scan
unfolding store
step_inside quote s c =
    if not quote && isspace c
    then value (record { place = between; args = s.args ++ s.arg ∷ []; arg = [] })
    else if c == b'"'
    then value (record s { place = inside (not quote) })
    else if c == b'\\'
    then value (record s { place = escaped quote })
    else store quote s c

unfoldable pub step_at : Place → Scan → ℕ → Checked Scan
unfolding step_inside
step_at between s c =
    if isspace c
    then value s
    else if leb max_args (length s.args)
    then error Err.parse_arg_toomany
    else step_inside false (record s { arg = [] }) c
step_at (inside quote) s c = step_inside quote s c
step_at (escaped quote) s c =
    if c == b'\\' || c == b'#' || c == b'"' then store quote s c else error Err.parse_continuation

unfoldable pub after_step : (Scan → Checked (List Name)) → Checked Scan → Checked (List Name)
after_step rest (value s) = rest s
after_step rest (error e) = error e

-- at the end of the line
unfoldable pub finish_at : Place → Scan → Checked (List Name)
finish_at between s = value s.args
finish_at (inside true) s = error Err.parse_quote
finish_at (inside false) s = value (s.args ++ s.arg ∷ [])
finish_at (escaped quote) s = error Err.parse_continuation

unfoldable pub scan : Name → Scan → Checked (List Name)
unfolding step_at after_step finish_at
scan [] s = finish_at s.place s
scan (c ∷ cs) s = after_step (scan cs) (step_at s.place s c)

abbrev pub before_args : Scan
before_args = record { place = between; args = []; arg = [] }

-- `_parse_args` on the string at `linebuf`
unfoldable pub parse_args : Name → Checked (List Name)
unfolding scan
parse_args linebuf = scan linebuf before_args
