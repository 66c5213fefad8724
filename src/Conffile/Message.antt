-- ===== src/Conffile/Message.antt =====
-- The messages of the parser: `conffile_errmsg` of src/libcommon/conffile.c.
pub mod Defined
use whatsup.Prelude.{
  ℕ, ◌-◌, Bool, not, ◌||◌, Option, none, some, List, [], ◌∷◌, ◌++◌, Name, codes, length, get_elem?,
  take, leb, ltb, ◌==◌, if◌then◌else◌, print_ulong, map_option,
}
use whatsup.Conffile.Err
use whatsup.Conffile.Lines.{Conffile}
use whatsup.Conffile.Parse.{conffile_magic}

-- CONFFILE_MAX_ERRMSGLEN
abbrev pub max_errmsglen : ℕ
max_errmsglen = 1024

-- a piece of a format: text, `%s` or `%d`
pub data Piece : Type 0 where
  text : Name → Piece
  percent_s : Piece
  percent_d : Piece

-- `_errmsg`
abbrev pub errmsg : List (List Piece)
errmsg =
    (text (codes "success") ∷ [])
    ∷ (text (codes "unknown configuration option \"")
        ∷ percent_s
        ∷ text (codes "\" on line ")
        ∷ percent_d
        ∷ [])
    ∷ (text (codes "configuration option \"")
        ∷ percent_s
        ∷ text (codes "\" listed too many times")
        ∷ [])
    ∷ (text (codes "configuration option \"")
        ∷ percent_s
        ∷ text (codes "\" listed too few times")
        ∷ [])
    ∷ (text (codes "overflow line length on line ") ∷ percent_d ∷ [])
    ∷ (text (codes "overflow option name length on line ") ∷ percent_d ∷ [])
    ∷ (text (codes "overflow arg length on line ") ∷ percent_d ∷ [])
    ∷ (text (codes "missing argument for option \"")
        ∷ percent_s
        ∷ text (codes "\" on line ")
        ∷ percent_d
        ∷ [])
    ∷ (text (codes "too many arguments listed for option \"")
        ∷ percent_s
        ∷ text (codes "\" on line ")
        ∷ percent_d
        ∷ [])
    ∷ (text (codes "invalid argument listed for option \"")
        ∷ percent_s
        ∷ text (codes "\" on line ")
        ∷ percent_d
        ∷ [])
    ∷ (text (codes "quotation marks used improperly on line ") ∷ percent_d ∷ [])
    ∷ (text (codes "continuation character '\\' used improperly on line ") ∷ percent_d ∷ [])
    ∷ (text (codes "callback function generated error") ∷ [])
    ∷ (text (codes "configuration file does not exist") ∷ [])
    ∷ (text (codes "configuration file cannot be opened") ∷ [])
    ∷ (text (codes "configuration file read error") ∷ [])
    ∷ (text (codes "out of memory") ∷ [])
    ∷ (text (codes "invalid parameters") ∷ [])
    ∷ (text (codes "incorrect magic number") ∷ [])
    ∷ (text (codes "null handle") ∷ [])
    ∷ (text (codes "internal error") ∷ [])
    ∷ (text (codes "error number out of range") ∷ [])
    ∷ []

-- an argument after the format
pub data Argument : Type 0 where
  string : Name → Argument
  number : ℕ → Argument

-- what follows a piece, or nothing if an argument is missing or of the wrong kind
unfoldable pub put_before : Name → Option Name → Option Name
put_before s none = none
put_before s (some rest) = some (s ++ rest)

-- `snprintf`: the whole text, or `none` where the arguments do not fit the format
unfoldable pub snprintf : List Piece → List Argument → Option Name
unfolding put_before
snprintf [] args = some []
snprintf (text s ∷ pieces) args = put_before s (snprintf pieces args)
snprintf (percent_s ∷ pieces) (string s ∷ args) = put_before s (snprintf pieces args)
snprintf (percent_s ∷ pieces) (number n ∷ args) = none
snprintf (percent_s ∷ pieces) [] = none
snprintf (percent_d ∷ pieces) (number n ∷ args) = put_before (print_ulong n) (snprintf pieces args)
snprintf (percent_d ∷ pieces) (string s ∷ args) = none
snprintf (percent_d ∷ pieces) [] = none

-- the format itself, as `"%s"` prints it
unfoldable pub literally : List Piece → Name
literally [] = []
literally (text s ∷ pieces) = s ++ literally pieces
literally (percent_s ∷ pieces) = codes "%s" ++ literally pieces
literally (percent_d ∷ pieces) = codes "%d" ++ literally pieces

-- the array at an index, where `none` is a read past its end
unfoldable pub message_at : ℕ → List Argument → Option Name
unfolding snprintf
message_at errnum args = elim (get_elem? errmsg errnum) [
  | none ↦ none
  | some format ↦ snprintf format args
]

unfoldable pub plain_message_at : ℕ → Option Name
unfolding literally
plain_message_at errnum = map_option literally (get_elem? errmsg errnum)

abbrev pub names_option_and_line : ℕ → Bool
names_option_and_line e =
    e == Err.parse_option_unknown
    || (e == Err.parse_arg_missing || (e == Err.parse_arg_toomany || e == Err.parse_arg_invalid))

abbrev pub names_option : ℕ → Bool
names_option e = e == Err.parse_option_toomany || e == Err.parse_option_toofew

abbrev pub names_line : ℕ → Bool
names_line e =
    e == Err.parse_overflow_linelen
    || (e == Err.parse_overflow_optionlen
        || (e == Err.parse_overflow_arglen
            || (e == Err.parse_quote || e == Err.parse_continuation)))

-- the text of the message of an error number
unfoldable pub message_of : Conffile → Option Name
unfolding message_at plain_message_at
message_of cf =
    if ltb Err.errnumrange cf.errnum
    then plain_message_at Err.errnumrange
    else if names_option_and_line cf.errnum
    then message_at cf.errnum (string cf.optionname ∷ number cf.line_num ∷ [])
    else if names_option cf.errnum
    then message_at cf.errnum (string cf.optionname ∷ [])
    else if names_line cf.errnum
    then message_at cf.errnum (number cf.line_num ∷ [])
    else plain_message_at cf.errnum

unfoldable pub text_of : Option Conffile → Option Name
unfolding message_of
text_of none = plain_message_at Err.nullhandle
text_of (some cf) =
    if not (cf.magic == conffile_magic) then plain_message_at Err.magic else message_of cf

-- `rv >= buflen` is the return value -1, else the string that is in `errbuf` is copied to `buf`
unfoldable pub copied : ℕ → Name → Option Name
copied buflen message =
    if leb buflen (length message) then none else some (take (max_errmsglen - 1) message)

-- `conffile_errmsg`; `none` where the code reads past its array or past the arguments of `snprintf`
unfoldable pub conffile_errmsg : Option Conffile → ℕ → Option (Option Name)
unfolding text_of copied
conffile_errmsg cf buflen = map_option (copied buflen) (text_of cf)
