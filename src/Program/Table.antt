-- ===== src/Program/Table.antt =====
-- The tables for `getopt_long`: the first part of `_cmdline_parse` of src/whatsup/whatsup.c.
use whatsup.Prelude.{
  ℕ, suc, ◌-◌, Bool, true, false, not, ◌&&◌, ◌||◌, Option, none, some, List, [], ◌∷◌, ◌++◌, Name,
  codes, strchr, is_some, length, set, leb, if◌then◌else◌,
}
use whatsup.Program.State.{WhatsupOption, LoadInfo, LongOption}
use whatsup.Program.Modules.{option_list}

-- WHATSUP_OPTIONS_LEN and WHATSUP_LONG_OPTIONS_LEN
abbrev pub options_len : ℕ
options_len = 64

abbrev pub long_options_len : ℕ
long_options_len = 32

abbrev pub long_option : Name → Bool → ℕ → Option LongOption
long_option name has_arg val = some (record { name = name; has_arg = has_arg; val = val })

abbrev pub builtin_soptions : Name
builtin_soptions = codes "hvo:p:budtqcnsrm:lf:e:"

-- the array of 33 entries, whose entries with a NULL name are `none`
unfoldable pub builtin_loptions : List (Option LongOption)
builtin_loptions =
    long_option (codes "help") false b'h'
    ∷ long_option (codes "version") false b'v'
    ∷ long_option (codes "hostname") true b'o'
    ∷ long_option (codes "port") true b'p'
    ∷ long_option (codes "updown") false b'b'
    ∷ long_option (codes "up") false b'u'
    ∷ long_option (codes "down") false b'd'
    ∷ long_option (codes "count") false b't'
    ∷ long_option (codes "hostrange") false b'q'
    ∷ long_option (codes "comma") false b'c'
    ∷ long_option (codes "newline") false b'n'
    ∷ long_option (codes "space") false b's'
    ∷ long_option (codes "module") true b'm'
    ∷ long_option (codes "last-up-time") false b'r'
    ∷ long_option (codes "log") false b'l'
    ∷ long_option (codes "log-file") true b'f'
    ∷ long_option (codes "log-poll") true b'e'
    ∷ none
    ∷ none
    ∷ none
    ∷ none
    ∷ none
    ∷ none
    ∷ none
    ∷ none
    ∷ none
    ∷ none
    ∷ none
    ∷ none
    ∷ none
    ∷ none
    ∷ none
    ∷ none
    ∷ []

-- `soptions`, `loptions` and `loptions_len`, and the options of the module at hand
pub record Table : Type 0 where
  pub soptions : Name
  pub loptions : List (Option LongOption)
  pub loptions_len : ℕ
  pub towatch : Name

unfoldable pub builtin_table : Table
unfolding builtin_loptions
builtin_table = record {
  soptions = builtin_soptions;
  loptions = builtin_loptions;
  loptions_len = 16;
  towatch = [];
}

-- where the loop over the options of a module stops
unfoldable pub is_full : WhatsupOption → Table → Bool
unfolding strchr
is_full o t =
    leb options_len (length t.towatch)
    || (not (is_some (strchr o.option t.soptions))
        && (leb (options_len - 1) (length t.soptions) || leb long_options_len t.loptions_len))

unfoldable pub add_long : Option Name → WhatsupOption → Table → Table
add_long none o t = t
add_long (some name) o t = record t {
  loptions =
      set (set t.loptions t.loptions_len (long_option name (is_some o.option_arg) o.option))
        (suc t.loptions_len) none;
  loptions_len = suc t.loptions_len;
}

unfoldable pub add_option : WhatsupOption → Table → Table
unfolding add_long
add_option o t =
    let colon = if is_some o.option_arg then b':' ∷ [] else [] in
    add_long o.option_long o (record t {
      towatch = t.towatch ++ o.option ∷ [];
      soptions = (t.soptions ++ o.option ∷ []) ++ colon;
    })

-- the loop over the options of a module
unfoldable pub watch_options : List WhatsupOption → Table → Table
unfolding is_full add_option strchr
watch_options [] t = t
watch_options (o ∷ os) t =
    let next = if is_some (strchr o.option t.soptions) then t else add_option o t in
    let rest = watch_options os next in if is_full o t then t else rest

-- the loop over the modules
unfoldable pub watch_modules : {W : Type 0} → List (LoadInfo W) → Table → List (LoadInfo W) × Table
unfolding watch_options
watch_modules [] t = ([], t)
watch_modules (m ∷ ms) t =
    let t' =
      watch_options (option_list m.module_info.options)
        (record t { towatch = m.options_towatch }) in
    let rest = watch_modules ms t' in (record m { options_towatch = t'.towatch } ∷ rest.0, rest.1)

-- what `getopt_long` reads of the array: the entries before the first with a NULL name
unfoldable pub entries : List (Option LongOption) → List LongOption
entries [] = []
entries (none ∷ rest) = []
entries (some o ∷ rest) = o ∷ entries rest
