-- ===== src/Conffile/File.antt =====
-- `conffile_parse` with `_setup`, and the library's callbacks, of src/libcommon/conffile.c.
pub mod Errnums
pub mod Keeps
pub mod Rounds
pub mod Outcome
use whatsup.Prelude.{
  ℕ, zero, suc, ◌+◌, ◌-◌, Bool, true, false, not, ◌&&◌, ◌||◌, Option, none, some, List, [], ◌∷◌,
  Name, length, leb, ltb, ◌==◌, take, is_empty, is_some, if◌then◌else◌, ℤ, pos, negsuc, is_neg,
  Exec, continue, ◌>>=◌, ◌>>◌,
}
use whatsup.Conffile.Err
use whatsup.Conffile.Lines.{Conffile, ReadLine, readline}
use whatsup.Conffile.Options.{
  OptionType, ignore, flag, unknown_type, ConffileData, Numbers, ConfState, Callback,
  ConffileOption, takes_argument, is_list, is_ignore,
}
use whatsup.Conffile.Parse.{
  conffile_magic, max_optionnamelen, conf_fail, put_conf_errnum, conffile_seterrnum, put_count,
  parseline,
}

-- `access` and `open` of the file, with what `fd_read_line` gives of it
pub data ConfFile : Type 0 where
  readable : List (Option Name) → ConfFile
  unreadable : ConfFile
  unopened : ConfFile

-- What a parse returns. `out_of_fuel` is no result of the code.
pub data Parsed : Type 0 where
  parsed : Parsed
  failed : Parsed
  out_of_fuel : Parsed

abbrev pub is_known_type : OptionType → Bool
is_known_type (unknown_type n) = false
is_known_type _ = true

abbrev pub is_zero : ℤ → Bool
is_zero (pos n) = n == 0
is_zero (negsuc n) = false

unfoldable pub has_name : Option Name → Bool
has_name none = false
has_name (some name) = ltb (length name) max_optionnamelen

-- an `int` is below another that is not negative
unfoldable pub below_required : ℕ → ℤ → Bool
below_required count (pos n) = ltb count n
below_required count (negsuc n) = false

abbrev pub name_of : Option Name → Name
name_of none = []
name_of (some name) = name

unfoldable pub string_room : ℤ → Option ℕ
string_room (pos zero) = none
string_room (pos (suc n)) = some n
string_room (negsuc n) = none

module _ {S : Type 0} where
  -- `*count_ptr = 0` of each option
  unfoldable pub clear_count : Option ℕ → ConfState S → ConfState S
  clear_count none s = s
  clear_count (some address) s = put_count address 0 s

  abbrev pub put_cf : Conffile → ConfState S → ConfState S
  put_cf cf s = record s { cf = cf }

  -- the callbacks, with `option_ptr` as the store through it
  unfoldable pub stored : {A : Type 0} → Option (A → S → S) → A → Exec (ConfState S) (Unit {0})
  stored none a s = (none, (conffile_seterrnum (pos Err.parameters) s).1)
  stored (some write) a s = (some tt, record s { app = write a s.app })

module _ {D S : Type 0} where
  -- the option is legitimate
  unfoldable pub is_legitimate : ConffileOption D S → Bool
  unfolding has_name
  is_legitimate o =
      has_name o.optionname
      && is_known_type o.option_type
      && (not (takes_argument o.option_type) || is_some o.callback_func)
      && (not (is_list o.option_type) || not (is_zero o.option_type_arg))
      && not (is_neg o.required_count)
      && (is_ignore o.option_type || is_some o.count_ptr)

  unfoldable pub all_legitimate : List (ConffileOption D S) → Bool
  unfolding is_legitimate
  all_legitimate [] = true
  all_legitimate (o ∷ options) = is_legitimate o && all_legitimate options

  unfoldable pub clear_counts : List (ConffileOption D S) → ConfState S → ConfState S
  unfolding clear_count
  clear_counts [] s = s
  clear_counts (o ∷ options) s = clear_counts options (clear_count o.count_ptr s)

  -- `_setup` after the file is open
  unfoldable pub set_up :
      List (ConffileOption D S) → Bool → Bool → List (Option Name) → ConfState S → ConfState S
  unfolding clear_counts
  set_up options case_sensitive ignore_unknown reads s =
      let cleared = clear_counts options s in
      record cleared {
        cf = record cleared.cf {
          errnum = Err.success;
          fd = some reads;
          case_sensitive = case_sensitive;
          ignore_unknown = ignore_unknown;
          line_num = 0;
          line_count = 0;
          end_of_file = false;
          optionname = [];
        };
      }

  unfoldable pub setup :
      List (ConffileOption D S) → Bool → Bool → ConfFile → Exec (ConfState S) (Unit {0})
  unfolding set_up
  setup options case_sensitive ignore_unknown unreadable s = conf_fail Err.exist s
  setup options case_sensitive ignore_unknown unopened s = conf_fail Err.open_file s
  setup options case_sensitive ignore_unknown (readable reads) s =
      (some tt, set_up options case_sensitive ignore_unknown reads s)

  -- the count of an option is less than what is required
  unfoldable pub is_missing : (ℕ → ℕ) → ConffileOption D S → Bool
  unfolding below_required
  is_missing counts o = elim o.count_ptr [
    | none ↦ false
    | some address ↦ below_required (counts address) o.required_count
  ]

  -- the check of the required counts
  unfoldable pub check_required : List (ConffileOption D S) → Exec (ConfState S) (Unit {0})
  unfolding is_missing
  check_required [] s = (some tt, s)
  check_required (o ∷ options) s =
      let rest = check_required options s in
      if is_missing s.counts o
      then (
        none,
        record s {
          cf = record s.cf { optionname = name_of o.optionname; errnum = Err.parse_option_toofew };
        },
      )
      else rest

module _ {D S : Type 0} (numbers : Numbers D) (options : List (ConffileOption D S)) where
  unfoldable pub after_line :
      (ConfState S → Parsed × ConfState S) → Option (Unit {0}) → ConfState S → Parsed × ConfState S
  after_line rest none s = (failed, s)
  after_line rest (some _) s = rest s

  unfoldable pub with_line :
      (ConfState S → Parsed × ConfState S) → Option Name → ConfState S → Parsed × ConfState S
  unfolding after_line
  with_line rest none s = (failed, s)
  with_line rest (some []) s = (parsed, s)
  with_line rest (some (c ∷ cs)) s =
      let r = parseline numbers options (c ∷ cs) s in after_line rest r.0 r.1

  -- the loop of `conffile_parse`
  unfoldable pub parse_lines : ℕ → ConfState S → Parsed × ConfState S
  unfolding with_line
  parse_lines zero s = (out_of_fuel, s)
  parse_lines (suc fuel) s =
      let r = readline s.cf in
      let next = with_line (parse_lines fuel) r.0 (put_cf r.1 s) in
      if s.cf.end_of_file then (parsed, s) else next

  unfoldable pub finish_parse : Parsed → ConfState S → Parsed × ConfState S
  finish_parse failed s = (failed, s)
  finish_parse out_of_fuel s = (out_of_fuel, s)
  finish_parse parsed s =
      let r = check_required options (record s { cf = record s.cf { line_num = 0 } }) in
      if is_some r.0 then (parsed, put_conf_errnum Err.success r.1) else (failed, r.1)

  -- `close`, at the label `cleanup`
  unfoldable pub close_fd : ConfState S → ConfState S
  close_fd s = record s { cf = record s.cf { fd = none } }

  -- the number of reads that are left, and one more for the end of the file
  unfoldable pub fuel_for : Option (List (Option Name)) → ℕ
  fuel_for none = 2
  fuel_for (some reads) = length reads + 2

  unfoldable pub parse_file : Option (Unit {0}) → ConfState S → Parsed × ConfState S
  unfolding parse_lines finish_parse close_fd fuel_for
  parse_file none s = (failed, close_fd s)
  parse_file (some _) s =
      let r = parse_lines (fuel_for s.cf.fd) s in
      let f = finish_parse r.0 r.1 in (f.0, close_fd f.1)

  -- `conffile_parse` with a handle; the flags are their bits, and whether there is any other bit
  unfoldable pub conffile_parse : Bool → Bool → Bool → ConfFile → ConfState S → Parsed × ConfState S
  unfolding parse_file setup all_legitimate
  conffile_parse case_sensitive ignore_unknown other_flags file s =
      let opened = setup options case_sensitive ignore_unknown file s in
      if not (s.cf.magic == conffile_magic)
      then (failed, s)
      else if is_empty options
      then (failed, put_conf_errnum Err.parameters s)
      else if not (all_legitimate options)
      then (failed, put_conf_errnum Err.parameters s)
      else if other_flags
      then (failed, put_conf_errnum Err.parameters s)
      else parse_file opened.0 opened.1

module _ {D S : Type 0} where
  unfoldable pub conffile_empty : Callback D S
  conffile_empty data' s = (some tt, s)

  unfoldable pub conffile_bool : Option (Bool → S → S) → Callback D S
  unfolding stored
  conffile_bool option_ptr data' = stored option_ptr data'.boolval

  unfoldable pub conffile_int : Option (ℤ → S → S) → Callback D S
  unfolding stored
  conffile_int option_ptr data' = stored option_ptr data'.intval

  unfoldable pub conffile_double : Option (D → S → S) → Callback D S
  unfolding stored
  conffile_double option_ptr data' = stored option_ptr data'.doubleval

  -- the string is cut to `option_data - 1` bytes
  unfoldable pub conffile_string : Option (Name → S → S) → ℤ → Callback D S
  unfolding stored string_room
  conffile_string option_ptr option_data data' = elim (string_room option_data) [
    | none ↦ stored {A = Name} none []
    | some room ↦ stored option_ptr (take room data'.string)
  ]
