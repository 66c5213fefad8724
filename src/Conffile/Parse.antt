-- ===== src/Conffile/Parse.antt =====
-- `_parseline`, `_setup` and `conffile_parse` of src/libcommon/conffile.c, with the functions on the
-- handle and the callbacks that the library has.
use whatsup.Prelude.{
  ℕ, zero, suc, ◌+◌, ◌-◌, ◌^◌, Bool, true, false, ◌&&◌, Option, none, some, List, [], ◌∷◌, Name,
  length, str_eq, isspace, c_string, leb, ltb, ◌==◌, is_empty, if◌then◌else◌, ℤ, pos, negsuc, Exec,
  ◌>>=◌, ◌>>◌,
}
use whatsup.Conffile.Err
use whatsup.Conffile.Lines.{Conffile, remove_trailing_whitespace}
use whatsup.Conffile.Args.{Checked, value, error, parse_args}
use whatsup.Conffile.Options.{
  ConffileData, Numbers, ConfState, Callback, ConffileOption, str_case_eq, is_ignore, check_numargs,
  calculate,
}

abbrev pub conffile_magic : ℕ
conffile_magic = 0x0a1b2c3d

-- CONFFILE_MAX_OPTIONNAMELEN
abbrev pub max_optionnamelen : ℕ
max_optionnamelen = 256

-- `malloc` of the handle, whose contents before are the second argument
unfoldable pub conffile_handle_create : Bool → Conffile → Option Conffile
conffile_handle_create false memory = none
conffile_handle_create true memory =
    some (record memory { magic = conffile_magic; errnum = Err.success; fd = none })

-- `none` is -1, else the handle's memory when it is freed
unfoldable pub conffile_handle_destroy : Option Conffile → Option Conffile
conffile_handle_destroy none = none
conffile_handle_destroy (some cf) =
    if cf.magic == conffile_magic
    then some (record cf { magic = 2 ^ 32 - 1 - conffile_magic })
    else none

unfoldable pub conffile_errnum : Option Conffile → ℕ
conffile_errnum none = Err.nullhandle
conffile_errnum (some cf) = if cf.magic == conffile_magic then cf.errnum else Err.magic

-- `none` is -1
unfoldable pub conffile_line_number : Option Conffile → Option ℕ
conffile_line_number none = none
conffile_line_number (some cf) = if cf.magic == conffile_magic then some cf.line_num else none

-- `_move_past_whitespace` on the string at a buffer
unfoldable pub move_past_whitespace : Name → Option Name
move_past_whitespace [] = none
move_past_whitespace (c ∷ cs) =
    let rest = move_past_whitespace cs in if isspace c then rest else some (c ∷ cs)

-- the loop that copies the name: at most `room` bytes, up to a blank; the name and what follows
unfoldable pub option_word : ℕ → Name → Name × Name
option_word zero line = ([], line)
option_word (suc room) [] = ([], [])
option_word (suc room) (c ∷ cs) =
    let (word, rest) = option_word room cs in if isspace c then ([], c ∷ cs) else (c ∷ word, rest)

unfoldable pub names_match : Bool → Name → Option Name → Bool
names_match case_sensitive name none = false
names_match case_sensitive name (some optionname) =
    if case_sensitive then str_eq optionname name else str_case_eq optionname name

-- the arguments, if anything is left of the line
unfoldable pub args_at : Option Name → Checked (List Name)
unfolding parse_args
args_at none = value []
args_at (some linebuf) = parse_args linebuf

-- `max_count > 0` and the count is larger
unfoldable pub too_many : ℤ → ℕ → Bool
too_many (negsuc n) count = false
too_many (pos n) count = ltb 0 n && ltb n count

module _ {S : Type 0} where
  -- `cf->errnum = e; return -1;`
  abbrev pub conf_fail : {A : Type 0} → ℕ → Exec (ConfState S) A
  conf_fail e s = (none, record s { cf = record s.cf { errnum = e } })

  abbrev pub put_conf_errnum : ℕ → ConfState S → ConfState S
  put_conf_errnum e s = record s { cf = record s.cf { errnum = e } }

  unfoldable pub conffile_seterrnum : ℤ → Exec (ConfState S) (Unit {0})
  conffile_seterrnum (negsuc n) s =
      if s.cf.magic == conffile_magic then conf_fail Err.parameters s else (none, s)
  conffile_seterrnum (pos n) s =
      if s.cf.magic == conffile_magic
      then if leb n Err.errnumrange
        then (some tt, put_conf_errnum n s)
        else conf_fail Err.parameters s
      else (none, s)

  unfoldable pub lift_checked : {A : Type 0} → Checked A → Exec (ConfState S) A
  lift_checked (value a) s = (some a, s)
  lift_checked (error e) s = conf_fail e s

  -- `*count_ptr = n`
  abbrev pub put_count : ℕ → ℕ → ConfState S → ConfState S
  put_count address n s = record s { counts = λ a. if a == address then n else s.counts a }

module _ {D S : Type 0} (numbers : Numbers D) where
  unfoldable pub find_option : Bool → Name → List (ConffileOption D S) → Option (ConffileOption D S)
  unfolding names_match
  find_option case_sensitive name [] = none
  find_option case_sensitive name (o ∷ options) =
      let rest = find_option case_sensitive name options in
      if names_match case_sensitive name o.optionname then some o else rest

  -- the result of a callback
  unfoldable pub called_back : Option (Unit {0}) → Exec (ConfState S) (Unit {0})
  called_back (some _) s = (some tt, s)
  called_back none s =
      if s.cf.errnum == Err.success then conf_fail Err.parse_callback s else (none, s)

  unfoldable pub call_back : Option (Callback D S) → ConffileData D → Exec (ConfState S) (Unit {0})
  unfolding called_back
  call_back none data' s = (some tt, put_conf_errnum Err.success s)
  call_back (some callback) data' s =
      let r = callback data' (put_conf_errnum Err.success s) in called_back r.0 r.1

  -- what follows the arguments
  unfoldable pub with_args : ConffileOption D S → List Name → Exec (ConfState S) (Unit {0})
  with_args option args =
      lift_checked (check_numargs option.option_type option.option_type_arg (length args))
      >> lift_checked (calculate numbers option.option_type args)
      >>= call_back option.callback_func

  -- a NULL `count_ptr` was refused for an option of this kind
  unfoldable pub count_option : ℤ → Option ℕ → Exec (ConfState S) (Unit {0})
  unfolding too_many
  count_option max_count none s = (some tt, s)
  count_option max_count (some address) s =
      let counted = put_count address (s.counts address + 1) s in
      if too_many max_count (s.counts address + 1)
      then conf_fail Err.parse_option_toomany counted
      else (some tt, counted)

  unfoldable pub with_option : Name → Option (ConffileOption D S) → Exec (ConfState S) (Unit {0})
  unfolding count_option with_args args_at call_back lift_checked
  with_option rest none s =
      if s.cf.ignore_unknown then (some tt, s) else conf_fail Err.parse_option_unknown s
  with_option rest (some option) s =
      let applied =
        (count_option option.max_count option.count_ptr
            >> lift_checked (args_at (move_past_whitespace rest))
            >>= with_args option)
          s in
      if is_ignore option.option_type then (some tt, s) else applied

  unfoldable pub with_word : List (ConffileOption D S) → Name × Name → Exec (ConfState S) (Unit {0})
  unfolding with_option find_option
  with_word options (word, rest) s =
      let named : ConfState S = record s { cf = record s.cf { optionname = word } } in
      if length word == max_optionnamelen - 1
      then conf_fail Err.parse_overflow_optionlen named
      else with_option rest (find_option s.cf.case_sensitive word options) named

  unfoldable pub parse_text :
      List (ConffileOption D S) → Option Name → Exec (ConfState S) (Unit {0})
  unfolding with_word option_word
  parse_text options none s = (some tt, s)
  parse_text options (some text) s = with_word options (option_word (max_optionnamelen - 1) text) s

  -- `_parseline`
  unfoldable pub parseline : List (ConffileOption D S) → Name → Exec (ConfState S) (Unit {0})
  unfolding parse_text
  parseline options linebuf s =
      let line = remove_trailing_whitespace linebuf in
      if is_empty line
      then (some tt, s)
      else parse_text options (move_past_whitespace (c_string line)) s
