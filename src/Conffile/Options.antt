-- ===== src/Conffile/Options.antt =====
-- The options of a configuration file, their data and their callbacks: `struct conffile_option`,
-- `struct conffile_data` and the argument checks of `_parseline` of src/libcommon/conffile.c.
use whatsup.Prelude.{
  ℕ, ◌+◌, ◌-◌, ◌%◌, ◌^◌, Bool, true, false, not, ◌&&◌, ◌||◌, Option, none, some, List, [], ◌∷◌,
  Name, codes, str_eq, leb, ltb, ◌==◌, take, if◌then◌else◌, ℤ, pos, negsuc, Exec, map,
}
use whatsup.Conffile.Err
use whatsup.Conffile.Lines.{Conffile}
use whatsup.Conffile.Args.{Checked, value, error, max_arglen}

-- CONFFILE_OPTION_*, and a number out of their range
pub data OptionType : Type 0 where
  ignore flag bool int double string list_int list_double list_string : OptionType
  unknown_type : ℤ → OptionType

-- `tolower` in the C locale, and `strcasecmp(s, t) == 0`
abbrev pub tolower : ℕ → ℕ
tolower c = if leb b'A' c && leb c b'Z' then c + 32 else c

abbrev pub str_case_eq : Name → Name → Bool
str_case_eq s t = str_eq (map tolower s) (map tolower t)

-- `struct conffile_data`, the arrays as long as their lengths tell; `D` is a double
pub record ConffileData (D : Type 0) : Type 0 where
  pub boolval : Bool
  pub intval : ℤ
  pub doubleval : D
  pub string : Name
  pub intlist : List ℤ
  pub doublelist : List D
  pub stringlist : List Name

-- the conversion of a `long` to an `int` of 32 bits
unfoldable pub to_int : ℤ → ℤ
to_int (pos n) =
    let low = n % 2 ^ 32 in if ltb low (2 ^ 31) then pos low else negsuc (2 ^ 32 - 1 - low)
to_int (negsuc n) =
    let low = n % 2 ^ 32 in if ltb low (2 ^ 31) then negsuc low else pos (2 ^ 32 - 1 - low)

-- `strtol(arg, &ptr, 0)` and `strtod`: the number, or `none` where errno is set or `ptr` is not the
-- end of the argument.
pub record Numbers (D : Type 0) : Type 0 where
  pub strtol : Name → Option ℤ
  pub strtod : Name → Option D
  pub zero_double : D

-- The state of a parse: the handle, the integers that the `count_ptr`s point to, by their addresses,
-- and what the callbacks write to.
pub record ConfState (S : Type 0) : Type 0 where
  pub cf : Conffile
  pub counts : ℕ → ℕ
  pub app : S

-- A callback with its `option_ptr`, `option_data`, `app_ptr` and `app_data`; `none` is -1.
abbrev pub Callback : Type 0 → Type 0 → Type 0
Callback D S = ConffileData D → Exec (ConfState S) (Unit {0})

-- `struct conffile_option`
pub record ConffileOption (D S : Type 0) : Type 0 where
  pub optionname : Option Name
  pub option_type : OptionType
  pub option_type_arg : ℤ
  pub callback_func : Option (Callback D S)
  pub max_count : ℤ
  pub required_count : ℤ
  pub count_ptr : Option ℕ

abbrev pub takes_argument : OptionType → Bool
takes_argument ignore = false
takes_argument flag = false
takes_argument (unknown_type n) = false
takes_argument _ = true

abbrev pub takes_one_argument : OptionType → Bool
takes_one_argument bool = true
takes_one_argument int = true
takes_one_argument double = true
takes_one_argument string = true
takes_one_argument _ = false

abbrev pub is_list : OptionType → Bool
is_list list_int = true
is_list list_double = true
is_list list_string = true
is_list _ = false

abbrev pub is_flag : OptionType → Bool
is_flag flag = true
is_flag _ = false

abbrev pub is_ignore : OptionType → Bool
is_ignore ignore = true
is_ignore _ = false

-- the check of a list of a given length, where that is positive
unfoldable pub check_list_length : ℤ → ℕ → Checked (Unit {0})
check_list_length (negsuc n) numargs = value tt
check_list_length (pos len) numargs =
    if ltb 0 len && not (numargs == len)
    then if ltb numargs len then error Err.parse_arg_missing else error Err.parse_arg_toomany
    else value tt

-- the argument checks on their number, in their order
unfoldable pub check_numargs : OptionType → ℤ → ℕ → Checked (Unit {0})
unfolding check_list_length
check_numargs option_type option_type_arg numargs =
    if is_flag option_type && not (numargs == 0)
    then error Err.parse_arg_toomany
    else if takes_argument option_type && numargs == 0
    then error Err.parse_arg_missing
    else if takes_one_argument option_type && ltb 1 numargs
    then error Err.parse_arg_toomany
    else if is_list option_type
    then check_list_length option_type_arg numargs
    else value tt

unfoldable pub is_true : Name → Bool
unfolding str_eq
is_true arg =
    str_eq arg (codes "1")
    || str_case_eq arg (codes "y")
    || str_case_eq arg (codes "yes")
    || str_case_eq arg (codes "on")
    || str_case_eq arg (codes "t")
    || str_case_eq arg (codes "true")
    || str_case_eq arg (codes "enable")

unfoldable pub is_false : Name → Bool
unfolding str_eq
is_false arg =
    str_eq arg (codes "0")
    || str_case_eq arg (codes "n")
    || str_case_eq arg (codes "no")
    || str_case_eq arg (codes "off")
    || str_case_eq arg (codes "f")
    || str_case_eq arg (codes "false")
    || str_case_eq arg (codes "disable")

-- `args[0]`; a slot that was never written is not read
abbrev pub first_arg : List Name → Name
first_arg [] = []
first_arg (arg ∷ args) = arg

-- all the numbers, or `none` at the first that is none
unfoldable pub all_numbers : {A : Type 0} → (Name → Option A) → List Name → Option (List A)
all_numbers read [] = some []
all_numbers read (arg ∷ args) = elim (read arg) [
  | none ↦ none
  | some n ↦ elim (all_numbers read args) [ none ↦ none | some ns ↦ some (n ∷ ns) ]
]

unfoldable pub or_invalid : {A B : Type 0} → (A → B) → Option A → Checked B
or_invalid f none = error Err.parse_arg_invalid
or_invalid f (some a) = value (f a)

module _ {D : Type 0} (numbers : Numbers D) where
  -- what `memset` leaves
  abbrev pub no_data : ConffileData D
  no_data = record {
    boolval = false;
    intval = pos 0;
    doubleval = numbers.zero_double;
    string = [];
    intlist = [];
    doublelist = [];
    stringlist = [];
  }

  -- the check of a boolean and the calculation of the data
  unfoldable pub calculate : OptionType → List Name → Checked (ConffileData D)
  unfolding or_invalid all_numbers to_int
  calculate bool args =
      if is_true (first_arg args) || is_false (first_arg args)
      then value (record no_data { boolval = is_true (first_arg args) })
      else error Err.parse_arg_invalid
  calculate int args =
      or_invalid (λ n. record no_data { intval = to_int n }) (numbers.strtol (first_arg args))
  calculate double args =
      or_invalid (λ x. record no_data { doubleval = x }) (numbers.strtod (first_arg args))
  calculate string args = value (record no_data { string = take (max_arglen - 1) (first_arg args) })
  calculate list_int args =
      or_invalid (λ ns. record no_data { intlist = map to_int ns })
        (all_numbers numbers.strtol args)
  calculate list_double args =
      or_invalid (λ xs. record no_data { doublelist = xs }) (all_numbers numbers.strtod args)
  calculate list_string args =
      value (record no_data { stringlist = map (take (max_arglen - 1)) args })
  calculate ignore args = value no_data
  calculate flag args = value no_data
  calculate (unknown_type n) args = value no_data
