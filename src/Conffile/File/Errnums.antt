-- ===== src/Conffile/File/Errnums.antt =====
-- The error numbers of the checks of a line are not that of success.
use whatsup.Prelude.{
  ℕ, ◌+◌, ◌-◌, ◌<◌, Bool, true, false, not, ◌&&◌, ◌||◌, Option, none, some, List, [], ◌∷◌, Name,
  length, ltb, leb, ◌==◌, ℤ, pos, negsuc, arith, if-intro, isspace,
}
use whatsup.Conffile.Args.{
  Checked, value, error, Place, between, inside, escaped, Scan, store, step_inside, step_at,
  after_step, finish_at, scan, before_args, parse_args, max_arglen, max_args,
}
use whatsup.Conffile.Options.{
  OptionType, ignore, flag, bool, int, double, string, list_int, list_double, list_string,
  unknown_type, Numbers, is_flag, takes_argument, takes_one_argument, is_list, check_list_length,
  check_numargs, is_true, is_false, first_arg, all_numbers, or_invalid, calculate,
}
use whatsup.Conffile.Parse.{args_at}

-- An error of a check is not the number of success.
abbrev pub IsErrnum {ℓ} : {A : Type ℓ} → Checked A → Type 0
IsErrnum (value a) = Unit {0}
IsErrnum (error e) = 0 < e

store-IsErrnum : (quote : Bool) (s : Scan) (c : ℕ) → IsErrnum (store quote s c)
unfolding store
store-IsErrnum quote s c =
    if-intro IsErrnum (length s.arg + 1 == max_arglen - 1) _ _ (omega arith) tt

step_inside-IsErrnum : (quote : Bool) (s : Scan) (c : ℕ) → IsErrnum (step_inside quote s c)
unfolding step_inside
step_inside-IsErrnum quote s c = if-intro IsErrnum (not quote && isspace c) _ _ tt (
    if-intro IsErrnum (c == b'"') _ _ tt
      (if-intro IsErrnum (c == b'\\') _ _ tt (store-IsErrnum quote s c)))

step_at-IsErrnum : (place : Place) (s : Scan) (c : ℕ) → IsErrnum (step_at place s c)
unfolding step_at
step_at-IsErrnum between s c = if-intro IsErrnum (isspace c) _ _ tt (
    if-intro IsErrnum (leb max_args (length s.args)) _ _ (omega arith)
      (step_inside-IsErrnum false (record s { arg = [] }) c))
step_at-IsErrnum (inside quote) s c = step_inside-IsErrnum quote s c
step_at-IsErrnum (escaped quote) s c =
    if-intro IsErrnum (c == b'\\' || c == b'#' || c == b'"') _ _ (store-IsErrnum quote s c)
      (omega arith)

after_step-IsErrnum :
    (rest : Scan → Checked (List Name)) (r : Checked Scan)
    → ((s : Scan) → IsErrnum (rest s))
    → IsErrnum r
    → IsErrnum (after_step rest r)
unfolding after_step
after_step-IsErrnum rest (value s) f h = f s
after_step-IsErrnum rest (error e) f h = h

finish_at-IsErrnum : (place : Place) (s : Scan) → IsErrnum (finish_at place s)
unfolding finish_at
finish_at-IsErrnum between s = tt
finish_at-IsErrnum (inside true) s = omega arith
finish_at-IsErrnum (inside false) s = tt
finish_at-IsErrnum (escaped quote) s = omega arith

scan-IsErrnum : (line : Name) (s : Scan) → IsErrnum (scan line s)
unfolding scan
scan-IsErrnum [] s = finish_at-IsErrnum s.place s
scan-IsErrnum (c ∷ cs) s =
    after_step-IsErrnum (scan cs) (step_at s.place s c) (scan-IsErrnum cs)
      (step_at-IsErrnum s.place s c)

pub args_at-IsErrnum : (rest : Option Name) → IsErrnum (args_at rest)
unfolding args_at parse_args
args_at-IsErrnum none = tt
args_at-IsErrnum (some line) = scan-IsErrnum line before_args

check_list_length-IsErrnum : (len : ℤ) (n : ℕ) → IsErrnum (check_list_length len n)
unfolding check_list_length
check_list_length-IsErrnum (negsuc len) n = tt
check_list_length-IsErrnum (pos len) n =
    if-intro IsErrnum (ltb 0 len && not (n == len)) _ _
      (if-intro IsErrnum (ltb n len) _ _ (omega arith) (omega arith)) tt

pub check_numargs-IsErrnum :
    (type : OptionType) (len : ℤ) (n : ℕ) → IsErrnum (check_numargs type len n)
unfolding check_numargs
check_numargs-IsErrnum type len n =
    if-intro IsErrnum (is_flag type && not (n == 0)) _ _ (omega arith) (
      if-intro IsErrnum (takes_argument type && n == 0) _ _ (omega arith) (
        if-intro IsErrnum (takes_one_argument type && ltb 1 n) _ _ (omega arith)
          (if-intro IsErrnum (is_list type) _ _ (check_list_length-IsErrnum len n) tt)))

or_invalid-IsErrnum : {A B : Type 0} (f : A → B) (o : Option A) → IsErrnum (or_invalid f o)
unfolding or_invalid
or_invalid-IsErrnum f none = omega arith
or_invalid-IsErrnum f (some a) = tt

pub calculate-IsErrnum :
    {D : Type 0} (numbers : Numbers D) (type : OptionType) (args : List Name)
    → IsErrnum (calculate numbers type args)
unfolding calculate
calculate-IsErrnum numbers bool args =
    if-intro IsErrnum (is_true (first_arg args) || is_false (first_arg args)) _ _ tt (omega arith)
calculate-IsErrnum numbers int args = or_invalid-IsErrnum _ (numbers.strtol (first_arg args))
calculate-IsErrnum numbers double args = or_invalid-IsErrnum _ (numbers.strtod (first_arg args))
calculate-IsErrnum numbers string args = tt
calculate-IsErrnum numbers list_int args = or_invalid-IsErrnum _ (all_numbers numbers.strtol args)
calculate-IsErrnum numbers list_double args =
    or_invalid-IsErrnum _ (all_numbers numbers.strtod args)
calculate-IsErrnum numbers list_string args = tt
calculate-IsErrnum numbers ignore args = tt
calculate-IsErrnum numbers flag args = tt
calculate-IsErrnum numbers (unknown_type n) args = tt
