-- ===== src/Tests/Conffile.antt =====
-- A configuration file with two options, and the parser's theorems on it.
use whatsup.Prelude.{
  ◌^◌, ◌+◌, ◌-◌, ◌≤◌, ◌≡◌, ◌≢◌, ◌↔◌, refl, false, Option, none, some, List, [], ◌∷◌, ◌++◌, Name,
  print_ulong, codes, String, length, ltb, if◌then◌else◌, ℤ, pos, arith, str_eq, isspace, c_string,
}
use whatsup.Conffile.Err
use whatsup.Conffile.Lines.{readline}
use whatsup.Conffile.Args.{value, parse_args, max_args}
use whatsup.Conffile.Message.{conffile_errmsg}
use whatsup.Conffile.Args.Bounds.{IfValue, Fits, parse_args_bounds}
use whatsup.Conffile.Args.RoundTrip.{write_args, parse_args-write_args}
use whatsup.Conffile.Options.{
  Numbers, ConfState, ConffileOption, flag, int, check_numargs, calculate, no_data,
}
use whatsup.Conffile.Parse.{conffile_magic, parseline, move_past_whitespace}
use whatsup.Conffile.File.{
  ConfFile, readable, Parsed, parsed, out_of_fuel, conffile_parse, conffile_int, check_required,
}
use whatsup.Conffile.File.Keeps.{CallbacksKeepFile, stored-KeepsFile}
use whatsup.Conffile.File.Outcome.{
  conffile_parse_terminates, conffile_parse-errnum, conffile_parse-RequiredMet, RequiredMet,
}

abbrev arguments : List Name
arguments = codes "node 1" ∷ codes "a#b" ∷ []

parse_args-write_args_example : parse_args (write_args arguments) ≡ value arguments
parse_args-write_args_example =
    parse_args-write_args arguments (omega arith) (omega arith, (omega arith, tt))

parse_args_bounds_example :
    IfValue (λ args. (length args ≤ max_args) × Fits args) (parse_args (codes "a 'b \"c d\""))
parse_args_bounds_example = parse_args_bounds (codes "a 'b \"c d\"")

-- `strtol` of one decimal digit
abbrev digit : Name → Option ℤ
digit [] = none
digit (c ∷ cs) = if ltb 47 c then some (pos (c - 48)) else none

abbrev numbers : Numbers (Unit {0})
numbers = record { strtol = digit; strtod = λ _. none; zero_double = tt }

abbrev options : List (ConffileOption (Unit {0}) ℤ)
options =
    record {
      optionname = some (codes "port");
      option_type = int;
      option_type_arg = pos 0;
      callback_func = some (conffile_int (some (λ n _. n)));
      max_count = pos 1;
      required_count = pos 1;
      count_ptr = some 0;
    }
    ∷ record {
      optionname = some (codes "debug");
      option_type = flag;
      option_type_arg = pos 0;
      callback_func = none;
      max_count = pos 1;
      required_count = pos 0;
      count_ptr = some 1;
    }
    ∷ []

abbrev fresh : ConfState ℤ
fresh = record {
  cf = record {
    magic = conffile_magic;
    errnum = Err.success;
    fd = none;
    case_sensitive = false;
    ignore_unknown = false;
    line_num = 0;
    line_count = 0;
    end_of_file = false;
    optionname = [];
  };
  counts = λ _. 7;
  app = pos 0;
}

abbrev line : String → Option Name
line s = some (codes s ++ 10 ∷ [])

abbrev good_file : ConfFile
good_file =
    readable (line "# the daemon" ∷ line "PORT \\" ∷ line "  5 # its port" ∷ line "debug" ∷ [])

abbrev parse : ConfFile → Parsed × ConfState ℤ
parse file = conffile_parse numbers options false false false file fresh

good_file_parsed : ((parse good_file).0 ≡ parsed) × ((parse good_file).1.app ≡ pos 5)
unfolding conffile_parse isspace str_eq c_string readline parseline move_past_whitespace
    check_numargs calculate conffile_int check_required
good_file_parsed = (refl, refl)

-- A file without its required option.
short_file_failed : (parse (readable (line "debug" ∷ []))).1.cf.errnum ≡ Err.parse_option_toofew
unfolding conffile_parse isspace str_eq c_string readline parseline move_past_whitespace
    check_numargs calculate conffile_int check_required
short_file_failed = refl

-- The second `debug` is one too many.
long_file_failed :
    (parse (readable (line "debug" ∷ line "debug" ∷ []))).1.cf.errnum ≡ Err.parse_option_toomany
unfolding conffile_parse isspace str_eq c_string readline parseline move_past_whitespace
    check_numargs calculate conffile_int check_required
long_file_failed = refl

-- A number that is too large for an `int` is not refused, but cut to its low 32 bits.
large_number_cut :
    calculate (record numbers { strtol = λ _. some (pos (2 ^ 32 + 5)) }) int (codes "x" ∷ [])
    ≡ value (record (no_data numbers) { intval = pos 5 })
unfolding calculate
large_number_cut = refl

keeps : CallbacksKeepFile options
unfolding conffile_int
keeps = (stored-KeepsFile (some (λ n _. n)) (λ data'. data'.intval), (tt, tt))

conffile_parse_terminates_example : (parse good_file).0 ≢ out_of_fuel
conffile_parse_terminates_example =
    conffile_parse_terminates numbers options false false false good_file fresh keeps

conffile_parse-errnum_example :
    ((parse good_file).0 ≡ parsed) ↔ ((parse good_file).1.cf.errnum ≡ Err.success)
conffile_parse-errnum_example =
    conffile_parse-errnum numbers options false false false good_file fresh keeps refl

conffile_parse-RequiredMet_example : RequiredMet options (parse good_file).1.counts
unfolding conffile_parse isspace str_eq c_string readline parseline move_past_whitespace
    check_numargs calculate conffile_int check_required
conffile_parse-RequiredMet_example =
    conffile_parse-RequiredMet numbers options false false false good_file fresh keeps refl refl

-- The option and the line are named.
unknown_option_message :
    conffile_errmsg (some (parse (readable (line "ports 5" ∷ []))).1.cf) 80
    ≡ some (some (codes "unknown configuration option \"ports\" on line 1"))
unfolding conffile_errmsg conffile_parse isspace str_eq c_string readline parseline
    move_past_whitespace print_ulong
unknown_option_message = refl
