-- ===== src/Conffile/Err.antt =====
-- The error numbers of src/libcommon/conffile.h.
use whatsup.Prelude.{ℕ}

abbrev pub success : ℕ
success = 0x00

abbrev pub parse_option_unknown : ℕ
parse_option_unknown = 0x01

abbrev pub parse_option_toomany : ℕ
parse_option_toomany = 0x02

abbrev pub parse_option_toofew : ℕ
parse_option_toofew = 0x03

abbrev pub parse_overflow_linelen : ℕ
parse_overflow_linelen = 0x04

abbrev pub parse_overflow_optionlen : ℕ
parse_overflow_optionlen = 0x05

abbrev pub parse_overflow_arglen : ℕ
parse_overflow_arglen = 0x06

abbrev pub parse_arg_missing : ℕ
parse_arg_missing = 0x07

abbrev pub parse_arg_toomany : ℕ
parse_arg_toomany = 0x08

abbrev pub parse_arg_invalid : ℕ
parse_arg_invalid = 0x09

abbrev pub parse_quote : ℕ
parse_quote = 0x0a

abbrev pub parse_continuation : ℕ
parse_continuation = 0x0b

abbrev pub parse_callback : ℕ
parse_callback = 0x0c

abbrev pub exist : ℕ
exist = 0x0d

abbrev pub open_file : ℕ
open_file = 0x0e

abbrev pub read : ℕ
read = 0x0f

abbrev pub outmem : ℕ
outmem = 0x10

abbrev pub parameters : ℕ
parameters = 0x11

abbrev pub magic : ℕ
magic = 0x12

abbrev pub nullhandle : ℕ
nullhandle = 0x13

abbrev pub internal : ℕ
internal = 0x14

abbrev pub errnumrange : ℕ
errnumrange = 0x15
