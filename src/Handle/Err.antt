-- ===== src/Handle/Err.antt =====
-- The error numbers of src/libnodeupdown/nodeupdown.h.
use whatsup.Prelude.{ℕ}

abbrev pub success : ℕ
success = 0

abbrev pub null_handle : ℕ
null_handle = 1

abbrev pub connect : ℕ
connect = 2

abbrev pub connect_timeout : ℕ
connect_timeout = 3

abbrev pub hostname : ℕ
hostname = 4

abbrev pub is_loaded : ℕ
is_loaded = 5

abbrev pub not_loaded : ℕ
not_loaded = 6

abbrev pub overflow : ℕ
overflow = 7

abbrev pub parameters : ℕ
parameters = 8

abbrev pub null_ptr : ℕ
null_ptr = 9

abbrev pub out_mem : ℕ
out_mem = 10

abbrev pub not_found : ℕ
not_found = 11

abbrev pub not_supported : ℕ
not_supported = 12

abbrev pub backend_module : ℕ
backend_module = 13

abbrev pub clusterlist_module : ℕ
clusterlist_module = 14

abbrev pub config_module : ℕ
config_module = 15

abbrev pub conf_parse : ℕ
conf_parse = 16

abbrev pub conf_input : ℕ
conf_input = 17

abbrev pub conf_internal : ℕ
conf_internal = 18

abbrev pub magic : ℕ
magic = 19

abbrev pub internal : ℕ
internal = 20

abbrev pub errnum_range : ℕ
errnum_range = 21
