-- ===== src/Program/State.antt =====
-- The program whatsup (src/whatsup/whatsup.c): what it calls, its statics, and the modules that add
-- options to it (src/whatsup/whatsup_options.h).
use whatsup.Prelude.{ℕ, Bool, Option, none, some, List, ◌++◌, Name, ℤ, Exec}
use whatsup.External.{HostlistOps}
use whatsup.Devel.{UpOrDown}

-- WHATSUP_OPTION_TYPE_*, and a number out of their range
pub data OptionType : Type 0 where
  get_nodenames_type convert_nodenames_type monitor_type : OptionType
  unknown_type : ℤ → OptionType

-- `struct whatsup_option`. An array of them is the list of those before the first with option 0.
pub record WhatsupOption : Type 0 where
  pub option : ℕ
  pub option_arg : Option Name
  pub option_long : Option Name
  pub description : Name
  pub option_type : OptionType

-- `struct whatsup_options_module_info`: `none` is a NULL pointer, the functions act on the world `W`
-- outside of the program, and what the two that fill a buffer return is the string in it.
pub record OptionsModuleInfo (W : Type 0) : Type 0 where
  pub module_name : Option Name
  pub options : Option (List WhatsupOption)
  pub setup : Option (Exec W (Unit {0}))
  pub cleanup : Option (Exec W (Unit {0}))
  pub process_option : Option (ℕ → Option Name → Exec W (Unit {0}))
  pub get_nodenames : Option (ℕ → Exec W Name)
  pub convert_nodenames : Option (Name → ℕ → Exec W Name)
  pub monitor : Option (Option Name → ℤ → Exec W (Unit {0}))

-- `struct whatsup_module_loadinfo`
pub record LoadInfo (W : Type 0) : Type 0 where
  pub handle : ℕ
  pub module_info : OptionsModuleInfo W
  pub options_towatch : Name
  pub options_processed : Name

-- `struct option` of <getopt.h> with a NULL flag
pub record LongOption : Type 0 where
  pub name : Name
  pub has_arg : Bool
  pub val : ℕ

-- WHATSUP_UP_NODES, WHATSUP_DOWN_NODES and WHATSUP_UP_AND_DOWN
pub data UpDownOutput : Type 0 where
  up_only down_only up_and_down : UpDownOutput

-- the statics that the command line sets
pub record Settings : Type 0 where
  pub hostname : Option Name
  pub port : ℤ
  pub updown_output : UpDownOutput
  pub output_type : ℕ
  pub count_only_output : ℕ
  pub backend : Option Name
  pub last_up_time : ℕ
  pub log_mode : ℕ
  pub log_file : Option Name
  pub log_poll : ℤ

-- a line of the log
pub record LogEntry : Type 0 where
  pub time : Name
  pub node : Name
  pub which : UpOrDown

-- libnodeupdown as the program calls it, on the state `L` of the library
pub record UpdownOps (L : Type 0) : Type 0 where
  pub handle_create : Exec L (Unit {0})
  pub load_data : Option Name → ℤ → ℤ → Option Name → Exec L (Unit {0})
  pub errnum : L → ℕ
  pub errormsg : L → Name
  pub is_node : UpOrDown → Name → Exec L Bool
  pub nodes_string : UpOrDown → ℤ → Exec L Name
  pub last_up_time : Name → Exec L ℕ
  pub handle_destroy : Exec L (Unit {0})

-- The functions of src/libcommon/hostlist.h that the library does not call.
pub record HostlistStrings (H : Type 0) : Type 0 where
  -- `hostlist_create` of a string
  pub create_from : Name → Option H
  pub push_host : H → Name → Option H
  pub uniq : H → H
  pub deranged_string : H → ℕ → Option Name

pub record Statics (H L W : Type 0) : Type 0 where
  pub settings : Settings
  pub library : L
  pub inputted_nodes : H
  pub monitor_option_exists : ℕ
  pub modules_list : List (LoadInfo W)
  -- whether `modules_list_itr` is not NULL
  pub modules_list_itr : Bool
  -- the modules that are open and the references to libltdl, as libltdl counts them
  pub dl_open : ℕ
  pub dl_refs : ℕ
  pub world : W
  -- what is printed, and what is written to the log
  pub stdout : Name
  pub stderr : Name
  pub log : List LogEntry

pub record ProgramEnv (H L W : Type 0) : Type 0 where
  pub hostlist : HostlistOps H
  pub strings : HostlistStrings H
  pub updown : UpdownOps L
  -- whether `malloc` and the functions of list.h succeed
  pub malloc : Bool
  pub list_create : Bool
  pub list_append : Bool
  pub list_iterator_create : Bool
  -- WHATSUP_MODULE_DIR, and the build directory that a build without NDEBUG searches first
  pub module_dir : Name
  pub module_builddir : Option Name
  pub opendir : Name → Option (List Name)
  pub lt_dlinit : Bool
  pub lt_dlopen : Name → Option ℕ
  pub lt_dlsym : ℕ → Name → Option ℕ
  pub module_info : ℕ → OptionsModuleInfo W
  -- `getopt_long` until it returns -1: the letters with their arguments, and `argv` from `optind` on
  pub getopt_long : Name → List LongOption → List Name → List (ℕ × Option Name) × List Name
  -- `strtol(s, &ptr, 10)`: the number, and `ptr - s`
  pub strtol : Name → ℤ × ℕ
  -- `fd_read_n` of the standard input, at most that many bytes
  pub read_stdin : ℕ → Option Name
  -- `strftime` of `localtime`, of a time and of the current one
  pub format_time : ℕ → Name
  pub format_now : W → Name × W
  -- `open` of the log file, and `fd_write_n` with `fsync`
  pub open_log : Name → Bool
  pub write_log : Name → Exec W (Unit {0})
  pub sleep : ℤ → W → W
  -- PACKAGE, then VERSION
  pub package_name : Name
  pub version : Name

module _ {H L W : Type 0} where
  -- `err_exit`, which prints its message and ends the process with status 1
  unfoldable pub err_exit : {A : Type 0} → Name → Exec (Statics H L W) A
  err_exit message s = (none, record s { stderr = s.stderr ++ message })

  unfoldable pub print : Name → Exec (Statics H L W) (Unit {0})
  print text s = (some tt, record s { stdout = s.stdout ++ text })

  -- a call of the library, and one that leaves the program
  unfoldable pub in_library : {A : Type 0} → Exec L A → Statics H L W → Option A × Statics H L W
  in_library m s = let r = m s.library in (r.0, record s { library = r.1 })

  unfoldable pub in_world : {A : Type 0} → Exec W A → Statics H L W → Option A × Statics H L W
  in_world m s = let r = m s.world in (r.0, record s { world = r.1 })
