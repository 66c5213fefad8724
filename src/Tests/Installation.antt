-- ===== src/Tests/Installation.antt =====
-- The program whatsup on a sample installation: one module with three options, and a library that
-- finds the two nodes of a cluster up in turn.
use whatsup.Prelude.{
  ℕ, suc, ltb, Option, ◌&&◌, Bool, true, false, not, none, some, List, [], ◌∷◌, ◌++◌, is_empty,
  Name, codes, length, ◌==◌, if◌then◌else◌, pos, print_ulong,
}
use whatsup.External.{HostlistOps, HostlistLaws}
use whatsup.Handle.Err
use whatsup.Devel.{up_nodes, down_nodes}
use whatsup.Program.State.{
  get_nodenames_type, convert_nodenames_type, up_and_down, WhatsupOption, OptionsModuleInfo,
  UpdownOps, HostlistStrings, Statics, ProgramEnv,
}
use whatsup.Program.Dispatch.{exceeds}
use whatsup.Tests.Sample.{Hosts, hosts_ops, hosts_laws}

-- a hostlist is printed with commas and read back
abbrev pub comma_list : Hosts → Name
comma_list [] = []
comma_list (n ∷ []) = n
comma_list (n ∷ m ∷ rest) = n ++ (b',' ∷ comma_list (m ∷ rest))

-- the string, where it fits into a buffer of so many bytes with its '\0'
abbrev pub fitting : ℕ → Name → Option Name
fitting n text = if ltb (length text) n then some text else none

abbrev pub split : Name → Name → Hosts
split [] word = if is_empty word then [] else word ∷ []
split (c ∷ cs) word =
    let next = split cs [] in
    let more = split cs (word ++ c ∷ []) in if c == b',' then word ∷ next else more

unfoldable pub program_hosts : HostlistOps Hosts
unfolding hosts_ops
program_hosts = record hosts_ops { ranged_string = λ h n. fitting n (comma_list h) }

pub program_hosts_laws : HostlistLaws program_hosts (λ _. Unit {0})
unfolding program_hosts hosts_ops
program_hosts_laws = record {
  hosts-create = hosts_laws.hosts-create;
  hosts-push = hosts_laws.hosts-push;
  find-contains = hosts_laws.find-contains;
  count-length = hosts_laws.count-length;
  sort-contains = hosts_laws.sort-contains;
  sort-count = hosts_laws.sort-count;
}

unfoldable pub program_strings : HostlistStrings Hosts
program_strings = record {
  create_from = λ text. some (split text []);
  push_host = λ h n. some (h ++ n ∷ []);
  uniq = λ h. h;
  deranged_string = λ h n. fitting n (comma_list h);
}

-- a library that finds one of two nodes up, the other one after each load
unfoldable pub toggling : UpdownOps Bool
toggling = record {
  handle_create = λ l. (some tt, l);
  load_data = λ hostname port timeout_len name l. (some tt, not l);
  errnum = λ l. Err.success;
  errormsg = λ l. codes "success";
  is_node = λ which node l. (some true, l);
  nodes_string = λ which buflen l. (
    some (elim which [
      | up_nodes ↦ if l then codes "a" else codes "b"
      | down_nodes ↦ if l then codes "b" else codes "a"
    ]),
    l,
  );
  last_up_time = λ node l. (some 5, l);
  handle_destroy = λ l. (some tt, l);
}

-- a library that loads a handle that was created, and has strings for a handle that is loaded
unfoldable pub strict : UpdownOps ℕ
strict = record {
  handle_create = λ l. (some tt, 1);
  load_data = λ hostname port timeout_len name l. if l == 1 then (some tt, 2) else (none, l);
  errnum = λ l. Err.success;
  errormsg = λ l. codes "success";
  is_node = λ which node l. (some true, l);
  nodes_string =
      λ which buflen l. if l == 2 && exceeds buflen 1 then (some (codes "a"), l) else (none, l);
  last_up_time = λ node l. (some 5, l);
  handle_destroy = λ l. (some tt, 0);
}

-- -x takes an argument, -h is taken by the program, and -g asks for the nodes of the module
abbrev pub sample_options : List WhatsupOption
sample_options =
    record {
      option = b'x';
      option_arg = some (codes "FILE");
      option_long = some (codes "extra");
      description = codes "Extra";
      option_type = convert_nodenames_type;
    }
    ∷ record {
      option = b'h';
      option_arg = none;
      option_long = none;
      description = codes "Taken";
      option_type = get_nodenames_type;
    }
    ∷ record {
      option = b'g';
      option_arg = none;
      option_long = none;
      description = codes "Nodes of the file";
      option_type = get_nodenames_type;
    }
    ∷ []

abbrev pub sample_module : OptionsModuleInfo ℕ
sample_module = record {
  module_name = some (codes "sample");
  options = some sample_options;
  setup = some (λ w. (some tt, w));
  cleanup = some (λ w. (some tt, w));
  process_option = some (λ c optarg w. (some tt, suc w));
  get_nodenames = some (λ buflen w. (some (codes "b"), w));
  convert_nodenames = none;
  monitor = none;
}

-- `argv` without options of the program's own, and a clock that counts
unfoldable pub program_env : {L : Type 0} → UpdownOps L → ProgramEnv Hosts L ℕ
unfolding program_hosts program_strings
program_env updown = record {
  hostlist = program_hosts;
  strings = program_strings;
  updown = updown;
  malloc = true;
  list_create = true;
  list_append = true;
  list_iterator_create = true;
  module_dir = codes "/lib";
  module_builddir = none;
  opendir = λ dir. some (codes "README" ∷ codes "whatsup_options_sample.so" ∷ []);
  lt_dlinit = true;
  lt_dlopen = λ path. some 1;
  lt_dlsym = λ dl sym. some 1;
  module_info = λ addr. sample_module;
  getopt_long = λ soptions loptions argv. ((b'g', none) ∷ (b'p', some (codes "80")) ∷ [], argv);
  strtol = λ text. (pos 80, length text);
  read_stdin = λ n. some [];
  format_time = print_ulong;
  format_now = λ w. (print_ulong w, suc w);
  open_log = λ file. true;
  write_log = λ text w. (some tt, w);
  sleep = λ seconds w. w;
  package_name = codes "whatsup";
  version = codes "1.15";
}

unfoldable pub program_state : {L : Type 0} → L → Hosts → Statics Hosts L ℕ
program_state library nodes = record {
  settings = record {
    hostname = none;
    port = pos 0;
    updown_output = up_and_down;
    output_type = 0;
    count_only_output = 0;
    backend = none;
    last_up_time = 0;
    log_mode = 0;
    log_file = none;
    log_poll = pos 30;
  };
  library = library;
  inputted_nodes = nodes;
  monitor_option_exists = 0;
  modules_list = [];
  modules_list_itr = false;
  dl_open = 2;
  dl_refs = 1;
  world = 100;
  stdout = [];
  stderr = [];
  log = [];
}
