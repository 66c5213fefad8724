-- ===== src/Tests/Sample.antt =====
-- An installation with one backend module and no other: its directory, its linker, and containers
-- that are lists.
use whatsup.Prelude.{
  str_eq_refl, str_eq-ne, ap, ◌∙◌, ◌≢◌, ℕ, suc, ◌≡◌, refl, true, false, Option, none, some, List,
  [], ◌∷◌, ◌++◌, Name, codes, str_eq, contains, length, if◌then◌else◌, pos, is_some, Exec, ◌>>◌,
  arith,
}
use whatsup.External.{HostlistOps, HashOps, HostlistLaws, HashLaws}
use whatsup.Handle.Err
use whatsup.Handle.State.{State, LoadState, nodeupdown_magic_num, builtin}
use whatsup.Handle.Checks.{fail_with}
use whatsup.Module.Info.{DevelApi, BackendInfo, Env}
use whatsup.Module.Default.{default_clusterlist_module_info, default_config_module_info}
use whatsup.Module.Counts.{Frame-refl, Framed, Framed-bind, Framed-if}
use whatsup.Module.Laws.{DevelFramed, EnvLaws}
use whatsup.Module.DefaultFrame.{default-ClusterlistFramed, default-ConfigFramed}
use whatsup.Devel.Frame.{fail_with-Framed}

abbrev pub Hosts : Type 0
Hosts = List Name

abbrev pub Times : Type 0
Times = List (Name × ℕ)

abbrev pub find_index : Name → Hosts → ℕ → Option ℕ
find_index n [] i = none
find_index n (m ∷ ms) i = let rest = find_index n ms (suc i) in if str_eq m n then some i else rest

abbrev pub find_time : Times → Name → Option ℕ
find_time [] n = none
find_time ((m, t) ∷ ts) n = let rest = find_time ts n in if str_eq m n then some t else rest

unfoldable pub hosts_ops : HostlistOps Hosts
unfolding str_eq
hosts_ops = record {
  create = some [];
  push = λ h n. some (h ++ n ∷ []);
  find = λ h n. find_index n h 0;
  count = length;
  sort = λ h. h;
  ranged_string = λ h n. none;
  iterator_create = λ h. true;
  hosts = λ h. h;
}

unfoldable pub times_ops : HashOps Times
unfolding str_eq
times_ops = record {
  create = some [];
  is_empty = λ t. elim t [ [] ↦ true | _ ↦ false ];
  find = find_time;
  insert = λ t n v. if is_some (find_time t n) then none else some ((n, v) ∷ t);
  exists_already = λ t n. is_some (find_time t n);
}

abbrev pub SampleState : Type 0
SampleState = State Hosts Times

-- one node up, one down, from any host but one that does not answer
unfoldable pub sample_data : DevelApi Hosts Times → Name → Exec SampleState (Unit {0})
unfolding str_eq
sample_data devel hostname s =
    if str_eq hostname (codes "silent")
    then fail_with Err.connect s
    else (devel.add_up_node (codes "a")
          >> devel.add_down_node (codes "b")
          >> devel.add_last_up_time (codes "a") 5)
        s

abbrev pub sample_backend : BackendInfo Hosts Times
sample_backend = record {
  pointers = record {
    backend_module_name = true;
    default_hostname = true;
    default_port = true;
    default_timeout_len = true;
    preferred_clusterlist_module = true;
    setup = true;
    cleanup = true;
    get_updown_data = true;
  };
  default_hostname = λ s. (some (codes "localhost"), s);
  default_port = λ s. (pos 7000, s);
  default_timeout_len = λ s. (pos 60, s);
  preferred_clusterlist_module = λ s. (none, s);
  setup = λ s. (some tt, s);
  cleanup = λ s. (some tt, s);
  get_updown_data = λ devel hostname port timeout_len reserved s. sample_data devel hostname s;
}

unfoldable pub sample_env : Env Hosts Times
unfolding default_clusterlist_module_info default_config_module_info
sample_env = record {
  hostlist = hosts_ops;
  hash = times_ops;
  malloc = true;
  conffile_handle_create = true;
  conffile_parse = λ conf. (some 0x0d, conf);
  module_dir = codes "/lib";
  module_builddir = none;
  opendir = λ dir. some (codes "README" ∷ codes "nodeupdown_backend_pingd.so" ∷ []);
  stat = λ path. true;
  lt_dlinit = true;
  lt_dlopen = λ path. some 1;
  lt_dlsym = λ dl sym. some 1;
  backend = λ info. sample_backend;
  clusterlist = λ info. default_clusterlist_module_info hosts_ops;
  config = λ info. default_config_module_info;
}

-- a new handle in a program that holds two modules and one reference to libltdl of its own
unfoldable pub new_state : SampleState
new_state = record {
  handle = record {
    magic = nodeupdown_magic_num;
    errnum = 0;
    load_state = LoadState.unloaded;
    ltdl_initialized = false;
    up_nodes = none;
    down_nodes = none;
    last_up_times = none;
    numnodes = 0;
  };
  modules = record {
    backend_module_dl_handle = none;
    backend_module_info = none;
    clusterlist_module_dl_handle = none;
    clusterlist_module_info = none;
    clusterlist_module_found = 0;
    config_module_dl_handle = none;
    config_module_info = none;
    dl_open = 2;
    dl_refs = 1;
  };
  hosts = none;
  cerebro_handle = false;
}

-- the same after a load
unfoldable pub loaded_state : SampleState
loaded_state = record {
  handle = record {
    magic = nodeupdown_magic_num;
    errnum = 0;
    load_state = LoadState.loaded;
    ltdl_initialized = true;
    up_nodes = some (codes "a" ∷ []);
    down_nodes = some (codes "b" ∷ []);
    last_up_times = some ((codes "a", 5) ∷ []);
    numnodes = 2;
  };
  modules = record {
    backend_module_dl_handle = some 1;
    backend_module_info = some 1;
    clusterlist_module_dl_handle = none;
    clusterlist_module_info = some builtin;
    clusterlist_module_found = 0;
    config_module_dl_handle = none;
    config_module_info = some builtin;
    dl_open = 3;
    dl_refs = 2;
  };
  hosts = none;
  cerebro_handle = false;
}

-- in the middle of a load
unfoldable pub setup_state : SampleState
setup_state = record {
  handle = record {
    magic = nodeupdown_magic_num;
    errnum = 0;
    load_state = LoadState.setup;
    ltdl_initialized = true;
    up_nodes = some [];
    down_nodes = some [];
    last_up_times = some [];
    numnodes = 0;
  };
  modules = record {
    backend_module_dl_handle = some 1;
    backend_module_info = some 1;
    clusterlist_module_dl_handle = none;
    clusterlist_module_info = some builtin;
    clusterlist_module_found = 0;
    config_module_dl_handle = none;
    config_module_info = some builtin;
    dl_open = 3;
    dl_refs = 2;
  };
  hosts = none;
  cerebro_handle = false;
}

pub sample_data-Framed :
    (devel : DevelApi Hosts Times) (hostname : Name)
    → DevelFramed devel
    → Framed (sample_data devel hostname)
unfolding sample_data
sample_data-Framed devel hostname h =
    Framed-if (λ _. str_eq hostname (codes "silent")) _ _ (fail_with-Framed Err.connect)
      (Framed-bind _ _
        (Framed-bind _ _ (h.add_up_node (codes "a")) (λ _. h.add_down_node (codes "b")))
        (λ _. h.add_last_up_time (codes "a") 5))

pub sample_laws : EnvLaws sample_env
unfolding sample_env
sample_laws = record {
  backend = λ info. record {
    default_hostname = record { at = Frame-refl };
    default_port = Frame-refl;
    default_timeout_len = Frame-refl;
    preferred_clusterlist_module = record { at = Frame-refl };
    setup = record { at = Frame-refl };
    cleanup = record { at = Frame-refl };
    get_updown_data =
        λ devel h hostname port timeout_len reserved. sample_data-Framed devel hostname h;
  };
  clusterlist = λ info. default-ClusterlistFramed hosts_ops;
  config = λ info. default-ConfigFramed;
}

find_index-contains : (n : Name) (h : Hosts) (i : ℕ) → is_some (find_index n h i) ≡ contains n h
unfolding contains
find_index-contains n [] i = refl
find_index-contains n (m ∷ h) i = ground (arith, find_index-contains n h (suc i))

pub hosts_laws : HostlistLaws hosts_ops (λ _. Unit {0})
unfolding hosts_ops
hosts_laws = record {
  hosts-create = λ h e. cc e;
  hosts-push = λ h h' n _ e. cc e;
  find-contains = λ h n. find_index-contains n h 0;
  count-length = λ h. refl;
  sort-contains = λ h n. refl;
  sort-count = λ h. refl;
}

insert_time : Times → Name → ℕ → Option Times
insert_time t n v = if is_some (find_time t n) then none else some ((n, v) ∷ t)

insert_time-some :
    (t t' : Times) (n : Name) (v : ℕ) → insert_time t n v ≡ some t' → t' ≡ ((n, v) ∷ t)
unfolding insert_time
insert_time-some t t' n v e = ground (arith, e)

find_time-cons_self : (t : Times) (n : Name) (v : ℕ) → find_time ((n, v) ∷ t) n ≡ some v
find_time-cons_self t n v = rw (str_eq_refl n) refl

find_time-cons_ne :
    (t : Times) (n m : Name) (v : ℕ) → n ≢ m → find_time ((n, v) ∷ t) m ≡ find_time t m
find_time-cons_ne t n m v h = rw (str_eq-ne n m h) refl

find-created : (t : Times) (k : Name) → times_ops.create ≡ some t → find_time t k ≡ none
unfolding times_ops
find-created [] k e = refl
find-created (entry ∷ t) k e = cc

pub times_laws : HashLaws times_ops
unfolding times_ops insert_time
times_laws = record {
  find-create = λ t k e. find-created t k e;
  find-insert_self = λ t t' k v e.
      ap (λ x. find_time x k) (insert_time-some t t' k v e) ∙ find_time-cons_self t k v;
  find-insert_ne = λ t t' k j v ne e.
      ap (λ x. find_time x j) (insert_time-some t t' k v e) ∙ find_time-cons_ne t k j v ne;
  is_empty-insert = λ t t' k v e. ap times_ops.is_empty (insert_time-some t t' k v e);
}
