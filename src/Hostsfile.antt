-- ===== src/Hostsfile.antt =====
-- The hostsfile clusterlist module: src/libnodeupdown/nodeupdown_clusterlist_hostsfile.c.
pub mod Lines
pub mod Comments
pub mod Blanks
pub mod Names
pub mod Hosts
use whatsup.Prelude.{
  ℕ, zero, suc, ◌-◌, Bool, true, false, Option, none, some, List, [], ◌∷◌, Name, strchr, str_eq,
  length, take, leb, ◌==◌, is_some, if◌then◌else◌, Exec, ◌>>=◌, ◌>>◌, continue,
}
use whatsup.External.{ListOps}
use whatsup.Handle.Err
use whatsup.Handle.State.{State}
use whatsup.Handle.Checks.{nodeupdown_set_errnum, set_and_fail}
use whatsup.Module.Info.{ClusterlistInfo, DevelApi}
use whatsup.Module.Default.{copy_nodename}
use whatsup.Devel.{maxnodenamelen}
use whatsup.Hostsfile.Lines.{Line, skipped, malformed, host, before_dot, read_host}
use whatsup.Prelude.{pos}

-- NODEUPDOWN_BUFFERLEN
abbrev pub bufferlen : ℕ
bufferlen = 65536

-- `open` of the hosts file, with what the calls of `fd_read_line` return: the bytes of a line, or
-- `none` for an error; after the last one they return 0.
pub data HostsFile : Type 0 where
  opened : List (Option Name) → HostsFile
  missing : HostsFile
  unopened : HostsFile

-- a node's name without its domain; `none` is the write through the NULL that `strchr` gives
unfoldable pub shorten : Name → Option Name
shorten node =
    let nodebuf = take maxnodenamelen node in
    if is_some (strchr b'.' node)
    then if is_some (strchr b'.' nodebuf) then some (before_dot nodebuf) else none
    else some node

-- `malloc` tells whether `strdup` succeeds, and `undefined` stands for what a process does that
-- accesses a NULL pointer.
module _ {H T : Type 0} (list : ListOps) (malloc : Bool) (file : HostsFile)
    (undefined : (A : Type 0) → Exec (State H T) A) where
  unfoldable pub put_hosts : List Name → State H T → State H T
  put_hosts l s = record s { hosts = some l }

  unfoldable pub appended : Option (List Name) → Exec (State H T) (Unit {0})
  unfolding put_hosts
  appended none s = set_and_fail Err.clusterlist_module s
  appended (some l) s = (some tt, put_hosts l s)

  unfoldable pub append_to : Option (List Name) → Name → Exec (State H T) (Unit {0})
  unfolding appended
  append_to none name s = undefined _ s
  append_to (some l) name s =
      if malloc then appended (list.append l name) s else set_and_fail Err.out_mem s

  unfoldable pub add_line : Line → Exec (State H T) (Unit {0})
  unfolding append_to
  add_line skipped s = (some tt, s)
  add_line malformed s = set_and_fail Err.clusterlist_module s
  add_line (host name) s = append_to s.hosts name s

  -- the loop; `_readline` fails on an error and on a line that fills the buffer, and its failure
  -- ends the loop as the end of the file does
  unfoldable pub read_hosts : List (Option Name) → Exec (State H T) (Unit {0})
  unfolding add_line
  read_hosts [] s = (some tt, s)
  read_hosts (none ∷ reads) s = (some tt, nodeupdown_set_errnum (pos Err.clusterlist_module) s)
  read_hosts (some line ∷ reads) s =
      let added = add_line (read_host line) s in
      let rest = continue added.0 (λ _. read_hosts reads) added.1 in
      if leb (bufferlen - 1) (length line)
      then (some tt, nodeupdown_set_errnum (pos Err.clusterlist_module) s)
      else if length line == 0
      then (some tt, s)
      else rest

  unfoldable pub read_file : HostsFile → Exec (State H T) (Unit {0})
  unfolding read_hosts
  read_file (opened reads) s = read_hosts reads s
  read_file missing s = (some tt, s)
  read_file unopened s = set_and_fail Err.clusterlist_module s

  unfoldable pub created_hosts : Option (List Name) → Exec (State H T) (Unit {0})
  unfolding read_file put_hosts
  created_hosts none s = set_and_fail Err.out_mem (record s { hosts = none })
  created_hosts (some l) s = read_file file (put_hosts l s)

  unfoldable pub hostsfile_clusterlist_setup : Exec (State H T) (Unit {0})
  unfolding created_hosts
  hostsfile_clusterlist_setup = created_hosts list.create

  unfoldable pub hostsfile_clusterlist_cleanup : Exec (State H T) (Unit {0})
  hostsfile_clusterlist_cleanup s = (some tt, record s { hosts = none })

  unfoldable pub count_hosts : Option (List Name) → Exec (State H T) ℕ
  count_hosts none s = undefined _ s
  count_hosts (some l) s = (some (list.count l), s)

  unfoldable pub hostsfile_clusterlist_get_numnodes : Exec (State H T) ℕ
  unfolding count_hosts
  hostsfile_clusterlist_get_numnodes s = count_hosts s.hosts s

  unfoldable pub find_short : List Name → Option Name → Exec (State H T) Bool
  find_short l none s = undefined _ s
  find_short l (some node) s = (some (list.find_first (λ x. str_eq x node) l), s)

  unfoldable pub find_host : Option (List Name) → Name → Exec (State H T) Bool
  unfolding find_short shorten
  find_host none node s = undefined _ s
  find_host (some l) node s =
      if list.count l == 0 then (some true, s) else find_short l (shorten node) s

  unfoldable pub hostsfile_clusterlist_is_node_in_cluster : Name → Exec (State H T) Bool
  unfolding find_host
  hostsfile_clusterlist_is_node_in_cluster node s = find_host s.hosts node s

  unfoldable pub copy_short : ℕ → Option Name → Exec (State H T) Name
  copy_short buflen none = undefined _
  copy_short buflen (some node) = copy_nodename node buflen

  unfoldable pub hostsfile_clusterlist_get_nodename : Name → ℕ → Exec (State H T) Name
  unfolding copy_short shorten
  hostsfile_clusterlist_get_nodename node buflen = copy_short buflen (shorten node)

  -- the loop over the hosts
  unfoldable pub check_hosts : DevelApi H T → List Name → Exec (State H T) (Unit {0})
  check_hosts devel [] s = (some tt, s)
  check_hosts devel (nodename ∷ rest) s =
      (devel.not_discovered_check nodename >> check_hosts devel rest) s

  unfoldable pub compare_hosts : DevelApi H T → Option (List Name) → Exec (State H T) (Unit {0})
  unfolding check_hosts
  compare_hosts devel none s = undefined _ s
  compare_hosts devel (some l) s =
      if list.iterator_create l
      then check_hosts devel l s
      else set_and_fail Err.clusterlist_module s

  unfoldable pub hostsfile_clusterlist_compare_to_clusterlist :
      DevelApi H T → Exec (State H T) (Unit {0})
  unfolding compare_hosts
  hostsfile_clusterlist_compare_to_clusterlist devel s = compare_hosts devel s.hosts s

  unfoldable pub hostsfile_clusterlist_module_info : ClusterlistInfo H T
  unfolding hostsfile_clusterlist_setup hostsfile_clusterlist_cleanup
      hostsfile_clusterlist_get_numnodes hostsfile_clusterlist_is_node_in_cluster
      hostsfile_clusterlist_get_nodename hostsfile_clusterlist_compare_to_clusterlist
  hostsfile_clusterlist_module_info = record {
    pointers = record {
      clusterlist_module_name = true;
      setup = true;
      get_numnodes = true;
      cleanup = true;
      is_node_in_cluster = true;
      get_nodename = true;
      compare_to_clusterlist = true;
    };
    setup = hostsfile_clusterlist_setup;
    cleanup = hostsfile_clusterlist_cleanup;
    get_numnodes = hostsfile_clusterlist_get_numnodes;
    is_node_in_cluster = hostsfile_clusterlist_is_node_in_cluster;
    get_nodename = hostsfile_clusterlist_get_nodename;
    compare_to_clusterlist = hostsfile_clusterlist_compare_to_clusterlist;
  }
