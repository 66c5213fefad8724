-- ===== src/Lib.antt =====
-- Whatsup: the program whatsup, which prints or logs which nodes of a cluster are up or down, the
-- nodeupdown library, which finds that out for it, and the pingd daemon, which pings the nodes and
-- tells the library when it last heard from each.
--
-- The library (src/libnodeupdown) loads three modules at run time: a backend that gets the data
-- from a daemon, a clusterlist that knows the nodes of the cluster, and a config module with
-- defaults. A load fills the two lists of a handle and its table of up times through the
-- functions that the library gives to its modules; the queries then read them.
--
-- Prelude: shared names, the tests, lists and strings of the C code, actions that change the state
--   and may fail, and triples of a precondition, an action and its postconditions.
-- External: what the code calls of the hostlist, hash and list libraries (src/libcommon/hostlist.h,
--   hash.h and list.h, copies of other projects' libraries), with the laws that their headers document.
-- Handle: `struct nodeupdown`, the statics of the library, the error numbers and the checks at the
--   head of each function (src/libnodeupdown/nodeupdown.h, nodeupdown_api.h, nodeupdown.c,
--   nodeupdown_util.c, nodeupdown_devel.c).
-- Module: the module interfaces, the search for modules, their callbacks, their loading, their
--   unloading and the calls into them (src/libnodeupdown/nodeupdown_module.c and nodeupdown/*.h), and
--   the default modules (nodeupdown_clusterlist_default.c, nodeupdown_config_default.c,
--   nodeupdown_clusterlist_util.c). Module.Laws is the interface that a module must respect.
-- Devel: the functions for the modules (src/libnodeupdown/nodeupdown_devel.c).
-- Load: `nodeupdown_load_data` with its configuration, its choice of port, timeout and host, and the
--   creation and release of a handle (src/libnodeupdown/nodeupdown.c).
-- Query: the nodes as a string, as an array or one by one, the counts, the up times, the arrays and
--   the messages (src/libnodeupdown/nodeupdown.c).
-- Hostsfile: the clusterlist module that reads a hosts file
--   (src/libnodeupdown/nodeupdown_clusterlist_hostsfile.c): its lines, its setup, its lookups.
--   A buffer is its bytes, and the string in it ends at the first NUL.
-- Conffile: the parser of configuration files (src/libcommon/conffile.c): its lines, the arguments of
--   a line, the options with their data, the line as a whole, the file as a whole. A descriptor is
--   the sequence of what `fd_read_line` returns.
-- Pingd: the daemon (src/pingd/pingd_loop.c): the packets, the nodes with their index by address, the
--   answer to a client, and the loop, in which each round takes what the system calls tell.
-- Backend: the connection to a daemon and the module for pingd
--   (src/libnodeupdown/nodeupdown_backend_connect_util.c, nodeupdown_backend_pingd.c), which
--   scans the lines that Pingd.Server prints.
-- Program: the program whatsup (src/whatsup/whatsup.c, whatsup_options.h): its statics and what it
--   calls (State), the modules that add options to it (Modules), its messages (Usage), the tables
--   for getopt_long (Table), the options one by one (Dispatch), the command line (Cmdline), the
--   nodes to print (Nodes), the output (Output), the log (Log) and `main` (Main). Library gives it
--   the functions of Load and Query as the library that it calls. Loaded, Unloaded and Started are
--   about the modules, Watched, Given and Bounds about the tables, Settled about the options, Tokens about
--   the standard input, Selected and Asked about the nodes, Aligned about the counts, and Quiet,
--   Replay, Rounds and Returns about the log.
-- Session: any sequence of these calls on one handle.
-- Tests: a sample installation, the library run on it, and each theorem at a concrete input.
--
-- A function that returns -1 or NULL on error is an action `State → Option A × State`, where
-- `none` is the error; the state comes back either way. The functions recurse on lists or
-- lengths, or not at all, but for the loop of `conffile_parse`: its fuel is the number of reads
-- that are left and two more, as each round takes a read or is the last. In the daemon `none` is the exit of the
-- process. An `int` that may be negative is a ℤ over the native numbers, and `to_unsigned` writes
-- out its conversion to 32 bits. Counts of nodes are natural numbers without a bound. The statics
-- of the library, which every handle of a process shares, are part of the state of the one handle
-- that is modelled.
--
-- Not modelled: `nodeupdown_perror` and the printing of debug messages; libltdl, the file system
-- and the modules that a load finds are parameters, and so is there what the parser makes of the
-- configuration file. The assertions of the daemon are left out. The hosts file is the sequence
-- of what `fd_read_line` returns. An access through a NULL pointer in the hostsfile module is a
-- parameter too, of which nothing is assumed. In the program getopt_long, strtol, the formatting of
-- times, the log file and the modules are parameters; `none` is the end of the process with status
-- 1, or its crash, which reading or calling through a NULL pointer of a module is; the log, which has no end, is run for a number of rounds; the entries of the log
-- are kept besides the bytes that are written. `_log10` divides at most 20 times, more than an int
-- needs. The options modules of the program, the options of pingd, the backends for ganglia and
-- cerebro and the clusterlist modules for genders are not part of the development.
pub mod Prelude
pub mod External
pub mod Handle
pub mod Module
pub mod Devel
pub mod Load
pub mod Pingd
pub mod Backend
pub mod Query
pub mod Session
pub mod Conffile
pub mod Hostsfile
pub mod Program
pub mod Tests
