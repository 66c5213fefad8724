-- ===== src/Tests/Pingd.antt =====
-- A daemon with two nodes, a client of it, and the theorems on them.
use whatsup.Prelude.{
  ℕ, ◌+◌, ◌-◌, ◌*◌, ◌/◌, ◌%◌, ◌^◌, ◌≡◌, refl, some_injective, true, false, none, some, List, [],
  ◌∷◌, ◌++◌, Name, codes, length, ltb, pos, arith, map, Post, isspace, take, c_string, print_ulong,
}
use whatsup.Module.Info.{DevelApi}
use whatsup.Module.Laws.{BackendFramed}
use whatsup.Pingd.Ping.{sum_words, in_cksum, icmp_ping_build}
use whatsup.Pingd.Ping.Checksum.{icmp_ping_build-cksum}
use whatsup.Pingd.Nodes.{PingdInfo, Pingd, PingdEnv, nodes_setup, pingd_send_pings, receive_ping}
use whatsup.Pingd.Server.{wrote, ping_line, send_ping_data}
use whatsup.Pingd.Loop.{TimevalOps, TimevalLaws, Round, Sockets, pingd_round, pingd_loop}
use whatsup.Pingd.Index.{IsSetUp, nodes_setup-IsSetUp}
use whatsup.Pingd.Heard.{WasHeard, last_heard, pingd_loop-WasHeard}
use whatsup.Pingd.Schedule.{Timely, WokenFor, pingd_round-WokenFor}
use whatsup.Backend.Connect.{Connect, SocketError, Select, ConnectCalls}
use whatsup.Backend.Pingd.{
  Peer, sscanf, seconds_apart, read_nodes, pingd_backend_module_info, pingd_backend_buflen,
}
use whatsup.Backend.Pingd.Framed.{pingd-BackendFramed}
use whatsup.Backend.Pingd.Protocol.{IsHostName, sscanf-ping_line}
use whatsup.Backend.Pingd.Report.{line_of, report, read_nodes-send_ping_data}
use whatsup.Tests.Sample.{Hosts, Times, times_ops, times_laws, sample_env, setup_state}
use whatsup.Devel.{devel_api}

icmp_ping_build-cksum_example :
    (sum_words false (icmp_ping_build false 65535).0 0 % (2 ^ 16 - 1) ≡ 0)
    × (in_cksum false (icmp_ping_build false 65535).0 ≡ 0)
icmp_ping_build-cksum_example = icmp_ping_build-cksum false 65535 (omega arith)

-- a time is its microseconds
abbrev clock : TimevalOps ℕ
clock = record {
  tv_sec = λ t. t / 1000000;
  gt = λ a b. ltb b a;
  add_ms = λ a ms. a + 1000 * ms;
  sub = λ a b. a - b;
  millisecond_calc = λ a. (a + 999) / 1000;
}

clock_laws : TimevalLaws clock (λ t. t) (2 ^ 63)
clock_laws = record {
  gt-micros = λ a b. refl;
  add_ms-micros = λ a ms h l. refl;
  sub-micros = λ a b. refl;
  calc-reaches = λ a h. omega (arith, h);
  calc-close = λ a h. omega (arith, h);
}

abbrev daemon : PingdEnv Times ℕ Name
daemon = record {
  words_bigendian = false;
  hash = times_ops;
  list_create = true;
  list_append = true;
  malloc = true;
  iterator_create = true;
  gethostbyname = λ host. some (codes "10.0.0." ++ host);
  inet_ntoa = λ address. some address;
  sendto = λ address packet. true;
  zero_timeval = 0;
}

abbrev started : Pingd Times ℕ Name
started = record {
  next_send = 0;
  nodes = [];
  nodes_index = none;
  sent = [];
  timeouts = [];
  served = [];
}

abbrev sockets : Sockets
sockets = record {
  ping_socket = true;
  ping_receive_buffer = true;
  ping_bind = true;
  server_socket = true;
  server_reuseaddr = true;
  server_bind = true;
  server_listen = true;
  signal = true;
}

abbrev hosts : List Name
hosts = codes "1" ∷ codes "2" ∷ []

-- node 2 answers, and then a client asks
abbrev rounds : List (Round ℕ Name)
rounds =
    record {
      now = some 500;
      later = some 600;
      polled = some (true, false);
      from = some (codes "10.0.0.2");
      received = some 7000000;
      accepted = false;
      fd_write_n = λ line. wrote 0;
    }
    ∷ record {
      now = some 700;
      later = none;
      polled = some (false, true);
      from = none;
      received = none;
      accepted = true;
      fd_write_n = λ line. wrote (length line);
    }
    ∷ []

-- The client is told that node 1 was never heard from, and node 2 at 7 seconds.
client_told :
    (pingd_loop daemon clock 1000 (pos 0) sockets hosts rounds started).1.served
    ≡ ((codes "1 0" ++ 10 ∷ []) ∷ (codes "2 7" ++ 10 ∷ []) ∷ []) ∷ []
unfolding pingd_loop nodes_setup times_ops pingd_send_pings receive_ping send_ping_data ping_line
    print_ulong
client_told = refl

nodes_setup-IsSetUp_example :
    Post (λ _. IsSetUp daemon hosts) (λ _. Unit {0}) (nodes_setup daemon hosts started)
nodes_setup-IsSetUp_example = nodes_setup-IsSetUp daemon times_laws hosts started

pingd_loop-WasHeard_example :
    Post
      (λ _. WasHeard daemon 1 (codes "2") (last_heard daemon (codes "10.0.0.2") rounds 0))
      (λ _. Unit {0})
      (pingd_loop daemon clock 1000 (pos 0) sockets hosts rounds started)
pingd_loop-WasHeard_example =
    pingd_loop-WasHeard daemon clock 1000 (pos 0) sockets hosts rounds started 1 (codes "2")
      (codes "10.0.0.2") (codes "10.0.0.2") times_laws refl refl refl

abbrev first_round : Round ℕ Name
first_round = record {
  now = some 500;
  later = some 600;
  polled = some (false, false);
  from = none;
  received = none;
  accepted = false;
  fd_write_n = λ line. wrote 0;
}

first_some : (a b : ℕ) → some a ≡ some b → a ≡ b
first_some a b e = some_injective e

timely : Timely 1000 (λ t. t) (2 ^ 63) first_round 0
timely = record {
  period = omega arith;
  not_back = λ now e. omega arith;
  in_range = λ now e. omega (arith, first_some 600 now e);
}

pingd_round-WokenFor_example :
    Post
      (λ _. WokenFor daemon clock 1000 (λ t. t) (2 ^ 63) clock_laws first_round 0 [])
      (λ _. Unit {0})
      (pingd_round daemon clock 1000 first_round started)
pingd_round-WokenFor_example =
    pingd_round-WokenFor daemon clock 1000 (λ t. t) (2 ^ 63) clock_laws first_round started timely

node_1-IsHostName : IsHostName (codes "node1")
unfolding isspace
node_1-IsHostName = record {
  some_bytes = omega arith;
  fits = omega arith;
  bytes = (
    (refl, omega arith),
    ((refl, omega arith), ((refl, omega arith), ((refl, omega arith), ((refl, omega arith), tt)))),
  );
}

sscanf-ping_line_example :
    sscanf (c_string (take (pingd_backend_buflen - 1) (ping_line (codes "node1") 1700000000)))
    ≡ some (codes "node1", 1700000000 % 2 ^ 64)
sscanf-ping_line_example = sscanf-ping_line (codes "node1") 1700000000 node_1-IsHostName

-- A node that was never heard from is no second away from the time 2^32.
wrapped_time : seconds_apart 0 (2 ^ 32) ≡ 0
unfolding seconds_apart
wrapped_time = refl

abbrev heard : Name → ℕ → PingdInfo ℕ Name
heard name time = record {
  hostname = name;
  destaddr = name;
  sequence_number = 1;
  last_received = time;
}

abbrev infos : List (PingdInfo ℕ Name)
infos = heard (codes "node1") 1699999990 ∷ heard (codes "node1") 0 ∷ []

abbrev library : DevelApi Hosts Times
library = devel_api sample_env

read_nodes-send_ping_data_example :
    (send_ping_data (λ t. t) (λ line. wrote (length line)) true true infos
      ≡ some (map (line_of library (λ t. t) 1700000000 60) infos))
    × (read_nodes library 1700000000 60
          (map some (map (line_of library (λ t. t) 1700000000 60) infos))
          setup_state
        ≡ (some tt, report library (λ t. t) 1700000000 60 infos setup_state))
read_nodes-send_ping_data_example =
    read_nodes-send_ping_data library (λ t. t) 1700000000 60 (λ line. wrote (length line)) infos
      setup_state (λ line. refl) (omega arith)
      (
        (node_1-IsHostName, omega arith, omega arith),
        ((node_1-IsHostName, omega arith, omega arith), tt),
      )

abbrev answering : ConnectCalls
answering = record {
  gethostbyname = true;
  socket = true;
  fcntl_getfl = true;
  fcntl_nonblock = true;
  connect = Connect.in_progress;
  select = Select.selected true;
  getsockopt = true;
  so_error = SocketError.no_error;
  fcntl_reset = true;
}

abbrev peer : Peer
peer = record {
  gethostname = some (codes "client");
  calls = λ hostname port. answering;
  gettimeofday = some 1700000000;
  reads = λ hostname port.
      some (codes "node1 1699999990" ++ 10 ∷ []) ∷ some (codes "node2 0" ++ 10 ∷ []) ∷ [];
}

pingd-BackendFramed_example : BackendFramed {H = Hosts} {T = Times} (pingd_backend_module_info peer)
pingd-BackendFramed_example = pingd-BackendFramed peer
