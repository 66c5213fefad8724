-- ===== src/Backend/Pingd/Framed.antt =====
-- The pingd module respects what the library relies on in a backend.
use whatsup.Prelude.{
  ℕ, Bool, true, false, Option, none, some, List, [], ◌∷◌, Name, c_string, take, is_empty, ltb, ◌-◌,
  pos, if-intro,
}
use whatsup.Handle.Err
use whatsup.Handle.State.{State}
use whatsup.Handle.Checks.{nodeupdown_set_errnum}
use whatsup.Module.Info.{DevelApi}
use whatsup.Module.Counts.{Frame, Frame-refl, Framed, Framed-bind, Frame-if}
use whatsup.Module.Laws.{DevelFramed, BackendFramed}
use whatsup.Module.DefaultFrame.{Frame-set_errnum}
use whatsup.Backend.Connect.{
  Connect, connected, in_progress, connect_failed, Select, select_failed, timed_out, selected,
  SocketError, no_error, refused, timed_out_later, other_error, ConnectCalls, reset_flags,
  after_socket_error, after_select, after_connect, low_timeout_connect,
}
use whatsup.Backend.Pingd.{
  Peer, sscanf, seconds_apart, add_scanned, with_line, read_nodes, read_at, default_hostname_result,
  pingd_backend_module_info, pingd_backend_buflen,
}

module _ {H T : Type 0} where
  Frame-failed : (e : ℕ) (s : State H T) → Frame s (nodeupdown_set_errnum (pos e) s)
  Frame-failed e s = Frame-set_errnum (pos e) s

  Frame-reset_flags : (ok : Bool) (s : State H T) → Frame s (reset_flags ok s).1
  unfolding reset_flags
  Frame-reset_flags true s = Frame-refl s
  Frame-reset_flags false s = Frame-failed Err.internal s

  Frame-after_socket_error :
      (e : SocketError) (ok : Bool) (s : State H T) → Frame s (after_socket_error e ok s).1
  unfolding after_socket_error
  Frame-after_socket_error no_error ok s = Frame-reset_flags ok s
  Frame-after_socket_error refused ok s = Frame-failed Err.connect s
  Frame-after_socket_error timed_out_later ok s = Frame-failed Err.connect_timeout s
  Frame-after_socket_error other_error ok s = Frame-failed Err.internal s

  Frame-after_select :
      (r : Select) (calls : ConnectCalls) (s : State H T) → Frame s (after_select r calls s).1
  unfolding after_select
  Frame-after_select select_failed calls s = Frame-failed Err.internal s
  Frame-after_select timed_out calls s = Frame-failed Err.connect_timeout s
  Frame-after_select (selected false) calls s = Frame-failed Err.internal s
  Frame-after_select (selected true) calls s =
      Frame-if calls.getsockopt s _ _ (Frame-after_socket_error calls.so_error calls.fcntl_reset s)
        (Frame-failed Err.internal s)

  Frame-after_connect :
      (r : Connect) (calls : ConnectCalls) (s : State H T) → Frame s (after_connect r calls s).1
  unfolding after_connect
  Frame-after_connect connected calls s = Frame-reset_flags calls.fcntl_reset s
  Frame-after_connect in_progress calls s = Frame-after_select calls.select calls s
  Frame-after_connect connect_failed calls s = Frame-failed Err.connect s

  low_timeout_connect-Framed :
      (calls : ConnectCalls) → Framed {H = H} {T = T} (low_timeout_connect calls)
  unfolding low_timeout_connect
  low_timeout_connect-Framed calls = record {
    at = λ s.
        let internal = Frame-failed Err.internal s in
        Frame-if calls.gethostbyname s _ _
          (Frame-if calls.socket s _ _
            (Frame-if calls.fcntl_getfl s _ _
              (Frame-if calls.fcntl_nonblock s _ _ (Frame-after_connect calls.connect calls s)
                internal)
              internal)
            internal)
          (Frame-failed Err.hostname s);
  }

  module _ (devel : DevelApi H T) (framed : DevelFramed devel) (tv_sec timeout_len : ℕ) where
    Frame-add_scanned :
        (scanned : Name × ℕ) (s : State H T)
        → Frame s (add_scanned devel tv_sec timeout_len scanned s)
    unfolding add_scanned
    Frame-add_scanned (hostname, localtime) s =
        if-intro (Frame s) (ltb (seconds_apart localtime tv_sec) timeout_len) _ _
          ((framed.add_up_node hostname).at s) ((framed.add_down_node hostname).at s)

    with_line-Framed :
        (scanned : Option (Name × ℕ)) → Framed (with_line devel tv_sec timeout_len scanned)
    unfolding with_line
    with_line-Framed none = record { at = Frame-failed Err.internal }
    with_line-Framed (some scanned) = record { at = Frame-add_scanned scanned }

    read_nodes-Framed :
        (reads : List (Option Name)) → Framed (read_nodes devel tv_sec timeout_len reads)
    unfolding read_nodes
    read_nodes-Framed [] = record { at = Frame-refl }
    read_nodes-Framed (none ∷ reads) = record { at = Frame-failed Err.internal }
    read_nodes-Framed (some line ∷ reads) = record {
      at = λ s.
          let buf = c_string (take (pingd_backend_buflen - 1) line) in
          Frame-if (is_empty line) s _ _ (Frame-refl s) (
            (Framed-bind (with_line devel tv_sec timeout_len (sscanf buf))
                (λ _. read_nodes devel tv_sec timeout_len reads) (with_line-Framed (sscanf buf))
                (λ _. read_nodes-Framed reads)).at
              s);
    }

  read_at-Framed :
      (devel : DevelApi H T)
      → DevelFramed devel
      → (tv : Option ℕ) (timeout_len : ℕ) (reads : List (Option Name))
      → Framed (read_at devel tv timeout_len reads)
  unfolding read_at
  read_at-Framed devel framed none timeout_len reads = record { at = Frame-failed Err.internal }
  read_at-Framed devel framed (some tv_sec) timeout_len reads =
      read_nodes-Framed devel framed tv_sec timeout_len reads

  default_hostname-Framed :
      (peer : Peer) (name : Option Name)
      → Framed {H = H} {T = T} (default_hostname_result peer name)
  unfolding default_hostname_result
  default_hostname-Framed peer none = record { at = Frame-failed Err.internal }
  default_hostname-Framed peer (some name) = record { at = Frame-refl }

  -- Whatever the system and the daemon tell, every function of the pingd module leaves alone all of
  -- the library's state but the contents of the lists and the table and the error number, if the
  -- functions that the library gives to it do so: the module respects the interface of a backend.
  pub pingd-BackendFramed :
      (peer : Peer) → BackendFramed {H = H} {T = T} (pingd_backend_module_info peer)
  unfolding pingd_backend_module_info
  pingd-BackendFramed peer = record {
    default_hostname = default_hostname-Framed peer peer.gethostname;
    default_port = Frame-refl;
    default_timeout_len = Frame-refl;
    preferred_clusterlist_module = record { at = Frame-refl };
    setup = record { at = Frame-refl };
    cleanup = record { at = Frame-refl };
    get_updown_data = λ devel framed hostname port timeout_len reserved.
        Framed-bind _ _ (low_timeout_connect-Framed (peer.calls hostname port)) (λ _.
          read_at-Framed devel framed peer.gettimeofday timeout_len (peer.reads hostname port));
  }
