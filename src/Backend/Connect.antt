-- ===== src/Backend/Connect.antt =====
-- The connection to a daemon: `_low_timeout_connect` of
-- src/libnodeupdown/nodeupdown_backend_connect_util.c, by what the system calls tell.
use whatsup.Prelude.{Bool, true, false, some, if◌then◌else◌, Exec}
use whatsup.Handle.Err
use whatsup.Handle.State.{State}
use whatsup.Handle.Checks.{nodeupdown_set_errnum, set_and_fail}

-- `connect`: it succeeds, goes on (EINPROGRESS), or fails
pub data Connect : Type 0 where
  connected in_progress connect_failed : Connect

-- `select`: an error, the end of the time, or whether one of the sets has the descriptor
pub data Select : Type 0 where
  select_failed timed_out : Select
  selected : Bool → Select

-- the socket error: 0, ECONNREFUSED, ETIMEDOUT or another
pub data SocketError : Type 0 where
  no_error refused timed_out_later other_error : SocketError

-- what the calls tell, in their order; a failure is a `false`
pub record ConnectCalls : Type 0 where
  pub gethostbyname : Bool
  pub socket : Bool
  pub fcntl_getfl : Bool
  pub fcntl_nonblock : Bool
  pub connect : Connect
  pub select : Select
  pub getsockopt : Bool
  pub so_error : SocketError
  pub fcntl_reset : Bool

module _ {H T : Type 0} where
  -- the flags are reset, and the descriptor is the result
  unfoldable pub reset_flags : Bool → Exec (State H T) (Unit {0})
  unfolding nodeupdown_set_errnum
  reset_flags true s = (some tt, s)
  reset_flags false s = set_and_fail Err.internal s

  unfoldable pub after_socket_error : SocketError → Bool → Exec (State H T) (Unit {0})
  unfolding reset_flags nodeupdown_set_errnum
  after_socket_error no_error fcntl_reset s = reset_flags fcntl_reset s
  after_socket_error refused fcntl_reset s = set_and_fail Err.connect s
  after_socket_error timed_out_later fcntl_reset s = set_and_fail Err.connect_timeout s
  after_socket_error other_error fcntl_reset s = set_and_fail Err.internal s

  unfoldable pub after_select : Select → ConnectCalls → Exec (State H T) (Unit {0})
  unfolding after_socket_error nodeupdown_set_errnum
  after_select select_failed calls s = set_and_fail Err.internal s
  after_select timed_out calls s = set_and_fail Err.connect_timeout s
  after_select (selected false) calls s = set_and_fail Err.internal s
  after_select (selected true) calls s =
      if calls.getsockopt
      then after_socket_error calls.so_error calls.fcntl_reset s
      else set_and_fail Err.internal s

  unfoldable pub after_connect : Connect → ConnectCalls → Exec (State H T) (Unit {0})
  unfolding after_select reset_flags nodeupdown_set_errnum
  after_connect connected calls s = reset_flags calls.fcntl_reset s
  after_connect in_progress calls s = after_select calls.select calls s
  after_connect connect_failed calls s = set_and_fail Err.connect s

  -- the result is the descriptor, which is not modelled
  unfoldable pub low_timeout_connect : ConnectCalls → Exec (State H T) (Unit {0})
  unfolding after_connect nodeupdown_set_errnum
  low_timeout_connect calls s =
      if calls.gethostbyname
      then if calls.socket
        then if calls.fcntl_getfl
          then if calls.fcntl_nonblock
            then after_connect calls.connect calls s
            else set_and_fail Err.internal s
          else set_and_fail Err.internal s
        else set_and_fail Err.internal s
      else set_and_fail Err.hostname s
