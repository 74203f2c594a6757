-- ===== src/HttpConn.antt =====
-- http_conn.c: the connections of the server.
-- `Conn` is a connection and `World` what its functions reach: the connection, the counters of the
-- file, and the calls that have gone out of it, the latest first. `none` is a failed assertion, an
-- `abort` or a bad access. What the system calls return is a parameter of a function that makes them.
pub mod Answers
pub mod Found
pub mod Get
pub mod Head
pub mod Header
pub mod Life
pub mod Numbers
pub mod Print
pub mod Ranges
pub mod Reading
pub mod Reply
pub mod Serve
pub mod Texts
pub mod Transfer
use ashttpd.Prelude.{
  ℕ, ◌+◌, ◌-◌, List, [], ◌∷◌, Option, none, some, Bool, true, false, not, ◌||◌, leb, ◌==◌,
  if◌then◌else◌, take, ◌>>=◌, ◌>>◌, assert, is_some,
}
use ashttpd.HttpBuf.{HttpBuf, buf_read, buf_done_read}
use ashttpd.Incremental.{Rstate, initial}

pub data ConnState : Type 0 where
  conn_request conn_header conn_data conn_dead : ConnState

abbrev pub is_request : ConnState → Bool
is_request conn_request = true
is_request _ = false

-- `h_state == HTTP_CONN_DATA || h_state == HTTP_CONN_HEADER`
abbrev pub in_response : ConnState → Bool
in_response conn_data = true
in_response conn_header = true
in_response _ = false

abbrev pub is_data : ConnState → Bool
is_data conn_data = true
is_data _ = false

-- `h_open` is `h_nbio.fd != -1`; a web root and a private structure are known by their numbers.
pub record Conn : Type 0 where
  pub h_open : Bool
  pub h_state : ConnState
  pub h_rstate : Rstate
  pub h_io_state : ℕ
  pub h_webroot : Option ℕ
  pub h_rptr : ℕ
  pub h_req : Option HttpBuf
  pub h_res : Option HttpBuf
  pub h_io_priv : Option ℕ
  pub h_data_off : ℕ
  pub h_data_len : ℕ
  pub h_conn_close : ℕ

-- The directions that a connection waits on.
pub data Direction : Type 0 where
  nbio_read nbio_write : Direction

-- The calls of other parts of the program and of the system.
pub data Call : Type 0 where
  fd_close : Call
  wake_listeners : Call
  free_req : Call
  free_res : Call
  free_data : Call
  io_abort : Call
  nbio_add nbio_set_wait nbio_inactive nbio_wake : Direction → Call
  nbio_del nbio_wait_on nbio_to_waitq : Call
  webroot_ref webroot_unref : Option ℕ → Call
  hgang_return : Call
  send : (more : Bool) → List ℕ → Call
  sendfile : (root : Option ℕ) (off len ret : ℕ) → Call

pub record World : Type 0 where
  pub h : Conn
  pub concurrency : ℕ
  pub oom_waiting : Bool
  pub reqs : ℕ
  pub calls : List Call

abbrev pub call : Call → World → World
call c w = record w { calls = c ∷ w.calls }

-- The `switch` of `http_kill`.
unfoldable pub kill_state : World → Option World
kill_state w = elim w.h.h_state [
  | conn_request ↦ assert (not (is_some w.h.h_res)) >> some w
  | conn_header ↦ some (call io_abort (call free_res w))
  | conn_data ↦ some (call io_abort w)
  | conn_dead ↦ none
]

-- `--concurrency`, and the wake-up of the listeners that wait for it.
unfoldable pub leave : World → World
leave w =
    let w' = record w {
      h = record (w.h) { h_open = false };
      concurrency = w.concurrency - 1;
      calls = fd_close ∷ w.calls;
    } in
    if w.oom_waiting then call wake_listeners w' else w'

-- What `http_kill` does to an open connection.
unfoldable pub kill_open : World → Option World
unfolding kill_state leave
kill_open w = do
  assert (not (w.concurrency == 0))
  w' ← kill_state (call free_req (leave w))
  some (call nbio_del (record w' { h = record (w'.h) { h_state = conn_dead } }))

unfoldable pub http_kill : World → Option World
unfolding kill_open
http_kill w = if w.h.h_open then kill_open w else some w

-- The range of the file that is to be sent, and the web root it is in.
unfoldable pub http_conn_data : World → Option (Option ℕ × ℕ × ℕ)
http_conn_data w =
    assert (in_response w.h.h_state) >> some (w.h.h_webroot, w.h.h_data_off, w.h.h_data_len)

unfoldable pub http_conn_data_read : ℕ → World → Option (World × ℕ)
http_conn_data_read len w = do
  assert (in_response w.h.h_state)
  assert (leb len w.h.h_data_len)
  let h' = record (w.h) { h_data_len = w.h.h_data_len - len; h_data_off = w.h.h_data_off + len }
  some (record w { h = h' }, w.h.h_data_len - len)

unfoldable pub http_conn_data_complete : World → Option World
unfolding http_kill
http_conn_data_complete w = do
  assert (is_data w.h.h_state)
  assert (w.h.h_data_len == 0)
  let h' = record (w.h) { h_state = conn_request; h_webroot = none }
  let w' = record w {
    h = h';
    calls = webroot_unref w.h.h_webroot ∷ nbio_set_wait nbio_read ∷ w.calls;
  }
  if h'.h_conn_close == 0 then some w' else http_kill w'

unfoldable pub http_conn_abort : World → Option World
unfolding http_kill
http_conn_abort w = assert (in_response w.h.h_state) >> http_kill w

unfoldable pub http_conn_get_priv : World → Option (Option ℕ × ℕ)
http_conn_get_priv w = assert (in_response w.h.h_state) >> some (w.h.h_io_priv, w.h.h_io_state)

unfoldable pub http_conn_set_priv : Option ℕ → ℕ → World → Option World
http_conn_set_priv priv state w =
    assert (in_response w.h.h_state)
    >> some (record w { h = record (w.h) { h_io_state = state; h_io_priv = priv } })

-- The functions that only pass a call on to the event loop.
unfoldable pub pass_on : Call → World → Option World
pass_on c w = assert (in_response w.h.h_state) >> some (call c w)

abbrev pub http_conn_inactive : World → Option World
http_conn_inactive w = pass_on (nbio_inactive nbio_write) w

abbrev pub http_conn_wait_on : World → Option World
http_conn_wait_on w = pass_on nbio_wait_on w

abbrev pub http_conn_to_waitq : World → Option World
http_conn_to_waitq w = pass_on nbio_to_waitq w

abbrev pub http_conn_wake_one : World → Option World
http_conn_wake_one w = pass_on (nbio_wake nbio_write) w

-- The `assert` of the source assigns the state, so it never fails.
unfoldable pub http_dtor : World → World
http_dtor w = record w {
  h = record (w.h) { h_state = conn_dead };
  calls = hgang_return ∷ webroot_unref w.h.h_webroot ∷ w.calls;
}

-- A connection on an accepted socket; `hgang_alloc0` has cleared it.
unfoldable pub http_conn : (concurrency : ℕ) (oom_waiting : Bool) (reqs : ℕ) → World
http_conn concurrency oom_waiting reqs = record {
  h = record {
    h_open = true;
    h_state = conn_request;
    h_rstate = initial;
    h_io_state = 0;
    h_webroot = none;
    h_rptr = 0;
    h_req = none;
    h_res = none;
    h_io_priv = none;
    h_data_off = 0;
    h_data_len = 0;
    h_conn_close = 0;
  };
  concurrency = concurrency + 1;
  oom_waiting = oom_waiting;
  reqs = reqs;
  calls = nbio_add nbio_read ∷ [];
}
