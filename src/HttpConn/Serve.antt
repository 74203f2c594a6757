-- ===== src/HttpConn/Serve.antt =====
-- http_conn.c: `handle_request` and `http_read`.
use ashttpd.Prelude.{
  ℕ, ◌+◌, List, [], ◌∷◌, Option, none, some, true, false, ◌==◌, leb, if◌then◌else◌, length, take,
  drop, codes, is_zero, ◌>>=◌, ◌>>◌, assert,
}
use ashttpd.Vec.{vec, v_len, vstrcmp_fast}
use ashttpd.HttpBuf.{HttpBuf, buf_read, buf_write, buf_done_read, buf_done_write, buf_reset, store}
use ashttpd.HttpReq.{Request, request_zero, http_req}
use ashttpd.Incremental.{initial, http_parse_incremental}
use ashttpd.HttpConn.{
  World, call, conn_header, is_request, free_req, nbio_set_wait, nbio_inactive, nbio_read,
  nbio_write, http_kill,
}
use ashttpd.HttpConn.Reply.{response_400, response_501}
use ashttpd.HttpConn.Get.{Deps, handle_get}

-- Without a Host header the host is the socket's address, printed.
unfoldable pub default_host : List ℕ → Request → Request
default_host sockname r = if v_len r.host == 0 then record r { host = vec sockname } else r

-- The choice by method, which is compared without case.
unfoldable pub by_method : Deps → Request → World → Option World
by_method d r w =
    if is_zero (vstrcmp_fast r.method (codes "GET"))
    then handle_get d r false w
    else if is_zero (vstrcmp_fast r.method (codes "HEAD"))
    then handle_get d r true w
    else response_501 w

-- The request's bytes are consumed. What is left is moved to the front, and not parsed before more
-- bytes have been received.
unfoldable pub request_done : ℕ → World → Option World
request_done hlen w = do
  req ← w.h.h_req
  b ← buf_done_read req hlen
  left ← buf_read b.0
  if left.1 == 0 then some (call free_req (record w { h = record (w.h) { h_req = none } })) else (do
    b' ← buf_reset b.0
    some (record w { h = record (w.h) { h_req = some b'; h_rptr = 0; h_rstate = initial } }))

-- A request that was decoded. A connection with a body in the request is dropped.
unfoldable pub answer : Deps → List ℕ → ℕ × Request → World → Option World
unfolding by_method request_done default_host
answer d sockname (hlen, r) w =
    if hlen == 0
    then response_400 w
    else if r.content_len == 0
    then (do
      w' ←
          by_method d (default_host sockname r)
            (record w { h = record (w.h) { h_conn_close = r.conn_close } })
      request_done hlen w')
    else http_kill w

-- `handle_request`, with the result of `buf_alloc_res`.
unfoldable pub handle_request : Deps → Option HttpBuf → List ℕ → World → Option World
unfolding answer
handle_request d none sockname w =
    assert (is_request w.h.h_state) >> http_kill (record w { h = record (w.h) { h_res = none } })
handle_request d (some res) sockname w = do
  assert (is_request w.h.h_state)
  let w1 = record w { h = record (w.h) { h_res = some res; h_state = conn_header } }
  req ← w.h.h_req
  ptr ← buf_read req
  answer d sockname (http_req request_zero ptr.0) (call (nbio_set_wait nbio_write) w1)

-- What `recv` returns: EAGAIN, an error or the end of the input, or bytes.
pub data RecvResult : Type 0 where
  again failed : RecvResult
  received : List ℕ → RecvResult

-- The buffer of the request, allocated if there is none.
unfoldable pub request_buf : Option HttpBuf → World → World
request_buf alloc w = elim w.h.h_req [
  | some b ↦ w
  | none ↦ elim alloc [
    | none ↦ w
    | some b ↦ record w { h = record (w.h) { h_req = some b; h_rptr = 0; h_rstate = initial } }
  ]
]

-- Bytes have come in: they are stored, and the recogniser goes on to the end of them.
unfoldable pub read_bytes : Deps → Option HttpBuf → List ℕ → HttpBuf → List ℕ → World → Option World
unfolding handle_request
read_bytes d alloc_res sockname b xs w = do
  r ← buf_done_write (store b xs) (length xs)
  let new = r.0
  assert (leb w.h.h_rptr new.b_write)
  let p = http_parse_incremental w.h.h_rstate (drop w.h.h_rptr (take new.b_write new.mem))
  let h' = record (w.h) { h_req = some new; h_rstate = p.state; h_rptr = w.h.h_rptr + p.moved }
  let w' = record w { h = h' }
  if p.complete then handle_request d alloc_res sockname w' else some w'

-- `http_read`, with the results of `buf_alloc_req`, `buf_alloc_res`, `recv` and `getsockname`.
unfoldable pub http_read :
    Deps → (alloc_req alloc_res : Option HttpBuf) → List ℕ → RecvResult → World → Option World
unfolding request_buf read_bytes
http_read d alloc_req alloc_res sockname ret w = do
  assert (is_request w.h.h_state)
  let w1 = request_buf alloc_req w
  elim w1.h.h_req [
    | none ↦ http_kill w1
    | some b ↦ do
      space ← buf_write b
      if space.1 == 0 then http_kill w1 else elim ret [
        | again ↦ some (call (nbio_inactive nbio_read) w1)
        | failed ↦ http_kill w1
        | received [] ↦ http_kill w1
        | received (x ∷ xs) ↦ read_bytes d alloc_res sockname b (x ∷ xs) w1
      ]
  ]
