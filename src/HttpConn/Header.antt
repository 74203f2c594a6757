-- ===== src/HttpConn/Header.antt =====
-- http_conn.c: `http_write_hdr` and `http_write`, the sending of a response.
use ashttpd.Prelude.{
  ℕ, ◌∷◌, Option, none, some, Bool, true, false, not, ◌==◌, if◌then◌else◌, take, ◌>>=◌,
}
use ashttpd.HttpBuf.{HttpBuf, buf_read, buf_done_read}
use ashttpd.HttpConn.{
  conn_request, conn_header, conn_data, World, call, send, free_res, nbio_set_wait, nbio_inactive,
  nbio_read, nbio_write, http_kill,
}

-- What `send` returns: EAGAIN, another error or nothing sent, or the number of bytes sent.
pub data SendResult : Type 0 where
  again failed : SendResult
  sent : ℕ → SendResult

-- What follows the header, when all of it is sent.
unfoldable pub header_done : World → World × Bool
header_done w =
    let w1 = call free_res (record w { h = record (w.h) { h_res = none } }) in
    if w1.h.h_data_len == 0
    then (if w1.h.h_conn_close == 0
        then (
          call (nbio_set_wait nbio_read)
              (record w1 { h = record (w1.h) { h_state = conn_request } }),
          true,
        )
        else (w1, false))
    else (record w1 { h = record (w1.h) { h_state = conn_data } }, true)

-- `http_write_hdr` for a `send` that takes `n` bytes.
unfoldable pub header_sent : ℕ → HttpBuf → World → Option (World × Bool)
unfolding header_done
header_sent n res w = do
  ptr ← buf_read res
  b ← buf_done_read res n
  let w1 = record w {
    h = record (w.h) { h_res = some b.0 };
    calls = send (not (w.h.h_data_len == 0)) (take n ptr.0) ∷ w.calls;
  }
  rest ← buf_read b.0
  if rest.1 == 0 then some (header_done w1) else some (w1, true)

unfoldable pub http_write_hdr : SendResult → World → Option (World × Bool)
unfolding header_sent
http_write_hdr ret w = do
  res ← w.h.h_res
  ptr ← buf_read res
  elim ret [
    | again ↦ some (call (nbio_inactive nbio_write) w, true)
    | failed ↦ some (w, false)
    | sent n ↦ if n == 0 then some (w, false) else header_sent n res w
  ]

-- `http_write`, where `io_write` is the function of the current I/O model.
unfoldable pub http_write :
    (io_write : World → Option (World × Bool)) → SendResult → World → Option World
unfolding http_write_hdr
http_write io_write ret w = do
  r ← elim w.h.h_state [ conn_header ↦ http_write_hdr ret w | conn_data ↦ io_write w | _ ↦ none ]
  if r.1 then some r.0 else http_kill r.0
