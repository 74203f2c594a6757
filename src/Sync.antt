-- ===== src/Sync.antt =====
-- io_sync.c: the I/O model that copies a file through a buffer.
-- The buffer, which hangs on the connection, is passed by itself.
pub mod Steps
pub mod Stops
pub mod TopUp
use ashttpd.Prelude.{
  ℕ, ◌+◌, ◌-◌, ◌∷◌, List, Option, none, some, Bool, true, false, not, ◌&&◌, ltb, ◌==◌,
  if◌then◌else◌, length, take, ◌>>=◌,
}
use ashttpd.HttpBuf.{HttpBuf, buf_read, buf_write, buf_done_read, buf_done_write, buf_reset, store}
use ashttpd.HttpConn.{
  World, call, send, free_data, http_conn_data, http_conn_data_read, http_conn_data_complete,
  http_conn_inactive, http_conn_get_priv, http_conn_set_priv,
}
use ashttpd.HttpConn.Header.{SendResult, again, failed, sent}
use ashttpd.Os.{Answer, fd_pread}

-- `io_sync_prep`, for what `buf_alloc_data` returns: a buffer, known by its number, or NULL.
unfoldable pub io_sync_prep : Option ℕ → World → Option (World × Bool)
io_sync_prep none w = some (w, false)
io_sync_prep (some b) w = do w' ← http_conn_set_priv (some b) 0 w; some (w', true)

unfoldable pub io_sync_abort : World → Option World
io_sync_abort w = do p ← http_conn_get_priv w; some (call free_data w)

-- The buffer, the connection, and whether to go on. What a failed read stored is left out: it stands
-- behind `b_write`, and the connection is killed.
unfoldable pub top_up :
    (file : List ℕ) → List Answer → HttpBuf → World → Option (HttpBuf × World × Bool)
top_up file ans b w = do
  d ← http_conn_data w
  space ← buf_write b
  if space.1 == 0 then some (b, w, true) else (do
    r ← fd_pread file ans d.1 (if ltb d.2 space.1 then d.2 else space.1) false
    if r.ok && not r.eof
        then (do
          b' ← buf_done_write (store b r.stored) (length r.stored)
          w' ← http_conn_data_read (length r.stored) w
          some (b'.0, w'.0, true))
        else some (b, w, false))

-- What follows a `send` that took `n` bytes; no buffer is left when all has been sent.
unfoldable pub data_sent : (n : ℕ) → HttpBuf → World → Option (Option HttpBuf × World × Bool)
data_sent n b w = do
  ptr ← buf_read b
  let len = w.h.h_data_len
  let w1 = call (send (not (len == 0)) (take n ptr.0)) w
  b1 ← buf_done_read b n
  rest ← buf_read b1.0
  if rest.1 + len == 0
      then (do
        w2 ← http_conn_set_priv none 0 w1
        w3 ← http_conn_data_complete (call free_data w2)
        some (none, w3, true))
      else (do
        space ← buf_write b1.0
        if ltb space.1 len
            then (do b2 ← buf_reset b1.0; some (some b2, w1, true))
            else some (some b1.0, w1, true))

unfoldable pub io_sync_write :
    (file : List ℕ)
    → List Answer
    → SendResult
    → HttpBuf
    → World
    → Option (Option HttpBuf × World × Bool)
unfolding top_up data_sent
io_sync_write file ans ret b w = do
  p ← http_conn_get_priv w
  t ← top_up file ans b w
  if t.2
      then (do
        ptr ← buf_read t.0
        elim ret [
          | again ↦ do w' ← http_conn_inactive t.1; some (some t.0, w', true)
          | failed ↦ some (some t.0, t.1, false)
          | sent n ↦ if n == 0 then some (some t.0, t.1, false) else data_sent n t.0 t.1
        ])
      else some (some t.0, t.1, false)
