-- ===== src/Sendfile.antt =====
-- io_sendfile.c: the I/O model that leaves the copying to `sendfile`.
pub mod Runs
use ashttpd.Prelude.{ℕ, ◌^◌, ◌*◌, Option, some, Bool, true, false, ltb, ◌==◌, if◌then◌else◌, ◌>>=◌}
use ashttpd.HttpConn.{
  World, call, sendfile, http_conn_data, http_conn_data_read, http_conn_data_complete,
  http_conn_inactive,
}
use ashttpd.HttpConn.Header.{SendResult, again, failed, sent}

abbrev pub sendfile_chunk : ℕ
sendfile_chunk = 2 ^ 16

-- How much `sendfile` is asked for.
abbrev pub chunk_len : ℕ → ℕ
chunk_len len = if ltb sendfile_chunk len then sendfile_chunk else len

unfoldable pub io_sendfile_prep : World → Option (World × Bool)
io_sendfile_prep w = some (w, true)

-- What follows a `sendfile` that sent `ret` bytes.
unfoldable pub chunk_sent : (root : Option ℕ) (off len ret : ℕ) → World → Option (World × Bool)
chunk_sent root off len ret w = do
  r ← http_conn_data_read ret (call (sendfile root off len ret) w)
  if r.1 == 0 then (do w' ← http_conn_data_complete r.0; some (w', true)) else some (r.0, true)

-- `io_sendfile_write`, for what `sendfile` returns.
unfoldable pub io_sendfile_write : SendResult → World → Option (World × Bool)
unfolding chunk_sent
io_sendfile_write ret w = do
  d ← http_conn_data w
  elim ret [
    | again ↦ do w' ← http_conn_inactive w; some (w', true)
    | failed ↦ some (w, false)
    | sent n ↦ if n == 0 then some (w, false) else chunk_sent d.0 d.1 (chunk_len d.2) n w
  ]
