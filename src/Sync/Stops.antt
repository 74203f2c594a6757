-- ===== src/Sync/Stops.antt =====
-- `io_sync_write` of io_sync.c when the whole range is in the buffer already, or out.
use ashttpd.Prelude.{
  ℕ, ◌-◌, ◌<◌, ◌≡◌, inl, inr, refl, List, some, false, not, ◌&&◌, arith, ltb, ◌==◌, if◌then◌else◌,
}
use ashttpd.HttpBuf.{HttpBuf, b_end}
use ashttpd.HttpBuf.Queue.{IsBuf, buf_access}
use ashttpd.HttpConn.{World, conn_data}
use ashttpd.HttpConn.Header.{SendResult}
use ashttpd.Os.{Answer, Read}
use ashttpd.Os.Reads.{Answers, IsRead, fd_pread-IsRead}
use ashttpd.Sync.{top_up, io_sync_write}
use ashttpd.Sync.TopUp.{http_conn_data-some, http_conn_get_priv-some}

-- A read of no bytes does not count as a success without the end of the file.
no_success :
    (file : List ℕ) (off : ℕ) (r : Read) → IsRead file off 0 r → (r.ok && not r.eof) ≡ false
no_success file off r (_, _, inl bad) = ground (arith, bad)
no_success file off r (_, _, inr (inl (_, _, lt))) = absurd (omega arith)
no_success file off r (_, _, inr (inr (eof, _))) = ground (arith, eof)

-- When nothing of the range is left to be read and the buffer has space, `io_sync_write` reads no bytes,
-- takes that for the end of the file, and gives up on the connection: whatever is in the buffer, and
-- whatever `send` would take, nothing is sent, and the buffer is as it was.
pub io_sync_write-stops :
    (file : List ℕ) (ans : List Answer) (ret : SendResult) (b : HttpBuf) (w : World)
    → w.h.h_state ≡ conn_data
    → w.h.h_data_len ≡ 0
    → IsBuf b
    → b.b_write < b_end b
    → Answers file ans w.h.h_data_off 0
    → io_sync_write file ans ret b w ≡ some (some b, w, false)
unfolding io_sync_write
io_sync_write-stops file ans ret b w d z is_buf space answers =
    let (r, e, is_read) = fd_pread-IsRead file ans w.h.h_data_off 0 answers in
    let stop = no_success file w.h.h_data_off r is_read in
    let some_space : (b_end b - b.b_write == 0) ≡ false = ground (arith, space) in
    let none_asked : (if ltb w.h.h_data_len (b_end b - b.b_write)
          then w.h.h_data_len
          else b_end b - b.b_write)
        ≡ 0 =
      ground (arith, z, space) in
    let t : top_up file ans b w ≡ some (b, w, false) =
      rw (top_up, http_conn_data-some w d, (buf_access is_buf).1, some_space, none_asked, e, stop)
        refl in
    rw (io_sync_write, http_conn_get_priv-some w d, t) refl
