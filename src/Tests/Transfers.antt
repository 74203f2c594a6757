-- ===== src/Tests/Transfers.antt =====
-- io_sendfile.c, io_sync.c and os.c at concrete transfers.
use mathlib.Core.Path.{subst}
use mathlib.Core.Option.{some_inj}
use ashttpd.Prelude.{
  sym, ◌∙◌, ℕ, ◌≤◌, ◌≡◌, ◌⊎◌, inl, inr, refl, List, [], ◌∷◌, ◌++◌, Option, some, Bool, true, false,
  arith, length,
}
use ashttpd.HttpBuf.{HttpBuf}
use ashttpd.HttpBuf.Queue.{IsBuf, contents}
use ashttpd.HttpConn.{conn_data, World, in_response}
use ashttpd.HttpConn.Header.{sent}
use ashttpd.HttpConn.Life.{IsConn}
use ashttpd.HttpConn.Ranges.{file_sent}
use ashttpd.Sendfile.{io_sendfile_write}
use ashttpd.Sendfile.Runs.{Copies, send_all, io_sendfile_write-Copies, send_all-range}
use ashttpd.Sync.{top_up, io_sync_write}
use ashttpd.Sync.Steps.{Passes, io_sync_write-Passes}
use ashttpd.Sync.Stops.{io_sync_write-stops}
use ashttpd.Os.{
  Answer, Read, interrupted, would_block, took, poll_interrupted, poll_ready, fd_pread, fd_write,
}
use ashttpd.Os.Reads.{IsRead, fd_pread-IsRead}
use ashttpd.Os.Writes.{fd_write-prefix}
use ashttpd.Tests.Conn.{idle, world}

abbrev file : List ℕ
file = 9 ∷ 1 ∷ 2 ∷ 3 ∷ 4 ∷ 9 ∷ []

-- Four bytes at offset 1 are to be sent.
abbrev transfer : World
transfer = world (record idle { h_state = conn_data; h_data_off = 1; h_data_len = 4 })

transfer-IsConn : IsConn transfer
transfer-IsConn = ((refl, omega arith), refl)

io_sendfile_write-Copies_example :
    (r : World × Bool) × (io_sendfile_write (sent 3) transfer ≡ some r) × Copies file transfer r
io_sendfile_write-Copies_example =
    io_sendfile_write-Copies file (sent 3) transfer transfer-IsConn refl (λ n e. ground (arith, e))

send_all-range_example :
    (w' : World) × (send_all (3 ∷ 1 ∷ []) transfer ≡ some w')
    × (file_sent file w'.calls ≡ 1 ∷ 2 ∷ 3 ∷ 4 ∷ [])
    × (w'.h.h_data_len ≡ 0)
    × (in_response w'.h.h_state ≡ false)
    × IsConn w'
unfolding file_sent
send_all-range_example =
    send_all-range file (3 ∷ 1 ∷ []) transfer transfer-IsConn refl (omega arith)
      (omega arith, omega arith, (omega arith, omega arith, refl))

-- A buffer of three bytes, of which one is to be sent.
abbrev part : HttpBuf
part = record { mem = 5 ∷ 0 ∷ 0 ∷ []; b_read = 0; b_write = 1 }

part-IsBuf : IsBuf part
part-IsBuf = record { ordered = omega arith; inside = omega arith }

abbrev answers : List Answer
answers = interrupted ∷ took 1 ∷ would_block (poll_interrupted ∷ poll_ready ∷ []) ∷ took 1 ∷ []

fd_pread-IsRead_example :
    (r : Read) × (fd_pread file answers 1 2 false ≡ some r) × IsRead file 1 2 r
fd_pread-IsRead_example = fd_pread-IsRead file answers 1 2 (
  omega arith,
  omega arith,
  inr (omega arith, inr (tt, (omega arith, omega arith, inr (omega arith, inl refl)))),
)

-- What the buffer and the connection are when it has been topped up.
abbrev full : HttpBuf
full = record { mem = 5 ∷ 1 ∷ 2 ∷ []; b_read = 0; b_write = 3 }

full_run :
    top_up file answers part transfer
    ≡ some (full, world (record idle { h_state = conn_data; h_data_off = 3; h_data_len = 2 }), true)
unfolding top_up ashttpd.HttpConn.http_conn_data ashttpd.HttpConn.http_conn_data_read
    ashttpd.HttpBuf.buf_write ashttpd.HttpBuf.buf_done_write ashttpd.HttpBuf.store fd_pread
full_run = refl

io_sync_write-Passes_example :
    (r : Option HttpBuf × World × Bool) × (io_sync_write file answers (sent 2) part transfer
      ≡ some r)
    × Passes file part transfer r
io_sync_write-Passes_example =
    io_sync_write-Passes file answers (sent 2) part transfer transfer-IsConn refl part-IsBuf
      (inr (
        omega arith,
        omega arith,
        inr (omega arith, inr (tt, (omega arith, omega arith, inr (omega arith, inl refl)))),
      ))
      (λ t e. subst (λ x. 2 ≤ length (contents x.0)) (some_inj.0 (sym full_run ∙ e)) (omega arith))

-- All of the range is in the buffer, and one byte of it is to be sent yet.
abbrev buffered : World
buffered = world (record idle { h_state = conn_data; h_data_off = 5; h_data_len = 0 })

io_sync_write-stops_example :
    io_sync_write file (took 0 ∷ []) (sent 1) part buffered ≡ some (some part, buffered, false)
io_sync_write-stops_example =
    io_sync_write-stops file (took 0 ∷ []) (sent 1) part buffered refl refl part-IsBuf (omega arith)
      (omega arith, omega arith, inl (refl, inl refl))

fd_write-prefix_example :
    (r : Bool × List ℕ) × (fd_write (took 2 ∷ interrupted ∷ took 1 ∷ []) (1 ∷ 2 ∷ 3 ∷ []) ≡ some r)
    × ((rest : List ℕ) × (r.1 ++ rest ≡ 1 ∷ 2 ∷ 3 ∷ []) × ((r.0 ≡ false) ⊎ (rest ≡ [])))
fd_write-prefix_example =
    fd_write-prefix (took 2 ∷ interrupted ∷ took 1 ∷ []) (1 ∷ 2 ∷ 3 ∷ [])
      (omega arith, inr (omega arith, inl refl))
