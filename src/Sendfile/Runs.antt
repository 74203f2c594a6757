-- ===== src/Sendfile/Runs.antt =====
-- What `io_sendfile_write` of io_sendfile.c sends: the range of the file, once and in order, in whatever
-- pieces `sendfile` takes it.
use mathlib.Core.Path.{subst, ap₂}
use ashttpd.Prelude.{
  ℕ, ◌+◌, ◌-◌, ◌≤◌, ◌<◌, ◌≡◌, refl, sym, ap, ◌∙◌, List, [], ◌∷◌, ◌++◌, Option, none, some, Bool,
  true, false, arith, ltb, ◌==◌, if◌then◌else◌, Bool-cases, ◌⊎◌, inl, inr, take, drop, append_assoc,
  append-nil, drop-drop, take-add, ==→eq, ◌>>=◌,
}
use ashttpd.HttpConn.{
  conn_data, http_conn_data, pass_on, World, call, sendfile, nbio_inactive, nbio_write, in_response,
  http_conn_data_read,
}
use ashttpd.HttpConn.Header.{SendResult, again, failed, sent, http_write}
use ashttpd.HttpConn.Life.{IsConn, IsCounted}
use ashttpd.HttpConn.Ranges.{file_sent, range, http_conn_data_complete-Keeps}
use ashttpd.HttpBuf.{HttpBuf}
use ashttpd.HttpConn.Transfer.{Goes, Takes, http_write-IsConn}
use ashttpd.Sendfile.{sendfile_chunk, chunk_len, io_sendfile_write, chunk_sent}

-- A step of the transfer: what was sent with what is left stays the same, and what is left behind is
-- a connection as it should be, or one that is about to be killed.
abbrev pub Copies : List ℕ → World → World × Bool → Type 0
Copies file w (w', more) =
    (file_sent file w'.calls ++ range file w' ≡ file_sent file w.calls ++ range file w)
    × Goes (w', more)

chunk_len-le : (n len : ℕ) → n ≤ chunk_len len → n ≤ len
chunk_len-le n len h = elim (Bool-cases (ltb sendfile_chunk len)) [
  | inl y ↦ ground (arith, h, y)
  | inr y ↦ ground (arith, h, y)
]

-- There is more to send, or the response is over.
abbrev pub Sending : World → Type 0
Sending w =
    ((0 < w.h.h_data_len) × (w.h.h_state ≡ conn_data))
    ⊎ ((w.h.h_data_len ≡ 0) × (in_response w.h.h_state ≡ false))

chunk_sent-Copies :
    (file : List ℕ) (root : Option ℕ) (len n : ℕ) (w : World)
    → IsConn w
    → w.h.h_state ≡ conn_data
    → n ≤ w.h.h_data_len
    → (w' : World) × (chunk_sent root w.h.h_data_off len n w ≡ some (w', true))
      × Copies file w (w', true)
      × (w'.h.h_data_len ≡ w.h.h_data_len - n)
      × Sending w'
unfolding chunk_sent http_conn_data_read file_sent
chunk_sent-Copies file root len n w v d fits =
    let left = w.h.h_data_len - n in
    let off = w.h.h_data_off + n in
    let before = file_sent file w.calls in
    let w1 : World = record w {
      h = record (w.h) { h_data_len = left; h_data_off = off };
      calls = sendfile root w.h.h_data_off len n ∷ w.calls;
    } in
    let read : http_conn_data_read n (call (sendfile root w.h.h_data_off len n) w)
        ≡ some (w1, left) =
      ground (arith, d, fits) in
    let split : n + left ≡ w.h.h_data_len = omega (arith, fits) in
    let whole : take n (drop w.h.h_data_off file) ++ take left (drop off file) ≡ range file w =
      ap (λ t. take n (drop w.h.h_data_off file) ++ take left t) (drop-drop w.h.h_data_off n file)
      ∙ take-add n left (drop w.h.h_data_off file)
      ∙ ap (λ k. take k (drop w.h.h_data_off file)) split in
    let moved : file_sent file w1.calls ++ range file w1 ≡ before ++ range file w =
      append_assoc before (take n (drop w.h.h_data_off file)) (take left (drop off file))
      ∙ ap (λ t. before ++ t) whole in
    elim (Bool-cases (left == 0)) [
      | inl done ↦
          let z = ==→eq left 0 done in
          let (w3, e', (calls, _, len_left), none_left, over, conn) =
            http_conn_data_complete-Keeps file w1 v d z in
          let same : range file w3 ≡ range file w1 =
            none_left ∙ sym (ap (λ k. take k (drop off file)) z) in
          (
            w3,
            ground (arith, read, done, e'),
            (ap₂ (λ a b. a ++ b) calls same ∙ moved, conn),
            len_left,
            inr (len_left ∙ z, over),
          )
      | inr more ↦ (w1, ground (arith, read, more), (moved, v), refl, inl (ground (arith, more), d))
    ]

-- A call of `io_sendfile_write` while data is sent, for a `sendfile` that sends no more than it is asked
-- for, runs into no assertion. The bytes of the file on the socket with those left in the range are the
-- same before and after it, and the connection is as it should be after it, or open and about to be
-- killed.
pub io_sendfile_write-Copies :
    (file : List ℕ) (ret : SendResult) (w : World)
    → IsConn w
    → w.h.h_state ≡ conn_data
    → ((n : ℕ) → ret ≡ sent n → n ≤ chunk_len w.h.h_data_len)
    → (r : World × Bool) × (io_sendfile_write ret w ≡ some r) × Copies file w r
unfolding io_sendfile_write file_sent http_conn_data pass_on
io_sendfile_write-Copies file again w v d fits =
    ((call (nbio_inactive nbio_write) w, true), ground (arith, d), (refl, v))
io_sendfile_write-Copies file failed w v d fits =
    let c : IsCounted conn_data w.h.h_open w.concurrency =
      subst (λ t. IsCounted t w.h.h_open w.concurrency) d v.0 in
    ((w, false), ground (arith, d), (refl, (c.0, (v.0, λ r. ground (arith, d, r)))))
io_sendfile_write-Copies file (sent n) w v d fits =
    let c : IsCounted conn_data w.h.h_open w.concurrency =
      subst (λ t. IsCounted t w.h.h_open w.concurrency) d v.0 in
    elim (Bool-cases (n == 0)) [
      | inl y ↦ ((w, false), ground (arith, d, y), (refl, (c.0, (v.0, λ r. ground (arith, d, r)))))
      | inr y ↦
          let (w', e, copies, _, _) =
            chunk_sent-Copies file w.h.h_webroot (chunk_len w.h.h_data_len) n w v d
              (chunk_len-le n w.h.h_data_len (fits n refl)) in
          ((w', true), ground (arith, d, y, e), copies)
    ]

-- Calls of `io_sendfile_write`, one for each number of bytes that a `sendfile` sent.
unfoldable pub send_all : List ℕ → World → Option World
send_all [] w = some w
send_all (n ∷ ns) w = do r ← io_sendfile_write (sent n) w; if r.1 then send_all ns r.0 else none

-- Every call sends something, none more than it is asked for, and the last one the rest.
abbrev pub Drains : (ns : List ℕ) (len : ℕ) → Type 0
Drains [] len = len ≡ 0
Drains (n ∷ ns) len = (0 < n) × (n ≤ chunk_len len) × Drains ns (len - n)

io_sendfile_write-sent :
    (file : List ℕ) (n : ℕ) (w : World)
    → IsConn w
    → w.h.h_state ≡ conn_data
    → 0 < n
    → n ≤ chunk_len w.h.h_data_len
    → (w' : World) × (io_sendfile_write (sent n) w ≡ some (w', true))
      × Copies file w (w', true)
      × (w'.h.h_data_len ≡ w.h.h_data_len - n)
      × Sending w'
unfolding io_sendfile_write http_conn_data
io_sendfile_write-sent file n w v d some_sent fits =
    let len = w.h.h_data_len in
    let (w', e, copies, left, sending) =
      chunk_sent-Copies file w.h.h_webroot (chunk_len len) n w v d (chunk_len-le n len fits) in
    (w', ground (arith, d, some_sent, e), copies, left, sending)

send_all-Sending :
    (file : List ℕ) (ns : List ℕ) (w : World)
    → IsConn w
    → Sending w
    → Drains ns w.h.h_data_len
    → (w' : World) × (send_all ns w ≡ some w')
      × (file_sent file w'.calls ≡ file_sent file w.calls ++ range file w)
      × (w'.h.h_data_len ≡ 0)
      × (in_response w'.h.h_state ≡ false)
      × IsConn w'
unfolding send_all
send_all-Sending file [] w v (inl (more, d)) z = absurd (omega arith)
send_all-Sending file [] w v (inr (_, over)) z =
    let nothing = ap (λ k. file_sent file w.calls ++ take k (drop w.h.h_data_off file)) z in
    (w, refl, sym (append-nil (file_sent file w.calls)) ∙ sym nothing, z, over, v)
send_all-Sending file (n ∷ ns) w v (inr (z, over)) (some_sent, fits, rest) =
    absurd (omega (arith, chunk_len-le n w.h.h_data_len fits))
send_all-Sending file (n ∷ ns) w v (inl (more, d)) (some_sent, fits, rest) =
    let (w1, e, copies, len, sending) = io_sendfile_write-sent file n w v d some_sent fits in
    let (w2, e', all, done, over, conn) =
      send_all-Sending file ns w1 copies.1 sending (subst (Drains ns) (sym len) rest) in
    (w2, rw (e, e') refl, all ∙ copies.0, done, over, conn)

-- A transfer of which every call sends something ends: it runs into no assertion, and when the range is
-- used up, exactly its bytes have been sent by it, in order. Then the connection has left the response.
pub send_all-range :
    (file : List ℕ) (ns : List ℕ) (w : World)
    → IsConn w
    → w.h.h_state ≡ conn_data
    → 0 < w.h.h_data_len
    → Drains ns w.h.h_data_len
    → (w' : World) × (send_all ns w ≡ some w')
      × (file_sent file w'.calls ≡ file_sent file w.calls ++ range file w)
      × (w'.h.h_data_len ≡ 0)
      × (in_response w'.h.h_state ≡ false)
      × IsConn w'
send_all-range file ns w v d more drains = send_all-Sending file ns w v (inl (more, d)) drains

-- With this I/O model, `http_write` on a connection that is answering runs into no assertion, and leaves
-- a connection as it should be, killed or not, if `send` and `sendfile` take no more than they are given.
pub http_write-sendfile :
    (ret : SendResult) (w : World)
    → IsConn w
    → in_response w.h.h_state ≡ true
    → ((b : HttpBuf) → w.h.h_res ≡ some b → Takes ret b)
    → ((n : ℕ) → ret ≡ sent n → w.h.h_state ≡ conn_data → n ≤ chunk_len w.h.h_data_len)
    → (w' : World) × (http_write (io_sendfile_write ret) ret w ≡ some w') × IsConn w'
http_write-sendfile ret w v s head body =
    http_write-IsConn (io_sendfile_write ret) ret w v s head (λ d.
      let (r, e, copies) = io_sendfile_write-Copies [] ret w v d (λ n e. body n e d) in
      (r, e, copies.1))
