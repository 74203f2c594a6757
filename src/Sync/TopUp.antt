-- ===== src/Sync/TopUp.antt =====
-- The first half of `io_sync_write` of io_sync.c: the buffer is topped up from the file.
use mathlib.Core.Path.{ap₂}
use ashttpd.Prelude.{
  ℕ, ◌+◌, ◌-◌, ◌≤◌, ◌≡◌, refl, ap, ◌∙◌, List, ◌∷◌, ◌++◌, some, Bool, true, false, not, ◌&&◌, arith,
  ltb, ◌==◌, if◌then◌else◌, Bool-cases, ◌⊎◌, inl, inr, length, take, drop, append_assoc, drop-drop,
  take-add,
}
use ashttpd.HttpBuf.{HttpBuf, b_end}
use ashttpd.HttpBuf.Queue.{IsBuf, contents, buf_access, buf_done_write-contents}
use ashttpd.HttpConn.{
  conn_data, World, call, http_conn_data, http_conn_data_read, http_conn_get_priv, pass_on,
  http_conn_inactive, nbio_inactive, nbio_write,
}
use ashttpd.HttpConn.Transfer.{sent_bytes}
use ashttpd.HttpConn.Ranges.{range}
use ashttpd.Os.{Answer}
use ashttpd.Os.Reads.{Answers, fd_pread-IsRead}
use ashttpd.Sync.{top_up}

-- How much is read: what is left of the range, or the space in the buffer.
abbrev pub read_len : HttpBuf → World → ℕ
read_len b w =
    if ltb w.h.h_data_len (b_end b - b.b_write) then w.h.h_data_len else b_end b - b.b_write

-- The system's answers are right for the file, and are asked for only if the buffer has space.
abbrev pub Reads : (file : List ℕ) → List Answer → HttpBuf → World → Type 0
Reads file ans b w = (b_end b - b.b_write ≡ 0) ⊎ Answers file ans w.h.h_data_off (read_len b w)

read_len-le :
    (b : HttpBuf) (w : World)
    → (read_len b w ≤ w.h.h_data_len) × (read_len b w ≤ b_end b - b.b_write)
read_len-le b w = elim (Bool-cases (ltb w.h.h_data_len (b_end b - b.b_write))) [
  | inl y ↦ (ground (arith, y), ground (arith, y))
  | inr y ↦ (ground (arith, y), ground (arith, y))
]

pub http_conn_data-some :
    (w : World)
    → w.h.h_state ≡ conn_data
    → http_conn_data w ≡ some (w.h.h_webroot, w.h.h_data_off, w.h.h_data_len)
unfolding http_conn_data
http_conn_data-some w d = ground (arith, d)

http_conn_data_read-some :
    (n : ℕ) (w : World)
    → w.h.h_state ≡ conn_data
    → n ≤ w.h.h_data_len
    → http_conn_data_read n w
      ≡ some (
        record w {
          h = record (w.h) { h_data_off = w.h.h_data_off + n; h_data_len = w.h.h_data_len - n };
        },
        w.h.h_data_len - n,
      )
unfolding http_conn_data_read
http_conn_data_read-some n w d fits = ground (arith, d, fits)

pub http_conn_get_priv-some :
    (w : World)
    → w.h.h_state ≡ conn_data
    → http_conn_get_priv w ≡ some (w.h.h_io_priv, w.h.h_io_state)
unfolding http_conn_get_priv
http_conn_get_priv-some w d = ground (arith, d)

pub inactive-some :
    (w : World)
    → w.h.h_state ≡ conn_data
    → http_conn_inactive w ≡ some (call (nbio_inactive nbio_write) w)
unfolding pass_on
inactive-some w d = ground (arith, d)

pub inactive_sent :
    (w : World) → sent_bytes (nbio_inactive nbio_write ∷ w.calls) ≡ sent_bytes w.calls
unfolding sent_bytes
inactive_sent w = refl

-- Reading moves bytes from the range into the buffer.
pub top_up-moved :
    (file : List ℕ) (ans : List Answer) (b : HttpBuf) (w : World)
    → w.h.h_state ≡ conn_data
    → IsBuf b
    → Reads file ans b w
    → (b' : HttpBuf) × (off len : ℕ) × (more : Bool) × (top_up file ans b w
        ≡ some (b', record w { h = record (w.h) { h_data_off = off; h_data_len = len } }, more))
      × IsBuf b'
      × (contents b' ++ take len (drop off file) ≡ contents b ++ range file w)
unfolding top_up
top_up-moved file ans b w d v reads =
    let data_at = http_conn_data-some w d in
    elim (Bool-cases (b_end b - b.b_write == 0)) [
      | inl full ↦ (
        b,
        w.h.h_data_off,
        w.h.h_data_len,
        true,
        rw (data_at, (buf_access v).1, full) refl,
        v,
        refl,
      )
      | inr space ↦ elim reads [
        | inl full ↦ ground (arith, space, full)
        | inr answers ↦
            let off = w.h.h_data_off in
            let (r, e, (stored, le, _)) = fd_pread-IsRead file ans off (read_len b w) answers in
            let n = length r.stored in
            let (fit_len, fit_space) = read_len-le b w in
            elim (Bool-cases (r.ok && not r.eof)) [
              | inl good ↦
                  let (b', written, v', joined) =
                    buf_done_write-contents r.stored v (omega (arith, le, fit_space)) in
                  let len = w.h.h_data_len - n in
                  let split : n + len ≡ w.h.h_data_len = omega (arith, le, fit_len) in
                  let fits : n ≤ w.h.h_data_len = omega (arith, le, fit_len) in
                  let read = http_conn_data_read-some n w d fits in
                  let whole : r.stored ++ take len (drop (off + n) file) ≡ range file w =
                    ap₂ (λ a t. a ++ take len t) stored (drop-drop off n file)
                    ∙ take-add n len (drop off file)
                    ∙ ap (λ k. take k (drop off file)) split in
                  (
                    b',
                    off + n,
                    len,
                    true,
                    rw (data_at, (buf_access v).1, space, e, good, written, read) refl,
                    v',
                    ap (λ t. t ++ take len (drop (off + n) file)) joined
                        ∙ append_assoc (contents b) r.stored (take len (drop (off + n) file))
                        ∙ ap (λ t. contents b ++ t) whole,
                  )
              | inr bad ↦ (
                b,
                off,
                w.h.h_data_len,
                false,
                rw (data_at, (buf_access v).1, space, e, bad) refl,
                v,
                refl,
              )
            ]
      ]
    ]
