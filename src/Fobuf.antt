-- ===== src/Fobuf.antt =====
-- fobuf.c: the buffered output of a file.
-- `held` is the bytes from the buffer's base to `ptr`. `Out` is what the file got, and how many calls of
-- `fd_write` there were; `sys` is what a call with this number does: its result, and what was written.
pub mod Order
pub mod Steps
use ashttpd.Prelude.{
  ℕ, suc, ◌+◌, ◌-◌, List, [], ◌∷◌, ◌++◌, Option, none, some, Bool, true, false, not, ◌&&◌, leb, ltb,
  ◌==◌, if◌then◌else◌, length, take, drop,
}

pub record FoBuf : Type 0 where
  pub fd : Option ℕ
  pub held : List ℕ
  pub buf_len : ℕ
  pub buf_sz : ℕ

pub record Out : Type 0 where
  pub written : List ℕ
  pub calls : ℕ

abbrev pub Sys : Type 0
Sys = ℕ → List ℕ → Bool × List ℕ

-- `fobuf_new`, for a `malloc` that succeeds.
unfoldable pub fobuf_new : (fd : Option ℕ) (bufsz : ℕ) → FoBuf
fobuf_new fd bufsz =
    let size = if bufsz == 0 then 4096 else bufsz in
    record { fd = fd; held = []; buf_len = size; buf_sz = size }

unfoldable pub out_write : Sys → List ℕ → Out → Bool × Out
out_write sys buf o =
    let r = sys o.calls buf in (r.0, record { written = o.written ++ r.1; calls = suc o.calls })

unfoldable pub fobuf_flush : Sys → FoBuf → Out → Bool × FoBuf × Out
unfolding out_write
fobuf_flush sys b o =
    let r = out_write sys b.held o in
    if b.buf_sz - b.buf_len == 0
    then (true, b, o)
    else if r.0
    then (true, record b { held = []; buf_len = b.buf_sz }, r.1)
    else (false, b, r.1)

-- The end of `fobuf_write_slow`, when the buffer is empty.
unfoldable pub write_rest : Sys → List ℕ → FoBuf → Out → Bool × FoBuf × Out
unfolding out_write
write_rest sys rest b o =
    let r = out_write sys rest o in
    if leb b.buf_sz (length rest)
    then (r.0, b, r.1)
    else (true, record b { held = b.held ++ rest; buf_len = b.buf_len - length rest }, o)

unfoldable pub fobuf_write_slow : Sys → List ℕ → FoBuf → Out → Bool × FoBuf × Out
unfolding fobuf_flush write_rest
fobuf_write_slow sys buf b o =
    let full = record b { held = b.held ++ take b.buf_len buf; buf_len = 0 } in
    let r = fobuf_flush sys full o in if r.0 then write_rest sys (drop b.buf_len buf) r.1 r.2 else r

unfoldable pub fobuf_write : Sys → List ℕ → FoBuf → Out → Bool × FoBuf × Out
unfolding fobuf_write_slow
fobuf_write sys buf b o =
    if ltb (length buf) b.buf_len
    then (true, record b { held = b.held ++ buf; buf_len = b.buf_len - length buf }, o)
    else fobuf_write_slow sys buf b o

-- `fobuf_close`, where `synced` says that `fsync` succeeded or failed with EROFS or EINVAL, and `closed`
-- that `close` succeeded: its result, and what the file got.
unfoldable pub fobuf_close : Sys → (synced closed : Bool) → FoBuf → Out → Bool × Out
unfolding fobuf_flush
fobuf_close sys synced closed b o = elim b.fd [
  | none ↦ (true, o)
  | some fd ↦ let r = fobuf_flush sys b o in (r.0 && synced && closed, r.2)
]

-- `fobuf_newfd`; it takes a `close` that succeeded for an error.
unfoldable pub fobuf_newfd :
    Sys → (synced closed : Bool) (fd : Option ℕ) → FoBuf → Out → Bool × FoBuf × Out
unfolding fobuf_flush
fobuf_newfd sys synced closed fd b o = elim b.fd [
  | none ↦ (true, record b { fd = fd }, o)
  | some old ↦
      let r = fobuf_flush sys b o in (r.0 && synced && not closed, record (r.1) { fd = fd }, r.2)
]
