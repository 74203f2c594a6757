-- ===== src/HttpConn/Get.antt =====
-- http_conn.c: `handle_get`.
use ashttpd.Prelude.{
  ℕ, ◌+◌, List, [], ◌∷◌, ◌++◌, Option, none, some, Bool, true, false, ◌&&◌, ◌||◌, ◌==◌,
  if◌then◌else◌, length, codes, is_zero, ◌>>=◌,
}
use ashttpd.Vec.{RoVec, bytes, v_len, vstrcmp}
use ashttpd.Normalize.{Normalized, nads_ok, nads_fail, nads_fault, nads_normalize, until_nul}
use ashttpd.HttpBuf.{buf_write, buf_done_write, store}
use ashttpd.HttpReq.{Request}
use ashttpd.HttpConn.{World, call, webroot_ref}
use ashttpd.HttpConn.Reply.{response_301, response_403, response_404, response_500}
use ashttpd.HttpConn.Print.{
  Tm, Resp, print_etag, resp_string, resp_http_code, resp_u64, resp_etag, resp_time,
}

-- `u.data` of `struct webroot_name`, with the type.
pub record FileData : Type 0 where
  pub mime_type : RoVec
  pub f_ofs : ℕ
  pub f_len : ℕ
  pub f_mtime : ℕ
  pub f_etag : List ℕ

-- What `webroot_find` finds, by the code in the name.
pub data WebrootName : Type 0 where
  http_found : FileData → WebrootName
  http_moved_permanently : RoVec → WebrootName
  http_forbidden : WebrootName
  http_other : ℕ → WebrootName

-- What a connection uses of the other parts of the program and of the system: the host's web root,
-- a name in a web root, the calendar, and the current I/O model.
pub record Deps : Type 0 where
  pub vhosts_lookup : List ℕ → Option ℕ
  pub webroot_find : ℕ → List ℕ → Option WebrootName
  pub gmtime : ℕ → Tm
  pub io_prep : World → Option (World × Bool)

-- The string at `nads.uri`, which is used also after an error.
unfoldable pub search_uri : Normalized → Option (List ℕ)
search_uri (nads_ok uri query) = some uri
search_uri (nads_fail e uri) = some uri
search_uri nads_fault = none

unfoldable pub is_hit : RoVec → List ℕ → Bool
is_hit etag text = (v_len etag == 40) && is_zero (vstrcmp etag text)

abbrev pub reason : ℕ → List ℕ
reason code =
    if code == 200
    then codes " OK"
    else if code == 304
    then codes " Not Modified"
    else codes " Not Found"

unfoldable pub write_head : (code data_len conn_close : ℕ) → FileData → Tm → Resp → Option Resp
write_head code data_len conn_close f tm r = do
  r ← resp_string (codes "HTTP/1.1 ") r
  r ← resp_http_code code r
  r ← resp_string (reason code) r
  r ← resp_string (13 ∷ 10 ∷ codes "Content-Type: ") r
  r ← resp_string (bytes f.mime_type) r
  r ← resp_string (13 ∷ 10 ∷ codes "Content-Length: ") r
  r ← resp_u64 data_len r
  r ← resp_string (13 ∷ 10 ∷ codes "Connection: ") r
  r ← resp_string (if conn_close == 0 then codes "Keep-Alive" else codes "Close") r
  r ← resp_string (13 ∷ 10 ∷ codes "ETag: ") r
  r ← resp_etag f.f_etag r
  r ← resp_string (13 ∷ 10 ∷ codes "Last-Modified: ") r
  r ← resp_time tm r
  resp_string (13 ∷ 10 ∷ codes "Server: ashttpd" ++ 13 ∷ 10 ∷ 13 ∷ 10 ∷ []) r

-- What stands behind the head: the body follows unless only the head was asked for.
unfoldable pub body_follows : Bool → ℕ → World → World
body_follows true root w = record w { h = record (w.h) { h_data_len = 0 } }
body_follows false root w =
    call (webroot_ref (some root)) (record w { h = record (w.h) { h_webroot = some root } })

-- From `resp_begin` to the end.
unfoldable pub send_head : Deps → ℕ → FileData → (hit head : Bool) → World → Option World
unfolding write_head body_follows
send_head d root f hit head w = do
  res ← w.h.h_res
  space ← buf_write res
  let r0 : Resp = record { out = []; room = space.1 }
  let code = if hit then 304 else 200
  r ← write_head code w.h.h_data_len w.h.h_conn_close f (d.gmtime f.f_mtime) r0
  b ← buf_done_write (store res r.out) (length r.out)
  let w' = record w { h = record (w.h) { h_res = some b.0 }; reqs = w.reqs + 1 }
  some (body_follows head root w')

-- A file that was found.
unfoldable pub serve_file : Deps → Request → Bool → ℕ → FileData → World → Option World
unfolding send_head is_hit
serve_file d r head root f w = do
  let w1 = record w { h = record (w.h) { h_data_off = f.f_ofs; h_data_len = f.f_len } }
  etag ← print_etag f.f_etag
  let hit = is_hit r.etag etag
  let only_head = head || hit
  if (f.f_len == 0) || only_head then send_head d root f hit only_head w1 else (do
    p ← d.io_prep w1
    if p.1 then send_head d root f hit only_head p.0 else response_500 p.0)

unfoldable pub handle_get : Deps → Request → (head : Bool) → World → Option World
unfolding search_uri serve_file
handle_get d r head w = do
  uri ← search_uri (nads_normalize (bytes r.uri))
  elim (d.vhosts_lookup (until_nul (bytes r.host))) [
    | none ↦ response_403 w
    | some root ↦ elim (d.webroot_find root uri) [
      | none ↦ response_404 w
      | some (http_moved_permanently loc) ↦ response_301 r.host loc w
      | some http_forbidden ↦ response_403 w
      | some (http_other code) ↦ none
      | some (http_found f) ↦ serve_file d r head root f w
    ]
  ]
