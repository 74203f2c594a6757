-- ===== src/HttpConn/Found.antt =====
-- `handle_get` of http_conn.c for a file that is found.
use ashttpd.Prelude.{
  map, sym, ap, ◌≢◌, is_zero, ℕ, ◌+◌, ◌-◌, ◌≤◌, ◌<◌, ◌≡◌, refl, ◌∙◌, List, [], ◌++◌, Option, some,
  Bool, true, false, ◌||◌, arith, ◌==◌, if◌then◌else◌, Bool-cases, inl, inr, length,
}
use mathlib.Core.Path.{subst}
use ashttpd.Vec.{RoVec, vec, bytes, to_lower, vcasecmp, vstrcmp}
use ashttpd.Vec.Compare.{length-map, vcasecmp-zero}
use ashttpd.Normalize.{nads_ok, nads_normalize, until_nul}
use ashttpd.HttpBuf.{HttpBuf, b_end}
use ashttpd.HttpBuf.Queue.{IsBuf, contents, buf_access, buf_done_write-contents}
use ashttpd.HttpReq.{Request}
use ashttpd.HttpReq.Ignored.{is_zero→eq}
use ashttpd.HttpConn.{World}
use ashttpd.HttpConn.Print.{Resp, print_etag, print_time}
use ashttpd.HttpConn.Get.{
  FileData, Deps, http_found, is_hit, body_follows, send_head, serve_file, search_uri, handle_get,
}
use ashttpd.HttpConn.Head.{head_text, write_head-text}

-- A response of which `text` was appended to the bytes in `b`, and the data that is to follow.
abbrev pub Responds : HttpBuf → List ℕ → (data_off data_len : ℕ) → World → Type 0
Responds b text data_off data_len w' =
    (b' : HttpBuf) × (w'.h.h_res ≡ some b')
    × IsBuf b'
    × (contents b' ≡ contents b ++ text)
    × (w'.h.h_data_off ≡ data_off)
    × (w'.h.h_data_len ≡ data_len)

body_follows-Responds :
    (head : Bool) (root : ℕ) (b : HttpBuf) (text : List ℕ) (w : World)
    → Responds b text w.h.h_data_off w.h.h_data_len w
    → Responds b text w.h.h_data_off (if head then 0 else w.h.h_data_len) (body_follows head root w)
unfolding body_follows
body_follows-Responds true root b text w (b', res, v, c, off, len) = (b', res, v, c, off, refl)
body_follows-Responds false root b text w h = h

-- Whether two texts are the same.
abbrev pub IsSame : Bool → (xs ys : List ℕ) → Type 0
IsSame true xs ys = xs ≡ ys
IsSame false xs ys = xs ≢ ys

-- The tag of a request is compared without regard to case.
is_hit-IsSame :
    (hit : Bool) (etag : RoVec) (tag : List ℕ)
    → length tag ≡ 40
    → IsSame hit (map to_lower (bytes etag)) (map to_lower tag)
    → is_hit etag tag ≡ hit
unfolding is_hit vstrcmp
is_hit-IsSame true etag tag len same =
    let size : length (bytes etag) ≡ 40 =
      sym (length-map to_lower (bytes etag)) ∙ ap length same ∙ length-map to_lower tag ∙ len in
    rw (size, (vcasecmp-zero etag (vec tag)).1 same) refl
is_hit-IsSame false etag tag len differ = elim (Bool-cases (is_zero (vcasecmp etag (vec tag)))) [
  | inl zero_found ↦
      absurd (
        differ ((vcasecmp-zero etag (vec tag)).0 (is_zero→eq (vcasecmp etag (vec tag)) zero_found)))
  | inr other ↦ ground (arith, other)
]

module _ (d : Deps) (f : FileData) (tag time : List ℕ) (e : print_etag f.f_etag ≡ some tag)
    (t : print_time (d.gmtime f.f_mtime) ≡ some time) (lt : length time < 45) where
  send_head-Responds :
      (root : ℕ) (hit head : Bool) (b : HttpBuf) (w : World)
      → w.h.h_res ≡ some b
      → IsBuf b
      → length (head_text (if hit then 304 else 200) w.h.h_data_len w.h.h_conn_close f tag time)
          + 50
        ≤ b_end b - b.b_write
      → (w' : World) × (send_head d root f hit head w ≡ some w')
        × Responds b
            (head_text (if hit then 304 else 200) w.h.h_data_len w.h.h_conn_close f tag time)
            w.h.h_data_off
            (if head then 0 else w.h.h_data_len)
            w'
  unfolding send_head
  send_head-Responds root hit head b w res v room =
      let text = head_text (if hit then 304 else 200) w.h.h_data_len w.h.h_conn_close f tag time in
      let r0 : Resp = record { out = []; room = b_end b - b.b_write } in
      let written =
        write_head-text (if hit then 304 else 200) w.h.h_data_len w.h.h_conn_close f
          (d.gmtime f.f_mtime) tag time r0 e t lt room in
      let (b', done, v', c) = buf_done_write-contents text v (omega (arith, room)) in
      let w1 : World = record w { h = record (w.h) { h_res = some b' }; reqs = w.reqs + 1 } in
      (
        body_follows head root w1,
        rw (res, (buf_access v).1, written, done) refl,
        body_follows-Responds head root b text w1 (b', refl, v', c, refl, refl),
      )

  found-Responds :
      (r : Request) (head : Bool) (uri : List ℕ) (query : Option (List ℕ)) (root : ℕ) (b : HttpBuf)
      (w : World)
      → nads_normalize (bytes r.uri) ≡ nads_ok uri query
      → d.vhosts_lookup (until_nul (bytes r.host)) ≡ some root
      → d.webroot_find root uri ≡ some (http_found f)
      → ((w : World) → d.io_prep w ≡ some (w, true))
      → w.h.h_res ≡ some b
      → IsBuf b
      → let hit = is_hit r.etag tag in
        let text = head_text (if hit then 304 else 200) f.f_len w.h.h_conn_close f tag time in
        length text + 50 ≤ b_end b - b.b_write
        → (w' : World) × (handle_get d r head w ≡ some w')
          × Responds b text f.f_ofs (if head || hit then 0 else f.f_len) w'
  unfolding handle_get serve_file search_uri
  found-Responds r head uri query root b w norm host found ready res v room =
      let hit = is_hit r.etag tag in
      let w1 : World = record w {
        h = record (w.h) { h_data_off = f.f_ofs; h_data_len = f.f_len };
      } in
      let (w', sent, responds) = send_head-Responds root hit (head || hit) b w1 res v room in
      let prepared : (if (f.f_len == 0) || (head || hit)
            then send_head d root f hit (head || hit) w1
            else send_head d root f hit (head || hit) w1)
          ≡ send_head d root f hit (head || hit) w1 =
        elim (Bool-cases ((f.f_len == 0) || (head || hit))) [
          | inl y ↦ rw y refl
          | inr n ↦ rw n refl
        ] in
      (w', rw (norm, host, found, e, ready w1) (prepared ∙ sent), responds)

  -- A found file is answered by a head with its length and tag: 304 if the request's tag is this one, in
  -- whatever case, and 200 if not. Then the range that is left to be sent is the whole file, or empty if
  -- the request was for the head or its tag was this one. Hypotheses: the URI is normalised, the host and
  -- the name are known, the tag has a text of 40 digits and the time one, the I/O model is ready at once
  -- and leaves the connection as it is, and the head fits the buffer with 50 bytes to spare.
  pub handle_get-Responds :
      (r : Request) (head : Bool) (uri : List ℕ) (query : Option (List ℕ)) (root : ℕ) (b : HttpBuf)
      (w : World) (hit : Bool)
      → length tag ≡ 40
      → IsSame hit (map to_lower (bytes r.etag)) (map to_lower tag)
      → nads_normalize (bytes r.uri) ≡ nads_ok uri query
      → d.vhosts_lookup (until_nul (bytes r.host)) ≡ some root
      → d.webroot_find root uri ≡ some (http_found f)
      → ((w : World) → d.io_prep w ≡ some (w, true))
      → w.h.h_res ≡ some b
      → IsBuf b
      → let text = head_text (if hit then 304 else 200) f.f_len w.h.h_conn_close f tag time in
        length text + 50 ≤ b_end b - b.b_write
        → (w' : World) × (handle_get d r head w ≡ some w')
          × Responds b text f.f_ofs (if head || hit then 0 else f.f_len) w'
  handle_get-Responds r head uri query root b w hit digits same norm host found ready res v =
      let known = is_hit-IsSame hit r.etag tag digits same in
      subst
        (λ hit.
          let text = head_text (if hit then 304 else 200) f.f_len w.h.h_conn_close f tag time in
          length text + 50 ≤ b_end b - b.b_write
          → (w' : World) × (handle_get d r head w ≡ some w')
            × Responds b text f.f_ofs (if head || hit then 0 else f.f_len) w')
        known (found-Responds r head uri query root b w norm host found ready res v)
