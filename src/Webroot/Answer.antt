-- ===== src/Webroot/Answer.antt =====
-- `handle_get` of http_conn.c on a web root: from the spelling in the index to the range that is sent.
use ashttpd.Prelude.{
  map, ℕ, ◌+◌, ◌-◌, ◌^◌, ◌≤◌, ◌<◌, ◌≡◌, refl, sym, ◌∙◌, List, ◌∷◌, ◌++◌, Option, some, Bool, true,
  false, ◌||◌, arith, ltb, if◌then◌else◌, length, get_elem?,
}
use ashttpd.Vec.{bytes, to_lower}
use ashttpd.Normalize.{nads_ok, nads_normalize, until_nul}
use ashttpd.HttpBuf.{HttpBuf, b_end}
use ashttpd.HttpBuf.Queue.{IsBuf}
use ashttpd.HttpReq.{Request}
use ashttpd.HttpConn.{World}
use ashttpd.HttpConn.Print.{print_etag, print_time}
use ashttpd.HttpConn.Get.{WebrootName, http_found, Deps, handle_get}
use ashttpd.HttpConn.Head.{head_text}
use ashttpd.HttpConn.Found.{IsSame, Responds, handle_get-Responds}
use ashttpd.Webroot.{WebrootFile, Webroot, r_num_oid, file_data, file_name, oid_name, webroot_find}
use ashttpd.Webroot.Edges.{Spells}
use ashttpd.Webroot.Complete.{IsTrie}
use ashttpd.Webroot.Find.{IsWebroot, webroot_find_complete}
use ashttpd.Sendfile.{io_sendfile_prep}

-- A server of one web root, known by its number, with the I/O model of io_sendfile.c. Behind the NUL of a
-- URI there are at least seven bytes.
pub record Serves (d : Deps) (root : ℕ) (r : Webroot) : Type 0 where
  pub behind : List ℕ
  pub room : 7 ≤ length behind
  pub found :
      (uri : List ℕ) (name : Option WebrootName)
      → webroot_find r (uri ++ 0 ∷ behind) (length uri) ≡ some name
      → d.webroot_find root uri ≡ name
  pub prepared : (w : World) → d.io_prep w ≡ io_sendfile_prep w

-- The object numbers behind those of the redirects stand for the files.
oid_name-file :
    (r : Webroot) (i : ℕ) (file : WebrootFile)
    → get_elem? r.r_file i ≡ some file
    → length r.r_redir + i < r_num_oid r
    → oid_name r (length r.r_redir + i) ≡ some (file_name r file)
unfolding oid_name
oid_name-file r i file at lt =
    let known : ltb (length r.r_redir + i) (length r.r_redir + length r.r_file) ≡ true =
      ground (arith, lt) in
    let behind : ltb (length r.r_redir + i) (length r.r_redir) ≡ false = ground arith in
    let index : length r.r_redir + i - length r.r_redir ≡ i = omega arith in
    rw (oid_name, known, behind, index, at) refl

named_found :
    (web : Webroot) (file : WebrootFile)
    → Path (Option WebrootName) (some (file_name web file)) (some (http_found (file_data web file)))
unfolding file_name
named_found web file = refl

ready : (w : World) → io_sendfile_prep w ≡ some (w, true)
unfolding io_sendfile_prep
ready w = refl

-- A request for a string that the index spells for a file is answered with the head of that file, 304 if
-- the request's tag is the file's, in whatever case, and 200 if not, and the range that is left to be sent is the file's in
-- the web root, or empty if there is to be no body. The web root is as it should be, with siblings in
-- order; its number is the host's; the I/O model is sendfile; the tag has a text of 40 digits and the time
-- one, and the
-- head fits the buffer with 50 bytes to spare.
pub handle_get-Spells :
    (d : Deps) (root : ℕ) (web : Webroot)
    → Serves d root web
    → IsWebroot web
    → IsTrie web.r_trie
    → (i : ℕ) (file : WebrootFile) (uri : List ℕ) → get_elem? web.r_file i ≡ some file
    → length web.r_redir + i < r_num_oid web
    → Spells web.r_trie 0 1 uri (length web.r_redir + i)
    → length uri < 2 ^ 64
    → (tag time : List ℕ) → print_etag (file_data web file).f_etag ≡ some tag
    → print_time (d.gmtime file.f_modified) ≡ some time
    → length time < 45
    → (r : Request) (head : Bool) (query : Option (List ℕ)) (b : HttpBuf) (w : World) (hit : Bool)
    → length tag ≡ 40
    → IsSame hit (map to_lower (bytes r.etag)) (map to_lower tag)
    → nads_normalize (bytes r.uri) ≡ nads_ok uri query
    → d.vhosts_lookup (until_nul (bytes r.host)) ≡ some root
    → w.h.h_res ≡ some b
    → IsBuf b
    → let text =
        head_text
          (if hit then 304 else 200)
          file.f_len
          w.h.h_conn_close
          (file_data web file)
          tag
          time in
      length text + 50 ≤ b_end b - b.b_write
      → (w' : World) × (handle_get d r head w ≡ some w')
        × Responds b text file.f_off (if head || hit then 0 else file.f_len) w'
handle_get-Spells d root web serves ok t i file uri at lt spelled short tag time e te tl r head
      query b w tagged digits alike norm host res v room =
    let (name, named, found) =
      webroot_find_complete web ok uri serves.behind short serves.room (length web.r_redir + i) t
        spelled lt in
    let same : some name ≡ some (file_name web file) = sym named ∙ oid_name-file web i file at lt in
    let hit : d.webroot_find root uri ≡ some (file_name web file) =
      serves.found uri (some name) found ∙ same in
    handle_get-Responds d (file_data web file) tag time e te tl r head uri query root b w tagged
      digits alike norm host (hit ∙ named_found web file) (λ v. serves.prepared v ∙ ready v) res v
      room
