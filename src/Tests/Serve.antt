-- ===== src/Tests/Serve.antt =====
-- http_conn.c on concrete requests.
use ashttpd.Prelude.{
  codes, ℕ, ◌≡◌, ◌⊎◌, refl, List, [], ◌∷◌, ◌++◌, Option, ap, length, none, some, true, false, arith,
  if◌then◌else◌,
}
use ashttpd.HttpBuf.{HttpBuf}
use ashttpd.HttpBuf.Queue.{IsBuf, contents}
use ashttpd.Incremental.{initial, http_parse_incremental}
use ashttpd.HttpConn.{
  conn_request, conn_header, conn_data, conn_dead, Conn, World, http_kill, http_conn_data_complete,
  http_conn_data_read,
}
use ashttpd.HttpConn.Get.{Deps, FileData, WebrootName, http_found, handle_get}
use ashttpd.HttpConn.Head.{head_text}
use ashttpd.HttpConn.Found.{Responds, handle_get-Responds}
use ashttpd.Normalize.{nads_ok, nads_normalize}
use ashttpd.HttpReq.{Request, request_zero}
use ashttpd.Vec.{vec, to_lower}
use ashttpd.HttpConn.Serve.{received, handle_request, http_read}
use ashttpd.HttpConn.Reading.{IsReading, after, http_read-collects}
use ashttpd.Incremental.BlankLine.{has_blank}
use ashttpd.HttpConn.Print.{print_u64, print_etag, print_time}
use ashttpd.Webroot.{file_data, webroot_find}
use ashttpd.Webroot.Answer.{Serves, handle_get-Spells}
use ashttpd.Sendfile.{io_sendfile_prep}
use ashttpd.Tests.Site.{behind, page, site, slash_bc, site-IsWebroot, site-IsTrie, slash_bc-Spells}
use ashttpd.Tests.Conn.{idle, world, zeros}

abbrev join : Option (Option WebrootName) → Option WebrootName
join none = none
join (some name) = name

-- A server without hosts.
abbrev no_site : Deps
no_site = record {
  vhosts_lookup = λ host. none;
  webroot_find = λ root uri. none;
  gmtime = λ t. record {
    tm_wday = 4;
    tm_mday = 1;
    tm_mon = 0;
    tm_year = 70;
    tm_hour = 0;
    tm_min = 0;
    tm_sec = 0;
  };
  io_prep = λ w. some (w, true);
}

-- One byte of a request, with room for three.
abbrev one : HttpBuf
one = record { mem = 71 ∷ 0 ∷ 0 ∷ 0 ∷ []; b_read = 0; b_write = 1 }

one-IsBuf : IsBuf one
one-IsBuf = record { ordered = omega arith; inside = omega arith }

abbrev collecting : World
collecting = world (record idle { h_req = some one; h_rptr = 1 })

one_run :
    http_parse_incremental initial (contents one)
    ≡ record { complete = false; state = initial; moved = 1 }
unfolding http_parse_incremental ashttpd.Incremental.is_terminal ashttpd.Incremental.next_state
one_run = refl

http_read-collects_example :
    let all = contents one ++ 10 ∷ 10 ∷ [] in
    let p = http_parse_incremental initial all in
    (b' : HttpBuf) × (contents b' ≡ all)
    × (http_read no_site none none [] (received (10 ∷ 10 ∷ [])) collecting ≡ (
        if has_blank all
        then handle_request no_site none [] (after b' p collecting)
        else some (after b' p collecting)))
    × ((has_blank all ≡ true) ⊎ IsReading b' (after b' p collecting))
http_read-collects_example =
    http_read-collects no_site none [] none one 10 (10 ∷ []) collecting refl
      (refl, one-IsBuf, refl, one_run) (omega arith)

-- A site with one file, "/a".
abbrev file_a : FileData
file_a = record {
  mime_type = vec (codes "text/plain");
  f_ofs = 96;
  f_len = 12;
  f_mtime = 0;
  f_etag = 171 ∷ 0 ∷ 0 ∷ 0 ∷ 0 ∷ 0 ∷ 0 ∷ 0 ∷ 0 ∷ 0 ∷ 0 ∷ 0 ∷ 0 ∷ 0 ∷ 0 ∷ 0 ∷ 0 ∷ 0 ∷ 0 ∷ 0 ∷ [];
}

abbrev one_file : Deps
one_file = record {
  vhosts_lookup = λ host. some 1;
  webroot_find = λ root uri. some (http_found file_a);
  gmtime = λ t. record {
    tm_wday = 4;
    tm_mday = 1;
    tm_mon = 1;
    tm_year = 70;
    tm_hour = 0;
    tm_min = 0;
    tm_sec = 0;
  };
  io_prep = λ w. some (w, true);
}

abbrev tag_a : List ℕ
tag_a = codes "0a00000000000000000000000000000000000000"

abbrev time_a : List ℕ
time_a = codes "Thu, 01 Jan 1970 00:00:00 GMT"

tag_a_run : print_etag file_a.f_etag ≡ some tag_a
unfolding print_etag ashttpd.HttpConn.Print.hex_at
tag_a_run = refl

time_a_run : print_time (one_file.gmtime 0) ≡ some time_a
unfolding print_time ashttpd.HttpConn.Print.month_name ashttpd.HttpConn.Print.print_02d
    ashttpd.HttpConn.Print.print_4d ashttpd.HttpConn.Print.digits
time_a_run = refl

abbrev ask_a : Request
ask_a = record request_zero {
  uri = vec (codes "/./a");
  etag = vec (codes "0A00000000000000000000000000000000000000");
}

ask_a_run : nads_normalize (codes "/./a") ≡ nads_ok (codes "/a") none
unfolding nads_normalize ashttpd.Normalize.n_hex_loop ashttpd.Normalize.until_nul
    ashttpd.Normalize.n_utf8_loop ashttpd.Normalize.to_slash
ask_a_run = refl

abbrev large_buf : HttpBuf
large_buf = record { mem = zeros 400; b_read = 0; b_write = 0 }

large_buf-IsBuf : IsBuf large_buf
large_buf-IsBuf = record { ordered = omega arith; inside = omega arith }

abbrev getting : World
getting = world (record idle { h_state = conn_header; h_res = some large_buf })

handle_get-Responds_example :
    let text = head_text 304 12 0 file_a tag_a time_a in
    (w' : World) × (handle_get one_file ask_a false getting ≡ some w')
    × Responds large_buf text 96 0 w'
unfolding to_lower ashttpd.HttpConn.Print.digits
handle_get-Responds_example =
    handle_get-Responds one_file file_a tag_a time_a tag_a_run time_a_run (omega arith) ask_a false
      (codes "/a") none 1 large_buf getting true refl refl ask_a_run refl refl (λ w. refl) refl
      large_buf-IsBuf (omega arith)

-- The site of the index, with its file at "/bc".
abbrev indexed : Deps
indexed = record one_file {
  webroot_find = λ root uri. join (webroot_find site (uri ++ 0 ∷ behind) (length uri));
}

indexed-Serves : Serves indexed 1 site
unfolding io_sendfile_prep
indexed-Serves = record {
  behind = behind;
  room = omega arith;
  found = λ uri name e. ap join e;
  prepared = λ w. refl;
}

abbrev tag_page : List ℕ
tag_page = codes "0001020304050607080900010203040506070809"

tag_page_run : print_etag (file_data site page).f_etag ≡ some tag_page
unfolding print_etag ashttpd.HttpConn.Print.hex_at
tag_page_run = refl

abbrev ask_bc : Request
ask_bc = record request_zero { uri = vec (codes "/./bc") }

ask_bc_run : nads_normalize (codes "/./bc") ≡ nads_ok slash_bc none
unfolding nads_normalize ashttpd.Normalize.n_hex_loop ashttpd.Normalize.until_nul
    ashttpd.Normalize.n_utf8_loop ashttpd.Normalize.to_slash
ask_bc_run = refl

handle_get-Spells_example :
    let text = head_text 200 3 0 (file_data site page) tag_page time_a in
    (w' : World) × (handle_get indexed ask_bc false getting ≡ some w')
    × Responds large_buf text 400 3 w'
unfolding to_lower ashttpd.HttpConn.Print.digits
handle_get-Spells_example =
    handle_get-Spells indexed 1 site indexed-Serves site-IsWebroot site-IsTrie 0 page slash_bc refl
      (omega arith) slash_bc-Spells (omega arith) tag_page time_a tag_page_run time_a_run
      (omega arith) ask_bc false none large_buf getting false refl
      (λ e. absurd (ground (arith, ap length e))) ask_bc_run refl refl large_buf-IsBuf (omega arith)
