-- ===== src/Tests/Heads.antt =====
-- The parsers of heads at concrete inputs.
use ashttpd.Prelude.{ℕ, ◌+◌, ◌≡◌, ◌≢◌, refl, List, [], ◌∷◌, ◌++◌, arith, codes, length}
use ashttpd.Vec.{null, vec, to_lower}
use ashttpd.HttpParse.{call, dispatch_hdr, http_decode_buf, http_proto_version, http_ver_unknown}
use ashttpd.HttpParse.Print.{Header, print_head, dispatch_all}
use ashttpd.HttpParse.Decode.{headers_len, http_decode_buf-print}
use ashttpd.HttpParse.Dispatch.{find_hdr, dispatch_hdr-find}
use ashttpd.Incremental.{initial, http_parse_incremental}
use ashttpd.Incremental.Chunks.{continue, http_parse_incremental-append}
use ashttpd.Incremental.BlankLine.{has_blank, http_parse_incremental-has_blank}
use ashttpd.Vec.Number.{decimal}
use ashttpd.HttpReq.{Request, extract_port, request_zero, http_req, req_table, vars_init}
use ashttpd.HttpReq.Ignored.{http_req-ignores}
use ashttpd.HttpReq.Port.{extract_port-number}
use ashttpd.HttpReq.Fields.{last_value, http_req-print}
use ashttpd.HttpResp
use ashttpd.HttpResp.{Response, http_resp, resp_table, response_zero}
use ashttpd.HttpResp.Headers.{close_flag, http_resp-connection, resp_table-IsSorted}

abbrev hdrs : List Header
hdrs = (codes "Host", codes "a") ∷ (codes "Connection", codes "Close") ∷ []

abbrev head : List ℕ
head = print_head (codes "GET") (codes "/") (codes "HTTP/1.1") hdrs []

http_decode_buf-print_example : http_decode_buf req_table head (vars_init request_zero) ≡ (
  length (codes "GET")
      + 1
      + (length (codes "/") + 1)
      + (length (codes "HTTP/1.1") + 2)
      + headers_len hdrs
      + 2,
  req_table.third.fn (vec (codes "HTTP/1.1")) (
      req_table.second.fn (vec (codes "/")) (
        req_table.first.fn
          (vec (codes "GET"))
          (dispatch_all req_table.hdrs hdrs (vars_init request_zero)))),
)
http_decode_buf-print_example =
    http_decode_buf-print req_table (codes "GET") (codes "/") (codes "HTTP/1.1") hdrs []
      (vars_init request_zero) (ground arith) (ground arith) (ground arith) (ground arith)

http_req-print_example :
    let (n, r) = http_req request_zero head in
    (n
      ≡ length (codes "GET")
        + 1
        + (length (codes "/") + 1)
        + (length (codes "HTTP/1.1") + 2)
        + headers_len hdrs
        + 2)
    × (r.method ≡ vec (codes "GET"))
    × (r.uri ≡ vec (codes "/"))
    × (r.host ≡ last_value (codes "Host") null hdrs)
    × (r.etag ≡ last_value (codes "If-None-Match") null hdrs)
    × (r.proto_vers ≡ http_proto_version (vec (codes "HTTP/1.1")))
http_req-print_example =
    http_req-print (codes "GET") (codes "/") (codes "HTTP/1.1") hdrs [] (ground arith)
      (ground arith) (ground arith) (ground arith)

head_run : (http_req request_zero head).0 ≢ 0
head_run = ground (arith, http_req-print_example.0)

http_req-ignores_example :
    ((http_req request_zero head).1.conn_close ≡ 0)
    × ((http_req request_zero head).1.content_len ≡ 0)
http_req-ignores_example = http_req-ignores request_zero head head_run

abbrev far_port : Request
far_port = record request_zero { host = vec (codes "a:b:65616") }

-- A port of 80 more than 16 bits hold.
extract_port-number_example :
    extract_port far_port ≡ record far_port { hostname = vec (codes "a:b"); port = 80 }
unfolding decimal
extract_port-number_example =
    extract_port-number far_port (codes "a:b") (codes "65616") refl
      (λ e. absurd (ground (arith, e))) (ground arith) (omega arith)

dispatch_hdr-find_example :
    dispatch_hdr resp_table.hdrs
      (vec (codes "CONNECTION"))
      (vec (codes "x"))
      (HttpResp.vars_init response_zero)
    ≡ call
        (find_hdr (vec (codes "CONNECTION")) resp_table.hdrs)
        (vec (codes "x"))
        (HttpResp.vars_init response_zero)
dispatch_hdr-find_example =
    dispatch_hdr-find resp_table.hdrs (vec (codes "CONNECTION")) (vec (codes "x"))
      (HttpResp.vars_init response_zero) resp_table-IsSorted

version_run : http_proto_version (vec (codes "HTTP/1.1")) ≢ http_ver_unknown
unfolding http_proto_version
version_run = ground arith

abbrev blank : List ℕ
blank = codes "GET" ++ 13 ∷ 10 ∷ 13 ∷ 10 ∷ 65 ∷ []

http_parse_incremental-append_example :
    http_parse_incremental initial (blank ++ blank)
    ≡ continue (http_parse_incremental initial blank) blank
http_parse_incremental-append_example = http_parse_incremental-append initial blank blank

http_parse_incremental-has_blank_example :
    (http_parse_incremental initial blank).complete ≡ has_blank blank
http_parse_incremental-has_blank_example = http_parse_incremental-has_blank blank

http_resp-connection_example :
    (http_resp response_zero (
      print_head
        (codes "HTTP/1.1")
        (codes "200")
        (codes "OK")
        ((codes "connection", codes "close") ∷ [])
        [])).1.conn_close
    ≡ close_flag (codes "close")
unfolding to_lower
http_resp-connection_example =
    http_resp-connection response_zero (codes "HTTP/1.1") (codes "200") (codes "OK")
      (codes "connection") (codes "close") [] (ground arith) (ground arith) (ground arith)
      (ground arith) refl
