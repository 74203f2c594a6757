-- ===== src/HttpReq/Fields.antt =====
-- The fields that `http_req` (http_req.c) takes from a head in the usual form.
use ashttpd.Prelude.{
  ℕ, ◌+◌, ◌≡◌, ◌≢◌, refl, ap, ◌∙◌, List, [], ◌∷◌, true, false, arith, if◌then◌else◌, Bool-cases,
  inl, inr, length, codes, All, ne→==, ℤ, pos, negsuc, is_zero, is_neg,
}
use ashttpd.Vec.{RoVec, null, vec, vstrcmp_fast, vcasecmp_fast}
use ashttpd.HttpParse.{htype_string, search_hdr, dispatch_hdr, http_proto_version}
use ashttpd.HttpParse.Print.{IsWord, IsText, Header, IsHeader, print_head, dispatch_all}
use ashttpd.HttpParse.Decode.{headers_len, http_decode_buf-print}
use ashttpd.Vec.Compare.{vcasecmp_fast-len}
use ashttpd.HttpReq.{
  request_zero, Vars, set_conn_close, set_content_len, extract_port, default_uri, req_table,
  fill_request, finish_req, vars_init, http_req,
}
use ashttpd.HttpReq.Ignored.{longer-differs, is_zero→eq}

-- The value of the last header with the label, or what was there before.
unfoldable pub last_value : List ℕ → RoVec → List Header → RoVec
last_value label old [] = old
last_value label old ((k, v) ∷ hs) =
    last_value label (if is_zero (vstrcmp_fast (vec k) label) then vec v else old) hs

-- A name of four bytes is not that of thirteen.
host-not_etag :
    (k : RoVec)
    → is_zero (vstrcmp_fast k (codes "Host")) ≡ true
    → is_zero (vstrcmp_fast k (codes "If-None-Match")) ≡ false
unfolding vstrcmp_fast
host-not_etag k h = elim (Bool-cases (is_zero (vcasecmp_fast k (vec (codes "If-None-Match"))))) [
  | inl same ↦ absurd (
      omega (
        arith,
        (vcasecmp_fast-len k (vec (codes "Host"))).1 (is_zero→eq _ h),
        (vcasecmp_fast-len k (vec (codes "If-None-Match"))).1 (is_zero→eq _ same),
      ))
  | inr other ↦ other
]

zero-not_neg : (z : ℤ) → is_zero z ≡ true → is_neg z ≡ false
zero-not_neg (pos n) h = refl
zero-not_neg (negsuc n) h = cc

-- A header sets the host, the entity tag or nothing.
dispatch_hdr-req :
    (k v : List ℕ) (s : Vars)
    → dispatch_hdr req_table.hdrs (vec k) (vec v) s ≡ record s {
      r = record (s.r) {
        host = last_value (codes "Host") s.r.host ((k, v) ∷ []);
        etag = last_value (codes "If-None-Match") s.r.etag ((k, v) ∷ []);
      };
    }
unfolding dispatch_hdr search_hdr htype_string last_value
dispatch_hdr-req k v s = ground (
  arith,
  longer-differs (vec k) (codes "Connection"),
  longer-differs (vec k) (codes "Content-Length"),
  longer-differs (vec k) (codes "If-None-Match"),
  host-not_etag (vec k),
  zero-not_neg (vstrcmp_fast (vec k) (codes "Host")),
  zero-not_neg (vstrcmp_fast (vec k) (codes "If-None-Match")),
)

dispatch_all-req :
    (hs : List Header) (s : Vars)
    → dispatch_all req_table.hdrs hs s ≡ record s {
      r = record (s.r) {
        host = last_value (codes "Host") s.r.host hs;
        etag = last_value (codes "If-None-Match") s.r.etag hs;
      };
    }
unfolding dispatch_all last_value
dispatch_all-req [] s = refl
dispatch_all-req ((k, v) ∷ hs) s =
    ap (dispatch_all req_table.hdrs hs) (dispatch_hdr-req k v s)
    ∙ dispatch_all-req hs (record s {
      r = record (s.r) {
        host = last_value (codes "Host") s.r.host ((k, v) ∷ []);
        etag = last_value (codes "If-None-Match") s.r.etag ((k, v) ∷ []);
      };
    })

-- The steps behind the decoder leave what it decoded.
fill-decoded :
    (s : Vars) (u : List ℕ)
    → s.r.uri ≡ vec u
    → ((fill_request s).method ≡ s.r.method)
      × ((fill_request s).uri ≡ vec u)
      × ((fill_request s).host ≡ s.r.host)
      × ((fill_request s).etag ≡ s.r.etag)
      × ((fill_request s).proto_vers ≡ http_proto_version s.pv)
unfolding fill_request extract_port default_uri set_content_len set_conn_close
fill-decoded s u h = ground arith

finish_req-ne : (n : ℕ) (s : Vars) → n ≢ 0 → finish_req (n, s) ≡ (n, fill_request s)
unfolding finish_req
finish_req-ne n s h = rw (ne→== n 0 h)

-- The variables behind the decoder.
abbrev head_vars : (method uri proto : List ℕ) → List Header → Vars
head_vars method uri proto hs = record (vars_init request_zero) {
  r = record request_zero {
    method = vec method;
    uri = vec uri;
    host = last_value (codes "Host") null hs;
    etag = last_value (codes "If-None-Match") null hs;
  };
  pv = vec proto;
}

http_req-head :
    (method uri proto : List ℕ) (hs : List Header) (rest : List ℕ)
    → IsWord method
    → IsWord uri
    → IsText proto
    → All IsHeader hs
    → http_req request_zero (print_head method uri proto hs rest) ≡ (
      length method + 1 + (length uri + 1) + (length proto + 2) + headers_len hs + 2,
      fill_request (head_vars method uri proto hs),
    )
unfolding http_req htype_string
http_req-head method uri proto hs rest hm hu hp hh =
    ap finish_req
      {y = (
        length method + 1 + (length uri + 1) + (length proto + 2) + headers_len hs + 2,
        head_vars method uri proto hs,
      )}
      (http_decode_buf-print req_table method uri proto hs rest (vars_init request_zero) hm hu hp hh
        ∙ rw (dispatch_all-req hs (vars_init request_zero)))
    ∙ finish_req-ne _ (head_vars method uri proto hs) (omega arith)

-- A request in the usual form is taken apart as it was printed: all its bytes are consumed, and
-- method, URI, protocol version, host and entity tag are the printed ones, the last header of a
-- name winning.
pub http_req-print :
    (method uri proto : List ℕ) (hs : List Header) (rest : List ℕ)
    → IsWord method
    → IsWord uri
    → IsText proto
    → All IsHeader hs
    → let (n, r) = http_req request_zero (print_head method uri proto hs rest) in
      (n ≡ length method + 1 + (length uri + 1) + (length proto + 2) + headers_len hs + 2)
      × (r.method ≡ vec method)
      × (r.uri ≡ vec uri)
      × (r.host ≡ last_value (codes "Host") null hs)
      × (r.etag ≡ last_value (codes "If-None-Match") null hs)
      × (r.proto_vers ≡ http_proto_version (vec proto))
http_req-print method uri proto hs rest hm hu hp hh =
    let (a, b, c, d, e) = fill-decoded (head_vars method uri proto hs) uri refl in
    rw (http_req-head method uri proto hs rest hm hu hp hh) (refl, a, b, c, d, e)
