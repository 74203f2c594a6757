-- ===== src/HttpReq/Ignored.antt =====
-- The headers that `http_req` (http_req.c) asks for and never gets. Its table is in alphabetical
-- order, while `dispatch_hdr` searches it by the order of `vcasecmp_fast`, which puts the shorter
-- name first: "Host" stands in the middle, so the search for a longer name goes right from there,
-- and the names to its left are out of reach.
use ashttpd.Prelude.{
  ℕ, zero, suc, ◌<◌, ◌≡◌, ◌≢◌, refl, ◌⊎◌, inl, inr, List, none, some, true, false, arith,
  Bool-cases, length, codes, ℤ, pos, negsuc, is_zero, is_neg,
}
use ashttpd.Vec.{RoVec, null, vec, vstrcmp_fast, vcasecmp_fast}
use ashttpd.Vec.Compare.{vcasecmp_fast-len}
use ashttpd.HttpParse.{
  Hcb, Scan, htype_string, search_hdr, dispatch_hdr, http_decode_buf, finish, scan, scan_init,
}
use ashttpd.HttpParse.Keeps.{scan-out}
use ashttpd.HttpReq.{
  Request, Vars, set_host, set_etag, req_table, fill_request, vars_init, http_req, set_conn_close,
  extract_port, default_uri, set_content_len,
}
use ashttpd.HttpParse.{http_proto_version}

abbrev host_hcb : Hcb Vars
host_hcb = record { label = codes "Host"; fn = htype_string (some set_host) }

abbrev etag_hcb : Hcb Vars
etag_hcb = record { label = codes "If-None-Match"; fn = htype_string (some set_etag) }

pub is_zero→eq : (z : ℤ) → is_zero z ≡ true → z ≡ pos 0
is_zero→eq (pos zero) h = refl
is_zero→eq (pos (suc n)) h = cc
is_zero→eq (negsuc n) h = cc

-- A name that stands before "Host" is at most four bytes long.
pub longer-differs :
    (k : RoVec) (l : List ℕ)
    → is_neg (vstrcmp_fast k (codes "Host")) ≡ true
    → 4 < length l
    → is_zero (vstrcmp_fast k l) ≡ false
unfolding vstrcmp_fast
longer-differs k l h len = elim (Bool-cases (is_zero (vcasecmp_fast k (vec l)))) [
  | inl same ↦ absurd (
      omega (
        arith,
        (vcasecmp_fast-len k (vec (codes "Host"))).0 h,
        (vcasecmp_fast-len k (vec l)).1 (is_zero→eq _ same),
      ))
  | inr other ↦ other
]

-- The search ends at "Host", at "If-None-Match" or at nothing.
search-reach :
    (k : RoVec)
    → (search_hdr 5 req_table.hdrs 4 k ≡ none)
      ⊎ (search_hdr 5 req_table.hdrs 4 k ≡ some host_hcb)
      ⊎ (search_hdr 5 req_table.hdrs 4 k ≡ some etag_hcb)
unfolding search_hdr
search-reach k =
    ground (arith, longer-differs k (codes "Connection"), longer-differs k (codes "Content-Length"))

-- What no header of a request changes.
abbrev Untouched : ℕ → Vars → Type 0
Untouched n s = (s.clen ≡ negsuc 0) × (s.connection ≡ null) × (s.r.content_len ≡ n)

hdr-Untouched :
    (n : ℕ) (k v : RoVec) (s : Vars)
    → Untouched n s
    → Untouched n (dispatch_hdr req_table.hdrs k v s)
unfolding dispatch_hdr htype_string
hdr-Untouched n k v s h = elim (search-reach k) [
  | inl nothing ↦ rw nothing h
  | inr (inl host) ↦ rw host h
  | inr (inr etag) ↦ rw etag h
]

finish-Untouched :
    (n : ℕ) (sc : Scan Vars) → Untouched n sc.out → Untouched n (finish req_table sc).1
unfolding finish htype_string
finish-Untouched n sc h = ground arith

decode-Untouched :
    (r : Request) (ptr : List ℕ)
    → Untouched r.content_len (http_decode_buf req_table ptr (vars_init r)).1
unfolding http_decode_buf
decode-Untouched r ptr =
    finish-Untouched r.content_len (scan req_table.hdrs ptr (scan_init (vars_init r))) (
      scan-out req_table.hdrs (Untouched r.content_len) (hdr-Untouched r.content_len) ptr
        (scan_init (vars_init r)) (refl, refl, refl))

-- The two fields in question.
abbrev SameTail : Request → Request → Type 0
SameTail q r = (q.conn_close ≡ r.conn_close) × (q.content_len ≡ r.content_len)

default_uri-tail : (r : Request) → SameTail (default_uri r) r
unfolding default_uri
default_uri-tail r = ground arith

extract_port-tail : (r : Request) → SameTail (extract_port r) r
unfolding extract_port
extract_port-tail r = ground arith

set_conn_close-null :
    (r : Request)
    → ((set_conn_close null r).conn_close ≡ 0)
      × ((set_conn_close null r).content_len ≡ r.content_len)
unfolding set_conn_close vcasecmp_fast
set_conn_close-null r = (refl, refl)

fill-ignored :
    (n : ℕ) (s : Vars)
    → Untouched n s
    → ((fill_request s).conn_close ≡ 0) × ((fill_request s).content_len ≡ n)
unfolding fill_request set_content_len
fill-ignored n s h =
    let r = record (s.r) { proto_vers = http_proto_version s.pv } in
    let base = set_content_len s.clen r in
    let closed = set_conn_close s.connection base in
    ground (
      arith,
      default_uri-tail (extract_port closed),
      extract_port-tail closed,
      set_conn_close-null base,
    )

-- Whatever the request says, "Connection" and "Content-Length" headers have no effect: a decoded
-- request keeps the connection open, and its content length is the one that the caller put there.
pub http_req-ignores :
    (r : Request) (ptr : List ℕ)
    → (http_req r ptr).0 ≢ 0
    → ((http_req r ptr).1.conn_close ≡ 0) × ((http_req r ptr).1.content_len ≡ r.content_len)
unfolding http_req
http_req-ignores r ptr ok = ground (
  arith,
  fill-ignored r.content_len (http_decode_buf req_table ptr (vars_init r)).1
      (decode-Untouched r ptr),
)
