-- ===== src/HttpReq.antt =====
-- http_req.c: the fields of a request, decoded from its head.
-- `Vars` is the caller's structure with the local variables that the control blocks point to.
pub mod Fields
pub mod Ignored
pub mod Port
use ashttpd.Prelude.{
  ◌%◌, ℕ, zero, suc, ◌+◌, ◌^◌, List, [], ◌∷◌, Option, none, some, Bool, true, false, ◌&&◌, not, ltb,
  ◌==◌, if◌then◌else◌, length, take, drop, get_elem?, codes, ℤ, pos, negsuc, is_zero,
}
use ashttpd.Vec.{RoVec, null, vec, bytes, v_len, vtouint, vcasecmp_fast}
use ashttpd.HttpParse.{Hcb, Table, htype_string, htype_int, http_decode_buf, http_proto_version}

abbrev pub http_default_port : ℕ
http_default_port = 80

pub record Request : Type 0 where
  pub method : RoVec
  pub host : RoVec
  pub uri : RoVec
  pub query : RoVec
  pub hostname : RoVec
  pub etag : RoVec
  pub content_len : ℕ
  pub port : ℕ
  pub proto_vers : ℕ
  pub conn_close : ℕ

-- The structure behind `memset(&r, 0, sizeof(r))`.
abbrev pub request_zero : Request
request_zero = record {
  method = null;
  host = null;
  uri = null;
  query = null;
  hostname = null;
  etag = null;
  content_len = 0;
  port = 0;
  proto_vers = 0;
  conn_close = 0;
}

pub record Vars : Type 0 where
  pub r : Request
  pub clen : ℤ
  pub pv : RoVec
  pub connection : RoVec

abbrev pub set_method : RoVec → Vars → Vars
set_method v s = record s { r = record (s.r) { method = v } }

abbrev pub set_uri : RoVec → Vars → Vars
set_uri v s = record s { r = record (s.r) { uri = v } }

abbrev pub set_pv : RoVec → Vars → Vars
set_pv v s = record s { pv = v }

abbrev pub set_connection : RoVec → Vars → Vars
set_connection v s = record s { connection = v }

abbrev pub set_clen : ℤ → Vars → Vars
set_clen n s = record s { clen = n }

abbrev pub set_host : RoVec → Vars → Vars
set_host v s = record s { r = record (s.r) { host = v } }

abbrev pub set_etag : RoVec → Vars → Vars
set_etag v s = record s { r = record (s.r) { etag = v } }

-- The table `hcb` of `http_req`.
abbrev pub req_table : Table Vars
req_table = record {
  first = record { label = codes "method"; fn = htype_string (some set_method) };
  second = record { label = codes "uri"; fn = htype_string (some set_uri) };
  third = record { label = codes "protocol"; fn = htype_string (some set_pv) };
  hdrs =
      record { label = codes "Connection"; fn = htype_string (some set_connection) }
      ∷ record { label = codes "Content-Length"; fn = htype_int set_clen }
      ∷ record { label = codes "Host"; fn = htype_string (some set_host) }
      ∷ record { label = codes "If-None-Match"; fn = htype_string (some set_etag) }
      ∷ [];
}

-- The loop that looks for the last ':' of the host from its end, with `i` bytes left: what is
-- before it and what is behind it. Without a ':' the host is kept and the port is NULL.
unfoldable pub split_host : ℕ → List ℕ → RoVec × RoVec
split_host zero xs = (vec xs, null)
split_host (suc i) xs =
    let rest = split_host i xs in
    elim (get_elem? xs i) [
      | none ↦ rest
      | some c ↦ if c == 58 then (vec (take i xs), vec (drop (suc i) xs)) else rest
    ]

-- What `r->port`, a number of 16 bits, is set to.
unfoldable pub parse_port : RoVec → ℕ
parse_port port =
    let (prt, n) = vtouint port in
    if v_len port == 0
    then http_default_port
    else if (n == v_len port) && ltb prt (2 ^ 16)
    then prt % 2 ^ 16
    else http_default_port

-- "Extract the port from the host header": `hostname` and `port` are set.
unfoldable pub extract_port : Request → Request
unfolding split_host parse_port
extract_port r = elim (r.host) [
  | null ↦ record r { port = http_default_port }
  | vec xs ↦
      let (name, port) = split_host (length xs) xs in
      record r { hostname = name; port = parse_port port }
]

unfoldable pub default_uri : Request → Request
default_uri r = elim (r.uri) [ null ↦ record r { uri = vec (codes "/") } | vec xs ↦ r ]

unfoldable pub set_content_len : ℤ → Request → Request
set_content_len (pos zero) r = r
set_content_len (pos (suc n)) r = record r { content_len = suc n }
set_content_len (negsuc n) r = r

-- The test of the protocol version is always true (`|| 1`).
unfoldable pub set_conn_close : RoVec → Request → Request
set_conn_close connection r =
    if is_zero (vcasecmp_fast connection (vec (codes "Close")))
    then record r { conn_close = 1 }
    else record r { conn_close = 0 }

-- What follows a successful decode.
unfoldable pub fill_request : Vars → Request
fill_request s =
    let r = record (s.r) { proto_vers = http_proto_version s.pv } in
    default_uri (extract_port (set_conn_close s.connection (set_content_len s.clen r)))

unfoldable pub finish_req : ℕ × Vars → ℕ × Request
unfolding fill_request
finish_req (hlen, s) = if hlen == 0 then (0, s.r) else (hlen, fill_request s)

abbrev pub vars_init : Request → Vars
vars_init r = record { r = r; clen = negsuc 0; pv = null; connection = null }

unfoldable pub http_req : Request → List ℕ → ℕ × Request
unfolding finish_req
http_req r ptr = finish_req (http_decode_buf req_table ptr (vars_init r))
