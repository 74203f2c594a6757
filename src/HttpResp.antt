-- ===== src/HttpResp.antt =====
-- http_resp.c: the fields of a response, decoded from its head.
pub mod Headers
use ashttpd.Prelude.{
  ℕ, zero, suc, List, [], ◌∷◌, none, some, ◌==◌, if◌then◌else◌, codes, ℤ, pos, negsuc, is_zero,
}
use ashttpd.Vec.{RoVec, null, vec, vcasecmp_fast}
use ashttpd.HttpParse.{
  Hcb, Table, htype_string, htype_int, htype_code, http_decode_buf, http_proto_version,
}

pub record Response : Type 0 where
  pub host : RoVec
  pub content_len : ℕ
  pub code : ℕ
  pub proto_vers : ℕ
  pub conn_close : ℕ
  pub transfer_enc : RoVec
  pub content_type : RoVec
  pub content_enc : RoVec

-- The structure of which every field is zero.
abbrev pub response_zero : Response
response_zero = record {
  host = null;
  content_len = 0;
  code = 0;
  proto_vers = 0;
  conn_close = 0;
  transfer_enc = null;
  content_type = null;
  content_enc = null;
}

pub record Vars : Type 0 where
  pub r : Response
  pub clen : ℤ
  pub pv : RoVec
  pub connection : RoVec

-- The table `hcb` of `http_resp`. The message has no vector to go to.
abbrev pub resp_table : Table Vars
resp_table = record {
  first = record {
    label = codes "protocol";
    fn = htype_string (some (λ v s. record s { pv = v }));
  };
  second = record {
    label = codes "code";
    fn = htype_code (λ n s. record s { r = record (s.r) { code = n } });
  };
  third = record { label = codes "msg"; fn = htype_string none };
  hdrs =
      record {
        label = codes "Connection";
        fn = htype_string (some (λ v s. record s { connection = v }));
      }
      ∷ record {
        label = codes "Content-Type";
        fn = htype_string (some (λ v s. record s { r = record (s.r) { content_type = v } }));
      }
      ∷ record { label = codes "Content-Length"; fn = htype_int (λ n s. record s { clen = n }) }
      ∷ record {
        label = codes "Content-Encoding";
        fn = htype_string (some (λ v s. record s { r = record (s.r) { content_enc = v } }));
      }
      ∷ record {
        label = codes "Transfer-Encoding";
        fn = htype_string (some (λ v s. record s { r = record (s.r) { transfer_enc = v } }));
      }
      ∷ [];
}

unfoldable pub set_content_len : ℤ → Response → Response
set_content_len (pos zero) r = r
set_content_len (pos (suc n)) r = record r { content_len = suc n }
set_content_len (negsuc n) r = r

unfoldable pub set_conn_close : RoVec → Response → Response
set_conn_close connection r =
    if is_zero (vcasecmp_fast connection (vec (codes "Close")))
    then record r { conn_close = 1 }
    else record r { conn_close = 0 }

-- What follows a successful decode.
unfoldable pub fill_response : Vars → Response
fill_response s =
    let r = set_conn_close s.connection (set_content_len s.clen s.r) in
    record r { proto_vers = http_proto_version s.pv }

unfoldable pub finish_resp : ℕ × Vars → ℕ × Response
finish_resp (hlen, s) = if hlen == 0 then (0, s.r) else (hlen, fill_response s)

abbrev pub vars_init : Response → Vars
vars_init r = record { r = r; clen = negsuc 0; pv = null; connection = null }

unfoldable pub http_resp : Response → List ℕ → ℕ × Response
unfolding finish_resp
http_resp r ptr = finish_resp (http_decode_buf resp_table ptr (vars_init r))
