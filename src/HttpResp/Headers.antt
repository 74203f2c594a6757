-- ===== src/HttpResp/Headers.antt =====
-- Unlike that of a request, the table of `http_resp` (http_resp.c) is in the order of its search, so
-- every header that it names is found.
use ashttpd.Prelude.{
  ℕ, ◌+◌, ◌≡◌, ◌≢◌, refl, ap, ◌∙◌, List, [], ◌∷◌, true, arith, if◌then◌else◌, length, codes, map,
  ne→==, is_zero,
}
use ashttpd.Vec.{RoVec, vec, to_lower, diff_loop, vcasecmp_fast, vstrcmp_fast}
use ashttpd.Vec.Compare.{vcasecmp_fast-zero}
use ashttpd.HttpParse.{call, htype_string, htype_code, dispatch_hdr}
use ashttpd.HttpParse.Dispatch.{IsSorted, find_hdr, dispatch_hdr-find}
use ashttpd.HttpParse.Print.{IsWord, IsText, IsHeader, print_head, dispatch_all}
use ashttpd.HttpParse.Decode.{headers_len, http_decode_buf-print}
use ashttpd.HttpResp.{
  Response, Vars, resp_table, set_conn_close, fill_response, finish_resp, vars_init, http_resp,
}

pub resp_table-IsSorted : IsSorted resp_table.hdrs
unfolding vstrcmp_fast vcasecmp_fast diff_loop
resp_table-IsSorted = (
  (refl, (refl, (refl, (refl, tt)))),
  ((refl, (refl, (refl, tt))), ((refl, (refl, tt)), ((refl, tt), (tt, tt)))),
)

-- A header of a response is handed to the entry that a linear search of the table finds.
resp_dispatch :
    (k v : RoVec) (s : Vars)
    → dispatch_hdr resp_table.hdrs k v s ≡ call (find_hdr k resp_table.hdrs) v s
resp_dispatch k v s = dispatch_hdr-find resp_table.hdrs k v s resp_table-IsSorted

same_name→zero :
    (k l : List ℕ) → map to_lower k ≡ map to_lower l → is_zero (vstrcmp_fast (vec k) l) ≡ true
unfolding vstrcmp_fast
same_name→zero k l h = rw ((vcasecmp_fast-zero (vec k) (vec l)).1 h)

connection_found :
    (k v : List ℕ) (s : Vars)
    → map to_lower k ≡ map to_lower (codes "Connection")
    → dispatch_hdr resp_table.hdrs (vec k) (vec v) s ≡ record s { connection = vec v }
connection_found k v s h =
    resp_dispatch (vec k) (vec v) s
    ∙ (unfold find_hdr call htype_string in rw (same_name→zero k (codes "Connection") h))

-- The result of the comparison with "Close".
abbrev pub close_flag : List ℕ → ℕ
close_flag v = if is_zero (vcasecmp_fast (vec v) (vec (codes "Close"))) then 1 else 0

fill-close :
    (s : Vars) (v : List ℕ) → s.connection ≡ vec v → (fill_response s).conn_close ≡ close_flag v
unfolding fill_response set_conn_close
fill-close s v h = ground arith

finish_resp-ne : (n : ℕ) (s : Vars) → n ≢ 0 → finish_resp (n, s) ≡ (n, fill_response s)
unfolding finish_resp
finish_resp-ne n s h = rw (ne→== n 0 h)

-- The variables behind the decoder, for a head with one header.
abbrev decoded : (r : Response) (proto code msg k v : List ℕ) → Vars
decoded r proto code msg k v = resp_table.third.fn (vec msg) (
    resp_table.second.fn (vec code) (
      resp_table.first.fn (vec proto) (dispatch_hdr resp_table.hdrs (vec k) (vec v) (vars_init r))))

htype_code-connection :
    (code : RoVec) (s : Vars) → (resp_table.second.fn code s).connection ≡ s.connection
unfolding htype_code
htype_code-connection code s = ground arith

decoded-connection :
    (r : Response) (proto code msg k v : List ℕ)
    → map to_lower k ≡ map to_lower (codes "Connection")
    → (decoded r proto code msg k v).connection ≡ vec v
unfolding htype_string
decoded-connection r proto code msg k v h =
    htype_code-connection (vec code)
      (resp_table.first.fn (vec proto) (dispatch_hdr resp_table.hdrs (vec k) (vec v) (vars_init r)))
    ∙ ap (λ s. s.connection) (connection_found k v (vars_init r) h)

-- A response whose one header is named "Connection", in any case of letters, closes the connection
-- exactly when the header's value is "Close", in any case.
pub http_resp-connection :
    (r : Response) (proto code msg k v rest : List ℕ)
    → IsWord proto
    → IsWord code
    → IsText msg
    → IsHeader (k, v)
    → map to_lower k ≡ map to_lower (codes "Connection")
    → (http_resp r (print_head proto code msg ((k, v) ∷ []) rest)).1.conn_close ≡ close_flag v
unfolding http_resp dispatch_all
http_resp-connection r proto code msg k v rest hp hc hm hh name =
    rw
      (
        http_decode_buf-print resp_table proto code msg ((k, v) ∷ []) rest (vars_init r) hp hc hm
            (hh, tt),
        finish_resp-ne
            (length proto
              + 1
              + (length code + 1)
              + (length msg + 2)
              + headers_len ((k, v) ∷ [])
              + 2)
            (decoded r proto code msg k v) (omega arith),
      )
      (fill-close (decoded r proto code msg k v) v (decoded-connection r proto code msg k v name))
