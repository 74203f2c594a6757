-- ===== src/Tests/Conn.antt =====
-- http_conn.c at concrete connections.
use ashttpd.Prelude.{
  ℕ, zero, suc, ◌≡◌, refl, List, [], ◌∷◌, none, some, Bool, true, false, arith, drop,
}
use ashttpd.HttpBuf.{HttpBuf}
use ashttpd.HttpBuf.Queue.{IsBuf, contents}
use ashttpd.Incremental.{initial}
use ashttpd.HttpConn.{conn_request, conn_header, conn_data, Conn, World}
use ashttpd.HttpConn.Header.{sent, http_write_hdr, http_write}
use ashttpd.HttpConn.Life.{IsConn}
use ashttpd.HttpConn.Transfer.{Sends, http_write_hdr-Sends, http_write-IsConn}
use ashttpd.HttpConn.Texts.{resp400, resp403, resp404, resp500, resp501}
use ashttpd.HttpConn.Reply.{response_400, response_403, response_404, response_500, response_501}
use ashttpd.HttpConn.Serve.{request_done}
use ashttpd.HttpConn.Answers.{KeepsRest, Replies, error_responses, request_done-left}
use ashttpd.HttpConn.Print.{print_etag}
use ashttpd.HttpConn.Numbers.{print_etag-Alike}

-- Three bytes of a header that are to be sent.
abbrev three : HttpBuf
three = record { mem = 1 ∷ 2 ∷ 3 ∷ []; b_read = 0; b_write = 3 }

three-IsBuf : IsBuf three
three-IsBuf = record { ordered = omega arith; inside = omega arith }

abbrev pub idle : Conn
idle = record {
  h_open = true;
  h_state = conn_request;
  h_rstate = initial;
  h_io_state = 0;
  h_webroot = none;
  h_rptr = 0;
  h_req = none;
  h_res = none;
  h_io_priv = none;
  h_data_off = 0;
  h_data_len = 0;
  h_conn_close = 0;
}

abbrev pub world : Conn → World
world h = record { h = h; concurrency = 2; oom_waiting = true; reqs = 0; calls = [] }

abbrev answering : World
answering = world (record idle { h_state = conn_header; h_res = some three; h_data_len = 5 })

abbrev sending : World
sending = world (record idle { h_state = conn_data; h_conn_close = 1 })

http_write_hdr-Sends_example :
    (r : World × Bool) × (http_write_hdr (sent 2) answering ≡ some r) × Sends answering r
http_write_hdr-Sends_example =
    http_write_hdr-Sends (sent 2) three answering ((refl, omega arith), three-IsBuf) refl refl
      (omega arith)

http_write-IsConn_example :
    (w' : World) × (http_write (λ w. some (w, false)) (sent 0) sending ≡ some w') × IsConn w'
http_write-IsConn_example =
    http_write-IsConn (λ w. some (w, false)) (sent 0) sending ((refl, omega arith), refl) refl
      (λ b e. omega arith) (λ e. ((sending, false), refl, (refl, ((refl, omega arith), λ r. refl))))

abbrev pub zeros : ℕ → List ℕ
zeros zero = []
zeros (suc n) = 0 ∷ zeros n

-- An empty buffer for a response.
abbrev blank_buf : HttpBuf
blank_buf = record { mem = zeros 200; b_read = 0; b_write = 0 }

blank_buf-IsBuf : IsBuf blank_buf
blank_buf-IsBuf = record { ordered = omega arith; inside = omega arith }

abbrev starting : World
starting = world (record idle { h_state = conn_header; h_res = some blank_buf })

error_responses_example :
    Replies resp400 1 blank_buf starting (response_400 starting)
    × Replies resp500 1 blank_buf starting (response_500 starting)
    × Replies resp501 1 blank_buf starting (response_501 starting)
    × Replies resp403 0 blank_buf starting (response_403 starting)
    × Replies resp404 0 blank_buf starting (response_404 starting)
error_responses_example = error_responses blank_buf starting refl blank_buf-IsBuf (omega arith)

abbrev asked : World
asked = world (record idle { h_req = some three })

request_done-left_example :
    (w' : World) × (request_done 2 asked ≡ some w') × KeepsRest (drop 2 (contents three)) w'
request_done-left_example = request_done-left 2 three asked refl three-IsBuf (omega arith)

print_etag-Alike_example :
    (text : List ℕ) × (print_etag (10 ∷ 15 ∷ []) ≡ some text)
    × (print_etag (0 ∷ 175 ∷ []) ≡ some text)
print_etag-Alike_example =
    print_etag-Alike (10 ∷ 15 ∷ []) (0 ∷ 175 ∷ []) (ground arith) (ground arith) (ground arith)
