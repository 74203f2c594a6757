-- ===== src/HttpConn/Texts.antt =====
-- http_conn.c: the fixed responses.
use Prim.Native.String.{String}
use ashttpd.Prelude.{ℕ, List, ◌∷◌, ◌++◌, codes}

-- A line of a head and what follows it.
abbrev line : String → List ℕ → List ℕ
line s rest = codes s ++ 13 ∷ 10 ∷ rest

abbrev pub resp400 : List ℕ
resp400 = line "HTTP/1.1 400 Bad Request" (
    line "Content-Type: text/html" (
      line "Content-Length: 82" (
        line "Connection: Close" (
          line "" (
            codes "<html><head><title>Fuck Off</title></head>"
            ++ codes "<body><h1>Bad Request</h1></body></html>")))))

abbrev pub resp500 : List ℕ
resp500 = line "HTTP/1.1 500 Internal Server Error" (
    line "Content-Type: text/html" (
      line "Content-Length: 79" (
        line "Connection: Close" (
          line "" (
            codes "<html><head><title>Fail Whale</title></head>"
            ++ codes "<body><h1>Sorry!</h1></body></html>")))))

abbrev pub resp403 : List ℕ
resp403 = line "HTTP/1.1 403 Forbidden" (
    line "Content-Type: text/html" (
      line "Content-Length: 84" (
        line "" (
          codes "<html><head><title>Fobidden</title></head>"
          ++ codes "<body><h1>Access denied</h1></body></html>"))))

abbrev pub resp404 : List ℕ
resp404 = line "HTTP/1.1 404 Object Not Found" (
    line "Content-Type: text/html" (
      line "Content-Length: 83" (
        line "" (
          codes "<html><head><title>Fuck Off</title></head>"
          ++ codes "<body><h1>y u no find?</h1></body></html>"))))

abbrev pub resp501 : List ℕ
resp501 = line "HTTP/1.1 501 Method Not Implemented" (
    line "Content-Type: text/html" (
      line "Content-Length: 87" (
        line "" (
          codes "<html><head><title>Fuck...</title></head>"
          ++ codes "<body><h1>y u no implement?</h1></body></html>"))))

-- `resp301` without its values: the text before them, which `%.*s%.*s` follows, and the text behind.
abbrev pub resp301_front : List ℕ
resp301_front =
    line "HTTP/1.1 301 Moved Permanently"
      (line "Content-Type: text/html" (line "Content-Length: 87" (codes "Location: http://")))

abbrev pub resp301_back : List ℕ
resp301_back = line "" (
    line "" (
      codes "<html><head><title>Object Moved</title></head>"
      ++ codes "<body><h1>Object Moved</h1></body></html>"))

abbrev pub resp301 : List ℕ
resp301 = resp301_front ++ (codes "%.*s%.*s" ++ resp301_back)
