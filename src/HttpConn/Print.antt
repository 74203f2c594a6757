-- ===== src/HttpConn/Print.antt =====
-- http_conn.c: the writers of the parts of a response, `resp_begin` to `resp_http_code`.
use ashttpd.Prelude.{
  ℕ, zero, suc, ◌+◌, ◌-◌, ◌*◌, ◌/◌, ◌%◌, List, [], ◌∷◌, ◌++◌, Option, none, some, ltb, leb,
  if◌then◌else◌, length, get_elem?, codes, ◌>>=◌, ◌>>◌, assert,
}
use ashttpd.HttpConn.Reply.{snprintf_bytes}

-- The digits of `print_etag`.
abbrev pub hex : List ℕ
hex = codes "01234567890abcdef"

-- An index outside of the digits is an access outside of the array; a byte's half is inside.
unfoldable pub hex_at : ℕ → Option ℕ
hex_at i = get_elem? hex i

unfoldable pub print_etag : List ℕ → Option (List ℕ)
print_etag [] = some []
print_etag (c ∷ cs) = do
  hi ← hex_at (c / 16)
  lo ← hex_at (c % 16)
  rest ← print_etag cs
  some (hi ∷ lo ∷ rest)

-- The decimal digits of a number, in front of `acc`, at most as many as the fuel.
unfoldable pub digits : ℕ → ℕ → List ℕ → List ℕ
digits zero n acc = acc
digits (suc k) n acc =
    let rest = digits k (n / 10) ((48 + n % 10) ∷ acc) in if ltb n 10 then (48 + n) ∷ acc else rest

-- "%u" for a number of 64 bits.
abbrev pub print_u64 : ℕ → List ℕ
print_u64 n = digits 20 n []

-- "%02d" for a number that is not negative.
unfoldable pub print_02d : ℕ → List ℕ
print_02d n = if ltb n 10 then 48 ∷ (48 + n) ∷ [] else print_u64 n

-- "%4d" for a number that is not negative.
unfoldable pub print_4d : ℕ → List ℕ
print_4d n =
    let ds = print_u64 n in
    if ltb n 10
    then 32 ∷ 32 ∷ 32 ∷ ds
    else if ltb n 100
    then 32 ∷ 32 ∷ ds
    else if ltb n 1000
    then 32 ∷ ds
    else ds

-- The fields of `struct tm` that are printed.
pub record Tm : Type 0 where
  pub tm_wday : ℕ
  pub tm_mday : ℕ
  pub tm_mon : ℕ
  pub tm_year : ℕ
  pub tm_hour : ℕ
  pub tm_min : ℕ
  pub tm_sec : ℕ

abbrev pub dayofweek : List (List ℕ)
dayofweek =
    codes "Sun"
    ∷ codes "Mon"
    ∷ codes "Tue"
    ∷ codes "Wed"
    ∷ codes "Thu"
    ∷ codes "Fri"
    ∷ codes "Sat"
    ∷ []

abbrev pub monthofyear : List (List ℕ)
monthofyear =
    codes "Jan"
    ∷ codes "Feb"
    ∷ codes "Mar"
    ∷ codes "Apr"
    ∷ codes "May"
    ∷ codes "Jun"
    ∷ codes "Jul"
    ∷ codes "Aug"
    ∷ codes "Sep"
    ∷ codes "Oct"
    ∷ codes "Nov"
    ∷ codes "Dec"
    ∷ []

-- `monthofyear[tm_mon - 1]`
unfoldable pub month_name : ℕ → Option (List ℕ)
month_name zero = none
month_name (suc m) = get_elem? monthofyear m

abbrev pub http_time_buf : ℕ
http_time_buf = 44

unfoldable pub print_time : Tm → Option (List ℕ)
unfolding month_name
print_time tm = do
  day ← get_elem? dayofweek tm.tm_wday
  month ← month_name tm.tm_mon
  some (
      day
      ++ (codes ", "
          ++ (print_02d tm.tm_mday
              ++ (32
                  ∷ (month
                      ++ (32
                          ∷ (print_4d (tm.tm_year + 1900)
                              ++ (32
                                  ∷ (print_02d tm.tm_hour
                                      ++ (58
                                          ∷ (print_02d tm.tm_min
                                              ++ (58
                                                  ∷ (print_02d tm.tm_sec
                                                      ++ codes " GMT")))))))))))))

-- `struct resp`: the bytes from `r_ptr - r_len` to `r_ptr`, and the space up to `r_end`.
pub record Resp : Type 0 where
  pub out : List ℕ
  pub room : ℕ

abbrev pub push : List ℕ → Resp → Resp
push s r = record { out = r.out ++ s; room = r.room - length s }

unfoldable pub resp_string : List ℕ → Resp → Option Resp
resp_string s r = assert (leb (length s) r.room) >> some (push s r)

-- A number that fills the space to the last byte loses its last digit to the NUL.
unfoldable pub resp_u64 : ℕ → Resp → Option Resp
resp_u64 u r =
    assert (leb (length (print_u64 u)) r.room)
    >> some (push (snprintf_bytes r.room (print_u64 u)) r)

unfoldable pub resp_etag : List ℕ → Resp → Option Resp
resp_etag etag r = do assert (leb (20 * 2 + 1) r.room); s ← print_etag etag; some (push s r)

-- The text is shorter than the buffer of `http_time_buf` bytes for all years of four digits.
unfoldable pub resp_time : Tm → Resp → Option Resp
resp_time tm r = do
  assert (leb http_time_buf r.room)
  s ← print_time tm
  some (push (snprintf_bytes (http_time_buf + 1) s) r)

unfoldable pub resp_http_code : ℕ → Resp → Option Resp
resp_http_code code r =
    assert (leb 3 r.room)
    >> some (push ((48 + code / 100 % 10) ∷ (48 + code / 10 % 10) ∷ (48 + code % 10) ∷ []) r)
