-- ===== src/HttpBuf.antt =====
-- http_buf.c and include/ashttpd-buf.h: the buffers of a connection.
-- Pointers are offsets from `b_base`; `mem` is the memory from there to `b_end`. `none` is a failed
-- assertion. The pools behind the allocation functions are hgang's, whose result is a parameter.
pub mod Queue
use ashttpd.Prelude.{
  ℕ, ◌+◌, ◌-◌, List, [], ◌∷◌, ◌++◌, Option, none, some, Bool, true, false, leb, ltb, ◌==◌,
  if◌then◌else◌, length, take, drop,
}

abbrev pub http_max_req : ℕ
http_max_req = 2048

abbrev pub http_max_resp : ℕ
http_max_resp = 1024

abbrev pub http_data_buffer : ℕ
http_data_buffer = 4096

-- The object sizes that the constructor gives the pools `h_req`, `h_res` and `h_dat`.
abbrev pub req_pool_size : ℕ
req_pool_size = http_max_resp

abbrev pub res_pool_size : ℕ
res_pool_size = http_max_req

abbrev pub dat_pool_size : ℕ
dat_pool_size = http_data_buffer

pub record HttpBuf : Type 0 where
  pub mem : List ℕ
  pub b_read : ℕ
  pub b_write : ℕ

abbrev pub b_end : HttpBuf → ℕ
b_end b = length b.mem

-- `do_alloc` from a pool: the descriptor and the object, each of which may be refused. A new
-- object's bytes are whatever memory holds.
unfoldable pub do_alloc : (descriptor : Bool) (object : Option (List ℕ)) → Option HttpBuf
do_alloc false object = none
do_alloc true none = none
do_alloc true (some mem) = some (record { mem = mem; b_read = 0; b_write = 0 })

-- The bytes from `b_read` on, with their number.
unfoldable pub buf_read : HttpBuf → Option (List ℕ × ℕ)
buf_read b =
    if leb b.b_read b.b_write
    then some (take (b.b_write - b.b_read) (drop b.b_read b.mem), b.b_write - b.b_read)
    else none

-- The space behind `b_write`; the pointer is NULL if there is none.
unfoldable pub buf_write : HttpBuf → Option (Bool × ℕ)
buf_write b =
    if leb b.b_write (b_end b) then some (ltb b.b_write (b_end b), b_end b - b.b_write) else none

unfoldable pub buf_done_read : HttpBuf → ℕ → Option (HttpBuf × ℕ)
buf_done_read b sz =
    if leb (b.b_read + sz) b.b_write
    then (if leb (b.b_read + sz) (b_end b)
        then some (record b { b_read = b.b_read + sz }, b.b_write - (b.b_read + sz))
        else none)
    else none

unfoldable pub buf_done_write : HttpBuf → ℕ → Option (HttpBuf × ℕ)
buf_done_write b sz =
    if leb (b.b_write + sz) (b_end b)
    then some (record b { b_write = b.b_write + sz }, b_end b - (b.b_write + sz))
    else none

-- `memmove(dst, src, n)` inside one memory, by offsets.
unfoldable pub memmove : List ℕ → (dst src n : ℕ) → List ℕ
memmove mem dst src n = take dst mem ++ (take n (drop src mem) ++ drop (dst + n) mem)

unfoldable pub buf_reset : HttpBuf → Option HttpBuf
unfolding memmove
buf_reset b =
    if leb b.b_read b.b_write
    then (if leb b.b_read (b_end b)
        then (if b.b_read == b.b_write
            then some (record b { b_read = 0; b_write = 0 })
            else some (record {
              mem = memmove b.mem 0 b.b_read (b.b_write - b.b_read);
              b_read = 0;
              b_write = 0 + (b.b_write - b.b_read);
            }))
        else none)
    else none

-- What a writer does to the memory at `b_write` before it calls `buf_done_write`.
unfoldable pub store : HttpBuf → List ℕ → HttpBuf
store b xs = record b { mem = take b.b_write b.mem ++ (xs ++ drop (b.b_write + length xs) b.mem) }
