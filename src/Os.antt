-- ===== src/Os.antt =====
-- os.c: reads and writes that go on until all is done.
-- The system's answers are a list, the next one first, and `none` says that there are too few of them.
pub mod Reads
pub mod Writes
use ashttpd.Prelude.{
  ℕ, ◌+◌, ◌-◌, ◌^◌, List, [], ◌∷◌, ◌++◌, Option, none, some, Bool, true, false, ltb, ◌==◌,
  if◌then◌else◌, take, drop, length, ◌>>=◌,
}

-- What `poll` returns: EINTR, another error, or something else.
pub data PollAnswer : Type 0 where
  poll_interrupted poll_failed poll_ready : PollAnswer

-- What a `read`, `pread` or `write` returns: EINTR, EAGAIN and then the answers of the `poll` that
-- waits, another error, or a number of bytes.
pub data Answer : Type 0 where
  interrupted failed : Answer
  would_block : List PollAnswer → Answer
  took : ℕ → Answer

unfoldable pub fd_wait_single : List PollAnswer → Option Bool
fd_wait_single [] = none
fd_wait_single (poll_interrupted ∷ ps) = fd_wait_single ps
fd_wait_single (poll_failed ∷ ps) = some false
fd_wait_single (poll_ready ∷ ps) = some true

abbrev pub ssize_max : ℕ
ssize_max = 2 ^ 63 - 1

-- How much one call asks for.
abbrev pub asked : ℕ → ℕ
asked len = if ltb len ssize_max then len else ssize_max

-- What a read function leaves: its result, the bytes it stored, and the flag at `eof`.
pub record Read : Type 0 where
  pub ok : Bool
  pub stored : List ℕ
  pub eof : Bool

-- The bytes of a call in front of those of the calls that follow.
abbrev pub after_bytes : List ℕ → Read → Read
after_bytes xs r = record r { stored = xs ++ r.stored }

-- `fd_pread`, from an offset of a file; `eof` is the flag that it finds. `fd_read` is the same loop for
-- `read`, where the offset is the one that the system keeps.
unfoldable pub fd_pread : (file : List ℕ) → List Answer → (off len : ℕ) (eof : Bool) → Option Read
unfolding fd_wait_single
fd_pread file [] off len eof = none
fd_pread file (interrupted ∷ ans) off len eof = fd_pread file ans off len eof
fd_pread file (failed ∷ ans) off len eof = some (record { ok = false; stored = []; eof = eof })
fd_pread file (would_block ps ∷ ans) off len eof =
    let again = fd_pread file ans off len eof in
    do
      ready ← fd_wait_single ps
      if ready then again else some (record { ok = false; stored = []; eof = eof })
fd_pread file (took n ∷ ans) off len eof =
    let xs = take n (drop off file) in
    let rest = fd_pread file ans (off + n) (len - n) eof in
    if n == 0
    then some (record { ok = true; stored = []; eof = true })
    else if ltb n len
    then (do r ← rest; some (after_bytes xs r))
    else some (record { ok = true; stored = xs; eof = eof })

unfoldable pub fd_read : (file : List ℕ) → List Answer → (off len : ℕ) → Option Read
unfolding fd_pread
fd_read file ans off len = fd_pread file ans off len false

-- `fd_write`: its result and the bytes that were written.
unfoldable pub fd_write : List Answer → List ℕ → Option (Bool × List ℕ)
unfolding fd_wait_single
fd_write [] buf = none
fd_write (interrupted ∷ ans) buf = fd_write ans buf
fd_write (failed ∷ ans) buf = some (false, [])
fd_write (would_block ps ∷ ans) buf =
    let again = fd_write ans buf in
    do ready ← fd_wait_single ps; if ready then again else some (false, [])
fd_write (took n ∷ ans) buf =
    let rest = fd_write ans (drop n buf) in
    if ltb n (length buf)
    then (do r ← rest; some (r.0, take n buf ++ r.1))
    else some (true, take n buf)
