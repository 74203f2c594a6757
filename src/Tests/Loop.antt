-- ===== src/Tests/Loop.antt =====
-- nbio.c at a concrete event loop.
use ashttpd.Prelude.{◌+◌, ◌≡◌, refl, [], some, true, false, arith}
use ashttpd.Prelude.{inl, inr}
use ashttpd.Nbio.{
  Flags, no_flags, waits, IoThread, nbio_add, nbio_del, reap, list_move_tail, on_active, loop_call,
  plugin_active, set_io,
}
use ashttpd.Nbio.Lists.{count, IsLoop}
use ashttpd.Nbio.Reach.{here, after, adds, deletes, reaps, dtors, Reach-IsLoop, reap-once}

abbrev empty : IoThread
empty = record {
  inactive = [];
  active = [];
  deleted = [];
  waitq = [];
  ios = λ k. record { mask = waits no_flags; flags = no_flags };
  calls = [];
}

empty-IsLoop : IsLoop empty
empty-IsLoop n = record { once = omega arith; alive = inr (refl, refl); busy = inl refl }

abbrev reading : Flags
reading = record { rd = true; wr = false; err = false }

-- I/O number 5, which waits for bytes to read.
abbrev added : IoThread
added = list_move_tail 5 on_active (
    loop_call (plugin_active 5) (set_io 5 (record { mask = waits reading; flags = reading }) empty))

added_run : nbio_add 5 reading empty ≡ some added
unfolding nbio_add
added_run = refl

Reach-IsLoop_example : IsLoop (reap (nbio_del 5 added).deleted (nbio_del 5 added))
Reach-IsLoop_example =
    Reach-IsLoop empty (reap (nbio_del 5 added).deleted (nbio_del 5 added)) empty-IsLoop
      (after (after (after here (adds 5 reading added_run)) (deletes 5)) reaps)

reap-once_example :
    (count 5 (reap (nbio_del 5 added).deleted (nbio_del 5 added)).deleted ≡ 0)
    × (dtors 5 (reap (nbio_del 5 added).deleted (nbio_del 5 added)).calls
        ≡ dtors 5 (nbio_del 5 added).calls + count 5 (nbio_del 5 added).deleted)
reap-once_example = reap-once (nbio_del 5 added) 5
