-- ===== src/Nbio.antt =====
-- nbio.c and include/nbio.h: the lists of the event loop.
-- An `struct nbio` is known by a number, and `ios` is the memory of them. A wait queue, of which the
-- callers own one, is a list as well. `calls` is the calls of the plugin and of the destructors, the
-- latest first. `none` is a failed assertion.
pub mod Lists
pub mod Reach
pub mod Steps
use ashttpd.Prelude.{
  ℕ, List, [], ◌∷◌, ◌++◌, Option, none, some, Bool, true, false, not, ◌&&◌, ◌||◌, ◌==◌,
  if◌then◌else◌, ◌>>=◌, ◌>>◌, assert,
}

-- NBIO_READ, NBIO_WRITE and NBIO_ERROR, the bits of NBIO_WAIT.
pub record Flags : Type 0 where
  pub rd : Bool
  pub wr : Bool
  pub err : Bool

abbrev pub no_flags : Flags
no_flags = record { rd = false; wr = false; err = false }

abbrev pub flags_and : Flags → Flags → Flags
flags_and a b = record { rd = a.rd && b.rd; wr = a.wr && b.wr; err = a.err && b.err }

abbrev pub flags_not : Flags → Flags
flags_not a = record { rd = not a.rd; wr = not a.wr; err = not a.err }

-- `f != 0`
abbrev pub flags_any : Flags → Bool
flags_any f = f.rd || (f.wr || f.err)

-- `mask`: bits of NBIO_WAIT, or NBIO_DELETED.
pub data Mask : Type 0 where
  waits : Flags → Mask
  nbio_deleted : Mask

abbrev pub is_deleted : Mask → Bool
is_deleted nbio_deleted = true
is_deleted (waits f) = false

-- The bits of the mask among those of NBIO_WAIT.
abbrev pub mask_wait : Mask → Flags
mask_wait nbio_deleted = no_flags
mask_wait (waits f) = f

pub record Nbio : Type 0 where
  pub mask : Mask
  pub flags : Flags

pub data LoopCall : Type 0 where
  plugin_active plugin_inactive dtor : ℕ → LoopCall

pub record IoThread : Type 0 where
  pub inactive : List ℕ
  pub active : List ℕ
  pub deleted : List ℕ
  pub waitq : List ℕ
  pub ios : ℕ → Nbio
  pub calls : List LoopCall

-- The lists that an I/O can be moved to.
pub data Place : Type 0 where
  on_inactive on_active on_deleted on_waitq : Place

abbrev pub without : ℕ → List ℕ → List ℕ
without n [] = []
without n (x ∷ xs) = let rest = without n xs in if x == n then rest else x ∷ rest

-- `list_del`: the entry is taken out of the list that it is on.
unfoldable pub list_del : ℕ → IoThread → IoThread
list_del n t = record t {
  inactive = without n t.inactive;
  active = without n t.active;
  deleted = without n t.deleted;
  waitq = without n t.waitq;
}

unfoldable pub add_tail : ℕ → Place → IoThread → IoThread
add_tail n on_inactive t = record t { inactive = t.inactive ++ n ∷ [] }
add_tail n on_active t = record t { active = t.active ++ n ∷ [] }
add_tail n on_deleted t = record t { deleted = t.deleted ++ n ∷ [] }
add_tail n on_waitq t = record t { waitq = t.waitq ++ n ∷ [] }

unfoldable pub list_move_tail : ℕ → Place → IoThread → IoThread
unfolding list_del add_tail
list_move_tail n q t = add_tail n q (list_del n t)

abbrev pub set_io : ℕ → Nbio → IoThread → IoThread
set_io n io t = record t { ios = λ k. if k == n then io else t.ios k }

abbrev pub loop_call : LoopCall → IoThread → IoThread
loop_call c t = record t { calls = c ∷ t.calls }

unfoldable pub nbio_del : ℕ → IoThread → IoThread
unfolding list_move_tail
nbio_del n t =
    list_move_tail n on_deleted
      (set_io n (record { mask = nbio_deleted; flags = no_flags }) (loop_call (plugin_active n) t))

unfoldable pub nbio_inactive : ℕ → Flags → IoThread → IoThread
unfolding list_move_tail
nbio_inactive n mask t =
    let io = t.ios n in
    let flags = flags_and io.flags (flags_not mask) in
    let t1 = set_io n (record io { flags = flags }) t in
    if flags_any (flags_and (mask_wait io.mask) flags)
    then t1
    else loop_call (plugin_inactive n) (list_move_tail n on_inactive t1)

-- `q` is the wait queue if it is given, and the inactive list if it is NULL.
unfoldable pub do_set_wait : ℕ → Flags → (q : Place) → IoThread → Option IoThread
unfolding list_move_tail
do_set_wait n wait q t =
    let t1 =
      loop_call (plugin_active n) (set_io n (record { mask = waits wait; flags = wait }) t) in
    assert (not (is_deleted (t.ios n).mask))
    >> some (list_move_tail n (if flags_any wait then on_active else q) t1)

unfoldable pub nbio_set_wait : ℕ → Flags → IoThread → Option IoThread
unfolding do_set_wait
nbio_set_wait n wait t = do_set_wait n wait on_inactive t

unfoldable pub nbio_to_waitq : ℕ → IoThread → Option IoThread
unfolding do_set_wait
nbio_to_waitq n t = do_set_wait n no_flags on_waitq t

unfoldable pub nbio_wake : ℕ → Flags → IoThread → Option IoThread
unfolding do_set_wait
nbio_wake n wait t = do_set_wait n wait on_inactive t

unfoldable pub nbio_wait_on : ℕ → Flags → IoThread → Option IoThread
unfolding list_move_tail
nbio_wait_on n wait t =
    let t1 = set_io n (record { mask = waits wait; flags = wait }) t in
    assert (not (is_deleted (t.ios n).mask))
    >> some (loop_call (plugin_inactive n) (list_move_tail n on_inactive t1))

unfoldable pub nbio_get_wait : ℕ → IoThread → Flags
nbio_get_wait n t = mask_wait (t.ios n).mask

abbrev pub on_list : ℕ → List ℕ → Bool
on_list n [] = false
on_list n (x ∷ xs) = (x == n) || on_list n xs

-- `INIT_LIST_HEAD` forgets the list that an entry is on, whose neighbours would go on pointing to it: the
-- lists of a loop that adds an I/O that is on one of them are broken, and that is `none` as well.
unfoldable pub is_listed : ℕ → IoThread → Bool
is_listed n t =
    on_list n t.inactive || (on_list n t.active || (on_list n t.deleted || on_list n t.waitq))

unfoldable pub nbio_add : ℕ → Flags → IoThread → Option IoThread
unfolding do_set_wait is_listed
nbio_add n wait t = assert (not (is_listed n t)) >> do_set_wait n wait on_inactive t

-- The end of a round for one I/O of `nbio_pump`: an error deletes it.
unfoldable pub pump_error : ℕ → IoThread → IoThread
unfolding list_move_tail
pump_error n t =
    if (t.ios n).flags.err
    then list_move_tail n on_deleted (set_io n (record { mask = nbio_deleted; flags = no_flags }) t)
    else t

-- The rest of a round, for one that is not deleted.
unfoldable pub pump_round :
    (write read : ℕ → IoThread → Option IoThread) → ℕ → IoThread → Option (IoThread × Bool)
unfolding pump_error
pump_round write read n t = do
  t1 ← let io = t.ios n in if (io.flags.wr && (mask_wait io.mask).wr) then write n t else some t
  t2 ← let io = t1.ios n in if (io.flags.rd && (mask_wait io.mask).rd) then read n t1 else some t1
  some (pump_error n t2, true)

-- A round for one I/O, where `write` and `read` are its operations. The result says whether the walk over
-- the active list goes on: a deleted one ends it.
unfoldable pub pump_io :
    (write read : ℕ → IoThread → Option IoThread) → ℕ → IoThread → Option (IoThread × Bool)
unfolding pump_round
pump_io write read n t =
    if is_deleted (t.ios n).mask then some (t, false) else pump_round write read n t

-- The destructors of the deleted ones, at the end of `nbio_pump`.
unfoldable pub reap : List ℕ → IoThread → IoThread
unfolding list_del
reap [] t = t
reap (d ∷ ds) t = reap ds (loop_call (dtor d) (list_del d t))
