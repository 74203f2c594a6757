-- ===== src/Nbio/Steps.antt =====
-- The operations of nbio.c keep its lists in order, whatever the order in which they are called.
use mathlib.Core.Path.{subst}
use ashttpd.Prelude.{
  ℕ, ◌≡◌, refl, sym, ap, ◌∙◌, some, true, false, ◌==◌, Bool-cases, ==→eq, inl, inr, arith,
}
use ashttpd.Nbio.{
  Flags, no_flags, flags_and, flags_not, flags_any, waits, nbio_deleted, is_deleted, mask_wait,
  Nbio, plugin_active, plugin_inactive, IoThread, Place, on_inactive, on_active, on_deleted, set_io,
  loop_call, list_move_tail, nbio_del, nbio_inactive, do_set_wait, nbio_wait_on, pump_error,
}
use ashttpd.Nbio.Lists.{
  count, IsAt, IsPlaced, IsLoop, Fits, set_io-IsLoopBut, list_move_tail-IsLoop,
}

set_io_same : (n : ℕ) (io : Nbio) (t : IoThread) → (set_io n io t).ios n ≡ io
set_io_same n io t = ground arith

pub nbio_del-IsLoop : (n : ℕ) (t : IoThread) → IsLoop t → IsLoop (nbio_del n t)
unfolding nbio_del
nbio_del-IsLoop n t v =
    let gone : Nbio = record { mask = nbio_deleted; flags = no_flags } in
    let t1 = set_io n gone (loop_call (plugin_active n) t) in
    list_move_tail-IsLoop n on_deleted t1
      (set_io-IsLoopBut n gone (loop_call (plugin_active n) t) v) (ground arith)

pub do_set_wait-IsLoop :
    (n : ℕ) (wait : Flags) (q : Place) (t : IoThread)
    → ((io : Nbio) → is_deleted io.mask ≡ false → Fits q io)
    → is_deleted (t.ios n).mask ≡ false
    → IsLoop t
    → (t' : IoThread) × (do_set_wait n wait q t ≡ some t') × IsLoop t'
unfolding do_set_wait
do_set_wait-IsLoop n wait q t may alive v =
    let io : Nbio = record { mask = waits wait; flags = wait } in
    let t1 = set_io n io t in
    let same = set_io_same n io t in
    let others = set_io-IsLoopBut n io t v in
    elim (Bool-cases (flags_any wait)) [
      | inl some_wait ↦
          let wanted : flags_any (flags_and wait wait) ≡ true = twice wait ∙ some_wait in
          (
            list_move_tail n on_active (loop_call (plugin_active n) t1),
            rw (alive, some_wait) refl,
            list_move_tail-IsLoop n on_active (loop_call (plugin_active n) t1) others
                (rw same (refl, wanted)),
          )
      | inr no_wait ↦ (
        list_move_tail n q (loop_call (plugin_active n) t1),
        rw (alive, no_wait) refl,
        list_move_tail-IsLoop n q (loop_call (plugin_active n) t1) others (rw same (may io refl)),
      )
    ]
  where
    twice : (f : Flags) → flags_any (flags_and f f) ≡ flags_any f
    twice f = ground arith

pub nbio_inactive-IsLoop :
    (n : ℕ) (mask : Flags) (t : IoThread)
    → is_deleted (t.ios n).mask ≡ false
    → IsLoop t
    → IsLoop (nbio_inactive n mask t)
unfolding nbio_inactive
nbio_inactive-IsLoop n mask t alive v =
    let io = t.ios n in
    let flags = flags_and io.flags (flags_not mask) in
    let io' : Nbio = record io { flags = flags } in
    let t1 = set_io n io' t in
    let same = set_io_same n io' t in
    let others = set_io-IsLoopBut n io' t v in
    elim (Bool-cases (flags_any (flags_and (mask_wait io.mask) flags))) [
      | inl some_left ↦
          let e : nbio_inactive n mask t ≡ t1 = rw (nbio_inactive, some_left) refl in
          let at : IsPlaced t1 n =
            subst
              (IsAt (count n t.active) (count n t.inactive) (count n t.waitq) (count n t.deleted))
              (sym same)
              (record { once = (v n).once; alive = (v n).alive; busy = inr some_left }) in
          subst IsLoop (sym e) (λ k. elim (Bool-cases (k == n)) [
            | inl y ↦ subst (IsPlaced t1) (sym (==→eq k n y)) at
            | inr other ↦ others k other
          ])
      | inr none_left ↦
          let t2 = loop_call (plugin_inactive n) (list_move_tail n on_inactive t1) in
          let e : nbio_inactive n mask t ≡ t2 = rw (nbio_inactive, none_left) refl in
          let moved =
            list_move_tail-IsLoop n on_inactive t1 others
              (ap (λ x. is_deleted x.mask) same ∙ alive) in
          subst IsLoop (sym e) moved
    ]

pub nbio_wait_on-IsLoop :
    (n : ℕ) (wait : Flags) (t : IoThread)
    → is_deleted (t.ios n).mask ≡ false
    → IsLoop t
    → (t' : IoThread) × (nbio_wait_on n wait t ≡ some t') × IsLoop t'
unfolding nbio_wait_on
nbio_wait_on-IsLoop n wait t alive v =
    let io : Nbio = record { mask = waits wait; flags = wait } in
    let t1 = set_io n io t in
    (
      loop_call (plugin_inactive n) (list_move_tail n on_inactive t1),
      rw alive refl,
      list_move_tail-IsLoop n on_inactive t1 (set_io-IsLoopBut n io t v)
          (ap (λ x. is_deleted x.mask) (set_io_same n io t)),
    )

pub pump_error-IsLoop : (n : ℕ) (t : IoThread) → IsLoop t → IsLoop (pump_error n t)
unfolding pump_error
pump_error-IsLoop n t v = elim (Bool-cases (t.ios n).flags.err) [
  | inl y ↦
      let gone : Nbio = record { mask = nbio_deleted; flags = no_flags } in
      let t1 = set_io n gone t in
      let e : pump_error n t ≡ list_move_tail n on_deleted t1 = rw (pump_error, y) refl in
      subst IsLoop (sym e) (
        list_move_tail-IsLoop n on_deleted t1 (set_io-IsLoopBut n gone t v)
          (ap (λ x. is_deleted x.mask) (set_io_same n gone t)))
  | inr y ↦ let e : pump_error n t ≡ t = rw (pump_error, y) refl in subst IsLoop (sym e) v
]
