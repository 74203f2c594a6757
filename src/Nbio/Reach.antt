-- ===== src/Nbio/Reach.antt =====
-- The states that the operations of nbio.c lead to, in any order.
use mathlib.Core.Path.{subst}
use mathlib.Core.Option.{some_inj}
use ashttpd.Prelude.{
  ℕ, ◌+◌, ◌≤◌, ◌≡◌, ◌≢◌, suc, ==→eq, refl, sym, ◌∙◌, List, [], ◌∷◌, some, true, false, ◌==◌,
  if◌then◌else◌, Bool-cases, ◌⊎◌, inl, inr, arith,
}
use ashttpd.Nbio.{
  Flags, no_flags, is_deleted, dtor, Nbio, Place, IoThread, LoopCall, loop_call, list_del,
  on_inactive, on_waitq, nbio_del, nbio_inactive, do_set_wait, nbio_set_wait, nbio_to_waitq,
  nbio_wake, nbio_wait_on, is_listed, nbio_add, pump_error, reap,
}
use ashttpd.Nbio.Lists.{gone, none_left, Fits, count, count-without, IsAt, IsPlaced, IsLoop}
use ashttpd.Nbio.Steps.{
  nbio_del-IsLoop, do_set_wait-IsLoop, nbio_inactive-IsLoop, nbio_wait_on-IsLoop, pump_error-IsLoop,
}

-- A call of an operation that does not fail. `nbio_inactive` is for an I/O that is not deleted: it does not
-- look at that, and would take a deleted one off its list.
pub data Step (t : IoThread) : IoThread → Type 0 where
  deletes : (n : ℕ) → Step t (nbio_del n t)
  rests :
      (n : ℕ) (mask : Flags) → is_deleted (t.ios n).mask ≡ false → Step t (nbio_inactive n mask t)
  adds : {t' : IoThread} (n : ℕ) (wait : Flags) → nbio_add n wait t ≡ some t' → Step t t'
  waits_for : {t' : IoThread} (n : ℕ) (wait : Flags) → nbio_set_wait n wait t ≡ some t' → Step t t'
  queues : {t' : IoThread} (n : ℕ) → nbio_to_waitq n t ≡ some t' → Step t t'
  wakes : {t' : IoThread} (n : ℕ) (wait : Flags) → nbio_wake n wait t ≡ some t' → Step t t'
  waits_on : {t' : IoThread} (n : ℕ) (wait : Flags) → nbio_wait_on n wait t ≡ some t' → Step t t'
  errs : (n : ℕ) → Step t (pump_error n t)
  reaps : Step t (reap t.deleted t)

pub data Reach (t : IoThread) : IoThread → Type 0 where
  here : Reach t t
  after : {a b : IoThread} → Reach t a → Step a b → Reach t b

list_del-IsLoop : (n : ℕ) (t : IoThread) → IsLoop t → IsLoop (list_del n t)
unfolding list_del
list_del-IsLoop n t v k = elim (Bool-cases (k == n)) [
  | inl y ↦
      let nowhere : IsAt 0 0 0 0 (t.ios n) = record {
        once = omega arith;
        alive = elim ((v n).alive) [
          | inl (dead, _) ↦ inl (dead, omega arith)
          | inr (alive, _) ↦ inr (alive, refl)
        ];
        busy = inl refl;
      } in
      subst (IsPlaced (list_del n t)) (sym (==→eq k n y)) (
        rw
          (none_left n t.active, none_left n t.inactive, none_left n t.waitq, none_left n t.deleted)
          nowhere)
  | inr e ↦
      rw (gone k n t.active e, gone k n t.inactive e, gone k n t.waitq e, gone k n t.deleted e)
        (v k)
]

reap-IsLoop : (ds : List ℕ) (t : IoThread) → IsLoop t → IsLoop (reap ds t)
unfolding reap
reap-IsLoop [] t v = v
reap-IsLoop (d ∷ ds) t v =
    reap-IsLoop ds (loop_call (dtor d) (list_del d t)) (list_del-IsLoop d t v)

-- How often the destructor was called for an I/O.
abbrev pub dtors : ℕ → List LoopCall → ℕ
dtors k [] = 0
dtors k (dtor n ∷ cs) = let rest = dtors k cs in if n == k then suc rest else rest
dtors k (_ ∷ cs) = dtors k cs

reap-count :
    (k : ℕ) (ds : List ℕ) (t : IoThread)
    → (count k (reap ds t).deleted ≤ count k t.deleted)
      × ((count k ds ≡ 0) ⊎ (count k (reap ds t).deleted ≡ 0))
      × (dtors k (reap ds t).calls ≡ dtors k t.calls + count k ds)
unfolding reap list_del
reap-count k [] t = (omega arith, inl refl, omega arith)
reap-count k (d ∷ ds) t =
    let (le, out, ran) = reap-count k ds (loop_call (dtor d) (list_del d t)) in
    let left = count-without k d t.deleted in
    let less : count k (list_del d t).deleted ≤ count k t.deleted = elim (Bool-cases (k == d)) [
      | inl y ↦ ground (arith, left, y)
      | inr n ↦ ground (arith, left, n)
    ] in
    elim (Bool-cases (d == k)) [
      | inl y ↦
          let same : (k == d) ≡ true = ground (arith, y) in
          let nothing : count k (list_del d t).deleted ≡ 0 = ground (arith, left, same) in
          (omega (arith, le, less), inr (omega (arith, le, nothing)), ground (arith, ran, y))
      | inr n ↦ (omega (arith, le, less), rw n out, ground (arith, ran, n))
    ]

-- At the end of `nbio_pump` no I/O is left on the list of the deleted ones, and the destructor has been
-- called once more for each that was there, and for no other.
pub reap-once :
    (t : IoThread) (k : ℕ)
    → (count k (reap t.deleted t).deleted ≡ 0)
      × (dtors k (reap t.deleted t).calls ≡ dtors k t.calls + count k t.deleted)
reap-once t k =
    let (le, out, ran) = reap-count k t.deleted t in
    (elim out [ inl z ↦ omega (arith, le, z) | inr z ↦ z ], ran)

do_set_wait-dead :
    (n : ℕ) (wait : Flags) (q : Place) (t t' : IoThread)
    → is_deleted (t.ios n).mask ≡ true
    → do_set_wait n wait q t ≢ some t'
unfolding do_set_wait
do_set_wait-dead n wait q t t' dead e = ground (arith, dead, e)

nbio_wait_on-dead :
    (n : ℕ) (wait : Flags) (t t' : IoThread)
    → is_deleted (t.ios n).mask ≡ true
    → nbio_wait_on n wait t ≢ some t'
unfolding nbio_wait_on
nbio_wait_on-dead n wait t t' dead e = ground (arith, dead, e)

set_wait-IsLoop :
    (n : ℕ) (wait : Flags) (q : Place) (t t' : IoThread)
    → ((io : Nbio) → is_deleted io.mask ≡ false → Fits q io)
    → do_set_wait n wait q t ≡ some t'
    → IsLoop t
    → IsLoop t'
set_wait-IsLoop n wait q t t' may e v = elim (Bool-cases (is_deleted (t.ios n).mask)) [
  | inl dead ↦ absurd (do_set_wait-dead n wait q t t' dead e)
  | inr alive ↦
      let (t1, e1, v1) = do_set_wait-IsLoop n wait q t may alive v in
      subst IsLoop (some_inj.0 (sym e1 ∙ e)) v1
]

Step-IsLoop : (t t' : IoThread) → Step t t' → IsLoop t → IsLoop t'
unfolding do_set_wait nbio_add nbio_set_wait nbio_to_waitq nbio_wake
Step-IsLoop t t' (deletes n) v = nbio_del-IsLoop n t v
Step-IsLoop t t' (rests n mask alive) v = nbio_inactive-IsLoop n mask t alive v
Step-IsLoop t t' (adds n wait e) v = elim (Bool-cases (is_listed n t)) [
  | inl listed ↦ absurd (ground (arith, listed, e))
  | inr fresh ↦
      let done : do_set_wait n wait on_inactive t ≡ some t' = rw fresh at e in
      set_wait-IsLoop n wait on_inactive t t' (λ io alive. alive) done v
]
Step-IsLoop t t' (waits_for n wait e) v =
    set_wait-IsLoop n wait on_inactive t t' (λ io alive. alive) e v
Step-IsLoop t t' (queues n e) v = set_wait-IsLoop n no_flags on_waitq t t' (λ io alive. alive) e v
Step-IsLoop t t' (wakes n wait e) v =
    set_wait-IsLoop n wait on_inactive t t' (λ io alive. alive) e v
Step-IsLoop t t' (waits_on n wait e) v = elim (Bool-cases (is_deleted (t.ios n).mask)) [
  | inl dead ↦ absurd (nbio_wait_on-dead n wait t t' dead e)
  | inr alive ↦
      let (t1, e1, v1) = nbio_wait_on-IsLoop n wait t alive v in
      subst IsLoop (some_inj.0 (sym e1 ∙ e)) v1
]
Step-IsLoop t t' (errs n) v = pump_error-IsLoop n t v
Step-IsLoop t t' reaps v = reap-IsLoop t.deleted t v

-- After calls in any order that do not fail, of which `nbio_inactive` is never for a deleted I/O and
-- `nbio_add` only for one that is on no list, each I/O stays on one list at most, on that of the deleted ones
-- exactly if its mask says that it is deleted, and on the active list only with something to do.
pub Reach-IsLoop : (t t' : IoThread) → IsLoop t → Reach t t' → IsLoop t'
Reach-IsLoop t t' v here = v
Reach-IsLoop t t' v (after {a} r s) = Step-IsLoop a t' s (Reach-IsLoop t a v r)
