-- ===== src/HttpConn/Life.antt =====
-- The life of a connection of http_conn.c: an invariant of its states, and what the functions that
-- end or go on with a response do to it.
use mathlib.Core.Path.{subst}
use ashttpd.Prelude.{
  ℕ, ◌+◌, ◌-◌, ◌≤◌, ◌<◌, ◌≡◌, ◌≢◌, refl, sym, ◌∙◌, ◌∷◌, Option, none, some, Bool, true, false,
  arith, ◌==◌, if◌then◌else◌, Bool-cases, inl, inr,
}
use ashttpd.HttpBuf.{HttpBuf}
use ashttpd.HttpBuf.Queue.{IsBuf}
use ashttpd.HttpConn.{
  ConnState, conn_request, conn_header, conn_data, conn_dead, World, call, free_req, free_res,
  io_abort, nbio_del, nbio_read, nbio_set_wait, webroot_unref, in_response, http_kill, kill_state,
  leave, http_conn_data_complete, http_conn_data_read,
}

-- A socket is open and counted exactly in the states that are not dead.
abbrev pub IsCounted : ConnState → Bool → ℕ → Type 0
IsCounted conn_dead o n = o ≡ false
IsCounted _ o n = (o ≡ true) × (0 < n)

-- A response buffer is there, and well-formed, exactly while a header is being sent.
abbrev pub HasResponse : ConnState → Option HttpBuf → Type 0
HasResponse conn_request res = res ≡ none
HasResponse conn_header none = ⊥
HasResponse conn_header (some b) = IsBuf b
HasResponse conn_data res = res ≡ none
HasResponse conn_dead res = Unit

abbrev pub IsConn : World → Type 0
IsConn w = IsCounted w.h.h_state w.h.h_open w.concurrency × HasResponse w.h.h_state w.h.h_res

-- A connection without a response may also be killed while its state still says that there is one.
abbrev pub IsKillable : World → Type 0
IsKillable w =
    IsCounted w.h.h_state w.h.h_open w.concurrency × (w.h.h_state ≡ conn_request → w.h.h_res ≡ none)

abbrev IsDead : World → Type 0
IsDead w = (w.h.h_state ≡ conn_dead) × (w.h.h_open ≡ false)

leave-facts :
    (w : World)
    → ((leave w).h.h_open ≡ false)
      × ((leave w).h.h_state ≡ w.h.h_state)
      × ((leave w).h.h_res ≡ w.h.h_res)
      × ((leave w).concurrency ≡ w.concurrency - 1)
unfolding leave
leave-facts w = elim (Bool-cases w.oom_waiting) [
  | inl e ↦ (ground (arith, e), ground (arith, e), ground (arith, e), ground (arith, e))
  | inr e ↦ (ground (arith, e), ground (arith, e), ground (arith, e), ground (arith, e))
]

counted :
    (w : World)
    → IsCounted w.h.h_state w.h.h_open w.concurrency
    → w.h.h_open ≡ true
    → 0 < w.concurrency
counted w v o = go w.h.h_state w.h.h_open v o
  where
    go : (s : ConnState) (b : Bool) → IsCounted s b w.concurrency → b ≡ true → 0 < w.concurrency
    go conn_request b v o = v.1
    go conn_header b v o = v.1
    go conn_data b v o = v.1
    go conn_dead b v o = ground arith

not_dead :
    (w : World)
    → IsCounted w.h.h_state w.h.h_open w.concurrency
    → w.h.h_open ≡ true
    → w.h.h_state ≢ conn_dead
not_dead w v o e = ground (arith, subst (λ s. IsCounted s w.h.h_open w.concurrency) e v)

-- What `kill_state` leaves as it is.
Same : World → World → Type 0
Same w w' = (w'.h.h_open ≡ w.h.h_open) × (w'.concurrency ≡ w.concurrency)

kill_state-some :
    (w : World) (s : ConnState)
    → w.h.h_state ≡ s
    → s ≢ conn_dead
    → (s ≡ conn_request → w.h.h_res ≡ none)
    → (w' : World) × (kill_state w ≡ some w') × Same w w'
unfolding kill_state Same
kill_state-some w conn_request e ne r = (w, ground (arith, e, r refl), (refl, refl))
kill_state-some w conn_header e ne r =
    (call io_abort (call free_res w), ground (arith, e), (refl, refl))
kill_state-some w conn_data e ne r = (call io_abort w, ground (arith, e), (refl, refl))
kill_state-some w conn_dead e ne r = absurd (ne refl)

-- Killing an open connection runs into no assertion, closes its socket, and takes it off the count.
pub http_kill-IsDead :
    (w : World)
    → IsKillable w
    → w.h.h_open ≡ true
    → (w' : World) × (http_kill w ≡ some w')
      × (w'.h.h_state ≡ conn_dead)
      × (w'.h.h_open ≡ false)
      × (w'.concurrency + 1 ≡ w.concurrency)
unfolding http_kill Same
http_kill-IsDead w v o =
    let w1 = call free_req (leave w) in
    let (opened, state, res, count) = leave-facts w in
    let (w2, e, (opened2, count2)) =
      kill_state-some w1 w.h.h_state state (not_dead w v.0 o) (λ r. res ∙ v.1 r) in
    (
      call nbio_del (record w2 { h = record (w2.h) { h_state = conn_dead } }),
      ground (arith, o, e, counted w v.0 o),
      refl,
      opened2 ∙ opened,
      omega (arith, count, count2, counted w v.0 o),
    )

pub dead_IsConn : (w : World) → w.h.h_state ≡ conn_dead → w.h.h_open ≡ false → IsConn w
dead_IsConn w d o = (
  subst (λ s. IsCounted s w.h.h_open w.concurrency) (sym d) o,
  subst (λ s. HasResponse s w.h.h_res) (sym d) tt,
)

-- A range that is read by pieces never grows past its end: offset and length move together, and no
-- more is taken than is left.
pub http_conn_data_read-sum :
    (len : ℕ) (w : World)
    → in_response w.h.h_state ≡ true
    → len ≤ w.h.h_data_len
    → (w' : World) × (http_conn_data_read len w ≡ some (w', w'.h.h_data_len))
      × (w'.h.h_data_off + w'.h.h_data_len ≡ w.h.h_data_off + w.h.h_data_len)
      × (w'.h.h_data_off ≡ w.h.h_data_off + len)
unfolding http_conn_data_read
http_conn_data_read-sum len w s fits = (
  record w {
    h = record (w.h) { h_data_len = w.h.h_data_len - len; h_data_off = w.h.h_data_off + len };
  },
  ground (arith, s),
  omega arith,
  refl,
)

-- When all data has been sent, the connection waits for the next request, or is killed if it is to be
-- closed; no assertion fails.
pub http_conn_data_complete-IsConn :
    (w : World)
    → IsConn w
    → w.h.h_state ≡ conn_data
    → w.h.h_data_len ≡ 0
    → (w' : World) × (http_conn_data_complete w ≡ some w')
      × (w'.h.h_state ≡ (if w.h.h_conn_close == 0 then conn_request else conn_dead))
      × (w'.concurrency + (if w.h.h_conn_close == 0 then 0 else 1) ≡ w.concurrency)
      × IsConn w'
unfolding http_conn_data_complete
http_conn_data_complete-IsConn w v d z =
    let res : w.h.h_res ≡ none = subst (λ s. HasResponse s w.h.h_res) d v.1 in
    let c : IsCounted conn_data w.h.h_open w.concurrency =
      subst (λ s. IsCounted s w.h.h_open w.concurrency) d v.0 in
    let w1 : World = record w {
      h = record (w.h) { h_state = conn_request; h_webroot = none };
      calls = webroot_unref w.h.h_webroot ∷ nbio_set_wait nbio_read ∷ w.calls;
    } in
    elim (Bool-cases (w.h.h_conn_close == 0)) [
      | inl keep ↦
          (w1, ground (arith, d, z, keep), ground (arith, keep), ground (arith, keep), (c, res))
      | inr close ↦
          let (w2, e, dead, shut, count) = http_kill-IsDead w1 (c, λ _. res) c.0 in
          (
            w2,
            ground (arith, d, z, close, e),
            ground (arith, dead, close),
            ground (arith, count, close),
            dead_IsConn w2 dead shut,
          )
    ]
