-- ===== src/Fobuf/Order.antt =====
-- A file that is written through fobuf.c gets what it is given, in order.
use mathlib.Core.Path.{subst}
use ashttpd.Prelude.{
  ℕ, ◌≡◌, refl, sym, ap, ◌∙◌, List, [], ◌∷◌, ◌++◌, Option, none, some, Bool, true, false, ◌&&◌,
  ◌==◌, if◌then◌else◌, Bool-cases, ◌⊎◌, inl, inr, arith, append_assoc, append-nil, is_some,
}
use ashttpd.Fobuf.{FoBuf, Out, Sys, fobuf_new, fobuf_flush, fobuf_write, fobuf_close}
use ashttpd.Fobuf.Steps.{IsSys, IsFoBuf, all_bytes, fobuf_write-Puts, flush-cases}

unfoldable pub write_all : Sys → List (List ℕ) → FoBuf → Out → Bool × FoBuf × Out
write_all sys [] b o = (true, b, o)
write_all sys (buf ∷ bufs) b o =
    let r = fobuf_write sys buf b o in
    let rest = write_all sys bufs r.1 r.2 in if r.0 then rest else r

abbrev pub concat : List (List ℕ) → List ℕ
concat [] = []
concat (xs ∷ xss) = xs ++ concat xss

fobuf_new-IsFoBuf : (file bufsz : ℕ) → IsFoBuf (fobuf_new (some file) bufsz)
unfolding fobuf_new
fobuf_new-IsFoBuf file bufsz = elim (Bool-cases (bufsz == 0)) [
  | inl y ↦ rw y (record { room = omega arith; more = omega arith; opened = refl })
  | inr n ↦ rw n (record { room = omega arith; more = ground (arith, n); opened = refl })
]

nothing_held : (fd : Option ℕ) (bufsz : ℕ) (o : Out) → all_bytes (fobuf_new fd bufsz) o ≡ o.written
unfolding fobuf_new
nothing_held fd bufsz o = append-nil o.written

is_some-some : (fd : Option ℕ) → is_some fd ≡ true → (file : ℕ) × (fd ≡ some file)
is_some-some none h = ground (arith, h)
is_some-some (some file) h = (file, refl)

module _ (sys : Sys) (is_sys : IsSys sys) where
  write_all-cases :
      (bufs : List (List ℕ)) (b : FoBuf) (o : Out)
      → IsFoBuf b
      → let r = write_all sys bufs b o in
        ((r.0 ≡ true) × (all_bytes r.1 r.2 ≡ all_bytes b o ++ concat bufs) × IsFoBuf r.1)
        ⊎ (r.0 ≡ false)
  unfolding write_all
  write_all-cases [] b o v = inl (refl, sym (append-nil (all_bytes b o)), v)
  write_all-cases (buf ∷ bufs) b o v = elim (fobuf_write-Puts sys is_sys buf b o v) [
    | inr (bad, _) ↦
        let same : write_all sys (buf ∷ bufs) b o ≡ fobuf_write sys buf b o =
          rw (write_all, bad) refl in
        inr (ap (λ t. t.0) same ∙ bad)
    | inl (good, all, v1) ↦
        let r = fobuf_write sys buf b o in
        let same : write_all sys (buf ∷ bufs) b o ≡ write_all sys bufs r.1 r.2 =
          rw (write_all, good) refl in
        let total : all_bytes r.1 r.2 ++ concat bufs ≡ all_bytes b o ++ concat (buf ∷ bufs) =
          ap (λ t. t ++ concat bufs) all ∙ append_assoc (all_bytes b o) buf (concat bufs) in
        subst
          (λ t.
            ((t.0 ≡ true)
              × (all_bytes t.1 t.2 ≡ all_bytes b o ++ concat (buf ∷ bufs))
              × IsFoBuf t.1)
            ⊎ (t.0 ≡ false))
          (sym same)
          (elim (write_all-cases bufs r.1 r.2 v1) [
            | inl (ok, puts, v2) ↦ inl (ok, puts ∙ total, v2)
            | inr bad ↦ inr bad
          ])
  ]

  -- Closing writes what is held, or reports an error.
  fobuf_close-cases :
      (synced closed : Bool) (b : FoBuf) (o : Out)
      → IsFoBuf b
      → let c = fobuf_close sys synced closed b o in (c.0 ≡ false) ⊎ (c.1.written ≡ all_bytes b o)
  unfolding fobuf_close
  fobuf_close-cases synced closed b o v =
      let (file, opened) = is_some-some b.fd v.opened in
      let r = fobuf_flush sys b o in
      let done : Bool × Out = (r.0 && synced && closed, r.2) in
      let same : fobuf_close sys synced closed b o ≡ done =
        ap (λ d. elim d as (λ _. Bool × Out) [ none ↦ (true, o) | some fd ↦ done ]) opened in
      elim (flush-cases sys is_sys b o v.room) [
        | inr (o1, e, _) ↦ inl (ap (λ t. t.0) same ∙ ap (λ t. t.0 && synced && closed) e)
        | inl (b1, o1, e, _, _, _, _, sent) ↦
            inr (ap (λ t. t.1.written) same ∙ ap (λ t. t.2.written) e ∙ sent)
      ]

  -- A file that is written by any number of calls of `fobuf_write` and then closed, where none of them
  -- reports an error, has exactly the bytes that it was given, in order, whatever the buffer's size.
  pub fobuf_close-concat :
      (bufs : List (List ℕ)) (bufsz file : ℕ) (synced closed : Bool) (o : Out)
      → let r = write_all sys bufs (fobuf_new (some file) bufsz) o in
        let c = fobuf_close sys synced closed r.1 r.2 in
        (r.0 ≡ false) ⊎ ((c.0 ≡ false) ⊎ (c.1.written ≡ o.written ++ concat bufs))
  unfolding fobuf_close
  fobuf_close-concat bufs bufsz file synced closed o =
      let b = fobuf_new (some file) bufsz in
      let r = write_all sys bufs b o in
      elim (write_all-cases bufs b o (fobuf_new-IsFoBuf file bufsz)) [
        | inr bad ↦ inl bad
        | inl (good, all, v) ↦ elim (fobuf_close-cases synced closed r.1 r.2 v) [
          | inl bad ↦ inr (inl bad)
          | inr sent ↦
              inr (inr (sent ∙ all ∙ ap (λ t. t ++ concat bufs) (nothing_held (some file) bufsz o)))
        ]
      ]
