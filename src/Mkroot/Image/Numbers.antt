-- ===== src/Mkroot/Image/Numbers.antt =====
-- The number of an object of mkroot.c, and the name that webroot.c finds by it.
use mathlib.Core.Option.{some_inj}
use ashttpd.Prelude.{
  ℕ, zero, suc, ◌+◌, ◌-◌, ◌<◌, ◌≡◌, refl, sym, ap, ◌∙◌, List, [], ◌∷◌, some, true, false, ltb,
  length, get_elem?, map, ◌>>=◌, >>=-some, arith,
}
use ashttpd.Webroot.{
  WebrootFile, WebrootRedirect, Webroot, oid_name, redirect_name, file_name, r_num_oid,
}
use ashttpd.Mkroot.{Root, FileObj, Redirect}
use ashttpd.Mkroot.Image.{redirect_obj, file_obj, file_objs, Sources}
use ashttpd.Mkroot.Image.Parts.{AllRead}

pub length-file_objs :
    (r : Root) (objs : List FileObj) (wfs : List WebrootFile)
    → file_objs r objs ≡ some wfs
    → length wfs ≡ length objs
length-file_objs r [] wfs e = ap length (sym (some_inj.0 e))
length-file_objs r (o ∷ os) wfs e =
    let (wf, made, more) =
      >>=-some (file_obj r o) (λ wf. do wfs ← file_objs r os; some (wf ∷ wfs)) e in
    let (wfs', rest, split) = >>=-some (file_objs r os) (λ wfs. some (wf ∷ wfs)) more in
    ap length (sym (some_inj.0 split)) ∙ ap suc (length-file_objs r os wfs' rest)

pub length-AllRead :
    {src : Sources} {objs objs' : List FileObj} {buf : List ℕ}
    → AllRead src objs buf objs'
    → length objs' ≡ length objs
length-AllRead AllRead.none_left = refl
length-AllRead (AllRead.one_more is rest) = ap suc (length-AllRead rest)

pub get_elem?-map :
    (objs : List Redirect) (i : ℕ) (obj : Redirect)
    → get_elem? objs i ≡ some obj
    → get_elem? (map redirect_obj objs) i ≡ some (redirect_obj obj)
get_elem?-map [] i obj h = absurd (ground (arith, h))
get_elem?-map (o ∷ os) zero obj h = ap (λ x. some (redirect_obj x)) (some_inj.0 h)
get_elem?-map (o ∷ os) (suc i) obj h = get_elem?-map os i obj h

pub length-map_redirects : (objs : List Redirect) → length (map redirect_obj objs) ≡ length objs
length-map_redirects [] = refl
length-map_redirects (o ∷ os) = ap suc (length-map_redirects os)

get_elem?-lt {ℓ} :
    {A : Type ℓ} (xs : List A) (i : ℕ) (x : A) → get_elem? xs i ≡ some x → i < length xs
get_elem?-lt [] i x h = absurd (ground (arith, h))
get_elem?-lt (y ∷ ys) zero x h = omega arith
get_elem?-lt (y ∷ ys) (suc i) x h = omega (arith, get_elem?-lt ys i x h)

-- The name of an object by its place in its array.
pub oid_name-redirect :
    (r : Webroot) (i : ℕ) (wr : WebrootRedirect)
    → get_elem? r.r_redir i ≡ some wr
    → oid_name r i ≡ some (redirect_name r wr)
unfolding oid_name
oid_name-redirect r i wr at =
    let lt = get_elem?-lt r.r_redir i wr at in
    let first : ltb i (r_num_oid r) ≡ true = ground (arith, lt) in
    let second : ltb i (length r.r_redir) ≡ true = ground (arith, lt) in
    rw (oid_name, first, second, at) refl

pub oid_name-file :
    (r : Webroot) (i : ℕ) (wf : WebrootFile)
    → get_elem? r.r_file i ≡ some wf
    → oid_name r (length r.r_redir + i) ≡ some (file_name r wf)
unfolding oid_name
oid_name-file r i wf at =
    let lt = get_elem?-lt r.r_file i wf at in
    let idx = length r.r_redir + i in
    let first : ltb idx (r_num_oid r) ≡ true = ground (arith, lt) in
    let second : ltb idx (length r.r_redir) ≡ false = ground arith in
    let z : idx - length r.r_redir ≡ i = omega arith in rw (oid_name, first, second, z, at) refl
