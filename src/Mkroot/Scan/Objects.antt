-- ===== src/Mkroot/Scan/Objects.antt =====
-- The operations of mkroot.c on the lists of a web root keep them in order.
use mathlib.Core.Option.{some_inj}
use ashttpd.Prelude.{
  ℕ, zero, suc, ◌≤◌, ◌<◌, ◌≡◌, refl, sym, ap, ◌∙◌, inl, inr, List, [], ◌∷◌, ◌++◌, Option, none,
  some, ◌&&◌, ◌==◌, length, All, All-map, All-append, Bool-cases, length-append, arith,
}
use ashttpd.Mkroot.{
  MimeType, FileObj, Obj, redirect_at, file_at, Uri, Root, root_new, same_text, webroot_link,
  find_mime, mime_add, next_place, find_file, new_file, set_file, obj_file,
}

-- A pointer to an object of the lists.
abbrev pub IsObj : (redirects files : ℕ) → Obj → Type 0
IsObj redirects files (redirect_at i) = i < redirects
IsObj redirects files (file_at i) = i < files

abbrev pub Differ : (f g : FileObj) → Type 0
Differ f g = (f.dev ≡ g.dev) → (f.ino ≡ g.ino) → ⊥

-- No two objects are of one inode.
abbrev pub Distinct : List FileObj → Type 0
Distinct [] = Unit {0}
Distinct (f ∷ fs) = All (Differ f) fs × Distinct fs

-- A file has one of the `n` mime types, and a digest.
abbrev pub HasType : (n : ℕ) → FileObj → Type 0
HasType n f = (f.type < n) × (length f.digest ≡ 20)

-- The lists of a root, and pointers to some of its objects that are not linked yet.
pub record IsRoot (os : List Obj) (r : Root) : Type 0 where
  pub pending : All (IsObj (length r.r_redirect) (length r.r_file)) os
  pub uris : All (λ u. IsObj (length r.r_redirect) (length r.r_file) u.u_obj) r.r_uri
  pub files : All (HasType (length r.r_mime_type)) r.r_file
  pub inodes : Distinct r.r_file
  pub tmp : r.r_tmpoff ≡ length r.r_tmpchunks

pub root_new-IsRoot : IsRoot [] root_new
root_new-IsRoot = record { pending = tt; uris = tt; files = tt; inodes = tt; tmp = refl }

IsObj-more : (a b c d : ℕ) (o : Obj) → a ≤ c → b ≤ d → IsObj a b o → IsObj c d o
IsObj-more a b c d (redirect_at i) ac bd h = omega arith
IsObj-more a b c d (file_at i) ac bd h = omega arith

pub more-uris :
    (a b c d : ℕ) (us : List Uri)
    → a ≤ c
    → b ≤ d
    → All (λ u. IsObj a b u.u_obj) us
    → All (λ u. IsObj c d u.u_obj) us
more-uris a b c d us ac bd h =
    All-map (λ u. IsObj a b u.u_obj) (λ u. IsObj c d u.u_obj) us
      (λ u is. IsObj-more a b c d u.u_obj ac bd is) h

pub more-types : (n m : ℕ) (fs : List FileObj) → n ≤ m → All (HasType n) fs → All (HasType m) fs
more-types n m fs le h =
    All-map (HasType n) (HasType m) fs (λ f is. (omega (arith, is.0, le), is.1)) h

pub more-objs :
    (a b c d : ℕ) (os : List Obj) → a ≤ c → b ≤ d → All (IsObj a b) os → All (IsObj c d) os
more-objs a b c d os ac bd h =
    All-map (IsObj a b) (IsObj c d) os (λ o is. IsObj-more a b c d o ac bd is) h

pub webroot_link-IsRoot :
    (os : List Obj) (name : List ℕ) (r : Root) (o : Obj)
    → IsRoot (o ∷ os) r
    → IsRoot os (webroot_link name o r)
unfolding webroot_link
webroot_link-IsRoot os name r o h = record {
  pending = h.pending.1;
  uris =
      All-append (λ u. IsObj (length r.r_redirect) (length r.r_file) u.u_obj) r.r_uri _ h.uris
        (h.pending.0, tt);
  files = h.files;
  inodes = h.inodes;
  tmp = h.tmp;
}

-- What `mime_add` does to a root.
find_mime-lt :
    (mime : List ℕ) (ms : List MimeType) (k : ℕ) → find_mime mime ms ≡ some k → k < length ms
find_mime-lt mime [] k h = absurd (ground (arith, h))
find_mime-lt mime (m ∷ ms) k h = elim (Bool-cases (same_text m.m_type mime)) [
  | inl same ↦ let e = some_inj.0 (rw same at h) in omega (arith, e)
  | inr other ↦ omega (arith, find_mime-lt mime ms k (rw other at h))
]

pub record IsMimes (mime : List ℕ) (r : Root) (ms : List MimeType) (k : ℕ) : Type 0 where
  pub result : mime_add mime r ≡ (record r { r_mime_type = ms }, k)
  pub inside : k < length ms
  pub grows : length r.r_mime_type ≤ length ms

pub mime_add-IsMimes :
    (mime : List ℕ) (r : Root) → (ms : List MimeType) × (k : ℕ) × IsMimes mime r ms k
unfolding mime_add
mime_add-IsMimes mime r = found (find_mime mime r.r_mime_type) refl
  where
    found :
        (o : Option ℕ)
        → find_mime mime r.r_mime_type ≡ o
        → (ms : List MimeType) × (k : ℕ) × IsMimes mime r ms k
    found none e = (
      record { m_type = mime; m_strtab_off = 0 } ∷ r.r_mime_type,
      length r.r_mime_type,
      record { result = rw (mime_add, e) refl; inside = omega arith; grows = omega arith },
    )
    found (some k) e = (
      r.r_mime_type,
      k,
      record {
        result = rw (mime_add, e) refl;
        inside = find_mime-lt mime r.r_mime_type k e;
        grows = omega arith;
      },
    )

-- What `obj_file` does to the files, for any number of types.
pub record IsFiles (dev ino mtime size : ℕ) (r : Root) (fs : List FileObj) (i : ℕ) : Type 0 where
  pub result : obj_file dev ino mtime size r ≡ (record r { r_file = fs }, i)
  pub inside : i < length fs
  pub grows : length r.r_file ≤ length fs
  pub inodes : Distinct r.r_file → Distinct fs
  pub files : (n : ℕ) → 0 < n → All (HasType n) r.r_file → All (HasType n) fs

next_place-some :
    (o : Option ℕ) (i : ℕ) → next_place o ≡ some i → (j : ℕ) × (o ≡ some j) × (i ≡ suc j)
next_place-some none i h = absurd (ground (arith, h))
next_place-some (some j) i h = (j, refl, sym (some_inj.0 h))

next_place-none : (o : Option ℕ) → next_place o ≡ none → o ≡ none
next_place-none none h = refl
next_place-none (some j) h = absurd (ground (arith, h))

find_file-lt :
    (dev ino : ℕ) (fs : List FileObj) (i : ℕ) → find_file dev ino fs ≡ some i → i < length fs
find_file-lt dev ino [] i h = absurd (ground (arith, h))
find_file-lt dev ino (f ∷ fs) i h = elim (Bool-cases (dev == f.dev && ino == f.ino)) [
  | inl same ↦ let e = some_inj.0 (rw same at h) in omega (arith, e)
  | inr other ↦
      let (j, at, e) = next_place-some (find_file dev ino fs) i (rw other at h) in
      omega (arith, e, find_file-lt dev ino fs j at)
]

find_file-Differ :
    (dev ino : ℕ) (fs : List FileObj) (g : FileObj)
    → g.dev ≡ dev
    → g.ino ≡ ino
    → find_file dev ino fs ≡ none
    → All (λ f. Differ f g) fs
find_file-Differ dev ino [] g d n h = tt
find_file-Differ dev ino (f ∷ fs) g d n h = elim (Bool-cases (dev == f.dev && ino == f.ino)) [
  | inl same ↦ absurd (ground (arith, h, same))
  | inr other ↦ (
    λ same_dev same_ino. ground (arith, other, same_dev, same_ino, d, n),
    find_file-Differ dev ino fs g d n (next_place-none (find_file dev ino fs) (rw other at h)),
  )
]

Distinct-append :
    (fs : List FileObj) (g : FileObj)
    → Distinct fs
    → All (λ f. Differ f g) fs
    → Distinct (fs ++ g ∷ [])
Distinct-append [] g h d = (tt, tt)
Distinct-append (f ∷ fs) g (h, hs) (d, ds) =
    (All-append (Differ f) fs (g ∷ []) h (d, tt), Distinct-append fs g hs ds)

pub obj_file-IsFiles :
    (dev ino mtime size : ℕ) (r : Root)
    → (fs : List FileObj) × (i : ℕ) × IsFiles dev ino mtime size r fs i
unfolding obj_file
obj_file-IsFiles dev ino mtime size r = found (find_file dev ino r.r_file) refl
  where
    found :
        (o : Option ℕ)
        → find_file dev ino r.r_file ≡ o
        → (fs : List FileObj) × (i : ℕ) × IsFiles dev ino mtime size r fs i
    found none e =
        let new = new_file dev ino mtime size in
        let len = length-append r.r_file (new ∷ []) in
        (
          r.r_file ++ new ∷ [],
          length r.r_file,
          record {
            result = rw (obj_file, e) refl;
            inside = omega (arith, len);
            grows = omega (arith, len);
            inodes = λ d.
                Distinct-append r.r_file new d (find_file-Differ dev ino r.r_file new refl refl e);
            files = λ n pos h. All-append (HasType n) r.r_file (new ∷ []) h ((pos, refl), tt);
          },
        )
    found (some i) e = (
      r.r_file,
      i,
      record {
        result = rw (obj_file, e) refl;
        inside = find_file-lt dev ino r.r_file i e;
        grows = omega arith;
        inodes = λ d. d;
        files = λ n pos h. h;
      },
    )

-- A file is changed, but not its inode.
module _ (g : FileObj → FileObj) (same_dev : (f : FileObj) → (g f).dev ≡ f.dev)
    (same_ino : (f : FileObj) → (g f).ino ≡ f.ino) where
  pub length-set_file : (i : ℕ) (fs : List FileObj) → length (set_file i g fs) ≡ length fs
  length-set_file i [] = refl
  length-set_file zero (f ∷ fs) = refl
  length-set_file (suc i) (f ∷ fs) = ap suc (length-set_file i fs)

  set_file-Differ :
      (f : FileObj) (i : ℕ) (fs : List FileObj)
      → All (Differ f) fs
      → All (Differ f) (set_file i g fs)
  set_file-Differ f i [] h = tt
  set_file-Differ f zero (x ∷ xs) (h, hs) = (λ d n. h (d ∙ same_dev x) (n ∙ same_ino x), hs)
  set_file-Differ f (suc i) (x ∷ xs) (h, hs) = (h, set_file-Differ f i xs hs)

  pub set_file-Distinct : (i : ℕ) (fs : List FileObj) → Distinct fs → Distinct (set_file i g fs)
  set_file-Distinct i [] h = tt
  set_file-Distinct zero (f ∷ fs) (h, hs) = (
    All-map (Differ f) (Differ (g f)) fs
        (λ x d e n. d (sym (same_dev f) ∙ e) (sym (same_ino f) ∙ n)) h,
    hs,
  )
  set_file-Distinct (suc i) (f ∷ fs) (h, hs) = (set_file-Differ f i fs h, set_file-Distinct i fs hs)

  pub set_file-HasType :
      (n i : ℕ) (fs : List FileObj)
      → ((f : FileObj) → HasType n f → HasType n (g f))
      → All (HasType n) fs
      → All (HasType n) (set_file i g fs)
  set_file-HasType n i [] keep h = tt
  set_file-HasType n zero (f ∷ fs) keep (h, hs) = (keep f h, hs)
  set_file-HasType n (suc i) (f ∷ fs) keep (h, hs) = (h, set_file-HasType n i fs keep hs)
