-- ===== src/Mkroot/Image/Sections.antt =====
-- Where the strings and the bytes of the files stand in the file that mkroot.c writes.
use mathlib.Core.Path.{subst, ap₂}
use mathlib.Core.Option.{some_inj}
use ashttpd.Prelude.{
  ◌≤◌, length-drop, ℕ, zero, suc, ◌+◌, ◌%◌, ◌^◌, ◌<◌, ◌≡◌, refl, sym, ap, ◌∙◌, inl, inr, List, [],
  ◌∷◌, ◌++◌, some, true, false, ◌==◌, length, take, drop, get_elem?, ◌>>=◌, >>=-some, Bool-cases,
  length-append, take-append_left, drop-append_left, append_assoc, arith,
}
use ashttpd.Webroot.{WebrootFile}
use ashttpd.Mkroot.{Root, FileObj, Redirect, MimeType, mime_at}
use ashttpd.Mkroot.Image.{
  uri_text, lay_mimes, lay_redirects, lay_files, mimetab, redirtab, file_obj, file_objs, Sources,
  file_data,
}
use ashttpd.Mkroot.Image.Parts.{AllRead, one_more}

-- A text stands in the file at an offset.
abbrev pub Holds : (file : List ℕ) (off : ℕ) (text : List ℕ) → Type 0
Holds file off text = take (length text) (drop off file) ≡ text

pub Holds-middle :
    (file pre text post : List ℕ) (off : ℕ)
    → file ≡ pre ++ (text ++ post)
    → length pre ≡ off
    → Holds file off text
Holds-middle file pre text post off e len =
    ap₂ (λ n f. take (length text) (drop n f)) (sym len) e
    ∙ ap (take (length text)) (drop-append_left pre (text ++ post))
    ∙ take-append_left text post

-- The next text of a table.
next_text :
    (file pre text more post : List ℕ)
    → file ≡ pre ++ ((text ++ more) ++ post)
    → file ≡ (pre ++ text) ++ (more ++ post)
next_text file pre text more post e =
    e
    ∙ ap (λ t. pre ++ t) (append_assoc text more post)
    ∙ sym (append_assoc pre text (more ++ post))

first_text :
    (file pre text more post : List ℕ)
    → file ≡ pre ++ ((text ++ more) ++ post)
    → file ≡ pre ++ (text ++ (more ++ post))
first_text file pre text more post e = e ∙ ap (λ t. pre ++ t) (append_assoc text more post)

pub length-lay_mimes : (off : ℕ) (ms : List MimeType) → length (lay_mimes off ms) ≡ length ms
length-lay_mimes off [] = refl
length-lay_mimes off (m ∷ ms) = ap suc (length-lay_mimes (off + length m.m_type) ms)

pub mimetab-lay_mimes : (off : ℕ) (ms : List MimeType) → mimetab (lay_mimes off ms) ≡ mimetab ms
mimetab-lay_mimes off [] = refl
mimetab-lay_mimes off (m ∷ ms) =
    ap (λ t. m.m_type ++ t) (mimetab-lay_mimes (off + length m.m_type) ms)

pub redirtab-lay_redirects :
    (off : ℕ) (objs : List Redirect) → redirtab (lay_redirects off objs) ≡ redirtab objs
redirtab-lay_redirects off [] = refl
redirtab-lay_redirects off (obj ∷ objs) =
    ap (λ t. uri_text obj ++ t) (redirtab-lay_redirects (off + length (uri_text obj)) objs)

pub length-lay_redirects :
    (off : ℕ) (objs : List Redirect) → length (lay_redirects off objs) ≡ length objs
length-lay_redirects off [] = refl
length-lay_redirects off (obj ∷ objs) =
    ap suc (length-lay_redirects (off + length (uri_text obj)) objs)

pub length-lay_files : (off : ℕ) (objs : List FileObj) → length (lay_files off objs) ≡ length objs
length-lay_files off [] = refl
length-lay_files off (obj ∷ objs) = ap suc (length-lay_files (off + obj.size) objs)

length-take_le : (n : ℕ) (xs : List ℕ) → length (take n xs) ≤ length xs
length-take_le zero xs = omega arith
length-take_le (suc n) [] = omega arith
length-take_le (suc n) (x ∷ xs) = omega (arith, length-take_le n xs)

-- A text that stands in a file is no longer than the file, and ends in it.
pub Holds-le :
    (file : List ℕ) (off : ℕ) (text : List ℕ) → Holds file off text → length text ≤ length file
Holds-le file off text h =
    omega (arith, ap length h, length-take_le (length text) (drop off file), length-drop off file)

-- An offset is needed only for a text that is not empty, which begins inside of the file.
pub Holds-wrap :
    (file : List ℕ) (off m : ℕ) (text : List ℕ)
    → (off < length file → m ≡ off)
    → Holds file off text
    → Holds file m text
Holds-wrap file off m [] same h = refl
Holds-wrap file off m (c ∷ cs) same h =
    let inside : off < length file = omega (
      arith,
      ap length h,
      length-take_le (length (c ∷ cs)) (drop off file),
      length-drop off file,
    ) in
    subst (λ n. Holds file n (c ∷ cs)) (sym (same inside)) h

-- A mime type that was laid out.
pub record IsMime (file : List ℕ) (ms : List MimeType) (k : ℕ) (m' : MimeType) : Type 0 where
  pub m : MimeType
  pub there : mime_at ms k ≡ some m
  pub text : m'.m_type ≡ m.m_type
  pub holds : Holds file m'.m_strtab_off m.m_type

pub lay_mimes-IsMime :
    (file pre post : List ℕ) (off : ℕ) (ms : List MimeType) (k : ℕ) (m' : MimeType)
    → file ≡ pre ++ (mimetab ms ++ post)
    → length pre ≡ off
    → off + length (mimetab ms) < 2 ^ 32
    → mime_at (lay_mimes off ms) k ≡ some m'
    → IsMime file ms k m'
lay_mimes-IsMime file pre post off [] k m' e len lt h = absurd (ground (arith, h))
lay_mimes-IsMime file pre post off (m ∷ ms) k m' e len lt h =
    let total = length-append m.m_type (mimetab ms) in
    let size = length-lay_mimes (off + length m.m_type) ms in
    elim (Bool-cases (k == length ms)) [
      | inl here ↦
          let here' : (k == length (lay_mimes (off + length m.m_type) ms)) ≡ true =
            ground (arith, here, size) in
          let same = some_inj.0 (rw here' at h) in
          let z : off % 2 ^ 32 ≡ off = omega (arith, lt) in
          record {
            m = m;
            there = rw here refl;
            text = sym (ap (λ x. x.m_type) same);
            holds =
                subst (λ o. Holds file o m.m_type) (sym z ∙ ap (λ x. x.m_strtab_off) same)
                  (Holds-middle file pre m.m_type (mimetab ms ++ post) off
                    (first_text file pre m.m_type (mimetab ms) post e) len);
          }
      | inr other ↦
          let other' : (k == length (lay_mimes (off + length m.m_type) ms)) ≡ false =
            ground (arith, other, size) in
          let ih =
            lay_mimes-IsMime file (pre ++ m.m_type) post (off + length m.m_type) ms k m'
              (next_text file pre m.m_type (mimetab ms) post e)
              (omega (arith, len, length-append pre m.m_type)) (omega (arith, lt, total))
              (rw other' at h) in
          record { m = ih.m; there = rw other ih.there; text = ih.text; holds = ih.holds }
    ]

-- A redirect that was laid out.
pub record IsRedirect (file : List ℕ) (obj obj' : Redirect) : Type 0 where
  pub uri : obj'.uri ≡ obj.uri
  pub code : obj'.code ≡ obj.code
  pub holds : Holds file obj'.strtab_off (uri_text obj)
  pub inside : obj'.strtab_off < 0xffffffff

pub lay_redirects-IsRedirect :
    (file pre post : List ℕ) (off : ℕ) (objs : List Redirect) (i : ℕ) (obj : Redirect)
    → file ≡ pre ++ (redirtab objs ++ post)
    → length pre ≡ off
    → off + length (redirtab objs) < 0xffffffff
    → get_elem? objs i ≡ some obj
    → (obj' : Redirect) × (get_elem? (lay_redirects off objs) i ≡ some obj')
      × IsRedirect file obj obj'
lay_redirects-IsRedirect file pre post off [] i obj e len lt h = absurd (ground (arith, h))
lay_redirects-IsRedirect file pre post off (o ∷ os) zero obj e len lt h =
    let same = some_inj.0 h in
    let z : off % 2 ^ 32 ≡ off = omega (arith, lt) in
    let obj' : Redirect = record o { strtab_off = off % 2 ^ 32 } in
    (
      obj',
      refl,
      subst (λ x. IsRedirect file x obj') same
          (record {
            uri = refl;
            code = refl;
            holds =
                subst (λ k. Holds file k (uri_text o)) (sym z)
                  (Holds-middle file pre (uri_text o) (redirtab os ++ post) off
                    (first_text file pre (uri_text o) (redirtab os) post e) len);
            inside = omega (arith, lt, z);
          }),
    )
lay_redirects-IsRedirect file pre post off (o ∷ os) (suc i) obj e len lt h =
    lay_redirects-IsRedirect file (pre ++ uri_text o) post (off + length (uri_text o)) os i obj
      (next_text file pre (uri_text o) (redirtab os) post e)
      (omega (arith, len, length-append pre (uri_text o)))
      (omega (arith, lt, length-append (uri_text o) (redirtab os))) h

-- A file that was laid out, read and written.
pub record IsStored (src : Sources) (file : List ℕ) (obj obj' : FileObj) : Type 0 where
  pub bytes : List ℕ
  pub there : file_data src obj ≡ some bytes
  pub whole : length (take obj.size bytes) ≡ obj.size
  pub holds : Holds file obj'.off (take obj.size bytes)
  pub mime : obj'.type ≡ obj.type
  pub size : obj'.size ≡ obj.size
  pub mtime : obj'.mtime ≡ obj.mtime
  pub digest : obj'.digest ≡ src.sha1 (take obj.size bytes)

pub AllRead-IsStored :
    (src : Sources) (file pre post : List ℕ) (off : ℕ) (objs : List FileObj) (i : ℕ) (obj : FileObj)
    (buf : List ℕ) (objs' : List FileObj)
    → AllRead src (lay_files off objs) buf objs'
    → file ≡ pre ++ (buf ++ post)
    → length pre ≡ off
    → get_elem? objs i ≡ some obj
    → (obj' : FileObj) × (get_elem? objs' i ≡ some obj') × IsStored src file obj obj'
AllRead-IsStored src file pre post off [] i obj buf objs' read e len h = absurd (ground (arith, h))
AllRead-IsStored src file pre post off (o ∷ os) zero obj buf objs'
      (one_more {obj'} {buf = b} {bufs} is read) e len h =
    (
      obj',
      refl,
      subst (λ x. IsStored src file x obj') (some_inj.0 h)
          (record {
            bytes = is.bytes;
            there = is.there;
            whole = ap length (sym is.front) ∙ is.whole;
            holds = subst (Holds file obj'.off) is.front (
                subst (λ k. Holds file k b) (sym (ap (λ f. f.off) is.with_digest))
                  (Holds-middle file pre b (bufs ++ post) off (first_text file pre b bufs post e)
                    len));
            mime = ap (λ f. f.type) is.with_digest;
            size = ap (λ f. f.size) is.with_digest;
            mtime = ap (λ f. f.mtime) is.with_digest;
            digest = ap (λ f. f.digest) is.with_digest ∙ ap src.sha1 is.front;
          }),
    )
AllRead-IsStored src file pre post off (o ∷ os) (suc i) obj buf objs'
      (one_more {more'} {buf = b} {bufs} is read) e len h =
    AllRead-IsStored src file (pre ++ b) post (off + o.size) os i obj bufs more' read
      (next_text file pre b bufs post e) (omega (arith, len, length-append pre b, is.whole)) h

pub file_objs-at :
    (r : Root) (objs : List FileObj) (wfs : List WebrootFile) (i : ℕ) (obj : FileObj)
    → file_objs r objs ≡ some wfs
    → get_elem? objs i ≡ some obj
    → (wf : WebrootFile) × (get_elem? wfs i ≡ some wf) × (file_obj r obj ≡ some wf)
file_objs-at r [] wfs i obj e h = absurd (ground (arith, h))
file_objs-at r (o ∷ os) wfs zero obj e h =
    let (wf, made, more) =
      >>=-some (file_obj r o) (λ wf. do wfs ← file_objs r os; some (wf ∷ wfs)) e in
    let (wfs', rest, split) = >>=-some (file_objs r os) (λ wfs. some (wf ∷ wfs)) more in
    (
      wf,
      ap (λ w. get_elem? w 0) (sym (some_inj.0 split)),
      ap (file_obj r) (sym (some_inj.0 h)) ∙ made,
    )
file_objs-at r (o ∷ os) wfs (suc i) obj e h =
    let (wf, made, more) =
      >>=-some (file_obj r o) (λ wf. do wfs ← file_objs r os; some (wf ∷ wfs)) e in
    let (wfs', rest, split) = >>=-some (file_objs r os) (λ wfs. some (wf ∷ wfs)) more in
    let (wf', at, is) = file_objs-at r os wfs' i obj rest h in
    (wf', ap (λ w. get_elem? w (suc i)) (sym (some_inj.0 split)) ∙ at, is)
