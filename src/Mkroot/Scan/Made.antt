-- ===== src/Mkroot/Scan/Made.antt =====
-- The operations of mkroot.c that make an object of a web root, and the generated index page.
use mathlib.Core.Path.{subst}
use mathlib.Core.Option.{some_inj}
use ashttpd.Prelude.{
  ℕ, ◌-◌, ◌≡◌, refl, sym, inl, inr, List, [], ◌∷◌, ◌++◌, none, some, length, All, Bool-cases,
  >>=-some, length-append, codes, arith,
}
use ashttpd.Mkroot.{
  Redirect, Content, file_path, file_tmpchunk, FileObj, Obj, redirect_at, file_at, Root, mime_add,
  obj_redirect, obj_code, set_file, obj_file, obj_file_path, obj_file_tmpchunks,
}
use ashttpd.Mkroot.Scan.{
  Stat, Entries, closed, end, entry, skips_name, tc_printf, page_head, page_line, page_lines,
  index_dir,
}
use ashttpd.Mkroot.Scan.Objects.{
  HasType, IsRoot, more-uris, more-objs, more-types, mime_add-IsMimes, obj_file-IsFiles,
  length-set_file, set_file-Distinct, set_file-HasType,
}

-- A root after an operation that gives an object of it.
abbrev pub Gives : List Obj → Root → Obj → Type 0
Gives os r o = IsRoot (o ∷ os) r

-- A file of some type, with other contents.
abbrev with_content : Content → (type : ℕ) → FileObj → FileObj
with_content c type f = record f { content = c; type = type }

typed-Gives :
    (os : List Obj) (c : Content) (mime : List ℕ) (dev ino mtime size : ℕ) (r : Root)
    → IsRoot os r
    → let a = obj_file dev ino mtime size r in
      let m = mime_add mime a.0 in
      Gives os
        (record (m.0) { r_file = set_file a.1 (with_content c m.1) m.0.r_file })
        (file_at a.1)
typed-Gives os c mime dev ino mtime size r h =
    let (fs, i, is) = obj_file-IsFiles dev ino mtime size r in
    let (ms, k, has) = mime_add-IsMimes mime (record r { r_file = fs }) in
    let g = with_content c k in
    let fs' = set_file i g fs in
    let len = length-set_file g (λ f. refl) (λ f. refl) i fs in
    let P : Root × ℕ → Type 0 = λ a.
      let m = mime_add mime a.0 in
      Gives os (record (m.0) { r_file = set_file a.1 (with_content c m.1) m.0.r_file })
        (file_at a.1) in
    let Q : Root × ℕ → Type 0 = λ m.
      Gives os (record (m.0) { r_file = set_file i (with_content c m.1) m.0.r_file }) (file_at i) in
    let types : All (HasType (length ms)) fs =
      is.files (length ms) (omega (arith, has.inside))
        (more-types (length r.r_mime_type) (length ms) r.r_file has.grows h.files) in
    subst P (sym is.result) (
      subst Q (sym has.result) (record {
        pending = (
          omega (arith, is.inside, len),
          more-objs (length r.r_redirect) (length r.r_file) (length r.r_redirect) (length fs') os
              (omega arith) (omega (arith, is.grows, len)) h.pending,
        );
        uris =
            more-uris (length r.r_redirect) (length r.r_file) (length r.r_redirect) (length fs')
              r.r_uri (omega arith) (omega (arith, is.grows, len)) h.uris;
        files =
            set_file-HasType g (λ f. refl) (λ f. refl) (length ms) i fs (λ f t. (has.inside, t.1))
              types;
        inodes = set_file-Distinct g (λ f. refl) (λ f. refl) i fs (is.inodes h.inodes);
        tmp = h.tmp;
      }))

pub obj_file_path-Gives :
    (os : List Obj) (path mime : List ℕ) (dev ino mtime size : ℕ) (r : Root)
    → IsRoot os r
    → Gives os
        (obj_file_path path mime dev ino mtime size r).0
        (obj_file_path path mime dev ino mtime size r).1
unfolding obj_file_path
obj_file_path-Gives os path mime dev ino mtime size r h =
    typed-Gives os (file_path path) mime dev ino mtime size r h

obj_file_tmpchunks-Gives :
    (os : List Obj) (mime : List ℕ) (dev ino mtime : ℕ) (r : Root)
    → IsRoot os r
    → Gives os
        (obj_file_tmpchunks mime dev ino mtime r).0
        (file_at (obj_file_tmpchunks mime dev ino mtime r).1)
unfolding obj_file_tmpchunks
obj_file_tmpchunks-Gives os mime dev ino mtime r h =
    typed-Gives os (file_tmpchunk r.r_tmpoff) mime dev ino mtime 0 r h

redirect-Gives :
    (os : List Obj) (new : Redirect) (r : Root)
    → IsRoot os r
    → Gives os
        (record r { r_redirect = r.r_redirect ++ new ∷ [] })
        (redirect_at (length r.r_redirect))
redirect-Gives os new r h =
    let len = length-append r.r_redirect (new ∷ []) in
    let n = length (r.r_redirect ++ new ∷ []) in
    let m = length r.r_file in
    record {
      pending = (
        omega (arith, len),
        more-objs (length r.r_redirect) m n m os (omega (arith, len)) (omega arith) h.pending,
      );
      uris =
          more-uris (length r.r_redirect) m n m r.r_uri (omega (arith, len)) (omega arith) h.uris;
      files = h.files;
      inodes = h.inodes;
      tmp = h.tmp;
    }

pub obj_redirect-Gives :
    (os : List Obj) (path : List ℕ) (r : Root)
    → IsRoot os r
    → Gives os (obj_redirect path r).0 (obj_redirect path r).1
unfolding obj_redirect
obj_redirect-Gives os path r h =
    redirect-Gives os (record { uri = some path; strtab_off = 0; code = 0 }) r h

obj_code-Gives :
    (os : List Obj) (code : ℕ) (r : Root)
    → IsRoot os r
    → Gives os (obj_code code r).0 (obj_code code r).1
unfolding obj_code
obj_code-Gives os code r h =
    redirect-Gives os (record { uri = none; strtab_off = 0; code = code }) r h

tc_printf-Gives :
    (os : List Obj) (text : List ℕ) (r : Root) (o : Obj)
    → Gives os r o
    → Gives os (tc_printf text r) o
unfolding tc_printf
tc_printf-Gives os text r o h = record {
  pending = h.pending;
  uris = h.uris;
  files = h.files;
  inodes = h.inodes;
  tmp = omega (arith, h.tmp, length-append r.r_tmpchunks text);
}

-- The index page of a directory.
page_lines-Gives :
    (os : List Obj) (es : Entries) (u : List ℕ) (r r' : Root) (o : Obj)
    → Gives os r o
    → page_lines es u r ≡ some r'
    → Gives os r' o
unfolding page_lines
page_lines-Gives os closed u r r' o h e = absurd (ground (arith, e))
page_lines-Gives os end u r r' o h e = subst (λ x. Gives os x o) (some_inj.0 e) h
page_lines-Gives os (entry d_name item es) u r r' o h e = elim (Bool-cases (skips_name d_name)) [
  | inl skipped ↦ page_lines-Gives os es u r r' o h (rw skipped at e)
  | inr named ↦
      page_lines-Gives os es u (page_line u d_name r) r' o (tc_printf-Gives os _ r o h)
        (rw named at e)
]

page_head-Gives :
    (os : List Obj) (u : List ℕ) (r : Root) (o : Obj) → Gives os r o → Gives os (page_head u r) o
page_head-Gives os u r o h =
    tc_printf-Gives os _ _ o
      (tc_printf-Gives os _ _ o (tc_printf-Gives os _ _ o (tc_printf-Gives os _ r o h)))

pub index_dir-Gives :
    (os : List Obj) (st : Stat) (es : Entries) (u : List ℕ) (r : Root) (made : Root × ℕ)
    → IsRoot os r
    → index_dir st es u r ≡ some made
    → Gives os made.0 (file_at made.1)
unfolding index_dir
index_dir-Gives os st es u r made h e =
    let o = obj_file_tmpchunks (codes "text/html") st.st_dev st.st_ino st.st_mtime r in
    let (r', lines, e1) = >>=-some (page_lines es u (page_head u o.0)) _ e in
    let given =
      obj_file_tmpchunks-Gives os (codes "text/html") st.st_dev st.st_ino st.st_mtime r h in
    let ok =
      page_lines-Gives os es u (page_head u o.0) r' (file_at o.1)
        (page_head-Gives os u o.0 (file_at o.1) given) lines in
    let g : FileObj → FileObj = λ f. record f { size = r'.r_tmpoff - r.r_tmpoff } in
    let len = length-set_file g (λ f. refl) (λ f. refl) o.1 r'.r_file in
    let n = length r'.r_redirect in
    subst (λ m. Gives os m.0 (file_at m.1)) (some_inj.0 e1)
      (record {
        pending =
            more-objs n (length r'.r_file) n (length (set_file o.1 g r'.r_file)) (file_at o.1 ∷ os)
              (omega arith) (omega (arith, len)) ok.pending;
        uris =
            more-uris n (length r'.r_file) n (length (set_file o.1 g r'.r_file)) r'.r_uri
              (omega arith) (omega (arith, len)) ok.uris;
        files =
            set_file-HasType g (λ f. refl) (λ f. refl) (length r'.r_mime_type) o.1 r'.r_file
              (λ f t. t) ok.files;
        inodes = set_file-Distinct g (λ f. refl) (λ f. refl) o.1 r'.r_file ok.inodes;
        tmp = ok.tmp;
      })
