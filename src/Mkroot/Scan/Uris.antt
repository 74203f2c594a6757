-- ===== src/Mkroot/Scan/Uris.antt =====
-- The URIs that the operations of mkroot.c add to a web root.
use mathlib.Core.Option.{some_inj}
use ashttpd.Prelude.{
  ℕ, ◌≡◌, refl, sym, ap, ◌∙◌, inl, inr, List, [], ◌∷◌, ◌++◌, Option, none, some, map, Bool-cases,
  >>=-some, codes, arith,
}
use ashttpd.Mkroot.{
  Uri, Obj, Root, path_splice, mime_add, obj_file, obj_file_path, obj_file_tmpchunks, webroot_link,
}
use ashttpd.Mkroot.Scan.{
  Stat, Entries, closed, end, entry, StatResult, stat_ok, enoent, stat_error, System, skips_name,
  index_pages, tc_printf, page_head, page_line, page_lines, index_dir, webroot_lookup, stat_page,
  try_index, try_pages, index_obj, add_index, with_obj, keep_found,
}
use ashttpd.Mkroot.Scan.Objects.{obj_file-IsFiles, mime_add-IsMimes}

abbrev pub uris : Root → List (List ℕ)
uris r = map (λ (u : Uri). u.u_uri) r.r_uri

abbrev pub Keeps : (r r' : Root) → Type 0
Keeps r r' = r'.r_uri ≡ r.r_uri

uris-append :
    (us vs : List Uri)
    → map (λ (u : Uri). u.u_uri) (us ++ vs)
      ≡ map (λ (u : Uri). u.u_uri) us ++ map (λ (u : Uri). u.u_uri) vs
uris-append [] vs = refl
uris-append (u ∷ us) vs = ap (λ t. u.u_uri ∷ t) (uris-append us vs)

-- The name that an empty link gets.
abbrev pub link_name : List ℕ → List ℕ
link_name [] = 47 ∷ []
link_name (c ∷ cs) = c ∷ cs

pub webroot_link-uris :
    (u : List ℕ) (o : Obj) (r : Root) → uris (webroot_link u o r) ≡ uris r ++ link_name u ∷ []
unfolding webroot_link
webroot_link-uris [] o r = uris-append r.r_uri (record { u_obj = o; u_uri = 47 ∷ [] } ∷ [])
webroot_link-uris (c ∷ cs) o r = uris-append r.r_uri (record { u_obj = o; u_uri = c ∷ cs } ∷ [])

typed-Keeps :
    (mime : List ℕ) (dev ino mtime size : ℕ) (r : Root)
    → Keeps r (mime_add mime (obj_file dev ino mtime size r).0).0
typed-Keeps mime dev ino mtime size r =
    let (fs, i, is) = obj_file-IsFiles dev ino mtime size r in
    let (ms, k, has) = mime_add-IsMimes mime (obj_file dev ino mtime size r).0 in
    ap (λ m. m.0.r_uri) has.result ∙ ap (λ a. a.0.r_uri) is.result

pub obj_file_path-Keeps :
    (path mime : List ℕ) (dev ino mtime size : ℕ) (r : Root)
    → Keeps r (obj_file_path path mime dev ino mtime size r).0
unfolding obj_file_path
obj_file_path-Keeps path mime dev ino mtime size r = typed-Keeps mime dev ino mtime size r

obj_file_tmpchunks-Keeps :
    (mime : List ℕ) (dev ino mtime : ℕ) (r : Root)
    → Keeps r (obj_file_tmpchunks mime dev ino mtime r).0
unfolding obj_file_tmpchunks
obj_file_tmpchunks-Keeps mime dev ino mtime r = typed-Keeps mime dev ino mtime 0 r

page_lines-Keeps :
    (es : Entries) (u : List ℕ) (r r' : Root) → page_lines es u r ≡ some r' → Keeps r r'
unfolding page_lines tc_printf
page_lines-Keeps closed u r r' e = absurd (ground (arith, e))
page_lines-Keeps end u r r' e = ap (λ x. x.r_uri) (sym (some_inj.0 e))
page_lines-Keeps (entry d_name item es) u r r' e = elim (Bool-cases (skips_name d_name)) [
  | inl skipped ↦ page_lines-Keeps es u r r' (rw skipped at e)
  | inr named ↦ page_lines-Keeps es u (page_line u d_name r) r' (rw named at e)
]

index_dir-Keeps :
    (st : Stat) (es : Entries) (u : List ℕ) (r : Root) (made : Root × ℕ)
    → index_dir st es u r ≡ some made
    → Keeps r made.0
unfolding index_dir tc_printf
index_dir-Keeps st es u r made e =
    let o = obj_file_tmpchunks (codes "text/html") st.st_dev st.st_ino st.st_mtime r in
    let (r', lines, e1) = >>=-some (page_lines es u (page_head u o.0)) _ e in
    ap (λ m. m.0.r_uri) (sym (some_inj.0 e1))
    ∙ page_lines-Keeps es u (page_head u o.0) r' lines
    ∙ obj_file_tmpchunks-Keeps (codes "text/html") st.st_dev st.st_ino st.st_mtime r

module _ (sys : System) where
  stat_page-Keeps :
      (res : StatResult) (ipath : List ℕ) (r : Root) (tried : Root × Option Obj)
      → stat_page sys res ipath r ≡ some tried
      → Keeps r tried.0
  unfolding stat_page
  stat_page-Keeps enoent ipath r tried e = ap (λ t. t.0.r_uri) (sym (some_inj.0 e))
  stat_page-Keeps stat_error ipath r tried e = absurd (ground (arith, e))
  stat_page-Keeps (stat_ok st) ipath r tried e = elim (Bool-cases st.is_reg) [
    | inl file ↦
        let o =
          obj_file_path ipath (sys.magic_file ipath) st.st_dev st.st_ino st.st_mtime st.st_size r in
        let e' : some (with_obj o) ≡ some tried = rw file at e in
        ap (λ t. t.0.r_uri) (sym (some_inj.0 e'))
        ∙ obj_file_path-Keeps ipath (sys.magic_file ipath) st.st_dev st.st_ino st.st_mtime
            st.st_size r
    | inr special ↦
        let e' : ◌≡◌ {A = Option (Root × Option Obj)} (some (r, none)) (some tried) =
          rw special at e in
        ap (λ t. t.0.r_uri) (sym (some_inj.0 e'))
  ]

  try_pages-Keeps :
      (u : List ℕ) (pages : List (List ℕ)) (r : Root) (tried : Root × Option Obj)
      → try_pages sys u pages r ≡ some tried
      → Keeps r tried.0
  unfolding try_pages
  try_pages-Keeps u [] r tried e = ap (λ t. t.0.r_uri) (sym (some_inj.0 e))
  try_pages-Keeps u (page ∷ pages) r tried e =
      let ipath = webroot_lookup sys (path_splice u page) in
      let (first, tried_first, more) = >>=-some (try_index sys u page r) _ e in
      kept first tried (try_pages sys u pages first.0) more
        (λ later. try_pages-Keeps u pages first.0 tried later)
      ∙ stat_page-Keeps (sys.stat ipath) ipath r first tried_first
    where
      kept :
          (first tried : Root × Option Obj) (next : Option (Root × Option Obj))
          → keep_found first next ≡ some tried
          → (next ≡ some tried → Keeps first.0 tried.0)
          → Keeps first.0 tried.0
      kept (r, some obj) tried next more later = ap (λ t. t.0.r_uri) (sym (some_inj.0 more))
      kept (r, none) tried next more later = later more

  index_obj-Keeps :
      (st : Stat) (es : Entries) (u : List ℕ) (tried : Root × Option Obj) (o : Root × Obj)
      → index_obj sys st es u tried ≡ some o
      → Keeps tried.0 o.0
  unfolding index_obj
  index_obj-Keeps st es u (r, some obj) o e = ap (λ t. t.0.r_uri) (sym (some_inj.0 e))
  index_obj-Keeps st es u (r, none) o e =
      let (made, listed, e1) = >>=-some (index_dir st es u r) _ e in
      ap (λ t. t.0.r_uri) (sym (some_inj.0 e1)) ∙ index_dir-Keeps st es u r made listed

  -- One URI is added, whichever object it is for.
  pub add_index-uris :
      (st : Stat) (es : Entries) (u : List ℕ) (r r' : Root)
      → add_index sys st es u r ≡ some r'
      → uris r' ≡ uris r ++ link_name u ∷ []
  unfolding add_index
  add_index-uris st es u r r' e =
      let (tried, pages, e1) = >>=-some (try_pages sys u index_pages r) _ e in
      let (o, indexed, e2) = >>=-some (index_obj sys st es u tried) _ e1 in
      let same =
        index_obj-Keeps st es u tried o indexed ∙ try_pages-Keeps u index_pages r tried pages in
      ap uris (sym (some_inj.0 e2))
      ∙ webroot_link-uris u o.1 o.0
      ∙ ap (λ us. map (λ (u : Uri). u.u_uri) us ++ link_name u ∷ []) same
