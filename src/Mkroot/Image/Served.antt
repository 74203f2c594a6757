-- ===== src/Mkroot/Image/Served.antt =====
-- What webroot.c gives of a file that mkroot.c wrote.
use mathlib.Core.Path.{subst, ap₂}
use mathlib.Core.Option.{some_inj}
use ashttpd.Prelude.{
  ℕ, ◌+◌, ◌%◌, ◌^◌, ◌≤◌, ◌<◌, ◌≡◌, refl, sym, ap, ◌∙◌, List, [], ◌∷◌, ◌++◌, none, some, false, ◌==◌,
  length, take, drop, get_elem?, >>=-some, All, length-append, take-append_left, append_assoc,
  append-nil, arith,
}
use ashttpd.Vec.{vec}
use ashttpd.HttpConn.Get.{FileData, http_found, http_moved_permanently}
use ashttpd.Webroot.{
  TrieDedge, WebrootFile, WebrootRedirect, Webroot, webroot_invalid_redirect, oid_name,
  redirect_name, file_name, r_num_oid, WebrootHdr, Layout, webroot_open, layout, map_bytes,
}
use ashttpd.Webroot
use ashttpd.Mkroot.{Root, FileObj, Redirect, MimeType, mime_at, redirect_at, file_at}
use ashttpd.Mkroot.Image.{
  o_oid, lay_mimes, lay_redirects, lay_files, mimetab, redirtab, uri_text, redirect_obj, Sources,
  file_data, Written, concat_files, index_front, strtab, strtab_begin, files_begin, webroot_prep,
  webroot_write,
}
use ashttpd.Mkroot.Image.Parts.{HasDigests, IsSources, IsImage, webroot_write-IsImage}
use ashttpd.Mkroot.Image.Sections.{
  Holds, Holds-le, Holds-wrap, mimetab-lay_mimes, redirtab-lay_redirects, length-lay_redirects,
  length-lay_files, lay_mimes-IsMime, IsRedirect, lay_redirects-IsRedirect, AllRead-IsStored,
  file_objs-at,
}
use ashttpd.Mkroot.Image.Numbers.{
  length-file_objs, length-AllRead, get_elem?-map, length-map_redirects, oid_name-redirect,
  oid_name-file,
}

-- The web root that `webroot_open` maps: all that is before the files, and the arrays in it.
abbrev pub mapped : (trie : List TrieDedge) → Root → Written → Webroot
mapped trie r w = record {
  r_ref = 1;
  r_map = take (files_begin (length trie) r) w.image;
  r_trie = trie;
  r_redir = w.redirects;
  r_file = w.files;
}

-- A file that was written without an error, of an index that offsets of 32 bits reach.
pub record IsBuilt (src : Sources) (pad : ℕ) (trie : List TrieDedge) (r : Root) (w : Written)
    : Type 0 where
  pub laws : IsSources src
  pub digests : HasDigests r.r_file
  pub short : All (λ d. length d.re_str ≤ 8) trie
  pub small : files_begin (length trie) r < 0xffffffff
  pub written : webroot_write src pad trie (webroot_prep (length trie) r) ≡ some w

lay_files-HasDigests :
    (off : ℕ) (objs : List FileObj) → HasDigests objs → HasDigests (lay_files off objs)
lay_files-HasDigests off [] h = tt
lay_files-HasDigests off (obj ∷ objs) h = (h.0, lay_files-HasDigests (off + obj.size) objs h.1)

-- The file that a connection is given of an object: its type, and where its bytes are.
pub record IsServed (src : Sources) (r : Root) (obj : FileObj) (image : List ℕ) (f : FileData)
    : Type 0 where
  pub m : MimeType
  pub bytes : List ℕ
  pub typed : mime_at r.r_mime_type obj.type ≡ some m
  pub mime_type : f.mime_type ≡ vec m.m_type
  pub there : file_data src obj ≡ some bytes
  pub len : (f.f_len ≡ obj.size) × (length (take obj.size bytes) ≡ obj.size)
  pub content : take f.f_len (drop f.f_ofs image) ≡ take obj.size bytes
  pub etag : f.f_etag ≡ take 20 (src.sha1 (take obj.size bytes))
  pub modified : f.f_mtime ≡ obj.mtime % 2 ^ 32

module _ (src : Sources) (pad : ℕ) (trie : List TrieDedge) (r : Root) (w : Written)
    (built : IsBuilt src pad trie r w) where
  abbrev pub edges : ℕ
  edges = length trie

  abbrev pub laid : Root
  laid = record r {
    r_mime_type = lay_mimes (strtab_begin edges r) r.r_mime_type;
    r_redirect = lay_redirects (strtab_begin edges r + length (mimetab r.r_mime_type)) r.r_redirect;
    r_file = lay_files (files_begin edges r) r.r_file;
  }

  pub image : IsImage src pad trie laid w
  unfolding webroot_prep
  image =
      webroot_write-IsImage src pad trie laid w built.laws
        (lay_files-HasDigests (files_begin edges r) r.r_file built.digests) built.short
        built.written

  abbrev pub front : List ℕ
  front = index_front pad trie laid ++ concat_files w.files

  pub front_size : length front ≡ strtab_begin edges r
  front_size =
      let n =
        length-lay_redirects (strtab_begin edges r + length (mimetab r.r_mime_type)) r.r_redirect in
      omega (arith, image.front_size, n, length-lay_files (files_begin edges r) r.r_file)

  pub texts : strtab laid ≡ mimetab r.r_mime_type ++ redirtab r.r_redirect
  texts =
      ap₂ (λ a b. a ++ b) (mimetab-lay_mimes (strtab_begin edges r) r.r_mime_type)
        (redirtab-lay_redirects (strtab_begin edges r + length (mimetab r.r_mime_type))
          r.r_redirect)

  abbrev pub index : List ℕ
  index = front ++ (mimetab r.r_mime_type ++ redirtab r.r_redirect)

  pub index_size : length index ≡ files_begin edges r
  index_size = omega (
    arith,
    front_size,
    length-append front (mimetab r.r_mime_type ++ redirtab r.r_redirect),
    length-append (mimetab r.r_mime_type) (redirtab r.r_redirect),
  )

  pub whole : w.image ≡ index ++ image.buf
  whole =
      image.image_parts
      ∙ sym (
          append_assoc (index_front pad trie laid) (concat_files w.files)
            (strtab laid ++ image.buf))
      ∙ sym (append_assoc front (strtab laid) image.buf)
      ∙ ap (λ t. (front ++ t) ++ image.buf) texts

  pub map_index : take (files_begin edges r) w.image ≡ index
  map_index = ap₂ (λ n f. take n f) (sym index_size) whole ∙ take-append_left index image.buf

  -- The web root that is mapped of a file that was written has each file object at its number, with its
  -- mime type, the digest of its bytes as the tag, and the place in the file where its bytes stand.
  pub oid_name-IsServed :
      (i : ℕ) (obj : FileObj)
      → length w.image < 2 ^ 64
      → get_elem? r.r_file i ≡ some obj
      → (f : FileData) × (oid_name (mapped trie r w) (o_oid r (file_at i)) ≡ some (http_found f))
        × IsServed src r obj w.image f
  unfolding file_name
  oid_name-IsServed i obj fits at =
      let (obj', at', stored) =
        AllRead-IsStored src w.image index [] (files_begin edges r) r.r_file i obj image.buf
          image.objs image.read (whole ∙ ap (λ t. index ++ t) (sym (append-nil image.buf)))
          index_size at in
      let (wf, at_wf, made) = file_objs-at laid image.objs w.files i obj' image.structures at' in
      let (m', typed, e) = >>=-some (mime_at laid.r_mime_type obj'.type) _ made in
      let wf_is = some_inj.0 e in
      let mime =
        lay_mimes-IsMime index front (redirtab r.r_redirect) (strtab_begin edges r) r.r_mime_type
          obj.type m' refl front_size (omega (arith, built.small))
          (ap (mime_at laid.r_mime_type) (sym stored.mime) ∙ typed) in
      let site = mapped trie r w in
      let count : length w.redirects ≡ length r.r_redirect =
        ap length image.redirect_objs
        ∙ length-map_redirects laid.r_redirect
        ∙ length-lay_redirects (strtab_begin edges r + length (mimetab r.r_mime_type))
            r.r_redirect in
      let size32 = index_size in
      let type_off =
        Holds-wrap index m'.m_strtab_off (m'.m_strtab_off % 2 ^ 32) mime.m.m_type
          (λ lt. omega (arith, lt, size32, built.small)) mime.holds in
      let type_len : length m'.m_type % 2 ^ 32 ≡ length mime.m.m_type = omega (
        arith,
        ap length mime.text,
        Holds-le index m'.m_strtab_off mime.m.m_type mime.holds,
        size32,
        built.small,
      ) in
      let text : map_bytes site (m'.m_strtab_off % 2 ^ 32) (length m'.m_type % 2 ^ 32)
          ≡ mime.m.m_type =
        ap₂ (λ f n. take n (drop (m'.m_strtab_off % 2 ^ 32) f)) map_index type_len ∙ type_off in
      let part = take obj.size stored.bytes in
      let len64 : obj'.size % 2 ^ 64 ≡ obj.size =
        omega
          (arith, stored.size, stored.whole, Holds-le w.image obj'.off part stored.holds, fits) in
      let placed =
        Holds-wrap w.image obj'.off (obj'.off % 2 ^ 64) part (λ lt. omega (arith, lt, fits))
          stored.holds in
      (
        Webroot.file_data site wf,
        ap (λ n. oid_name site (n + i)) (sym count) ∙ oid_name-file site i wf at_wf,
        record {
          m = mime.m;
          bytes = stored.bytes;
          typed = mime.there;
          mime_type =
              ap (λ x. vec (map_bytes site x.f_type x.f_type_len)) (sym wf_is) ∙ ap vec text;
          there = stored.there;
          len = (ap (λ x. x.f_len) (sym wf_is) ∙ len64, stored.whole);
          content =
              ap (λ x. take x.f_len (drop x.f_off w.image)) (sym wf_is)
              ∙ ap (λ n. take n (drop (obj'.off % 2 ^ 64) w.image)) (len64 ∙ sym stored.whole)
              ∙ placed;
          etag = ap (λ x. take 20 x.f_digest) (sym wf_is) ∙ ap (take 20) stored.digest;
          modified = ap (λ x. x.f_modified) (sym wf_is) ∙ ap (λ t. t % 2 ^ 32) stored.mtime;
        },
      )

  redirect_name-IsRedirect :
      (obj obj' : Redirect) (uri : List ℕ)
      → IsRedirect index obj obj'
      → obj.uri ≡ some uri
      → redirect_name (mapped trie r w) (redirect_obj obj') ≡ http_moved_permanently (vec uri)
  unfolding redirect_name
  redirect_name-IsRedirect obj obj' uri is e =
      let site = mapped trie r w in
      let text : uri_text obj ≡ uri =
        ap (λ u. elim u as (λ _. List ℕ) [ none ↦ [] | some t ↦ t ]) e in
      let there : Holds index obj'.strtab_off uri =
        subst (Holds index obj'.strtab_off) text is.holds in
      let off32 : obj'.strtab_off % 2 ^ 32 ≡ obj'.strtab_off = omega (arith, is.inside) in
      let len32 : length uri % 2 ^ 32 ≡ length uri =
        omega (arith, Holds-le index obj'.strtab_off uri there, index_size, built.small) in
      let named : redirect_obj obj' ≡ record { r_off = obj'.strtab_off; r_len = length uri } =
        ap
          (λ u. elim u as (λ _. WebrootRedirect) [
            | some uri ↦ record { r_off = obj'.strtab_off % 2 ^ 32; r_len = length uri % 2 ^ 32 }
            | none ↦ record { r_off = webroot_invalid_redirect; r_len = obj'.code % 2 ^ 32 }
          ])
          (is.uri ∙ e)
        ∙ cc (off32, len32) in
      let differ : (obj'.strtab_off == webroot_invalid_redirect) ≡ false =
        ground (arith, is.inside) in
      let bytes : map_bytes site obj'.strtab_off (length uri) ≡ uri =
        ap (λ f. take (length uri) (drop obj'.strtab_off f)) map_index ∙ there in
      ap (redirect_name site) named
      ∙ (rw (redirect_name, differ) (ap (λ t. http_moved_permanently (vec t)) bytes))

  -- And each redirect at its number, with its target.
  pub oid_name-moved :
      (i : ℕ) (obj : Redirect) (uri : List ℕ)
      → get_elem? r.r_redirect i ≡ some obj
      → obj.uri ≡ some uri
      → oid_name (mapped trie r w) (o_oid r (redirect_at i))
        ≡ some (http_moved_permanently (vec uri))
  oid_name-moved i obj uri at e =
      let off = strtab_begin edges r + length (mimetab r.r_mime_type) in
      let (obj', at', is) =
        lay_redirects-IsRedirect index (front ++ mimetab r.r_mime_type) [] off r.r_redirect i obj
          (sym (append_assoc front (mimetab r.r_mime_type) (redirtab r.r_redirect))
            ∙ ap (λ t. (front ++ mimetab r.r_mime_type) ++ t)
                (sym (append-nil (redirtab r.r_redirect))))
          (omega (arith, front_size, length-append front (mimetab r.r_mime_type)))
          (omega (arith, built.small)) at in
      let site = mapped trie r w in
      let at_wr =
        ap (λ t. get_elem? t i) image.redirect_objs ∙ get_elem?-map laid.r_redirect i obj' at' in
      oid_name-redirect site i (redirect_obj obj') at_wr
      ∙ ap some (redirect_name-IsRedirect obj obj' uri is e)

  -- The numbers of the objects.
  pub number-small :
      (r_num_oid (mapped trie r w) ≡ length r.r_redirect + length r.r_file)
      × (r_num_oid (mapped trie r w) ≤ 0xffffffff)
  number-small =
      let n =
        length-lay_redirects (strtab_begin edges r + length (mimetab r.r_mime_type)) r.r_redirect in
      let m = length-lay_files (files_begin edges r) r.r_file in
      let redirects = ap length image.redirect_objs ∙ length-map_redirects laid.r_redirect in
      let files = length-file_objs laid image.objs w.files image.structures in
      let read = length-AllRead image.read in
      (
        omega (arith, n, m, redirects, files, read),
        omega (arith, n, m, redirects, files, read, built.small),
      )
