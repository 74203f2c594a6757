-- ===== src/Mkroot/Image/Opened.antt =====
-- `webroot_open` of webroot.c on a file that mkroot.c wrote.
use mathlib.Core.Path.{subst}
use ashttpd.Prelude.{
  ℕ, ◌+◌, ◌≡◌, refl, sym, ap, ◌∙◌, List, ◌++◌, some, true, false, ltb, ◌==◌, length, map,
  length-append, append_assoc, arith,
}
use ashttpd.Webroot.{
  TrieDedge, WebrootHdr, Layout, layout, webroot_open, webroot_magic, webroot_current_ver,
}
use ashttpd.Mkroot.{Root}
use ashttpd.Mkroot.Image.{
  mimetab, redirtab, redirect_obj, Sources, Written, concat_edges, concat_redirects, concat_files,
  header, hdr_bytes, strtab_begin, files_begin,
}
use ashttpd.Mkroot.Image.Parts.{length-hdr_bytes, length-concat_edges, length-concat_redirects}
use ashttpd.Mkroot.Image.Sections.{
  Holds, Holds-middle, length-lay_redirects, length-lay_files, mimetab-lay_mimes,
  redirtab-lay_redirects,
}
use ashttpd.Mkroot.Image.Served.{IsBuilt, laid, image, front, front_size, index, index_size, whole}

-- The places of the parts, as `webroot_open` lays them out.
pub record IsLayout (trie : List TrieDedge) (r : Root) (w : Written) (l : Layout) : Type 0 where
  pub edges_there : Holds w.image l.trie_at (concat_edges trie)
  pub redirects_there : Holds w.image l.redir_at (concat_redirects w.redirects)
  pub files_there : Holds w.image l.file_at (concat_files w.files)
  pub strings_there : Holds w.image l.strtab_at (mimetab r.r_mime_type ++ redirtab r.r_redirect)
  pub index_end : l.end_at ≡ files_begin (length trie) r

module _ (src : Sources) (pad : ℕ) (trie : List TrieDedge) (r : Root) (w : Written)
    (built : IsBuilt src pad trie r w) where
  abbrev pub root : Root
  root = laid src pad trie r w built

  abbrev pub hdr : WebrootHdr
  hdr = header (length trie) root

  abbrev strings : List ℕ
  strings = mimetab r.r_mime_type ++ redirtab r.r_redirect

  -- The numbers of the header fit their fields.
  pub record IsHeader (h : WebrootHdr) : Type 0 where
    pub num_edges : h.h_num_edges ≡ length trie
    pub num_redirect : h.h_num_redirect ≡ length r.r_redirect
    pub num_file : h.h_num_file ≡ length r.r_file
    pub strtab_sz : h.h_strtab_sz ≡ length strings
    pub begin : h.h_files_begin ≡ files_begin (length trie) r
    pub magic : h.h_magic ≡ webroot_magic
    pub vers : h.h_vers ≡ webroot_current_ver

  pub hdr-IsHeader : IsHeader hdr
  unfolding header
  hdr-IsHeader =
      let n =
        length-lay_redirects (strtab_begin (length trie) r + length (mimetab r.r_mime_type))
          r.r_redirect in
      let m = length-lay_files (files_begin (length trie) r) r.r_file in
      let a = ap length (mimetab-lay_mimes (strtab_begin (length trie) r) r.r_mime_type) in
      let b = ap length (
        redirtab-lay_redirects (strtab_begin (length trie) r + length (mimetab r.r_mime_type))
          r.r_redirect) in
      let c = length-append (mimetab r.r_mime_type) (redirtab r.r_redirect) in
      record {
        num_edges = omega (arith, built.small);
        num_redirect = omega (arith, built.small, n);
        num_file = omega (arith, built.small, m);
        strtab_sz = omega (arith, built.small, a, b, c);
        begin = omega (arith, built.small, n, m, a, b);
        magic = refl;
        vers = refl;
      }

  -- The file in its parts.
  module _ (h e s f t b : List ℕ) where
    at_edges : (((h ++ (e ++ s)) ++ f) ++ t) ++ b ≡ h ++ (e ++ (s ++ (f ++ (t ++ b))))
    at_edges = simp (append_assoc)

    at_redirects : (((h ++ (e ++ s)) ++ f) ++ t) ++ b ≡ (h ++ e) ++ (s ++ (f ++ (t ++ b)))
    at_redirects = simp (append_assoc)

    at_files : (((h ++ (e ++ s)) ++ f) ++ t) ++ b ≡ (h ++ (e ++ s)) ++ (f ++ (t ++ b))
    at_files = simp (append_assoc)

  layout-IsLayout : (hd : WebrootHdr) → IsHeader hd → IsLayout trie r w (layout hd)
  unfolding layout
  layout-IsLayout hd is =
      let im = image src pad trie r w built in
      let h = hdr_bytes pad hdr in
      let e = concat_edges trie in
      let s = concat_redirects (map redirect_obj root.r_redirect) in
      let f = concat_files w.files in
      let all = whole src pad trie r w built in
      let n =
        length-lay_redirects (strtab_begin (length trie) r + length (mimetab r.r_mime_type))
          r.r_redirect in
      let len_h = length-hdr_bytes pad hdr in
      let len_e = length-concat_edges trie built.short in
      let len_s = length-concat_redirects root.r_redirect in
      let redirects : Holds w.image (layout hd).redir_at s =
        Holds-middle w.image (h ++ e) s (f ++ (strings ++ im.buf)) (layout hd).redir_at
          (all ∙ at_redirects h e s f strings im.buf)
          (omega (arith, length-append h e, len_h, len_e, is.num_edges)) in
      record {
        edges_there =
            Holds-middle w.image h e (s ++ (f ++ (strings ++ im.buf))) (layout hd).trie_at
              (all ∙ at_edges h e s f strings im.buf) len_h;
        redirects_there =
            subst (λ x. Holds w.image (layout hd).redir_at (concat_redirects x))
              (sym im.redirect_objs) redirects;
        files_there =
            Holds-middle w.image (h ++ (e ++ s)) f (strings ++ im.buf) (layout hd).file_at
              (all ∙ at_files h e s f strings im.buf)
              (omega (
                arith,
                length-append h (e ++ s),
                length-append e s,
                len_h,
                len_e,
                len_s,
                n,
                is.num_edges,
                is.num_redirect,
              ));
        strings_there =
            Holds-middle w.image (front src pad trie r w built) strings im.buf (layout hd).strtab_at
              (all ∙ append_assoc (front src pad trie r w built) strings im.buf)
              (omega (
                arith,
                front_size src pad trie r w built,
                is.num_edges,
                is.num_redirect,
                is.num_file,
              ));
        index_end = omega (
          arith,
          is.num_edges,
          is.num_redirect,
          is.num_file,
          is.strtab_sz,
          length-append (mimetab r.r_mime_type) (redirtab r.r_redirect),
        );
      }

  -- `webroot_open` takes the header and the size of a file that mkroot has written without an error, with
  -- an index that 32 bits reach, and gives the edges, the redirects, the files and the strings the places
  -- where the writer has put them.
  pub webroot_open-IsLayout :
      (l : Layout) × (webroot_open
          (some (header (length trie) (laid src pad trie r w built)))
          (length w.image)
        ≡ some l)
      × IsLayout trie r w l
  unfolding webroot_open
  webroot_open-IsLayout =
      let is = hdr-IsHeader in
      let placed = layout-IsLayout hdr is in
      let size =
        ap length (whole src pad trie r w built)
        ∙ length-append (index src pad trie r w built) (image src pad trie r w built).buf in
      let magic : (hdr.h_magic == webroot_magic) ≡ true = ground (arith, is.magic) in
      let vers : (hdr.h_vers == webroot_current_ver) ≡ true = ground (arith, is.vers) in
      let long : ltb (length w.image) hdr.h_files_begin ≡ false =
        ground (arith, size, index_size src pad trie r w built, is.begin) in
      let fits : ltb hdr.h_files_begin (layout hdr).end_at ≡ false =
        ground (arith, placed.index_end, is.begin) in
      (layout hdr, rw (webroot_open, magic, vers, long, fits) refl, placed)
