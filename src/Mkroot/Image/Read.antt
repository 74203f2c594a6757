-- ===== src/Mkroot/Image/Read.antt =====
-- The web root that webroot.c finds in the bytes of a file that mkroot.c wrote.
use mathlib.Core.Path.{subst}
use mathlib.Core.Option.{some_inj}
use ashttpd.Prelude.{
  ℕ, ◌+◌, ◌%◌, ◌^◌, ◌≡◌, sym, ap, ◌∙◌, List, [], ◌∷◌, ◌++◌, none, some, length, take, drop, map,
  All, ◌>>=◌, >>=-some, length-append, append_assoc, drop-append_left, arith,
}
use ashttpd.Webroot.{TrieDedge, WebrootFile, WebrootHdr, webroot_invalid_redirect, layout}
use ashttpd.Webroot.Mapped.{
  read_hdr, read_dedge, read_redirect, read_file, read_array, map_hdr, map_image,
}
use ashttpd.Mkroot.{Root, FileObj, Redirect, mime_at}
use ashttpd.Mkroot.Image.{
  Sources, Written, redirect_obj, file_obj, file_objs, header, hdr_bytes, concat_edges,
  concat_redirects, concat_files, mimetab, redirtab, files_begin, strtab_begin,
}
use ashttpd.Mkroot.Image.Parts.{
  HasDigests, AllRead-HasDigests, length-hdr_bytes, length-concat_edges, length-concat_redirects,
}
use ashttpd.Mkroot.Image.Sections.{length-lay_redirects, length-lay_files}
use ashttpd.Mkroot.Image.Numbers.{length-file_objs, length-map_redirects}
use ashttpd.Mkroot.Image.Bytes.{
  IsHdr, IsDedge, IsRedirectObj, IsFileObj, read_hdr-hdr_bytes, read_array-concat_edges,
  read_array-concat_redirects, read_array-concat_files,
}
use ashttpd.Mkroot.Image.Served.{IsBuilt, mapped, laid, image, whole, map_index}
use ashttpd.Mkroot.Image.Opened.{hdr, IsHeader, hdr-IsHeader}

redirect_obj-IsRedirectObj : (objs : List Redirect) → All IsRedirectObj (map redirect_obj objs)
redirect_obj-IsRedirectObj [] = tt
redirect_obj-IsRedirectObj (o ∷ os) = (one o, redirect_obj-IsRedirectObj os)
  where
    one : (o : Redirect) → IsRedirectObj (redirect_obj o)
    one o =
        elim (o.uri)
          as (λ u. IsRedirectObj (elim u [
            | some uri ↦ record { r_off = o.strtab_off % 2 ^ 32; r_len = length uri % 2 ^ 32 }
            | none ↦ record { r_off = webroot_invalid_redirect; r_len = o.code % 2 ^ 32 }
          ])) [
            | some uri ↦ record { off = omega arith; len = omega arith }
            | none ↦ record { off = omega arith; len = omega arith }
          ]

file_objs-IsFileObj :
    (r : Root) (objs : List FileObj) (wfs : List WebrootFile)
    → HasDigests objs
    → file_objs r objs ≡ some wfs
    → All IsFileObj wfs
file_objs-IsFileObj r [] wfs h e = subst (All IsFileObj) (some_inj.0 e) tt
file_objs-IsFileObj r (o ∷ os) wfs (d, ds) e =
    let (wf, made, more) =
      >>=-some (file_obj r o) (λ wf. do wfs ← file_objs r os; some (wf ∷ wfs)) e in
    let (wfs', rest, split) = >>=-some (file_objs r os) (λ wfs. some (wf ∷ wfs)) more in
    let (m, typed, is) = >>=-some (mime_at r.r_mime_type o.type) _ made in
    subst (All IsFileObj) (some_inj.0 split) (
      subst IsFileObj (some_inj.0 is) (record {
        off = omega arith;
        len = omega arith;
        type = omega arith;
        type_len = omega arith;
        modified = omega arith;
        digest = d;
      }),
      file_objs-IsFileObj r os wfs' ds rest,
    )

drop-part : (n : ℕ) (xs pre post : List ℕ) → xs ≡ pre ++ post → length pre ≡ n → drop n xs ≡ post
drop-part n xs pre post e len =
    ap (drop n) e ∙ ap (λ n. drop n (pre ++ post)) (sym len) ∙ drop-append_left pre post

module _ (src : Sources) (pad : ℕ) (trie : List TrieDedge) (r : Root) (w : Written)
    (built : IsBuilt src pad trie r w) (edges : All IsDedge trie) where
  -- The index in its parts.
  module _ (h e s f t : List ℕ) where
    at_edges : ((h ++ (e ++ s)) ++ f) ++ t ≡ h ++ (e ++ (s ++ (f ++ t)))
    at_edges = simp (append_assoc)

    at_redirects : ((h ++ (e ++ s)) ++ f) ++ t ≡ (h ++ e) ++ (s ++ (f ++ t))
    at_redirects = simp (append_assoc)

    at_files : ((h ++ (e ++ s)) ++ f) ++ t ≡ (h ++ (e ++ s)) ++ (f ++ t)
    at_files = simp (append_assoc)

  header-IsHdr : IsHdr (hdr src pad trie r w built)
  unfolding header
  header-IsHdr = record {
    num_edges = omega arith;
    num_redirect = omega arith;
    num_file = omega arith;
    strtab_sz = omega arith;
    magic = omega arith;
    vers = omega arith;
    begin = omega arith;
  }

  abbrev hd : WebrootHdr
  hd = hdr src pad trie r w built

  read_header : read_hdr w.image ≡ hd
  read_header =
      let h = hdr_bytes pad hd in
      let s = concat_redirects (map redirect_obj (laid src pad trie r w built).r_redirect) in
      let t = mimetab r.r_mime_type ++ redirtab r.r_redirect in
      let rest = concat_edges trie ++ (s ++ (concat_files w.files ++ t)) in
      let buf = (image src pad trie r w built).buf in
      let all : w.image ≡ h ++ (rest ++ buf) =
        whole src pad trie r w built
        ∙ ap (λ x. x ++ buf) (at_edges h (concat_edges trie) s (concat_files w.files) t)
        ∙ append_assoc h rest buf in
      ap read_hdr all ∙ read_hdr-hdr_bytes (rest ++ buf) pad hd header-IsHdr

  counts : (length w.redirects ≡ length r.r_redirect) × (length w.files ≡ length r.r_file)
  counts =
      let im = image src pad trie r w built in
      let root = laid src pad trie r w built in
      let off = strtab_begin (length trie) r + length (mimetab r.r_mime_type) in
      (
        ap length im.redirect_objs
            ∙ length-map_redirects root.r_redirect
            ∙ length-lay_redirects off r.r_redirect,
        length-file_objs root im.objs w.files im.structures
            ∙ (AllRead-HasDigests built.laws im.read).1
            ∙ length-lay_files (files_begin (length trie) r) r.r_file,
      )

  map_hdr-mapped :
      (h : WebrootHdr) → IsHeader src pad trie r w built h → map_hdr h w.image ≡ mapped trie r w
  unfolding map_hdr layout
  map_hdr-mapped h is =
      let im = image src pad trie r w built in
      let root = laid src pad trie r w built in
      let front = hdr_bytes pad hd in
      let e = concat_edges trie in
      let s = concat_redirects (map redirect_obj root.r_redirect) in
      let f = concat_files w.files in
      let t = mimetab r.r_mime_type ++ redirtab r.r_redirect in
      let begin : take h.h_files_begin w.image ≡ take (files_begin (length trie) r) w.image =
        ap (λ n. take n w.image) is.begin in
      let idx : take h.h_files_begin w.image ≡ ((front ++ (e ++ s)) ++ f) ++ t =
        begin ∙ map_index src pad trie r w built in
      let len_h = length-hdr_bytes pad hd in
      let len_e = length-concat_edges trie built.short in
      let len_s = length-concat_redirects root.r_redirect in
      let n =
        length-lay_redirects (strtab_begin (length trie) r + length (mimetab r.r_mime_type))
          r.r_redirect in
      let redirs = sym im.redirect_objs in
      let map = take h.h_files_begin w.image in
      let l = layout h in
      let trie_read : read_array read_dedge 18 h.h_num_edges (drop l.trie_at map) ≡ trie =
        ap (λ n. read_array read_dedge 18 n (drop l.trie_at map)) is.num_edges
        ∙ ap (read_array read_dedge 18 (length trie)) (
            drop-part l.trie_at map front (e ++ (s ++ (f ++ t))) (idx ∙ at_edges front e s f t)
              len_h)
        ∙ read_array-concat_edges (s ++ (f ++ t)) trie edges in
      let redir_read : read_array read_redirect 8 h.h_num_redirect (drop l.redir_at map)
          ≡ w.redirects =
        ap (λ n. read_array read_redirect 8 n (drop l.redir_at map))
          (is.num_redirect ∙ sym counts.0)
        ∙ ap (read_array read_redirect 8 (length w.redirects)) (
            drop-part l.redir_at map (front ++ e) (s ++ (f ++ t)) (idx ∙ at_redirects front e s f t)
              (omega (arith, length-append front e, len_h, len_e, is.num_edges))
            ∙ ap (λ x. concat_redirects x ++ (f ++ t)) redirs)
        ∙ read_array-concat_redirects (f ++ t) w.redirects
            (subst (All IsRedirectObj) redirs (redirect_obj-IsRedirectObj root.r_redirect)) in
      let file_read : read_array read_file 48 h.h_num_file (drop l.file_at map) ≡ w.files =
        ap (λ n. read_array read_file 48 n (drop l.file_at map)) (is.num_file ∙ sym counts.1)
        ∙ ap (read_array read_file 48 (length w.files)) (
            drop-part l.file_at map (front ++ (e ++ s)) (f ++ t) (idx ∙ at_files front e s f t) (
              omega (
                arith,
                length-append front (e ++ s),
                length-append e s,
                len_h,
                len_e,
                len_s,
                n,
                is.num_edges,
                is.num_redirect,
              )))
        ∙ read_array-concat_files t w.files (
            file_objs-IsFileObj root im.objs w.files (AllRead-HasDigests built.laws im.read).0
              im.structures) in
      cc (begin, trie_read, redir_read, file_read)

  -- All of the web root is in the bytes of the file.
  pub map_image-mapped : map_image w.image ≡ mapped trie r w
  unfolding map_image
  map_image-mapped =
      ap (λ h. map_hdr h w.image) read_header
      ∙ map_hdr-mapped hd (hdr-IsHeader src pad trie r w built)
