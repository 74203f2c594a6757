-- ===== src/Mkroot/Image/Bytes.antt =====
-- The structures that mkroot.c writes are those that webroot.c reads.
use mathlib.Core.Path.{ap₂}
use ashttpd.Prelude.{
  ℕ, zero, suc, ◌-◌, ◌/◌, ◌^◌, ◌≤◌, ◌<◌, ◌≡◌, refl, sym, ap, ◌∙◌, List, [], ◌∷◌, ◌++◌, length, take,
  drop, All, take-append_left, drop-append_left, append_assoc, length-append, arith,
}
use ashttpd.Webroot.{TrieDedge, WebrootFile, WebrootRedirect, WebrootHdr}
use ashttpd.Webroot.Mapped.{read_le, read_hdr, read_dedge, read_redirect, read_file, read_array}
use ashttpd.Mkroot.Image.{
  le_bytes, zeros, hdr_bytes, edge_bytes, redirect_bytes, file_bytes, concat_edges,
  concat_redirects, concat_files,
}
use ashttpd.Mkroot.Image.Parts.{length-zeros}

-- A number that so many bytes hold.
abbrev Below : (n x : ℕ) → Type 0
Below zero x = x ≡ 0
Below (suc n) x = Below n (x / 256)

read_le-le_bytes : (n x : ℕ) (rest : List ℕ) → Below n x → read_le n (le_bytes n x ++ rest) ≡ x
read_le-le_bytes zero x rest h = sym h
read_le-le_bytes (suc n) x rest h = omega (arith, read_le-le_bytes n (x / 256) rest h)

byte : (x : ℕ) → x < 2 ^ 8 → Below 1 x
byte x h = omega arith

word : (x : ℕ) → x < 2 ^ 32 → Below 4 x
word x h = omega arith

long : (x : ℕ) → x < 2 ^ 64 → Below 8 x
long x h = omega arith

-- Structures whose fields hold their numbers.
pub record IsHdr (h : WebrootHdr) : Type 0 where
  pub num_edges : h.h_num_edges < 2 ^ 32
  pub num_redirect : h.h_num_redirect < 2 ^ 32
  pub num_file : h.h_num_file < 2 ^ 32
  pub strtab_sz : h.h_strtab_sz < 2 ^ 32
  pub magic : h.h_magic < 2 ^ 32
  pub vers : h.h_vers < 2 ^ 32
  pub begin : h.h_files_begin < 2 ^ 32

pub record IsDedge (d : TrieDedge) : Type 0 where
  pub oid : d.re_oid < 2 ^ 32
  pub idx : d.re_edges_idx < 2 ^ 32
  pub num : d.re_num_edges < 2 ^ 8
  pub short : length d.re_str ≤ 8

pub record IsRedirectObj (wr : WebrootRedirect) : Type 0 where
  pub off : wr.r_off < 2 ^ 32
  pub len : wr.r_len < 2 ^ 32

pub record IsFileObj (wf : WebrootFile) : Type 0 where
  pub off : wf.f_off < 2 ^ 64
  pub len : wf.f_len < 2 ^ 64
  pub type : wf.f_type < 2 ^ 32
  pub type_len : wf.f_type_len < 2 ^ 32
  pub modified : wf.f_modified < 2 ^ 32
  pub digest : length wf.f_digest ≡ 20

module _ (rest : List ℕ) where
  pub read_hdr-hdr_bytes :
      (pad : ℕ) (h : WebrootHdr) → IsHdr h → read_hdr (hdr_bytes pad h ++ rest) ≡ h
  unfolding read_hdr hdr_bytes
  read_hdr-hdr_bytes pad h is = cc (
    read_le-le_bytes 4 h.h_num_edges (drop 4 (hdr_bytes pad h ++ rest))
        (word h.h_num_edges is.num_edges),
    read_le-le_bytes 4 h.h_num_redirect (drop 8 (hdr_bytes pad h ++ rest))
        (word h.h_num_redirect is.num_redirect),
    read_le-le_bytes 4 h.h_num_file (drop 12 (hdr_bytes pad h ++ rest))
        (word h.h_num_file is.num_file),
    read_le-le_bytes 4 h.h_strtab_sz (drop 16 (hdr_bytes pad h ++ rest))
        (word h.h_strtab_sz is.strtab_sz),
    read_le-le_bytes 4 h.h_magic (drop 20 (hdr_bytes pad h ++ rest)) (word h.h_magic is.magic),
    read_le-le_bytes 4 h.h_vers (drop 24 (hdr_bytes pad h ++ rest)) (word h.h_vers is.vers),
    read_le-le_bytes 4 h.h_files_begin (drop 28 (hdr_bytes pad h ++ rest))
        (word h.h_files_begin is.begin),
  )

  pub read_redirect-redirect_bytes :
      (wr : WebrootRedirect) → IsRedirectObj wr → read_redirect (redirect_bytes wr ++ rest) ≡ wr
  unfolding read_redirect redirect_bytes
  read_redirect-redirect_bytes wr is = cc (
    read_le-le_bytes 4 wr.r_off (drop 4 (redirect_bytes wr ++ rest)) (word wr.r_off is.off),
    read_le-le_bytes 4 wr.r_len (drop 8 (redirect_bytes wr ++ rest)) (word wr.r_len is.len),
  )

  pub read_file-file_bytes :
      (wf : WebrootFile) → IsFileObj wf → read_file (file_bytes wf ++ rest) ≡ wf
  unfolding read_file file_bytes
  read_file-file_bytes wf is =
      let digest : take 20 (wf.f_digest ++ rest) ≡ wf.f_digest =
        ap (λ n. take n (wf.f_digest ++ rest)) (sym is.digest)
        ∙ take-append_left wf.f_digest rest in
      cc (
        read_le-le_bytes 8 wf.f_off (drop 8 (file_bytes wf ++ rest)) (long wf.f_off is.off),
        read_le-le_bytes 8 wf.f_len (drop 16 (file_bytes wf ++ rest)) (long wf.f_len is.len),
        read_le-le_bytes 4 wf.f_type (drop 20 (file_bytes wf ++ rest)) (word wf.f_type is.type),
        read_le-le_bytes 4 wf.f_type_len (drop 24 (file_bytes wf ++ rest))
            (word wf.f_type_len is.type_len),
        read_le-le_bytes 4 wf.f_modified (drop 28 (file_bytes wf ++ rest))
            (word wf.f_modified is.modified),
        digest,
      )

  pub read_dedge-edge_bytes : (d : TrieDedge) → IsDedge d → read_dedge (edge_bytes d ++ rest) ≡ d
  unfolding read_dedge edge_bytes
  read_dedge-edge_bytes d is =
      let pad = zeros (8 - length d.re_str) in
      let len : read_le 1 (drop 9 (edge_bytes d ++ rest)) ≡ length d.re_str =
        read_le-le_bytes 1 (length d.re_str) ((d.re_str ++ pad) ++ rest)
          (byte (length d.re_str) (omega (arith, is.short))) in
      let text : take (length d.re_str) ((d.re_str ++ pad) ++ rest) ≡ d.re_str =
        ap (take (length d.re_str)) (append_assoc d.re_str pad rest)
        ∙ take-append_left d.re_str (pad ++ rest) in
      cc (
        read_le-le_bytes 4 d.re_oid (drop 4 (edge_bytes d ++ rest)) (word d.re_oid is.oid),
        read_le-le_bytes 4 d.re_edges_idx (drop 8 (edge_bytes d ++ rest))
            (word d.re_edges_idx is.idx),
        read_le-le_bytes 1 d.re_num_edges (drop 9 (edge_bytes d ++ rest))
            (byte d.re_num_edges is.num),
        ap (λ n. take n ((d.re_str ++ pad) ++ rest)) len ∙ text,
      )

length-edge_bytes : (d : TrieDedge) → length d.re_str ≤ 8 → length (edge_bytes d) ≡ 18
unfolding edge_bytes
length-edge_bytes d short = omega (
  arith,
  length-append d.re_str (zeros (8 - length d.re_str)),
  length-zeros (8 - length d.re_str),
)

length-file_bytes : (wf : WebrootFile) → length wf.f_digest ≡ 20 → length (file_bytes wf) ≡ 48
unfolding file_bytes
length-file_bytes wf digest = omega (arith, digest)

-- The bytes of an array, one structure after the other.
drop-front :
    (n : ℕ) (xs ys rest : List ℕ) → length xs ≡ n → drop n ((xs ++ ys) ++ rest) ≡ ys ++ rest
drop-front n xs ys rest e =
    ap (λ n. drop n ((xs ++ ys) ++ rest)) (sym e)
    ∙ ap (drop (length xs)) (append_assoc xs ys rest)
    ∙ drop-append_left xs (ys ++ rest)

module _ (rest : List ℕ) where
  pub read_array-concat_edges :
      (ds : List TrieDedge)
      → All IsDedge ds
      → read_array read_dedge 18 (length ds) (concat_edges ds ++ rest) ≡ ds
  read_array-concat_edges [] h = refl
  read_array-concat_edges (d ∷ ds) (is, h) =
      let more = concat_edges ds in
      let first =
        ap read_dedge (append_assoc (edge_bytes d) more rest)
        ∙ read_dedge-edge_bytes (more ++ rest) d is in
      let next =
        ap (read_array read_dedge 18 (length ds))
          (drop-front 18 (edge_bytes d) more rest (length-edge_bytes d is.short))
        ∙ read_array-concat_edges ds h in
      ap₂ ◌∷◌ first next

  pub read_array-concat_redirects :
      (wrs : List WebrootRedirect)
      → All IsRedirectObj wrs
      → read_array read_redirect 8 (length wrs) (concat_redirects wrs ++ rest) ≡ wrs
  unfolding redirect_bytes
  read_array-concat_redirects [] h = refl
  read_array-concat_redirects (wr ∷ wrs) (is, h) =
      let more = concat_redirects wrs in
      let first =
        ap read_redirect (append_assoc (redirect_bytes wr) more rest)
        ∙ read_redirect-redirect_bytes (more ++ rest) wr is in
      let next =
        ap (read_array read_redirect 8 (length wrs))
          (drop-front 8 (redirect_bytes wr) more rest refl)
        ∙ read_array-concat_redirects wrs h in
      ap₂ ◌∷◌ first next

  pub read_array-concat_files :
      (wfs : List WebrootFile)
      → All IsFileObj wfs
      → read_array read_file 48 (length wfs) (concat_files wfs ++ rest) ≡ wfs
  read_array-concat_files [] h = refl
  read_array-concat_files (wf ∷ wfs) (is, h) =
      let more = concat_files wfs in
      let first =
        ap read_file (append_assoc (file_bytes wf) more rest)
        ∙ read_file-file_bytes (more ++ rest) wf is in
      let next =
        ap (read_array read_file 48 (length wfs))
          (drop-front 48 (file_bytes wf) more rest (length-file_bytes wf is.digest))
        ∙ read_array-concat_files wfs h in
      ap₂ ◌∷◌ first next
