-- ===== src/Mkroot/Image/Parts.antt =====
-- The file that mkroot.c writes, as the sequence of its parts, and their lengths.
use mathlib.Core.Path.{subst}
use mathlib.Core.Option.{some_inj}
use ashttpd.Prelude.{
  ℕ, zero, suc, ◌+◌, ◌-◌, ◌*◌, ◌/◌, ◌≤◌, ◌≡◌, refl, sym, ap, ◌∙◌, inl, inr, List, [], ◌∷◌, ◌++◌,
  some, ◌==◌, length, take, drop, map, ◌>>=◌, >>=-some, All, Bool-cases, ==→eq, length-append,
  take-append_left, drop-drop, drop-append_left, arith,
}
use ashttpd.Webroot.{
  WebrootHdr, TrieDedge, WebrootFile, sizeof_hdr, sizeof_dedge, sizeof_redirect, sizeof_file,
}
use ashttpd.Mkroot.{Root, FileObj, Redirect, mime_at}
use ashttpd.Mkroot.Image.{
  le_bytes, zeros, hdr_bytes, header, edge_bytes, redirect_obj, redirect_bytes, file_obj,
  file_bytes, file_objs, concat_edges, concat_redirects, concat_files, Sources, file_data,
  write_file, write_files, write_at, Written, index_front, strtab, strtab_begin, webroot_write,
}

pub length-le_bytes : (n x : ℕ) → length (le_bytes n x) ≡ n
length-le_bytes zero x = refl
length-le_bytes (suc n) x = ap suc (length-le_bytes n (x / 256))

pub length-hdr_bytes : (pad : ℕ) (hdr : WebrootHdr) → length (hdr_bytes pad hdr) ≡ sizeof_hdr
unfolding hdr_bytes
length-hdr_bytes pad hdr = refl

pub length-zeros : (n : ℕ) → length (zeros n) ≡ n
length-zeros zero = refl
length-zeros (suc n) = ap suc (length-zeros n)

pub length-concat_edges :
    (trie : List TrieDedge)
    → All (λ d. length d.re_str ≤ 8) trie
    → length (concat_edges trie) ≡ sizeof_dedge * length trie
unfolding edge_bytes
length-concat_edges [] h = refl
length-concat_edges (d ∷ ds) (short, h) = omega (
  arith,
  length-append (edge_bytes d) (concat_edges ds),
  length-append d.re_str (zeros (8 - length d.re_str)),
  length-zeros (8 - length d.re_str),
  length-concat_edges ds h,
)

pub length-concat_redirects :
    (objs : List Redirect)
    → length (concat_redirects (map redirect_obj objs)) ≡ sizeof_redirect * length objs
unfolding redirect_bytes
length-concat_redirects [] = refl
length-concat_redirects (obj ∷ objs) = omega (
  arith,
  length-append (redirect_bytes (redirect_obj obj)) (concat_redirects (map redirect_obj objs)),
  length-concat_redirects objs,
)

abbrev pub HasDigests : List FileObj → Type 0
HasDigests objs = All (λ f. length f.digest ≡ 20) objs

file_obj-digest :
    (r : Root) (obj : FileObj) (wf : WebrootFile)
    → file_obj r obj ≡ some wf
    → wf.f_digest ≡ obj.digest
file_obj-digest r obj wf h =
    let (m, _, e) = >>=-some (mime_at r.r_mime_type obj.type) _ h in
    sym (ap (λ w. w.f_digest) (some_inj.0 e))

length-concat_files :
    (r : Root) (objs : List FileObj) (wfs : List WebrootFile)
    → HasDigests objs
    → file_objs r objs ≡ some wfs
    → length (concat_files wfs) ≡ sizeof_file * length objs
unfolding file_bytes
length-concat_files r [] wfs h e = ap (λ w. length (concat_files w)) (sym (some_inj.0 e))
length-concat_files r (obj ∷ objs) wfs (d, ds) e =
    let (wf, made, more) =
      >>=-some (file_obj r obj) (λ wf. do wfs ← file_objs r objs; some (wf ∷ wfs)) e in
    let (wfs', rest, split) = >>=-some (file_objs r objs) (λ wfs. some (wf ∷ wfs)) more in
    let digest = ap length (file_obj-digest r obj wf made) in
    let ih = length-concat_files r objs wfs' ds rest in
    ap (λ w. length (concat_files w)) (sym (some_inj.0 split))
    ∙ (omega (arith, length-append (file_bytes wf) (concat_files wfs'), digest, d, ih))

-- Writing over a part of the same length.
write_at-part :
    (front old new behind : List ℕ)
    → length old ≡ length new
    → write_at (length front) new (front ++ (old ++ behind)) ≡ front ++ (new ++ behind)
write_at-part front old new behind same =
    ap (λ t. t ++ (new ++ drop (length front + length new) (front ++ (old ++ behind))))
      (take-append_left front (old ++ behind))
    ∙ ap (λ t. front ++ (new ++ t))
        (drop-drop (length front) (length new) (front ++ (old ++ behind))
          ∙ ap (drop (length new)) (drop-append_left front (old ++ behind))
          ∙ ap (λ n. drop n (old ++ behind)) (sym same)
          ∙ drop-append_left old behind)

-- A digest has 20 bytes.
abbrev pub IsSources : Sources → Type 0
IsSources src = (bytes : List ℕ) → length (src.sha1 bytes) ≡ 20

-- A file of which all bytes were there.
pub record IsRead (src : Sources) (obj : FileObj) (buf : List ℕ) (obj' : FileObj) : Type 0 where
  pub bytes : List ℕ
  pub there : file_data src obj ≡ some bytes
  pub front : buf ≡ take obj.size bytes
  pub whole : length buf ≡ obj.size
  pub with_digest : obj' ≡ record obj { digest = src.sha1 buf }

write_file-IsRead :
    (src : Sources) (obj obj' : FileObj) (buf : List ℕ)
    → write_file src obj ≡ some (buf, obj')
    → IsRead src obj buf obj'
unfolding write_file
write_file-IsRead src obj obj' buf h =
    let (bytes, there, e) = >>=-some (file_data src obj) _ h in
    let read = take obj.size bytes in
    elim (Bool-cases (length read == obj.size)) [
      | inl whole ↦
          let same : ◌≡◌ {A = List ℕ × FileObj} (read, record obj { digest = src.sha1 read })
              (buf, obj') =
            some_inj.0 (rw whole at e) in
          let text = ap (λ p. p.0) same in
          record {
            bytes = bytes;
            there = there;
            front = sym text;
            whole = ap length (sym text) ∙ ==→eq (length read) obj.size whole;
            with_digest =
                sym (ap (λ p. p.1) same) ∙ ap (λ t. record obj { digest = src.sha1 t }) text;
          }
      | inr part ↦ absurd (ground (arith, e, part))
    ]

-- The files that `write_files` wrote.
pub data AllRead (src : Sources) : List FileObj → List ℕ → List FileObj → Type 0 where
  none_left : AllRead src [] [] []
  one_more :
      {obj obj' : FileObj} {more more' : List FileObj} {buf bufs : List ℕ}
      → IsRead src obj buf obj'
      → AllRead src more bufs more'
      → AllRead src (obj ∷ more) (buf ++ bufs) (obj' ∷ more')

write_files-AllRead :
    (src : Sources) (objs : List FileObj) (out : List ℕ × List FileObj)
    → write_files src objs ≡ some out
    → AllRead src objs out.0 out.1
unfolding write_files
write_files-AllRead src [] out h = subst (λ o. AllRead src [] o.0 o.1) (some_inj.0 h) none_left
write_files-AllRead src (obj ∷ objs) out h =
    let (o, made, more) = >>=-some (write_file src obj) _ h in
    let (os, rest, split) = >>=-some (write_files src objs) _ more in
    subst (λ x. AllRead src (obj ∷ objs) x.0 x.1) (some_inj.0 split)
      (one_more (write_file-IsRead src obj o.1 o.0 made) (write_files-AllRead src objs os rest))

pub AllRead-HasDigests :
    {src : Sources} {objs objs' : List FileObj} {buf : List ℕ}
    → IsSources src
    → AllRead src objs buf objs'
    → HasDigests objs' × (length objs' ≡ length objs)
AllRead-HasDigests laws none_left = (tt, refl)
AllRead-HasDigests {src} laws (one_more {buf} is rest) =
    let (ih, len) = AllRead-HasDigests laws rest in
    ((ap (λ f. length f.digest) is.with_digest ∙ laws buf, ih), ap suc len)

-- The parts of the file.
pub record IsImage (src : Sources) (pad : ℕ) (trie : List TrieDedge) (r : Root) (w : Written)
    : Type 0 where
  pub buf : List ℕ
  pub objs : List FileObj
  pub image_parts : w.image ≡ index_front pad trie r ++ (concat_files w.files ++ (strtab r ++ buf))
  pub redirect_objs : w.redirects ≡ map redirect_obj r.r_redirect
  pub structures : file_objs r objs ≡ some w.files
  pub read : AllRead src r.r_file buf objs
  pub front_size :
      length (index_front pad trie r ++ concat_files w.files) ≡ strtab_begin (length trie) r

pub webroot_write-IsImage :
    (src : Sources) (pad : ℕ) (trie : List TrieDedge) (r : Root) (w : Written)
    → IsSources src
    → HasDigests r.r_file
    → All (λ d. length d.re_str ≤ 8) trie
    → webroot_write src pad trie r ≡ some w
    → IsImage src pad trie r w
unfolding webroot_write hdr_bytes
webroot_write-IsImage src pad trie r w laws digests short h =
    let (wfs, first, e1) = >>=-some (file_objs r r.r_file) _ h in
    let (out, files, e2) = >>=-some (write_files src r.r_file) _ e1 in
    let (wfs', again, e3) = >>=-some (file_objs r out.1) _ e2 in
    let read = write_files-AllRead src r.r_file out files in
    let (digests', same_len) = AllRead-HasDigests laws read in
    let front = index_front pad trie r in
    let size = length-concat_files r r.r_file wfs digests first in
    let size' = length-concat_files r out.1 wfs' digests' again in
    let same : length (concat_files wfs) ≡ length (concat_files wfs') =
      omega (arith, size, size', same_len) in
    let redirects = map redirect_obj r.r_redirect in
    let hdr = header (length trie) r in
    subst (IsImage src pad trie r) (some_inj.0 e3) (record {
      buf = out.0;
      objs = out.1;
      image_parts =
          write_at-part front (concat_files wfs) (concat_files wfs') (strtab r ++ out.0) same;
      redirect_objs = refl;
      structures = again;
      read = read;
      front_size = omega (
        arith,
        length-append front (concat_files wfs'),
        length-append (hdr_bytes pad hdr) (concat_edges trie ++ concat_redirects redirects),
        length-append (concat_edges trie) (concat_redirects redirects),
        length-concat_edges trie short,
        length-concat_redirects r.r_redirect,
        size',
        same_len,
      );
    })
