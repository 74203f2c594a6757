-- ===== src/Mkroot/Image/Looked.antt =====
-- The URIs that mkroot.c puts into an index, looked up by `webroot_find` of webroot.c.
use mathlib.Core.Path.{subst}
use mathlib.Core.Option.{some_inj}
use ashttpd.Webroot.Mapped.{map_image}
use ashttpd.Webroot.Edges.{AllEdges}
use ashttpd.Mkroot.Image.Bytes.{IsDedge}
use ashttpd.Mkroot.Image.Read.{map_image-mapped}
use ashttpd.Trie.Index.{trie_write-array, trie_write-IsIndex}
use ashttpd.Prelude.{
  All, suc, ◌≤◌, ℕ, zero, suc, ◌+◌, ◌^◌, ◌≤◌, ◌<◌, ◌≡◌, sym, ap, ◌∙◌, inl, inr, List, [], ◌∷◌, ◌++◌,
  some, length, get_elem?, All, arith,
}
use ashttpd.Vec.{vec}
use ashttpd.HttpConn.Get.{FileData, WebrootName, http_found, http_moved_permanently}
use ashttpd.Webroot.{TrieDedge, oid_name, webroot_find}
use ashttpd.Trie.{construct_radix}
use ashttpd.Trie.Layout.{Placed, layout_radix, trie_write_trie, trie_write}
use ashttpd.Trie.Layout.Place.{trie_write_trie-cons, node_to_disk-short}
use ashttpd.Trie.Sound.{Listed}
use ashttpd.Trie.Nodes.{IsSite}
use ashttpd.Trie.Lookup.{webroot_find_entry}
use ashttpd.Mkroot.{FileObj, Redirect, redirect_at, file_at, Uri, Root}
use ashttpd.Mkroot.Image.{
  o_oid, trie_entries, Sources, Written, files_begin, webroot_prep, webroot_write,
}
use ashttpd.Mkroot.Image.Parts.{IsSources, HasDigests}
use ashttpd.Mkroot.Image.Served.{
  mapped, IsBuilt, IsServed, oid_name-IsServed, oid_name-moved, number-small,
}

trie_write_trie-short :
    (order : List Placed) (arr : List TrieDedge)
    → trie_write_trie order ≡ some arr
    → All (λ d. length d.re_str ≤ 8) arr
unfolding trie_write_trie
trie_write_trie-short [] arr h = subst (All (λ d. length d.re_str ≤ 8)) (some_inj.0 h) tt
trie_write_trie-short (e ∷ es) arr h =
    let (d, ds, written, rest, split) = trie_write_trie-cons e es arr h in
    subst (All (λ d. length d.re_str ≤ 8)) (sym split)
      (node_to_disk-short e d written, trie_write_trie-short es ds rest)

trie_entries-Listed :
    (r : Root) (us : List Uri) (k : ℕ) (u : Uri)
    → get_elem? us k ≡ some u
    → Listed (trie_entries r us) 0 u.u_uri (o_oid r u.u_obj)
trie_entries-Listed r [] k u h = absurd (ground (arith, h))
trie_entries-Listed r (v ∷ vs) zero u h =
    inl (ap (λ x. x.u_uri) (some_inj.0 h), ap (λ x. o_oid r x.u_obj) (some_inj.0 h))
trie_entries-Listed r (v ∷ vs) (suc k) u h = inr (trie_entries-Listed r vs k u h)

AllEdges-IsDedge :
    (m size at : ℕ) (es : List TrieDedge)
    → m < 0xffffffff
    → size < 2 ^ 32
    → AllEdges m size at es
    → All IsDedge es
AllEdges-IsDedge m size at [] lt few h = tt
AllEdges-IsDedge m size at (e ∷ es) lt few (is, h) = (
  record {
    oid = elim is.known [
      | inl none_here ↦ omega (arith, none_here)
      | inr known ↦ omega (arith, known, lt)
    ];
    idx = omega (arith, is.inside, few);
    num = is.few;
    short = is.short;
  },
  AllEdges-IsDedge m size (suc at) es lt few h,
)

-- A file that was built of the sorted URIs `us` of a root: the URIs differ, have from 1 to 255 bytes,
-- none of which is NUL, and objects of the root, 32 bits reach the end of the
-- index, and 64 bits that of the file.
pub record IsFinished (src : Sources) (pad : ℕ) (us : List Uri) (trie : List TrieDedge) (r : Root)
    (w : Written) : Type 0 where
  pub laws : IsSources src
  pub digests : HasDigests r.r_file
  pub site : IsSite (length r.r_redirect + length r.r_file) (trie_entries r us)
  pub tried : trie_write (trie_entries r us) ≡ some trie
  pub small : files_begin (length trie) r < 0xffffffff
  pub fits : length w.image < 2 ^ 64
  pub written : webroot_write src pad trie (webroot_prep (length trie) r) ≡ some w

module _ (src : Sources) (pad : ℕ) (us : List Uri) (trie : List TrieDedge) (r : Root) (w : Written)
    (done : IsFinished src pad us trie r w) where
  pub built : IsBuilt src pad trie r w
  built = record {
    laws = done.laws;
    digests = done.digests;
    short =
        trie_write_trie-short (layout_radix (construct_radix (trie_entries r us))) trie
          (trie_write-array (trie_entries r us) trie done.tried);
    small = done.small;
    written = done.written;
  }

  dedges : All IsDedge trie
  dedges =
      let m = length r.r_redirect + length r.r_file in
      AllEdges-IsDedge m (length trie) 0 trie (omega (arith, done.small))
        (omega (arith, done.small))
        (trie_write-IsIndex m (trie_entries r us) trie done.site done.tried)

  read : map_image w.image ≡ mapped trie r w
  read = map_image-mapped src pad trie r w built dedges

  found :
      (k : ℕ) (u : Uri) (after : List ℕ)
      → get_elem? us k ≡ some u
      → length u.u_uri < 2 ^ 64
      → 7 ≤ length after
      → (name : WebrootName) × (oid_name (mapped trie r w) (o_oid r u.u_obj) ≡ some name)
        × (webroot_find (mapped trie r w) (u.u_uri ++ 0 ∷ after) (length u.u_uri)
            ≡ some (some name))
  found k u after at len room =
      let (count, small) = number-small src pad trie r w built in
      webroot_find_entry (mapped trie r w) (trie_entries r us)
        (subst (λ n. IsSite n (trie_entries r us)) (sym count) done.site) done.tried small u.u_uri
        after (o_oid r u.u_obj) len room (trie_entries-Listed r us k u at)

  same_find :
      (u : Uri) (after : List ℕ)
      → webroot_find (map_image w.image) (u.u_uri ++ 0 ∷ after) (length u.u_uri)
        ≡ webroot_find (mapped trie r w) (u.u_uri ++ 0 ∷ after) (length u.u_uri)
  same_find u after = ap (λ site. webroot_find site (u.u_uri ++ 0 ∷ after) (length u.u_uri)) read

  -- In the file that mkroot writes without an error of sorted URIs that differ, have from 1 to 255 bytes
  -- without NUL and objects of the root, with an index that 32 bits reach and a length of 64 bits, the search for a URI of
  -- a
  -- file, followed by a NUL and seven bytes more, finds it in the web root that webroot.c maps of the bytes of the
  -- file: it gives the mime type of the file, the digest of its bytes
  -- as its tag, and where these bytes stand in what was written.
  pub webroot_find-IsServed :
      (k i : ℕ) (u : Uri) (obj : FileObj) (after : List ℕ)
      → get_elem? us k ≡ some u
      → u.u_obj ≡ file_at i
      → get_elem? r.r_file i ≡ some obj
      → length u.u_uri < 2 ^ 64
      → 7 ≤ length after
      → (f : FileData) × IsServed src r obj w.image f
        × (webroot_find (map_image w.image) (u.u_uri ++ 0 ∷ after) (length u.u_uri)
            ≡ some (some (http_found f)))
  webroot_find-IsServed k i u obj after at to at_obj len room =
      let (name, named, e) = found k u after at len room in
      let (f, is_f, served) = oid_name-IsServed src pad trie r w built i obj done.fits at_obj in
      let same : name ≡ http_found f =
        some_inj.0 (sym named ∙ ap (λ o. oid_name (mapped trie r w) (o_oid r o)) to ∙ is_f) in
      (f, served, same_find u after ∙ e ∙ ap (λ n. some (some n)) same)

  -- In the file that mkroot writes without an error of sorted URIs that differ, have from 1 to 255 bytes
  -- without NUL and objects of the root, with an index that 32 bits reach and a length of 64 bits, the search for a URI of
  -- a
  -- redirect, followed by a NUL and seven bytes more, finds it in the web root that webroot.c maps of the bytes of the
  -- file, with the target of the redirect.
  pub webroot_find_moved :
      (k i : ℕ) (u : Uri) (obj : Redirect) (uri after : List ℕ)
      → get_elem? us k ≡ some u
      → u.u_obj ≡ redirect_at i
      → get_elem? r.r_redirect i ≡ some obj
      → obj.uri ≡ some uri
      → length u.u_uri < 2 ^ 64
      → 7 ≤ length after
      → webroot_find (map_image w.image) (u.u_uri ++ 0 ∷ after) (length u.u_uri)
        ≡ some (some (http_moved_permanently (vec uri)))
  webroot_find_moved k i u obj uri after at to at_obj target len room =
      let (name, named, e) = found k u after at len room in
      let is_moved = oid_name-moved src pad trie r w built i obj uri at_obj target in
      same_find u after
      ∙ e
      ∙ ap some (sym named ∙ ap (λ o. oid_name (mapped trie r w) (o_oid r o)) to ∙ is_moved)
