-- ===== src/Tests/Scan.antt =====
-- mkroot.c at a directory that holds the file "a" and the directory "d", with the link "x" to "y" in it.
use mathlib.Core.List.{Permᴰ}
use ashttpd.Trie.Sorted.{Less}
use ashttpd.Trie.Nodes.{IsSite}
use ashttpd.Mkroot.Image.{trie_entries}
use ashttpd.Mkroot.Scan.Uris.{uris}
use ashttpd.Mkroot.Scan.Sorted.{IsSorting, IsUri, scan_root-IsSite}
use ashttpd.Prelude.{
  ◌⊎◌, inl, inr, All, ◌≡◌, refl, ℕ, List, [], arith, ◌∷◌, Option, none, some, true, codes, map,
}
use ashttpd.Mkroot.{redirect_at, file_at, Root, Redirect, Uri, root_new}
use ashttpd.Mkroot.Scan.{Stat, Item, System, reg, dir, link, entry, end, enoent, scan_root}
use ashttpd.Mkroot.Scan.Objects.{IsRoot}
use ashttpd.Mkroot.Scan.Names.{IsTree}
use ashttpd.Mkroot.Scan.Walk.{scan_root-IsRoot}

abbrev inode : ℕ → Stat
inode n = record { st_dev = 1; st_ino = n; st_mtime = 4; st_size = 3; is_reg = true }

-- There is no page "index.html", and each file is a text.
abbrev served : System
served = record {
  r_base = codes "/srv";
  stat = λ path. enoent;
  magic_file = λ path. codes "text/plain";
}

abbrev tree : Item
tree = dir (inode 2) (
    entry (codes ".git") (dir (inode 5) end) (
      entry (codes "a") (reg (inode 3))
        (entry (codes "d") (dir (inode 4) (entry (codes "x") (link (some (codes "y"))) end)) end)))

abbrev or_new : Option Root → Root
or_new none = root_new
or_new (some r) = r

abbrev tree_root : Root
tree_root = or_new (scan_root served tree)

tree_root-scanned : scan_root served tree ≡ some tree_root
unfolding scan_root
tree_root-scanned = refl

tree_root-redirects :
    map (λ (o : Redirect). o.uri) tree_root.r_redirect
    ≡ some (codes "/d/") ∷ some (codes "/d/y") ∷ []
unfolding scan_root
tree_root-redirects = refl

tree_root-uris :
    map (λ (u : Uri). u.u_uri) tree_root.r_uri
    ≡ codes "/" ∷ codes "/a" ∷ codes "/d/" ∷ codes "/d/x" ∷ codes "/d" ∷ []
unfolding scan_root
tree_root-uris = refl

scan_root-IsRoot_example : IsRoot [] tree_root
scan_root-IsRoot_example = scan_root-IsRoot served tree tree_root tree_root-scanned

tree-IsTree : IsTree tree
unfolding IsTree
tree-IsTree = (
  (omega arith, (omega arith, (omega arith, (omega arith, (omega arith, tt))))),
  tt,
  (λ e. absurd (ground (arith, e)), (λ e. absurd (ground (arith, e)), tt)),
  (
    (omega arith, (omega arith, tt)),
    tt,
    (λ e. absurd (ground (arith, e)), tt),
    ((omega arith, (omega arith, tt)), ((omega arith, (omega arith, tt)), tt, tt, tt), tt, tt),
  ),
)

abbrev d_slash : Uri
d_slash = record { u_obj = file_at 2; u_uri = codes "/d/" }

abbrev d_x : Uri
d_x = record { u_obj = redirect_at 1; u_uri = codes "/d/x" }

abbrev d_uri : Uri
d_uri = record { u_obj = redirect_at 0; u_uri = codes "/d" }

-- "/d" comes before what is in it.
abbrev sorted_uris : List Uri
sorted_uris =
    record { u_obj = file_at 0; u_uri = codes "/" }
    ∷ record { u_obj = file_at 1; u_uri = codes "/a" }
    ∷ d_uri
    ∷ d_slash
    ∷ d_x
    ∷ []

tree_root-sorted : IsSorting tree_root.r_uri sorted_uris
unfolding scan_root
tree_root-sorted = record {
  perm = Permᴰ.cons refl (
      Permᴰ.cons refl (
        Permᴰ.trans {l₂ = d_slash ∷ d_uri ∷ d_x ∷ []} (Permᴰ.cons refl (Permᴰ.swap refl refl))
          (Permᴰ.swap refl refl)));
  ordered = (
    (later_end, (later_end, (later_end, (later_end, tt)))),
    (
      (larger, (larger, (larger, tt))),
      (
        (inr (inr (refl, inr (refl, tt))), (inr (inr (refl, inr (refl, tt))), tt)),
        ((inr (inr (refl, inr (refl, inr (refl, tt)))), tt), (tt, tt)),
      ),
    ),
  );
}
  where
    later_end : {c : ℕ} {cs : List ℕ} → (codes "/" ≡ 47 ∷ c ∷ cs) ⊎ Less (codes "/") (47 ∷ c ∷ cs)
    later_end = inr (inr (refl, tt))

    larger : {cs : List ℕ} → (codes "/a" ≡ 47 ∷ 100 ∷ cs) ⊎ Less (codes "/a") (47 ∷ 100 ∷ cs)
    larger = inr (inr (refl, inl (omega arith)))

tree_root-short : All IsUri (uris tree_root)
unfolding scan_root
tree_root-short = ground arith

scan_root-IsSite_example : IsSite 5 (trie_entries tree_root sorted_uris)
unfolding scan_root
scan_root-IsSite_example =
    scan_root-IsSite served tree tree_root sorted_uris tree-IsTree tree_root-scanned tree_root-short
      tree_root-sorted
