-- ===== src/Trie/Lookup.antt =====
-- The trie that trie.c writes of sorted strings, searched by `webroot_find` of webroot.c.
use mathlib.Core.Path.{subst}
use ashttpd.Prelude.{
  ℕ, zero, suc, ◌+◌, ◌^◌, ◌≤◌, ◌<◌, ◌≡◌, ◌≢◌, refl, sym, ap, ◌∙◌, ◌⊎◌, inl, inr, List, [], ◌∷◌,
  ◌++◌, Option, none, some, length, get_elem?, All, ltb, Bool-cases, arith,
}
use mathlib.Core.Option.{some_inj}
use ashttpd.Webroot.{TrieDedge, Webroot, r_num_oid, oid_name, webroot_find, gidx_invalid_oid}
use ashttpd.Webroot.Edges
use ashttpd.Webroot.Edges.{Spells, Spells-shift}
use ashttpd.Webroot.Find.{IsWebroot, webroot_find-Spells, webroot_find_complete}
use ashttpd.HttpConn.Get.{WebrootName}
use ashttpd.Trie.{TrieEntry, TrieEdges, no_edges, edge, construct_radix}
use ashttpd.Trie.Layout.{Node, siblings, disk_oid, trie_write}
use ashttpd.Trie.Layout.Place.{IsWritten, Laid}
use ashttpd.Trie.Spells.{Spelled, ends, goes, skips, construct_radix-Spelled}
use ashttpd.Trie.Sound.{Listed, construct_radix-Listed}
use ashttpd.Trie.Sorted.{IsEntry}
use ashttpd.Trie.Nodes.{IsSite}
use ashttpd.Trie.Index.{trie_write-Laid, trie_write-IsIndex, written-IsTrie, trie_write-root}

-- What the tree spells, the array spells.
Laid-Spells :
    (arr : List TrieDedge) {e : TrieEdges} {str : List ℕ} {o : ℕ} (at : ℕ)
    → Spelled e str o
    → Laid arr at e
    → Spells arr at (length (siblings e)) str o
Laid-Spells arr at ends ((d, is, _), _) =
    let z : at ≡ at + 0 = omega arith in
    Edges.ends 0 d (omega arith) (ap (get_elem? arr) (sym z) ∙ is.here) (sym is.text)
      (sym is.object)
Laid-Spells arr at (goes {str} {o} s) ((d, is, laid), _) =
    let z : at ≡ at + 0 = omega arith in
    Edges.goes 0 d str (omega arith) (ap (get_elem? arr) (sym z) ∙ is.here)
      (ap (λ t. t ++ str) (sym is.text))
      (subst (λ n. Spells arr d.re_edges_idx n str o) (sym is.number)
        (Laid-Spells arr d.re_edges_idx s laid))
Laid-Spells arr at (skips {str} {o} {rest} s) (_, laid) =
    let z : suc at ≡ at + 1 = omega arith in
    let n = length (siblings rest) in
    Spells-shift at 1 (suc n) (omega arith)
      (subst (λ p. Spells arr p n str o) z (Laid-Spells arr (suc at) s laid))

-- The edge of the tree that stands at a place of the array.
Laid-at :
    (arr : List TrieDedge) (e : TrieEdges) (at i : ℕ) (d : TrieDedge)
    → Laid arr at e
    → i < length (siblings e)
    → get_elem? arr (at + i) ≡ some d
    → (c : Node) × IsWritten arr (at + i) c d
      × Laid arr d.re_edges_idx c.e_edges
      × ((str : List ℕ) (o : ℕ)
          → Spelled (edge c.e_cmp c.e_terminal c.e_edges no_edges) str o
          → Spelled e str o)
Laid-at arr no_edges at i d laid lt at_d = absurd (omega arith)
Laid-at arr (edge cmp t under rest) at zero d ((d', is, laid), _) lt at_d =
    let z : at ≡ at + 0 = omega arith in
    let same = some_inj.0 (sym is.here ∙ ap (get_elem? arr) z ∙ at_d) in
    let c : Node = record { e_cmp = cmp; e_terminal = t; e_edges = under } in
    (
      c,
      subst (λ x. IsWritten arr (at + 0) c x) same (subst (λ k. IsWritten arr k c d') z is),
      subst (λ x. Laid arr x.re_edges_idx under) same laid,
      λ str o s. alone-Spelled cmp t under rest str o s,
    )
  where
    alone-Spelled :
        (cmp : List ℕ) (t : Option ℕ) (under rest : TrieEdges) (str : List ℕ) (o : ℕ)
        → Spelled (edge cmp t under no_edges) str o
        → Spelled (edge cmp t under rest) str o
    alone-Spelled cmp t under rest str o ends = ends
    alone-Spelled cmp t under rest str o (goes s) = goes s
    alone-Spelled cmp t under rest str o (skips s) = elim s [ ]
Laid-at arr (edge cmp t under rest) at (suc i) d (_, laid) lt at_d =
    let z : suc at + i ≡ at + suc i = omega arith in
    let (c, is, below, up) =
      Laid-at arr rest (suc at) i d laid (omega arith) (ap (get_elem? arr) z ∙ at_d) in
    (c, subst (λ k. IsWritten arr k c d) z is, below, λ str o s. skips (up str o s))

disk_oid-Spelled :
    (c : Node) (str : List ℕ) (o : ℕ)
    → o ≢ gidx_invalid_oid
    → str ≡ c.e_cmp
    → o ≡ disk_oid c.e_terminal
    → Spelled (edge c.e_cmp c.e_terminal c.e_edges no_edges) str o
disk_oid-Spelled c str o real text num =
    subst (λ k. Spelled (edge c.e_cmp c.e_terminal c.e_edges no_edges) k o) (sym text)
      (terminal-Spelled c.e_cmp c.e_terminal c.e_edges num)
  where
    terminal-Spelled :
        (cmp : List ℕ) (t : Option ℕ) (under : TrieEdges)
        → o ≡ disk_oid t
        → Spelled (edge cmp t under no_edges) cmp o
    terminal-Spelled cmp none under e = absurd (real e)
    terminal-Spelled cmp (some x) under e =
        subst (λ k. Spelled (edge cmp (some x) under no_edges) cmp k) (sym e) ends

-- What the array spells for an object, the tree spells.
Spells-Laid :
    (arr : List TrieDedge) (e : TrieEdges) (at n o : ℕ) (str : List ℕ)
    → Laid arr at e
    → n ≡ length (siblings e)
    → o ≢ gidx_invalid_oid
    → Spells arr at n str o
    → Spelled e str o
Spells-Laid arr e at n o str laid len real (Edges.ends i d lt at_d text num) =
    let (c, is, _, up) = Laid-at arr e at i d laid (omega arith) at_d in
    up str o (disk_oid-Spelled c str o real (text ∙ is.text) (num ∙ is.object))
Spells-Laid arr e at n o str laid len real (Edges.goes i d rest lt at_d text s) =
    let (c, is, below, up) = Laid-at arr e at i d laid (omega arith) at_d in
    let ih =
      Spells-Laid arr c.e_edges d.re_edges_idx d.re_num_edges o rest below is.number real s in
    up str o (
      subst (λ k. Spelled (edge c.e_cmp c.e_terminal c.e_edges no_edges) k o)
        (sym (text ∙ ap (λ t. t ++ rest) is.text)) (goes ih))

Listed-lt :
    (m : ℕ) (ent : List TrieEntry) (str : List ℕ) (o : ℕ)
    → All (IsEntry m) ent
    → Listed ent 0 str o
    → o < m
Listed-lt m [] str o h l = elim l [ ]
Listed-lt m (t ∷ ts) str o (h, hs) (inl (_, num)) = omega (arith, h.known)
Listed-lt m (t ∷ ts) str o (h, hs) (inr l) = Listed-lt m ts str o hs l

-- One of the strings is spelled.
Listed-Spelled :
    (root : TrieEdges) (ent : List TrieEntry) (str : List ℕ) (o : ℕ)
    → All (λ t. Spelled root t.t_str t.t_oid) ent
    → Listed ent 0 str o
    → Spelled root str o
Listed-Spelled root [] str o h l = elim l [ ]
Listed-Spelled root (t ∷ ts) str o (h, hs) (inl (text, num)) =
    subst (λ k. Spelled root k o) text (subst (λ k. Spelled root t.t_str k) num h)
Listed-Spelled root (t ∷ ts) str o (h, hs) (inr l) = Listed-Spelled root ts str o hs l

oid_name-lt :
    (r : Webroot) (o : ℕ) (name : WebrootName) → oid_name r o ≡ some name → o < r_num_oid r
unfolding oid_name
oid_name-lt r o name h = elim (Bool-cases (ltb o (r_num_oid r))) [
  | inl y ↦ ground (arith, y)
  | inr n ↦ absurd (ground (arith, h, n))
]

module _ (r : Webroot) (ent : List TrieEntry) (site : IsSite (r_num_oid r) ent)
    (written : trie_write ent ≡ some r.r_trie) (numbers : r_num_oid r ≤ 0xffffffff) where
  site-IsWebroot : IsWebroot r
  site-IsWebroot = record {
    root = trie_write-root (r_num_oid r) ent r.r_trie site written;
    index = trie_write-IsIndex (r_num_oid r) ent r.r_trie site written;
    numbers = numbers;
  }

  laid : Laid r.r_trie 0 (construct_radix ent)
  laid = trie_write-Laid (r_num_oid r) ent r.r_trie site written

  Listed-Spells : (str : List ℕ) (o : ℕ) → Listed ent 0 str o → Spells r.r_trie 0 1 str o
  unfolding construct_radix
  Listed-Spells str o l =
      Laid-Spells r.r_trie 0
        (Listed-Spelled (construct_radix ent) ent str o (construct_radix-Spelled ent) l) laid

  Spells-Listed :
      (str : List ℕ) (o : ℕ) → o ≢ gidx_invalid_oid → Spells r.r_trie 0 1 str o → Listed ent 0 str o
  unfolding construct_radix
  Spells-Listed str o real s =
      construct_radix-Listed ent str o
        (Spells-Laid r.r_trie (construct_radix ent) 0 1 o str laid refl real s)

  -- A string is found with the name of its object.
  pub webroot_find_entry :
      (str after : List ℕ) (o : ℕ)
      → length str < 2 ^ 64
      → 7 ≤ length after
      → Listed ent 0 str o
      → (name : WebrootName) × (oid_name r o ≡ some name)
        × (webroot_find r (str ++ 0 ∷ after) (length str) ≡ some (some name))
  webroot_find_entry str after o short room l =
      webroot_find_complete r site-IsWebroot str after short room o
        (written-IsTrie (r_num_oid r) ent r.r_trie site written) (Listed-Spells str o l)
        (Listed-lt (r_num_oid r) ent str o site.entries l)

  -- In a web root whose trie was written for sorted strings, a search finds a string exactly if it is one
  -- of them, and then the name of its object. The strings have no NUL, from 1 to 255 bytes, and objects of
  -- the web root, of which there are less than 2 ^ 32; the string that is looked for is followed by a NUL
  -- and seven bytes more.
  pub webroot_find-Listed :
      (str after : List ℕ)
      → length str < 2 ^ 64
      → 7 ≤ length after
      → ((webroot_find r (str ++ 0 ∷ after) (length str) ≡ some none)
          × ((o : ℕ) → ¬ Listed ent 0 str o))
        ⊎ ((o : ℕ) × (name : WebrootName) × Listed ent 0 str o
            × (oid_name r o ≡ some name)
            × (webroot_find r (str ++ 0 ∷ after) (length str) ≡ some (some name)))
  webroot_find-Listed str after short room =
      elim (webroot_find-Spells r site-IsWebroot str after short room) [
        | inl nothing ↦ inl (
          nothing,
          λ o l.
              let (name, named, found) = webroot_find_entry str after o short room l in
              cc (sym nothing ∙ found),
        )
        | inr (o, name, s, named, found) ↦ inr (
          o,
          name,
          Spells-Listed str o (λ e. absurd (omega (arith, oid_name-lt r o name named))) s,
          named,
          found,
        )
      ]
