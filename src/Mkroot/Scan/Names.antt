-- ===== src/Mkroot/Scan/Names.antt =====
-- The URIs of mkroot.c under a name: those of different names in a directory differ.
use ashttpd.Prelude.{
  ℕ, suc, ◌<◌, ◌≡◌, ◌≢◌, refl, sym, ap, ◌∙◌, ◌⊎◌, inl, inr, List, [], ◌∷◌, ◌++◌, false, length, All,
  All-append, length-append, append_assoc, arith,
}
use ashttpd.Mkroot.{ends_slash, begins_slash, path_splice}
use ashttpd.Mkroot.Scan.{Item, bad, reg, dir, link, other, Entries, closed, end, entry}

-- No two are the same.
abbrev pub NoTwo : List (List ℕ) → Type 0
NoTwo [] = Unit
NoTwo (x ∷ xs) = All (λ y. x ≢ y) xs × NoTwo xs

pub NoTwo-append :
    (xs ys : List (List ℕ))
    → NoTwo xs
    → NoTwo ys
    → All (λ x. All (λ y. x ≢ y) ys) xs
    → NoTwo (xs ++ ys)
NoTwo-append [] ys h k d = k
NoTwo-append (x ∷ xs) ys h k d =
    (All-append (λ y. x ≢ y) xs ys h.0 d.0, NoTwo-append xs ys h.1 k d.1)

-- A name in a directory.
abbrev pub IsName : List ℕ → Type 0
IsName d = (0 < length d) × All (λ c. c ≢ 47) d

abbrev pub Absent : List ℕ → Entries → Type 0
Absent d closed = Unit
Absent d end = Unit
Absent d (entry d_name item es) = (d ≢ d_name) × Absent d es

-- Each directory has each name once.
unfoldable mutual
  pub IsTree : Item → Type 0
  IsTree bad = Unit
  IsTree (reg st) = Unit
  IsTree (dir st es) = IsDir es
  IsTree (link to) = Unit
  IsTree other = Unit

  pub IsDir : Entries → Type 0
  IsDir closed = Unit
  IsDir end = Unit
  IsDir (entry d_name item es) = IsName d_name × IsTree item × Absent d_name es × IsDir es

-- What may follow a name.
abbrev pub Tail : List ℕ → Type 0
Tail [] = Unit {0}
Tail (c ∷ cs) = c ≡ 47

abbrev pub Under : (u x : List ℕ) → Type 0
Under u x = (rest : List ℕ) × (x ≡ u ++ rest) × Tail rest × (0 < length x)

-- Under one of the entries.
abbrev pub In : Entries → (u x : List ℕ) → Type 0
In closed u x = ⊥
In end u x = ⊥
In (entry d_name item es) u x = Under (u ++ (47 ∷ d_name)) x ⊎ In es u x

ends_slash-name : (c : ℕ) (cs : List ℕ) → All (λ c. c ≢ 47) (c ∷ cs) → ends_slash (c ∷ cs) ≡ false
ends_slash-name c [] h = ground (arith, h.0)
ends_slash-name c (d ∷ cs) h = ends_slash-name d cs h.1

pub ends_slash-child : (u d : List ℕ) → IsName d → ends_slash (u ++ (47 ∷ d)) ≡ false
ends_slash-child [] [] h = absurd (omega (arith, h.0))
ends_slash-child [] (c ∷ cs) h = ends_slash-name c cs h.1
ends_slash-child (a ∷ []) d h = ends_slash-child [] d h
ends_slash-child (a ∷ b ∷ us) d h = ends_slash-child (b ∷ us) d h

begins_slash-name : (d : List ℕ) → IsName d → begins_slash d ≡ false
begins_slash-name [] h = refl
begins_slash-name (c ∷ cs) h = ground (arith, h.1.0)

pub path_splice-child :
    (u d : List ℕ) → ends_slash u ≡ false → IsName d → path_splice u d ≡ u ++ (47 ∷ d)
unfolding path_splice
path_splice-child u d e h = rw (path_splice, e, begins_slash-name d h) refl

append-same : (u xs ys : List ℕ) → u ++ xs ≡ u ++ ys → xs ≡ ys
append-same [] xs ys e = e
append-same (c ∷ u) xs ys e = append-same u xs ys (cc e)

name-split :
    (d d' xs ys : List ℕ)
    → All (λ c. c ≢ 47) d
    → All (λ c. c ≢ 47) d'
    → Tail xs
    → Tail ys
    → d ++ xs ≡ d' ++ ys
    → d ≡ d'
name-split [] [] xs ys h h' t t' e = refl
name-split [] (c ∷ cs) [] ys h h' t t' e = absurd (cc e)
name-split [] (c ∷ cs) (x ∷ xs) ys h h' t t' e = absurd (h'.0 (cc (e, t)))
name-split (c ∷ cs) [] xs [] h h' t t' e = absurd (cc e)
name-split (c ∷ cs) [] xs (y ∷ ys) h h' t t' e = absurd (h.0 (cc (e, t')))
name-split (c ∷ cs) (d ∷ ds) xs ys h h' t t' e =
    let same : c ≡ d = cc e in
    let rest = name-split cs ds xs ys h.1 h'.1 t t' (cc e) in cc (same, rest)

pub Under-differ :
    (u d d' x y : List ℕ)
    → IsName d
    → IsName d'
    → d ≢ d'
    → Under (u ++ (47 ∷ d)) x
    → Under (u ++ (47 ∷ d')) y
    → x ≢ y
Under-differ u d d' x y h h' differ (xs, ex, t, some_bytes) (ys, ey, t', more_bytes) e =
    let same = sym (append_assoc u (47 ∷ d) xs) ∙ sym ex ∙ e ∙ ey ∙ append_assoc u (47 ∷ d') ys in
    let cut =
      append-same (47 ∷ []) (d ++ xs) (d' ++ ys)
        (append-same u (47 ∷ (d ++ xs)) (47 ∷ (d' ++ ys)) same) in
    differ (name-split d d' xs ys h.1 h'.1 t t' cut)

pub In-differ :
    (es : Entries) (u d x y : List ℕ)
    → IsName d
    → Absent d es
    → IsDir es
    → Under (u ++ (47 ∷ d)) x
    → In es u y
    → x ≢ y
unfolding IsDir
In-differ closed u d x y h a k under inside = elim inside [ ]
In-differ end u d x y h a k under inside = elim inside [ ]
In-differ (entry d' item es) u d x y h a k under (inl at) =
    let (name, tree, absent, rest) = k in Under-differ u d d' x y h name a.0 under at
In-differ (entry d' item es) u d x y h a k under (inr later) =
    let (name, tree, absent, rest) = k in In-differ es u d x y h a.1 rest under later

pub In-long : (es : Entries) (u x : List ℕ) → IsDir es → In es u x → suc (length u) < length x
unfolding IsDir
In-long closed u x k inside = elim inside [ ]
In-long end u x k inside = elim inside [ ]
In-long (entry d item es) u x k (inl (rest, e, t, long)) =
    let (name, tree, absent, others) = k in
    omega (arith, name.0, ap length e, length-append (u ++ (47 ∷ d)) rest, length-append u (47 ∷ d))
In-long (entry d item es) u x k (inr later) =
    let (name, tree, absent, rest) = k in In-long es u x rest later

pub In-Under : (es : Entries) (u x : List ℕ) → In es u x → Under u x
In-Under closed u x inside = elim inside [ ]
In-Under end u x inside = elim inside [ ]
In-Under (entry d item es) u x (inl (rest, e, t, long)) =
    (47 ∷ (d ++ rest), e ∙ append_assoc u (47 ∷ d) rest, refl, long)
In-Under (entry d item es) u x (inr later) = In-Under es u x later
