-- ===== src/Walk/Links.antt =====
-- src/scanner/native.rs: the link that is kept of a file does not depend on the order of the walk.
use storage_harvester.Base.{
  ℕ, ◌≤◌, ◌≡◌, ◌↔◌, ◌⊎◌, refl, sym, ap, subst, ◌∙◌, inl, inr, Bool, true, false, Option, none, some,
  List, [], ◌∷◌, arith, Bool-cases, if◌then◌else◌, none≢some, some_inj,
}
use storage_harvester.Base.Maps.{
  same_pair, same_pair_iff, lookup, lookup-insert_self, lookup-insert_other,
}
use storage_harvester.Tree.Dir.{Inode}
use storage_harvester.Walk.{Link, Links, lower, keep_lowest}

-- The links that a walk comes upon, one after the other.
unfoldable pub keep_all : List (Inode × Link) → Links → Links
keep_all [] links = links
keep_all ((i, l) ∷ offers) links = keep_all offers (keep_lowest i l links)

-- A link that is among those offered for an inode.
abbrev pub Offered : Inode → Link → List (Inode × Link) → Type 0
Offered i l [] = ⊥
Offered i l ((j, m) ∷ offers) = ((j ≡ i) × (m ≡ l)) ⊎ Offered i l offers

-- What an inode's entry comes to, on its own.
abbrev lowest : Inode → List (Inode × Link) → Option Link → Option Link
lowest i [] held = held
lowest i ((j, l) ∷ offers) held =
    lowest i offers (if same_pair j i then (if lower l held then some l else held) else held)

own :
    (j : Inode) (l : Link) (links : Links)
    → lookup same_pair j (keep_lowest j l links) ≡ (
        if same_pair j j
        then (if lower l (lookup same_pair j links) then some l else lookup same_pair j links)
        else lookup same_pair j links)
unfolding keep_lowest
own j l links =
    let same = (same_pair_iff j j).1 refl in
    elim (Bool-cases (lower l (lookup same_pair j links))) [
      | inl low ↦ rw (low, same) (lookup-insert_self same_pair j l links same)
      | inr high ↦ rw (high, same) refl
    ]

lookup-keep_lowest :
    (i j : Inode) (l : Link) (links : Links)
    → lookup same_pair i (keep_lowest j l links) ≡ (
        if same_pair j i
        then (if lower l (lookup same_pair i links) then some l else lookup same_pair i links)
        else lookup same_pair i links)
unfolding keep_lowest
lookup-keep_lowest i j l links = elim (Bool-cases (same_pair j i)) [
  | inl e ↦
      subst
        (λ k. lookup same_pair k (keep_lowest j l links) ≡ (
          if same_pair j k
          then (if lower l (lookup same_pair k links) then some l else lookup same_pair k links)
          else lookup same_pair k links))
        ((same_pair_iff j i).0 e) (own j l links)
  | inr e ↦ elim (Bool-cases (lower l (lookup same_pair j links))) [
    | inl low ↦ rw (low, e) (lookup-insert_other same_pair same_pair_iff j i l links e)
    | inr high ↦ rw (high, e) refl
  ]
]

lookup-keep_all :
    (i : Inode) (offers : List (Inode × Link)) (links : Links)
    → lookup same_pair i (keep_all offers links) ≡ lowest i offers (lookup same_pair i links)
unfolding keep_all
lookup-keep_all i [] links = refl
lookup-keep_all i ((j, l) ∷ offers) links =
    lookup-keep_all i offers (keep_lowest j l links)
    ∙ ap (lowest i offers) (lookup-keep_lowest i j l links)

-- What was held, or offered, at the least key of all.
abbrev IsLeast : Inode → List (Inode × Link) → Option Link → Option Link → Type 0
IsLeast i offers held none = (held ≡ none) × ((l : Link) → Offered i l offers → ⊥)
IsLeast i offers held (some l) =
    ((held ≡ some l) ⊎ Offered i l offers)
    × ((m : Link) → held ≡ some m → l.key ≤ m.key)
    × ((m : Link) → Offered i m offers → l.key ≤ m.key)

true≢false : {b : Bool} → b ≡ true → b ≡ false → ⊥
true≢false e f = cc

le_trans : {a b c : ℕ} → a ≤ b → b ≤ c → a ≤ c
le_trans h k = omega (arith, h, k)

le_antisym : {a b : ℕ} → a ≤ b → b ≤ a → a ≡ b
le_antisym h k = omega (arith, h, k)

lower-le : (l m : Link) (held : Option Link) → held ≡ some m → lower l held ≡ true → l.key ≤ m.key
lower-le l m none e low = absurd (none≢some e)
lower-le l m (some h) e low = subst (λ n. l.key ≤ n.key) (some_inj e) (ground arith)

higher-le : (l p : Link) → lower l (some p) ≡ false → p.key ≤ l.key
higher-le l p high = ground arith

IsLeast-apart :
    (i j : Inode) (l : Link) (offers : List (Inode × Link)) (held o : Option Link)
    → same_pair j i ≡ false
    → IsLeast i offers held o
    → IsLeast i ((j, l) ∷ offers) held o
IsLeast-apart i j l offers held none e (h, nothing) =
    (h, λ m o. elim o [ inl (s, k) ↦ true≢false ((same_pair_iff j i).1 s) e | inr r ↦ nothing m r ])
IsLeast-apart i j l offers held (some x) e (from, below, least) = (
  elim from [ inl h ↦ inl h | inr r ↦ inr (inr r) ],
  below,
  λ m o. elim o [
    | inl (s, k) ↦ absurd (true≢false ((same_pair_iff j i).1 s) e)
    | inr r ↦ least m r
  ],
)

IsLeast-lower :
    (i j : Inode) (l : Link) (offers : List (Inode × Link)) (held o : Option Link)
    → j ≡ i
    → lower l held ≡ true
    → IsLeast i offers (some l) o
    → IsLeast i ((j, l) ∷ offers) held o
IsLeast-lower i j l offers held none s low (h, nothing) = absurd (none≢some (sym h))
IsLeast-lower i j l offers held (some x) s low (from, below, least) = (
  elim from [ inl h ↦ inr (inl (s, some_inj h)) | inr r ↦ inr (inr r) ],
  λ m e. le_trans (below l refl) (lower-le l m held e low),
  λ m o. elim o [ inl (t, k) ↦ subst (λ n. x.key ≤ n.key) k (below l refl) | inr r ↦ least m r ],
)

IsLeast-higher :
    (i j : Inode) (l : Link) (offers : List (Inode × Link)) (held o : Option Link)
    → lower l held ≡ false
    → IsLeast i offers held o
    → IsLeast i ((j, l) ∷ offers) held o
IsLeast-higher i j l offers none o high h = absurd (true≢false refl high)
IsLeast-higher i j l offers (some p) none high (h, nothing) = absurd (none≢some (sym h))
IsLeast-higher i j l offers (some p) (some x) high (from, below, least) = (
  elim from [ inl h ↦ inl h | inr r ↦ inr (inr r) ],
  below,
  λ m o. elim o [
    | inl (t, k) ↦ subst (λ n. x.key ≤ n.key) k (le_trans (below p refl) (higher-le l p high))
    | inr r ↦ least m r
  ],
)

lowest-IsLeast :
    (i : Inode) (offers : List (Inode × Link)) (held : Option Link)
    → IsLeast i offers held (lowest i offers held)
lowest-IsLeast i [] none = (refl, λ l o. o)
lowest-IsLeast i [] (some l) =
    (inl refl, λ m e. subst (λ n. l.key ≤ n.key) (some_inj e) (omega arith), λ m o. elim o [ ])
lowest-IsLeast i ((j, l) ∷ offers) held = elim (Bool-cases (same_pair j i)) [
  | inl s ↦ elim (Bool-cases (lower l held)) [
    | inl low ↦
        rw (s, low)
          (IsLeast-lower i j l offers held (lowest i offers (some l)) ((same_pair_iff j i).0 s) low
            (lowest-IsLeast i offers (some l)))
    | inr high ↦
        rw (s, high)
          (IsLeast-higher i j l offers held (lowest i offers held) high
            (lowest-IsLeast i offers held))
  ]
  | inr s ↦
      rw s (IsLeast-apart i j l offers held (lowest i offers held) s (lowest-IsLeast i offers held))
]

module _ (i : Inode) (xs ys : List (Inode × Link))
    (same : (l : Link) → Offered i l xs ↔ Offered i l ys)
    (apart : (l m : Link) → Offered i l xs → Offered i m xs → l.key ≡ m.key → l ≡ m) where
  offered :
      (zs : List (Inode × Link)) (l : Link) → (none ≡ some l) ⊎ Offered i l zs → Offered i l zs
  offered zs l from = elim from [ inl e ↦ absurd (none≢some e) | inr r ↦ r ]

  IsLeast-unique : (a b : Option Link) → IsLeast i xs none a → IsLeast i ys none b → a ≡ b
  IsLeast-unique none none h k = refl
  IsLeast-unique none (some m) (h, nothing) (from, below, least) =
      absurd (nothing m ((same m).1 (offered ys m from)))
  IsLeast-unique (some l) none (from, below, least) (h, nothing) =
      absurd (nothing l ((same l).0 (offered xs l from)))
  IsLeast-unique (some l) (some m) (from, below, least) (from', below', least') =
      let mine = offered xs l from in
      let others = (same m).1 (offered ys m from') in
      ap some (apart l m mine others (le_antisym (least m others) (least' l ((same l).0 mine))))

  -- Where two walks come upon the same links of a file, in any order and any number of times, and no
  -- two different links of it have one key, both keep the same link.
  pub keep_all-order : lookup same_pair i (keep_all xs []) ≡ lookup same_pair i (keep_all ys [])
  unfolding lookup
  keep_all-order =
      lookup-keep_all i xs []
      ∙ IsLeast-unique (lowest i xs none) (lowest i ys none) (lowest-IsLeast i xs none)
          (lowest-IsLeast i ys none)
      ∙ sym (lookup-keep_all i ys [])
