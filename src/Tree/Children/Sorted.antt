-- ===== src/Tree/Children/Sorted.antt =====
-- src/tree.rs: the binary search by name, as a lookup in the list of names and children.
use Prim.Native.Nat.{Ordering}
use storage_harvester.Base.{
  Ordering-cases, ℕ, zero, suc, ◌≡◌, refl, ap, ◌≢◌, ◌⊎◌, inl, inr, Option, none, some, List, [],
  ◌∷◌, if◌then◌else◌, set, get_elem?, arith, ◌∙◌, sym, subst, ℕ_discrete, some_inj,
  get_elem?-set_self, get_elem?-set_ne, get_elem?_lt,
}
use storage_harvester.Base.Bytes.{
  Bytes, cmp, eqb, cmp_self, cmp_eq, cmp_flip, cmp_flip_gt, cmp_trans, eqb_iff,
}
use storage_harvester.Base.Result.{ok}
use storage_harvester.Tree.Dir.{DirNode}
use storage_harvester.Tree.Children.{
  Search, found, absent, later, search, insert_at, child_at, child_named, attach,
}

Search-cases : (s : Search) → ((k : ℕ) × (s ≡ found k)) ⊎ ((k : ℕ) × (s ≡ absent k))
Search-cases (found k) = inl (k, refl)
Search-cases (absent k) = inr (k, refl)

-- `Named nodes cs l`: each child stands in `l` with its name.
pub data Named (nodes : List DirNode) : List ℕ → List (Bytes × ℕ) → Type 0 where
  nil : Named nodes [] []
  cons :
      {c : ℕ} {x : Bytes} {cs : List ℕ} {l : List (Bytes × ℕ)} (n : DirNode)
      → get_elem? nodes c ≡ some n
      → n.name ≡ x
      → Named nodes cs l
      → Named nodes (c ∷ cs) ((x, c) ∷ l)

abbrev pub search_names : Bytes → List (Bytes × ℕ) → Search
search_names x [] = absent 0
search_names x ((n, c) ∷ l) = elim (cmp n x) [
  | Ordering.lt ↦ later (search_names x l)
  | Ordering.eq ↦ found 0
  | Ordering.gt ↦ absent 0
]

abbrev pub pick : Bytes → List (Bytes × ℕ) → Option ℕ
pick x [] = none
pick x ((n, c) ∷ l) = elim (cmp n x) [
  | Ordering.lt ↦ pick x l
  | Ordering.eq ↦ some c
  | Ordering.gt ↦ none
]

search-names :
    {nodes : List DirNode} (x : Bytes) {cs : List ℕ} {l : List (Bytes × ℕ)}
    → Named nodes cs l
    → search nodes x cs ≡ ok (search_names x l)
unfolding search
search-names x nil = refl
search-names x (cons n e k r) = ground (arith, search-names x r)

child_at-names :
    {nodes : List DirNode} (x : Bytes) {cs : List ℕ} {l : List (Bytes × ℕ)}
    → Named nodes cs l
    → child_at cs (search_names x l) ≡ ok (pick x l)
child_at-names x nil = refl
child_at-names x (cons n e k r) = ground (arith, child_at-names x r)

absent_later : (s : Search) (k : ℕ) → later s ≡ absent (suc k) → s ≡ absent k
absent_later (found j) k e = cc
absent_later (absent j) k e = ground arith

-- A new name, inserted where the search says, is found, and changes no other lookup.
pick-insert_at :
    (x y : Bytes) (c : ℕ) (l : List (Bytes × ℕ)) (k : ℕ)
    → search_names x l ≡ absent k
    → pick y (insert_at k (x, c) l) ≡ (if eqb x y then some c else pick y l)
unfolding insert_at
pick-insert_at x y c [] zero e = ground (arith, eqb_iff x y, cmp_eq x y, cmp_self x)
pick-insert_at x y c [] (suc k) e = cc
pick-insert_at x y c ((n, d) ∷ l) zero e = ground (
  arith,
  eqb_iff x y,
  cmp_eq x y,
  cmp_self x,
  cmp_flip_gt n x,
  cmp_flip_gt x y,
  cmp_trans y x n,
  cmp_flip y n,
)
pick-insert_at x y c ((n, d) ∷ l) (suc k) e =
    ground (arith, eqb_iff x y, absent_later (search_names x l) k, pick-insert_at x y c l k)

Named-insert_at :
    {nodes : List DirNode} (k c : ℕ) (n : DirNode) {cs : List ℕ} {l : List (Bytes × ℕ)}
    → get_elem? nodes c ≡ some n
    → Named nodes cs l
    → Named nodes (insert_at k c cs) (insert_at k (n.name, c) l)
unfolding insert_at
Named-insert_at zero c n e r = cons n e refl r
Named-insert_at (suc k) c n e nil = cons n e refl nil
Named-insert_at (suc k) c n e (cons m e' h r) = cons m e' h (Named-insert_at k c n e r)

-- `child_named` is the lookup of the name among the children's.
pub child_named-pick :
    (nodes : List DirNode) (i : ℕ) (x : Bytes) (n : DirNode) (l : List (Bytes × ℕ))
    → get_elem? nodes i ≡ some n
    → Named nodes n.children l
    → child_named nodes i x ≡ ok (pick x l)
unfolding child_named
child_named-pick nodes i x n l e r = rw e (rw (search-names x r) (child_at-names x r))

-- Names do not change when another node's children do.
Named-set :
    (nodes : List DirNode) (i : ℕ) (p q : DirNode)
    → get_elem? nodes i ≡ some p
    → q.name ≡ p.name
    → {cs : List ℕ} {l : List (Bytes × ℕ)} → Named nodes cs l
    → Named (set nodes i q) cs l
Named-set nodes i p q e k nil = nil
Named-set nodes i p q e k (cons {c} n e' h r) = elim (ℕ_discrete i c) [
  | yes same ↦
      cons q
        (subst (λ j. get_elem? (set nodes i q) j ≡ some q) same
          (get_elem?-set_self nodes i q (get_elem?_lt nodes i e)))
        (k ∙ (ap (λ m. m.name) (some_inj (sym e ∙ (ap (get_elem? nodes) same ∙ e'))) ∙ h))
        (Named-set nodes i p q e k r)
  | no other ↦ cons n (get_elem?-set_ne nodes q other ∙ e') h (Named-set nodes i p q e k r)
]

-- Names in strictly ascending order.
abbrev pub Before : Bytes → List (Bytes × ℕ) → Type 0
Before n [] = Unit
Before n ((m, d) ∷ l) = cmp n m ≡ Ordering.lt

abbrev pub Ascending : List (Bytes × ℕ) → Type 0
Ascending [] = Unit
Ascending ((n, c) ∷ l) = Before n l × Ascending l

Before-insert_at :
    (n x : Bytes) (c k : ℕ) (l : List (Bytes × ℕ))
    → cmp n x ≡ Ordering.lt
    → Before n l
    → Before n (insert_at k (x, c) l)
unfolding insert_at
Before-insert_at n x c zero l h b = h
Before-insert_at n x c (suc k) [] h b = h
Before-insert_at n x c (suc k) ((m, d) ∷ l) h b = b

Ascending-insert_at :
    (x : Bytes) (c : ℕ) (l : List (Bytes × ℕ)) (k : ℕ)
    → search_names x l ≡ absent k
    → Ascending l
    → Ascending (insert_at k (x, c) l)
unfolding insert_at
Ascending-insert_at x c [] zero e a = (tt, tt)
Ascending-insert_at x c [] (suc k) e a = cc
Ascending-insert_at x c ((n, d) ∷ l) zero e a = (ground (arith, cmp_flip_gt n x), a)
Ascending-insert_at x c ((n, d) ∷ l) (suc k) e a =
    let lt : cmp n x ≡ Ordering.lt = ground arith in
    (
      Before-insert_at n x c k l lt a.0,
      Ascending-insert_at x c l k (absent_later (search_names x l) k (ground arith)) a.1,
    )

later_found : (s : Search) (k : ℕ) → later s ≡ found k → (j : ℕ) × (s ≡ found j)
later_found (found j) k e = (j, refl)
later_found (absent j) k e = cc

pick-ne-none :
    (x : Bytes) (l : List (Bytes × ℕ)) (k : ℕ) → search_names x l ≡ found k → pick x l ≢ none
pick-ne-none x [] k e with_none = cc
pick-ne-none x ((n, d) ∷ l) k e with_none = elim (Ordering-cases (cmp n x)) [
  | inl lt ↦
      let (j, f) = later_found (search_names x l) k (ground arith) in
      pick-ne-none x l j f (ground arith)
  | inr (inl eq) ↦ ground arith
  | inr (inr gt) ↦ ground arith
]

-- A name that no lookup finds is absent, at some index.
absent_of_none :
    (x : Bytes) (l : List (Bytes × ℕ)) → pick x l ≡ none → (k : ℕ) × (search_names x l ≡ absent k)
absent_of_none x l e = elim (Search-cases (search_names x l)) [
  | inl (k, f) ↦ absurd (pick-ne-none x l k f e)
  | inr a ↦ a
]

-- `after` is `nodes` with `child` attached under `parent`: the children stand in ascending order
-- of their names, the child is found by its name, and no other lookup changes.
pub record Attached (nodes : List DirNode) (parent child : ℕ) (x : Bytes) (after : List DirNode)
    : Type 0 where
  pub node : DirNode
  pub names : List (Bytes × ℕ)
  pub holds : get_elem? after parent ≡ some node
  pub named : Named after node.children names
  pub ascending : Ascending names
  pub lookup :
      (y : Bytes)
      → child_named after parent y
        ≡ (if eqb x y then ok (some child) else child_named nodes parent y)

-- Attaching a node to a parent whose children are sorted by name, under a name that none of them
-- has, returns: the children stay sorted, the child is found by its name, and every other name
-- leads where it did.
pub attach-Attached :
    (nodes : List DirNode) (parent child : ℕ) (n p : DirNode) (l : List (Bytes × ℕ))
    → get_elem? nodes child ≡ some n
    → get_elem? nodes parent ≡ some p
    → Named nodes p.children l
    → Ascending l
    → pick n.name l ≡ none
    → (after : List DirNode) × (attach nodes parent child ≡ ok after)
      × Attached nodes parent child n.name after
unfolding attach
attach-Attached nodes parent child n p l en ep names sorted fresh =
    let (k, miss) = absent_of_none n.name l fresh in
    let q : DirNode = record p { children = insert_at k child p.children } in
    let after : List DirNode = set nodes parent q in
    let named = Named-set nodes parent p q ep refl (Named-insert_at k child n en names) in
    let at = get_elem?-set_self nodes parent q (get_elem?_lt nodes parent ep) in
    (
      after,
      rw en (rw ep (rw (search-names n.name names) (rw miss refl))),
      record {
        node = q;
        names = insert_at k (n.name, child) l;
        holds = at;
        named = named;
        ascending = Ascending-insert_at n.name child l k miss sorted;
        lookup = λ y. ground (
          arith,
          child_named-pick after parent y q (insert_at k (n.name, child) l) at named,
          child_named-pick nodes parent y p l ep names,
          pick-insert_at n.name y child l k miss,
        );
      },
    )
