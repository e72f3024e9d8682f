-- ===== src/Tree/Climb/Touch.antt =====
-- src/tree.rs: `touch` raises the newest time of a node and of its ancestors, and of nothing else.
use storage_harvester.Base.{
  ℕ, zero, suc, ◌<◌, ◌≡◌, refl, ap, ◌≢◌, inl, inr, true, false, some, List, arith, if◌then◌else◌,
  length, get_elem?, set, ◌∙◌, sym, subst, get_elem?-set_ne, get_elem?-some, get_elem?_lt,
  length-set, Bool-cases, some_inj,
}
use storage_harvester.Base.Int.{ℤ, ◌≤ℤ◌, leb_ℤ, eqb_ℤ, eq_of_parts}
use storage_harvester.Base.Result.{ok}
use storage_harvester.Tree.Dir.{DirNode, no_node, no_time}
use storage_harvester.Tree.Climb.{touch, touch_loop}
use storage_harvester.Tree.Climb.Ancestors.{
  parents, IsTree, Above, here, up, Above-parent, Above-le, length-parents, get_elem?-parents,
  parents-set, parents-written, get_elem?_parent, Climbs, Climbs-root, Climbs-up,
}

-- The later of a node's newest time and `at`.
abbrev pub raise : ℤ → DirNode → DirNode
raise at n = if leb_ℤ at n.newest then n else record n { newest = at }

raise-parent : (at : ℤ) (n : DirNode) → (raise at n).parent ≡ n.parent
raise-parent at n = ground arith

-- From a node up, every node has a time, and no node is newer than its parent.
pub record IsRising (nodes : List DirNode) (i : ℕ) : Type 0 where
  pub timed :
      (j : ℕ) (n : DirNode)
      → Above (parents nodes) i j
      → get_elem? nodes j ≡ some n
      → n.newest ≢ no_time
  pub rising :
      (j : ℕ) (n m : DirNode)
      → Above (parents nodes) i j
      → get_elem? nodes j ≡ some n
      → get_elem? nodes n.parent ≡ some m
      → n.newest ≤ℤ m.newest

IsRising-next :
    {nodes : List DirNode} {i : ℕ} (n : DirNode)
    → get_elem? nodes i ≡ some n
    → n.parent ≢ no_node
    → IsRising nodes i
    → IsRising nodes n.parent
IsRising-next {nodes} {i} n e ne r = record {
  timed = λ j m a. r.timed j m (up (get_elem?-parents nodes i e) ne a);
  rising = λ j m k a. r.rising j m k (up (get_elem?-parents nodes i e) ne a);
}

-- An ancestor is at least as new.
newest-le :
    {nodes : List DirNode} {i j : ℕ} (n m : DirNode)
    → IsTree (parents nodes)
    → IsRising nodes i
    → Above (parents nodes) i j
    → get_elem? nodes i ≡ some n
    → get_elem? nodes j ≡ some m
    → n.newest ≤ℤ m.newest
newest-le n m t r (here i) e e' =
    subst (λ k. n.newest ≤ℤ k.newest) (some_inj (sym e ∙ e')) (omega arith)
newest-le {nodes} {i} n m t r (up {p = p} ep ne a) e e' =
    let same : n.parent ≡ p = some_inj (sym (get_elem?-parents nodes i e) ∙ ep) in
    let has : n.parent ≢ no_node = λ x. ne (sym same ∙ x) in
    let (k, ek) = get_elem?_parent nodes i n t e has in
    omega (
      arith,
      r.rising i n k (here i) e ek,
      newest-le k m t (subst (IsRising nodes) same (IsRising-next n e has r)) a
          (subst (λ q. get_elem? nodes q ≡ some k) same ek) e',
    )

-- What is written at a node leaves the nodes above it as they were.
module _ (nodes : List DirNode) (i : ℕ) (n m : DirNode) (p : ℕ) (t : IsTree (parents nodes))
    (e : get_elem? nodes i ≡ some n) (k : m.parent ≡ n.parent) (lt : p < i) where
  Above-old : {j : ℕ} → Above (parents (set nodes i m)) p j → Above (parents nodes) p j
  Above-old {j} a = subst (λ ps. Above ps p j) (parents-set nodes i n m e k) a

  node-old :
      (j : ℕ) (x : DirNode)
      → i ≢ j
      → get_elem? (set nodes i m) j ≡ some x
      → get_elem? nodes j ≡ some x
  node-old j x ne ex = sym (get_elem?-set_ne nodes m ne) ∙ ex

  ne_of_Above : (j : ℕ) → Above (parents (set nodes i m)) p j → i ≢ j
  ne_of_Above j a = omega (arith, Above-le t (Above-old a))

  ne_of_parent :
      (j : ℕ) (x : DirNode)
      → Above (parents (set nodes i m)) p j
      → get_elem? nodes j ≡ some x
      → i ≢ x.parent
  ne_of_parent j x a ex = elim (Above-parent j x.parent t (get_elem?-parents nodes j ex)) [
    | inl top ↦ omega (arith, t.fits, length-parents nodes, get_elem?_lt nodes i e)
    | inr below ↦ omega (arith, Above-le t (Above-old a))
  ]

  IsRising-set : IsRising nodes p → IsRising (set nodes i m) p
  IsRising-set r = record {
    timed = λ j x a ex. r.timed j x (Above-old a) (node-old j x (ne_of_Above j a) ex);
    rising = λ j x y a ex ey.
        let ex' = node-old j x (ne_of_Above j a) ex in
        r.rising j x y (Above-old a) ex' (node-old x.parent y (ne_of_parent j x a ex') ey);
  }

pub touch_loop-no_node :
    (fuel : ℕ) (nodes : List DirNode) (at : ℤ) → touch_loop fuel nodes no_node at ≡ ok nodes
unfolding touch_loop
touch_loop-no_node zero nodes at = refl
touch_loop-no_node (suc fuel) nodes at = refl

untimed : (n : DirNode) → n.newest ≢ no_time → eqb_ℤ n.newest no_time ≡ false
untimed n ne = elim (Bool-cases (eqb_ℤ n.newest no_time)) [
  | inl same ↦ absurd (ne (eq_of_parts _ _ (ground arith)))
  | inr other ↦ other
]

-- One round: it stops at a node that is new enough, and goes on to the parent otherwise.
module _ (fuel : ℕ) (nodes : List DirNode) (i : ℕ) (at : ℤ) (n : DirNode) (ne : i ≢ no_node)
    (e : get_elem? nodes i ≡ some n) (timed : n.newest ≢ no_time) where
  touch_loop-stop : leb_ℤ at n.newest ≡ true → touch_loop (suc fuel) nodes i at ≡ ok nodes
  unfolding touch_loop
  touch_loop-stop old = ground (arith, untimed n timed)

  touch_loop-go :
      leb_ℤ at n.newest ≡ false
      → touch_loop (suc fuel) nodes i at ≡ touch_loop fuel (set nodes i (raise at n)) n.parent at
  unfolding touch_loop
  touch_loop-go new = ground (arith, untimed n timed)

-- Where the walk stops, the nodes above are new enough already.
Climbs-stop :
    (at : ℤ) (nodes : List DirNode) (i : ℕ) (n : DirNode)
    → IsTree (parents nodes)
    → IsRising nodes i
    → get_elem? nodes i ≡ some n
    → at ≤ℤ n.newest
    → Climbs (raise at) nodes i nodes
Climbs-stop at nodes i n t r e old = record {
  same_parents = refl;
  above = λ j m e' a. e' ∙ ground (arith, newest-le n m t r a e e');
  others = λ j far. refl;
}

touch_loop-Climbs :
    (fuel : ℕ) (nodes : List DirNode) (i : ℕ) (at : ℤ)
    → IsTree (parents nodes)
    → IsRising nodes i
    → i < length nodes
    → i < fuel
    → (after : List DirNode) × (touch_loop fuel nodes i at ≡ ok after)
      × Climbs (raise at) nodes i after
touch_loop-Climbs zero nodes i at t r h f = absurd (omega arith)
touch_loop-Climbs (suc fuel) nodes i at t r h f =
    let (n, e) = get_elem?-some nodes i h in
    let here_ne : i ≢ no_node = omega (arith, t.fits, length-parents nodes) in
    let timed = r.timed i n (here i) e in
    elim (Bool-cases (leb_ℤ at n.newest)) [
      | inl old ↦ (
        nodes,
        touch_loop-stop fuel nodes i at n here_ne e timed old,
        Climbs-stop at nodes i n t r e (ground arith),
      )
      | inr new ↦ elim (Above-parent i n.parent t (get_elem?-parents nodes i e)) [
        | inl top ↦ (
          set nodes i (raise at n),
          touch_loop-go fuel nodes i at n here_ne e timed new
              ∙ (ap (λ p. touch_loop fuel (set nodes i (raise at n)) p at) top
                  ∙ touch_loop-no_node fuel _ at),
          Climbs-root (raise at) (raise-parent at) nodes i n t e top,
        )
        | inr lt ↦
            let (after, runs, rest) =
              touch_loop-Climbs fuel (set nodes i (raise at n)) n.parent at
                (subst IsTree (sym (parents-written (raise at) (raise-parent at) nodes i n t e)) t)
                (IsRising-set nodes i n (raise at n) n.parent t e (raise-parent at n) lt
                  (IsRising-next n e (omega (arith, t.fits, length-parents nodes)) r))
                (omega (arith, length-set nodes i (raise at n))) (omega arith) in
            (
              after,
              touch_loop-go fuel nodes i at n here_ne e timed new ∙ runs,
              Climbs-up (raise at) (raise-parent at) nodes i n t e after lt rest,
            )
      ]
    ]

-- On a tree, from a node up from which every node has a time and none is newer than its parent,
-- `touch` returns: the node and each of its ancestors have the later of their own time and the
-- given one, though the loop stops early, and every other node is unchanged.
pub touch-Climbs :
    (nodes : List DirNode) (i : ℕ) (at : ℤ)
    → IsTree (parents nodes)
    → IsRising nodes i
    → i < length nodes
    → (after : List DirNode) × (touch nodes i at ≡ ok after) × Climbs (raise at) nodes i after
unfolding touch
touch-Climbs nodes i at t r h = touch_loop-Climbs (length nodes) nodes i at t r h h
