-- ===== src/Tree/Climb/Ancestors.antt =====
-- src/tree.rs: the shape of a tree's parent links, and a node's ancestors.
use storage_harvester.Base.{
  ℕ, zero, suc, ◌≤◌, ◌<◌, ◌≡◌, refl, ap, ◌≢◌, ◌⊎◌, inl, inr, some, List, [], ◌∷◌, map, arith,
  length, get_elem?, set, ◌∙◌, sym, subst, some_inj, get_elem?-set_self, get_elem?-set_ne,
  get_elem?_lt, get_elem?-some, ℕ_discrete,
}
use storage_harvester.Tree.Dir.{DirNode, no_node}

abbrev pub parents : List DirNode → List ℕ
parents = map (λ n. n.parent)

-- The root has no parent, and every other node's parent stands before it.
pub record IsTree (ps : List ℕ) : Type 0 where
  pub fits : length ps ≤ no_node
  pub root : (p : ℕ) → get_elem? ps 0 ≡ some p → p ≡ no_node
  pub up : (i p : ℕ) → get_elem? ps (suc i) ≡ some p → p ≤ i

-- `Above ps i j`: the node `j` is `i` or one of its ancestors.
pub data Above (ps : List ℕ) : ℕ → ℕ → Type 0 where
  here : (i : ℕ) → Above ps i i
  up : {i p j : ℕ} → get_elem? ps i ≡ some p → p ≢ no_node → Above ps p j → Above ps i j

pub Above-parent :
    {ps : List ℕ} (i p : ℕ) → IsTree ps → get_elem? ps i ≡ some p → (p ≡ no_node) ⊎ (p < i)
Above-parent zero p t e = inl (t.root p e)
Above-parent (suc i) p t e = inr (omega (arith, t.up i p e))

pub length-parents : (nodes : List DirNode) → length (parents nodes) ≡ length nodes
length-parents [] = refl
length-parents (n ∷ nodes) = ap suc (length-parents nodes)

pub get_elem?-parents :
    (nodes : List DirNode) (i : ℕ) {n : DirNode}
    → get_elem? nodes i ≡ some n
    → get_elem? (parents nodes) i ≡ some n.parent
get_elem?-parents [] i e = cc
get_elem?-parents (n ∷ nodes) zero e = ground arith
get_elem?-parents (n ∷ nodes) (suc i) e = get_elem?-parents nodes i e

-- A node written over with its own parent leaves the parent links alone.
pub parents-set :
    (nodes : List DirNode) (i : ℕ) (n m : DirNode)
    → get_elem? nodes i ≡ some n
    → m.parent ≡ n.parent
    → parents (set nodes i m) ≡ parents nodes
parents-set [] i n m e h = refl
parents-set (x ∷ nodes) zero n m e h = ground arith
parents-set (x ∷ nodes) (suc i) n m e h = ap (◌∷◌ x.parent) (parents-set nodes i n m e h)

-- The ancestors of a node stand at or before it.
pub Above-le : {ps : List ℕ} {i j : ℕ} → IsTree ps → Above ps i j → j ≤ i
Above-le t (here i) = omega arith
Above-le {i = i} t (up {p = p} e ne a) = elim (Above-parent i p t e) [
  | inl x ↦ absurd (ne x)
  | inr lt ↦ omega (arith, Above-le t a)
]

-- An ancestor of a node other than itself is its parent, or above its parent.
pub Above-next :
    {ps : List ℕ} {i j p : ℕ}
    → Above ps i j
    → i ≢ j
    → get_elem? ps i ≡ some p
    → (p ≢ no_node) × Above ps p j
Above-next (here i) ne e = absurd (ne refl)
Above-next {ps} (up {p = q} {j = j} e' ne a) _ e =
    subst (λ k. (k ≢ no_node) × Above ps k j) (some_inj (sym e' ∙ e)) (ne, a)

-- `after` is `nodes` with `f` applied to `i` and to each of its ancestors.
pub record Climbs (f : DirNode → DirNode) (nodes : List DirNode) (i : ℕ) (after : List DirNode)
    : Type 0 where
  pub same_parents : parents after ≡ parents nodes
  pub above :
      (j : ℕ) (n : DirNode)
      → get_elem? nodes j ≡ some n
      → Above (parents nodes) i j
      → get_elem? after j ≡ some (f n)
  pub others : (j : ℕ) → ¬ Above (parents nodes) i j → get_elem? after j ≡ get_elem? nodes j

-- One round of a walk up that applies `f` at each node.
module _ (f : DirNode → DirNode) (keep : (n : DirNode) → (f n).parent ≡ n.parent)
    (nodes : List DirNode) (i : ℕ) (n : DirNode) (t : IsTree (parents nodes))
    (e : get_elem? nodes i ≡ some n) where
  abbrev pub written : List DirNode
  written = set nodes i (f n)

  pub parents-written : parents written ≡ parents nodes
  parents-written = parents-set nodes i n (f n) e (keep n)

  written_self : (m : DirNode) → get_elem? nodes i ≡ some m → get_elem? written i ≡ some (f m)
  written_self m e' =
      get_elem?-set_self nodes i (f n) (get_elem?_lt nodes i e)
      ∙ ap (λ k. some (f k)) (some_inj (sym e ∙ e'))

  apart : {j : ℕ} → ¬ Above (parents nodes) i j → get_elem? written j ≡ get_elem? nodes j
  apart far =
      get_elem?-set_ne nodes (f n) (λ same. far (subst (Above (parents nodes) i) same (here i)))

  at_self :
      (after : List DirNode) {j : ℕ} {m : DirNode}
      → i ≡ j
      → get_elem? nodes j ≡ some m
      → ((m : DirNode) → get_elem? nodes i ≡ some m → get_elem? after i ≡ some (f m))
      → get_elem? after j ≡ some (f m)
  at_self after {m = m} same e' h =
      subst (λ k. get_elem? nodes k ≡ some m → get_elem? after k ≡ some (f m)) same (h m) e'

  -- The round at the root is the last.
  pub Climbs-root : n.parent ≡ no_node → Climbs f nodes i written
  Climbs-root top = record {
    same_parents = parents-written;
    above = λ j m e' a. elim (ℕ_discrete i j) [
      | yes same ↦ at_self written same e' written_self
      | no other ↦ absurd ((Above-next a other (get_elem?-parents nodes i e)).0 top)
    ];
    others = λ j far. apart far;
  }

  -- The rounds above a node.
  module _ (after : List DirNode) (lt : n.parent < i) (rest : Climbs f written n.parent after) where
    IsTree-written : IsTree (parents written)
    IsTree-written = subst IsTree (sym parents-written) t

    below : ¬ Above (parents written) n.parent i
    below a = absurd (omega (arith, Above-le IsTree-written a))

    parent-ne : n.parent ≢ no_node
    parent-ne = omega (arith, t.fits, length-parents nodes, get_elem?_lt nodes i e)

    pub Climbs-up : Climbs f nodes i after
    Climbs-up = record {
      same_parents = rest.same_parents ∙ parents-written;
      above = λ j m e' a. elim (ℕ_discrete i j) [
        | yes same ↦ at_self after same e' (λ k e''. rest.others i below ∙ written_self k e'')
        | no other ↦ rest.above j m (get_elem?-set_ne nodes (f n) other ∙ e') (
            subst (λ ps. Above ps n.parent j) (sym parents-written)
              (Above-next a other (get_elem?-parents nodes i e)).1)
      ];
      others = λ j far.
          rest.others j (λ a. far (
            up (get_elem?-parents nodes i e) parent-ne
              (subst (λ ps. Above ps n.parent j) parents-written a)))
          ∙ apart far;
    }

-- A node's parent, where it has one, is a node.
pub get_elem?_parent :
    (nodes : List DirNode) (i : ℕ) (n : DirNode)
    → IsTree (parents nodes)
    → get_elem? nodes i ≡ some n
    → n.parent ≢ no_node
    → (m : DirNode) × (get_elem? nodes n.parent ≡ some m)
get_elem?_parent nodes i n t e ne = elim (Above-parent i n.parent t (get_elem?-parents nodes i e)) [
  | inl top ↦ absurd (ne top)
  | inr lt ↦ get_elem?-some nodes n.parent (omega (arith, get_elem?_lt nodes i e))
]
