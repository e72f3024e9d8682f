-- ===== src/Tree/Graft/Shifted.antt =====
-- src/tree.rs: the other tree's nodes, shifted behind the ones that are there.
use storage_harvester.Base.{
  ℕ, zero, suc, ◌+◌, ◌-◌, ◌≤◌, ◌<◌, ◌≡◌, ◌⊎◌, refl, ap, sym, ◌∙◌, inl, inr, some, List, [], ◌∷◌,
  ◌++◌, arith, ◌==◌, if◌then◌else◌, Bool-cases, ltb, map, length, length-append, get_elem?,
  get_elem?_lt,
}
use storage_harvester.Tree.Dir.{DirNode, no_node}
use storage_harvester.Tree.Dir.Reads.{kids_at, depth_at}
use storage_harvester.Tree.Climb.Ancestors.{parents, IsTree}
use storage_harvester.Tree.Diff.Counters.{Counter}
use storage_harvester.Tree.Diff.Steps.{sub_at}
use storage_harvester.Tree.Graft.{add_u32, moved_node}

module _ {ℓ} {A : Type ℓ} where
  pub get_elem?-append_left :
      (xs ys : List A) (i : ℕ) → i < length xs → get_elem? (xs ++ ys) i ≡ get_elem? xs i
  get_elem?-append_left [] ys i h = absurd (omega (arith, h))
  get_elem?-append_left (x ∷ xs) ys zero h = refl
  get_elem?-append_left (x ∷ xs) ys (suc i) h = get_elem?-append_left xs ys i (omega (arith, h))

  pub get_elem?-append_right :
      (xs ys : List A) (i k : ℕ) → i ≡ length xs + k → get_elem? (xs ++ ys) i ≡ get_elem? ys k
  get_elem?-append_right [] ys i k h = ap (get_elem? ys) (omega (arith, h))
  get_elem?-append_right (x ∷ xs) ys zero k h = absurd (omega (arith, h))
  get_elem?-append_right (x ∷ xs) ys (suc i) k h =
      get_elem?-append_right xs ys i k (omega (arith, h))

split_index : (n i : ℕ) → (i < n) ⊎ ((k : ℕ) × (i ≡ n + k))
split_index n i = elim (Bool-cases (ltb i n)) [
  | inl e ↦ inl (ground (arith, e))
  | inr e ↦ inr (i - n, ground (arith, e))
]

pub parents-append : (xs ys : List DirNode) → parents (xs ++ ys) ≡ parents xs ++ parents ys
parents-append [] ys = refl
parents-append (x ∷ xs) ys = ap (λ ps. x.parent ∷ ps) (parents-append xs ys)

module _ (under offset base_depth : ℕ) where
  abbrev pub moved_parent : ℕ → ℕ
  moved_parent p = if p == no_node then under else add_u32 p offset

  abbrev pub moved : List DirNode → List DirNode
  moved = map (moved_node under offset base_depth)

  pub length-moved : (ns : List DirNode) → length (moved ns) ≡ length ns
  length-moved [] = refl
  length-moved (n ∷ ns) = ap suc (length-moved ns)

  pub parents-moved : (ns : List DirNode) → parents (moved ns) ≡ map moved_parent (parents ns)
  unfolding moved_node
  parents-moved [] = refl
  parents-moved (n ∷ ns) = ap (λ ps. moved_parent n.parent ∷ ps) (parents-moved ns)

  pub sub-moved : (c : Counter) (ns : List DirNode) (i : ℕ) → sub_at c (moved ns) i ≡ sub_at c ns i
  unfolding moved_node
  sub-moved c [] i = refl
  sub-moved c (n ∷ ns) zero = refl
  sub-moved c (n ∷ ns) (suc i) = sub-moved c ns i

  pub depth-moved :
      (ns : List DirNode) (i : ℕ)
      → i < length ns
      → depth_at (moved ns) i ≡ add_u32 (depth_at ns i) base_depth
  unfolding moved_node
  depth-moved [] i h = absurd (omega (arith, h))
  depth-moved (n ∷ ns) zero h = refl
  depth-moved (n ∷ ns) (suc i) h = depth-moved ns i (omega (arith, h))

  pub kids-moved :
      (ns : List DirNode) (i : ℕ)
      → kids_at (moved ns) i ≡ map (λ k. add_u32 k offset) (kids_at ns i)
  unfolding moved_node
  kids-moved [] i = refl
  kids-moved (n ∷ ns) zero = refl
  kids-moved (n ∷ ns) (suc i) = kids-moved ns i

  length-shifted : (ps : List ℕ) → length (map moved_parent ps) ≡ length ps
  length-shifted [] = refl
  length-shifted (p ∷ ps) = ap suc (length-shifted ps)

  get_elem?-shifted :
      (ps : List ℕ) (i p : ℕ)
      → get_elem? (map moved_parent ps) i ≡ some p
      → (q : ℕ) × (get_elem? ps i ≡ some q) × (p ≡ moved_parent q)
  get_elem?-shifted [] i p e = cc
  get_elem?-shifted (q ∷ ps) zero p e = (q, refl, cc)
  get_elem?-shifted (q ∷ ps) (suc i) p e = get_elem?-shifted ps i p e

  -- The parents of both trees, the other tree's shifted.
  module _ (ps qs : List ℕ) (t : IsTree ps) (s : IsTree qs) (at : offset ≡ length ps)
      (here : under < length ps) (room : length ps + length qs ≤ no_node) where
    shifted_up : (k q : ℕ) → get_elem? qs k ≡ some q → suc (moved_parent q) ≤ offset + k
    shifted_up zero q e = ground (arith, s.root q e, here, at)
    shifted_up (suc k) q e = ground (arith, s.up k q e, get_elem?_lt qs (suc k) e, room, at)

    pub IsTree-grafted : IsTree (ps ++ map moved_parent qs)
    IsTree-grafted = record {
      fits = omega (arith, room, length-append ps (map moved_parent qs), length-shifted qs);
      root = λ p e.
          t.root p
            (sym (get_elem?-append_left ps (map moved_parent qs) 0 (omega (arith, here))) ∙ e);
      up = λ i p e. elim (split_index (length ps) (suc i)) [
        | inl lt ↦ t.up i p (sym (get_elem?-append_left ps (map moved_parent qs) (suc i) lt) ∙ e)
        | inr (k, is) ↦
            let (q, f, same) =
              get_elem?-shifted qs k p
                (sym (get_elem?-append_right ps (map moved_parent qs) (suc i) k is) ∙ e) in
            omega (arith, shifted_up k q f, same, is, at)
      ];
    }
