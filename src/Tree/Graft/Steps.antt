-- ===== src/Tree/Graft/Steps.antt =====
-- src/tree.rs: what `attach` and `touch` leave as it is, where `graft` calls them.
use storage_harvester.Base.{
  ℕ, zero, suc, ◌<◌, ◌≡◌, ◌≢◌, refl, ap, sym, ◌∙◌, subst, inl, inr, true, false, ◌||◌, some, List,
  [], ◌∷◌, arith, Bool-cases, All, set, length, length-set, get_elem?, get_elem?-some,
  Ordering-cases,
}
use storage_harvester.Base.Int.{ℤ, leb_ℤ, eqb_ℤ}
use storage_harvester.Base.Bytes.{Bytes, cmp}
use storage_harvester.Base.Result.{ok}
use storage_harvester.Tree.Dir.{DirNode, no_node, no_time}
use storage_harvester.Tree.Dir.Reads.{kids_of, kids_at, depth_of, depth_at, read-same}
use storage_harvester.Tree.Climb.{touch_loop, touch}
use storage_harvester.Tree.Climb.Ancestors.{
  parents, IsTree, parents-set, length-parents, get_elem?-parents, Above-parent,
}
use storage_harvester.Tree.Climb.Touch.{touch_loop-no_node}
use storage_harvester.Tree.Children.{
  Search, search, attach, position, insert_at, later, found, absent,
}
use storage_harvester.Tree.Diff.Counters.{Counter, count}
use storage_harvester.Tree.Diff.Steps.{sub_at, sub_of}

-- The nodes keep their parents, their depths and what they count.
pub record IsKept (nodes after : List DirNode) : Type 0 where
  pub same_length : length after ≡ length nodes
  pub same_parents : parents after ≡ parents nodes
  pub depth : depth_at after ≡ depth_at nodes
  pub sub : (c : Counter) → sub_at c after ≡ sub_at c nodes

pub IsKept-refl : (nodes : List DirNode) → IsKept nodes nodes
IsKept-refl nodes = record {
  same_length = refl;
  same_parents = refl;
  depth = refl;
  sub = λ c. refl;
}

pub IsKept-trans : (a b c : List DirNode) → IsKept a b → IsKept b c → IsKept a c
IsKept-trans a b c h k = record {
  same_length = k.same_length ∙ h.same_length;
  same_parents = k.same_parents ∙ h.same_parents;
  depth = k.depth ∙ h.depth;
  sub = λ i. k.sub i ∙ h.sub i;
}

pub set-IsKept :
    (nodes : List DirNode) (i : ℕ) (n m : DirNode)
    → get_elem? nodes i ≡ some n
    → m.parent ≡ n.parent
    → m.depth ≡ n.depth
    → m.sub ≡ n.sub
    → IsKept nodes (set nodes i m)
set-IsKept nodes i n m e up deep same = record {
  same_length = length-set nodes i m;
  same_parents = parents-set nodes i n m e up;
  depth = read-same depth_of nodes i n m e deep;
  sub = λ c. read-same (sub_of c) nodes i n m e (ap (count c) same);
}

-- A step of `touch`: it stops, or goes on from the parent.
touch_loop-stops :
    (fuel : ℕ) (nodes : List DirNode) (i : ℕ) (at : ℤ) (n : DirNode)
    → i ≢ no_node
    → get_elem? nodes i ≡ some n
    → (eqb_ℤ n.newest no_time || leb_ℤ at n.newest) ≡ true
    → touch_loop (suc fuel) nodes i at ≡ ok nodes
unfolding touch_loop
touch_loop-stops fuel nodes i at n ne e h = ground arith

touch_loop-goes :
    (fuel : ℕ) (nodes : List DirNode) (i : ℕ) (at : ℤ) (n : DirNode)
    → i ≢ no_node
    → get_elem? nodes i ≡ some n
    → (eqb_ℤ n.newest no_time || leb_ℤ at n.newest) ≡ false
    → touch_loop (suc fuel) nodes i at
      ≡ touch_loop fuel (set nodes i (record n { newest = at })) n.parent at
unfolding touch_loop
touch_loop-goes fuel nodes i at n ne e h = ground arith

-- `touch` changes no child list either.
pub record IsTouched (nodes after : List DirNode) : Type 0 where
  pub kept : IsKept nodes after
  pub kids : kids_at after ≡ kids_at nodes

touch_loop-IsTouched :
    (fuel : ℕ) (nodes : List DirNode) (i : ℕ) (at : ℤ)
    → IsTree (parents nodes)
    → i < length nodes
    → i < fuel
    → (after : List DirNode) × (touch_loop fuel nodes i at ≡ ok after) × IsTouched nodes after
touch_loop-IsTouched zero nodes i at t h f = absurd (omega (arith, f))
touch_loop-IsTouched (suc fuel) nodes i at t h f =
    let (n, e) = get_elem?-some nodes i h in
    let ne : i ≢ no_node = omega (arith, h, t.fits, length-parents nodes) in
    let m : DirNode = record n { newest = at } in
    let kept = set-IsKept nodes i n m e refl refl refl in
    let kids = read-same kids_of nodes i n m e refl in
    elim (Bool-cases (eqb_ℤ n.newest no_time || leb_ℤ at n.newest)) [
      | inl old ↦ (
        nodes,
        touch_loop-stops fuel nodes i at n ne e old,
        record { kept = IsKept-refl nodes; kids = refl },
      )
      | inr new ↦ elim (Above-parent i n.parent t (get_elem?-parents nodes i e)) [
        | inl top ↦ (
          set nodes i m,
          touch_loop-goes fuel nodes i at n ne e new
              ∙ (ap (λ p. touch_loop fuel (set nodes i m) p at) top
                  ∙ touch_loop-no_node fuel (set nodes i m) at),
          record { kept = kept; kids = kids },
        )
        | inr lt ↦
            let (after, runs, r) =
              touch_loop-IsTouched fuel (set nodes i m) n.parent at
                (subst IsTree (sym kept.same_parents) t) (omega (arith, lt, h, kept.same_length))
                (omega (arith, lt, f)) in
            (
              after,
              touch_loop-goes fuel nodes i at n ne e new ∙ runs,
              record {
                kept = IsKept-trans nodes (set nodes i m) after kept r.kept;
                kids = r.kids ∙ kids;
              },
            )
      ]
    ]

pub touch-IsTouched :
    (nodes : List DirNode) (i : ℕ) (at : ℤ)
    → IsTree (parents nodes)
    → i < length nodes
    → (after : List DirNode) × (touch nodes i at ≡ ok after) × IsTouched nodes after
unfolding touch
touch-IsTouched nodes i at t h = touch_loop-IsTouched (length nodes) nodes i at t h h

search-returns :
    (nodes : List DirNode) (name : Bytes) (cs : List ℕ)
    → All (λ k. k < length nodes) cs
    → (s : Search) × (search nodes name cs ≡ ok s)
unfolding search
search-returns nodes name [] h = (absent 0, refl)
search-returns nodes name (c ∷ cs) h =
    let (n, e) = get_elem?-some nodes c h.0 in
    let (s, runs) = search-returns nodes name cs h.1 in
    elim (Ordering-cases (cmp n.name name)) [
      | inl o ↦ (later s, ground (arith, e, runs, o))
      | inr (inl o) ↦ (found 0, ground (arith, e, o))
      | inr (inr o) ↦ (absent 0, ground (arith, e, o))
    ]

-- The child is put in, somewhere in its parent's list.
pub attach-IsKept :
    (nodes : List DirNode) (parent child : ℕ) (n p : DirNode)
    → get_elem? nodes child ≡ some n
    → get_elem? nodes parent ≡ some p
    → All (λ k. k < length nodes) p.children
    → (k : ℕ) × (after : List DirNode) × (attach nodes parent child ≡ ok after)
      × (after ≡ set nodes parent (record p { children = insert_at k child p.children }))
      × IsKept nodes after
unfolding attach
attach-IsKept nodes parent child n p en ep kids =
    let (s, runs) = search-returns nodes n.name p.children kids in
    let after =
      set nodes parent (record p { children = insert_at (position s) child p.children }) in
    (
      position s,
      after,
      rw en (rw ep (rw runs refl)),
      refl,
      set-IsKept nodes parent p _ ep refl refl refl,
    )
