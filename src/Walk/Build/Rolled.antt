-- ===== src/Walk/Build/Rolled.antt =====
-- src/scanner/native.rs: the backwards pass of `build_tree` on the nodes. It returns, and each
-- counter of a node's `sub` is then what the node itself had and what its children hold.
use mathlib.Core.Path.{fun_ext}
use storage_harvester.Base.{
  All-append, ℕ, zero, suc, ◌+◌, ◌≤◌, ◌<◌, ◌≡◌, refl, ap, sym, ◌∙◌, subst, inl, inr, some, List, [],
  ◌∷◌, ◌++◌, arith, ◌==◌, All, All-map, Bool-cases, ==_iff, set, length, get_elem?, get_elem?-some,
  get_elem?_lt, length-set,
}
use storage_harvester.Base.Int.{i64_max, wrapping_add}
use storage_harvester.Base.Result.{ok}
use storage_harvester.Tree.Tally.{Tally, add, add_size}
use storage_harvester.Tree.Dir.{DirNode}
use storage_harvester.Tree.Dir.Reads.{kids_of, kids_at, read-set}
use storage_harvester.Tree.Climb.Ancestors.{parents, IsTree, parents-set, get_elem?-parents}
use storage_harvester.Tree.Diff.Counters.{Counter, count}
use storage_harvester.Tree.Diff.Steps.{sub_at, sub_of, sub_at-some}
use storage_harvester.Walk.Build.{roll_one, roll_up, max_ℤ}
use storage_harvester.Walk.Build.Forest.{below, moved, with_kid, IsRolled, IsRolled-step, moved_le}

wrapping_add_id : (a b : ℕ) → a + b ≤ i64_max → wrapping_add a b ≡ a + b
unfolding wrapping_add
wrapping_add_id a b h = omega arith

pub count-add :
    (c : Counter) (s t : Tally)
    → count c s + count c t ≤ i64_max
    → count c (add s t) ≡ count c s + count c t
unfolding count add add_size
count-add Counter.files s t h = wrapping_add_id s.files t.files h
count-add Counter.dirs s t h = wrapping_add_id s.dirs t.dirs h
count-add Counter.symlinks s t h = wrapping_add_id s.symlinks t.symlinks h
count-add Counter.blocks s t h = omega arith
count-add Counter.apparent s t h = omega arith

-- One node written below its parent: what every index then reads.
module _ (nodes : List DirNode) (p m : ℕ) (np nm : DirNode) (e : get_elem? nodes p ≡ some np)
    (f : get_elem? nodes m ≡ some nm) where
  abbrev pub written : List DirNode
  written = set nodes p (record np {
    sub = add np.sub nm.sub;
    newest = max_ℤ np.newest nm.newest;
    children = np.children ++ m ∷ [];
  })

  lt : p < length nodes
  lt = get_elem?_lt nodes p e

  pub kids_at-written : kids_at written ≡ with_kid (kids_at nodes) p m
  kids_at-written =
      fun_ext
        (read-set kids_of (λ ks. ks ++ m ∷ []) nodes p _ lt (ap (λ o. kids_of o ++ m ∷ []) (sym e)))

  pub sub_at-written :
      (c : Counter)
      → sub_at c nodes p + sub_at c nodes m ≤ i64_max
      → sub_at c written ≡ moved (sub_at c nodes) p m
  sub_at-written c h = fun_ext (
      read-set (sub_of c) (λ x. x + sub_at c nodes m) nodes p _ lt
        (count-add c np.sub nm.sub
            (omega (arith, h, sub_at-some c nodes p e, sub_at-some c nodes m f))
          ∙ omega (arith, sub_at-some c nodes p e, sub_at-some c nodes m f)))

  pub roll_one-written : nm.parent ≡ p → roll_one m nodes ≡ ok written
  unfolding roll_one
  roll_one-written q = rw f (rw q (rw e refl))

-- `k` is a node after `m` whose parent is `j`.
abbrev pub IsKid : List DirNode → ℕ → ℕ → ℕ → Type 0
IsKid start m j k = (m < k) × (k < length start) × (get_elem? (parents start) k ≡ some j)

-- The pass has come down to the node after `m`.
pub record Rolling (start : List DirNode) (m : ℕ) (nodes : List DirNode) : Type 0 where
  pub same_parents : parents nodes ≡ parents start
  pub same_length : length nodes ≡ length start
  pub own : (j : ℕ) → All (IsKid start m j) (kids_at nodes j)
  pub rolled :
      (c : Counter) → IsRolled (sub_at c start) (length start) m (kids_at nodes) (sub_at c nodes)
  pub size : ℕ → ℕ
  pub sized : IsRolled (λ j. 1) (length start) m (kids_at nodes) size

-- All that the nodes hold together fits `i64`.
abbrev pub AllFits : List DirNode → Type 0
AllFits start = (c : Counter) → below (sub_at c start) (length start) ≤ i64_max

module _ (start nodes : List DirNode) (m : ℕ) (tree : IsTree (parents start)) (fits : AllFits start)
    (r : Rolling start (suc m) nodes) (lt : suc m < length start) where
  after : (j : ℕ) → All (λ k. suc m < k) (kids_at nodes j)
  after j = All-map (kids_at nodes j) (λ k h. h.0) (r.own j)

  module _ (nm np : DirNode) (f : get_elem? nodes (suc m) ≡ some nm)
      (e : get_elem? nodes nm.parent ≡ some np) (le : nm.parent ≤ m)
      (up : get_elem? (parents start) (suc m) ≡ some nm.parent) where
    abbrev next : List DirNode
    next = written nodes nm.parent (suc m) np nm e f

    own_rest : (j : ℕ) → All (IsKid start m j) (kids_at nodes j)
    own_rest j = All-map (kids_at nodes j) (λ k h. (omega (arith, h.0), h.1, h.2)) (r.own j)

    own_here : (j : ℕ) → j ≡ nm.parent → IsKid start m j (suc m)
    own_here j same = (omega arith, lt, up ∙ ap some (sym same))

    own_next : (j : ℕ) → All (IsKid start m j) (with_kid (kids_at nodes) nm.parent (suc m) j)
    own_next j = elim (Bool-cases (j == nm.parent)) [
      | inl same ↦ rw same (
          All-append (IsKid start m j) (kids_at nodes j) (suc m) (own_rest j)
            (own_here j ((==_iff j nm.parent).0 same)))
      | inr other ↦ rw other (own_rest j)
    ]

    -- What holds of the children as they become holds of the next nodes' children.
    turn {κ} :
        (P : (ℕ → List ℕ) → Type κ)
        → P (with_kid (kids_at nodes) nm.parent (suc m))
        → P (kids_at next)
    turn P = subst P (sym (kids_at-written nodes nm.parent (suc m) np nm e f))

    IsRolled-next :
        (c : Counter)
        → IsRolled
            (sub_at c start)
            (length start)
            m
            (with_kid (kids_at nodes) nm.parent (suc m))
            (sub_at c next)
    IsRolled-next c =
        let small =
          moved_le (sub_at c start) (length start) m nm.parent (kids_at nodes) (sub_at c nodes) le
            after (r.rolled c) in
        subst
          (IsRolled (sub_at c start) (length start) m (with_kid (kids_at nodes) nm.parent (suc m)))
          (sym (sub_at-written nodes nm.parent (suc m) np nm e f c (omega (arith, small, fits c))))
          (IsRolled-step (sub_at c start) (length start) m nm.parent (kids_at nodes)
            (sub_at c nodes) le after (r.rolled c))

    Rolling-next : Rolling start m next
    Rolling-next = record {
      same_parents = parents-set nodes nm.parent np _ e refl ∙ r.same_parents;
      same_length = length-set nodes nm.parent _ ∙ r.same_length;
      own = turn (λ ks. (j : ℕ) → All (IsKid start m j) (ks j)) own_next;
      rolled = λ c.
          turn (λ ks. IsRolled (sub_at c start) (length start) m ks (sub_at c next))
            (IsRolled-next c);
      size = moved r.size nm.parent (suc m);
      sized =
          turn (λ ks. IsRolled (λ j. 1) (length start) m ks (moved r.size nm.parent (suc m)))
            (IsRolled-step (λ j. 1) (length start) m nm.parent (kids_at nodes) r.size le after
              r.sized);
    }

  roll_one-Rolling :
      (next : List DirNode) × (roll_one (suc m) nodes ≡ ok next) × Rolling start m next
  roll_one-Rolling =
      let (nm, f) = get_elem?-some nodes (suc m) (omega (arith, lt, r.same_length)) in
      let up =
        ap (λ ps. get_elem? ps (suc m)) (sym r.same_parents) ∙ get_elem?-parents nodes (suc m) f in
      let le = tree.up m nm.parent up in
      let (np, e) = get_elem?-some nodes nm.parent (omega (arith, lt, le, r.same_length)) in
      (
        written nodes nm.parent (suc m) np nm e f,
        roll_one-written nodes nm.parent (suc m) np nm e f refl,
        Rolling-next nm np f e le up,
      )

pub roll_up-Rolling :
    (start : List DirNode) (m : ℕ) (nodes : List DirNode)
    → IsTree (parents start)
    → AllFits start
    → m < length start
    → Rolling start m nodes
    → (after : List DirNode) × (roll_up m nodes ≡ ok after) × Rolling start 0 after
unfolding roll_up
roll_up-Rolling start zero nodes tree fits h r = (nodes, refl, r)
roll_up-Rolling start (suc m) nodes tree fits h r =
    let (next, runs, rolling) = roll_one-Rolling start nodes m tree fits r h in
    let (all, rest, done) = roll_up-Rolling start m next tree fits (omega (arith, h)) rolling in
    (all, rw runs rest, done)
