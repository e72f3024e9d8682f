-- ===== src/Walk/Build/Summed.antt =====
-- src/scanner/native.rs: once its children are sorted, the rolled-up tree is one that `diff` of
-- src/tree.rs compares.
use storage_harvester.Base.{
  ℕ, suc, ◌+◌, ◌≤◌, ◌<◌, ◌≡◌, refl, ap, sym, ◌∙◌, subst, some, List, [], ◌∷◌, arith, length,
  get_elem?, get_elem?-some, get_elem?_lt, All, All-map, some_inj,
}
use storage_harvester.Base.Int.{i64_max}
use storage_harvester.Tree.Dir.{DirNode}
use storage_harvester.Tree.Climb.Ancestors.{parents, IsTree}
use storage_harvester.Tree.Diff.Counters.{Counter, count}
use storage_harvester.Tree.Diff.Steps.{sub_at, sub_at-some, kids_sum, IsSummed, sizes}
use storage_harvester.Tree.Diff.Sums.{IsSized}
use storage_harvester.Walk.Build.{with_children}
use storage_harvester.Walk.Build.Forest.{below, below_one, over, over-cong}
use storage_harvester.Tree.Dir.Reads.{kids_at-some, kids_at}
use storage_harvester.Walk.Build.Rolled.{Rolling, AllFits, IsKid}
use storage_harvester.Walk.Build.Sorting.{IsKept, IsShuffled}

kids_sum-over :
    (c : Counter) (nodes : List DirNode) (ks : List ℕ)
    → kids_sum c nodes ks ≡ over (sub_at c nodes) ks
kids_sum-over c nodes [] = refl
kids_sum-over c nodes (k ∷ ks) = ap (λ x. sub_at c nodes k + x) (kids_sum-over c nodes ks)

sizes-over : (size : ℕ → ℕ) (ks : List ℕ) → sizes size ks ≡ over size ks
sizes-over size [] = refl
sizes-over size (k ∷ ks) = ap (λ x. size k + x) (sizes-over size ks)

count-with_children :
    (c : Counter) (n : DirNode) (ks : List ℕ) → count c (with_children n ks).sub ≡ count c n.sub
unfolding with_children
count-with_children c n ks = refl

children-with_children : (n : DirNode) (ks : List ℕ) → (with_children n ks).children ≡ ks
unfolding with_children
children-with_children n ks = refl

-- What holds of the children of every node.
pub All-nodes :
    (P : List ℕ → Type 0) (nodes : List DirNode)
    → ((i : ℕ) → P (kids_at nodes i))
    → All (λ n. P n.children) nodes
All-nodes P [] h = tt
All-nodes P (n ∷ ns) h = (h 0, All-nodes P ns (λ i. h (suc i)))

-- The rolled nodes, once sorted.
module _ (start rolled sorted : List DirNode) (tree : IsTree (parents start)) (fits : AllFits start)
    (r : Rolling start 0 rolled) (long : length sorted ≡ length rolled)
    (ps : parents sorted ≡ parents rolled) (kept : IsKept rolled rolled sorted) where
  record Sorted (i : ℕ) (n : DirNode) : Type 1 where
    was : DirNode
    found : get_elem? rolled i ≡ some was
    shuffled : IsShuffled was.children n.children
    counts : (c : Counter) → count c n.sub ≡ count c was.sub
    kids : All (IsKid start 0 i) n.children

  Sorted-at : (i : ℕ) (n : DirNode) → get_elem? sorted i ≡ some n → Sorted i n
  Sorted-at i n e =
      let (was, f) = get_elem?-some rolled i (omega (arith, long, get_elem?_lt sorted i e)) in
      let (children, g, same) = kept i was f in
      let is : n ≡ with_children was children = some_inj (sym e ∙ g) in
      let shuffled : IsShuffled was.children n.children =
        subst (IsShuffled was.children)
          (sym (ap (λ m. m.children) is ∙ children-with_children was children)) same in
      record {
        was = was;
        found = f;
        shuffled = shuffled;
        counts = λ c. ap (λ m. count c m.sub) is ∙ count-with_children c was children;
        kids =
            shuffled.all_same (IsKid start 0 i)
              (subst (All (IsKid start 0 i)) (kids_at-some rolled i f) (r.own i));
      }

  same_sub : (c : Counter) (i : ℕ) → i < length rolled → sub_at c sorted i ≡ sub_at c rolled i
  same_sub c i lt =
      let (n, e) = get_elem?-some sorted i (omega (arith, long, lt)) in
      let s = Sorted-at i n e in
      sub_at-some c sorted i e ∙ (s.counts c ∙ sym (sub_at-some c rolled i s.found))

  module _ (i : ℕ) (n : DirNode) (e : get_elem? sorted i ≡ some n) where
    s : Sorted i n
    s = Sorted-at i n e

    in_range : i < length start
    in_range = omega (arith, get_elem?_lt sorted i e, long, r.same_length)

    over_kids : (f : ℕ → ℕ) → over f n.children ≡ over f (kids_at rolled i)
    over_kids f = s.shuffled.over_same f ∙ ap (over f) (sym (kids_at-some rolled i s.found))

    sub_here : (c : Counter) → sub_at c rolled i ≡ count c n.sub
    sub_here c = sub_at-some c rolled i s.found ∙ sym (s.counts c)

    kids_hold :
        (c : Counter) → kids_sum c sorted n.children ≡ over (sub_at c rolled) (kids_at rolled i)
    kids_hold c =
        kids_sum-over c sorted n.children
        ∙ (over-cong (sub_at c sorted) (sub_at c rolled) n.children
              (All-map n.children (λ k h. same_sub c k (omega (arith, h.1, r.same_length))) s.kids)
            ∙ over_kids (sub_at c rolled))

    holds : (c : Counter) → kids_sum c sorted n.children ≤ count c n.sub
    holds c = omega (arith, kids_hold c, sub_here c, (r.rolled c).sums i in_range)

    small : (c : Counter) → count c n.sub ≤ i64_max
    small c = omega (arith, sub_here c, (r.rolled c).fits i in_range, fits c)

    smaller : sizes r.size n.children < r.size i
    smaller = omega (arith, sizes-over r.size n.children, over_kids r.size, r.sized.sums i in_range)

  pub IsSummed-sorted : IsSummed sorted
  IsSummed-sorted = record {
    tree = subst IsTree (sym (ps ∙ r.same_parents)) tree;
    kids = λ i n e.
        All-map n.children (λ k h. omega (arith, h.1, r.same_length, long)) (Sorted-at i n e).kids;
    held = λ c i n e. holds i n e c;
    fits = λ c i n e. small i n e c;
  }

  pub IsSized-sorted : IsSized sorted r.size
  IsSized-sorted = record {
    step = smaller;
    fits = omega (arith, r.sized.tops, below_one (length start), r.same_length, long);
  }

  pub root-sorted :
      (c : Counter) → 0 < length start → sub_at c sorted 0 ≡ below (sub_at c start) (length start)
  root-sorted c h = omega (arith, same_sub c 0 (omega (arith, h, r.same_length)), (r.rolled c).tops)
