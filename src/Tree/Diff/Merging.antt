-- ===== src/Tree/Diff/Merging.antt =====
-- src/tree.rs: the merge of two directories' children in `diff` keeps what the changes add up to.
use Prim.Native.Nat.{Ordering}
use storage_harvester.Base.{
  ℕ, ◌+◌, ◌≤◌, ◌<◌, ◌≡◌, refl, ◌∙◌, inl, inr, some, List, [], ◌∷◌, arith, length, get_elem?, All,
  get_elem?-some, Ordering-cases,
}
use storage_harvester.Base.Bytes.{cmp}
use storage_harvester.Base.Result.{Result, ◌>>=◌}
use storage_harvester.Tree.Dir.{DirNode, DirTree}
use storage_harvester.Tree.Diff.{Merge, gone_kid, came_kid, both_kids, merge_kids}
use storage_harvester.Tree.Diff.Steps.{
  sizes, IsSummed, Spans, InRange, Keeps, gone_kid-Keeps, came_kid-Keeps, both_kids-Keeps,
}

module _ (old new : DirTree) (size : ℕ → ℕ) where
  Keeps-bind :
      {m : Merge} {as' bs : List ℕ} (spent more : ℕ) {all : ℕ} {r : Result Merge}
      (f : Merge → Result Merge)
      → Keeps old new size m as' bs spent r
      → ((n : Merge)
          → InRange old new size n.stack
          → Spans old new size n as' bs
          → Keeps old new size n [] [] more (f n))
      → spent + more ≤ all
      → Keeps old new size m [] [] all (r >>= f)
  Keeps-bind spent more f k rest le =
      let next = rest k.next k.in_range k.spans in
      record {
        next = next.next;
        returns = rw k.returns next.returns;
        kept = λ c. next.kept c ∙ k.kept c;
        spans = next.spans;
        within = omega (arith, k.within, next.within);
        in_range = next.in_range;
      }

  module _ (a b : ℕ) (as' bs : List ℕ) (m : Merge) {n q : DirNode}
      (e : get_elem? old.nodes a ≡ some n) (f : get_elem? new.nodes b ≡ some q) where
    merge-lt :
        cmp n.name q.name ≡ Ordering.lt
        → merge_kids old new (a ∷ as') (b ∷ bs) m
          ≡ (gone_kid old new a m >>= merge_kids old new as' (b ∷ bs))
    unfolding merge_kids
    merge-lt h = ground arith

    merge-eq :
        cmp n.name q.name ≡ Ordering.eq
        → merge_kids old new (a ∷ as') (b ∷ bs) m
          ≡ (both_kids old new a b m >>= merge_kids old new as' bs)
    unfolding merge_kids
    merge-eq h = ground arith

    merge-gt :
        cmp n.name q.name ≡ Ordering.gt
        → merge_kids old new (a ∷ as') (b ∷ bs) m
          ≡ (came_kid old new b m >>= merge_kids old new (a ∷ as') bs)
    unfolding merge_kids
    merge-gt h = ground arith

  module _ (so : IsSummed old.nodes) (sn : IsSummed new.nodes) where
    -- The whole merge of two lists of children.
    pub merge_kids-Keeps :
        (as' bs : List ℕ) (m : Merge)
        → InRange old new size m.stack
        → All (λ k. k < length old.nodes) as'
        → All (λ k. k < length new.nodes) bs
        → Spans old new size m as' bs
        → Keeps old new size m [] [] (sizes size as') (merge_kids old new as' bs m)
    unfolding merge_kids
    merge_kids-Keeps [] [] m range ha hb s = record {
      next = m;
      returns = refl;
      kept = λ c. refl;
      spans = s;
      within = omega arith;
      in_range = range;
    }
    merge_kids-Keeps (a ∷ as') [] m range ha hb s =
        Keeps-bind (size a) (sizes size as') (merge_kids old new as' [])
          (gone_kid-Keeps old new size so sn m as' [] range a ha.0 s)
          (λ n rn sp. merge_kids-Keeps as' [] n rn ha.1 hb sp) (omega arith)
    merge_kids-Keeps [] (b ∷ bs) m range ha hb s =
        Keeps-bind 0 0 (merge_kids old new [] bs)
          (came_kid-Keeps old new size so sn m [] bs range b hb.0 s)
          (λ n rn sp. merge_kids-Keeps [] bs n rn ha hb.1 sp) (omega arith)
    merge_kids-Keeps (a ∷ as') (b ∷ bs) m range ha hb s =
        let (n, e) = get_elem?-some old.nodes a ha.0 in
        let (q, f) = get_elem?-some new.nodes b hb.0 in
        elim (Ordering-cases (cmp n.name q.name)) [
          | inl lt ↦ rw (merge-lt a b as' bs m e f lt) (
              Keeps-bind (size a) (sizes size as') (merge_kids old new as' (b ∷ bs))
                (gone_kid-Keeps old new size so sn m as' (b ∷ bs) range a ha.0 s)
                (λ n rn sp. merge_kids-Keeps as' (b ∷ bs) n rn ha.1 hb sp) (omega arith))
          | inr (inl eq) ↦ rw (merge-eq a b as' bs m e f eq) (
              Keeps-bind (size a) (sizes size as') (merge_kids old new as' bs)
                (both_kids-Keeps old new size so sn m as' bs range a b ha.0 hb.0 s)
                (λ n rn sp. merge_kids-Keeps as' bs n rn ha.1 hb.1 sp) (omega arith))
          | inr (inr gt) ↦ rw (merge-gt a b as' bs m e f gt) (
              Keeps-bind 0 (sizes size (a ∷ as')) (merge_kids old new (a ∷ as') bs)
                (came_kid-Keeps old new size so sn m (a ∷ as') bs range b hb.0 s)
                (λ n rn sp. merge_kids-Keeps (a ∷ as') bs n rn ha hb.1 sp) (omega arith))
        ]
