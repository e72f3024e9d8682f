-- ===== src/Tree/Diff/Sums.antt =====
-- src/tree.rs: the changes that `diff` lists add up to what changed between the two roots.
use storage_harvester.Base.{
  ℕ, zero, suc, ◌≤◌, ◌<◌, ◌≡◌, refl, ◌∙◌, ap, inl, inr, some, List, [], ◌∷◌, ◌++◌, arith, length,
  true, false, get_elem?, get_elem?-some, get_elem?_lt, Bool-cases,
}
use storage_harvester.Base.Int.{sub_ℕ, ◌+ℤ◌, int_laws}
use storage_harvester.Base.Bytes.{Bytes}
use storage_harvester.Base.Result.{ok}
use storage_harvester.Tree.Tally.{between, is_zero}
use storage_harvester.Tree.Dir.{DirNode, DirTree}
use storage_harvester.Tree.Diff.{
  Change, Merge, display_path, merge_kids, diff_pair, diff_loop, diff, both_hold,
}
use storage_harvester.Tree.Diff.Counters.{Counter, count, change, change-both, change-zero}
use storage_harvester.Tree.Diff.Span.{settled_out, settled_zero}
use storage_harvester.Tree.Diff.Steps.{
  total, total-snoc, pending, rounds, sizes, sub_at, sub_at-some, IsSummed, InRange, Keeps,
  display_path-returns,
}
use storage_harvester.Tree.Diff.Merging.{merge_kids-Keeps}

-- Each node has a size that exceeds what its children's sizes add up to; the root's is at most
-- the number of nodes. (The number of nodes of a subtree is such a size.)
pub record IsSized (nodes : List DirNode) (size : ℕ → ℕ) : Type 0 where
  pub step : (i : ℕ) (n : DirNode) → get_elem? nodes i ≡ some n → sizes size n.children < size i
  pub fits : size 0 ≤ length nodes

module _ (old new : DirTree) (size : ℕ → ℕ) where
  module _ (a b : ℕ) (stack : List (ℕ × ℕ)) (out : List Change) {n q : DirNode} {path : Bytes}
      (m : Merge) (e : get_elem? old.nodes a ≡ some n) (f : get_elem? new.nodes b ≡ some q)
      (merged : merge_kids old new n.children q.children
          (record { here = between n.sub q.sub; stack = stack; out = out })
        ≡ ok m)
      (runs : display_path new b ≡ ok path) where
    diff_pair_none : is_zero m.here ≡ true → diff_pair old new a b stack out ≡ ok m
    unfolding diff_pair
    diff_pair_none h = ground arith

    diff_pair_some :
        is_zero m.here ≡ false
        → diff_pair old new a b stack out ≡ ok (record m { out = m.out ++ (path, m.here) ∷ [] })
    unfolding diff_pair
    diff_pair_some h = ground arith

  module _ (so : IsSummed old.nodes) (sn : IsSummed new.nodes) where
    -- One round of the loop: what it lists and leaves on the stack adds up to what it took off.
    record Round (a b : ℕ) (stack : List (ℕ × ℕ)) (out : List Change) : Type 0 where
      next : Merge
      returns : diff_pair old new a b stack out ≡ ok next
      kept :
          (c : Counter)
          → total c next.out +ℤ pending c old.nodes new.nodes next.stack
            ≡ total c out +ℤ pending c old.nodes new.nodes ((a, b) ∷ stack)
      fewer : rounds size next.stack < rounds size ((a, b) ∷ stack)
      in_range : InRange old new size next.stack

    module _ (a b : ℕ) (stack : List (ℕ × ℕ)) (out : List Change) (n q : DirNode) (path : Bytes)
        (e : get_elem? old.nodes a ≡ some n) (f : get_elem? new.nodes b ≡ some q)
        (runs : display_path new b ≡ ok path) (sized : IsSized old.nodes size) where
      abbrev start : Merge
      start = record { here = between n.sub q.sub; stack = stack; out = out }

      here_is :
          (c : Counter) → change c start.here ≡ sub_ℕ (sub_at c new.nodes b) (sub_at c old.nodes a)
      here_is c =
          rw (sub_at-some c new.nodes b f, sub_at-some c old.nodes a e)
            (change-both c n.sub q.sub (so.fits c a n e) (sn.fits c b q f))

      Round-merged :
          Keeps old new size start [] []
            (sizes size n.children)
            (merge_kids old new n.children q.children start)
          → Round a b stack out
      Round-merged k = elim (Bool-cases (is_zero k.next.here)) [
        | inl none_left ↦ record {
          next = k.next;
          returns = diff_pair_none a b stack out k.next e f k.returns runs none_left;
          kept = λ c.
              settled_zero _ _ _ _ _ _
                (k.kept c
                  ∙ ap (λ z. z +ℤ (total c out +ℤ pending c old.nodes new.nodes stack)) (here_is c))
                (change-zero c k.next.here none_left);
          fewer = omega (arith, k.within, sized.step a n e);
          in_range = k.in_range;
        }
        | inr some_left ↦ record {
          next = record k.next { out = k.next.out ++ (path, k.next.here) ∷ [] };
          returns = diff_pair_some a b stack out k.next e f k.returns runs some_left;
          kept = λ c. rw (total-snoc c k.next.out (path, k.next.here)) (
              settled_out _ _ _ _ _ _ (
                k.kept c
                ∙ ap (λ z. z +ℤ (total c out +ℤ pending c old.nodes new.nodes stack)) (here_is c)));
          fewer = omega (arith, k.within, sized.step a n e);
          in_range = k.in_range;
        }
      ]

    diff_pair-Round :
        (a b : ℕ) (stack : List (ℕ × ℕ)) (out : List Change)
        → IsSized old.nodes size
        → a < length old.nodes
        → b < length new.nodes
        → InRange old new size stack
        → Round a b stack out
    diff_pair-Round a b stack out sized h k range =
        let (n, e) = get_elem?-some old.nodes a h in
        let (q, f) = get_elem?-some new.nodes b k in
        let (path, runs) = display_path-returns new b sn.tree k in
        Round-merged a b stack out n q path e f runs sized (
          merge_kids-Keeps old new size so sn n.children q.children _ range (so.kids a n e)
            (sn.kids b q f)
            (λ c. record {
              left = count c n.sub;
              right = count c q.sub;
              here = change-both c n.sub q.sub (so.fits c a n e) (sn.fits c b q f);
              left_fits = so.fits c a n e;
              right_fits = sn.fits c b q f;
              left_holds = so.held c a n e;
              right_holds = sn.held c b q f;
            }))

    diff_loop-sum :
        (fuel : ℕ) (stack : List (ℕ × ℕ)) (out : List Change)
        → IsSized old.nodes size
        → InRange old new size stack
        → rounds size stack ≤ fuel
        → (all : List Change) × (diff_loop old new fuel stack out ≡ ok all)
          × ((c : Counter) → total c all ≡ total c out +ℤ pending c old.nodes new.nodes stack)
    unfolding diff_loop
    diff_loop-sum zero [] out sized range h = (out, refl, λ c. omega int_laws)
    diff_loop-sum (suc fuel) [] out sized range h = (out, refl, λ c. omega int_laws)
    diff_loop-sum zero ((a, b) ∷ stack) out sized range h =
        absurd
          (omega (arith, (diff_pair-Round a b stack out sized range.0.0 range.0.1 range.1).fewer))
    diff_loop-sum (suc fuel) ((a, b) ∷ stack) out sized range h =
        let r = diff_pair-Round a b stack out sized range.0.0 range.0.1 range.1 in
        let (all, runs, sums) =
          diff_loop-sum fuel r.next.stack r.next.out sized r.in_range (omega (arith, r.fewer)) in
        (all, rw r.returns runs, λ c. sums c ∙ r.kept c)

both_hold_roots : (xs ys : List DirNode) → 0 < length xs → 0 < length ys → both_hold xs ys ≡ true
both_hold_roots [] ys h k = absurd (omega arith)
both_hold_roots (x ∷ xs) [] h k = absurd (omega arith)
both_hold_roots (x ∷ xs) (y ∷ ys) h k = refl

-- Between two trees whose nodes hold what their children hold, in counters that fit `i64`, and the
-- older of which has subtree sizes, `diff` returns, and in each counter the changes that it lists
-- add up, exactly, to the change between the two roots.
pub diff-total :
    (old new : DirTree) (size : ℕ → ℕ) (o n : DirNode)
    → IsSummed old.nodes
    → IsSummed new.nodes
    → IsSized old.nodes size
    → get_elem? old.nodes 0 ≡ some o
    → get_elem? new.nodes 0 ≡ some n
    → (out : List Change) × (diff old new ≡ ok out)
      × ((c : Counter) → total c out ≡ change c (between o.sub n.sub))
unfolding diff
diff-total old new size o n so sn sized eo en =
    let ho = get_elem?_lt old.nodes 0 eo in
    let hn = get_elem?_lt new.nodes 0 en in
    let (out, runs, sums) =
      diff_loop-sum old new size so sn (length old.nodes) ((0, 0) ∷ []) [] sized ((ho, hn), tt)
        (omega (arith, sized.fits)) in
    (
      out,
      rw (both_hold_roots old.nodes new.nodes ho hn) runs,
      λ c.
          sums c
          ∙ rw
              (
                change-both c o.sub n.sub (so.fits c 0 o eo) (sn.fits c 0 n en),
                sub_at-some c old.nodes 0 eo,
                sub_at-some c new.nodes 0 en,
              )
              (omega int_laws),
    )
