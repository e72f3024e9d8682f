-- ===== src/Tree/Diff/Steps.antt =====
-- src/tree.rs: what one step of the merge in `diff` does to the sum of all changes: it stays.
use storage_harvester.Base.{
  ℕ, ◌+◌, ◌≤◌, ◌<◌, ◌≡◌, refl, sym, ap, Option, some, none, List, [], ◌∷◌, ◌++◌, arith, length,
  get_elem?, All, get_elem?-some,
}
use storage_harvester.Base.Int.{ℤ, pos, sub_ℕ, ◌+ℤ◌, i64_max, int_laws}
use storage_harvester.Base.Bytes.{Bytes}
use storage_harvester.Base.Result.{Result, ok}
use storage_harvester.Tree.Tally.{Delta, from_tally, negate, plus, between}
use storage_harvester.Tree.Dir.{DirNode, DirTree}
use storage_harvester.Tree.Climb.Ancestors.{parents, IsTree}
use storage_harvester.Tree.Climb.Returns.{components-returns}
use storage_harvester.Tree.Diff.{Change, Merge, join, display_path, gone_kid, came_kid, both_kids}
use storage_harvester.Tree.Diff.Span.{Span, Span-less, Span-back, moved_out, moved_down}
use storage_harvester.Tree.Diff.Counters.{
  Counter, count, change, change-came, change-both, change-gone,
}

-- What the changes of a list add up to, exactly.
abbrev pub total : Counter → List Change → ℤ
total c [] = pos 0
total c ((path, d) ∷ out) = change c d +ℤ total c out

abbrev pub sub_of : Counter → Option DirNode → ℕ
sub_of c none = 0
sub_of c (some n) = count c n.sub

abbrev pub sub_at : Counter → List DirNode → ℕ → ℕ
sub_at c nodes i = sub_of c (get_elem? nodes i)

abbrev pub kids_sum : Counter → List DirNode → List ℕ → ℕ
kids_sum c nodes [] = 0
kids_sum c nodes (k ∷ ks) = sub_at c nodes k + kids_sum c nodes ks

-- A tree whose nodes hold at least what their children hold, in counters that fit `i64`.
pub record IsSummed (nodes : List DirNode) : Type 0 where
  pub tree : IsTree (parents nodes)
  pub kids :
      (i : ℕ) (n : DirNode) → get_elem? nodes i ≡ some n → All (λ k. k < length nodes) n.children
  pub held :
      (c : Counter) (i : ℕ) (n : DirNode)
      → get_elem? nodes i ≡ some n
      → kids_sum c nodes n.children ≤ count c n.sub
  pub fits :
      (c : Counter) (i : ℕ) (n : DirNode) → get_elem? nodes i ≡ some n → count c n.sub ≤ i64_max

pub total-snoc :
    (c : Counter) (out : List Change) (e : Change)
    → total c (out ++ e ∷ []) ≡ total c out +ℤ change c e.1
total-snoc c [] e = omega int_laws
total-snoc c (x ∷ out) e = rw (total-snoc c out e) (omega int_laws)

-- What the pairs on the stack still have to add.
abbrev pub pending : Counter → List DirNode → List DirNode → List (ℕ × ℕ) → ℤ
pending c olds news [] = pos 0
pending c olds news ((a, b) ∷ stack) =
    sub_ℕ (sub_at c news b) (sub_at c olds a) +ℤ pending c olds news stack

-- How many rounds the pairs on the stack can take, by the sizes of the older subtrees.
abbrev pub rounds : (ℕ → ℕ) → List (ℕ × ℕ) → ℕ
rounds size [] = 0
rounds size ((a, b) ∷ stack) = size a + rounds size stack

abbrev pub sizes : (ℕ → ℕ) → List ℕ → ℕ
sizes size [] = 0
sizes size (k ∷ ks) = size k + sizes size ks

pub display_path-returns :
    (t : DirTree) (i : ℕ)
    → IsTree (parents t.nodes)
    → i < length t.nodes
    → (path : Bytes) × (display_path t i ≡ ok path)
unfolding display_path
display_path-returns t i tree h =
    let (parts, runs) = components-returns t i tree h in (join t.display_root parts, rw runs refl)

pub sub_at-some :
    (c : Counter) (nodes : List DirNode) (i : ℕ) {n : DirNode}
    → get_elem? nodes i ≡ some n
    → sub_at c nodes i ≡ count c n.sub
sub_at-some c nodes i e = ap (sub_of c) e

module _ (old new : DirTree) (size : ℕ → ℕ) where
  -- `here` stands between what is left of the two directories, children included.
  abbrev pub Spans : Merge → List ℕ → List ℕ → Type 0
  Spans m as' bs =
      (c : Counter) → Span c m.here (kids_sum c old.nodes as') (kids_sum c new.nodes bs)

  abbrev pub value : Counter → Merge → ℤ
  value c m = change c m.here +ℤ (total c m.out +ℤ pending c old.nodes new.nodes m.stack)

  abbrev pub InRange : List (ℕ × ℕ) → Type 0
  InRange = All (λ p. (p.0 < length old.nodes) × (p.1 < length new.nodes))

  -- `next` carries on from `m`: nothing is lost of any counter.
  pub record Keeps (m : Merge) (as' bs : List ℕ) (spent : ℕ) (r : Result Merge) : Type 0 where
    pub next : Merge
    pub returns : r ≡ ok next
    pub kept : (c : Counter) → value c next ≡ value c m
    pub spans : Spans next as' bs
    pub within : rounds size next.stack ≤ rounds size m.stack + spent
    pub in_range : InRange next.stack

  module _ (so : IsSummed old.nodes) (sn : IsSummed new.nodes) (m : Merge) (as' bs : List ℕ)
      (range : InRange m.stack) where
    -- What a step leaves, for a change `d` of each counter from `x` to `y`.
    abbrev Amounts : Delta → (Counter → ℕ) → (Counter → ℕ) → List ℕ → List ℕ → Type 0
    Amounts d x y cs ds =
        (c : Counter)
        → (change c d ≡ sub_ℕ (y c) (x c))
          × (x c + kids_sum c old.nodes as' ≤ kids_sum c old.nodes cs)
          × (y c + kids_sum c new.nodes bs ≤ kids_sum c new.nodes ds)

    out-Keeps :
        (d : Delta) (x y : Counter → ℕ) (path : Bytes) (cs ds : List ℕ) (spent : ℕ)
        → Spans m cs ds
        → Amounts d x y cs ds
        → Keeps m as' bs spent
            (ok (record m { here = plus m.here (negate d); out = m.out ++ (path, d) ∷ [] }))
    out-Keeps d x y path cs ds spent s am = record {
      next = record m { here = plus m.here (negate d); out = m.out ++ (path, d) ∷ [] };
      returns = refl;
      kept = λ c. rw (total-snoc c m.out (path, d)) (
          moved_out _ _ _ _ _ (
            Span-back c m.here d (kids_sum c old.nodes as') (kids_sum c new.nodes bs) (y c) (x c)
              (s c) (am c).0 (am c).1 (am c).2));
      spans = λ c.
          Span-less c m.here d (kids_sum c old.nodes as') (kids_sum c new.nodes bs) (y c) (x c)
            (s c) (am c).0 (am c).1 (am c).2;
      within = omega arith;
      in_range = range;
    }

    down-Keeps :
        (a b : ℕ) (d : Delta) (x y : Counter → ℕ) (cs ds : List ℕ)
        → (a < length old.nodes) × (b < length new.nodes)
        → ((c : Counter) → (x c ≡ sub_at c old.nodes a) × (y c ≡ sub_at c new.nodes b))
        → Spans m cs ds
        → Amounts d x y cs ds
        → Keeps m as' bs
            (size a)
            (ok (record m { here = plus m.here (negate d); stack = (a, b) ∷ m.stack }))
    down-Keeps a b d x y cs ds h at s am = record {
      next = record m { here = plus m.here (negate d); stack = (a, b) ∷ m.stack };
      returns = refl;
      kept = λ c.
          rw (← (at c).0, ← (at c).1, ← (am c).0)
            (moved_down _ _ _ _ _ (
              Span-back c m.here d (kids_sum c old.nodes as') (kids_sum c new.nodes bs) (y c) (x c)
                (s c) (am c).0 (am c).1 (am c).2));
      spans = λ c.
          Span-less c m.here d (kids_sum c old.nodes as') (kids_sum c new.nodes bs) (y c) (x c)
            (s c) (am c).0 (am c).1 (am c).2;
      within = omega arith;
      in_range = (h, range);
    }

    pub gone_kid-Keeps :
        (a : ℕ)
        → a < length old.nodes
        → Spans m (a ∷ as') bs
        → Keeps m as' bs (size a) (gone_kid old new a m)
    unfolding gone_kid
    gone_kid-Keeps a h s =
        let (n, e) = get_elem?-some old.nodes a h in
        let (path, runs) = display_path-returns old a so.tree h in
        rw e (
          rw runs (
            out-Keeps (negate (from_tally n.sub)) (λ c. count c n.sub) (λ _. 0) path (a ∷ as') bs
              (size a) s
              (λ c. (
                change-gone c n.sub (so.fits c a n e),
                omega (arith, sub_at-some c old.nodes a e),
                omega arith,
              ))))

    pub came_kid-Keeps :
        (b : ℕ)
        → b < length new.nodes
        → Spans m as' (b ∷ bs)
        → Keeps m as' bs 0 (came_kid old new b m)
    unfolding came_kid
    came_kid-Keeps b h s =
        let (n, e) = get_elem?-some new.nodes b h in
        let (path, runs) = display_path-returns new b sn.tree h in
        rw e (
          rw runs (
            out-Keeps (from_tally n.sub) (λ _. 0) (λ c. count c n.sub) path as' (b ∷ bs) 0 s
              (λ c. (
                change-came c n.sub (sn.fits c b n e),
                omega arith,
                omega (arith, sub_at-some c new.nodes b e),
              ))))

    pub both_kids-Keeps :
        (a b : ℕ)
        → a < length old.nodes
        → b < length new.nodes
        → Spans m (a ∷ as') (b ∷ bs)
        → Keeps m as' bs (size a) (both_kids old new a b m)
    unfolding both_kids
    both_kids-Keeps a b h k s =
        let (n, e) = get_elem?-some old.nodes a h in
        let (q, f) = get_elem?-some new.nodes b k in
        rw e (
          rw f (
            down-Keeps a b (between n.sub q.sub) (λ c. count c n.sub) (λ c. count c q.sub) (a ∷ as')
              (b ∷ bs) (h, k)
              (λ c. (sym (sub_at-some c old.nodes a e), sym (sub_at-some c new.nodes b f))) s
              (λ c. (
                change-both c n.sub q.sub (so.fits c a n e) (sn.fits c b q f),
                omega (arith, sub_at-some c old.nodes a e),
                omega (arith, sub_at-some c new.nodes b f),
              ))))
