-- ===== src/Examples/Trees.antt =====
-- src/tree.rs: the tree of the source's own tests, one that came after it, and what the theorems
-- state of them.
use storage_harvester.Base.{
  ℕ, zero, suc, ◌+◌, ◌≤◌, ◌<◌, ◌≡◌, refl, ◌↔◌, ◌≢◌, subst, sym, true, false, some, List, [], ◌∷◌,
  ◌++◌, arith, get_elem?, All, some_inj,
}
use storage_harvester.Base.Int.{pos, i64_max, clamp_i64, ◌≤ℤ◌}
use storage_harvester.Base.Bytes.{Bytes, text, cmp}
use storage_harvester.Base.Result.{ok}
use storage_harvester.Tree.Tally.{Tally, Delta, empty, between, apply, negate, is_zero, zero_delta}
use storage_harvester.Tree.Tally.Laws.{
  apply-between, negate-between, apply-negate, is_zero-between, IsTally, AreNear,
}
use storage_harvester.Tree.Dir.{DirNode, DirTree, no_node, no_time}
use storage_harvester.Tree.Climb.{propagate, touch, components}
use storage_harvester.Tree.Climb.Ancestors.{parents, IsTree, Climbs}
use storage_harvester.Tree.Climb.Propagate.{propagate-Climbs, with_delta}
use storage_harvester.Tree.Climb.Touch.{touch-Climbs, raise, IsRising}
use storage_harvester.Tree.Children.{search, attach, find, child_named}
use storage_harvester.Tree.Children.Sorted.{attach-Attached, Named, nil, cons, Attached}
use storage_harvester.Tree.Children.Paths.{find-components, IsListed}
use storage_harvester.Tree.Diff.{diff, Change}
use storage_harvester.Tree.Diff.Counters.{
  Counter, files, dirs, symlinks, blocks, apparent, count, change,
}
use storage_harvester.Tree.Diff.Steps.{total, IsSummed, kids_sum, sizes}
use storage_harvester.Tree.Diff.Sums.{IsSized, diff-total}

abbrev pub tally : ℕ → Tally
tally size = record { files = 0; dirs = 0; symlinks = 0; blocks = size; apparent = size }

abbrev pub node : Bytes → ℕ → ℕ → ℕ → ℕ → ℕ → List ℕ → DirNode
node name parent depth direct sub newest children = record {
  name = name;
  parent = parent;
  depth = depth;
  ino = 100 + sub;
  own_blocks = 4;
  own_apparent = 4;
  mtime = pos 1;
  newest = pos newest;
  direct = tally direct;
  sub = tally sub;
  children = children;
  sealed = false;
  pruned = false;
  alive = true;
}

abbrev pub tree_of : List DirNode → DirTree
tree_of nodes = record {
  display_root = text "/data";
  scan_root = text "/host/data";
  root_dev = 1;
  nodes = nodes;
  links = [];
  handles = [];
  plain = [];
  untracked_links = [];
}

abbrev pub sample_nodes : List DirNode
sample_nodes =
    node [] no_node 0 18 1172 300 (1 ∷ 2 ∷ [])
    ∷ node (text "a") 0 1 104 1104 300 (3 ∷ [])
    ∷ node (text "b") 0 1 50 50 50 []
    ∷ node (text "x") 1 2 1000 1000 300 []
    ∷ []

abbrev pub sample : DirTree
sample = tree_of sample_nodes

-- The directory `b` is gone, and `a/x` has grown.
abbrev pub newer_nodes : List DirNode
newer_nodes =
    node [] no_node 0 18 1422 400 (1 ∷ [])
    ∷ node (text "a") 0 1 104 1404 400 (2 ∷ [])
    ∷ node (text "x") 1 2 1300 1300 400 []
    ∷ []

abbrev pub newer : DirTree
newer = tree_of newer_nodes

-- A property of every element of a list and its index.
abbrev pub Each : {A : Type 0} → (ℕ → A → Type 0) → List A → Type 0
Each P [] = Unit
Each P (x ∷ xs) = P 0 x × Each (λ i. P (suc i)) xs

pub each :
    {A : Type 0} (P : ℕ → A → Type 0) (xs : List A)
    → Each P xs
    → (i : ℕ) (x : A) → get_elem? xs i ≡ some x
    → P i x
each P [] h i x e = cc
each P (x ∷ xs) h zero y e = subst (P 0) (some_inj e) h.0
each P (x ∷ xs) h (suc i) y e = each (λ j. P (suc j)) xs h.1 i y e

pub sample-IsTree : IsTree (parents sample_nodes)
sample-IsTree = record {
  fits = omega arith;
  root = λ p e. sym (some_inj e);
  up = λ i p e.
      each (λ j q. q ≤ j) (0 ∷ 0 ∷ 1 ∷ []) (omega arith, (omega arith, (omega arith, tt))) i p e;
}

pub newer-IsTree : IsTree (parents newer_nodes)
newer-IsTree = record {
  fits = omega arith;
  root = λ p e. sym (some_inj e);
  up = λ i p e. each (λ j q. q ≤ j) (0 ∷ 1 ∷ []) (omega arith, (omega arith, tt)) i p e;
}

abbrev Holds : List DirNode → Counter → ℕ → DirNode → Type 0
Holds nodes c i n = (kids_sum c nodes n.children ≤ count c n.sub) × (count c n.sub ≤ i64_max)

sample-Holds : (c : Counter) → Each (Holds sample_nodes c) sample_nodes
unfolding count
sample-Holds files = ground arith
sample-Holds dirs = ground arith
sample-Holds symlinks = ground arith
sample-Holds blocks = ground arith
sample-Holds apparent = ground arith

pub sample-IsSummed : IsSummed sample_nodes
sample-IsSummed = record {
  tree = sample-IsTree;
  kids = each (λ i n. All (λ k. k < 4) n.children) sample_nodes (ground arith);
  held = λ c i n e. (each (Holds sample_nodes c) sample_nodes (sample-Holds c) i n e).0;
  fits = λ c i n e. (each (Holds sample_nodes c) sample_nodes (sample-Holds c) i n e).1;
}

propagate-Climbs_example :
    (after : List DirNode) × (propagate sample_nodes 3 (between empty (tally 7)) ≡ ok after)
    × Climbs (with_delta (between empty (tally 7))) sample_nodes 3 after
unfolding is_zero between storage_harvester.Tree.Tally.diff clamp_i64
propagate-Climbs_example =
    propagate-Climbs sample_nodes 3 (between empty (tally 7)) sample-IsTree (omega arith) refl

sample-IsRising : IsRising sample_nodes 3
sample-IsRising = record {
  timed = λ j n a e. each (λ i k. k.newest ≢ no_time) sample_nodes (ground arith) j n e;
  rising = λ j n m a e f.
      each (λ i k. (m : DirNode) → get_elem? sample_nodes k.parent ≡ some m → k.newest ≤ℤ m.newest)
        sample_nodes (ground arith) j n e m f;
}

touch-Climbs_example :
    (after : List DirNode) × (touch sample_nodes 3 (pos 310) ≡ ok after)
    × Climbs (raise (pos 310)) sample_nodes 3 after
touch-Climbs_example =
    touch-Climbs sample_nodes 3 (pos 310) sample-IsTree sample-IsRising (omega arith)

sample-IsListed : IsListed sample_nodes 3
unfolding child_named search cmp
sample-IsListed j n a ne e =
    each (λ i k. i ≢ 0 → child_named sample_nodes k.parent k.name ≡ ok (some i)) sample_nodes
      (ground arith) j n e ne

find-components_example :
    (path : List Bytes) × (components sample 3 ≡ ok path)
    × (find sample_nodes (text "data" ∷ []) ((text "data" ∷ []) ++ path) ≡ ok (some 3))
find-components_example =
    find-components sample (text "data" ∷ []) 3 sample-IsTree sample-IsListed (omega arith)

newer-Holds : (c : Counter) → Each (Holds newer_nodes c) newer_nodes
unfolding count
newer-Holds files = ground arith
newer-Holds dirs = ground arith
newer-Holds symlinks = ground arith
newer-Holds blocks = ground arith
newer-Holds apparent = ground arith

newer-IsSummed : IsSummed newer_nodes
newer-IsSummed = record {
  tree = newer-IsTree;
  kids = each (λ i n. All (λ k. k < 3) n.children) newer_nodes (ground arith);
  held = λ c i n e. (each (Holds newer_nodes c) newer_nodes (newer-Holds c) i n e).0;
  fits = λ c i n e. (each (Holds newer_nodes c) newer_nodes (newer-Holds c) i n e).1;
}

-- How many directories a subtree of the sample has.
abbrev pub size : ℕ → ℕ
size zero = 4
size (suc zero) = 2
size (suc (suc i)) = 1

pub sample-IsSized : IsSized sample_nodes size
sample-IsSized = record {
  step = each (λ i n. sizes size n.children < size i) sample_nodes (ground arith);
  fits = omega arith;
}

diff-total_example :
    (out : List Change) × (diff sample newer ≡ ok out)
    × ((c : Counter) → total c out ≡ change c (between (tally 1172) (tally 1422)))
diff-total_example =
    diff-total sample newer size (node [] no_node 0 18 1172 300 (1 ∷ 2 ∷ []))
      (node [] no_node 0 18 1422 400 (1 ∷ [])) sample-IsSummed newer-IsSummed sample-IsSized refl
      refl

-- `a` without its child, which is still to be attached.
abbrev loose_nodes : List DirNode
loose_nodes =
    node [] no_node 0 18 1172 300 (1 ∷ 2 ∷ [])
    ∷ node (text "a") 0 1 104 104 300 []
    ∷ node (text "c") 0 1 50 50 50 []
    ∷ node (text "b") 0 1 0 0 300 []
    ∷ []

loose-Named : Named loose_nodes (1 ∷ 2 ∷ []) ((text "a", 1) ∷ (text "c", 2) ∷ [])
loose-Named =
    cons (node (text "a") 0 1 104 104 300 []) refl refl
      (cons (node (text "c") 0 1 50 50 50 []) refl refl nil)

attach-Attached_example :
    (after : List DirNode) × (attach loose_nodes 0 3 ≡ ok after)
    × Attached loose_nodes 0 3 (text "b") after
unfolding cmp
attach-Attached_example =
    attach-Attached loose_nodes 0 3 (node (text "b") 0 1 0 0 300 [])
      (node [] no_node 0 18 1172 300 (1 ∷ 2 ∷ [])) ((text "a", 1) ∷ (text "c", 2) ∷ []) refl refl
      loose-Named (ground arith) refl

tally-IsTally : (k : ℕ) → k ≤ 1000 → IsTally (tally k)
tally-IsTally k h = record {
  files = omega arith;
  dirs = omega arith;
  symlinks = omega arith;
  blocks = omega (arith, h);
  apparent = omega (arith, h);
}

tally-AreNear : (j k : ℕ) → j ≤ 1000 → k ≤ 1000 → AreNear (tally j) (tally k)
tally-AreNear j k h i = record {
  files = (omega arith, omega arith);
  dirs = (omega arith, omega arith);
  symlinks = (omega arith, omega arith);
  blocks = (omega (arith, h, i), omega (arith, h, i));
  apparent = (omega (arith, h, i), omega (arith, h, i));
}

apply-between_example : apply (tally 900) (between (tally 900) (tally 40)) ≡ tally 40
apply-between_example =
    apply-between (tally 900) (tally 40) (tally-IsTally 40 (omega arith))
      (tally-AreNear 900 40 (omega arith) (omega arith))

negate-between_example : negate (between (tally 900) (tally 40)) ≡ between (tally 40) (tally 900)
negate-between_example =
    negate-between (tally 900) (tally 40) (tally-AreNear 900 40 (omega arith) (omega arith))
      (tally-AreNear 40 900 (omega arith) (omega arith))

apply-negate_example :
    apply
      (apply (tally 900) (between (tally 900) (tally 40)))
      (negate (between (tally 900) (tally 40)))
    ≡ tally 900
apply-negate_example =
    apply-negate (tally 900) (tally 40) (tally-IsTally 900 (omega arith))
      (tally-IsTally 40 (omega arith)) (tally-AreNear 900 40 (omega arith) (omega arith))
      (tally-AreNear 40 900 (omega arith) (omega arith))

is_zero-between_example : (is_zero (between (tally 7) (tally 7)) ≡ true) ↔ (tally 7 ≡ tally 7)
is_zero-between_example = is_zero-between (tally 7) (tally 7)
