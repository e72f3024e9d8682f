-- ===== src/Walk/Build/Flat.antt =====
-- src/scanner/native.rs: the nodes that `build_tree` starts from: no children, and what is in the
-- directory itself and below it without a node.
use storage_harvester.Base.{
  ℕ, zero, suc, ◌+◌, ◌≤◌, ◌<◌, ◌≡◌, refl, ap, sym, ◌∙◌, Option, some, none, List, [], ◌∷◌, arith,
  map, length, get_elem?, get_elem?-some,
}
use storage_harvester.Base.Int.{i64_max}
use storage_harvester.Base.Result.{ok}
use storage_harvester.Tree.Dir.{DirNode}
use storage_harvester.Tree.Climb.Ancestors.{parents}
use storage_harvester.Tree.Diff.Counters.{Counter, count}
use storage_harvester.Tree.Diff.Steps.{sub_at}
use storage_harvester.Walk.Build.{TrackedNode, NodeTally, node_of, nodes_of}
use storage_harvester.Tree.Dir.Reads.{kids_at}
use storage_harvester.Walk.Build.Rolled.{count-add}

abbrev held_by : Counter → Option NodeTally → ℕ
held_by c none = 0
held_by c (some t) = count c t.direct + count c t.below

-- What the tally of an index counts.
abbrev pub held : Counter → List NodeTally → ℕ → ℕ
held c tallies i = held_by c (get_elem? tallies i)

abbrev pub parents_of : List TrackedNode → List ℕ
parents_of = map (λ n. n.parent)

-- The nodes come from the tallies from the index on.
pub record IsFlat (index : ℕ) (ns : List TrackedNode) (tallies : List NodeTally)
    (out : List DirNode) : Type 0 where
  pub same_parents : parents out ≡ parents_of ns
  pub same_length : length out ≡ length ns
  pub no_kids : (j : ℕ) → kids_at out j ≡ []
  pub from :
      (c : Counter) (j : ℕ)
      → j < length ns
      → held c tallies (index + j) ≤ i64_max
      → sub_at c out j ≡ held c tallies (index + j)

sub-node_of :
    (c : Counter) (n : TrackedNode) (t : NodeTally)
    → count c t.direct + count c t.below ≤ i64_max
    → count c (node_of n t).sub ≡ count c t.direct + count c t.below
unfolding node_of
sub-node_of c n t h = count-add c t.direct t.below h

module _ (index : ℕ) (n : TrackedNode) (ns : List TrackedNode) (tallies : List NodeTally)
    (t : NodeTally) (e : get_elem? tallies index ≡ some t) (out : List DirNode)
    (r : IsFlat (suc index) ns tallies out) where
  index_zero : index + 0 ≡ index
  index_zero = omega arith

  index_suc : (j : ℕ) → index + suc j ≡ suc index + j
  index_suc j = omega arith

  no_kids_cons : (j : ℕ) → kids_at (node_of n t ∷ out) j ≡ []
  unfolding node_of
  no_kids_cons zero = refl
  no_kids_cons (suc j) = r.no_kids j

  held_here : (c : Counter) → held c tallies (index + 0) ≡ count c t.direct + count c t.below
  held_here c = ap (held c tallies) index_zero ∙ ap (held_by c) e

  held_next :
      (c : Counter) (j : ℕ) → held c tallies (index + suc j) ≡ held c tallies (suc index + j)
  held_next c j = ap (held c tallies) (index_suc j)

  from_cons :
      (c : Counter) (j : ℕ)
      → j < length (n ∷ ns)
      → held c tallies (index + j) ≤ i64_max
      → sub_at c (node_of n t ∷ out) j ≡ held c tallies (index + j)
  from_cons c zero lt h = sub-node_of c n t (omega (arith, h, held_here c)) ∙ sym (held_here c)
  from_cons c (suc j) lt h =
      r.from c j (omega arith) (omega (arith, h, held_next c j)) ∙ sym (held_next c j)

  IsFlat-cons : IsFlat index (n ∷ ns) tallies (node_of n t ∷ out)
  unfolding node_of
  IsFlat-cons = record {
    same_parents = ap (λ ps. n.parent ∷ ps) r.same_parents;
    same_length = ap suc r.same_length;
    no_kids = no_kids_cons;
    from = from_cons;
  }

pub nodes_of-IsFlat :
    (index : ℕ) (ns : List TrackedNode) (tallies : List NodeTally)
    → index + length ns ≤ length tallies
    → (out : List DirNode) × (nodes_of index ns tallies ≡ ok out) × IsFlat index ns tallies out
unfolding nodes_of
nodes_of-IsFlat index [] tallies h = (
  [],
  refl,
  record {
    same_parents = refl;
    same_length = refl;
    no_kids = λ j. refl;
    from = λ c j lt. elim lt [ ];
  },
)
nodes_of-IsFlat index (n ∷ ns) tallies h =
    let (t, e) = get_elem?-some tallies index (omega (arith, h)) in
    let (out, runs, flat) = nodes_of-IsFlat (suc index) ns tallies (omega (arith, h)) in
    (node_of n t ∷ out, rw e (rw runs refl), IsFlat-cons index n ns tallies t e out flat)
