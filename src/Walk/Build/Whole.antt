-- ===== src/Walk/Build/Whole.antt =====
-- src/scanner/native.rs and src/tree.rs: what `build_tree` returns, and what `diff` lists between
-- two trees that it built.
use mathlib.Core.Path.{ap₂}
use storage_harvester.Base.{
  ℕ, suc, ◌+◌, ◌-◌, ◌≤◌, ◌<◌, ◌≡◌, refl, ap, sym, ◌∙◌, subst, some, List, [], ◌∷◌, arith, length,
  get_elem?-some, All, All-map,
}
use storage_harvester.Base.Int.{i64_max, sub_ℕ}
use storage_harvester.Base.Bytes.{Bytes}
use storage_harvester.Base.Result.{ok}
use storage_harvester.Tree.Dir.{DirNode, DirTree, Inode, LinkOwner}
use storage_harvester.Tree.Climb.Ancestors.{parents, length-parents, IsTree}
use storage_harvester.Tree.Diff.{Change, diff}
use storage_harvester.Tree.Diff.Counters.{Counter, change-both}
use storage_harvester.Tree.Diff.Steps.{sub_at, sub_at-some, IsSummed, total}
use storage_harvester.Tree.Diff.Sums.{IsSized, diff-total}
use storage_harvester.Walk.Build.{TrackedNode, NodeTally, nodes_of, tree_of, build, build_tree}
use storage_harvester.Walk.Build.Flat.{held, parents_of, IsFlat, nodes_of-IsFlat}
use storage_harvester.Walk.Build.Forest.{below, below-cong, below-le, IsRolled-start}
use storage_harvester.Tree.Dir.Reads.{kids_at}
use storage_harvester.Walk.Build.Rolled.{Rolling, AllFits, roll_up-Rolling}
use storage_harvester.Walk.Build.Sorting.{sort_all-returns}
use storage_harvester.Walk.Build.Summed.{All-nodes, IsSummed-sorted, IsSized-sorted, root-sorted}

-- What a walk hands over: each node after the root stands after its parent, there is a tally for
-- each, and all that they count together fits `i64`.
pub record IsWalked (nodes : List TrackedNode) (tallies : List NodeTally) : Type 0 where
  pub tree : IsTree (parents_of nodes)
  pub rooted : 0 < length nodes
  pub counted : length nodes ≤ length tallies
  pub fits : (c : Counter) → below (held c tallies) (length nodes) ≤ i64_max

-- A tree that `diff` compares, with the walk's parents and totals.
pub record IsBuilt (nodes : List TrackedNode) (tallies : List NodeTally) (t : DirTree)
    : Type 0 where
  pub same_parents : parents t.nodes ≡ parents_of nodes
  pub summed : IsSummed t.nodes
  pub size : ℕ → ℕ
  pub sized : IsSized t.nodes size
  pub totals : (c : Counter) → sub_at c t.nodes 0 ≡ below (held c tallies) (length nodes)

module _ (nodes : List TrackedNode) (tallies : List NodeTally) (w : IsWalked nodes tallies)
    (flat : List DirNode) (f : IsFlat 0 nodes tallies flat) where
  same_index : (j : ℕ) → 0 + j ≡ j
  same_index j = omega arith

  flat_sub : (c : Counter) (j : ℕ) → j < length nodes → sub_at c flat j ≡ held c tallies j
  flat_sub c j lt =
      let at = ap (held c tallies) (same_index j) in
      f.from c j lt (omega (arith, at, below-le (held c tallies) (length nodes) j lt, w.fits c))
      ∙ at

  pub flat_total :
      (c : Counter) → below (sub_at c flat) (length flat) ≡ below (held c tallies) (length nodes)
  flat_total c =
      rw f.same_length (below-cong (sub_at c flat) (held c tallies) (length nodes) (flat_sub c))

  pub flat_fits : AllFits flat
  flat_fits c = omega (arith, flat_total c, w.fits c)

  flat-IsTree : IsTree (parents flat)
  flat-IsTree = subst IsTree (sym f.same_parents) w.tree

  flat_rooted : 0 < length flat
  flat_rooted = omega (arith, w.rooted, f.same_length)

  flat_last : length flat ≡ suc (length flat - 1)
  flat_last = omega (arith, flat_rooted)

  flat_Rolling : Rolling flat (length flat - 1) flat
  flat_Rolling = record {
    same_parents = refl;
    same_length = refl;
    own = λ j. rw (f.no_kids j) tt;
    rolled = λ c.
        IsRolled-start (sub_at c flat) (length flat) (length flat - 1) (kids_at flat) flat_last
          f.no_kids;
    size = λ j. 1;
    sized =
        IsRolled-start (λ j. 1) (length flat) (length flat - 1) (kids_at flat) flat_last f.no_kids;
  }

  flat-IsBuilt :
      (links : List (Inode × LinkOwner)) (plain : List (ℕ × ℕ)) (display scan : Bytes)
      (root_dev : ℕ)
      → nodes_of 0 nodes tallies ≡ ok flat
      → (t : DirTree) × (build display scan nodes tallies links plain root_dev ≡ ok t)
        × IsBuilt nodes tallies t
  unfolding build
  flat-IsBuilt links plain display scan root_dev made =
      let (rolled, rolls, r) =
        roll_up-Rolling flat (length flat - 1) flat flat-IsTree flat_fits
          (omega (arith, flat_rooted)) flat_Rolling in
      let kids =
        All-nodes (All (λ k. k < length rolled)) rolled
          (λ i. All-map (kids_at rolled i) (λ k h. omega (arith, h.1, r.same_length)) (r.own i)) in
      let (sorted, sorts, long, ps, kept) = sort_all-returns rolled rolled kids in
      (
        tree_of display scan nodes links plain root_dev sorted,
        rw made (rw rolls (rw sorts refl)),
        record {
          same_parents = ps ∙ (r.same_parents ∙ f.same_parents);
          summed = IsSummed-sorted flat rolled sorted flat-IsTree flat_fits r long ps kept;
          size = r.size;
          sized = IsSized-sorted flat rolled sorted flat-IsTree flat_fits r long ps kept;
          totals = λ c.
              root-sorted flat rolled sorted flat-IsTree flat_fits r long ps kept c flat_rooted
              ∙ flat_total c;
        },
      )

pub build_tree-IsBuilt :
    (display scan : Bytes) (nodes : List TrackedNode) (tallies : List NodeTally)
    (links : List (Inode × LinkOwner)) (plain : List (ℕ × ℕ)) (root_dev : ℕ)
    → IsWalked nodes tallies
    → (t : DirTree) × (build_tree display scan nodes tallies links plain root_dev ≡ ok (some t))
      × IsBuilt nodes tallies t
unfolding build_tree
build_tree-IsBuilt display scan [] tallies links plain root_dev w = absurd (omega (arith, w.rooted))
build_tree-IsBuilt display scan (n ∷ ns) tallies links plain root_dev w =
    let (flat, made, f) = nodes_of-IsFlat 0 (n ∷ ns) tallies (omega (arith, w.counted)) in
    let (t, runs, built) =
      flat-IsBuilt (n ∷ ns) tallies w flat f links plain display scan root_dev made in
    (t, rw runs refl, built)

length-parents_of : (nodes : List TrackedNode) → length (parents_of nodes) ≡ length nodes
length-parents_of [] = refl
length-parents_of (n ∷ ns) = ap suc (length-parents_of ns)

IsBuilt-rooted :
    (nodes : List TrackedNode) (tallies : List NodeTally) (t : DirTree)
    → IsWalked nodes tallies
    → IsBuilt nodes tallies t
    → 0 < length t.nodes
IsBuilt-rooted nodes tallies t w b =
    omega
      (arith, w.rooted, length-parents_of nodes, length-parents t.nodes, ap length b.same_parents)

-- Between the trees that `build_tree` builds of two walks (each node after its parent, a tally for
-- each, all that they count together within `i64`), `diff` returns, and in each counter the changes that it lists add up, exactly, to the newer walk's tallies less the older walk's.
pub diff-build_tree :
    (display scan : Bytes) (older newer : List TrackedNode) (counts counts' : List NodeTally)
    (links links' : List (Inode × LinkOwner)) (plain plain' : List (ℕ × ℕ)) (dev dev' : ℕ)
    → IsWalked older counts
    → IsWalked newer counts'
    → (old new : DirTree) × (out : List Change) × (build_tree display scan older counts links plain
          dev
        ≡ ok (some old))
      × (build_tree display scan newer counts' links' plain' dev' ≡ ok (some new))
      × (diff old new ≡ ok out)
      × ((c : Counter)
          → total c out
            ≡ sub_ℕ (below (held c counts') (length newer)) (below (held c counts) (length older)))
diff-build_tree display scan older newer counts counts' links links' plain plain' dev dev' w w' =
    let (old, runs, b) = build_tree-IsBuilt display scan older counts links plain dev w in
    let (new, runs', b') = build_tree-IsBuilt display scan newer counts' links' plain' dev' w' in
    let (o, eo) = get_elem?-some old.nodes 0 (IsBuilt-rooted older counts old w b) in
    let (n, en) = get_elem?-some new.nodes 0 (IsBuilt-rooted newer counts' new w' b') in
    let (out, diffs, sums) = diff-total old new b.size o n b.summed b'.summed b.sized eo en in
    (
      old,
      new,
      out,
      runs,
      runs',
      diffs,
      λ c.
          sums c
          ∙ (change-both c o.sub n.sub (b.summed.fits c 0 o eo) (b'.summed.fits c 0 n en)
              ∙ ap₂ sub_ℕ (sym (sub_at-some c new.nodes 0 en) ∙ b'.totals c)
                  (sym (sub_at-some c old.nodes 0 eo) ∙ b.totals c)),
    )
