-- ===== src/Tree/Pruned/Listing.antt =====
-- src/tree.rs: `pruned` returns, and lists at most as many nodes as asked for.
use storage_harvester.Base.{
  ℕ, zero, suc, ◌+◌, ◌-◌, ◌≤◌, ◌<◌, ◌≡◌, refl, ◌∙◌, max, inl, inr, true, false, Option, some, none,
  List, [], ◌∷◌, ◌++◌, arith, leb, Bool-cases, Option-cases, All, All-map, subst, length,
  length-append, take, get_elem?, get_elem?-some, get_elem?_lt,
}
use storage_harvester.Base.Result.{ok}
use storage_harvester.Tree.Dir.{DirNode, total_blocks}
use storage_harvester.Tree.Pruned.{
  Candidate, take_best, large_kids, sort_kids, wrapping_sub, Listed, Progress, expand, next_of,
  list_loop, pruned,
}
use storage_harvester.Tree.Pruned.Candidates.{
  Taken, take_best-Taken, IsLarge, large_kids-IsLarge, All-sort_kids, All-take, All-append,
  length-take_le,
}

module _ (nodes : List DirNode) (limit depth min_bytes base : ℕ) where
  -- The node was taken within the depth asked for, and its children are listed below it.
  abbrev pub Entry : ℕ × List Candidate → Type 0
  Entry (at, kids) =
      ((n : DirNode) × (get_elem? nodes at ≡ some n) × (wrapping_sub n.depth base < depth))
      × All (IsLarge nodes min_bytes) kids

  abbrev pub listed_count : Listed → ℕ
  listed_count [] = 0
  listed_count ((at, kids) ∷ rest) = length kids + listed_count rest

  abbrev InTree : Candidate → Type 0
  InTree c = c.1 < length nodes

  pub record IsProgress (p : Progress) : Type 0 where
    pub in_tree : All InTree p.heap
    pub counted : p.count ≡ suc (listed_count p.listed)
    pub bounded : p.count ≤ max limit 1
    pub entries : All Entry p.listed

  -- How many rounds are left at most.
  abbrev left : Progress → ℕ
  left p = length p.heap + (max limit 1 - p.count)

  IsLarge-InTree : (c : Candidate) → IsLarge nodes min_bytes c → InTree c
  IsLarge-InTree c (n, e, same, fits) = get_elem?_lt nodes c.1 e

  -- What a listed node's children add.
  abbrev with_kids : ℕ → Progress → List Candidate → Progress
  with_kids at p kids = record {
    heap = p.heap ++ kids;
    count = p.count + length kids;
    listed = (at, kids) ∷ p.listed;
  }

  module _ (at : ℕ) (p : Progress) (n : DirNode) (e : get_elem? nodes at ≡ some n) where
    expand-deep :
        leb depth (wrapping_sub n.depth base) ≡ true
        → expand nodes limit depth min_bytes base at p ≡ ok p
    unfolding expand
    expand-deep deep = ground arith

    expand-shallow :
        (found : List Candidate)
        → large_kids nodes min_bytes n.children ≡ ok found
        → leb depth (wrapping_sub n.depth base) ≡ false
        → expand nodes limit depth min_bytes base at p
          ≡ ok (with_kids at p (take (limit - p.count) (sort_kids found)))
    unfolding expand
    expand-shallow found runs shallow = ground arith

    kids-IsProgress :
        (kids : List Candidate)
        → p.count + length kids ≤ limit
        → wrapping_sub n.depth base < depth
        → All (IsLarge nodes min_bytes) kids
        → IsProgress p
        → IsProgress (with_kids at p kids) × (left (with_kids at p kids) ≤ left p)
    kids-IsProgress kids room shallow all h = (
      record {
        in_tree = All-append InTree p.heap kids h.in_tree (All-map kids IsLarge-InTree all);
        counted = omega (arith, h.counted);
        bounded = omega (arith, room);
        entries = (((n, e, shallow), all), h.entries);
      },
      omega (arith, length-append p.heap kids, room),
    )

    expand-IsProgress :
        p.count < limit
        → All (λ k. k < length nodes) n.children
        → IsProgress p
        → (next : Progress) × (expand nodes limit depth min_bytes base at p ≡ ok next)
          × IsProgress next
          × (left next ≤ left p)
    expand-IsProgress room kids_in h =
        let (found, runs, all) = large_kids-IsLarge nodes min_bytes n.children kids_in in
        let kids = take (limit - p.count) (sort_kids found) in
        elim (Bool-cases (leb depth (wrapping_sub n.depth base))) [
          | inl deep ↦ (p, expand-deep deep, h, omega arith)
          | inr shallow ↦
              let (kept, less) =
                kids-IsProgress kids
                  (omega (arith, room, length-take_le (limit - p.count) (sort_kids found)))
                  (ground arith)
                  (All-take (IsLarge nodes min_bytes) (limit - p.count) (sort_kids found)
                    (All-sort_kids (IsLarge nodes min_bytes) found all))
                  h in
              (with_kids at p kids, expand-shallow found runs shallow, kept, less)
        ]

  -- A node to list is one of the tree's, and there is room for more.
  abbrev Next : Progress → Option (ℕ × List Candidate) → Type 0
  Next p none = Unit
  Next p (some (at, rest)) =
      (at < length nodes)
      × All InTree rest
      × (length p.heap ≡ suc (length rest))
      × (p.count < limit)

  next_of-Next :
      (p : Progress) (o : Option (Candidate × List Candidate))
      → Taken InTree (length p.heap) o
      → Next p (next_of nodes limit depth min_bytes base p.count o)
  next_of-Next p none t = tt
  next_of-Next p (some (best, rest)) t = elim (Bool-cases (leb limit p.count)) [
    | inl full ↦ rw full tt
    | inr room ↦ rw room (t.0, t.1, t.2, ground arith)
  ]

  abbrev following : Progress → Option (ℕ × List Candidate)
  following p = next_of nodes limit depth min_bytes base p.count (take_best p.heap)

  following-Next : (p : Progress) → IsProgress p → Next p (following p)
  following-Next p r = next_of-Next p (take_best p.heap) (take_best-Taken InTree p.heap r.in_tree)

  module _
      (kids_in : (i : ℕ) (n : DirNode)
        → get_elem? nodes i ≡ some n
        → All (λ k. k < length nodes) n.children) where
    -- The list is within the limit, and every node in it is listed where it belongs.
    abbrev IsListed : Listed → Type 0
    IsListed out = (suc (listed_count out) ≤ max limit 1) × All Entry out

    done : (p : Progress) → IsProgress p → IsListed p.listed
    done p r = (omega (arith, r.counted, r.bounded), r.entries)

    popped :
        (p : Progress) (rest : List Candidate)
        → All InTree rest
        → IsProgress p
        → IsProgress (record p { heap = rest })
    popped p rest all r = record {
      in_tree = all;
      counted = r.counted;
      bounded = r.bounded;
      entries = r.entries;
    }

    list_loop-over :
        (fuel : ℕ) (p : Progress)
        → following p ≡ none
        → list_loop nodes limit depth min_bytes base fuel p ≡ ok p.listed
    unfolding list_loop
    list_loop-over zero p over = rw (list_loop, over) refl
    list_loop-over (suc fuel) p over = rw (list_loop, over) refl

    list_loop-next :
        (fuel : ℕ) (p : Progress) (at : ℕ) (rest : List Candidate) (next : Progress)
        → following p ≡ some (at, rest)
        → expand nodes limit depth min_bytes base at (record p { heap = rest }) ≡ ok next
        → list_loop nodes limit depth min_bytes base (suc fuel) p
          ≡ list_loop nodes limit depth min_bytes base fuel next
    unfolding list_loop
    list_loop-next fuel p at rest next e runs = rw (list_loop, e) (rw runs refl)

    list_loop-IsListed :
        (fuel : ℕ) (p : Progress)
        → left p ≤ fuel
        → IsProgress p
        → (out : Listed) × (list_loop nodes limit depth min_bytes base fuel p ≡ ok out)
          × IsListed out
    unfolding list_loop
    list_loop-IsListed zero p h r = elim (Option-cases (following p)) [
      | inl over ↦ (p.listed, list_loop-over zero p over, done p r)
      | inr (next, e) ↦
          absurd (omega (arith, h, (subst (Next p) e (following-Next p r)).2, r.counted))
    ]
    list_loop-IsListed (suc fuel) p h r = elim (Option-cases (following p)) [
      | inl over ↦ (p.listed, list_loop-over (suc fuel) p over, done p r)
      | inr ((at, rest), e) ↦
          let facts : Next p (some (at, rest)) = subst (Next p) e (following-Next p r) in
          let (n, f) = get_elem?-some nodes at facts.0 in
          let (next, runs, r', less) =
            expand-IsProgress at (record p { heap = rest }) n f facts.3 (kids_in at n f)
              (popped p rest facts.1 r) in
          let (out, all, listed) =
            list_loop-IsListed fuel next (omega (arith, h, less, facts.2)) r' in
          (out, list_loop-next fuel p at rest next e runs ∙ all, listed)
    ]

-- From a node of a tree whose children are nodes of it, `pruned` returns, with at most as many
-- nodes listed as asked for (the first one counts, and is there however few were asked for): each
-- node was expanded within the depth asked for, and each child listed below it is a node of at
-- least the size asked for, and never empty.
pub pruned-IsListed :
    (nodes : List DirNode) (start limit depth min_bytes : ℕ) (n : DirNode)
    → ((i : ℕ) (m : DirNode) → get_elem? nodes i ≡ some m → All (λ k. k < length nodes) m.children)
    → get_elem? nodes start ≡ some n
    → (out : Listed) × (pruned nodes start limit depth min_bytes ≡ ok out)
      × (suc (listed_count nodes limit depth min_bytes n.depth out) ≤ max limit 1)
      × All (Entry nodes limit depth min_bytes n.depth) out
unfolding pruned
pruned-IsListed nodes start limit depth min_bytes n kids_in e =
    let (out, runs, listed) =
      list_loop-IsListed nodes limit depth min_bytes n.depth kids_in (suc limit)
        (record { heap = (total_blocks n, start) ∷ []; count = 1; listed = [] }) (omega arith)
        (record {
          in_tree = (get_elem?_lt nodes start e, tt);
          counted = refl;
          bounded = omega arith;
          entries = tt;
        }) in
    (out, rw e runs, listed.0, listed.1)
