-- ===== src/Tree/Pruned.antt =====
-- src/tree.rs: `pruned`, which lists the largest nodes first, and what `node_json` says of a node.
-- The heap is a list from which the greatest candidate is taken. The loop over the heap runs on
-- fuel, one round for each node that may be listed. A node's name as text and the readings of its
-- thin pool are left out of its view.
pub mod Candidates
pub mod Listing
pub mod Amounts
use storage_harvester.Base.{
  ℕ, zero, suc, ◌+◌, ◌-◌, max, Bool, ◌&&◌, ◌||◌, Option, none, some, List, [], ◌∷◌, ◌++◌,
  if◌then◌else◌, ltb, leb, ◌==◌, length, take, map,
}
use storage_harvester.Base.Int.{ℤ, eqb_ℤ, saturating_sub, wrapping_add}
use storage_harvester.Base.Result.{Result, ok, err, stuck, ◌>>=◌}
use storage_harvester.Tree.Dir.{DirNode, node_at, total_blocks, total_apparent, no_time}

-- Its size, and the node.
abbrev pub Candidate : Type 0
Candidate = ℕ × ℕ

-- `Candidate::cmp`: the larger one, and of equal ones the node that comes first.
abbrev pub better : Candidate → Candidate → Bool
better a b = ltb b.0 a.0 || (a.0 == b.0 && ltb a.1 b.1)

-- The greater of a candidate and the greatest of the others.
abbrev pub put_best : Candidate → Option (Candidate × List Candidate) → Candidate × List Candidate
put_best c none = (c, [])
put_best c (some (best, rest)) = if better c best then (c, best ∷ rest) else (best, c ∷ rest)

-- `BinaryHeap::pop`.
unfoldable pub take_best : List Candidate → Option (Candidate × List Candidate)
take_best [] = none
take_best (c ∷ cs) = some (put_best c (take_best cs))

abbrev pub large : ℕ → DirNode → Bool
large min_bytes n = leb (max min_bytes 1) (total_blocks n)

unfoldable pub large_kids : List DirNode → ℕ → List ℕ → Result (List Candidate)
large_kids nodes min_bytes [] = ok []
large_kids nodes min_bytes (k ∷ ks) = node_at nodes k >>= λ n.
    large_kids nodes min_bytes ks >>= λ rest.
    ok (if large min_bytes n then (total_blocks n, k) ∷ rest else rest)

abbrev pub insert_kid : Candidate → List Candidate → List Candidate
insert_kid c [] = c ∷ []
insert_kid c (d ∷ ds) = let rest = insert_kid c ds in if ltb c.0 d.0 then d ∷ rest else c ∷ d ∷ ds

-- `sort_by_key(Reverse(…))`: equal ones as they came.
abbrev pub sort_kids : List Candidate → List Candidate
sort_kids [] = []
sort_kids (c ∷ cs) = insert_kid c (sort_kids cs)

-- `u32` subtraction in a release build.
abbrev pub wrapping_sub : ℕ → ℕ → ℕ
wrapping_sub a b = if leb b a then a - b else a + 4294967296 - b

abbrev pub Listed : Type 0
Listed = List (ℕ × List Candidate)

pub record Progress : Type 0 where
  pub heap : List Candidate
  pub count : ℕ
  pub listed : Listed

module _ (nodes : List DirNode) (limit depth min_bytes base : ℕ) where
  -- The node that was taken, once there is room for more.
  unfoldable pub expand : ℕ → Progress → Result Progress
  expand at p = node_at nodes at >>= λ n.
      if leb depth (wrapping_sub n.depth base)
      then ok p
      else (large_kids nodes min_bytes n.children >>= λ large.
          let kids = take (limit - p.count) (sort_kids large) in
          ok (record {
            heap = p.heap ++ kids;
            count = p.count + length kids;
            listed = (at, kids) ∷ p.listed;
          }))

  -- The node to list next, unless the heap is empty or the list full.
  abbrev pub next_of : ℕ → Option (Candidate × List Candidate) → Option (ℕ × List Candidate)
  next_of count none = none
  next_of count (some (best, rest)) = if leb limit count then none else some (best.1, rest)

  unfoldable pub list_loop : ℕ → Progress → Result Listed
  list_loop zero p = elim (next_of p.count (take_best p.heap)) [
    | none ↦ ok p.listed
    | some next ↦ err stuck
  ]
  list_loop (suc fuel) p = elim (next_of p.count (take_best p.heap)) [
    | none ↦ ok p.listed
    | some (at, rest) ↦ expand at (record p { heap = rest }) >>= list_loop fuel
  ]

-- `pruned`, up to the call of `node_json`: which children are listed below which nodes.
unfoldable pub pruned : List DirNode → ℕ → ℕ → ℕ → ℕ → Result Listed
pruned nodes start limit depth min_bytes = node_at nodes start >>= λ n.
    list_loop nodes limit depth min_bytes n.depth (suc limit)
      (record { heap = (total_blocks n, start) ∷ []; count = 1; listed = [] })

-- `listed.get(&index)`.
unfoldable pub kids_listed : ℕ → Listed → List Candidate
kids_listed index [] = []
kids_listed index ((at, kids) ∷ rest) =
    let more = kids_listed index rest in if at == index then kids else more

-- The numbers of a node's view.
pub record View : Type 0 where
  pub t : ℕ
  pub a : ℕ
  pub f : ℕ
  pub d : ℕ
  pub l : ℕ
  pub o : ℕ
  pub k : ℕ
  pub m : Option ℤ
  pub x : Option ℕ
  pub r : ℕ

-- `sum()` on `u64` in a release build.
abbrev pub sum_of : List ℕ → ℕ
sum_of [] = 0
sum_of (x ∷ xs) = wrapping_add x (sum_of xs)

unfoldable pub subdirs_own : List DirNode → List ℕ → Result (List ℕ)
subdirs_own nodes [] = ok []
subdirs_own nodes (i ∷ is) =
    node_at nodes i >>= λ n. subdirs_own nodes is >>= λ rest. ok (n.own_blocks ∷ rest)

-- `total_blocks()` of each listed child.
unfoldable pub listed_blocks : List DirNode → List Candidate → Result (List ℕ)
listed_blocks nodes [] = ok []
listed_blocks nodes (c ∷ cs) =
    node_at nodes c.1 >>= λ n. listed_blocks nodes cs >>= λ rest. ok (total_blocks n ∷ rest)

-- A node's view from its own blocks' and its listed children's sums.
abbrev pub view_of : DirNode → ℕ → ℕ → Option ℕ → View
view_of n subdir_own listed_total x =
    let files_here = saturating_sub n.direct.blocks subdir_own in
    record {
      t = total_blocks n;
      a = total_apparent n;
      f = n.sub.files;
      d = n.sub.dirs;
      l = n.sub.symlinks;
      o = files_here;
      k = n.direct.dirs;
      m = if eqb_ℤ n.newest no_time then none else some n.newest;
      x = x;
      r =
          saturating_sub (saturating_sub (saturating_sub (total_blocks n) n.own_blocks) files_here)
            listed_total;
    }

-- What `node_json` says of one node; `exclusive` is the lookup in the map of that name.
unfoldable pub view : List DirNode → ℕ → Listed → (ℕ → Option ℕ) → Result View
view nodes index listed exclusive = node_at nodes index >>= λ n.
    subdirs_own nodes n.children >>= λ own.
    listed_blocks nodes (kids_listed index listed) >>= λ shown.
    ok (view_of n (sum_of own) (sum_of shown) (exclusive n.ino))
