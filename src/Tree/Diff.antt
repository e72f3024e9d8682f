-- ===== src/Tree/Diff.antt =====
-- src/tree.rs: `diff`, the directory-level differences from one tree to a newer one. A path is
-- kept as bytes, before its lossy conversion to text. The loop over the stack of pairs runs on
-- fuel, one round for each node of the older tree.
pub mod Counters
pub mod Span
pub mod Steps
pub mod Merging
pub mod Sums
use Prim.Native.Nat.{Ordering}
use storage_harvester.Base.{
  ℕ, zero, suc, Bool, List, [], ◌∷◌, ◌++◌, if◌then◌else◌, ◌==◌, length, true, false,
}
use storage_harvester.Base.Bytes.{Bytes, cmp}
use storage_harvester.Base.Result.{Result, ok, err, stuck, ◌>>=◌}
use storage_harvester.Tree.Tally.{Delta, between, plus, negate, is_zero, from_tally}
use storage_harvester.Tree.Dir.{DirNode, DirTree, node_at}
use storage_harvester.Tree.Climb.{components}

-- `Vec::last`.
abbrev pub last_is_slash : Bytes → Bool
last_is_slash [] = false
last_is_slash (b ∷ []) = b == 47
last_is_slash (b ∷ c ∷ bs) = last_is_slash (c ∷ bs)

-- `DirTree::join`.
unfoldable pub join : Bytes → List Bytes → Bytes
join path [] = path
join path (part ∷ parts) =
    join ((if last_is_slash path then path else path ++ 47 ∷ []) ++ part) parts

unfoldable pub display_path : DirTree → ℕ → Result Bytes
display_path t i = components t i >>= λ parts. ok (join t.display_root parts)

unfoldable pub scan_path : DirTree → ℕ → Result Bytes
scan_path t i = components t i >>= λ parts. ok (join t.scan_root parts)

abbrev pub Change : Type 0
Change = Bytes × Delta

-- What the loop over the children carries: the change here, the stack and the output.
pub record Merge : Type 0 where
  pub here : Delta
  pub stack : List (ℕ × ℕ)
  pub out : List Change

-- Neither list of nodes is empty.
abbrev pub both_hold : List DirNode → List DirNode → Bool
both_hold [] ms = false
both_hold (n ∷ ns) [] = false
both_hold (n ∷ ns) (m ∷ ms) = true

module _ (old new : DirTree) where
  -- A subtree that went.
  unfoldable pub gone_kid : ℕ → Merge → Result Merge
  gone_kid a m = node_at old.nodes a >>= λ n. display_path old a >>= λ path.
      let gone = negate (from_tally n.sub) in
      ok (record m { here = plus m.here (negate gone); out = m.out ++ (path, gone) ∷ [] })

  -- A subtree that came.
  unfoldable pub came_kid : ℕ → Merge → Result Merge
  came_kid b m = node_at new.nodes b >>= λ n. display_path new b >>= λ path.
      let came = from_tally n.sub in
      ok (record m { here = plus m.here (negate came); out = m.out ++ (path, came) ∷ [] })

  unfoldable pub both_kids : ℕ → ℕ → Merge → Result Merge
  both_kids a b m = node_at old.nodes a >>= λ n. node_at new.nodes b >>= λ k.
      ok (record m { here = plus m.here (negate (between n.sub k.sub)); stack = (a, b) ∷ m.stack })

  -- The loop over the two lists of children, merged by name. `stack.push` puts at the head.
  unfoldable pub merge_kids : List ℕ → List ℕ → Merge → Result Merge
  merge_kids [] [] m = ok m
  merge_kids (a ∷ as') [] m = gone_kid a m >>= merge_kids as' []
  merge_kids [] (b ∷ bs) m = came_kid b m >>= merge_kids [] bs
  merge_kids (a ∷ as') (b ∷ bs) m = node_at old.nodes a >>= λ n. node_at new.nodes b >>= λ k.
      elim (cmp n.name k.name) [
        | Ordering.eq ↦ both_kids a b m >>= merge_kids as' bs
        | Ordering.lt ↦ gone_kid a m >>= merge_kids as' (b ∷ bs)
        | Ordering.gt ↦ came_kid b m >>= merge_kids (a ∷ as') bs
      ]

  -- One pair of the stack.
  unfoldable pub diff_pair : ℕ → ℕ → List (ℕ × ℕ) → List Change → Result Merge
  diff_pair a b stack out = node_at old.nodes a >>= λ n. node_at new.nodes b >>= λ k.
      merge_kids n.children k.children
        (record { here = between n.sub k.sub; stack = stack; out = out })
      >>= λ m.
          if is_zero m.here
          then ok m
          else (display_path new b >>= λ path. ok (record m { out = m.out ++ (path, m.here) ∷ [] }))

  unfoldable pub diff_loop : ℕ → List (ℕ × ℕ) → List Change → Result (List Change)
  diff_loop fuel [] out = ok out
  diff_loop zero (p ∷ stack) out = err stuck
  diff_loop (suc fuel) ((a, b) ∷ stack) out =
      diff_pair a b stack out >>= λ m. diff_loop fuel m.stack m.out

  unfoldable pub diff : Result (List Change)
  diff =
      if both_hold old.nodes new.nodes then diff_loop (length old.nodes) ((0, 0) ∷ []) [] else ok []
