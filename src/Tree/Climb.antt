-- ===== src/Tree/Climb.antt =====
-- src/tree.rs: the walks from a node up to the root: `components`, `propagate`, `touch`. Each
-- `while` loop runs on fuel, one round for each node of the tree, which is enough where a parent
-- precedes its children.
pub mod Ancestors
pub mod Propagate
pub mod Touch
pub mod Returns
use mathlib.Core.List.{reverse}
use storage_harvester.Base.{
  ℕ, zero, suc, ◌≡◌, Bool, true, false, ◌||◌, List, [], ◌∷◌, ◌++◌, map, if◌then◌else◌, ◌==◌, length,
  set,
}
use storage_harvester.Base.Int.{ℤ, leb_ℤ, eqb_ℤ}
use storage_harvester.Base.Bytes.{Bytes}
use storage_harvester.Base.Result.{Result, ok, err, stuck, ◌>>=◌}
use storage_harvester.Tree.Tally.{Delta, apply, is_zero}
use storage_harvester.Tree.Dir.{DirNode, DirTree, no_node, no_time, node_at}

-- The names pushed by the loop, deepest first.
unfoldable pub component_loop : ℕ → List DirNode → ℕ → Result (List Bytes)
component_loop zero nodes i = if i == 0 || i == no_node then ok [] else err stuck
component_loop (suc fuel) nodes i =
    if i == 0 || i == no_node
    then ok []
    else (node_at nodes i >>= λ n.
        component_loop fuel nodes n.parent >>= λ parts. ok (n.name ∷ parts))

unfoldable pub components : DirTree → ℕ → Result (List Bytes)
components t i = component_loop (length t.nodes) t.nodes i >>= λ parts. ok (reverse parts)

unfoldable pub propagate_loop : ℕ → List DirNode → ℕ → Delta → Result (List DirNode)
propagate_loop zero nodes i delta = if i == no_node then ok nodes else err stuck
propagate_loop (suc fuel) nodes i delta =
    if i == no_node
    then ok nodes
    else (node_at nodes i >>= λ n.
        propagate_loop fuel (set nodes i (record n { sub = apply n.sub delta })) n.parent delta)

unfoldable pub propagate : List DirNode → ℕ → Delta → Result (List DirNode)
propagate nodes i delta =
    if is_zero delta then ok nodes else propagate_loop (length nodes) nodes i delta

unfoldable pub touch_loop : ℕ → List DirNode → ℕ → ℤ → Result (List DirNode)
touch_loop zero nodes i at = if i == no_node then ok nodes else err stuck
touch_loop (suc fuel) nodes i at =
    if i == no_node
    then ok nodes
    else (node_at nodes i >>= λ n.
        if eqb_ℤ n.newest no_time || leb_ℤ at n.newest
        then ok nodes
        else touch_loop fuel (set nodes i (record n { newest = at })) n.parent at)

unfoldable pub touch : List DirNode → ℕ → ℤ → Result (List DirNode)
touch nodes i at = touch_loop (length nodes) nodes i at
