-- ===== src/Tree/Detach.antt =====
-- src/tree.rs: `detach`, which unlinks a node from its parent, marks what is below it as dead and
-- takes out the links that were counted there. The top of its stack is the list's head; the loop
-- over the stack runs on fuel, one round for each node of the tree.
pub mod Marks
pub mod Links
pub mod Unlinked
pub mod Whole
use storage_harvester.Base.{
  ℕ, zero, suc, Bool, true, false, not, List, [], ◌∷◌, if◌then◌else◌, ◌==◌, set, length,
}
use storage_harvester.Base.Result.{Result, ok, err, stuck, ◌>>=◌}
use storage_harvester.Tree.Dir.{DirNode, DirTree, Inode, LinkOwner, no_node, node_at}

-- `retain(|&other| other != child)`.
abbrev pub without : ℕ → List ℕ → List ℕ
without child [] = []
without child (k ∷ ks) = let rest = without child ks in if k == child then rest else k ∷ rest

unfoldable pub unlink : List DirNode → ℕ → Result (List DirNode)
unlink nodes child = node_at nodes child >>= λ n.
    if n.parent == no_node
    then ok nodes
    else (node_at nodes n.parent >>= λ p.
        ok (set nodes n.parent (record p { children = without child p.children })))

-- `stack.extend(children)`.
abbrev pub push_all : List ℕ → List ℕ → List ℕ
push_all [] stack = stack
push_all (k ∷ ks) stack = push_all ks (k ∷ stack)

abbrev pub dead : DirNode → DirNode
dead n = record n { alive = false }

-- The loop over the stack.
unfoldable pub mark : ℕ → List DirNode → List ℕ → Result (List DirNode)
mark fuel nodes [] = ok nodes
mark zero nodes (i ∷ stack) = err stuck
mark (suc fuel) nodes (i ∷ stack) =
    node_at nodes i >>= λ n. mark fuel (set nodes i (dead n)) (push_all n.children stack)

-- `owner.others.retain(|&other| nodes[other as usize].alive)`.
unfoldable pub keep_alive : List DirNode → List ℕ → Result (List ℕ)
keep_alive nodes [] = ok []
keep_alive nodes (i ∷ is) =
    node_at nodes i >>= λ n. keep_alive nodes is >>= λ rest. ok (if n.alive then i ∷ rest else rest)

abbrev pub Links : Type 0
Links = List (Inode × LinkOwner)

-- One link, before the ones that were kept and those that were counted.
abbrev pub sort_link : Bool → Inode × LinkOwner → Links × Links → Links × Links
sort_link lives link (kept, counted) =
    if lives then (link ∷ kept, counted) else (kept, link ∷ counted)

-- `links.retain(…)`: the links that stay, and those that were counted in the subtree.
unfoldable pub sweep : List DirNode → Links → Result (Links × Links)
sweep nodes [] = ok ([], [])
sweep nodes ((inode, owner) ∷ links) = keep_alive nodes owner.others >>= λ others.
    node_at nodes owner.node >>= λ n. sweep nodes links >>= λ rest.
    ok (sort_link n.alive (inode, record owner { others = others }) rest)

unfoldable pub detach : DirTree → ℕ → Result (DirTree × Links)
detach t child = unlink t.nodes child >>= λ unlinked.
    mark (length t.nodes) unlinked (child ∷ []) >>= λ nodes.
    sweep nodes t.links >>= λ links. ok (record t { nodes = nodes; links = links.0 }, links.1)
