-- ===== src/Tree/Children.antt =====
-- src/tree.rs: a node's subdirectories, sorted by name: `child_named`, `find` and `attach`.
-- `binary_search_by` is modelled by what it returns on a slice that is sorted by the comparison:
-- the index of the element that compares as equal, or where one could be inserted. A path that
-- `find` is given is the list of its components, as `Path::components` gives them.
pub mod Sorted
pub mod Paths
use Prim.Native.Nat.{Ordering}
use storage_harvester.Base.{
  ℕ, zero, suc, Option, none, some, List, [], ◌∷◌, if◌then◌else◌, set, get_elem?,
}
use storage_harvester.Base.Bytes.{Bytes, cmp, eqb}
use storage_harvester.Base.Result.{Result, ok, ◌>>=◌, or_panic}
use storage_harvester.Tree.Dir.{DirNode, node_at}

-- `Result<usize, usize>`, as `binary_search_by` returns it.
pub data Search : Type 0 where
  found : ℕ → Search
  absent : ℕ → Search

abbrev pub later : Search → Search
later (found k) = found (suc k)
later (absent k) = absent (suc k)

-- `children.binary_search_by(|&child| nodes[child].name.cmp(name))`.
unfoldable pub search : List DirNode → Bytes → List ℕ → Result Search
search nodes name [] = ok (absent 0)
search nodes name (c ∷ cs) =
    let rest = search nodes name cs in
    node_at nodes c >>= λ n. elim (cmp n.name name) [
      | Ordering.lt ↦ rest >>= λ s. ok (later s)
      | Ordering.eq ↦ ok (found 0)
      | Ordering.gt ↦ ok (absent 0)
    ]

abbrev pub position : Search → ℕ
position (found k) = k
position (absent k) = k

-- `Vec::insert`, at an index that is at most the length.
unfoldable pub insert_at {ℓ} : {A : Type ℓ} → ℕ → A → List A → List A
insert_at zero x xs = x ∷ xs
insert_at (suc k) x [] = x ∷ []
insert_at (suc k) x (y ∷ ys) = y ∷ insert_at k x ys

unfoldable pub attach : List DirNode → ℕ → ℕ → Result (List DirNode)
attach nodes parent child = node_at nodes child >>= λ n. node_at nodes parent >>= λ p.
    search nodes n.name p.children >>= λ s.
    ok (set nodes parent (record p { children = insert_at (position s) child p.children }))

-- `.ok().map(|at| children[at])`.
abbrev pub child_at : List ℕ → Search → Result (Option ℕ)
child_at children (found k) = or_panic (get_elem? children k) >>= λ c. ok (some c)
child_at children (absent k) = ok none

unfoldable pub child_named : List DirNode → ℕ → Bytes → Result (Option ℕ)
child_named nodes i name =
    node_at nodes i >>= λ n. search nodes name n.children >>= child_at n.children

-- `Path::strip_prefix`, on components.
unfoldable pub strip_prefix : List Bytes → List Bytes → Option (List Bytes)
strip_prefix path [] = some path
strip_prefix [] (r ∷ rs) = none
strip_prefix (p ∷ ps) (r ∷ rs) = let rest = strip_prefix ps rs in if eqb p r then rest else none

-- The loop over the rest's components.
unfoldable pub descend : List DirNode → ℕ → List Bytes → Result (Option ℕ)
descend nodes i [] = ok (some i)
descend nodes i (c ∷ cs) =
    child_named nodes i c >>= λ next. elim next [ none ↦ ok none | some k ↦ descend nodes k cs ]

unfoldable pub find : List DirNode → List Bytes → List Bytes → Result (Option ℕ)
find nodes display_root path = elim (strip_prefix path display_root) [
  | none ↦ ok none
  | some rest ↦ descend nodes 0 rest
]
