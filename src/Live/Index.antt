-- ===== src/Live/Index.antt =====
-- src/live.rs: `TreeState`, which node a handle or an inode number is, and in which directories a
-- singly linked file was seen. A `BTreeSet` is a list in increasing order, a `HashMap` an
-- association list, and a `binary_search` in a sorted list the test of membership.
pub mod Plain
pub mod Holders
use storage_harvester.Base.{
  ℕ, zero, suc, ◌+◌, ◌*◌, ◌/◌, ◌%◌, ◌^◌, Bool, true, false, not, ◌&&◌, ◌||◌, ◌==◌, ltb, Option,
  none, some, List, [], ◌∷◌, ◌++◌, map, if◌then◌else◌, drop, length,
}
use storage_harvester.Base.Bytes.{Bytes, eqb}
use storage_harvester.Base.Maps.{same_pair, lookup, insert, remove, member, sort_dedup}
use storage_harvester.Base.Result.{Result, ok, ◌>>=◌}
use storage_harvester.Tree.Dir.{DirNode, DirTree, Inode, LinkOwner, node_at}
use storage_harvester.Tree.Diff.{display_path}
use storage_harvester.Live.{StableKey, handle, ino, TreeState}

-- `^` on 32 bits, and `plain_key` of src/tree.rs.
unfoldable pub xor : ℕ → ℕ → ℕ → ℕ
xor zero a b = 0
xor (suc bits) a b = (a + b) % 2 + 2 * xor bits (a / 2) (b / 2)

unfoldable pub plain_key : ℕ → ℕ → ℕ
plain_key dev i =
    (xor 32 (i % 2 ^ 32) (i / 2 ^ 32 % 2 ^ 32) + dev % 2 ^ 32 * 2654435769 % 2 ^ 32) % 2 ^ 32

abbrev pub same : ℕ → ℕ → Bool
same a b = a == b

-- `collect` into a map, and the nodes' inode numbers from a node on.
unfoldable pub index_handles : List (ℕ × Bytes) → List (Bytes × ℕ) → List (Bytes × ℕ)
index_handles [] m = m
index_handles ((node, h) ∷ hs) m = index_handles hs (insert eqb h node m)

unfoldable pub index_inos : List DirNode → ℕ → List (ℕ × ℕ) → List (ℕ × ℕ)
index_inos [] index m = m
index_inos (n ∷ ns) index m = index_inos ns (suc index) (insert same n.ino index m)

-- `TreeState::new`.
unfoldable pub new : DirTree → ℕ → ℕ → TreeState
new tree generation scanned_at = record {
  tree = record tree { handles = []; plain = []; untracked_links = [] };
  generation = generation;
  scanned_at = scanned_at;
  live_at = none;
  handles = index_handles tree.handles [];
  inos = index_inos tree.nodes 0 [];
  plain = tree.plain;
  plain_live = [];
  plain_by_node = [];
  untracked = tree.untracked_links;
}

-- A pair put where it belongs in the set, unless it is there.
unfoldable pub insert_pair : ℕ × ℕ → List (ℕ × ℕ) → List (ℕ × ℕ)
insert_pair p [] = p ∷ []
insert_pair p (q ∷ s) =
    let rest = insert_pair p s in
    if same_pair p q
    then q ∷ s
    else if ltb p.0 q.0 || (p.0 == q.0 && ltb p.1 q.1)
    then p ∷ q ∷ s
    else q ∷ rest

unfoldable pub remove_pair : ℕ × ℕ → List (ℕ × ℕ) → List (ℕ × ℕ)
remove_pair p [] = []
remove_pair p (q ∷ s) = let rest = remove_pair p s in if same_pair q p then rest else q ∷ rest

-- `unwrap_or_default`.
abbrev pub keys_of : Option (List ℕ) → List ℕ
keys_of none = []
keys_of (some keys) = keys

unfoldable pub held : ℕ → List (ℕ × List ℕ) → List ℕ
held node m = keys_of (lookup same node m)

-- The keys of one list that are not in another go from the set, or come into it.
unfoldable pub drop_gone : ℕ → List ℕ → List ℕ → List (ℕ × ℕ) → List (ℕ × ℕ)
drop_gone node [] keys s = s
drop_gone node (gone ∷ old) keys s =
    drop_gone node old keys (if member gone keys then s else remove_pair (gone, node) s)

unfoldable pub take_new : ℕ → List ℕ → List ℕ → List (ℕ × ℕ) → List (ℕ × ℕ)
take_new node [] old s = s
take_new node (key ∷ keys) old s =
    take_new node keys old (if member key old then s else insert_pair (key, node) s)

-- `if !keys.is_empty() { insert }`, after the entry was removed.
unfoldable pub put_keys : ℕ → List ℕ → List (ℕ × List ℕ) → List (ℕ × List ℕ)
put_keys node [] m = remove same node m
put_keys node (key ∷ keys) m = insert same node (key ∷ keys) m

unfoldable pub set_plain : ℕ → List ℕ → TreeState → TreeState
set_plain node found s =
    let keys = sort_dedup found in
    let old = held node s.plain_by_node in
    record s {
      plain_live = take_new node keys old (drop_gone node old keys s.plain_live);
      plain_by_node = put_keys node keys s.plain_by_node;
    }

unfoldable pub insert_all : ℕ → List ℕ → List (ℕ × ℕ) → List (ℕ × ℕ)
insert_all node [] s = s
insert_all node (key ∷ keys) s = insert_all node keys (insert_pair (key, node) s)

unfoldable pub add_plain : ℕ → List ℕ → TreeState → TreeState
add_plain node keys s = record s {
  plain_live = insert_all node keys s.plain_live;
  plain_by_node = insert same node (sort_dedup (held node s.plain_by_node ++ keys)) s.plain_by_node;
}

-- The entries of the grafted nodes, gathered by node, replace what the index has for them.
unfoldable pub gather : List (ℕ × ℕ) → List (ℕ × List ℕ) → List (ℕ × List ℕ)
gather [] m = m
gather ((key, node) ∷ found) m = gather found (insert same node (held node m ++ key ∷ []) m)

unfoldable pub insert_found : List (ℕ × ℕ) → List (ℕ × ℕ) → List (ℕ × ℕ)
insert_found [] s = s
insert_found (p ∷ found) s = insert_found found (insert_pair p s)

unfoldable pub put_grafted : List (ℕ × List ℕ) → List (ℕ × List ℕ) → List (ℕ × List ℕ)
put_grafted [] m = m
put_grafted ((node, keys) ∷ grafted) m = put_grafted grafted (insert same node (sort_dedup keys) m)

unfoldable pub index_new : ℕ → TreeState → TreeState
index_new from s = record s {
  tree = record s.tree { handles = []; plain = [] };
  handles = index_handles s.tree.handles s.handles;
  inos = index_inos (drop from s.tree.nodes) from s.inos;
  plain_live = insert_found s.tree.plain s.plain_live;
  plain_by_node = put_grafted (gather s.tree.plain []) s.plain_by_node;
}

-- `partition_point`, on a list sorted by its keys, and the entries of one key from there on.
unfoldable pub skip_below : ℕ → List (ℕ × ℕ) → List (ℕ × ℕ)
skip_below key [] = []
skip_below key ((k, node) ∷ s) =
    let rest = skip_below key s in if ltb k key then rest else (k, node) ∷ s

unfoldable pub take_key : ℕ → List (ℕ × ℕ) → List ℕ
take_key key [] = []
take_key key ((k, node) ∷ s) = let rest = take_key key s in if k == key then node ∷ rest else []

-- `range((key, 0)..=(key, u32::MAX))`.
unfoldable pub range_of : ℕ → List (ℕ × ℕ) → List ℕ
range_of key [] = []
range_of key ((k, node) ∷ s) = let rest = range_of key s in if k == key then node ∷ rest else rest

unfoldable pub plain_holders : TreeState → Inode → List ℕ
plain_holders s (dev, i) =
    let key = plain_key dev i in take_key key (skip_below key s.plain) ++ range_of key s.plain_live

unfoldable pub is_tracked : Inode → List Inode → Bool
is_tracked p [] = false
is_tracked p (q ∷ qs) = same_pair q p || is_tracked p qs

unfoldable pub already_counted : TreeState → Inode → Result Bool
already_counted s i =
    if is_tracked i s.untracked then ok true else elim (lookup same_pair i s.tree.links) [
      | none ↦ ok false
      | some owner ↦ node_at s.tree.nodes owner.node >>= λ n. ok n.alive
    ]

unfoldable pub any_sealed : List DirNode → List ℕ → Result Bool
any_sealed nodes [] = ok false
any_sealed nodes (holder ∷ holders) = node_at nodes holder >>= λ n.
    let rest = any_sealed nodes holders in if n.alive && n.sealed then ok true else rest

unfoldable pub counted_out_of_reach : TreeState → Inode → Result Bool
counted_out_of_reach s i =
    if is_tracked i s.untracked then ok true else any_sealed s.tree.nodes (plain_holders s i)

-- One link's other holders, added to the set of directories to re-read.
abbrev pub is_owner : Option ℕ → ℕ → Bool
is_owner none holder = false
is_owner (some node) holder = node == holder

unfoldable pub reread_holders : List DirNode → Option ℕ → List ℕ → List ℕ → Result (List ℕ)
reread_holders nodes owner [] reread = ok reread
reread_holders nodes owner (holder ∷ holders) reread = node_at nodes holder >>= λ n.
    reread_holders nodes owner holders (
      if not (is_owner owner holder) && n.alive && not n.sealed && not (member holder reread)
      then holder ∷ reread
      else reread)

unfoldable pub reread_links : TreeState → List (Inode × Option ℕ) → List ℕ → Result (List ℕ)
reread_links s [] reread = ok reread
reread_links s ((i, owner) ∷ linked) reread =
    reread_holders s.tree.nodes owner (plain_holders s i) reread >>= λ more.
    reread_links s linked more

unfoldable pub linked_during_scan : TreeState → Result (List ℕ)
linked_during_scan s =
    let linked = map (λ l. (l.0, some l.1.node)) s.tree.links ++ map (λ i. (i, none)) s.untracked in
    if length s.plain == 0 then ok [] else reread_links s linked []

unfoldable pub node_of : TreeState → StableKey → Option ℕ
node_of s (handle h) = lookup eqb h s.handles
node_of s (ino i) = lookup same i s.inos

unfoldable pub resolve : TreeState → StableKey → Result (Option ℕ)
resolve s key = elim (node_of s key) [
  | none ↦ ok none
  | some node ↦ node_at s.tree.nodes node >>= λ n. ok (if n.alive then some node else none)
]

unfoldable pub path_of_ino : TreeState → ℕ → Result (Option Bytes)
path_of_ino s i = resolve s (ino i) >>= λ found. elim found [
  | none ↦ ok none
  | some node ↦ display_path s.tree node >>= λ path. ok (some path)
]
