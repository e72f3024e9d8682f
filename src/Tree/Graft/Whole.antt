-- ===== src/Tree/Graft/Whole.antt =====
-- src/tree.rs: what `graft` makes of the two trees.
use storage_harvester.Base.{
  ℕ, ◌+◌, ◌≤◌, ◌<◌, ◌≡◌, ◌≢◌, refl, ap, sym, ◌∙◌, subst, some, List, ◌++◌, arith, map, All, All-map,
  set, length, length-append, get_elem?, get_elem?-some, get_elem?_lt, get_elem?-set_ne,
  get_elem?-set_self,
}
use storage_harvester.Base.Result.{ok}
use storage_harvester.Tree.Dir.{DirNode, DirTree, no_node}
use storage_harvester.Tree.Dir.Reads.{kids_of, kids_at, kids_at-some, depth_of, depth_at}
use storage_harvester.Tree.Climb.{touch}
use storage_harvester.Tree.Climb.Ancestors.{parents, IsTree, length-parents}
use storage_harvester.Tree.Children.{attach, insert_at}
use storage_harvester.Tree.Diff.Counters.{Counter}
use storage_harvester.Tree.Diff.Steps.{sub_at, sub_of}
use storage_harvester.Tree.Graft.{add_u32, moved_node, graft, add_links}
use storage_harvester.Tree.Graft.Steps.{IsKept, IsTouched, touch-IsTouched, attach-IsKept}
use storage_harvester.Tree.Graft.Shifted.{
  moved_parent, moved, get_elem?-append_left, get_elem?-append_right, parents-append, length-moved,
  parents-moved, sub-moved, depth-moved, kids-moved, IsTree-grafted,
}

-- `other` was put below `under`: its nodes follow the others, in their order.
pub record IsGrafted (t : List DirNode) (under : ℕ) (other after : List DirNode) : Type 0 where
  pub tree : IsTree (parents after)
  pub same_parents :
      parents after ≡ parents t ++ map (moved_parent under (length t) 0) (parents other)
  pub sub_old : (c : Counter) (i : ℕ) → i < length t → sub_at c after i ≡ sub_at c t i
  pub sub_new : (c : Counter) (i : ℕ) → sub_at c after (length t + i) ≡ sub_at c other i
  pub depth_old : (i : ℕ) → i < length t → depth_at after i ≡ depth_at t i
  pub depth_new :
      (i : ℕ)
      → i < length other
      → depth_at after (length t + i) ≡ add_u32 (depth_at other i) (add_u32 (depth_at t under) 1)
  pub kids_old : (i : ℕ) → i < length t → under ≢ i → kids_at after i ≡ kids_at t i
  pub kids_new :
      (i : ℕ) → kids_at after (length t + i) ≡ map (λ k. add_u32 k (length t)) (kids_at other i)
  pub kids_under : (k : ℕ) × (kids_at after under ≡ insert_at k (length t) (kids_at t under))

module _ (t other : DirTree) (under : ℕ) (u : DirNode) (eu : get_elem? t.nodes under ≡ some u) where
  abbrev offset : ℕ
  offset = length t.nodes

  abbrev both : List DirNode
  both = t.nodes ++ moved under offset (add_u32 u.depth 1) other.nodes

  lt : under < length t.nodes
  lt = get_elem?_lt t.nodes under eu

  parents-both :
      parents both ≡ parents t.nodes ++ map (moved_parent under offset 0) (parents other.nodes)
  parents-both =
      parents-append t.nodes (moved under offset (add_u32 u.depth 1) other.nodes)
      ∙ ap (λ ps. parents t.nodes ++ ps)
          (parents-moved under offset (add_u32 u.depth 1) other.nodes)

  length-both : length both ≡ length t.nodes + length other.nodes
  length-both = omega (
    arith,
    length-append t.nodes (moved under offset (add_u32 u.depth 1) other.nodes),
    length-moved under offset (add_u32 u.depth 1) other.nodes,
  )

  left_both : (i : ℕ) → i < length t.nodes → get_elem? both i ≡ get_elem? t.nodes i
  left_both i = get_elem?-append_left t.nodes (moved under offset (add_u32 u.depth 1) other.nodes) i

  right_both :
      (i : ℕ)
      → get_elem? both (length t.nodes + i)
        ≡ get_elem? (moved under offset (add_u32 u.depth 1) other.nodes) i
  right_both i =
      get_elem?-append_right t.nodes (moved under offset (add_u32 u.depth 1) other.nodes)
        (length t.nodes + i) i refl

  module _ (attached nodes : List DirNode) (k : ℕ)
      (put : attached ≡ set both under (record u { children = insert_at k offset u.children }))
      (a : IsKept both attached) (m : IsTouched attached nodes) (tree : IsTree (parents both)) where
    sub_all : (c : Counter) (i : ℕ) → sub_at c nodes i ≡ sub_at c both i
    sub_all c i = ap (λ f. f i) (m.kept.sub c ∙ a.sub c)

    depth_all : (i : ℕ) → depth_at nodes i ≡ depth_at both i
    depth_all i = ap (λ f. f i) (m.kept.depth ∙ a.depth)

    kids_all : (i : ℕ) → under ≢ i → kids_at nodes i ≡ kids_at both i
    kids_all i ne =
        ap (λ f. f i) m.kids
        ∙ (ap (λ ns. kids_at ns i) put ∙ ap kids_of (get_elem?-set_ne both _ ne))

    under_kids : kids_at nodes under ≡ insert_at k offset (kids_at t.nodes under)
    under_kids =
        ap (λ f. f under) m.kids
        ∙ (ap (λ ns. kids_at ns under) put
            ∙ (ap kids_of (get_elem?-set_self both under _ (omega (arith, length-both, lt)))
                ∙ ap (insert_at k offset) (sym (kids_at-some t.nodes under eu))))

    nodes-IsGrafted : IsGrafted t.nodes under other.nodes nodes
    nodes-IsGrafted = record {
      tree = subst IsTree (sym (m.kept.same_parents ∙ a.same_parents)) tree;
      same_parents = m.kept.same_parents ∙ (a.same_parents ∙ parents-both);
      sub_old = λ c i h. sub_all c i ∙ ap (sub_of c) (left_both i h);
      sub_new = λ c i.
          sub_all c (length t.nodes + i)
          ∙ (ap (sub_of c) (right_both i)
              ∙ sub-moved under offset (add_u32 u.depth 1) c other.nodes i);
      depth_old = λ i h. depth_all i ∙ ap depth_of (left_both i h);
      depth_new = λ i h.
          depth_all (length t.nodes + i)
          ∙ (ap depth_of (right_both i)
              ∙ (depth-moved under offset (add_u32 u.depth 1) other.nodes i h
                  ∙ ap (λ o. add_u32 (depth_at other.nodes i) (add_u32 (depth_of o) 1)) (sym eu)));
      kids_old = λ i h ne. kids_all i ne ∙ ap kids_of (left_both i h);
      kids_new = λ i.
          kids_all (length t.nodes + i) (λ e. omega (arith, lt, e))
          ∙ (ap kids_of (right_both i) ∙ kids-moved under offset (add_u32 u.depth 1) other.nodes i);
      kids_under = (k, under_kids);
    }

abbrev grown_tree : DirTree → DirTree → List DirNode → DirTree
grown_tree t other nodes = record t {
  nodes = nodes;
  links = add_links (length t.nodes) other.links t.links;
  handles = t.handles ++ map (λ h. (add_u32 h.0 (length t.nodes), h.1)) other.handles;
  plain = t.plain ++ map (λ q. (q.0, add_u32 q.1 (length t.nodes))) other.plain;
}

graft-runs :
    (t : DirTree) (under : ℕ) (other : DirTree) (u root : DirNode) (attached touched : List DirNode)
    → get_elem? t.nodes under ≡ some u
    → get_elem? other.nodes 0 ≡ some root
    → attach
        (t.nodes ++ map (moved_node under (length t.nodes) (add_u32 u.depth 1)) other.nodes)
        under
        (length t.nodes)
      ≡ ok attached
    → touch attached under root.newest ≡ ok touched
    → graft t under other ≡ ok (grown_tree t other touched, length t.nodes)
unfolding graft
graft-runs t under other u root attached touched eu er attaches touches =
    rw (eu, er) (rw (attaches, touches) refl)

-- Grafting a tree below a node of another, with room for both, returns the index where its nodes
-- begin: a parent still precedes its children, every node of either tree counts what it counted,
-- and has the children that it had, shifted for the new nodes; only the node grafted under has one
-- child more, the new tree's root. The nodes that were there keep their depth, and the new ones lie
-- as much deeper as the node grafted under, and one more.
pub graft-IsGrafted :
    (t : DirTree) (under : ℕ) (other : DirTree) (u root : DirNode)
    → IsTree (parents t.nodes)
    → IsTree (parents other.nodes)
    → length t.nodes + length other.nodes ≤ no_node
    → get_elem? t.nodes under ≡ some u
    → get_elem? other.nodes 0 ≡ some root
    → All (λ k. k < length t.nodes) u.children
    → (after : DirTree) × (graft t under other ≡ ok (after, length t.nodes))
      × IsGrafted t.nodes under other.nodes after.nodes
graft-IsGrafted t under other u root tree tree' room eu er kids =
    let offset = length t.nodes in
    let nodes = both t other under u eu in
    let here = lt t other under u eu in
    let long = length-both t other under u eu in
    let is_tree : IsTree (parents nodes) = subst IsTree (sym (parents-both t other under u eu)) (
      IsTree-grafted under offset 0 (parents t.nodes) (parents other.nodes) tree tree'
        (sym (length-parents t.nodes)) (omega (arith, here, length-parents t.nodes))
        (omega (arith, room, length-parents t.nodes, length-parents other.nodes))) in
    let (n, en) =
      get_elem?-some nodes offset (omega (arith, long, get_elem?_lt other.nodes 0 er)) in
    let (k, attached, attaches, put, a) =
      attach-IsKept nodes under offset n u en (left_both t other under u eu under here ∙ eu)
        (All-map u.children (λ c h. omega (arith, h, long)) kids) in
    let (touched, touches, m) =
      touch-IsTouched attached under root.newest (subst IsTree (sym a.same_parents) is_tree)
        (omega (arith, a.same_length, long, here)) in
    (
      grown_tree t other touched,
      graft-runs t under other u root attached touched eu er attaches touches,
      nodes-IsGrafted t other under u eu attached touched k put a m is_tree,
    )
