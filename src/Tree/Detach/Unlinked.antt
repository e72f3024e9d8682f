-- ===== src/Tree/Detach/Unlinked.antt =====
-- src/tree.rs: what unlinking a node from its parent changes.
use mathlib.Core.Path.{fun_ext}
use storage_harvester.Base.{
  ℕ, zero, suc, Bool, ◌⊎◌, ◌≤◌, ◌<◌, ◌≡◌, refl, ap, sym, subst, inl, inr, false, Option, some, none,
  List, [], ◌∷◌, arith, ◌==◌, if◌then◌else◌, Bool-cases, ==_iff, All, set, length, length-set,
  get_elem?, get_elem?-some,
}
use storage_harvester.Base.Result.{ok}
use storage_harvester.Tree.Dir.{DirNode, no_node}
use storage_harvester.Tree.Dir.Reads.{kids_of, kids_at, read-set, read-same}
use storage_harvester.Tree.Diff.Counters.{Counter}
use storage_harvester.Tree.Diff.Steps.{sizes, sub_at, sub_of}
use storage_harvester.Tree.Detach.{without, unlink}

-- The children of a node, without one of them.
abbrev pub cut : ℕ → ℕ → (ℕ → List ℕ) → ℕ → List ℕ
cut p child kids j = if j == p then without child (kids j) else kids j

sizes-without :
    (size : ℕ → ℕ) (child : ℕ) (ks : List ℕ) → sizes size (without child ks) ≤ sizes size ks
sizes-without size child [] = omega arith
sizes-without size child (k ∷ ks) = let rest = sizes-without size child ks in ground arith

pub sizes-cut :
    (size : ℕ → ℕ) (p child : ℕ) (kids : ℕ → List ℕ) (j : ℕ)
    → sizes size (cut p child kids j) ≤ sizes size (kids j)
sizes-cut size p child kids j = let less = sizes-without size child (kids j) in ground arith

All-without : (P : ℕ → Type 0) (child : ℕ) (ks : List ℕ) → All P ks → All P (without child ks)
All-without P child [] h = tt
All-without P child (k ∷ ks) h = elim (Bool-cases (k == child)) [
  | inl e ↦ rw e (All-without P child ks h.1)
  | inr e ↦ rw e (h.0, All-without P child ks h.1)
]

pub All-cut :
    (P : ℕ → Type 0) (p child : ℕ) (kids : ℕ → List ℕ) (j : ℕ)
    → All P (kids j)
    → All P (cut p child kids j)
All-cut P p child kids j h = elim (Bool-cases (j == p)) [
  | inl e ↦ rw e (All-without P child (kids j) h)
  | inr e ↦ rw e h
]

abbrev pub alive_of : Option DirNode → Bool
alive_of none = false
alive_of (some n) = n.alive

abbrev pub alive_at : List DirNode → ℕ → Bool
alive_at nodes j = alive_of (get_elem? nodes j)

pub record IsUnlinked (nodes : List DirNode) (p child : ℕ) (after : List DirNode) : Type 0 where
  pub same_length : length after ≡ length nodes
  pub kids : kids_at after ≡ cut p child (kids_at nodes)
  pub alive : alive_at after ≡ alive_at nodes
  pub sub : (c : Counter) → sub_at c after ≡ sub_at c nodes

-- The root has no parent to be unlinked from.
past_end : (nodes : List DirNode) (i : ℕ) → length nodes ≤ i → get_elem? nodes i ≡ none
past_end [] i h = refl
past_end (n ∷ ns) zero h = absurd (omega (arith, h))
past_end (n ∷ ns) (suc i) h = past_end ns i (omega (arith, h))

no_kids :
    (nodes : List DirNode) (child j : ℕ)
    → length nodes ≤ j
    → kids_at nodes j ≡ without child (kids_at nodes j)
no_kids nodes child j h = rw (past_end nodes j h) refl

cut_none :
    (nodes : List DirNode) (child : ℕ)
    → length nodes ≤ no_node
    → kids_at nodes ≡ cut no_node child (kids_at nodes)
cut_none nodes child h = fun_ext (λ j. elim (Bool-cases (j == no_node)) [
  | inl e ↦ rw e (no_kids nodes child j (omega (arith, h, (==_iff j no_node).0 e)))
  | inr e ↦ rw e refl
])

pub unlink-IsUnlinked :
    (nodes : List DirNode) (child : ℕ) (n : DirNode)
    → get_elem? nodes child ≡ some n
    → length nodes ≤ no_node
    → (n.parent ≡ no_node) ⊎ (n.parent < length nodes)
    → (after : List DirNode) × (unlink nodes child ≡ ok after)
      × IsUnlinked nodes n.parent child after
unfolding unlink
unlink-IsUnlinked nodes child n e fits (inl top) = (
  nodes,
  ground arith,
  record {
    same_length = refl;
    kids =
        subst (λ p. kids_at nodes ≡ cut p child (kids_at nodes)) (sym top)
          (cut_none nodes child fits);
    alive = refl;
    sub = λ c. refl;
  },
)
unlink-IsUnlinked nodes child n e fits (inr below) =
    let (p, f) = get_elem?-some nodes n.parent below in
    (
      set nodes n.parent (record p { children = without child p.children }),
      ground arith,
      record {
        same_length = length-set nodes n.parent _;
        kids = fun_ext (
            read-set kids_of (without child) nodes n.parent _ below
              (ap (λ o. without child (kids_of o)) (sym f)));
        alive = read-same alive_of nodes n.parent p _ f refl;
        sub = λ c. read-same (sub_of c) nodes n.parent p _ f refl;
      },
    )
