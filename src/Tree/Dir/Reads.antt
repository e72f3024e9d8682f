-- ===== src/Tree/Dir/Reads.antt =====
-- src/tree.rs: what is read of the nodes after one of them was written.
use mathlib.Core.Path.{fun_ext}
use storage_harvester.Base.{
  ℕ, ◌<◌, ◌≡◌, ap, sym, ◌∙◌, inl, inr, refl, Bool, true, false, Option, some, none, List, [], ◌==◌,
  if◌then◌else◌, Bool-cases, ==_iff, set, length, get_elem?, get_elem?_lt, get_elem?-set_self,
  get_elem?-set_ne, true≢false,
}
use storage_harvester.Tree.Dir.{DirNode}

abbrev pub kids_of : Option DirNode → List ℕ
kids_of none = []
kids_of (some n) = n.children

abbrev pub kids_at : List DirNode → ℕ → List ℕ
kids_at nodes i = kids_of (get_elem? nodes i)

pub kids_at-some :
    (nodes : List DirNode) (i : ℕ) {n : DirNode}
    → get_elem? nodes i ≡ some n
    → kids_at nodes i ≡ n.children
kids_at-some nodes i e = ap kids_of e

-- How deep a node lies.
abbrev pub depth_of : Option DirNode → ℕ
depth_of none = 0
depth_of (some n) = n.depth

abbrev pub depth_at : List DirNode → ℕ → ℕ
depth_at nodes i = depth_of (get_elem? nodes i)

-- What is read of each node after one was written.
pub read-set {ℓ} :
    {B : Type ℓ} (g : Option DirNode → B) (h : B → B) (nodes : List DirNode) (p : ℕ) (v : DirNode)
    → p < length nodes
    → g (some v) ≡ h (g (get_elem? nodes p))
    → (j : ℕ)
    → g (get_elem? (set nodes p v) j)
      ≡ (if j == p then h (g (get_elem? nodes j)) else g (get_elem? nodes j))
read-set g h nodes p v lt e j = elim (Bool-cases (j == p)) [
  | inl same ↦ rw same (
      ap (λ k. g (get_elem? (set nodes p v) k)) ((==_iff j p).0 same)
      ∙ (ap g (get_elem?-set_self nodes p v lt)
          ∙ (e ∙ ap (λ k. h (g (get_elem? nodes k))) (sym ((==_iff j p).0 same)))))
  | inr other ↦
      rw other (ap g (get_elem?-set_ne nodes v (λ q. true≢false ((==_iff j p).1 (sym q)) other)))
]

if_same {ℓ} : {B : Type ℓ} (b : Bool) (x : B) → (if b then x else x) ≡ x
if_same true x = refl
if_same false x = refl

-- A write that keeps what is read changes no reading.
pub read-same {ℓ} :
    {B : Type ℓ} (g : Option DirNode → B) (nodes : List DirNode) (p : ℕ) (n v : DirNode)
    → get_elem? nodes p ≡ some n
    → g (some v) ≡ g (some n)
    → ◌≡◌ {A = ℕ → B} (λ j. g (get_elem? (set nodes p v) j)) (λ j. g (get_elem? nodes j))
read-same g nodes p n v e same = fun_ext (λ j.
    read-set g (λ x. x) nodes p v (get_elem?_lt nodes p e) (same ∙ ap g (sym e)) j
    ∙ if_same (j == p) (g (get_elem? nodes j)))
