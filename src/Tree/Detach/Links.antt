-- ===== src/Tree/Detach/Links.antt =====
-- src/tree.rs: what `detach` keeps of the links and what it hands over.
use storage_harvester.Base.{
  ℕ, ◌+◌, ◌<◌, ◌≡◌, refl, inl, inr, Bool, true, false, some, List, [], ◌∷◌, arith, Bool-cases, ap,
  if◌then◌else◌, All, length, get_elem?, get_elem?-some,
}
use storage_harvester.Base.Result.{ok}
use storage_harvester.Tree.Dir.{DirNode, Inode, LinkOwner}
use storage_harvester.Tree.Detach.{keep_alive, sweep, sort_link, Links}
use storage_harvester.Tree.Detach.Unlinked.{alive_at}

-- The node of an index is alive, or it is not.
abbrev pub Lives : List DirNode → Bool → ℕ → Type 0
Lives nodes b i = (n : DirNode) × (get_elem? nodes i ≡ some n) × (n.alive ≡ b)

-- Every index of a link is a node's.
abbrev pub InTree : List DirNode → Inode × LinkOwner → Type 0
InTree nodes (inode, owner) = (owner.node < length nodes) × All (λ i. i < length nodes) owner.others

-- The link's owner is alive, or it is not; all that it names besides are alive.
abbrev pub Owned : List DirNode → Bool → Inode × LinkOwner → Type 0
Owned nodes b (inode, owner) = Lives nodes b owner.node × All (Lives nodes true) owner.others

-- The indices among some whose nodes are alive, in their order.
abbrev pub those_alive : List DirNode → List ℕ → List ℕ
those_alive nodes [] = []
those_alive nodes (i ∷ is) =
    if alive_at nodes i then i ∷ those_alive nodes is else those_alive nodes is

-- A link without the other nodes that are dead; all else of it stays.
abbrev pub trimmed : List DirNode → Inode × LinkOwner → Inode × LinkOwner
trimmed nodes (inode, owner) = (inode, record owner { others = those_alive nodes owner.others })

-- The links whose owner is alive, each without its dead others, in their order.
abbrev pub links_alive : List DirNode → Links → Links
links_alive nodes [] = []
links_alive nodes ((inode, owner) ∷ links) =
    if alive_at nodes owner.node
    then trimmed nodes (inode, owner) ∷ links_alive nodes links
    else links_alive nodes links

-- Those whose owner is not.
abbrev pub links_dead : List DirNode → Links → Links
links_dead nodes [] = []
links_dead nodes ((inode, owner) ∷ links) =
    if alive_at nodes owner.node
    then links_dead nodes links
    else trimmed nodes (inode, owner) ∷ links_dead nodes links

abbrev pub weight : (Inode → ℕ) → Links → ℕ
weight w [] = 0
weight w ((inode, owner) ∷ links) = w inode + weight w links

keep_alive-Lives :
    (nodes : List DirNode) (is : List ℕ)
    → All (λ i. i < length nodes) is
    → (keep_alive nodes is ≡ ok (those_alive nodes is))
      × All (Lives nodes true) (those_alive nodes is)
unfolding keep_alive
keep_alive-Lives nodes [] h = (refl, tt)
keep_alive-Lives nodes (i ∷ is) h =
    let (n, e) = get_elem?-some nodes i h.0 in
    let (runs, all) = keep_alive-Lives nodes is h.1 in
    elim (Bool-cases n.alive) [
      | inl lives ↦ (rw e (rw runs (rw lives refl)), rw e (rw lives ((n, e, lives), all)))
      | inr gone ↦ (rw e (rw runs (rw gone refl)), rw e (rw gone all))
    ]

-- Every link is kept or handed over, none is lost and none comes twice; it stays what it was, but
-- for the dead among its other nodes.
pub record IsSwept (nodes : List DirNode) (links kept counted : Links) : Type 0 where
  pub alive : All (Owned nodes true) kept
  pub gone : All (Owned nodes false) counted
  pub stay : kept ≡ links_alive nodes links
  pub go : counted ≡ links_dead nodes links
  pub shared : (w : Inode → ℕ) → weight w kept + weight w counted ≡ weight w links

IsSwept-link :
    (nodes : List DirNode) (inode : Inode) (owner : LinkOwner) (n : DirNode)
    (links kept counted : Links)
    → get_elem? nodes owner.node ≡ some n
    → All (Lives nodes true) (those_alive nodes owner.others)
    → IsSwept nodes links kept counted
    → let out = sort_link n.alive (trimmed nodes (inode, owner)) (kept, counted) in
      IsSwept nodes ((inode, owner) ∷ links) out.0 out.1
IsSwept-link nodes inode owner n links kept counted e all r = elim (Bool-cases n.alive) [
  | inl lives ↦ rw lives (record {
    alive = (((n, e, lives), all), r.alive);
    gone = r.gone;
    stay = rw e (rw lives (ap (λ ls. trimmed nodes (inode, owner) ∷ ls) r.stay));
    go = rw e (rw lives r.go);
    shared = λ w. omega (arith, r.shared w);
  })
  | inr gone ↦ rw gone (record {
    alive = r.alive;
    gone = (((n, e, gone), all), r.gone);
    stay = rw e (rw gone r.stay);
    go = rw e (rw gone (ap (λ ls. trimmed nodes (inode, owner) ∷ ls) r.go));
    shared = λ w. omega (arith, r.shared w);
  })
]

pub sweep-IsSwept :
    (nodes : List DirNode) (links : Links)
    → All (InTree nodes) links
    → (out : Links × Links) × (sweep nodes links ≡ ok out) × IsSwept nodes links out.0 out.1
unfolding sweep
sweep-IsSwept nodes [] h = (
  ([], []),
  refl,
  record { alive = tt; gone = tt; stay = refl; go = refl; shared = λ w. omega arith },
)
sweep-IsSwept nodes ((inode, owner) ∷ links) h =
    let (keeps, all) = keep_alive-Lives nodes owner.others h.0.1 in
    let (n, e) = get_elem?-some nodes owner.node h.0.0 in
    let (rest, runs, r) = sweep-IsSwept nodes links h.1 in
    (
      sort_link n.alive (trimmed nodes (inode, owner)) rest,
      rw keeps (rw e (rw runs refl)),
      IsSwept-link nodes inode owner n links rest.0 rest.1 e all r,
    )
