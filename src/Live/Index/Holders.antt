-- ===== src/Live/Index/Holders.antt =====
-- src/live.rs: `plain_holders` names every directory that the index knows, and no other.
use storage_harvester.Base.{
  ℕ, suc, ◌≤◌, ◌≡◌, refl, ap, ◌∙◌, inl, inr, true, false, ◌||◌, ◌==◌, ltb, List, [], ◌∷◌, ◌++◌,
  arith, Bool-cases, All,
}
use storage_harvester.Base.Maps.{member}
use storage_harvester.Tree.Dir.{Inode}
use storage_harvester.Live.{TreeState}
use storage_harvester.Live.Index.{held, plain_key, skip_below, take_key, range_of, plain_holders}
use storage_harvester.Live.Index.Plain.{in_set, IsIndexed}

-- Sorted by key, as a scan leaves `plain`.
abbrev pub Sorted : List (ℕ × ℕ) → Type 0
Sorted [] = Unit
Sorted (p ∷ s) = All (λ q. p.0 ≤ q.0) s × Sorted s

member-append : (n : ℕ) (xs ys : List ℕ) → member n (xs ++ ys) ≡ (member n xs || member n ys)
unfolding member
member-append n [] ys = refl
member-append n (x ∷ xs) ys = ground (arith, member-append n xs ys)

member-range_of :
    (key node : ℕ) (s : List (ℕ × ℕ)) → member node (range_of key s) ≡ in_set (key, node) s
unfolding member range_of in_set
member-range_of key node [] = refl
member-range_of key node ((k, n) ∷ s) = let rest = member-range_of key node s in ground arith

in_set-above :
    (key node : ℕ) (s : List (ℕ × ℕ)) → All (λ q. suc key ≤ q.0) s → in_set (key, node) s ≡ false
unfolding in_set
in_set-above key node [] h = refl
in_set-above key node ((k, n) ∷ s) h =
    let rest = in_set-above key node s h.1 in let here = h.0 in ground arith

All-weaken : (a b : ℕ) (s : List (ℕ × ℕ)) → a ≤ b → All (λ q. b ≤ q.0) s → All (λ q. a ≤ q.0) s
All-weaken a b [] h all = tt
All-weaken a b ((k, n) ∷ s) h all = let here = all.0 in (omega arith, All-weaken a b s h all.1)

member-take_key :
    (key node : ℕ) (s : List (ℕ × ℕ))
    → Sorted s
    → All (λ q. key ≤ q.0) s
    → member node (take_key key s) ≡ in_set (key, node) s
unfolding member take_key in_set
member-take_key key node [] o h = refl
member-take_key key node ((k, n) ∷ s) o h =
    let rest = member-take_key key node s o.1 h.1 in
    let here = h.0 in
    elim (Bool-cases (k == key)) [
      | inl e ↦ ground arith
      | inr e ↦
          let above = in_set-above key node s (All-weaken (suc key) k s (ground arith) o.0) in
          ground arith
    ]

in_set-below :
    (key node k n : ℕ) (s : List (ℕ × ℕ))
    → ltb k key ≡ true
    → in_set (key, node) s ≡ in_set (key, node) ((k, n) ∷ s)
unfolding in_set
in_set-below key node k n s e = ground arith

member-skip_below :
    (key node : ℕ) (s : List (ℕ × ℕ))
    → Sorted s
    → member node (take_key key (skip_below key s)) ≡ in_set (key, node) s
unfolding skip_below
member-skip_below key node [] o = member-take_key key node [] tt tt
member-skip_below key node ((k, n) ∷ s) o = elim (Bool-cases (ltb k key)) [
  | inl e ↦ rw e (member-skip_below key node s o.1 ∙ in_set-below key node k n s e)
  | inr e ↦ rw e (
      member-take_key key node ((k, n) ∷ s) o (ground arith, All-weaken key k s (ground arith) o.0))
]

-- Of an index whose set of pairs agrees with its map by node, and whose `plain` is sorted by key:
-- the holders of an inode are the directories that `plain` gives for its key and those that hold
-- the key since the scan, and no others.
pub plain_holders_complete :
    (s : TreeState) (i : Inode) (node : ℕ)
    → IsIndexed s
    → Sorted s.plain
    → member node (plain_holders s i) ≡ (
        in_set (plain_key i.0 i.1, node) s.plain
        || member (plain_key i.0 i.1) (held node s.plain_by_node))
unfolding plain_holders
plain_holders_complete s i node h o =
    let key = plain_key i.0 i.1 in
    member-append node (take_key key (skip_below key s.plain)) (range_of key s.plain_live)
    ∙ ap (λ b. b || member node (range_of key s.plain_live)) (member-skip_below key node s.plain o)
    ∙ ap (λ b. in_set (key, node) s.plain || b)
        (member-range_of key node s.plain_live ∙ h.agree key node)
