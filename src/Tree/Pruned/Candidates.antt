-- ===== src/Tree/Pruned/Candidates.antt =====
-- src/tree.rs: `pruned`'s candidates: taken from the heap, filtered, sorted and cut.
use storage_harvester.Base.{
  ℕ, zero, suc, ◌≤◌, ◌<◌, ◌≡◌, refl, ap, max, inl, inr, Option, some, none, List, [], ◌∷◌, ◌++◌,
  arith, leb→le, ltb, Bool-cases, All, length, take, get_elem?, get_elem?-some,
}
use storage_harvester.Base.Result.{ok}
use storage_harvester.Tree.Dir.{DirNode, total_blocks}
use storage_harvester.Tree.Pruned.{
  Candidate, take_best, put_best, large, large_kids, insert_kid, sort_kids, better,
}

-- Taking the greatest candidate leaves one fewer, each of them one that was there.
abbrev pub Taken : (Candidate → Type 0) → ℕ → Option (Candidate × List Candidate) → Type 0
Taken P n none = n ≡ 0
Taken P n (some (b, rest)) = P b × All P rest × (n ≡ suc (length rest))

pub put_best-Taken :
    (P : Candidate → Type 0) (c : Candidate) (n : ℕ) (o : Option (Candidate × List Candidate))
    → P c
    → Taken P n o
    → Taken P (suc n) (some (put_best c o))
put_best-Taken P c n none h t = (h, tt, ap suc t)
put_best-Taken P c n (some (b, rest)) h t = elim (Bool-cases (better c b)) [
  | inl e ↦ rw e (h, (t.0, t.1), ap suc t.2)
  | inr e ↦ rw e (t.0, (h, t.1), ap suc t.2)
]

pub take_best-Taken :
    (P : Candidate → Type 0) (cs : List Candidate) → All P cs → Taken P (length cs) (take_best cs)
unfolding take_best
take_best-Taken P [] h = refl
take_best-Taken P (c ∷ cs) h =
    put_best-Taken P c (length cs) (take_best cs) h.0 (take_best-Taken P cs h.1)

-- A child that may be listed below `at`.
abbrev pub IsLarge : List DirNode → ℕ → Candidate → Type 0
IsLarge nodes min_bytes (blocks, k) =
    (n : DirNode) × (get_elem? nodes k ≡ some n)
    × (blocks ≡ total_blocks n)
    × (max min_bytes 1 ≤ blocks)

pub large_kids-IsLarge :
    (nodes : List DirNode) (min_bytes : ℕ) (ks : List ℕ)
    → All (λ k. k < length nodes) ks
    → (out : List Candidate) × (large_kids nodes min_bytes ks ≡ ok out)
      × All (IsLarge nodes min_bytes) out
unfolding large_kids
large_kids-IsLarge nodes min_bytes [] h = ([], refl, tt)
large_kids-IsLarge nodes min_bytes (k ∷ ks) h =
    let (n, e) = get_elem?-some nodes k h.0 in
    let (rest, runs, all) = large_kids-IsLarge nodes min_bytes ks h.1 in
    elim (Bool-cases (large min_bytes n)) [
      | inl fits ↦ (
        (total_blocks n, k) ∷ rest,
        ground arith,
        ((n, e, refl, leb→le (max min_bytes 1) (total_blocks n) fits), all),
      )
      | inr small ↦ (rest, ground arith, all)
    ]

pub All-insert_kid :
    (P : Candidate → Type 0) (c : Candidate) (ds : List Candidate)
    → P c
    → All P ds
    → All P (insert_kid c ds)
All-insert_kid P c [] h k = (h, tt)
All-insert_kid P c (d ∷ ds) h k = elim (Bool-cases (ltb c.0 d.0)) [
  | inl e ↦ rw e (k.0, All-insert_kid P c ds h k.1)
  | inr e ↦ rw e (h, k)
]

pub All-sort_kids : (P : Candidate → Type 0) (cs : List Candidate) → All P cs → All P (sort_kids cs)
All-sort_kids P [] h = tt
All-sort_kids P (c ∷ cs) h = All-insert_kid P c (sort_kids cs) h.0 (All-sort_kids P cs h.1)

pub All-take : (P : Candidate → Type 0) (n : ℕ) (cs : List Candidate) → All P cs → All P (take n cs)
All-take P zero cs h = tt
All-take P (suc n) [] h = tt
All-take P (suc n) (c ∷ cs) h = (h.0, All-take P n cs h.1)

pub length-take_le : (n : ℕ) (cs : List Candidate) → length (take n cs) ≤ n
length-take_le zero cs = omega arith
length-take_le (suc n) [] = omega arith
length-take_le (suc n) (c ∷ cs) = omega (arith, length-take_le n cs)

pub All-append :
    (P : Candidate → Type 0) (xs ys : List Candidate) → All P xs → All P ys → All P (xs ++ ys)
All-append P [] ys h k = k
All-append P (x ∷ xs) ys h k = (h.0, All-append P xs ys h.1 k)
