-- ===== src/Walk/Build/Forest.antt =====
-- src/scanner/native.rs: what is rolled up backwards, from each node to its parent, adds up.
use storage_harvester.Base.{
  ℕ, zero, suc, ◌+◌, ◌≤◌, ◌<◌, ◌≡◌, refl, ap, sym, inl, inr, List, [], ◌∷◌, ◌++◌, arith, ◌==◌,
  if◌then◌else◌, All, Bool-cases, ==_iff, All-map,
}

-- The sum of a function below a bound, and over a list of indices.
abbrev pub below : (ℕ → ℕ) → ℕ → ℕ
below f zero = 0
below f (suc n) = below f n + f n

abbrev pub over : (ℕ → ℕ) → List ℕ → ℕ
over f [] = 0
over f (k ∷ ks) = f k + over f ks

pub over-append : (f : ℕ → ℕ) (xs ys : List ℕ) → over f (xs ++ ys) ≡ over f xs + over f ys
over-append f [] ys = omega arith
over-append f (x ∷ xs) ys = omega (arith, over-append f xs ys)

pub below-le : (f : ℕ → ℕ) (n i : ℕ) → i < n → f i ≤ below f n
below-le f zero i h = elim h [ ]
below-le f (suc n) i h = elim (Bool-cases (i == n)) [
  | inl e ↦ let same = ap f ((==_iff i n).0 e) in omega (arith, same)
  | inr e ↦ omega (arith, below-le f n i (ground arith))
]

-- The node `m` is put below `p`.
abbrev pub moved : (ℕ → ℕ) → ℕ → ℕ → ℕ → ℕ
moved f p m j = if j == p then f j + f m else f j

below-moved_out : (f : ℕ → ℕ) (p m n : ℕ) → n ≤ p → below (moved f p m) n ≡ below f n
below-moved_out f p m zero h = refl
below-moved_out f p m (suc n) h =
    let rest = below-moved_out f p m n (omega (arith, h)) in ground arith

pub below-moved : (f : ℕ → ℕ) (p m n : ℕ) → p < n → below (moved f p m) n ≡ below f n + f m
below-moved f p m zero h = elim h [ ]
below-moved f p m (suc n) h = elim (Bool-cases (n == p)) [
  | inl e ↦ let rest = below-moved_out f p m n (ground arith) in ground arith
  | inr e ↦ let rest = below-moved f p m n (ground arith) in ground arith
]

over-moved :
    (f : ℕ → ℕ) (p m : ℕ) (ks : List ℕ) → All (λ k. p < k) ks → over (moved f p m) ks ≡ over f ks
over-moved f p m [] h = refl
over-moved f p m (k ∷ ks) h = let rest = over-moved f p m ks h.1 in let here = h.0 in ground arith

-- `s` is `b` rolled up, from the last of `n` nodes down to the one after `m`, into the nodes whose
-- children, all of them after `m`, `kids` gives.
pub record IsRolled (b : ℕ → ℕ) (n m : ℕ) (kids : ℕ → List ℕ) (s : ℕ → ℕ) : Type 0 where
  pub sums : (j : ℕ) → j < n → s j ≡ b j + over s (kids j)
  pub tops : below s (suc m) ≡ below b n
  pub fits : (j : ℕ) → j < n → s j ≤ below b n

abbrev pub with_kid : (ℕ → List ℕ) → ℕ → ℕ → ℕ → List ℕ
with_kid kids p m j = if j == p then kids j ++ m ∷ [] else kids j

module _ (b : ℕ → ℕ) (n m p : ℕ) (kids : ℕ → List ℕ) (s : ℕ → ℕ) (le : p ≤ m)
    (after : (j : ℕ) → All (λ k. suc m < k) (kids j)) (r : IsRolled b n (suc m) kids s) where
  over-kids : (j : ℕ) → over (moved s p (suc m)) (kids j) ≡ over s (kids j)
  over-kids j =
      over-moved s p (suc m) (kids j) (All-map (kids j) (λ k h. omega (arith, le, h)) (after j))

  moved_child : moved s p (suc m) (suc m) ≡ s (suc m)
  moved_child = ground arith

  over-with_kid :
      (j : ℕ)
      → over (moved s p (suc m)) (with_kid kids p (suc m) j)
        ≡ over s (kids j) + (if j == p then s (suc m) else 0)
  over-with_kid j = elim (Bool-cases (j == p)) [
    | inl e ↦ rw e (
        rw (over-append (moved s p (suc m)) (kids j) (suc m ∷ []))
          (omega (arith, over-kids j, moved_child)))
    | inr e ↦ rw e (omega (arith, over-kids j))
  ]

  -- What is moved to the parent is at most all there is.
  pub moved_le : s p + s (suc m) ≤ below b n
  moved_le = omega (arith, r.tops, below-le s (suc m) p (omega (arith, le)))

  pub IsRolled-step : IsRolled b n m (with_kid kids p (suc m)) (moved s p (suc m))
  IsRolled-step = record {
    sums = λ j lt. rw (over-with_kid j) (ground (arith, r.sums j lt));
    tops = omega (arith, r.tops, below-moved s p (suc m) (suc m) (omega (arith, le)));
    fits = λ j lt. elim (Bool-cases (j == p)) [
      | inl e ↦ rw e (rw ((==_iff j p).0 e) moved_le)
      | inr e ↦ rw e (r.fits j lt)
    ];
  }

pub IsRolled-start :
    (b : ℕ → ℕ) (n m : ℕ) (kids : ℕ → List ℕ)
    → n ≡ suc m
    → ((j : ℕ) → kids j ≡ [])
    → IsRolled b n m kids b
IsRolled-start b n m kids last none_yet = record {
  sums = λ j lt. rw (none_yet j) (omega arith);
  tops = ap (below b) (sym last);
  fits = λ j lt. below-le b n j lt;
}

pub below-cong : (f g : ℕ → ℕ) (n : ℕ) → ((j : ℕ) → j < n → f j ≡ g j) → below f n ≡ below g n
below-cong f g zero h = refl
below-cong f g (suc n) h =
    omega (arith, below-cong f g n (λ j lt. h j (omega (arith, lt))), h n (omega arith))

pub over-cong : (f g : ℕ → ℕ) (ks : List ℕ) → All (λ k. f k ≡ g k) ks → over f ks ≡ over g ks
over-cong f g [] h = refl
over-cong f g (k ∷ ks) h = omega (arith, over-cong f g ks h.1, h.0)

pub below_one : (n : ℕ) → below (λ j. 1) n ≡ n
below_one zero = refl
below_one (suc n) = omega (arith, below_one n)
