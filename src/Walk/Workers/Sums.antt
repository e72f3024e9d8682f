-- ===== src/Walk/Workers/Sums.antt =====
-- src/scanner/native.rs: sums of a weight over jobs and over workers.
use storage_harvester.Base.{
  ℕ, zero, suc, ◌+◌, ◌≤◌, ◌≡◌, refl, ap, inl, inr, Option-cases, none, some, List, [], ◌∷◌, ◌++◌,
  arith, get_elem?, set,
}
use storage_harvester.Walk.Workers.{
  Job, Worker, spawning, unspawned, waiting, left, offering, reading, halting, broken, pop,
}

abbrev pub total {ℓ} : {A : Type ℓ} → (A → ℕ) → List A → ℕ
total w [] = 0
total w (x ∷ xs) = w x + total w xs

module _ {A : Type 0} (w : A → ℕ) where
  pub total-append : (xs ys : List A) → total w (xs ++ ys) ≡ total w xs + total w ys
  total-append [] ys = omega arith
  total-append (x ∷ xs) ys = omega (arith, total-append xs ys)

  pub total-set :
      (xs : List A) (i : ℕ) (a b : A)
      → get_elem? xs i ≡ some a
      → total w (set xs i b) + w a ≡ total w xs + w b
  total-set [] i a b e = cc
  total-set (x ∷ xs) zero a b e = ground arith
  total-set (x ∷ xs) (suc i) a b e = omega (arith, total-set xs i a b e)

  pub total-get : (xs : List A) (i : ℕ) (a : A) → get_elem? xs i ≡ some a → w a ≤ total w xs
  total-get [] i a e = cc
  total-get (x ∷ xs) zero a e = ground arith
  total-get (x ∷ xs) (suc i) a e = omega (arith, total-get xs i a e)

pub pop-none : (xs : List Job) → pop xs ≡ none → xs ≡ []
unfolding pop
pop-none [] e = refl
pop-none (x ∷ xs) e = ground arith

pub total-pop-some :
    (w : Job → ℕ) (xs : List Job) (last : Job) (rest : List Job)
    → pop xs ≡ some (last, rest)
    → total w xs ≡ w last + total w rest
unfolding pop
total-pop-some w [] last rest e = cc
total-pop-some w (x ∷ xs) last rest e = elim (Option-cases (pop xs)) [
  | inl n ↦ let nil = pop-none xs n in let sum = ap (total w) nil in ground arith
  | inr ((l, r), s) ↦ let ih = total-pop-some w xs l r s in ground arith
]

-- What a worker holds, and whether it is counted as busy.
abbrev pub holding : (Job → ℕ) → Worker → ℕ
holding w (spawning k) = 0
holding w unspawned = 0
holding w waiting = 0
holding w left = 0
holding w (offering children) = total w children
holding w (reading job) = w job
holding w (halting job) = w job
holding w (broken job) = w job

abbrev pub active : Worker → ℕ
active (spawning k) = 1
active unspawned = 1
active waiting = 0
active left = 0
active (offering children) = 1
active (reading job) = 1
active (halting job) = 1
active (broken job) = 1
