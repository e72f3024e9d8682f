-- ===== src/Live/Events/Recent.antt =====
-- src/live.rs: the messages that `publish` keeps are the last ones.
use storage_harvester.Base.{
  ℕ, zero, suc, ◌-◌, ◌≤◌, ◌<◌, ◌≡◌, refl, sym, ap, ◌∙◌, inl, inr, Bool, true, false, List, [], ◌∷◌,
  ◌++◌, if◌then◌else◌, length, drop, length-append, arith, Bool-cases, ◌==◌, leb, subst, leb→le,
}
use storage_harvester.Live.{Message, replay}
use storage_harvester.Live.Events.{is_change, publish, publish_all}

-- The last `n` of a list, or all of it.
unfoldable pub last {ℓ} : {A : Type ℓ} → ℕ → List A → List A
last n xs = drop (length xs - n) xs

unfoldable pub changes : List Message → List Message
changes [] = []
changes (m ∷ ms) = if is_change m then m ∷ changes ms else changes ms

==_true : (a b : ℕ) → a ≡ b → (a == b) ≡ true
==_true a b h = ground arith

==_false : (a b : ℕ) → a < b → (a == b) ≡ false
==_false a b h = ground arith

none_over : (a b : ℕ) → a ≤ b → a - b ≡ 0
none_over a b h = omega (arith, h)

module _ {A : Type 0} where
  drop-append : (n : ℕ) (xs ys : List A) → n ≤ length xs → drop n (xs ++ ys) ≡ drop n xs ++ ys
  drop-append zero xs ys h = refl
  drop-append (suc n) [] ys h = elim h [ ]
  drop-append (suc n) (x ∷ xs) ys h = drop-append n xs ys (omega (arith, h))

  drop-suc : (n : ℕ) (xs : List A) → drop 1 (drop n xs) ≡ drop (suc n) xs
  drop-suc zero xs = refl
  drop-suc (suc n) [] = refl
  drop-suc (suc n) (x ∷ xs) = drop-suc n xs

  length-drop : (n : ℕ) (xs : List A) → length (drop n xs) ≡ length xs - n
  length-drop zero xs = omega arith
  length-drop (suc n) [] = omega arith
  length-drop (suc n) (x ∷ xs) = omega (arith, length-drop n xs)

  append-nil : (xs : List A) → xs ++ [] ≡ xs
  append-nil [] = refl
  append-nil (x ∷ xs) = ap (λ l. x ∷ l) (append-nil xs)

  append_assoc : (xs ys zs : List A) → (xs ++ ys) ++ zs ≡ xs ++ (ys ++ zs)
  append_assoc [] ys zs = refl
  append_assoc (x ∷ xs) ys zs = ap (λ l. x ∷ l) (append_assoc xs ys zs)

  push : ℕ → List A → A → List A
  push n xs x = (if length xs == n then drop 1 xs else xs) ++ x ∷ []

  if_true : {b : Bool} (x y : List A) → b ≡ true → (if b then x else y) ≡ x
  if_true x y h = rw h refl

  if_false : {b : Bool} (x y : List A) → b ≡ false → (if b then x else y) ≡ y
  if_false x y h = rw h refl

  -- One more is taken in while the list is short, or in place of the oldest.
  push-full :
      (n : ℕ) (xs : List A) (x : A)
      → 0 < n
      → n ≤ length xs
      → push n (last n xs) x ≡ last n (xs ++ x ∷ [])
  unfolding push last
  push-full n xs x h full =
      let k = length xs - n in
      let is_full : length (drop k xs) ≡ n = omega (arith, full, length-drop k xs) in
      ap (λ l. l ++ x ∷ [])
        (if_true (drop 1 (drop k xs)) (drop k xs) (==_true (length (drop k xs)) n is_full)
          ∙ drop-suc k xs)
      ∙ sym (drop-append (suc k) xs (x ∷ []) (omega arith))
      ∙ ap (λ j. drop j (xs ++ x ∷ [])) {x = suc k} {y = length (xs ++ x ∷ []) - n}
          (omega (arith, length-append xs (x ∷ [])))

  push-short :
      (n : ℕ) (xs : List A) (x : A) → length xs < n → push n (last n xs) x ≡ last n (xs ++ x ∷ [])
  unfolding push last
  push-short n xs x h =
      ap (λ j. push n (drop j xs) x) (none_over (length xs) n (omega (arith, h)))
      ∙ ap (λ l. l ++ x ∷ []) (if_false (drop 1 xs) xs (==_false (length xs) n h))
      ∙ ap (λ j. drop j (xs ++ x ∷ []))
          (sym (none_over (length (xs ++ x ∷ [])) n (omega (arith, h, length-append xs (x ∷ [])))))

  push-last : (n : ℕ) (xs : List A) (x : A) → 0 < n → push n (last n xs) x ≡ last n (xs ++ x ∷ [])
  push-last n xs x h = elim (Bool-cases (leb n (length xs))) [
    | inl e ↦ push-full n xs x h (leb→le n (length xs) e)
    | inr e ↦ push-short n xs x (ground arith)
  ]

publish_all-from :
    (ms seen : List Message) → publish_all ms (last replay seen) ≡ last replay (seen ++ changes ms)
unfolding publish_all publish changes push
publish_all-from [] seen = ap (last replay) (sym (append-nil seen))
publish_all-from (m ∷ ms) seen = elim (Bool-cases (is_change m)) [
  | inl e ↦ rw e (
      ap (publish_all ms) (push-last replay seen m (omega arith))
      ∙ publish_all-from ms (seen ++ m ∷ [])
      ∙ ap (last replay) (append_assoc seen (m ∷ []) (changes ms)))
  | inr e ↦ rw e (publish_all-from ms seen)
]

length-last : {A : Type 0} (n : ℕ) (xs : List A) → length (last n xs) ≤ n
unfolding last
length-last n xs = omega (arith, length-drop (length xs - n) xs)

-- Whatever is published, the messages kept are the last 200 changes among them, in order, and
-- never more than 200.
pub publish_all-last :
    (ms : List Message)
    → (publish_all ms [] ≡ last replay (changes ms)) × (length (publish_all ms []) ≤ replay)
unfolding last
publish_all-last ms =
    let kept = publish_all-from ms [] in
    (kept, subst (λ l. length l ≤ replay) (sym kept) (length-last replay (changes ms)))
