-- ===== src/Live/Swap/Replayed.antt =====
-- src/live.rs: what was signalled while a scan ran is re-read in the scan's tree.
use storage_harvester.Base.{
  ℕ, ◌≡◌, ◌↔◌, refl, sym, subst, ap, ◌∙◌, inl, inr, Bool, true, false, ◌||◌, ◌==◌, Option, none,
  some, List, [], ◌∷◌, ◌++◌, arith, Bool-cases, ==_iff, none≢some,
}
use storage_harvester.Base.Bytes.{eqb_iff}
use storage_harvester.Base.Maps.{
  same_pair, same_pair_iff, lookup, insert, lookup-insert_self, lookup-insert_other,
}
use storage_harvester.Base.Result.{ok, >>=-eq-ok}
use storage_harvester.Live.{StableKey, handle, ino, same_key, TreeState, Pending, Queue}
use storage_harvester.Live.Index.{resolve}
use storage_harvester.Live.Pace.{enqueue, renew, pending_or_default}
use storage_harvester.Live.Pace.Taken.{renew-IsQueued}
use storage_harvester.Live.Swap.{Keys, note_held, keep_found, resolve_all, enqueue_all}

same_key_iff : (a b : StableKey) → (same_key a b ≡ true) ↔ (a ≡ b)
same_key_iff (handle a) (handle b) = (λ e. ap handle ((eqb_iff a b).0 e), λ e. (eqb_iff a b).1 (cc))
same_key_iff (handle a) (ino b) = (λ e. cc, λ e. cc)
same_key_iff (ino a) (handle b) = (λ e. cc, λ e. cc)
same_key_iff (ino a) (ino b) = (λ e. ap ino ((==_iff a b).0 e), λ e. (==_iff a b).1 (cc))

abbrev pub IsNoted : StableKey → Keys → Type 0
IsNoted key m = (who : Option ℕ) × (lookup same_key key m ≡ some who)

IsNoted-insert :
    (k key : StableKey) (who : Option ℕ) (m : Keys)
    → IsNoted k m
    → IsNoted k (insert same_key key who m)
IsNoted-insert k key who m (w, h) = elim (Bool-cases (same_key key k)) [
  | inl e ↦ (
    who,
    subst (λ j. lookup same_key j (insert same_key key who m) ≡ some who) ((same_key_iff key k).0 e)
        (lookup-insert_self same_key key who m ((same_key_iff key key).1 refl)),
  )
  | inr e ↦ (w, lookup-insert_other same_key same_key_iff key k who m e ∙ h)
]

pub note_held_self :
    (key : StableKey) (who : Option ℕ) (m : Keys) (o : Option (Option ℕ))
    → lookup same_key key m ≡ o
    → IsNoted key (note_held key who m o)
note_held_self key who m none e =
    (who, lookup-insert_self same_key key who m ((same_key_iff key key).1 refl))
note_held_self key (some pid) m (some old) e =
    (some pid, lookup-insert_self same_key key (some pid) m ((same_key_iff key key).1 refl))
note_held_self key none m (some old) e = (old, e)

pub note_held-other :
    (k key : StableKey) (who : Option ℕ) (m : Keys) (o : Option (Option ℕ))
    → IsNoted k m
    → IsNoted k (note_held key who m o)
note_held-other k key who m none h = IsNoted-insert k key who m h
note_held-other k key (some pid) m (some old) h = IsNoted-insert k key (some pid) m h
note_held-other k key none m (some old) h = h

-- A directory waits, for the tree of a generation.
abbrev pub IsPending : ℕ × ℕ → ℕ → Queue → Type 0
IsPending key generation q =
    (p : Pending) × (lookup same_pair key q.pending ≡ some p) × (p.generation ≡ generation)

enqueue_self :
    (now : ℕ) (key : ℕ × ℕ) (generation : ℕ) (who : Option ℕ) (q : Queue)
    → IsPending key generation (enqueue now key generation who q)
unfolding enqueue
enqueue_self now key generation who q =
    let before = lookup same_pair key q.pending in
    (
      renew generation who (pending_or_default before),
      lookup-insert_self same_pair key (renew generation who (pending_or_default before)) q.pending
          ((same_pair_iff key key).1 refl),
      (renew-IsQueued generation who before).generation,
    )

enqueue-IsPending :
    (now : ℕ) (k key : ℕ × ℕ) (generation : ℕ) (who : Option ℕ) (q : Queue)
    → IsPending k generation q
    → IsPending k generation (enqueue now key generation who q)
unfolding enqueue
enqueue-IsPending now k key generation who q (p, h, g) = elim (Bool-cases (same_pair key k)) [
  | inl e ↦
      subst (λ j. IsPending j generation (enqueue now key generation who q))
        ((same_pair_iff key k).0 e) (enqueue_self now key generation who q)
  | inr e ↦ (
    p,
    lookup-insert_other same_pair same_pair_iff key k
          (renew generation who (pending_or_default (lookup same_pair key q.pending))) q.pending e
        ∙ h,
    g,
  )
]

unfoldable pub names : ℕ → List (ℕ × Option ℕ) → Bool
names node [] = false
names node ((n, who) ∷ nodes) = n == node || names node nodes

module _ (now index generation : ℕ) where
  enqueue_all-keeps :
      (k : ℕ × ℕ) (nodes : List (ℕ × Option ℕ)) (q : Queue)
      → IsPending k generation q
      → IsPending k generation (enqueue_all now index generation nodes q)
  unfolding enqueue_all
  enqueue_all-keeps k [] q h = h
  enqueue_all-keeps k ((node, who) ∷ nodes) q h =
      enqueue_all-keeps k nodes (enqueue now (index, node) generation who q)
        (enqueue-IsPending now k (index, node) generation who q h)

  pub enqueue_all-queues :
      (node : ℕ) (nodes : List (ℕ × Option ℕ)) (q : Queue)
      → names node nodes ≡ true
      → IsPending (index, node) generation (enqueue_all now index generation nodes q)
  unfolding enqueue_all names
  enqueue_all-queues node [] q h = cc
  enqueue_all-queues node ((n, who) ∷ nodes) q h = elim (Bool-cases (n == node)) [
    | inl e ↦
        enqueue_all-keeps (index, node) nodes (enqueue now (index, n) generation who q)
          (subst (λ j. IsPending (index, j) generation (enqueue now (index, n) generation who q))
            ((==_iff n node).0 e) (enqueue_self now (index, n) generation who q))
    | inr e ↦ enqueue_all-queues node nodes (enqueue now (index, n) generation who q) (ground arith)
  ]

pub names-append :
    (node : ℕ) (xs ys : List (ℕ × Option ℕ)) → names node xs ≡ true → names node (xs ++ ys) ≡ true
unfolding names
names-append node [] ys h = cc
names-append node ((n, who) ∷ xs) ys h = ground (arith, names-append node xs ys)

nothing_noted : (key : StableKey) → IsNoted key [] → ⊥
unfolding lookup
nothing_noted key (w, h) = none≢some h

pub ok_inj : {A : Type 0} {a b : A} → ok a ≡ ok b → a ≡ b
ok_inj e = cc

names-keep_found :
    (node : ℕ) (o : Option ℕ) (who : Option ℕ) (rest : List (ℕ × Option ℕ))
    → names node rest ≡ true
    → names node (keep_found o who rest) ≡ true
unfolding names
names-keep_found node none who rest h = h
names-keep_found node (some n) who rest h = ground arith

names-head :
    (node : ℕ) (who : Option ℕ) (rest : List (ℕ × Option ℕ))
    → names node ((node, who) ∷ rest) ≡ true
unfolding names
names-head node who rest = ground arith

lookup-later :
    (k key : StableKey) (who : Option ℕ) (m : Keys)
    → same_key k key ≡ false
    → lookup same_key key ((k, who) ∷ m) ≡ lookup same_key key m
unfolding lookup
lookup-later k key who m e = rw e refl

lookup-tail :
    (k key : StableKey) (who : Option ℕ) (m : Keys)
    → same_key k key ≡ false
    → IsNoted key ((k, who) ∷ m)
    → IsNoted key m
lookup-tail k key who m e (w, h) = (w, sym (lookup-later k key who m e) ∙ h)

pub resolve_all-names :
    (state : TreeState) (keys : Keys) (key : StableKey) (node : ℕ) {nodes : List (ℕ × Option ℕ)}
    → IsNoted key keys
    → resolve state key ≡ ok (some node)
    → resolve_all state keys ≡ ok nodes
    → names node nodes ≡ true
unfolding resolve_all
resolve_all-names state [] key node h r e = absurd (nothing_noted key h)
resolve_all-names state ((k, who) ∷ keys) key node h r e =
    let (found, ef, e1) = >>=-eq-ok (resolve state k) _ e in
    let (rest, er, e2) = >>=-eq-ok (resolve_all state keys) _ e1 in
    subst (λ l. names node l ≡ true) (ok_inj e2)
      (elim (Bool-cases (same_key k key)) [
        | inl s ↦
            subst (λ o. names node (keep_found o who rest) ≡ true)
              (ok_inj (sym r ∙ ap (resolve state) (sym ((same_key_iff k key).0 s)) ∙ ef))
              (names-head node who rest)
        | inr s ↦
            names-keep_found node found who rest
              (resolve_all-names state keys key node (lookup-tail k key who keys s h) r er)
      ])
