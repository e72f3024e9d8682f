-- ===== src/Live/Index/Plain.antt =====
-- src/live.rs: the index of singly linked files after `set_plain` and `add_plain`.
use storage_harvester.Base.{
  ℕ, ◌≡◌, refl, sym, ap, subst, ◌∙◌, inl, inr, Bool, true, false, not, ◌&&◌, ◌||◌, ◌==◌, List, [],
  ◌∷◌, arith, Bool-cases, ==_iff, ==_self,
}
use storage_harvester.Base.Maps.{
  same_pair, member, sort_dedup, member-sort_dedup, lookup-remove_self, lookup-insert_self,
  lookup-remove_other, lookup-insert_other,
}
use storage_harvester.Live.{TreeState}
use storage_harvester.Live.Index.{
  same, keys_of, insert_pair, remove_pair, held, drop_gone, take_new, put_keys, set_plain,
}

unfoldable pub in_set : ℕ × ℕ → List (ℕ × ℕ) → Bool
in_set p [] = false
in_set p (q ∷ s) = same_pair q p || in_set p s

-- The set of pairs and the map by node say the same of every key and node.
pub record IsIndexed (s : TreeState) : Type 0 where
  pub agree :
      (key node : ℕ) → in_set (key, node) s.plain_live ≡ member key (held node s.plain_by_node)

in_set-insert_pair :
    (p q : ℕ × ℕ) (s : List (ℕ × ℕ)) → in_set p (insert_pair q s) ≡ (same_pair q p || in_set p s)
unfolding in_set insert_pair
in_set-insert_pair p q [] = ground arith
in_set-insert_pair p q (r ∷ s) = let rest = in_set-insert_pair p q s in ground arith

in_set-remove_pair :
    (p q : ℕ × ℕ) (s : List (ℕ × ℕ))
    → in_set p (remove_pair q s) ≡ (not (same_pair q p) && in_set p s)
unfolding in_set remove_pair
in_set-remove_pair p q [] = ground arith
in_set-remove_pair p q (r ∷ s) = let rest = in_set-remove_pair p q s in ground arith

in_set-drop_gone :
    (key node at : ℕ) (old keys : List ℕ) (s : List (ℕ × ℕ))
    → in_set (key, node) (drop_gone at old keys s)
      ≡ (in_set (key, node) s && not (at == node && member key old && not (member key keys)))
unfolding drop_gone member
in_set-drop_gone key node at [] keys s = ground arith
in_set-drop_gone key node at (gone ∷ old) keys s =
    let same_keys = λ (e : gone ≡ key). subst (λ k. member gone keys ≡ member k keys) e refl in
    elim (Bool-cases (member gone keys)) [
      | inl kept ↦ let rest = in_set-drop_gone key node at old keys s in ground (arith, same_keys)
      | inr away ↦
          let rest = in_set-drop_gone key node at old keys (remove_pair (gone, at) s) in
          let here = in_set-remove_pair (key, node) (gone, at) s in ground (arith, same_keys)
    ]

in_set-take_new :
    (key node at : ℕ) (keys old : List ℕ) (s : List (ℕ × ℕ))
    → in_set (key, node) (take_new at keys old s)
      ≡ (in_set (key, node) s || (at == node && member key keys && not (member key old)))
unfolding take_new member
in_set-take_new key node at [] old s = ground arith
in_set-take_new key node at (k ∷ keys) old s =
    let same_keys = λ (e : k ≡ key). subst (λ j. member k old ≡ member j old) e refl in
    elim (Bool-cases (member k old)) [
      | inl kept ↦ let rest = in_set-take_new key node at keys old s in ground (arith, same_keys)
      | inr new ↦
          let rest = in_set-take_new key node at keys old (insert_pair (k, at) s) in
          let here = in_set-insert_pair (key, node) (k, at) s in ground (arith, same_keys)
    ]

held_self :
    (node : ℕ) (keys : List ℕ) (m : List (ℕ × List ℕ)) → held node (put_keys node keys m) ≡ keys
unfolding held put_keys
held_self node [] m = ap keys_of (lookup-remove_self same node m)
held_self node (k ∷ keys) m = ap keys_of (lookup-insert_self same node (k ∷ keys) m (==_self node))

held_other :
    (at node : ℕ) (keys : List ℕ) (m : List (ℕ × List ℕ))
    → (at == node) ≡ false
    → held node (put_keys at keys m) ≡ held node m
unfolding held put_keys
held_other at node [] m h = ap keys_of (lookup-remove_other same ==_iff at node m h)
held_other at node (k ∷ keys) m h =
    ap keys_of (lookup-insert_other same ==_iff at node (k ∷ keys) m h)

settled :
    (was found here : Bool)
    → here ≡ true
    → (was && not (here && was && not found) || here && found && not was) ≡ found
settled was found here e = ground arith

kept :
    (other was found here : Bool)
    → here ≡ false
    → (other && not (here && was && not found) || here && found && not was) ≡ other
kept other was found here e = ground arith

abbrev replaced : ℕ → List ℕ → TreeState → List (ℕ × ℕ)
replaced at keys s =
    take_new at keys (held at s.plain_by_node)
      (drop_gone at (held at s.plain_by_node) keys s.plain_live)

in_set-replaced :
    (at node key : ℕ) (keys : List ℕ) (s : TreeState)
    → IsIndexed s
    → in_set (key, node) (replaced at keys s) ≡ (
        member key (held node s.plain_by_node)
          && not (at == node && member key (held at s.plain_by_node) && not (member key keys))
        || at == node && member key keys && not (member key (held at s.plain_by_node)))
in_set-replaced at node key keys s h =
    let old = held at s.plain_by_node in
    in_set-take_new key node at keys old (drop_gone at old keys s.plain_live)
    ∙ ap (λ b. b || at == node && member key keys && not (member key old))
        (in_set-drop_gone key node at old keys s.plain_live
          ∙ ap (λ b. b && not (at == node && member key old && not (member key keys)))
              (h.agree key node))

replaced-agree_self :
    (at key : ℕ) (keys : List ℕ) (s : TreeState)
    → IsIndexed s
    → in_set (key, at) (replaced at keys s)
      ≡ member key (held at (put_keys at keys s.plain_by_node))
replaced-agree_self at key keys s h =
    in_set-replaced at at key keys s h
    ∙ settled (member key (held at s.plain_by_node)) (member key keys) (at == at) (==_self at)
    ∙ sym (ap (member key) (held_self at keys s.plain_by_node))

replaced-agree_other :
    (at node key : ℕ) (keys : List ℕ) (s : TreeState)
    → IsIndexed s
    → (at == node) ≡ false
    → in_set (key, node) (replaced at keys s)
      ≡ member key (held node (put_keys at keys s.plain_by_node))
replaced-agree_other at node key keys s h e =
    in_set-replaced at node key keys s h
    ∙ kept (member key (held node s.plain_by_node)) (member key (held at s.plain_by_node))
        (member key keys) (at == node) e
    ∙ sym (ap (member key) (held_other at node keys s.plain_by_node e))

-- What a re-read of a directory found replaces what the index has for it: afterwards a key is held
-- under that directory exactly if it was found, every other directory holds what it held, and the
-- set of pairs still agrees with the map by node.
pub set_plain-IsIndexed :
    (at : ℕ) (found : List ℕ) (s : TreeState)
    → IsIndexed s
    → ((key : ℕ) → member key (held at (set_plain at found s).plain_by_node) ≡ member key found)
      × ((node : ℕ)
          → (at == node) ≡ false
          → held node (set_plain at found s).plain_by_node ≡ held node s.plain_by_node)
      × IsIndexed (set_plain at found s)
unfolding set_plain
set_plain-IsIndexed at found s h =
    let keys = sort_dedup found in
    (
      λ key. rw (held_self at keys s.plain_by_node) (member-sort_dedup key found),
      λ node e. held_other at node keys s.plain_by_node e,
      record {
        agree = λ key node. elim (Bool-cases (at == node)) [
          | inl e ↦
              subst
                (λ n.
                  in_set (key, n) (replaced at keys s)
                  ≡ member key (held n (put_keys at keys s.plain_by_node)))
                ((==_iff at node).0 e) (replaced-agree_self at key keys s h)
          | inr e ↦ replaced-agree_other at node key keys s h e
        ];
      },
    )
