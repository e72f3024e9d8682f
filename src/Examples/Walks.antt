-- ===== src/Examples/Walks.antt =====
-- src/scanner/native.rs at concrete inputs.
use storage_harvester.Base.{
  ◌≡◌, ◌↔◌, ap, sym, ◌∙◌, inl, inr, none, some, true, false, List, [], ◌∷◌, arith,
}
use storage_harvester.Base.Maps.{same_pair, lookup}
use storage_harvester.Tree.Dir.{Inode}
use storage_harvester.Walk.{Link}
use storage_harvester.Walk.Links.{keep_all, keep_all-order, Offered}

abbrev file : Inode
file = (1, 5)

abbrev high_link : Link
high_link = record { key = 9; node = 2; direct = true; blocks = 8; apparent = 5; entry = none }

abbrev low_link : Link
low_link = record { key = 4; node = 3; direct = false; blocks = 8; apparent = 5; entry = some 0 }

abbrev one_way : List (Inode × Link)
one_way = (file, high_link) ∷ (file, low_link) ∷ []

abbrev other_way : List (Inode × Link)
other_way = (file, low_link) ∷ (file, high_link) ∷ []

same_links : (l : Link) → Offered file l one_way ↔ Offered file l other_way
same_links l = (
  λ o. elim o [ inl h ↦ inr (inl h) | inr r ↦ elim r [ inl h ↦ inl h | inr z ↦ elim z [ ] ] ],
  λ o. elim o [ inl h ↦ inr (inl h) | inr r ↦ elim r [ inl h ↦ inl h | inr z ↦ elim z [ ] ] ],
)

keys_differ : {l m : Link} → high_link ≡ l → low_link ≡ m → l.key ≡ m.key → ⊥
keys_differ h k e = let a = ap (λ n. n.key) h in let b = ap (λ n. n.key) k in omega (arith, a, b, e)

own_keys : (l m : Link) → Offered file l one_way → Offered file m one_way → l.key ≡ m.key → l ≡ m
own_keys l m (inl (s, h)) (inl (t, k)) e = sym h ∙ k
own_keys l m (inl (s, h)) (inr (inl (t, k))) e = absurd (keys_differ h k e)
own_keys l m (inr (inl (s, h))) (inl (t, k)) e = absurd (keys_differ k h (sym e))
own_keys l m (inr (inl (s, h))) (inr (inl (t, k))) e = sym h ∙ k
own_keys l m (inr (inr z)) p e = elim z [ ]
own_keys l m (inl o) (inr (inr z)) e = elim z [ ]
own_keys l m (inr (inl o)) (inr (inr z)) e = elim z [ ]

keep_all-order_example :
    lookup same_pair file (keep_all one_way []) ≡ lookup same_pair file (keep_all other_way [])
keep_all-order_example = keep_all-order file one_way other_way same_links own_keys
