-- ===== src/Tree/Detach/Marks.antt =====
-- src/tree.rs: the loop of `detach` over its stack marks what is below the nodes on the stack, and
-- nothing else.
use storage_harvester.Base.{
  ℕ, zero, suc, ◌+◌, ◌≤◌, ◌<◌, ◌≡◌, ◌⊎◌, inl, inr, refl, ap, sym, ◌∙◌, subst, some, List, [], ◌∷◌,
  arith, All, set, length, length-set, get_elem?, get_elem?-some, get_elem?_lt, get_elem?-set_self,
  get_elem?-set_ne, some_inj, ℕ_discrete,
}
use storage_harvester.Base.Result.{ok}
use storage_harvester.Tree.Dir.{DirNode}
use storage_harvester.Tree.Dir.Reads.{kids_of, kids_at, read-same}
use storage_harvester.Tree.Diff.Steps.{sizes}
use storage_harvester.Tree.Detach.{push_all, dead, mark}

-- `Covered kids stack j`: `j` is on the stack, or below a node that is.
pub data Covered (kids : ℕ → List ℕ) : List ℕ → ℕ → Type 0 where
  self : {i : ℕ} {stack : List ℕ} → Covered kids (i ∷ stack) i
  below : {i j : ℕ} {stack : List ℕ} → Covered kids (kids i) j → Covered kids (i ∷ stack) j
  later : {i j : ℕ} {stack : List ℕ} → Covered kids stack j → Covered kids (i ∷ stack) j

Covered-push_later :
    {kids : ℕ → List ℕ} (ks : List ℕ) {stack : List ℕ} {j : ℕ}
    → Covered kids stack j
    → Covered kids (push_all ks stack) j
Covered-push_later [] h = h
Covered-push_later (k ∷ ks) h = Covered-push_later ks (later h)

Covered-push_here :
    {kids : ℕ → List ℕ} (ks stack : List ℕ) {j : ℕ}
    → Covered kids ks j
    → Covered kids (push_all ks stack) j
Covered-push_here [] stack h = elim h [ ]
Covered-push_here (k ∷ ks) stack self = Covered-push_later ks self
Covered-push_here (k ∷ ks) stack (below h) = Covered-push_later ks (below h)
Covered-push_here (k ∷ ks) stack (later h) = Covered-push_here ks (k ∷ stack) h

split_first :
    {kids : ℕ → List ℕ} (k : ℕ) (ks stack : List ℕ) {j : ℕ}
    → Covered kids (k ∷ stack) j
    → Covered kids (k ∷ ks) j ⊎ Covered kids stack j
split_first k ks stack self = inl self
split_first k ks stack (below c) = inl (below c)
split_first k ks stack (later c) = inr c

Covered-pushed :
    {kids : ℕ → List ℕ} (ks stack : List ℕ) {j : ℕ}
    → Covered kids (push_all ks stack) j
    → Covered kids ks j ⊎ Covered kids stack j
Covered-pushed [] stack h = inr h
Covered-pushed (k ∷ ks) stack h = elim (Covered-pushed ks (k ∷ stack) h) [
  | inl c ↦ inl (later c)
  | inr c ↦ split_first k ks stack c
]

sizes-push :
    (size : ℕ → ℕ) (ks stack : List ℕ)
    → sizes size (push_all ks stack) ≡ sizes size ks + sizes size stack
sizes-push size [] stack = omega arith
sizes-push size (k ∷ ks) stack = omega (arith, sizes-push size ks (k ∷ stack))

All-push : (P : ℕ → Type 0) (ks stack : List ℕ) → All P ks → All P stack → All P (push_all ks stack)
All-push P [] stack h k = k
All-push P (x ∷ xs) stack h k = All-push P xs (x ∷ stack) h.1 (h.0, k)

kids_at-dead :
    (nodes : List DirNode) (i : ℕ) (n : DirNode)
    → get_elem? nodes i ≡ some n
    → kids_at (set nodes i (dead n)) ≡ kids_at nodes
kids_at-dead nodes i n e = read-same kids_of nodes i n (dead n) e refl

-- What a run of the loop leaves of the nodes.
pub record IsMarked (kids : ℕ → List ℕ) (nodes : List DirNode) (stack : List ℕ)
    (after : List DirNode) : Type 0 where
  pub same_length : length after ≡ length nodes
  pub same_kids : kids_at after ≡ kids
  pub each :
      (j : ℕ) (n : DirNode)
      → get_elem? nodes j ≡ some n
      → (get_elem? after j ≡ some n) ⊎ ((get_elem? after j ≡ some (dead n)) × Covered kids stack j)
  pub all :
      (j : ℕ) (n : DirNode)
      → get_elem? nodes j ≡ some n
      → Covered kids stack j
      → get_elem? after j ≡ some (dead n)

own_kids_of :
    (kids : ℕ → List ℕ) (nodes : List DirNode) (i : ℕ) (n : DirNode)
    → get_elem? nodes i ≡ some n
    → kids_at nodes ≡ kids
    → kids i ≡ n.children
own_kids_of kids nodes i n e same = sym (ap (λ ks. ks i) same) ∙ ap kids_of e

no_Covered : {kids : ℕ → List ℕ} {j : ℕ} → ¬ Covered kids [] j
no_Covered h = elim h [ ]

IsMarked-done :
    (kids : ℕ → List ℕ) (nodes : List DirNode) → kids_at nodes ≡ kids → IsMarked kids nodes [] nodes
IsMarked-done kids nodes same = record {
  same_length = refl;
  same_kids = same;
  each = λ j n e. inl e;
  all = λ j n e c. absurd (no_Covered c);
}

Covered-cases :
    {kids : ℕ → List ℕ} {i : ℕ} {stack : List ℕ} {j : ℕ}
    → Covered kids (i ∷ stack) j
    → (i ≡ j) ⊎ (Covered kids (kids i) j ⊎ Covered kids stack j)
Covered-cases self = inl refl
Covered-cases (below c) = inr (inl c)
Covered-cases (later c) = inr (inr c)

-- One round: the node is marked, and its children are put on the stack.
module _ (kids : ℕ → List ℕ) (nodes : List DirNode) (i : ℕ) (stack : List ℕ) (n : DirNode)
    (e : get_elem? nodes i ≡ some n) (same : kids_at nodes ≡ kids) (after : List DirNode)
    (r : IsMarked kids (set nodes i (dead n)) (push_all n.children stack) after) where
  own_kids : kids i ≡ n.children
  own_kids = own_kids_of kids nodes i n e same

  pushed-Covered : {j : ℕ} → Covered kids (push_all n.children stack) j → Covered kids (i ∷ stack) j
  pushed-Covered {j = j} c = elim (Covered-pushed n.children stack c) [
    | inl b ↦ below (subst (λ ks. Covered kids ks j) (sym own_kids) b)
    | inr l ↦ later l
  ]

  self_dead : get_elem? (set nodes i (dead n)) i ≡ some (dead n)
  self_dead = get_elem?-set_self nodes i (dead n) (get_elem?_lt nodes i e)

  self_after : get_elem? after i ≡ some (dead n)
  self_after = elim (r.each i (dead n) self_dead) [ inl h ↦ h | inr h ↦ h.0 ]

  at_self :
      {j : ℕ} {m : DirNode} → i ≡ j → get_elem? nodes j ≡ some m → get_elem? after j ≡ some (dead m)
  at_self {j = j} same_index f =
      subst (λ k. get_elem? after k ≡ some (dead n)) same_index self_after
      ∙ ap (λ m. some (dead m))
          (some_inj (sym (subst (λ k. get_elem? nodes k ≡ some n) same_index e) ∙ f))

  each_round :
      (j : ℕ) (m : DirNode)
      → get_elem? nodes j ≡ some m
      → (get_elem? after j ≡ some m)
        ⊎ ((get_elem? after j ≡ some (dead m)) × Covered kids (i ∷ stack) j)
  each_round j m f = elim (ℕ_discrete i j) [
    | yes here ↦ inr (at_self here f, subst (Covered kids (i ∷ stack)) here self)
    | no other ↦ elim (r.each j m (get_elem?-set_ne nodes (dead n) other ∙ f)) [
      | inl h ↦ inl h
      | inr h ↦ inr (h.0, pushed-Covered h.1)
    ]
  ]

  all_round :
      (j : ℕ) (m : DirNode)
      → get_elem? nodes j ≡ some m
      → Covered kids (push_all n.children stack) j
      → get_elem? after j ≡ some (dead m)
  all_round j m f c = elim (ℕ_discrete i j) [
    | yes here ↦ at_self here f
    | no other ↦ r.all j m (get_elem?-set_ne nodes (dead n) other ∙ f) c
  ]

  all_covered :
      (j : ℕ) (m : DirNode)
      → get_elem? nodes j ≡ some m
      → Covered kids (i ∷ stack) j
      → get_elem? after j ≡ some (dead m)
  all_covered j m f c = elim (Covered-cases c) [
    | inl here ↦ at_self here f
    | inr (inl b) ↦
        all_round j m f
          (Covered-push_here n.children stack (subst (λ ks. Covered kids ks j) own_kids b))
    | inr (inr l) ↦ all_round j m f (Covered-push_later n.children l)
  ]

  IsMarked-round : IsMarked kids nodes (i ∷ stack) after
  IsMarked-round = record {
    same_length = r.same_length ∙ length-set nodes i (dead n);
    same_kids = r.same_kids;
    each = each_round;
    all = all_covered;
  }

-- With each node's size above what its children's sizes add up to, fuel for the sizes on the stack
-- is enough.
pub mark-IsMarked :
    (kids : ℕ → List ℕ) (size : ℕ → ℕ) (fuel : ℕ) (nodes : List DirNode) (stack : List ℕ)
    → kids_at nodes ≡ kids
    → ((j : ℕ) → j < length nodes → All (λ k. k < length nodes) (kids j))
    → ((j : ℕ) → j < length nodes → sizes size (kids j) < size j)
    → All (λ k. k < length nodes) stack
    → sizes size stack ≤ fuel
    → (after : List DirNode) × (mark fuel nodes stack ≡ ok after) × IsMarked kids nodes stack after
unfolding mark
mark-IsMarked kids size zero nodes [] same range sized on_stack h =
    (nodes, refl, IsMarked-done kids nodes same)
mark-IsMarked kids size (suc fuel) nodes [] same range sized on_stack h =
    (nodes, refl, IsMarked-done kids nodes same)
mark-IsMarked kids size zero nodes (i ∷ stack) same range sized on_stack h =
    absurd (omega (arith, h, sized i on_stack.0))
mark-IsMarked kids size (suc fuel) nodes (i ∷ stack) same range sized on_stack h =
    let (n, e) = get_elem?-some nodes i on_stack.0 in
    let own = own_kids_of kids nodes i n e same in
    let long = length-set nodes i (dead n) in
    let (after, runs, r) =
      mark-IsMarked kids size fuel (set nodes i (dead n)) (push_all n.children stack)
        (kids_at-dead nodes i n e ∙ same)
        (subst (λ l. (j : ℕ) → j < l → All (λ k. k < l) (kids j)) (sym long) range)
        (subst (λ l. (j : ℕ) → j < l → sizes size (kids j) < size j) (sym long) sized)
        (subst (λ l. All (λ k. k < l) (push_all n.children stack)) (sym long)
          (All-push (λ k. k < length nodes) n.children stack
            (subst (All (λ k. k < length nodes)) own (range i on_stack.0)) on_stack.1))
        (omega
          (arith, h, sizes-push size n.children stack, sized i on_stack.0, ap (sizes size) own)) in
    (after, rw e runs, IsMarked-round kids nodes i stack n e same after r)
