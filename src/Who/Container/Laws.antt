-- ===== src/Who/Container/Laws.antt =====
-- src/who.rs: what a container's name looks like, and that the outermost guest is named.
use storage_harvester.Base.{
  ℕ, zero, suc, ◌≡◌, refl, ◌⊎◌, inl, inr, Bool, true, false, ◌||◌, Option, none, some, List, [],
  ◌∷◌, ◌++◌, arith, length, take, All, length-take, Option-cases, Bool-cases, ◌∙◌, ap,
}
use storage_harvester.Base.Bytes.{Bytes, eqb}
use storage_harvester.Who.Container.{
  split, is_slash, is_joint, is_nil, keep_some, strip_prefix, payload_dot, payload, lxc, guest_name,
  guest_of, find_id, is_container_id, all_hex, container_parts, container_in,
}

-- A part that names no guest and holds no container's identifier.
pub record IsPlain (part : Bytes) : Type 0 where
  pub some_text : is_nil part ≡ false
  pub one_part : All (λ b. is_slash b ≡ false) part
  pub no_guest : strip_prefix payload_dot part ≡ none
  pub not_lxc : (eqb part lxc || eqb part payload) ≡ false
  pub no_id : find_id (split is_joint part) ≡ none

-- A guest as `lxc/<name>`, or the first twelve hex digits of an identifier.
abbrev pub IsName : Bytes → Type 0
IsName c =
    ((name : Bytes) × (is_nil name ≡ false) × (c ≡ guest_name name))
    ⊎ ((length c ≡ 12) × (all_hex c ≡ true))

all_hex-take : (n : ℕ) (xs : Bytes) → all_hex xs ≡ true → all_hex (take n xs) ≡ true
unfolding all_hex
all_hex-take zero xs h = refl
all_hex-take (suc n) [] h = refl
all_hex-take (suc n) (x ∷ xs) h = ground (arith, all_hex-take n xs)

find_id-is_container_id :
    (tokens : List Bytes) (id : Bytes) → find_id tokens ≡ some id → is_container_id id ≡ true
unfolding find_id
find_id-is_container_id [] id e = cc
find_id-is_container_id (t ∷ ts) id e = ground (arith, find_id-is_container_id ts id)

id-IsName :
    (id : Bytes)
    → is_container_id id ≡ true
    → (length (take 12 id) ≡ 12) × (all_hex (take 12 id) ≡ true)
unfolding is_container_id
id-IsName id h = (length-take 12 id (ground arith), all_hex-take 12 id (ground arith))

-- Whatever the parts are, a container's name is `lxc/` and a name that is not empty, or twelve hex
-- digits.
pub container_parts-IsName :
    (parts : List Bytes) (c : Bytes) → container_parts parts ≡ some c → IsName c
unfolding container_parts
container_parts-IsName [] c e = cc
container_parts-IsName (part ∷ parts) c e = elim (Option-cases (guest_of part parts)) [
  | inl none_here ↦ elim (Option-cases (find_id (split is_joint part))) [
    | inl no_id ↦ container_parts-IsName parts c (ground arith)
    | inr (id, found) ↦ ground (arith, id-IsName id (find_id-is_container_id _ id found))
  ]
  | inr (name, guest) ↦ inl (name, ground arith, ground arith)
]

split-cons :
    (at : ℕ → Bool) (bs : Bytes)
    → (piece : Bytes) × (pieces : List Bytes) × (split at bs ≡ piece ∷ pieces)
unfolding split
split-cons at [] = ([], [], refl)
split-cons at (b ∷ bs) =
    let (piece, pieces, e) = split-cons at bs in
    elim (Bool-cases (at b)) [
      | inl cut ↦ ([], piece ∷ pieces, rw e (rw cut refl))
      | inr kept ↦ (b ∷ piece, pieces, rw e (rw kept refl))
    ]

split-slash :
    (part rest : Bytes)
    → All (λ b. is_slash b ≡ false) part
    → split is_slash (part ++ 47 ∷ rest) ≡ part ∷ split is_slash rest
unfolding split
split-slash [] rest h = let (piece, pieces, e) = split-cons is_slash rest in rw (e, split) refl
split-slash (b ∷ part) rest h = rw (split-slash part rest h.1, split) (rw h.0 refl)

-- `a/b/.../tail`.
abbrev pub path_of : List Bytes → Bytes → Bytes
path_of [] tail = tail
path_of (part ∷ parts) tail = part ++ 47 ∷ path_of parts tail

container_in-slash : (path : Bytes) → container_in (47 ∷ path) ≡ container_in path
unfolding container_in keep_some
container_in-slash path = rw (split-slash [] path tt, keep_some) refl

-- A plain part in front changes nothing.
container_in-plain :
    (part path : Bytes) → IsPlain part → container_in (part ++ 47 ∷ path) ≡ container_in path
unfolding container_in keep_some container_parts guest_of
container_in-plain part path h =
    rw (split-slash part path h.one_part, keep_some)
      (ground (arith, h.some_text, h.no_guest, h.not_lxc, h.no_id))

-- What follows a part: nothing, or a slash and the rest of the path.
abbrev pub ended : Option Bytes → Bytes
ended none = []
ended (some rest) = 47 ∷ rest

abbrev pieces : Option Bytes → List Bytes
pieces none = []
pieces (some rest) = split is_slash rest

split-ended :
    (part : Bytes) (rest : Option Bytes)
    → All (λ b. is_slash b ≡ false) part
    → split is_slash (part ++ ended rest) ≡ part ∷ pieces rest
unfolding split
split-ended part (some rest) h = split-slash part rest h
split-ended [] none h = refl
split-ended (b ∷ part) none h = rw (split-ended part none h.1, split) (rw h.0 refl)

-- The ways to write a guest.
pub data Form : Type 0 where
  dotted under_lxc under_payload : Form

-- `lxc.payload.<name>`, `lxc/<name>` or `lxc.payload/<name>`.
abbrev pub guest_path : Form → Bytes → Option Bytes → Bytes
guest_path dotted name rest = (payload_dot ++ name) ++ ended rest
guest_path under_lxc name rest = lxc ++ 47 ∷ (name ++ ended rest)
guest_path under_payload name rest = payload ++ 47 ∷ (name ++ ended rest)

module _ (name : Bytes) (some_name : is_nil name ≡ false) where
  payload_part :
      (parts : List Bytes)
      → container_parts (keep_some ((payload_dot ++ name) ∷ parts)) ≡ some (guest_name name)
  unfolding keep_some container_parts guest_of strip_prefix
  payload_part parts = rw some_name refl

  keep_two :
      (part : Bytes) (parts : List Bytes)
      → is_nil part ≡ false
      → keep_some (part ∷ name ∷ parts) ≡ part ∷ name ∷ keep_some parts
  unfolding keep_some
  keep_two part parts some_text = ground (arith, some_text, some_name)

  under_part :
      (part : Bytes) (parts : List Bytes)
      → is_nil part ≡ false
      → strip_prefix payload_dot part ≡ none
      → (eqb part lxc || eqb part payload) ≡ true
      → container_parts (keep_some (part ∷ name ∷ parts)) ≡ some (guest_name name)
  unfolding container_parts guest_of
  under_part part parts some_text dotless under =
      rw (keep_two part parts some_text) (ground (arith, dotless, under, some_name))

  under_guest :
      (part : Bytes) (rest : Option Bytes)
      → is_nil part ≡ false
      → strip_prefix payload_dot part ≡ none
      → (eqb part lxc || eqb part payload) ≡ true
      → All (λ b. is_slash b ≡ false) part
      → All (λ b. is_slash b ≡ false) name
      → container_in (part ++ 47 ∷ (name ++ ended rest)) ≡ some (guest_name name)
  unfolding container_in
  under_guest part rest some_text dotless under whole h =
      ap (λ ps. container_parts (keep_some ps))
        (split-slash part (name ++ ended rest) whole
          ∙ ap (λ ps. part ∷ ps) (split-ended name rest h))
      ∙ under_part part (pieces rest) some_text dotless under

  container_in-guest_path :
      (form : Form) (rest : Option Bytes)
      → All (λ b. is_slash b ≡ false) name
      → container_in (guest_path form name rest) ≡ some (guest_name name)
  unfolding container_in strip_prefix eqb
  container_in-guest_path dotted rest h =
      ap (λ ps. container_parts (keep_some ps))
        (split-ended (payload_dot ++ name) rest (
          refl,
          (refl, (refl, (refl, (refl, (refl, (refl, (refl, (refl, (refl, (refl, (refl, h))))))))))),
        ))
      ∙ payload_part (pieces rest)
  container_in-guest_path under_lxc rest h =
      under_guest lxc rest refl refl refl (refl, (refl, (refl, tt))) h
  container_in-guest_path under_payload rest h =
      under_guest payload rest refl refl refl (ground arith) h

-- Behind any parts that are plain, the first guest of a path, written `lxc.payload.<name>`,
-- `lxc/<name>` or `lxc.payload/<name>`, its name not empty and without a slash, is the one that is
-- named, whether the path ends there or goes on.
pub container_in-guest :
    (before : List Bytes) (form : Form) (name : Bytes) (rest : Option Bytes)
    → All IsPlain before
    → is_nil name ≡ false
    → All (λ b. is_slash b ≡ false) name
    → container_in (47 ∷ path_of before (guest_path form name rest)) ≡ some (guest_name name)
container_in-guest before form name rest plain some_name h = container_in-slash _ ∙ go before plain
  where
    go :
        (parts : List Bytes)
        → All IsPlain parts
        → container_in (path_of parts (guest_path form name rest)) ≡ some (guest_name name)
    go [] p = container_in-guest_path name some_name form rest h
    go (part ∷ parts) p = container_in-plain part _ p.0 ∙ go parts p.1
