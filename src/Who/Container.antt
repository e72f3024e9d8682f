-- ===== src/Who/Container.antt =====
-- src/who.rs: `container`, `container_in` and `is_container_id`, and `comm`. The `str` methods of
-- the standard library that they call (`lines`, `splitn`, `split`, `strip_prefix`) stand first.
pub mod Laws
use mathlib.Core.List.{head?}
use storage_harvester.Base.{
  ℕ, zero, suc, ◌+◌, ◌≡◌, Bool, true, false, not, ◌&&◌, ◌||◌, Option, none, some, List, [], ◌∷◌,
  ◌++◌, map, if◌then◌else◌, ◌==◌, leb, length, take,
}
use storage_harvester.Base.Bytes.{Bytes, eqb}

-- `str::split` at the bytes that a test accepts: always at least one piece.
unfoldable pub split : (ℕ → Bool) → Bytes → List Bytes
split at [] = [] ∷ []
split at (b ∷ bs) = elim (split at bs) [
  | [] ↦ (b ∷ []) ∷ []
  | piece ∷ pieces ↦ if at b then [] ∷ piece ∷ pieces else (b ∷ piece) ∷ pieces
]

-- What stands behind the first byte `sep`, if there is one.
unfoldable pub after_byte : ℕ → Bytes → Option Bytes
after_byte sep [] = none
after_byte sep (b ∷ bs) = let rest = after_byte sep bs in if b == sep then some bs else rest

-- `text.strip_prefix(prefix)`.
unfoldable pub strip_prefix : Bytes → Bytes → Option Bytes
strip_prefix [] text = some text
strip_prefix (p ∷ ps) [] = none
strip_prefix (p ∷ ps) (b ∷ bs) = let rest = strip_prefix ps bs in if b == p then rest else none

-- `raw.strip_suffix(b"\n")`, or `raw`.
unfoldable pub without_newline : Bytes → Bytes
without_newline [] = []
without_newline (b ∷ []) = if b == 10 then [] else b ∷ []
without_newline (b ∷ c ∷ bs) = b ∷ without_newline (c ∷ bs)

abbrev pub is_nil : Bytes → Bool
is_nil [] = true
is_nil (b ∷ bs) = false

unfoldable pub comm : Bytes → Option Bytes
comm raw = let name = without_newline raw in if is_nil name then none else some name

unfoldable pub is_hex : ℕ → Bool
is_hex b = (leb 48 b && leb b 57) || (leb 97 b && leb b 102)

unfoldable pub all_hex : Bytes → Bool
all_hex [] = true
all_hex (b ∷ bs) = is_hex b && all_hex bs

unfoldable pub is_container_id : Bytes → Bool
is_container_id token = (length token == 64) && all_hex token

-- `-`, `.` and `_`.
abbrev pub is_joint : ℕ → Bool
is_joint b = b == 45 || b == 46 || b == 95

unfoldable pub find_id : List Bytes → Option Bytes
find_id [] = none
find_id (token ∷ tokens) =
    let rest = find_id tokens in if is_container_id token then some token else rest

-- "lxc.payload.", "lxc.payload" and "lxc".
abbrev pub payload_dot : Bytes
payload_dot = 108 ∷ 120 ∷ 99 ∷ 46 ∷ 112 ∷ 97 ∷ 121 ∷ 108 ∷ 111 ∷ 97 ∷ 100 ∷ 46 ∷ []

abbrev pub payload : Bytes
payload = 108 ∷ 120 ∷ 99 ∷ 46 ∷ 112 ∷ 97 ∷ 121 ∷ 108 ∷ 111 ∷ 97 ∷ 100 ∷ []

abbrev pub lxc : Bytes
lxc = 108 ∷ 120 ∷ 99 ∷ []

-- `format!("lxc/{name}")`.
abbrev pub guest_name : Bytes → Bytes
guest_name name = 108 ∷ 120 ∷ 99 ∷ 47 ∷ name

-- `(!name.is_empty()).then(|| format!("lxc/{name}"))`.
abbrev pub named_guest : Bytes → Option Bytes
named_guest name = if is_nil name then none else some (guest_name name)

-- The guest that a part names, alone or with the part that follows.
unfoldable pub guest_of : Bytes → List Bytes → Option Bytes
guest_of part parts = elim (strip_prefix payload_dot part) [
  | some name ↦ some name
  | none ↦ if eqb part lxc || eqb part payload then head? parts else none
]

-- The loop over the parts of a path that are not empty. A part that names no guest and holds no
-- container's identifier is passed over.
unfoldable pub container_parts : List Bytes → Option Bytes
container_parts [] = none
container_parts (part ∷ parts) =
    let rest = container_parts parts in
    elim (guest_of part parts) [
      | some name ↦ named_guest name
      | none ↦ elim (find_id (split is_joint part)) [ none ↦ rest | some id ↦ some (take 12 id) ]
    ]

-- `.filter(|part| !part.is_empty())`.
unfoldable pub keep_some : List Bytes → List Bytes
keep_some [] = []
keep_some (part ∷ parts) = if is_nil part then keep_some parts else part ∷ keep_some parts

abbrev pub is_slash : ℕ → Bool
is_slash b = b == 47

unfoldable pub container_in : Bytes → Option Bytes
container_in path = container_parts (keep_some (split is_slash path))

-- A carriage return before a line feed.
unfoldable pub without_return : Bytes → Bytes
without_return [] = []
without_return (b ∷ []) = if b == 13 then [] else b ∷ []
without_return (b ∷ c ∷ bs) = b ∷ without_return (c ∷ bs)

-- Every piece but the last was ended by a line feed; a last piece that is empty is no line.
unfoldable pub end_lines : List Bytes → List Bytes
end_lines [] = []
end_lines (l ∷ []) = if is_nil l then [] else l ∷ []
end_lines (l ∷ m ∷ ls) = without_return l ∷ end_lines (m ∷ ls)

-- `str::lines`: without the line ends, `\r\n` included.
unfoldable pub lines : Bytes → List Bytes
lines text = end_lines (split (λ b. b == 10) text)

-- `line.splitn(3, ':').nth(2)`, then the container in that path.
unfoldable pub line_container : Bytes → Option Bytes
line_container line = elim (after_byte 58 line) [
  | none ↦ none
  | some rest ↦ elim (after_byte 58 rest) [ none ↦ none | some path ↦ container_in path ]
]

-- `find_map` over the lines.
unfoldable pub find_line : List Bytes → Option Bytes
find_line [] = none
find_line (line ∷ ls) = elim (line_container line) [ some c ↦ some c | none ↦ find_line ls ]

unfoldable pub container : Bytes → Option Bytes
container cgroup = find_line (lines cgroup)
