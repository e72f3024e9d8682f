-- ===== src/Who/Resolver.antt =====
-- src/who.rs: `Resolver::lookup`. Times are nanoseconds of one clock. A lookup that threads share
-- is its number; the bounded channel to the lookup thread is the list of what waits in it, and the
-- hash map of recent lookups an association list.
pub mod Again
use storage_harvester.Base.{
  ℕ, suc, ◌-◌, ◌≤◌, ◌<◌, ◌≡◌, refl, ◌≢◌, Bool, ◌||◌, ◌==◌, ltb, leb, Option, none, some, List, [],
  ◌∷◌, ◌++◌, if◌then◌else◌, length, arith,
}
use storage_harvester.Base.Int.{ℤ, pos, negsuc}

-- `TTL`, `CACHED` and `QUEUED`.
abbrev pub ttl : ℕ
ttl = 2000000000

abbrev pub cached : ℕ
cached = 256

abbrev pub queued : ℕ
queued = 64

pub record Entry : Type 0 where
  pub pid : ℕ
  pub at : ℕ
  pub lookup : ℕ

pub record Resolver : Type 0 where
  pub own : ℕ
  pub cache : List Entry
  pub queue : Option (List (ℕ × ℕ))
  pub next_lookup : ℕ

abbrev pub is_recent : ℕ → Entry → Bool
is_recent now e = ltb (now - e.at) ttl

unfoldable pub get : ℕ → List Entry → Option Entry
get pid [] = none
get pid (e ∷ es) = let rest = get pid es in if e.pid == pid then some e else rest

-- `cache.retain(...)`.
unfoldable pub retain_recent : ℕ → List Entry → List Entry
retain_recent now [] = []
retain_recent now (e ∷ es) =
    let rest = retain_recent now es in if is_recent now e then e ∷ rest else rest

-- `cache.insert(...)`: an entry of the same process is replaced.
unfoldable pub put : Entry → List Entry → List Entry
put e [] = e ∷ []
put e (f ∷ fs) = let rest = put e fs in if f.pid == e.pid then e ∷ fs else f ∷ rest

-- Room for one more entry: the stale ones go, or all of them.
unfoldable pub make_room : ℕ → List Entry → List Entry
make_room now cache =
    if leb cached (length cache)
    then (let kept = retain_recent now cache in if leb cached (length kept) then [] else kept)
    else cache

-- `try_send` on the bounded channel.
unfoldable pub try_send : ℕ × ℕ → Option (List (ℕ × ℕ)) → Option (List (ℕ × ℕ))
try_send job none = none
try_send job (some waiting) =
    if ltb (length waiting) queued then some (waiting ++ job ∷ []) else none

-- A process that no recent lookup names.
unfoldable pub start_lookup : Resolver → ℕ → ℕ → Resolver × Option ℕ
start_lookup r now pid = elim (try_send (pid, r.next_lookup) r.queue) [
  | none ↦ (record r { next_lookup = suc r.next_lookup }, none)
  | some waiting ↦ (
    record r {
      cache = put (record { pid = pid; at = now; lookup = r.next_lookup }) (make_room now r.cache);
      queue = some waiting;
      next_lookup = suc r.next_lookup;
    },
    some r.next_lookup,
  )
]

unfoldable pub lookup_pid : Resolver → ℕ → ℕ → Resolver × Option ℕ
lookup_pid r now pid = elim (get pid r.cache) [
  | none ↦ start_lookup r now pid
  | some e ↦ if is_recent now e then (r, some e.lookup) else start_lookup r now pid
]

-- A negative `i32` is no process.
unfoldable pub lookup : Resolver → ℕ → ℤ → Resolver × Option ℕ
lookup r now (negsuc n) = (r, none)
lookup r now (pos pid) = if pid == 0 || pid == r.own then (r, none) else lookup_pid r now pid

length-retain_recent-le : (now : ℕ) (es : List Entry) → length (retain_recent now es) ≤ length es
unfolding retain_recent
length-retain_recent-le now [] = omega arith
length-retain_recent-le now (e ∷ es) = ground (arith, length-retain_recent-le now es)

length-put-le : (e : Entry) (es : List Entry) → length (put e es) ≤ suc (length es)
unfolding put
length-put-le e [] = omega arith
length-put-le e (f ∷ fs) = ground (arith, length-put-le e fs)

length-make_room-lt :
    (now : ℕ) (es : List Entry) → length es ≤ cached → length (make_room now es) < cached
unfolding make_room
length-make_room-lt now es h = ground arith

pub get-put :
    (pid : ℕ) (e : Entry) (es : List Entry)
    → get pid (put e es) ≡ (if e.pid == pid then some e else get pid es)
unfolding get put
get-put pid e [] = refl
get-put pid e (f ∷ fs) = ground (arith, get-put pid e fs)

-- A cache that is within its bound is within it after any call.
pub lookup-bounded :
    (r : Resolver) (now : ℕ) (pid : ℤ)
    → length r.cache ≤ cached
    → length (lookup r now pid).0.cache ≤ cached
unfolding lookup lookup_pid start_lookup
lookup-bounded r now (negsuc n) h = h
lookup-bounded r now (pos pid) h = ground (
  arith,
  length-put-le (record { pid = pid; at = now; lookup = r.next_lookup }) (make_room now r.cache),
  length-make_room-lt now r.cache,
)
