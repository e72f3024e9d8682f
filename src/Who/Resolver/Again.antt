-- ===== src/Who/Resolver/Again.antt =====
-- src/who.rs: `Resolver::lookup` called again and again.
use storage_harvester.Base.{
  ℕ, suc, ◌+◌, ◌-◌, ◌≤◌, ◌<◌, ◌≡◌, refl, ◌≢◌, true, false, some, List, [], ◌∷◌, if◌then◌else◌,
  length, arith, All, Option-cases, ◌∙◌, inl, inr,
}
use storage_harvester.Base.Int.{ℤ, pos, negsuc}
use storage_harvester.Who.Resolver.{
  Resolver, Entry, cached, ttl, get, put, make_room, retain_recent, is_recent, start_lookup,
  lookup_pid, lookup, get-put,
}

-- Calls one after another: when each was made, and for which process.
unfoldable pub play : Resolver → List (ℕ × ℤ) → Resolver
play r [] = r
play r ((now, pid) ∷ calls) = play (lookup r now pid).0 calls

-- How many entries of a cache are recent at a time.
abbrev pub count_recent : ℕ → List Entry → ℕ
count_recent now [] = 0
count_recent now (e ∷ es) =
    if is_recent now e then suc (count_recent now es) else count_recent now es

count_recent-put :
    (now : ℕ) (e : Entry) (es : List Entry)
    → count_recent now (put e es) ≤ suc (count_recent now es)
unfolding put
count_recent-put now e [] = ground arith
count_recent-put now e (f ∷ fs) = ground (arith, count_recent-put now e fs)

-- What is recent later is recent now.
count_recent-retain :
    (now later : ℕ) (es : List Entry)
    → now ≤ later
    → (length (retain_recent later es) ≤ count_recent now es)
      × (count_recent now (retain_recent later es) ≤ count_recent now es)
unfolding retain_recent
count_recent-retain now later [] h = (omega arith, omega arith)
count_recent-retain now later (e ∷ es) h =
    let (long, few) = count_recent-retain now later es h in (ground arith, ground arith)

get-retain :
    (pid now : ℕ) (e : Entry) (es : List Entry)
    → get pid es ≡ some e
    → is_recent now e ≡ true
    → get pid (retain_recent now es) ≡ some e
unfolding get retain_recent
get-retain pid now e [] h recent = h
get-retain pid now e (f ∷ fs) h recent = ground (arith, get-retain pid now e fs)

-- While fewer than `cached` entries are recent, what is recent stays when room is made.
get-make_room :
    (pid now later : ℕ) (e : Entry) (es : List Entry)
    → now ≤ later
    → count_recent now es < cached
    → get pid es ≡ some e
    → is_recent later e ≡ true
    → (get pid (make_room later es) ≡ some e)
      × (count_recent now (make_room later es) ≤ count_recent now es)
unfolding make_room
get-make_room pid now later e es le few held recent =
    let kept = get-retain pid later e es held recent in
    let (long, fewer) = count_recent-retain now later es le in (ground arith, ground arith)

-- Any other call leaves the entry of a process where it is.
lookup-keeps :
    (pid now later : ℕ) (other : ℤ) (e : Entry) (r : Resolver)
    → now ≤ later
    → count_recent now r.cache < cached
    → get pid r.cache ≡ some e
    → is_recent later e ≡ true
    → let after = (lookup r later other).0 in
      (get pid after.cache ≡ some e)
      × (count_recent now after.cache ≤ suc (count_recent now r.cache))
      × (after.own ≡ r.own)
unfolding lookup lookup_pid start_lookup
lookup-keeps pid now later (negsuc n) e r le few held recent = (held, omega arith, refl)
lookup-keeps pid now later (pos other) e r le few held recent =
    let new : Entry = record { pid = other; at = later; lookup = r.next_lookup } in
    let (stays, fewer) = get-make_room pid now later e r.cache le few held recent in
    let put_in = get-put pid new (make_room later r.cache) in
    let count = count_recent-put now new (make_room later r.cache) in
    (ground arith, ground arith, ground arith)

-- Made while what was looked up at `now` is fresh.
abbrev pub Soon : ℕ → ℕ × ℤ → Type 0
Soon now (later, pid) = (now ≤ later) × (later - now < ttl)

play-keeps :
    (pid now : ℕ) (e : Entry) (r : Resolver) (calls : List (ℕ × ℤ))
    → All (Soon now) calls
    → e.at ≡ now
    → count_recent now r.cache + length calls ≤ cached
    → get pid r.cache ≡ some e
    → (get pid (play r calls).cache ≡ some e) × ((play r calls).own ≡ r.own)
unfolding play
play-keeps pid now e r [] soon at few held = (held, refl)
play-keeps pid now e r ((later, other) ∷ calls) soon at few held =
    let (stays, fewer, own) =
      lookup-keeps pid now later other e r soon.0.0 (omega (arith, few)) held
        (ground (arith, soon.0.1, at)) in
    let (held', own') =
      play-keeps pid now e (lookup r later other).0 calls soon.1 at (omega (arith, few, fewer))
        stays in
    (held', own' ∙ own)

lookup-held :
    (pid later : ℕ) (e : Entry) (r : Resolver)
    → pid ≢ 0
    → pid ≢ r.own
    → get pid r.cache ≡ some e
    → is_recent later e ≡ true
    → lookup r later (pos pid) ≡ (r, some e.lookup)
unfolding lookup lookup_pid
lookup-held pid later e r some_pid other held recent = ground arith

lookup-starts :
    (r : Resolver) (now pid : ℕ)
    → (lookup r now (pos pid)).1 ≡ some r.next_lookup
    → ((e : Entry) → get pid r.cache ≡ some e → is_recent now e ≡ false)
    → let after = (lookup r now (pos pid)).0 in
      (pid ≢ 0)
      × (pid ≢ r.own)
      × (after.own ≡ r.own)
      × (get pid after.cache ≡ some (record { pid = pid; at = now; lookup = r.next_lookup }))
unfolding lookup lookup_pid start_lookup
lookup-starts r now pid named stale =
    let new : Entry = record { pid = pid; at = now; lookup = r.next_lookup } in
    let put_in = get-put pid new (make_room now r.cache) in
    elim (Option-cases (get pid r.cache)) [
      | inl none_held ↦ (ground arith, ground arith, ground arith, ground arith)
      | inr (e, held) ↦
          let old = stale e held in (ground arith, ground arith, ground arith, ground arith)
    ]

-- Where a call for a process that no recent entry of the cache names returns a lookup: the process
-- is neither 0 nor the harvester itself, and whatever other calls are made meanwhile, for this
-- process or for others, a later call for the process returns that lookup again and changes
-- nothing, until the lookup is as old as `ttl`. The calls meanwhile are made before that, and with
-- the entries that were recent at the first they are no more than the cache holds.
pub lookup-again :
    (r : Resolver) (now later pid : ℕ) (calls : List (ℕ × ℤ))
    → (lookup r now (pos pid)).1 ≡ some r.next_lookup
    → ((e : Entry) → get pid r.cache ≡ some e → is_recent now e ≡ false)
    → All (Soon now) calls
    → count_recent now (lookup r now (pos pid)).0.cache + length calls ≤ cached
    → later - now < ttl
    → let after = play (lookup r now (pos pid)).0 calls in
      (pid ≢ 0) × (pid ≢ r.own) × (lookup after later (pos pid) ≡ (after, some r.next_lookup))
lookup-again r now later pid calls named stale soon few fresh =
    let first = (lookup r now (pos pid)).0 in
    let (some_pid, other, own, held) = lookup-starts r now pid named stale in
    let e : Entry = record { pid = pid; at = now; lookup = r.next_lookup } in
    let (held', own') = play-keeps pid now e first calls soon refl few held in
    (
      some_pid,
      other,
      lookup-held pid later e (play first calls) some_pid (λ same. other (same ∙ (own' ∙ own)))
          held' (ground (arith, fresh)),
    )
