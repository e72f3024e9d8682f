-- ===== src/Live/Swap/Handover.antt =====
-- src/live.rs: the signals that come while a scan runs, and then the scan's tree.
use storage_harvester.Base.{
  ℕ, ◌≡◌, refl, sym, subst, ap, ◌∙◌, true, false, Option, none, some, List, [], ◌∷◌, ◌++◌, map, All,
  All-map, set, get_elem?, get_elem?-set_self, get_elem?_lt,
}
use storage_harvester.Base.Maps.{lookup}
use storage_harvester.Base.Result.{Result, ok, ◌>>=◌, or_panic, >>=-eq-ok}
use storage_harvester.Tree.Dir.{DirTree, node_at}
use storage_harvester.Live.{StableKey, same_key, TreeState, LiveTarget, LiveStore}
use storage_harvester.Live.Index.{new, resolve, linked_during_scan}
use storage_harvester.Live.Swap.{
  Keys, note_key, enqueue_known, note_signal, signal, resolve_all, changes_since, next_generation,
  replace_at, replace,
}
use storage_harvester.Live.Swap.Replayed.{
  IsNoted, IsPending, names-append, resolve_all-names, enqueue_all-queues, note_held_self,
  note_held-other, ok_inj,
}

pub record Signal : Type 0 where
  pub at : ℕ
  pub key : StableKey
  pub who : Option ℕ

-- The signals of one target one after the other.
unfoldable pub signal_all : ℕ → List Signal → LiveStore → Result LiveStore
signal_all index [] store = ok store
signal_all index (s ∷ ss) store =
    signal s.at index s.key s.who store >>= λ next. signal_all index ss next

-- The target of an index is being scanned, in the state `state`, and has noted a key.
abbrev IsScanning : ℕ → Option TreeState → LiveStore → LiveTarget → Type 0
IsScanning index state store lt =
    (get_elem? store.targets index ≡ some lt) × (lt.scanning ≡ true) × (lt.state ≡ state)

note_key_self : (key : StableKey) (who : Option ℕ) (m : Keys) → IsNoted key (note_key key who m)
unfolding note_key
note_key_self key who m = note_held_self key who m (lookup same_key key m) refl

note_key-other :
    (k key : StableKey) (who : Option ℕ) (m : Keys) → IsNoted k m → IsNoted k (note_key key who m)
unfolding note_key
note_key-other k key who m h = note_held-other k key who m (lookup same_key key m) h

pub get-set :
    {A : Type 0} (xs : List A) (i : ℕ) (a b : A)
    → get_elem? xs i ≡ some a
    → get_elem? (set xs i b) i ≡ some b
get-set xs i a b h = get_elem?-set_self xs i b (get_elem?_lt xs i h)

pub or_panic-some : {A : Type 0} {o : Option A} {a b : A} → o ≡ some a → or_panic o ≡ ok b → a ≡ b
or_panic-some h e = ok_inj (sym (ap or_panic h) ∙ e)

signal-noted :
    (now index : ℕ) (key : StableKey) (who : Option ℕ) (state : Option TreeState)
    (store next : LiveStore) (lt : LiveTarget)
    → IsScanning index state store lt
    → signal now index key who store ≡ ok next
    → IsScanning index state next (record lt { during_scan = note_key key who lt.during_scan })
unfolding signal
signal-noted now index key who state store next lt (at, scanning, same) e =
    let (found, ef, e1) = >>=-eq-ok (or_panic (get_elem? store.targets index)) _ e in
    let (q, eq, e2) = >>=-eq-ok (enqueue_known now found key who store.queue) _ e1 in
    let here = or_panic-some at ef in
    (
      subst
          (λ n.
            get_elem? n.targets index
            ≡ some (record lt { during_scan = note_key key who lt.during_scan }))
          (ok_inj e2)
          (get-set store.targets index lt (note_signal key who found) at
            ∙ ap some (ap (note_signal key who) (sym here) ∙ rw scanning refl)),
      scanning,
      same,
    )

signal_all-IsNoted :
    (index : ℕ) (ss : List Signal) (state : Option TreeState) (store next : LiveStore)
    (lt : LiveTarget)
    → IsScanning index state store lt
    → signal_all index ss store ≡ ok next
    → (last : LiveTarget) × IsScanning index state next last
      × All (λ s. IsNoted s.key last.during_scan) ss
      × ((k : StableKey) → IsNoted k lt.during_scan → IsNoted k last.during_scan)
unfolding signal_all
signal_all-IsNoted index [] state store next lt h e =
    (lt, subst (λ s. IsScanning index state s lt) (ok_inj e) h, tt, λ k n. n)
signal_all-IsNoted index (s ∷ ss) state store next lt h e =
    let (mid, em, e1) = >>=-eq-ok (signal s.at index s.key s.who store) _ e in
    let after = record lt { during_scan = note_key s.key s.who lt.during_scan } in
    let (last, held, all, keeps) =
      signal_all-IsNoted index ss state mid next after
        (signal-noted s.at index s.key s.who state store mid lt h em) e1 in
    (
      last,
      held,
      (keeps s.key (note_key_self s.key s.who lt.during_scan), all),
      λ k n. keeps k (note_key-other k s.key s.who lt.during_scan n),
    )

-- What `replace` leaves of a target in a state that had noted keys.
abbrev pub IsReplaced : ℕ → DirTree → ℕ → Option TreeState → Keys → LiveStore → Type 0
IsReplaced index tree started state keys next =
    (after : LiveTarget) × (get_elem? next.targets index ≡ some after)
    × (after.scanning ≡ false)
    × (after.during_scan ≡ [])
    × (after.state ≡ some (new tree (next_generation state) started))
    × ((key : StableKey) (node : ℕ)
        → IsNoted key keys
        → resolve (new tree (next_generation state) started) key ≡ ok (some node)
        → IsPending (index, node) (next_generation state) next.queue)

replace_at-IsReplaced :
    (now index : ℕ) (tree : DirTree) (started duration : ℕ) (store next : LiveStore)
    (lt : LiveTarget)
    → get_elem? store.targets index ≡ some lt
    → replace_at lt now index tree started duration store ≡ ok next
    → IsReplaced index tree started lt.state lt.during_scan next
unfolding replace_at
replace_at-IsReplaced now index tree started duration store next lt at e =
    let generation = next_generation lt.state in
    let state = new tree generation started in
    let (changes, ec, e1) = >>=-eq-ok (changes_since lt.state tree) _ e in
    let (root, er, e2) = >>=-eq-ok (node_at state.tree.nodes 0) _ e1 in
    let (signalled, es, e3) = >>=-eq-ok (resolve_all state lt.during_scan) _ e2 in
    let (linked, el, e4) = >>=-eq-ok (linked_during_scan state) _ e3 in
    let after : LiveTarget = record lt { state = some state; scanning = false; during_scan = [] } in
    (
      after,
      subst (λ n. get_elem? n.targets index ≡ some after) (ok_inj e4)
          (get-set store.targets index lt after at),
      refl,
      refl,
      refl,
      λ key node noted found.
          subst (λ n. IsPending (index, node) generation n.queue) (ok_inj e4)
            (enqueue_all-queues now index generation node (signalled ++ map (λ n. (n, none)) linked)
              store.queue
              (names-append node signalled (map (λ n. (n, none)) linked)
                (resolve_all-names state lt.during_scan key node noted found es))),
    )

pub replace-IsReplaced :
    (now index : ℕ) (tree : DirTree) (started duration : ℕ) (store next : LiveStore)
    (lt : LiveTarget)
    → get_elem? store.targets index ≡ some lt
    → replace now index tree started duration store ≡ ok next
    → IsReplaced index tree started lt.state lt.during_scan next
unfolding replace
replace-IsReplaced now index tree started duration store next lt at e =
    let (found, ef, e1) = >>=-eq-ok (or_panic (get_elem? store.targets index)) _ e in
    replace_at-IsReplaced now index tree started duration store next lt at (
      subst (λ l. replace_at l now index tree started duration store ≡ ok next)
        (sym (or_panic-some at ef)) e1)

-- Where a target is being scanned, any signals come for it and then its scan's tree, and these
-- calls return: every directory signalled that the new tree knows waits for a re-read of that
-- tree; and the target holds the tree, is not being scanned, and has no key left over.
pub signals-survive :
    (now index : ℕ) (ss : List Signal) (tree : DirTree) (started duration : ℕ)
    (store middle next : LiveStore) (lt : LiveTarget)
    → get_elem? store.targets index ≡ some lt
    → lt.scanning ≡ true
    → signal_all index ss store ≡ ok middle
    → replace now index tree started duration middle ≡ ok next
    → ((after : LiveTarget) × (get_elem? next.targets index ≡ some after)
        × (after.scanning ≡ false)
        × (after.during_scan ≡ [])
        × (after.state ≡ some (new tree (next_generation lt.state) started)))
      × All
          (λ s.
            (node : ℕ)
            → resolve (new tree (next_generation lt.state) started) s.key ≡ ok (some node)
            → IsPending (index, node) (next_generation lt.state) next.queue)
          ss
signals-survive now index ss tree started duration store middle next lt at scanning e r =
    let (last, (held, on, same), all, keeps) =
      signal_all-IsNoted index ss lt.state store middle lt (at, scanning, refl) e in
    let (after, here, off, none_left, holds, waits) =
      subst (λ o. IsReplaced index tree started o last.during_scan next) same
        (replace-IsReplaced now index tree started duration middle next last held r) in
    (
      (after, here, off, none_left, holds),
      All-map ss (λ s noted node found. waits s.key node noted found) all,
    )
