-- ===== src/Examples/Processes.antt =====
-- src/who.rs at concrete inputs.
use storage_harvester.Base.{ℕ, ◌≤◌, ◌≡◌, refl, ◌≢◌, some, [], ◌∷◌, arith, length, List, none≢some}
use storage_harvester.Base.Int.{ℤ, pos, negsuc}
use storage_harvester.Base.Bytes.{text, eqb}
use storage_harvester.Who.Container.{container_parts, container_in, guest_name, is_slash, is_nil}
use storage_harvester.Who.Container.Laws.{
  container_parts-IsName, container_in-guest, IsName, IsPlain, path_of, guest_path, under_lxc,
}
use storage_harvester.Who.Resolver.{Resolver, get, lookup, lookup-bounded, cached, ttl}
use storage_harvester.Who.Resolver.Again.{play, lookup-again}

container_parts-IsName_example : IsName (text "lxc/101")
unfolding container_parts storage_harvester.Who.Container.guest_of
    storage_harvester.Who.Container.strip_prefix eqb
container_parts-IsName_example =
    container_parts-IsName (text "lxc" ∷ text "101" ∷ []) (text "lxc/101") refl

init-IsPlain : IsPlain (text "init.scope")
unfolding storage_harvester.Who.Container.strip_prefix eqb storage_harvester.Who.Container.find_id
    storage_harvester.Who.Container.split storage_harvester.Who.Container.is_container_id
init-IsPlain = record {
  some_text = refl;
  one_part = (ground arith);
  no_guest = refl;
  not_lxc = refl;
  no_id = refl;
}

container_in-guest_example :
    container_in
      (47 ∷ path_of (text "init.scope" ∷ []) (guest_path under_lxc (text "101") (some (text "ns"))))
    ≡ some (guest_name (text "101"))
container_in-guest_example =
    container_in-guest (text "init.scope" ∷ []) under_lxc (text "101") (some (text "ns"))
      (init-IsPlain, tt) refl (ground arith)

abbrev pid : ℕ
pid = 40

abbrev fresh : Resolver
fresh = record { own = 1; cache = []; queue = some []; next_lookup = 0 }

lookup-bounded_example : length (lookup fresh 5 (pos pid)).0.cache ≤ cached
lookup-bounded_example = lookup-bounded fresh 5 (pos pid) (omega arith)

-- Calls for another process, for the same one, and for none.
abbrev meanwhile : List (ℕ × ℤ)
meanwhile = (6, pos 41) ∷ (7, pos pid) ∷ (8, negsuc 0) ∷ []

lookup-again_example :
    (pid ≢ 0)
    × (pid ≢ fresh.own)
    × (lookup (play (lookup fresh 5 (pos pid)).0 meanwhile) 9 (pos pid)
        ≡ (play (lookup fresh 5 (pos pid)).0 meanwhile, some fresh.next_lookup))
unfolding lookup storage_harvester.Who.Resolver.lookup_pid get
    storage_harvester.Who.Resolver.start_lookup storage_harvester.Who.Resolver.try_send
    storage_harvester.Who.Resolver.make_room storage_harvester.Who.Resolver.put
lookup-again_example =
    lookup-again fresh 5 9 pid meanwhile refl (λ e held. absurd (none≢some held)) (ground arith)
      (ground arith) (omega arith)
