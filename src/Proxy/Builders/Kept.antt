-- ===== src/Proxy/Builders/Kept.antt =====
-- client-request/rust/src/lib.rs: which seed peers a `ProxyWithSeedPeers` sends to, after any updates.
use dragonfly_sdk.Base.{
  ◌^◌, ◌<◌, ◌≡◌, refl, subst, ◌⊎◌, inl, inr, Bool, true, false, Option, some, List, [], ◌∷◌,
  if◌then◌else◌, length, All, All-map, Text, lookup,
}
use dragonfly_sdk.Errors.{Result, ok, err, >>=-ok, ok-injective, Result-cases}
use dragonfly_sdk.Net.{IpAddr}
use dragonfly_sdk.Requests.Get.{GetRequest}
use dragonfly_sdk.Selector.{Host, SeedPeer, HashRing, SeedPeers, hosts_of, empty_seed_peers}
use dragonfly_sdk.Selector.Ring.{RingLaws}
use dragonfly_sdk.Selector.Choice.{IsServing}
use dragonfly_sdk.Selector.Given.{hosts_of-All}
use dragonfly_sdk.Selector.Synced.{IsSynced, empty-IsSynced, update-IsSynced}
use dragonfly_sdk.Proxy.{Env, Session, Proxy}
use dragonfly_sdk.Proxy.Lookup.{lookup_endpoints}
use dragonfly_sdk.Proxy.Lookup.Endpoints.{ProxyOf}
use dragonfly_sdk.Proxy.Usable.{lookup_endpoints-IsUsable}
use dragonfly_sdk.Proxy.Builders.{
  ProxyWithSeedPeersBuilder, validate_seed_peers, updated, update_seed_peers, build_with_seed_peers,
  validate_seed_peers_builder, build_proxy, default_builder,
}

abbrev is_ok : Result (Unit {0}) → Bool
is_ok (ok _) = true
is_ok (err _) = false

abbrev is_valid : List SeedPeer → Bool
is_valid ps = is_ok (validate_seed_peers ps)

-- The last valid seed peers of some updates, or those of before.
abbrev pub last_valid : List SeedPeer → List (List SeedPeer) → List SeedPeer
last_valid ps [] = ps
last_valid ps (u ∷ us) = last_valid (if is_valid u then u else ps) us

-- A seed peer of a list.
abbrev pub Among : SeedPeer → List SeedPeer → Type 0
Among q [] = ⊥
Among q (p ∷ ps) = (p ≡ q) ⊎ Among q ps

All-Among : (ps : List SeedPeer) → All (λ q. Among q ps) ps
All-Among [] = tt
All-Among (p ∷ ps) = (inl refl, All-map _ (λ q h. inr h) ps (All-Among ps))

module _ (H : HashRing) (L : RingLaws H) where
  abbrev pub updates : SeedPeers H → List (List SeedPeer) → SeedPeers H
  updates s [] = s
  updates s (u ∷ us) = updates (update_seed_peers H s u) us

  -- A selector with exactly these seed peers, which are valid.
  pub record IsKept (ps : List SeedPeer) (s : SeedPeers H) : Type 0 where
    pub synced : IsSynced H L s
    pub hosts : s.hosts ≡ hosts_of ps
    pub valid : validate_seed_peers ps ≡ ok tt

  update-IsKept :
      (ps : List SeedPeer) (s : SeedPeers H) (u : List SeedPeer)
      → IsKept ps s
      → IsKept (if is_valid u then u else ps) (update_seed_peers H s u)
  unfolding update_seed_peers
  update-IsKept ps s u v = elim (Result-cases (validate_seed_peers u)) [
    | inr (e, invalid) ↦ rw (invalid, updated, is_ok) v
    | inl (_, valid) ↦
        let (synced, hosts) = update-IsSynced H L s u v.synced in
        rw (valid, updated, is_ok) (record { synced = synced; hosts = hosts; valid = valid })
  ]

  pub updates-IsKept :
      (ps : List SeedPeer) (s : SeedPeers H) (us : List (List SeedPeer))
      → IsKept ps s
      → IsKept (last_valid ps us) (updates s us)
  updates-IsKept ps s [] v = v
  updates-IsKept ps s (u ∷ us) v =
      updates-IsKept (if is_valid u then u else ps) (update_seed_peers H s u) us
        (update-IsKept ps s u v)

module _ (E : Env) (L : RingLaws E.ring) where
  built-IsKept :
      (local_ip local_ipv6 : Option IpAddr) (hostname : Text ⊎ Text)
      (b : ProxyWithSeedPeersBuilder E.retrier) (world : E.World)
      {built : (Proxy E × Session E) × SeedPeers E.ring}
      → build_with_seed_peers E local_ip local_ipv6 hostname b world ≡ ok built
      → IsKept E.ring L b.seed_peers built.1
  unfolding build_with_seed_peers validate_seed_peers_builder
  built-IsKept local_ip local_ipv6 hostname b world h =
      let (_, checked, made) = >>=-ok (validate_seed_peers_builder E b) _ h in
      let (_, valid, few) = >>=-ok (validate_seed_peers b.seed_peers) _ checked in
      let (proxy, got, whole) =
        >>=-ok
          (build_proxy E local_ip local_ipv6 hostname
            (record (default_builder E.retrier) { retry = b.retry }) world)
          _ made in
      let (synced, hosts) =
        update-IsSynced E.ring L (empty_seed_peers E.ring) b.seed_peers (empty-IsSynced E.ring L) in
      subst (λ built. IsKept E.ring L b.seed_peers built.1) (ok-injective whole)
        (record { synced = synced; hosts = hosts; valid = valid })

  -- Under the documented behaviour of the ring: a `ProxyWithSeedPeers` that was built and then updated
  -- any number of times has hosts and ring in step, with the hosts of the last list that was valid,
  -- the updates with an invalid one being ignored. For a number of replicas that fits the `u32` it is
  -- cast to, a lookup of any session then gives at least one endpoint, and each is the proxy of a
  -- healthy seed peer of that list.
  pub lookup_endpoints-updates :
      (local_ip local_ipv6 : Option IpAddr) (hostname : Text ⊎ Text)
      (b : ProxyWithSeedPeersBuilder E.retrier) (world : E.World)
      (built : (Proxy E × Session E) × SeedPeers E.ring) (us : List (List SeedPeer)) (s : Session E)
      (r : GetRequest E.http) (endpoints : List Text)
      → build_with_seed_peers E local_ip local_ipv6 hostname b world ≡ ok built
      → r.replicas < 2 ^ 32
      → lookup_endpoints E built.0.0 (updates E.ring L built.1 us) s r ≡ some (ok endpoints)
      → IsKept E.ring L (last_valid b.seed_peers us) (updates E.ring L built.1 us)
        × (0 < length endpoints)
        × All
            (ProxyOf E
              (λ h. Among (record { host = h; healthy = true }) (last_valid b.seed_peers us)))
            endpoints
  lookup_endpoints-updates local_ip local_ipv6 hostname b world built us s r endpoints made fits h =
      let ps = last_valid b.seed_peers us in
      let now = updates E.ring L built.1 us in
      let kept =
        updates-IsKept E.ring L b.seed_peers built.1 us
          (built-IsKept local_ip local_ipv6 hostname b world made) in
      let usable = lookup_endpoints-IsUsable E L built.0.0 now kept.synced s r endpoints fits h in
      (
        kept,
        usable.some_endpoint,
        All-map (ProxyOf E (IsServing now.hosts))
            (λ e serves. (serves.0, given ps now kept.hosts serves.0 serves.1, serves.2)) endpoints
            usable.serving,
      )
    where
      given :
          (ps : List SeedPeer) (now : SeedPeers E.ring)
          → now.hosts ≡ hosts_of ps
          → (h : Host) → IsServing now.hosts h
          → Among (record { host = h; healthy = true }) ps
      given ps now same h serves =
          hosts_of-All (λ q. Among q ps) ps (All-Among ps) h.name
            (record { host = h; healthy = true })
            (subst (λ m. lookup h.name m ≡ some (record { host = h; healthy = true })) same serves)
