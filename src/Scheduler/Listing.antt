-- ===== src/Scheduler/Listing.antt =====
-- client-request/rust/src/selector.rs: what a listing gives, and what a selection after it serves.
use mathlib.Core.List.{Permᴰ}
use mathlib.Core.List.Permᴰ
use dragonfly_sdk.Base.{
  ℕ, ◌<◌, ◌≡◌, refl, ap₂, subst, ◌↔◌, ◌⊎◌, inl, inr, Bool, true, false, some, List, [], ◌∷◌, map,
  sum_cases, All, All-map, Permᴰ-All, Text, lookup,
}
use dragonfly_sdk.Errors.{Result, ok, err, >>=-ok, ok-injective, net_addr_parse_error, Status}
use dragonfly_sdk.Net.{IpAddr}
use dragonfly_sdk.Selector.{Host, SeedPeer, HashRing, SeedPeers, update, refresh, select, hosts_of}
use dragonfly_sdk.Selector.Given.{hosts_of-All}
use dragonfly_sdk.Selector.Ring.{RingLaws}
use dragonfly_sdk.Selector.Synced.{IsSynced, update-IsSynced}
use dragonfly_sdk.Selector.Choice.{IsServing, select-IsChoice}
use dragonfly_sdk.Scheduler.Serving.{Serves, Serves-healthy, healthy-Serves}
use dragonfly_sdk.Scheduler.{
  SchedulerApi, list_checked, check_host, checked, health_addr, checked_peer, check_hosts,
  list_seed_peers, refresh_from,
}

-- The documented behaviour of a join set: it gives every result, in some order.
pub record JoinedLaws (S : SchedulerApi) : Type 0 where
  pub all_joined : (ps : List SeedPeer) → Permᴰ ps (S.joined ps)

abbrev pub Member : Host → List Host → Type 0
Member h [] = ⊥
Member h (g ∷ gs) = (h ≡ g) ⊎ Member h gs

module _ (S : SchedulerApi) (J : JoinedLaws S) where
  -- A seed peer as its health check found it.
  abbrev pub IsChecked : List Host → SeedPeer → Type 0
  IsChecked hosts p =
      Member p.host hosts
      × ((ip : IpAddr) × (S.parse_ip p.host.ip ≡ inr ip)
          × ((p.healthy ≡ true) ↔ Serves S (health_addr S ip p.host)))

  check_host-IsChecked :
      (h : Host) (more : List Host) (p : SeedPeer)
      → Member h more
      → check_host S h ≡ ok p
      → IsChecked more p × (p.host ≡ h)
  unfolding check_host checked_peer
  check_host-IsChecked h more p m q = elim (sum_cases (S.parse_ip h.ip)) [
    | inl (e, failed) ↦
        let no : err (net_addr_parse_error e) ≡ ok p = rw (failed, check_host) at q in cc
    | inr (ip, found) ↦
        subst (λ peer. IsChecked more peer × (peer.host ≡ h))
          (ok-injective (rw (found, check_host) at q))
          (
            (
              m,
              (
                ip,
                found,
                (healthy-Serves S (health_addr S ip h), Serves-healthy S (health_addr S ip h)),
              ),
            ),
            refl,
          )
  ]

  check_hosts-IsChecked :
      (hosts more : List Host) (ps : List SeedPeer)
      → ((h : Host) → Member h hosts → Member h more)
      → check_hosts S hosts ≡ ok ps
      → All (IsChecked more) ps × (map (λ p. p.host) ps ≡ hosts)
  unfolding check_hosts
  check_hosts-IsChecked [] more ps sub h =
      subst (λ found. All (IsChecked more) found × (map (λ p. p.host) found ≡ [])) (ok-injective h)
        (tt, refl)
  check_hosts-IsChecked (g ∷ gs) more ps sub h =
      let (p, checked, later) = >>=-ok (check_host S g) _ h in
      let (rest, others, whole) = >>=-ok (check_hosts S gs) _ later in
      let (first, host) = check_host-IsChecked g more p (sub g (inl refl)) checked in
      let (all, hosts) = check_hosts-IsChecked gs more rest (λ k m. sub k (inr m)) others in
      subst (λ found. All (IsChecked more) found × (map (λ p. p.host) found ≡ g ∷ gs))
        (ok-injective whole) ((first, all), ap₂ ◌∷◌ host hosts)

  -- What a listing comes to.
  pub record IsListed (channel : S.Channel) (ps : List SeedPeer) : Type 0 where
    pub hosts : List Host
    pub listed : S.list_hosts channel ≡ inr hosts
    pub every_host : Permᴰ hosts (map (λ p. p.host) ps)
    pub checked : All (IsChecked hosts) ps

  -- Under the documented behaviour of a join set, a listing that succeeds gives every host that the
  -- scheduler lists, in some order, each with the health that its check found: healthy exactly when
  -- its health service was reached and answered in time that it is serving.
  pub list_seed_peers-IsListed :
      (channel : S.Channel) (ps : List SeedPeer)
      → list_seed_peers S channel ≡ ok ps
      → IsListed channel ps
  unfolding list_seed_peers
  list_seed_peers-IsListed channel ps h = listed (S.list_hosts channel) refl h
    where
      listed :
          (answer : Status ⊎ List Host)
          → S.list_hosts channel ≡ answer
          → list_checked S answer ≡ ok ps
          → IsListed channel ps
      listed (inl s) e q = cc
      listed (inr hosts) e q =
          let (peers, checked, joined) = >>=-ok (check_hosts S hosts) _ q in
          let (all, same) = check_hosts-IsChecked hosts hosts peers (λ k m. m) checked in
          let perm = subst (Permᴰ peers) (ok-injective joined) (J.all_joined peers) in
          record {
            hosts = hosts;
            listed = e;
            every_host =
                subst (λ hs. Permᴰ hs (map (λ p. p.host) ps)) same (Permᴰ.map (λ p. p.host) perm);
            checked = Permᴰ-All (IsChecked hosts) perm all;
          }

  module _ (H : HashRing) (L : RingLaws H) where
    select-IsChecked :
        (after : SeedPeers H) (hosts : List Host) (ps : List SeedPeer) (task_id : Text)
        (replicas : ℕ) (hs : List Host)
        → IsSynced H L after
        → after.hosts ≡ hosts_of ps
        → All (IsChecked hosts) ps
        → 0 < replicas
        → select H after task_id replicas ≡ some (ok hs)
        → All (λ h. IsChecked hosts (record { host = h; healthy = true })) hs
    select-IsChecked after hosts ps task_id replicas hs v given checked some_replicas chosen =
        All-map (IsServing after.hosts)
          (λ h known.
            hosts_of-All (IsChecked hosts) ps checked h.name _ (
              subst (λ m. lookup h.name m ≡ some (record { host = h; healthy = true })) given
                known))
          hs (select-IsChoice H L after v task_id replicas hs some_replicas chosen).serving

    -- Composed with the selector, with hosts and ring in step: when `refresh` returns no error, then
    -- either another refresh was running and the seed peers are left as they were; or none was, the
    -- hosts and the ring are still in step, and a selection from them for a positive number of
    -- replicas serves only hosts that the scheduler listed and whose health check answered in time
    -- that they are serving, whatever was known before.
    pub refresh-select_checked :
        (busy : Bool) (channel : S.Channel) (s : SeedPeers H) (task_id : Text) (replicas : ℕ)
        (hs : List Host)
        → IsSynced H L s
        → 0 < replicas
        → let (result, after) = refresh_from S H channel busy s in
          result ≡ ok tt
          → select H after task_id replicas ≡ some (ok hs)
          → ((busy ≡ true) × (after ≡ s))
            ⊎ ((busy ≡ false)
                × IsSynced H L after
                × ((hosts : List Host) × (S.list_hosts channel ≡ inr hosts)
                    × All (λ h. IsChecked hosts (record { host = h; healthy = true })) hs))
    unfolding refresh_from refresh
    refresh-select_checked true channel s task_id replicas hs v some_replicas h chosen =
        inl (refl, refl)
    refresh-select_checked false channel s task_id replicas hs v some_replicas h chosen =
        let (synced, served) = refreshed (list_seed_peers S channel) refl h chosen in
        inr (refl, synced, served)
      where
        refreshed :
            (listing : Result (List SeedPeer))
            → list_seed_peers S channel ≡ listing
            → (refresh H false listing s).0 ≡ ok tt
            → select H (refresh H false listing s).1 task_id replicas ≡ some (ok hs)
            → IsSynced H L (refresh H false listing s).1
              × ((hosts : List Host) × (S.list_hosts channel ≡ inr hosts)
                  × All (λ h. IsChecked hosts (record { host = h; healthy = true })) hs)
        refreshed (err e) listing q chosen = cc
        refreshed (ok ps) listing q chosen =
            let synced = update-IsSynced H L s ps v in
            let result = list_seed_peers-IsListed channel ps listing in
            (
              synced.0,
              (
                result.hosts,
                result.listed,
                select-IsChecked (update H s ps) result.hosts ps task_id replicas hs synced.0
                    synced.1 result.checked some_replicas chosen,
              ),
            )
