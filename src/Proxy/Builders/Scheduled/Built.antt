-- ===== src/Proxy/Builders/Scheduled/Built.antt =====
-- client-request/rust/src/lib.rs: what a proxy has that `ProxyBuilder::build` built.
use dragonfly_sdk.Base.{ℕ, ◌≡◌, refl, subst, ◌⊎◌, false, Option, List, Text}
use dragonfly_sdk.Errors.{Result, ok, err, >>=-ok, ok-injective}
use dragonfly_sdk.Net.{IpAddr}
use dragonfly_sdk.Scheduler.{SchedulerApi, new_client, list_seed_peers, refresh_from}
use dragonfly_sdk.Scheduler.Listing.{JoinedLaws, IsListed, list_seed_peers-IsListed}
use dragonfly_sdk.Selector.{SeedPeer, SeedPeers, hosts_of, refresh, empty_seed_peers}
use dragonfly_sdk.Selector.Ring.{RingLaws}
use dragonfly_sdk.Selector.Synced.{IsSynced, empty-IsSynced, update-IsSynced}
use dragonfly_sdk.Proxy.{Env}
use dragonfly_sdk.Proxy.Builders.{ProxyBuilder, validate_builder, build_proxy}
use dragonfly_sdk.Proxy.Builders.Scheduled.{
  ScheduledProxy, refreshed, first_seed_peers, build_with_scheduler,
}
use dragonfly_sdk.Proxy.Builders.Scheduled.Accepted.{IsAccepted, validate_builder-IsAccepted}

module _ (E : Env) (S : SchedulerApi) (J : JoinedLaws S) (L : RingLaws E.ring) where
  -- Seed peers that are those of one listing, with the ring in step.
  pub record IsFresh (channel : S.Channel) (peers : SeedPeers E.ring) : Type 0 where
    pub listing : List SeedPeer
    pub listed : IsListed S J channel listing
    pub hosts : peers.hosts ≡ hosts_of listing
    pub synced : IsSynced E.ring L peers

  refreshed-IsFresh :
      (channel : S.Channel) (listing : Result (List SeedPeer)) (peers : SeedPeers E.ring)
      → list_seed_peers S channel ≡ listing
      → refreshed E S (refresh E.ring false listing (empty_seed_peers E.ring)) ≡ ok peers
      → IsFresh channel peers
  unfolding refresh
  refreshed-IsFresh channel (err e) peers listed h = let no : err _ ≡ ok peers = h in cc
  refreshed-IsFresh channel (ok ps) peers listed h =
      let (synced, hosts) =
        update-IsSynced E.ring L (empty_seed_peers E.ring) ps (empty-IsSynced E.ring L) in
      subst (IsFresh channel) (ok-injective h) (record {
        listing = ps;
        listed = list_seed_peers-IsListed S J channel ps listed;
        hosts = hosts;
        synced = synced;
      })

  first_seed_peers-IsFresh :
      (endpoint : Text) (timeout : ℕ) (found : S.Channel × SeedPeers E.ring)
      → first_seed_peers E S endpoint timeout ≡ ok found
      → (new_client S endpoint timeout ≡ ok found.0) × IsFresh found.0 found.1
  unfolding first_seed_peers refresh_from
  first_seed_peers-IsFresh endpoint timeout found h =
      let (channel, connected, listed) = >>=-ok (new_client S endpoint timeout) _ h in
      let (peers, fresh, same) =
        >>=-ok (refreshed E S (refresh_from S E.ring channel false (empty_seed_peers E.ring))) _
          listed in
      subst (λ f. (new_client S endpoint timeout ≡ ok f.0) × IsFresh f.0 f.1) (ok-injective same)
        (connected, refreshed-IsFresh channel (list_seed_peers S channel) peers refl fresh)

  -- What a built proxy starts with.
  pub record IsBuilt (b : ProxyBuilder E.retrier) (built : ScheduledProxy E S) : Type 0 where
    pub accepted : IsAccepted E.retrier E.ids.url b
    pub connected : new_client S b.scheduler_endpoint b.scheduler_request_timeout ≡ ok built.channel
    pub fresh : IsFresh built.channel built.seed_peers

  -- Under the documented behaviour of the ring and of a join set: a proxy is built only from a
  -- builder that the validation accepts and with a connection to the scheduler; its seed peers are
  -- then those of a listing over that connection, each with the health that its check found, and
  -- the hosts and the ring are in step.
  pub build_with_scheduler-IsBuilt :
      (local_ip local_ipv6 : Option IpAddr) (hostname : Text ⊎ Text) (b : ProxyBuilder E.retrier)
      (world : E.World) (built : ScheduledProxy E S)
      → build_with_scheduler E S local_ip local_ipv6 hostname b world ≡ ok built
      → IsBuilt b built
  unfolding build_with_scheduler
  build_with_scheduler-IsBuilt local_ip local_ipv6 hostname b world built h =
      let (_, valid, started) = >>=-ok (validate_builder E.retrier E.ids.url b) _ h in
      let ((channel, peers), first, later) =
        >>=-ok (first_seed_peers E S b.scheduler_endpoint b.scheduler_request_timeout) _ started in
      let ((proxy, session), made, whole) =
        >>=-ok (build_proxy E local_ip local_ipv6 hostname b world) _ later in
      let (connected, fresh) =
        first_seed_peers-IsFresh b.scheduler_endpoint b.scheduler_request_timeout (channel, peers)
          first in
      subst (IsBuilt b) (ok-injective whole) (record {
        accepted = (validate_builder-IsAccepted E.retrier E.ids.url b).0 valid;
        connected = connected;
        fresh = fresh;
      })
