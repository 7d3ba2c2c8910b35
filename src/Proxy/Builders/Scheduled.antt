-- ===== src/Proxy/Builders/Scheduled.antt =====
-- client-request/rust/src/lib.rs: `ProxyBuilder::build`, whose proxy takes its seed peers from the
-- scheduler.
pub mod Accepted
pub mod Built
use dragonfly_sdk.Base.{ℕ, ◌-◌, ◌/◌, ◌⊎◌, false, Option, Text}
use dragonfly_sdk.Errors.{Error, Result, ok, err, map_err, ◌>>=◌, ◌>>◌}
use dragonfly_sdk.Net.{IpAddr}
use dragonfly_sdk.Scheduler.{SchedulerApi, new_client, refresh_from}
use dragonfly_sdk.Selector.{SeedPeer, SeedPeers, empty_seed_peers}
use dragonfly_sdk.Proxy.{Env, Proxy, Session, wrap}
use dragonfly_sdk.Proxy.Builders.{ProxyBuilder, validate_builder, build_proxy}

module _ (E : Env) (S : SchedulerApi) where
  abbrev pub refreshed : Result (Unit {0}) × SeedPeers E.ring → Result (SeedPeers E.ring)
  refreshed (err e, peers) = err (wrap E "failed to create seed peer selector: " e)
  refreshed (ok _, peers) = ok peers

  -- The connection to the scheduler and the first refresh.
  unfoldable pub first_seed_peers : Text → ℕ → Result (S.Channel × SeedPeers E.ring)
  unfolding new_client refresh_from
  first_seed_peers endpoint timeout = do
    channel ← new_client S endpoint timeout
    peers ← refreshed (refresh_from S E.ring channel false (empty_seed_peers E.ring))
    ok (channel, peers)

  -- The proxy, its seed peers, and the channel and the interval of the service that goes on to
  -- refresh them.
  pub record ScheduledProxy : Type 0 where
    pub proxy : Proxy E
    pub session : Session E
    pub seed_peers : SeedPeers E.ring
    pub channel : S.Channel
    pub interval : ℕ

  unfoldable pub build_with_scheduler :
      Option IpAddr
      → Option IpAddr
      → Text ⊎ Text
      → ProxyBuilder E.retrier
      → E.World
      → Result ScheduledProxy
  unfolding validate_builder first_seed_peers build_proxy
  build_with_scheduler local_ip local_ipv6 hostname b world = do
    validate_builder E.retrier E.ids.url b
    (channel, peers) ← first_seed_peers b.scheduler_endpoint b.scheduler_request_timeout
    (proxy, session) ← build_proxy E local_ip local_ipv6 hostname b world
    ok (record {
      proxy = proxy;
      session = session;
      seed_peers = peers;
      channel = channel;
      interval = b.health_check_interval;
    })
