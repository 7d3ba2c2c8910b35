-- ===== src/Proxy/Builders.antt =====
-- client-request/rust/src/lib.rs: the checks of the builders, what they build, and the clients with
-- given seed peers or endpoints. Durations are in nanoseconds.
pub mod SeedPeerNames
pub mod Kept
pub mod Endpoints
pub mod Clients
pub mod Delivered
pub mod Setters
pub mod Scheduled
use dragonfly_sdk.Base.{
  ℕ, ◌+◌, ◌-◌, ◌*◌, ◌/◌, ◌⊎◌, inl, inr, true, false, ◌||◌, not, Option, List, [], ◌∷◌, ◌++◌, ltb,
  is_empty, Text, text, contains,
}
use dragonfly_sdk.Errors.{Result, ok, err, internal, invalid_argument, fail_if, ok_or, ◌>>=◌, ◌>>◌}
use dragonfly_sdk.Ids.{IdGenerator}
use dragonfly_sdk.Net.{IpAddr, show_ip, preferred_local_ip}
use dragonfly_sdk.Pool.{Pool, Builder, new_builder, with_capacity, with_idle_timeout, build}
use dragonfly_sdk.Retry.{Retrier, RetryPolicy, default_policy}
use dragonfly_sdk.Selector.{SeedPeer, SeedPeers, HashRing, empty_seed_peers, update}
use dragonfly_sdk.Url.{UrlApi}
use dragonfly_sdk.Proxy.{Env, Proxy, Session, HttpClient}

abbrev default_scheduler_request_timeout : ℕ
default_scheduler_request_timeout = 5 * 1_000_000_000

abbrev default_client_pool_capacity : ℕ
default_client_pool_capacity = 128

abbrev default_client_pool_idle_timeout : ℕ
default_client_pool_idle_timeout = 30 * 60 * 1_000_000_000

abbrev as_millis : ℕ → ℕ
as_millis d = d / 1_000_000

abbrev as_secs : ℕ → ℕ
as_secs d = d / 1_000_000_000

unfoldable pub check_retries : ℕ → Result (Unit {0})
check_retries max_retries =
    fail_if (ltb 10 max_retries) (invalid_argument (text "max retries must be between 0 and 10"))

module _ (R : Retrier) where
  pub record ProxyBuilder : Type 0 where
    pub scheduler_endpoint : Text
    pub scheduler_request_timeout : ℕ
    pub health_check_interval : ℕ
    pub retry : RetryPolicy R

  abbrev pub default_builder : ProxyBuilder
  default_builder = record {
    scheduler_endpoint = [];
    scheduler_request_timeout = default_scheduler_request_timeout;
    health_check_interval = 60 * 1_000_000_000;
    retry = default_policy R;
  }

  abbrev check_url : (U : UrlApi) → Text → Result (Unit {0})
  check_url U endpoint = elim (U.parse endpoint) [
    | inl m ↦ err (invalid_argument m)
    | inr u ↦ ok tt
  ]

  unfoldable pub validate_builder : UrlApi → ProxyBuilder → Result (Unit {0})
  unfolding check_retries
  validate_builder U b = do
    check_url U b.scheduler_endpoint
    fail_if (ltb (as_millis b.scheduler_request_timeout) 100)
        (invalid_argument (text "scheduler request timeout must be at least 100 milliseconds"))
    fail_if (ltb (as_secs b.health_check_interval) 1 || ltb 600 (as_secs b.health_check_interval))
        (invalid_argument (text "health check interval must be between 1 and 600 seconds"))
    check_retries b.retry.max_retries

  pub record ProxyWithSeedPeersBuilder : Type 0 where
    pub seed_peers : List SeedPeer
    pub retry : RetryPolicy R

  abbrev pub default_seed_peers_builder : ProxyWithSeedPeersBuilder
  default_seed_peers_builder = record { seed_peers = []; retry = default_policy R }

unfoldable pub check_names : List Text → List SeedPeer → Result (Unit {0})
check_names names [] = ok tt
check_names names (p ∷ ps) = elim (is_empty p.host.name) [
  | true ↦ err (invalid_argument (text "seed peer name must not be empty"))
  | false ↦ elim (contains p.host.name names) [
    | true ↦ err (invalid_argument (text "seed peer name " ++ p.host.name ++ text " is duplicated"))
    | false ↦ check_names (p.host.name ∷ names) ps
  ]
]

unfoldable pub validate_seed_peers : List SeedPeer → Result (Unit {0})
unfolding check_names
validate_seed_peers seed_peers = do
  fail_if (is_empty seed_peers) (invalid_argument (text "seed peers must not be empty"))
  check_names [] seed_peers

abbrev updated : (H : HashRing) → SeedPeers H → List SeedPeer → Result (Unit {0}) → SeedPeers H
updated H s seed_peers (err e) = s
updated H s seed_peers (ok _) = update H s seed_peers

-- Invalid seed peers are ignored.
unfoldable pub update_seed_peers : (H : HashRing) → SeedPeers H → List SeedPeer → SeedPeers H
unfolding validate_seed_peers
update_seed_peers H s seed_peers = updated H s seed_peers (validate_seed_peers seed_peers)

module _ (E : Env) where
  abbrev retrier : Retrier
  retrier = E.retrier

  -- The two local addresses and the host name are what the system answers.
  unfoldable pub build_proxy :
      Option IpAddr
      → Option IpAddr
      → Text ⊎ Text
      → ProxyBuilder E.retrier
      → E.World
      → Result (Proxy E × Session E)
  build_proxy local_ip local_ipv6 hostname b world = do
    ip ←
        ok_or (preferred_local_ip local_ip local_ipv6)
          (internal (text "failed to detect a preferred local IP address"))
    name ← elim hostname [
      | inl m ↦ err (internal (text "failed to get hostname: " ++ m))
      | inr name ↦ ok name
    ]
    ok (
      record {
        scheduler_endpoint = b.scheduler_endpoint;
        retry = b.retry;
        id_generator = record { ip = show_ip ip; hostname = name; is_seed_peer = true };
      },
      record {
        ejections = [];
        pool =
            build
              (with_idle_timeout default_client_pool_idle_timeout
                (with_capacity default_client_pool_capacity new_builder))
              (E.now world);
        world = world;
      },
    )

  unfoldable pub validate_seed_peers_builder :
      ProxyWithSeedPeersBuilder E.retrier → Result (Unit {0})
  unfolding validate_seed_peers check_retries
  validate_seed_peers_builder b = do
    validate_seed_peers b.seed_peers
    check_retries b.retry.max_retries

  unfoldable pub build_with_seed_peers :
      Option IpAddr
      → Option IpAddr
      → Text ⊎ Text
      → ProxyWithSeedPeersBuilder E.retrier
      → E.World
      → Result ((Proxy E × Session E) × SeedPeers E.ring)
  unfolding build_proxy validate_seed_peers_builder
  build_with_seed_peers local_ip local_ipv6 hostname b world = do
    validate_seed_peers_builder b
    proxy ←
        build_proxy local_ip local_ipv6 hostname
          (record (default_builder E.retrier) { retry = b.retry }) world
    ok (proxy, update E.ring (empty_seed_peers E.ring) b.seed_peers)
