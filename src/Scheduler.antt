-- ===== src/Scheduler.antt =====
-- client-request/rust/src/selector.rs: `SchedulerClient`, which lists the seed peers with their
-- health. The gRPC clients are arguments; durations are in nanoseconds.
pub mod Serving
pub mod Listing
use dragonfly_sdk.Base.{
  ℕ, ◌+◌, ◌-◌, ◌*◌, ◌/◌, ◌⊎◌, inl, inr, Bool, false, not, Option, none, some, List, [], ◌∷◌, ◌++◌,
  ◌==◌, if◌then◌else◌, Text, text, ℤ, as_u16, pos, negsuc,
}
use dragonfly_sdk.Errors.{
  Error, Result, ok, err, invalid_argument, internal, request_timeout, net_addr_parse_error,
  tonic_status, tonic_transport_error, Status, ◌>>=◌,
}
use dragonfly_sdk.Net.{IpAddr, format_url}
use dragonfly_sdk.Selector.{Host, SeedPeer, HashRing, SeedPeers, refresh}

abbrev pub seed_peers_health_check_timeout : ℕ
seed_peers_health_check_timeout = 3 * 1_000_000_000

-- The external code. What the network answers to a health check is fixed for each address.
pub record SchedulerApi : Type 1 where
  pub Channel : Type 0
  pub parse_ip : Text → Text ⊎ IpAddr
  -- `Endpoint::from_shared` may refuse, and a connection may fail.
  pub from_shared : Text → Option Text
  pub connect : Text → ℕ → Text ⊎ Channel
  -- The hosts of the type that stands for a seed peer.
  pub list_hosts : Channel → Status ⊎ List Host
  -- The health service of a seed peer: whether the whole check ends in time, the connection, and
  -- the status of the answer.
  pub in_time : Text → ℕ → Bool
  pub HealthChannel : Type 0
  pub health_connect : Text → ℕ → Text ⊎ HealthChannel
  pub check : HealthChannel → ℕ → Status ⊎ ℤ
  -- `ServingStatus::Serving`.
  pub serving : ℤ
  -- The order in which the health checks finish.
  pub joined : List SeedPeer → List SeedPeer

abbrev pub int_eq : ℤ → ℤ → Bool
int_eq (pos m) (pos n) = m == n
int_eq (negsuc m) (negsuc n) = m == n
int_eq _ _ = false

module _ (S : SchedulerApi) where
  -- `SchedulerClient::new`.
  unfoldable pub new_client : Text → ℕ → Result S.Channel
  new_client endpoint timeout = elim (S.from_shared endpoint) [
    | some m ↦ err (invalid_argument m)
    | none ↦ elim (S.connect endpoint timeout) [
      | inl m ↦
          err (internal (text "failed to connect to scheduler " ++ endpoint ++ text ": " ++ m))
      | inr channel ↦ ok channel
    ]
  ]

  abbrev answered : Status ⊎ ℤ → Result ℤ
  answered (inl s) = err (tonic_status s)
  answered (inr status) = ok status

  abbrev pub checked : Text ⊎ S.HealthChannel → Result ℤ
  checked (inl m) = err (tonic_transport_error m)
  checked (inr channel) = answered (S.check channel seed_peers_health_check_timeout)

  abbrev pub check_connected : Text → Result ℤ
  check_connected addr = elim (S.from_shared addr) [
    | some m ↦ err (tonic_transport_error m)
    | none ↦ checked (S.health_connect addr seed_peers_health_check_timeout)
  ]

  -- The status of the answer.
  unfoldable pub check_health : Text → Result ℤ
  check_health addr =
      if S.in_time addr seed_peers_health_check_timeout
      then check_connected addr
      else err (request_timeout (text "health check of " ++ addr ++ text " timed out"))

  abbrev pub is_serving : Result ℤ → Bool
  is_serving (ok status) = int_eq status S.serving
  is_serving (err e) = false

  -- `host.port as u16`.
  abbrev pub health_addr : IpAddr → Host → Text
  health_addr ip h = format_url "http" ip (as_u16 h.port)

  unfoldable pub checked_peer : IpAddr → Host → SeedPeer
  unfolding check_health
  checked_peer ip h = record { host = h; healthy = is_serving (check_health (health_addr ip h)) }

  -- The address of a host's health service, which may not parse, and its check.
  unfoldable pub check_host : Host → Result SeedPeer
  unfolding checked_peer
  check_host h = elim (S.parse_ip h.ip) [
    | inl m ↦ err (net_addr_parse_error m)
    | inr ip ↦ ok (checked_peer ip h)
  ]

  -- The loop that spawns the health checks.
  unfoldable pub check_hosts : List Host → Result (List SeedPeer)
  unfolding check_host
  check_hosts [] = ok []
  check_hosts (h ∷ hs) = do peer ← check_host h; peers ← check_hosts hs; ok (peer ∷ peers)

  abbrev pub list_checked : Status ⊎ List Host → Result (List SeedPeer)
  list_checked (inl s) = err (tonic_status s)
  list_checked (inr hosts) = do peers ← check_hosts hosts; ok (S.joined peers)

  unfoldable pub list_seed_peers : S.Channel → Result (List SeedPeer)
  unfolding check_hosts
  list_seed_peers channel = list_checked (S.list_hosts channel)

  -- `SeedPeerSelector::refresh` with the client.
  unfoldable pub refresh_from :
      (H : HashRing) → S.Channel → Bool → SeedPeers H → Result (Unit {0}) × SeedPeers H
  unfolding refresh list_seed_peers
  refresh_from H channel busy s = refresh H busy (list_seed_peers channel) s
