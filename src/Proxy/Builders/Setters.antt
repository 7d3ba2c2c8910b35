-- ===== src/Proxy/Builders/Setters.antt =====
-- client-request/rust/src/lib.rs: the setters of the three builders.
use dragonfly_sdk.Base.{ℕ, some, List, Text}
use dragonfly_sdk.Retry.{Retrier, RetryPolicy}
use dragonfly_sdk.Selector.{SeedPeer}
use dragonfly_sdk.Proxy.{Env}
use dragonfly_sdk.Proxy.Builders.{ProxyBuilder, ProxyWithSeedPeersBuilder}
use dragonfly_sdk.Proxy.Builders.Endpoints.{ProxyWithEndpointsBuilder}

module _ (R : Retrier) where
  abbrev pub set_scheduler_endpoint : Text → ProxyBuilder R → ProxyBuilder R
  set_scheduler_endpoint endpoint b = record b { scheduler_endpoint = endpoint }

  abbrev pub set_scheduler_request_timeout : ℕ → ProxyBuilder R → ProxyBuilder R
  set_scheduler_request_timeout timeout b = record b { scheduler_request_timeout = timeout }

  abbrev pub set_health_check_interval : ℕ → ProxyBuilder R → ProxyBuilder R
  set_health_check_interval interval b = record b { health_check_interval = interval }

  -- `self.retry.max_retries = retries` and `self.retry.backoff = Some(backoff)`, as the setters of
  -- all builders have it.
  abbrev set_retries : ℕ → RetryPolicy R → RetryPolicy R
  set_retries retries policy = record policy { max_retries = retries }

  abbrev set_exponential : R.Exponential → RetryPolicy R → RetryPolicy R
  set_exponential backoff policy = record policy { backoff = some backoff }

  abbrev pub set_max_retries : ℕ → ProxyBuilder R → ProxyBuilder R
  set_max_retries retries b = record b { retry = set_retries retries b.retry }

  abbrev pub set_backoff : R.Exponential → ProxyBuilder R → ProxyBuilder R
  set_backoff backoff b = record b { retry = set_exponential backoff b.retry }

  abbrev pub set_seed_peers :
      List SeedPeer → ProxyWithSeedPeersBuilder R → ProxyWithSeedPeersBuilder R
  set_seed_peers seed_peers b = record b { seed_peers = seed_peers }

  abbrev pub set_seed_peers_max_retries :
      ℕ → ProxyWithSeedPeersBuilder R → ProxyWithSeedPeersBuilder R
  set_seed_peers_max_retries retries b = record b { retry = set_retries retries b.retry }

  abbrev pub set_seed_peers_backoff :
      R.Exponential → ProxyWithSeedPeersBuilder R → ProxyWithSeedPeersBuilder R
  set_seed_peers_backoff backoff b = record b { retry = set_exponential backoff b.retry }

module _ (E : Env) where
  abbrev pub set_endpoints : List Text → ProxyWithEndpointsBuilder E → ProxyWithEndpointsBuilder E
  set_endpoints endpoints b = record b { endpoints = endpoints }

  abbrev pub set_endpoints_max_retries :
      ℕ → ProxyWithEndpointsBuilder E → ProxyWithEndpointsBuilder E
  set_endpoints_max_retries retries b = record b { retry = set_retries E.retrier retries b.retry }

  abbrev pub set_endpoints_backoff :
      E.retrier.Exponential → ProxyWithEndpointsBuilder E → ProxyWithEndpointsBuilder E
  set_endpoints_backoff backoff b = record b { retry = set_exponential E.retrier backoff b.retry }
