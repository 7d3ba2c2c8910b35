-- ===== src/Proxy/Send/Concurrent.antt =====
-- client-request/rust/src/lib.rs: requests that run at the same time go through the clients of the
-- proxies that they were meant for.
use dragonfly_sdk.Base.{ℕ, ◌≡◌, sym, subst, true, Text}
use dragonfly_sdk.Errors.{ok}
use dragonfly_sdk.Pool.{Builder}
use dragonfly_sdk.Pool.Calls.{Reachable, Serving}
use dragonfly_sdk.Pool.Calls.Sound.{IsSound, Reachable-IsSound}
use dragonfly_sdk.Proxy.{Env, HttpClient}
use dragonfly_sdk.Proxy.Send.{make_client}
use dragonfly_sdk.Proxy.Send.Recorded.{IsProxyOf, made_IsProxyOf}

-- `send_to` asks the pool for a client of the endpoint by the endpoint itself.
abbrev pub SameEndpoint : Text → Text → Type 0
SameEndpoint key addr = key ≡ addr

module _ (E : Env) where
  pub made_for_key :
      (key addr : Text) (client : HttpClient E)
      → SameEndpoint key addr
      → make_client E true addr ≡ ok client
      → IsProxyOf E key client
  made_for_key key addr client same made =
      subst (λ k. IsProxyOf E k client) (sym same) (made_IsProxyOf E addr client made)

  -- However the requests of a proxy interleave at its pool of clients: the pool has at most one
  -- client for each endpoint, no two entries share the cell of their instant, and each client in the
  -- pool, as each that a request got, is one that was built for the proxy at the endpoint that it
  -- stands under or was asked for, and counts for the ejection of that proxy.
  pub Reachable-IsProxyOf :
      {b : Builder} {start : ℕ} {s : Serving (HttpClient E)}
      → Reachable SameEndpoint (make_client E true) b start s
      → IsSound SameEndpoint (make_client E true) (IsProxyOf E) made_for_key s
  Reachable-IsProxyOf r =
      Reachable-IsSound SameEndpoint (make_client E true) (IsProxyOf E) made_for_key r
