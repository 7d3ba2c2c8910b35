-- ===== src/Proxy/Send.antt =====
-- client-request/rust/src/lib.rs: one request through the pooled client of a proxy, with the
-- middleware that records which proxies answer.
pub mod Recorded
pub mod Successful
pub mod Concurrent
use dragonfly_sdk.Base.{
  ℕ, ◌⊎◌, inl, inr, Bool, true, false, ◌&&◌, none, some, List, [], ◌∷◌, ◌++◌, ltb, leb,
  if◌then◌else◌, Text, text, TextMap,
}
use dragonfly_sdk.Errors.{Result, ok, err, internal, request_timeout}
use dragonfly_sdk.Errors.Convert.{Response, from_response}
use dragonfly_sdk.Pool.{Pool, Entry, entry}
use dragonfly_sdk.Requests.Get.{GetRequest, proxy_headers}
use dragonfly_sdk.Selector.Ejections.{Ejection, on_failure, on_success}
use dragonfly_sdk.Proxy.{
  Env, Session, HttpClient, TransportError, IoKind, connection_refused, host_unreachable,
  network_unreachable, other_kind,
}

-- The kinds that count as a failure to connect.
unfoldable pub is_unreachable : List IoKind → Bool
is_unreachable [] = false
is_unreachable (connection_refused ∷ ks) = true
is_unreachable (host_unreachable ∷ ks) = true
is_unreachable (network_unreachable ∷ ks) = true
is_unreachable (other_kind ∷ ks) = is_unreachable ks

module _ (E : Env) where
  abbrev Outcome : Type 0
  Outcome = TransportError ⊎ Response E.http

  -- What the ejection middleware records of an outcome.
  unfoldable pub record_outcome : TextMap Ejection → Text → ℕ → Outcome → TextMap Ejection
  unfolding is_unreachable
  record_outcome ejections endpoint now (inr response) = on_success ejections endpoint
  record_outcome ejections endpoint now (inl e) =
      if e.is_connect && is_unreachable e.io_kinds
      then on_failure ejections endpoint now
      else ejections

  abbrev pub is_success : ℕ → Bool
  is_success status = leb 200 status && ltb status 300

  unfoldable pub response_of : Outcome → Result (Response E.http)
  response_of (inl e) =
      if e.is_timeout then err (request_timeout e.message) else err (internal e.message)
  response_of (inr r) = if is_success r.status then ok r else err (from_response E.http r)

  abbrev pub HttpResult : Type 0
  HttpResult = Result (Response E.http)

  abbrev transmitted : Session E → HttpClient E → E.World × Outcome → Session E × HttpResult
  transmitted s c (world, outcome) = (
    record s {
      ejections =
          if c.can_be_ejected
          then record_outcome s.ejections c.endpoint (E.now world) outcome
          else s.ejections;
      world = world;
    },
    response_of outcome,
  )

  unfoldable pub send : GetRequest E.http → Session E → HttpClient E → Session E × HttpResult
  unfolding record_outcome response_of
  send r s c = elim (proxy_headers E.http r) [
    | err e ↦ (s, err e)
    | ok headers ↦ transmitted s c (E.transmit s.world c.client r.url headers r.timeout)
  ]

  -- `HTTPClientFactory::make_client`; the flag says whether the factory has a seed peer selector.
  unfoldable pub make_client : Bool → Text → Result (HttpClient E)
  make_client can_be_ejected endpoint = elim (E.set_proxy endpoint) [
    | some m ↦ err (internal (text "failed to set proxy " ++ endpoint ++ text ": " ++ m))
    | none ↦ elim (E.build_client endpoint) [
      | inl m ↦ err (internal (text "failed to build reqwest client: " ++ m))
      | inr c ↦ ok (record { client = c; endpoint = endpoint; can_be_ejected = can_be_ejected })
    ]
  ]

  abbrev sent_through :
      GetRequest E.http
      → Session E
      → Result (Entry (HttpClient E)) × Pool (HttpClient E)
      → Session E × HttpResult
  sent_through r s (err e, pool) = (record s { pool = pool }, err e)
  sent_through r s (ok found, pool) = send r (record s { pool = pool }) found.client

  unfoldable pub send_to : GetRequest E.http → Session E → Text → Session E × HttpResult
  unfolding send make_client
  send_to r s endpoint =
      let now = E.now s.world in
      sent_through r s (entry (make_client true) s.pool endpoint endpoint now (λ _. now) now now)
