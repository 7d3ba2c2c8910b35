-- ===== src/Proxy/Builders/Endpoints.antt =====
-- client-request/rust/src/lib.rs: `ProxyWithEndpoints`.
use dragonfly_sdk.Base.{
  true, false, none, some, List, [], ◌∷◌, ◌++◌, is_empty, Text, text, TextMap, lookup, insert,
  contains_key,
}
use dragonfly_sdk.Errors.{Result, ok, err, internal, invalid_argument, fail_if, ◌>>=◌, ◌>>◌}
use dragonfly_sdk.Requests.Get.{GetRequest, validate}
use dragonfly_sdk.Retry.{RetryPolicy, default_policy}
use dragonfly_sdk.Proxy.{Env, Session, HttpClient}
use dragonfly_sdk.Proxy.Send.{send, make_client}
use dragonfly_sdk.Proxy.Download.{Sender, Got, GotInto, stream_from, fill_buffer}
use dragonfly_sdk.Proxy.Builders.{check_retries}

module _ (E : Env) where
  pub record ProxyWithEndpointsBuilder : Type 0 where
    pub endpoints : List Text
    pub retry : RetryPolicy E.retrier

  abbrev pub default_endpoints_builder : ProxyWithEndpointsBuilder
  default_endpoints_builder = record { endpoints = []; retry = default_policy E.retrier }

  pub record ProxyWithEndpoints : Type 0 where
    pub endpoints : List Text
    pub retry : RetryPolicy E.retrier
    pub clients : TextMap (HttpClient E)

  unfoldable pub validate_endpoints : ProxyWithEndpointsBuilder → Result (Unit {0})
  unfolding check_retries
  validate_endpoints b = do
    fail_if (is_empty b.endpoints) (invalid_argument (text "endpoints must not be empty"))
    check_retries b.retry.max_retries

  -- A client for every endpoint that has none yet. Their proxies are never ejected.
  unfoldable pub make_clients : TextMap (HttpClient E) → List Text → Result (TextMap (HttpClient E))
  unfolding make_client
  make_clients clients [] = ok clients
  make_clients clients (e ∷ es) = elim (contains_key e clients) [
    | true ↦ make_clients clients es
    | false ↦ elim (make_client E false e) [
      | err failure ↦ err failure
      | ok c ↦ make_clients (insert e c clients) es
    ]
  ]

  unfoldable pub build_with_endpoints : ProxyWithEndpointsBuilder → Result ProxyWithEndpoints
  unfolding validate_endpoints make_clients
  build_with_endpoints b = do
    validate_endpoints b
    clients ← make_clients [] b.endpoints
    ok (record { endpoints = b.endpoints; retry = b.retry; clients = clients })

  unfoldable pub send_to_endpoint : ProxyWithEndpoints → GetRequest E.http → Sender E
  unfolding send
  send_to_endpoint p r s endpoint = elim (lookup endpoint p.clients) [
    | none ↦ (s, err (internal (text "no client for endpoint " ++ endpoint)))
    | some c ↦ send E r s c
  ]

  unfoldable pub get_at_endpoints : ProxyWithEndpoints → Session E → GetRequest E.http → Got E
  unfolding send_to_endpoint stream_from
  get_at_endpoints p s r = elim (validate E.http E.ids.url r) [
    | err e ↦ (err e, s)
    | ok _ ↦ stream_from E p.retry p.endpoints (send_to_endpoint p r) s
  ]

  unfoldable pub get_into_at_endpoints :
      ProxyWithEndpoints → Session E → GetRequest E.http → Text → GotInto E
  unfolding send_to_endpoint fill_buffer
  get_into_at_endpoints p s r buf = elim (validate E.http E.ids.url r) [
    | err e ↦ (err e, (s, buf))
    | ok _ ↦ fill_buffer E p.retry p.endpoints (send_to_endpoint p r) s buf
  ]
