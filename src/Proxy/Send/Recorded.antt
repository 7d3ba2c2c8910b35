-- ===== src/Proxy/Send/Recorded.antt =====
-- client-request/rust/src/lib.rs: what one request records of the proxy that it goes to.
use dragonfly_sdk.Base.{
  ℕ, ◌≤◌, ◌≡◌, refl, subst, ◌⊎◌, inl, inr, true, ◌&&◌, List, [], ◌∷◌, arith, if◌then◌else◌,
  Bool-cases, sum_cases, Option-cases, length, Text, TextMap,
}
use dragonfly_sdk.Errors.{Error, Result, ok, err, Result-cases, ok-injective}
use dragonfly_sdk.Errors.Convert.{Response}
use dragonfly_sdk.Pool.{Pool, Entry}
use dragonfly_sdk.Pool.Owned.{Owned, entry-Gives}
use dragonfly_sdk.Http.{HttpApi}
use dragonfly_sdk.Pool.{entry}
use dragonfly_sdk.Requests.Get.{GetRequest, proxy_headers}
use dragonfly_sdk.Selector.Ejections.{Ejection}
use dragonfly_sdk.Selector.Ejections.Streaks.{Event, failed, answered, replay}
use dragonfly_sdk.Proxy.{Env, Session, HttpClient, TransportError}
use dragonfly_sdk.Proxy.Send.{
  is_unreachable, record_outcome, send, make_client, sent_through, send_to,
}

-- The event that the outcome of a request to a proxy is: an answer whatever its status, a failure when
-- the connection could not be made, and no event otherwise.
abbrev pub event_of : {H : HttpApi} → Text → ℕ → TransportError ⊎ Response H → List Event
event_of k now (inr response) = answered k ∷ []
event_of k now (inl e) = if e.is_connect && is_unreachable e.io_kinds then failed k now ∷ [] else []

module _ (E : Env) where
  -- The client built for the proxy of its key, which counts for the ejection of that proxy.
  abbrev pub IsProxyOf : Text → HttpClient E → Type 0
  IsProxyOf k c = (c.endpoint ≡ k) × (c.can_be_ejected ≡ true) × (E.build_client k ≡ inr c.client)

  -- The pool of a proxy has every client under the endpoint that it was made for.
  abbrev pub IsKeyed : Session E → Type 0
  IsKeyed s = Owned IsProxyOf s.pool

  no_client : {e : Error} {c : HttpClient E} → err e ≡ ok c → ⊥
  no_client h = cc

  pub made_IsProxyOf :
      (endpoint : Text) (c : HttpClient E)
      → make_client E true endpoint ≡ ok c
      → IsProxyOf endpoint c
  unfolding make_client
  made_IsProxyOf endpoint c h = elim (Option-cases (E.set_proxy endpoint)) [
    | inr (m, refused) ↦ absurd (no_client (rw (refused, make_client) at h))
    | inl proxied ↦ elim (sum_cases (E.build_client endpoint)) [
      | inl (m, refused) ↦ absurd (no_client (rw (proxied, make_client, refused) at h))
      | inr (client, built) ↦
          subst (IsProxyOf endpoint)
            (ok-injective (rw (proxied, make_client, built, make_client) at h)) (refl, refl, built)
    ]
  ]

  module _ (r : GetRequest E.http) where
    -- The event of sending the request by a client of the proxy, if its headers can be built.
    unfoldable pub events_of_send : Text → E.World → E.Client → List Event
    events_of_send k world client = elim (proxy_headers E.http r) [
      | err e ↦ []
      | ok headers ↦
          let (after, outcome) = E.transmit world client r.url headers r.timeout in
          event_of k (E.now after) outcome
    ]

    abbrev events_through : Text → E.World → Result (Entry (HttpClient E)) → List Event
    events_through k world (err e) = []
    events_through k world (ok found) = events_of_send k world found.client.client

    -- The event of one attempt at an endpoint, if it comes to send the request: the pool gives the
    -- client, the network the outcome.
    abbrev pub attempt_events : Session E → Text → List Event
    attempt_events s k =
        let now = E.now s.world in
        events_through k s.world (entry (make_client E true) s.pool k k now (λ _. now) now now).0

    -- The session after an attempt has the event of its outcome recorded, and nothing else.
    abbrev Recorded : Session E → List Event → Session E → Type 0
    Recorded s es t = IsKeyed t × (t.ejections ≡ replay s.ejections es) × (length es ≤ 1)

    record_outcome-event_of :
        (ejections : TextMap Ejection) (k : Text) (now : ℕ)
        (outcome : TransportError ⊎ Response E.http)
        → (record_outcome E ejections k now outcome ≡ replay ejections (event_of k now outcome))
          × (length (event_of k now outcome) ≤ 1)
    unfolding record_outcome replay
    record_outcome-event_of ejections k now (inr response) = (refl, omega arith)
    record_outcome-event_of ejections k now (inl e) =
        elim (Bool-cases (e.is_connect && is_unreachable e.io_kinds)) [
          | inl refused ↦ rw refused (refl, omega arith)
          | inr other ↦ rw other (refl, omega arith)
        ]

    send-Recorded :
        (s : Session E) (c : HttpClient E) (k : Text)
        → IsProxyOf k c
        → IsKeyed s
        → Recorded s (events_of_send k s.world c.client) (send E r s c).0
    unfolding send replay events_of_send
    send-Recorded s c k (same, counts, built) o = elim (Result-cases (proxy_headers E.http r)) [
      | inr (e, refused) ↦ rw (refused, send, events_of_send) (o, refl, omega arith)
      | inl (headers, made) ↦
          let (world, outcome) = E.transmit s.world c.client r.url headers r.timeout in
          let (recorded, one) = record_outcome-event_of s.ejections k (E.now world) outcome in
          rw (made, send, events_of_send, counts, same) (o, recorded, one)
    ]

    through-Recorded :
        (s : Session E) (k : Text) (got : Result (Entry (HttpClient E)) × Pool (HttpClient E))
        → Owned IsProxyOf got.1
        → ((e : Entry (HttpClient E)) → got.0 ≡ ok e → IsProxyOf k e.client)
        → Recorded s (events_through k s.world got.0) (sent_through E r s got).0
    unfolding replay
    through-Recorded s k (err e, pool) o g = (o, refl, omega arith)
    through-Recorded s k (ok found, pool) o g =
        send-Recorded (record s { pool = pool }) found.client k (g found refl) o

    -- A request through the pool records the event of its outcome, under the proxy that it went to.
    pub send_to-Recorded :
        (s : Session E) (k : Text) → IsKeyed s → Recorded s (attempt_events s k) (send_to E r s k).0
    unfolding send_to
    send_to-Recorded s k o =
        let now = E.now s.world in
        let (own, gives) =
          entry-Gives IsProxyOf (make_client E true) s.pool k k now (λ _. now) now now
            (made_IsProxyOf k) o in
        through-Recorded s k _ own gives
