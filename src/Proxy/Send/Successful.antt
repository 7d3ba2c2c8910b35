-- ===== src/Proxy/Send/Successful.antt =====
-- client-request/rust/src/lib.rs: which responses a request takes for an answer.
use dragonfly_sdk.Base.{◌≡◌, subst, ◌⊎◌, inl, inr, true, Bool-cases, Text}
use dragonfly_sdk.Errors.{Error, Result, ok, err, Result-cases, ok-injective}
use dragonfly_sdk.Errors.Convert.{Response}
use dragonfly_sdk.Pool.{Pool, Entry}
use dragonfly_sdk.Requests.Get.{GetRequest, proxy_headers}
use dragonfly_sdk.Proxy.{Env, Session, HttpClient, TransportError}
use dragonfly_sdk.Proxy.Send.{is_success, response_of, send, sent_through, send_to}

module _ (E : Env) (r : GetRequest E.http) where
  pub refuse : {A : Type 0} {e : Error} {a : A} → err e ≡ ok a → ⊥
  refuse h = cc

  response_of-success :
      (outcome : TransportError ⊎ Response E.http) (answer : Response E.http)
      → response_of E outcome ≡ ok answer
      → is_success E answer.status ≡ true
  unfolding response_of
  response_of-success (inl e) answer h = elim (Bool-cases e.is_timeout) [
    | inl late ↦ absurd (refuse (rw late at h))
    | inr other ↦ absurd (refuse (rw other at h))
  ]
  response_of-success (inr got) answer h = elim (Bool-cases (is_success E got.status)) [
    | inl success ↦
        subst (λ a. is_success E a.status ≡ true) (ok-injective (rw success at h)) success
    | inr failure ↦ absurd (refuse (rw failure at h))
  ]

  send-success :
      (s : Session E) (c : HttpClient E) (answer : Response E.http)
      → (send E r s c).1 ≡ ok answer
      → is_success E answer.status ≡ true
  unfolding send
  send-success s c answer h = elim (Result-cases (proxy_headers E.http r)) [
    | inr (e, refused) ↦ absurd (refuse (rw (refused, send) at h))
    | inl (headers, made) ↦
        response_of-success (E.transmit s.world c.client r.url headers r.timeout).1 answer
          (rw (made, send) at h)
  ]

  through-success :
      (s : Session E) (got : Result (Entry (HttpClient E)) × Pool (HttpClient E))
      (answer : Response E.http)
      → (sent_through E r s got).1 ≡ ok answer
      → is_success E answer.status ≡ true
  through-success s (err e, pool) answer h = cc
  through-success s (ok found, pool) answer h =
      send-success (record s { pool = pool }) found.client answer h

  -- Only an answer with a status of success counts as one.
  pub send_to-success :
      (s : Session E) (endpoint : Text) (answer : Response E.http)
      → (send_to E r s endpoint).1 ≡ ok answer
      → is_success E answer.status ≡ true
  unfolding send_to
  send_to-success s endpoint answer h = through-success s _ answer h
