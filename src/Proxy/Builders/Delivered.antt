-- ===== src/Proxy/Builders/Delivered.antt =====
-- client-request/rust/src/lib.rs: what `get_into` of a `ProxyWithEndpoints` leaves in the buffer.
use mathlib.Core.List.{flatten}
use dragonfly_sdk.Base.{
  ◌≡◌, refl, ap, inl, inr, true, false, none, ◌++◌, Option-cases, Text, contains, lookup,
}
use dragonfly_sdk.Errors.{Result, ok, err, Result-cases}
use dragonfly_sdk.Errors.Convert.{Response}
use dragonfly_sdk.Requests.Get.{GetRequest, GetResponse, validate}
use dragonfly_sdk.Retry.{RetrierLaws}
use dragonfly_sdk.Proxy.{Env, Session, HttpClient}
use dragonfly_sdk.Proxy.Send.{send, make_client}
use dragonfly_sdk.Proxy.Download.{filled}
use dragonfly_sdk.Proxy.Buffer.{Delivers, fill_buffer-Delivers}
use dragonfly_sdk.Proxy.Builders.Endpoints.{
  ProxyWithEndpointsBuilder, ProxyWithEndpoints, build_with_endpoints, send_to_endpoint,
  get_into_at_endpoints,
}
use dragonfly_sdk.Proxy.Builders.Clients.{build_with_endpoints-lookup}

module _ (E : Env) (b : ProxyWithEndpointsBuilder E) (r : GetRequest E.http) where
  -- The whole body of one response, sent through the client that was made for a given endpoint.
  pub record IsDelivered (buf : Text) (g : GetResponse E.http) (buf' : Text) : Type 0 where
    pub answer : Response E.http
    pub endpoint : Text
    pub client : HttpClient E
    pub before : Session E
    pub after : Session E
    pub given : contains endpoint b.endpoints ≡ true
    pub made : make_client E false endpoint ≡ ok client
    pub sent : send E r before client ≡ (after, ok answer)
    pub complete : answer.ending ≡ none
    pub response : g ≡ filled E answer
    pub appended : buf' ≡ buf ++ flatten answer.chunks

  abbrev pub Leaves : Text → Result (GetResponse E.http) → Text → Type 0
  Leaves buf (err e) buf' = buf' ≡ buf
  Leaves buf (ok g) buf' = IsDelivered buf g buf'

  Delivers-Leaves :
      (p : ProxyWithEndpoints E) (buf buf' : Text) (result : Result (GetResponse E.http))
      → build_with_endpoints E b ≡ ok p
      → Delivers E (send_to_endpoint E p r) buf result buf'
      → Leaves buf result buf'
  unfolding send_to_endpoint
  Delivers-Leaves p buf buf' (err e) built h = h
  Delivers-Leaves p buf buf' (ok g) built
        (answer, endpoint, before, after, sent, whole, same, more) =
      elim (Option-cases (lookup endpoint p.clients)) [
        | inl missing ↦
            let no : err _ ≡ ok answer = ap (λ x. x.1) (rw (send_to_endpoint, missing) at sent) in
            cc
        | inr (c, found) ↦
            let (made, given) = build_with_endpoints-lookup E b p built endpoint c found in
            record {
              answer = answer;
              endpoint = endpoint;
              client = c;
              before = before;
              after = after;
              given = given;
              made = made;
              sent = rw (send_to_endpoint, found) at sent;
              complete = whole;
              response = same;
              appended = more;
            }
      ]

  -- Under the documented behaviour of backon's retry: a `get_into` of a proxy that was built from
  -- given endpoints leaves the buffer as it was when it fails. When it succeeds, the buffer has
  -- gained exactly the body of one response that ended without an error, and that response came
  -- through the client that was made for one of the given endpoints.
  pub get_into_at_endpoints-Leaves :
      (R : RetrierLaws E.retrier) (p : ProxyWithEndpoints E) (s : Session E) (buf : Text)
      → build_with_endpoints E b ≡ ok p
      → let (result, (s', buf')) = get_into_at_endpoints E p s r buf in Leaves buf result buf'
  unfolding get_into_at_endpoints
  get_into_at_endpoints-Leaves R p s buf built = elim (Result-cases (validate E.http E.ids.url r)) [
    | inr (e, invalid) ↦ rw (invalid, get_into_at_endpoints) refl
    | inl (u, valid) ↦
        rw (valid, get_into_at_endpoints)
          (Delivers-Leaves p buf _ _ built
            (fill_buffer-Delivers E R p.retry p.endpoints (send_to_endpoint E p r) s buf))
  ]
