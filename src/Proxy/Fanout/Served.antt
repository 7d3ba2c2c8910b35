-- ===== src/Proxy/Fanout/Served.antt =====
-- client-request/rust/src/lib.rs: a `get` of a file goes to the seed peers that a `preheat` of it has
-- had download it.
use dragonfly_sdk.Base.{
  ℕ, ◌<◌, ◌≡◌, sym, ◌∙◌, subst, inl, inr, some, List, length, All, All-map, Text,
}
use dragonfly_sdk.Errors.{Error, Result, ok, err, >>=-ok, Result-cases, ok-injective}
use dragonfly_sdk.Requests.{default_scope}
use dragonfly_sdk.Requests.Files.{PreheatRequest, validate_preheat}
use dragonfly_sdk.Requests.Get.{GetRequest, validate}
use dragonfly_sdk.Retry.{RetrierLaws}
use dragonfly_sdk.Selector.{Host, SeedPeers, select}
use dragonfly_sdk.Selector.Ring.{RingLaws}
use dragonfly_sdk.Selector.Synced.{IsSynced}
use dragonfly_sdk.Proxy.{Env, Session, Proxy, as_u32, select_seed_peers}
use dragonfly_sdk.Proxy.Lookup.{
  lookup_endpoints, lookup_proxy_endpoints, after_validation, endpoints_of_task, usable_endpoints,
  request_task_id,
}
use dragonfly_sdk.Proxy.Lookup.Endpoints.{ProxyOf, usable_endpoints-All}
use dragonfly_sdk.Proxy.Dfdaemon.{Dfdaemon}
use dragonfly_sdk.Proxy.Fanout.{download, download_of, preheat_on, preheat}
use dragonfly_sdk.Proxy.Fanout.Outcomes.{
  JoinLaws, Reached, Answers-Reached, call_all_iff, preheat_on-ok, unwrap,
}
use dragonfly_sdk.Proxy.Fanout.Preheated.{started}

module _ (E : Env) where
  -- A `get` of what a preheat asks for: the fields that make the task id, and the replicas.
  abbrev pub get_of : PreheatRequest E.http → E.http.Headers → ℕ → GetRequest E.http
  get_of r header timeout = record {
    url = r.url;
    header = header;
    piece_length = r.piece_length;
    tag = r.tag;
    application = r.application;
    filtered_query_params = r.filtered_query_params;
    content_for_calculating_task_id = r.content_for_calculating_task_id;
    enable_task_id_based_blob_digest = r.enable_task_id_based_blob_digest;
    priority = r.priority;
    replicas = r.replicas;
    timeout = timeout;
    client_cert = r.client_cert;
  }

  nothing : {e : Error} {endpoints : List Text} → some (err e) ≡ some (ok endpoints) → ⊥
  nothing h = cc

  -- A lookup that succeeds took the endpoints of what its task's selection gave.
  looked_up_selection :
      (p : Proxy E) (peers : SeedPeers E.ring) (s : Session E) (g : GetRequest E.http) (id : Text)
      (selected : Result (List Host)) (endpoints : List Text)
      → request_task_id E p g ≡ ok id
      → select E.ring peers id (as_u32 E g.replicas) ≡ some selected
      → lookup_endpoints E p peers s g ≡ some (ok endpoints)
      → usable_endpoints E s id selected ≡ ok endpoints
  unfolding lookup_endpoints lookup_proxy_endpoints
  looked_up_selection p peers s g id selected endpoints same chosen h =
      elim (Result-cases (validate E.http E.ids.url g)) [
        | inr (e, invalid) ↦ absurd (nothing (rw (invalid, after_validation) at h))
        | inl (u, valid) ↦
            unwrap (rw (valid, after_validation, same, endpoints_of_task, chosen) at h)
      ]

  module _ (D : Dfdaemon) (J : JoinLaws D) (R : RetrierLaws E.retrier) (L : RingLaws E.ring)
      (p : Proxy E) (peers : SeedPeers E.ring) (v : IsSynced E.ring L peers)
      (network : Text → D.Net) where
    -- A seed peer that has downloaded the file of a preheat.
    abbrev pub HasFile : PreheatRequest E.http → Host → Type 0
    HasFile r = Reached D E r.timeout (download D (download_of D E r))

    preheated_hosts :
        (r : PreheatRequest E.http) (selected : Result (List Host))
        → preheat_on D E p network r selected ≡ ok tt
        → (hosts : List Host) → selected ≡ ok hosts
        → All (HasFile r) hosts
    preheated_hosts r selected h hosts q =
        let call = download D (download_of D E r) in
        let (called_hosts, found, many, called) = preheat_on-ok D E p network r selected h in
        subst (All (HasFile r)) (ok-injective (sym found ∙ q)) (
          All-map _ (Answers-Reached D E r.timeout call J R p network) called_hosts
            ((call_all_iff D J E p network r.timeout call called_hosts).0 called))

    -- Under the documented behaviour of the hash ring, of retries and of a join set, and with hosts and
    -- ring in step: after a preheat to the replicas of a task that succeeded, and while the selector has the same seed peers, a lookup for a `get` of
    -- the same file and as many replicas gives at least one endpoint, and each is the proxy of a seed
    -- peer on which the preheat's download of the file finished without an error. The headers and
    -- the timeout of the `get`, its session and what happened to proxies in between do not matter.
    pub lookup_endpoints-preheat :
        (r : PreheatRequest E.http) (header : E.http.Headers) (timeout : ℕ) (s : Session E)
        (endpoints : List Text)
        → r.scope ≡ default_scope
        → preheat D E p peers network r ≡ some (ok tt)
        → lookup_endpoints E p peers s (get_of r header timeout) ≡ some (ok endpoints)
        → All (ProxyOf E (HasFile r)) endpoints × (0 < length endpoints)
    unfolding preheat select_seed_peers
    lookup_endpoints-preheat r header timeout s endpoints scope done found =
        let (id, selected, checked, chosen, finished) =
          started D J E R L p peers v network r _ done in
        let (u, valid, same) = >>=-ok (validate_preheat E.http r) _ checked in
        usable_endpoints-All E (HasFile r) s id selected endpoints
          (preheated_hosts r selected finished)
          (looked_up_selection p peers s (get_of r header timeout) id selected endpoints same
            (rw scope at chosen) found)
