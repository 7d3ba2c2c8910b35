-- ===== src/Proxy/Usable.antt =====
-- client-request/rust/src/lib.rs: which endpoints a lookup gives.
use mathlib.Core.Option
use dragonfly_sdk.Base.{
  ℕ, ◌^◌, ◌≤◌, ◌<◌, min, ◌≡◌, refl, ap, ◌∙◌, subst, inl, inr, false, Option, none, some, List,
  arith, length, filter, length-filter, All, filter-All, All-map, Text,
}
use dragonfly_sdk.Errors.{Error, Result, ok, err, >>=-ok, Result-cases, map_err, map_err-ok}
use dragonfly_sdk.Requests.Get.{GetRequest, validate}
use dragonfly_sdk.Selector.{Host, SeedPeers, select}
use dragonfly_sdk.Selector.Ring.{RingLaws}
use dragonfly_sdk.Selector.Synced.{IsSynced}
use dragonfly_sdk.Selector.Choice.{IsChoice, IsServing, select-IsChoice}
use dragonfly_sdk.Selector.Ejections.{is_ejected}
use dragonfly_sdk.Proxy.{Env, Session, Proxy, as_u32, wrap}
use dragonfly_sdk.Proxy.Total.{validate_positive}
use dragonfly_sdk.Proxy.Lookup.Endpoints.{ProxyOf, endpoints_of_hosts, occupied}
use dragonfly_sdk.Proxy.Lookup.{
  proxy_endpoints, not_ejected, usable_endpoints, lookup_endpoints, lookup_proxy_endpoints,
  after_validation, endpoints_of_task, request_task_id,
}

module _ (E : Env) (L : RingLaws E.ring) (p : Proxy E) (peers : SeedPeers E.ring)
    (v : IsSynced E.ring L peers) (s : Session E) where
  -- An endpoint of a proxy that a request may go to.
  abbrev pub Serves : Text → Type 0
  Serves = ProxyOf E (IsServing peers.hosts)

  abbrev pub Admitted : Text → Type 0
  Admitted endpoint = is_ejected s.ejections endpoint (E.now s.world) ≡ false

  pub record IsUsable (most : ℕ) (endpoints : List Text) : Type 0 where
    pub some_endpoint : 0 < length endpoints
    pub bounded : length endpoints ≤ most
    pub serving : All Serves endpoints
    pub admitted : All Admitted endpoints

  usable_endpoints-IsUsable :
      (id : Text) (most : ℕ) (selected : Result (List Host)) (endpoints : List Text)
      → ((hosts : List Host) → selected ≡ ok hosts → IsChoice peers.hosts most hosts)
      → usable_endpoints E s id selected ≡ ok endpoints
      → IsUsable most endpoints
  unfolding usable_endpoints
  usable_endpoints-IsUsable id most selected endpoints choose h =
      let (hosts, found, more) =
        >>=-ok (map_err (wrap E "failed to select seed peers: ") selected) _ h in
      let choice = choose hosts (map_err-ok _ selected found) in
      let (all, made, filtered) = >>=-ok (proxy_endpoints E hosts) _ more in
      let (serve, count) =
        endpoints_of_hosts E (IsServing peers.hosts) hosts all choice.serving made in
      let keep = not_ejected E s.ejections (E.now s.world) in
      let (same, nonempty) = occupied E id (filter keep all) endpoints filtered in
      let most_hosts = choice.bounded in
      let kept = filter-All Serves keep all serve in
      record {
        some_endpoint = nonempty;
        bounded = omega (arith, ap length same, length-filter keep all);
        serving = subst (All Serves) same (All-map _ (λ e h. h.0) (filter keep all) kept);
        admitted =
            subst (All Admitted) same
              (All-map _ (λ e h. ground (arith, h.1)) (filter keep all) kept);
      }

  of_selection :
      (r : GetRequest E.http) (id : Text) {endpoints : List Text}
      → 0 < r.replicas
      → r.replicas < 2 ^ 32
      → (found : Option (Result (List Host))) → select E.ring peers id (as_u32 E r.replicas) ≡ found
      → Option.map (usable_endpoints E s id) found ≡ some (ok endpoints)
      → IsUsable (min r.replicas (length peers.hosts)) endpoints
  of_selection r id some_replica fits none e h = cc
  of_selection r id {endpoints} some_replica fits (some selected) e h =
      let same : as_u32 E r.replicas ≡ r.replicas = omega arith in
      usable_endpoints-IsUsable id (min r.replicas (length peers.hosts)) selected endpoints
        (λ hosts q.
          select-IsChoice E.ring L peers v id r.replicas hosts some_replica
            (rw same at e ∙ ap some q))
        cc

  refuse : {e : Error} {endpoints : List Text} → some (err e) ≡ some (ok endpoints) → ⊥
  refuse h = cc

  -- Under the documented behaviour of the hash ring, with hosts and ring in step and with a number
  -- of replicas that fits the `u32` it is cast to: the endpoints that a lookup gives are at least
  -- one, and no more than the replicas and the seed peers there are. Each is the proxy of a healthy
  -- seed peer that the selector knows, and is not ejected at that time.
  pub lookup_endpoints-IsUsable :
      (r : GetRequest E.http) (endpoints : List Text)
      → r.replicas < 2 ^ 32
      → lookup_endpoints E p peers s r ≡ some (ok endpoints)
      → IsUsable (min r.replicas (length peers.hosts)) endpoints
  unfolding lookup_endpoints lookup_proxy_endpoints
  lookup_endpoints-IsUsable r endpoints fits h = elim (Result-cases (validate E.http E.ids.url r)) [
    | inr (e, invalid) ↦ absurd (refuse (rw (invalid, after_validation) at h))
    | inl (u, valid) ↦ elim (Result-cases (request_task_id E p r)) [
      | inr (e, failed) ↦
          absurd (refuse (rw (valid, after_validation, failed, endpoints_of_task) at h))
      | inl (id, computed) ↦
          of_selection r id (validate_positive E L p peers s r fits u valid) fits _ refl
            (rw (valid, after_validation, computed, endpoints_of_task) at h)
    ]
  ]
