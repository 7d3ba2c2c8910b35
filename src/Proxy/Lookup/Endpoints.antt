-- ===== src/Proxy/Lookup/Endpoints.antt =====
-- client-request/rust/src/lib.rs: the endpoints of a lookup are those of the hosts that it selected.
use dragonfly_sdk.Base.{
  suc, ◌<◌, ◌≡◌, refl, ap, subst, List, [], ◌∷◌, arith, length, filter, All, filter-All, All-map,
  Text,
}
use dragonfly_sdk.Errors.{Result, ok, >>=-ok, map_err, map_err-ok, ok-injective}
use dragonfly_sdk.Selector.{Host}
use dragonfly_sdk.Selector.Ejections.{proxy_endpoint}
use dragonfly_sdk.Proxy.{Env, Session, wrap}
use dragonfly_sdk.Proxy.Lookup.{proxy_endpoints, not_ejected, some_endpoint, usable_endpoints}

module _ (E : Env) where
  module _ (P : Host → Type 0) where
    -- The proxy of a host with the property.
    abbrev pub ProxyOf : Text → Type 0
    ProxyOf endpoint = (h : Host) × P h × (proxy_endpoint E.parse_ip h ≡ ok endpoint)

    pub endpoints_of_hosts :
        (hosts : List Host) (endpoints : List Text)
        → All P hosts
        → proxy_endpoints E hosts ≡ ok endpoints
        → All ProxyOf endpoints × (length endpoints ≡ length hosts)
    unfolding proxy_endpoints
    endpoints_of_hosts [] endpoints k h =
        subst (λ found. All ProxyOf found × (length found ≡ 0)) (ok-injective h) (tt, refl)
    endpoints_of_hosts (host ∷ hosts) endpoints (k, ks) h =
        let (endpoint, found, more) = >>=-ok (proxy_endpoint E.parse_ip host) _ h in
        let (rest, others, whole) = >>=-ok (proxy_endpoints E hosts) _ more in
        let (serve, count) = endpoints_of_hosts hosts rest ks others in
        subst (λ all. All ProxyOf all × (length all ≡ suc (length hosts))) (ok-injective whole)
          (((host, k, found), serve), ap suc count)

  pub occupied :
      (id : Text) (es endpoints : List Text)
      → some_endpoint E id es ≡ ok endpoints
      → (es ≡ endpoints) × (0 < length endpoints)
  unfolding some_endpoint
  occupied id [] endpoints h = cc
  occupied id (e ∷ es) endpoints h =
      (ok-injective h, subst (λ es. 0 < length es) (ok-injective h) (omega arith))

  -- What holds of all hosts that were selected holds of those whose proxies a lookup gives.
  pub usable_endpoints-All :
      (P : Host → Type 0) (s : Session E) (id : Text) (selected : Result (List Host))
      (endpoints : List Text)
      → ((hosts : List Host) → selected ≡ ok hosts → All P hosts)
      → usable_endpoints E s id selected ≡ ok endpoints
      → All (ProxyOf P) endpoints × (0 < length endpoints)
  unfolding usable_endpoints
  usable_endpoints-All P s id selected endpoints holds h =
      let (hosts, found, more) =
        >>=-ok (map_err (wrap E "failed to select seed peers: ") selected) _ h in
      let (all, made, filtered) = >>=-ok (proxy_endpoints E hosts) _ more in
      let (serve, count) =
        endpoints_of_hosts P hosts all (holds hosts (map_err-ok _ selected found)) made in
      let keep = not_ejected E s.ejections (E.now s.world) in
      let (same, nonempty) = occupied id (filter keep all) endpoints filtered in
      (
        subst (All (ProxyOf P)) same
            (All-map _ (λ e h. h.0) (filter keep all) (filter-All (ProxyOf P) keep all serve)),
        nonempty,
      )
