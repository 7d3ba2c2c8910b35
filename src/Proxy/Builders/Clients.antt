-- ===== src/Proxy/Builders/Clients.antt =====
-- client-request/rust/src/lib.rs: the clients of a built `ProxyWithEndpoints`.
use dragonfly_sdk.Base.{
  ◌≡◌, refl, subst, inl, inr, true, false, some, List, [], ◌∷◌, arith, Bool-cases, Option-cases,
  is_empty, All, All-map, Text, text_eq, text_eq_refl, text_eq_iff, contains, TextMap, lookup,
  insert, contains_key, lookup-insert, lookup-insert_self, Within,
}
use dragonfly_sdk.Errors.{ok, err, fail_if, >>=-ok, ok-injective, Result-cases}
use dragonfly_sdk.Proxy.{Env, HttpClient}
use dragonfly_sdk.Proxy.Send.{make_client}
use dragonfly_sdk.Proxy.Builders.Endpoints.{
  ProxyWithEndpointsBuilder, ProxyWithEndpoints, validate_endpoints, make_clients,
  build_with_endpoints,
}

module _ (E : Env) where
  -- Each client is the one that the factory makes for its key.
  abbrev IsMade : TextMap (HttpClient E) → Type 0
  IsMade clients =
      (k : Text) (c : HttpClient E) → lookup k clients ≡ some c → make_client E false k ≡ ok c

  abbrev Keeps : TextMap (HttpClient E) → TextMap (HttpClient E) → Type 0
  Keeps clients all = (k : Text) → contains_key k clients ≡ true → contains_key k all ≡ true

  empty-IsMade : IsMade []
  unfolding lookup
  empty-IsMade k c h = cc

  some_endpoint :
      (b : ProxyWithEndpointsBuilder E) (u : Unit {0})
      → validate_endpoints E b ≡ ok u
      → is_empty b.endpoints ≡ false
  unfolding validate_endpoints
  some_endpoint b u h =
      let (_, checked, _) = >>=-ok (fail_if (is_empty b.endpoints) _) _ h in ground (arith, checked)

  insert-IsMade :
      (clients : TextMap (HttpClient E)) (e : Text) (c : HttpClient E)
      → make_client E false e ≡ ok c
      → IsMade clients
      → IsMade (insert e c clients)
  insert-IsMade clients e c made v k d h = elim (Bool-cases (text_eq e k)) [
    | inl same ↦
        let found : some c ≡ some d = rw (lookup-insert, same) at h in
        let key = (text_eq_iff e k).0 same in cc
    | inr other ↦ v k d (rw (lookup-insert, other) at h)
  ]

  insert-Keeps :
      (clients : TextMap (HttpClient E)) (e : Text) (c : HttpClient E)
      → Keeps clients (insert e c clients)
  insert-Keeps clients e c k h = ground (arith, lookup-insert e k c clients)

  make_clients_lem :
      (clients : TextMap (HttpClient E)) (es : List Text) (all : TextMap (HttpClient E))
      → IsMade clients
      → make_clients E clients es ≡ ok all
      → IsMade all × Keeps clients all × All (λ e. contains_key e all ≡ true) es
  unfolding make_clients
  make_clients_lem clients [] all v h =
      subst (λ found. IsMade found × Keeps clients found × Unit) (ok-injective h)
        (v, λ k known. known, tt)
  make_clients_lem clients (e ∷ es) all v h = elim (Bool-cases (contains_key e clients)) [
    | inl known ↦
        let (made, keeps, others) =
          make_clients_lem clients es all v (rw (known, make_clients) at h) in
        (made, keeps, (keeps e known, others))
    | inr new ↦ elim (Result-cases (make_client E false e)) [
      | inr (f, failed) ↦ let q : err f ≡ ok all = rw (new, make_clients, failed) at h in cc
      | inl (c, made_client) ↦
          let (made, keeps, others) =
            make_clients_lem (insert e c clients) es all (insert-IsMade clients e c made_client v)
              (rw (new, make_clients, made_client) at h) in
          (
            made,
            λ k known. keeps k (insert-Keeps clients e c k known),
            (keeps e (rw (lookup-insert_self e c clients) refl), others),
          )
    ]
  ]

  -- The endpoint has the client that the factory made for it, which reports no failures.
  abbrev pub HasClient : TextMap (HttpClient E) → Text → Type 0
  HasClient clients e =
      (c : HttpClient E) × (lookup e clients ≡ some c) × (make_client E false e ≡ ok c)

  client_of :
      (clients : TextMap (HttpClient E))
      → IsMade clients
      → (e : Text) → contains_key e clients ≡ true
      → HasClient clients e
  client_of clients v e h = elim (Option-cases (lookup e clients)) [
    | inl missing ↦ let q : false ≡ true = rw missing at h in cc
    | inr (c, found) ↦ (c, found, v e c found)
  ]

  IsAmong : List Text → TextMap (HttpClient E) → Type 0
  IsAmong given clients =
      (k : Text) (c : HttpClient E) → lookup k clients ≡ some c → contains k given ≡ true

  insert-IsAmong :
      (given : List Text) (clients : TextMap (HttpClient E)) (e : Text) (c : HttpClient E)
      → contains e given ≡ true
      → IsAmong given clients
      → IsAmong given (insert e c clients)
  unfolding IsAmong
  insert-IsAmong given clients e c m v k d h = elim (Bool-cases (text_eq e k)) [
    | inl same ↦ subst (λ x. contains x given ≡ true) ((text_eq_iff e k).0 same) m
    | inr other ↦ v k d (rw (lookup-insert, other) at h)
  ]

  make_clients-IsAmong :
      (given : List Text) (clients : TextMap (HttpClient E)) (es : List Text)
      (all : TextMap (HttpClient E))
      → IsAmong given clients
      → Within es given
      → make_clients E clients es ≡ ok all
      → IsAmong given all
  unfolding make_clients contains
  make_clients-IsAmong given clients [] all v w h = subst (IsAmong given) (ok-injective h) v
  make_clients-IsAmong given clients (e ∷ es) all v w h =
      let later : Within es given = λ k m. w k (ground (arith, m)) in
      elim (Bool-cases (contains_key e clients)) [
        | inl known ↦
            make_clients-IsAmong given clients es all v later (rw (known, make_clients) at h)
        | inr new ↦ elim (Result-cases (make_client E false e)) [
          | inr (f, failed) ↦ let q : err f ≡ ok all = rw (new, make_clients, failed) at h in cc
          | inl (c, made_client) ↦
              make_clients-IsAmong given (insert e c clients) es all
                (insert-IsAmong given clients e c (w e (ground (arith, text_eq_refl e))) v) later
                (rw (new, make_clients, made_client) at h)
        ]
      ]

  -- The client of an endpoint is made for it, and the endpoint was given.
  pub build_with_endpoints-lookup :
      (b : ProxyWithEndpointsBuilder E) (p : ProxyWithEndpoints E)
      → build_with_endpoints E b ≡ ok p
      → (k : Text) (c : HttpClient E) → lookup k p.clients ≡ some c
      → (make_client E false k ≡ ok c) × (contains k b.endpoints ≡ true)
  unfolding build_with_endpoints IsAmong lookup
  build_with_endpoints-lookup b p h =
      let (u, valid, more) = >>=-ok (validate_endpoints E b) _ h in
      let (clients, made, whole) = >>=-ok (make_clients E [] b.endpoints) _ more in
      let (v, _, _) = make_clients_lem [] b.endpoints clients empty-IsMade made in
      let among =
        make_clients-IsAmong b.endpoints [] b.endpoints clients (λ k c e. cc) (λ k m. m) made in
      subst
        (λ (q : ProxyWithEndpoints E).
          (k : Text) (c : HttpClient E)
          → lookup k q.clients ≡ some c
          → (make_client E false k ≡ ok c) × (contains k b.endpoints ≡ true))
        (ok-injective whole) (λ k c e. (v k c e, among k c e))

  -- A proxy that is built keeps the given endpoints, at least one, and has for each of them the
  -- client that was made for it, so no request to an endpoint lacks a client.
  build_with_endpoints-HasClient :
      (b : ProxyWithEndpointsBuilder E) (p : ProxyWithEndpoints E)
      → build_with_endpoints E b ≡ ok p
      → (p.endpoints ≡ b.endpoints)
        × (is_empty p.endpoints ≡ false)
        × All (HasClient p.clients) p.endpoints
  unfolding build_with_endpoints
  build_with_endpoints-HasClient b p h =
      let (u, valid, more) = >>=-ok (validate_endpoints E b) _ h in
      let (clients, made, whole) = >>=-ok (make_clients E [] b.endpoints) _ more in
      let (v, _, known) = make_clients_lem [] b.endpoints clients empty-IsMade made in
      subst
        (λ (q : ProxyWithEndpoints E).
          (q.endpoints ≡ b.endpoints)
          × (is_empty q.endpoints ≡ false)
          × All (HasClient q.clients) q.endpoints)
        (ok-injective whole)
        (refl, some_endpoint b u valid, All-map _ (client_of clients v) b.endpoints known)
