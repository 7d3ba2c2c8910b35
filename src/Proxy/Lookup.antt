-- ===== src/Proxy/Lookup.antt =====
-- client-request/rust/src/lib.rs: the proxy endpoints of the seed peers that serve a request.
-- `none` stands for a call that does not return.
pub mod Endpoints
use mathlib.Core.Option
use dragonfly_sdk.Base.{
  ℕ, Bool, not, Option, some, List, [], ◌∷◌, ◌++◌, filter, Text, text, TextMap,
}
use dragonfly_sdk.Errors.{Result, ok, err, internal, map_err, ◌>>=◌}
use dragonfly_sdk.Requests.Get.{GetRequest, validate}
use dragonfly_sdk.Selector.{SeedPeers, Host, select}
use dragonfly_sdk.Selector.Ejections.{Ejection, proxy_endpoint, is_ejected}
use dragonfly_sdk.Proxy.{Env, Session, Proxy, wrap, task_id, as_u32}

module _ (E : Env) where
  -- The endpoints of all hosts, or the first failure.
  unfoldable pub proxy_endpoints : List Host → Result (List Text)
  proxy_endpoints [] = ok []
  proxy_endpoints (h ∷ hs) = do
    endpoint ← proxy_endpoint E.parse_ip h
    endpoints ← proxy_endpoints hs
    ok (endpoint ∷ endpoints)

  abbrev pub not_ejected : TextMap Ejection → ℕ → Text → Bool
  not_ejected ejections now endpoint = not (is_ejected ejections endpoint now)

  unfoldable pub some_endpoint : Text → List Text → Result (List Text)
  some_endpoint id [] = err (internal (text "seed peers of task " ++ id ++ text " are all ejected"))
  some_endpoint id (e ∷ es) = ok (e ∷ es)

  -- What follows the selection.
  unfoldable pub usable_endpoints : Session E → Text → Result (List Host) → Result (List Text)
  unfolding some_endpoint proxy_endpoints
  usable_endpoints s id selected = do
    hosts ← map_err (wrap E "failed to select seed peers: ") selected
    endpoints ← proxy_endpoints hosts
    some_endpoint id (filter (not_ejected s.ejections (E.now s.world)) endpoints)

  abbrev pub request_task_id : Proxy E → GetRequest E.http → Result Text
  request_task_id p r =
      task_id E p r.url r.piece_length r.tag r.application r.filtered_query_params
        r.content_for_calculating_task_id r.enable_task_id_based_blob_digest

  unfoldable pub endpoints_of_task :
      SeedPeers E.ring → Session E → ℕ → Result Text → Option (Result (List Text))
  unfolding usable_endpoints
  endpoints_of_task peers s replicas (err e) = some (err e)
  endpoints_of_task peers s replicas (ok id) =
      Option.map (usable_endpoints s id) (select E.ring peers id (as_u32 E replicas))

  unfoldable pub lookup_proxy_endpoints :
      Proxy E → SeedPeers E.ring → Session E → GetRequest E.http → Option (Result (List Text))
  unfolding endpoints_of_task
  lookup_proxy_endpoints p peers s r = endpoints_of_task peers s r.replicas (request_task_id p r)

  unfoldable pub after_validation :
      Proxy E
      → SeedPeers E.ring
      → Session E
      → GetRequest E.http
      → Result (Unit {0})
      → Option (Result (List Text))
  unfolding lookup_proxy_endpoints
  after_validation p peers s r (err e) = some (err e)
  after_validation p peers s r (ok _) = lookup_proxy_endpoints p peers s r

  unfoldable pub lookup_endpoints :
      Proxy E → SeedPeers E.ring → Session E → GetRequest E.http → Option (Result (List Text))
  unfolding after_validation
  lookup_endpoints p peers s r = after_validation p peers s r (validate E.http E.ids.url r)
