-- ===== src/Proxy/Fanout/Everywhere.antt =====
-- client-request/rust/src/lib.rs: a preheat or a delete with the scope of all seed peers reaches every
-- seed peer that passed its health check.
use dragonfly_sdk.Base.{
  ℕ, String, ◌≡◌, sym, ◌∙◌, subst, inl, inr, true, some, List, [], ◌∷◌, Bool-cases, is_empty, All,
  All-map, Text, text_eq, TextMap, lookup, values,
}
use dragonfly_sdk.Errors.{Error, Result, ok, err, >>=-ok, ok-injective, map_err, map_err-ok}
use dragonfly_sdk.Requests.{all_seed_peers}
use dragonfly_sdk.Requests.Files.{PreheatRequest, DeleteRequest, validate_delete}
use dragonfly_sdk.Retry.{RetrierLaws}
use dragonfly_sdk.Selector.{Host, SeedPeer, SeedPeers, healthy_hosts, healthy_or, select_all}
use dragonfly_sdk.Selector.Ring.{RingLaws}
use dragonfly_sdk.Selector.Synced.{IsSynced}
use dragonfly_sdk.Proxy.{Env, Proxy, select_seed_peers, wrap}
use dragonfly_sdk.Proxy.Dfdaemon.{Dfdaemon}
use dragonfly_sdk.Proxy.Fanout.{
  download, download_of, delete_one, remote_ip, preheat, delete, delete_on,
}
use dragonfly_sdk.Proxy.Fanout.Outcomes.{
  JoinLaws, Reached, Answers-Reached, call_all_iff, preheat_on-ok, unwrap,
}
use dragonfly_sdk.Proxy.Fanout.Preheated.{started}
use dragonfly_sdk.Proxy.Fanout.Deleted
use dragonfly_sdk.Proxy.Fanout.Deleted.{request_task_id}

-- What holds of the healthy hosts holds of each seed peer that is known and healthy.
healthy_host :
    (P : Host → Type 0) (m : TextMap SeedPeer) (k : Text) (q : SeedPeer)
    → lookup k m ≡ some q
    → q.healthy ≡ true
    → All P (healthy_hosts (values m))
    → P q.host
unfolding lookup
healthy_host P [] k q e healthy all = cc
healthy_host P ((j, w) ∷ m) k q e healthy all = elim (Bool-cases (text_eq j k)) [
  | inl same ↦
      let found : some w ≡ some q = rw same at e in
      let peer_same : w ≡ q = cc in
      let head_healthy : w.healthy ≡ true = cc in
      subst (λ x. P x.host) peer_same (rw head_healthy at all).0
  | inr other ↦ healthy_host P m k q (rw other at e) healthy (elim (Bool-cases w.healthy) [
    | inl kept ↦ (rw kept at all).1
    | inr dropped ↦ rw dropped at all
  ])
]

healthy_or-ok :
    (what : String) (ps : List SeedPeer) (hosts : List Host)
    → healthy_or what ps ≡ ok hosts
    → healthy_hosts ps ≡ hosts
unfolding healthy_or
healthy_or-ok what ps hosts h = elim (Bool-cases (is_empty (healthy_hosts ps))) [
  | inl none_healthy ↦ absurd (refuse (rw none_healthy at h))
  | inr some_healthy ↦ ok-injective (rw some_healthy at h)
]
  where
    refuse : {e : Error} {hosts : List Host} → err e ≡ ok hosts → ⊥
    refuse q = cc

module _ (D : Dfdaemon) (J : JoinLaws D) (E : Env) (R : RetrierLaws E.retrier) (L : RingLaws E.ring)
    (p : Proxy E) (peers : SeedPeers E.ring) (v : IsSynced E.ring L peers)
    (network : Text → D.Net) where
  -- All the hosts that a selection of the scope of all seed peers gave.
  everywhere :
      (P : Host → Type 0) (id : Text) (replicas : ℕ) (selected : Result (List Host))
      (hosts : List Host)
      → select_seed_peers E peers id all_seed_peers replicas ≡ some selected
      → selected ≡ ok hosts
      → All P hosts
      → (k : Text) (q : SeedPeer) → lookup k peers.hosts ≡ some q
      → q.healthy ≡ true
      → P q.host
  unfolding select_seed_peers select_all
  everywhere P id replicas selected hosts chosen found all k q known healthy =
      healthy_host P peers.hosts k q known healthy (
        subst (All P)
          (sym (healthy_or-ok "seed peers" (values peers.hosts) hosts (unwrap chosen ∙ found))) all)

  -- Under the documented behaviour of retries and of a join set: when a preheat with the scope of all
  -- seed peers succeeds, every seed peer that is known and healthy was sent the download and finished
  -- its stream without an error.
  preheat_everywhere :
      (r : PreheatRequest E.http) (k : Text) (q : SeedPeer)
      → r.scope ≡ all_seed_peers
      → preheat D E p peers network r ≡ some (ok tt)
      → lookup k peers.hosts ≡ some q
      → q.healthy ≡ true
      → Reached D E r.timeout (download D (download_of D E r)) q.host
  unfolding preheat
  preheat_everywhere r k q scope done known healthy =
      let call = download D (download_of D E r) in
      let (id, selected, checked, chosen, finished) =
        started D J E R L p peers v network r _ done in
      let (hosts, found, many, called) = preheat_on-ok D E p network r selected finished in
      everywhere (Reached D E r.timeout call) id r.replicas selected hosts (rw scope at chosen)
        found
        (All-map _ (Answers-Reached D E r.timeout call J R p network) hosts
          ((call_all_iff D J E p network r.timeout call hosts).0 called))
        k q known healthy

  -- Under the documented behaviour of retries and of a join set: when a delete with the scope of all
  -- seed peers succeeds, the request has a task id, and every seed peer that is known and healthy
  -- answered the delete of that task without an error other than that it does not have the task.
  pub delete_everywhere :
      (r : DeleteRequest) (k : Text) (q : SeedPeer)
      → r.scope ≡ all_seed_peers
      → delete D E p peers network r ≡ some (ok tt)
      → lookup k peers.hosts ≡ some q
      → q.healthy ≡ true
      → (task : Text) × (request_task_id D J E R L p peers v network r ≡ ok task)
        × Reached D E r.timeout
            (delete_one D (record { task_id = task; remote_ip = remote_ip D }))
            q.host
  unfolding delete delete_on
  delete_everywhere r k q scope done known healthy =
      let (id, selected, checked, chosen, finished) =
        Deleted.started D J E R L p peers v network r _ done in
      let call = delete_one D (record { task_id = id; remote_ip = remote_ip D }) in
      let (u, valid, named) = >>=-ok (validate_delete r) _ checked in
      let (hosts, found, called) =
        >>=-ok (map_err (wrap E "failed to select seed peers: ") selected) _ finished in
      (
        id,
        named,
        everywhere (Reached D E r.timeout call) id r.replicas selected hosts (rw scope at chosen)
            (map_err-ok _ selected found)
            (All-map _ (Answers-Reached D E r.timeout call J R p network) hosts
              ((call_all_iff D J E p network r.timeout call hosts).0 called))
            k q known healthy,
      )
