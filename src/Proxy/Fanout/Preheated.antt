-- ===== src/Proxy/Fanout/Preheated.antt =====
-- client-request/rust/src/lib.rs: where a preheat that succeeds has put the file.
use mathlib.Core.Option
use dragonfly_sdk.Base.{
  ℕ, ◌^◌, ◌≤◌, ◌<◌, min, ◌≡◌, refl, ap, ◌∙◌, Option, none, some, List, arith, length, All, All-map,
  Text,
}
use dragonfly_sdk.Errors.{Result, ok, err, >>=-ok}
use dragonfly_sdk.Requests.{default_scope}
use dragonfly_sdk.Requests.Files.{PreheatRequest, validate_preheat}
use dragonfly_sdk.Retry.{RetrierLaws}
use dragonfly_sdk.Selector.{Host, SeedPeers}
use dragonfly_sdk.Selector.Ring.{RingLaws}
use dragonfly_sdk.Selector.Synced.{IsSynced}
use dragonfly_sdk.Selector.Choice.{IsChoice, select-IsChoice}
use dragonfly_sdk.Proxy.{Env, Proxy, as_u32, task_id, select_seed_peers}
use dragonfly_sdk.Proxy.Total.{positive}
use dragonfly_sdk.Proxy.Dfdaemon.{Dfdaemon}
use dragonfly_sdk.Proxy.Fanout.{
  download, download_of, preheat_on, preheat_task, preheat, enough_peers,
}
use dragonfly_sdk.Proxy.Fanout.Outcomes.{
  JoinLaws, Reached, Answers-Reached, call_all_iff, preheat_on-ok, unwrap,
}

module _ (D : Dfdaemon) (J : JoinLaws D) (E : Env) (R : RetrierLaws E.retrier) (L : RingLaws E.ring)
    (p : Proxy E) (peers : SeedPeers E.ring) (v : IsSynced E.ring L peers)
    (network : Text → D.Net) where
  abbrev pub preheat_task_id : PreheatRequest E.http → Result Text
  preheat_task_id r =
      task_id E p r.url r.piece_length r.tag r.application r.filtered_query_params
        r.content_for_calculating_task_id r.enable_task_id_based_blob_digest

  -- The seed peers that the selection for the request's task gave hold the file afterwards.
  pub record IsPreheated (r : PreheatRequest E.http) (hosts : List Host) : Type 0 where
    pub task : Text
    pub named : preheat_task_id r ≡ ok task
    pub selected : select_seed_peers E peers task r.scope r.replicas ≡ some (ok hosts)
    pub count : length hosts ≡ r.replicas
    pub choice : IsChoice peers.hosts (min r.replicas (length peers.hosts)) hosts
    pub downloaded : All (Reached D E r.timeout (download D (download_of D E r))) hosts

  enough :
      (replicas : ℕ) (hosts : List Host)
      → enough_peers D E default_scope replicas hosts ≡ ok tt
      → replicas ≤ length hosts
  unfolding enough_peers
  enough replicas hosts h = ground arith

  request_valid :
      (r : PreheatRequest E.http) (u : Unit {0}) → validate_preheat E.http r ≡ ok u → 0 < r.replicas
  unfolding validate_preheat
  request_valid r u h = positive r.replicas h

  as_u32_same : (n : ℕ) → n < 2 ^ 32 → as_u32 E n ≡ n
  as_u32_same n h = omega arith

  selected_hosts :
      (r : PreheatRequest E.http) (id : Text) (selected : Result (List Host))
      → r.scope ≡ default_scope
      → r.replicas < 2 ^ 32
      → 0 < r.replicas
      → select_seed_peers E peers id r.scope r.replicas ≡ some selected
      → preheat_on D E p network r selected ≡ ok tt
      → preheat_task_id r ≡ ok id
      → (hosts : List Host) × IsPreheated r hosts
  unfolding select_seed_peers
  selected_hosts r id selected scope fits some_replica chosen h named =
      let (hosts, found, many, called) = preheat_on-ok D E p network r selected h in
      let same = as_u32_same r.replicas fits in
      let choice : IsChoice peers.hosts (min r.replicas (length peers.hosts)) hosts =
        select-IsChoice E.ring L peers v id r.replicas hosts some_replica
          (rw (scope, same) at chosen ∙ ap some found) in
      let most = choice.bounded in
      (
        hosts,
        record {
          task = id;
          named = named;
          selected = chosen ∙ ap some found;
          count = omega (arith, enough r.replicas hosts (rw scope at many));
          choice = choice;
          downloaded =
              All-map _
                (Answers-Reached D E r.timeout (download D (download_of D E r)) J R p network) hosts
                ((call_all_iff D J E p network r.timeout (download D (download_of D E r)) hosts).0
                  called);
        },
      )

  pub started :
      (r : PreheatRequest E.http) (checked : Result Text)
      → preheat_task D E p peers network r checked ≡ some (ok tt)
      → (id : Text) × (selected : Result (List Host)) × (checked ≡ ok id)
        × (select_seed_peers E peers id r.scope r.replicas ≡ some selected)
        × (preheat_on D E p network r selected ≡ ok tt)
  unfolding preheat_task
  started r (err e) h = cc
  started r (ok id) h = chosen (select_seed_peers E peers id r.scope r.replicas) refl h
    where
      chosen :
          (found : Option (Result (List Host)))
          → select_seed_peers E peers id r.scope r.replicas ≡ found
          → Option.map (preheat_on D E p network r) found ≡ some (ok tt)
          → (id' : Text) × (selected : Result (List Host)) × (Path (Result Text) (ok id) (ok id'))
            × (select_seed_peers E peers id' r.scope r.replicas ≡ some selected)
            × (preheat_on D E p network r selected ≡ ok tt)
      chosen none e q = cc
      chosen (some selected) e q = (id, selected, refl, e, unwrap q)

  -- Under the documented behaviour of the hash ring, of retries and of a join set, and with hosts and ring in
  -- step: when a preheat to the replicas of a task succeeds, and the number of replicas fits the
  -- `u32` it is cast to, then there are exactly that many seed peers, known, healthy and of distinct
  -- names, which the selection for the request's task gives, and each of them was sent the download and finished its stream without an error.
  pub preheat-IsPreheated :
      (r : PreheatRequest E.http)
      → r.scope ≡ default_scope
      → r.replicas < 2 ^ 32
      → preheat D E p peers network r ≡ some (ok tt)
      → (hosts : List Host) × IsPreheated r hosts
  unfolding preheat
  preheat-IsPreheated r scope fits h =
      let (id, selected, checked, chosen, done) = started r _ h in
      let (u, valid, named) = >>=-ok (validate_preheat E.http r) _ checked in
      selected_hosts r id selected scope fits (request_valid r u valid) chosen done named
