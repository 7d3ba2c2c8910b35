-- ===== src/Proxy/Fanout/Deleted.antt =====
-- client-request/rust/src/lib.rs: from where a delete that succeeds has removed the file.
use mathlib.Core.Option
use dragonfly_sdk.Base.{
  ◌^◌, ◌<◌, min, ◌≡◌, refl, ap, ◌∙◌, Option, none, some, List, arith, length, All, All-map, Text,
}
use dragonfly_sdk.Errors.{Result, ok, err, >>=-ok, map_err, map_err-ok}
use dragonfly_sdk.Requests.{default_scope}
use dragonfly_sdk.Requests.Files.{DeleteRequest, validate_delete}
use dragonfly_sdk.Retry.{RetrierLaws}
use dragonfly_sdk.Selector.{Host, SeedPeers}
use dragonfly_sdk.Selector.Ring.{RingLaws}
use dragonfly_sdk.Selector.Synced.{IsSynced}
use dragonfly_sdk.Selector.Choice.{IsChoice, select-IsChoice}
use dragonfly_sdk.Proxy.{Env, Proxy, as_u32, wrap, task_id, select_seed_peers}
use dragonfly_sdk.Proxy.Total.{positive}
use dragonfly_sdk.Proxy.Dfdaemon.{Dfdaemon}
use dragonfly_sdk.Proxy.Fanout.{delete_one, delete_on, delete_task, delete, remote_ip}
use dragonfly_sdk.Proxy.Fanout.Outcomes.{JoinLaws, Reached, Answers-Reached, call_all_iff, unwrap}

module _ (D : Dfdaemon) (J : JoinLaws D) (E : Env) (R : RetrierLaws E.retrier) (L : RingLaws E.ring)
    (p : Proxy E) (peers : SeedPeers E.ring) (v : IsSynced E.ring L peers)
    (network : Text → D.Net) where
  abbrev pub request_task_id : DeleteRequest → Result Text
  request_task_id r =
      task_id E p r.url r.piece_length r.tag r.application r.filtered_query_params
        r.content_for_calculating_task_id r.enable_task_id_based_blob_digest

  -- The seed peers that the selection for the request's task gave, all of which answered the delete of
  -- that task, if only that they do not have it.
  pub record IsDeleted (r : DeleteRequest) (hosts : List Host) : Type 0 where
    pub task : Text
    pub named : request_task_id r ≡ ok task
    pub selected : select_seed_peers E peers task r.scope r.replicas ≡ some (ok hosts)
    pub choice : IsChoice peers.hosts (min r.replicas (length peers.hosts)) hosts
    pub deleted :
        All
          (Reached D E r.timeout
            (delete_one D (record { task_id = task; remote_ip = remote_ip D })))
          hosts

  selected_hosts :
      (r : DeleteRequest) (id : Text) (selected : Result (List Host))
      → r.scope ≡ default_scope
      → r.replicas < 2 ^ 32
      → 0 < r.replicas
      → select_seed_peers E peers id r.scope r.replicas ≡ some selected
      → delete_on D E p network r id selected ≡ ok tt
      → request_task_id r ≡ ok id
      → (hosts : List Host) × IsDeleted r hosts
  unfolding select_seed_peers delete_on
  selected_hosts r id selected scope fits some_replica chosen h named =
      let (hosts, found, called) =
        >>=-ok (map_err (wrap E "failed to select seed peers: ") selected) _ h in
      let same : as_u32 E r.replicas ≡ r.replicas = omega arith in
      (
        hosts,
        record {
          task = id;
          named = named;
          selected = chosen ∙ ap some (map_err-ok _ selected found);
          choice =
              select-IsChoice E.ring L peers v id r.replicas hosts some_replica
                (rw (scope, same) at chosen ∙ ap some (map_err-ok _ selected found));
          deleted =
              All-map _
                (Answers-Reached D E r.timeout
                  (delete_one D (record { task_id = id; remote_ip = remote_ip D })) J R p network)
                hosts
                ((call_all_iff D J E p network r.timeout
                    (delete_one D (record { task_id = id; remote_ip = remote_ip D })) hosts).0
                  called);
        },
      )

  pub started :
      (r : DeleteRequest) (checked : Result Text)
      → delete_task D E p peers network r checked ≡ some (ok tt)
      → (id : Text) × (selected : Result (List Host)) × (checked ≡ ok id)
        × (select_seed_peers E peers id r.scope r.replicas ≡ some selected)
        × (delete_on D E p network r id selected ≡ ok tt)
  unfolding delete_task
  started r (err e) h = cc
  started r (ok id) h = chosen (select_seed_peers E peers id r.scope r.replicas) refl h
    where
      chosen :
          (found : Option (Result (List Host)))
          → select_seed_peers E peers id r.scope r.replicas ≡ found
          → Option.map (delete_on D E p network r id) found ≡ some (ok tt)
          → (id' : Text) × (selected : Result (List Host)) × (Path (Result Text) (ok id) (ok id'))
            × (select_seed_peers E peers id' r.scope r.replicas ≡ some selected)
            × (delete_on D E p network r id' selected ≡ ok tt)
      chosen none e q = cc
      chosen (some selected) e q = (id, selected, refl, e, unwrap q)

  request_valid : (r : DeleteRequest) (u : Unit {0}) → validate_delete r ≡ ok u → 0 < r.replicas
  unfolding validate_delete
  request_valid r u h = positive r.replicas h

  -- Under the documented behaviour of the hash ring, of retries and of a join set, and with hosts and ring in
  -- step: when a delete from the replicas of a task succeeds, and the number of replicas fits the
  -- `u32` it is cast to, then the selection for the request's task gave at least one seed peer and no
  -- more than the replicas and the seed peers there are, known, healthy and of distinct names, and
  -- each of those that it gave answered the delete
  -- of the request's task without an error other than that it does not have the task.
  pub delete-IsDeleted :
      (r : DeleteRequest)
      → r.scope ≡ default_scope
      → r.replicas < 2 ^ 32
      → delete D E p peers network r ≡ some (ok tt)
      → (hosts : List Host) × IsDeleted r hosts
  unfolding delete
  delete-IsDeleted r scope fits h =
      let (id, selected, checked, chosen, done) = started r _ h in
      let (u, valid, named) = >>=-ok (validate_delete r) _ checked in
      selected_hosts r id selected scope fits (request_valid r u valid) chosen done named
