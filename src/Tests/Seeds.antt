-- ===== src/Tests/Seeds.antt =====
-- Listings of two seed peers that a scheduler knows, and the service that refreshes them.
use mathlib.Core.List.Permᴰ
use dragonfly_sdk.Base.{
  ◌≡◌, refl, ◌↔◌, ◌⊎◌, inl, inr, Bool, true, false, none, some, List, [], ◌∷◌, arith, All, Text,
  text, text_eq, contains, lookup, insert, keys, pos,
}
use dragonfly_sdk.Errors.{ok, err, internal, Status, invalid_argument_code, invalid_argument}
use dragonfly_sdk.Net.{v4}
use dragonfly_sdk.Requests.Images.{StatImageRequest, default_stat_image_request}
use dragonfly_sdk.Selector.{Host, select, hosts_of, empty_seed_peers, SeedPeer, update}
use dragonfly_sdk.Selector.Synced.{IsSynced}
use dragonfly_sdk.Shutdown.{terminate, unlistened}
use dragonfly_sdk.Selector.Service.{
  comparing, Event, tick, signal, run, Shared, Reachable, new, next, start_refresh, list_refresh,
  start_update,
}
use dragonfly_sdk.Selector.Service.InStep.{IsInStep, Reachable-IsInStep}
use dragonfly_sdk.Selector.Service.LastListing.{run-last_hosts}
use dragonfly_sdk.Scheduler.{SchedulerApi, list_seed_peers, refresh_from}
use dragonfly_sdk.Selector.Reuse.{update-hashring}
use dragonfly_sdk.Scheduler.Listing.{
  IsListed, list_seed_peers-IsListed, JoinedLaws, IsChecked, refresh-select_checked,
}
use dragonfly_sdk.Proxy.StatImage.{StatApi, stat_image}
use dragonfly_sdk.Proxy.StatImage.Failures.{IsFailure, stat_image-IsFailure}
use dragonfly_sdk.Tests.World.{
  plain_env, plain_ring, plain_laws, plain_proxy, plain_peers, plain_peers-IsSynced, host_a, host_b,
  peer_a, two_peers, peer_b,
}
use dragonfly_sdk.Tests.Registry.{plain_oci}

abbrev pub plain_scheduler : SchedulerApi
plain_scheduler = record {
  Channel = Text;
  parse_ip = λ t. inr (v4 t);
  from_shared = λ t. none;
  connect = λ endpoint timeout. inr endpoint;
  list_hosts = λ channel. inr (host_a ∷ host_b ∷ []);
  in_time = λ addr timeout. true;
  HealthChannel = Text;
  health_connect = λ addr timeout. inr addr;
  check = λ channel timeout. inr (pos 1);
  serving = pos 1;
  joined = λ ps. ps;
}

pub plain_joined : JoinedLaws plain_scheduler
plain_joined = record { all_joined = λ ps. Permᴰ.refl ps }

two_listed : list_seed_peers plain_scheduler (text "s") ≡ ok two_peers
unfolding list_seed_peers
two_listed = refl

list_seed_peers-IsListed_example : IsListed plain_scheduler plain_joined (text "s") two_peers
list_seed_peers-IsListed_example =
    list_seed_peers-IsListed plain_scheduler plain_joined (text "s") two_peers two_listed

refreshed : (refresh_from plain_scheduler plain_ring (text "s") false plain_peers).0 ≡ ok tt
unfolding refresh_from
refreshed = refl

both_selected :
    select plain_ring
      (refresh_from plain_scheduler plain_ring (text "s") false plain_peers).1
      (text "t")
      2
    ≡ some (ok (host_b ∷ host_a ∷ []))
unfolding refresh_from plain_peers select insert lookup contains text_eq
both_selected = refl

refresh-select_checked_example :
    (Path Bool false true
      × ((refresh_from plain_scheduler plain_ring (text "s") false plain_peers).1 ≡ plain_peers))
    ⊎ (Path Bool false false
        × IsSynced plain_ring plain_laws
            (refresh_from plain_scheduler plain_ring (text "s") false plain_peers).1
        × ((hosts : List Host) × (plain_scheduler.list_hosts (text "s") ≡ inr hosts)
            × All
                (λ h.
                  IsChecked plain_scheduler plain_joined hosts
                    (record { host = h; healthy = true }))
                (host_b ∷ host_a ∷ [])))
refresh-select_checked_example =
    refresh-select_checked plain_scheduler plain_joined plain_ring plain_laws false (text "s")
      plain_peers (text "t") 2 (host_b ∷ host_a ∷ []) plain_peers-IsSynced (omega arith) refreshed
      both_selected

-- A listing that fails, two that succeed, the first with a signal during its refresh, a signal while
-- the loop waits, and a tick after it.
abbrev seen : List Event
seen =
    tick false (err (internal [])) []
    ∷ signal 1 unlistened
    ∷ tick false (ok (peer_a ∷ [])) (terminate ∷ [])
    ∷ tick false (ok two_peers) []
    ∷ signal 2 terminate
    ∷ tick false (ok (peer_a ∷ [])) []
    ∷ []

run-last_hosts_example :
    IsSynced plain_ring plain_laws (run plain_ring plain_peers seen)
    × ((run plain_ring plain_peers seen).hosts ≡ hosts_of two_peers)
run-last_hosts_example = run-last_hosts plain_ring plain_laws plain_peers seen plain_peers-IsSynced

-- A refresh has its listing and waits for the write lock while another update begins.
abbrev listed_once : Shared plain_ring
listed_once = record {
  seed_peers = empty_seed_peers plain_ring;
  locked = true;
  calls = comparing false (hosts_of (peer_a ∷ [])) ∷ comparing true (hosts_of two_peers) ∷ [];
}

listed_once-Reachable : Reachable plain_ring listed_once
listed_once-Reachable =
    next (next (next new (start_refresh refl)) (list_refresh [] [] two_peers refl))
      (start_update (peer_a ∷ []))

Reachable-IsInStep_example : IsInStep plain_ring plain_laws listed_once
Reachable-IsInStep_example = Reachable-IsInStep plain_ring plain_laws listed_once-Reachable

-- The same names, one of them no longer healthy.
abbrev one_ill : List SeedPeer
one_ill = peer_a ∷ record peer_b { healthy = false } ∷ []

same_keys : (k : Text) → contains k (keys (hosts_of one_ill)) ≡ contains k (keys plain_peers.hosts)
unfolding plain_peers insert text_eq
same_keys k = refl

update-hashring_example : (update plain_ring plain_peers one_ill).hashring ≡ plain_peers.hashring
update-hashring_example =
    update-hashring plain_ring plain_laws plain_peers one_ill plain_peers-IsSynced same_keys

-- A scheduler that refuses every request as an invalid argument.
abbrev refusal : Status
refusal = record { code = invalid_argument_code; message = []; details = [] }

abbrev refusing : StatApi plain_scheduler
refusing = record { try_duration = λ d. none; stat_image = λ channel request. inl refusal }

abbrev nginx_stat : StatImageRequest
nginx_stat = record default_stat_image_request { image = text "nginx" }

stat_image-IsFailure_example :
    (stat_image plain_env plain_oci plain_scheduler refusing plain_proxy nginx_stat
      ≡ err (invalid_argument (text "failed to stat image nginx: ")))
    ↔ IsFailure plain_env plain_oci plain_scheduler refusing plain_proxy nginx_stat
        (invalid_argument (text "failed to stat image nginx: "))
stat_image-IsFailure_example =
    stat_image-IsFailure plain_env plain_oci plain_scheduler refusing plain_proxy nginx_stat
      (invalid_argument (text "failed to stat image nginx: "))

nginx_refused :
    stat_image plain_env plain_oci plain_scheduler refusing plain_proxy nginx_stat
    ≡ err (invalid_argument (text "failed to stat image nginx: "))
unfolding stat_image
nginx_refused = refl
