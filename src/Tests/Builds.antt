-- ===== src/Tests/Builds.antt =====
-- The building of a proxy over a scheduler, and the headers of a GET.
use dragonfly_sdk.Base.{
  decimal, ◌<◌, ◌≡◌, refl, ◌↔◌, inr, true, none, some, List, [], ◌∷◌, map, arith, All, Text, text,
  text_eq, contains, TextMap, lookup, insert, lookup-insert, split_once,
}
use dragonfly_sdk.Errors.{ok}
use dragonfly_sdk.Http.{HttpApi}
use dragonfly_sdk.Net.{v4, preferred_local_ip}
use dragonfly_sdk.Requests.Get.{GetRequest, default_get_request, proxy_headers, validate}
use dragonfly_sdk.Requests.Get.Headers.{
  lower, HttpLaws, dragonfly_headers, after_all, proxy_headers-get,
}
use dragonfly_sdk.Selector.{empty_seed_peers, update}
use dragonfly_sdk.Proxy.Builders.{ProxyBuilder, default_builder, validate_builder}
use dragonfly_sdk.Proxy.Builders.Setters.{set_scheduler_endpoint, set_max_retries}
use dragonfly_sdk.Proxy.Builders.Scheduled.{ScheduledProxy, build_with_scheduler}
use dragonfly_sdk.Proxy.Builders.Scheduled.Accepted.{IsAccepted, validate_builder-IsAccepted}
use dragonfly_sdk.Proxy.Builders.Scheduled.Built.{IsBuilt, build_with_scheduler-IsBuilt}
use dragonfly_sdk.Ids
use dragonfly_sdk.Digest.{is_blob_url, is_manifest_digest_url}
use dragonfly_sdk.Url.{filter_query_params}
use dragonfly_sdk.Selector.{SeedPeer, SeedPeers, select}
use dragonfly_sdk.Selector.Ejections.{proxy_endpoint, is_ejected}
use dragonfly_sdk.Net.{format_url}
use dragonfly_sdk.Proxy.{Proxy, Session, task_id}
use dragonfly_sdk.Proxy.Lookup.{lookup_endpoints}
use dragonfly_sdk.Proxy.Lookup.Endpoints.{ProxyOf}
use dragonfly_sdk.Proxy.Builders.{
  ProxyWithSeedPeersBuilder, default_seed_peers_builder, build_with_seed_peers, validate_seed_peers,
  update_seed_peers,
}
use dragonfly_sdk.Proxy.Builders.Kept.{Among, updates, IsKept, lookup_endpoints-updates}
use dragonfly_sdk.Tests.Requests.{file_request}
use dragonfly_sdk.Tests.Retries.{plain_retrier}
use dragonfly_sdk.Tests.World.{
  plain_session, peer_a, plain_env, plain_url, plain_laws, plain_ring, plain_http, two_peers,
}
use dragonfly_sdk.Tests.Seeds.{plain_scheduler, plain_joined}

abbrev over_scheduler : ProxyBuilder plain_retrier
over_scheduler =
    set_max_retries plain_retrier 2
      (set_scheduler_endpoint plain_retrier (text "http://s") (default_builder plain_retrier))

validate_builder-IsAccepted_example :
    (validate_builder plain_retrier plain_url over_scheduler ≡ ok tt)
    ↔ IsAccepted plain_retrier plain_url over_scheduler
validate_builder-IsAccepted_example =
    validate_builder-IsAccepted plain_retrier plain_url over_scheduler

abbrev scheduled : ScheduledProxy plain_env plain_scheduler
scheduled = record {
  proxy = record {
    scheduler_endpoint = text "http://s";
    retry = record { max_retries = 2; backoff = none };
    id_generator = record { ip = text "10.0.0.9"; hostname = text "h"; is_seed_peer = true };
  };
  session = record {
    ejections = [];
    pool = record { clients = []; capacity = 128; idle_timeout = 1800000000000; cleanup_at = 0 };
    world = 0;
  };
  seed_peers = update plain_ring (empty_seed_peers plain_ring) two_peers;
  channel = text "http://s";
  interval = 60000000000;
}

scheduled_built :
    build_with_scheduler plain_env plain_scheduler
      (some (v4 (text "10.0.0.9")))
      none
      (inr (text "h"))
      over_scheduler
      0
    ≡ ok scheduled
unfolding build_with_scheduler split_once preferred_local_ip
scheduled_built = refl

build_with_scheduler-IsBuilt_example :
    IsBuilt plain_env plain_scheduler plain_joined plain_laws over_scheduler scheduled
build_with_scheduler-IsBuilt_example =
    build_with_scheduler-IsBuilt plain_env plain_scheduler plain_joined plain_laws
      (some (v4 (text "10.0.0.9"))) none (inr (text "h")) over_scheduler 0 scheduled scheduled_built

-- A client with given seed peers, and updates of which the second alone is valid.
abbrev given_builder : ProxyWithSeedPeersBuilder plain_retrier
given_builder = record (default_seed_peers_builder plain_retrier) { seed_peers = two_peers }

abbrev given_built : (Proxy plain_env × Session plain_env) × SeedPeers plain_ring
given_built = (
  (
    record {
      scheduler_endpoint = [];
      retry = record { max_retries = 1; backoff = none };
      id_generator = record { ip = text "10.0.0.9"; hostname = text "h"; is_seed_peer = true };
    },
    scheduled.session,
  ),
  update plain_ring (empty_seed_peers plain_ring) two_peers,
)

given_made :
    build_with_seed_peers plain_env
      (some (v4 (text "10.0.0.9")))
      none
      (inr (text "h"))
      given_builder
      0
    ≡ ok given_built
unfolding build_with_seed_peers preferred_local_ip validate_seed_peers contains text_eq
given_made = refl

abbrev later_lists : List (List SeedPeer)
later_lists = [] ∷ (peer_a ∷ []) ∷ (peer_a ∷ peer_a ∷ []) ∷ []

given_found :
    lookup_endpoints plain_env given_built.0.0
      (updates plain_ring plain_laws given_built.1 later_lists)
      plain_session
      file_request
    ≡ some (ok (text "http://10.0.0.1:4001" ∷ []))
unfolding lookup_endpoints validate split_once text_eq task_id Ids.task_id is_blob_url
    is_manifest_digest_url filter_query_params select insert contains lookup proxy_endpoint
    is_ejected format_url decimal update_seed_peers update
given_found = refl

lookup_endpoints-updates_example :
    IsKept plain_ring plain_laws
      (peer_a ∷ [])
      (updates plain_ring plain_laws given_built.1 later_lists)
    × (0 < 1)
    × All
        (ProxyOf plain_env (λ h. Among (record { host = h; healthy = true }) (peer_a ∷ [])))
        (text "http://10.0.0.1:4001" ∷ [])
unfolding validate_seed_peers contains text_eq
lookup_endpoints-updates_example =
    lookup_endpoints-updates plain_env plain_laws (some (v4 (text "10.0.0.9"))) none
      (inr (text "h")) given_builder 0 given_built later_lists plain_session file_request
      (text "http://10.0.0.1:4001" ∷ []) given_made (omega arith) given_found

-- Headers under their names in lower case.
abbrev folding_http : HttpApi
folding_http = record plain_http {
  get = λ h k. lookup (map lower k) h;
  set = λ j v h. insert (map lower j) v h;
}

folding_laws : HttpLaws folding_http
folding_laws = record { get-set = λ j v k h. lookup-insert (map lower j) (map lower k) v h }

abbrev tagged : GetRequest folding_http
tagged = record (default_get_request folding_http) {
  header = (text "x-dragonfly-tag", text "old") ∷ (text "range", text "r") ∷ [];
  tag = some (text "new");
  filtered_query_params = [];
}

abbrev tagged_headers : TextMap Text
tagged_headers =
    (text "x-dragonfly-tag", text "new")
    ∷ (text "range", text "r")
    ∷ (text "x-dragonfly-enable-task-id-based-blob-digest", text "true")
    ∷ (text "x-dragonfly-use-p2p", text "true")
    ∷ []

tagged_sent : proxy_headers folding_http tagged ≡ ok tagged_headers
unfolding proxy_headers insert text_eq
tagged_sent = refl

proxy_headers-get_example :
    folding_http.get tagged_headers (text "X-Dragonfly-Tag")
    ≡ after_all folding_http folding_laws
        (dragonfly_headers folding_http folding_laws tagged)
        (text "X-Dragonfly-Tag")
        (folding_http.get tagged.header (text "X-Dragonfly-Tag"))
proxy_headers-get_example =
    proxy_headers-get folding_http folding_laws tagged tagged_headers (text "X-Dragonfly-Tag")
      tagged_sent
