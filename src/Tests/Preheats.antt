-- ===== src/Tests/Preheats.antt =====
-- A preheat and a delete of one file on both seed peers, over channels named by their address, and
-- a proxy with given endpoints.
use mathlib.Core.List.Permᴰ
use dragonfly_sdk.Base.{
  decimal, ℕ, ◌<◌, ◌≡◌, refl, inr, false, none, some, List, [], ◌∷◌, arith, All, Text, text,
  text_eq, contains, lookup, insert, pos, split_once,
}
use dragonfly_sdk.Errors.{ok, is_retryable}
use dragonfly_sdk.Requests.Files.{
  PreheatRequest, default_preheat_request, validate_preheat, DeleteRequest, default_delete_request,
  validate_delete,
}
use dragonfly_sdk.Requests.Get.{GetRequest, default_get_request, validate, proxy_headers}
use dragonfly_sdk.Selector.{Host, select}
use dragonfly_sdk.Ids
use dragonfly_sdk.Digest.{is_blob_url, is_manifest_digest_url}
use dragonfly_sdk.Url.{filter_query_params}
use dragonfly_sdk.Retry.{run, delays, run_with_endpoints, sleep}
use dragonfly_sdk.Proxy.{HttpClient, task_id, select_seed_peers}
use dragonfly_sdk.Proxy.Dfdaemon.{Dfdaemon, finished}
use dragonfly_sdk.Proxy.Fanout.{preheat, delete, delete_one, remote_ip}
use dragonfly_sdk.Proxy.Fanout.Outcomes.{JoinLaws}
use dragonfly_sdk.Proxy.Fanout.Preheated.{IsPreheated, preheat-IsPreheated}
use dragonfly_sdk.Proxy.Lookup.{lookup_endpoints}
use dragonfly_sdk.Proxy.Lookup.Endpoints.{ProxyOf}
use dragonfly_sdk.Requests.{all_seed_peers}
use dragonfly_sdk.Selector.{select_all}
use dragonfly_sdk.Proxy.Fanout.Everywhere.{delete_everywhere}
use dragonfly_sdk.Proxy.Fanout.Outcomes.{Reached}
use dragonfly_sdk.Proxy.Fanout.Served.{HasFile, get_of, lookup_endpoints-preheat}
use dragonfly_sdk.Tests.Requests.{both_proxies}
use dragonfly_sdk.Selector.Ejections.{proxy_endpoint, is_ejected}
use dragonfly_sdk.Net.{format_url}
use dragonfly_sdk.Proxy.Fanout.Deleted.{IsDeleted, delete-IsDeleted, request_task_id}
use dragonfly_sdk.Proxy.Builders.Endpoints.{
  ProxyWithEndpoints, ProxyWithEndpointsBuilder, build_with_endpoints,
}
use dragonfly_sdk.Proxy.Builders.Endpoints.{get_into_at_endpoints}
use dragonfly_sdk.Proxy.Builders.Delivered.{Leaves, get_into_at_endpoints-Leaves}
use dragonfly_sdk.Tests.Retries.{plain_retry, plain_retrier_laws}
use dragonfly_sdk.Tests.World.{
  peer_a, plain_env, plain_laws, plain_proxy, plain_peers, plain_peers-IsSynced, plain_http,
  plain_policy, plain_session, host_a,
}

abbrev pub plain_dfdaemon : Dfdaemon
plain_dfdaemon = record {
  Net = ℕ;
  Channel = Text;
  timer = λ d n. n;
  level6 = pos 6;
  local_ip = none;
  local_ipv6 = none;
  decode_backend = λ b. none;
  try_duration = λ d. none;
  from_shared = λ t. none;
  connect = λ addr timeout n. (n, inr addr);
  download_task = λ channel d n. (n, inr finished);
  delete_task = λ channel d n. (n, none);
  joined = λ rs. rs;
}

pub plain_join : JoinLaws plain_dfdaemon
plain_join = record { joined = λ rs. Permᴰ.refl rs }

abbrev file_preheat : PreheatRequest plain_http
file_preheat = record (default_preheat_request plain_http) {
  url = text "http://h/f";
  filtered_query_params = [];
}

preheated :
    preheat plain_dfdaemon plain_env plain_proxy plain_peers (λ addr. 0) file_preheat ≡ some (ok tt)
unfolding preheat plain_peers validate_preheat task_id Ids.task_id is_blob_url
    is_manifest_digest_url filter_query_params select_seed_peers select insert text_eq contains
    lookup run plain_retry delays
preheated = refl

preheat-IsPreheated_example :
    (hosts : List Host) × IsPreheated plain_dfdaemon plain_join plain_env plain_retrier_laws
      plain_laws plain_proxy plain_peers plain_peers-IsSynced
      (λ addr. 0)
      file_preheat
      hosts
preheat-IsPreheated_example =
    preheat-IsPreheated plain_dfdaemon plain_join plain_env plain_retrier_laws plain_laws
      plain_proxy plain_peers plain_peers-IsSynced (λ addr. 0) file_preheat refl (omega arith)
      preheated

found_for_get :
    lookup_endpoints plain_env plain_proxy plain_peers plain_session
      (get_of plain_env file_preheat [] 9)
    ≡ some (ok both_proxies)
unfolding lookup_endpoints plain_peers validate split_once text_eq task_id Ids.task_id is_blob_url
    is_manifest_digest_url filter_query_params select insert contains lookup proxy_endpoint
    is_ejected format_url decimal
found_for_get = refl

lookup_endpoints-preheat_example :
    All
      (ProxyOf plain_env (
        HasFile plain_env plain_dfdaemon plain_join plain_retrier_laws plain_laws plain_proxy
          plain_peers plain_peers-IsSynced
          (λ addr. 0)
          file_preheat))
      both_proxies
    × (0 < 2)
lookup_endpoints-preheat_example =
    lookup_endpoints-preheat plain_env plain_dfdaemon plain_join plain_retrier_laws plain_laws
      plain_proxy plain_peers plain_peers-IsSynced (λ addr. 0) file_preheat [] 9 plain_session
      both_proxies refl preheated found_for_get

abbrev file_delete : DeleteRequest
file_delete = record default_delete_request { url = text "http://h/f"; filtered_query_params = [] }

deleted :
    delete plain_dfdaemon plain_env plain_proxy plain_peers (λ addr. 0) file_delete ≡ some (ok tt)
unfolding delete plain_peers validate_delete task_id Ids.task_id is_blob_url is_manifest_digest_url
    filter_query_params select_seed_peers select insert text_eq contains lookup run plain_retry
    delays
deleted = refl

delete-IsDeleted_example :
    (hosts : List Host) × IsDeleted plain_dfdaemon plain_join plain_env plain_retrier_laws
      plain_laws plain_proxy plain_peers plain_peers-IsSynced
      (λ addr. 0)
      file_delete
      hosts
delete-IsDeleted_example =
    delete-IsDeleted plain_dfdaemon plain_join plain_env plain_retrier_laws plain_laws plain_proxy
      plain_peers plain_peers-IsSynced (λ addr. 0) file_delete refl (omega arith) deleted

-- The same delete on all seed peers.
abbrev delete_all : DeleteRequest
delete_all = record file_delete { scope = all_seed_peers }

deleted_everywhere :
    delete plain_dfdaemon plain_env plain_proxy plain_peers (λ addr. 0) delete_all ≡ some (ok tt)
unfolding delete plain_peers validate_delete task_id Ids.task_id is_blob_url is_manifest_digest_url
    filter_query_params select_seed_peers select_all insert text_eq contains lookup run plain_retry
    delays
deleted_everywhere = refl

peer_a_known : lookup (text "a") plain_peers.hosts ≡ some peer_a
unfolding plain_peers insert lookup text_eq
peer_a_known = refl

delete_everywhere_example :
    (task : Text) × (request_task_id plain_dfdaemon plain_join plain_env plain_retrier_laws
        plain_laws plain_proxy plain_peers plain_peers-IsSynced
        (λ addr. 0)
        delete_all
      ≡ ok task)
    × Reached plain_dfdaemon plain_env delete_all.timeout
        (delete_one plain_dfdaemon
          (record { task_id = task; remote_ip = remote_ip plain_dfdaemon }))
        host_a
delete_everywhere_example =
    delete_everywhere plain_dfdaemon plain_join plain_env plain_retrier_laws plain_laws plain_proxy
      plain_peers plain_peers-IsSynced (λ addr. 0) delete_all (text "a") peer_a refl
      deleted_everywhere peer_a_known refl

-- A proxy with given endpoints, one of them twice.
abbrev given : ProxyWithEndpointsBuilder plain_env
given = record { endpoints = text "p" ∷ text "q" ∷ text "p" ∷ []; retry = plain_policy }

abbrev client_at : Text → HttpClient plain_env
client_at endpoint = record { client = endpoint; endpoint = endpoint; can_be_ejected = false }

abbrev built : ProxyWithEndpoints plain_env
built = record {
  endpoints = text "p" ∷ text "q" ∷ text "p" ∷ [];
  retry = plain_policy;
  clients = (text "p", client_at (text "p")) ∷ (text "q", client_at (text "q")) ∷ [];
}

built_from_given : build_with_endpoints plain_env given ≡ ok built
unfolding build_with_endpoints lookup insert text_eq
built_from_given = refl

abbrev file_get : GetRequest plain_http
file_get = record (default_get_request plain_http) {
  url = text "http://h/f";
  filtered_query_params = [];
}

get_into_at_endpoints-Leaves_example :
    let (result, (s', buf')) =
      get_into_at_endpoints plain_env built plain_session file_get (text "x") in
    Leaves plain_env given file_get (text "x") result buf'
get_into_at_endpoints-Leaves_example =
    get_into_at_endpoints-Leaves plain_env given file_get plain_retrier_laws built plain_session
      (text "x") built_from_given

-- The first attempt breaks off after two bytes, and the second one is complete.
got_hello :
    (get_into_at_endpoints plain_env built plain_session file_get (text "x")).1.1 ≡ text "xhello"
unfolding get_into_at_endpoints validate lookup text_eq run_with_endpoints plain_retry delays
    split_once proxy_headers is_retryable sleep
got_hello = refl
