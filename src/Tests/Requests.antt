-- ===== src/Tests/Requests.antt =====
-- The retries of a request, and a request whose first answer breaks off.
use dragonfly_sdk.Base.{
  decimal, ℕ, suc, ◌+◌, ◌*◌, ◌≤◌, min, ◌≡◌, refl, true, none, some, List, [], ◌∷◌, arith, ltb,
  if◌then◌else◌, length, replicate, Text, text, text_eq, contains, lookup, insert, split_once,
}
use dragonfly_sdk.Errors.{Error, Result, ok, err, internal, is_retryable}
use dragonfly_sdk.Requests.Get.{
  GetRequest, GetResponse, default_get_request, validate, proxy_headers,
}
use dragonfly_sdk.Ids
use dragonfly_sdk.Digest.{is_blob_url, is_manifest_digest_url}
use dragonfly_sdk.Url.{filter_query_params}
use dragonfly_sdk.Selector.{select}
use dragonfly_sdk.Selector.Ejections.{proxy_endpoint, is_ejected}
use dragonfly_sdk.Net.{format_url}
use dragonfly_sdk.Retry.{run, run_with_endpoints, sleep, delays}
use dragonfly_sdk.Retry.Runs.{Attempts, run-Attempts}
use dragonfly_sdk.Retry.Rotation.{logged, log_timer, GoesRound, run_with_endpoints-GoesRound}
use dragonfly_sdk.Proxy.{Session, task_id}
use dragonfly_sdk.Proxy.Send.{send_to}
use dragonfly_sdk.Proxy.Lookup.{lookup_endpoints}
use dragonfly_sdk.Selector.Ejections.Streaks.{Event, failed, replay}
use dragonfly_sdk.Proxy.Download.{get, get_into, streamed}
use dragonfly_sdk.Proxy.Download.Answered.{IsAnswered, get-IsAnswered}
use dragonfly_sdk.Pool.{entry}
use dragonfly_sdk.Selector.Ejections.{on_success}
use dragonfly_sdk.Proxy.Download.History.{Continues, get-Continues, get_into-Continues}
use dragonfly_sdk.Proxy.Download.Sequence.{
  Call, get_call, get_into_call, session_after_all, Makes, Gives, IsAdmitted, lookup_after_calls,
}
use dragonfly_sdk.Selector.{empty_seed_peers}
use dragonfly_sdk.Proxy.Buffer.{Delivers, get_into-Delivers}
use dragonfly_sdk.Proxy.Usable.{IsUsable, lookup_endpoints-IsUsable}
use dragonfly_sdk.Tests.Retries.{plain_retry, plain_retrier, plain_retrier_laws}
use dragonfly_sdk.Tests.World.{
  broken_response, plain_policy, plain_env, plain_laws, plain_proxy, plain_peers,
  plain_peers-IsSynced, plain_session, plain_http, plain_ring,
}

-- An attempt that fails until it has been made twice.
abbrev third_time : ℕ → ℕ × Result Text
third_time n = if ltb n 1 then (n + 1, err (internal [])) else (n + 1, ok (text "done"))

run-Attempts_example :
    let (s, r) = run plain_retrier ℕ Text plain_policy (λ d s. s) third_time 0 in
    (n : ℕ) × Attempts
      (sleep plain_retrier (λ d s. s))
      third_time
      (delays plain_retrier plain_policy)
      0
      n
      s
      r
    × (1 ≤ n)
    × (n ≤ suc (length (delays plain_retrier plain_policy)))
    × (length (delays plain_retrier plain_policy) ≤ 1)
    × ((plain_policy.backoff ≡ none) → delays plain_retrier plain_policy ≡ replicate 1 0)
    × ((e : Error)
        → r ≡ err e
        → is_retryable e ≡ true
        → n ≡ suc (length (delays plain_retrier plain_policy)))
run-Attempts_example =
    run-Attempts plain_retrier plain_retrier_laws ℕ Text plain_policy (λ d s. s) third_time 0

abbrev endpoints : List Text
endpoints = text "p" ∷ text "q" ∷ []

run_with_endpoints-GoesRound_example :
    let (end, r) =
      run_with_endpoints plain_retrier
        (ℕ × List Text)
        Text
        plain_policy
        (log_timer (λ d s. s))
        endpoints
        (0, [])
        (logged (λ n endpoint. third_time n)) in
    (n : ℕ) × (1 ≤ n) × (n ≤ 2) × GoesRound plain_retrier plain_retrier_laws endpoints end.1 n
run_with_endpoints-GoesRound_example =
    run_with_endpoints-GoesRound plain_retrier plain_retrier_laws ℕ Text plain_policy (λ d s. s)
      endpoints 0 (λ n endpoint. third_time n) refl

abbrev pub file_request : GetRequest plain_http
file_request = record (default_get_request plain_http) {
  url = text "http://h/f";
  filtered_query_params = [];
}

get_into-Delivers_example :
    (result : Result (GetResponse plain_http)) × (s : Session plain_env) × (buf : Text) × (get_into
        plain_env plain_proxy plain_peers plain_session file_request
        (text "abc")
      ≡ some (result, (s, buf)))
    × Delivers plain_env (send_to plain_env file_request) (text "abc") result buf
get_into-Delivers_example =
    get_into-Delivers plain_env plain_laws plain_retrier_laws plain_proxy plain_peers plain_session
      file_request (text "abc") (omega arith)

abbrev pub both_proxies : List Text
both_proxies = text "http://10.0.0.2:4001" ∷ text "http://10.0.0.1:4001" ∷ []

looked_up :
    lookup_endpoints plain_env plain_proxy plain_peers plain_session file_request
    ≡ some (ok both_proxies)
unfolding lookup_endpoints plain_peers validate split_once text_eq task_id Ids.task_id is_blob_url
    is_manifest_digest_url filter_query_params select insert contains lookup proxy_endpoint
    is_ejected format_url decimal
looked_up = refl

lookup_endpoints-IsUsable_example :
    IsUsable plain_env plain_laws plain_proxy plain_peers plain_peers-IsSynced plain_session
      (min 2 (length plain_peers.hosts))
      both_proxies
lookup_endpoints-IsUsable_example =
    lookup_endpoints-IsUsable plain_env plain_laws plain_proxy plain_peers plain_peers-IsSynced
      plain_session file_request both_proxies (omega arith) looked_up

-- A proxy that refused to connect before.
abbrev refused_once : List Event
refused_once = failed (text "http://10.0.0.1:4001") 7 ∷ []

abbrev used_session : Session plain_env
used_session = record plain_session { ejections = replay [] refused_once }

get_into-Continues_example :
    (result : Result (GetResponse plain_http)) × (s : Session plain_env) × (buf : Text) × (get_into
        plain_env plain_proxy plain_peers used_session file_request
        (text "abc")
      ≡ some (result, (s, buf)))
    × Continues plain_env plain_laws plain_retrier_laws plain_proxy plain_peers used_session
        file_request refused_once s
get_into-Continues_example =
    get_into-Continues plain_env plain_laws plain_retrier_laws plain_proxy plain_peers used_session
      file_request (text "abc") refused_once tt refl (omega arith)

get-Continues_example :
    (result : Result (GetResponse plain_http)) × (s : Session plain_env) × (get plain_env
        plain_proxy plain_peers used_session file_request
      ≡ some (result, s))
    × Continues plain_env plain_laws plain_retrier_laws plain_proxy plain_peers used_session
        file_request refused_once s
get-Continues_example =
    get-Continues plain_env plain_laws plain_retrier_laws plain_proxy plain_peers used_session
      file_request refused_once tt refl (omega arith)

-- A call of each kind, over different seed peers.
abbrev two_calls : List (Call plain_env)
two_calls =
    get_into_call plain_peers file_request (text "abc")
    ∷ get_call (empty_seed_peers plain_ring) file_request
    ∷ []

lookup_after_calls_example :
    (history : List Event) × (s : Session plain_env) × (found : Result (List Text))
    × (session_after_all plain_env plain_proxy two_calls plain_session ≡ some s)
    × Makes plain_env plain_proxy plain_laws plain_retrier_laws two_calls plain_session history s
    × (length history ≤ 2 * suc plain_policy.max_retries)
    × (s.ejections ≡ replay [] history)
    × (lookup_endpoints plain_env plain_proxy plain_peers s file_request ≡ some found)
    × Gives (IsAdmitted history (plain_env.now s.world)) found
lookup_after_calls_example =
    lookup_after_calls plain_env plain_proxy plain_laws plain_retrier_laws two_calls plain_session
      plain_peers file_request plain_peers-IsSynced (omega arith, (omega arith, tt)) (omega arith)
      refl refl

-- The first proxy answers, and its client stays in the pool.
abbrev answered_body : GetResponse plain_http
answered_body = streamed plain_env broken_response

abbrev first_proxy : Text
first_proxy = text "http://10.0.0.2:4001"

abbrev after_get : Session plain_env
after_get = record {
  ejections = [];
  pool = record {
    clients =
        (
          first_proxy,
          record {
            client = record { client = first_proxy; endpoint = first_proxy; can_be_ejected = true };
            actived_at = 0;
          },
        )
        ∷ [];
    capacity = 128;
    idle_timeout = 600;
    cleanup_at = 0;
  };
  world = 1;
}

answered_once :
    get plain_env plain_proxy plain_peers plain_session file_request
    ≡ some (ok answered_body, after_get)
unfolding get lookup_endpoints plain_peers validate split_once text_eq task_id Ids.task_id
    is_blob_url is_manifest_digest_url filter_query_params select insert contains lookup
    proxy_endpoint is_ejected format_url decimal run_with_endpoints plain_retry send_to on_success
    sleep delays entry proxy_headers
answered_once = refl

get-IsAnswered_example :
    IsAnswered plain_env file_request plain_laws plain_retrier_laws plain_proxy plain_peers
      plain_session answered_body after_get
get-IsAnswered_example =
    get-IsAnswered plain_env file_request plain_laws plain_retrier_laws plain_proxy plain_peers
      plain_session answered_body after_get answered_once
