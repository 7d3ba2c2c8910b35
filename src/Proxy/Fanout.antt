-- ===== src/Proxy/Fanout.antt =====
-- client-request/rust/src/lib.rs: `preheat` and `delete`, which call every selected seed peer.
-- The gRPC clients and tokio's join set are arguments. A spawned task runs over what the network
-- answers to it, and the join set gives the results in some order.
pub mod Outcomes
pub mod Preheated
pub mod Served
pub mod Everywhere
pub mod Deleted
use mathlib.Core.Option
use dragonfly_sdk.Base.{
  decimal, ℕ, ◌+◌, ◌-◌, ◌/◌, ◌⊎◌, inl, inr, Bool, true, false, ◌&&◌, not, Option, none, some, List,
  [], ◌∷◌, ◌++◌, map, ltb, if◌then◌else◌, unwrap_or, length, Text, text, TextMap, ℤ, as_u16,
}
use dragonfly_sdk.Errors.{
  Error, Result, ok, err, internal, invalid_argument, map_err, fail_if, ◌>>=◌, ◌>>◌, Status, Code,
  not_found,
}
use dragonfly_sdk.Errors.Convert.{Backend, from_status}
use dragonfly_sdk.Http.{headermap_to_hashmap}
use dragonfly_sdk.Net.{IpAddr, format_url, show_ip, preferred_local_ip}
use dragonfly_sdk.Retry.{run}
use dragonfly_sdk.Requests.{Scope, is_default_scope}
use dragonfly_sdk.Requests.Files.{PreheatRequest, validate_preheat, DeleteRequest, validate_delete}
use dragonfly_sdk.Selector.{Host, SeedPeers}
use dragonfly_sdk.Proxy.Dfdaemon.{Download, DeleteTask, Stream, finished, broken, Dfdaemon}
use dragonfly_sdk.Proxy.{Env, Proxy, wrap, task_id, select_seed_peers}

module _ (D : Dfdaemon) where
  abbrev pub Answer : Type 0
  Answer = D.Net × Result (Unit {0})

  abbrev pub status_error : Status → Result (Unit {0})
  status_error s = err (from_status D.decode_backend s)

  abbrev pub remote_ip : Option Text
  remote_ip = Option.map show_ip (preferred_local_ip D.local_ip D.local_ipv6)

  abbrev connected : Text → (D.Channel → D.Net → Answer) → D.Net × (Text ⊎ D.Channel) → Answer
  connected addr call (net, inr channel) = call channel net
  connected addr call (net, inl m) =
      (net, err (internal (text "failed to connect to seed peer " ++ addr ++ text ": " ++ m)))

  -- One attempt of a task: a fresh channel and a call on it.
  unfoldable pub call_peer : Text → ℕ → (D.Channel → D.Net → Answer) → D.Net → Answer
  call_peer addr timeout call net = elim (D.from_shared addr) [
    | some m ↦ (net, err (invalid_argument m))
    | none ↦ connected addr call (D.connect addr timeout net)
  ]

  abbrev download_answer : Status ⊎ Stream → Result (Unit {0})
  download_answer (inl s) = status_error s
  download_answer (inr finished) = ok tt
  download_answer (inr (broken s)) = status_error s

  unfoldable pub download : Download → D.Channel → D.Net → Answer
  download d channel net =
      let (net', answer) = D.download_task channel d net in (net', download_answer answer)

  abbrev is_not_found : Code → Bool
  is_not_found not_found = true
  is_not_found _ = false

  -- A task that the seed peer does not have counts as deleted.
  unfoldable pub delete_answer : Option Status → Result (Unit {0})
  delete_answer none = ok tt
  delete_answer (some s) = if is_not_found s.code then ok tt else status_error s

  unfoldable pub delete_one : DeleteTask → D.Channel → D.Net → Answer
  unfolding delete_answer
  delete_one d channel net =
      let (net', answer) = D.delete_task channel d net in (net', delete_answer answer)

  -- The first failure that the join set gives.
  unfoldable pub join_all : List (Result (Unit {0})) → Result (Unit {0})
  join_all [] = ok tt
  join_all (ok _ ∷ rs) = join_all rs
  join_all (err e ∷ rs) = err e

  module _ (E : Env) where
    -- `peer.port as u16`.
    unfoldable pub peer_address : Host → Result Text
    peer_address h = elim (E.parse_ip h.ip) [
      | inl m ↦ err (internal m)
      | inr ip ↦ ok (format_url "http" ip (as_u16 h.port))
    ]

    -- The addresses of the seed peers, or the first failure.
    unfoldable pub peer_addresses : List Host → Result (List Text)
    unfolding peer_address
    peer_addresses [] = ok []
    peer_addresses (h ∷ hs) = do
      address ← peer_address h
      addresses ← peer_addresses hs
      ok (address ∷ addresses)

    -- The result of the task of one seed peer, retried on the same seed peer.
    unfoldable pub peer_result :
        Proxy E → (Text → D.Net) → ℕ → (D.Channel → D.Net → Answer) → Text → Result (Unit {0})
    unfolding call_peer
    peer_result p network timeout call addr =
        (run E.retrier D.Net (Unit {0}) p.retry D.timer (call_peer addr timeout call)
          (network addr)).1

    unfoldable pub call_all :
        Proxy E → (Text → D.Net) → ℕ → (D.Channel → D.Net → Answer) → List Host → Result (Unit {0})
    unfolding join_all peer_addresses peer_result
    call_all p network timeout call hosts = do
      addresses ← peer_addresses hosts
      join_all (D.joined (map (peer_result p network timeout call) addresses))

    abbrev pub check_duration : ℕ → Result (Unit {0})
    check_duration timeout = elim (D.try_duration timeout) [
      | none ↦ ok tt
      | some m ↦ err (invalid_argument (text "invalid request timeout: " ++ m))
    ]

    abbrev pub download_of : PreheatRequest E.http → Download
    download_of r = record {
      url = r.url;
      tag = r.tag;
      application = r.application;
      priority = unwrap_or D.level6 r.priority;
      filtered_query_params = r.filtered_query_params;
      request_header = headermap_to_hashmap E.http r.header;
      piece_length = r.piece_length;
      timeout = r.timeout;
      content_for_calculating_task_id = r.content_for_calculating_task_id;
      remote_ip = remote_ip;
      enable_task_id_based_blob_digest = r.enable_task_id_based_blob_digest;
    }

    unfoldable pub enough_peers : Scope → ℕ → List Host → Result (Unit {0})
    enough_peers scope replicas hosts =
        fail_if (is_default_scope scope && ltb (length hosts) replicas) (
          internal (
            text "insufficient seed peers for "
            ++ decimal replicas
            ++ text " replicas, "
            ++ decimal (length hosts)
            ++ text " available"))

    -- What follows the selection.
    unfoldable pub preheat_on :
        Proxy E → (Text → D.Net) → PreheatRequest E.http → Result (List Host) → Result (Unit {0})
    unfolding enough_peers call_all download
    preheat_on p network r selected = do
      hosts ← map_err (wrap E "failed to select seed peers: ") selected
      enough_peers r.scope r.replicas hosts
      check_duration r.timeout
      call_all p network r.timeout (download (download_of r)) hosts

    -- What follows the validation. `none` stands for a call that does not return.
    unfoldable pub preheat_task :
        Proxy E
        → SeedPeers E.ring
        → (Text → D.Net)
        → PreheatRequest E.http
        → Result Text
        → Option (Result (Unit {0}))
    unfolding preheat_on
    preheat_task p peers network r (err e) = some (err e)
    preheat_task p peers network r (ok id) =
        Option.map (preheat_on p network r) (select_seed_peers E peers id r.scope r.replicas)

    unfoldable pub preheat :
        Proxy E
        → SeedPeers E.ring
        → (Text → D.Net)
        → PreheatRequest E.http
        → Option (Result (Unit {0}))
    unfolding preheat_task
    preheat p peers network r = preheat_task p peers network r (do
      validate_preheat E.http r
      task_id E p r.url r.piece_length r.tag r.application r.filtered_query_params
          r.content_for_calculating_task_id r.enable_task_id_based_blob_digest)

    unfoldable pub delete_on :
        Proxy E → (Text → D.Net) → DeleteRequest → Text → Result (List Host) → Result (Unit {0})
    unfolding call_all delete_one
    delete_on p network r id selected = do
      hosts ← map_err (wrap E "failed to select seed peers: ") selected
      call_all p network r.timeout (delete_one (record { task_id = id; remote_ip = remote_ip }))
          hosts

    unfoldable pub delete_task :
        Proxy E
        → SeedPeers E.ring
        → (Text → D.Net)
        → DeleteRequest
        → Result Text
        → Option (Result (Unit {0}))
    unfolding delete_on
    delete_task p peers network r (err e) = some (err e)
    delete_task p peers network r (ok id) =
        Option.map (delete_on p network r id) (select_seed_peers E peers id r.scope r.replicas)

    unfoldable pub delete :
        Proxy E → SeedPeers E.ring → (Text → D.Net) → DeleteRequest → Option (Result (Unit {0}))
    unfolding delete_task
    delete p peers network r = delete_task p peers network r (do
      validate_delete r
      task_id E p r.url r.piece_length r.tag r.application r.filtered_query_params
          r.content_for_calculating_task_id r.enable_task_id_based_blob_digest)
