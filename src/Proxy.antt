-- ===== src/Proxy.antt =====
-- client-request/rust/src/lib.rs: the proxy client, with what it keeps and what it uses of the
-- world around it.
pub mod Lookup
pub mod Send
pub mod Download
pub mod Dfdaemon
pub mod Fanout
pub mod Images
pub mod StatImage
pub mod Builders
pub mod Buffer
pub mod Total
pub mod Usable
use dragonfly_sdk.Base.{
  ℕ, ◌+◌, ◌-◌, ◌/◌, ◌%◌, ◌^◌, String, ◌⊎◌, Bool, ◌&&◌, Option, none, some, List, ◌++◌,
  if◌then◌else◌, Text, text, TextMap,
}
use dragonfly_sdk.Errors.{Error, Result, ok, err, internal, map_err, Printers, display}
use dragonfly_sdk.Errors.Convert.{Response}
use dragonfly_sdk.Http.{HttpApi}
use dragonfly_sdk.Net.{IpAddr}
use dragonfly_sdk.Digest.{is_blob_url, is_manifest_digest_url}
use dragonfly_sdk.Ids.{
  IdApi, IdGenerator, TaskIdParameter, content, url_based, blob_digest_based, manifest_digest_based,
}
use dragonfly_sdk.Ids
use dragonfly_sdk.Pool.{Pool}
use dragonfly_sdk.Retry.{Retrier, RetryPolicy}
use dragonfly_sdk.Selector.{HashRing, SeedPeers, Host, select, select_all}
use dragonfly_sdk.Selector.Ejections.{Ejection}
use dragonfly_sdk.Requests.{Scope, default_scope, all_seed_peers}

-- The kinds of an I/O error that the code tells apart.
pub data IoKind : Type 0 where
  connection_refused host_unreachable network_unreachable other_kind : IoKind

-- A request that got no response: reqwest's error, with the I/O errors among its sources.
pub record TransportError : Type 0 where
  pub is_timeout : Bool
  pub is_connect : Bool
  pub io_kinds : List IoKind
  pub message : Text

-- The external code, and the world that a request changes.
pub record Env : Type 1 where
  pub http : HttpApi
  pub ids : IdApi
  pub ring : HashRing
  pub retrier : Retrier
  pub printers : Printers
  pub parse_ip : Text → Text ⊎ IpAddr
  pub World : Type 0
  pub now : World → ℕ
  pub wait : ℕ → World → World
  -- reqwest's client for a proxy: the proxy's address may be refused, and so may the client.
  pub Client : Type 0
  pub set_proxy : Text → Option Text
  pub build_client : Text → Text ⊎ Client
  -- One GET through a client, with its headers and its timeout.
  pub transmit : World → Client → Text → http.Headers → ℕ → World × (TransportError ⊎ Response http)

module _ (E : Env) where
  -- A client of a seed peer's proxy, with the ejection middleware if the proxy can be ejected.
  pub record HttpClient : Type 0 where
    pub client : E.Client
    pub endpoint : Text
    pub can_be_ejected : Bool

  -- What a proxy shares between its requests, and the world.
  pub record Session : Type 0 where
    pub ejections : TextMap Ejection
    pub pool : Pool HttpClient
    pub world : E.World

  pub record Proxy : Type 0 where
    pub scheduler_endpoint : Text
    pub retry : RetryPolicy E.retrier
    pub id_generator : IdGenerator

  abbrev pub show : Error → Text
  show e = display E.printers e

  -- The failures that the code wraps into its own internal error.
  abbrev pub wrap : String → Error → Error
  wrap prefix e = internal (text prefix ++ show e)

  unfoldable pub task_id_parameter :
      Text → Option ℕ → Option Text → Option Text → List Text → Option Text → Bool → TaskIdParameter
  task_id_parameter url piece_length tag application filtered (some c) enabled = content c
  task_id_parameter url piece_length tag application filtered none enabled =
      if enabled && is_blob_url E.ids.regex url
      then blob_digest_based url
      else if enabled && is_manifest_digest_url E.ids.regex url
      then manifest_digest_based url
      else url_based (record {
        url = url;
        piece_length = piece_length;
        tag = tag;
        application = application;
        filtered_query_params = filtered;
        revision = none;
      })

  unfoldable pub task_id :
      Proxy
      → Text
      → Option ℕ
      → Option Text
      → Option Text
      → List Text
      → Option Text
      → Bool
      → Result Text
  unfolding task_id_parameter
  task_id p url piece_length tag application filtered c enabled =
      map_err (wrap "failed to generate task id: ") (
        Ids.task_id E.ids p.id_generator
          (task_id_parameter url piece_length tag application filtered c enabled))

  -- `replicas as u32`.
  abbrev pub as_u32 : ℕ → ℕ
  as_u32 n = n % 2 ^ 32

  unfoldable pub select_seed_peers :
      SeedPeers E.ring → Text → Scope → ℕ → Option (Result (List Host))
  select_seed_peers s task_id default_scope replicas = select E.ring s task_id (as_u32 replicas)
  select_seed_peers s task_id all_seed_peers replicas = some (select_all E.ring s)
