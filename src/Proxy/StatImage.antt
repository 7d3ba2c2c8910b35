-- ===== src/Proxy/StatImage.antt =====
-- client-request/rust/src/lib.rs: `stat_image`, which asks the scheduler where an image is cached.
-- The scheduler's gRPC client is an argument.
pub mod Failures
use mathlib.Core.Option
use dragonfly_sdk.Base.{
  ℕ, ◌+◌, ◌-◌, ◌/◌, ◌⊎◌, inl, inr, Bool, true, false, Option, none, some, List, [], ◌++◌, map,
  if◌then◌else◌, unwrap_or, Text, text,
}
use dragonfly_sdk.Errors.{
  Error, Result, ok, err, internal, invalid_argument, ◌>>=◌, ◌>>◌, Status, Code,
  invalid_argument_code,
}
use dragonfly_sdk.Oci.{OciApi, resolve_registry, build_manifest_url}
use dragonfly_sdk.Requests.Images.{StatImageRequest, Layer, PeerImage, StatImageResponse}
use dragonfly_sdk.Scheduler.{SchedulerApi}
use dragonfly_sdk.Proxy.{Env, Proxy}
use dragonfly_sdk.Oci.Images.{image_reference}

abbrev stat_image_scope_all_seed_peers : Text
stat_image_scope_all_seed_peers = text "all_seed_peers"

-- The request of the scheduler's API, as far as it is set.
pub record SchedulerStatImageRequest : Type 0 where
  pub url : Text
  pub piece_length : Option ℕ
  pub tag : Option Text
  pub application : Option Text
  pub filtered_query_params : List Text
  pub username : Option Text
  pub password : Option Text
  pub platform : Option Text
  pub timeout : ℕ
  pub scope : Text
  pub enable_task_id_based_blob_digest : Bool

-- What the code reads of the answer: the URLs of the image's layers, if there is an image, and what
-- each peer has cached.
pub record CachedLayer : Type 0 where
  pub url : Text
  pub is_finished : Option Bool

pub record CachingPeer : Type 0 where
  pub ip : Text
  pub hostname : Text
  pub cached_layers : List CachedLayer

pub record SchedulerStatImageResponse : Type 0 where
  pub image : Option (List Text)
  pub peers : List CachingPeer

-- The call itself, and the conversion of the timeout, which may refuse.
pub record StatApi (S : SchedulerApi) : Type 0 where
  pub try_duration : ℕ → Option Text
  pub stat_image : S.Channel → SchedulerStatImageRequest → Status ⊎ SchedulerStatImageResponse

abbrev pub is_invalid_argument : Code → Bool
is_invalid_argument invalid_argument_code = true
is_invalid_argument _ = false

abbrev pub layer : CachedLayer → Layer
layer l = record { url = l.url; is_finished = unwrap_or false l.is_finished }

abbrev pub peer_image : CachingPeer → PeerImage
peer_image p = record {
  ip = p.ip;
  hostname = p.hostname;
  cached_layers = map layer p.cached_layers;
}

unfoldable pub stat_response : SchedulerStatImageResponse → StatImageResponse
stat_response a = record { layers = unwrap_or [] a.image; peers = map peer_image a.peers }

module _ (E : Env) (O : OciApi) (S : SchedulerApi) (A : StatApi S) where
  -- The digest of the reference, else its tag, else `latest`.
  unfoldable pub manifest_reference : O.Reference → Text
  manifest_reference reference = elim (O.digest reference) [
    | some digest ↦ digest
    | none ↦ unwrap_or (text "latest") (O.tag reference)
  ]

  abbrev pub stat_timeout : StatImageRequest → Result (Unit {0})
  stat_timeout r = elim (A.try_duration r.timeout) [
    | none ↦ ok tt
    | some m ↦ err (invalid_argument (text "invalid request timeout: " ++ m))
  ]

  unfoldable pub scheduler_request : StatImageRequest → O.Reference → SchedulerStatImageRequest
  unfolding manifest_reference
  scheduler_request r reference = record {
    url =
        build_manifest_url (resolve_registry O reference) (O.repository reference)
          (manifest_reference reference);
    piece_length = r.piece_length;
    tag = r.tag;
    application = r.application;
    filtered_query_params = r.filtered_query_params;
    username = r.username;
    password = r.password;
    platform = r.platform;
    timeout = r.timeout;
    scope = stat_image_scope_all_seed_peers;
    enable_task_id_based_blob_digest = r.enable_task_id_based_blob_digest;
  }

  -- The connection to the scheduler.
  unfoldable pub scheduler_channel : Proxy E → ℕ → Result S.Channel
  scheduler_channel p timeout = elim (S.from_shared p.scheduler_endpoint) [
    | some m ↦ err (invalid_argument m)
    | none ↦ elim (S.connect p.scheduler_endpoint timeout) [
      | inl m ↦ err (
          internal
            (text "failed to connect to scheduler " ++ p.scheduler_endpoint ++ text ": " ++ m))
      | inr channel ↦ ok channel
    ]
  ]

  abbrev pub stat_message : StatImageRequest → Status → Text
  stat_message r s =
      text "failed to stat image " ++ r.image ++ text ": " ++ E.printers.show_status s

  unfoldable pub stat_answer :
      StatImageRequest → Status ⊎ SchedulerStatImageResponse → Result StatImageResponse
  unfolding stat_response
  stat_answer r (inr answer) = ok (stat_response answer)
  stat_answer r (inl s) =
      if is_invalid_argument s.code
      then err (invalid_argument (stat_message r s))
      else err (internal (stat_message r s))

  unfoldable pub stat_image : Proxy E → StatImageRequest → Result StatImageResponse
  unfolding image_reference scheduler_request scheduler_channel stat_answer
  stat_image p r = do
    reference ← image_reference O r.image
    stat_timeout r
    channel ← scheduler_channel p r.timeout
    stat_answer r (A.stat_image channel (scheduler_request r reference))
