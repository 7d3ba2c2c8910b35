-- ===== src/Proxy/Images.antt =====
-- client-request/rust/src/lib.rs: `preheat_image` and `delete_image`, which preheat and delete the
-- manifest and the blobs of an image.
pub mod Waits
pub mod Preheated
pub mod Deleted
pub mod Positive
pub mod Outcome
use dragonfly_sdk.Base.{
  ℕ, ◌+◌, ◌-◌, ◌/◌, String, Bool, true, false, Option, none, some, List, ◌∷◌, ◌++◌, map, ◌==◌,
  length, Text, text,
}
use dragonfly_sdk.Errors.{Result, ok, err, internal, invalid_argument, ◌>>=◌}
use dragonfly_sdk.Oci.{
  OciApi, Manifest, PlatformResolver, client_resolver, resolve_registry, build_blob_url,
  build_manifest_url, blob_digests,
}
use dragonfly_sdk.Oci.Images.{
  Registry, Image, resolve_image, request_token, manifest_url, blob_urls, image_auth, oci_client,
  image_reference,
}
use dragonfly_sdk.Requests.Files.{PreheatRequest, DeleteRequest}
use dragonfly_sdk.Requests.Images.{
  PreheatImageRequest, validate_preheat_image, DeleteImageRequest, validate_delete_image,
}
use dragonfly_sdk.Selector.{SeedPeers}
use dragonfly_sdk.Url.{join}
use dragonfly_sdk.Proxy.{Env, Proxy}
use dragonfly_sdk.Proxy.Dfdaemon.{Dfdaemon}
use dragonfly_sdk.Proxy.Fanout.{join_all, preheat, delete}

module _ (O : OciApi) (G : Registry O) (E : Env) where
  unfoldable pub header_value : String → Text → Result Text
  header_value what value = elim (E.http.parse value) [
    | none ↦ err (internal (text what ++ E.http.parse_error))
    | some v ↦ ok v
  ]

  abbrev pub Target : Type 0
  Target = Text × E.http.Headers

  -- The header of the blobs, and the targets: the manifest also asks for the media types.
  unfoldable pub preheat_targets : Image O G → Text → Result (List Target)
  unfolding header_value manifest_url blob_urls
  preheat_targets i token = do
    bearer ← header_value "invalid auth token: " (text "Bearer " ++ token)
    accept ← header_value "invalid accept header: " (join (text ",") G.media_types)
    let header = E.http.set (text "authorization") bearer E.http.empty in
        ok (
          (manifest_url O G i, E.http.set (text "accept") accept header)
          ∷ map (λ url. (url, header)) (blob_urls O G i))

  unfoldable pub delete_targets : Image O G → List Text
  unfolding manifest_url blob_urls
  delete_targets i = manifest_url O G i ∷ blob_urls O G i

  abbrev pub preheat_request : PreheatImageRequest → Target → PreheatRequest E.http
  preheat_request r (url, header) = record {
    url = url;
    header = header;
    piece_length = r.piece_length;
    tag = r.tag;
    application = r.application;
    filtered_query_params = r.filtered_query_params;
    content_for_calculating_task_id = r.content_for_calculating_task_id;
    enable_task_id_based_blob_digest = r.enable_task_id_based_blob_digest;
    priority = r.priority;
    replicas = r.replicas;
    scope = r.scope;
    timeout = r.timeout;
    client_cert = r.client_cert;
  }

  abbrev pub delete_request : DeleteImageRequest → Text → DeleteRequest
  delete_request r url = record {
    url = url;
    piece_length = r.piece_length;
    tag = r.tag;
    application = r.application;
    filtered_query_params = r.filtered_query_params;
    content_for_calculating_task_id = r.content_for_calculating_task_id;
    enable_task_id_based_blob_digest = r.enable_task_id_based_blob_digest;
    replicas = r.replicas;
    scope = r.scope;
    timeout = r.timeout;
  }

  module _ (D : Dfdaemon) where
    abbrev pub all_finished : Bool → Result (Unit {0}) → Option (Result (Unit {0}))
    all_finished b (err e) = some (err e)
    all_finished true (ok _) = some (ok tt)
    all_finished false (ok _) = none

    -- The wait for the tasks: the first failure that comes, or the end of all of them.
    unfoldable pub wait_all : ℕ → List (Option (Result (Unit {0}))) → Option (Result (Unit {0}))
    wait_all count tasks =
        let done = G.finished count tasks in
        all_finished (length done == length tasks) (join_all D done)

    module _ (p : Proxy E) (peers : Text → SeedPeers E.ring) (network : Text → Text → D.Net) where
      unfoldable pub preheat_target : PreheatImageRequest → Target → Option (Result (Unit {0}))
      preheat_target r t = preheat D E p (peers t.0) (network t.0) (preheat_request r t)

      unfoldable pub preheat_all :
          PreheatImageRequest → Result (List Target) → Option (Result (Unit {0}))
      unfolding wait_all preheat_target
      preheat_all r (err e) = some (err e)
      preheat_all r (ok targets) = wait_all r.concurrent_task_count (map (preheat_target r) targets)

      abbrev pub preheat_resolved :
          PreheatImageRequest → G.Net × Result (Image O G) → G.Net × Option (Result (Unit {0}))
      unfolding request_token preheat_targets preheat_all
      preheat_resolved r (net, err e) = (net, some (err e))
      preheat_resolved r (net, ok i) =
          let (net', token) = request_token O G i net in
          (net', preheat_all r (do t ← token; preheat_targets i t))

      unfoldable pub preheat_image :
          PreheatImageRequest → G.Net → G.Net × Option (Result (Unit {0}))
      unfolding resolve_image request_token preheat_targets preheat_all
      preheat_image r net = elim (validate_preheat_image r) [
        | err e ↦ (net, some (err e))
        | ok _ ↦ preheat_resolved r (resolve_image O G r.platform r.image r.username r.password net)
      ]

      unfoldable pub delete_target : DeleteImageRequest → Text → Option (Result (Unit {0}))
      delete_target r url = delete D E p (peers url) (network url) (delete_request r url)

      abbrev pub delete_resolved :
          DeleteImageRequest → G.Net × Result (Image O G) → G.Net × Option (Result (Unit {0}))
      unfolding wait_all delete_target delete_targets
      delete_resolved r (net, err e) = (net, some (err e))
      delete_resolved r (net, ok i) =
          (net, wait_all r.concurrent_task_count (map (delete_target r) (delete_targets i)))

      unfoldable pub delete_image : DeleteImageRequest → G.Net → G.Net × Option (Result (Unit {0}))
      unfolding resolve_image wait_all delete_target delete_targets
      delete_image r net = elim (validate_delete_image r) [
        | err e ↦ (net, some (err e))
        | ok _ ↦ delete_resolved r (resolve_image O G r.platform r.image r.username r.password net)
      ]
