-- ===== src/Tests/Images.antt =====
-- A preheat and a delete of an image with two blobs.
use dragonfly_sdk.Base.{
  ◌≡◌, refl, some, [], ◌∷◌, arith, All, text, text_eq, contains, lookup, insert, text_le,
}
use dragonfly_sdk.Errors.{ok}
use dragonfly_sdk.Ids
use dragonfly_sdk.Digest.{is_blob_url, is_manifest_digest_url}
use dragonfly_sdk.Url.{filter_query_params}
use dragonfly_sdk.Retry.{run, delays}
use dragonfly_sdk.Oci.{
  Manifest, client_resolver, resolve_registry, build_manifest_url, build_blob_url, blob_digests,
}
use dragonfly_sdk.Oci.Digests.{IsIncreasing, SameSet, blob_digests_lem}
use dragonfly_sdk.Requests.Files.{validate_preheat, validate_delete}
use dragonfly_sdk.Requests.Images.{validate_preheat_image, validate_delete_image}
use dragonfly_sdk.Selector.{select}
use dragonfly_sdk.Proxy.{task_id, select_seed_peers}
use dragonfly_sdk.Proxy.Fanout.{preheat, delete}
use dragonfly_sdk.Proxy.Images.{preheat_image, delete_image}
use dragonfly_sdk.Proxy.Images.Preheated.{IsImagePreheated, preheat_image-IsImagePreheated}
use dragonfly_sdk.Proxy.Images.Deleted.{delete_of, TaskDeleted, delete_image-preheated}
use dragonfly_sdk.Tests.Retries.{plain_retry, plain_retrier_laws}
use dragonfly_sdk.Tests.World.{
  plain_env, plain_laws, plain_proxy, plain_peers, plain_peers-IsSynced,
}
use dragonfly_sdk.Tests.Preheats.{plain_dfdaemon, plain_join}
use dragonfly_sdk.Tests.Registry.{plain_oci, nginx, plain_registry, plain_permits, image_preheat}

image_preheated :
    (preheat_image plain_oci plain_registry plain_env plain_dfdaemon plain_proxy
      (λ url. plain_peers)
      (λ url addr. 0)
      image_preheat
      0).1
    ≡ some (ok tt)
unfolding preheat_image validate_preheat_image client_resolver build_manifest_url resolve_registry
    blob_digests build_blob_url text_le preheat plain_peers validate_preheat task_id Ids.task_id
    is_blob_url is_manifest_digest_url filter_query_params select_seed_peers select insert text_eq
    contains lookup run plain_retry delays
image_preheated = refl

preheat_image-IsImagePreheated_example :
    IsImagePreheated plain_oci plain_registry plain_permits plain_dfdaemon plain_join plain_env
      plain_retrier_laws plain_laws plain_proxy
      (λ url. plain_peers)
      (λ url. plain_peers-IsSynced)
      (λ url addr. 0)
      image_preheat
      0
preheat_image-IsImagePreheated_example =
    preheat_image-IsImagePreheated plain_oci plain_registry plain_permits plain_dfdaemon plain_join
      plain_env plain_retrier_laws plain_laws plain_proxy (λ url. plain_peers)
      (λ url. plain_peers-IsSynced) (λ url addr. 0) image_preheat 0 refl (omega arith)
      image_preheated

image_deleted :
    (delete_image plain_oci plain_registry plain_env plain_dfdaemon plain_proxy
      (λ url. plain_peers)
      (λ url addr. 0)
      (delete_of image_preheat)
      0).1
    ≡ some (ok tt)
unfolding delete_image validate_delete_image client_resolver build_manifest_url resolve_registry
    blob_digests build_blob_url text_le delete plain_peers validate_delete task_id Ids.task_id
    is_blob_url is_manifest_digest_url filter_query_params select_seed_peers select insert text_eq
    contains lookup run plain_retry delays
image_deleted = refl

abbrev nginx_preheated :
    IsImagePreheated plain_oci plain_registry plain_permits plain_dfdaemon plain_join plain_env
      plain_retrier_laws plain_laws plain_proxy
      (λ url. plain_peers)
      (λ url. plain_peers-IsSynced)
      (λ url addr. 0)
      image_preheat
      0
nginx_preheated =
    preheat_image-IsImagePreheated plain_oci plain_registry plain_permits plain_dfdaemon plain_join
      plain_env plain_retrier_laws plain_laws plain_proxy (λ url. plain_peers)
      (λ url. plain_peers-IsSynced) (λ url addr. 0) image_preheat 0 refl (omega arith)
      image_preheated

delete_image-preheated_example :
    All
      (TaskDeleted plain_oci plain_registry plain_permits plain_dfdaemon plain_join plain_env
        plain_retrier_laws plain_laws plain_proxy
        (λ url. plain_peers)
        (λ url. plain_peers-IsSynced)
        (λ url addr. 0)
        image_preheat)
      nginx_preheated.targets
delete_image-preheated_example =
    delete_image-preheated plain_oci plain_registry plain_permits plain_dfdaemon plain_join
      plain_env plain_retrier_laws plain_laws plain_proxy (λ url. plain_peers)
      (λ url. plain_peers-IsSynced) (λ url addr. 0) image_preheat 0 refl (omega arith)
      nginx_preheated image_deleted

-- The same blobs in another order, one of them twice.
abbrev nginx_again : Manifest
nginx_again = record { config = text "l"; layers = text "c" ∷ text "l" ∷ [] }

same_blobs : SameSet (nginx.config ∷ nginx.layers) (nginx_again.config ∷ nginx_again.layers)
unfolding contains
same_blobs k = ground arith

blob_digests_lem_example :
    IsIncreasing (blob_digests nginx)
    × SameSet (blob_digests nginx) (nginx.config ∷ nginx.layers)
    × (blob_digests nginx ≡ blob_digests nginx_again)
blob_digests_lem_example = blob_digests_lem nginx nginx_again same_blobs
