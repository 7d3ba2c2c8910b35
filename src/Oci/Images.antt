-- ===== src/Oci/Images.antt =====
-- client-request/rust/src/lib.rs: how `preheat_image` and `delete_image` learn of an image. The
-- registry's client, the semaphore and the join set are arguments.
use dragonfly_sdk.Base.{ℕ, ◌⊎◌, inl, inr, Option, none, some, List, ◌++◌, map, Text, text}
use dragonfly_sdk.Errors.{Result, ok, err, internal, invalid_argument, ◌>>=◌}
use dragonfly_sdk.Oci.{
  OciApi, Manifest, PlatformResolver, client_resolver, resolve_registry, build_blob_url,
  build_manifest_url, blob_digests,
}

-- What the code uses of the registry's client, and of tokio's semaphore and join set.
pub record Registry (O : OciApi) : Type 1 where
  pub Net : Type 0
  pub Client : Type 0
  pub current_platform : PlatformResolver O
  pub new_client : PlatformResolver O → Client
  pub Auth : Type 0
  pub basic : Text → Text → Auth
  pub anonymous : Auth
  pub pull_image_manifest : Client → O.Reference → Auth → Net → Net × (Text ⊎ (Manifest × Text))
  pub auth : Client → O.Reference → Auth → Net → Net × (Text ⊎ Option Text)
  -- `MIME_TYPES_DISTRIBUTION_MANIFEST`.
  pub media_types : List Text
  -- The results that tasks with so many permits give, in the order in which they finish; `none` is
  -- a task that does not return.
  pub finished : ℕ → List (Option (Result (Unit {0}))) → List (Result (Unit {0}))

module _ (O : OciApi) where
  unfoldable pub image_reference : Text → Result O.Reference
  image_reference image = elim (O.parse image) [
    | inl m ↦ err (invalid_argument (text "invalid image reference: " ++ m))
    | inr reference ↦ ok reference
  ]

module _ (O : OciApi) (G : Registry O) where
  -- What `preheat_image` and `delete_image` know of an image.
  pub record Image : Type 0 where
    pub client : G.Client
    pub reference : O.Reference
    pub credentials : G.Auth
    pub manifest : Manifest
    pub manifest_digest : Text

  unfoldable pub image_auth : Option Text → Option Text → G.Auth
  image_auth (some username) (some password) = G.basic username password
  image_auth _ _ = G.anonymous

  unfoldable pub oci_client : Option Text → Result G.Client
  oci_client platform = do
    resolver ← client_resolver O G.current_platform platform
    ok (G.new_client resolver)

  abbrev pulled :
      G.Client → O.Reference → G.Auth → G.Net × (Text ⊎ (Manifest × Text)) → G.Net × Result Image
  pulled client reference credentials (net, inl m) =
      (net, err (internal (text "failed to pull image manifest: " ++ m)))
  pulled client reference credentials (net, inr (manifest, digest)) = (
    net,
    ok (record {
      client = client;
      reference = reference;
      credentials = credentials;
      manifest = manifest;
      manifest_digest = digest;
    }),
  )

  abbrev opened : Option Text → Text → Result (G.Client × O.Reference)
  unfolding oci_client
  opened platform image = do
    client ← oci_client platform
    reference ← image_reference O image
    ok (client, reference)

  abbrev pull : G.Auth → G.Net → Result (G.Client × O.Reference) → G.Net × Result Image
  pull credentials net (err e) = (net, err e)
  pull credentials net (ok (client, reference)) =
      pulled client reference credentials (G.pull_image_manifest client reference credentials net)

  -- The image's reference and its manifest, for the platform asked for.
  unfoldable pub resolve_image :
      Option Text → Text → Option Text → Option Text → G.Net → G.Net × Result Image
  unfolding image_auth oci_client image_reference
  resolve_image platform image username password net =
      pull (image_auth username password) net (opened platform image)

  abbrev token : Text ⊎ Option Text → Result Text
  token (inl m) = err (internal (text "failed to authenticate with registry: " ++ m))
  token (inr none) = err (internal (text "registry did not return authentication token"))
  token (inr (some t)) = ok t

  unfoldable pub request_token : Image → G.Net → G.Net × Result Text
  request_token i net =
      let (net', answer) = G.auth i.client i.reference i.credentials net in (net', token answer)

  -- The URLs of the manifest and of the blobs.
  unfoldable pub manifest_url : Image → Text
  manifest_url i =
      build_manifest_url (resolve_registry O i.reference) (O.repository i.reference)
        i.manifest_digest

  unfoldable pub blob_urls : Image → List Text
  blob_urls i =
      map (build_blob_url (resolve_registry O i.reference) (O.repository i.reference))
        (blob_digests i.manifest)
