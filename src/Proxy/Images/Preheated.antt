-- ===== src/Proxy/Images/Preheated.antt =====
-- client-request/rust/src/lib.rs: where a `preheat_image` that succeeds has put the image.
use dragonfly_sdk.Base.{◌^◌, ◌<◌, ◌≡◌, refl, ap, subst, some, List, [], ◌∷◌, map, All, Text, text}
use dragonfly_sdk.Errors.{ok, >>=-ok, ok-injective}
use dragonfly_sdk.Oci.{OciApi}
use dragonfly_sdk.Requests.{default_scope}
use dragonfly_sdk.Requests.Images.{PreheatImageRequest}
use dragonfly_sdk.Retry.{RetrierLaws}
use dragonfly_sdk.Selector.{Host, SeedPeers}
use dragonfly_sdk.Selector.Ring.{RingLaws}
use dragonfly_sdk.Selector.Synced.{IsSynced}
use dragonfly_sdk.Proxy.{Env, Proxy}
use dragonfly_sdk.Proxy.Dfdaemon.{Dfdaemon}
use dragonfly_sdk.Proxy.Fanout.Outcomes.{JoinLaws}
use dragonfly_sdk.Proxy.Fanout.Preheated.{IsPreheated, preheat-IsPreheated}
use dragonfly_sdk.Oci.Images.{Registry, Image, resolve_image, manifest_url, blob_urls}
use dragonfly_sdk.Proxy.Images.{
  Target, header_value, preheat_targets, preheat_request, preheat_target, preheat_image,
}
use dragonfly_sdk.Proxy.Images.Outcome.{preheat_image-IsImageOk}
use dragonfly_sdk.Proxy.Images.Waits.{FinishedLaws, Succeeds}

first_of_pairs :
    {A : Type 0} (a : A) (urls : List Text)
    → map (λ (t : Text × A). t.0) (map (λ url. (url, a)) urls) ≡ urls
first_of_pairs a [] = refl
first_of_pairs a (url ∷ urls) = ap (◌∷◌ url) (first_of_pairs a urls)

module _ (O : OciApi) (G : Registry O) (E : Env) where
  -- The targets of a preheat are the manifest and the blobs of the image.
  pub preheat_targets-urls :
      (i : Image O G) (token : Text) (targets : List (Target O G E))
      → preheat_targets O G E i token ≡ ok targets
      → map (λ t. t.0) targets ≡ manifest_url O G i ∷ blob_urls O G i
  unfolding preheat_targets
  preheat_targets-urls i token targets h =
      let (bearer, _, later) = >>=-ok (header_value O G E "invalid auth token: " _) _ h in
      let (accept, _, whole) = >>=-ok (header_value O G E "invalid accept header: " _) _ later in
      subst (λ ts. map (λ t. t.0) ts ≡ manifest_url O G i ∷ blob_urls O G i) (ok-injective whole)
        (ap (◌∷◌ (manifest_url O G i)) (
          first_of_pairs (E.http.set (text "authorization") bearer E.http.empty) (blob_urls O G i)))

module _ (O : OciApi) (G : Registry O) (F : FinishedLaws O G) (D : Dfdaemon) (J : JoinLaws D)
    (E : Env) (R : RetrierLaws E.retrier) (L : RingLaws E.ring) (p : Proxy E)
    (peers : Text → SeedPeers E.ring) (synced : (url : Text) → IsSynced E.ring L (peers url))
    (network : Text → Text → D.Net) where
  -- The image that the registry resolved, with the targets that its token gave, each preheated.
  pub record IsImagePreheated (r : PreheatImageRequest) (net : G.Net) : Type 0 where
    pub image : Image O G
    pub resolved : (resolve_image O G r.platform r.image r.username r.password net).1 ≡ ok image
    pub targets : List (Target O G E)
    pub urls : map (λ t. t.0) targets ≡ manifest_url O G image ∷ blob_urls O G image
    pub preheated :
        All
          (λ t.
            (hosts : List Host) × IsPreheated D J E R L p
              (peers t.0)
              (synced t.0)
              (network t.0)
              (preheat_request O G E r t)
              hosts)
          targets

  all_targets :
      (r : PreheatImageRequest) (targets : List (Target O G E))
      → r.scope ≡ default_scope
      → r.replicas < 2 ^ 32
      → All (Succeeds O G F E D) (map (preheat_target O G E D p peers network r) targets)
      → All
          (λ t.
            (hosts : List Host) × IsPreheated D J E R L p
              (peers t.0)
              (synced t.0)
              (network t.0)
              (preheat_request O G E r t)
              hosts)
          targets
  unfolding preheat_target
  all_targets r [] scope fits h = tt
  all_targets r (t ∷ ts) scope fits (h, hs) = (
    preheat-IsPreheated D J E R L p (peers t.0) (synced t.0) (network t.0)
        (preheat_request O G E r t) scope fits h,
    all_targets r ts scope fits hs,
  )

  -- Under the documented behaviour of the hash ring, of retries, of a semaphore and of a join set,
  -- and with hosts and ring in step: when a preheat of an image to the replicas of its tasks
  -- succeeds, and the number of replicas fits the `u32` it is cast to, then the registry resolved
  -- the image; and the manifest of its digest, and every blob, were each downloaded by exactly that
  -- many seed peers, known, healthy and of distinct names.
  pub preheat_image-IsImagePreheated :
      (r : PreheatImageRequest) (net : G.Net)
      → r.scope ≡ default_scope
      → r.replicas < 2 ^ 32
      → (preheat_image O G E D p peers network r net).1 ≡ some (ok tt)
      → IsImagePreheated r net
  preheat_image-IsImagePreheated r net scope fits h =
      let v = (preheat_image-IsImageOk O G F D E p peers network r net).0 h in
      record {
        image = v.image;
        resolved = v.resolved;
        targets = v.targets;
        urls = preheat_targets-urls O G E v.image v.token v.targets v.given;
        preheated = all_targets r v.targets scope fits v.succeeded;
      }
