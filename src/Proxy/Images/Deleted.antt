-- ===== src/Proxy/Images/Deleted.antt =====
-- client-request/rust/src/lib.rs: from where a `delete_image` that succeeds has removed the image,
-- and that it removes what a preheat of the image has put there.
use dragonfly_sdk.Base.{
  ◌^◌, ◌<◌, ◌≡◌, refl, sym, ap, ◌∙◌, subst, inl, inr, some, List, [], ◌∷◌, map, All, Text,
}
use dragonfly_sdk.Errors.{Result, ok, err, Result-cases, ok-injective}
use dragonfly_sdk.Oci.{OciApi}
use dragonfly_sdk.Requests.{default_scope}
use dragonfly_sdk.Requests.Images.{PreheatImageRequest, DeleteImageRequest, validate_delete_image}
use dragonfly_sdk.Retry.{RetrierLaws}
use dragonfly_sdk.Selector.{Host, SeedPeers}
use dragonfly_sdk.Selector.Ring.{RingLaws}
use dragonfly_sdk.Selector.Synced.{IsSynced}
use dragonfly_sdk.Proxy.{Env, Proxy}
use dragonfly_sdk.Proxy.Dfdaemon.{Dfdaemon}
use dragonfly_sdk.Proxy.Fanout.{delete_one, remote_ip}
use dragonfly_sdk.Proxy.Fanout.Outcomes.{JoinLaws, Reached, unwrap}
use dragonfly_sdk.Proxy.{select_seed_peers}
use dragonfly_sdk.Proxy.Fanout.Preheated.{IsPreheated}
use dragonfly_sdk.Proxy.Fanout.Deleted.{IsDeleted, delete-IsDeleted}
use dragonfly_sdk.Oci.Images.{Registry, Image, resolve_image}
use dragonfly_sdk.Proxy.Images.{
  Target, manifest_url, blob_urls, delete_targets, preheat_request, delete_request, delete_target,
  delete_resolved, delete_image,
}
use dragonfly_sdk.Proxy.Images.Waits.{FinishedLaws, Succeeds, wait_all-ok}
use dragonfly_sdk.Proxy.Images.Preheated.{IsImagePreheated}

-- The delete of what a preheat asks for.
abbrev pub delete_of : PreheatImageRequest → DeleteImageRequest
delete_of r = record {
  image = r.image;
  username = r.username;
  password = r.password;
  platform = r.platform;
  piece_length = r.piece_length;
  tag = r.tag;
  application = r.application;
  filtered_query_params = r.filtered_query_params;
  content_for_calculating_task_id = r.content_for_calculating_task_id;
  enable_task_id_based_blob_digest = r.enable_task_id_based_blob_digest;
  replicas = r.replicas;
  scope = r.scope;
  timeout = r.timeout;
  concurrent_task_count = r.concurrent_task_count;
}

All-of_map :
    {A B : Type 0} (f : A → B) (P : B → Type 0) (xs : List A)
    → All P (map f xs)
    → All (λ x. P (f x)) xs
All-of_map f P [] h = tt
All-of_map f P (x ∷ xs) (h, hs) = (h, All-of_map f P xs hs)

module _ (O : OciApi) (G : Registry O) (F : FinishedLaws O G) (D : Dfdaemon) (J : JoinLaws D)
    (E : Env) (R : RetrierLaws E.retrier) (L : RingLaws E.ring) (p : Proxy E)
    (peers : Text → SeedPeers E.ring) (synced : (url : Text) → IsSynced E.ring L (peers url))
    (network : Text → Text → D.Net) where
  abbrev DeletedAt : DeleteImageRequest → Text → Type 0
  DeletedAt r url =
      (hosts : List Host) × IsDeleted D J E R L p (peers url) (synced url) (network url)
        (delete_request O G E r url) hosts

  -- The image that the registry resolved, with its manifest and every blob deleted.
  pub record IsImageDeleted (r : DeleteImageRequest) (net : G.Net) : Type 0 where
    pub image : Image O G
    pub resolved : (resolve_image O G r.platform r.image r.username r.password net).1 ≡ ok image
    pub deleted : All (DeletedAt r) (manifest_url O G image ∷ blob_urls O G image)

  deleted_targets :
      (r : DeleteImageRequest) (urls : List Text)
      → r.scope ≡ default_scope
      → r.replicas < 2 ^ 32
      → All (Succeeds O G F E D) (map (delete_target O G E D p peers network r) urls)
      → All (DeletedAt r) urls
  unfolding delete_target
  deleted_targets r [] scope fits h = tt
  deleted_targets r (url ∷ urls) scope fits (h, hs) = (
    delete-IsDeleted D J E R L p (peers url) (synced url) (network url) (delete_request O G E r url)
        scope fits h,
    deleted_targets r urls scope fits hs,
  )

  resolved-IsImageDeleted :
      (r : DeleteImageRequest) (net : G.Net) (answer : G.Net × Result (Image O G))
      → r.scope ≡ default_scope
      → r.replicas < 2 ^ 32
      → resolve_image O G r.platform r.image r.username r.password net ≡ answer
      → (delete_resolved O G E D p peers network r answer).1 ≡ some (ok tt)
      → IsImageDeleted r net
  unfolding delete_resolved
  resolved-IsImageDeleted r net (net', err e) scope fits resolved h =
      let no : err e ≡ ok tt = unwrap h in cc
  resolved-IsImageDeleted r net (net', ok i) scope fits resolved h = record {
    image = i;
    resolved = ap (λ a. a.1) resolved;
    deleted =
        deleted_targets r (delete_targets O G E i) scope fits
          (wait_all-ok O G F E D r.concurrent_task_count _ h);
  }

  -- Under the documented behaviour of the hash ring, of retries, of a semaphore and of a join set,
  -- and with hosts and ring in step: when a delete of an image from the replicas of its tasks
  -- succeeds, and the number of replicas fits the `u32` it is cast to, then the registry resolved
  -- the image; and for the manifest of its digest, and for every blob, at least one seed peer and
  -- no more than the replicas, known, healthy and of distinct names, each answered the delete of
  -- the task of its URL.
  pub delete_image-IsImageDeleted :
      (r : DeleteImageRequest) (net : G.Net)
      → r.scope ≡ default_scope
      → r.replicas < 2 ^ 32
      → (delete_image O G E D p peers network r net).1 ≡ some (ok tt)
      → IsImageDeleted r net
  unfolding delete_image
  delete_image-IsImageDeleted r net scope fits h = elim (Result-cases (validate_delete_image r)) [
    | inr (e, invalid) ↦ let no : err e ≡ ok tt = unwrap (rw (invalid, delete_image) at h) in cc
    | inl (_, valid) ↦
        resolved-IsImageDeleted r net
          (resolve_image O G r.platform r.image r.username r.password net) scope fits refl
          (rw (valid, delete_image) at h)
  ]

  -- The seed peers that downloaded a target, each of which then answered the delete of its task.
  abbrev pub TaskDeleted : PreheatImageRequest → Target O G E → Type 0
  TaskDeleted r t =
      (hosts : List Host) × (w : IsPreheated D J E R L p (peers t.0) (synced t.0) (network t.0)
        (preheat_request O G E r t) hosts)
      × All
          (Reached D E r.timeout
            (delete_one D (record { task_id = w.task; remote_ip = remote_ip D })))
          hosts

  -- The delete of a target selects the seed peers that its preheat did.
  same_task :
      (r : PreheatImageRequest) (t : Target O G E)
      → ((hosts : List Host) × IsPreheated D J E R L p
            (peers t.0)
            (synced t.0)
            (network t.0)
            (preheat_request O G E r t)
            hosts)
      → DeletedAt (delete_of r) t.0
      → TaskDeleted r t
  same_task r t (hosts, w) (others, d) =
      let task : d.task ≡ w.task = ok-injective (sym d.named ∙ w.named) in
      let chosen : some (ok others) ≡ some (ok hosts) =
        sym d.selected
        ∙ ap (λ k. select_seed_peers E (peers t.0) k r.scope r.replicas) task
        ∙ w.selected in
      let same : others ≡ hosts = ok-injective (unwrap chosen) in
      let call = λ (k : Text). delete_one D (record { task_id = k; remote_ip = remote_ip D }) in
      (
        hosts,
        w,
        subst (λ k. All (Reached D E r.timeout (call k)) hosts) task
            (subst (All (Reached D E r.timeout (call d.task))) same d.deleted),
      )

  All_both :
      {A : Type 0} (P Q S : A → Type 0) (xs : List A)
      → ((x : A) → P x → Q x → S x)
      → All P xs
      → All Q xs
      → All S xs
  All_both P Q S [] f h k = tt
  All_both P Q S (x ∷ xs) f (h, hs) (k, ks) = (f x h k, All_both P Q S xs f hs ks)

  -- Under the same behaviour and conditions: when an image was preheated, then a delete of it with
  -- the same fields, over the same seed peers and to which the registry answers the same, has the
  -- task of every target of the preheat, by its task id, deleted by every seed peer that the preheat
  -- had download it.
  pub delete_image-preheated :
      (r : PreheatImageRequest) (net : G.Net)
      → r.scope ≡ default_scope
      → r.replicas < 2 ^ 32
      → (v : IsImagePreheated O G F D J E R L p peers synced network r net)
      → (delete_image O G E D p peers network (delete_of r) net).1 ≡ some (ok tt)
      → All (TaskDeleted r) v.targets
  delete_image-preheated r net scope fits v h =
      let w = delete_image-IsImageDeleted (delete_of r) net scope fits h in
      let same : v.image ≡ w.image = ok-injective (sym v.resolved ∙ w.resolved) in
      let urls : manifest_url O G w.image ∷ blob_urls O G w.image ≡ map (λ t. t.0) v.targets =
        ap (λ i. manifest_url O G i ∷ blob_urls O G i) (sym same) ∙ sym v.urls in
      All_both _ (λ t. DeletedAt (delete_of r) t.0) (TaskDeleted r) v.targets (same_task r)
        v.preheated
        (All-of_map (λ t. t.0) (DeletedAt (delete_of r)) v.targets
          (subst (All (DeletedAt (delete_of r))) urls w.deleted))
