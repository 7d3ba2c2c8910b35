-- ===== src/Proxy/Images/Outcome.antt =====
-- client-request/rust/src/lib.rs: when `preheat_image` succeeds.
use dragonfly_sdk.Base.{◌≡◌, refl, sym, ap, ◌∙◌, subst, ◌↔◌, inl, inr, some, List, map, All, Text}
use dragonfly_sdk.Errors.{Result, ok, err, >>=-ok, ok-injective, Result-cases, ◌>>=◌}
use dragonfly_sdk.Oci.{OciApi}
use dragonfly_sdk.Requests.Images.{PreheatImageRequest, validate_preheat_image}
use dragonfly_sdk.Selector.{SeedPeers}
use dragonfly_sdk.Proxy.{Env, Proxy}
use dragonfly_sdk.Proxy.Dfdaemon.{Dfdaemon}
use dragonfly_sdk.Proxy.Fanout.Outcomes.{unwrap}
use dragonfly_sdk.Oci.Images.{Registry, Image, resolve_image, request_token}
use dragonfly_sdk.Proxy.Images.{
  Target, preheat_targets, preheat_target, preheat_all, preheat_resolved, preheat_image,
}
use dragonfly_sdk.Proxy.Images.Waits.{FinishedLaws, Succeeds, wait_all-ok, wait_all-Succeeds}
use dragonfly_sdk.Proxy.Images.Positive.{validate_positive}

module _ (O : OciApi) (G : Registry O) (F : FinishedLaws O G) (D : Dfdaemon) (E : Env) (p : Proxy E)
    (peers : Text → SeedPeers E.ring) (network : Text → Text → D.Net) where
  -- Every step of a preheat, and the preheat of every target.
  pub record IsImageOk (r : PreheatImageRequest) (net : G.Net) : Type 0 where
    pub valid : validate_preheat_image r ≡ ok tt
    pub image : Image O G
    pub resolved : (resolve_image O G r.platform r.image r.username r.password net).1 ≡ ok image
    pub token : Text
    pub authenticated :
        (request_token O G image
          (resolve_image O G r.platform r.image r.username r.password net).0).1
        ≡ ok token
    pub targets : List (Target O G E)
    pub given : preheat_targets O G E image token ≡ ok targets
    pub succeeded :
        All (Succeeds O G F E D) (map (preheat_target O G E D p peers network r) targets)

  preheat_all-ok :
      (r : PreheatImageRequest) (answer : Result (List (Target O G E)))
      → preheat_all O G E D p peers network r answer ≡ some (ok tt)
      → (targets : List (Target O G E)) × (answer ≡ ok targets)
        × All (Succeeds O G F E D) (map (preheat_target O G E D p peers network r) targets)
  unfolding preheat_all
  preheat_all-ok r (err e) h = let no : err e ≡ ok tt = unwrap h in cc
  preheat_all-ok r (ok targets) h =
      (targets, refl, wait_all-ok O G F E D r.concurrent_task_count _ h)

  resolved-ok :
      (r : PreheatImageRequest) (net : G.Net) (answer : G.Net × Result (Image O G))
      → validate_preheat_image r ≡ ok tt
      → resolve_image O G r.platform r.image r.username r.password net ≡ answer
      → (preheat_resolved O G E D p peers network r answer).1 ≡ some (ok tt)
      → IsImageOk r net
  unfolding preheat_resolved
  resolved-ok r net (net', err e) valid resolved h = let no : err e ≡ ok tt = unwrap h in cc
  resolved-ok r net (net', ok i) valid resolved h =
      let (targets, answered, succeeded) = preheat_all-ok r _ h in
      let (token, authenticated, given) = >>=-ok (request_token O G i net').1 _ answered in
      record {
        valid = valid;
        image = i;
        resolved = ap (λ a. a.1) resolved;
        token = token;
        authenticated =
            ap (λ (a : G.Net × Result (Image O G)). (request_token O G i a.0).1) resolved
            ∙ authenticated;
        targets = targets;
        given = given;
        succeeded = succeeded;
      }

  ok-resolved :
      (r : PreheatImageRequest) (net : G.Net) (v : IsImageOk r net)
      (answer : G.Net × Result (Image O G))
      → resolve_image O G r.platform r.image r.username r.password net ≡ answer
      → (preheat_resolved O G E D p peers network r answer).1 ≡ some (ok tt)
  unfolding preheat_resolved preheat_all request_token
  ok-resolved r net v (net', err e) resolved =
      let no : err e ≡ ok v.image = sym (ap (λ a. a.1) resolved) ∙ v.resolved in cc
  ok-resolved r net v (net', ok i) resolved =
      let same : v.image ≡ i = ok-injective (sym v.resolved ∙ ap (λ a. a.1) resolved) in
      let here : (request_token O G v.image net').1 ≡ ok v.token =
        subst (λ n. (request_token O G v.image n).1 ≡ ok v.token) (ap (λ a. a.0) resolved)
          v.authenticated in
      let token = subst (λ image. (request_token O G image net').1 ≡ ok v.token) same here in
      let given =
        subst (λ image. preheat_targets O G E image v.token ≡ ok v.targets) same v.given in
      let (some_replica, some_permit) = validate_positive r tt v.valid in
      ap (λ answer. preheat_all O G E D p peers network r (answer >>= preheat_targets O G E i))
        token
      ∙ ap (preheat_all O G E D p peers network r) given
      ∙ wait_all-Succeeds O G F E D r.concurrent_task_count _ some_permit v.succeeded

  reached :
      (r : PreheatImageRequest) (net : G.Net)
      → (preheat_image O G E D p peers network r net).1 ≡ some (ok tt)
      → IsImageOk r net
  unfolding preheat_image
  reached r net h = elim (Result-cases (validate_preheat_image r)) [
    | inr (e, invalid) ↦ let no : err e ≡ ok tt = unwrap (rw (invalid, preheat_image) at h) in cc
    | inl (_, valid) ↦
        resolved-ok r net (resolve_image O G r.platform r.image r.username r.password net) valid
          refl (rw (valid, preheat_image) at h)
  ]

  pub preheat_image-IsImageOk :
      (r : PreheatImageRequest) (net : G.Net)
      → ((preheat_image O G E D p peers network r net).1 ≡ some (ok tt)) ↔ IsImageOk r net
  unfolding preheat_image
  preheat_image-IsImageOk r net = (
    reached r net,
    λ v.
        rw (v.valid, preheat_image)
          (ok-resolved r net v (resolve_image O G r.platform r.image r.username r.password net)
            refl),
  )
