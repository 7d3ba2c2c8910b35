-- ===== src/Proxy/StatImage/Failures.antt =====
-- client-request/rust/src/lib.rs: which failures `stat_image` reports.
use dragonfly_sdk.Base.{
  ◌≡◌, refl, sym, ap, ◌∙◌, subst, ◌↔◌, ◌⊎◌, inl, inr, true, false, none, some, ◌++◌, Bool-cases,
  sum_cases, Option-cases, Text, text,
}
use dragonfly_sdk.Errors.{
  Error, Result, ok, err, internal, invalid_argument, Status, Code, invalid_argument_code,
}
use dragonfly_sdk.Oci.{OciApi}
use dragonfly_sdk.Requests.Images.{StatImageRequest}
use dragonfly_sdk.Scheduler.{SchedulerApi}
use dragonfly_sdk.Proxy.{Env, Proxy}
use dragonfly_sdk.Oci.Images.{image_reference}
use dragonfly_sdk.Proxy.StatImage.{
  StatApi, SchedulerStatImageResponse, scheduler_request, scheduler_channel, is_invalid_argument,
  stat_answer, stat_message, stat_timeout, stat_image,
}

refused_code : (c : Code) → is_invalid_argument c ≡ true → c ≡ invalid_argument_code
refused_code invalid_argument_code h = refl
refused_code _ h = cc

other_code : (c : Code) → (c ≡ invalid_argument_code → ⊥) → is_invalid_argument c ≡ false
other_code invalid_argument_code h = absurd (h refl)
other_code _ h = refl

err-injective : {A : Type 0} {e f : Error} → Path (Result A) (err e) (err f) → e ≡ f
err-injective e = cc

module _ (E : Env) (O : OciApi) (S : SchedulerApi) (A : StatApi S) (p : Proxy E)
    (r : StatImageRequest) where
  -- The call reached the scheduler with this reference and this channel.
  pub record IsAsked (reference : O.Reference) (channel : S.Channel) : Type 0 where
    pub parsed : O.parse r.image ≡ inr reference
    pub timeout_fits : A.try_duration r.timeout ≡ none
    pub endpoint_fits : S.from_shared p.scheduler_endpoint ≡ none
    pub connected : S.connect p.scheduler_endpoint r.timeout ≡ inr channel

  -- Each way in which a call fails, with the error that it gives.
  pub data IsFailure : Error → Type 0 where
    unreadable_image :
        {m : Text}
        → O.parse r.image ≡ inl m
        → IsFailure (invalid_argument (text "invalid image reference: " ++ m))
    unfit_timeout :
        {m : Text} {reference : O.Reference}
        → O.parse r.image ≡ inr reference
        → A.try_duration r.timeout ≡ some m
        → IsFailure (invalid_argument (text "invalid request timeout: " ++ m))
    unfit_endpoint :
        {m : Text} {reference : O.Reference}
        → O.parse r.image ≡ inr reference
        → A.try_duration r.timeout ≡ none
        → S.from_shared p.scheduler_endpoint ≡ some m
        → IsFailure (invalid_argument m)
    unreachable_scheduler :
        {m : Text} {reference : O.Reference}
        → O.parse r.image ≡ inr reference
        → A.try_duration r.timeout ≡ none
        → S.from_shared p.scheduler_endpoint ≡ none
        → S.connect p.scheduler_endpoint r.timeout ≡ inl m
        → IsFailure (
            internal
              (text "failed to connect to scheduler " ++ p.scheduler_endpoint ++ text ": " ++ m))
    refused_request :
        {s : Status} {reference : O.Reference} {channel : S.Channel}
        → IsAsked reference channel
        → A.stat_image channel (scheduler_request E O S A r reference) ≡ inl s
        → s.code ≡ invalid_argument_code
        → IsFailure (invalid_argument (stat_message E O S A r s))
    failed_request :
        {s : Status} {reference : O.Reference} {channel : S.Channel}
        → IsAsked reference channel
        → A.stat_image channel (scheduler_request E O S A r reference) ≡ inl s
        → (s.code ≡ invalid_argument_code → ⊥)
        → IsFailure (internal (stat_message E O S A r s))

  asked :
      {reference : O.Reference} {channel : S.Channel}
      → IsAsked reference channel
      → stat_image E O S A p r
        ≡ stat_answer E O S A r (A.stat_image channel (scheduler_request E O S A r reference))
  unfolding stat_image image_reference scheduler_channel
  asked v =
      rw
        (
          v.parsed, image_reference, v.timeout_fits, stat_timeout, v.endpoint_fits,
          scheduler_channel, v.connected,
        )
        refl

  answered :
      {reference : O.Reference} {channel : S.Channel} (e : Error)
      → IsAsked reference channel
      → (answer : Status ⊎ SchedulerStatImageResponse)
      → A.stat_image channel (scheduler_request E O S A r reference) ≡ answer
      → stat_answer E O S A r answer ≡ err e
      → IsFailure e
  unfolding stat_answer
  answered e v (inr response) given h = let no : ok _ ≡ err e = h in cc
  answered e v (inl s) given h = elim (Bool-cases (is_invalid_argument s.code)) [
    | inl refused ↦
        subst IsFailure (err-injective (rw refused at h))
          (refused_request v given (refused_code s.code refused))
    | inr other ↦
        subst IsFailure (err-injective (rw other at h))
          (failed_request v given (λ same. let no = ap is_invalid_argument same in cc))
  ]

  fails : (e : Error) → stat_image E O S A p r ≡ err e → IsFailure e
  unfolding stat_image image_reference scheduler_channel
  fails e h = elim (sum_cases (O.parse r.image)) [
    | inl (m, a) ↦
        subst IsFailure (err-injective (rw (a, image_reference) at h)) (unreadable_image a)
    | inr (reference, a) ↦ elim (Option-cases (A.try_duration r.timeout)) [
      | inr (m, b) ↦
          subst IsFailure (err-injective (rw (a, image_reference, b, stat_timeout) at h))
            (unfit_timeout a b)
      | inl b ↦ elim (Option-cases (S.from_shared p.scheduler_endpoint)) [
        | inr (m, c) ↦
            subst IsFailure
              (err-injective (rw (a, image_reference, b, stat_timeout, c, scheduler_channel) at h))
              (unfit_endpoint a b c)
        | inl c ↦ elim (sum_cases (S.connect p.scheduler_endpoint r.timeout)) [
          | inl (m, d) ↦
              subst IsFailure
                (err-injective
                  (rw (a, image_reference, b, stat_timeout, c, scheduler_channel, d) at h))
                (unreachable_scheduler a b c d)
          | inr (channel, d) ↦
              let v : IsAsked reference channel = record {
                parsed = a;
                timeout_fits = b;
                endpoint_fits = c;
                connected = d;
              } in
              answered e v (A.stat_image channel (scheduler_request E O S A r reference)) refl
                (sym (asked v) ∙ h)
        ]
      ]
    ]
  ]

  reported : (e : Error) → IsFailure e → stat_image E O S A p r ≡ err e
  unfolding stat_image image_reference scheduler_channel stat_answer
  reported _ (unreadable_image a) = rw (a, image_reference) refl
  reported _ (unfit_timeout a b) = rw (a, image_reference, b, stat_timeout) refl
  reported _ (unfit_endpoint a b c) =
      rw (a, image_reference, b, stat_timeout, c, scheduler_channel) refl
  reported _ (unreachable_scheduler a b c d) =
      rw (a, image_reference, b, stat_timeout, c, scheduler_channel, d) refl
  reported _ (refused_request v a c) = asked v ∙ rw (a, stat_answer, c) refl
  reported _ (failed_request {s = s} v a c) =
      asked v ∙ rw (a, stat_answer, other_code s.code c) refl

  -- `stat_image` fails with an error exactly when one of its steps does, the earlier steps having
  -- succeeded: an invalid argument for an image that does not parse, a timeout or an endpoint that
  -- does not fit, and a request that the scheduler refuses as an invalid argument; an internal error
  -- for a scheduler that cannot be reached or that answers any other status.
  pub stat_image-IsFailure : (e : Error) → (stat_image E O S A p r ≡ err e) ↔ IsFailure e
  stat_image-IsFailure e = (fails e, reported e)
