-- ===== src/Proxy/Builders/Scheduled/Accepted.antt =====
-- client-request/rust/src/lib.rs: what `ProxyBuilder::validate` accepts.
use dragonfly_sdk.Base.{
  ◌/◌, ◌≤◌, ◌<◌, ◌≡◌, refl, ◌↔◌, inl, inr, Bool, true, false, ◌||◌, arith, ltb, sum_cases, Text,
}
use dragonfly_sdk.Errors.{Error, ok, err, >>=-ok, fail_if}
use dragonfly_sdk.Retry.{Retrier}
use dragonfly_sdk.Url.{UrlApi}
use dragonfly_sdk.Proxy.Builders.{ProxyBuilder, validate_builder, check_retries, check_url}

fail_if-ok : (b : Bool) (e : Error) → fail_if b e ≡ ok tt → b ≡ false
fail_if-ok true e h = cc
fail_if-ok false e h = refl

module _ (R : Retrier) (U : UrlApi) where
  -- The bounds of a builder's values; durations are in nanoseconds.
  pub record IsAccepted (b : ProxyBuilder R) : Type 0 where
    pub url : U.Url
    pub parsed : U.parse b.scheduler_endpoint ≡ inr url
    pub patient : 100_000_000 ≤ b.scheduler_request_timeout
    pub seldom : 1_000_000_000 ≤ b.health_check_interval
    pub often : b.health_check_interval < 601_000_000_000
    pub few : b.retry.max_retries ≤ 10

  url_parsed :
      (endpoint : Text) → check_url R U endpoint ≡ ok tt → (u : U.Url) × (U.parse endpoint ≡ inr u)
  url_parsed endpoint h = elim (sum_cases (U.parse endpoint)) [
    | inl (m, e) ↦ let no : err _ ≡ ok tt = rw (e, check_url) at h in cc
    | inr (u, e) ↦ (u, e)
  ]

  accepted : (b : ProxyBuilder R) → validate_builder R U b ≡ ok tt → IsAccepted b
  unfolding validate_builder check_retries
  accepted b h =
      let (_, checked, a) = >>=-ok (check_url R U b.scheduler_endpoint) _ h in
      let (_, patient, c) =
        >>=-ok (fail_if (ltb (b.scheduler_request_timeout / 1_000_000) 100) _) _ a in
      let (_, interval, few) =
        >>=-ok
          (fail_if
            (ltb (b.health_check_interval / 1_000_000_000) 1
              || ltb 600 (b.health_check_interval / 1_000_000_000))
            _)
          _ c in
      let (u, parsed) = url_parsed b.scheduler_endpoint checked in
      let p = fail_if-ok _ _ patient in
      let i = fail_if-ok _ _ interval in
      let f = fail_if-ok (ltb 10 b.retry.max_retries) _ few in
      record {
        url = u;
        parsed = parsed;
        patient = ground arith;
        seldom = ground arith;
        often = ground arith;
        few = ground arith;
      }

  passes : (b : ProxyBuilder R) → IsAccepted b → validate_builder R U b ≡ ok tt
  unfolding validate_builder check_retries
  passes b v =
      let p : ltb (b.scheduler_request_timeout / 1_000_000) 100 ≡ false =
        ground (arith, v.patient) in
      let i : (ltb (b.health_check_interval / 1_000_000_000) 1
            || ltb 600 (b.health_check_interval / 1_000_000_000))
          ≡ false =
        ground (arith, v.seldom, v.often) in
      let f : ltb 10 b.retry.max_retries ≡ false = ground (arith, v.few) in
      rw (v.parsed, check_url, p, i, f) refl

  -- A builder is accepted exactly when its scheduler endpoint is a URL, its request timeout is at
  -- least 100 milliseconds, its health check interval is at least 1 second and below 601 seconds,
  -- since the code compares whole seconds, and it has at most 10 retries.
  pub validate_builder-IsAccepted :
      (b : ProxyBuilder R) → (validate_builder R U b ≡ ok tt) ↔ IsAccepted b
  validate_builder-IsAccepted b = (accepted b, passes b)
