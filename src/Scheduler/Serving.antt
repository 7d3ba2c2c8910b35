-- ===== src/Scheduler/Serving.antt =====
-- client-request/rust/src/selector.rs: what the health check of a seed peer finds.
use dragonfly_sdk.Base.{
  ◌≡◌, ap, ◌↔◌, inl, inr, true, false, none, arith, Bool-cases, sum_cases, Option-cases, Text, ℤ,
  pos, negsuc,
}
use dragonfly_sdk.Scheduler.{
  SchedulerApi, int_eq, seed_peers_health_check_timeout, check_health, check_connected, checked,
  is_serving,
}

int_eq_iff : (m n : ℤ) → (int_eq m n ≡ true) ↔ (m ≡ n)
int_eq_iff (pos m) (pos n) = (
  λ h. let same : m ≡ n = ground arith in ap pos same,
  λ e. let same : m ≡ n = cc in ground arith,
)
int_eq_iff (negsuc m) (negsuc n) = (
  λ h. let same : m ≡ n = ground arith in ap negsuc same,
  λ e. let same : m ≡ n = cc in ground arith,
)
int_eq_iff (pos m) (negsuc n) = (λ h. cc, λ e. cc)
int_eq_iff (negsuc m) (pos n) = (λ h. cc, λ e. cc)

module _ (S : SchedulerApi) where
  -- The health service at an address is reached and answers in time that it is serving.
  pub record Serves (addr : Text) : Type 0 where
    pub channel : S.HealthChannel
    pub status : ℤ
    pub in_time : S.in_time addr seed_peers_health_check_timeout ≡ true
    pub endpoint_fits : S.from_shared addr ≡ none
    pub connected : S.health_connect addr seed_peers_health_check_timeout ≡ inr channel
    pub answered : S.check channel seed_peers_health_check_timeout ≡ inr status
    pub serving : status ≡ S.serving

  -- A health check counts a seed peer as healthy exactly when its health service serves.
  pub Serves-healthy : (addr : Text) → Serves addr → is_serving S (check_health S addr) ≡ true
  unfolding check_health
  Serves-healthy addr v =
      rw
        (
          check_health, v.in_time, check_connected, v.endpoint_fits, v.connected, checked,
          v.answered,
        )
        ((int_eq_iff v.status S.serving).1 v.serving)

  pub healthy-Serves : (addr : Text) → is_serving S (check_health S addr) ≡ true → Serves addr
  unfolding check_health
  healthy-Serves addr h = elim (Bool-cases (S.in_time addr seed_peers_health_check_timeout)) [
    | inr late ↦ let no : false ≡ true = rw (check_health, late) at h in cc
    | inl soon ↦ elim (Option-cases (S.from_shared addr)) [
      | inr (m, refused) ↦
          let no : false ≡ true = rw (check_health, soon, check_connected, refused) at h in cc
      | inl fits ↦ elim (sum_cases (S.health_connect addr seed_peers_health_check_timeout)) [
        | inl (m, failed) ↦
            let no : false ≡ true = rw (check_health, soon, check_connected, fits, failed) at h in
            cc
        | inr (channel, linked) ↦
            elim (sum_cases (S.check channel seed_peers_health_check_timeout)) [
              | inl (m, broken) ↦
                  let no : false ≡ true =
                    rw (check_health, soon, check_connected, fits, linked, checked, broken) at h in
                  cc
              | inr (status, given) ↦
                  let same : int_eq status S.serving ≡ true =
                    rw (check_health, soon, check_connected, fits, linked, checked, given) at h in
                  record {
                    channel = channel;
                    status = status;
                    in_time = soon;
                    endpoint_fits = fits;
                    connected = linked;
                    answered = given;
                    serving = (int_eq_iff status S.serving).0 same;
                  }
            ]
      ]
    ]
  ]
