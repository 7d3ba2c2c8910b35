-- ===== src/Proxy/Images/Positive.antt =====
-- client-request/rust/src/lib.rs: a request of `preheat_image` that passes its checks has replicas and
-- tasks.
use dragonfly_sdk.Base.{ℕ, zero, suc, ◌<◌, ◌≡◌, arith}
use dragonfly_sdk.Errors.{ok, >>=-ok, ◌>>◌}
use dragonfly_sdk.Requests.{check_replicas, check_concurrency}
use dragonfly_sdk.Requests.Images.{PreheatImageRequest, validate_preheat_image}
use dragonfly_sdk.Proxy.Total.{positive}

both_positive :
    (replicas count : ℕ)
    → (check_replicas replicas >> check_concurrency count) ≡ ok tt
    → (0 < replicas) × (0 < count)
both_positive replicas count h =
    let (_, checked, later) = >>=-ok (check_replicas replicas) _ h in
    (positive replicas checked, some_count count later)
  where
    some_count : (n : ℕ) → check_concurrency n ≡ ok tt → 0 < n
    some_count zero q = cc
    some_count (suc n) q = omega arith

pub validate_positive :
    (r : PreheatImageRequest) (u : Unit {0})
    → validate_preheat_image r ≡ ok u
    → (0 < r.replicas) × (0 < r.concurrent_task_count)
unfolding validate_preheat_image
validate_positive r u h = both_positive r.replicas r.concurrent_task_count h
