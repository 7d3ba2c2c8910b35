-- ===== src/Proxy/Total.antt =====
-- client-request/rust/src/lib.rs: the lookup of the endpoints returns.
use dragonfly_sdk.Base.{ℕ, zero, suc, ◌^◌, ◌<◌, ◌≡◌, refl, inl, inr, some, List, arith, Text}
use dragonfly_sdk.Errors.{Result, ok, err, >>=-ok, Result-cases}
use dragonfly_sdk.Requests.{check_replicas}
use dragonfly_sdk.Requests.Get.{GetRequest, validate}
use dragonfly_sdk.Selector.{SeedPeers}
use dragonfly_sdk.Selector.Ring.{RingLaws}
use dragonfly_sdk.Selector.Replicas.{select_lem}
use dragonfly_sdk.Proxy.{Env, Session, Proxy, as_u32}
use dragonfly_sdk.Proxy.Lookup.{
  lookup_endpoints, after_validation, endpoints_of_task, request_task_id,
}

pub positive : (n : ℕ) → check_replicas n ≡ ok tt → 0 < n
positive zero h = cc
positive (suc n) h = omega arith

module _ (E : Env) (L : RingLaws E.ring) (p : Proxy E) (peers : SeedPeers E.ring) (s : Session E)
    (r : GetRequest E.http) (fits : r.replicas < 2 ^ 32) where
  pub validate_positive : (u : Unit {0}) → validate E.http E.ids.url r ≡ ok u → 0 < r.replicas
  unfolding validate
  validate_positive u h = positive r.replicas (>>=-ok (check_replicas r.replicas) _ h).1

  pub as_u32_same : as_u32 E r.replicas ≡ r.replicas
  as_u32_same = omega arith

  pub lookup_total : (found : Result (List Text)) × (lookup_endpoints E p peers s r ≡ some found)
  unfolding lookup_endpoints
  lookup_total = elim (Result-cases (validate E.http E.ids.url r)) [
    | inr (e, invalid) ↦ rw (invalid, after_validation) (err e, refl)
    | inl (u, valid) ↦ elim (Result-cases (request_task_id E p r)) [
      | inr (e, failed) ↦ rw (valid, after_validation, failed) (err e, refl)
      | inl (id, computed) ↦
          rw
            (
              valid,
              after_validation,
              computed,
              endpoints_of_task,
              as_u32_same,
              select_lem E.ring L peers id r.replicas (validate_positive u valid),
            )
            (_, refl)
    ]
  ]
