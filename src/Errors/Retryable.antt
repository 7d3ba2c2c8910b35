-- ===== src/Errors/Retryable.antt =====
-- client-request/rust/src/errors.rs: which failures are worth another attempt, against the table
-- in the documentation of `is_retryable`.
use dragonfly_sdk.Base.{
  ℕ, ◌≤◌, ◌<◌, ◌≡◌, refl, ◌↔◌, ◌⊎◌, inl, inr, true, Option, none, some, arith, Text,
}
use dragonfly_sdk.Errors.{
  Error, request_timeout, internal, backend_error, proxy_error, dfdaemon_error, tonic_status,
  BackendError, ProxyError, DfdaemonError, Status, Code, internal_code, unavailable, unknown,
  aborted, is_retryable, transient_status, transient_code,
}

-- An answer without a status, a `5xx`, `408` or `429`.
pub data IsTransientStatus : Option ℕ → Type 0 where
  unanswered : IsTransientStatus none
  server_side : {s : ℕ} → 500 ≤ s → s < 600 → IsTransientStatus (some s)
  timed_out : {s : ℕ} → s ≡ 408 → IsTransientStatus (some s)
  rate_limited : {s : ℕ} → s ≡ 429 → IsTransientStatus (some s)

pub data IsTransientCode : Code → Type 0 where
  internal_answer : IsTransientCode internal_code
  unavailable_answer : IsTransientCode unavailable
  unknown_answer : IsTransientCode unknown
  aborted_answer : IsTransientCode aborted

-- The rows of the table that say "yes".
pub data IsTransient : Error → Type 0 where
  timeout : {m : Text} → IsTransient (request_timeout m)
  transport : {m : Text} → IsTransient (internal m)
  proxy_answer : {e : ProxyError} → IsTransientStatus e.status_code → IsTransient (proxy_error e)
  backend_answer :
      {e : BackendError} → IsTransientStatus e.status_code → IsTransient (backend_error e)
  dfdaemon_answer :
      {e : DfdaemonError} → IsTransientStatus e.status_code → IsTransient (dfdaemon_error e)
  grpc_answer : {s : Status} → IsTransientCode s.code → IsTransient (tonic_status s)

status_split :
    (s : ℕ) → transient_status (some s) ≡ true → ((500 ≤ s) × (s < 600)) ⊎ ((s ≡ 408) ⊎ (s ≡ 429))
unfolding transient_status
status_split s h = ground arith

status_sound : (o : Option ℕ) → transient_status o ≡ true → IsTransientStatus o
unfolding transient_status
status_sound none h = unanswered
status_sound (some s) h = elim (status_split s h) [
  | inl (lo, hi) ↦ server_side lo hi
  | inr (inl e) ↦ timed_out e
  | inr (inr e) ↦ rate_limited e
]

code_sound : (c : Code) → transient_code c ≡ true → IsTransientCode c
unfolding transient_code
code_sound internal_code h = internal_answer
code_sound unavailable h = unavailable_answer
code_sound unknown h = unknown_answer
code_sound aborted h = aborted_answer
code_sound _ h = cc

retryable_sound : (e : Error) → is_retryable e ≡ true → IsTransient e
unfolding is_retryable
retryable_sound (request_timeout m) h = timeout
retryable_sound (internal m) h = transport
retryable_sound (proxy_error e) h = proxy_answer (status_sound e.status_code h)
retryable_sound (backend_error e) h = backend_answer (status_sound e.status_code h)
retryable_sound (dfdaemon_error e) h = dfdaemon_answer (status_sound e.status_code h)
retryable_sound (tonic_status s) h = grpc_answer (code_sound s.code h)
retryable_sound _ h = cc

status_complete : {o : Option ℕ} → IsTransientStatus o → transient_status o ≡ true
unfolding transient_status
status_complete unanswered = refl
status_complete (server_side lo hi) = ground arith
status_complete (timed_out e) = ground arith
status_complete (rate_limited e) = ground arith

code_complete : {c : Code} → IsTransientCode c → transient_code c ≡ true
unfolding transient_code
code_complete internal_answer = refl
code_complete unavailable_answer = refl
code_complete unknown_answer = refl
code_complete aborted_answer = refl

retryable_complete : {e : Error} → IsTransient e → is_retryable e ≡ true
unfolding is_retryable
retryable_complete timeout = refl
retryable_complete transport = refl
retryable_complete (proxy_answer t) = status_complete t
retryable_complete (backend_answer t) = status_complete t
retryable_complete (dfdaemon_answer t) = status_complete t
retryable_complete (grpc_answer t) = code_complete t

-- A failure is retried exactly when the documented table says so: a timeout, an internal failure,
-- a seed peer's answer with no status or with a 5xx, 408 or 429, and the gRPC codes internal,
-- unavailable, unknown and aborted.
pub is_retryable_iff : (e : Error) → (is_retryable e ≡ true) ↔ IsTransient e
is_retryable_iff e = (retryable_sound e, retryable_complete)
