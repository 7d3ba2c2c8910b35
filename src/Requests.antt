-- ===== src/Requests.antt =====
-- client-request/rust/src/lib.rs: the requests of the client, their defaults and their checks.
-- Durations are in nanoseconds; a client certificate is opaque bytes.
pub mod Get
pub mod Files
pub mod Images
use dragonfly_sdk.Base.{ℕ, ◌-◌, ◌*◌, ◌/◌, Bool, true, false, ◌==◌, text}
use dragonfly_sdk.Errors.{Result, ok, err, invalid_argument, fail_if, ◌>>◌}

-- The seed peers that a preheat or a delete addresses.
pub data Scope : Type 0 where
  default_scope all_seed_peers : Scope

abbrev pub is_default_scope : Scope → Bool
is_default_scope default_scope = true
is_default_scope all_seed_peers = false

abbrev pub default_request_timeout : ℕ
default_request_timeout = 10 * 60 * 1_000_000_000

abbrev pub default_replicas : ℕ
default_replicas = 2

abbrev pub check_replicas : ℕ → Result (Unit {0})
check_replicas replicas =
    fail_if (replicas == 0) (invalid_argument (text "replicas must be positive"))

abbrev pub check_concurrency : ℕ → Result (Unit {0})
check_concurrency count =
    fail_if (count == 0) (invalid_argument (text "concurrent task count must be positive"))
