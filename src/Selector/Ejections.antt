-- ===== src/Selector/Ejections.antt =====
-- client-request/rust/src/selector.rs: proxies that keep failing to connect are ejected for a while.
-- Instants are in nanoseconds, and each reading of the clock is an argument.
pub mod Streaks
pub mod Races
use dragonfly_sdk.Base.{
  ℕ, zero, ◌+◌, ◌-◌, ◌*◌, ◌/◌, ◌⊎◌, inl, inr, Bool, false, not, Option, none, some, ltb, leb,
  if◌then◌else◌, unwrap_or, bind, Text, TextMap, lookup, insert, remove, contains_key, as_u16,
}
use dragonfly_sdk.Errors.{Result, ok, err, internal}
use dragonfly_sdk.Net.{IpAddr, format_url}
use dragonfly_sdk.Selector.{Host}

pub record Ejection : Type 0 where
  pub failed_count : ℕ
  pub ejected_at : Option ℕ

abbrev pub default_ejection : Ejection
default_ejection = record { failed_count = 0; ejected_at = none }

abbrev pub max_failed_count : ℕ
max_failed_count = 5

abbrev pub ejection_cooldown : ℕ
ejection_cooldown = 30 * 1_000_000_000

-- One more failure of an endpoint in that state. The count stays below the maximum, so its `u32`
-- does not overflow.
unfoldable pub count_failure : ℕ → Ejection → Ejection
count_failure now e =
    let failed_count = e.failed_count + 1 in
    if leb max_failed_count failed_count
    then record { failed_count = 0; ejected_at = some now }
    else record e { failed_count = failed_count }

unfoldable pub on_failure : TextMap Ejection → Text → ℕ → TextMap Ejection
unfolding count_failure
on_failure ejections endpoint now =
    insert endpoint (count_failure now (unwrap_or default_ejection (lookup endpoint ejections)))
      ejections

unfoldable pub on_success : TextMap Ejection → Text → TextMap Ejection
on_success ejections endpoint =
    if contains_key endpoint ejections then remove endpoint ejections else ejections

-- `elapsed` stops at zero.
unfoldable pub within_cooldown : ℕ → Option ℕ → Bool
within_cooldown now none = false
within_cooldown now (some at) = ltb (now - at) ejection_cooldown

unfoldable pub is_ejected : TextMap Ejection → Text → ℕ → Bool
unfolding within_cooldown
is_ejected ejections endpoint now =
    within_cooldown now (bind (lookup endpoint ejections) (λ e. e.ejected_at))

-- The endpoint of a seed peer's proxy; `parse_ip` is the standard library's.
unfoldable pub proxy_endpoint : (Text → Text ⊎ IpAddr) → Host → Result Text
proxy_endpoint parse_ip h = elim (parse_ip h.ip) [
  | inl message ↦ err (internal message)
  | inr ip ↦ ok (format_url "http" ip (as_u16 h.proxy_port))
]
