-- ===== src/Pool.antt =====
-- client-request/rust/src/pool.rs: the pool of clients. Instants and durations are in nanoseconds;
-- each reading of the clock is an argument. A factory is an argument too.
pub mod Cleanup
pub mod Answers
pub mod Owned
pub mod Reuse
pub mod Shared
pub mod Calls
use dragonfly_sdk.Base.{
  ℕ, zero, ◌-◌, ◌*◌, ◌/◌, ◌^◌, Bool, ◌&&◌, not, Option, none, some, [], ◌∷◌, ltb, leb,
  if◌then◌else◌, unwrap_or, length, Text, TextMap, lookup, insert,
}
use dragonfly_sdk.Errors.{Result, ok, err, ◌>>=◌}

pub record Entry {ℓ} (T : Type ℓ) : Type ℓ where
  pub client : T
  pub actived_at : ℕ

pub record Pool {ℓ} (T : Type ℓ) : Type ℓ where
  pub clients : TextMap (Entry T)
  pub capacity : ℕ
  pub idle_timeout : ℕ
  pub cleanup_at : ℕ

pub record Builder : Type 0 where
  pub capacity : ℕ
  pub idle_timeout : ℕ

abbrev pub second : ℕ
second = 1_000_000_000

-- `usize::MAX`.
abbrev pub default_pool_capacity : ℕ
default_pool_capacity = 2 ^ 64 - 1

abbrev pub default_pool_idle_timeout : ℕ
default_pool_idle_timeout = 600 * second

abbrev pub new_builder : Builder
new_builder = record { capacity = default_pool_capacity; idle_timeout = default_pool_idle_timeout }

abbrev pub with_capacity : ℕ → Builder → Builder
with_capacity n b = record b { capacity = n }

abbrev pub with_idle_timeout : ℕ → Builder → Builder
with_idle_timeout n b = record b { idle_timeout = n }

module _ {ℓ} {V : Type ℓ} where
  -- `DashMap::retain`.
  unfoldable pub retain : (Text → V → Bool) → TextMap V → TextMap V
  retain keep [] = []
  retain keep ((k, e) ∷ m) = let rest = retain keep m in if keep k e then (k, e) ∷ rest else rest

module _ {ℓ} {T : Type ℓ} where
  abbrev pub build : Builder → ℕ → Pool T
  build b now = record {
    clients = [];
    capacity = b.capacity;
    idle_timeout = b.idle_timeout;
    cleanup_at = now;
  }

  -- `Entry::new` and `set_actived_at`.
  abbrev pub new_entry : T → ℕ → Entry T
  new_entry client now = record { client = client; actived_at = now }

  abbrev pub set_actived_at : ℕ → Entry T → Entry T
  set_actived_at now e = record e { actived_at = now }

  -- `duration_since` stops at zero.
  abbrev pub idle_duration : ℕ → Entry T → ℕ
  idle_duration now e = now - e.actived_at

  unfoldable pub should_retain : Bool → ℕ → ℕ → Entry T → Bool
  should_retain exceeds_capacity idle_timeout now e =
      not exceeds_capacity && leb (idle_duration now e) idle_timeout

  -- `reads k` is the instant at which the entry of `k` is looked at.
  unfoldable pub cleanup_idle_entries : Pool T → ℕ → (Text → ℕ) → Pool T
  unfolding retain should_retain
  cleanup_idle_entries p now reads =
      if ltb (now - p.cleanup_at) (p.idle_timeout / 2) then p else record p {
        clients =
            retain
              (λ k e. should_retain (ltb p.capacity (length p.clients)) p.idle_timeout (reads k) e)
              p.clients;
        cleanup_at = now;
      }

  -- The two halves of `entry`: up to the call of the factory, and behind it. Between them other
  -- calls may run.
  unfoldable pub reuse : Pool T → Text → ℕ → Option (Entry T) × Pool T
  reuse p key now = elim (lookup key p.clients) [
    | none ↦ (none, p)
    | some e ↦ (
      some (set_actived_at now e),
      record p { clients = insert key (set_actived_at now e) p.clients },
    )
  ]

  -- `entry(key).or_insert(..)`, then `set_actived_at`.
  unfoldable pub or_insert : Pool T → Text → T → ℕ → Entry T × Pool T
  or_insert p key client now =
      let e = set_actived_at now (unwrap_or (new_entry client now) (lookup key p.clients)) in
      (e, record p { clients = insert key e p.clients })

  abbrev finish_entry :
      (Text → Result T) → Text → Text → ℕ → Option (Entry T) × Pool T → Result (Entry T) × Pool T
  finish_entry make_client key addr made (some e, p) = (ok e, p)
  finish_entry make_client key addr made (none, p) = elim (make_client addr) [
    | err failure ↦ (err failure, p)
    | ok client ↦ (ok (or_insert p key client made).0, (or_insert p key client made).1)
  ]

  -- The times are the readings of the clock: at the start, for each entry that is looked at, at a
  -- hit, and when a client was made.
  unfoldable pub entry :
      (Text → Result T) → Pool T → Text → Text → ℕ → (Text → ℕ) → ℕ → ℕ → Result (Entry T) × Pool T
  unfolding cleanup_idle_entries reuse or_insert
  entry make_client p key addr now reads hit made =
      finish_entry make_client key addr made (reuse (cleanup_idle_entries p now reads) key hit)
