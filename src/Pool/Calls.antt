-- ===== src/Pool/Calls.antt =====
-- client-request/rust/src/pool.rs: calls of `entry` that run at the same time. What a call does under
-- a lock of the map or of the cleanup time is one step; each step reads the clock as it likes.
pub mod Sound
use dragonfly_sdk.Base.{
  ℕ, ◌+◌, ◌-◌, ◌/◌, ◌≡◌, Bool, true, false, ◌||◌, not, none, some, List, [], ◌∷◌, ◌++◌, map, ltb,
  length, Text, TextMap, lookup,
}
use dragonfly_sdk.Errors.{Error, Result, ok, err}
use dragonfly_sdk.Pool.{Builder, retain, should_retain}
use dragonfly_sdk.Pool.Shared.{Handle, SharedPool, read_entry, set_cell, or_insert_shared}

-- A call under way with its key and address: before the cleanup, in its `retain` with the start of
-- the cleanup and whether the capacity was exceeded, before its `get`, and at the factory.
pub data Call : Type 0 where
  entering : Text → Text → Call
  sweeping : Text → Text → ℕ → Bool → Call
  looking : Text → Text → Call
  making : Text → Text → Call

-- The pool, the calls under way, and the entries that calls returned, each with the key.
pub record Serving {ℓ} (T : Type ℓ) : Type ℓ where
  pub pool : SharedPool T
  pub calls : List Call
  pub given : TextMap (Handle T)

module _ {ℓ} {T : Type ℓ} where
  -- `Builder::build`, before any call.
  abbrev pub fresh_pool : Builder → ℕ → Serving T
  fresh_pool b now = record {
    pool = record {
      clients = [];
      capacity = b.capacity;
      idle_timeout = b.idle_timeout;
      cleanup_at = now;
      made = 0;
      instants = λ c. 0;
    };
    calls = [];
    given = [];
  }

  -- The cleanup is too soon after the last one.
  abbrev pub is_hot : SharedPool T → ℕ → Bool
  is_hot p now = ltb (now - p.cleanup_at) (p.idle_timeout / 2)

  -- The `retain` of a cleanup on one shard of the map.
  abbrev pub sweep : (Text → Bool) → Bool → (Text → ℕ) → SharedPool T → SharedPool T
  sweep shard exceeds reads p = record p {
    clients =
        retain
          (λ k h.
            not (shard k)
            || should_retain exceeds p.idle_timeout (reads k) (read_entry p.instants h))
          p.clients;
  }

  abbrev pub give : Text → Handle T × SharedPool T → List Call → TextMap (Handle T) → Serving T
  give key (h, p) calls given = record { pool = p; calls = calls; given = (key, h) ∷ given }

  module _ (Asked : Text → Text → Type 0) (make_client : Text → Result T) where
    pub data Step (s : Serving T) : Serving T → Type ℓ where
      call :
          (key addr : Text)
          → Asked key addr
          → Step s (record s { calls = entering key addr ∷ s.calls })
      avoid_cleanup :
          (before after : List Call) (key addr : Text) (now : ℕ)
          → s.calls ≡ before ++ entering key addr ∷ after
          → is_hot s.pool now ≡ true
          → Step s (record s { calls = before ++ looking key addr ∷ after })
      begin_cleanup :
          (before after : List Call) (key addr : Text) (now : ℕ)
          → s.calls ≡ before ++ entering key addr ∷ after
          → is_hot s.pool now ≡ false
          → Step s (record s {
            calls =
                before
                ++ sweeping key addr now (ltb s.pool.capacity (length s.pool.clients)) ∷ after;
          })
      sweep_shard :
          (before after : List Call) (key addr : Text) (now : ℕ) (exceeds : Bool)
          (shard : Text → Bool) (reads : Text → ℕ)
          → s.calls ≡ before ++ sweeping key addr now exceeds ∷ after
          → Step s (record s { pool = sweep shard exceeds reads s.pool })
      end_cleanup :
          (before after : List Call) (key addr : Text) (now : ℕ) (exceeds : Bool)
          → s.calls ≡ before ++ sweeping key addr now exceeds ∷ after
          → Step s (record s {
            pool = record s.pool { cleanup_at = now };
            calls = before ++ looking key addr ∷ after;
          })
      hit :
          (before after : List Call) (key addr : Text) (now : ℕ) (h : Handle T)
          → s.calls ≡ before ++ looking key addr ∷ after
          → lookup key s.pool.clients ≡ some h
          → Step s (give key (h, set_cell h now s.pool) (before ++ after) s.given)
      miss :
          (before after : List Call) (key addr : Text)
          → s.calls ≡ before ++ looking key addr ∷ after
          → lookup key s.pool.clients ≡ none
          → Step s (record s { calls = before ++ making key addr ∷ after })
      fail :
          (before after : List Call) (key addr : Text) (e : Error)
          → s.calls ≡ before ++ making key addr ∷ after
          → make_client addr ≡ err e
          → Step s (record s { calls = before ++ after })
      make :
          (before after : List Call) (key addr : Text) (client : T) (now : ℕ)
          → s.calls ≡ before ++ making key addr ∷ after
          → make_client addr ≡ ok client
          → Step s (give key (or_insert_shared s.pool key client now) (before ++ after) s.given)

    pub data Reachable (b : Builder) (start : ℕ) : Serving T → Type ℓ where
      built : Reachable b start (fresh_pool b start)
      next : {s t : Serving T} → Reachable b start s → Step s t → Reachable b start t
