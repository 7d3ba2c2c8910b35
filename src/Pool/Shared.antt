-- ===== src/Pool/Shared.antt =====
-- client-request/rust/src/pool.rs: the pool with the instants of last use in cells that the clones of
-- an entry share, as the source has them behind `Arc<Mutex<Instant>>`.
pub mod Separate
pub mod View
pub mod Refined
pub mod Answered
use dragonfly_sdk.Base.{
  ℕ, suc, ◌-◌, ◌/◌, ◌<◌, Option, none, some, ltb, ◌==◌, if◌then◌else◌, length, Text, TextMap,
  lookup, insert,
}
use dragonfly_sdk.Errors.{Result, ok, err}
use dragonfly_sdk.Pool.{retain, should_retain, Entry, Pool}

-- An entry, with the cell of its instant. A clone of it has the same cell.
pub record Handle {ℓ} (T : Type ℓ) : Type ℓ where
  pub client : T
  pub actived_at : ℕ

-- The pool, with the cells: the number of those made, and what each holds.
pub record SharedPool {ℓ} (T : Type ℓ) : Type ℓ where
  pub clients : TextMap (Handle T)
  pub capacity : ℕ
  pub idle_timeout : ℕ
  pub cleanup_at : ℕ
  pub made : ℕ
  pub instants : ℕ → ℕ

abbrev pub write : ℕ → ℕ → (ℕ → ℕ) → ℕ → ℕ
write cell now instants c = if c == cell then now else instants c

module _ {ℓ} {T : Type ℓ} where
  -- What an entry is worth at this time.
  abbrev pub read_entry : (ℕ → ℕ) → Handle T → Entry T
  read_entry instants h = record { client = h.client; actived_at = instants h.actived_at }

  -- `Entry::new`.
  abbrev pub new_handle : SharedPool T → T → ℕ → Handle T × SharedPool T
  new_handle p client now = (
    record { client = client; actived_at = p.made },
    record p { made = suc p.made; instants = write p.made now p.instants },
  )

  -- `Entry::set_actived_at`, through any clone of the entry.
  abbrev pub set_cell : Handle T → ℕ → SharedPool T → SharedPool T
  set_cell h now p = record p { instants = write h.actived_at now p.instants }

  unfoldable pub cleanup_shared : SharedPool T → ℕ → (Text → ℕ) → SharedPool T
  unfolding retain should_retain
  cleanup_shared p now reads =
      if ltb (now - p.cleanup_at) (p.idle_timeout / 2) then p else record p {
        clients =
            retain
              (λ k h.
                should_retain (ltb p.capacity (length p.clients)) p.idle_timeout (reads k)
                  (read_entry p.instants h))
              p.clients;
        cleanup_at = now;
      }

  -- `get`, and the use of the entry that it finds.
  unfoldable pub reuse_shared : SharedPool T → Text → ℕ → Option (Handle T) × SharedPool T
  reuse_shared p key now = elim (lookup key p.clients) [
    | none ↦ (none, p)
    | some h ↦ (some h, set_cell h now p)
  ]

  -- `or_insert`: the new entry is made also when there is one already.
  abbrev pub place : Text → Handle T × SharedPool T → Handle T × SharedPool T
  place key (h, p) = elim (lookup key p.clients) [
    | none ↦ (h, record p { clients = insert key h p.clients })
    | some there ↦ (there, p)
  ]

  unfoldable pub or_insert_shared : SharedPool T → Text → T → ℕ → Handle T × SharedPool T
  or_insert_shared p key client now =
      let (h, q) = place key (new_handle p client now) in (h, set_cell h now q)

  abbrev pub finish_shared :
      (Text → Result T)
      → Text
      → Text
      → ℕ
      → Option (Handle T) × SharedPool T
      → Result (Handle T) × SharedPool T
  finish_shared make_client key addr made (some h, p) = (ok h, p)
  finish_shared make_client key addr made (none, p) = elim (make_client addr) [
    | err failure ↦ (err failure, p)
    | ok client ↦
        (ok (or_insert_shared p key client made).0, (or_insert_shared p key client made).1)
  ]

  unfoldable pub entry_shared :
      (Text → Result T)
      → SharedPool T
      → Text
      → Text
      → ℕ
      → (Text → ℕ)
      → ℕ
      → ℕ
      → Result (Handle T) × SharedPool T
  unfolding cleanup_shared reuse_shared or_insert_shared
  entry_shared make_client p key addr now reads hit made =
      finish_shared make_client key addr made (reuse_shared (cleanup_shared p now reads) key hit)
