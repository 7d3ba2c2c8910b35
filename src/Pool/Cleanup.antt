-- ===== src/Pool/Cleanup.antt =====
-- client-request/rust/src/pool.rs: what a cleanup keeps and drops.
use dragonfly_sdk.Base.{
  ℕ, ◌-◌, ◌/◌, ◌≡◌, refl, ◌∙◌, inl, inr, Bool, true, false, Option, none, some, [], ◌∷◌, arith, ltb,
  leb, if◌then◌else◌, Bool-cases, bind, length, Text, text_eq_iff, contains, Distinct, TextMap,
  lookup, keys, contains-keys,
}
use dragonfly_sdk.Pool.{Pool, Entry, retain, should_retain, idle_duration, cleanup_idle_entries}

module _ {ℓ} {T : Type ℓ} where
  lookup-retain :
      (keep : Text → Entry T → Bool) (k : Text) (m : TextMap (Entry T))
      → Distinct (keys m)
      → lookup k (retain keep m) ≡ bind (lookup k m) (λ e. if keep k e then some e else none)
  unfolding lookup retain contains
  lookup-retain keep k [] d = refl
  lookup-retain keep k ((j, e) ∷ m) d =
      ground (arith, text_eq_iff j k, lookup-retain keep k m d.1, contains-keys k m)

  all_dropped :
      (idle_timeout : ℕ) (reads : Text → ℕ) (k : Text) (m : TextMap (Entry T))
      → Distinct (keys m)
      → lookup k (retain (λ j e. should_retain true idle_timeout (reads j) e) m) ≡ none
  unfolding should_retain
  all_dropped idle_timeout reads k m d =
      lookup-retain (λ j e. should_retain true idle_timeout (reads j) e) k m d ∙ ground (arith)

  recent_kept :
      (idle_timeout : ℕ) (reads : Text → ℕ) (k : Text) (m : TextMap (Entry T))
      → Distinct (keys m)
      → lookup k (retain (λ j e. should_retain false idle_timeout (reads j) e) m)
        ≡ bind
            (lookup k m)
            (λ e. if leb (idle_duration (reads k) e) idle_timeout then some e else none)
  unfolding should_retain
  recent_kept idle_timeout reads k m d =
      lookup-retain (λ j e. should_retain false idle_timeout (reads j) e) k m d

  abbrev pub is_hot : Pool T → ℕ → Bool
  is_hot p now = ltb (now - p.cleanup_at) (p.idle_timeout / 2)

  -- The entry of a key that a call finds behind the cleanup.
  abbrev pub kept : Pool T → ℕ → (Text → ℕ) → Text → Option (Entry T)
  kept p now reads k =
      if is_hot p now
      then lookup k p.clients
      else if ltb p.capacity (length p.clients)
      then none
      else bind (lookup k p.clients)
          (λ e. if leb (idle_duration (reads k) e) p.idle_timeout then some e else none)

  -- A cleanup that is due keeps exactly the clients that were used within the idle timeout, and
  -- none at all when the pool holds more clients than its capacity; one that is not due keeps all.
  pub cleanup_lookup :
      (p : Pool T) (now : ℕ) (reads : Text → ℕ) (k : Text)
      → Distinct (keys p.clients)
      → lookup k (cleanup_idle_entries p now reads).clients ≡ kept p now reads k
  unfolding cleanup_idle_entries
  cleanup_lookup p now reads k d =
      elim (Bool-cases (ltb (now - p.cleanup_at) (p.idle_timeout / 2))) [
        | inl hot ↦ rw (hot, cleanup_idle_entries)
        | inr due ↦ elim (Bool-cases (ltb p.capacity (length p.clients))) [
          | inl full ↦
              rw (due, full, cleanup_idle_entries) (all_dropped p.idle_timeout reads k p.clients d)
          | inr fits ↦
              rw (due, fits, cleanup_idle_entries) (recent_kept p.idle_timeout reads k p.clients d)
        ]
      ]
