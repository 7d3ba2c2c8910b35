-- ===== src/Pool/Reuse.antt =====
-- client-request/rust/src/pool.rs: one client for each key.
use dragonfly_sdk.Base.{
  ℕ, ◌-◌, ◌/◌, ◌≡◌, refl, ◌⊎◌, inl, inr, Bool, false, none, some, [], ◌∷◌, arith, ltb, Bool-cases,
  Option-cases, Text, text_eq, text_eq_refl, contains, Distinct, TextMap, lookup, keys,
  lookup-insert, lookup-insert_self, insert-Distinct,
}
use dragonfly_sdk.Errors.{Error, Result, ok, err, Result-cases}
use dragonfly_sdk.Pool.{
  finish_entry, Pool, Entry, retain, reuse, or_insert, entry, cleanup_idle_entries,
}

module _ {ℓ} {V : Type ℓ} where
  contains-retain :
      (keep : Text → V → Bool) (k : Text) (m : TextMap V)
      → contains k (keys m) ≡ false
      → contains k (keys (retain keep m)) ≡ false
  unfolding retain contains
  contains-retain keep k [] h = refl
  contains-retain keep k ((j, e) ∷ m) h = ground (arith, contains-retain keep k m)

  pub retain-Distinct :
      (keep : Text → V → Bool) (m : TextMap V) → Distinct (keys m) → Distinct (keys (retain keep m))
  unfolding retain
  retain-Distinct keep [] d = tt
  retain-Distinct keep ((j, e) ∷ m) d =
      ground (arith, retain-Distinct keep m d.1, contains-retain keep j m d.0)

module _ {ℓ} {T : Type ℓ} where
  cleanup-Distinct :
      (p : Pool T) (now : ℕ) (reads : Text → ℕ)
      → Distinct (keys p.clients)
      → Distinct (keys (cleanup_idle_entries p now reads).clients)
  unfolding cleanup_idle_entries
  cleanup-Distinct p now reads d =
      elim (Bool-cases (ltb (now - p.cleanup_at) (p.idle_timeout / 2))) [
        | inl hot ↦ rw (hot, cleanup_idle_entries) d
        | inr due ↦ rw (due, cleanup_idle_entries) (retain-Distinct _ p.clients d)
      ]

  -- Two calls that both miss a key, each with a client of its own, end with one client: the one
  -- that was inserted first, which is then the pool's, while every other key keeps its client.
  or_insert_race :
      (p : Pool T) (key other : Text) (first second : T) (t u : ℕ)
      → lookup key p.clients ≡ none
      → text_eq key other ≡ false
      → let (a, q) = or_insert p key first t in
        let (b, r) = or_insert q key second u in
        (a.client ≡ first)
        × (b.client ≡ first)
        × (lookup key r.clients ≡ some (record { client = first; actived_at = u }))
        × (lookup other r.clients ≡ lookup other p.clients)
  unfolding or_insert
  or_insert_race p key other first second t u missing apart = (
    simp missing,
    simp (missing, lookup-insert, text_eq_refl),
    simp (missing, lookup-insert, text_eq_refl),
    simp (lookup-insert, apart),
  )

  -- What a call owes to the pool that the cleanup left.
  abbrev Served : (Text → Result T) → Pool T → Text → Text → Result (Entry T) → Pool T → Type ℓ
  Served make_client c key addr r q =
      Distinct (keys q.clients)
      × (((e : Entry T) × (r ≡ ok e) × (lookup key q.clients ≡ some e))
          ⊎ ((failure : Error) × (r ≡ err failure) × (make_client addr ≡ err failure) × (q ≡ c)))

  finish-Served :
      (make_client : Text → Result T) (c : Pool T) (key addr : Text) (hit made : ℕ)
      → Distinct (keys c.clients)
      → let (r, q) = finish_entry make_client key addr made (reuse c key hit) in
        Served make_client c key addr r q
  unfolding reuse or_insert
  finish-Served make_client c key addr hit made d = elim (Option-cases (lookup key c.clients)) [
    | inr (e, found) ↦
        rw (found, reuse)
          (insert-Distinct key _ c.clients d, inl (_, refl, lookup-insert_self key _ c.clients))
    | inl missing ↦
        rw (missing, reuse)
          (elim (Result-cases (make_client addr)) [
            | inl (client, made_it) ↦
                rw (made_it, finish_entry)
                  (
                    insert-Distinct key _ c.clients d,
                    inl (_, refl, lookup-insert_self key _ c.clients),
                  )
            | inr (failure, failed) ↦ rw (failed, finish_entry) (d, inr (failure, refl, refl, refl))
          ])
  ]

  -- A call that succeeds leaves its entry in the pool, one that fails leaves the pool as the
  -- cleanup left it, and the keys of the pool stay distinct.
  entry_lem :
      (make_client : Text → Result T) (p : Pool T) (key addr : Text) (now : ℕ) (reads : Text → ℕ)
      (hit made : ℕ)
      → Distinct (keys p.clients)
      → let (r, q) = entry make_client p key addr now reads hit made in
        Distinct (keys q.clients)
        × (((e : Entry T) × (r ≡ ok e) × (lookup key q.clients ≡ some e))
            ⊎ ((failure : Error) × (r ≡ err failure)
                × (make_client addr ≡ err failure)
                × (q ≡ cleanup_idle_entries p now reads)))
  unfolding entry
  entry_lem make_client p key addr now reads hit made d =
      finish-Served make_client (cleanup_idle_entries p now reads) key addr hit made
        (cleanup-Distinct p now reads d)
