-- ===== src/Pool/Owned.antt =====
-- client-request/rust/src/pool.rs: a property of the clients of a pool, each told of the key that it
-- stands under, which every call keeps.
use dragonfly_sdk.Base.{
  ℕ, ◌-◌, ◌/◌, ◌≡◌, sym, subst, inl, inr, Bool, some, [], ◌∷◌, ltb, Bool-cases, Option-cases, All,
  Text, text_eq, text_eq_iff, TextMap, lookup, insert,
}
use dragonfly_sdk.Errors.{Result, ok, Result-cases, ok-injective}
use dragonfly_sdk.Pool.{
  finish_entry, Pool, Entry, retain, reuse, or_insert, entry, cleanup_idle_entries,
}

module _ {ℓ κ} {V : Type ℓ} (Q : Text → V → Type κ) where
  abbrev pub Holds : Text × V → Type κ
  Holds (k, e) = Q k e

  pub retain-Holds :
      (keep : Text → V → Bool) (m : TextMap V) → All Holds m → All Holds (retain keep m)
  unfolding retain
  retain-Holds keep [] o = o
  retain-Holds keep ((k, e) ∷ m) (o, os) = elim (Bool-cases (keep k e)) [
    | inl kept ↦ rw kept (o, retain-Holds keep m os)
    | inr dropped ↦ rw dropped (retain-Holds keep m os)
  ]

  pub insert-Holds :
      (k : Text) (e : V) (m : TextMap V) → Q k e → All Holds m → All Holds (insert k e m)
  unfolding insert
  insert-Holds k e [] here o = (here, o)
  insert-Holds k e ((j, f) ∷ m) here (o, os) = elim (Bool-cases (text_eq j k)) [
    | inl same ↦ rw same (subst (λ i. Q i e) (sym ((text_eq_iff j k).0 same)) here, os)
    | inr other ↦ rw other (o, insert-Holds k e m here os)
  ]

  pub lookup-Holds : (k : Text) (e : V) (m : TextMap V) → All Holds m → lookup k m ≡ some e → Q k e
  unfolding lookup
  lookup-Holds k e [] o h = cc
  lookup-Holds k e ((j, f) ∷ m) (o, os) h = elim (Bool-cases (text_eq j k)) [
    | inl same ↦
        let found : some f ≡ some e = rw same at h in
        let entry_same : f ≡ e = cc in
        subst (λ i. Q i e) ((text_eq_iff j k).0 same) (subst (Q j) entry_same o)
    | inr other ↦ lookup-Holds k e m os (rw other at h)
  ]

module _ {ℓ} {T : Type ℓ} (P : Text → T → Type ℓ) where
  abbrev pub Owns : Text → Entry T → Type ℓ
  Owns k e = P k e.client

  abbrev pub Owned : Pool T → Type ℓ
  Owned p = All (Holds Owns) p.clients

  pub cleanup-Owned :
      (p : Pool T) (now : ℕ) (reads : Text → ℕ) → Owned p → Owned (cleanup_idle_entries p now reads)
  unfolding cleanup_idle_entries
  cleanup-Owned p now reads o = elim (Bool-cases (ltb (now - p.cleanup_at) (p.idle_timeout / 2))) [
    | inl hot ↦ rw (hot, cleanup_idle_entries) o
    | inr due ↦ rw (due, cleanup_idle_entries) (retain-Holds Owns _ p.clients o)
  ]

  -- What a call gives and leaves.
  abbrev pub Gives : Text → Result (Entry T) × Pool T → Type ℓ
  Gives key (r, q) = Owned q × ((e : Entry T) → r ≡ ok e → P key e.client)

  finish-Gives :
      (make_client : Text → Result T) (c : Pool T) (key addr : Text) (hit made : ℕ)
      → ((client : T) → make_client addr ≡ ok client → P key client)
      → Owned c
      → Gives key (finish_entry make_client key addr made (reuse c key hit))
  unfolding reuse or_insert
  finish-Gives make_client c key addr hit made own o = elim (Option-cases (lookup key c.clients)) [
    | inr (e, found) ↦
        let here = lookup-Holds Owns key e c.clients o found in
        rw (found, reuse)
          (
            insert-Holds Owns key _ c.clients here o,
            λ f q. subst (λ g. P key g.client) (ok-injective q) here,
          )
    | inl missing ↦ elim (Result-cases (make_client addr)) [
      | inr (failure, failed) ↦ rw (missing, reuse, failed, finish_entry) (o, λ f q. cc)
      | inl (client, made_it) ↦
          let here = own client made_it in
          rw (missing, reuse, made_it, finish_entry, missing)
            (
              insert-Holds Owns key _ c.clients here o,
              λ f q. subst (λ g. P key g.client) (ok-injective q) here,
            )
    ]
  ]

  pub entry-Gives :
      (make_client : Text → Result T) (p : Pool T) (key addr : Text) (now : ℕ) (reads : Text → ℕ)
      (hit made : ℕ)
      → ((client : T) → make_client addr ≡ ok client → P key client)
      → Owned p
      → Gives key (entry make_client p key addr now reads hit made)
  unfolding entry
  entry-Gives make_client p key addr now reads hit made own o =
      finish-Gives make_client (cleanup_idle_entries p now reads) key addr hit made own
        (cleanup-Owned p now reads o)
