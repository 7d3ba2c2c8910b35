-- ===== src/Pool/Shared/Refined.antt =====
-- client-request/rust/src/pool.rs: a call of `entry` on the pool whose entries share their instants
-- refines the call on the pool of plain entries.
use dragonfly_sdk.Base.{
  ℕ, ◌≡◌, refl, ap, ◌∙◌, inl, inr, Option, none, some, Option-cases, Text, lookup,
}
use dragonfly_sdk.Errors.{Result, ok, err, Result-cases}
use dragonfly_sdk.Pool.{Entry, Pool, reuse, finish_entry, entry}
use dragonfly_sdk.Pool.Shared.{
  Handle, SharedPool, read_entry, cleanup_shared, reuse_shared, finish_shared, entry_shared,
}
use dragonfly_sdk.Pool.Shared.Separate.{IsSeparate, cleanup-IsSeparate, or_insert-IsSeparate}
use dragonfly_sdk.Pool.Shared.View.{view, view_found, cleanup-view, reuse-view, or_insert-view}

module _ {ℓ} {T : Type ℓ} where
  -- A result and a pool, with each entry as it is at this time.
  abbrev pub view_result : Result (Handle T) × SharedPool T → Result (Entry T) × Pool T
  view_result (ok h, p) = (ok (read_entry p.instants h), view p)
  view_result (err e, p) = (err e, view p)

  reuse-IsSeparate :
      (p : SharedPool T) (key : Text) (now : ℕ)
      → IsSeparate p
      → IsSeparate (reuse_shared p key now).1
  unfolding reuse_shared
  reuse-IsSeparate p key now v = elim (Option-cases (lookup key p.clients)) [
    | inl missing ↦ rw (missing, reuse_shared) v
    | inr (h, found) ↦ rw (found, reuse_shared) (record { apart = v.apart; below = v.below })
  ]

  -- What two calls agree on.
  abbrev Refines : Result (Handle T) × SharedPool T → Result (Entry T) × Pool T → Type ℓ
  Refines got plain = (view_result got ≡ plain) × IsSeparate got.1

  finish-Refines :
      (make_client : Text → Result T) (key addr : Text) (made : ℕ)
      (got : Option (Handle T) × SharedPool T)
      → IsSeparate got.1
      → Refines
          (finish_shared make_client key addr made got)
          (finish_entry make_client key addr made (view_found got))
  finish-Refines make_client key addr made (some h, p) v = (refl, v)
  finish-Refines make_client key addr made (none, p) v = elim (Result-cases (make_client addr)) [
    | inr (failure, failed) ↦ rw (failed, finish_shared, finish_entry) (refl, v)
    | inl (client, made_it) ↦
        rw (made_it, finish_shared, finish_entry)
          (
            ap (λ (q : Entry T × Pool T). (ok q.0, q.1)) (or_insert-view p key client made v),
            or_insert-IsSeparate p key client made v,
          )
  ]

  -- While the entries of a pool have cells of their own, a call of `entry` on the pool whose clones
  -- share the instant of last use does what the call on plain entries does: at the instants that the
  -- cells then hold it gives the same entry or the same failure and leaves the same pool. It keeps
  -- the cells of the entries apart.
  pub entry-Refines :
      (make_client : Text → Result T) (p : SharedPool T) (key addr : Text) (now : ℕ)
      (reads : Text → ℕ) (hit made : ℕ)
      → IsSeparate p
      → let (r, q) = entry_shared make_client p key addr now reads hit made in
        (view_result (r, q) ≡ entry make_client (view p) key addr now reads hit made) × IsSeparate q
  unfolding entry_shared entry
  entry-Refines make_client p key addr now reads hit made v =
      let c = cleanup_shared p now reads in
      let w = cleanup-IsSeparate p now reads v in
      let (same, keep) =
        finish-Refines make_client key addr made (reuse_shared c key hit)
          (reuse-IsSeparate c key hit w) in
      (
        same
            ∙ ap (finish_entry make_client key addr made)
                (reuse-view c key hit w ∙ ap (λ q. reuse q key hit) (cleanup-view p now reads)),
        keep,
      )
