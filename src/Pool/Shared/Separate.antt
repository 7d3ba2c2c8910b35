-- ===== src/Pool/Shared/Separate.antt =====
-- client-request/rust/src/pool.rs: the entries of a pool have cells of their own.
use dragonfly_sdk.Base.{
  ℕ, suc, ◌-◌, ◌/◌, ◌<◌, sym, ◌≢◌, inl, inr, Bool, [], ◌∷◌, arith, ltb, Bool-cases, Option-cases,
  All, All-map, Text, text_eq, TextMap, lookup, insert,
}
use dragonfly_sdk.Pool.{retain}
use dragonfly_sdk.Pool.Owned.{Holds, retain-Holds, insert-Holds}
use dragonfly_sdk.Pool.Shared.{Handle, SharedPool, cleanup_shared, or_insert_shared, place}

module _ {ℓ} {T : Type ℓ} where
  -- A cell that is not that of the entry.
  abbrev pub Avoids : ℕ → Text → Handle T → Type 0
  Avoids cell k h = h.actived_at ≢ cell

  abbrev pub Apart : TextMap (Handle T) → Type 0
  Apart [] = Unit {0}
  Apart ((k, h) ∷ m) = All (Holds (Avoids h.actived_at)) m × Apart m

  abbrev pub Below : ℕ → Text → Handle T → Type 0
  Below made k h = h.actived_at < made

  pub record IsSeparate (p : SharedPool T) : Type 0 where
    pub apart : Apart p.clients
    pub below : All (Holds (Below p.made)) p.clients

  pub retain-Apart :
      (keep : Text → Handle T → Bool) (m : TextMap (Handle T)) → Apart m → Apart (retain keep m)
  unfolding retain
  retain-Apart keep [] h = h
  retain-Apart keep ((k, e) ∷ m) (h, hs) = elim (Bool-cases (keep k e)) [
    | inl kept ↦ rw kept (retain-Holds (Avoids e.actived_at) keep m h, retain-Apart keep m hs)
    | inr dropped ↦ rw dropped (retain-Apart keep m hs)
  ]

  insert-Apart :
      (k : Text) (e : Handle T) (m : TextMap (Handle T))
      → All (Holds (Avoids e.actived_at)) m
      → Apart m
      → Apart (insert k e m)
  unfolding insert
  insert-Apart k e [] new h = (tt, tt)
  insert-Apart k e ((j, f) ∷ m) (new, news) (h, hs) = elim (Bool-cases (text_eq j k)) [
    | inl same ↦ rw same (news, hs)
    | inr other ↦
        rw other (
          insert-Holds (Avoids f.actived_at) k e m (λ q. new (sym q)) h,
          insert-Apart k e m news hs,
        )
  ]

  -- A cell that is yet to be made is no entry's.
  pub new-Avoids :
      (made : ℕ) (m : TextMap (Handle T)) → All (Holds (Below made)) m → All (Holds (Avoids made)) m
  new-Avoids made m h = All-map (Holds (Below made)) (λ e below q. omega arith) m h

  later-Below :
      (made : ℕ) (m : TextMap (Handle T))
      → All (Holds (Below made)) m
      → All (Holds (Below (suc made))) m
  later-Below made m h = All-map (Holds (Below made)) (λ e below. omega arith) m h

  pub cleanup-IsSeparate :
      (p : SharedPool T) (now : ℕ) (reads : Text → ℕ)
      → IsSeparate p
      → IsSeparate (cleanup_shared p now reads)
  unfolding cleanup_shared
  cleanup-IsSeparate p now reads v =
      elim (Bool-cases (ltb (now - p.cleanup_at) (p.idle_timeout / 2))) [
        | inl hot ↦ rw (hot, cleanup_shared) v
        | inr due ↦
            rw (due, cleanup_shared)
              (record {
                apart = retain-Apart _ p.clients v.apart;
                below = retain-Holds (Below p.made) _ p.clients v.below;
              })
      ]

  pub or_insert-IsSeparate :
      (p : SharedPool T) (key : Text) (client : T) (now : ℕ)
      → IsSeparate p
      → IsSeparate (or_insert_shared p key client now).1
  unfolding or_insert_shared
  or_insert-IsSeparate p key client now v = elim (Option-cases (lookup key p.clients)) [
    | inl missing ↦
        rw (missing, place)
          (record {
            apart = insert-Apart key _ p.clients (new-Avoids p.made p.clients v.below) v.apart;
            below =
                insert-Holds (Below (suc p.made)) key _ p.clients (omega arith)
                  (later-Below p.made p.clients v.below);
          })
    | inr (h, found) ↦
        rw (found, place) (record { apart = v.apart; below = later-Below p.made p.clients v.below })
  ]
