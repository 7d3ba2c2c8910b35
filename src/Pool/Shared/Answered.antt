-- ===== src/Pool/Shared/Answered.antt =====
-- client-request/rust/src/pool.rs: what a call of `entry` answers and leaves, on the pool whose clones
-- share the instant of last use.
use dragonfly_sdk.Base.{ℕ, ◌≡◌, refl, sym, ap, subst, [], ◌∷◌, Text, Distinct, TextMap, keys}
use dragonfly_sdk.Errors.{Result}
use dragonfly_sdk.Pool.{Pool, Entry}
use dragonfly_sdk.Pool.Cleanup.{kept}
use dragonfly_sdk.Pool.Answers.{Answers, cleanup_instant, entry-Answers}
use dragonfly_sdk.Pool.Shared.{Handle, SharedPool, entry_shared}
use dragonfly_sdk.Pool.Shared.Separate.{IsSeparate}
use dragonfly_sdk.Pool.Shared.View.{view, view_map}
use dragonfly_sdk.Pool.Shared.Refined.{view_result, entry-Refines}

module _ {ℓ} {T : Type ℓ} where
  keys-view_map : (instants : ℕ → ℕ) (m : TextMap (Handle T)) → keys (view_map instants m) ≡ keys m
  keys-view_map instants [] = refl
  keys-view_map instants ((k, h) ∷ m) = ap (◌∷◌ k) (keys-view_map instants m)

  -- With one entry for each key and a cell of its own for each entry, the instants being those that
  -- the cells hold: a call of `entry` answers with the client that the pool has for the key, used
  -- now, unless the cleanup dropped it; or else with the client that the factory makes for the
  -- address; or else with the factory's failure. The answer is then the entry of its key, and every
  -- other key keeps its entry unless the cleanup dropped it. The cleanup is due when half the idle
  -- timeout has passed since the last one, the instant of which becomes this one only then; it drops
  -- all entries when there are more than the capacity, and else those that were idle for longer than
  -- the idle timeout. The cells stay apart.
  pub entry_shared-Answers :
      (make_client : Text → Result T) (p : SharedPool T) (key addr : Text) (now : ℕ)
      (reads : Text → ℕ) (hit made : ℕ)
      → IsSeparate p
      → Distinct (keys p.clients)
      → let end = entry_shared make_client p key addr now reads hit made in
        Answers key hit made
          (make_client addr)
          (kept (view p) now reads)
          (cleanup_instant (view p) now)
          p.capacity
          p.idle_timeout
          (view_result end).0
          (view_result end).1
        × IsSeparate end.1
  entry_shared-Answers make_client p key addr now reads hit made v d =
      let (same, apart) = entry-Refines make_client p key addr now reads hit made v in
      let plain =
        entry-Answers make_client (view p) key addr now reads hit made
          (subst Distinct (sym (keys-view_map p.instants p.clients)) d) in
      (
        subst
            (λ (end : Result (Entry T) × Pool T).
              Answers key hit made (make_client addr) (kept (view p) now reads)
                (cleanup_instant (view p) now) p.capacity p.idle_timeout end.0 end.1)
            (sym same) plain,
        apart,
      )
