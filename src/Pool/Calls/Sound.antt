-- ===== src/Pool/Calls/Sound.antt =====
-- client-request/rust/src/pool.rs: calls of `entry` that run at the same time share one client for each
-- key, and get a client that was made for their own.
use dragonfly_sdk.Base.{
  ℕ, ◌≡◌, subst, inl, inr, Bool, some, List, ◌∷◌, ◌++◌, Option-cases, All, All_without, All_with,
  Text, Distinct, lookup, keys, insert-Distinct,
}
use dragonfly_sdk.Errors.{Result, ok}
use dragonfly_sdk.Pool.{Builder}
use dragonfly_sdk.Pool.Owned.{Holds, retain-Holds, insert-Holds, lookup-Holds}
use dragonfly_sdk.Pool.Reuse.{retain-Distinct}
use dragonfly_sdk.Pool.Shared.{Handle, SharedPool, or_insert_shared, place, set_cell}
use dragonfly_sdk.Pool.Shared.Separate.{Below, IsSeparate, retain-Apart, or_insert-IsSeparate}
use dragonfly_sdk.Pool.Calls.{
  Call, entering, sweeping, looking, making, Serving, sweep, give, Step, call, avoid_cleanup,
  begin_cleanup, sweep_shard, end_cleanup, hit, miss, fail, make, Reachable, built, next,
}

module _ {ℓ} {T : Type ℓ} (Asked : Text → Text → Type 0) (make_client : Text → Result T)
    (P : Text → T → Type ℓ)
    (makes : (key addr : Text) (client : T)
      → Asked key addr
      → make_client addr ≡ ok client
      → P key client) where
  abbrev AskedCall : Call → Type 0
  AskedCall (entering key addr) = Asked key addr
  AskedCall (sweeping key addr now exceeds) = Asked key addr
  AskedCall (looking key addr) = Asked key addr
  AskedCall (making key addr) = Asked key addr

  abbrev pub OwnsHandle : Text → Handle T → Type ℓ
  OwnsHandle k h = P k h.client

  -- One entry for each key, with a cell of its own, and clients with the property of their key, in
  -- the pool and with the callers.
  pub record IsSound (s : Serving T) : Type ℓ where
    pub separate : IsSeparate s.pool
    pub distinct : Distinct (keys s.pool.clients)
    pub pooled : All (Holds OwnsHandle) s.pool.clients
    pub given : All (Holds OwnsHandle) s.given

  record Keeps (s : Serving T) : Type ℓ where
    sound : IsSound s
    asked : All AskedCall s.calls

  or_insert-Keeps :
      (p : SharedPool T) (key : Text) (client : T) (now : ℕ)
      → P key client
      → Distinct (keys p.clients)
      → All (Holds OwnsHandle) p.clients
      → let (h, q) = or_insert_shared p key client now in
        P key h.client × Distinct (keys q.clients) × All (Holds OwnsHandle) q.clients
  unfolding or_insert_shared
  or_insert-Keeps p key client now here d o = elim (Option-cases (lookup key p.clients)) [
    | inl missing ↦
        rw (missing, place)
          (here, insert-Distinct key _ p.clients d, insert-Holds OwnsHandle key _ p.clients here o)
    | inr (h, found) ↦ rw (found, place) (lookup-Holds OwnsHandle key h p.clients o found, d, o)
  ]

  -- A call among those under way, and the others.
  taken :
      {calls : List Call} (before after : List Call) (c : Call)
      → calls ≡ before ++ c ∷ after
      → All AskedCall calls
      → AskedCall c × All AskedCall (before ++ after)
  taken before after c e h = All_without AskedCall before after c (subst (All AskedCall) e h)

  replaced :
      {calls : List Call} (before after : List Call) (c d : Call)
      → calls ≡ before ++ c ∷ after
      → (AskedCall c → AskedCall d)
      → All AskedCall calls
      → All AskedCall (before ++ d ∷ after)
  replaced before after c d e same h =
      let (here, rest) = taken before after c e h in
      All_with AskedCall before after d (same here) rest

  hit-IsSound :
      {s : Serving T} (key : Text) (now : ℕ) (h : Handle T) (calls : List Call)
      → lookup key s.pool.clients ≡ some h
      → IsSound s
      → IsSound (give key (h, set_cell h now s.pool) calls s.given)
  hit-IsSound {s} key now h calls found v = record {
    separate = record { apart = v.separate.apart; below = v.separate.below };
    distinct = v.distinct;
    pooled = v.pooled;
    given = (lookup-Holds OwnsHandle key h s.pool.clients v.pooled found, v.given);
  }

  make-IsSound :
      {s : Serving T} (key : Text) (client : T) (now : ℕ) (calls : List Call)
      → P key client
      → IsSound s
      → IsSound (give key (or_insert_shared s.pool key client now) calls s.given)
  make-IsSound {s} key client now calls here v =
      let (mine, distinct, pooled) =
        or_insert-Keeps s.pool key client now here v.distinct v.pooled in
      record {
        separate = or_insert-IsSeparate s.pool key client now v.separate;
        distinct = distinct;
        pooled = pooled;
        given = (mine, v.given);
      }

  sweep-IsSound :
      {s : Serving T} (shard : Text → Bool) (exceeds : Bool) (reads : Text → ℕ)
      → IsSound s
      → IsSound (record s { pool = sweep shard exceeds reads s.pool })
  sweep-IsSound {s} shard exceeds reads v = record {
    separate = record {
      apart = retain-Apart _ s.pool.clients v.separate.apart;
      below = retain-Holds (Below s.pool.made) _ s.pool.clients v.separate.below;
    };
    distinct = retain-Distinct _ s.pool.clients v.distinct;
    pooled = retain-Holds OwnsHandle _ s.pool.clients v.pooled;
    given = v.given;
  }

  -- The calls under way do not matter, nor does the time of the last cleanup.
  with_calls :
      {s : Serving T} (calls : List Call) → IsSound s → IsSound (record s { calls = calls })
  with_calls calls v = record {
    separate = v.separate;
    distinct = v.distinct;
    pooled = v.pooled;
    given = v.given;
  }

  after_cleanup :
      {s : Serving T} (calls : List Call) (now : ℕ)
      → IsSound s
      → IsSound (record s { pool = record s.pool { cleanup_at = now }; calls = calls })
  after_cleanup calls now v = record {
    separate = record { apart = v.separate.apart; below = v.separate.below };
    distinct = v.distinct;
    pooled = v.pooled;
    given = v.given;
  }

  Step-Keeps : {s t : Serving T} → Step Asked make_client s t → Keeps s → Keeps t
  Step-Keeps (call key addr asked) v = record {
    sound = with_calls _ v.sound;
    asked = (asked, v.asked);
  }
  Step-Keeps (avoid_cleanup before after key addr now e hot) v = record {
    sound = with_calls _ v.sound;
    asked = replaced before after (entering key addr) (looking key addr) e (λ a. a) v.asked;
  }
  Step-Keeps (begin_cleanup before after key addr now e due) v = record {
    sound = with_calls _ v.sound;
    asked = replaced before after (entering key addr) (sweeping key addr now _) e (λ a. a) v.asked;
  }
  Step-Keeps (sweep_shard before after key addr now exceeds shard reads e) v = record {
    sound = sweep-IsSound shard exceeds reads v.sound;
    asked = v.asked;
  }
  Step-Keeps (end_cleanup before after key addr now exceeds e) v = record {
    sound = after_cleanup _ now v.sound;
    asked =
        replaced before after (sweeping key addr now exceeds) (looking key addr) e (λ a. a) v.asked;
  }
  Step-Keeps (hit before after key addr now h e found) v = record {
    sound = hit-IsSound key now h (before ++ after) found v.sound;
    asked = (taken before after (looking key addr) e v.asked).1;
  }
  Step-Keeps (miss before after key addr e missing) v = record {
    sound = with_calls _ v.sound;
    asked = replaced before after (looking key addr) (making key addr) e (λ a. a) v.asked;
  }
  Step-Keeps (fail before after key addr f e failed) v = record {
    sound = with_calls _ v.sound;
    asked = (taken before after (making key addr) e v.asked).1;
  }
  Step-Keeps (make before after key addr client now e made) v =
      let (asked, rest) = taken before after (making key addr) e v.asked in
      record {
        sound =
            make-IsSound key client now (before ++ after) (makes key addr client asked made)
              v.sound;
        asked = rest;
      }

  Reachable-Keeps :
      {b : Builder} {start : ℕ} {s : Serving T} → Reachable Asked make_client b start s → Keeps s
  Reachable-Keeps built = record {
    sound = record {
      separate = record { apart = tt; below = tt };
      distinct = tt;
      pooled = tt;
      given = tt;
    };
    asked = tt;
  }
  Reachable-Keeps (next r step) = Step-Keeps step (Reachable-Keeps r)

  -- However the calls of `entry` of a new pool interleave, whatever shards their cleanups have swept
  -- and whatever clocks they read: if the factory makes for the address that is asked with a key
  -- only clients with some property of the key, then each key has at most one entry in the pool, no
  -- two entries share a cell, and every client in the pool, as every client that a call got, has
  -- that property of its own key.
  pub Reachable-IsSound :
      {b : Builder} {start : ℕ} {s : Serving T} → Reachable Asked make_client b start s → IsSound s
  Reachable-IsSound r = (Reachable-Keeps r).sound
