-- ===== src/Tests/Pools.antt =====
-- Calls of a pool, one after the other and at the same time.
use dragonfly_sdk.Base.{
  ℕ, ◌≡◌, refl, true, [], ◌∷◌, arith, ◌==◌, if◌then◌else◌, length, Text, text, text_eq, contains,
  Distinct, lookup, insert, keys,
}
use dragonfly_sdk.Errors.{Result, ok}
use dragonfly_sdk.Pool.{new_builder}
use dragonfly_sdk.Pool.Shared.{SharedPool, entry_shared, or_insert_shared}
use dragonfly_sdk.Pool.Shared.Separate.{IsSeparate}
use dragonfly_sdk.Pool.Shared.View.{view}
use dragonfly_sdk.Pool.Shared.Refined.{view_result}
use dragonfly_sdk.Pool.Cleanup.{kept}
use dragonfly_sdk.Pool.Answers.{Answers, cleanup_instant}
use dragonfly_sdk.Pool.Shared.Answered.{entry_shared-Answers}
use dragonfly_sdk.Pool.Calls.{
  making, Serving, fresh_pool, give, call, avoid_cleanup, miss, make, Reachable, built, next,
}
use dragonfly_sdk.Pool.Calls.Sound.{IsSound}
use dragonfly_sdk.Proxy.{HttpClient}
use dragonfly_sdk.Proxy.Send.{make_client}
use dragonfly_sdk.Proxy.Send.Recorded.{IsProxyOf}
use dragonfly_sdk.Proxy.Send.Concurrent.{SameEndpoint, made_for_key, Reachable-IsProxyOf}
use dragonfly_sdk.Tests.World.{plain_env}

-- Two entries, the second of which was last used at instant 5.
abbrev two_entries : SharedPool ℕ
two_entries = record {
  clients =
      (text "x", record { client = 7; actived_at = 1 })
      ∷ (text "y", record { client = 8; actived_at = 0 })
      ∷ [];
  capacity = 2;
  idle_timeout = 10;
  cleanup_at = 0;
  made = 2;
  instants = λ c. if c == 0 then 5 else 40;
}

two_entries-IsSeparate : IsSeparate two_entries
two_entries-IsSeparate = record {
  apart = ((λ q. absurd (omega arith), tt), (tt, tt));
  below = (omega arith, (omega arith, tt));
}

abbrev sized : Text → Result ℕ
sized addr = ok (length addr)

two_entries-Distinct : Distinct (keys two_entries.clients)
unfolding contains text_eq
two_entries-Distinct = (refl, (refl, tt))

entry_shared-Answers_example :
    let end = entry_shared sized two_entries (text "y") (text "z") 41 (λ k. 42) 43 44 in
    Answers
      (text "y")
      43
      44
      (sized (text "z"))
      (kept (view two_entries) 41 (λ k. 42))
      (cleanup_instant (view two_entries) 41)
      2
      10
      (view_result end).0
      (view_result end).1
    × IsSeparate end.1
entry_shared-Answers_example =
    entry_shared-Answers sized two_entries (text "y") (text "z") 41 (λ k. 42) 43 44
      two_entries-IsSeparate two_entries-Distinct

-- Two requests miss the same endpoint, and both make a client.
abbrev proxy_a : Text
proxy_a = text "a"

abbrev Reached : Serving (HttpClient plain_env) → Type 0
Reached = Reachable SameEndpoint (make_client plain_env true) new_builder 0

abbrev client_a : HttpClient plain_env
client_a = record { client = proxy_a; endpoint = proxy_a; can_be_ejected = true }

abbrev both_making : Serving (HttpClient plain_env)
both_making = record (fresh_pool new_builder 0) {
  calls = making proxy_a proxy_a ∷ making proxy_a proxy_a ∷ [];
}

both_making-Reached : Reached both_making
unfolding lookup
both_making-Reached =
    next
      (next
        (next
          (next
            (next (next built (call proxy_a proxy_a refl))
              (avoid_cleanup [] [] proxy_a proxy_a 1 refl refl))
            (miss [] [] proxy_a proxy_a refl refl))
          (call proxy_a proxy_a refl))
        (avoid_cleanup [] (making proxy_a proxy_a ∷ []) proxy_a proxy_a 2 refl refl))
      (miss [] (making proxy_a proxy_a ∷ []) proxy_a proxy_a refl refl)

unfoldable one_made : Serving (HttpClient plain_env)
unfolding or_insert_shared
one_made =
    give proxy_a (or_insert_shared both_making.pool proxy_a client_a 3)
      (making proxy_a proxy_a ∷ []) []

unfoldable both_made : Serving (HttpClient plain_env)
unfolding or_insert_shared one_made
both_made = give proxy_a (or_insert_shared one_made.pool proxy_a client_a 4) [] one_made.given

both_made-Reached : Reached both_made
unfolding make_client both_made
both_made-Reached =
    next
      (next both_making-Reached
        (make [] (making proxy_a proxy_a ∷ []) proxy_a proxy_a client_a 3 refl refl))
      (make [] [] proxy_a proxy_a client_a 4 refl refl)

Reachable-IsProxyOf_example :
    IsSound SameEndpoint
      (make_client plain_env true)
      (IsProxyOf plain_env)
      (made_for_key plain_env)
      both_made
Reachable-IsProxyOf_example = Reachable-IsProxyOf plain_env both_made-Reached

-- The second call got the first one's entry.
one_entry : length both_made.pool.clients ≡ 1
unfolding both_made insert lookup text_eq
one_entry = refl
