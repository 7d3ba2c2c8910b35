-- ===== src/Proxy/Download/Sequence.antt =====
-- client-request/rust/src/lib.rs: calls of `get` and `get_into` one after another, and a lookup after
-- them.
use mathlib.Core.Option
use dragonfly_sdk.Base.{
  ℕ, suc, ◌*◌, ◌^◌, ◌≤◌, ◌<◌, ◌≡◌, refl, sym, ap, ◌∙◌, subst, false, Option, some, List, [], ◌∷◌,
  ◌++◌, arith, bind, length, length-append, All, All-map, Text,
}
use dragonfly_sdk.Errors.{Result, ok, err}
use dragonfly_sdk.Requests.Get.{GetRequest}
use dragonfly_sdk.Retry.{RetrierLaws}
use dragonfly_sdk.Selector.{SeedPeers}
use dragonfly_sdk.Selector.Ejections.{within_cooldown, is_ejected}
use dragonfly_sdk.Selector.Ejections.Streaks.{
  replay-append, Event, replay, last_ejection, streak_from, is_ejected-replay,
}
use dragonfly_sdk.Selector.Ring.{RingLaws}
use dragonfly_sdk.Selector.Synced.{IsSynced}
use dragonfly_sdk.Proxy.Total.{lookup_total}
use dragonfly_sdk.Proxy.{Env, Session, Proxy}
use dragonfly_sdk.Proxy.Lookup.{lookup_endpoints}
use dragonfly_sdk.Proxy.Usable.{lookup_endpoints-IsUsable}
use dragonfly_sdk.Proxy.Send.Recorded.{IsKeyed, IsProxyOf}
use dragonfly_sdk.Pool.Owned.{Holds, Owns}
use dragonfly_sdk.Proxy.Download.History.{IsLookedUp, get-Continues, get_into-Continues}
use dragonfly_sdk.Proxy.Download.Loops.{Sends, Sends-replay}
use dragonfly_sdk.Proxy.Download.{get, get_into}

-- What a lookup gives, if it gives endpoints, satisfies a predicate.
abbrev pub Gives : (Text → Type 0) → Result (List Text) → Type 0
Gives P (ok endpoints) = All P endpoints
Gives P (err e) = Unit

-- The history does not have the proxy ejected at that time.
abbrev pub IsAdmitted : List Event → ℕ → Text → Type 0
IsAdmitted history now k = within_cooldown now (last_ejection (streak_from k [] history)) ≡ false

-- A call, with the seed peers that the selector has then.
pub data Call (E : Env) : Type 0 where
  get_call : SeedPeers E.ring → GetRequest E.http → Call E
  get_into_call : SeedPeers E.ring → GetRequest E.http → Text → Call E

module _ (E : Env) (p : Proxy E) where
  abbrev pub session_after : Call E → Session E → Option (Session E)
  session_after (get_call peers r) s = Option.map (λ x. x.1) (get E p peers s r)
  session_after (get_into_call peers r buf) s = Option.map (λ x. x.1.0) (get_into E p peers s r buf)

  -- The session that the calls leave; `none` when one of them does not return.
  unfoldable pub session_after_all : List (Call E) → Session E → Option (Session E)
  session_after_all [] s = some s
  session_after_all (c ∷ cs) s = bind (session_after c s) (session_after_all cs)

  -- The replicas of the call fit the `u32` they are cast to.
  abbrev pub Fits : Call E → Type 0
  Fits (get_call peers r) = r.replicas < 2 ^ 32
  Fits (get_into_call peers r buf) = r.replicas < 2 ^ 32

  abbrev request_of : Call E → GetRequest E.http
  request_of (get_call peers r) = r
  request_of (get_into_call peers r buf) = r

  abbrev peers_of : Call E → SeedPeers E.ring
  peers_of (get_call peers r) = peers
  peers_of (get_into_call peers r buf) = peers

  module _ (L : RingLaws E.ring) (R : RetrierLaws E.retrier) where
    -- The calls return, and each leaves the session of at most `1 + max_retries` attempts at endpoints
    -- of its lookup: the sessions at both ends, and the events of the outcomes of all attempts.
    pub data Makes : List (Call E) → Session E → List Event → Session E → Type 0 where
      no_calls : {s : Session E} → Makes [] s [] s
      made :
          {c : Call E} {cs : List (Call E)} {s m t : Session E} {es fs : List Event} {n : ℕ}
          → session_after c s ≡ some m
          → Sends E (request_of c) (IsLookedUp E L R p (peers_of c) s (request_of c)) n s es m
          → n ≤ suc p.retry.max_retries
          → Makes cs m fs t
          → Makes (c ∷ cs) s (es ++ fs) t

    Makes-returns :
        {cs : List (Call E)} {s t : Session E} {es : List Event}
        → Makes cs s es t
        → session_after_all cs s ≡ some t
    unfolding session_after_all
    Makes-returns no_calls = refl
    Makes-returns (made {cs = cs} e sent few later) =
        ap (λ x. bind x (session_after_all cs)) e ∙ Makes-returns later

    Makes-replay :
        {cs : List (Call E)} {s t : Session E} {es : List Event}
        → Makes cs s es t
        → IsKeyed E s
        → IsKeyed E t
          × (t.ejections ≡ replay s.ejections es)
          × (length es ≤ length cs * suc p.retry.max_retries)
    unfolding replay
    Makes-replay no_calls o = (o, refl, omega arith)
    Makes-replay (made {c = c} {s = s} {es = es} {fs = fs} e sent few later) o =
        let (o', first, one) =
          Sends-replay E (request_of c) (IsLookedUp E L R p (peers_of c) s (request_of c)) sent o in
        let (o'', second, rest) = Makes-replay later o' in
        (
          o'',
          second
              ∙ ap (λ ejections. replay ejections fs) first
              ∙ sym (replay-append s.ejections es fs),
          omega (arith, length-append es fs),
        )

    call_made :
        (c : Call E) (s : Session E) (history : List Event)
        → Fits c
        → IsKeyed E s
        → s.ejections ≡ replay [] history
        → (m : Session E) × (n : ℕ) × (es : List Event) × (session_after c s ≡ some m)
          × Sends E (request_of c) (IsLookedUp E L R p (peers_of c) s (request_of c)) n s es m
          × (n ≤ suc p.retry.max_retries)
          × IsKeyed E m
          × (m.ejections ≡ replay [] (history ++ es))
    call_made (get_call peers r) s history fits o told =
        let (result, m, e, (o', n, es, sent, few, count, whole, ejected)) =
          get-Continues E L R p peers s r history o told fits in
        (m, n, es, ap (Option.map (λ x. x.1)) e, sent, few, o', whole)
    call_made (get_into_call peers r buf) s history fits o told =
        let (result, m, buf', e, (o', n, es, sent, few, count, whole, ejected)) =
          get_into-Continues E L R p peers s r buf history o told fits in
        (m, n, es, ap (Option.map (λ x. x.1.0)) e, sent, few, o', whole)

    calls_made :
        (cs : List (Call E)) (s : Session E) (history : List Event)
        → All Fits cs
        → IsKeyed E s
        → s.ejections ≡ replay [] history
        → (t : Session E) × (es : List Event) × Makes cs s es t
    calls_made [] s history fits o told = (s, [], no_calls)
    calls_made (c ∷ cs) s history (fit, fits) o told =
        let (m, n, es, e, sent, few, o', whole) = call_made c s history fit o told in
        let (t, fs, later) = calls_made cs m (history ++ es) fits o' whole in
        (t, es ++ fs, made e sent few later)

    -- Under the documented behaviour of the hash ring, of backon and of the shuffle, with replicas
    -- that fit the `u32` they are cast to: from a session with no client and no ejection, any calls
    -- of `get` and `get_into`, each over the seed peers that the selector has then, return. Each
    -- leaves the session of at most `1 + max_retries` attempts at endpoints of its lookup, and the
    -- history is that of the events of the outcomes of just these attempts in turn: answers, and
    -- failures to connect. A lookup after them over seed peers in step with their ring returns too,
    -- and gives no proxy that this history has ejected: five or more failures since its last answer,
    -- and less than the cooldown since the last of them whose number is a multiple of five. The table
    -- of ejections is the one of that history.
    pub lookup_after_calls :
        (cs : List (Call E)) (s : Session E) (peers : SeedPeers E.ring) (r : GetRequest E.http)
        → IsSynced E.ring L peers
        → All Fits cs
        → r.replicas < 2 ^ 32
        → s.ejections ≡ []
        → s.pool.clients ≡ []
        → (history : List Event) × (s' : Session E) × (found : Result (List Text))
          × (session_after_all cs s ≡ some s')
          × Makes cs s history s'
          × (length history ≤ length cs * suc p.retry.max_retries)
          × (s'.ejections ≡ replay [] history)
          × (lookup_endpoints E p peers s' r ≡ some found)
          × Gives (IsAdmitted history (E.now s'.world)) found
    unfolding replay
    lookup_after_calls cs s peers r v all_fit fits none_ejected no_client =
        let keyed : IsKeyed E s = subst (All (Holds (Owns (IsProxyOf E)))) (sym no_client) tt in
        let (s', history, calls) = calls_made cs s [] all_fit keyed none_ejected in
        let (o, added, few) = Makes-replay calls keyed in
        let whole : s'.ejections ≡ replay [] history =
          added ∙ ap (λ ejections. replay ejections history) none_ejected in
        let (found, looked_up) = lookup_total E L p peers s' r fits in
        (
          history,
          s',
          found,
          Makes-returns calls,
          calls,
          few,
          whole,
          looked_up,
          given history s' found whole looked_up,
        )
      where
        given :
            (history : List Event) (s' : Session E) (found : Result (List Text))
            → s'.ejections ≡ replay [] history
            → lookup_endpoints E p peers s' r ≡ some found
            → Gives (IsAdmitted history (E.now s'.world)) found
        given history s' (err e) whole h = tt
        given history s' (ok endpoints) whole h =
            All-map _
              (λ k admitted.
                sym (is_ejected-replay k history (E.now s'.world))
                ∙ ap (λ m. is_ejected m k (E.now s'.world)) (sym whole)
                ∙ admitted)
              endpoints (lookup_endpoints-IsUsable E L p peers v s' r endpoints fits h).admitted
