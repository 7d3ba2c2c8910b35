-- ===== src/Proxy/Download/History.antt =====
-- client-request/rust/src/lib.rs: what `get` and `get_into` add to the history of the proxies.
use dragonfly_sdk.Base.{
  ℕ, zero, suc, ◌%◌, ◌^◌, ◌≤◌, ◌<◌, ◌≡◌, refl, sym, ap, ◌∙◌, subst, true, some, List, [], ◌∷◌, ◌++◌,
  arith, length, get_or, Text, text_eq_refl, contains,
}
use mathlib.Core.Option
use dragonfly_sdk.Errors.{Result, ok, err}
use dragonfly_sdk.Requests.Get.{GetRequest, GetResponse}
use dragonfly_sdk.Retry.{RetrierLaws, delays, rotate, run_with_endpoints}
use dragonfly_sdk.Retry.Runs.{retry-Attempts, Attempts-bound, length-delays}
use dragonfly_sdk.Selector.{SeedPeers}
use dragonfly_sdk.Selector.Ejections.{is_ejected, within_cooldown}
use dragonfly_sdk.Selector.Ejections.Streaks.{
  replay-append, Event, replay, last_ejection, streak_from, is_ejected-replay,
}
use dragonfly_sdk.Selector.Ring.{RingLaws}
use dragonfly_sdk.Proxy.Total.{lookup_total}
use dragonfly_sdk.Proxy.{Env, Session, Proxy}
use dragonfly_sdk.Proxy.Lookup.{lookup_endpoints}
use dragonfly_sdk.Proxy.Send.{send_to}
use dragonfly_sdk.Proxy.Send.Recorded.{IsKeyed}
use dragonfly_sdk.Proxy.Download.Loops.{Sends, idle, Sends-replay, pause, loop-Sends}
use dragonfly_sdk.Proxy.Download.{
  get, get_from, get_into, get_into_from, fill_from, rest, rest_into, stream_from, fill_buffer,
}

contains-get_or : (xs : List Text) (i : ℕ) → i < length xs → contains (get_or xs i []) xs ≡ true
unfolding contains
contains-get_or [] i h = absurd (omega arith)
contains-get_or (x ∷ xs) zero h = rw (text_eq_refl x)
contains-get_or (x ∷ xs) (suc i) h = ground (arith, contains-get_or xs i (omega arith))

module _ (E : Env) (L : RingLaws E.ring) (R : RetrierLaws E.retrier) (p : Proxy E)
    (peers : SeedPeers E.ring) (s : Session E) (r : GetRequest E.http) where
  -- An endpoint that the request's lookup gives.
  abbrev pub IsLookedUp : Text → Type 0
  IsLookedUp k =
      (endpoints : List Text) × (lookup_endpoints E p peers s r ≡ some (ok endpoints))
      × (contains k endpoints ≡ true)

  -- A session that attempts of the request at endpoints of the lookup leave, no more of them than the
  -- policy allows. The ejections are those of the history with the events of the outcomes of these
  -- attempts, and tell which proxies are ejected as the longer history does.
  abbrev pub Continues : List Event → Session E → Type 0
  Continues history s' =
      IsKeyed E s'
      × (n : ℕ) × (es : List Event) × Sends E r IsLookedUp n s es s'
      × (n ≤ suc p.retry.max_retries)
      × (length es ≤ n)
      × (s'.ejections ≡ replay [] (history ++ es))
      × ((k : Text) (now : ℕ)
          → is_ejected s'.ejections k now
            ≡ within_cooldown now (last_ejection (streak_from k [] (history ++ es))))

  of_Sends :
      (history : List Event) (s' : Session E) (n : ℕ) (es : List Event)
      → n ≤ suc p.retry.max_retries
      → IsKeyed E s
      → s.ejections ≡ replay [] history
      → Sends E r IsLookedUp n s es s'
      → Continues history s'
  of_Sends history s' n es few keyed told made =
      let (o, added, count) = Sends-replay E r IsLookedUp made keyed in
      let whole : s'.ejections ≡ replay [] (history ++ es) =
        added ∙ ap (λ ejections. replay ejections es) told ∙ sym (replay-append [] history es) in
      (
        o,
        n,
        es,
        made,
        few,
        count,
        whole,
        λ k now.
            ap (λ ejections. is_ejected ejections k now) whole
            ∙ is_ejected-replay k (history ++ es) now,
      )

  pub shuffled-IsLookedUp :
      (x : Text) (xs : List Text)
      → lookup_endpoints E p peers s r ≡ some (ok (x ∷ xs))
      → (i : ℕ)
      → IsLookedUp
          (get_or (E.retrier.shuffle (x ∷ xs)) (i % length (E.retrier.shuffle (x ∷ xs))) [])
  shuffled-IsLookedUp x xs found i =
      let shuffled = E.retrier.shuffle (x ∷ xs) in
      let size = R.shuffle_length (x ∷ xs) in
      let inside : i % length shuffled < length shuffled = grind arith in
      let k = get_or shuffled (i % length shuffled) [] in
      (
        x ∷ xs,
        found,
        sym (R.shuffle_contains k (x ∷ xs)) ∙ contains-get_or shuffled (i % length shuffled) inside,
      )

  -- What a request leaves behind that makes no attempt.
  unlooked :
      (history : List Event) → IsKeyed E s → s.ejections ≡ replay [] history → Continues history s
  unlooked history o told = of_Sends history s 0 [] (omega arith) o told idle

  -- The loop of the retries, for any state that a session is part of.
  run-Continues :
      {S T : Type 0} (session : S → Session E) (attempt : S → Text → S × Result T)
      (sends : (x : S) (k : Text) → session (attempt x k).0 ≡ (send_to E r (session x) k).0)
      (timer : ℕ → S → S) (rests : (d : ℕ) (x : S) → session (timer d x) ≡ rest E d (session x))
      (endpoints : List Text) (start : S) (history : List Event)
      → lookup_endpoints E p peers s r ≡ some (ok endpoints)
      → session start ≡ s
      → IsKeyed E s
      → s.ejections ≡ replay [] history
      → Continues history
          (session (run_with_endpoints E.retrier S T p.retry timer endpoints start attempt).0)
  unfolding run_with_endpoints
  run-Continues session attempt sends timer rests [] start history found at o told =
      subst (Continues history) (sym at) (unlooked history o told)
  run-Continues {S} {T} session attempt sends timer rests (x ∷ xs) start history found at o told =
      let shuffled = E.retrier.shuffle (x ∷ xs) in
      let wait =
        pause E r IsLookedUp session attempt sends timer rests shuffled
          (shuffled-IsLookedUp x xs found) in
      let (n, made) =
        retry-Attempts E.retrier R (S × ℕ) T wait (rotate E.retrier shuffled attempt)
          (delays E.retrier p.retry) (start, 0) in
      let (lo, hi) = Attempts-bound made in
      let count = length-delays E.retrier R p.retry in
      let end = session (run_with_endpoints E.retrier S T p.retry timer (x ∷ xs) start attempt).0 in
      let (es, sent) =
        loop-Sends E r IsLookedUp session attempt sends timer rests shuffled
          (shuffled-IsLookedUp x xs found) made in
      of_Sends history end n es (omega arith) o told
        (subst (λ t. Sends E r IsLookedUp n t es end) at sent)

  filled_Continues :
      (buf : Text) (history : List Event) (endpoints : List Text)
      → lookup_endpoints E p peers s r ≡ some (ok endpoints)
      → IsKeyed E s
      → s.ejections ≡ replay [] history
      → Continues history (fill_buffer E p.retry endpoints (send_to E r) s buf).1.0
  unfolding fill_buffer fill_from
  filled_Continues buf history endpoints found o told =
      run-Continues (λ x. x.0) (fill_from E (send_to E r)) (λ x k. refl) (rest_into E) (λ d x. refl)
        endpoints (s, buf) history found refl o told

  streamed_Continues :
      (history : List Event) (endpoints : List Text)
      → lookup_endpoints E p peers s r ≡ some (ok endpoints)
      → IsKeyed E s
      → s.ejections ≡ replay [] history
      → Continues history (stream_from E p.retry endpoints (send_to E r) s).1
  unfolding stream_from
  streamed_Continues history endpoints found o told =
      run-Continues (λ x. x) (send_to E r) (λ x k. refl) (rest E) (λ d x. refl) endpoints s history
        found refl o told

  -- Under the documented behaviour of the hash ring, of backon and of the shuffle, with a pool that
  -- keeps each client under the endpoint it was built for and ejections that some history of the
  -- proxies tells: a call of `get_into` returns, and keeps the pool so. It leaves the session of at
  -- most `1 + max_retries` attempts, each at an endpoint that the lookup gave, with pauses. The
  -- history goes on by the events of the outcomes of just these attempts in turn: an answer when the
  -- proxy responded with any status, a failure at that instant when it could not be connected to, and
  -- nothing otherwise. Which proxies are ejected afterwards is what the longer history says.
  pub get_into-Continues :
      (buf : Text) (history : List Event)
      → IsKeyed E s
      → s.ejections ≡ replay [] history
      → r.replicas < 2 ^ 32
      → (result : Result (GetResponse E.http)) × (s' : Session E) × (buf' : Text) × (get_into E p
            peers s r buf
          ≡ some (result, (s', buf')))
        × Continues history s'
  unfolding get_into
  get_into-Continues buf history o told fits =
      let (found, looked_up) = lookup_total E L p peers s r fits in
      let (result, s', buf', e, c) = attempted found looked_up in
      (result, s', buf', ap (Option.map (get_into_from E p s r buf)) looked_up ∙ e, c)
    where
      attempted :
          (found : Result (List Text))
          → lookup_endpoints E p peers s r ≡ some found
          → (result : Result (GetResponse E.http)) × (s' : Session E) × (buf' : Text) × (some
                (get_into_from E p s r buf found)
              ≡ some (result, (s', buf')))
            × Continues history s'
      attempted (err e) h = (err e, s, buf, refl, unlooked history o told)
      attempted (ok endpoints) h = (_, _, _, refl, filled_Continues buf history endpoints h o told)

  -- Under the documented behaviour of the hash ring, of backon and of the shuffle, with a pool that
  -- keeps each client under the endpoint it was built for and ejections that some history of the
  -- proxies tells: `get` returns, keeps the pool so, and leaves the session of at most
  -- `1 + max_retries` attempts, each at an endpoint that the lookup gave, with pauses. The history goes
  -- on by the events of the outcomes of just these attempts in turn, and which proxies are ejected
  -- afterwards is what the longer history says.
  pub get-Continues :
      (history : List Event)
      → IsKeyed E s
      → s.ejections ≡ replay [] history
      → r.replicas < 2 ^ 32
      → (result : Result (GetResponse E.http)) × (s' : Session E) × (get E p peers s r
          ≡ some (result, s'))
        × Continues history s'
  unfolding get
  get-Continues history o told fits =
      let (found, looked_up) = lookup_total E L p peers s r fits in
      let (result, s', e, c) = attempted found looked_up in
      (result, s', ap (Option.map (get_from E p s r)) looked_up ∙ e, c)
    where
      attempted :
          (found : Result (List Text))
          → lookup_endpoints E p peers s r ≡ some found
          → (result : Result (GetResponse E.http)) × (s' : Session E) × (some
                (get_from E p s r found)
              ≡ some (result, s'))
            × Continues history s'
      attempted (err e) h = (err e, s, refl, unlooked history o told)
      attempted (ok endpoints) h = (_, _, refl, streamed_Continues history endpoints h o told)
