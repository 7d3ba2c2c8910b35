-- ===== src/Proxy/Download/Answered.antt =====
-- client-request/rust/src/lib.rs: what a `get` that succeeds returns.
use dragonfly_sdk.Base.{
  ℕ, ◌%◌, ◌≡◌, sym, ap, ◌∙◌, inl, inr, true, none, some, List, [], ◌∷◌, Option-cases, length,
  get_or, Text,
}
use mathlib.Core.Option
use dragonfly_sdk.Errors.{Result, ok, err, Result-cases, ok-injective, is_retryable}
use dragonfly_sdk.Errors.Convert.{Response}
use dragonfly_sdk.Requests.Get.{GetRequest, GetResponse}
use dragonfly_sdk.Retry.{RetrierLaws, sleep, delays, rotate, timed, run_with_endpoints}
use dragonfly_sdk.Retry.Runs.{Attempts-ok, retry-Attempts}
use dragonfly_sdk.Selector.{SeedPeers}
use dragonfly_sdk.Selector.Ring.{RingLaws}
use dragonfly_sdk.Proxy.{Env, Session, Proxy}
use dragonfly_sdk.Proxy.Lookup.{lookup_endpoints}
use dragonfly_sdk.Proxy.Send.{is_success, send_to}
use dragonfly_sdk.Proxy.Send.Successful.{refuse, send_to-success}
use dragonfly_sdk.Proxy.Download.{get, get_from, rest, streamed, stream_from, to_streamed}
use dragonfly_sdk.Proxy.Download.History.{IsLookedUp, shuffled-IsLookedUp}

module _ (E : Env) (r : GetRequest E.http) where
  module _ (L : RingLaws E.ring) (R : RetrierLaws E.retrier) (p : Proxy E)
      (peers : SeedPeers E.ring) (s : Session E) where
    -- The response of an endpoint of the lookup, and the session after it.
    pub record IsAnswered (g : GetResponse E.http) (s' : Session E) : Type 0 where
      pub answer : Response E.http
      pub endpoint : Text
      pub before : Session E
      pub looked_up : IsLookedUp E L R p peers s r endpoint
      pub sent : send_to E r before endpoint ≡ (s', ok answer)
      pub success : is_success E answer.status ≡ true
      pub streams : g ≡ streamed E answer

    last-IsAnswered :
        {end : Session E × ℕ} {g : GetResponse E.http} {s' : Session E} (shuffled : List Text)
        (before : Session E × ℕ) (answer : Response E.http)
        → end.0 ≡ s'
        → streamed E answer ≡ g
        → rotate E.retrier shuffled (send_to E r) before ≡ (end, ok answer)
        → IsLookedUp E L R p peers s r (get_or shuffled (before.1 % length shuffled) [])
        → IsAnswered g s'
    unfolding rotate
    last-IsAnswered shuffled before answer ends same last found =
        let endpoint = get_or shuffled (before.1 % length shuffled) [] in
        record {
          answer = answer;
          endpoint = endpoint;
          before = before.0;
          looked_up = found;
          sent = ap (λ q. (q.0.0, q.1)) last ∙ ap (λ t. (t, ok answer)) ends;
          success = send_to-success E r before.0 endpoint answer (ap (λ q. q.1) last);
          streams = sym same;
        }

    stream-IsAnswered :
        (endpoints : List Text) (g : GetResponse E.http) (s' : Session E)
        → lookup_endpoints E p peers s r ≡ some (ok endpoints)
        → stream_from E p.retry endpoints (send_to E r) s ≡ (ok g, s')
        → IsAnswered g s'
    unfolding stream_from run_with_endpoints
    stream-IsAnswered [] g s' found h = absurd (refuse E r (ap (λ q. q.0) h))
    stream-IsAnswered (x ∷ xs) g s' found h =
        let shuffled = E.retrier.shuffle (x ∷ xs) in
        let wait = sleep E.retrier (timed E.retrier (rest E)) in
        let attempt = rotate E.retrier shuffled (send_to E r) in
        let end =
          E.retrier.retry (Session E × ℕ) (Response E.http) (delays E.retrier p.retry) wait
            is_retryable attempt (s, 0) in
        let (n, made) =
          retry-Attempts E.retrier R (Session E × ℕ) (Response E.http) wait attempt
            (delays E.retrier p.retry) (s, 0) in
        elim (Result-cases end.1) [
          | inr (f, failed) ↦
              absurd (refuse E r (sym (ap (to_streamed E) failed) ∙ ap (λ q. q.0) h))
          | inl (answer, answered) ↦
              let (before, last) = Attempts-ok made answer answered in
              last-IsAnswered shuffled before answer (ap (λ q. q.1) h)
                (ok-injective (sym (ap (to_streamed E) answered) ∙ ap (λ q. q.0) h)) last
                (shuffled-IsLookedUp E L R p peers s r x xs found before.1)
        ]

    -- Under the documented behaviour of backon and of the shuffle: a `get` that succeeds returns the
    -- response, with its chunks and how they end, that one of the endpoints of its lookup gave to its
    -- last attempt, and this response has a status of success.
    pub get-IsAnswered :
        (g : GetResponse E.http) (s' : Session E)
        → get E p peers s r ≡ some (ok g, s')
        → IsAnswered g s'
    unfolding get
    get-IsAnswered g s' h = elim (Option-cases (lookup_endpoints E p peers s r)) [
      | inl never ↦ absurd (nothing_got (sym (ap (Option.map (get_from E p s r)) never) ∙ h))
      | inr (found, e) ↦
          of_lookup found e (some_same (sym (ap (Option.map (get_from E p s r)) e) ∙ h))
    ]
      where
        nothing_got : {A : Type 0} {a : A} → none ≡ some a → ⊥
        nothing_got q = cc

        some_same : {A : Type 0} {a b : A} → some a ≡ some b → a ≡ b
        some_same q = cc

        of_lookup :
            (found : Result (List Text))
            → lookup_endpoints E p peers s r ≡ some found
            → get_from E p s r found ≡ (ok g, s')
            → IsAnswered g s'
        of_lookup (err e) found q = absurd (refuse E r (ap (λ q. q.0) q))
        of_lookup (ok endpoints) found q = stream-IsAnswered endpoints g s' found q
