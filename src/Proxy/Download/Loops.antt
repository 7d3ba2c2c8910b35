-- ===== src/Proxy/Download/Loops.antt =====
-- client-request/rust/src/lib.rs: what the attempts of `get` and `get_into` record together.
use dragonfly_sdk.Base.{
  ℕ, suc, ◌%◌, ◌≤◌, ◌≡◌, refl, sym, ap, ◌∙◌, subst, inl, inr, List, [], ◌++◌, arith, ◌==◌,
  Bool-cases, length, get_or, length-append, Text,
}
use dragonfly_sdk.Errors.{Result}
use dragonfly_sdk.Requests.Get.{GetRequest}
use dragonfly_sdk.Retry.{sleep, rotate, timed}
use dragonfly_sdk.Retry.Runs.{Attempts, succeeds, refuses, gives_up, retries}
use dragonfly_sdk.Selector.Ejections.Streaks.{Event, replay-append, replay}
use dragonfly_sdk.Proxy.{Env, Session}
use dragonfly_sdk.Proxy.Send.{send_to}
use dragonfly_sdk.Proxy.Send.Recorded.{IsKeyed, attempt_events, send_to-Recorded}
use dragonfly_sdk.Proxy.Download.{rest}

module _ (E : Env) (r : GetRequest E.http) (P : Text → Type 0) where
  -- So many attempts, each at an endpoint with the property, with pauses: the session that they start
  -- from, the events of their outcomes in turn, and the session that they leave.
  pub data Sends : ℕ → Session E → List Event → Session E → Type 0 where
    idle : {s : Session E} → Sends 0 s [] s
    sends :
        {n : ℕ} {s t : Session E} {es : List Event} (k : Text)
        → P k
        → Sends n (send_to E r s k).0 es t
        → Sends (suc n) s (attempt_events E r s k ++ es) t
    rests :
        {n : ℕ} {s t : Session E} {es : List Event} (d : ℕ)
        → Sends n (rest E d s) es t
        → Sends n s es t

  -- The ejections after the attempts are those of their events.
  pub Sends-replay :
      {n : ℕ} {s t : Session E} {es : List Event}
      → Sends n s es t
      → IsKeyed E s
      → IsKeyed E t × (t.ejections ≡ replay s.ejections es) × (length es ≤ n)
  unfolding replay
  Sends-replay idle o = (o, refl, omega arith)
  Sends-replay (sends {s = s} {es = es} k h later) o =
      let (o', first, one) = send_to-Recorded E r s k o in
      let (o'', second, few) = Sends-replay later o' in
      (
        o'',
        second
            ∙ ap (λ ejections. replay ejections es) first
            ∙ sym (replay-append s.ejections (attempt_events E r s k) es),
        omega (arith, length-append (attempt_events E r s k) es),
      )
  Sends-replay (rests d later) o = Sends-replay later o

  -- A loop of attempts that each send the request by the session in its state.
  module _ {S T : Type 0} (session : S → Session E) (attempt : S → Text → S × Result T)
      (sends_to : (x : S) (k : Text) → session (attempt x k).0 ≡ (send_to E r (session x) k).0)
      (timer : ℕ → S → S) (rests_to : (d : ℕ) (x : S) → session (timer d x) ≡ rest E d (session x))
      (xs : List Text) (targets : (i : ℕ) → P (get_or xs (i % length xs) [])) where
    abbrev pub Loop : Type 0
    Loop = S × ℕ

    abbrev pub round : Loop → Loop × Result T
    round = rotate E.retrier xs attempt

    abbrev pub pause : ℕ → Loop → Loop
    pause = sleep E.retrier (timed E.retrier timer)

    -- What follows an attempt, after the pause that the loop makes.
    paused :
        (d : ℕ) (l : Loop) {n : ℕ} {es : List Event} {t : Session E}
        → Sends n (session (pause d l).0) es t
        → Sends n (session l.0) es t
    unfolding sleep
    paused d l {n} {es} {t} later = elim (Bool-cases (d == 0)) [
      | inl zero_delay ↦ rw zero_delay at later
      | inr delay ↦ rests d (subst (λ s. Sends n s es t) (rests_to d l.0) (rw delay at later))
    ]

    attempted :
        (l : Loop) {m : Loop} {result : Result T} {n : ℕ} {es : List Event} {t : Session E}
        → round l ≡ (m, result)
        → Sends n (session m.0) es t
        → Sends
            (suc n)
            (session l.0)
            (attempt_events E r (session l.0) (get_or xs (l.1 % length xs) []) ++ es)
            t
    unfolding rotate
    attempted l {n = n} {es = es} {t = t} e later =
        let k = get_or xs (l.1 % length xs) [] in
        sends k (targets l.1)
          (subst (λ s. Sends n s es t) (sym (ap (λ q. session q.0.0) e) ∙ sends_to l.0 k) later)

    pub loop-Sends :
        {ds : List ℕ} {l m : Loop} {n : ℕ} {result : Result T}
        → Attempts pause round ds l n m result
        → (es : List Event) × Sends n (session l.0) es (session m.0)
    loop-Sends (succeeds {s = l} e) = (_, attempted l e idle)
    loop-Sends (refuses {s = l} e h) = (_, attempted l e idle)
    loop-Sends (gives_up {s = l} e h) = (_, attempted l e idle)
    loop-Sends (retries {d} {s = l} {s'} e h later) =
        let (es, more) = loop-Sends later in (_, attempted l e (paused d s' more))
