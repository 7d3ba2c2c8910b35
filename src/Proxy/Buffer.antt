-- ===== src/Proxy/Buffer.antt =====
-- client-request/rust/src/lib.rs: what `get_into` leaves in the caller's buffer.
use mathlib.Core.List.{append_assoc, append-nil, flatten}
use dragonfly_sdk.Base.{
  ℕ, ◌%◌, ◌^◌, ◌<◌, ◌≡◌, refl, sym, ap, ap₂, ◌∙◌, subst, ◌⊎◌, inl, inr, none, some, List, [], ◌∷◌,
  ◌++◌, arith, Option-cases, length, get_or, take, Text,
}
use dragonfly_sdk.Errors.{Error, Result, ok, err, Result-cases}
use dragonfly_sdk.Errors.Convert.{Response}
use dragonfly_sdk.Requests.Get.{GetRequest, GetResponse}
use dragonfly_sdk.Retry.{RetrierLaws, RetryPolicy, sleep, delays, rotate, timed, run_with_endpoints}
use dragonfly_sdk.Retry.Runs.{Attempts, succeeds, refuses, gives_up, retries, retry-Attempts}
use dragonfly_sdk.Selector.{SeedPeers}
use dragonfly_sdk.Selector.Ring.{RingLaws}
use dragonfly_sdk.Proxy.{Env, Session, Proxy}
use dragonfly_sdk.Proxy.Send.{send_to}
use dragonfly_sdk.Proxy.Download.{
  Sender, fill_buffer, read_chunks, filled, fill_from, get_into, get_into_from, rest_into,
}
use dragonfly_sdk.Proxy.Total.{lookup_total}

take-length : (xs ys : Text) → take (length xs) (xs ++ ys) ≡ xs
take-length [] ys = refl
take-length (x ∷ xs) ys = ap (◌∷◌ x) (take-length xs ys)

module _ (E : Env) (sender : Sender E) where
  -- A result and the buffer that comes with it: a failure leaves the buffer as it was, and a success
  -- has appended the body of a response that an endpoint answered in full.
  abbrev pub Delivers : Text → Result (GetResponse E.http) → Text → Type 0
  Delivers buf (err e) buf' = buf' ≡ buf
  Delivers buf (ok g) buf' =
      (answer : Response E.http) × (endpoint : Text) × (before : Session E) × (after : Session E)
      × (sender before endpoint ≡ (after, ok answer))
      × (answer.ending ≡ none)
      × (g ≡ filled E answer)
      × (buf' ≡ buf ++ flatten answer.chunks)

  -- A reading of chunks from a start fails with the buffer restored, or has appended some bytes.
  abbrev Reads : Response E.http → Text → List Text → Text → Text → Type 0
  Reads answer buf chunks start more =
      let (buf', result) = read_chunks E answer (length buf) chunks start in
      ((e : Error) × (result ≡ err e) × (buf' ≡ buf))
      ⊎ ((result ≡ ok (filled E answer)) × (answer.ending ≡ none) × (buf' ≡ buf ++ more))

  read_chunks_lem :
      (answer : Response E.http) (buf more : Text) (chunks : List Text)
      → Reads answer buf chunks (buf ++ more) (more ++ flatten chunks)
  unfolding read_chunks flatten
  read_chunks_lem answer buf more (chunk ∷ chunks) =
      subst (λ (p : Text × Text). Reads answer buf chunks p.0 p.1)
        (ap₂ (λ (a b : Text). (a, b)) (sym (append_assoc buf more chunk))
          (append_assoc more chunk (flatten chunks)))
        (read_chunks_lem answer buf (more ++ chunk) chunks)
  read_chunks_lem answer buf more [] = elim (Option-cases answer.ending) [
    | inl complete ↦
        rw (complete, read_chunks) (inr (refl, refl, ap (◌++◌ buf) (sym (append-nil more))))
    | inr (e, broken) ↦ rw (broken, read_chunks) (inl (_, refl, take-length buf more))
  ]

  read_chunks_start :
      (answer : Response E.http) (buf : Text)
      → Reads answer buf answer.chunks buf (flatten answer.chunks)
  read_chunks_start answer buf =
      subst (λ start. Reads answer buf answer.chunks start (flatten answer.chunks)) (append-nil buf)
        (read_chunks_lem answer buf [] answer.chunks)

  -- One attempt.
  fill_from-Delivers :
      (s : Session E) (buf : Text) (endpoint : Text)
      → let (end, result) = fill_from E sender (s, buf) endpoint in Delivers buf result end.1
  unfolding fill_from
  fill_from-Delivers s buf endpoint = elim (Result-cases (sender s endpoint).1) [
    | inl (answer, e) ↦ elim (read_chunks_start answer buf) [
      | inl (f, failed, same) ↦ rw (e, failed) same
      | inr (done, whole, more) ↦
          rw (e, done)
            (
              answer,
              endpoint,
              s,
              (sender s endpoint).0,
              ap (λ x. ((sender s endpoint).0, x)) e,
              whole,
              refl,
              more,
            )
    ]
    | inr (f, e) ↦ rw e refl
  ]

  module _ (xs : List Text) where
    abbrev Loop : Type 0
    Loop = (Session E × Text) × ℕ

    abbrev round : Loop → Loop × Result (GetResponse E.http)
    round = rotate E.retrier xs (fill_from E sender)

    abbrev pause : ℕ → Loop → Loop
    pause = sleep E.retrier (timed E.retrier (rest_into E))

    pause_keeps : (d : ℕ) (l : Loop) → (pause d l).0.1 ≡ l.0.1
    unfolding sleep
    pause_keeps d l = ground arith

    round-Delivers :
        (l : Loop) {m : Loop} {result : Result (GetResponse E.http)}
        → round l ≡ (m, result)
        → Delivers l.0.1 result m.0.1
    unfolding rotate
    round-Delivers l e =
        subst (λ p. Delivers l.0.1 p.1 p.0.0.1) e
          (fill_from-Delivers l.0.0 l.0.1 (get_or xs (l.1 % length xs) []))

    loop-Delivers :
        {ds : List ℕ} {l m : Loop} {n : ℕ} {result : Result (GetResponse E.http)}
        → Attempts pause round ds l n m result
        → Delivers l.0.1 result m.0.1
    loop-Delivers (succeeds {s = l} e) = round-Delivers l e
    loop-Delivers (refuses {s = l} e h) = round-Delivers l e
    loop-Delivers (gives_up {s = l} e h) = round-Delivers l e
    loop-Delivers (retries {d} {s = l} {s'} {s''} {n} {r = result} e h later) =
        subst (λ buf. Delivers buf result s''.0.1) (pause_keeps d s' ∙ round-Delivers l e)
          (loop-Delivers later)

pub fill_buffer-Delivers :
    (E : Env) (R : RetrierLaws E.retrier) (retry : RetryPolicy E.retrier) (endpoints : List Text)
    (sender : Sender E) (s : Session E) (buf : Text)
    → let (result, (s', buf')) = fill_buffer E retry endpoints sender s buf in
      Delivers E sender buf result buf'
unfolding fill_buffer run_with_endpoints
fill_buffer-Delivers E R retry [] sender s buf = refl
fill_buffer-Delivers E R retry (x ∷ xs) sender s buf =
    let shuffled = E.retrier.shuffle (x ∷ xs) in
    let (n, made) =
      retry-Attempts E.retrier R ((Session E × Text) × ℕ) (GetResponse E.http)
        (pause E sender shuffled) (round E sender shuffled) (delays E.retrier retry)
        ((s, buf), 0) in
    loop-Delivers E sender shuffled made

-- Under the documented behaviour of the hash ring and of backon's retry, and with a number of
-- replicas that fits the `u32` it is cast to, a call of `get_into` returns. When it fails, the
-- buffer holds what it held before, whatever the failed attempts had read. When it succeeds, the
-- buffer has gained exactly the body of one response that a proxy answered and that ended without
-- an error, and the result has that response's status and header.
pub get_into-Delivers :
    (E : Env) (L : RingLaws E.ring) (R : RetrierLaws E.retrier) (p : Proxy E)
    (peers : SeedPeers E.ring) (s : Session E) (r : GetRequest E.http) (buf : Text)
    → r.replicas < 2 ^ 32
    → (result : Result (GetResponse E.http)) × (s' : Session E) × (buf' : Text) × (get_into E p
          peers s r buf
        ≡ some (result, (s', buf')))
      × Delivers E (send_to E r) buf result buf'
unfolding get_into
get_into-Delivers E L R p peers s r buf fits =
    let (found, looked_up) = lookup_total E L p peers s r fits in rw looked_up (attempted found)
  where
    attempted :
        (found : Result (List Text))
        → (result : Result (GetResponse E.http)) × (s' : Session E) × (buf' : Text) × (some
              (get_into_from E p s r buf found)
            ≡ some (result, (s', buf')))
          × Delivers E (send_to E r) buf result buf'
    attempted (err e) = (err e, s, buf, refl, refl)
    attempted (ok endpoints) =
        (_, _, _, refl, fill_buffer-Delivers E R p.retry endpoints (send_to E r) s buf)
