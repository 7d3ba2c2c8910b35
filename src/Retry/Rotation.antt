-- ===== src/Retry/Rotation.antt =====
-- client-request/rust/src/retry.rs: `run_with_endpoints` goes round the shuffled endpoints.
use native.Mathlib.Nat.{mod-eq_of_lt, add-mod_right}
use mathlib.Core.List.{append_assoc}
use dragonfly_sdk.Base.{
  ℕ, zero, suc, ◌+◌, ◌%◌, ◌≤◌, ◌<◌, ◌≡◌, refl, sym, ap, ap₂, ◌∙◌, subst, false, some, List, [], ◌∷◌,
  ◌++◌, arith, length, get_elem?, get_or, take, drop, is_empty, Text,
}
use dragonfly_sdk.Errors.{Result}
use dragonfly_sdk.Retry.{
  Retrier, RetrierLaws, RetryPolicy, delays, sleep, rotate, timed, run_with_endpoints,
}
use dragonfly_sdk.Retry.Runs.{
  Attempts, succeeds, refuses, gives_up, retries, retry-Attempts, Attempts-bound, length-delays,
}

-- An attempt that also writes down its endpoint.
abbrev pub logged :
    {S T : Type 0} → (S → Text → S × Result T) → S × List Text → Text → (S × List Text) × Result T
logged attempt (s, log) endpoint =
    let (s', r) = attempt s endpoint in ((s', log ++ endpoint ∷ []), r)

abbrev pub log_timer : {S : Type 0} → (ℕ → S → S) → ℕ → S × List Text → S × List Text
log_timer timer d (s, log) = (timer d s, log)

-- The next `n` endpoints, from attempt `k` on.
targets : List Text → ℕ → ℕ → List Text
targets xs k zero = []
targets xs k (suc n) = get_or xs (k % length xs) [] ∷ targets xs (k + 1) n

length-targets : (xs : List Text) (k n : ℕ) → length (targets xs k n) ≡ n
unfolding targets
length-targets xs k zero = refl
length-targets xs k (suc n) = ap suc (length-targets xs (k + 1) n)

drop_at : (xs : List Text) (k : ℕ) → k < length xs → drop k xs ≡ get_or xs k [] ∷ drop (suc k) xs
drop_at [] k h = absurd (omega arith)
drop_at (x ∷ xs) zero h = refl
drop_at (x ∷ xs) (suc k) h = drop_at xs k (omega arith)

drop_all : (xs : List Text) (k : ℕ) → length xs ≤ k → drop k xs ≡ []
drop_all [] zero h = refl
drop_all [] (suc k) h = refl
drop_all (x ∷ xs) zero h = absurd (omega arith)
drop_all (x ∷ xs) (suc k) h = drop_all xs k (omega arith)

-- The first round is the shuffled list itself.
take-targets :
    (xs : List Text) (j k n : ℕ) → k + j ≡ length xs → take j (targets xs k n) ≡ take n (drop k xs)
unfolding targets
take-targets xs zero k n h = rw (drop_all xs k (omega arith)) (nothing n)
  where
    nothing : (n : ℕ) → [] ≡ take {A = Text} n []
    nothing zero = refl
    nothing (suc n) = refl
take-targets xs (suc j) k zero h = refl
take-targets xs (suc j) k (suc n) h =
    let inside : k < length xs = omega arith in
    rw (mod-eq_of_lt inside, drop_at xs k inside)
      (ap (◌∷◌ (get_or xs k []))
        (let e : k + 1 ≡ suc k = omega arith in rw e (take-targets xs j (suc k) n (omega arith))))

get_elem?-targets :
    (xs : List Text) (k n i : ℕ)
    → i < n
    → get_elem? (targets xs k n) i ≡ some (get_or xs ((k + i) % length xs) [])
unfolding targets
get_elem?-targets xs k zero i h = absurd (omega arith)
get_elem?-targets xs k (suc n) zero h = ap (λ m. some (get_or xs (m % length xs) [])) (omega arith)
get_elem?-targets xs k (suc n) (suc i) h =
    get_elem?-targets xs (k + 1) n i (omega arith)
    ∙ ap (λ m. some (get_or xs (m % length xs) [])) (omega arith)

mod_round : (i m : ℕ) → (0 + (i + m)) % m ≡ (0 + i) % m
mod_round i m =
    let a : 0 + (i + m) ≡ i + m = omega arith in
    let b : 0 + i ≡ i = omega arith in rw (a, b) (add-mod_right i m)

-- Later rounds repeat the first.
targets_periodic :
    (xs : List Text) (n i : ℕ)
    → i + length xs < n
    → get_elem? (targets xs 0 n) (i + length xs) ≡ get_elem? (targets xs 0 n) i
targets_periodic xs n i h =
    get_elem?-targets xs 0 n (i + length xs) h
    ∙ ap (λ m. some (get_or xs m [])) (mod_round i (length xs))
    ∙ sym (get_elem?-targets xs 0 n i (omega arith))

targets-append :
    (xs : List Text) (k n : ℕ) (log : List Text)
    → (log ++ get_or xs (k % length xs) [] ∷ []) ++ targets xs (k + 1) n
      ≡ log ++ targets xs k (suc n)
unfolding targets
targets-append xs k n log = append_assoc log _ _

module _ {S T : Type 0} (R : Retrier) (wait : ℕ → S → S) (xs : List Text)
    (attempt : S → Text → S × Result T) where
  -- A state of the loop: the caller's, the log, and the number of attempts made.
  abbrev Loop : Type 0
  Loop = (S × List Text) × ℕ

  abbrev round : Loop → Loop × Result T
  round = rotate R xs (logged attempt)

  abbrev pause : ℕ → Loop → Loop
  pause = sleep R (timed R (log_timer wait))

  pause_keeps : (d : ℕ) (l : Loop) → ((pause d l).1 ≡ l.1) × ((pause d l).0.1 ≡ l.0.1)
  unfolding sleep
  pause_keeps d l = (ground arith, ground arith)

  round_log :
      (l : Loop) {m : Loop} {r : Result T}
      → round l ≡ (m, r)
      → (m.1 ≡ l.1 + 1) × (m.0.1 ≡ l.0.1 ++ get_or xs (l.1 % length xs) [] ∷ [])
  unfolding rotate
  round_log l e = (sym (ap (λ p. p.0.1) e), sym (ap (λ p. p.0.0.1) e))

  -- However it ends, a loop of `n` attempts writes down the next `n` targets.
  loop_targets :
      {ds : List ℕ} {l m : Loop} {n : ℕ} {r : Result T}
      → Attempts pause round ds l n m r
      → m.0.1 ≡ l.0.1 ++ targets xs l.1 n
  unfolding targets
  loop_targets (succeeds {s = l} e) = (round_log l e).1
  loop_targets (refuses {s = l} e h) = (round_log l e).1
  loop_targets (gives_up {s = l} e h) = (round_log l e).1
  loop_targets (retries {d} {s = l} {s'} {s''} {n} e h later) =
      let (count, log) = round_log l e in
      let (same_count, same_log) = pause_keeps d s' in
      loop_targets later
      ∙ ap₂ (λ g k. g ++ targets xs k n) (same_log ∙ log) (same_count ∙ count)
      ∙ targets-append xs l.1 n l.0.1

module _ (R : Retrier) (L : RetrierLaws R) where
  -- What a log of `n` attempts at the endpoints looks like.
  pub record GoesRound (endpoints log : List Text) (n : ℕ) : Type 0 where
    pub counted : length log ≡ n
    pub first_round : take (length endpoints) log ≡ take n (R.shuffle endpoints)
    pub later_rounds :
        (i : ℕ) → i + length endpoints < n → get_elem? log (i + length endpoints) ≡ get_elem? log i

  targets-GoesRound :
      (endpoints : List Text) (n : ℕ) → GoesRound endpoints (targets (R.shuffle endpoints) 0 n) n
  targets-GoesRound endpoints n =
      let size = L.shuffle_length endpoints in
      let xs = R.shuffle endpoints in
      record {
        counted = length-targets xs 0 n;
        first_round = rw (← size) (take-targets xs (length xs) 0 n (omega arith));
        later_rounds = rw (← size) (targets_periodic xs n);
      }

  -- Under the documented behaviour of backon and of the shuffle, a request to some endpoints makes
  -- between one and `1 + max_retries` attempts. The first of them go to the endpoints in the
  -- shuffled order, each once, and every later one to the endpoint of the attempt one round before.
  pub run_with_endpoints-GoesRound :
      (S T : Type 0) (p : RetryPolicy R) (timer : ℕ → S → S) (endpoints : List Text) (s : S)
      (attempt : S → Text → S × Result T)
      → is_empty endpoints ≡ false
      → let (end, r) =
          run_with_endpoints R
            (S × List Text)
            T
            p
            (log_timer timer)
            endpoints
            (s, [])
            (logged attempt) in
        (n : ℕ) × (1 ≤ n) × (n ≤ suc p.max_retries) × GoesRound endpoints end.1 n
  unfolding run_with_endpoints
  run_with_endpoints-GoesRound S T p timer endpoints s attempt some_endpoint =
      let xs = R.shuffle endpoints in
      let (n, made) =
        retry-Attempts R L ((S × List Text) × ℕ) T (pause R timer xs attempt)
          (rotate R xs (logged attempt)) (delays R p) ((s, []), 0) in
      let (lo, hi) = Attempts-bound made in
      let count = length-delays R L p in
      rw some_endpoint (
        n,
        lo,
        omega arith,
        subst (λ log. GoesRound endpoints log n) (sym (loop_targets R timer xs attempt made))
            (targets-GoesRound endpoints n),
      )
