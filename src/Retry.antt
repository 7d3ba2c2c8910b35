-- ===== src/Retry.antt =====
-- client-request/rust/src/retry.rs: retries of a request. The retry loop itself, the exponential
-- delays and the shuffle come from the backon and rand crates, which are arguments here.
pub mod Runs
pub mod Rotation
use dragonfly_sdk.Base.{
  ℕ, zero, ◌+◌, ◌-◌, ◌/◌, ◌%◌, ◌≤◌, ◌≡◌, Bool, true, false, not, Option, none, some, List, [], ◌∷◌,
  ◌==◌, if◌then◌else◌, length, get_or, replicate, is_empty, Text, text, contains,
}
use dragonfly_sdk.Errors.{Error, Result, ok, err, invalid_argument, is_retryable}

-- What the code uses of backon and of rand. A state is passed along in place of what an attempt
-- changes; the delays are in nanoseconds.
pub record Retrier : Type 1 where
  pub Exponential : Type 0
  -- `with_max_times(n).build()`.
  pub build : Exponential → ℕ → List ℕ
  -- `attempt.retry(delays).sleep(sleep).when(when)`.
  pub retry :
      (S T : Type 0) → List ℕ → (ℕ → S → S) → (Error → Bool) → (S → S × Result T) → S → S × Result T
  pub shuffle : List Text → List Text

-- The documented behaviour of backon's retry, and of a shuffle.
pub record RetrierLaws (R : Retrier) : Type 1 where
  pub shuffle_length : (xs : List Text) → length (R.shuffle xs) ≡ length xs
  pub shuffle_contains : (k : Text) (xs : List Text) → contains k (R.shuffle xs) ≡ contains k xs
  -- A total delay of the builder may end the delays before there are `n`.
  pub build_length : (b : R.Exponential) (n : ℕ) → length (R.build b n) ≤ n
  pub succeeded :
      (S T : Type 0) (ds : List ℕ) (sleep : ℕ → S → S) (when : Error → Bool)
      (attempt : S → S × Result T) (s s' : S) (v : T)
      → attempt s ≡ (s', ok v)
      → R.retry S T ds sleep when attempt s ≡ (s', ok v)
  pub refused :
      (S T : Type 0) (ds : List ℕ) (sleep : ℕ → S → S) (when : Error → Bool)
      (attempt : S → S × Result T) (s s' : S) (e : Error)
      → attempt s ≡ (s', err e)
      → when e ≡ false
      → R.retry S T ds sleep when attempt s ≡ (s', err e)
  pub exhausted :
      (S T : Type 0) (sleep : ℕ → S → S) (when : Error → Bool) (attempt : S → S × Result T)
      (s s' : S) (e : Error)
      → attempt s ≡ (s', err e)
      → R.retry S T [] sleep when attempt s ≡ (s', err e)
  pub again :
      (S T : Type 0) (d : ℕ) (ds : List ℕ) (sleep : ℕ → S → S) (when : Error → Bool)
      (attempt : S → S × Result T) (s s' : S) (e : Error)
      → attempt s ≡ (s', err e)
      → when e ≡ true
      → R.retry S T (d ∷ ds) sleep when attempt s ≡ R.retry S T ds sleep when attempt (sleep d s')

module _ (R : Retrier) where
  pub record RetryPolicy : Type 0 where
    pub max_retries : ℕ
    pub backoff : Option R.Exponential

  abbrev pub default_policy : RetryPolicy
  default_policy = record { max_retries = 1; backoff = none }

  unfoldable pub delays : RetryPolicy → List ℕ
  delays p = elim p.backoff [ some b ↦ R.build b p.max_retries | none ↦ replicate p.max_retries 0 ]

  -- A zero delay does not reach the timer.
  unfoldable pub sleep : {S : Type 0} → (ℕ → S → S) → ℕ → S → S
  sleep timer delay s = if delay == 0 then s else timer delay s

  unfoldable pub run :
      (S T : Type 0) → RetryPolicy → (ℕ → S → S) → (S → S × Result T) → S → S × Result T
  run S T p timer attempt s = R.retry S T (delays p) (sleep timer) is_retryable attempt s

  -- One attempt at the next endpoint; the state carries the number of attempts made.
  unfoldable pub rotate :
      {S T : Type 0} → List Text → (S → Text → S × Result T) → S × ℕ → (S × ℕ) × Result T
  rotate shuffled attempt (ctx, attempts) =
      let (ctx', result) = attempt ctx (get_or shuffled (attempts % length shuffled) []) in
      ((ctx', attempts + 1), result)

  abbrev no_endpoints : Error
  no_endpoints = invalid_argument (text "no endpoints to send request")

  abbrev pub timed : {S : Type 0} → (ℕ → S → S) → ℕ → S × ℕ → S × ℕ
  timed timer d (ctx, attempts) = (timer d ctx, attempts)

  unfoldable pub run_with_endpoints :
      (S T : Type 0)
      → RetryPolicy
      → (ℕ → S → S)
      → List Text
      → S
      → (S → Text → S × Result T)
      → S × Result T
  unfolding rotate
  run_with_endpoints S T p timer endpoints ctx attempt =
      if is_empty endpoints
      then (ctx, err no_endpoints)
      else (let (end, result) =
            R.retry (S × ℕ) T (delays p) (sleep (timed timer)) is_retryable
              (rotate (R.shuffle endpoints) attempt) (ctx, 0) in
          (end.0, result))
