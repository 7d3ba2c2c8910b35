-- ===== src/Tests/Retries.antt =====
-- A simple retry loop with its documented behaviour.
use dragonfly_sdk.Base.{
  ℕ, ◌≤◌, ◌≡◌, refl, Bool, true, false, List, [], ◌∷◌, arith, if◌then◌else◌, replicate,
  length-replicate,
}
use dragonfly_sdk.Errors.{Error, Result, ok, err}
use dragonfly_sdk.Retry.{Retrier, RetrierLaws}

-- Retries by the list of delays; the endpoints stay in their order.
abbrev resume : {S T : Type 0} → (S → S × Result T) → (Error → Bool) → S × Result T → S × Result T
resume again when (s, ok v) = (s, ok v)
resume again when (s, err e) = if when e then again s else (s, err e)

unfoldable pub plain_retry :
    (S T : Type 0) → List ℕ → (ℕ → S → S) → (Error → Bool) → (S → S × Result T) → S → S × Result T
plain_retry S T [] sleep when attempt s = attempt s
plain_retry S T (d ∷ ds) sleep when attempt s =
    resume (λ s'. plain_retry S T ds sleep when attempt (sleep d s')) when (attempt s)

abbrev pub plain_retrier : Retrier
plain_retrier = record {
  Exponential = ℕ;
  build = λ b n. replicate n b;
  retry = plain_retry;
  shuffle = λ xs. xs;
}

retry_succeeded :
    (S T : Type 0) (ds : List ℕ) (sleep : ℕ → S → S) (when : Error → Bool)
    (attempt : S → S × Result T) (s s' : S) (v : T)
    → attempt s ≡ (s', ok v)
    → plain_retry S T ds sleep when attempt s ≡ (s', ok v)
unfolding plain_retry
retry_succeeded S T [] sleep when attempt s s' v e = e
retry_succeeded S T (d ∷ ds) sleep when attempt s s' v e = rw (e, plain_retry) refl

retry_refused :
    (S T : Type 0) (ds : List ℕ) (sleep : ℕ → S → S) (when : Error → Bool)
    (attempt : S → S × Result T) (s s' : S) (f : Error)
    → attempt s ≡ (s', err f)
    → when f ≡ false
    → plain_retry S T ds sleep when attempt s ≡ (s', err f)
unfolding plain_retry
retry_refused S T [] sleep when attempt s s' f e h = e
retry_refused S T (d ∷ ds) sleep when attempt s s' f e h = rw (e, plain_retry, h) refl

retry_again :
    (S T : Type 0) (d : ℕ) (ds : List ℕ) (sleep : ℕ → S → S) (when : Error → Bool)
    (attempt : S → S × Result T) (s s' : S) (f : Error)
    → attempt s ≡ (s', err f)
    → when f ≡ true
    → plain_retry S T (d ∷ ds) sleep when attempt s
      ≡ plain_retry S T ds sleep when attempt (sleep d s')
unfolding plain_retry
retry_again S T d ds sleep when attempt s s' f e h = rw (e, plain_retry, h) refl

at_most : {m n : ℕ} → m ≡ n → m ≤ n
at_most e = omega arith

pub plain_retrier_laws : RetrierLaws plain_retrier
unfolding plain_retry
plain_retrier_laws = record {
  shuffle_length = λ xs. refl;
  shuffle_contains = λ k xs. refl;
  build_length = λ b n. at_most (length-replicate n b);
  succeeded = retry_succeeded;
  refused = retry_refused;
  exhausted = λ S T sleep when attempt s s' e h. h;
  again = retry_again;
}
