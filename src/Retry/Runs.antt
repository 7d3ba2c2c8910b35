-- ===== src/Retry/Runs.antt =====
-- client-request/rust/src/retry.rs: a run makes the attempts of the diagram in the documentation of
-- `run`, and at most one more than the policy's retries.
use dragonfly_sdk.Base.{
  ℕ, suc, ◌≤◌, ◌≡◌, refl, ap, ◌∙◌, ◌⊎◌, inl, inr, true, false, none, List, [], ◌∷◌, arith,
  Bool-cases, Option-cases, length, replicate, length-replicate,
}
use dragonfly_sdk.Errors.{Error, Result, ok, err, is_retryable, Result-cases}
use dragonfly_sdk.Retry.{Retrier, RetrierLaws, RetryPolicy, delays, sleep, run}

-- The diagram: `n` attempts from `s` end in `s'` with the result. The list holds the delays left.
pub data Attempts {S T : Type 0} (wait : ℕ → S → S) (attempt : S → S × Result T)
    : List ℕ → S → ℕ → S → Result T → Type 0 where
  succeeds :
      {ds : List ℕ} {s s' : S} {v : T}
      → attempt s ≡ (s', ok v)
      → Attempts wait attempt ds s 1 s' (ok v)
  refuses :
      {ds : List ℕ} {s s' : S} {e : Error}
      → attempt s ≡ (s', err e)
      → is_retryable e ≡ false
      → Attempts wait attempt ds s 1 s' (err e)
  gives_up :
      {s s' : S} {e : Error}
      → attempt s ≡ (s', err e)
      → is_retryable e ≡ true
      → Attempts wait attempt [] s 1 s' (err e)
  retries :
      {d : ℕ} {ds : List ℕ} {s s' s'' : S} {e : Error} {n : ℕ} {r : Result T}
      → attempt s ≡ (s', err e)
      → is_retryable e ≡ true
      → Attempts wait attempt ds (wait d s') n s'' r
      → Attempts wait attempt (d ∷ ds) s (suc n) s'' r

pub Attempts-bound :
    {S T : Type 0} {wait : ℕ → S → S} {attempt : S → S × Result T} {ds : List ℕ} {s s' : S} {n : ℕ}
    {r : Result T}
    → Attempts wait attempt ds s n s' r
    → (1 ≤ n) × (n ≤ suc (length ds))
Attempts-bound (succeeds e) = (omega arith, omega arith)
Attempts-bound (refuses e h) = (omega arith, omega arith)
Attempts-bound (gives_up e h) = (omega arith, omega arith)
Attempts-bound (retries e h a) = let (lo, hi) = Attempts-bound a in (omega arith, omega arith)

-- A success is the result of the last attempt.
pub Attempts-ok :
    {S T : Type 0} {wait : ℕ → S → S} {attempt : S → S × Result T} {ds : List ℕ} {s s' : S} {n : ℕ}
    {r : Result T}
    → Attempts wait attempt ds s n s' r
    → (v : T) → r ≡ ok v
    → (before : S) × (attempt before ≡ (s', ok v))
Attempts-ok {s} {s'} (succeeds e) v q = (s, e ∙ ap (λ x. (s', x)) q)
Attempts-ok (refuses e h) v q = cc
Attempts-ok (gives_up e h) v q = cc
Attempts-ok (retries e h later) v q = Attempts-ok later v q

-- Only after all its retries does a run end with a transient failure.
Attempts-exhausted :
    {S T : Type 0} {wait : ℕ → S → S} {attempt : S → S × Result T} {ds : List ℕ} {s s' : S} {n : ℕ}
    {r : Result T} {e : Error}
    → Attempts wait attempt ds s n s' r
    → r ≡ err e
    → is_retryable e ≡ true
    → n ≡ suc (length ds)
Attempts-exhausted (succeeds h) q t = cc
Attempts-exhausted (refuses h f) q t = cc
Attempts-exhausted (gives_up h f) q t = refl
Attempts-exhausted (retries h f a) q t = ap suc (Attempts-exhausted a q t)

module _ (R : Retrier) (L : RetrierLaws R) where
  pub length-delays : (p : RetryPolicy R) → length (delays R p) ≤ p.max_retries
  unfolding delays
  length-delays p = elim (Option-cases p.backoff) [
    | inl e ↦ rw (e, delays, length-replicate {A = ℕ} p.max_retries 0) (omega arith)
    | inr (b, e) ↦ rw (e, delays) (L.build_length b p.max_retries)
  ]

  no_backoff : (p : RetryPolicy R) → p.backoff ≡ none → delays R p ≡ replicate p.max_retries 0
  unfolding delays
  no_backoff p e = rw e refl

  module _ (S T : Type 0) (wait : ℕ → S → S) (attempt : S → S × Result T) where
    outcome :
        (s : S)
        → ((s' : S) × (v : T) × (attempt s ≡ (s', ok v)))
          ⊎ ((s' : S) × (e : Error) × (attempt s ≡ (s', err e)))
    outcome s = elim (Result-cases (attempt s).1) [
      | inl (v, e) ↦ inl ((attempt s).0, v, ap (λ r. ((attempt s).0, r)) e)
      | inr (f, e) ↦ inr ((attempt s).0, f, ap (λ r. ((attempt s).0, r)) e)
    ]

    abbrev Ends : List ℕ → S → S × Result T → Type 0
    Ends ds s end = (n : ℕ) × Attempts wait attempt ds s n end.0 end.1

    -- The attempts that the retry loop makes over a list of delays.
    pub retry-Attempts :
        (ds : List ℕ) (s : S) → Ends ds s (R.retry S T ds wait is_retryable attempt s)
    retry-Attempts [] s = elim (outcome s) [
      | inl (s', v, e) ↦ rw (L.succeeded S T [] wait is_retryable attempt s s' v e) (1, succeeds e)
      | inr (s', f, e) ↦ rw (L.exhausted S T wait is_retryable attempt s s' f e) (
        1,
        elim (Bool-cases (is_retryable f)) [
          | inl transient ↦ gives_up e transient
          | inr definitive ↦ refuses e definitive
        ],
      )
    ]
    retry-Attempts (d ∷ ds) s = elim (outcome s) [
      | inl (s', v, e) ↦
          rw (L.succeeded S T (d ∷ ds) wait is_retryable attempt s s' v e) (1, succeeds e)
      | inr (s', f, e) ↦ elim (Bool-cases (is_retryable f)) [
        | inl transient ↦
            let (n, later) = retry-Attempts ds (wait d s') in
            rw (L.again S T d ds wait is_retryable attempt s s' f e transient)
              (suc n, retries e transient later)
        | inr definitive ↦
            rw (L.refused S T (d ∷ ds) wait is_retryable attempt s s' f e definitive)
              (1, refuses e definitive)
      ]
    ]

  -- Under backon's documented behaviour, a run makes the attempts of the diagram: it returns the
  -- first result that is a success or a definitive failure, or the failure that is left when the
  -- retries are used up. It makes at least one attempt and at most one more than the policy's delays,
  -- of which there are at most `max_retries`; and when it ends with a transient failure it has made
  -- exactly one more than the delays. Without a backoff the delays are `max_retries` zeros.
  pub run-Attempts :
      (S T : Type 0) (p : RetryPolicy R) (timer : ℕ → S → S) (attempt : S → S × Result T) (s : S)
      → let (s', r) = run R S T p timer attempt s in
        (n : ℕ) × Attempts (sleep R timer) attempt (delays R p) s n s' r
        × (1 ≤ n)
        × (n ≤ suc (length (delays R p)))
        × (length (delays R p) ≤ p.max_retries)
        × ((p.backoff ≡ none) → delays R p ≡ replicate p.max_retries 0)
        × ((e : Error) → r ≡ err e → is_retryable e ≡ true → n ≡ suc (length (delays R p)))
  unfolding run
  run-Attempts S T p timer attempt s =
      let (n, made) = retry-Attempts S T (sleep R timer) attempt (delays R p) s in
      let (lo, hi) = Attempts-bound made in
      (n, made, lo, hi, length-delays p, no_backoff p, λ e q t. Attempts-exhausted made q t)
