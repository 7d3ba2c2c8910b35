-- ===== src/Pool/Answers.antt =====
-- client-request/rust/src/pool.rs: what a call of `entry` answers and leaves, for every key.
use dragonfly_sdk.Base.{
  ℕ, ◌≡◌, refl, ap, ◌∙◌, inl, inr, Option, none, some, if◌then◌else◌, Bool-cases, Option-cases,
  Text, text_eq, Distinct, lookup, keys, lookup-insert,
}
use dragonfly_sdk.Errors.{Result, ok, err, Result-cases}
use dragonfly_sdk.Pool.{Pool, Entry, cleanup_idle_entries, reuse, or_insert, finish_entry, entry}
use dragonfly_sdk.Pool.Cleanup.{is_hot, kept, cleanup_lookup}

module _ {ℓ} {T : Type ℓ} where
  -- The answer: the client that was kept, used at the hit; or else the one that was made, used then;
  -- or else the failure to make one.
  abbrev pub answer : ℕ → ℕ → Option (Entry T) → Result T → Result (Entry T)
  answer hit made (some e) client = ok (record { client = e.client; actived_at = hit })
  answer hit made none (ok client) = ok (record { client = client; actived_at = made })
  answer hit made none (err failure) = err failure

  -- The entries afterwards: the answer under its key, and what was kept of the others.
  abbrev pub stored : Text → Result (Entry T) → (Text → Option (Entry T)) → Text → Option (Entry T)
  stored key (ok e) before k = if text_eq key k then some e else before k
  stored key (err failure) before k = before k

  pub record Answers (key : Text) (hit made : ℕ) (client : Result T)
      (before : Text → Option (Entry T)) (cleanup_at capacity idle_timeout : ℕ)
      (r : Result (Entry T)) (q : Pool T) : Type ℓ where
    pub answered : r ≡ answer hit made (before key) client
    pub left : (k : Text) → lookup k q.clients ≡ stored key r before k
    pub cleaned : q.cleanup_at ≡ cleanup_at
    pub same_capacity : q.capacity ≡ capacity
    pub same_timeout : q.idle_timeout ≡ idle_timeout

  finish-Answers :
      (make_client : Text → Result T) (c : Pool T) (key addr : Text) (hit made : ℕ)
      → let (r, q) = finish_entry make_client key addr made (reuse c key hit) in
        Answers key hit made
          (make_client addr)
          (λ k. lookup k c.clients)
          c.cleanup_at
          c.capacity
          c.idle_timeout
          r
          q
  unfolding reuse or_insert
  finish-Answers make_client c key addr hit made = elim (Option-cases (lookup key c.clients)) [
    | inr (e, found) ↦
        rw (found, reuse)
          (record {
            answered = rw found refl;
            left = λ k. lookup-insert key k _ c.clients;
            cleaned = refl;
            same_capacity = refl;
            same_timeout = refl;
          })
    | inl missing ↦
        rw (missing, reuse)
          (elim (Result-cases (make_client addr)) [
            | inl (client, made_it) ↦
                rw (made_it, finish_entry, missing)
                  (record {
                    answered = rw missing refl;
                    left = λ k. lookup-insert key k _ c.clients;
                    cleaned = refl;
                    same_capacity = refl;
                    same_timeout = refl;
                  })
            | inr (failure, failed) ↦
                rw (failed, finish_entry)
                  (record {
                    answered = rw missing refl;
                    left = λ k. refl;
                    cleaned = refl;
                    same_capacity = refl;
                    same_timeout = refl;
                  })
          ])
  ]

  abbrev pub cleanup_instant : Pool T → ℕ → ℕ
  cleanup_instant p now = if is_hot p now then p.cleanup_at else now

  cleanup_rest :
      (p : Pool T) (now : ℕ) (reads : Text → ℕ)
      → let c = cleanup_idle_entries p now reads in
        (c.cleanup_at ≡ cleanup_instant p now)
        × (c.capacity ≡ p.capacity)
        × (c.idle_timeout ≡ p.idle_timeout)
  unfolding cleanup_idle_entries
  cleanup_rest p now reads = elim (Bool-cases (is_hot p now)) [
    | inl hot ↦ rw (hot, cleanup_idle_entries) (refl, refl, refl)
    | inr due ↦ rw (due, cleanup_idle_entries) (refl, refl, refl)
  ]

  stored_same :
      (key : Text) (r : Result (Entry T)) (f g : Text → Option (Entry T)) (k : Text)
      → f k ≡ g k
      → stored key r f k ≡ stored key r g k
  stored_same key (err e) f g k h = h
  stored_same key (ok e) f g k h = ap (λ o. if text_eq key k then some e else o) h

  pub entry-Answers :
      (make_client : Text → Result T) (p : Pool T) (key addr : Text) (now : ℕ) (reads : Text → ℕ)
      (hit made : ℕ)
      → Distinct (keys p.clients)
      → let (r, q) = entry make_client p key addr now reads hit made in
        Answers key hit made
          (make_client addr)
          (kept p now reads)
          (cleanup_instant p now)
          p.capacity
          p.idle_timeout
          r
          q
  unfolding entry
  entry-Answers make_client p key addr now reads hit made d =
      let c = cleanup_idle_entries p now reads in
      let v = finish-Answers make_client c key addr hit made in
      let (at, capacity, timeout) = cleanup_rest p now reads in
      let r = (finish_entry make_client key addr made (reuse c key hit)).0 in
      record {
        answered =
            v.answered
            ∙ ap (λ o. answer hit made o (make_client addr)) (cleanup_lookup p now reads key d);
        left = λ k.
            v.left k
            ∙ stored_same key r (λ j. lookup j c.clients) (kept p now reads) k
                (cleanup_lookup p now reads k d);
        cleaned = v.cleaned ∙ at;
        same_capacity = v.same_capacity ∙ capacity;
        same_timeout = v.same_timeout ∙ timeout;
      }
