-- ===== src/Url/Canonical.antt =====
-- client-request/rust/src/url.rs: the canonical url does not depend on the order of parameters
-- with different keys, nor on filtered parameters.
pub mod Order
use dragonfly_sdk.Base.{
  ◌-◌, ◌/◌, ◌≡◌, refl, sym, ap₂, ◌∙◌, inr, true, false, not, Option, List, [], ◌∷◌, arith,
  unwrap_or, filter, is_empty, Text, text_eq_refl, text_eq_iff, keys, text_le, text_le_antisymm,
  text_le_refl,
}
use dragonfly_sdk.Errors.{Result, ok}
use dragonfly_sdk.Url.{
  parse_url, UrlApi, sort_pairs, retained_pairs, filter_query_params, has_empty_path,
}
use Order.{IsSorted, AllFrom, with_key, sort_pairs-IsSorted, sort_pairs-with_key}

Agree : List (Text × Text) → List (Text × Text) → Type 0
Agree ps qs = (k : Text) → with_key k ps ≡ with_key k qs

-- A key that stands in the list is at least the lower bound.
key_from :
    (k j : Text) (ps : List (Text × Text)) (p : Text × Text) (rest : List (Text × Text))
    → AllFrom j ps
    → with_key k ps ≡ p ∷ rest
    → text_le j k ≡ true
key_from k j [] p rest a e = cc
key_from k j (q ∷ qs) p rest a e = ground (arith, text_eq_iff k q.0, key_from k j qs p rest a.1)

same_head :
    (p q : Text × Text) (ps qs : List (Text × Text))
    → IsSorted (p ∷ ps)
    → IsSorted (q ∷ qs)
    → Agree (p ∷ ps) (q ∷ qs)
    → p.0 ≡ q.0
unfolding Agree
same_head p q ps qs s t a =
    text_le_antisymm p.0 q.0
      (key_from q.0 p.0 (p ∷ ps) q (with_key q.0 qs) (text_le_refl p.0, s.0)
        (ground (arith, a q.0, text_eq_refl q.0)))
      (key_from p.0 q.0 (q ∷ qs) p (with_key p.0 ps) (text_le_refl q.0, t.0)
        (ground (arith, a p.0, text_eq_refl p.0)))

tails-Agree :
    (p q : Text × Text) (ps qs : List (Text × Text))
    → p.0 ≡ q.0
    → Agree (p ∷ ps) (q ∷ qs)
    → (p ≡ q) × Agree ps qs
unfolding Agree
tails-Agree p q ps qs e a = (
  ground (arith, a p.0, text_eq_refl p.0),
  λ k. ground (arith, a k, text_eq_iff k p.0, text_eq_iff k q.0),
)

-- Sorted lists that agree on every key are equal: their heads have the same least key.
sorted_unique : (ps qs : List (Text × Text)) → IsSorted ps → IsSorted qs → Agree ps qs → ps ≡ qs
unfolding Agree
sorted_unique [] [] s t a = refl
sorted_unique [] (q ∷ qs) s t a = ground (arith, a q.0, text_eq_refl q.0)
sorted_unique (p ∷ ps) [] s t a = ground (arith, a p.0, text_eq_refl p.0)
sorted_unique (p ∷ ps) (q ∷ qs) s t a =
    let (head, tails) = tails-Agree p q ps qs (same_head p q ps qs s t a) a in
    ap₂ ◌∷◌ head (sorted_unique ps qs s.1 t.1 tails)

sort_pairs_unique : (ps qs : List (Text × Text)) → Agree ps qs → sort_pairs ps ≡ sort_pairs qs
unfolding Agree
sort_pairs_unique ps qs a =
    sorted_unique (sort_pairs ps) (sort_pairs qs) (sort_pairs-IsSorted ps) (sort_pairs-IsSorted qs)
      (λ k. sort_pairs-with_key k ps ∙ a k ∙ sym (sort_pairs-with_key k qs))

module _ (U : UrlApi) where
  -- Two urls are the same but for their queries: they parse, agree on whether the path is empty,
  -- and give the same url once the same query is set.
  pub record SameButQuery (s t : Text) (u v : U.Url) : Type 0 where
    pub parsed_left : U.parse s ≡ inr u
    pub parsed_right : U.parse t ≡ inr v
    pub same_path : has_empty_path s ≡ has_empty_path t
    pub same_rest : (q : Option Text) → U.set_query q u ≡ U.set_query q v

  -- Under a non-empty filter, two urls that are the same but for their queries have one canonical
  -- form if, for every key, their unfiltered parameters of that key are the same in the same order.
  pub filter_query_params_canonical :
      (s t : Text) (u v : U.Url) (filtered : List Text)
      → is_empty filtered ≡ false
      → SameButQuery s t u v
      → ((k : Text)
          → with_key k (retained_pairs U filtered (unwrap_or [] (U.query u)))
            ≡ with_key k (retained_pairs U filtered (unwrap_or [] (U.query v))))
      → filter_query_params U s filtered ≡ filter_query_params U t filtered
  unfolding filter_query_params Agree
  filter_query_params_canonical s t u v filtered used same agree = rw (
    used,
    parse_url,
    same.parsed_left,
    same.parsed_right,
    same.same_path,
    sort_pairs_unique _ _ agree,
    same.same_rest _,
  )
