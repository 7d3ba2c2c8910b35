-- ===== src/Http/Params.antt =====
-- client-request/rust/src/http.rs: the deduplication of the filtered query parameters.
use dragonfly_sdk.Base.{
  ◌≡◌, refl, sym, ◌∙◌, false, ◌||◌, List, [], ◌∷◌, ◌++◌, arith, Text, text_eq_iff, contains,
  Distinct, Bool-cases, inl, inr,
}
use dragonfly_sdk.Http.{dedupe}

pub contains-append :
    (k : Text) (xs ys : List Text) → contains k (xs ++ ys) ≡ (contains k xs || contains k ys)
unfolding contains
contains-append k [] ys = refl
contains-append k (x ∷ xs) ys = ground (arith, contains-append k xs ys)

pub Distinct-concat :
    (xs : List Text) (k : Text) → Distinct xs → contains k xs ≡ false → Distinct (xs ++ k ∷ [])
unfolding contains
Distinct-concat [] k h n = (refl, tt)
Distinct-concat (x ∷ xs) k h n = ground (
  arith,
  Distinct-concat xs k h.1,
  contains-append x xs (k ∷ []),
  text_eq_iff x k,
  text_eq_iff k x,
)

-- Both lists of the loop hold the same names.
Agree : List Text → List Text → Type 0
Agree visited params = (k : Text) → contains k visited ≡ contains k params

Agree-extend :
    (visited params : List Text) (p : Text)
    → Agree visited params
    → Agree (p ∷ visited) (params ++ p ∷ [])
unfolding contains Agree
Agree-extend visited params p h k = ground (arith, h k, contains-append k params (p ∷ []))

Agree-at :
    (visited params : List Text)
    → Agree visited params
    → (k : Text) → contains k visited ≡ contains k params
unfolding Agree
Agree-at visited params h = h

dedupe-Distinct :
    (visited params ps : List Text)
    → Agree visited params
    → Distinct params
    → Distinct (dedupe visited params ps)
unfolding dedupe
dedupe-Distinct visited params [] h d = d
dedupe-Distinct visited params (p ∷ ps) h d = elim (Bool-cases (contains p visited)) [
  | inl old ↦ rw (old, dedupe) (dedupe-Distinct visited params ps h d)
  | inr new ↦
      rw (new, dedupe)
        (dedupe-Distinct (p ∷ visited) (params ++ p ∷ []) ps (Agree-extend visited params p h)
          (Distinct-concat params p d (sym (Agree-at visited params h p) ∙ new)))
]

contains-dedupe :
    (visited params ps : List Text)
    → Agree visited params
    → (k : Text) → contains k (dedupe visited params ps) ≡ (contains k params || contains k ps)
unfolding dedupe contains
contains-dedupe visited params [] h k = ground arith
contains-dedupe visited params (p ∷ ps) h k = elim (Bool-cases (contains p visited)) [
  | inl old ↦
      rw (old, dedupe)
        (ground (
          arith,
          contains-dedupe visited params ps h k,
          text_eq_iff p k,
          Agree-at visited params h p,
        ))
  | inr new ↦
      rw (new, dedupe)
        (ground (
          arith,
          contains-dedupe (p ∷ visited) (params ++ p ∷ []) ps (Agree-extend visited params p h) k,
          contains-append k params (p ∷ []),
        ))
]

-- The list of default parameters is made by this loop: it names each text of the given list, and
-- no other, exactly once.
dedupe_lem :
    (ps : List Text)
    → Distinct (dedupe [] [] ps) × ((k : Text) → contains k (dedupe [] [] ps) ≡ contains k ps)
unfolding Agree contains
dedupe_lem ps =
    (dedupe-Distinct [] [] ps (λ k. refl) tt, λ k. contains-dedupe [] [] ps (λ j. refl) k)
