-- ===== src/Url/Canonical/Order.antt =====
-- client-request/rust/src/url.rs: the order of the keys, and the stable sort by it.
use dragonfly_sdk.Base.{
  ◌≡◌, refl, ◌∙◌, inl, inr, true, List, [], ◌∷◌, arith, Bool-cases, filter, All, Text, text_eq,
  text_eq_iff, text_le, text_le_total, text_le_trans, text_le_refl,
}
use dragonfly_sdk.Url.{insert_pair, sort_pairs}

-- Every key is at least `k`.
abbrev pub AllFrom : Text → List (Text × Text) → Type 0
AllFrom k ps = All (λ p. text_le k p.0 ≡ true) ps

abbrev pub IsSorted : List (Text × Text) → Type 0
IsSorted [] = Unit
IsSorted (p ∷ ps) = AllFrom p.0 ps × IsSorted ps

AllFrom-mono :
    (j k : Text) (ps : List (Text × Text)) → text_le j k ≡ true → AllFrom k ps → AllFrom j ps
AllFrom-mono j k [] h a = tt
AllFrom-mono j k (p ∷ ps) h a = (text_le_trans j k p.0 h a.0, AllFrom-mono j k ps h a.1)

insert_pair-AllFrom :
    (k : Text) (p : Text × Text) (ps : List (Text × Text))
    → text_le k p.0 ≡ true
    → AllFrom k ps
    → AllFrom k (insert_pair p ps)
unfolding insert_pair
insert_pair-AllFrom k p [] h a = (h, tt)
insert_pair-AllFrom k p (q ∷ qs) h a = ground (arith, insert_pair-AllFrom k p qs h a.1)

insert_pair-IsSorted :
    (p : Text × Text) (ps : List (Text × Text)) → IsSorted ps → IsSorted (insert_pair p ps)
unfolding insert_pair
insert_pair-IsSorted p [] s = (tt, tt)
insert_pair-IsSorted p (q ∷ qs) s = elim (Bool-cases (text_le p.0 q.0)) [
  | inl le ↦ rw le ((le, AllFrom-mono p.0 q.0 qs le s.0), s)
  | inr gt ↦
      rw gt
        (insert_pair-AllFrom q.0 p qs (text_le_total p.0 q.0 gt) s.0, insert_pair-IsSorted p qs s.1)
]

pub sort_pairs-IsSorted : (ps : List (Text × Text)) → IsSorted (sort_pairs ps)
unfolding sort_pairs
sort_pairs-IsSorted [] = tt
sort_pairs-IsSorted (p ∷ ps) = insert_pair-IsSorted p (sort_pairs ps) (sort_pairs-IsSorted ps)

-- The pairs of one key, in their order.
abbrev pub with_key : Text → List (Text × Text) → List (Text × Text)
with_key k ps = filter (λ p. text_eq k p.0) ps

insert_pair-with_key :
    (k : Text) (p : Text × Text) (ps : List (Text × Text))
    → with_key k (insert_pair p ps) ≡ with_key k (p ∷ ps)
unfolding insert_pair
insert_pair-with_key k p [] = refl
insert_pair-with_key k p (q ∷ qs) =
    ground
      (arith, insert_pair-with_key k p qs, text_eq_iff k p.0, text_eq_iff k q.0, text_le_refl k)

-- The sort keeps the pairs of each key, in their order.
pub sort_pairs-with_key :
    (k : Text) (ps : List (Text × Text)) → with_key k (sort_pairs ps) ≡ with_key k ps
unfolding sort_pairs
sort_pairs-with_key k [] = refl
sort_pairs-with_key k (p ∷ ps) =
    insert_pair-with_key k p (sort_pairs ps) ∙ ground (arith, sort_pairs-with_key k ps)
