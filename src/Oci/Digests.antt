-- ===== src/Oci/Digests.antt =====
-- client-request/rust/src/oci.rs: `blob_digests` is a set in order.
use dragonfly_sdk.Base.{
  ◌≡◌, refl, sym, ap, ap₂, ◌∙◌, inl, inr, true, false, ◌||◌, List, [], ◌∷◌, arith, Bool-cases, All,
  Text, text_eq, text_eq_refl, text_eq_iff, contains, text_le, text_le_antisymm, text_le_total,
  text_le_trans, text_le_refl,
}
use dragonfly_sdk.Oci.{Manifest, insert_digest, digest_set, blob_digests}

-- Every element is above `k`.
abbrev pub AllAbove : Text → List Text → Type 0
AllAbove k ks = All (λ j. (text_le k j ≡ true) × (text_eq k j ≡ false)) ks

-- In strictly increasing order.
abbrev pub IsIncreasing : List Text → Type 0
IsIncreasing [] = Unit
IsIncreasing (k ∷ ks) = AllAbove k ks × IsIncreasing ks

contains-insert_digest :
    (k j : Text) (ks : List Text) → contains j (insert_digest k ks) ≡ (text_eq k j || contains j ks)
unfolding contains insert_digest
contains-insert_digest k j [] = refl
contains-insert_digest k j (i ∷ is) =
    ground (arith, contains-insert_digest k j is, text_eq_iff i k, text_eq_iff i j, text_eq_iff k j)

contains-digest_set : (j : Text) (ks : List Text) → contains j (digest_set ks) ≡ contains j ks
unfolding contains digest_set
contains-digest_set j [] = refl
contains-digest_set j (k ∷ ks) =
    contains-insert_digest k j (digest_set ks)
    ∙ ap (λ b. text_eq k j || b) (contains-digest_set j ks)

AllAbove-trans :
    (k j : Text) (ks : List Text)
    → text_le k j ≡ true
    → text_eq k j ≡ false
    → AllAbove j ks
    → AllAbove k ks
AllAbove-trans k j [] le ne h = tt
AllAbove-trans k j (i ∷ is) le ne ((le_i, ne_i), h) = (
  (
    text_le_trans k j i le le_i,
    ground (
      arith,
      text_eq_iff k i,
      text_eq_iff k j,
      text_eq_iff j i,
      text_le_antisymm k j,
      text_le_antisymm j i,
    ),
  ),
  AllAbove-trans k j is le ne h,
)

insert_digest-AllAbove :
    (j k : Text) (ks : List Text)
    → text_le j k ≡ true
    → text_eq j k ≡ false
    → AllAbove j ks
    → AllAbove j (insert_digest k ks)
unfolding insert_digest
insert_digest-AllAbove j k [] le ne h = ((le, ne), tt)
insert_digest-AllAbove j k (i ∷ is) le ne (h, hs) =
    ground (arith, insert_digest-AllAbove j k is le ne hs)

insert_digest-IsIncreasing :
    (k : Text) (ks : List Text) → IsIncreasing ks → IsIncreasing (insert_digest k ks)
unfolding insert_digest
insert_digest-IsIncreasing k [] h = (tt, tt)
insert_digest-IsIncreasing k (j ∷ js) (above, h) = elim (Bool-cases (text_eq j k)) [
  | inl same ↦ rw same (above, h)
  | inr other ↦ elim (Bool-cases (text_le k j)) [
    | inl le ↦
        let ne : text_eq k j ≡ false = ground (arith, text_eq_iff j k, text_eq_iff k j) in
        rw (other, le) (((le, ne), AllAbove-trans k j js le ne above), (above, h))
    | inr gt ↦
        rw (other, gt)
          (
            insert_digest-AllAbove j k js (text_le_total k j gt) other above,
            insert_digest-IsIncreasing k js h,
          )
  ]
]

digest_set-IsIncreasing : (ks : List Text) → IsIncreasing (digest_set ks)
unfolding digest_set
digest_set-IsIncreasing [] = tt
digest_set-IsIncreasing (k ∷ ks) =
    insert_digest-IsIncreasing k (digest_set ks) (digest_set-IsIncreasing ks)

abbrev pub SameSet : List Text → List Text → Type 0
SameSet ks js = (k : Text) → contains k ks ≡ contains k js

above_absent : (k : Text) (ks : List Text) → AllAbove k ks → contains k ks ≡ false
unfolding contains
above_absent k [] h = refl
above_absent k (j ∷ js) h = ground (arith, above_absent k js, text_eq_iff j k, text_eq_iff k j)

-- What stands in a list above `k` is at least `k`.
le_of_contains :
    (k j : Text) (ks : List Text) → AllAbove k ks → contains j ks ≡ true → text_le k j ≡ true
unfolding contains
le_of_contains k j [] h c = cc
le_of_contains k j (i ∷ is) h c = ground (arith, le_of_contains k j is h.1, text_eq_iff i j)

heads_agree :
    (k j : Text) (ks js : List Text)
    → IsIncreasing (k ∷ ks)
    → IsIncreasing (j ∷ js)
    → SameSet (k ∷ ks) (j ∷ js)
    → k ≡ j
unfolding contains
heads_agree k j ks js (a, _) (b, _) same =
    text_le_antisymm k j
      (ground
        (arith, same j, text_eq_refl j, text_eq_iff k j, text_le_refl k, le_of_contains k j ks))
      (ground
        (arith, same k, text_eq_refl k, text_eq_iff j k, text_le_refl j, le_of_contains j k js))

-- Two increasing lists of the same texts are equal.
increasing_unique :
    (ks js : List Text) → IsIncreasing ks → IsIncreasing js → SameSet ks js → ks ≡ js
unfolding contains
increasing_unique [] [] h g same = refl
increasing_unique [] (j ∷ js) h g same = ground (arith, same j, text_eq_refl j)
increasing_unique (k ∷ ks) [] h g same = ground (arith, same k, text_eq_refl k)
increasing_unique (k ∷ ks) (j ∷ js) h g same =
    let head = heads_agree k j ks js h g same in
    ap₂ ◌∷◌ head (
      increasing_unique ks js h.1 g.1 (λ i.
        ground
          (arith, same i, text_eq_iff k i, text_eq_iff j i, above_absent k ks, above_absent j js)))

-- The digests of a manifest are those of its config and layers, each once, in increasing order; and
-- two manifests that name the same digests, in any order and however often, yield the same list.
pub blob_digests_lem :
    (m n : Manifest)
    → SameSet (m.config ∷ m.layers) (n.config ∷ n.layers)
    → IsIncreasing (blob_digests m)
      × SameSet (blob_digests m) (m.config ∷ m.layers)
      × (blob_digests m ≡ blob_digests n)
unfolding blob_digests
blob_digests_lem m n same = (
  digest_set-IsIncreasing (m.config ∷ m.layers),
  λ k. contains-digest_set k (m.config ∷ m.layers),
  increasing_unique (digest_set (m.config ∷ m.layers)) (digest_set (n.config ∷ n.layers))
      (digest_set-IsIncreasing (m.config ∷ m.layers))
      (digest_set-IsIncreasing (n.config ∷ n.layers))
      (λ k.
        contains-digest_set k (m.config ∷ m.layers)
        ∙ same k
        ∙ sym (contains-digest_set k (n.config ∷ n.layers))),
)
