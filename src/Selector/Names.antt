-- ===== src/Selector/Names.antt =====
-- The names of seed peers, and how the steps of `select` keep them distinct.
use dragonfly_sdk.Base.{
  ℕ, zero, suc, ◌≡◌, refl, inl, inr, Bool, false, ◌&&◌, not, some, List, [], ◌∷◌, map, arith,
  Bool-cases, Option-cases, take, filter, All, Text, text_eq_refl, text_eq_iff, contains, Distinct,
  TextMap, lookup, contains_key,
}
use dragonfly_sdk.Selector.{SeedPeer}
use dragonfly_sdk.Selector.Windows.{fresh, present}
use dragonfly_sdk.Selector.Synced.{IsNamed}

abbrev pub names : List SeedPeer → List Text
names ps = map (λ p. p.host.name) ps

pub contains-fresh :
    (k : Text) (seen vs : List Text)
    → contains k (fresh seen vs) ≡ (contains k vs && not (contains k seen))
unfolding fresh contains
contains-fresh k seen [] = refl
contains-fresh k seen (v ∷ vs) = elim (Bool-cases (contains v seen)) [
  | inl old ↦ rw (old, fresh) (ground (arith, contains-fresh k seen vs, text_eq_iff v k))
  | inr new ↦ rw (new, fresh) (ground (arith, contains-fresh k (v ∷ seen) vs, text_eq_iff v k))
]

pub fresh-Distinct : (seen vs : List Text) → Distinct (fresh seen vs)
unfolding fresh contains
fresh-Distinct seen [] = tt
fresh-Distinct seen (v ∷ vs) = elim (Bool-cases (contains v seen)) [
  | inl old ↦ rw (old, fresh) (fresh-Distinct seen vs)
  | inr new ↦
      rw (new, fresh)
        (
          ground (arith, contains-fresh v (v ∷ seen) vs, text_eq_refl v),
          fresh-Distinct (v ∷ seen) vs,
        )
]

module _ (hosts : TextMap SeedPeer) (v : IsNamed hosts) where
  pub contains-names-present :
      (k : Text) (ns : List Text)
      → contains k (names (present hosts ns)) ≡ (contains k ns && contains_key k hosts)
  unfolding contains
  contains-names-present k [] = refl
  contains-names-present k (n ∷ ns) = elim (Option-cases (lookup n hosts)) [
    | inl unknown ↦ ground (arith, contains-names-present k ns, text_eq_iff n k)
    | inr (p, known) ↦
        let name = v.named n p known in ground (arith, contains-names-present k ns, text_eq_iff n k)
  ]

  pub present-Distinct : (ns : List Text) → Distinct ns → Distinct (names (present hosts ns))
  present-Distinct [] d = tt
  present-Distinct (n ∷ ns) d = elim (Option-cases (lookup n hosts)) [
    | inl unknown ↦ ground (arith, present-Distinct ns d.1)
    | inr (p, known) ↦
        let name = v.named n p known in
        ground (arith, present-Distinct ns d.1, contains-names-present n ns)
  ]

  -- Each seed peer that is found stands under its name.
  abbrev pub IsKnown : SeedPeer → Type 0
  IsKnown p = lookup p.host.name hosts ≡ some p

  pub present-IsKnown : (ns : List Text) → All IsKnown (present hosts ns)
  present-IsKnown [] = tt
  present-IsKnown (n ∷ ns) = elim (Option-cases (lookup n hosts)) [
    | inl unknown ↦ ground (arith, present-IsKnown ns)
    | inr (p, known) ↦ let name = v.named n p known in ground (arith, present-IsKnown ns)
  ]

contains-take :
    (k : Text) (n : ℕ) (ps : List SeedPeer)
    → contains k (names ps) ≡ false
    → contains k (names (take n ps)) ≡ false
unfolding contains
contains-take k zero ps h = refl
contains-take k (suc n) [] h = refl
contains-take k (suc n) (p ∷ ps) h = ground (arith, contains-take k n ps)

pub take-Distinct :
    (n : ℕ) (ps : List SeedPeer) → Distinct (names ps) → Distinct (names (take n ps))
take-Distinct zero ps d = tt
take-Distinct (suc n) [] d = tt
take-Distinct (suc n) (p ∷ ps) d = (contains-take p.host.name n ps d.0, take-Distinct n ps d.1)

module _ (keep : SeedPeer → Bool) where
  contains-filter :
      (k : Text) (ps : List SeedPeer)
      → contains k (names ps) ≡ false
      → contains k (names (filter keep ps)) ≡ false
  unfolding contains
  contains-filter k [] h = refl
  contains-filter k (p ∷ ps) h = ground (arith, contains-filter k ps)

  pub filter-Distinct :
      (ps : List SeedPeer) → Distinct (names ps) → Distinct (names (filter keep ps))
  filter-Distinct [] d = tt
  filter-Distinct (p ∷ ps) d =
      ground (arith, contains-filter p.host.name ps d.0, filter-Distinct ps d.1)
