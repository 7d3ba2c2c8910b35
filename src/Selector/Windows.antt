-- ===== src/Selector/Windows.antt =====
-- client-request/rust/src/selector.rs: the seed peers of one window of virtual nodes, and what a
-- walk round the whole ring would give.
use mathlib.Core.List.{append_assoc, append-nil}
use dragonfly_sdk.Base.{
  ℕ, zero, suc, ◌+◌, ◌-◌, ◌≤◌, ◌<◌, ◌≡◌, refl, sym, ap, ◌∙◌, ◌⊎◌, inl, inr, true, false, none, some,
  List, [], ◌∷◌, ◌++◌, arith, ◌==◌, ==_iff, Bool-cases, Option-cases, length, take, drop,
  length-append, take-append-drop, take_all, take-append_full, filter_map, Text, contains, TextMap,
  lookup,
}
use dragonfly_sdk.Selector.{SeedPeer, collect}

-- The first occurrences of the names that were not seen before.
unfoldable pub fresh : List Text → List Text → List Text
fresh seen [] = []
fresh seen (v ∷ vs) = elim (contains v seen) [
  | true ↦ fresh seen vs
  | false ↦ v ∷ fresh (v ∷ seen) vs
]

-- The seed peers of the names that have one.
abbrev pub present : TextMap SeedPeer → List Text → List SeedPeer
present hosts names = filter_map (λ n. lookup n hosts) names

present-append :
    (hosts : TextMap SeedPeer) (xs ys : List Text)
    → present hosts (xs ++ ys) ≡ present hosts xs ++ present hosts ys
present-append hosts [] ys = refl
present-append hosts (x ∷ xs) ys = ground (arith, present-append hosts xs ys)

-- What is fresh in a longer list extends what is fresh in its prefix.
fresh-append :
    (seen xs ys : List Text) → (zs : List Text) × (fresh seen (xs ++ ys) ≡ fresh seen xs ++ zs)
unfolding fresh
fresh-append seen [] ys = (fresh seen ys, refl)
fresh-append seen (x ∷ xs) ys = elim (Bool-cases (contains x seen)) [
  | inl old ↦ let (zs, e) = fresh-append seen xs ys in (zs, rw (old, fresh) e)
  | inr new ↦ let (zs, e) = fresh-append (x ∷ seen) xs ys in (zs, rw (new, fresh) (ap (◌∷◌ x) e))
]

take_one {ℓ} :
    {A : Type ℓ} (k n : ℕ) (x : A) (xs : List A) → k ≡ suc n → take k (x ∷ xs) ≡ x ∷ take n xs
take_one k n x xs e = rw e

module _ (hosts : TextMap SeedPeer) where
  present_unknown :
      (v : Text) (ns : List Text)
      → lookup v hosts ≡ none
      → present hosts (v ∷ ns) ≡ present hosts ns
  present_unknown v ns e = ground arith

  present_known :
      (v : Text) (ns : List Text) (p : SeedPeer)
      → lookup v hosts ≡ some p
      → present hosts (v ∷ ns) ≡ p ∷ present hosts ns
  present_known v ns p e = ground arith

module _ (hosts : TextMap SeedPeer) (expected : ℕ) where
  -- What a window that starts with these seed peers should give.
  abbrev quota : List SeedPeer → List SeedPeer → List SeedPeer
  quota found ps = found ++ take (expected - length found) ps

  quota_cons :
      (found : List SeedPeer) (p : SeedPeer) (ps : List SeedPeer)
      → length found < expected
      → quota found (p ∷ ps) ≡ quota (found ++ p ∷ []) ps
  quota_cons found p ps h =
      let n = expected - length (found ++ p ∷ []) in
      let size : expected - length found ≡ suc n = omega (arith, length-append found (p ∷ [])) in
      ap (◌++◌ found) (take_one (expected - length found) n p ps size)
      ∙ sym (append_assoc found (p ∷ []) (take n ps))

  quota_full :
      (found : List SeedPeer) (ps : List SeedPeer)
      → expected ≤ length found
      → quota found ps ≡ found
  quota_full found ps h =
      let none_left : expected - length found ≡ 0 = omega arith in rw none_left (append-nil found)

  quota_nil : (found : List SeedPeer) → quota found [] ≡ found
  quota_nil found = ap (◌++◌ found) (nothing (expected - length found)) ∙ append-nil found
    where
      nothing : (n : ℕ) → take {A = SeedPeer} n [] ≡ []
      nothing zero = refl
      nothing (suc n) = refl

  -- One window: the seed peers of its fresh names, as many as are still expected.
  collect_lem :
      (seen : List Text) (found : List SeedPeer) (vnodes : List Text)
      → length found < expected
      → collect hosts expected seen found vnodes ≡ quota found (present hosts (fresh seen vnodes))
  unfolding collect fresh
  collect_lem seen found [] h = sym (quota_nil found)
  collect_lem seen found (v ∷ vs) h = elim (Bool-cases (contains v seen)) [
    | inl old ↦ rw (old, collect, fresh) (collect_lem seen found vs h)
    | inr new ↦ elim (Option-cases (lookup v hosts)) [
      | inl unknown ↦
          rw (new, unknown, collect, fresh)
            (collect_lem (v ∷ seen) found vs h
              ∙ ap (quota found) (sym (present_unknown hosts v _ unknown)))
      | inr (p, known) ↦
          let later = fresh (v ∷ seen) vs in
          let step =
            ap (quota found) (present_known hosts v later p known)
            ∙ quota_cons found p (present hosts later) h in
          elim (Bool-cases (length (found ++ p ∷ []) == expected)) [
            | inl full ↦
                rw (new, known, full, collect, fresh)
                  (sym (
                    step
                    ∙ quota_full (found ++ p ∷ []) (present hosts later)
                        (omega (arith, (==_iff (length (found ++ p ∷ [])) expected).0 full))))
            | inr more ↦
                rw (new, known, more, collect, fresh)
                  (collect_lem (v ∷ seen) (found ++ p ∷ []) vs
                      (not_full (length (found ++ p ∷ [])) (length-append found (p ∷ [])) h more)
                    ∙ sym step)
          ]
    ]
  ]
    where
      not_full : (n : ℕ) {m : ℕ} → n ≡ m + 1 → m < expected → (n == expected) ≡ false → n < expected
      not_full n e lt ne = ground arith

-- The independent description of the replicas: the seed peers of the distinct names along one walk
-- round the ring, the first `expected` of them.
unfoldable pub replicas_along : TextMap SeedPeer → ℕ → List Text → List SeedPeer
unfolding fresh
replicas_along hosts expected walk = take expected (present hosts (fresh [] walk))

module _ (hosts : TextMap SeedPeer) (expected : ℕ) (some_expected : 0 < expected) where
  pub collect_walk :
      (vnodes : List Text)
      → collect hosts expected [] [] vnodes ≡ replicas_along hosts expected vnodes
  unfolding replicas_along
  collect_walk vnodes =
      collect_lem hosts expected [] [] vnodes (omega arith)
      ∙ ap (λ n. take n (present hosts (fresh [] vnodes))) (omega arith)

  -- A prefix of the walk that already gives enough gives what the walk gives.
  pub prefix_full :
      (xs ys : List Text)
      → length (replicas_along hosts expected xs) ≡ expected
      → replicas_along hosts expected xs ≡ replicas_along hosts expected (xs ++ ys)
  unfolding replicas_along
  prefix_full xs ys full =
      let (zs, e) = fresh-append [] xs ys in
      sym (
        ap (λ ns. take expected (present hosts ns)) e
        ∙ ap (take expected) (present-append hosts (fresh [] xs) zs)
        ∙ take-append_full expected (present hosts (fresh [] xs)) (present hosts zs) full)

  -- So does a window that holds the whole ring.
  pub window_walk_eq :
      (walk : List Text) (n : ℕ)
      → (length (replicas_along hosts expected (take n walk)) ≡ expected) ⊎ (length walk ≤ n)
      → replicas_along hosts expected (take n walk) ≡ replicas_along hosts expected walk
  window_walk_eq walk n (inl full) =
      prefix_full (take n walk) (drop n walk) full
      ∙ ap (replicas_along hosts expected) (take-append-drop n walk)
  window_walk_eq walk n (inr covered) = ap (replicas_along hosts expected) (take_all n walk covered)
