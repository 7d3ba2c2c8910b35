-- ===== src/Proxy/Builders/SeedPeerNames.antt =====
-- client-request/rust/src/lib.rs: which lists of seed peers are valid.
use dragonfly_sdk.Base.{
  ◌≡◌, refl, ◌↔◌, inl, inr, false, List, [], ◌∷◌, map, arith, Bool-cases, is_empty, All, Text,
  text_eq_iff, contains, Distinct, split,
}
use dragonfly_sdk.Errors.{Error, Result, ok, err, fail_if, >>=-ok}
use dragonfly_sdk.Selector.{SeedPeer}
use dragonfly_sdk.Proxy.Builders.{check_names, validate_seed_peers}

abbrev host_names : List SeedPeer → List Text
host_names ps = map (λ p. p.host.name) ps

abbrev pub HasName : SeedPeer → Type 0
HasName p = is_empty p.host.name ≡ false

abbrev Fresh : List Text → SeedPeer → Type 0
Fresh names p = contains p.host.name names ≡ false

Fresh-cons :
    (n : Text) (names : List Text) (ps : List SeedPeer)
    → All (Fresh (n ∷ names)) ps ↔ ((contains n (host_names ps) ≡ false) × All (Fresh names) ps)
unfolding contains
Fresh-cons n names [] = (λ _. (refl, tt), λ _. tt)
Fresh-cons n names (p ∷ ps) =
    let (to, from) = Fresh-cons n names ps in
    let same = text_eq_iff n p.host.name in
    let same' = text_eq_iff p.host.name n in
    (
      λ (h, hs). let (away, fresh) = to hs in (ground arith, (ground arith, fresh)),
      λ (away, (h, fresh)). (ground arith, from (ground arith, fresh)),
    )

abbrev AllNew : List Text → List SeedPeer → Type 0
AllNew names ps = All HasName ps × Distinct (host_names ps) × All (Fresh names) ps

refuse : {e : Error} {X : Type 0} → Path (Result (Unit {0})) (err e) (ok tt) → X
refuse h = cc

none_taken : (ps : List SeedPeer) → All (Fresh []) ps
unfolding contains
none_taken [] = tt
none_taken (p ∷ ps) = (refl, none_taken ps)

check_names_iff :
    (names : List Text) (ps : List SeedPeer) → (check_names names ps ≡ ok tt) ↔ AllNew names ps
unfolding check_names
check_names_iff names [] = (λ _. (tt, tt, tt), λ _. refl)
check_names_iff names (p ∷ ps) =
    let (to, from) = check_names_iff (p.host.name ∷ names) ps in
    let (split, join) = Fresh-cons p.host.name names ps in
    elim (Bool-cases (is_empty p.host.name)) [
      | inl nameless ↦ (λ h. refuse (rw (nameless, check_names) at h), λ h. let named = h.0.0 in cc)
      | inr named ↦ elim (Bool-cases (contains p.host.name names)) [
        | inl known ↦
            (λ h. refuse (rw (named, check_names, known) at h), λ h. let new = h.2.0 in cc)
        | inr fresh ↦ (
          λ h.
              let (names_ok, distinct, new) = to (rw (named, check_names, fresh) at h) in
              let (away, others) = split new in
              ((named, names_ok), (away, distinct), (fresh, others)),
          λ h. rw (named, check_names, fresh) (from (h.0.1, h.1.1, join (h.1.0, h.2.1))),
        )
      ]
    ]

-- The seed peers are valid exactly when there is one, each has a name, and no name occurs twice:
-- then each has its own place in the hash ring, which goes by the name.
pub validate_seed_peers_iff :
    (ps : List SeedPeer)
    → (validate_seed_peers ps ≡ ok tt)
      ↔ ((is_empty ps ≡ false) × All HasName ps × Distinct (host_names ps))
unfolding validate_seed_peers
validate_seed_peers_iff ps = (
  λ h.
      let (_, some_peer, valid) = >>=-ok (fail_if (is_empty ps) _) _ h in
      let (named, distinct, _) = (check_names_iff [] ps).0 valid in
      (ground (arith, some_peer), named, distinct),
  λ (some_peer, named, distinct).
      rw some_peer ((check_names_iff [] ps).1 (named, distinct, none_taken ps)),
)
