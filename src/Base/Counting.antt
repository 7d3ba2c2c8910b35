-- ===== src/Base/Counting.antt =====
-- Counting distinct texts: a list that holds as many distinct names as another is no shorter.
use Prim.Native.Nat.{suc, ◌≤◌}
use mathlib.Core.Path.{◌≡◌, refl, ◌∙◌}
use mathlib.Core.Logic.{inl, inr}
use mathlib.Core.Bool.{true, false}
use mathlib.Core.List.{List, [], ◌∷◌}
use native.Mathlib.Omega.{arith}
use dragonfly_sdk.Base.Tests.{if◌then◌else◌, Bool-cases}
use dragonfly_sdk.Base.Lists.{length}
use dragonfly_sdk.Base.Texts.{Text, text_eq, text_eq_iff, text_eq_refl, contains, Distinct}

abbrev erase : Text → List Text → List Text
erase k [] = []
erase k (j ∷ js) = let rest = j ∷ erase k js in if text_eq j k then js else rest

length-erase :
    (k : Text) (js : List Text) → contains k js ≡ true → suc (length (erase k js)) ≡ length js
unfolding contains
length-erase k [] h = cc
length-erase k (j ∷ js) h = ground (arith, length-erase k js)

contains-erase :
    (k i : Text) (js : List Text) → text_eq k i ≡ false → contains i (erase k js) ≡ contains i js
unfolding contains
contains-erase k i [] h = refl
contains-erase k i (j ∷ js) h =
    ground (arith, contains-erase k i js h, text_eq_iff j k, text_eq_iff j i, text_eq_iff k i)

-- Every name of one list stands in the other.
abbrev pub Within : List Text → List Text → Type 0
Within ks js = (k : Text) → contains k ks ≡ true → contains k js ≡ true

apart_of_Distinct :
    (k i : Text) (ks : List Text)
    → contains k ks ≡ false
    → contains i ks ≡ true
    → text_eq k i ≡ false
apart_of_Distinct k i ks h m = ground (arith, text_eq_iff k i)

pub length-Within : (ks js : List Text) → Distinct ks → Within ks js → length ks ≤ length js
unfolding contains
length-Within [] js d w = omega arith
length-Within (k ∷ ks) js d w =
    let here = w k (ground (arith, text_eq_refl k)) in
    let fewer = length-Within ks (erase k js) d.1 (λ i m. rest i m) in
    omega (arith, length-erase k js here, fewer)
  where
    rest : (i : Text) → contains i ks ≡ true → contains i (erase k js) ≡ true
    rest i m = contains-erase k i js (apart_of_Distinct k i ks d.0 m) ∙ w i (ground (arith, m))

-- Two lists of distinct names of one length: if one lies within the other, so does the other in it.
pub Within-symm :
    (ks js : List Text) → Distinct ks → Within ks js → length js ≤ length ks → Within js ks
unfolding contains
Within-symm ks js d w le k m = elim (Bool-cases (contains k ks)) [
  | inl held ↦ held
  | inr missing ↦ absurd (omega (arith, length-Within (k ∷ ks) js (missing, d) both))
]
  where
    both : Within (k ∷ ks) js
    both i h = ground (arith, w i, text_eq_iff k i, m)
