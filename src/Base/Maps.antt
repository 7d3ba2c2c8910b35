-- ===== src/Base/Maps.antt =====
-- A hash map keyed by text, as an association list. An overwritten key keeps its place.
use mathlib.Core.Path.{◌≡◌, refl}
use mathlib.Core.Bool.{Bool, ◌||◌}
use mathlib.Core.Option.{Option, none, some}
use mathlib.Core.List.{List, [], ◌∷◌, map}
use native.Mathlib.Omega.{arith}
use dragonfly_sdk.Base.Tests.{if◌then◌else◌, is_some}
use dragonfly_sdk.Base.Texts.{Text, text_eq, text_eq_iff, text_eq_refl, contains, Distinct}

abbrev pub TextMap {ℓ} : Type ℓ → Type ℓ
TextMap V = List (Text × V)

module _ {ℓ} {V : Type ℓ} where
  unfoldable pub lookup : Text → TextMap V → Option V
  lookup k [] = none
  lookup k ((j, v) ∷ m) = if text_eq j k then some v else lookup k m

  unfoldable pub insert : Text → V → TextMap V → TextMap V
  insert k v [] = (k, v) ∷ []
  insert k v ((j, w) ∷ m) = if text_eq j k then (j, v) ∷ m else (j, w) ∷ insert k v m

  unfoldable pub remove : Text → TextMap V → TextMap V
  remove k [] = []
  remove k ((j, v) ∷ m) = let rest = remove k m in if text_eq j k then rest else (j, v) ∷ rest

  abbrev pub contains_key : Text → TextMap V → Bool
  contains_key k m = is_some (lookup k m)

  abbrev pub keys : TextMap V → List Text
  keys m = map (λ e. e.0) m

  abbrev pub values : TextMap V → List V
  values m = map (λ e. e.1) m

  pub lookup-insert :
      (k j : Text) (v : V) (m : TextMap V)
      → lookup j (insert k v m) ≡ (if text_eq k j then some v else lookup j m)
  unfolding lookup insert
  lookup-insert k j v [] = refl
  lookup-insert k j v ((i, w) ∷ m) =
      ground (arith, text_eq_iff k j, text_eq_iff i k, text_eq_iff i j, lookup-insert k j v m)

  pub lookup-remove :
      (k j : Text) (m : TextMap V)
      → lookup j (remove k m) ≡ (if text_eq k j then none else lookup j m)
  unfolding lookup remove
  lookup-remove k j [] = ground arith
  lookup-remove k j ((i, w) ∷ m) =
      ground (arith, text_eq_iff k j, text_eq_iff i k, text_eq_iff i j, lookup-remove k j m)

  pub lookup-insert_self : (k : Text) (v : V) (m : TextMap V) → lookup k (insert k v m) ≡ some v
  lookup-insert_self k v m = rw (lookup-insert, text_eq_refl k)

  -- The keys are the bound names.
  pub contains-keys : (k : Text) (m : TextMap V) → contains k (keys m) ≡ contains_key k m
  unfolding contains lookup
  contains-keys k [] = refl
  contains-keys k ((j, v) ∷ m) = ground (arith, contains-keys k m)

  pub contains-keys-insert :
      (k j : Text) (v : V) (m : TextMap V)
      → contains j (keys (insert k v m)) ≡ (text_eq k j || contains j (keys m))
  unfolding contains insert
  contains-keys-insert k j v [] = refl
  contains-keys-insert k j v ((i, w) ∷ m) =
      ground
        (arith, contains-keys-insert k j v m, text_eq_iff i k, text_eq_iff i j, text_eq_iff k j)

  pub insert-Distinct :
      (k : Text) (v : V) (m : TextMap V) → Distinct (keys m) → Distinct (keys (insert k v m))
  unfolding insert contains
  insert-Distinct k v [] h = (refl, tt)
  insert-Distinct k v ((i, w) ∷ m) h = ground (
    arith,
    insert-Distinct k v m h.1,
    contains-keys-insert k i v m,
    text_eq_iff i k,
    text_eq_iff k i,
  )
