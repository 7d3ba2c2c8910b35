-- ===== src/Base/Split.antt =====
-- Cutting a text at a byte, as `split_once`, `split` and `contains` of `str` do.
use Prim.Native.Nat.{ℕ}
use mathlib.Core.Path.{◌≡◌}
use mathlib.Core.Bool.{Bool, true, false, ◌||◌}
use mathlib.Core.Option.{Option, none, some}
use mathlib.Core.List.{List, [], ◌∷◌, ◌++◌}
use native.Mathlib.Omega.{arith}
use dragonfly_sdk.Base.Tests.{◌==◌, if◌then◌else◌}
use dragonfly_sdk.Base.Texts.{Text}

unfoldable pub has_byte : ℕ → Text → Bool
has_byte b [] = false
has_byte b (c ∷ s) = c == b || has_byte b s

abbrev prepend : ℕ → Option (Text × Text) → Option (Text × Text)
prepend c none = none
prepend c (some (l, r)) = some (c ∷ l, r)

-- At the first occurrence of one byte.
unfoldable pub split_once : ℕ → Text → Option (Text × Text)
split_once b [] = none
split_once b (c ∷ s) =
    let rest = prepend c (split_once b s) in if c == b then some ([], s) else rest

unfoldable pub starts_with : Text → Text → Bool
starts_with [] s = true
starts_with (p ∷ ps) [] = false
starts_with (p ∷ ps) (c ∷ s) = elim (c == p) [ true ↦ starts_with ps s | false ↦ false ]

abbrev strip : Text → Text → Text
strip [] s = s
strip (p ∷ ps) [] = []
strip (p ∷ ps) (c ∷ s) = strip ps s

-- At the first occurrence of a text.
unfoldable pub split_once_text : Text → Text → Option (Text × Text)
unfolding starts_with
split_once_text p [] = none
split_once_text p (c ∷ s) =
    let rest = prepend c (split_once_text p s) in
    if starts_with p (c ∷ s) then some ([], strip p (c ∷ s)) else rest

-- The text before the first byte that passes the test: the first piece of a `split`.
unfoldable pub until : (ℕ → Bool) → Text → Text
until p [] = []
until p (c ∷ s) = let rest = c ∷ until p s in if p c then [] else rest

-- All the pieces of a `split`.
abbrev extend_first : ℕ → List Text → List Text
extend_first c [] = (c ∷ []) ∷ []
extend_first c (t ∷ ts) = (c ∷ t) ∷ ts

unfoldable pub split : ℕ → Text → List Text
split b [] = [] ∷ []
split b (c ∷ s) = let rest = split b s in if c == b then [] ∷ rest else extend_first c rest

pub split_once-append :
    (b : ℕ) (l r : Text) → has_byte b l ≡ false → split_once b (l ++ b ∷ r) ≡ some (l, r)
unfolding split_once has_byte
split_once-append b [] r h = ground arith
split_once-append b (c ∷ l) r h = ground (arith, split_once-append b l r)

pub append-split_once :
    (b : ℕ) (s l r : Text)
    → split_once b s ≡ some (l, r)
    → (s ≡ l ++ b ∷ r) × (has_byte b l ≡ false)
unfolding split_once has_byte
append-split_once b [] l r h = cc
append-split_once b (c ∷ s) [] r h = ground arith
append-split_once b (c ∷ s) (d ∷ l) r h = ground (arith, append-split_once b s l r)
