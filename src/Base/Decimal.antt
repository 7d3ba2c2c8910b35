-- ===== src/Base/Decimal.antt =====
-- The decimal digits of a number, as `to_string` writes them.
use Prim.Native.Nat.{ℕ, zero, suc, ◌+◌, ◌/◌, ◌%◌}
use mathlib.Core.List.{[], ◌∷◌}
use dragonfly_sdk.Base.Tests.{ltb, if◌then◌else◌}
use dragonfly_sdk.Base.Texts.{Text}

-- The digits of `n` before those of `rest`; a number below the fuel has no more digits than it.
decimal_loop : ℕ → ℕ → Text → Text
decimal_loop zero n rest = rest
decimal_loop (suc fuel) n rest =
    let digits = (b'0' + n % 10) ∷ rest in
    let more = decimal_loop fuel (n / 10) digits in if ltb n 10 then digits else more

unfoldable pub decimal : ℕ → Text
unfolding decimal_loop
decimal n = decimal_loop (suc n) n []
