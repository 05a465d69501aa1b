-- ===== src/Base/Decimal.antt =====
-- Numbers as `format!("{}")` writes them.
use Prim.Native.Nat.{ℕ, zero, suc, ◌+◌, ◌/◌, ◌%◌}
use mathlib.Core.Bool.{true, false}
use mathlib.Core.List.{[], ◌∷◌}
use blackfriday_2_rust.Base.Tests.{ltb}
use blackfriday_2_rust.Base.Lists.{Bytes}

-- The digits of `n` in front of `acc`; a number has no more of them than the fuel, which is `n + 1`.
unfoldable pub digits_before : ℕ → ℕ → Bytes → Bytes
digits_before zero n acc = acc
digits_before (suc fuel) n acc = elim (ltb n 10) [
  | true ↦ (b'0' + n) ∷ acc
  | false ↦ digits_before fuel (n / 10) ((b'0' + n % 10) ∷ acc)
]

unfoldable pub decimal : ℕ → Bytes
unfolding digits_before
decimal n = digits_before (n + 1) n []
