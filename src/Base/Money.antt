-- ===== src/Base/Money.antt =====
-- Amounts of money: whole numbers of a millionth of a dollar. `Decimal` is exact, so a comparison
-- or a sum of amounts with at most six places after the point is that of these numbers.
use Prim.Native.Nat.{ℕ, ◌*◌}

abbrev pub Usd : Type 0
Usd = ℕ

abbrev pub dollars : ℕ → Usd
dollars n = n * 1000000
