-- ===== src/Base/Time.antt =====
-- `UtcDateTime`: microseconds since an epoch. `isoformat` has a fixed width, so its order as text
-- is the order of these numbers.
use Prim.Native.Nat.{ℕ, ◌*◌}

abbrev pub UtcDateTime : Type 0
UtcDateTime = ℕ

abbrev pub hours : ℕ → ℕ
hours n = n * 3600000000

abbrev pub seconds : ℕ → ℕ
seconds n = n * 1000000

abbrev pub days : ℕ → ℕ
days n = n * 86400000000
