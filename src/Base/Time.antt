-- ===== src/Base/Time.antt =====
-- `timedelta`: durations in microseconds. The difference `now - d` of a timestamp and a duration is
-- never formed: `x >= now - d` is written `now <= x + d`, which is the same over the integers.
use Prim.Native.Nat.{ℕ, ◌*◌}

abbrev pub seconds : ℕ → ℕ
seconds n = n * 1_000_000

abbrev pub minutes : ℕ → ℕ
minutes n = n * 60_000_000

abbrev pub hours : ℕ → ℕ
hours n = n * 3_600_000_000

abbrev pub days : ℕ → ℕ
days n = n * 86_400_000_000
