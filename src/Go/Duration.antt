-- ===== src/Go/Duration.antt =====
-- time.Duration: a signed count of nanoseconds.
use huma.Base.{ℤ, pos, quot_ℤ}

-- d.Milliseconds(), which cuts off towards zero.
unfoldable pub milliseconds : ℤ → ℤ
milliseconds d = quot_ℤ d 1000000

abbrev pub second : ℤ
second = pos 1000000000

abbrev pub millisecond : ℤ
millisecond = pos 1000000

abbrev pub minute : ℤ
minute = pos 60000000000
