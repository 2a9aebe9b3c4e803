-- ===== src/Prelude/Clock.antt =====
-- Instants: `datetime` values in UTC, as microseconds since a fixed midnight.
use concierge_agent.Prelude.{ℕ, ◌-◌, ◌*◌, ◌%◌}

abbrev pub Instant : Type 0
Instant = ℕ

-- timedelta(seconds=n)
abbrev pub seconds : ℕ → ℕ
seconds n = n * 1000000

abbrev pub hours : ℕ → ℕ
hours n = seconds (n * 3600)

-- now.replace(hour=0, minute=0, second=0, microsecond=0)
abbrev pub midnight : Instant → Instant
midnight now = now - now % hours 24
