-- ===== src/Scheduler.antt =====
-- shared/trading-common/src/trading_common/scheduler.py: the delay to the next run of a job. A moment
-- is the microseconds from a Monday midnight, in a timezone without changes of the clock.
mod Delay
mod Tests
use market_app.Prelude.{ℕ, ◌+◌, ◌-◌, ◌*◌, ◌/◌, ◌%◌, leb, if◌then◌else◌}

abbrev pub weekday_of : ℕ → ℕ
weekday_of now = now / 86_400_000_000 % 7

-- `now.replace(hour=hour, minute=0, second=0, microsecond=0)`
abbrev pub at_hour : ℕ → ℕ → ℕ
at_hour now hour = now / 86_400_000_000 * 86_400_000_000 + hour * 3_600_000_000

-- The candidate, or the one a period later where it is not after `now`.
abbrev pub until_next : ℕ → ℕ → ℕ → ℕ
until_next now period candidate =
    if leb candidate now then candidate + period - now else candidate - now

unfoldable pub until_weekday_hour : ℕ → ℕ → ℕ → ℕ
until_weekday_hour now weekday hour =
    let days_ahead = (weekday + 7 - weekday_of now) % 7 in
    until_next now 604_800_000_000 (at_hour now hour + days_ahead * 86_400_000_000)

unfoldable pub until_hour : ℕ → ℕ → ℕ
until_hour now hour = until_next now 86_400_000_000 (at_hour now hour)
