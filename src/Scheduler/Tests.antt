-- ===== src/Scheduler/Tests.antt =====
-- The delays of shared/trading-common/src/trading_common/scheduler.py at one moment.
use market_app.Prelude.{◌+◌, ◌*◌, ◌%◌, ◌≤◌, ◌<◌, ◌≡◌, refl, arith}
use market_app.Scheduler.{weekday_of, until_weekday_hour, until_hour}
use market_app.Scheduler.Delay.{delays_end_on_time}

-- A Saturday at six is its own next week's.
week_later : until_weekday_hour 453_600_000_000 5 6 ≡ 604_800_000_000
unfolding until_weekday_hour
week_later = refl

delays_end_on_time_example :
    (0 < until_weekday_hour 453_600_000_000 5 6)
    × (until_weekday_hour 453_600_000_000 5 6 ≤ 604_800_000_000)
    × ((453_600_000_000 + until_weekday_hour 453_600_000_000 5 6) % 86_400_000_000
        ≡ 6 * 3_600_000_000)
    × (weekday_of (453_600_000_000 + until_weekday_hour 453_600_000_000 5 6) ≡ 5)
    × (0 < until_hour 453_600_000_000 6)
    × (until_hour 453_600_000_000 6 ≤ 86_400_000_000)
    × ((453_600_000_000 + until_hour 453_600_000_000 6) % 86_400_000_000 ≡ 6 * 3_600_000_000)
delays_end_on_time_example = delays_end_on_time 453_600_000_000 5 6 (omega arith) (omega arith)
