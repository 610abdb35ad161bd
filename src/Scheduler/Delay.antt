-- ===== src/Scheduler/Delay.antt =====
-- The delays of shared/trading-common/src/trading_common/scheduler.py end at the hour asked for.
use market_app.Prelude.{ℕ, ◌+◌, ◌*◌, ◌%◌, ◌≤◌, ◌<◌, ◌≡◌, arith}
use market_app.Scheduler.{weekday_of, until_weekday_hour, until_hour}

-- For a weekday from 0 to 6 and an hour from 0 to 23: `until_weekday_hour` is a delay of more than
-- nothing and at most a week that ends exactly at the hour of the weekday, and `until_hour` one of
-- more than nothing and at most a day that ends exactly at the hour.
pub delays_end_on_time :
    (now weekday hour : ℕ)
    → weekday < 7
    → hour < 24
    → let weekly = until_weekday_hour now weekday hour in
      let daily = until_hour now hour in
      (0 < weekly)
      × (weekly ≤ 604_800_000_000)
      × ((now + weekly) % 86_400_000_000 ≡ hour * 3_600_000_000)
      × (weekday_of (now + weekly) ≡ weekday)
      × (0 < daily)
      × (daily ≤ 86_400_000_000)
      × ((now + daily) % 86_400_000_000 ≡ hour * 3_600_000_000)
unfolding until_weekday_hour until_hour
delays_end_on_time now weekday hour h k = ground arith
