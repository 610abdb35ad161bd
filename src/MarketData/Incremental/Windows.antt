-- ===== src/MarketData/Incremental/Windows.antt =====
-- The windows of services/market-data/src/core/incremental.py leave no session out.
use market_app.Prelude.{ℕ, ◌≡◌, refl, none, some, arith}
use market_app.Prelude.Int.{ℤ, ◌-ℤ◌, ◌≤ℤ◌}
use market_app.MarketData.Incremental.{
  full, earlier, days_before, at_least_none, plan_fetch, full_history_plan,
}

earlier-le : (a b : ℤ) → (earlier a b ≤ℤ a) × (earlier a b ≤ℤ b)
earlier-le a b = (ground arith, ground arith)

days_before-le : (n : ℕ) (a : ℤ) → days_before n a ≤ℤ a
unfolding ◌-ℤ◌
days_before-le n a = ground arith

≤ℤ_trans : (a b c : ℤ) → a ≤ℤ b → b ≤ℤ c → a ≤ℤ c
≤ℤ_trans a b c h k = omega (arith, h, k)

-- For a symbol with stored bars, `plan_fetch` ends at `now` and starts neither after the newest
-- stored bar nor after `now`, whatever the overlap, a negative one included; with nothing stored
-- it starts the initial history before `now`.
pub plan_fetch_leaves_no_gap :
    (latest now overlap : ℤ) (history : ℕ)
    → let plan = plan_fetch (some latest) now overlap history in
      (plan.start ≤ℤ latest)
      × (plan.start ≤ℤ now)
      × (plan.end ≡ now)
      × ((plan_fetch none now overlap history).start ≡ days_before history now)
unfolding plan_fetch
plan_fetch_leaves_no_gap latest now overlap history =
    let back = days_before (at_least_none overlap) latest in
    let (below, under) = earlier-le back now in
    (
      ≤ℤ_trans (earlier back now) back latest below (days_before-le (at_least_none overlap) latest),
      under,
      refl,
      refl,
    )

-- The window of a repair, `full_history_plan` with the earliest stored bar, reaches back to that
-- bar and to the whole initial history, and forward to `now`.
pub repair_covers_stored :
    (now earliest : ℤ) (history : ℕ)
    → let plan = full_history_plan now history (some earliest) in
      (plan.start ≤ℤ earliest)
      × (plan.start ≤ℤ days_before history now)
      × (plan.end ≡ now)
      × (plan.mode ≡ full)
unfolding full_history_plan
repair_covers_stored now earliest history =
    let (below, under) = earlier-le (days_before history now) earliest in (under, below, refl, refl)
