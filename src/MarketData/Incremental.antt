-- ===== src/MarketData/Incremental.antt =====
-- services/market-data/src/core/incremental.py. A `datetime` is the seconds from a fixed moment.
pub mod Windows
pub mod Drift
use market_app.Prelude.{
  ℕ, ◌*◌, String, Bool, false, true, ◌||◌, Option, none, some, List, [], ◌∷◌, leb, if◌then◌else◌,
  ◌==◌,
}
use market_app.Prelude.Int.{ℤ, pos, negsuc, ◌-ℤ◌, ltb_ℤ}
use market_app.Prelude.Dict.{Dict, get, put}
use market_app.Prelude.Keys.{ℤ_eq}
use market_app.Float.{Float, lt, le, sub, quot, abs, nought}

pub data Mode : Type 0 where
  full : Mode
  incremental : Mode

pub record FetchPlan : Type 0 where
  pub start : ℤ
  pub end : ℤ
  pub mode : Mode

-- `min(a, b)`
abbrev pub earlier : ℤ → ℤ → ℤ
earlier a b = if ltb_ℤ b a then b else a

abbrev pub days_before : ℕ → ℤ → ℤ
days_before days moment = moment -ℤ pos (days * 86_400)

-- `max(days, 0)`
abbrev pub at_least_none : ℤ → ℕ
at_least_none (pos n) = n
at_least_none (negsuc n) = 0

unfoldable pub plan_fetch : Option ℤ → ℤ → ℤ → ℕ → FetchPlan
plan_fetch none now overlap_days initial_history_days = record {
  start = days_before initial_history_days now;
  end = now;
  mode = full;
}
plan_fetch (some latest_stored) now overlap_days initial_history_days = record {
  start = earlier (days_before (at_least_none overlap_days) latest_stored) now;
  end = now;
  mode = incremental;
}

abbrev pub earlier_of : ℤ → Option ℤ → ℤ
earlier_of start none = start
earlier_of start (some earliest) = earlier start earliest

unfoldable pub full_history_plan : ℤ → ℕ → Option ℤ → FetchPlan
full_history_plan now initial_history_days earliest_stored = record {
  start = earlier_of (days_before initial_history_days now) earliest_stored;
  end = now;
  mode = full;
}

pub record Bar (F : Type 0) : Type 0 where
  pub symbol : String
  pub timestamp : ℤ
  pub close : F
  pub adj_close : Option F

module _ {F : Type 0} where
  -- `{bar.timestamp: bar for bar in fetched}`, from the entries made so far
  unfoldable pub by_timestamp : List (Bar F) → Dict ℤ (Bar F) → Dict ℤ (Bar F)
  by_timestamp [] acc = acc
  by_timestamp (bar ∷ fetched) acc = by_timestamp fetched (put bar.timestamp bar acc)

module _ {F : Type 0} ⦃fl : Float F⦄ where
  unfoldable pub factor : Bar F → Option F
  factor bar = elim bar.adj_close [
    | none ↦ none
    | some adjusted ↦ if le bar.close nought then none else some (quot adjusted bar.close)
  ]

  abbrev pub moved_factor : F → Option F → Option F → Bool
  moved_factor tolerance none new_factor = false
  moved_factor tolerance (some old_factor) none = false
  moved_factor tolerance (some old_factor) (some new_factor) =
      if le old_factor nought
      then false
      else lt tolerance (quot (abs (sub new_factor old_factor)) old_factor)

  -- Whether the bar `old` has another factor now.
  unfoldable pub moved : F → Dict ℤ (Bar F) → Bar F → Bool
  moved tolerance fresh old = elim (get old.timestamp fresh) [
    | none ↦ false
    | some new ↦ moved_factor tolerance (factor old) (factor new)
  ]

  unfoldable pub any_moved : F → Dict ℤ (Bar F) → List (Bar F) → Bool
  any_moved tolerance fresh [] = false
  any_moved tolerance fresh (old ∷ stored) =
      if moved tolerance fresh old then true else any_moved tolerance fresh stored

  unfoldable pub adjustment_drifted : List (Bar F) → List (Bar F) → F → Bool
  adjustment_drifted stored fetched tolerance = any_moved tolerance (by_timestamp fetched []) stored

-- The weekday of a day, Monday as 0.
abbrev pub is_weekend : ℕ → Bool
is_weekend weekday = leb 5 weekday
