-- ===== src/MarketData/Catchup.antt =====
-- services/market-data/src/core/catchup.py and the heartbeat of services/market-data/src/main.py
-- that uses it. A date is its day number; the store behind the marker may hold no readable date.
pub mod Days
use market_app.Prelude.{
  ℕ, ◌≡◌, Bool, true, false, Option, none, some, leb, if◌then◌else◌, ◌==◌, List, [], ◌∷◌, String,
}
use market_app.Prelude.Int.{ℤ, pos, ◌-ℤ◌, ltb_ℤ}
use market_app.Prelude.Act.{Outcome, done, raised, Act, pure}
use market_app.MarketData.Incremental.{is_weekend}

pub record Moment : Type 0 where
  pub date : ℤ
  pub hour : ℕ
  pub weekday : ℕ

unfoldable pub coverage_date : Moment → ℕ → ℤ
coverage_date now close_hour = if leb close_hour now.hour then now.date else now.date -ℤ pos 1

unfoldable pub needs_catchup : Option ℤ → Moment → ℕ → Bool
needs_catchup none now close_hour = true
needs_catchup (some last_sync) now close_hour = ltb_ℤ last_sync (coverage_date now close_hour)

-- The marker in Redis: `none` is a missing or an unreadable value.
pub record Pulls (S : Type 0) : Type 0 where
  pub marker : Option ℤ
  pub store : S

module _ {S : Type 0} where
  -- `sync` stands for the pull of the whole universe at the moment that the job reads.
  unfoldable pub sync_job : Bool → (Moment → Act S (Unit {0})) → Moment → Act S (Unit {0})
  sync_job skip_weekends sync now s = elim skip_weekends [
    | true ↦ elim (is_weekend now.weekday) [ true ↦ (done tt, s) | false ↦ sync now s ]
    | false ↦ sync now s
  ]

  -- What the job leaves: an exception is raised before the marker is written.
  abbrev pub marked_after :
      Moment → ℕ → Pulls S → Outcome (Unit {0}) × S → Outcome (Unit {0}) × Pulls S
  marked_after after close_hour p (done u, s) =
      (done tt, record { marker = some (coverage_date after close_hour); store = s })
  marked_after after close_hour p (raised, s) = (raised, record p { store = s })

  -- One heartbeat. The clock is read three times: `now` here, `started` by the job and `after`
  -- when the job has returned.
  unfoldable pub maybe_sync :
      ℕ → (Moment → Act S (Unit {0})) → Moment → Moment → Moment → Act (Pulls S) (Unit {0})
  maybe_sync close_hour job now started after p =
      if needs_catchup p.marker now close_hour
      then marked_after after close_hour p (job started p.store)
      else (done tt, p)
