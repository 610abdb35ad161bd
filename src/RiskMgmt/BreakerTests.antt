-- ===== src/RiskMgmt/BreakerTests.antt =====
-- The breaker, the ledger and the sizing of services/risk-mgmt/src/core at concrete inputs, in
-- fixed-point numbers.
use market_app.Prelude.{◌≤◌, ℕ, String, ◌≡◌, true, false, none, some, [], ◌∷◌, refl}
use market_app.Prelude.Int.{ℤ, pos, negsuc, leb_ℤ, ◌≤ℤ◌}
use market_app.Float.Fixed.{Fixed, fixed_float, Fixed-IsIeee}
use market_app.RiskMgmt.Breaker.{Breaker, evaluate, red, black, is_tripped}
use market_app.RiskMgmt.Breaker.Latch.{Reading, evaluate_all, black_latches, halt_holds_for_session}
use market_app.RiskMgmt.Breaker.Severity.{severity, worse_reading_not_milder}
use market_app.RiskMgmt.Breaker.Restart.{restarted, restart_transparent}
use market_app.RiskMgmt.Ledger.{Ledger, Key, Key_eq, already_placed, snapshot, restore}
use market_app.RiskMgmt.Ledger.Memory.{IsBounded, is_recent, restore_lem}
use market_app.Prelude.Dict.{get, is_some, when}
use market_app.RiskMgmt.Portfolio.{Portfolio}
use market_app.RiskMgmt.Regime.{max_exposure, is_sector_allowed}
use market_app.RiskMgmt.Sizing.{Sizer, sized, position_size, size, blocks_sector}
use market_app.RiskMgmt.Sizing.Bounds.{IsConfigured, position_cap, size_sound}

abbrev calm : Breaker Fixed
calm = record {
  warn_dd = pos 800;
  halt_daily = pos 500;
  flatten_dd = pos 1_500;
  level = none;
  latched_black = false;
  halted_session = none;
}

abbrev latched : Breaker Fixed
latched = record calm { level = some black; latched_black = true }

abbrev halted : Breaker Fixed
halted = record calm { level = some red; halted_session = some 20_000 }

abbrev crash : Reading Fixed
crash = record { drawdown_pct = negsuc 1_599; daily_loss_pct = pos 100; day = 20_000 }

abbrev loss : Reading Fixed
loss = record { drawdown_pct = pos 100; daily_loss_pct = pos 600; day = 20_000 }

abbrev quiet : Reading Fixed
quiet = record { drawdown_pct = pos 0; daily_loss_pct = pos 0; day = 20_000 }

worse_reading_not_milder_example :
    severity (evaluate calm (pos 900) (pos 100) 20_000).0.level
    ≤ severity (evaluate calm (negsuc 999) (pos 600) 20_000).0.level
worse_reading_not_milder_example =
    worse_reading_not_milder Fixed-IsIeee calm (pos 900) (pos 100) (negsuc 999) (pos 600) 20_000
      refl refl

black_latches_example :
    let b' = evaluate_all calm (crash ∷ quiet ∷ quiet ∷ []) in
    (b'.latched_black ≡ true) × (b'.level ≡ some black) × (is_tripped b' ≡ true)
black_latches_example = black_latches calm crash (quiet ∷ quiet ∷ []) refl

halt_holds_for_session_example : is_tripped (evaluate_all calm (loss ∷ quiet ∷ [])) ≡ true
halt_holds_for_session_example = halt_holds_for_session calm loss (quiet ∷ []) refl (refl, tt)

restart_transparent_example :
    evaluate_all (restarted halted) (quiet ∷ loss ∷ []) ≡ evaluate_all halted (quiet ∷ loss ∷ [])
restart_transparent_example = restart_transparent halted quiet (loss ∷ [])

abbrev key_on : String → ℕ → Key
key_on symbol session = record { symbol = symbol; side = "BUY"; session = session }

abbrev two_days : Ledger
two_days = record {
  placed = (key_on "AAPL" 20_000, 20_000) ∷ (key_on "MSFT" 20_001, 20_001) ∷ [];
  keep_sessions = 2;
}

-- Restored to a depth of one session, the older one of two is forgotten.
restore_lem_example :
    let fresh : Ledger = record { placed = []; keep_sessions = 1 } in
    let restored = restore fresh (snapshot two_days) in
    IsBounded restored
    × (restored.keep_sessions ≡ 1)
    × (already_placed restored (key_on "AAPL" 20_000)
        ≡ is_some (when (is_recent 1 two_days.placed) (get (key_on "AAPL" 20_000) two_days.placed)))
unfolding get
restore_lem_example =
    restore_lem two_days (record { placed = []; keep_sessions = 1 }) (key_on "AAPL" 20_000)
      (refl, (refl, tt)) refl

abbrev sizer : Sizer Fixed
sizer = record {
  base_risk = pos 200;
  dd_start = pos 500;
  dd_end = pos 1_500;
  max_position_pct = pos 500;
}

sizer-IsConfigured : IsConfigured sizer
sizer-IsConfigured = record {
  base_finite = refl;
  start_finite = refl;
  end_finite = refl;
  base_pos = refl;
  start_nonneg = refl;
  start_lt_end = refl;
}

abbrev portfolio : Portfolio Fixed
portfolio = record {
  value = pos 1_000_000_000;
  exposure_pct = pos 2_000;
  drawdown_pct = pos 0;
  daily_loss_pct = pos 0;
  regime = "expansion";
  sector_positions = [];
}

-- 100,000 at a price of 100 with a stop of 95: the cap of 5 % allows 50 shares.
size_sound_example :
    (max_shares : ℤ) × (position_cap sizer (pos 1_000_000_000) (pos 1_000_000) ≡ some max_shares)
    × (pos 50 ≤ℤ max_shares)
    × (sized ≡ sized)
    × (leb_ℤ (max_exposure "expansion") (pos 2_000) ≡ false)
    × (blocks_sector "expansion" (some "Tech") ≡ false)
unfolding size position_size max_exposure is_sector_allowed
size_sound_example =
    size_sound sizer (pos 1_000_000) (pos 950_000) portfolio (some "Tech") (pos 50) sized refl refl
