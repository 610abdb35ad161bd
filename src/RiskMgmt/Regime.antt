-- ===== src/RiskMgmt/Regime.antt =====
-- services/risk-mgmt/src/core/regime_allocator.py.
use market_app.Prelude.{
  String, Bool, true, false, ◌||◌, Option, none, some, if◌then◌else◌, ◌==◌, String_eq,
}
use market_app.Float.{Float, literal, sub, one}
use market_app.Sectors.{
  Sector, health_care, consumer_staples, utilities, information_technology, normalize_sector,
}

unfoldable pub max_exposure : {F : Type 0} ⦃fl : Float F⦄ → String → F
max_exposure regime =
    if regime == "expansion"
    then literal 90 2
    else if regime == "recovery"
    then literal 80 2
    else if regime == "slowdown"
    then literal 60 2
    else if regime == "contraction"
    then literal 35 2
    else if regime == "crisis"
    then literal 15 2
    else literal 60 2

abbrev pub is_defensive : Sector → Bool
is_defensive consumer_staples = true
is_defensive utilities = true
is_defensive health_care = true
is_defensive _ = false

abbrev pub in_slowdown_set : Sector → Bool
in_slowdown_set information_technology = true
in_slowdown_set s = is_defensive s

-- `ALLOWED_SECTORS.get(regime)`: None where every sector is allowed, also for an unknown regime.
unfoldable pub allowed_sectors : String → Option (Sector → Bool)
allowed_sectors regime =
    if regime == "slowdown"
    then some in_slowdown_set
    else if regime == "contraction" || regime == "crisis"
    then some is_defensive
    else none

abbrev pub is_in : (Sector → Bool) → Option Sector → Bool
is_in allowed none = false
is_in allowed (some canonical) = allowed canonical

unfoldable pub is_sector_allowed : String → String → Bool
unfolding allowed_sectors
is_sector_allowed regime sector = elim (allowed_sectors regime) [
  | none ↦ true
  | some allowed ↦ is_in allowed (normalize_sector (some sector))
]

pub required_cash_pct : {F : Type 0} ⦃fl : Float F⦄ → String → F
required_cash_pct regime = sub one (max_exposure regime)
