-- ===== src/Sectors.antt =====
-- shared/trading-common/src/trading_common/sectors.py. The text is walked as its code points;
-- `strip` and `lower` are those of ASCII.
use Prim.Native.Char.{code}
use mathlib.Core.List.{reverse}
use market_app.Prelude.{
  ℕ, ◌+◌, String, Bool, true, false, ◌&&◌, ◌||◌, Option, none, some, List, [], ◌∷◌, map, leb,
  nat_eq, if◌then◌else◌, ◌==◌, String_eq,
}

-- The eleven names of `GICS_SECTORS`.
pub data Sector : Type 0 where
  communication_services consumer_discretionary consumer_staples energy financials : Sector
  health_care industrials information_technology materials real_estate utilities : Sector

abbrev pub sector_name : Sector → String
sector_name communication_services = "Communication Services"
sector_name consumer_discretionary = "Consumer Discretionary"
sector_name consumer_staples = "Consumer Staples"
sector_name energy = "Energy"
sector_name financials = "Financials"
sector_name health_care = "Health Care"
sector_name industrials = "Industrials"
sector_name information_technology = "Information Technology"
sector_name materials = "Materials"
sector_name real_estate = "Real Estate"
sector_name utilities = "Utilities"

abbrev pub gics_sectors : List Sector
gics_sectors =
    communication_services ∷ consumer_discretionary ∷ consumer_staples ∷ energy ∷ financials
    ∷ health_care ∷ industrials ∷ information_technology ∷ materials ∷ real_estate ∷ utilities ∷ []

abbrev pub codes : String → List ℕ
codes String.[] = []
codes (String.◌∷◌ c s) = code c ∷ codes s

-- The keys of `_ALIASES` with their values.
abbrev pub aliases : List (String × Sector)
aliases =
    ("technology", information_technology)
    ∷ ("tech", information_technology)
    ∷ ("information technology", information_technology)
    ∷ ("infotech", information_technology)
    ∷ ("it", information_technology)
    ∷ ("healthcare", health_care)
    ∷ ("health care", health_care)
    ∷ ("health", health_care)
    ∷ ("consumer cyclical", consumer_discretionary)
    ∷ ("consumer discretionary", consumer_discretionary)
    ∷ ("consumer cyclicals", consumer_discretionary)
    ∷ ("consumer defensive", consumer_staples)
    ∷ ("consumer staples", consumer_staples)
    ∷ ("consumer non-cyclical", consumer_staples)
    ∷ ("financial services", financials)
    ∷ ("financial", financials)
    ∷ ("financials", financials)
    ∷ ("finance", financials)
    ∷ ("basic materials", materials)
    ∷ ("materials", materials)
    ∷ ("communication services", communication_services)
    ∷ ("communications", communication_services)
    ∷ ("telecommunications", communication_services)
    ∷ ("telecom", communication_services)
    ∷ ("energy", energy)
    ∷ ("industrials", industrials)
    ∷ ("industrial", industrials)
    ∷ ("real estate", real_estate)
    ∷ ("realestate", real_estate)
    ∷ ("utilities", utilities)
    ∷ ("utility", utilities)
    ∷ []

is_space : ℕ → Bool
is_space c = nat_eq c 32 || (leb 9 c && leb c 13) || (leb 28 c && leb c 31)

strip_left : List ℕ → List ℕ
unfolding is_space
strip_left [] = []
strip_left (c ∷ cs) = let rest = strip_left cs in if is_space c then rest else c ∷ cs

pub strip : List ℕ → List ℕ
unfolding strip_left
strip cs = reverse (strip_left (reverse (strip_left cs)))

to_lower : ℕ → ℕ
to_lower c = if leb b'A' c && leb c b'Z' then c + 32 else c

same_codes : List ℕ → List ℕ → Bool
same_codes [] [] = true
same_codes (c ∷ cs) (d ∷ ds) = nat_eq c d && same_codes cs ds
same_codes _ _ = false

lookup_alias : List ℕ → List (String × Sector) → Option Sector
unfolding same_codes
lookup_alias cs [] = none
lookup_alias cs ((alias, sector) ∷ rest) =
    if same_codes (codes alias) cs then some sector else lookup_alias cs rest

-- `none` for None, also for the empty text.
pub normalize_codes : List ℕ → Option Sector
unfolding strip to_lower lookup_alias
normalize_codes [] = none
normalize_codes (c ∷ cs) = lookup_alias (map to_lower (strip (c ∷ cs))) aliases

unfoldable pub normalize_sector : Option String → Option Sector
unfolding normalize_codes
normalize_sector none = none
normalize_sector (some raw) = normalize_codes (codes raw)

among_names : String → List Sector → Bool
among_names name [] = false
among_names name (s ∷ rest) = sector_name s == name || among_names name rest

pub is_canonical : String → Bool
unfolding among_names
is_canonical name = among_names name gics_sectors
