-- ===== src/Gates/Cost.antt =====
-- shared/trading-common/src/trading_common/cost_filter.py.
use market_app.Prelude.{String, Bool, Option, none, some, if◌then◌else◌, ◌==◌, String_eq}
use market_app.Float.{Float, lt, le, add, mul, quot, literal, nought}

pub record TransactionCosts (F : Type 0) : Type 0 where
  pub spread_bps : F
  pub slippage_bps : F
  pub market_impact_bps : F

pub record CostAwareFilter (F : Type 0) : Type 0 where
  pub costs : TransactionCosts F
  pub min_edge_multiple : F

-- The second result of the filter; no ratio is infinity.
pub record CostDetails (F : Type 0) : Type 0 where
  pub adjusted_cost_bps : F
  pub required_edge_bps : F
  pub expected_return_bps : F
  pub edge_to_cost_ratio : Option F
  pub market_cap_tier : String

module _ {F : Type 0} ⦃fl : Float F⦄ where
  unfoldable pub total_roundtrip_bps : TransactionCosts F → F
  total_roundtrip_bps c =
      mul (literal 2 0) (add (add c.spread_bps c.slippage_bps) c.market_impact_bps)

  unfoldable pub cap_tier_multiplier : String → F
  cap_tier_multiplier tier =
      if tier == "large"
      then literal 10 1
      else if tier == "mid"
      then literal 15 1
      else if tier == "small"
      then literal 25 1
      else if tier == "micro"
      then literal 50 1
      else literal 10 1

  unfoldable pub is_profitable_after_costs : CostAwareFilter F → F → String → Bool × CostDetails F
  is_profitable_after_costs f expected_return_bps market_cap_tier =
      let adjusted = mul (total_roundtrip_bps f.costs) (cap_tier_multiplier market_cap_tier) in
      let required = mul adjusted f.min_edge_multiple in
      (
        le required expected_return_bps,
        record {
          adjusted_cost_bps = adjusted;
          required_edge_bps = required;
          expected_return_bps = expected_return_bps;
          edge_to_cost_ratio =
              if lt nought adjusted then some (quot expected_return_bps adjusted) else none;
          market_cap_tier = market_cap_tier;
        },
      )
