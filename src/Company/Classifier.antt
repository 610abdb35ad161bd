-- ===== src/Company/Classifier.antt =====
-- services/company-classifier/src/core/classifier.py.
mod Routes
mod Tests
use market_app.Prelude.{
  ℕ, ◌+◌, String, Bool, true, false, ◌&&◌, ◌||◌, Option, none, some, List, [], ◌∷◌, ltb,
  if◌then◌else◌, ◌==◌, String_eq, ℕ_eq,
}
use market_app.Float.{Float, lt, le, literal, nought}

pub data Style : Type 0 where
  growth : Style
  value : Style
  blend : Style

-- `Style.value`, the text of a style
abbrev pub style_text : Style → String
style_text growth = "growth"
style_text value = "value"
style_text blend = "blend"

pub data Basis : Type 0 where
  metrics_basis : Basis
  sector_basis : Basis
  default_basis : Basis

pub data CapTier : Type 0 where
  mega : CapTier
  large : CapTier
  mid : CapTier
  small : CapTier
  micro : CapTier
  unknown : CapTier

-- "large" or "small": the coarse bucket, as whether it is the large one
abbrev pub is_large_bucket : CapTier → Bool
is_large_bucket mega = true
is_large_bucket large = true
is_large_bucket mid = false
is_large_bucket small = false
is_large_bucket micro = false
is_large_bucket unknown = false

-- `f"{style}_{bucket}cap_v1"`, for each style and bucket
abbrev pub stack_name : Style → Bool → String
stack_name growth true = "growth_largecap_v1"
stack_name growth false = "growth_smallcap_v1"
stack_name value true = "value_largecap_v1"
stack_name value false = "value_smallcap_v1"
stack_name blend true = "blend_largecap_v1"
stack_name blend false = "blend_smallcap_v1"

unfoldable pub route_model_stack : Style → CapTier → String
route_model_stack style tier = stack_name style (is_large_bucket tier)

abbrev pub growth_sectors : List String
growth_sectors =
    "Information Technology" ∷ "Communication Services" ∷ "Consumer Discretionary" ∷ "Health Care"
    ∷ []

abbrev pub value_sectors : List String
value_sectors =
    "Financials" ∷ "Energy" ∷ "Utilities" ∷ "Consumer Staples" ∷ "Materials" ∷ "Real Estate" ∷ []

abbrev pub elem : String → List String → Bool
elem x [] = false
elem x (y ∷ ys) = (x == y) || elem x ys

unfoldable pub sector_style : Option String → Option Style
sector_style none = none
sector_style (some sector) =
    if elem sector growth_sectors
    then some growth
    else if elem sector value_sectors
    then some value
    else none

pub record StyleThresholds (F : Type 0) : Type 0 where
  pub growth_revenue : F
  pub growth_earnings : F
  pub growth_pe : F
  pub growth_max_dividend : F
  pub value_pe : F
  pub value_pb : F
  pub value_dividend : F

pub record ValuationMetrics (F : Type 0) : Type 0 where
  pub pe_ratio : Option F
  pub pb_ratio : Option F
  pub revenue_growth : Option F
  pub earnings_growth : Option F
  pub dividend_yield : Option F

pub record ClassificationResult : Type 0 where
  pub style : Style
  pub model_stack : String
  pub cap_tier : CapTier
  pub growth_score : ℕ
  pub value_score : ℕ
  pub basis : Basis

-- A signal that counts one where its metric is there and passes.
abbrev pub point : {F : Type 0} → Option F → (F → Bool) → ℕ
point none test = 0
point (some x) test = if test x then 1 else 0

-- The style for the two scores.
unfoldable pub decide_style : ℕ → ℕ → Option Style → Style × Basis
decide_style growth_score value_score prior =
    if (growth_score == 0) && (value_score == 0)
    then elim prior [ none ↦ (blend, default_basis) | some style ↦ (style, sector_basis) ]
    else if ltb value_score growth_score
    then (growth, metrics_basis)
    else if ltb growth_score value_score
    then (value, metrics_basis)
    else (blend, metrics_basis)

module _ {F : Type 0} ⦃fl : Float F⦄ where
  abbrev pub at_least : F → F → Bool
  at_least bar x = le bar x

  unfoldable pub cap_tier : Option F → CapTier
  cap_tier none = unknown
  cap_tier (some market_cap) =
      if le (literal 200_000_000_000 0) market_cap
      then mega
      else if le (literal 10_000_000_000 0) market_cap
      then large
      else if le (literal 2_000_000_000 0) market_cap
      then mid
      else if le (literal 300_000_000 0) market_cap
      then small
      else micro

  unfoldable pub score_style : ValuationMetrics F → StyleThresholds F → ℕ × ℕ
  score_style m t = (
    point m.revenue_growth (at_least t.growth_revenue)
        + point m.earnings_growth (at_least t.growth_earnings)
        + point m.pe_ratio (at_least t.growth_pe)
        + point m.dividend_yield (λ x. lt x t.growth_max_dividend),
    point m.pe_ratio (λ x. lt nought x && le x t.value_pe)
        + point m.pb_ratio (λ x. le x t.value_pb)
        + point m.dividend_yield (at_least t.value_dividend),
  )

  abbrev pub no_metrics : ValuationMetrics F
  no_metrics = record {
    pe_ratio = none;
    pb_ratio = none;
    revenue_growth = none;
    earnings_growth = none;
    dividend_yield = none;
  }

  abbrev pub metrics_or : Option (ValuationMetrics F) → ValuationMetrics F
  metrics_or none = no_metrics
  metrics_or (some m) = m

  unfoldable pub classify :
      Option String
      → Option F
      → Option (ValuationMetrics F)
      → StyleThresholds F
      → ClassificationResult
  classify sector market_cap metrics thresholds =
      let (growth_score, value_score) = score_style (metrics_or metrics) thresholds in
      let (style, basis) = decide_style growth_score value_score (sector_style sector) in
      let tier = cap_tier market_cap in
      record {
        style = style;
        model_stack = route_model_stack style tier;
        cap_tier = tier;
        growth_score = growth_score;
        value_score = value_score;
        basis = basis;
      }
