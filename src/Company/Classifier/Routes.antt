-- ===== src/Company/Classifier/Routes.antt =====
-- What services/company-classifier/src/core/classifier.py makes of the scores and of the size.
use market_app.Prelude.{
  ℕ, ◌≤◌, ◌<◌, ◌≡◌, ◌↔◌, ◌⊎◌, refl, sym, ap, ◌∙◌, String, Bool, true, false, ◌&&◌, Option, none,
  some, if◌then◌else◌, ◌==◌, String_eq, ℕ_eq, arith,
}
use market_app.Float.{Float, IsIeee, le, lt, literal, nought, ◌≼◌}
use market_app.Company.Classifier.{
  Style, growth, value, blend, CapTier, mega, large, mid, small, micro, unknown, is_large_bucket,
  stack_name, route_model_stack, sector_style, StyleThresholds, ValuationMetrics, point,
  decide_style, cap_tier, score_style, metrics_or, at_least, classify,
}

-- A number for each stack, read from its name.
abbrev code : String → ℕ
code x =
    if x == "growth_largecap_v1"
    then 0
    else if x == "growth_smallcap_v1"
    then 1
    else if x == "value_largecap_v1"
    then 2
    else if x == "value_smallcap_v1"
    then 3
    else if x == "blend_largecap_v1"
    then 4
    else 5

abbrev number : Style → Bool → ℕ
number growth b = if b then 0 else 1
number value b = if b then 2 else 3
number blend b = if b then 4 else 5

code-stack_name : (s : Style) (b : Bool) → code (stack_name s b) ≡ number s b
code-stack_name growth true = refl
code-stack_name growth false = refl
code-stack_name value true = refl
code-stack_name value false = refl
code-stack_name blend true = refl
code-stack_name blend false = refl

number_injective : (s s' : Style) (b b' : Bool) → number s b ≡ number s' b' → (s ≡ s') × (b ≡ b')
number_injective s s' b b' h = ground (arith, h)

-- Two companies are routed to one model stack only where both their style and their size bucket are
-- the same.
pub stacks_do_not_collide :
    (s s' : Style) (t t' : CapTier)
    → route_model_stack s t ≡ route_model_stack s' t'
    → (s ≡ s') × (is_large_bucket t ≡ is_large_bucket t')
unfolding route_model_stack
stacks_do_not_collide s s' t t' h =
    let b = is_large_bucket t in
    let b' = is_large_bucket t' in
    number_injective s s' b b' (sym (code-stack_name s b) ∙ ap code h ∙ code-stack_name s' b')

-- When a style is growth, and when it is value.
abbrev pub Leans : Style → ℕ → ℕ → Option Style → Type 0
Leans style ahead behind prior =
    (behind < ahead) ⊎ ((ahead ≡ 0) × (behind ≡ 0) × (prior ≡ some style))

decide_growth :
    (g v : ℕ) (prior : Option Style)
    → ((decide_style g v prior).0 ≡ growth) ↔ Leans growth g v prior
unfolding decide_style
decide_growth g v none = ground arith
decide_growth g v (some growth) = ground arith
decide_growth g v (some value) = ground arith
decide_growth g v (some blend) = ground arith

decide_value :
    (g v : ℕ) (prior : Option Style) → ((decide_style g v prior).0 ≡ value) ↔ Leans value v g prior
unfolding decide_style
decide_value g v none = ground arith
decide_value g v (some growth) = ground arith
decide_value g v (some value) = ground arith
decide_value g v (some blend) = ground arith

point_le : {F : Type 0} → (x : Option F) (test : F → Bool) → point x test ≤ 1
point_le none test = omega arith
point_le (some x) test = ground arith

module _ {F : Type 0} ⦃fl : Float F⦄ where
  score_bounds :
      (m : ValuationMetrics F) (t : StyleThresholds F)
      → let (g, v) = score_style m t in (g ≤ 4) × (v ≤ 3)
  unfolding score_style
  score_bounds m t = (
    omega (
      arith,
      point_le m.revenue_growth (at_least t.growth_revenue),
      point_le m.earnings_growth (at_least t.growth_earnings),
      point_le m.pe_ratio (at_least t.growth_pe),
      point_le m.dividend_yield (λ x. lt x t.growth_max_dividend),
    ),
    omega (
      arith,
      point_le m.pe_ratio (λ x. lt nought x && le x t.value_pe),
      point_le m.pb_ratio (λ x. le x t.value_pb),
      point_le m.dividend_yield (at_least t.value_dividend),
    ),
  )

  -- The growth score is at most 4 and the value score at most 3. The style is growth exactly where
  -- the growth score is ahead, or where both are 0 and the sector leans growth; it is value exactly
  -- where the value score is ahead, or where both are 0 and the sector leans value.
  pub classify_by_scores :
      (sector : Option String) (market_cap : Option F) (metrics : Option (ValuationMetrics F))
      (t : StyleThresholds F)
      → let r = classify sector market_cap metrics t in
        (r.growth_score ≤ 4)
        × (r.value_score ≤ 3)
        × ((r.style ≡ growth) ↔ Leans growth r.growth_score r.value_score (sector_style sector))
        × ((r.style ≡ value) ↔ Leans value r.value_score r.growth_score (sector_style sector))
        × (r.model_stack ≡ route_model_stack r.style (cap_tier market_cap))
  unfolding classify
  classify_by_scores sector market_cap metrics t =
      let (g, v) = score_style (metrics_or metrics) t in
      let (few, fewer) = score_bounds (metrics_or metrics) t in
      (
        few,
        fewer,
        decide_growth g v (sector_style sector),
        decide_value g v (sector_style sector),
        refl,
      )

abbrev pub rank : CapTier → ℕ
rank unknown = 0
rank micro = 1
rank small = 2
rank mid = 3
rank large = 4
rank mega = 5

-- A company of a larger or equal market capitalization has no lower tier.
pub cap_tier_mono :
    {F : Type 0} ⦃fl : Float F⦄ ⦃ie : IsIeee F⦄ (x y : F)
    → x ≼ y
    → rank (cap_tier (some x)) ≤ rank (cap_tier (some y))
unfolding cap_tier
cap_tier_mono ⦃ie⦄ x y h = ground (
  arith,
  ie.le_trans (literal 200_000_000_000 0) x y,
  ie.le_trans (literal 10_000_000_000 0) x y,
  ie.le_trans (literal 2_000_000_000 0) x y,
  ie.le_trans (literal 300_000_000 0) x y,
  h,
)
