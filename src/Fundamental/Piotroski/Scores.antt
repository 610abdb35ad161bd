-- ===== src/Fundamental/Piotroski/Scores.antt =====
-- The range of the score of services/fundamental-data/src/core/piotroski.py, and what missing
-- figures do to it.
use market_app.Prelude.{◌≤◌, ◌≡◌, ◌⊎◌, inl, inr, refl, Bool, false, Option, none, some, arith}
use market_app.Float.{Float, lt, le, nought}
use market_app.Fundamental.Piotroski.{
  FinancialStatements, FScoreBreakdown, as_int, score, both, ratio, above, current_signals,
  compute_f_score,
}

as_int_le : (b : Bool) → as_int b ≤ 1
as_int_le b = ground arith

score_le : (b : FScoreBreakdown) → score b ≤ 9
unfolding score
score_le b = omega (
  arith,
  as_int_le b.positive_net_income,
  as_int_le b.positive_operating_cash_flow,
  as_int_le b.quality_of_earnings,
  as_int_le b.improving_roa,
  as_int_le b.decreasing_leverage,
  as_int_le b.improving_current_ratio,
  as_int_le b.no_dilution,
  as_int_le b.improving_net_margin,
  as_int_le b.improving_asset_turnover,
)

module _ {F : Type 0} where
  -- The same figure, or a missing one.
  abbrev pub Omits : Option F → Option F → Type 0
  Omits x y = (x ≡ none) ⊎ (x ≡ y)

  -- Each figure of the first statements is that of the second ones, or missing.
  pub record OmitsFrom (a b : FinancialStatements F) : Type 0 where
    pub revenue_of : Omits a.revenue b.revenue
    pub net_income_of : Omits a.net_income b.net_income
    pub operating_cash_flow_of : Omits a.operating_cash_flow b.operating_cash_flow
    pub total_assets_of : Omits a.total_assets b.total_assets
    pub total_liabilities_of : Omits a.total_liabilities b.total_liabilities
    pub current_assets_of : Omits a.current_assets b.current_assets
    pub current_liabilities_of : Omits a.current_liabilities b.current_liabilities
    pub shares_outstanding_of : Omits a.shares_outstanding b.shares_outstanding

  -- The same of the statements of the prior period, which may be missing altogether.
  abbrev pub PriorOmitsFrom :
      Option (FinancialStatements F) → Option (FinancialStatements F) → Type 0
  PriorOmitsFrom none q = Unit
  PriorOmitsFrom (some a) none = ⊥
  PriorOmitsFrom (some a) (some b) = OmitsFrom a b

  both-none : (test : F → F → Bool) (x : Option F) → both test x none ≡ false
  both-none test none = refl
  both-none test (some x) = refl

  both-Omits :
      (test : F → F → Bool) (x x' y y' : Option F)
      → Omits x x'
      → Omits y y'
      → as_int (both test x y) ≤ as_int (both test x' y')
  both-Omits test x x' y y' (inl e) k = rw e (omega arith)
  both-Omits test x x' y y' (inr e) (inl f) = rw (f, both-none test x) (omega arith)
  both-Omits test x x' y y' (inr e) (inr f) = rw (e, f) (omega arith)

module _ {F : Type 0} ⦃fl : Float F⦄ where
  ratio-none : (x : Option F) → ratio x none ≡ none
  unfolding ratio
  ratio-none none = refl
  ratio-none (some x) = refl

  ratio-Omits : (x x' y y' : Option F) → Omits x x' → Omits y y' → Omits (ratio x y) (ratio x' y')
  unfolding ratio
  ratio-Omits x x' y y' (inl e) k = inl (rw e refl)
  ratio-Omits x x' y y' (inr e) (inl f) = inl (rw f (ratio-none x))
  ratio-Omits x x' y y' (inr e) (inr f) = inr (rw (e, f) refl)

  -- The score is at most 9, without an earlier period at most 3, and an earlier period never lowers
  -- it.
  pub f_score_bounds :
      (current prior : FinancialStatements F)
      → (score (compute_f_score current (some prior)) ≤ 9)
        × (score (compute_f_score current none) ≤ 3)
        × (score (compute_f_score current none) ≤ score (compute_f_score current (some prior)))
  unfolding score compute_f_score current_signals
  f_score_bounds current prior =
      let b = current_signals current in
      (
        score_le (compute_f_score current (some prior)),
        omega (
          arith,
          as_int_le b.positive_net_income,
          as_int_le b.positive_operating_cash_flow,
          as_int_le b.quality_of_earnings,
        ),
        omega arith,
      )

  current_signals-OmitsFrom :
      (a b : FinancialStatements F)
      → OmitsFrom a b
      → score (current_signals a) ≤ score (current_signals b)
  unfolding score current_signals
  current_signals-OmitsFrom a b h = omega (
    arith,
    both-Omits above a.net_income b.net_income (some nought) (some nought) h.net_income_of
        (inr refl),
    both-Omits above a.operating_cash_flow b.operating_cash_flow (some nought) (some nought)
        h.operating_cash_flow_of (inr refl),
    both-Omits above a.operating_cash_flow b.operating_cash_flow a.net_income b.net_income
        h.operating_cash_flow_of h.net_income_of,
  )

  -- A test of two ratios, each of the current and of the prior period.
  ratios-OmitsFrom :
      (test : F → F → Bool) (x x' y y' u u' v v' : Option F)
      → Omits x x'
      → Omits y y'
      → Omits u u'
      → Omits v v'
      → as_int (both test (ratio x y) (ratio u v)) ≤ as_int (both test (ratio x' y') (ratio u' v'))
  ratios-OmitsFrom test x x' y y' u u' v v' h k l m =
      both-Omits test (ratio x y) (ratio x' y') (ratio u v) (ratio u' v')
        (ratio-Omits x x' y y' h k) (ratio-Omits u u' v v' l m)

  compute_f_score-OmitsFrom :
      (a b p q : FinancialStatements F)
      → OmitsFrom a b
      → OmitsFrom p q
      → score (compute_f_score a (some p)) ≤ score (compute_f_score b (some q))
  unfolding score compute_f_score current_signals
  compute_f_score-OmitsFrom a b p q h k = omega (
    arith,
    both-Omits above a.net_income b.net_income (some nought) (some nought) h.net_income_of
        (inr refl),
    both-Omits above a.operating_cash_flow b.operating_cash_flow (some nought) (some nought)
        h.operating_cash_flow_of (inr refl),
    both-Omits above a.operating_cash_flow b.operating_cash_flow a.net_income b.net_income
        h.operating_cash_flow_of h.net_income_of,
    ratios-OmitsFrom above a.net_income b.net_income a.total_assets b.total_assets p.net_income
        q.net_income p.total_assets q.total_assets h.net_income_of h.total_assets_of k.net_income_of
        k.total_assets_of,
    ratios-OmitsFrom lt a.total_liabilities b.total_liabilities a.total_assets b.total_assets
        p.total_liabilities q.total_liabilities p.total_assets q.total_assets h.total_liabilities_of
        h.total_assets_of k.total_liabilities_of k.total_assets_of,
    ratios-OmitsFrom above a.current_assets b.current_assets a.current_liabilities
        b.current_liabilities p.current_assets q.current_assets p.current_liabilities
        q.current_liabilities h.current_assets_of h.current_liabilities_of k.current_assets_of
        k.current_liabilities_of,
    both-Omits le a.shares_outstanding b.shares_outstanding p.shares_outstanding
        q.shares_outstanding h.shares_outstanding_of k.shares_outstanding_of,
    ratios-OmitsFrom above a.net_income b.net_income a.revenue b.revenue p.net_income q.net_income
        p.revenue q.revenue h.net_income_of h.revenue_of k.net_income_of k.revenue_of,
    ratios-OmitsFrom above a.revenue b.revenue a.total_assets b.total_assets p.revenue q.revenue
        p.total_assets q.total_assets h.revenue_of h.total_assets_of k.revenue_of k.total_assets_of,
  )

  -- A missing figure never counts as a good one: statements that leave out figures of the current or
  -- of the prior period, or all of the prior period, score no higher than the full ones.
  pub missing_figures_do_not_score :
      (a b : FinancialStatements F) (p q : Option (FinancialStatements F))
      → OmitsFrom a b
      → PriorOmitsFrom p q
      → score (compute_f_score a p) ≤ score (compute_f_score b q)
  unfolding compute_f_score
  missing_figures_do_not_score a b none none h k = current_signals-OmitsFrom a b h
  missing_figures_do_not_score a b none (some q) h k =
      let (_, _, lower) = f_score_bounds b q in
      omega (arith, current_signals-OmitsFrom a b h, lower)
  missing_figures_do_not_score a b (some p) none h k = elim k [ ]
  missing_figures_do_not_score a b (some p) (some q) h k = compute_f_score-OmitsFrom a b p q h k
