-- ===== src/RiskMgmt/Sizing/Bounds.antt =====
-- The budget and the share count stay inside their limits.
use market_app.Prelude.{
  String, ◌≡◌, inl, inr, refl, true, false, Option, some, arith, Bool-cases, Option-cases,
}
use market_app.Prelude.Int.{ℤ, pos, ltb_ℤ, ◌≤ℤ◌}
use market_app.Prelude.Act.{bind_option}
use market_app.Float.{
  Float, IsIeee, IsFinite, ◌≼◌, ◌≺◌, le, abs, int, div, mul, sub, nought, one, quot,
}
use market_app.RiskMgmt.Portfolio.{Portfolio}
use market_app.RiskMgmt.Regime.{max_exposure}
use market_app.RiskMgmt.Sizing.{
  Sizer, SizeReason, sized, compute_risk_budget, shares_within, position_size, size, blocks_sector,
}

module _ {F : Type 0} ⦃fl : Float F⦄ where
  -- What the constructor checks, and that the four settings are finite.
  pub record IsConfigured (s : Sizer F) : Type 0 where
    pub base_finite : IsFinite s.base_risk
    pub start_finite : IsFinite s.dd_start
    pub end_finite : IsFinite s.dd_end
    pub base_pos : nought ≼ s.base_risk
    pub start_nonneg : nought ≼ s.dd_start
    pub start_lt_end : s.dd_start ≺ s.dd_end

  -- Where the drawdown lies between the two ends, the progress towards the far end is in [0, 1].
  progress_unit :
      IsIeee F
      → (s : Sizer F) (dd : F) → IsConfigured s
      → IsFinite dd
      → le dd s.dd_start ≡ false
      → le s.dd_end dd ≡ false
      → let progress = quot (sub dd s.dd_start) (sub s.dd_end s.dd_start) in
        (div (sub dd s.dd_start) (sub s.dd_end s.dd_start) ≡ some progress)
        × (nought ≼ progress)
        × (progress ≼ one)
  progress_unit laws s dd c f above below =
      let n = laws.finite_number dd f in
      let ns = laws.finite_number s.dd_start c.start_finite in
      let ne = laws.finite_number s.dd_end c.end_finite in
      let over : s.dd_start ≼ dd = ground (arith, laws.le_total s.dd_start dd ns n) in
      let under : dd ≼ s.dd_end = ground (arith, laws.le_total s.dd_end dd ne n) in
      let width = laws.sub_pos s.dd_end s.dd_start c.end_finite c.start_finite c.start_lt_end in
      let start_le_end = laws.le_trans _ _ _ over under in
      let above_zero = laws.sub_nonneg dd s.dd_start c.start_finite over in
      let below_width =
        laws.sub_mono_left dd s.dd_end s.dd_start f c.start_finite under c.end_finite in
      let width_finite =
        laws.sub_finite_unit s.dd_end s.dd_start c.end_finite c.start_nonneg start_le_end in
      let w = sub s.dd_end s.dd_start in
      let (zero_number, w_number) = laws.lt_numbers nought w width in
      let bounds = laws.div_unit (sub dd s.dd_start) w width_finite above_zero below_width width in
      ground (arith, laws.lt-not-le nought w zero_number w_number, bounds)

  -- With settings that are finite and in the order that the constructor asks for, the risk budget
  -- of a finite drawdown is computed without an exception and lies between zero and the base risk.
  pub compute_risk_budget_bounds :
      IsIeee F
      → (s : Sizer F) (dd : F) → IsConfigured s
      → IsFinite (abs dd)
      → (budget : F) × (compute_risk_budget s dd ≡ some budget)
        × (nought ≼ budget)
        × (budget ≼ s.base_risk)
  unfolding compute_risk_budget
  compute_risk_budget_bounds laws s dd c f = elim (Bool-cases (le (abs dd) s.dd_start)) [
    | inl early ↦ (s.base_risk, rw early refl, c.base_pos, laws.finite_number _ c.base_finite)
    | inr late ↦ elim (Bool-cases (le s.dd_end (abs dd))) [
      | inl deep ↦ (nought, ground arith, laws.nought_number, c.base_pos)
      | inr mid ↦
          let (computed, low, high) = progress_unit laws s (abs dd) c f late mid in
          let progress = quot (sub (abs dd) s.dd_start) (sub s.dd_end s.dd_start) in
          let (scale_low, scale_high) = laws.one_sub_unit progress low high in
          let (b_low, b_high) =
            laws.mul_unit s.base_risk (sub one progress) c.base_finite c.base_pos scale_low
              scale_high in
          (mul s.base_risk (sub one progress), ground arith, b_low, b_high)
    ]
  ]

  -- With settings that are finite and in the order that the constructor asks for, from the far end
  -- of the drawdown scaling on no new position is opened, at any price.
  pub position_size_at_max_drawdown :
      IsIeee F
      → (s : Sizer F) (portfolio_value entry_price stop_loss_price dd : F) → IsConfigured s
      → s.dd_end ≼ abs dd
      → position_size s portfolio_value entry_price stop_loss_price dd ≡ some (pos 0)
  unfolding position_size
  position_size_at_max_drawdown laws s value entry stop dd c h =
      let n = laws.finite_number s.dd_end c.end_finite in
      ground (
        arith,
        laws.nought_number,
        laws.lt-not-le s.dd_start s.dd_end (laws.finite_number _ c.start_finite) n,
        laws.le_trans s.dd_end (abs dd) s.dd_start h,
        c.start_lt_end,
      )

  -- The cap on a position, in shares: int(value * max_position_pct / price).
  abbrev pub position_cap : Sizer F → F → F → Option ℤ
  position_cap s value price = bind_option (div (mul value s.max_position_pct) price) int

  shares_within-le-cap :
      (s : Sizer F) (value price budget risk : F) (n : ℤ)
      → shares_within s value price budget risk ≡ some n
      → (max_shares : ℤ) × (position_cap s value price ≡ some max_shares) × (n ≤ℤ max_shares)
  unfolding shares_within
  shares_within-le-cap s value price budget risk n h =
      elim (Option-cases (position_cap s value price)) [
        | inl e ↦ absurd (ground arith)
        | inr (m, e) ↦ (m, e, ground arith)
      ]

  position_size-le-cap :
      (s : Sizer F) (value price stop dd : F) (n : ℤ)
      → position_size s value price stop dd ≡ some n
      → ltb_ℤ (pos 0) n ≡ true
      → (max_shares : ℤ) × (position_cap s value price ≡ some max_shares) × (n ≤ℤ max_shares)
  unfolding position_size
  position_size-le-cap s value price stop dd n h positive =
      elim (Option-cases (compute_risk_budget s dd)) [
        | inl e ↦ absurd (ground arith)
        | inr (budget, e) ↦
            shares_within-le-cap s value price budget (abs (sub price stop)) n (ground arith)
      ]

  -- A share count of `size` is positive only if the exposure is below the cap of the regime, the
  -- sector, where it is known, is allowed in the regime, and the count is at most the position cap.
  pub size_sound :
      (s : Sizer F) (price stop : F) (p : Portfolio F) (sector : Option String) (n : ℤ)
      (reason : SizeReason)
      → size s price stop p sector ≡ some (n, reason)
      → ltb_ℤ (pos 0) n ≡ true
      → (max_shares : ℤ) × (position_cap s p.value price ≡ some max_shares)
        × (n ≤ℤ max_shares)
        × (reason ≡ sized)
        × (le (max_exposure p.regime) p.exposure_pct ≡ false)
        × (blocks_sector p.regime sector ≡ false)
  unfolding size
  size_sound s price stop p sector n reason h positive =
      let open_exposure : le (max_exposure p.regime) p.exposure_pct ≡ false = ground arith in
      let open_sector : blocks_sector p.regime sector ≡ false = ground arith in
      let (max_shares, e, bound) =
        position_size-le-cap s p.value price stop p.drawdown_pct n (ground arith) positive in
      (max_shares, e, bound, ground arith, open_exposure, open_sector)
