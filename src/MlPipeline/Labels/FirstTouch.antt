-- ===== src/MlPipeline/Labels/FirstTouch.antt =====
-- The labels of services/ml-pipeline/src/core/labels.py are those of the first barrier touched.
use market_app.Prelude.{
  ℕ, ◌+◌, ◌<◌, ◌≡◌, inl, inr, refl, sym, ◌∙◌, false, some, List, length, ltb, leb, nat_eq, not,
  ◌||◌, Bool-cases, Option-cases, arith,
}
use mathlib.Core.Path.{subst}
use market_app.MlPipeline.Labels.Touches.{IsHonest, label_window-IsHonest}
use market_app.MlPipeline.Labels.Bars.{Resolves, IsHonest-Resolves}
use market_app.Prelude.Act.{done}
use market_app.Float.{Float, le, mul, neg, nought}
use market_app.MlPipeline.Numpy.{Numpy}
use market_app.MlPipeline.Labels.{
  LabelParams, BarrierOutcome, label_window, get_elem?, probe_bar, rose_from, trailing_sigma,
  upper_barrier, lower_barrier, label_with, triple_barrier_label, excess_barrier_label,
  probe_excess, excess_rose, excess_sigma, window_to, barrier_width, any_not_positive,
}

module _ {F : Type 0} ⦃fl : Float F⦄ ⦃np : Numpy F⦄ where
  triple_window :
      (closes highs lows : List F) (i : ℕ) (p : LabelParams F) (sigma start : F)
      → trailing_sigma closes i p.sigma_window ≡ some sigma
      → leb (length closes) (i + 1) ≡ false
      → get_elem? closes i ≡ some start
      → triple_barrier_label closes highs lows i p
        ≡ label_window
            (length closes)
            p.horizon
            i
            (probe_bar highs lows (lower_barrier p sigma start) (upper_barrier p sigma start))
            (rose_from closes start)
  unfolding triple_barrier_label label_with
  triple_window closes highs lows i p sigma start s b g = rw (s, b, g) refl

  -- With a positive horizon: where `triple_barrier_label` gives bar `i` a label, `i` has a
  -- volatility, and between the barriers that it makes around the close of `i` the label resolves
  -- after `i`, within the horizon and the history. Every bar in between has its low above the lower
  -- barrier and its high below the upper one. A label of the lower barrier is 0 and its bar has its
  -- low at the barrier or below it, whatever its high; one of the upper barrier is 1 and its bar has
  -- its high at the barrier or above it and its low above the lower one; one of the vertical barrier
  -- stands exactly at the horizon, at a bar that touches neither.
  pub label_is_first_touch :
      (closes highs lows : List F) (i : ℕ) (p : LabelParams F) (o : BarrierOutcome)
      → 0 < p.horizon
      → triple_barrier_label closes highs lows i p ≡ done (some o)
      → (sigma : F) × (start : F) × (trailing_sigma closes i p.sigma_window ≡ some sigma)
        × (get_elem? closes i ≡ some start)
        × Resolves highs lows
            (lower_barrier p sigma start)
            (upper_barrier p sigma start)
            (length closes)
            p.horizon
            i
            o
  unfolding triple_barrier_label label_with
  label_is_first_touch closes highs lows i p o h e =
      elim (Option-cases (trailing_sigma closes i p.sigma_window)) [
        | inl s ↦ ground (arith, e, s)
        | inr (sigma, s) ↦ elim (Bool-cases (leb (length closes) (i + 1))) [
          | inl b ↦ ground (arith, e, s, b)
          | inr b ↦ elim (Option-cases (get_elem? closes i)) [
            | inl g ↦ ground (arith, e, s, b, g)
            | inr (start, g) ↦
                let probe =
                  probe_bar highs lows (lower_barrier p sigma start)
                    (upper_barrier p sigma start) in
                (
                  sigma,
                  start,
                  s,
                  g,
                  IsHonest-Resolves highs lows (lower_barrier p sigma start)
                      (upper_barrier p sigma start) (length closes) p.horizon i o
                      (subst (IsHonest probe (length closes) p.horizon i)
                        (sym (triple_window closes highs lows i p sigma start s b g) ∙ e)
                        (label_window-IsHonest probe (length closes) p.horizon i
                          (rose_from closes start) h (ground (arith, b)))),
                )
          ]
        ]
      ]

  excess_window :
      (closes market : List F) (i : ℕ) (p : LabelParams F) (start market_start : F)
      → let stock_segment = window_to p.sigma_window i closes in
        let market_segment = window_to p.sigma_window i market in
        let sigma = excess_sigma stock_segment market_segment in
        (leb (length closes) (i + 1) || not (nat_eq (length market) (length closes)) ≡ false)
        → (ltb i p.sigma_window || any_not_positive stock_segment ≡ false)
        → (any_not_positive market_segment || le sigma nought ≡ false)
        → get_elem? closes i ≡ some start
        → get_elem? market i ≡ some market_start
        → excess_barrier_label closes market i p
          ≡ label_window
              (length closes)
              p.horizon
              i
              (probe_excess closes market start market_start
                (mul (neg p.sl_mult) (barrier_width p sigma))
                (mul p.pt_mult (barrier_width p sigma)))
              (excess_rose closes market start market_start)
  unfolding excess_barrier_label
  excess_window closes market i p start market_start a b c g k = rw (a, b, c, g, k) refl

  -- With a positive horizon: where `excess_barrier_label` gives bar `i` a label, the label is that
  -- of the first bar after `i`, within the horizon and the history, whose return relative to the
  -- market touches a barrier, a lower touch first, or of the vertical barrier at the horizon.
  pub excess_label_is_first_touch :
      (closes market : List F) (i : ℕ) (p : LabelParams F) (o : BarrierOutcome)
      → 0 < p.horizon
      → excess_barrier_label closes market i p ≡ done (some o)
      → (start : F) × (market_start : F) × (get_elem? closes i ≡ some start)
        × (get_elem? market i ≡ some market_start)
        × (let width = barrier_width p (
              excess_sigma
                (window_to p.sigma_window i closes)
                (window_to p.sigma_window i market)) in
            IsHonest
              (probe_excess closes market start market_start
                (mul (neg p.sl_mult) width)
                (mul p.pt_mult width))
              (length closes)
              p.horizon
              i
              (done (some o)))
  unfolding excess_barrier_label
  excess_label_is_first_touch closes market i p o h e =
      let stock_segment = window_to p.sigma_window i closes in
      let market_segment = window_to p.sigma_window i market in
      let sigma = excess_sigma stock_segment market_segment in
      let short = leb (length closes) (i + 1) || not (nat_eq (length market) (length closes)) in
      let unready = ltb i p.sigma_window || any_not_positive stock_segment in
      let flat = any_not_positive market_segment || le sigma nought in
      elim (Bool-cases short) [
        | inl a ↦ ground (arith, e, a)
        | inr a ↦ elim (Bool-cases unready) [
          | inl b ↦ ground (arith, e, a, b)
          | inr b ↦ elim (Bool-cases flat) [
            | inl c ↦ ground (arith, e, a, b, c)
            | inr c ↦ elim (Option-cases (get_elem? closes i)) [
              | inl g ↦ ground (arith, e, a, b, c, g)
              | inr (start, g) ↦ elim (Option-cases (get_elem? market i)) [
                | inl k ↦ ground (arith, e, a, b, c, g, k)
                | inr (market_start, k) ↦
                    let probe =
                      probe_excess closes market start market_start
                        (mul (neg p.sl_mult) (barrier_width p sigma))
                        (mul p.pt_mult (barrier_width p sigma)) in
                    (
                      start,
                      market_start,
                      g,
                      k,
                      subst (IsHonest probe (length closes) p.horizon i)
                          (sym (excess_window closes market i p start market_start a b c g k) ∙ e)
                          (label_window-IsHonest probe (length closes) p.horizon i
                            (excess_rose closes market start market_start) h (ground (arith, a))),
                    )
              ]
            ]
          ]
        ]
      ]
