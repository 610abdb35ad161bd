-- ===== src/MlPipeline/Labels/Bars.antt =====
-- What the bars of services/ml-pipeline/src/core/labels.py say of two barriers, in their prices.
use market_app.Prelude.{
  ℕ, zero, suc, ◌+◌, ◌-◌, ◌≤◌, ◌<◌, ◌≡◌, inl, inr, true, false, some, List, Bool-cases,
  Option-cases, arith,
}
use market_app.Prelude.Act.{done}
use market_app.Float.{Float, le}
use market_app.MlPipeline.Labels.{
  Barrier, BarrierOutcome, upper, lower, vertical, Probe, at_lower, at_upper, clear, get_elem?,
  probe_bar,
}
use market_app.MlPipeline.Labels.Touches.{Untouched, Says, IsHonest}

module _ {F : Type 0} ⦃fl : Float F⦄ (highs lows : List F) (low_barrier high_barrier : F) where
  -- The low of bar `j` is at the lower barrier or below it.
  abbrev pub TouchesLower : ℕ → Type 0
  TouchesLower j = (low : F) × (get_elem? lows j ≡ some low) × (le low low_barrier ≡ true)

  -- Its low is above the lower barrier, and its high at the upper one or above it.
  abbrev pub TouchesUpper : ℕ → Type 0
  TouchesUpper j =
      (low : F) × (high : F) × (get_elem? lows j ≡ some low)
      × (get_elem? highs j ≡ some high)
      × (le low low_barrier ≡ false)
      × (le high_barrier high ≡ true)

  -- Its low is above the lower barrier and its high below the upper one.
  abbrev pub TouchesNeither : ℕ → Type 0
  TouchesNeither j =
      (low : F) × (high : F) × (get_elem? lows j ≡ some low)
      × (get_elem? highs j ≡ some high)
      × (le low low_barrier ≡ false)
      × (le high_barrier high ≡ false)

  -- None of the `n` bars from `j` on touches a barrier.
  abbrev pub NoneTouches : ℕ → ℕ → Type 0
  NoneTouches j zero = Unit
  NoneTouches j (suc n) = TouchesNeither j × NoneTouches (suc j) n

  -- The barrier that an outcome names, at the bar that it names; `end` is the vertical barrier.
  abbrev pub Names : ℕ → Barrier → ℕ → ℕ → Type 0
  Names end lower j label = TouchesLower j × (label ≡ 0)
  Names end upper j label = TouchesUpper j × (label ≡ 1)
  Names end vertical j label = TouchesNeither j × (j ≡ end)

  -- What is known of a bar whose prices are there.
  bar_cases :
      (j : ℕ) (v : Probe)
      → probe_bar highs lows low_barrier high_barrier j ≡ done v
      → ((low : F) × (get_elem? lows j ≡ some low))
  unfolding probe_bar
  bar_cases j v h = elim (Option-cases (get_elem? lows j)) [
    | inl missing ↦ absurd (ground (arith, h, missing))
    | inr known ↦ known
  ]

  high_cases :
      (j : ℕ) (v : Probe) (low : F)
      → probe_bar highs lows low_barrier high_barrier j ≡ done v
      → get_elem? lows j ≡ some low
      → le low low_barrier ≡ false
      → ((high : F) × (get_elem? highs j ≡ some high))
  unfolding probe_bar
  high_cases j v low h l above = elim (Option-cases (get_elem? highs j)) [
    | inl missing ↦ absurd (ground (arith, h, l, above, missing))
    | inr known ↦ known
  ]

  lower-TouchesLower :
      (j : ℕ) → probe_bar highs lows low_barrier high_barrier j ≡ done at_lower → TouchesLower j
  unfolding probe_bar
  lower-TouchesLower j h =
      let (low, l) = bar_cases j at_lower h in
      elim (Bool-cases (le low low_barrier)) [
        | inl touch ↦ (low, l, touch)
        | inr above ↦
            let (high, k) = high_cases j at_lower low h l above in
            absurd (ground (arith, h, l, k, above))
      ]

  upper-TouchesUpper :
      (j : ℕ) → probe_bar highs lows low_barrier high_barrier j ≡ done at_upper → TouchesUpper j
  unfolding probe_bar
  upper-TouchesUpper j h =
      let (low, l) = bar_cases j at_upper h in
      elim (Bool-cases (le low low_barrier)) [
        | inl touch ↦ absurd (ground (arith, h, l, touch))
        | inr above ↦
            let (high, k) = high_cases j at_upper low h l above in
            (low, high, l, k, above, ground (arith, h, l, k, above))
      ]

  clear-TouchesNeither :
      (j : ℕ) → probe_bar highs lows low_barrier high_barrier j ≡ done clear → TouchesNeither j
  unfolding probe_bar
  clear-TouchesNeither j h =
      let (low, l) = bar_cases j clear h in
      elim (Bool-cases (le low low_barrier)) [
        | inl touch ↦ absurd (ground (arith, h, l, touch))
        | inr above ↦
            let (high, k) = high_cases j clear low h l above in
            (low, high, l, k, above, ground (arith, h, l, k, above))
      ]

  Untouched-NoneTouches :
      (j n : ℕ) → Untouched (probe_bar highs lows low_barrier high_barrier) j n → NoneTouches j n
  Untouched-NoneTouches j zero h = tt
  Untouched-NoneTouches j (suc n) (h, hs) =
      (clear-TouchesNeither j h, Untouched-NoneTouches (suc j) n hs)

  Says-Names :
      (end : ℕ) (b : Barrier) (j label : ℕ)
      → Says (probe_bar highs lows low_barrier high_barrier) end b j label
      → Names end b j label
  Says-Names end lower j label (h, e) = (lower-TouchesLower j h, e)
  Says-Names end upper j label (h, e) = (upper-TouchesUpper j h, e)
  Says-Names end vertical j label (h, e) = (clear-TouchesNeither j h, e)

  -- The outcome for bar `i` in a history of `n` bars: it resolves after `i`, within the horizon and
  -- the history, at the first bar that touches a barrier, or untouched at the vertical barrier.
  abbrev pub Resolves : ℕ → ℕ → ℕ → BarrierOutcome → Type 0
  Resolves n horizon i o =
      (i < o.touch_index)
      × (o.touch_index ≤ i + horizon)
      × (o.touch_index < n)
      × NoneTouches (suc i) (o.touch_index - suc i)
      × Names (i + horizon) o.barrier o.touch_index o.label

  pub IsHonest-Resolves :
      (n horizon i : ℕ) (o : BarrierOutcome)
      → IsHonest (probe_bar highs lows low_barrier high_barrier) n horizon i (done (some o))
      → Resolves n horizon i o
  IsHonest-Resolves n horizon i o (a, b, c, quiet, why) = (
    a,
    b,
    c,
    Untouched-NoneTouches (suc i) (o.touch_index - suc i) quiet,
    Says-Names (i + horizon) o.barrier o.touch_index o.label why,
  )
