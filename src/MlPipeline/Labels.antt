-- ===== src/MlPipeline/Labels.antt =====
-- services/ml-pipeline/src/core/labels.py: the labels that the models are trained on. An index
-- outside an array is an exception, `raised`.
pub mod Touches
pub mod Bars
pub mod Total
pub mod FirstTouch
mod Tests
use market_app.Prelude.{
  ℕ, zero, suc, ◌+◌, ◌-◌, ◌*◌, ◌/◌, ◌≡◌, Bool, true, false, not, ◌&&◌, ◌||◌, Option, none, some,
  List, [], ◌∷◌, ltb, leb, nat_eq, length, take, drop, map, if◌then◌else◌,
}
use market_app.Prelude.Act.{Outcome, done, raised}
use market_app.Prelude.Int.{pos}
use market_app.Float.{Float, lt, le, add, sub, mul, quot, neg, of_int, nought, one}
use market_app.MlPipeline.Numpy.{Numpy}

-- `math.ceil(3 * horizon * 365.25 / 252)`, in exact arithmetic
unfoldable pub outcome_drop_after_days : ℕ → ℕ
outcome_drop_after_days horizon = (3 * horizon * 36_525 + 25_199) / 25_200

pub record LabelParams (F : Type 0) : Type 0 where
  pub sigma_window : ℕ
  pub pt_mult : F
  pub sl_mult : F
  pub horizon : ℕ

pub data Barrier : Type 0 where
  upper : Barrier
  lower : Barrier
  vertical : Barrier

pub record BarrierOutcome : Type 0 where
  pub label : ℕ
  pub touch_index : ℕ
  pub barrier : Barrier

-- What one bar says of the two horizontal barriers; `unusable` is the early `return None`.
pub data Probe : Type 0 where
  at_lower : Probe
  at_upper : Probe
  clear : Probe
  unusable : Probe

pub data Scan : Type 0 where
  touched : BarrierOutcome → Scan
  passed : Scan
  stopped : Scan

-- What the loop does at bar `j`, where the bars after it give `rest`.
abbrev pub decide : ℕ → Outcome Probe → Outcome Scan → Outcome Scan
decide j raised rest = raised
decide j (done at_lower) rest =
    done (touched (record { label = 0; touch_index = j; barrier = lower }))
decide j (done at_upper) rest =
    done (touched (record { label = 1; touch_index = j; barrier = upper }))
decide j (done clear) rest = rest
decide j (done unusable) rest = done stopped

-- The loop over the `n` bars from `j` on.
unfoldable pub scan : (ℕ → Outcome Probe) → ℕ → ℕ → Outcome Scan
scan probe j zero = done passed
scan probe j (suc n) = decide j (probe j) (scan probe (suc j) n)

abbrev pub earlier_end : ℕ → ℕ → ℕ
earlier_end a b = if leb a b then a else b

-- After the loop: a window that history cuts short has no label, else the sign at its end decides.
abbrev pub resolve : Bool → ℕ → Outcome Bool → Outcome Scan → Outcome (Option BarrierOutcome)
resolve whole end rose raised = raised
resolve whole end rose (done (touched o)) = done (some o)
resolve whole end rose (done stopped) = done none
resolve false end rose (done passed) = done none
resolve true end raised (done passed) = raised
resolve true end (done up) (done passed) =
    done (some (record { label = if up then 1 else 0; touch_index = end; barrier = vertical }))

-- The scan of the bars after `i` up to the vertical barrier, in a history of `n` bars.
unfoldable pub label_window :
    ℕ → ℕ → ℕ → (ℕ → Outcome Probe) → (ℕ → Outcome Bool) → Outcome (Option BarrierOutcome)
label_window n horizon i probe rose =
    let end = earlier_end (i + horizon) (n - 1) in
    resolve (leb (i + horizon) end) end (rose end) (scan probe (suc i) (end - i))

module _ {F : Type 0} where
  -- `xs[j]`
  abbrev pub get_elem? : List F → ℕ → Option F
  get_elem? [] j = none
  get_elem? (x ∷ xs) zero = some x
  get_elem? (x ∷ xs) (suc j) = get_elem? xs j

  abbrev pub with_elem : {A : Type 0} → Option F → (F → Outcome A) → Outcome A
  with_elem none f = raised
  with_elem (some x) f = f x

  abbrev pub window_to : ℕ → ℕ → List F → List F
  window_to window i xs = take (suc window) (drop (i - window) xs)

module _ {F : Type 0} ⦃fl : Float F⦄ where
  abbrev pub any_not_positive : List F → Bool
  any_not_positive [] = false
  any_not_positive (x ∷ xs) = le x nought || any_not_positive xs

  -- `np.diff`
  abbrev pub diff : List F → List F
  diff [] = []
  diff (x ∷ []) = []
  diff (x ∷ y ∷ xs) = sub y x ∷ diff (y ∷ xs)

  -- The difference of two arrays of one length
  abbrev pub minus_each : List F → List F → List F
  minus_each [] ys = []
  minus_each (x ∷ xs) [] = []
  minus_each (x ∷ xs) (y ∷ ys) = sub x y ∷ minus_each xs ys

  -- `lows[j] <= lower` is tested first: a bar that touches both barriers is a loss.
  unfoldable pub probe_bar : List F → List F → F → F → ℕ → Outcome Probe
  probe_bar highs lows low_barrier high_barrier j = with_elem (get_elem? lows j) λ low.
      if le low low_barrier
      then done at_lower
      else with_elem (get_elem? highs j)
          λ high. if le high_barrier high then done at_upper else done clear

  abbrev pub rose_from : List F → F → ℕ → Outcome Bool
  rose_from closes start end = with_elem (get_elem? closes end) λ close. done (lt start close)

module _ {F : Type 0} ⦃fl : Float F⦄ ⦃np : Numpy F⦄ where
  unfoldable pub trailing_sigma : List F → ℕ → ℕ → Option F
  trailing_sigma closes i window =
      let segment = window_to window i closes in
      if ltb i window || any_not_positive segment
      then none
      else let sigma = np.std_op (diff (map np.log_op segment)) in
        if lt nought sigma then some sigma else none

  abbrev pub barrier_width : LabelParams F → F → F
  barrier_width p sigma = mul sigma (np.sqrt_op (of_int (pos p.horizon)))

  -- The two horizontal barriers around the close `start`.
  abbrev pub upper_barrier : LabelParams F → F → F → F
  upper_barrier p sigma start = mul start (add one (mul p.pt_mult (barrier_width p sigma)))

  abbrev pub lower_barrier : LabelParams F → F → F → F
  lower_barrier p sigma start = mul start (sub one (mul p.sl_mult (barrier_width p sigma)))

  -- The label of bar `i` for its volatility.
  unfoldable pub label_with :
      List F → List F → List F → ℕ → LabelParams F → Option F → Outcome (Option BarrierOutcome)
  label_with closes highs lows i p none = done none
  label_with closes highs lows i p (some sigma) =
      if leb (length closes) (i + 1)
      then done none
      else with_elem (get_elem? closes i) λ start.
        label_window (length closes) p.horizon i
          (probe_bar highs lows (lower_barrier p sigma start) (upper_barrier p sigma start))
          (rose_from closes start)

  unfoldable pub triple_barrier_label :
      List F → List F → List F → ℕ → LabelParams F → Outcome (Option BarrierOutcome)
  triple_barrier_label closes highs lows i p =
      label_with closes highs lows i p (trailing_sigma closes i p.sigma_window)

  -- log(close_j / close_i) - log(market_j / market_i). Its prices are positive where it is used, so
  -- that `math.log` does not raise but for a quotient that underflows to zero, which is left out.
  abbrev pub excess_return : F → F → F → F → F
  excess_return start market_start close market =
      sub (np.log_op (quot close start)) (np.log_op (quot market market_start))

  unfoldable pub probe_excess : List F → List F → F → F → F → F → ℕ → Outcome Probe
  probe_excess closes market start market_start low_barrier high_barrier j =
      with_elem (get_elem? market j) λ m. with_elem (get_elem? closes j) λ c.
        if le m nought || le c nought
        then done unusable
        else if le (excess_return start market_start c m) low_barrier
        then done at_lower
        else if le high_barrier (excess_return start market_start c m)
        then done at_upper
        else done clear

  abbrev pub excess_rose : List F → List F → F → F → ℕ → Outcome Bool
  excess_rose closes market start market_start end = with_elem (get_elem? closes end) λ c.
      with_elem (get_elem? market end) λ m. done (lt nought (excess_return start market_start c m))

  abbrev pub excess_sigma : List F → List F → F
  excess_sigma stock_segment market_segment =
      np.std_op
        (minus_each (diff (map np.log_op stock_segment)) (diff (map np.log_op market_segment)))

  unfoldable pub excess_barrier_label :
      List F → List F → ℕ → LabelParams F → Outcome (Option BarrierOutcome)
  excess_barrier_label closes market i p =
      let stock_segment = window_to p.sigma_window i closes in
      let market_segment = window_to p.sigma_window i market in
      let sigma = excess_sigma stock_segment market_segment in
      if leb (length closes) (i + 1) || not (nat_eq (length market) (length closes))
      then done none
      else if ltb i p.sigma_window || any_not_positive stock_segment
      then done none
      else if any_not_positive market_segment || le sigma nought
      then done none
      else with_elem (get_elem? closes i) λ start. with_elem (get_elem? market i) λ market_start.
        label_window (length closes) p.horizon i
          (probe_excess closes market start market_start
            (mul (neg p.sl_mult) (barrier_width p sigma)) (mul p.pt_mult (barrier_width p sigma)))
          (excess_rose closes market start market_start)
