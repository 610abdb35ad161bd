-- ===== src/MlPipeline/Labels/Total.antt =====
-- On arrays of one length the labels of services/ml-pipeline/src/core/labels.py never raise.
use market_app.Prelude.{
  ℕ, zero, suc, ◌+◌, ◌-◌, ◌≤◌, ◌<◌, ◌≡◌, refl, Bool, true, false, not, ◌||◌, Option, none, some,
  List, [], ◌∷◌, length, ltb, leb, nat_eq, if◌then◌else◌, arith,
}
use market_app.Prelude.Act.{Outcome, done, raised}
use market_app.Float.{Float, le, mul, neg, nought}
use market_app.MlPipeline.Numpy.{Numpy}
use market_app.MlPipeline.Labels.{
  LabelParams, Probe, at_lower, at_upper, clear, unusable, Scan, touched, passed, stopped, decide,
  scan, resolve, earlier_end, label_window, get_elem?, with_elem, probe_bar, rose_from,
  trailing_sigma, upper_barrier, lower_barrier, label_with, triple_barrier_label,
  excess_barrier_label, probe_excess, excess_rose, excess_sigma, excess_return, window_to,
  barrier_width, any_not_positive,
}

-- The call does not raise.
abbrev pub Answers : {A : Type 0} → Outcome A → Type 0
Answers (done a) = Unit
Answers raised = ⊥

pub if_Answers :
    {A : Type 0}
    → (b : Bool) (x y : Outcome A) → Answers x
    → Answers y
    → Answers (if b then x else y)
if_Answers true x y h k = h
if_Answers false x y h k = k

-- The second branch may use that the test failed.
or_Answers :
    {A : Type 0}
    → (b : Bool) (x y : Outcome A) → Answers x
    → (b ≡ false → Answers y)
    → Answers (if b then x else y)
or_Answers true x y h k = h
or_Answers false x y h k = k refl

with_elem-Answers :
    {F A : Type 0}
    → (xs : List F) (j : ℕ) (f : F → Outcome A) → j < length xs
    → ((x : F) → Answers (f x))
    → Answers (with_elem (get_elem? xs j) f)
with_elem-Answers [] j f h k = ground (arith, h)
with_elem-Answers (x ∷ xs) zero f h k = k x
with_elem-Answers (x ∷ xs) (suc j) f h k = with_elem-Answers xs j f (omega (arith, h)) k

decide-Answers :
    (j : ℕ) (v : Outcome Probe) (rest : Outcome Scan)
    → Answers v
    → Answers rest
    → Answers (decide j v rest)
decide-Answers j raised rest h k = h
decide-Answers j (done at_lower) rest h k = tt
decide-Answers j (done at_upper) rest h k = tt
decide-Answers j (done clear) rest h k = k
decide-Answers j (done unusable) rest h k = tt

resolve-Answers :
    (whole : Bool) (end : ℕ) (rose : Outcome Bool) (r : Outcome Scan)
    → Answers rose
    → Answers r
    → Answers (resolve whole end rose r)
resolve-Answers whole end rose raised h k = k
resolve-Answers whole end rose (done (touched o)) h k = tt
resolve-Answers whole end rose (done stopped) h k = tt
resolve-Answers false end rose (done passed) h k = tt
resolve-Answers true end raised (done passed) h k = h
resolve-Answers true end (done up) (done passed) h k = tt

module _ (n : ℕ) (probe : ℕ → Outcome Probe) (ok : (k : ℕ) → k < n → Answers (probe k)) where
  scan-Answers : (j m : ℕ) → j + m ≤ n → Answers (scan probe j m)
  unfolding scan
  scan-Answers j zero h = tt
  scan-Answers j (suc m) h =
      decide-Answers j (probe j) (scan probe (suc j) m) (ok j (omega arith))
        (scan-Answers (suc j) m (omega arith))

  label_window-Answers :
      (horizon i : ℕ) (rose : ℕ → Outcome Bool)
      → i + 1 < n
      → ((k : ℕ) → k < n → Answers (rose k))
      → Answers (label_window n horizon i probe rose)
  unfolding label_window
  label_window-Answers horizon i rose h k =
      let end = earlier_end (i + horizon) (n - 1) in
      resolve-Answers (leb (i + horizon) end) end (rose end) (scan probe (suc i) (end - i))
        (k end (ground (arith, h))) (scan-Answers (suc i) (end - i) (ground (arith, h)))

module _ {F : Type 0} ⦃fl : Float F⦄ ⦃np : Numpy F⦄ where
  label_with-Answers :
      (closes highs lows : List F) (i : ℕ) (p : LabelParams F) (o : Option F)
      → length highs ≡ length closes
      → length lows ≡ length closes
      → Answers (label_with closes highs lows i p o)
  unfolding label_with probe_bar
  label_with-Answers closes highs lows i p none e f = tt
  label_with-Answers closes highs lows i p (some sigma) e f =
      or_Answers (leb (length closes) (i + 1)) _ _ tt λ b.
        with_elem-Answers closes i _ (ground (arith, b)) λ start.
          label_window-Answers (length closes)
            (probe_bar highs lows (lower_barrier p sigma start) (upper_barrier p sigma start))
            (λ k l. with_elem-Answers lows k _ (omega (arith, l, f)) λ low.
              if_Answers (le low (lower_barrier p sigma start)) _ _ tt (
                with_elem-Answers highs k _ (omega (arith, l, e))
                  λ high. if_Answers (le (upper_barrier p sigma start) high) _ _ tt tt))
            p.horizon i (rose_from closes start) (ground (arith, b))
            λ k l. with_elem-Answers closes k _ l λ close. tt

  -- On three arrays of one length `triple_barrier_label` never raises, and `excess_barrier_label`
  -- never does.
  pub labels_answer :
      (closes highs lows market : List F) (i : ℕ) (p : LabelParams F)
      → length highs ≡ length closes
      → length lows ≡ length closes
      → Answers (triple_barrier_label closes highs lows i p)
        × Answers (excess_barrier_label closes market i p)
  unfolding triple_barrier_label excess_barrier_label probe_excess
  labels_answer closes highs lows market i p e f =
      let stock_segment = window_to p.sigma_window i closes in
      let market_segment = window_to p.sigma_window i market in
      let sigma = excess_sigma stock_segment market_segment in
      let low = mul (neg p.sl_mult) (barrier_width p sigma) in
      let high = mul p.pt_mult (barrier_width p sigma) in
      (
        label_with-Answers closes highs lows i p (trailing_sigma closes i p.sigma_window) e f,
        or_Answers (leb (length closes) (i + 1) || not (nat_eq (length market) (length closes))) _ _
            tt
            λ b. if_Answers (ltb i p.sigma_window || any_not_positive stock_segment) _ _ tt (
              if_Answers (any_not_positive market_segment || le sigma nought) _ _ tt (
                with_elem-Answers closes i _ (ground (arith, b)) λ start.
                  with_elem-Answers market i _ (ground (arith, b)) λ market_start.
                    label_window-Answers (length closes)
                      (probe_excess closes market start market_start low high)
                      (λ k l. with_elem-Answers market k _ (ground (arith, b, l)) λ m.
                        with_elem-Answers closes k _ l λ c.
                          if_Answers (le m nought || le c nought) _ _ tt (
                            if_Answers (le (excess_return start market_start c m) low) _ _ tt (
                              if_Answers (le high (excess_return start market_start c m)) _ _ tt
                                tt)))
                      p.horizon i (excess_rose closes market start market_start) (ground (arith, b))
                      λ k l.
                        with_elem-Answers closes k _ l
                          λ c. with_elem-Answers market k _ (ground (arith, b, l)) λ m. tt)),
      )
