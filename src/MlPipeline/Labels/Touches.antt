-- ===== src/MlPipeline/Labels/Touches.antt =====
-- The scan of services/ml-pipeline/src/core/labels.py ends at the first barrier touched.
use market_app.Prelude.{
  ℕ, zero, suc, ◌+◌, ◌-◌, ◌≤◌, ◌<◌, ◌≡◌, inl, inr, refl, sym, Bool, true, false, Option, none, some,
  leb, if◌then◌else◌, Bool-cases, arith,
}
use mathlib.Core.Path.{subst}
use market_app.Prelude.Act.{Outcome, done, raised}
use market_app.MlPipeline.Labels.{
  BarrierOutcome, Barrier, upper, lower, vertical, Probe, at_lower, at_upper, clear, unusable, Scan,
  touched, passed, stopped, decide, scan, resolve, earlier_end, label_window,
}

-- None of the `n` bars from `j` on touches a barrier.
abbrev pub Untouched : (ℕ → Outcome Probe) → ℕ → ℕ → Type 0
Untouched probe j zero = Unit
Untouched probe j (suc n) = (probe j ≡ done clear) × Untouched probe (suc j) n

-- What a barrier says of the bar `j` that it names; `end` is the bar of the vertical barrier.
abbrev pub Says : (ℕ → Outcome Probe) → ℕ → Barrier → ℕ → ℕ → Type 0
Says probe end lower j label = (probe j ≡ done at_lower) × (label ≡ 0)
Says probe end upper j label = (probe j ≡ done at_upper) × (label ≡ 1)
Says probe end vertical j label = (probe j ≡ done clear) × (j ≡ end)

abbrev pub Explains : (ℕ → Outcome Probe) → ℕ → BarrierOutcome → Type 0
Explains probe end o = Says probe end o.barrier o.touch_index o.label

-- The same of a horizontal barrier alone.
abbrev SaysTouched : (ℕ → Outcome Probe) → Barrier → ℕ → ℕ → Type 0
SaysTouched probe lower j label = (probe j ≡ done at_lower) × (label ≡ 0)
SaysTouched probe upper j label = (probe j ≡ done at_upper) × (label ≡ 1)
SaysTouched probe vertical j label = ⊥

SaysTouched-Says :
    (probe : ℕ → Outcome Probe) (end : ℕ) (b : Barrier) (j label : ℕ)
    → SaysTouched probe b j label
    → Says probe end b j label
SaysTouched-Says probe end lower j label h = h
SaysTouched-Says probe end upper j label h = h
SaysTouched-Says probe end vertical j label h = elim h [ ]

abbrev IsFirst : (ℕ → Outcome Probe) → ℕ → ℕ → BarrierOutcome → Type 0
IsFirst probe j n o =
    (j ≤ o.touch_index)
    × (o.touch_index < j + n)
    × Untouched probe j (o.touch_index - j)
    × SaysTouched probe o.barrier o.touch_index o.label

shift_bound : (t j n : ℕ) → suc j ≤ t → t < suc j + n → (j ≤ t) × (t < j + suc n)
shift_bound t j n h k = (omega arith, omega arith)

suc_gap : (t j : ℕ) → suc j ≤ t → suc (t - suc j) ≡ t - j
suc_gap t j h = omega arith

suc_add : (j n : ℕ) → suc j + n ≡ j + suc n
suc_add j n = omega arith

no_gap : (j n : ℕ) → (j ≤ j) × (j < j + suc n) × (0 ≡ j - j)
no_gap j n = (omega arith, omega arith, omega arith)

window_size :
    (n horizon i : ℕ)
    → 0 < horizon
    → i + 1 < n
    → (m : ℕ) × (earlier_end (i + horizon) (n - 1) ≡ i + suc m)
      × (suc i + suc m ≤ n)
      × (suc m ≤ horizon)
      × (leb (i + horizon) (i + suc m) ≡ true → suc m ≡ horizon)
window_size n horizon i p h = elim (Bool-cases (leb (i + horizon) (n - 1))) [
  | inl e ↦ (horizon - 1, ground (arith, e), ground (arith, e), omega arith, λ _. omega arith)
  | inr e ↦ (
    n - 1 - i - 1,
    ground (arith, e),
    ground (arith, e),
    ground (arith, e),
    λ f. ground (arith, e, f),
  )
]

add_sub_cancel : (i m : ℕ) → m ≡ (i + m) - i
add_sub_cancel i m = omega arith

module _ (probe : ℕ → Outcome Probe) where
  -- What a result of the loop says of the bars.
  abbrev Verdict : ℕ → ℕ → Outcome Scan → Type 0
  Verdict j n raised = Unit
  Verdict j n (done stopped) = Unit
  Verdict j n (done passed) = Untouched probe j n
  Verdict j n (done (touched o)) = IsFirst probe j n o

  later :
      (j n : ℕ) (o : BarrierOutcome)
      → probe j ≡ done clear
      → IsFirst probe (suc j) n o
      → IsFirst probe j (suc n) o
  later j n o e (h, k, quiet, why) =
      let (h', k') = shift_bound o.touch_index j n h k in
      (h', k', subst (Untouched probe j) (suc_gap o.touch_index j h) (e, quiet), why)

  decide-Verdict :
      (j n : ℕ) (v : Outcome Probe) (rest : Outcome Scan)
      → probe j ≡ v
      → Verdict (suc j) n rest
      → Verdict j (suc n) (decide j v rest)
  decide-Verdict j n raised rest e h = tt
  decide-Verdict j n (done unusable) rest e h = tt
  decide-Verdict j n (done at_lower) rest e h =
      let (a, b, c) = no_gap j n in (a, b, subst (Untouched probe j) c tt, (e, refl))
  decide-Verdict j n (done at_upper) rest e h =
      let (a, b, c) = no_gap j n in (a, b, subst (Untouched probe j) c tt, (e, refl))
  decide-Verdict j n (done clear) raised e h = tt
  decide-Verdict j n (done clear) (done stopped) e h = tt
  decide-Verdict j n (done clear) (done passed) e h = (e, h)
  decide-Verdict j n (done clear) (done (touched o)) e h = later j n o e h

  scan-Verdict : (j n : ℕ) → Verdict j n (scan probe j n)
  unfolding scan
  scan-Verdict j zero = tt
  scan-Verdict j (suc n) =
      decide-Verdict j n (probe j) (scan probe (suc j) n) refl (scan-Verdict (suc j) n)

  -- The label of bar `i` in a history of `n` bars: it resolves after `i`, within the horizon and
  -- the history, at the first bar that touches a barrier, or at the vertical barrier untouched.
  abbrev pub IsHonest : ℕ → ℕ → ℕ → Outcome (Option BarrierOutcome) → Type 0
  IsHonest n horizon i raised = Unit
  IsHonest n horizon i (done none) = Unit
  IsHonest n horizon i (done (some o)) =
      (i < o.touch_index)
      × (o.touch_index ≤ i + horizon)
      × (o.touch_index < n)
      × Untouched probe (suc i) (o.touch_index - suc i)
      × Explains probe (i + horizon) o

  -- The last of some untouched bars.
  Untouched-last :
      (j n : ℕ) → Untouched probe j (suc n) → (probe (j + n) ≡ done clear) × Untouched probe j n
  Untouched-last j zero (e, h) = (subst (λ k. probe k ≡ done clear) (omega arith) e, tt)
  Untouched-last j (suc n) (e, h) =
      let (last, rest) = Untouched-last (suc j) n h in
      (subst (λ k. probe k ≡ done clear) (suc_add j n) last, (e, rest))

  vertical_IsHonest :
      (n horizon i m : ℕ) (up : Bool) (k : ℕ)
      → k ≡ suc i + m
      → k ≡ i + horizon
      → k < n
      → Untouched probe (suc i) (suc m)
      → IsHonest n horizon i (
          done (some (record { label = if up then 1 else 0; touch_index = k; barrier = vertical })))
  vertical_IsHonest n horizon i m up k e f l h =
      let (last, rest) = Untouched-last (suc i) m h in
      (
        omega arith,
        omega arith,
        l,
        subst (Untouched probe (suc i)) (omega arith) rest,
        (subst (λ j. probe j ≡ done clear) (sym e) last, f),
      )

  found_IsHonest :
      (n horizon i m : ℕ) (o : BarrierOutcome)
      → suc i + m ≤ n
      → m ≤ horizon
      → IsFirst probe (suc i) m o
      → IsHonest n horizon i (done (some o))
  found_IsHonest n horizon i m o k l (h, h', quiet, why) = (
    omega arith,
    omega arith,
    omega arith,
    quiet,
    SaysTouched-Says probe (i + horizon) o.barrier o.touch_index o.label why,
  )

  resolve-IsHonest :
      (n horizon i m : ℕ) (whole : Bool) (rose : Outcome Bool) (r : Outcome Scan)
      → suc i + suc m ≤ n
      → suc m ≤ horizon
      → (whole ≡ true → suc m ≡ horizon)
      → Verdict (suc i) (suc m) r
      → IsHonest n horizon i (resolve whole (i + suc m) rose r)
  resolve-IsHonest n horizon i m whole rose raised k l f v = tt
  resolve-IsHonest n horizon i m whole rose (done stopped) k l f v = tt
  resolve-IsHonest n horizon i m whole rose (done (touched o)) k l f v =
      found_IsHonest n horizon i (suc m) o k l v
  resolve-IsHonest n horizon i m false rose (done passed) k l f v = tt
  resolve-IsHonest n horizon i m true raised (done passed) k l f v = tt
  resolve-IsHonest n horizon i m true (done up) (done passed) k l f v =
      vertical_IsHonest n horizon i m up (i + suc m) (omega arith) (omega (arith, f refl))
        (omega arith) v

  pub label_window-IsHonest :
      (n horizon i : ℕ) (rose : ℕ → Outcome Bool)
      → 0 < horizon
      → i + 1 < n
      → IsHonest n horizon i (label_window n horizon i probe rose)
  unfolding label_window
  label_window-IsHonest n horizon i rose p h =
      let end = earlier_end (i + horizon) (n - 1) in
      let (m, e, k, l, f) = window_size n horizon i p h in
      subst
        (λ z.
          IsHonest n horizon i
            (resolve (leb (i + horizon) z) z (rose z) (scan probe (suc i) (z - i))))
        (sym e)
        (subst
          (λ w. IsHonest n horizon i (
            resolve (leb (i + horizon) (i + suc m)) (i + suc m) (rose (i + suc m))
              (scan probe (suc i) w)))
          (add_sub_cancel i (suc m))
          (resolve-IsHonest n horizon i m (leb (i + horizon) (i + suc m)) (rose (i + suc m))
            (scan probe (suc i) (suc m)) k l f (scan-Verdict (suc i) (suc m))))
