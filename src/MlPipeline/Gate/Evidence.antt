-- ===== src/MlPipeline/Gate/Evidence.antt =====
-- What a passed gate of services/ml-pipeline/src/core/gate.py proves of the model.
use market_app.Prelude.{
  ℕ, ◌≤◌, ◌≡◌, ◌↔◌, inl, inr, refl, String, Bool, true, false, Option, none, some, List, [], ◌∷◌,
  All, length, ==_refl, String_eq, Bool-cases, Option-cases, arith,
}
use mathlib.Core.Path.{subst}
use market_app.Prelude.Dict.{Dict, get, HasDistinctKeys}
use market_app.Float.{Float, IsIeee, IsNumber, lt, le, ◌≼◌, ◌≺◌}
use market_app.MlPipeline.Numpy.{Numpy}
use market_app.MlPipeline.Gate.{
  GateThresholds, GateCondition, condition, RelativeMetrics, FoldReport, Question, sanity,
  rank_information, beats_baseline, economics, calibration, deflated_sharpe, passed, reasons,
  best_from, best_feature, baseline, or_nought, is_sane, is_economic, is_calibrated, is_informative,
  model_ic, evaluate_gate, count_active, last_three, stitched,
}

-- A gate passes exactly where it has no reason not to.
pub passed_iff_no_reasons : (cs : List GateCondition) → (passed cs ≡ true) ↔ (reasons cs ≡ [])
unfolding passed reasons
passed_iff_no_reasons [] = ground arith
passed_iff_no_reasons (c ∷ cs) = ground (arith, passed_iff_no_reasons cs)

module _ {F : Type 0} where
  -- Every entry is found under its key.
  abbrev Resolves : Dict String F → Dict String F → Type 0
  Resolves whole d = All (λ e. get e.0 whole ≡ some e.1) d

  get-fresh :
      (k j : String) (v w : F) (d : Dict String F)
      → get k d ≡ none
      → get j d ≡ some w
      → get j ((k, v) ∷ d) ≡ some w
  unfolding get
  get-fresh k j v w d n g = ground (arith, n, g, String_eq.beq_iff k j)

  Resolves-cons :
      (k : String) (v : F) (whole d : Dict String F)
      → get k whole ≡ none
      → Resolves whole d
      → Resolves ((k, v) ∷ whole) d
  Resolves-cons k v whole [] n r = tt
  Resolves-cons k v whole ((j, w) ∷ d) n (g, r) =
      (get-fresh k j v w whole n g, Resolves-cons k v whole d n r)

  distinct-Resolves : (d : Dict String F) → HasDistinctKeys d → Resolves d d
  unfolding get
  distinct-Resolves [] h = tt
  distinct-Resolves ((k, v) ∷ d) (n, h) =
      (ground (arith, ==_refl k), Resolves-cons k v d d n (distinct-Resolves d h))

module _ {F : Type 0} ⦃fl : Float F⦄ ⦃ie : IsIeee F⦄ where
  lt_le : (x y : F) → x ≺ y → x ≼ y
  lt_le x y h =
      let (n, m) = ie.lt_numbers x y h in
      ground (arith, h, ie.lt-not-le x y n m, ie.le_total x y n m)

  not_lt_le : (x y : F) → IsNumber x → IsNumber y → lt x y ≡ false → y ≼ x
  not_lt_le x y n m h = ground (arith, h, ie.lt-not-le x y n m)

  le_lt : (x y z : F) → x ≼ y → y ≺ z → x ≺ z
  le_lt x y z h k = ground (
    arith,
    h,
    k,
    ie.lt-not-le x z,
    ie.lt-not-le y z,
    ie.le_trans z x y,
    ie.le_numbers x y h,
    ie.lt_numbers y z k,
  )

  -- The entry that `best_from` ends at is found in the whole dictionary and is the largest.
  IsBest : Dict String F → F → Dict String F → String → Type 0
  IsBest whole value d key =
      (best : F) × (get key whole ≡ some best) × (value ≼ best) × All (λ e. e.1 ≼ best) d

  best_from-IsBest :
      (whole : Dict String F) (key : String) (value : F) (d : Dict String F)
      → get key whole ≡ some value
      → IsNumber value
      → Resolves whole d
      → All (λ e. IsNumber e.1) d
      → IsBest whole value d (best_from key value d)
  unfolding best_from IsBest
  best_from-IsBest whole key value [] g n r ns = (value, g, n, tt)
  best_from-IsBest whole key value ((k, v) ∷ d) g n (gv, r) (nv, ns) =
      elim (Bool-cases (lt value v)) [
        | inl e ↦
            let (best, found, above, all) = best_from-IsBest whole k v d gv nv r ns in
            (
              best,
              ground (arith, e, found),
              ie.le_trans value v best (lt_le value v e) above,
              (above, all),
            )
        | inr e ↦
            let (best, found, above, all) = best_from-IsBest whole key value d g n r ns in
            (
              best,
              ground (arith, e, found),
              above,
              (ie.le_trans v value best (not_lt_le value v n nv e) above, all),
            )
      ]

  All-below :
      (best x : F) (d : Dict String F) → best ≺ x → All (λ e. e.1 ≼ best) d → All (λ e. e.1 ≺ x) d
  All-below best x [] h all = tt
  All-below best x ((k, v) ∷ d) h (a, all) = (le_lt v best x a h, All-below best x d h all)

  baseline_beaten :
      (d : Dict String F) (x : F)
      → HasDistinctKeys d
      → All (λ e. IsNumber e.1) d
      → baseline d ≺ x
      → All (λ e. e.1 ≺ x) d
  unfolding baseline best_feature IsBest get
  baseline_beaten [] x h ns b = tt
  baseline_beaten ((k, v) ∷ d) x h (nv, ns) b =
      let whole = (k, v) ∷ d in
      let (g, r) = distinct-Resolves whole h in
      let (best, found, above, all) = best_from-IsBest whole k v d g nv r ns in
      let below = subst (λ o. or_nought o ≺ x) found b in
      (le_lt v best x above below, All-below best x d below all)

-- What the six conditions say when all of them hold.
six_hold :
    (a b c d e f : Bool) (cs : List GateCondition) (qa qb qc qd qe qf : Question)
    → some (
        condition qa a
        ∷ condition qb b
        ∷ condition qc c
        ∷ condition qd d
        ∷ condition qe e
        ∷ condition qf f
        ∷ [])
      ≡ some cs
    → passed cs ≡ true
    → (a ≡ true) × (b ≡ true) × (c ≡ true) × (d ≡ true) × (e ≡ true) × (f ≡ true)
unfolding passed
six_hold a b c d e f cs qa qb qc qd qe qf h p = ground (arith, h, p)

module _ {F : Type 0} ⦃fl : Float F⦄ ⦃np : Numpy F⦄ ⦃ie : IsIeee F⦄ where
  gate_six :
      (dsr : List F → ℕ → F) (t : GateThresholds F) (holdout : FoldReport F)
      (folds : List (FoldReport F)) (cs : List GateCondition)
      → evaluate_gate dsr t holdout folds ≡ some cs
      → passed cs ≡ true
      → (is_informative t holdout.relative ≡ some true)
        × (is_sane t holdout folds ≡ true)
        × (baseline holdout.baseline_ic ≺ model_ic holdout.relative)
        × (is_economic t holdout folds ≡ true)
        × (t.dsr ≼ dsr (stitched folds holdout) t.n_trials)
  unfolding evaluate_gate
  gate_six dsr t holdout folds cs h p = elim (Option-cases (is_informative t holdout.relative)) [
    | inl e ↦ ground (arith, h, e)
    | inr (b, e) ↦
        let (sane, informative, beats, economic, _, deflated) =
          six_hold (is_sane t holdout folds) b
            (lt (baseline holdout.baseline_ic) (model_ic holdout.relative))
            (is_economic t holdout folds) (is_calibrated holdout)
            (le t.dsr (dsr (stitched folds holdout) t.n_trials)) cs sanity rank_information
            beats_baseline economics calibration deflated_sharpe (ground (arith, h, e)) p in
        (ground (arith, e, informative), sane, beats, economic, deflated)
  ]

  has_relative :
      (t : GateThresholds F) (o : Option (RelativeMetrics F))
      → is_informative t o ≡ some true
      → (rel : RelativeMetrics F) × (o ≡ some rel)
  unfolding is_informative
  has_relative t none h = ground (arith, h)
  has_relative t (some rel) h = (rel, refl)

  -- Where the gate passes a model, and the baseline dictionary holds each feature once and only
  -- numbers: the holdout has relative metrics, the mean IC beats every single feature of the
  -- baseline, the active Sharpe and the absolute Sharpe are above their bars, enough of the last
  -- three folds are active-positive, there are enough sessions and folds, and the deflated Sharpe
  -- of all out-of-sample returns together reaches its bar.
  pub passed_gate_has_evidence :
      (dsr : List F → ℕ → F) (t : GateThresholds F) (holdout : FoldReport F)
      (folds : List (FoldReport F)) (cs : List GateCondition)
      → HasDistinctKeys holdout.baseline_ic
      → All (λ e. IsNumber e.1) holdout.baseline_ic
      → evaluate_gate dsr t holdout folds ≡ some cs
      → passed cs ≡ true
      → (rel : RelativeMetrics F) × (holdout.relative ≡ some rel)
        × All (λ e. e.1 ≺ rel.ic_mean) holdout.baseline_ic
        × (t.active_sharpe ≺ rel.sharpe_active)
        × (t.sharpe ≺ holdout.portfolio_sharpe)
        × (t.min_recent_folds ≤ count_active t.active_sharpe (last_three folds))
        × (t.min_portfolio_sessions ≤ holdout.n_sessions)
        × (t.min_recent_folds ≤ length folds)
        × (t.dsr ≼ dsr (stitched folds holdout) t.n_trials)
  unfolding is_sane is_economic
  passed_gate_has_evidence dsr t holdout folds cs distinct numbers h p =
      let (informative, sane, beats, economic, deflated) = gate_six dsr t holdout folds cs h p in
      let (rel, e) = has_relative t holdout.relative informative in
      let beaten =
        baseline_beaten holdout.baseline_ic rel.ic_mean distinct numbers
          (subst (λ o. baseline holdout.baseline_ic ≺ model_ic o) e beats) in
      (
        rel,
        e,
        beaten,
        ground (arith, economic, e),
        ground (arith, economic),
        ground (arith, economic),
        ground (arith, sane),
        ground (arith, sane),
        deflated,
      )
