-- ===== src/MlPipeline/Gate.antt =====
-- services/ml-pipeline/src/core/gate.py: whether a trained model may be activated. Of a condition
-- the model keeps its name and whether it holds; `deflated_sharpe_ratio` is any function. `none`
-- is a ZeroDivisionError.
mod Evidence
mod Tests
use market_app.Prelude.{
  ℕ, ◌-◌, ◌+◌, String, Bool, true, false, not, ◌&&◌, ◌||◌, Option, none, some, List, [], ◌∷◌, ◌++◌,
  ltb, leb, length, drop, if◌then◌else◌, String_eq,
}
use market_app.Prelude.Act.{bind_option}
use market_app.Prelude.Int.{pos}
use market_app.Prelude.Dict.{Dict, get}
use market_app.Float.{Float, lt, le, sub, mul, div, of_int, literal, nought, one}
use market_app.MlPipeline.Numpy.{Numpy}

pub record GateThresholds (F : Type 0) : Type 0 where
  pub sharpe : F
  pub active_sharpe : F
  pub ic_tstat : F
  pub dsr : F
  pub n_trials : ℕ
  pub min_recent_folds : ℕ
  pub min_portfolio_sessions : ℕ

pub data Question : Type 0 where
  sanity : Question
  rank_information : Question
  beats_baseline : Question
  economics : Question
  calibration : Question
  deflated_sharpe : Question

pub record GateCondition : Type 0 where
  pub id : Question
  pub passed : Bool

-- The fields of `RelativeMetrics` and of `FoldReport` that the gate reads.
pub record RelativeMetrics (F : Type 0) : Type 0 where
  pub ic_mean : F
  pub ic_std : F
  pub n_cross_sections : ℕ
  pub sharpe_active : F

-- `best_epoch` is `none` where the fit reports no number.
pub record FoldReport (F : Type 0) : Type 0 where
  pub best_epoch : Option F
  pub pred_std : F
  pub lift : F
  pub n_sessions : ℕ
  pub portfolio_sharpe : F
  pub returns : List F
  pub auc : F
  pub brier_delta : F
  pub brier_delta_se : F
  pub relative : Option (RelativeMetrics F)
  pub baseline_ic : Dict String F

abbrev pub condition : Question → Bool → GateCondition
condition q b = record { id = q; passed = b }

-- `GateOutcome.passed`
unfoldable pub passed : List GateCondition → Bool
passed [] = true
passed (c ∷ conditions) = c.passed && passed conditions

-- `GateOutcome.reasons`
unfoldable pub reasons : List GateCondition → List Question
reasons [] = []
reasons (c ∷ conditions) = if c.passed then reasons conditions else c.id ∷ reasons conditions

module _ {F : Type 0} where
  abbrev pub last_three : List (FoldReport F) → List (FoldReport F)
  last_three folds = drop (length folds - 3) folds

  -- The returns of the folds, then of the holdout.
  unfoldable pub stitched : List (FoldReport F) → FoldReport F → List F
  stitched [] holdout = holdout.returns
  stitched (f ∷ folds) holdout = f.returns ++ stitched folds holdout

module _ {F : Type 0} ⦃fl : Float F⦄ where
  -- `max(d, key=d.get, default="")`: the first of the largest values, `key` being the best so far.
  unfoldable pub best_from : String → F → Dict String F → String
  best_from key value [] = key
  best_from key value ((k, v) ∷ d) = if lt value v then best_from k v d else best_from key value d

  unfoldable pub best_feature : Dict String F → String
  best_feature [] = ""
  best_feature ((k, v) ∷ d) = best_from k v d

  abbrev pub or_nought : Option F → F
  or_nought none = nought
  or_nought (some x) = x

  unfoldable pub baseline : Dict String F → F
  baseline d = or_nought (get (best_feature d) d)

  unfoldable pub is_sane : GateThresholds F → FoldReport F → List (FoldReport F) → Bool
  is_sane t holdout folds =
      not (elim holdout.best_epoch [ none ↦ false | some e ↦ le e one ])
      && not (le holdout.pred_std nought)
      && not (ltb holdout.n_sessions t.min_portfolio_sessions)
      && not (ltb (length folds) t.min_recent_folds)

  abbrev pub active_above : F → FoldReport F → Bool
  active_above bar f = elim f.relative [ none ↦ false | some rel ↦ lt bar rel.sharpe_active ]

  unfoldable pub count_active : F → List (FoldReport F) → ℕ
  count_active bar [] = 0
  count_active bar (f ∷ folds) = (if active_above bar f then 1 else 0) + count_active bar folds

  unfoldable pub is_economic : GateThresholds F → FoldReport F → List (FoldReport F) → Bool
  is_economic t holdout folds =
      active_above t.active_sharpe holdout
      && lt t.sharpe holdout.portfolio_sharpe
      && lt nought holdout.lift
      && leb t.min_recent_folds (count_active t.active_sharpe (last_three folds))

  unfoldable pub is_calibrated : FoldReport F → Bool
  is_calibrated holdout =
      le holdout.brier_delta (mul (literal 20 1) holdout.brier_delta_se)
      && lt (literal 5 1) holdout.auc

  abbrev pub model_ic : Option (RelativeMetrics F) → F
  model_ic none = nought
  model_ic (some rel) = rel.ic_mean

module _ {F : Type 0} ⦃fl : Float F⦄ ⦃np : Numpy F⦄ where
  unfoldable pub ic_tstat : F → F → ℕ → Option F
  ic_tstat ic_mean ic_std n =
      if le ic_std nought || ltb n 2
      then some nought
      else bind_option (div ic_std (np.sqrt_op (of_int (pos n)))) λ se. div ic_mean se

  unfoldable pub is_informative : GateThresholds F → Option (RelativeMetrics F) → Option Bool
  is_informative t none = some false
  is_informative t (some rel) =
      bind_option (ic_tstat rel.ic_mean rel.ic_std rel.n_cross_sections)
        λ tstat. some (lt nought rel.ic_mean && le t.ic_tstat tstat)

  unfoldable pub evaluate_gate :
      (List F → ℕ → F)
      → GateThresholds F
      → FoldReport F
      → List (FoldReport F)
      → Option (List GateCondition)
  evaluate_gate deflated_sharpe_ratio t holdout folds =
      bind_option (is_informative t holdout.relative) λ informative. some (
        condition sanity (is_sane t holdout folds)
        ∷ condition rank_information informative
        ∷ condition beats_baseline (lt (baseline holdout.baseline_ic) (model_ic holdout.relative))
        ∷ condition economics (is_economic t holdout folds)
        ∷ condition calibration (is_calibrated holdout)
        ∷ condition deflated_sharpe
            (le t.dsr (deflated_sharpe_ratio (stitched folds holdout) t.n_trials))
        ∷ [])
