-- ===== src/MlPipeline/Splits.antt =====
-- services/ml-pipeline/src/core/splits.py. The sizes are natural numbers, as every caller passes
-- them; a `step` of 0 counts as missing, and so does `None`.
mod Purge
mod Tests
use market_app.Prelude.{
  ℕ, zero, suc, ◌+◌, ◌-◌, ◌||◌, Option, none, some, List, [], ◌∷◌, leb, length, take, drop,
  if◌then◌else◌,
}
use market_app.Prelude.Act.{Outcome, done, raised, bind_option}

pub record Fold (T : Type 0) : Type 0 where
  pub train_dates : List T
  pub test_dates : List T

pub record Sizes : Type 0 where
  pub train_size : ℕ
  pub test_size : ℕ
  pub horizon : ℕ
  pub embargo : ℕ
  pub step : Option ℕ

abbrev pub gap : Sizes → ℕ
gap s = s.horizon + s.embargo

-- `step or test_size`
abbrev pub step_or : Option ℕ → ℕ → ℕ
step_or none n = n
step_or (some zero) n = n
step_or (some (suc k)) n = suc k

module _ {T : Type 0} where
  -- `xs[a:b]`
  abbrev pub slice : ℕ → ℕ → List T → List T
  slice a b xs = take (b - a) (drop a xs)

  unfoldable pub fold_at : Sizes → List T → ℕ → Fold T
  fold_at s ordered test_start = record {
    train_dates = slice (test_start - s.train_size) (test_start - gap s) ordered;
    test_dates = slice test_start (test_start + s.test_size) ordered;
  }

  -- The loop; `none` is the loop that has not ended when the fuel has.
  unfoldable pub folds_from : ℕ → Sizes → List T → ℕ → Option (List (Fold T))
  folds_from zero s ordered test_start = none
  folds_from (suc n) s ordered test_start =
      let rest = folds_from n s ordered (test_start + step_or s.step s.test_size) in
      if leb (test_start + s.test_size) (length ordered)
      then (bind_option rest λ folds. some (fold_at s ordered test_start ∷ folds))
      else some []

  -- A ValueError is `raised`.
  unfoldable pub purged_walk_forward : List T → Sizes → Outcome (Option (List (Fold T)))
  purged_walk_forward dates s =
      if leb s.train_size 0 || leb s.test_size 0
      then raised
      else if leb s.train_size (gap s)
      then raised
      else done (folds_from (suc (length dates)) s dates s.train_size)
