-- ===== src/MlPipeline/Numpy.antt =====
-- The functions of numpy and of `math` that services/ml-pipeline and services/backtest call: they
-- are not code of the repository, so they are an interface.
use market_app.Prelude.{List}
use market_app.Prelude.Int.{pos}
use market_app.Float.Fixed.{Fixed}

pub record Numpy (F : Type 0) : Type 0 where
  pub log_op : F → F
  pub sqrt_op : F → F
  -- `np.std(xs, ddof=1)`
  pub std_op : List F → F
  pub mean_op : List F → F

-- Plain stand-ins in fixed-point numbers, for the definitions to run on.
instance abbrev pub fixed_numpy : Numpy Fixed
fixed_numpy = record {
  log_op = λ x. x;
  sqrt_op = λ x. x;
  std_op = λ xs. pos 100;
  mean_op = λ xs. pos 0;
}
