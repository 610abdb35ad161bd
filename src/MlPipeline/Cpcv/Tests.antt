-- ===== src/MlPipeline/Cpcv/Tests.antt =====
-- The splits and paths of services/ml-pipeline/src/core/cpcv.py on six sessions.
use market_app.Prelude.{ℕ, ◌≡◌, refl, ℕ_eq, List, [], ◌∷◌, All}
use market_app.Prelude.Act.{done}
use market_app.Prelude.Dict.{get, put}
use market_app.MlPipeline.Cpcv.{
  CpcvPaths, blocks_of, cpcv_splits, splits_of, test_index, is_excluded, train_index,
  assemble_paths, serve_all, serve, paths_from, n_backtest_paths,
}
use market_app.MlPipeline.Cpcv.Paths.{Covers, paths_cover_groups}
use market_app.MlPipeline.Cpcv.Leakage.{IsSeparated, training_keeps_its_distance}

abbrev sessions : List ℕ
sessions = 1 ∷ 2 ∷ 3 ∷ 4 ∷ 5 ∷ 6 ∷ []

abbrev halves : ℕ → ℕ → List ℕ
halves n k = 0 ∷ 3 ∷ 6 ∷ []

abbrev result : CpcvPaths ℕ
result = record {
  splits =
      record { train_dates = 5 ∷ 6 ∷ []; test_dates = 1 ∷ 2 ∷ 3 ∷ []; groups = 0 ∷ [] }
      ∷ record { train_dates = 1 ∷ 2 ∷ []; test_dates = 4 ∷ 5 ∷ 6 ∷ []; groups = 1 ∷ [] }
      ∷ [];
  paths = (0 ∷ 1 ∷ []) ∷ [];
  n_groups = 2;
  test_groups = 1;
}

cpcv_run : cpcv_splits halves sessions 2 1 1 0 ≡ done result
unfolding cpcv_splits splits_of test_index is_excluded train_index assemble_paths serve_all serve
    paths_from n_backtest_paths get put
cpcv_run = refl

training_keeps_its_distance_example :
    All (IsSeparated sessions 1 (blocks_of (0 ∷ 3 ∷ 6 ∷ [])) 3) result.splits
training_keeps_its_distance_example =
    training_keeps_its_distance halves sessions 2 1 1 0 3 result cpcv_run

paths_cover_groups_example : All (Covers result.splits (0 ∷ 1 ∷ [])) result.paths
paths_cover_groups_example = paths_cover_groups halves sessions 2 1 1 0 result cpcv_run

-- Six groups, two of them tested, make five paths.
five_paths : n_backtest_paths 6 2 ≡ 5
unfolding n_backtest_paths
five_paths = refl
