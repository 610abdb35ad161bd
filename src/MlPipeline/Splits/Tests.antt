-- ===== src/MlPipeline/Splits/Tests.antt =====
-- The folds of services/ml-pipeline/src/core/splits.py on a few sessions.
use market_app.Prelude.{ℕ, ◌≡◌, refl, none, some, List, [], ◌∷◌, All, arith}
use market_app.Prelude.Act.{done}
use market_app.MlPipeline.Splits.{Sizes, Fold, folds_from, fold_at, purged_walk_forward}
use market_app.MlPipeline.Splits.Purge.{
  IsPurged, Tiles, purged_walk_forward_purges, test_blocks_tile,
}

abbrev sessions : List ℕ
sessions = 1 ∷ 2 ∷ 3 ∷ 4 ∷ 5 ∷ 6 ∷ 7 ∷ 8 ∷ []

abbrev sizes : Sizes
sizes = record { train_size = 3; test_size = 2; horizon = 1; embargo = 0; step = none }

abbrev two_folds : List (Fold ℕ)
two_folds =
    record { train_dates = 1 ∷ 2 ∷ []; test_dates = 4 ∷ 5 ∷ [] }
    ∷ record { train_dates = 3 ∷ 4 ∷ []; test_dates = 6 ∷ 7 ∷ [] }
    ∷ []

two_folds_run : purged_walk_forward sessions sizes ≡ done (some two_folds)
unfolding purged_walk_forward folds_from fold_at
two_folds_run = refl

purged_walk_forward_purges_example :
    (folds : List (Fold ℕ)) × (purged_walk_forward sessions sizes ≡ done (some folds))
    × All (IsPurged sizes sessions) folds
purged_walk_forward_purges_example =
    purged_walk_forward_purges sessions sizes (omega arith) (omega arith)

test_blocks_tile_example : Tiles 2 (4 ∷ 5 ∷ 6 ∷ 7 ∷ 8 ∷ []) two_folds
test_blocks_tile_example = test_blocks_tile sessions sizes two_folds refl two_folds_run
