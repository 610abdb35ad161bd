-- ===== src/Aggregator/Weights.antt =====
-- services/signal-aggregator/src/core/adaptive_weights.py. `math.exp`, `math.sqrt` and the square,
-- which may overflow, are an interface. `none` is an exception.
use market_app.Prelude.{
  ℕ, ◌-◌, String, Bool, false, ◌||◌, Option, none, some, List, [], ◌∷◌, ◌++◌, ltb, length, drop,
  if◌then◌else◌, ◌==◌, String_eq, ℕ_eq,
}
use market_app.Prelude.Act.{bind_option}
use market_app.Prelude.Dict.{Dict, get, put}
use market_app.Prelude.Int.{pos}
use market_app.Float.{
  Float, feq, sub, mul, quot, div, max, min, sum, of_int, is_finite, literal, nought, one,
}

pub record Elementary (F : Type 0) : Type 0 where
  pub exp_op : F → F
  pub sqrt_op : F → F
  pub square_op : F → Option F

-- `performance` holds the outcomes of each source, oldest first.
pub record Optimizer (F : Type 0) : Type 0 where
  pub sources : List String
  pub lookback_days : ℕ
  pub smoothing_lambda : F
  pub min_weight : F
  pub max_weight : F
  pub performance : Dict String (List F)

module _ {F : Type 0} where
  -- `append` to a deque with a maximal length.
  unfoldable pub push_outcome : ℕ → List F → F → List F
  push_outcome limit outcomes o =
      let longer = outcomes ++ o ∷ [] in drop (length longer - limit) longer

  unfoldable pub record_outcome : Optimizer F → String → F → Optimizer F
  record_outcome o source daily_return = elim (get source o.performance) [
    | none ↦ o
    | some outcomes ↦ record o {
      performance = put source (push_outcome o.lookback_days outcomes daily_return) o.performance;
    }
  ]

  abbrev pub has_data : Dict String (List F) → List String → Bool
  has_data performance [] = false
  has_data performance (s ∷ rest) =
      elim (get s performance) [ none ↦ false | some xs ↦ ltb 1 (length xs) ]
      || has_data performance rest

  abbrev pub values_of : Dict String F → List F
  values_of [] = []
  values_of ((s, w) ∷ d) = w ∷ values_of d

  -- `{s: f(s) for s in sources}`
  unfoldable pub build : (String → Option F) → List String → Dict String F → Option (Dict String F)
  build f [] acc = some acc
  build f (s ∷ rest) acc = bind_option (f s) λ w. build f rest (put s w acc)

  unfoldable pub map_values : (F → Option F) → Dict String F → Option (Dict String F)
  map_values f [] = some []
  map_values f ((s, w) ∷ d) =
      bind_option (f w) λ v. bind_option (map_values f d) λ rest. some ((s, v) ∷ rest)

module _ {F : Type 0} ⦃fl : Float F⦄ ⦃el : Elementary F⦄ where
  abbrev finite_only : List F → List F
  finite_only [] = []
  finite_only (x ∷ xs) = let rest = finite_only xs in if is_finite x then x ∷ rest else rest

  abbrev squares : F → List F → Option (List F)
  squares mean [] = some []
  squares mean (x ∷ xs) =
      bind_option (el.square_op (sub x mean)) λ y. bind_option (squares mean xs) λ ys. some (y ∷ ys)

  unfoldable pub information_ratio : List F → Option F
  information_ratio outcomes =
      let xs = finite_only outcomes in
      let n = length xs in
      if ltb n 2
      then some nought
      else let mean = quot (sum xs) (of_int (pos n)) in
        bind_option (squares mean xs) λ ys.
          let std = el.sqrt_op (quot (sum ys) (of_int (pos (n - 1)))) in
          if feq std nought then some nought else some (quot mean std)

  -- The raw weight of a source: a missing one is KeyError.
  raw_weight : Optimizer F → String → Option F
  unfolding information_ratio
  raw_weight o s = bind_option (get s o.performance) λ outcomes.
      bind_option (information_ratio outcomes)
        λ ir. some (el.exp_op (min (mul o.smoothing_lambda ir) (literal 500 0)))

  abbrev normalized : Dict String F → Option (Dict String F)
  normalized weights = map_values (λ w. div w (sum (values_of weights))) weights

  performance_weights : Optimizer F → Option (Dict String F)
  unfolding raw_weight
  performance_weights o = bind_option (build (raw_weight o) o.sources []) λ raw.
      bind_option (normalized raw) λ weights.
        bind_option (map_values (λ w. some (max o.min_weight (min o.max_weight w))) weights)
          λ capped. normalized capped

  unfoldable pub compute_weights : Optimizer F → Option (Dict String F)
  unfolding performance_weights
  compute_weights o =
      let n = length o.sources in
      if n == 0
      then some []
      else if has_data o.performance o.sources
      then performance_weights o
      else build (λ s. some (quot one (of_int (pos n)))) o.sources []
