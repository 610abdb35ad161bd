-- ===== src/Execution/Book.antt =====
-- services/execution/src/core/paper_broker.py: the state of the broker and its value. A date is its
-- ordinal.
use market_app.Prelude.{ℕ, String, Option, none, List, [], ◌∷◌, String_eq}
use market_app.Prelude.Dict.{Dict}
use market_app.Float.{Float, add, mul, abs, sum, nought}

pub record Fill (F : Type 0) : Type 0 where
  pub order_id : String
  pub symbol : String
  pub side : String
  pub quantity : F
  pub price : F

pub record Position (F : Type 0) : Type 0 where
  pub quantity : F
  pub last_price : F
  pub stop_loss : Option F
  pub take_profit : Option F

-- `processed_orders` is a set: the order of the list says nothing.
pub record Broker (F : Type 0) : Type 0 where
  pub slippage_bps : F
  pub equity_history_limit : ℕ
  pub cash : F
  pub positions : Dict String (Position F)
  pub peak_equity : F
  pub day_start_equity : F
  pub day_start_date : ℕ
  pub processed_orders : List String
  pub equity_curve : List (ℕ × F)

-- The arguments of `fill`.
pub record FillRequest (F : Type 0) : Type 0 where
  pub order_id : String
  pub symbol : String
  pub side : String
  pub quantity : F
  pub price : F
  pub stop_level : Option F
  pub profit_level : Option F

module _ {F : Type 0} ⦃fl : Float F⦄ where
  abbrev pub new_position : Position F
  new_position = record {
    quantity = nought;
    last_price = nought;
    stop_loss = none;
    take_profit = none;
  }

  abbrev pub values : (Position F → F) → Dict String (Position F) → List F
  values f [] = []
  values f ((symbol, p) ∷ d) = f p ∷ values f d

  abbrev pub positions_value : Broker F → F
  positions_value b = sum (values (λ p. mul p.quantity p.last_price) b.positions)

  abbrev pub gross_exposure_value : Broker F → F
  gross_exposure_value b = sum (values (λ p. mul (abs p.quantity) p.last_price) b.positions)

  unfoldable pub equity : Broker F → F
  equity b = add b.cash (positions_value b)
