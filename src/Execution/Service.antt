-- ===== src/Execution/Service.antt =====
-- services/execution/src/core/service.py. A handler runs to its end before the next one starts. The
-- publisher, the repository and the market client are not code of the service: `Env` says which
-- calls raise, and what uuid4 and the market client return. Pushing the metrics never raises.
pub mod Orders
pub mod Liquidation
pub mod Flatten
mod Tests
use market_app.Prelude.{
  ℕ, String, Bool, true, false, not, ◌&&◌, ◌||◌, Option, none, some, List, [], ◌∷◌, ◌++◌,
  if◌then◌else◌, ◌==◌, String_eq,
}
use market_app.Prelude.Dict.{Dict, get, contains}
use market_app.Prelude.Act.{Outcome, done, raised, Act, ◌>>=◌, ◌>>◌, pure, gets, modify}
use market_app.Float.{Float, le, min, nought}
use market_app.Execution.Book.{Broker, Position, Fill, FillRequest}
use market_app.Execution.Broker.{
  Trigger, fill, mark, is_processed, position_qty, protective_trigger,
}
use market_app.Execution.Reports.{
  Metrics, BrokerSnapshot, metrics, snapshot, restore, open_positions,
}

-- The fields of `OrderRequestedEvent` that the service reads.
pub record OrderRequested (F : Type 0) : Type 0 where
  pub event_id : String
  pub symbol : String
  pub side : String
  pub quantity : F
  pub price : F
  pub stop_loss : Option F
  pub take_profit : Option F

pub record OrderFilled (F : Type 0) : Type 0 where
  pub order_id : String
  pub symbol : String
  pub filled_quantity : F
  pub filled_price : F

pub record Service (F : Type 0) : Type 0 where
  pub broker : Broker F
  pub published : List (OrderFilled F)
  pub pushed : List (Metrics F)
  pub persisted : Option (BrokerSnapshot F)

-- `new_id symbol` is the identifier that the call makes for an exit or a liquidation of the symbol,
-- and `latest_close` what the market client returns; `has_market_client` is false where it is None.
pub record Env (F : Type 0) : Type 0 where
  pub publishes : OrderFilled F → Bool
  pub saves : BrokerSnapshot F → Bool
  pub today : ℕ
  pub new_id : String → String
  pub has_market_client : Bool
  pub latest_close : String → Outcome (Option F)

module _ {F : Type 0} where
  abbrev pub filled_event : Fill F → OrderFilled F
  filled_event f = record {
    order_id = f.order_id;
    symbol = f.symbol;
    filled_quantity = f.quantity;
    filled_price = f.price;
  }

  unfoldable pub publish : Env F → OrderFilled F → Act (Service F) (Unit {0})
  publish env event s =
      if env.publishes event
      then (done tt, record s { published = s.published ++ event ∷ [] })
      else (raised, s)

module _ {F : Type 0} ⦃fl : Float F⦄ where
  unfoldable pub save : Env F → Act (Service F) (Unit {0})
  save env s =
      if env.saves (snapshot s.broker)
      then (done tt, record s { persisted = some (snapshot s.broker) })
      else (raised, s)

  abbrev pub push : Act (Service F) (Unit {0})
  push = modify (λ s. record s { pushed = s.pushed ++ metrics s.broker ∷ [] })

  abbrev pub fill_act : Env F → FillRequest F → Act (Service F) (Option (Fill F))
  fill_act env r s =
      let (result, b) = fill env.today r s.broker in (done result, record s { broker = b })

  abbrev pub request_of : OrderRequested F → F → FillRequest F
  request_of o quantity = record {
    order_id = o.event_id;
    symbol = o.symbol;
    side = o.side;
    quantity = quantity;
    price = o.price;
    stop_level = if o.side == "BUY" then o.stop_loss else none;
    profit_level = if o.side == "BUY" then o.take_profit else none;
  }

  -- `execute` from a fill on: save before publish.
  unfoldable pub report : Env F → Option (Fill F) → Act (Service F) (Option (OrderFilled F))
  report env none = pure none
  report env (some f) = do
    save env
    publish env (filled_event f)
    push
    pure (some (filled_event f))

  abbrev pub fill_and_report : Env F → FillRequest F → Act (Service F) (Option (OrderFilled F))
  fill_and_report env r = do result ← fill_act env r; report env result

  -- A SELL is capped at what is held, and skipped where nothing is held.
  unfoldable pub execute_sell :
      Env F → OrderRequested F → F → Act (Service F) (Option (OrderFilled F))
  execute_sell env o held s =
      if le held nought
      then (done none, s)
      else fill_and_report env (request_of o (min o.quantity held)) s

  unfoldable pub execute : Env F → OrderRequested F → Act (Service F) (Option (OrderFilled F))
  execute env o s =
      if is_processed s.broker o.event_id
      then (done none, s)
      else if o.side == "SELL"
      then execute_sell env o (position_qty s.broker o.symbol) s
      else fill_and_report env (request_of o o.quantity) s

  abbrev pub exit_request : String → String → F → F → FillRequest F
  exit_request order_id symbol quantity price = record {
    order_id = order_id;
    symbol = symbol;
    side = "SELL";
    quantity = quantity;
    price = price;
    stop_level = none;
    profit_level = none;
  }

  -- The end of an exit: the fill is published.
  unfoldable pub announce : Env F → Option (Fill F) → Act (Service F) (Option (OrderFilled F))
  announce env none = pure none
  announce env (some f) = do publish env (filled_event f); pure (some (filled_event f))

  -- One round of the loop of `flatten_all`.
  unfoldable pub liquidate : Env F → String → Position F → Act (Service F) (Option (OrderFilled F))
  liquidate env symbol p s =
      if le p.quantity nought || le p.last_price nought
      then (done none, s)
      else (do
        result ← fill_act env (exit_request (env.new_id symbol) symbol p.quantity p.last_price)
        announce env result)
          s

  abbrev pub append_some : Option (OrderFilled F) → List (OrderFilled F) → List (OrderFilled F)
  append_some none fills = fills
  append_some (some f) fills = f ∷ fills

  unfoldable pub liquidate_each :
      Env F → Dict String (Position F) → Act (Service F) (List (OrderFilled F))
  liquidate_each env [] = pure []
  liquidate_each env ((symbol, p) ∷ rest) = do
    first ← liquidate env symbol p
    fills ← liquidate_each env rest
    pure (append_some first fills)

  unfoldable pub flatten_positions :
      Env F → Dict String (Position F) → Act (Service F) (List (OrderFilled F))
  flatten_positions env [] = pure []
  flatten_positions env (entry ∷ rest) = do
    fills ← liquidate_each env (entry ∷ rest)
    save env
    push
    pure fills

  unfoldable pub flatten_all : Env F → Act (Service F) (List (OrderFilled F))
  flatten_all env s = flatten_positions env (open_positions s.broker) s

  -- `handle_circuit_breaker_event`, once the event is parsed.
  unfoldable pub handle_circuit_breaker : Env F → String → Act (Service F) (List (OrderFilled F))
  handle_circuit_breaker env action_taken s =
      if action_taken == "flatten_all" then flatten_all env s else (done [], s)

  unfoldable pub exit_on :
      Env F → String → F → Option Trigger → Act (Service F) (Option (OrderFilled F))
  exit_on env symbol price none s = (done none, s)
  exit_on env symbol price (some trigger) s =
      (do
        result ←
            fill_act env
              (exit_request (env.new_id symbol) symbol (position_qty s.broker symbol) price)
        announce env result)
        s

  unfoldable pub maybe_protective_exit :
      Env F → String → F → Act (Service F) (Option (OrderFilled F))
  maybe_protective_exit env symbol price s =
      exit_on env symbol price (protective_trigger s.broker symbol) s

  unfoldable pub mark_at : Env F → String → Option F → Act (Service F) (Unit {0})
  mark_at env symbol none = pure tt
  mark_at env symbol (some close) = do
    modify (λ s. record s { broker = mark env.today symbol close s.broker })
    maybe_protective_exit env symbol close
    save env
    push

  abbrev fetched : Outcome (Option F) → Act (Service F) (Option F)
  fetched outcome s = (outcome, s)

  unfoldable pub mark_position : Env F → String → Act (Service F) (Unit {0})
  mark_position env symbol s =
      if not env.has_market_client || not (contains symbol (open_positions s.broker))
      then (done tt, s)
      else (do close ← fetched (env.latest_close symbol); mark_at env symbol close) s

  -- What a restart does with the result of `load`.
  unfoldable pub restore_service : ℕ → Option (BrokerSnapshot F) → Service F → Service F
  restore_service today none s = s
  restore_service today (some snap) s = record s { broker = restore today snap s.broker }
