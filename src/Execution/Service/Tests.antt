-- ===== src/Execution/Service/Tests.antt =====
-- services/execution/src/core at concrete inputs, in fixed-point numbers.
use market_app.Prelude.{
  ◌++◌, drop, ◌-◌, List, String, ◌≤◌, ◌≡◌, ◌∷◌, [], true, false, none, some, inr, ◌⊎◌, refl, arith,
  if◌then◌else◌, ◌==◌, String_eq, length,
}
use market_app.Prelude.Act.{done}
use market_app.Prelude.Dict.{get}
use market_app.Prelude.Int.{pos}
use market_app.Float.{◌≼◌, sub}
use market_app.Float.Fixed.{Fixed, fixed_float, Fixed-IsIeee}
use market_app.Execution.Book.{Broker, Position, FillRequest, equity}
use market_app.Execution.Broker.{position_qty, record_equity}
use market_app.Execution.Broker.Curve.{Rises, last_point, other_days, record_equity_curve}
use market_app.Execution.Broker.Levels.{Exits, Stays}
use market_app.Execution.Broker.Fills.{IsLongOnly}
use market_app.Execution.Service.{
  Service, Env, OrderRequested, execute, handle_circuit_breaker, maybe_protective_exit,
  restore_service,
}
use market_app.Execution.Service.Flatten.{flatten_all_closes, protective_exit_lem}
use market_app.Execution.Service.Liquidation.{is_done}
use market_app.Execution.Service.Orders.{
  execute_each, execute_once, restart_skips_redelivery, execute-IsLongOnly,
}

-- 10 shares of AAPL, last marked at 100, with a stop at 95.
abbrev held : Position Fixed
held = record {
  quantity = pos 100_000;
  last_price = pos 1_000_000;
  stop_loss = some (pos 950_000);
  take_profit = none;
}

abbrev book : Broker Fixed
book = record {
  slippage_bps = pos 50_000;
  equity_history_limit = 3;
  cash = pos 10_000_000;
  positions = ("AAPL", held) ∷ [];
  peak_equity = pos 20_000_000;
  day_start_equity = pos 20_000_000;
  day_start_date = 20_000;
  processed_orders = "old" ∷ [];
  equity_curve = (19_999, pos 19_000_000) ∷ (20_000, pos 20_000_000) ∷ [];
}

abbrev service : Service Fixed
service = record { broker = book; published = []; pushed = []; persisted = none }

abbrev env : Env Fixed
env = record {
  publishes = λ event. true;
  saves = λ snap. true;
  today = 20_001;
  new_id = λ symbol. symbol;
  has_market_client = true;
  latest_close = λ symbol. done (some (pos 900_000));
}

abbrev offline : Env Fixed
offline = record env { saves = λ snap. false }

abbrev order : OrderRequested Fixed
order = record {
  event_id = "o1";
  symbol = "MSFT";
  side = "BUY";
  quantity = pos 20_000;
  price = pos 2_000_000;
  stop_loss = some (pos 1_900_000);
  take_profit = none;
}

abbrev oversized_sale : OrderRequested Fixed
oversized_sale = record order { symbol = "AAPL"; side = "SELL"; quantity = pos 900_000 }

abbrev request : FillRequest Fixed
request = record {
  order_id = "o1";
  symbol = "MSFT";
  side = "BUY";
  quantity = pos 20_000;
  price = pos 2_000_000;
  stop_level = none;
  profit_level = none;
}

book-IsLongOnly : IsLongOnly book
unfolding get
book-IsLongOnly symbol = ground arith

record_equity_curve_example :
    let curve = (record_equity 20_001 book).equity_curve in
    Rises 0 20_001 curve
    × (length curve ≤ 3)
    × (last_point curve ≡ some (20_001, equity book))
    × (let all = other_days 20_001 book.equity_curve ++ (20_001, equity book) ∷ [] in
        curve ≡ drop (length all - 3) all)
record_equity_curve_example =
    record_equity_curve 20_000 20_001 book
      (omega arith, omega arith, (omega arith, omega arith, tt)) (omega arith) (omega arith)
      (omega arith)

-- In between, another purchase is filled, and a third one is filled and then not published.
abbrev between : List (Env Fixed × OrderRequested Fixed)
between =
    (env, record order { event_id = "o-8" }) ∷ (offline, record order { event_id = "o-9" }) ∷ []

execute_once_example :
    let s' = execute_each between (execute offline order service).1 in
    execute env order s' ≡ (done none, s')
execute_once_example = execute_once offline env order order service between refl refl

restart_skips_redelivery_example :
    let s' = restore_service 20_001 (execute env order service).1.persisted service in
    execute env order s' ≡ (done none, s')
restart_skips_redelivery_example =
    restart_skips_redelivery env env order order service service 20_001 refl refl refl

execute-IsLongOnly_example : IsLongOnly (execute env oversized_sale service).1.broker
execute-IsLongOnly_example =
    execute-IsLongOnly Fixed-IsIeee env oversized_sale service book-IsLongOnly (inr (refl, refl))

abbrev fresh_service : Service Fixed
fresh_service = record service { broker = record book { processed_orders = [] } }

flatten_all_closes_example :
    let (result, s') = handle_circuit_breaker env "flatten_all" fresh_service in
    (is_done result ≡ true) × ((x : String) → position_qty s'.broker x ≼ pos 0)
unfolding get
flatten_all_closes_example =
    flatten_all_closes Fixed-IsIeee env fresh_service (λ event. refl) (λ snap. refl) (λ a b h. h)
      (refl, tt) (λ x h. refl) (λ x p h. ground arith)

protective_exit_lem_example :
    let (result, s') = maybe_protective_exit env "AAPL" (pos 900_000) service in
    (is_done result ≡ true)
    × (Exits book "AAPL"
          × ((x : String)
              → position_qty s'.broker x ≡ (
                  if "AAPL" == x
                  then sub (position_qty book "AAPL") (position_qty book "AAPL")
                  else position_qty book x))
        ⊎ Stays book "AAPL" × (s' ≡ service))
protective_exit_lem_example =
    protective_exit_lem env "AAPL" (pos 900_000) service (λ event. refl) refl
