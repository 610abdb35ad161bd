-- ===== src/Execution/Broker.antt =====
-- services/execution/src/core/paper_broker.py: fills, marks and protective triggers. A call reads the
-- clock once.
pub mod Fills
pub mod Curve
pub mod Levels
use market_app.Prelude.{
  ℕ, suc, ◌-◌, String, Bool, true, false, not, ◌&&◌, ◌||◌, Option, none, some, List, [], ◌∷◌, ◌++◌,
  map, ltb, if◌then◌else◌, length, drop, ◌==◌, String_eq, ℕ_eq,
}
use market_app.Prelude.Dict.{Dict, get, put}
use market_app.Float.{Float, lt, le, feq, add, sub, mul, quot, max, abs, sum, literal, nought, one}
use market_app.Execution.Book.{
  Broker, Position, Fill, FillRequest, new_position, positions_value, equity,
}

pub data Trigger : Type 0 where
  stop_loss take_profit : Trigger

abbrev pub among_ids : String → List String → Bool
among_ids order_id [] = false
among_ids order_id (x ∷ xs) = if x == order_id then true else among_ids order_id xs

-- The last point is replaced where it is today's.
unfoldable pub put_point : {F : Type 0} → ℕ → F → List (ℕ × F) → List (ℕ × F)
put_point today equity [] = (today, equity) ∷ []
put_point today equity ((day, value) ∷ []) =
    if day == today then (today, equity) ∷ [] else (day, value) ∷ (today, equity) ∷ []
put_point today equity (point ∷ next ∷ rest) = point ∷ put_point today equity (next ∷ rest)

unfoldable pub has_today : {F : Type 0} → ℕ → List (ℕ × F) → Bool
has_today today [] = false
has_today today ((day, value) ∷ []) = day == today
has_today today (point ∷ next ∷ rest) = has_today today (next ∷ rest)

module _ {F : Type 0} ⦃fl : Float F⦄ where
  unfoldable pub record_equity : ℕ → Broker F → Broker F
  record_equity today b =
      let curve = put_point today (equity b) b.equity_curve in
      if has_today today b.equity_curve
      then record b { equity_curve = curve }
      else if ltb b.equity_history_limit (length curve)
      then record b { equity_curve = drop (length curve - b.equity_history_limit) curve }
      else record b { equity_curve = curve }

  -- `__post_init__`.
  unfoldable pub new_broker : F → F → ℕ → ℕ → Broker F
  new_broker initial_cash slippage_bps equity_history_limit today = record_equity today (record {
    slippage_bps = slippage_bps;
    equity_history_limit = equity_history_limit;
    cash = initial_cash;
    positions = [];
    peak_equity = initial_cash;
    day_start_equity = initial_cash;
    day_start_date = today;
    processed_orders = [];
    equity_curve = [];
  })

  unfoldable pub roll_day_if_needed : ℕ → Broker F → Broker F
  roll_day_if_needed today b =
      if today == b.day_start_date
      then b
      else record b { day_start_date = today; day_start_equity = equity b }

  abbrev pub is_processed : Broker F → String → Bool
  is_processed b order_id = among_ids order_id b.processed_orders

  abbrev pub position_of : Broker F → String → Position F
  position_of b symbol = elim (get symbol b.positions) [ none ↦ new_position | some p ↦ p ]

  abbrev pub position_qty : Broker F → String → F
  position_qty b symbol = (position_of b symbol).quantity

  unfoldable pub apply_slippage : Broker F → String → F → F
  apply_slippage b side price =
      let slip = quot b.slippage_bps (literal 10_000 0) in
      if side == "BUY" then mul price (add one slip) else mul price (sub one slip)

  abbrev pub or_keep : Option F → Option F → Option F
  or_keep none old = old
  or_keep (some level) old = some level

  unfoldable pub bought : Position F → F → F → Option F → Option F → Position F
  bought p quantity price stop_level profit_level = record {
    quantity = add p.quantity quantity;
    last_price = price;
    stop_loss = or_keep stop_level p.stop_loss;
    take_profit = or_keep profit_level p.take_profit;
  }

  unfoldable pub sold : Position F → F → F → Position F
  sold p quantity price =
      let left = sub p.quantity quantity in
      if le left nought
      then record { quantity = left; last_price = price; stop_loss = none; take_profit = none }
      else record p { quantity = left; last_price = price }

  -- The part of `fill` between the day roll and the peak.
  unfoldable pub settle : Broker F → String → String → F → F → Option F → Option F → Broker F
  settle b symbol side quantity price stop_level profit_level =
      let p = position_of b symbol in
      let amount = mul quantity price in
      if side == "BUY"
      then record b {
        cash = sub b.cash amount;
        positions = put symbol (bought p quantity price stop_level profit_level) b.positions;
      }
      else record b {
        cash = add b.cash amount;
        positions = put symbol (sold p quantity price) b.positions;
      }

  unfoldable pub raise_peak : Broker F → Broker F
  raise_peak b = record b { peak_equity = max b.peak_equity (equity b) }

  unfoldable pub fill : ℕ → FillRequest F → Broker F → Option (Fill F) × Broker F
  fill today r b =
      if is_processed b r.order_id
      then (none, b)
      else let fill_price = apply_slippage b r.side r.price in
        let settled =
          settle (roll_day_if_needed today b) r.symbol r.side r.quantity fill_price r.stop_level
            r.profit_level in
        let marked = record_equity today (raise_peak settled) in
        (
          some (record {
            order_id = r.order_id;
            symbol = r.symbol;
            side = r.side;
            quantity = r.quantity;
            price = fill_price;
          }),
          record marked { processed_orders = marked.processed_orders ++ r.order_id ∷ [] },
        )

  unfoldable pub remark : ℕ → String → F → Position F → Broker F → Broker F
  remark today symbol price p b =
      let rolled = roll_day_if_needed today b in
      record_equity today (
        raise_peak (record rolled {
          positions = put symbol (record p { last_price = price }) rolled.positions;
        }))

  unfoldable pub mark : ℕ → String → F → Broker F → Broker F
  mark today symbol price b = elim (get symbol b.positions) [
    | none ↦ b
    | some p ↦ if feq p.quantity nought then b else remark today symbol price p b
  ]

  abbrev pub reaches_stop : Position F → Bool
  reaches_stop p = elim p.stop_loss [ none ↦ false | some level ↦ le p.last_price level ]

  abbrev pub reaches_profit : Position F → Bool
  reaches_profit p = elim p.take_profit [ none ↦ false | some level ↦ le level p.last_price ]

  unfoldable pub protective_trigger : Broker F → String → Option Trigger
  protective_trigger b symbol = elim (get symbol b.positions) [
    | none ↦ none
    | some p ↦
        if le p.quantity nought
        then none
        else if reaches_stop p
        then some stop_loss
        else if reaches_profit p
        then some take_profit
        else none
  ]
