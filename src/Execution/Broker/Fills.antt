-- ===== src/Execution/Broker/Fills.antt =====
-- services/execution/src/core/paper_broker.py: what a fill changes, and that it happens once.
use market_app.Prelude.{
  ℕ, String, ◌≡◌, ◌⊎◌, inl, inr, refl, true, false, Option, none, some, List, [], ◌∷◌, ◌++◌, arith,
  if◌then◌else◌, ◌==◌, ==_refl, String_eq, Bool-cases,
}
use market_app.Prelude.Dict.{get, put, get-put}
use market_app.Float.{Float, IsIeee, IsFinite, ◌≼◌, nought}
use market_app.Execution.Book.{Broker, Position, FillRequest}
use market_app.Execution.Broker.{
  among_ids, is_processed, position_of, position_qty, bought, sold, settle, raise_peak,
  record_equity, roll_day_if_needed, apply_slippage, fill,
}

among-append :
    (i j : String) (ids : List String)
    → among_ids i (ids ++ j ∷ []) ≡ (if among_ids i ids then true else j == i)
among-append i j [] = ground arith
among-append i j (x ∷ ids) = ground (arith, among-append i j ids)

module _ {F : Type 0} ⦃fl : Float F⦄ where
  -- The bookkeeping of the day, the peak and the curve leaves the rest of the book.
  pub record Frame (a b : Broker F) : Type 0 where
    pub same_cash : a.cash ≡ b.cash
    pub same_positions : a.positions ≡ b.positions
    pub same_processed : a.processed_orders ≡ b.processed_orders
    pub same_slippage : a.slippage_bps ≡ b.slippage_bps

  pub roll_day-Frame : (today : ℕ) (b : Broker F) → Frame (roll_day_if_needed today b) b
  unfolding roll_day_if_needed
  roll_day-Frame today b = ground arith

  pub record_equity-Frame : (today : ℕ) (b : Broker F) → Frame (record_equity today b) b
  unfolding record_equity
  record_equity-Frame today b = ground arith

  pub raise_peak-Frame : (b : Broker F) → Frame (raise_peak b) b
  unfolding raise_peak
  raise_peak-Frame b = ground arith

  -- The position that a fill leaves in its symbol.
  abbrev pub traded : Broker F → FillRequest F → Position F
  traded b r =
      let price = apply_slippage b r.side r.price in
      if r.side == "BUY"
      then bought (position_of b r.symbol) r.quantity price r.stop_level r.profit_level
      else sold (position_of b r.symbol) r.quantity price

  settle_lem :
      (b : Broker F) (symbol side : String) (q price : F) (stop profit : Option F)
      → let b' = settle b symbol side q price stop profit in
        (b'.positions
          ≡ put symbol
              (if side == "BUY"
                then bought (position_of b symbol) q price stop profit
                else sold (position_of b symbol) q price)
              b.positions)
        × (b'.processed_orders ≡ b.processed_orders)
        × (b'.slippage_bps ≡ b.slippage_bps)
  unfolding settle
  settle_lem b symbol side q price stop profit = ground arith

  -- A fill of a new order is of the requested quantity at the slipped price; it replaces the position
  -- of its symbol, touches no other, and puts its id among the processed ones.
  pub fill_lem :
      (today : ℕ) (r : FillRequest F) (b : Broker F)
      → is_processed b r.order_id ≡ false
      → let (result, b') = fill today r b in
        (result
          ≡ some (record {
            order_id = r.order_id;
            symbol = r.symbol;
            side = r.side;
            quantity = r.quantity;
            price = apply_slippage b r.side r.price;
          }))
        × (b'.positions ≡ put r.symbol (traded b r) b.positions)
        × (b'.processed_orders ≡ b.processed_orders ++ r.order_id ∷ [])
  unfolding fill apply_slippage
  fill_lem today r b new =
      let rolled = roll_day_if_needed today b in
      let price = apply_slippage b r.side r.price in
      let settled = settle rolled r.symbol r.side r.quantity price r.stop_level r.profit_level in
      ground (
        arith,
        roll_day-Frame today b,
        settle_lem rolled r.symbol r.side r.quantity price r.stop_level r.profit_level,
        raise_peak-Frame settled,
        record_equity-Frame today (raise_peak settled),
      )

  pub fill_processed :
      (today : ℕ) (r : FillRequest F) (b : Broker F)
      → is_processed b r.order_id ≡ true
      → fill today r b ≡ (none, b)
  unfolding fill
  fill_processed today r b h = ground arith

  pub is_processed-fill :
      (today : ℕ) (r : FillRequest F) (b : Broker F)
      → is_processed (fill today r b).1 r.order_id ≡ true
  is_processed-fill today r b = elim (Bool-cases (is_processed b r.order_id)) [
    | inl old ↦ rw (fill_processed today r b old) old
    | inr new ↦
        let (_, _, processed) = fill_lem today r b new in
        rw processed (
          ground (arith, among-append r.order_id r.order_id b.processed_orders, ==_refl r.order_id))
  ]

  -- A fill forgets no id.
  pub is_processed-kept :
      (today : ℕ) (r : FillRequest F) (b : Broker F) (i : String)
      → is_processed b i ≡ true
      → is_processed (fill today r b).1 i ≡ true
  is_processed-kept today r b i h = elim (Bool-cases (is_processed b r.order_id)) [
    | inl old ↦ rw (fill_processed today r b old) h
    | inr new ↦
        let (_, _, processed) = fill_lem today r b new in
        rw processed (ground (arith, among-append i r.order_id b.processed_orders, h))
  ]

  -- A fill processes no other id.
  pub is_processed-fill_other :
      (today : ℕ) (r : FillRequest F) (b : Broker F) (i : String)
      → (r.order_id == i) ≡ false
      → is_processed (fill today r b).1 i ≡ is_processed b i
  is_processed-fill_other today r b i h = elim (Bool-cases (is_processed b r.order_id)) [
    | inl old ↦ rw (fill_processed today r b old) refl
    | inr new ↦
        let (_, _, processed) = fill_lem today r b new in
        rw processed (ground (arith, among-append i r.order_id b.processed_orders))
  ]

  -- An order is filled once: every later fill under its id returns nothing and changes nothing.
  pub fill_once :
      (today later : ℕ) (r again : FillRequest F) (b : Broker F)
      → again.order_id ≡ r.order_id
      → let b' = (fill today r b).1 in fill later again b' ≡ (none, b')
  fill_once today later r again b same =
      fill_processed later again (fill today r b).1 (rw same (is_processed-fill today r b))

  -- A fill moves the position of its symbol and no other.
  pub fill_other :
      (today : ℕ) (r : FillRequest F) (b : Broker F) (symbol : String)
      → ¬ (symbol ≡ r.symbol)
      → get symbol (fill today r b).1.positions ≡ get symbol b.positions
  fill_other today r b symbol h = elim (Bool-cases (is_processed b r.order_id)) [
    | inl old ↦ rw (fill_processed today r b old) refl
    | inr new ↦
        let (_, moved, _) = fill_lem today r b new in
        rw (moved, get-put r.symbol symbol (traded b r) b.positions)
          (ground (arith, String_eq.beq_iff r.symbol symbol))
  ]

  pub position_qty-fill :
      (today : ℕ) (r : FillRequest F) (b : Broker F) (symbol : String)
      → is_processed b r.order_id ≡ false
      → position_qty (fill today r b).1 symbol
        ≡ (if r.symbol == symbol then (traded b r).quantity else position_qty b symbol)
  position_qty-fill today r b symbol new =
      let (_, moved, _) = fill_lem today r b new in
      ground (arith, moved, get-put r.symbol symbol (traded b r) b.positions)

  -- No position is short.
  abbrev pub IsLongOnly : Broker F → Type 0
  IsLongOnly b = (symbol : String) → nought ≼ position_qty b symbol

  -- A request that keeps the book long only: a BUY of at least zero, or a SELL of a finite quantity
  -- that is at most what is held.
  abbrev pub IsCovered : Broker F → FillRequest F → Type 0
  IsCovered b r =
      ((r.side == "BUY") ≡ true) × (nought ≼ r.quantity)
      ⊎ ((r.side == "BUY") ≡ false) × IsFinite r.quantity × (r.quantity ≼ position_qty b r.symbol)

  traded_nonneg :
      IsIeee F
      → (b : Broker F) (r : FillRequest F) → nought ≼ position_qty b r.symbol
      → IsCovered b r
      → nought ≼ (traded b r).quantity
  unfolding bought sold
  traded_nonneg laws b r held (inl (buy, q)) =
      ground (arith, laws.add_nonneg (position_qty b r.symbol) r.quantity held q)
  traded_nonneg laws b r held (inr (sell, f, q)) =
      ground (arith, laws.sub_nonneg (position_qty b r.symbol) r.quantity f q)

  -- A covered fill keeps every position at or above zero.
  pub fill-IsLongOnly :
      IsIeee F
      → (today : ℕ) (r : FillRequest F) (b : Broker F) → IsLongOnly b
      → IsCovered b r
      → IsLongOnly (fill today r b).1
  fill-IsLongOnly laws today r b long covered symbol =
      elim (Bool-cases (is_processed b r.order_id)) [
        | inl old ↦ rw (fill_processed today r b old) (long symbol)
        | inr new ↦ ground (
          arith,
          position_qty-fill today r b symbol new,
          long symbol,
          traded_nonneg laws b r (long r.symbol) covered,
        )
      ]
