-- ===== src/Execution/Service/Orders.antt =====
-- services/execution/src/core/service.py: `execute`.
use market_app.Prelude.{
  ℕ, String, ◌≡◌, ◌⊎◌, inl, inr, refl, Bool, true, false, ◌||◌, Option, none, some, List, [], ◌∷◌,
  ◌++◌, arith, if◌then◌else◌, ◌==◌, String_eq, Bool-cases,
}
use market_app.Prelude.Act.{Outcome, done, raised}
use market_app.Float.{Float, IsIeee, IsFinite, ◌≼◌, le, nought, min}
use market_app.Execution.Book.{Broker, Fill}
use market_app.Execution.Broker.{is_processed, position_qty, apply_slippage, fill}
use market_app.Execution.Broker.Fills.{
  fill_lem, is_processed-fill, is_processed-kept, IsLongOnly, IsCovered, fill-IsLongOnly,
}
use market_app.Execution.Reports.{snapshot, restore, metrics}
use market_app.Execution.Service.{
  Service, Env, OrderRequested, OrderFilled, filled_event, publish, save, execute_sell,
  restore_service, request_of, report, fill_and_report, execute,
}

not_buy : (side : String) → (side == "SELL") ≡ true → (side == "BUY") ≡ false
not_buy side h = rw ((String_eq.beq_iff side "SELL").0 h) refl

not_sell : (side : String) → (side == "BUY") ≡ true → (side == "SELL") ≡ false
not_sell side h = rw ((String_eq.beq_iff side "BUY").0 h) refl

module _ {F : Type 0} ⦃fl : Float F⦄ where
  -- The quantity that an order of `side` is filled at.
  abbrev pub filled_quantity : OrderRequested F → Service F → F
  filled_quantity o s =
      if o.side == "SELL" then min o.quantity (position_qty s.broker o.symbol) else o.quantity

  -- Whether `execute` leaves the order alone: a duplicate, or a SELL of what is not held.
  abbrev pub skips : OrderRequested F → Service F → Bool
  skips o s =
      is_processed s.broker o.event_id
      || (if o.side == "SELL" then le (position_qty s.broker o.symbol) nought else false)

  -- A duplicate, and a SELL of what is not held, return nothing and change nothing.
  pub execute-skips :
      (env : Env F) (o : OrderRequested F) (s : Service F)
      → skips o s ≡ true
      → execute env o s ≡ (done none, s)
  unfolding execute execute_sell
  execute-skips env o s h = ground arith

  -- The broker of any other order fills it at its quantity, a SELL capped at what is held.
  abbrev pub filled_broker : Env F → OrderRequested F → Service F → Broker F
  filled_broker env o s = (fill env.today (request_of o (filled_quantity o s)) s.broker).1

  not_processed :
      (o : OrderRequested F) (s : Service F)
      → skips o s ≡ false
      → is_processed s.broker o.event_id ≡ false
  not_processed o s h = ground arith

  execute-fill_and_report :
      (env : Env F) (o : OrderRequested F) (s : Service F)
      → skips o s ≡ false
      → execute env o s ≡ fill_and_report env (request_of o (filled_quantity o s)) s
  unfolding execute execute_sell
  execute-fill_and_report env o s h = ground arith

  -- What saving, publishing and pushing make of a service whose broker has filled the order: a write
  -- that fails stops the call before anything is published; a publication that fails stops it after
  -- the new book is persisted.
  abbrev pub reported :
      Env F → OrderFilled F → Service F → Outcome (Option (OrderFilled F)) × Service F
  reported env event s =
      if env.saves (snapshot s.broker)
      then (if env.publishes event
          then (
            done (some event),
            record s {
              persisted = some (snapshot s.broker);
              published = s.published ++ event ∷ [];
              pushed = s.pushed ++ metrics s.broker ∷ [];
            },
          )
          else (raised, record s { persisted = some (snapshot s.broker) }))
      else (raised, s)

  report-reported :
      (env : Env F) (f : Fill F) (s : Service F)
      → report env (some f) s ≡ reported env (filled_event f) s
  unfolding report publish save
  report-reported env f s = ground arith

  -- The event that a fill of the order publishes.
  abbrev pub event_of : OrderRequested F → Service F → OrderFilled F
  event_of o s = record {
    order_id = o.event_id;
    symbol = o.symbol;
    filled_quantity = filled_quantity o s;
    filled_price = apply_slippage s.broker o.side o.price;
  }

  -- An order that is not skipped is filled at its quantity and the slipped price, a SELL capped at
  -- what is held, whatever fails after it: a write that fails stops the call before anything is
  -- published, and a publication that fails stops it after the book is persisted.
  execute_fills :
      (env : Env F) (o : OrderRequested F) (s : Service F)
      → skips o s ≡ false
      → execute env o s ≡ reported env (event_of o s) (record s { broker = filled_broker env o s })
  execute_fills env o s h =
      let r = request_of o (filled_quantity o s) in
      let new = not_processed o s h in
      let (filled, _, _) = fill_lem env.today r s.broker new in
      rw (execute-fill_and_report env o s h, filled)
        (report-reported env
          (record {
            order_id = o.event_id;
            symbol = o.symbol;
            side = o.side;
            quantity = filled_quantity o s;
            price = apply_slippage s.broker o.side o.price;
          })
          (record s { broker = filled_broker env o s }))

  broker-reported :
      (env : Env F) (event : OrderFilled F) (s : Service F)
      → (reported env event s).1.broker ≡ s.broker
  broker-reported env event s = ground arith

  is_processed-execute :
      (env : Env F) (o : OrderRequested F) (s : Service F)
      → skips o s ≡ false
      → is_processed (execute env o s).1.broker o.event_id ≡ true
  is_processed-execute env o s h = ground (
    arith,
    execute_fills env o s h,
    broker-reported env (event_of o s) (record s { broker = filled_broker env o s }),
    is_processed-fill env.today (request_of o (filled_quantity o s)) s.broker,
  )

  -- No delivery forgets an id, also one that raises.
  is_processed-execute_other :
      (env : Env F) (o : OrderRequested F) (s : Service F) (i : String)
      → is_processed s.broker i ≡ true
      → is_processed (execute env o s).1.broker i ≡ true
  is_processed-execute_other env o s i h = elim (Bool-cases (skips o s)) [
    | inl skip ↦ rw (execute-skips env o s skip) h
    | inr fills ↦
        rw
          (
            execute_fills env o s fills,
            broker-reported env (event_of o s) (record s { broker = filled_broker env o s }),
          )
          (is_processed-kept env.today (request_of o (filled_quantity o s)) s.broker i h)
  ]

  -- The service after the delivery of some orders, each under its own environment.
  abbrev pub execute_each : List (Env F × OrderRequested F) → Service F → Service F
  execute_each [] s = s
  execute_each ((env, o) ∷ later) s = execute_each later (execute env o s).1

  is_processed-execute_each :
      (later : List (Env F × OrderRequested F)) (s : Service F) (i : String)
      → is_processed s.broker i ≡ true
      → is_processed (execute_each later s).broker i ≡ true
  is_processed-execute_each [] s i h = h
  is_processed-execute_each ((env, o) ∷ later) s i h =
      is_processed-execute_each later (execute env o s).1 i (is_processed-execute_other env o s i h)

  -- Once an order that is neither a duplicate nor a SELL of what is not held has been delivered,
  -- every order under its id is answered with nothing and changes nothing, whatever orders were
  -- delivered in between, and also where the first delivery or one of these was filled and then
  -- failed on the way.
  pub execute_once :
      (env env' : Env F) (o again : OrderRequested F) (s : Service F)
      (later : List (Env F × OrderRequested F))
      → again.event_id ≡ o.event_id
      → skips o s ≡ false
      → let s' = execute_each later (execute env o s).1 in execute env' again s' ≡ (done none, s')
  execute_once env env' o again s later same h =
      let s' = execute_each later (execute env o s).1 in
      let known =
        is_processed-execute_each later (execute env o s).1 o.event_id
          (is_processed-execute env o s h) in
      execute-skips env' again s' (rw (same, known) refl)

  -- Nothing is published that is not persisted: if the call changed what is published, the book with
  -- the fill and its id is in the repository.
  pub published_is_persisted :
      (env : Env F) (o : OrderRequested F) (s : Service F)
      → let s' = (execute env o s).1 in
        (s'.published ≡ s.published) ⊎ (s'.persisted ≡ some (snapshot s'.broker))
  published_is_persisted env o s = elim (Bool-cases (skips o s)) [
    | inl skip ↦ ground (arith, execute-skips env o s skip)
    | inr fills ↦ ground (arith, execute_fills env o s fills)
  ]

  -- If the write after a fill fails, the call raises with nothing published and nothing persisted.
  pub failed_save_reports_nothing :
      (env : Env F) (o : OrderRequested F) (s : Service F)
      → skips o s ≡ false
      → env.saves (snapshot (filled_broker env o s)) ≡ false
      → execute env o s ≡ (raised, record s { broker = filled_broker env o s })
  failed_save_reports_nothing env o s h refused = ground (arith, execute_fills env o s h)

  min-held :
      IsIeee F
      → (q held : F) → IsFinite q
      → le held nought ≡ false
      → nought ≼ held
      → IsFinite (min q held) × (min q held ≼ held)
  min-held laws q held f h g =
      let (_, number) = laws.le_numbers nought held g in
      ground (
        arith,
        laws.finite_number q f,
        number,
        laws.lt-not-le held q number (laws.finite_number q f),
        laws.le_total held q number (laws.finite_number q f),
        laws.finite_below held q f g,
      )

  request_of-IsCovered :
      IsIeee F
      → (o : OrderRequested F) (s : Service F) → IsLongOnly s.broker
      → skips o s ≡ false
      → ((o.side == "BUY") ≡ true) × (nought ≼ o.quantity)
        ⊎ ((o.side == "SELL") ≡ true) × IsFinite o.quantity
      → IsCovered s.broker (request_of o (filled_quantity o s))
  request_of-IsCovered laws o s long h (inl (buy, q)) =
      inl (buy, ground (arith, not_sell o.side buy))
  request_of-IsCovered laws o s long h (inr (sell, f)) =
      let held = position_qty s.broker o.symbol in
      let (finite, below) = min-held laws o.quantity held f (ground arith) (long o.symbol) in
      inr (not_buy o.side sell, rw sell finite, rw sell below)

  -- In a book without short positions, a BUY of a quantity of at least zero and a SELL of any
  -- finite quantity leave no short position.
  pub execute-IsLongOnly :
      IsIeee F
      → (env : Env F) (o : OrderRequested F) (s : Service F) → IsLongOnly s.broker
      → ((o.side == "BUY") ≡ true) × (nought ≼ o.quantity)
        ⊎ ((o.side == "SELL") ≡ true) × IsFinite o.quantity
      → IsLongOnly (execute env o s).1.broker
  execute-IsLongOnly laws env o s long side = elim (Bool-cases (skips o s)) [
    | inl skip ↦ rw (execute-skips env o s skip) long
    | inr fills ↦
        rw
          (
            execute_fills env o s fills,
            broker-reported env (event_of o s) (record s { broker = filled_broker env o s }),
          )
          (fill-IsLongOnly laws env.today (request_of o (filled_quantity o s)) s.broker long
            (request_of-IsCovered laws o s long fills side))
  ]

  -- After a restart from the repository a redelivered order is answered with nothing, where the write
  -- after the fill succeeded, whatever the publication did.
  pub restart_skips_redelivery :
      (env env' : Env F) (o again : OrderRequested F) (s started : Service F) (today : ℕ)
      → again.event_id ≡ o.event_id
      → skips o s ≡ false
      → env.saves (snapshot (filled_broker env o s)) ≡ true
      → let s' = restore_service today (execute env o s).1.persisted started in
        execute env' again s' ≡ (done none, s')
  unfolding restore_service restore snapshot
  restart_skips_redelivery env env' o again s started today same h saved =
      execute-skips env' again (restore_service today (execute env o s).1.persisted started) (
        ground (
          arith,
          same,
          execute_fills env o s h,
          is_processed-fill env.today (request_of o (filled_quantity o s)) s.broker,
        ))
