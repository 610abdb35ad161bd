-- ===== src/Execution/Service/Flatten.antt =====
-- services/execution/src/core/service.py: `flatten_all` and the protective exits.
use market_app.Prelude.{
  String, ◌≡◌, ◌⊎◌, inl, inr, refl, true, false, not, some, List, [], ◌∷◌, arith, if◌then◌else◌,
  ◌==◌, String_eq, Option-cases,
}
use market_app.Prelude.Act.{done}
use market_app.Prelude.Dict.{
  get, contains, HasDistinctKeys, get-keep_values, keep_values-HasDistinctKeys,
}
use market_app.Float.{Float, IsIeee, IsFinite, ◌≼◌, ◌≺◌, feq, sub, nought}
use market_app.Execution.Book.{Position}
use market_app.Execution.Broker.{Trigger, is_processed, position_qty, apply_slippage, fill, sold}
use market_app.Execution.Broker.Fills.{fill_lem, position_qty-fill}
use market_app.Execution.Broker.Levels.{Exits, Stays, trigger_cases}
use market_app.Execution.Reports.{BrokerSnapshot, snapshot, open_positions}
use market_app.Execution.Service.{
  Service, Env, save, exit_request, liquidate_each, flatten_positions, flatten_all,
  handle_circuit_breaker, exit_on, maybe_protective_exit,
}
use market_app.Execution.Service.Liquidation.{
  Publishes, HasDistinctIds, is_done, left_of, announce-Publishes, liquidate_each_lem,
}

list-cases : {A : Type 0} (xs : List A) → (xs ≡ []) ⊎ ((x : A) × (rest : List A) × (xs ≡ x ∷ rest))
list-cases [] = inl refl
list-cases (x ∷ rest) = inr (x, rest, refl)

module _ {F : Type 0} ⦃fl : Float F⦄ where
  flatten_all-cons :
      (env : Env F) (s : Service F)
      → ((snap : BrokerSnapshot F) → env.saves snap ≡ true)
      → let s' = (liquidate_each env (open_positions s.broker) s).1 in
        is_done (liquidate_each env (open_positions s.broker) s).0 ≡ true
        → (is_done (flatten_all env s).0 ≡ true) × ((flatten_all env s).1.broker ≡ s'.broker)
  unfolding flatten_all flatten_positions liquidate_each save
  flatten_all-cons env s saves h = elim (list-cases (open_positions s.broker)) [
    | inl none_open ↦ ground (arith, none_open)
    | inr (entry, rest, some_open) ↦ ground (
      arith,
      some_open,
      saves (snapshot (liquidate_each env (open_positions s.broker) s).1.broker),
    )
  ]

  left_of_nothing :
      IsIeee F → (p : Position F) → IsFinite p.quantity → nought ≺ p.last_price → left_of p ≼ nought
  left_of_nothing laws p f price =
      let (n, m) = laws.lt_numbers nought p.last_price price in
      ground (arith, laws.lt-not-le nought p.last_price n m, laws.sub_self p.quantity f)

  -- A flatten_all event closes the book: where publishing and saving succeed, every symbol is
  -- stored once, quantities are finite, stored positions have a positive last price, and the new
  -- identifiers are distinct and unused, the call returns, and afterwards no symbol has a quantity
  -- above zero.
  pub flatten_all_closes :
      IsIeee F
      → (env : Env F) (s : Service F) → Publishes env
      → ((snap : BrokerSnapshot F) → env.saves snap ≡ true)
      → HasDistinctIds env
      → HasDistinctKeys s.broker.positions
      → ((x : String)
          → contains x s.broker.positions ≡ true
          → is_processed s.broker (env.new_id x) ≡ false)
      → ((x : String) (p : Position F)
          → get x s.broker.positions ≡ some p
          → IsFinite p.quantity × (nought ≺ p.last_price))
      → let (result, s') = handle_circuit_breaker env "flatten_all" s in
        (is_done result ≡ true) × ((x : String) → position_qty s'.broker x ≼ nought)
  unfolding handle_circuit_breaker open_positions
  flatten_all_closes laws env s ok saves ids distinct fresh held =
      let open_entries = open_positions s.broker in
      let is_open = λ (p : Position F). not (feq p.quantity nought) in
      let (succeeds, quantities) =
        liquidate_each_lem env open_entries s ok ids
          (keep_values-HasDistinctKeys is_open s.broker.positions distinct)
          (λ x p h. ground (arith, get-keep_values is_open x s.broker.positions distinct))
          (λ x h.
            fresh x (ground (arith, get-keep_values is_open x s.broker.positions distinct))) in
      let (done_all, same) = flatten_all-cons env s saves succeeds in
      (
        done_all,
        λ x. rw same (elim (Option-cases (get x s.broker.positions)) [
          | inl absent ↦ ground (
            arith,
            absent,
            quantities x,
            get-keep_values is_open x s.broker.positions distinct,
            laws.nought_number,
          )
          | inr (p, known) ↦
              let (finite, price) = held x p known in
              ground (
                arith,
                known,
                quantities x,
                get-keep_values is_open x s.broker.positions distinct,
                left_of_nothing laws p finite price,
              )
        ]),
      )

  -- Any other action of a circuit-breaker event changes nothing.
  pub other_actions :
      (env : Env F) (action_taken : String) (s : Service F)
      → ¬ (action_taken ≡ "flatten_all")
      → handle_circuit_breaker env action_taken s ≡ (done [], s)
  unfolding handle_circuit_breaker
  other_actions env action_taken s h = ground (arith, String_eq.beq_iff action_taken "flatten_all")

  exit_on-some :
      (env : Env F) (symbol : String) (price : F) (trigger : Trigger) (s : Service F)
      → Publishes env
      → is_processed s.broker (env.new_id symbol) ≡ false
      → let (result, s') = exit_on env symbol price (some trigger) s in
        let held = position_qty s.broker symbol in
        (is_done result ≡ true)
        × ((x : String)
            → position_qty s'.broker x
              ≡ (if symbol == x then sub held held else position_qty s.broker x))
  unfolding exit_on sold
  exit_on-some env symbol price trigger s ok new =
      let r = exit_request (env.new_id symbol) symbol (position_qty s.broker symbol) price in
      let (filled, _, _) = fill_lem env.today r s.broker new in
      let announced =
        announce-Publishes env
          (record {
            order_id = r.order_id;
            symbol = r.symbol;
            side = r.side;
            quantity = r.quantity;
            price = apply_slippage s.broker r.side r.price;
          })
          (record s { broker = (fill env.today r s.broker).1 }) ok in
      (
        ground (arith, filled, announced),
        λ x. ground (arith, filled, announced, position_qty-fill env.today r s.broker x new),
      )

  -- Where publishing succeeds and the new identifier is unused, a protective exit returns. Either
  -- the symbol is held and its last price is at its stop or below, or at its profit target or
  -- above; then what is held of it is taken off its position and no other quantity moves. Or it is
  -- not held, or its last price is at neither level; then nothing changes.
  pub protective_exit_lem :
      (env : Env F) (symbol : String) (price : F) (s : Service F)
      → Publishes env
      → is_processed s.broker (env.new_id symbol) ≡ false
      → let (result, s') = maybe_protective_exit env symbol price s in
        let held = position_qty s.broker symbol in
        (is_done result ≡ true)
        × (Exits s.broker symbol
              × ((x : String)
                  → position_qty s'.broker x
                    ≡ (if symbol == x then sub held held else position_qty s.broker x))
            ⊎ Stays s.broker symbol × (s' ≡ s))
  unfolding maybe_protective_exit exit_on
  protective_exit_lem env symbol price s ok new = elim (trigger_cases s.broker symbol) [
    | inl (trigger, hit, exits) ↦
        let (returns, moved) = exit_on-some env symbol price trigger s ok new in
        rw hit (returns, inl (exits, moved))
    | inr (calm, stays) ↦ rw calm (refl, inr (stays, refl))
  ]
