-- ===== src/Execution/Service/Liquidation.antt =====
-- services/execution/src/core/service.py: one liquidation, and the loop over the positions.
use market_app.Prelude.{
  String, ◌≡◌, inl, inr, refl, Bool, true, false, ◌||◌, none, some, [], ◌∷◌, ◌++◌, arith,
  if◌then◌else◌, ◌==◌, ==_refl, String_eq, Bool-cases,
}
use market_app.Prelude.Act.{Outcome, done, raised}
use market_app.Prelude.Dict.{Dict, get, contains, HasDistinctKeys}
use market_app.Float.{Float, le, sub, nought}
use market_app.Execution.Book.{Broker, Position, Fill, FillRequest}
use market_app.Execution.Broker.{is_processed, position_qty, apply_slippage, fill, sold}
use market_app.Execution.Broker.Fills.{fill_lem, position_qty-fill, is_processed-fill_other}
use market_app.Execution.Service.{
  Service, Env, OrderFilled, filled_event, publish, exit_request, announce, liquidate,
  liquidate_each,
}

-- Every publication succeeds.
abbrev pub Publishes : {F : Type 0} → Env F → Type 0
Publishes {F} env = (event : OrderFilled F) → env.publishes event ≡ true

-- Different symbols get different identifiers.
abbrev pub HasDistinctIds : {F : Type 0} → Env F → Type 0
HasDistinctIds env = (a b : String) → env.new_id a ≡ env.new_id b → a ≡ b

abbrev pub is_done : {A : Type 0} → Outcome A → Bool
is_done (done a) = true
is_done raised = false

module _ {F : Type 0} ⦃fl : Float F⦄ where
  -- Whether `flatten_all` passes over a position.
  abbrev pub stays : Position F → Bool
  stays p = le p.quantity nought || le p.last_price nought

  pub announce-Publishes :
      (env : Env F) (f : Fill F) (s : Service F)
      → Publishes env
      → announce env (some f) s ≡ (
        done (some (filled_event f)),
        record s { published = s.published ++ filled_event f ∷ [] },
      )
  unfolding announce publish
  announce-Publishes env f s ok = ground (arith, ok (filled_event f))

  abbrev exit_of : Env F → String → Position F → FillRequest F
  exit_of env symbol p = exit_request (env.new_id symbol) symbol p.quantity p.last_price

  liquidate-stays :
      (env : Env F) (symbol : String) (p : Position F) (s : Service F)
      → stays p ≡ true
      → liquidate env symbol p s ≡ (done none, s)
  unfolding liquidate
  liquidate-stays env symbol p s h = ground arith

  -- The quantity that `flatten_all` leaves of a position.
  abbrev pub left_of : Position F → F
  left_of p = if stays p then p.quantity else sub p.quantity p.quantity

  qty-fill_exit :
      (env : Env F) (symbol : String) (p : Position F) (b : Broker F) (x : String)
      → is_processed b (env.new_id symbol) ≡ false
      → position_qty b symbol ≡ p.quantity
      → position_qty (fill env.today (exit_of env symbol p) b).1 x
        ≡ (if symbol == x then sub p.quantity p.quantity else position_qty b x)
  unfolding sold
  qty-fill_exit env symbol p b x new held =
      ground (arith, held, position_qty-fill env.today (exit_of env symbol p) b x new)

  -- One liquidation succeeds, sells what the position holds, and uses no other identifier.
  record Liquidated (env : Env F) (symbol : String) (p : Position F) (s : Service F) : Type 0 where
    succeeds : is_done (liquidate env symbol p s).0 ≡ true
    quantities :
        (x : String)
        → position_qty (liquidate env symbol p s).1.broker x
          ≡ (if symbol == x then left_of p else position_qty s.broker x)
    others :
        (i : String)
        → (env.new_id symbol == i) ≡ false
        → is_processed (liquidate env symbol p s).1.broker i ≡ is_processed s.broker i

  liquidate_result :
      (env : Env F) (symbol : String) (p : Position F) (s : Service F)
      → Publishes env
      → stays p ≡ false
      → is_processed s.broker (env.new_id symbol) ≡ false
      → (is_done (liquidate env symbol p s).0 ≡ true)
        × ((liquidate env symbol p s).1.broker ≡ (fill env.today (exit_of env symbol p) s.broker).1)
  unfolding liquidate
  liquidate_result env symbol p s ok h new =
      let r = exit_of env symbol p in
      let (filled, _, _) = fill_lem env.today r s.broker new in
      ground (
        arith,
        filled,
        announce-Publishes env
            (record {
              order_id = r.order_id;
              symbol = r.symbol;
              side = r.side;
              quantity = r.quantity;
              price = apply_slippage s.broker r.side r.price;
            })
            (record s { broker = (fill env.today r s.broker).1 }) ok,
      )

  liquidate_lem :
      (env : Env F) (symbol : String) (p : Position F) (s : Service F)
      → Publishes env
      → position_qty s.broker symbol ≡ p.quantity
      → is_processed s.broker (env.new_id symbol) ≡ false
      → Liquidated env symbol p s
  liquidate_lem env symbol p s ok held new = elim (Bool-cases (stays p)) [
    | inl h ↦
        let same = liquidate-stays env symbol p s h in
        record {
          succeeds = rw same refl;
          quantities = λ x. rw same (ground (arith, held, String_eq.beq_iff symbol x));
          others = λ i _. rw same refl;
        }
    | inr h ↦
        let (succeeds, broker) = liquidate_result env symbol p s ok h new in
        record {
          succeeds = succeeds;
          quantities =
              λ x. rw broker (ground (arith, qty-fill_exit env symbol p s.broker x new held));
          others = λ i other.
              rw broker (is_processed-fill_other env.today (exit_of env symbol p) s.broker i other);
        }
  ]

  each-cons :
      (env : Env F) (symbol : String) (p : Position F) (rest : Dict String (Position F))
      (s : Service F)
      → is_done (liquidate env symbol p s).0 ≡ true
      → let s' = (liquidate env symbol p s).1 in
        is_done (liquidate_each env rest s').0 ≡ true
        → (is_done (liquidate_each env ((symbol, p) ∷ rest) s).0 ≡ true)
          × ((liquidate_each env ((symbol, p) ∷ rest) s).1 ≡ (liquidate_each env rest s').1)
  unfolding liquidate_each
  each-cons env symbol p rest s first_done rest_done = ground arith

  -- The loop succeeds, and leaves of every listed position what `left_of` says.
  pub liquidate_each_lem :
      (env : Env F) (entries : Dict String (Position F)) (s : Service F)
      → Publishes env
      → HasDistinctIds env
      → HasDistinctKeys entries
      → ((x : String) (p : Position F)
          → get x entries ≡ some p
          → position_qty s.broker x ≡ p.quantity)
      → ((x : String) → contains x entries ≡ true → is_processed s.broker (env.new_id x) ≡ false)
      → (is_done (liquidate_each env entries s).0 ≡ true)
        × ((x : String)
            → position_qty (liquidate_each env entries s).1.broker x
              ≡ elim (get x entries) [ none ↦ position_qty s.broker x | some p ↦ left_of p ])
  unfolding liquidate_each get
  liquidate_each_lem env [] s ok ids distinct held fresh = (refl, λ x. refl)
  liquidate_each_lem env ((symbol, p) ∷ rest) s ok ids (once, distinct) held fresh =
      let first =
        liquidate_lem env symbol p s ok (held symbol p (ground (arith, ==_refl symbol)))
          (fresh symbol (ground (arith, ==_refl symbol))) in
      let s' = (liquidate env symbol p s).1 in
      let (succeeds, quantities) =
        liquidate_each_lem env rest s' ok ids distinct
          (λ x q h. ground (arith, once, first.quantities x, held x q, String_eq.beq_iff symbol x))
          (λ x h. ground (
            arith,
            once,
            first.others (env.new_id x),
            fresh x,
            String_eq.beq_iff symbol x,
            String_eq.beq_iff (env.new_id symbol) (env.new_id x),
            ids symbol x,
          )) in
      let (done_all, same) = each-cons env symbol p rest s first.succeeds succeeds in
      (
        done_all,
        λ x.
            rw same
              (ground (arith, once, quantities x, first.quantities x, String_eq.beq_iff symbol x)),
      )
