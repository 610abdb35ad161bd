-- ===== src/RiskMgmt/Service/Orders.antt =====
-- services/risk-mgmt/src/core/service.py: when an order goes out, and what the call leaves behind.
use market_app.Prelude.{
  ℕ, ◌+◌, ◌<◌, ◌⊎◌, List, All, ◌∙◌, ◌≡◌, inl, inr, refl, true, false, Option, none, some, [], ◌∷◌,
  ◌++◌, arith, Option-cases, Bool-cases,
}
use market_app.Prelude.Int.{ℤ, pos, leb_ℤ}
use market_app.Prelude.Dict.{put}
use market_app.Prelude.Act.{Outcome, done, raised, continue}
use market_app.Float.{Float}
use market_app.RiskMgmt.Breaker.{is_tripped}
use market_app.RiskMgmt.Ledger.{Ledger, Key, Key_eq, already_placed, record_order}
use market_app.RiskMgmt.Ledger.Sessions.{SessionsBelow}
use market_app.RiskMgmt.Ledger.Memory.{
  IsValid, is_recent, order_remembered, Holds, prune-keep_sessions, recorded-Holds,
  record_order-Holds, record_order-IsValid, Holds-already_placed,
}
use market_app.RiskMgmt.Sizing.{SizeReason, size}
use market_app.RiskMgmt.Events.{
  Service, Env, SignalAggregated, SignalGenerated, OrderRequested, Request, requested, new,
}
use market_app.RiskMgmt.Service.{
  is_actionable, key_of, request_of, order_of, snapshot, size_and_place, risk_check_and_order,
  record_placed, process_aggregated, process_signal,
}

keep_sessions-record_order :
    (l : Ledger) (k : Key) → (record_order l k).keep_sessions ≡ l.keep_sessions
unfolding record_order
keep_sessions-record_order l k =
    prune-keep_sessions (record l { placed = put k k.session l.placed })

module _ {F : Type 0} ⦃fl : Float F⦄ where
  -- While the breaker is tripped no signal becomes an order, a SELL included, and nothing changes.
  pub tripped_blocks :
      (env : Env F) (e : SignalAggregated F) (g : SignalGenerated F) (s : Service F)
      → is_tripped s.breaker ≡ true
      → (process_aggregated env e s ≡ (done none, s)) × (process_signal env g s ≡ (done none, s))
  unfolding process_aggregated process_signal risk_check_and_order
  tripped_blocks env e g s h = (ground arith, ground arith)

  -- What is known when `_risk_check_and_order` returns an order.
  abbrev pub IsPlaced : Request F → Service F → OrderRequested F → Type 0
  IsPlaced r s o =
      (price : F) × (stop_loss : F) × (shares : ℤ) × (reason : SizeReason) × (r.price ≡ some price)
      × (r.stop_loss ≡ some stop_loss)
      × (size s.sizer price stop_loss s.portfolio r.sector ≡ some (shares, reason))
      × (leb_ℤ shares (pos 0) ≡ false)
      × (o ≡ order_of r price stop_loss shares)

  size_and_place-done :
      (env : Env F) (r : Request F) (price stop : Option F) (s s' : Service F)
      (o : OrderRequested F)
      → r.price ≡ price
      → r.stop_loss ≡ stop
      → size_and_place env r price stop s ≡ (done (some o), s')
      → IsPlaced r s o × (s' ≡ record s { published = s.published ++ requested o ∷ [] })
  unfolding size_and_place
  size_and_place-done env r none stop s s' o e f h = absurd (ground arith)
  size_and_place-done env r (some price) none s s' o e f h = absurd (ground arith)
  size_and_place-done env r (some price) (some stop) s s' o e f h =
      elim (Option-cases (size s.sizer price stop s.portfolio r.sector)) [
        | inl k ↦ absurd (ground arith)
        | inr ((shares, reason), k) ↦
            ((price, stop, shares, reason, e, f, k, ground arith, ground arith), ground arith)
      ]

  risk_check_and_order-done :
      (env : Env F) (r : Request F) (s s' : Service F) (o : OrderRequested F)
      → r.intent ≡ new
      → risk_check_and_order env r s ≡ (done (some o), s')
      → (is_tripped s.breaker ≡ false)
        × IsPlaced r s o
        × (s' ≡ record s { published = s.published ++ requested o ∷ [] })
  unfolding risk_check_and_order
  risk_check_and_order-done env r s s' o n h = elim (Bool-cases (is_tripped s.breaker)) [
    | inl t ↦ absurd (ground arith)
    | inr t ↦
        let (p, e) =
          size_and_place-done env r r.price r.stop_loss s s' o refl refl (ground arith) in
        (t, p, e)
  ]

  -- The state after an order is recorded and saved.
  abbrev saved_with : Key → Service F → Service F
  saved_with key s =
      let s' = record s { ledger = record_order s.ledger key } in
      record s' { persisted = some (snapshot s') }

  record_placed-done :
      (env : Env F) (key : Key) (c : Outcome (Option (OrderRequested F)) × Service F)
      (s' : Service F) (o : OrderRequested F)
      → continue c.0 (record_placed env key) c.1 ≡ (done (some o), s')
      → (c.0 ≡ done (some o)) × (s' ≡ saved_with key c.1)
  unfolding record_placed
  record_placed-done env key (done none, s) s' o h = absurd (ground arith)
  record_placed-done env key (done (some p), s) s' o h = ground arith
  record_placed-done env key (raised, s) s' o h = absurd (ground arith)

  pub process_aggregated-ledger :
      (env : Env F) (e : SignalAggregated F) (s s' : Service F) (o : OrderRequested F)
      → process_aggregated env e s ≡ (done (some o), s')
      → s'.ledger ≡ record_order s.ledger (key_of e)
  unfolding process_aggregated
  process_aggregated-ledger env e s s' o h =
      let c = risk_check_and_order env (request_of e) s in
      let (returned, after) = record_placed-done env (key_of e) c s' o (ground arith) in
      let (open_breaker, placed, sent) =
        risk_check_and_order-done env (request_of e) s c.1 o refl (ground arith) in
      ground arith

  pub process_aggregated_places :
      (env : Env F) (e : SignalAggregated F) (s s' : Service F) (o : OrderRequested F)
      → IsValid s.ledger
      → process_aggregated env e s ≡ (done (some o), s')
      → (is_actionable e.final_signal ≡ true)
        × (is_tripped s.breaker ≡ false)
        × (already_placed s.ledger (key_of e) ≡ false)
        × IsPlaced (request_of e) s o
        × (s'.published ≡ s.published ++ requested o ∷ [])
        × (already_placed s'.ledger (key_of e)
            ≡ is_recent s.ledger.keep_sessions
                (put (key_of e) (key_of e).session s.ledger.placed)
                (key_of e).session)
        × (s'.ledger.keep_sessions ≡ s.ledger.keep_sessions)
        × IsValid s'.ledger
        × (s'.persisted ≡ some (snapshot s'))
        × (s'.portfolio ≡ s.portfolio)
        × (s'.breaker ≡ s.breaker)
  unfolding process_aggregated snapshot
  process_aggregated_places env e s s' o v h =
      let recorded = process_aggregated-ledger env e s s' o h in
      let first : (is_actionable e.final_signal ≡ true)
          × (already_placed s.ledger (key_of e) ≡ false) =
        ground arith in
      let c = risk_check_and_order env (request_of e) s in
      let (returned, after) = record_placed-done env (key_of e) c s' o (ground arith) in
      let (open_breaker, placed, sent) =
        risk_check_and_order-done env (request_of e) s c.1 o refl (ground arith) in
      (
        first.0,
        open_breaker,
        first.1,
        placed,
        ground arith,
        rw recorded (order_remembered s.ledger (key_of e) v),
        rw recorded (keep_sessions-record_order s.ledger (key_of e)),
        rw recorded (record_order-IsValid s.ledger (key_of e) v),
        ground arith,
        ground arith,
        ground arith,
      )

  -- A call that returns no order leaves the service as it was.
  pub process_aggregated-none :
      (env : Env F) (e : SignalAggregated F) (s s' : Service F)
      → process_aggregated env e s ≡ (done none, s')
      → s' ≡ s
  unfolding process_aggregated risk_check_and_order
  process_aggregated-none env e s s' h = ground arith

  pub known_blocks :
      (env : Env F) (e : SignalAggregated F) (s : Service F)
      → already_placed s.ledger (key_of e) ≡ true
      → process_aggregated env e s ≡ (done none, s)
  unfolding process_aggregated
  known_blocks env e s h = ground arith

  ledger-size_and_place :
      (env : Env F) (r : Request F) (price stop : Option F) (s : Service F)
      → (size_and_place env r price stop s).1.ledger ≡ s.ledger
  unfolding size_and_place
  ledger-size_and_place env r none stop s = refl
  ledger-size_and_place env r (some price) none s = refl
  ledger-size_and_place env r (some price) (some stop) s =
      elim (Option-cases (size s.sizer price stop s.portfolio r.sector)) [
        | inl k ↦ rw (size_and_place, k) refl
        | inr ((shares, reason), k) ↦ rw (size_and_place, k) (ground arith)
      ]

  ledger-risk_check_and_order :
      (env : Env F) (r : Request F) (s : Service F)
      → (risk_check_and_order env r s).1.ledger ≡ s.ledger
  unfolding risk_check_and_order
  ledger-risk_check_and_order env r s =
      ground (arith, ledger-size_and_place env r r.price r.stop_loss s)

  ledger-record_placed :
      (env : Env F) (key : Key) (c : Outcome (Option (OrderRequested F))) (s : Service F)
      → let s' = (continue c (record_placed env key) s).1 in
        (s'.ledger ≡ s.ledger) ⊎ (s'.ledger ≡ record_order s.ledger key)
  unfolding record_placed
  ledger-record_placed env key raised s = inl refl
  ledger-record_placed env key (done none) s = inl refl
  ledger-record_placed env key (done (some placed)) s = inr (ground arith)

  -- What becomes of the ledger in one call, whether it returns or raises.
  ledger-process_aggregated :
      (env : Env F) (e : SignalAggregated F) (s : Service F)
      → let s' = (process_aggregated env e s).1 in
        (s'.ledger ≡ s.ledger) ⊎ (s'.ledger ≡ record_order s.ledger (key_of e))
  unfolding process_aggregated
  ledger-process_aggregated env e s =
      let (result, after) = risk_check_and_order env (request_of e) s in
      ground (
        arith,
        ledger-risk_check_and_order env (request_of e) s,
        ledger-record_placed env (key_of e) result after,
      )

  -- The service after some decisions, each under its own environment.
  abbrev pub decide_each : List (Env F × SignalAggregated F) → Service F → Service F
  decide_each [] s = s
  decide_each ((env, e) ∷ later) s = decide_each later (process_aggregated env e s).1

  -- Decisions of sessions before a bound.
  abbrev pub AllBefore : ℕ → List (Env F × SignalAggregated F) → Type 0
  AllBefore bound = All (λ (env, e). (key_of e).session < bound)

  decide_each-Holds :
      (k : Key) (n : ℕ) (later : List (Env F × SignalAggregated F)) (s : Service F)
      → 0 < n
      → s.ledger.keep_sessions ≡ n
      → AllBefore (k.session + n) later
      → Holds k s.ledger
      → Holds k (decide_each later s).ledger
  decide_each-Holds k n [] s p same hs h = h
  decide_each-Holds k n ((env, e) ∷ later) s p same (lt, hs) h =
      let s' = (process_aggregated env e s).1 in
      elim (ledger-process_aggregated env e s) [
        | inl kept ↦ decide_each-Holds k n later s' p (rw kept same) hs (rw kept h)
        | inr recorded ↦
            decide_each-Holds k n later s' p
              (rw recorded (keep_sessions-record_order s.ledger (key_of e) ∙ same)) hs
              (rw recorded (record_order-Holds k (key_of e) s.ledger (rw same lt) (rw same p) h))
      ]

  -- In a ledger of positive depth with one entry per key, once an order is out, no later signal
  -- of the same symbol, side and session becomes one, and the call changes nothing, whatever
  -- decisions the service has handled in between and whichever of them raised: provided that
  -- neither an entry of the ledger nor one of these decisions is of a session `keep_sessions`
  -- days later, or more.
  pub one_order_per_session :
      (env env' : Env F) (e e' : SignalAggregated F) (s s' : Service F) (o : OrderRequested F)
      (later : List (Env F × SignalAggregated F))
      → IsValid s.ledger
      → 0 < s.ledger.keep_sessions
      → SessionsBelow ((key_of e).session + s.ledger.keep_sessions) s.ledger.placed
      → process_aggregated env e s ≡ (done (some o), s')
      → AllBefore ((key_of e).session + s.ledger.keep_sessions) later
      → key_of e' ≡ key_of e
      → let s'' = decide_each later s' in process_aggregated env' e' s'' ≡ (done none, s'')
  one_order_per_session env env' e e' s s' o later v p old h soon k =
      let n = s.ledger.keep_sessions in
      let recorded = process_aggregated-ledger env e s s' o h in
      let same : s'.ledger.keep_sessions ≡ n =
        rw recorded (keep_sessions-record_order s.ledger (key_of e)) in
      let holds =
        decide_each-Holds (key_of e) n later s' p same soon
          (rw recorded (recorded-Holds (key_of e) s.ledger v p old)) in
      known_blocks env' e' (decide_each later s')
        (rw k (Holds-already_placed (key_of e) (decide_each later s').ledger holds))

  -- The order goes out before the ledger is saved: where the write fails, the call raises with the
  -- order published and nothing persisted of it.
  pub order_out_before_save :
      (env : Env F) (e : SignalAggregated F) (s s' : Service F) (o : OrderRequested F)
      → is_actionable e.final_signal ≡ true
      → already_placed s.ledger (key_of e) ≡ false
      → risk_check_and_order env (request_of e) s ≡ (done (some o), s')
      → env.saves (snapshot (record s' { ledger = record_order s'.ledger (key_of e) })) ≡ false
      → let (result, after) = process_aggregated env e s in
        (result ≡ raised)
        × (after.published ≡ s.published ++ requested o ∷ [])
        × (after.persisted ≡ s.persisted)
  unfolding process_aggregated
  order_out_before_save env e s s' o a n c refused =
      let (_, _, sent) = risk_check_and_order-done env (request_of e) s s' o refl c in
      rw (a, n, c, refused) (refl, ground arith, ground arith)
