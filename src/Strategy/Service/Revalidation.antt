-- ===== src/Strategy/Service/Revalidation.antt =====
-- services/strategy/src/core/service.py: `apply_revalidation`.
use market_app.Prelude.{
  String, ◌≡◌, ◌∙◌, refl, sym, ap, All, ◌==◌, true, false, Option, none, some, List, [], ◌∷◌, ◌++◌,
  arith, String_eq,
}
use mathlib.Core.List.{append-nil}
use mathlib.Core.Path.{subst}
use market_app.Prelude.Act.{done}
use market_app.Prelude.Dict.{Dict, get, put, get-put}
use market_app.Float.{Float}
use market_app.Strategy.Health.{
  active, is_active, same_status, Status, Tracker, apply_status, status_of, changed_from,
}
use market_app.Strategy.Events.{
  SignalGenerated, Published, changed, StatusChanged, Revalidated, Service, Env,
}
use market_app.Strategy.Service.{
  active_in, evaluate_symbol, publish, apply_revalidation, revalidate, announce_change,
  recommended_to_status, revalidation_change,
}
use market_app.Strategy.Service.Signals.{IsNamed, signals_of_active}

module _ {F : Type 0} ⦃fl : Float F⦄ where
  abbrev pub announced : Option (StatusChanged F) → List (Published F)
  announced none = []
  announced (some c) = changed c ∷ []

  announce_change_lem :
      (env : Env F) (change : Option (StatusChanged F)) (s : Service F)
      → ((event : Published F) → env.publishes event ≡ true)
      → announce_change env change s
        ≡ (done change, record s { published = s.published ++ announced change })
  unfolding announce_change publish
  announce_change_lem env none s ok = ground (arith, append-nil s.published)
  announce_change_lem env (some c) s ok = ground (arith, ok (changed c))

  -- Where publishing succeeds, a known recommendation for a strategy that runs here sets its
  -- status; a change event goes out exactly if the status moved; no other strategy and no rule is
  -- touched.
  apply_revalidation_lem :
      (env : Env F) (e : Revalidated F) (tracker : Tracker F) (text : String) (now : Status)
      (s : Service F)
      → ((event : Published F) → env.publishes event ≡ true)
      → get e.strategy_name s.health ≡ some tracker
      → recommended_to_status e.recommended_status ≡ some text
      → status_of text ≡ some now
      → let change = revalidation_change e (changed_from tracker.status now) now in
        let (result, s') = apply_revalidation env e s in
        (result ≡ done change)
        × (s'.health ≡ put e.strategy_name (record tracker { status = now }) s.health)
        × (s'.published ≡ s.published ++ announced change)
        × (s'.rules ≡ s.rules)
  unfolding apply_revalidation revalidate apply_status
  apply_revalidation_lem env e tracker text now s ok known recommended valid =
      let change = revalidation_change e (changed_from tracker.status now) now in
      let moved = record s {
        health = put e.strategy_name (record tracker { status = now }) s.health;
      } in
      rw
        (
          apply_revalidation,
          known,
          revalidate,
          recommended,
          apply_status,
          valid,
          announce_change_lem env change moved ok,
        )
        (refl, refl, refl, refl)

  silent :
      (d : Dict String (Tracker F)) (name : String) (tracker : Tracker F)
      (events : List (SignalGenerated F))
      → is_active tracker ≡ false
      → All (λ x. active_in (put name tracker d) x.strategy_name ≡ true) events
      → All (λ x. (name == x.strategy_name) ≡ false) events
  silent d name tracker [] h all = tt
  silent d name tracker (x ∷ xs) h (q, all) =
      (ground (arith, q, h, get-put name x.strategy_name tracker d), silent d name tracker xs h all)

  -- Where publishing succeeds and every strategy runs under its own name, a strategy that a known
  -- recommendation takes out of the active status is silent: an evaluation of a symbol after it
  -- returns no signal under its name.
  pub revalidated_silent :
      (env env' : Env F) (e : Revalidated F) (tracker : Tracker F) (text : String) (now : Status)
      (s s' : Service F) (symbol : String) (events : List (SignalGenerated F))
      → ((event : Published F) → env.publishes event ≡ true)
      → IsNamed s
      → get e.strategy_name s.health ≡ some tracker
      → recommended_to_status e.recommended_status ≡ some text
      → status_of text ≡ some now
      → same_status now active ≡ false
      → evaluate_symbol env' symbol (apply_revalidation env e s).1 ≡ (done events, s')
      → All (λ x. (e.strategy_name == x.strategy_name) ≡ false) events
  revalidated_silent env env' e tracker text now s s' symbol events ok named known recommended valid
        out run =
      let (_, health, _, rules) =
        apply_revalidation_lem env e tracker text now s ok known recommended valid in
      let after = (apply_revalidation env e s).1 in
      let (all, _, _) =
        signals_of_active env' symbol after s' events
          (λ name rule h. named name rule (sym (ap (λ d. get name d) rules) ∙ h)) run in
      silent s.health e.strategy_name (record tracker { status = now }) events out
        (subst (λ d. All (λ x. active_in d x.strategy_name ≡ true) events) health all)
