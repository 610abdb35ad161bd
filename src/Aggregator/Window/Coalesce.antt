-- ===== src/Aggregator/Window/Coalesce.antt =====
-- services/signal-aggregator/src/core/service.py: the components of one window make one decision.
use market_app.Prelude.{
  none, String, ◌≡◌, refl, Bool, false, ◌||◌, List, [], ◌∷◌, ◌++◌, arith, ◌==◌, String_eq,
}
use market_app.Prelude.Act.{done}
use market_app.Prelude.Dict.{get}
use market_app.Float.{Float, le, nought}
use market_app.Aggregator.Weights.{Elementary}
use market_app.Aggregator.Service.{Env}
use market_app.Aggregator.Service.Levels.{unbuffered}
use market_app.Aggregator.Window.{
  decide_after_window, Window, SignalGenerated, MlSignalGenerated, is_pending, buffer_signal,
  buffer_ml, schedule_decision, handle_signal_generated, handle_ml_signal,
}

-- A component of a decision: a strategy's signal or an ML vote.
pub data Component (F : Type 0) : Type 0 where
  strategy : SignalGenerated F → Component F
  ml : MlSignalGenerated F → Component F

abbrev pub symbol_of : {F : Type 0} → Component F → String
symbol_of (strategy e) = e.symbol
symbol_of (ml e) = e.symbol

is_pending-append :
    (a b : String) (xs : List String) → is_pending a (xs ++ b ∷ []) ≡ (is_pending a xs || b == a)
is_pending-append a b [] = ground arith
is_pending-append a b (x ∷ xs) = ground (arith, is_pending-append a b xs)

module _ {F : Type 0} ⦃fl : Float F⦄ ⦃el : Elementary F⦄ where
  unfoldable pub handle_component : Env F → Component F → Window F → Window F
  handle_component env (strategy e) w = (handle_signal_generated env e w).1
  handle_component env (ml e) w = (handle_ml_signal env e w).1

  unfoldable pub handle_components : Env F → List (Component F) → Window F → Window F
  handle_components env [] w = w
  handle_components env (c ∷ cs) w = handle_components env cs (handle_component env c w)

  one_component :
      (env : Env F) (c : Component F) (w : Window F)
      → le w.join_window_s nought ≡ false
      → let w' = handle_component env c w in
        (w'.service.published ≡ w.service.published)
        × (w'.join_window_s ≡ w.join_window_s)
        × ((symbol : String)
            → is_pending symbol w'.pending ≡ (is_pending symbol w.pending || symbol_of c == symbol))
  unfolding handle_component handle_signal_generated handle_ml_signal schedule_decision
      buffer_signal buffer_ml
  one_component env (strategy e) w h = (
    ground arith,
    ground arith,
    λ symbol.
        ground
          (arith, is_pending-append symbol e.symbol w.pending, String_eq.beq_iff e.symbol symbol),
  )
  one_component env (ml e) w h = (
    ground arith,
    ground arith,
    λ symbol.
        ground
          (arith, is_pending-append symbol e.symbol w.pending, String_eq.beq_iff e.symbol symbol),
  )

  abbrev pub concerns : String → List (Component F) → Bool
  concerns symbol [] = false
  concerns symbol (c ∷ cs) = symbol_of c == symbol || concerns symbol cs

  -- While windows have a length, no component that arrives publishes anything, and a symbol has an open
  -- window afterwards exactly if it had one or a component concerned it.
  pub components_wait :
      (env : Env F) (cs : List (Component F)) (w : Window F)
      → le w.join_window_s nought ≡ false
      → let w' = handle_components env cs w in
        (w'.service.published ≡ w.service.published)
        × ((symbol : String)
            → is_pending symbol w'.pending ≡ (is_pending symbol w.pending || concerns symbol cs))
  unfolding handle_components
  components_wait env [] w h = (refl, λ symbol. ground arith)
  components_wait env (c ∷ cs) w h =
      let (same, width, opened) = one_component env c w h in
      let (kept, opened_all) = components_wait env cs (handle_component env c w) (rw width h) in
      (ground (arith, same, kept), λ symbol. ground (arith, opened symbol, opened_all symbol))

  -- ML cannot trade alone: for a symbol without a buffered strategy signal, an ML vote and the decision
  -- at the end of its window publish nothing, whatever the macro bias is and however long the window.
  pub ml_alone_silent :
      (env : Env F) (e : MlSignalGenerated F) (w : Window F)
      → get e.symbol w.service.buffer ≡ none
      → let (result, w') = handle_ml_signal env e w in
        (result ≡ done tt)
        × (w'.service.published ≡ w.service.published)
        × ((decide_after_window env e.symbol w').service.published ≡ w.service.published)
  unfolding handle_ml_signal schedule_decision decide_after_window buffer_ml
  ml_alone_silent env e w h =
      let s = buffer_ml e w.service in ground (arith, unbuffered env e.symbol s)
