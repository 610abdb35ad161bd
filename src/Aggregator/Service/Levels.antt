-- ===== src/Aggregator/Service/Levels.antt =====
-- services/signal-aggregator/src/core/service.py: where the levels of a decision come from.
use market_app.Prelude.{
  String, ◌≡◌, ◌⊎◌, inl, inr, refl, Bool, true, false, not, Option, none, some, List, [], ◌∷◌, ◌++◌,
  arith, if◌then◌else◌, ◌==◌, String_eq, Bool-cases, Option-cases,
}
use mathlib.Core.Path.{subst, sym}
use market_app.Prelude.Act.{done, Outcome-cases}
use market_app.Prelude.Dict.{Dict, get, keep_values}
use market_app.Prelude.Int.{ℤ}
use market_app.Float.{Float}
use market_app.Aggregator.Vote.{SignalComponent}
use market_app.Aggregator.Weights.{Elementary}
use market_app.Aggregator.Service.Live.{In, here, there, IsLive, In-live_entries}
use market_app.Aggregator.Service.{
  BufferedSignal, Service, Env, AggregationResult, Decision, is_actionable, matching, first_of,
  first_among, ahead_of, select_levels, live_entries, aggregate_entries, aggregate_symbol,
  prune_symbol, expired, publish, decide, live_ml, components_of, result_of,
}

In-if :
    {A : Type 0} (t : Bool) (x e : A) (rest : List A)
    → In e (if t then x ∷ rest else rest)
    → (x ≡ e) × (t ≡ true) ⊎ In e rest
In-if true x _ rest here = inl (refl, refl)
In-if true x e rest (there i) = inr i
In-if false x e rest i = inr i

module _ {F : Type 0} ⦃fl : Float F⦄ where
  abbrev Agrees : String → List (BufferedSignal F) → BufferedSignal F → Type 0
  Agrees direction es e = In e es × ((e.component.signal == direction) ≡ true)

  Agrees-if :
      (direction : String) (all : List (BufferedSignal F)) (a b : BufferedSignal F) (t : Bool)
      → Agrees direction all a
      → Agrees direction all b
      → Agrees direction all (if t then a else b)
  Agrees-if direction all a b true h k = h
  Agrees-if direction all a b false h k = k

  Agrees-first_of :
      (direction : String) (all : List (BufferedSignal F)) (best : BufferedSignal F)
      (es : List (BufferedSignal F))
      → Agrees direction all best
      → ((e : BufferedSignal F) → In e es → Agrees direction all e)
      → Agrees direction all (first_of best es)
  Agrees-first_of direction all best [] h k = h
  Agrees-first_of direction all best (e ∷ es) h k =
      Agrees-first_of direction all (if ahead_of e best then e else best) es
        (Agrees-if direction all e best (ahead_of e best) (k e here) h) (λ f i. k f (there i))

  Agrees-matching :
      (direction : String) (es : List (BufferedSignal F)) (e : BufferedSignal F)
      → In e (matching direction es)
      → Agrees direction es e
  Agrees-matching direction [] e i = elim i [ ]
  Agrees-matching direction (x ∷ es) e i =
      elim (In-if (x.component.signal == direction) x e (matching direction es) i) [
        | inl (same, agrees) ↦ subst (λ f. Agrees direction (x ∷ es) f) same (here, agrees)
        | inr later ↦
            let (among, agrees) = Agrees-matching direction es e later in (there among, agrees)
      ]

  first_among-cases :
      (direction : String) (es m : List (BufferedSignal F))
      → ((e : BufferedSignal F) → In e m → Agrees direction es e)
      → ((first_among m ≡ none) × (m ≡ []))
        ⊎ ((e : BufferedSignal F) × (first_among m ≡ some e) × Agrees direction es e)
  first_among-cases direction es [] h = inl (refl, refl)
  first_among-cases direction es (x ∷ xs) h =
      inr (first_of x xs, refl, Agrees-first_of direction es x xs (h x here) (λ e i. h e (there i)))

  -- The levels of an order are those of a buffered strategy that votes in the direction of the order;
  -- there are none only if no buffered strategy does.
  pub select_levels_lem :
      (es : List (BufferedSignal F)) (direction : String)
      → ((select_levels es direction ≡ none) × (matching direction es ≡ []))
        ⊎ ((e : BufferedSignal F) × (select_levels es direction ≡ some e)
            × In e es
            × ((e.component.signal == direction) ≡ true))
  unfolding select_levels
  select_levels_lem es direction =
      elim (first_among-cases direction es (matching direction es) (Agrees-matching direction es)) [
        | inl nothing ↦ inl nothing
        | inr (e, chosen, (among, agrees)) ↦ inr (e, chosen, among, agrees)
      ]

module _ {F : Type 0} ⦃fl : Float F⦄ ⦃el : Elementary F⦄ where
  -- A symbol without a buffered strategy signal has no decision, whatever ML and macro say.
  pub unbuffered :
      (env : Env F) (symbol : String) (s : Service F)
      → get symbol s.buffer ≡ none
      → aggregate_symbol env symbol s ≡ (done none, s)
  unfolding aggregate_symbol aggregate_entries live_entries
  unbuffered env symbol s h = rw (aggregate_symbol, live_entries, h) refl

  published-live_ml :
      (now : ℤ) (symbol : String) (s : Service F) → (live_ml now symbol s).1.published ≡ s.published
  unfolding live_ml
  published-live_ml now symbol s = elim (Option-cases (get symbol s.ml_buffer)) [
    | inl missing ↦ rw (live_ml, missing) refl
    | inr (e, known) ↦ rw (live_ml, known) (ground arith)
  ]

  published-prune_symbol :
      (symbol : String) (live : Dict String (BufferedSignal F)) (s : Service F)
      → (prune_symbol symbol live s).1.published ≡ s.published
  unfolding prune_symbol
  published-prune_symbol symbol [] s = refl
  published-prune_symbol symbol (entry ∷ rest) s = refl

  published-live_entries :
      (now : ℤ) (symbol : String) (s : Service F)
      → (live_entries now symbol s).1.published ≡ s.published
  unfolding live_entries
  published-live_entries now symbol s = elim (Option-cases (get symbol s.buffer)) [
    | inl missing ↦ rw (live_entries, missing) refl
    | inr ([], known) ↦ rw (live_entries, known) refl
    | inr (entry ∷ rest, known) ↦
        rw (live_entries, known)
          (published-prune_symbol symbol
            (keep_values (λ e. not (expired now s.ttl_s e.at)) (entry ∷ rest)) s)
  ]

  aggregate_entries-done :
      (env : Env F) (symbol : String) (entry : BufferedSignal F) (rest : List (BufferedSignal F))
      (s s' : Service F) (r : AggregationResult F)
      → aggregate_entries env symbol (entry ∷ rest) s ≡ (done (some r), s')
      → (components : List (SignalComponent F)) × (decision : Decision F) × (sector : Option String)
        × (r
            ≡ result_of symbol components decision
                (select_levels (entry ∷ rest) decision.signal)
                sector)
        × (s'.published ≡ s.published ++ r ∷ [])
  unfolding aggregate_entries publish
  aggregate_entries-done env symbol entry rest s s' r h =
      let s1 = (live_ml env.now symbol s).1 in
      let components = components_of (entry ∷ rest) (live_ml env.now symbol s).0 s1.macro_bias in
      elim (Option-cases (decide s1 components)) [
        | inl failed ↦ absurd (ground arith)
        | inr (decision, decided) ↦ elim (Outcome-cases (env.get_sector symbol)) [
          | inl failed ↦ absurd (ground arith)
          | inr (sector, ok) ↦ (
            components,
            decision,
            sector,
            ground arith,
            ground (arith, published-live_ml env.now symbol s),
          )
        ]
      ]

  -- The levels of a result: none, or those of a signal of some kind, which votes in its direction.
  abbrev pub HasLevels : (BufferedSignal F → Type 0) → AggregationResult F → Type 0
  HasLevels IsSource r =
      ((r.price ≡ none) × (r.stop_loss ≡ none) × (r.take_profit ≡ none) × (r.strategy_name ≡ none))
      ⊎ ((e : BufferedSignal F) × IsSource e
          × (is_actionable r.decision.signal ≡ true)
          × ((e.component.signal == r.decision.signal) ≡ true)
          × (r.price ≡ e.price)
          × (r.stop_loss ≡ e.stop_loss)
          × (r.take_profit ≡ e.take_profit)
          × (r.strategy_name ≡ some e.strategy_name))

  HasLevels-result_of :
      (symbol : String) (components : List (SignalComponent F)) (decision : Decision F)
      (entries : List (BufferedSignal F)) (sector : Option String)
      → HasLevels
          (λ e. In e entries)
          (result_of symbol components decision (select_levels entries decision.signal) sector)
  HasLevels-result_of symbol components decision entries sector =
      elim (Bool-cases (is_actionable decision.signal)) [
        | inl acts ↦ elim (select_levels_lem entries decision.signal) [
          | inl (nothing, _) ↦ inl (ground arith, ground arith, ground arith, ground arith)
          | inr (e, chosen, among, agrees) ↦
              inr (e, among, acts, agrees, ground arith, ground arith, ground arith, ground arith)
        ]
        | inr idle ↦ inl (ground arith, ground arith, ground arith, ground arith)
      ]

  aggregated :
      (env : Env F) (symbol : String) (entries : List (BufferedSignal F)) (s s' : Service F)
      (r : AggregationResult F)
      → aggregate_entries env symbol entries s ≡ (done (some r), s')
      → HasLevels (λ e. In e entries) r × (s'.published ≡ s.published ++ r ∷ [])
  unfolding aggregate_entries
  aggregated env symbol [] s s' r h = absurd (ground arith)
  aggregated env symbol (entry ∷ rest) s s' r h =
      let (components, decision, sector, same, sent) =
        aggregate_entries-done env symbol entry rest s s' r h in
      (
        subst (λ x. HasLevels (λ e. In e (entry ∷ rest)) x) (sym same)
            (HasLevels-result_of symbol components decision (entry ∷ rest) sector),
        sent,
      )

  HasLevels-weaken :
      (P Q : BufferedSignal F → Type 0) (r : AggregationResult F)
      → ((e : BufferedSignal F) → P e → Q e)
      → HasLevels P r
      → HasLevels Q r
  HasLevels-weaken P Q r f (inl absent) = inl absent
  HasLevels-weaken P Q r f (inr (e, source, a, b, c, d, g, h)) =
      inr (e, f e source, a, b, c, d, g, h)

  -- An aggregated result of a symbol is the one new publication. Its price, stop, target and
  -- strategy are absent, or, for a BUY or SELL, those of one strategy signal that was buffered for the
  -- symbol, is at most `ttl_s` seconds old and votes in the direction of the decision.
  pub aggregate_levels :
      (env : Env F) (symbol : String) (s s' : Service F) (r : AggregationResult F)
      → aggregate_symbol env symbol s ≡ (done (some r), s')
      → HasLevels (IsLive env.now symbol s) r × (s'.published ≡ s.published ++ r ∷ [])
  unfolding aggregate_symbol
  aggregate_levels env symbol s s' r h =
      let (entries, s1) = live_entries env.now symbol s in
      let (levels, sent) = aggregated env symbol entries s1 s' r h in
      (
        HasLevels-weaken (λ e. In e entries) (IsLive env.now symbol s) r
            (In-live_entries env.now symbol s) levels,
        ground (arith, sent, published-live_entries env.now symbol s),
      )
