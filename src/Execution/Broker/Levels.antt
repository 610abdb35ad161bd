-- ===== src/Execution/Broker/Levels.antt =====
-- services/execution/src/core/paper_broker.py: when a protective level is breached.
use market_app.Prelude.{
  String, String_eq, ◌≡◌, ◌⊎◌, inl, inr, refl, true, false, none, some, Bool-cases, Option-cases,
}
use market_app.Prelude.Dict.{get}
use market_app.Float.{Float, le, nought}
use market_app.Execution.Book.{Broker, Position}
use market_app.Execution.Broker.{
  Trigger, stop_loss, take_profit, reaches_stop, reaches_profit, protective_trigger,
}

module _ {F : Type 0} ⦃fl : Float F⦄ where
  -- The last price is at the stop or below it, or at the profit target or above it.
  abbrev pub IsBreached : Position F → Type 0
  IsBreached p =
      ((level : F) × (p.stop_loss ≡ some level) × (le p.last_price level ≡ true))
      ⊎ ((level : F) × (p.take_profit ≡ some level) × (le level p.last_price ≡ true))

  -- Neither, which includes a level that is not set.
  abbrev pub IsUnbreached : Position F → Type 0
  IsUnbreached p =
      ((p.stop_loss ≡ none)
        ⊎ ((level : F) × (p.stop_loss ≡ some level) × (le p.last_price level ≡ false)))
      × ((p.take_profit ≡ none)
          ⊎ ((level : F) × (p.take_profit ≡ some level) × (le level p.last_price ≡ false)))

  -- The symbol is held and a level of its position is breached.
  abbrev pub Exits : Broker F → String → Type 0
  Exits b symbol =
      (p : Position F) × (get symbol b.positions ≡ some p)
      × (le p.quantity nought ≡ false)
      × IsBreached p

  -- The symbol is not held, or no level of its position is breached.
  abbrev pub Stays : Broker F → String → Type 0
  Stays b symbol =
      (get symbol b.positions ≡ none)
      ⊎ ((p : Position F) × (get symbol b.positions ≡ some p)
          × ((le p.quantity nought ≡ true) ⊎ IsUnbreached p))

  stop_cases :
      (p : Position F)
      → ((reaches_stop p ≡ true)
          × ((level : F) × (p.stop_loss ≡ some level) × (le p.last_price level ≡ true)))
        ⊎ ((reaches_stop p ≡ false)
            × ((p.stop_loss ≡ none)
                ⊎ ((level : F) × (p.stop_loss ≡ some level) × (le p.last_price level ≡ false))))
  stop_cases p = elim (Option-cases p.stop_loss) [
    | inl unset ↦ inr (rw unset refl, inl unset)
    | inr (level, e) ↦ elim (Bool-cases (le p.last_price level)) [
      | inl hit ↦ inl (rw e hit, (level, e, hit))
      | inr calm ↦ inr (rw e calm, inr (level, e, calm))
    ]
  ]

  profit_cases :
      (p : Position F)
      → ((reaches_profit p ≡ true)
          × ((level : F) × (p.take_profit ≡ some level) × (le level p.last_price ≡ true)))
        ⊎ ((reaches_profit p ≡ false)
            × ((p.take_profit ≡ none)
                ⊎ ((level : F) × (p.take_profit ≡ some level) × (le level p.last_price ≡ false))))
  profit_cases p = elim (Option-cases p.take_profit) [
    | inl unset ↦ inr (rw unset refl, inl unset)
    | inr (level, e) ↦ elim (Bool-cases (le level p.last_price)) [
      | inl hit ↦ inl (rw e hit, (level, e, hit))
      | inr calm ↦ inr (rw e calm, inr (level, e, calm))
    ]
  ]

  -- A trigger is set off exactly by a breach of a position that is held.
  pub trigger_cases :
      (b : Broker F) (symbol : String)
      → ((trigger : Trigger) × (protective_trigger b symbol ≡ some trigger) × Exits b symbol)
        ⊎ ((protective_trigger b symbol ≡ none) × Stays b symbol)
  unfolding protective_trigger
  trigger_cases b symbol = elim (Option-cases (get symbol b.positions)) [
    | inl missing ↦ inr (rw (protective_trigger, missing) refl, inl missing)
    | inr (p, e) ↦ elim (Bool-cases (le p.quantity nought)) [
      | inl flat ↦ inr (rw (protective_trigger, e, flat) refl, inr (p, e, inl flat))
      | inr held ↦ elim (stop_cases p) [
        | inl (s, breach) ↦
            inl (stop_loss, rw (protective_trigger, e, held, s) refl, (p, e, held, inl breach))
        | inr (s, no_stop) ↦ elim (profit_cases p) [
          | inl (t, breach) ↦
              inl
                (take_profit, rw (protective_trigger, e, held, s, t) refl, (p, e, held, inr breach))
          | inr (t, no_profit) ↦
              inr
                (rw (protective_trigger, e, held, s, t) refl, inr (p, e, inr (no_stop, no_profit)))
        ]
      ]
    ]
  ]
