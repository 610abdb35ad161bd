-- ===== src/MarketData/Incremental/Drift.antt =====
-- When services/market-data/src/core/incremental.py sees a restated history.
use market_app.Prelude.{
  ◌≡◌, ◌⊎◌, ◌↔◌, inl, inr, refl, ap, ◌∙◌, true, Option, none, some, List, [], ◌∷◌, if◌then◌else◌,
  ◌==◌, Bool-cases, Option-cases, arith,
}
use market_app.Prelude.Int.{ℤ}
use market_app.Prelude.Keys.{ℤ_eq}
use market_app.Prelude.Dict.{Dict, get, put, get-put}
use market_app.Float.{Float}
use market_app.MarketData.Incremental.{
  Bar, by_timestamp, factor, moved, moved_factor, any_moved, adjustment_drifted,
}

module _ {F : Type 0} where
  -- The last of the bars at a moment, `found` where there is none.
  abbrev pub last_at : ℤ → List (Bar F) → Option (Bar F) → Option (Bar F)
  last_at t [] found = found
  last_at t (bar ∷ bars) found = last_at t bars (if bar.timestamp == t then some bar else found)

  get-by_timestamp :
      (t : ℤ) (fetched : List (Bar F)) (acc : Dict ℤ (Bar F))
      → get t (by_timestamp fetched acc) ≡ last_at t fetched (get t acc)
  unfolding by_timestamp
  get-by_timestamp t [] acc = refl
  get-by_timestamp t (bar ∷ fetched) acc =
      get-by_timestamp t fetched (put bar.timestamp bar acc)
      ∙ ap (last_at t fetched) (get-put bar.timestamp t bar acc)

module _ {F : Type 0} ⦃fl : Float F⦄ where
  -- The bar is on both sides and its adjustment factor moved by more than the tolerance.
  abbrev pub IsRestated : F → List (Bar F) → Bar F → Type 0
  IsRestated tolerance fetched old =
      (new : Bar F) × (last_at old.timestamp fetched none ≡ some new)
      × (moved_factor tolerance (factor old) (factor new) ≡ true)

  abbrev pub AnyOf : (Bar F → Type 0) → List (Bar F) → Type 0
  AnyOf P [] = ⊥
  AnyOf P (x ∷ xs) = P x ⊎ AnyOf P xs

  moved_iff :
      (tolerance : F) (fetched : List (Bar F)) (old : Bar F)
      → (moved tolerance (by_timestamp fetched []) old ≡ true) ↔ IsRestated tolerance fetched old
  unfolding moved get
  moved_iff tolerance fetched old =
      let found = get-by_timestamp old.timestamp fetched [] in
      (
        λ h. elim (Option-cases (last_at old.timestamp fetched none)) [
          | inl e ↦ ground (arith, h, e, found)
          | inr (new, e) ↦ (new, e, ground (arith, h, e, found))
        ],
        λ (new, e, m). ground (arith, e, m, found),
      )

  any_moved_iff :
      (tolerance : F) (fetched stored : List (Bar F))
      → (any_moved tolerance (by_timestamp fetched []) stored ≡ true)
        ↔ AnyOf (IsRestated tolerance fetched) stored
  unfolding any_moved
  any_moved_iff tolerance fetched [] = (λ h. ground (arith, h), elim [ ])
  any_moved_iff tolerance fetched (old ∷ stored) =
      let (to, from) = moved_iff tolerance fetched old in
      let (to_rest, from_rest) = any_moved_iff tolerance fetched stored in
      (
        λ h. elim (Bool-cases (moved tolerance (by_timestamp fetched []) old)) [
          | inl e ↦ inl (to e)
          | inr e ↦ inr (to_rest (ground (arith, h, e)))
        ],
        elim [ inl r ↦ ground (arith, from r) | inr rs ↦ ground (arith, from_rest rs) ],
      )

  -- `adjustment_drifted` answers true exactly where some stored bar is restated: the last fetched
  -- bar of its timestamp exists, both have an adjustment factor, the old one is positive, and the
  -- relative change is above the tolerance.
  pub adjustment_drifted_iff :
      (stored fetched : List (Bar F)) (tolerance : F)
      → (adjustment_drifted stored fetched tolerance ≡ true)
        ↔ AnyOf (IsRestated tolerance fetched) stored
  unfolding adjustment_drifted
  adjustment_drifted_iff stored fetched tolerance = any_moved_iff tolerance fetched stored
