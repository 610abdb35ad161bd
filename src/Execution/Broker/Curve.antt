-- ===== src/Execution/Broker/Curve.antt =====
-- services/execution/src/core/paper_broker.py: the equity curve has one point per session.
use market_app.Prelude.{
  ℕ, zero, suc, ◌-◌, ◌≤◌, ◌<◌, ◌≡◌, refl, Option, none, some, List, [], ◌∷◌, ◌++◌, ◌==◌, arith,
  if◌then◌else◌, length, drop, length-drop, ℕ_eq,
}
use market_app.Float.{Float}
use market_app.Execution.Book.{Broker, equity}
use market_app.Execution.Broker.{put_point, has_today, record_equity}

module _ {F : Type 0} where
  -- The days of a curve rise strictly from `first` on, none later than `today`.
  abbrev pub Rises : ℕ → ℕ → List (ℕ × F) → Type 0
  Rises first today [] = Unit
  Rises first today ((day, value) ∷ rest) =
      (first ≤ day) × (day ≤ today) × Rises (suc day) today rest

  abbrev pub last_point : List (ℕ × F) → Option (ℕ × F)
  last_point [] = none
  last_point (p ∷ []) = some p
  last_point (p ∷ q ∷ rest) = last_point (q ∷ rest)

  put_point-Rises :
      (first before today : ℕ) (v : F) (curve : List (ℕ × F))
      → Rises first before curve
      → before ≤ today
      → first ≤ today
      → Rises first today (put_point today v curve)
  unfolding put_point
  put_point-Rises first before today v [] r h k = ground arith
  put_point-Rises first before today v ((day, w) ∷ []) r h k = ground arith
  put_point-Rises first before today v ((day, w) ∷ q ∷ rest) (lo, hi, r) h k = (
    lo,
    omega arith,
    put_point-Rises (suc day) before today v (q ∷ rest) r h (omega (arith, r.0, r.1)),
  )

  last_point-put_point :
      (today : ℕ) (v : F) (curve : List (ℕ × F))
      → last_point (put_point today v curve) ≡ some (today, v)
  unfolding put_point
  last_point-put_point today v [] = refl
  last_point-put_point today v ((day, w) ∷ []) = ground arith
  last_point-put_point today v ((day, w) ∷ (e, x) ∷ []) =
      ground (arith, last_point-put_point today v ((e, x) ∷ []))
  last_point-put_point today v ((day, w) ∷ (e, x) ∷ q ∷ rest) =
      last_point-put_point today v ((e, x) ∷ q ∷ rest)

  length-put_point :
      (today : ℕ) (v : F) (curve : List (ℕ × F))
      → length (put_point today v curve)
        ≡ (if has_today today curve then length curve else suc (length curve))
  unfolding put_point has_today
  length-put_point today v [] = refl
  length-put_point today v ((day, w) ∷ []) = ground arith
  length-put_point today v ((day, w) ∷ q ∷ rest) =
      ground (arith, length-put_point today v (q ∷ rest))

  drop-Rises :
      (n first today : ℕ) (curve : List (ℕ × F))
      → Rises first today curve
      → Rises first today (drop n curve)
  drop-Rises zero first today curve r = r
  drop-Rises (suc n) first today [] r = tt
  drop-Rises (suc n) first today ((day, v) ∷ rest) (lo, hi, r) =
      Rises-weaken (suc day) first today (drop n rest) (omega arith)
        (drop-Rises n (suc day) today rest r)
    where
      Rises-weaken :
          (a b today : ℕ) (curve : List (ℕ × F)) → b ≤ a → Rises a today curve → Rises b today curve
      Rises-weaken a b today [] h r = tt
      Rises-weaken a b today ((d, v) ∷ rest) h (lo, hi, r) = (omega arith, hi, r)

  last_point-drop :
      (n : ℕ) (curve : List (ℕ × F))
      → n < length curve
      → last_point (drop n curve) ≡ last_point curve
  last_point-drop zero curve h = refl
  last_point-drop (suc n) [] h = absurd (omega arith)
  last_point-drop (suc n) (p ∷ []) h = absurd (omega arith)
  last_point-drop (suc n) (p ∷ q ∷ rest) h = last_point-drop n (q ∷ rest) (omega arith)

  -- The points of other days.
  abbrev pub other_days : ℕ → List (ℕ × F) → List (ℕ × F)
  other_days today [] = []
  other_days today ((day, v) ∷ rest) =
      let others = other_days today rest in if day == today then others else (day, v) ∷ others

  -- The points of the other days, then the one of today.
  put_point-other_days :
      (first before today : ℕ) (v : F) (curve : List (ℕ × F))
      → Rises first before curve
      → before ≤ today
      → put_point today v curve ≡ other_days today curve ++ (today, v) ∷ []
  unfolding put_point
  put_point-other_days first before today v [] r h = refl
  put_point-other_days first before today v ((day, w) ∷ []) r h = ground arith
  put_point-other_days first before today v ((day, w) ∷ (e, x) ∷ rest) (lo, hi, r) h =
      ground (arith, r, put_point-other_days (suc day) before today v ((e, x) ∷ rest) r h)

module _ {F : Type 0} ⦃fl : Float F⦄ where
  -- Where the points of the curve are at most a positive limit and of rising days up to today at
  -- the latest, recording the equity keeps one point per day in the order of the days, at most as
  -- many points as the limit, and ends the curve with the value of today. The points of the other
  -- days are all kept in their order, up to the oldest ones where there are more than the limit.
  pub record_equity_curve :
      (before today : ℕ) (b : Broker F)
      → Rises 0 before b.equity_curve
      → before ≤ today
      → 0 < b.equity_history_limit
      → length b.equity_curve ≤ b.equity_history_limit
      → let curve = (record_equity today b).equity_curve in
        Rises 0 today curve
        × (length curve ≤ b.equity_history_limit)
        × (last_point curve ≡ some (today, equity b))
        × (let all = other_days today b.equity_curve ++ (today, equity b) ∷ [] in
            curve ≡ drop (length all - b.equity_history_limit) all)
  unfolding record_equity
  record_equity_curve before today b r h p l =
      let curve = put_point today (equity b) b.equity_curve in
      let n = length curve - b.equity_history_limit in
      let rises = put_point-Rises 0 before today (equity b) b.equity_curve r h (omega arith) in
      ground (
        arith,
        rises,
        length-put_point today (equity b) b.equity_curve,
        last_point-put_point today (equity b) b.equity_curve,
        drop-Rises n 0 today curve rises,
        length-drop n curve,
        last_point-drop n curve,
        put_point-other_days 0 before today (equity b) b.equity_curve r h,
      )
