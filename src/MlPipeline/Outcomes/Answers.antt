-- ===== src/MlPipeline/Outcomes/Answers.antt =====
-- A run of services/ml-pipeline/src/core/outcomes.py does not raise on the bars it is given.
use market_app.Prelude.{
  ℕ, zero, suc, ◌+◌, ◌<◌, ◌≡◌, refl, sym, ap, ◌∙◌, String, Bool, true, false, Option, none, some,
  List, [], ◌∷◌, ltb, leb, length, if◌then◌else◌, arith,
}
use market_app.Prelude.Act.{Outcome, done, raised}
use market_app.Float.{Float}
use market_app.Prices.{PriceBar, adjusted_highs, adjusted_lows, adjusted_closes}
use market_app.MlPipeline.Numpy.{Numpy}
use market_app.MlPipeline.Labels.{
  BarrierOutcome, get_elem?, triple_barrier_label, excess_barrier_label,
}
use market_app.MlPipeline.Labels.FirstTouch.{label_is_first_touch, excess_label_is_first_touch}
use market_app.MlPipeline.Labels.Total.{Answers, if_Answers, labels_answer}
use market_app.MlPipeline.Outcomes.{
  InferenceRecord, Resolver, is_pending, too_old, day_of, entry_from, settle, label_at, at_entry,
  resolve_one, go_on, resolve_each,
}

get_elem?-some :
    {F : Type 0} → (xs : List F) (j : ℕ) → j < length xs → (x : F) × (get_elem? xs j ≡ some x)
get_elem?-some [] j h = ground (arith, h)
get_elem?-some (x ∷ xs) zero h = (x, refl)
get_elem?-some (x ∷ xs) (suc j) h = get_elem?-some xs j (omega (arith, h))

first_if :
    {A B : Type 0}
    → (b : Bool) (x y : Outcome A × B) → Answers x.0
    → Answers y.0
    → Answers (if b then x else y).0
first_if true x y h k = h
first_if false x y h k = k

-- The index, if there is one, is below a bound.
IsBelow : ℕ → Option ℕ → Type 0
IsBelow n none = Unit
IsBelow n (some i) = i < n

module _ {F : Type 0} where
  entry_from-IsBelow :
      (day i : ℕ) (found : Option ℕ) (bars : List (PriceBar F)) (n : ℕ)
      → IsBelow n found
      → i + length bars ≡ n
      → IsBelow n (entry_from day i found bars)
  unfolding entry_from IsBelow
  entry_from-IsBelow day i found [] n h e = h
  entry_from-IsBelow day i found (bar ∷ bars) n h e =
      below_if (leb (day_of bar.timestamp) day) n _ found
        (entry_from-IsBelow day (suc i) (some i) bars n (omega (arith, e)) (omega (arith, e))) h
    where
      below_if :
          (b : Bool) (n : ℕ) (x y : Option ℕ)
          → IsBelow n x
          → IsBelow n y
          → IsBelow n (if b then x else y)
      below_if true n x y h k = h
      below_if false n x y h k = k

  no_entry-IsBelow :
      (day : ℕ) (bars : List (PriceBar F)) → IsBelow (length bars) (entry_from day 0 none bars)
  unfolding IsBelow
  no_entry-IsBelow day bars = entry_from-IsBelow day 0 none bars (length bars) tt (omega arith)

  go_on-Answers :
      (one : Outcome (Option F) × InferenceRecord F) (later : List (InferenceRecord F))
      (rest : Outcome (List F) × List (InferenceRecord F))
      → Answers one.0
      → Answers rest.0
      → Answers (go_on one later rest).0
  go_on-Answers (raised, r) later rest h k = h
  go_on-Answers (done o, r) later (raised, records) h k = k
  go_on-Answers (done none, r) later (done returns, records) h k = tt
  go_on-Answers (done (some x), r) later (done returns, records) h k = tt

  answer_of :
      (r : Outcome (List F) × List (InferenceRecord F))
      → Answers r.0
      → (returns : List F) × (after : List (InferenceRecord F)) × (r ≡ (done returns, after))
  answer_of (done returns, after) h = (returns, after, refl)
  answer_of (raised, after) h = elim h [ ]

module _ {F : Type 0} ⦃fl : Float F⦄ where
  lengths :
      (bars : List (PriceBar F))
      → (length (adjusted_closes bars) ≡ length bars)
        × (length (adjusted_highs bars) ≡ length bars)
        × (length (adjusted_lows bars) ≡ length bars)
  lengths [] = (refl, refl, refl)
  lengths (b ∷ bars) = let (c, h, l) = lengths bars in (ap suc c, ap suc h, ap suc l)

module _ {F : Type 0} ⦃fl : Float F⦄ ⦃np : Numpy F⦄ (s : Resolver F) (now : ℕ)
    (p : 0 < s.params.horizon) where
  label_at-Answers :
      (bars : List (PriceBar F)) (market : List F) (entry : ℕ)
      → Answers (label_at s bars market entry)
  label_at-Answers bars market entry =
      let closes = adjusted_closes bars in
      let highs = adjusted_highs bars in
      let lows = adjusted_lows bars in
      let (c, h, l) = lengths bars in
      let (triple, excess) =
        labels_answer closes highs lows market entry s.params (h ∙ sym c) (l ∙ sym c) in
      if_Answers s.excess _ _ excess triple

  -- A label resolves at a bar that there is.
  IsWithin : ℕ → Outcome (Option BarrierOutcome) → Type 0
  IsWithin n raised = Unit
  IsWithin n (done none) = Unit
  IsWithin n (done (some o)) = o.touch_index < n

  if_IsWithin :
      (n : ℕ) (b : Bool) (x y : Outcome (Option BarrierOutcome))
      → IsWithin n x
      → IsWithin n y
      → IsWithin n (if b then x else y)
  if_IsWithin n true x y h k = h
  if_IsWithin n false x y h k = k

  triple-IsWithin :
      (closes highs lows : List F) (i : ℕ) (x : Outcome (Option BarrierOutcome))
      → triple_barrier_label closes highs lows i s.params ≡ x
      → IsWithin (length closes) x
  unfolding IsWithin
  triple-IsWithin closes highs lows i raised e = tt
  triple-IsWithin closes highs lows i (done none) e = tt
  triple-IsWithin closes highs lows i (done (some o)) e =
      let (_, _, _, _, (_, _, within, _, _)) =
        label_is_first_touch closes highs lows i s.params o p e in
      within

  excess-IsWithin :
      (closes market : List F) (i : ℕ) (x : Outcome (Option BarrierOutcome))
      → excess_barrier_label closes market i s.params ≡ x
      → IsWithin (length closes) x
  unfolding IsWithin
  excess-IsWithin closes market i raised e = tt
  excess-IsWithin closes market i (done none) e = tt
  excess-IsWithin closes market i (done (some o)) e =
      let (_, _, _, _, (_, _, within, _, _)) =
        excess_label_is_first_touch closes market i s.params o p e in
      within

  label_at-IsWithin :
      (bars : List (PriceBar F)) (market : List F) (entry : ℕ)
      → IsWithin (length (adjusted_closes bars)) (label_at s bars market entry)
  label_at-IsWithin bars market entry =
      let closes = adjusted_closes bars in
      if_IsWithin (length closes) s.excess _ _ (excess-IsWithin closes market entry _ refl)
        (triple-IsWithin closes (adjusted_highs bars) (adjusted_lows bars) entry _ refl)

  settle-Answers :
      (r : InferenceRecord F) (old : Bool) (closes : List F) (entry : ℕ)
      (o : Outcome (Option BarrierOutcome))
      → entry < length closes
      → Answers o
      → IsWithin (length closes) o
      → Answers (settle old r now closes entry o).0
  unfolding IsWithin
  settle-Answers r old closes entry raised h a w = a
  settle-Answers r old closes entry (done none) h a w = tt
  settle-Answers r old closes entry (done (some o)) h a w =
      let (close, e) = get_elem?-some closes o.touch_index w in
      let (start, f) = get_elem?-some closes entry h in rw (e, f) tt

  at_entry-Answers :
      (r : InferenceRecord F) (bars : List (PriceBar F)) (market : List F) (entry : Option ℕ)
      → IsBelow (length bars) entry
      → Answers (at_entry s r now bars market entry).0
  unfolding IsBelow
  at_entry-Answers r bars market none h = tt
  at_entry-Answers r bars market (some entry) h =
      let (c, _, _) = lengths bars in
      first_if (ltb entry s.params.sigma_window) _ _ tt (
        settle-Answers r (too_old s now r) (adjusted_closes bars) entry
          (label_at s bars market entry) (omega (arith, h, c)) (label_at-Answers bars market entry)
          (label_at-IsWithin bars market entry))

  resolve_one-Answers :
      (bars : List (PriceBar F)) (market : List F) (r : InferenceRecord F)
      → Answers (resolve_one s now bars market r).0
  unfolding resolve_one
  resolve_one-Answers bars market r =
      at_entry-Answers r bars market (entry_from (day_of r.at) 0 none bars)
        (no_entry-IsBelow (day_of r.at) bars)

  pending-Answers :
      (bars : String → List (PriceBar F)) (market : String → List F)
      (records : List (InferenceRecord F))
      → Answers (resolve_each s now bars market records).0
  unfolding resolve_each
  pending-Answers bars market [] = tt
  pending-Answers bars market (r ∷ records) =
      let rest = pending-Answers bars market records in
      first_if (is_pending r) _ _
        (go_on-Answers (resolve_one s now (bars r.symbol) (market r.symbol) r) records _
          (resolve_one-Answers (bars r.symbol) (market r.symbol) r) rest)
        rest

  pub resolve_each-Answers :
      (bars : String → List (PriceBar F)) (market : String → List F)
      (records : List (InferenceRecord F))
      → (returns : List F) × (after : List (InferenceRecord F)) × (resolve_each s now bars market
            records
          ≡ (done returns, after))
  resolve_each-Answers bars market records =
      answer_of (resolve_each s now bars market records) (pending-Answers bars market records)
