-- ===== src/Backtest/Positions/Causal.antt =====
-- The positions of services/backtest/src/core/rule_engine.py do not look ahead, and each bar has one.
use market_app.Prelude.{
  ℕ, zero, suc, ◌+◌, ◌-◌, ◌≤◌, ◌<◌, ◌≡◌, refl, sym, ap, ◌∙◌, inl, inr, List, [], ◌∷◌, ◌++◌, All,
  length, take, drop, length-append, length-drop, arith,
}
use mathlib.Core.Path.{subst}
use market_app.Prelude.Act.{Outcome, Outcome-cases, done, raised}
use market_app.Gates.Envelope.{Signal, buy, sell, hold}
use market_app.Strategy.Events.{RuleOutput}
use market_app.Backtest.Positions.{
  Rule, after_signal, ensure_single_symbol_evaluable, window_at, cons_outcome, then_current,
  after_check, positions_from, rule_positions, feature_lookback,
}

take-within :
    {A : Type 0} → (n : ℕ) (xs ys : List A) → n ≤ length xs → take n (xs ++ ys) ≡ take n xs
take-within zero xs ys h = refl
take-within (suc n) [] ys h = ground (arith, h)
take-within (suc n) (x ∷ xs) ys h = ap (λ t. x ∷ t) (take-within n xs ys (omega (arith, h)))

drop-within :
    {A : Type 0} → (n : ℕ) (xs ys : List A) → n ≤ length xs → drop n (xs ++ ys) ≡ drop n xs ++ ys
drop-within zero xs ys h = refl
drop-within (suc n) [] ys h = ground (arith, h)
drop-within (suc n) (x ∷ xs) ys h = drop-within n xs ys (omega (arith, h))

window_at-within :
    {A : Type 0}
    → (xs ys : List A) (t : ℕ) → t < length xs
    → window_at (xs ++ ys) t ≡ window_at xs t
window_at-within xs ys t h =
    let first = suc t - feature_lookback in
    ap (take (suc t - first)) (drop-within first xs ys (omega arith))
    ∙ take-within (suc t - first) (drop first xs) ys (omega (arith, length-drop first xs))

then-cong :
    {F : Type 0}
    → (o : Outcome (RuleOutput F)) (current : ℕ) (f g : ℕ → Outcome (List ℕ))
    → ((p : ℕ) → f p ≡ g p)
    → then_current o current f ≡ then_current o current g
then-cong raised current f g h = refl
then-cong (done o) current f g h = h (after_signal o.signal current)

after_signal_le : (s : Signal) (current : ℕ) → current ≤ 1 → after_signal s current ≤ 1
after_signal_le buy current h = omega arith
after_signal_le sell current h = omega arith
after_signal_le hold current h = h

-- What a run of `n` bars says of a run of the first `m` of them.
abbrev Extends : ℕ → ℕ → Outcome (List ℕ) → Outcome (List ℕ) → Type 0
Extends m n raised short = Unit
Extends m n (done ps) short = (length ps ≡ n) × All (λ p. p ≤ 1) ps × (short ≡ done (take m ps))

Extends-cons :
    (m n p : ℕ) (long short : Outcome (List ℕ))
    → p ≤ 1
    → Extends m n long short
    → Extends (suc m) (suc n) (cons_outcome p long) (cons_outcome p short)
Extends-cons m n p raised short h e = tt
Extends-cons m n p (done ps) short h (l, ones, e) = (ap suc l, (h, ones), ap (cons_outcome p) e)

Extends-none :
    (n p : ℕ) (long : Outcome (List ℕ))
    → p ≤ 1
    → Extends 0 n long (done [])
    → Extends 0 (suc n) (cons_outcome p long) (done [])
Extends-none n p raised h e = tt
Extends-none n p (done ps) h (l, ones, e) = (ap suc l, (h, ones), refl)

Extends-then :
    {F : Type 0}
    → (o : Outcome (RuleOutput F)) (current m n : ℕ) (f g : ℕ → Outcome (List ℕ)) → current ≤ 1
    → ((p : ℕ) → p ≤ 1 → Extends m n (f p) (g p))
    → Extends
        (suc m)
        (suc n)
        (then_current o current (λ p. cons_outcome p (f p)))
        (then_current o current (λ p. cons_outcome p (g p)))
Extends-then raised current m n f g h k = tt
Extends-then (done o) current m n f g h k =
    let p = after_signal o.signal current in
    let small = after_signal_le o.signal current h in
    Extends-cons m n p (f p) (g p) small (k p small)

Extends-then_none :
    {F : Type 0}
    → (o : Outcome (RuleOutput F)) (current n : ℕ) (f : ℕ → Outcome (List ℕ)) → current ≤ 1
    → ((p : ℕ) → p ≤ 1 → Extends 0 n (f p) (done []))
    → Extends 0 (suc n) (then_current o current (λ p. cons_outcome p (f p))) (done [])
Extends-then_none raised current n f h k = tt
Extends-then_none (done o) current n f h k =
    let p = after_signal o.signal current in
    let small = after_signal_le o.signal current h in Extends-none n p (f p) small (k p small)

checked :
    (o : Outcome (Unit {0})) (u : Unit {0})
    → o ≡ done u
    → (positions : Outcome (List ℕ)) → after_check o positions ≡ positions
checked raised u e positions = ground (arith, e)
checked (done v) u e positions = refl

module _ {B F : Type 0} (rule : Rule B F) where
  positions_from-within :
      (xs ys : List B) (t n current : ℕ)
      → t + n ≤ length xs
      → positions_from rule (xs ++ ys) t n current ≡ positions_from rule xs t n current
  unfolding positions_from
  positions_from-within xs ys t zero current h = refl
  positions_from-within xs ys t (suc n) current h = rw (window_at-within xs ys t (omega arith)) (
      then-cong (rule.evaluate (rule.features (window_at xs t))) current
        (λ p. cons_outcome p (positions_from rule (xs ++ ys) (suc t) n p))
        (λ p. cons_outcome p (positions_from rule xs (suc t) n p))
        λ p. ap (cons_outcome p) (positions_from-within xs ys (suc t) n p (omega arith)))

  positions_from-Extends :
      (bars : List B) (t m n current : ℕ)
      → m ≤ n
      → current ≤ 1
      → Extends m n (positions_from rule bars t n current) (positions_from rule bars t m current)
  unfolding positions_from
  positions_from-Extends bars t zero zero current h k = (refl, tt, refl)
  positions_from-Extends bars t zero (suc n) current h k =
      Extends-then_none (rule.evaluate (rule.features (window_at bars t))) current n
        (positions_from rule bars (suc t) n) k
        λ p small. positions_from-Extends bars (suc t) zero n p (omega arith) small
  positions_from-Extends bars t (suc m) zero current h k = ground (arith, h)
  positions_from-Extends bars t (suc m) (suc n) current h k =
      Extends-then (rule.evaluate (rule.features (window_at bars t))) current m n
        (positions_from rule bars (suc t) n) (positions_from rule bars (suc t) m) k
        λ p small. positions_from-Extends bars (suc t) m n p (omega arith) small

  -- Where `rule_positions` answers for some bars, each bar has one position, 0 or 1, and the first
  -- bars alone are given the same positions: no later bar is looked at.
  pub positions_do_not_look_ahead :
      (bars later : List B) (ps : List ℕ)
      → rule_positions rule (bars ++ later) ≡ done ps
      → (length ps ≡ length bars + length later)
        × All (λ p. p ≤ 1) ps
        × (rule_positions rule bars ≡ done (take (length bars) ps))
  unfolding rule_positions
  positions_do_not_look_ahead bars later ps h =
      elim (Outcome-cases (ensure_single_symbol_evaluable rule)) [
        | inl e ↦ ground (arith, h, e)
        | inr (u, e) ↦
            let whole = bars ++ later in
            let short = positions_from rule whole 0 (length bars) 0 in
            let (l, ones, eq) =
              subst (λ r. Extends (length bars) (length whole) r short)
                (sym (checked (ensure_single_symbol_evaluable rule) u e _) ∙ h)
                (positions_from-Extends whole 0 (length bars) (length whole) 0
                  (omega (arith, length-append bars later)) (omega arith)) in
            (
              l ∙ length-append bars later,
              ones,
              checked (ensure_single_symbol_evaluable rule) u e _
                  ∙ sym (positions_from-within bars later 0 (length bars) 0 (omega arith))
                  ∙ eq,
            )
      ]
