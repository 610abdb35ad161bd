-- ===== src/MacroData/Regime/Severity.antt =====
-- Worse readings never give a milder regime in services/macro-data/src/core/regime.py.
use market_app.Prelude.{
  ℕ, ◌≤◌, ◌≡◌, ◌↔◌, ◌⊎◌, inl, inr, refl, Bool, true, false, Option, none, some, ◌&&◌, if◌then◌else◌,
  arith,
}
use market_app.Float.{Float, IsIeee, IsNumber, lt, le, nought, ◌≼◌, ◌≺◌}
use market_app.MacroData.Regime.{
  MacroRegime, expansion, recovery, slowdown, contraction, crisis, RegimeThresholds, present,
  reaches, classify_regime,
}

abbrev pub severity : MacroRegime → ℕ
severity expansion = 0
severity recovery = 1
severity slowdown = 2
severity contraction = 3
severity crisis = 4

-- No answer counts as the mildest one.
abbrev pub severity_of : Option MacroRegime → ℕ
severity_of none = 0
severity_of (some r) = severity r

abbrev Implies : Bool → Bool → Type 0
Implies a b = (a ≡ false) ⊎ (b ≡ true)

implies : (a b : Bool) → (a ≡ true → b ≡ true) → Implies a b
implies true b f = inr (f refl)
implies false b f = inl refl

module _ {F : Type 0} ⦃fl : Float F⦄ ⦃ie : IsIeee F⦄ where
  lt_down : (x y z : F) → IsNumber z → y ≼ x → x ≺ z → y ≺ z
  lt_down x y z n h k = ground (
    arith,
    h,
    k,
    n,
    ie.lt-not-le y z,
    ie.lt-not-le x z,
    ie.le_trans z y x,
    ie.le_numbers y x h,
    ie.lt_numbers x z k,
  )

  -- One reading is worse than another: the value is at most it, and missing only where that is.
  abbrev pub IsAtMost : Option F → Option F → Type 0
  IsAtMost none none = Unit
  IsAtMost none (some y) = ⊥
  IsAtMost (some x) none = ⊥
  IsAtMost (some x) (some y) = x ≼ y

  lt_mono :
      (z : F) (x y : Option F)
      → IsNumber z
      → IsAtMost y x
      → Implies (present (λ v. lt v z) x) (present (λ v. lt v z) y)
  lt_mono z none none n h = inl refl
  lt_mono z (some x) none n h = elim h [ ]
  lt_mono z none (some y) n h = elim h [ ]
  lt_mono z (some x) (some y) n h = implies (lt x z) (lt y z) (lt_down x y z n h)

  le_mono :
      (z : F) (x y : Option F)
      → IsAtMost y x
      → Implies (present (λ v. le v z) x) (present (λ v. le v z) y)
  le_mono z none none h = inl refl
  le_mono z (some x) none h = elim h [ ]
  le_mono z none (some y) h = elim h [ ]
  le_mono z (some x) (some y) h = implies (le x z) (le y z) (ie.le_trans y x z h)

  reaches_mono :
      (z : F) (x y : Option F)
      → IsAtMost y x
      → Implies (present (λ v. reaches v z) y) (present (λ v. reaches v z) x)
  reaches_mono z none none h = inl refl
  reaches_mono z (some x) none h = elim h [ ]
  reaches_mono z none (some y) h = elim h [ ]
  reaches_mono z (some x) (some y) h = implies (le z y) (le z x) λ k. ie.le_trans z y x k h

-- The rules in their order, on which of them fire.
abbrev ladder : Bool → Bool → Bool → Bool → Bool → Bool → Bool → ℕ
ladder wide deep weak inverted slow stressed strong =
    if wide
    then 4
    else if deep && weak
    then 4
    else if weak
    then 3
    else if inverted
    then 3
    else if slow
    then 2
    else if stressed
    then 2
    else if strong
    then 0
    else 1

ladder_mono :
    (a b c d e f g a' b' c' d' e' f' g' : Bool)
    → Implies a a'
    → Implies b b'
    → Implies c c'
    → Implies d d'
    → Implies e e'
    → Implies f f'
    → Implies g' g
    → ladder a b c d e f g ≤ ladder a' b' c' d' e' f' g'
ladder_mono a b c d e f g a' b' c' d' e' f' g' p q r s t u v = ground (arith, p, q, r, s, t, u, v)

severity-ladder :
    (wide deep weak inverted slow stressed strong : Bool)
    → severity_of (
        if wide
        then some crisis
        else if deep && weak
        then some crisis
        else if weak
        then some contraction
        else if inverted
        then some contraction
        else if slow
        then some slowdown
        else if stressed
        then some slowdown
        else if strong
        then some expansion
        else some recovery)
      ≡ ladder wide deep weak inverted slow stressed strong
severity-ladder wide deep weak inverted slow stressed strong = ground arith

module _ {F : Type 0} ⦃fl : Float F⦄ ⦃ie : IsIeee F⦄ where
  -- With a PMI, and PMI thresholds that are numbers, a lower or equal PMI, a lower or equal yield
  -- curve and a wider or equal credit spread, each of the latter two missing in both readings or
  -- in none, never make `classify_regime` answer a milder regime.
  pub worse_readings_not_milder :
      (t : RegimeThresholds F) (curve curve' spread spread' : Option F) (pmi pmi' : F)
      → IsNumber t.pmi_contraction
      → IsNumber t.pmi_slowdown
      → IsAtMost curve' curve
      → IsAtMost spread spread'
      → pmi' ≼ pmi
      → severity_of (classify_regime t curve spread (some pmi))
        ≤ severity_of (classify_regime t curve' spread' (some pmi'))
  unfolding classify_regime
  worse_readings_not_milder t curve curve' spread spread' pmi pmi' n n' c s p =
      rw
        (
          severity-ladder (present (λ v. reaches v t.crisis_spread) spread)
              (present (λ v. le v t.deep_inversion) curve) (lt pmi t.pmi_contraction)
              (present (λ v. lt v nought) curve) (lt pmi t.pmi_slowdown)
              (present (λ v. reaches v t.stress_spread) spread) (reaches pmi t.pmi_expansion),
          severity-ladder (present (λ v. reaches v t.crisis_spread) spread')
              (present (λ v. le v t.deep_inversion) curve') (lt pmi' t.pmi_contraction)
              (present (λ v. lt v nought) curve') (lt pmi' t.pmi_slowdown)
              (present (λ v. reaches v t.stress_spread) spread') (reaches pmi' t.pmi_expansion),
        )
        (ladder_mono _ _ _ _ _ _ _ _ _ _ _ _ _ _ (reaches_mono t.crisis_spread spread' spread s)
          (le_mono t.deep_inversion curve curve' c)
          (lt_mono t.pmi_contraction (some pmi) (some pmi') n p)
          (lt_mono nought curve curve' ie.nought_number c)
          (lt_mono t.pmi_slowdown (some pmi) (some pmi') n' p)
          (reaches_mono t.stress_spread spread' spread s)
          (reaches_mono t.pmi_expansion (some pmi) (some pmi') p))

module _ {F : Type 0} ⦃fl : Float F⦄ where
  -- `classify_regime` gives no answer exactly where there is neither a PMI nor a curve and the
  -- spread, if there is one, reaches neither of its thresholds: such a spread alone is not used.
  pub no_regime_iff :
      (t : RegimeThresholds F) (curve spread pmi : Option F)
      → (classify_regime t curve spread pmi ≡ none) ↔ (
          (curve ≡ none)
          × (pmi ≡ none)
          × (present (λ s. reaches s t.crisis_spread) spread ≡ false)
          × (present (λ s. reaches s t.stress_spread) spread ≡ false))
  unfolding classify_regime
  no_regime_iff t none spread none = ground arith
  no_regime_iff t (some c) spread none = ground arith
  no_regime_iff t none spread (some p) = ground arith
  no_regime_iff t (some c) spread (some p) = ground arith
