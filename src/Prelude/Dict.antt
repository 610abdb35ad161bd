-- ===== src/Prelude/Dict.antt =====
-- A Python dictionary: an association list in the order of insertion.
use mathlib.Core.Path.{◌≡◌, refl}
use mathlib.Core.Bool.{Bool, true, false}
use mathlib.Core.Option.{Option, none, some}
use mathlib.Core.List.{List, [], ◌∷◌}
use native.Mathlib.Omega.{arith}
use market_app.Prelude.Tests.{Eq, ◌==◌, if◌then◌else◌}

abbrev pub Dict : Type 0 → Type 0 → Type 0
Dict K V = List (K × V)

abbrev pub is_some {ℓ} : {A : Type ℓ} → Option A → Bool
is_some none = false
is_some (some a) = true

abbrev pub when : {V : Type 0} → (V → Bool) → Option V → Option V
when p none = none
when p (some v) = if p v then some v else none

module _ {K V : Type 0} ⦃e : Eq K⦄ where
  unfoldable pub get : K → Dict K V → Option V
  get k [] = none
  get k ((j, v) ∷ d) = if j == k then some v else get k d

  -- A known key keeps its place; a new one goes to the end.
  unfoldable pub put : K → V → Dict K V → Dict K V
  put k v [] = (k, v) ∷ []
  put k v ((j, w) ∷ d) = if j == k then (j, v) ∷ d else (j, w) ∷ put k v d

  unfoldable pub remove : K → Dict K V → Dict K V
  remove k [] = []
  remove k ((j, w) ∷ d) = let rest = remove k d in if j == k then rest else (j, w) ∷ rest

  pub get-put :
      (k j : K) (v : V) (d : Dict K V) → get j (put k v d) ≡ (if k == j then some v else get j d)
  unfolding get put
  get-put k j v [] = refl
  get-put k j v ((i, w) ∷ d) =
      ground (arith, e.beq_iff k j, e.beq_iff i k, e.beq_iff i j, get-put k j v d)

  pub get-remove :
      (k j : K) (d : Dict K V) → get j (remove k d) ≡ (if k == j then none else get j d)
  unfolding get remove
  get-remove k j [] = ground arith
  get-remove k j ((i, w) ∷ d) =
      ground (arith, e.beq_iff k j, e.beq_iff i k, e.beq_iff i j, get-remove k j d)

  abbrev pub contains : K → Dict K V → Bool
  contains k d = is_some (get k d)

  -- Every key stands once.
  abbrev pub HasDistinctKeys : Dict K V → Type 0
  HasDistinctKeys [] = Unit
  HasDistinctKeys ((j, v) ∷ d) = (get j d ≡ none) × HasDistinctKeys d

  pub put-HasDistinctKeys :
      (k : K) (v : V) (d : Dict K V) → HasDistinctKeys d → HasDistinctKeys (put k v d)
  unfolding get put
  put-HasDistinctKeys k v [] h = (refl, tt)
  put-HasDistinctKeys k v ((j, w) ∷ d) (n, h) =
      ground (arith, e.beq_iff j k, e.beq_iff k j, get-put k j v d, put-HasDistinctKeys k v d h)

  -- `{k: v for k, v in d.items() if p(v)}`
  unfoldable pub keep_values : (V → Bool) → Dict K V → Dict K V
  keep_values p [] = []
  keep_values p ((j, v) ∷ d) = let rest = keep_values p d in if p v then (j, v) ∷ rest else rest

  pub get-keep_values :
      (p : V → Bool) (k : K) (d : Dict K V)
      → HasDistinctKeys d
      → get k (keep_values p d) ≡ when p (get k d)
  unfolding get keep_values
  get-keep_values p k [] h = refl
  get-keep_values p k ((j, v) ∷ d) (n, h) = ground (arith, get-keep_values p k d h, e.beq_iff j k)

  pub keep_values-HasDistinctKeys :
      (p : V → Bool) (d : Dict K V) → HasDistinctKeys d → HasDistinctKeys (keep_values p d)
  unfolding keep_values
  keep_values-HasDistinctKeys p [] h = tt
  keep_values-HasDistinctKeys p ((j, v) ∷ d) (n, h) =
      ground (arith, get-keep_values p j d h, keep_values-HasDistinctKeys p d h)
