-- ===== src/MlPipeline/Cpcv/Groups.antt =====
-- The lists under the groups of services/ml-pipeline/src/core/cpcv.py, as a dictionary.
use market_app.Prelude.{
  ℕ, zero, suc, ◌≡◌, refl, sym, ap, inl, inr, some, List, [], ◌∷◌, All, drop, ◌==◌, ==_to_eq, ℕ_eq,
  Bool-cases, arith,
}
use mathlib.Core.Path.{subst}
use market_app.Prelude.Dict.{Dict, get, put}
use market_app.MlPipeline.Cpcv.{nth}

-- A predicate of every entry, which a dictionary's operations keep.
abbrev pub Entries : (ℕ → List ℕ → Type 0) → Dict ℕ (List ℕ) → Type 0
Entries P d = All (λ e. P e.0 e.1) d

unfoldable pub keys : Dict ℕ (List ℕ) → List ℕ
keys [] = []
keys ((k, v) ∷ d) = k ∷ keys d

module _ (P : ℕ → List ℕ → Type 0) where
  pub get-Entries :
      (k : ℕ) (v : List ℕ) (d : Dict ℕ (List ℕ)) → Entries P d → get k d ≡ some v → P k v
  unfolding get
  get-Entries k v [] h e = ground (arith, e)
  get-Entries k v ((j, w) ∷ d) (p, h) e = elim (Bool-cases (j == k)) [
    | inl b ↦ subst (λ i. P i v) (==_to_eq j k b) (subst (P j) (ground (arith, e, b)) p)
    | inr b ↦ get-Entries k v d h (ground (arith, e, b))
  ]

  pub put-Entries :
      (k : ℕ) (v : List ℕ) (d : Dict ℕ (List ℕ)) → Entries P d → P k v → Entries P (put k v d)
  unfolding put
  put-Entries k v [] h p = (p, tt)
  put-Entries k v ((j, w) ∷ d) (q, h) p = elim (Bool-cases (j == k)) [
    | inl b ↦ rw b (subst (λ i. P i v) (sym (==_to_eq j k b)) p, h)
    | inr b ↦ rw b (q, put-Entries k v d h p)
  ]

pub keys-put :
    (k : ℕ) (v w : List ℕ) (d : Dict ℕ (List ℕ)) → get k d ≡ some w → keys (put k v d) ≡ keys d
unfolding keys get put
keys-put k v w [] e = ground (arith, e)
keys-put k v w ((j, u) ∷ d) e = elim (Bool-cases (j == k)) [
  | inl b ↦ rw b refl
  | inr b ↦ rw b (ap (λ t. j ∷ t) (keys-put k v w d (ground (arith, e, b))))
]

pub nth-drop :
    {A : Type 0}
    → (i : ℕ) (xs : List A) (y : A) (ys : List A) → drop i xs ≡ y ∷ ys
    → nth xs i ≡ some y
nth-drop zero [] y ys e = ground (arith, e)
nth-drop zero (x ∷ xs) y ys e = ground (arith, e)
nth-drop (suc i) [] y ys e = ground (arith, e)
nth-drop (suc i) (x ∷ xs) y ys e = nth-drop i xs y ys e

pub drop-suc :
    {A : Type 0}
    → (i : ℕ) (xs : List A) (y : A) (ys : List A) → drop i xs ≡ y ∷ ys
    → drop (suc i) xs ≡ ys
drop-suc zero [] y ys e = ground (arith, e)
drop-suc zero (x ∷ xs) y ys e = ground (arith, e)
drop-suc (suc i) [] y ys e = ground (arith, e)
drop-suc (suc i) (x ∷ xs) y ys e = drop-suc i xs y ys e
