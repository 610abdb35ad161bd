-- ===== src/MlPipeline/Splits/Purge.antt =====
-- The purge of services/ml-pipeline/src/core/splits.py: no label of a fold's training sessions
-- reaches into its test sessions.
use market_app.Prelude.{
  ℕ, zero, suc, ◌+◌, ◌-◌, ◌≤◌, ◌<◌, ◌≡◌, refl, ap, ◌∙◌, inl, inr, Option, none, some, List, [], ◌∷◌,
  ◌++◌, leb, length, take, drop, All, length-take, length-drop, Bool-cases, Option-cases, arith,
}
use market_app.Prelude.Act.{done}
use market_app.MlPipeline.Splits.{
  Sizes, Fold, gap, slice, step_or, fold_at, folds_from, purged_walk_forward,
}

add_sub : (a b : ℕ) → a ≤ b → a + (b - a) ≡ b
add_sub a b h = omega arith

zero_add : (m : ℕ) → m ≡ 0 + m
zero_add m = omega arith

suc_add : (n m : ℕ) → suc (n + m) ≡ suc n + m
suc_add n m = omega arith

step_or_pos : (o : Option ℕ) (n : ℕ) → 0 < n → 0 < step_or o n
step_or_pos none n h = h
step_or_pos (some zero) n h = h
step_or_pos (some (suc k)) n h = omega arith

module _ {T : Type 0} where
  append_assoc : (xs ys zs : List T) → (xs ++ ys) ++ zs ≡ xs ++ (ys ++ zs)
  append_assoc [] ys zs = refl
  append_assoc (x ∷ xs) ys zs = ap (λ t. x ∷ t) (append_assoc xs ys zs)

  take-drop : (n : ℕ) (xs : List T) → take n xs ++ drop n xs ≡ xs
  take-drop zero xs = refl
  take-drop (suc n) [] = refl
  take-drop (suc n) (x ∷ xs) = ap (λ t. x ∷ t) (take-drop n xs)

  drop-drop : (m n : ℕ) (xs : List T) → drop m (drop n xs) ≡ drop (n + m) xs
  drop-drop m zero xs = ap (λ k. drop k xs) (zero_add m)
  drop-drop zero (suc n) [] = ap (λ k. drop k []) (suc_add n 0)
  drop-drop (suc m) (suc n) [] = ap (λ k. drop k []) (suc_add n (suc m))
  drop-drop m (suc n) (x ∷ xs) = drop-drop m n xs ∙ ap (λ k. drop k (x ∷ xs)) (suc_add n m)

  -- Cutting at `a` and at `b` loses nothing.
  drop-slice : (a b : ℕ) (xs : List T) → a ≤ b → slice a b xs ++ drop b xs ≡ drop a xs
  drop-slice a b xs h = cc (take-drop (b - a) (drop a xs), drop-drop (b - a) a xs, add_sub a b h)

  length-slice : (a b : ℕ) (xs : List T) → a ≤ b → b ≤ length xs → length (slice a b xs) ≡ b - a
  length-slice a b xs h k = omega (arith, length-take (b - a) (drop a xs), length-drop a xs)

  -- The sessions in their order: the training window, the purged gap and the test block, each of
  -- its full length and none sharing a session with another.
  abbrev pub IsPurged : Sizes → List T → Fold T → Type 0
  IsPurged s ordered fold =
      (before : List T) × (purged : List T) × (after : List T) × (before
          ++ (fold.train_dates ++ (purged ++ (fold.test_dates ++ after)))
        ≡ ordered)
      × (length fold.train_dates ≡ s.train_size - gap s)
      × (length purged ≡ gap s)
      × (length fold.test_dates ≡ s.test_size)

  four_cuts :
      (a b k e : ℕ) (xs : List T)
      → a ≤ b
      → b ≤ k
      → k ≤ e
      → take a xs ++ (slice a b xs ++ (slice b k xs ++ (slice k e xs ++ drop e xs))) ≡ xs
  four_cuts a b k e xs h i j =
      cc (take-drop a xs, drop-slice a b xs h, drop-slice b k xs i, drop-slice k e xs j)

  fold_at-IsPurged :
      (s : Sizes) (ordered : List T) (k : ℕ)
      → gap s < s.train_size
      → s.train_size ≤ k
      → k + s.test_size ≤ length ordered
      → IsPurged s ordered (fold_at s ordered k)
  unfolding fold_at
  fold_at-IsPurged s ordered k g h l =
      let a = k - s.train_size in
      let b = k - gap s in
      (
        take a ordered,
        slice b k ordered,
        drop (k + s.test_size) ordered,
        four_cuts a b k (k + s.test_size) ordered (omega arith) (omega arith) (omega arith),
        omega (arith, length-slice a b ordered (omega arith) (omega arith)),
        omega (arith, length-slice b k ordered (omega arith) (omega arith)),
        omega (arith, length-slice k (k + s.test_size) ordered (omega arith) l),
      )

  folds_from_ends :
      (n : ℕ) (s : Sizes) (ordered : List T) (k : ℕ)
      → 0 < s.test_size
      → gap s < s.train_size
      → s.train_size ≤ k
      → length ordered - k < n
      → (folds : List (Fold T)) × (folds_from n s ordered k ≡ some folds)
        × All (IsPurged s ordered) folds
  unfolding folds_from
  folds_from_ends zero s ordered k p g h l = ground (arith, l)
  folds_from_ends (suc n) s ordered k p g h l =
      let step = step_or s.step s.test_size in
      elim (Bool-cases (leb (k + s.test_size) (length ordered))) [
        | inl e ↦
            let (folds, eq, all) =
              folds_from_ends n s ordered (k + step) p g (omega arith)
                (ground (arith, e, l, step_or_pos s.step s.test_size p)) in
            (
              fold_at s ordered k ∷ folds,
              ground (arith, e, eq),
              (fold_at-IsPurged s ordered k g h (ground (arith, e)), all),
            )
        | inr e ↦ ([], ground (arith, e), tt)
      ]

  -- The test blocks one after the other.
  abbrev pub tested : List (Fold T) → List T
  tested [] = []
  tested (f ∷ folds) = f.test_dates ++ tested folds

  abbrev pub Tiles : ℕ → List T → List (Fold T) → Type 0
  Tiles n sessions folds = (rest : List T) × (tested folds ++ rest ≡ sessions) × (length rest < n)

  tile_step :
      (n : ℕ) (f : Fold T) (others folds : List (Fold T))
      → folds ≡ f ∷ others
      → (xs ys : List T) → f.test_dates ++ ys ≡ xs
      → (rest : List T) → tested others ++ rest ≡ ys
      → length rest < n
      → Tiles n xs folds
  tile_step n f others folds eq xs ys head rest cut short =
      (rest, cc (eq, head, cut, append_assoc f.test_dates (tested others) rest), short)

  tile_end :
      (n : ℕ) (folds : List (Fold T))
      → folds ≡ []
      → (xs : List T) → length xs < n
      → Tiles n xs folds
  tile_end n folds eq xs short = (xs, cc eq, short)

  folds_from_tile :
      (n : ℕ) (s : Sizes) (ordered : List T) (k : ℕ) (folds : List (Fold T))
      → 0 < s.test_size
      → step_or s.step s.test_size ≡ s.test_size
      → folds_from n s ordered k ≡ some folds
      → Tiles s.test_size (drop k ordered) folds
  unfolding folds_from fold_at
  folds_from_tile zero s ordered k folds p q eq = ground (arith, eq)
  folds_from_tile (suc n) s ordered k folds p q eq =
      let step = step_or s.step s.test_size in
      elim (Bool-cases (leb (k + s.test_size) (length ordered))) [
        | inl e ↦ elim (Option-cases (folds_from n s ordered (k + step))) [
          | inl r ↦ ground (arith, eq, e, r)
          | inr (others, r) ↦
              let (rest, cut, short) = folds_from_tile n s ordered (k + step) others p q r in
              tile_step s.test_size (fold_at s ordered k) others folds (ground (arith, eq, e, r))
                (drop k ordered) (drop (k + step) ordered)
                (cc (drop-slice k (k + s.test_size) ordered (omega arith), q)) rest cut short
        ]
        | inr e ↦
            tile_end s.test_size folds (ground (arith, eq, e)) (drop k ordered)
              (ground (arith, e, p, length-drop k ordered))
      ]

  -- Where `test_size` is positive and the gap, the horizon with the embargo, is shorter than
  -- `train_size`, the loop of `purged_walk_forward` ends without an error, and in each fold the
  -- sessions are, in this order: earlier ones, the `train_size - gap` training sessions, `gap`
  -- purged sessions, the `test_size` test sessions, later ones.
  pub purged_walk_forward_purges :
      (dates : List T) (s : Sizes)
      → 0 < s.test_size
      → gap s < s.train_size
      → (folds : List (Fold T)) × (purged_walk_forward dates s ≡ done (some folds))
        × All (IsPurged s dates) folds
  unfolding purged_walk_forward
  purged_walk_forward_purges dates s p g =
      let (folds, eq, all) =
        folds_from_ends (suc (length dates)) s dates s.train_size p g (omega arith) (omega arith) in
      (folds, ground (arith, eq), all)

  -- Without a `step`, or with a step of `test_size`, the test blocks of the folds that
  -- `purged_walk_forward` returns, one after the other, are the sessions after the first
  -- `train_size`, each once and in order; fewer than `test_size` at the end are not tested.
  pub test_blocks_tile :
      (dates : List T) (s : Sizes) (folds : List (Fold T))
      → step_or s.step s.test_size ≡ s.test_size
      → purged_walk_forward dates s ≡ done (some folds)
      → Tiles s.test_size (drop s.train_size dates) folds
  unfolding purged_walk_forward
  test_blocks_tile dates s folds q eq =
      folds_from_tile (suc (length dates)) s dates s.train_size folds (ground (arith, eq)) q
        (ground (arith, eq))
