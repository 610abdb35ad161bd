-- ===== src/MlPipeline/Cpcv/Leakage.antt =====
-- The splits of services/ml-pipeline/src/core/cpcv.py keep their distance from every test block.
use market_app.Prelude.{
  ℕ, zero, suc, ◌++◌, ◌∙◌, nat_eq, ◌+◌, ◌-◌, ◌≤◌, ◌<◌, ◌≡◌, ◌⊎◌, refl, inl, inr, Bool, true, false,
  not, ◌&&◌, ◌||◌, Option, none, some, List, [], ◌∷◌, All, ltb, leb, length, Bool-cases,
  if◌then◌else◌, arith,
}
use market_app.Prelude.Act.{Outcome, done, raised}
use market_app.MlPipeline.Cpcv.{
  CpcvSplit, CpcvPaths, Block, blocks_of, pick_blocks, cons_option, is_excluded, nth, train_index,
  test_index, dates_at, split_on, keep_split, add_split, splits_of, range_from, combinations,
  assemble_paths, with_paths, with_splits, cpcv_splits,
}
use mathlib.Core.Path.{subst}
use mathlib.Core.Option.{some_inj}

-- A session at more than the gap before a block, or at the gap or more after its last one.
abbrev pub IsFar : ℕ → ℕ → Block → Type 0
IsFar gap i b = (i + gap < b.start) ⊎ (b.end + gap ≤ i)

far_of :
    (gap i start end : ℕ)
    → leb (start - gap) i && ltb i (end + gap) ≡ false
    → (i + gap < start) ⊎ (end + gap ≤ i)
far_of gap i start end h = ground (arith, h)

not_excluded-IsFar :
    (gap : ℕ) (chosen : List Block) (i : ℕ)
    → is_excluded gap chosen i ≡ false
    → All (IsFar gap i) chosen
unfolding is_excluded
not_excluded-IsFar gap [] i h = tt
not_excluded-IsFar gap (b ∷ chosen) i h = (
  far_of gap i b.start b.end (ground (arith, h)),
  not_excluded-IsFar gap chosen i (ground (arith, h)),
)

train_index-IsFar :
    (gap : ℕ) (chosen : List Block) (indices : List ℕ)
    → All (λ i. All (IsFar gap i) chosen) (train_index gap chosen indices)
unfolding train_index
train_index-IsFar gap chosen [] = tt
train_index-IsFar gap chosen (i ∷ indices) = elim (Bool-cases (is_excluded gap chosen i)) [
  | inl e ↦ rw e (train_index-IsFar gap chosen indices)
  | inr e ↦ rw e (not_excluded-IsFar gap chosen i e, train_index-IsFar gap chosen indices)
]

-- The elements of a list at some positions, in their order.
abbrev pub Picks : {A : Type 0} → List A → List ℕ → List A → Type 0
Picks xs [] [] = Unit
Picks xs [] (y ∷ ys) = ⊥
Picks xs (i ∷ is) [] = ⊥
Picks xs (i ∷ is) (y ∷ ys) = (nth xs i ≡ some y) × Picks xs is ys

cons-Picks :
    {A : Type 0} (xs : List A) (i : ℕ) (is : List ℕ) (o : Option A) (rest : Option (List A))
    (ys : List A)
    → nth xs i ≡ o
    → ((zs : List A) → rest ≡ some zs → Picks xs is zs)
    → cons_option o rest ≡ some ys
    → Picks xs (i ∷ is) ys
cons-Picks xs i is none rest ys n p h = absurd (ground arith)
cons-Picks xs i is (some y) none ys n p h = absurd (ground arith)
cons-Picks xs i is (some y) (some zs) ys n p h =
    subst (Picks xs (i ∷ is)) (some_inj.0 h) (n, p zs refl)

pick_blocks-Picks :
    (blocks : List Block) (combo : List ℕ) (chosen : List Block)
    → pick_blocks blocks combo ≡ some chosen
    → Picks blocks combo chosen
pick_blocks-Picks blocks [] chosen h = subst (Picks blocks []) (some_inj.0 h) tt
pick_blocks-Picks blocks (g ∷ combo) chosen h =
    cons-Picks blocks g combo (nth blocks g) (pick_blocks blocks combo) chosen refl
      (pick_blocks-Picks blocks combo) h

dates_at-Picks :
    {T : Type 0} (ordered : List T) (indices : List ℕ) (dates : List T)
    → dates_at ordered indices ≡ some dates
    → Picks ordered indices dates
dates_at-Picks ordered [] dates h = subst (Picks ordered []) (some_inj.0 h) tt
dates_at-Picks ordered (i ∷ indices) dates h =
    cons-Picks ordered i indices (nth ordered i) (dates_at ordered indices) dates refl
      (dates_at-Picks ordered indices) h

-- Whether a number is in a list.
abbrev pub is_in : ℕ → List ℕ → Bool
is_in j [] = false
is_in j (i ∷ is) = nat_eq i j || is_in j is

-- Whether one of some blocks has the session.
abbrev pub covers : List Block → ℕ → Bool
covers [] j = false
covers (b ∷ chosen) j = leb b.start j && ltb j b.end || covers chosen j

is_in-range_from :
    (j start n : ℕ) → is_in j (range_from start n) ≡ (leb start j && ltb j (start + n))
is_in-range_from j start zero = ground arith
is_in-range_from j start (suc n) = ground (arith, is_in-range_from j (suc start) n)

is_in-append : (j : ℕ) (xs ys : List ℕ) → is_in j (xs ++ ys) ≡ (is_in j xs || is_in j ys)
is_in-append j [] ys = refl
is_in-append j (x ∷ xs) ys = ground (arith, is_in-append j xs ys)

-- The test sessions are those of the blocks.
is_in-test_index : (j : ℕ) (chosen : List Block) → is_in j (test_index chosen) ≡ covers chosen j
unfolding test_index
is_in-test_index j [] = refl
is_in-test_index j (b ∷ chosen) = ground (
  arith,
  is_in-append j (range_from b.start (b.end - b.start)) (test_index chosen),
  is_in-range_from j b.start (b.end - b.start),
  is_in-test_index j chosen,
)

-- More than a gap before a session or after it.
abbrev pub IsApart : ℕ → ℕ → ℕ → Type 0
IsApart gap j i = (i + gap < j) ⊎ (j + gap < i)

far-IsApart :
    (gap j i : ℕ) (chosen : List Block)
    → covers chosen j ≡ true
    → All (IsFar gap i) chosen
    → IsApart gap j i
far-IsApart gap j i [] c h = absurd (ground arith)
far-IsApart gap j i (b ∷ chosen) c (h, hs) = elim (Bool-cases (leb b.start j && ltb j b.end)) [
  | inl here ↦ ground (arith, here, h)
  | inr elsewhere ↦ far-IsApart gap j i chosen (ground (arith, c, elsewhere)) hs
]

all-IsApart :
    (gap j : ℕ) (chosen : List Block) (train : List ℕ)
    → covers chosen j ≡ true
    → All (λ i. All (IsFar gap i) chosen) train
    → All (IsApart gap j) train
all-IsApart gap j chosen [] c h = tt
all-IsApart gap j chosen (i ∷ train) c (h, hs) =
    (far-IsApart gap j i chosen c h, all-IsApart gap j chosen train c hs)

IsApart-by :
    (gap j : ℕ) (chosen : List Block) (train : List ℕ)
    → All (λ i. All (IsFar gap i) chosen) train
    → (is_in j (test_index chosen) ≡ false) ⊎ All (IsApart gap j) train
IsApart-by gap j chosen train h = elim (Bool-cases (covers chosen j)) [
  | inl c ↦ inr (all-IsApart gap j chosen train c h)
  | inr c ↦ inl (is_in-test_index j chosen ∙ c)
]

module _ {T : Type 0} (ordered : List T) (gap : ℕ) (blocks : List Block) (j : ℕ) where
  -- The groups of the split are blocks, its test sessions are those of the blocks, and each of its
  -- training sessions is far from each block, and from the session `j` if that is a test session.
  abbrev pub IsSeparated : CpcvSplit T → Type 0
  IsSeparated s =
      (chosen : List Block) × (train : List ℕ) × (test : List ℕ) × Picks blocks s.groups chosen
      × Picks ordered train s.train_dates
      × Picks ordered test s.test_dates
      × (is_in j test ≡ covers chosen j)
      × ((is_in j test ≡ false) ⊎ All (IsApart gap j) train)
      × All (λ i. All (IsFar gap i) chosen) train

  abbrev OneGood : Option (CpcvSplit T) → Type 0
  OneGood none = Unit
  OneGood (some s) = IsSeparated s

  abbrev AllGood : Option (List (CpcvSplit T)) → Type 0
  AllGood none = Unit
  AllGood (some splits) = All IsSeparated splits

  split_on-Good :
      (combo : List ℕ) (chosen : List Block) (train : List ℕ) (a b : Option (List T))
      → pick_blocks blocks combo ≡ some chosen
      → dates_at ordered train ≡ a
      → dates_at ordered (test_index chosen) ≡ b
      → All (λ i. All (IsFar gap i) chosen) train
      → OneGood (split_on combo a b)
  split_on-Good combo chosen train none b p e f h = tt
  split_on-Good combo chosen train (some x) none p e f h = tt
  split_on-Good combo chosen train (some x) (some y) p e f h = (
    chosen,
    train,
    test_index chosen,
    pick_blocks-Picks blocks combo chosen p,
    dates_at-Picks ordered train x e,
    dates_at-Picks ordered (test_index chosen) y f,
    is_in-test_index j chosen,
    IsApart-by gap j chosen train h,
    h,
  )

  cons-Good :
      (s : Option (CpcvSplit T)) (rest : Option (List (CpcvSplit T)))
      → OneGood s
      → AllGood rest
      → AllGood (cons_option s rest)
  cons-Good none rest h k = tt
  cons-Good (some s) none h k = tt
  cons-Good (some s) (some rest) h k = (h, k)

  keep_split-Good :
      (train test : List ℕ) (s : Option (CpcvSplit T)) (rest : Option (List (CpcvSplit T)))
      → OneGood s
      → AllGood rest
      → AllGood (keep_split train test s rest)
  keep_split-Good [] test s rest h k = k
  keep_split-Good (i ∷ train) [] s rest h k = k
  keep_split-Good (i ∷ train) (j ∷ test) s rest h k = cons-Good s rest h k

  add_split-Good :
      (combo : List ℕ) (o : Option (List Block)) (rest : Option (List (CpcvSplit T)))
      → pick_blocks blocks combo ≡ o
      → AllGood rest
      → AllGood (add_split ordered gap combo o rest)
  add_split-Good combo none rest p k = tt
  add_split-Good combo (some chosen) rest p k =
      let train = train_index gap chosen (range_from 0 (length ordered)) in
      let test = test_index chosen in
      keep_split-Good train test (split_on combo (dates_at ordered train) (dates_at ordered test))
        rest
        (split_on-Good combo chosen train (dates_at ordered train) (dates_at ordered test) p refl
          refl (train_index-IsFar gap chosen (range_from 0 (length ordered))))
        k

  splits_of-Good : (combos : List (List ℕ)) → AllGood (splits_of ordered gap blocks combos)
  unfolding splits_of
  splits_of-Good [] = tt
  splits_of-Good (combo ∷ combos) =
      add_split-Good combo (pick_blocks blocks combo) (splits_of ordered gap blocks combos) refl
        (splits_of-Good combos)

  abbrev ResultGood : Outcome (CpcvPaths T) → Type 0
  ResultGood raised = Unit
  ResultGood (done r) = All IsSeparated r.splits

  with_paths-Good :
      (splits : List (CpcvSplit T)) (n k : ℕ) (paths : Option (List (List ℕ)))
      → All IsSeparated splits
      → ResultGood (with_paths splits n k paths)
  with_paths-Good splits n k none h = tt
  with_paths-Good splits n k (some paths) h = h

  with_splits-Good :
      (n k : ℕ) (splits : Option (List (CpcvSplit T)))
      → AllGood splits
      → ResultGood (with_splits n k splits)
  with_splits-Good n k none h = tt
  with_splits-Good n k (some splits) h = with_paths-Good splits n k (assemble_paths splits n k) h

  result_if :
      (b : Bool) (r : Outcome (CpcvPaths T)) → ResultGood r → ResultGood (if b then raised else r)
  result_if true r h = tt
  result_if false r h = h

-- In every split that `cpcv_splits` returns, whatever the bounds of the groups are, a session is a
-- test session exactly if one of the blocks of the groups of the split has it; each training session
-- stands more than `horizon` plus `embargo` sessions before or after every test session, and more
-- than as many before the first session of each of these blocks or at least as many after its end.
pub training_keeps_its_distance :
    {T : Type 0}
    → (linspace : ℕ → ℕ → List ℕ) (ordered : List T) (n_groups test_groups horizon embargo j : ℕ)
      (r : CpcvPaths T)
    → cpcv_splits linspace ordered n_groups test_groups horizon embargo ≡ done r
    → All
        (IsSeparated ordered
          (horizon + embargo)
          (blocks_of (linspace (length ordered) (suc n_groups)))
          j)
        r.splits
unfolding cpcv_splits
training_keeps_its_distance linspace ordered n_groups test_groups horizon embargo j r h =
    let blocks = blocks_of (linspace (length ordered) (suc n_groups)) in
    let gap = horizon + embargo in
    subst (ResultGood ordered gap blocks j) h (
      result_if ordered gap blocks j
        (not (ltb 0 test_groups && ltb test_groups n_groups) || ltb (length ordered) n_groups) _
        (with_splits-Good ordered gap blocks j n_groups test_groups _
          (splits_of-Good ordered gap blocks j (combinations (range_from 0 n_groups) test_groups))))
