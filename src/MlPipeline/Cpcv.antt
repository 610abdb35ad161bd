-- ===== src/MlPipeline/Cpcv.antt =====
-- services/ml-pipeline/src/core/cpcv.py: every choice of some of the groups of sessions as the test
-- set. The bounds of the groups, `np.linspace(0, n, groups + 1).astype(int)`, are an argument.
mod Leakage
mod Groups
mod Paths
mod Tests
use market_app.Prelude.{
  ℕ, zero, suc, ◌+◌, ◌-◌, ◌*◌, ◌/◌, Bool, true, false, not, ◌&&◌, ◌||◌, Option, none, some, List,
  [], ◌∷◌, ◌++◌, map, ltb, leb, nat_eq, length, if◌then◌else◌, ◌==◌, ℕ_eq,
}
use market_app.Prelude.Act.{Outcome, done, raised}
use market_app.Prelude.Dict.{Dict, get, put}

pub record CpcvSplit (T : Type 0) : Type 0 where
  pub train_dates : List T
  pub test_dates : List T
  pub groups : List ℕ

-- `paths` holds, for each path and each group, the index of a split.
pub record CpcvPaths (T : Type 0) : Type 0 where
  pub splits : List (CpcvSplit T)
  pub paths : List (List ℕ)
  pub n_groups : ℕ
  pub test_groups : ℕ

-- `math.comb`
abbrev pub choose : ℕ → ℕ → ℕ
choose n zero = 1
choose zero (suc k) = 0
choose (suc n) (suc k) = choose n k + choose n (suc k)

unfoldable pub n_backtest_paths : ℕ → ℕ → ℕ
n_backtest_paths n_groups test_groups =
    if ltb 0 test_groups && ltb test_groups n_groups
    then choose n_groups test_groups * test_groups / n_groups
    else 0

-- `range(start, start + n)`
abbrev pub range_from : ℕ → ℕ → List ℕ
range_from start zero = []
range_from start (suc n) = start ∷ range_from (suc start) n

-- `itertools.combinations`, in its order
abbrev pub combinations : List ℕ → ℕ → List (List ℕ)
combinations xs zero = [] ∷ []
combinations [] (suc k) = []
combinations (x ∷ xs) (suc k) = map (λ c. x ∷ c) (combinations xs k) ++ combinations xs (suc k)

-- `blocks[g]`: the first session of a group and the one after its last.
pub record Block : Type 0 where
  pub start : ℕ
  pub end : ℕ

abbrev pub blocks_of : List ℕ → List Block
blocks_of [] = []
blocks_of (b ∷ []) = []
blocks_of (b ∷ c ∷ bounds) = record { start = b; end = c } ∷ blocks_of (c ∷ bounds)

abbrev pub nth : {A : Type 0} → List A → ℕ → Option A
nth [] i = none
nth (x ∷ xs) zero = some x
nth (x ∷ xs) (suc i) = nth xs i

-- The blocks of a combination: an index outside is an IndexError.
abbrev pub cons_option : {A : Type 0} → Option A → Option (List A) → Option (List A)
cons_option none xs = none
cons_option (some x) none = none
cons_option (some x) (some xs) = some (x ∷ xs)

abbrev pub pick_blocks : List Block → List ℕ → Option (List Block)
pick_blocks blocks [] = some []
pick_blocks blocks (g ∷ combo) = cons_option (nth blocks g) (pick_blocks blocks combo)

unfoldable pub test_index : List Block → List ℕ
test_index [] = []
test_index (b ∷ chosen) = range_from b.start (b.end - b.start) ++ test_index chosen

-- `i in range(max(0, start - gap), end + gap)`
abbrev pub near : ℕ → Block → ℕ → Bool
near gap b i = leb (b.start - gap) i && ltb i (b.end + gap)

unfoldable pub is_excluded : ℕ → List Block → ℕ → Bool
is_excluded gap [] i = false
is_excluded gap (b ∷ chosen) i = near gap b i || is_excluded gap chosen i

-- The indices from `i` on that are not excluded.
unfoldable pub train_index : ℕ → List Block → List ℕ → List ℕ
train_index gap chosen [] = []
train_index gap chosen (i ∷ indices) =
    let rest = train_index gap chosen indices in if is_excluded gap chosen i then rest else i ∷ rest

module _ {T : Type 0} where
  abbrev pub dates_at : List T → List ℕ → Option (List T)
  dates_at ordered [] = some []
  dates_at ordered (i ∷ indices) = cons_option (nth ordered i) (dates_at ordered indices)

  abbrev pub split_on : List ℕ → Option (List T) → Option (List T) → Option (CpcvSplit T)
  split_on combo none test = none
  split_on combo (some train) none = none
  split_on combo (some train) (some test) =
      some (record { train_dates = train; test_dates = test; groups = combo })

  -- The splits of some combinations; one without training or test sessions is left out.
  abbrev pub keep_split :
      List ℕ
      → List ℕ
      → Option (CpcvSplit T)
      → Option (List (CpcvSplit T))
      → Option (List (CpcvSplit T))
  keep_split [] test split rest = rest
  keep_split (i ∷ train) [] split rest = rest
  keep_split (i ∷ train) (j ∷ test) split rest = cons_option split rest

  abbrev pub add_split :
      List T
      → ℕ
      → List ℕ
      → Option (List Block)
      → Option (List (CpcvSplit T))
      → Option (List (CpcvSplit T))
  add_split ordered gap combo none rest = none
  add_split ordered gap combo (some chosen) rest =
      let train = train_index gap chosen (range_from 0 (length ordered)) in
      let test = test_index chosen in
      keep_split train test (split_on combo (dates_at ordered train) (dates_at ordered test)) rest

  unfoldable pub splits_of : List T → ℕ → List Block → List (List ℕ) → Option (List (CpcvSplit T))
  splits_of ordered gap blocks [] = some []
  splits_of ordered gap blocks (combo ∷ combos) =
      add_split ordered gap combo (pick_blocks blocks combo) (splits_of ordered gap blocks combos)

-- `by_group[g].append(i)`, for what stands under `g`: a missing group is a KeyError.
abbrev pub appended : ℕ → ℕ → Dict ℕ (List ℕ) → Option (List ℕ) → Option (Dict ℕ (List ℕ))
appended g i d none = none
appended g i d (some is) = some (put g (is ++ i ∷ []) d)

abbrev pub append_at : ℕ → ℕ → Dict ℕ (List ℕ) → Option (Dict ℕ (List ℕ))
append_at g i d = appended g i d (get g d)

abbrev pub then_dict :
    Option (Dict ℕ (List ℕ))
    → (Dict ℕ (List ℕ) → Option (Dict ℕ (List ℕ)))
    → Option (Dict ℕ (List ℕ))
then_dict none f = none
then_dict (some d) f = f d

unfoldable pub serve : List ℕ → ℕ → Dict ℕ (List ℕ) → Option (Dict ℕ (List ℕ))
serve [] i d = some d
serve (g ∷ groups) i d = then_dict (append_at g i d) (serve groups i)

unfoldable pub serve_all :
    {T : Type 0} → List (CpcvSplit T) → ℕ → Dict ℕ (List ℕ) → Option (Dict ℕ (List ℕ))
serve_all [] i d = some d
serve_all (s ∷ splits) i d = then_dict (serve s.groups i d) (serve_all splits (suc i))

abbrev pub empty_groups : List ℕ → Dict ℕ (List ℕ)
empty_groups [] = []
empty_groups (g ∷ groups) = (g, []) ∷ empty_groups groups

-- The `j`-th entry of each group in turn, `none` where one has too few.
abbrev pub path_at : ℕ → Dict ℕ (List ℕ) → Option (List ℕ)
path_at j [] = some []
path_at j ((g, is) ∷ d) = cons_option (nth is j) (path_at j d)

abbrev pub add_path : Option (List ℕ) → List (List ℕ) → List (List ℕ)
add_path none paths = []
add_path (some path) paths = path ∷ paths

-- The loop over the paths, `n` from `j` on, which stops at the first that is not complete.
unfoldable pub paths_from : Dict ℕ (List ℕ) → ℕ → ℕ → List (List ℕ)
paths_from d j zero = []
paths_from d j (suc n) = add_path (path_at j d) (paths_from d (suc j) n)

abbrev pub paths_of : ℕ → Option (Dict ℕ (List ℕ)) → Option (List (List ℕ))
paths_of n none = none
paths_of n (some d) = some (paths_from d 0 n)

unfoldable pub assemble_paths : {T : Type 0} → List (CpcvSplit T) → ℕ → ℕ → Option (List (List ℕ))
assemble_paths splits n_groups test_groups =
    paths_of (n_backtest_paths n_groups test_groups)
      (serve_all splits 0 (empty_groups (range_from 0 n_groups)))

abbrev pub with_paths :
    {T : Type 0} → List (CpcvSplit T) → ℕ → ℕ → Option (List (List ℕ)) → Outcome (CpcvPaths T)
with_paths splits n_groups test_groups none = raised
with_paths splits n_groups test_groups (some paths) =
    done (record { splits = splits; paths = paths; n_groups = n_groups; test_groups = test_groups })

abbrev pub with_splits : {T : Type 0} → ℕ → ℕ → Option (List (CpcvSplit T)) → Outcome (CpcvPaths T)
with_splits n_groups test_groups none = raised
with_splits n_groups test_groups (some splits) =
    with_paths splits n_groups test_groups (assemble_paths splits n_groups test_groups)

unfoldable pub cpcv_splits :
    {T : Type 0} → (ℕ → ℕ → List ℕ) → List T → ℕ → ℕ → ℕ → ℕ → Outcome (CpcvPaths T)
cpcv_splits linspace ordered n_groups test_groups horizon embargo =
    let blocks = blocks_of (linspace (length ordered) (suc n_groups)) in
    if not (ltb 0 test_groups && ltb test_groups n_groups) || ltb (length ordered) n_groups
    then raised
    else with_splits n_groups test_groups (
        splits_of ordered (horizon + embargo) blocks
          (combinations (range_from 0 n_groups) test_groups))
