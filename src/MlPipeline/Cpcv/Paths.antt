-- ===== src/MlPipeline/Cpcv/Paths.antt =====
-- The paths of services/ml-pipeline/src/core/cpcv.py: each takes every group from a split that tests
-- the group.
use market_app.Prelude.{
  ℕ, zero, suc, ◌+◌, ◌≡◌, refl, ap, ◌∙◌, Bool, true, false, not, ◌&&◌, ◌||◌, Option, none, some,
  List, [], ◌∷◌, ◌++◌, All, ltb, length, drop, if◌then◌else◌, ◌==◌, ==_refl, ℕ_eq, arith,
}
use mathlib.Core.Path.{subst}
use market_app.Prelude.Act.{Outcome, done, raised}
use market_app.Prelude.Dict.{Dict, get}
use market_app.MlPipeline.Cpcv.Groups.{
  Entries, keys, get-Entries, put-Entries, keys-put, nth-drop, drop-suc,
}
use market_app.MlPipeline.Cpcv.{
  append_at, CpcvSplit, CpcvPaths, nth, cons_option, range_from, appended, add_path, paths_of,
  then_dict, serve, serve_all, empty_groups, path_at, paths_from, assemble_paths, with_paths,
  with_splits, n_backtest_paths, cpcv_splits, splits_of, blocks_of, combinations,
}

abbrev pub elem : ℕ → List ℕ → Bool
elem g [] = false
elem g (h ∷ hs) = (h == g) || elem g hs

module _ {T : Type 0} (splits : List (CpcvSplit T)) where
  -- The split of this index tests the group.
  abbrev pub Serves : ℕ → ℕ → Type 0
  Serves g i = (s : CpcvSplit T) × (nth splits i ≡ some s) × (elem g s.groups ≡ true)

  abbrev AllServe : ℕ → List ℕ → Type 0
  AllServe g is = All (Serves g) is

  -- A path names, for each group in turn, a split that tests it.
  abbrev pub Covers : List ℕ → List ℕ → Type 0
  Covers [] [] = Unit
  Covers [] (i ∷ path) = ⊥
  Covers (g ∷ groups) [] = ⊥
  Covers (g ∷ groups) (i ∷ path) = Serves g i × Covers groups path

  abbrev Kept : List ℕ → Option (Dict ℕ (List ℕ)) → Type 0
  Kept ks none = Unit
  Kept ks (some d) = (keys d ≡ ks) × Entries AllServe d

  AllServe-snoc : (g i : ℕ) (is : List ℕ) → AllServe g is → Serves g i → AllServe g (is ++ i ∷ [])
  AllServe-snoc g i [] h s = (s, tt)
  AllServe-snoc g i (j ∷ is) (t, h) s = (t, AllServe-snoc g i is h s)

  appended-Kept :
      (g i : ℕ) (d : Dict ℕ (List ℕ)) (ks : List ℕ) (o : Option (List ℕ))
      → get g d ≡ o
      → Serves g i
      → Kept ks (some d)
      → Kept ks (appended g i d o)
  appended-Kept g i d ks none f s h = tt
  appended-Kept g i d ks (some is) f s (e, h) = (
    keys-put g (is ++ i ∷ []) is d f ∙ e,
    put-Entries AllServe g (is ++ i ∷ []) d h
        (AllServe-snoc g i is (get-Entries AllServe g is d h f) s),
  )

  then_dict-Kept :
      (ks : List ℕ) (o : Option (Dict ℕ (List ℕ))) (f : Dict ℕ (List ℕ) → Option (Dict ℕ (List ℕ)))
      → Kept ks o
      → ((d : Dict ℕ (List ℕ)) → Kept ks (some d) → Kept ks (f d))
      → Kept ks (then_dict o f)
  then_dict-Kept ks none f h k = tt
  then_dict-Kept ks (some d) f h k = k d h

  serve-Kept :
      (groups : List ℕ) (i : ℕ) (d : Dict ℕ (List ℕ)) (ks : List ℕ)
      → All (λ g. Serves g i) groups
      → Kept ks (some d)
      → Kept ks (serve groups i d)
  unfolding serve
  serve-Kept [] i d ks s h = h
  serve-Kept (g ∷ groups) i d ks (s, ss) h =
      then_dict-Kept ks (append_at g i d) (serve groups i)
        (appended-Kept g i d ks (get g d) refl s h) λ d' h'. serve-Kept groups i d' ks ss h'

  own_groups :
      (i : ℕ) (s : CpcvSplit T)
      → nth splits i ≡ some s
      → (groups : List ℕ) → ((g : ℕ) → elem g groups ≡ true → elem g s.groups ≡ true)
      → All (λ g. Serves g i) groups
  own_groups i s e [] h = tt
  own_groups i s e (g ∷ groups) h = (
    (s, e, h g (ground (arith, ==_refl g))),
    own_groups i s e groups λ g' k. h g' (ground (arith, k)),
  )

  serve_all-Kept :
      (rest : List (CpcvSplit T)) (i : ℕ) (d : Dict ℕ (List ℕ)) (ks : List ℕ)
      → drop i splits ≡ rest
      → Kept ks (some d)
      → Kept ks (serve_all rest i d)
  unfolding serve_all
  serve_all-Kept [] i d ks e h = h
  serve_all-Kept (s ∷ rest) i d ks e h =
      then_dict-Kept ks (serve s.groups i d) (serve_all rest (suc i))
        (serve-Kept s.groups i d ks (own_groups i s (nth-drop i splits s rest e) s.groups λ g k. k)
          h)
        λ d' h'. serve_all-Kept rest (suc i) d' ks (drop-suc i splits s rest e) h'

  abbrev Covered : List ℕ → Option (List ℕ) → Type 0
  Covered ks none = Unit
  Covered ks (some path) = Covers ks path

  abbrev ServesIf : ℕ → Option ℕ → Type 0
  ServesIf g none = Unit
  ServesIf g (some i) = Serves g i

  nth-ServesIf : (g : ℕ) (is : List ℕ) (j : ℕ) → AllServe g is → ServesIf g (nth is j)
  nth-ServesIf g [] j h = tt
  nth-ServesIf g (i ∷ is) zero (s, h) = s
  nth-ServesIf g (i ∷ is) (suc j) (s, h) = nth-ServesIf g is j h

  cons-Covered :
      (g : ℕ) (ks : List ℕ) (o : Option ℕ) (path : Option (List ℕ))
      → ServesIf g o
      → Covered ks path
      → Covered (g ∷ ks) (cons_option o path)
  cons-Covered g ks none path s h = tt
  cons-Covered g ks (some i) none s h = tt
  cons-Covered g ks (some i) (some path) s h = (s, h)

  path_at-Covered :
      (j : ℕ) (d : Dict ℕ (List ℕ)) → Entries AllServe d → Covered (keys d) (path_at j d)
  unfolding keys
  path_at-Covered j [] h = tt
  path_at-Covered j ((g, is) ∷ d) (s, h) =
      cons-Covered g (keys d) (nth is j) (path_at j d) (nth-ServesIf g is j s)
        (path_at-Covered j d h)

  add_path-Covers :
      (ks : List ℕ) (path : Option (List ℕ)) (paths : List (List ℕ))
      → Covered ks path
      → All (Covers ks) paths
      → All (Covers ks) (add_path path paths)
  add_path-Covers ks none paths h hs = tt
  add_path-Covers ks (some path) paths h hs = (h, hs)

  paths_from-Covers :
      (d : Dict ℕ (List ℕ)) (j n : ℕ)
      → Entries AllServe d
      → All (Covers (keys d)) (paths_from d j n)
  unfolding paths_from
  paths_from-Covers d j zero h = tt
  paths_from-Covers d j (suc n) h =
      add_path-Covers (keys d) (path_at j d) (paths_from d (suc j) n) (path_at-Covered j d h)
        (paths_from-Covers d (suc j) n h)

  abbrev AllCovered : List ℕ → Option (List (List ℕ)) → Type 0
  AllCovered ks none = Unit
  AllCovered ks (some paths) = All (Covers ks) paths

  paths_of-Covers :
      (ks : List ℕ) (n : ℕ) (o : Option (Dict ℕ (List ℕ)))
      → Kept ks o
      → AllCovered ks (paths_of n o)
  paths_of-Covers ks n none h = tt
  paths_of-Covers ks n (some d) (e, h) =
      subst (λ t. All (Covers t) (paths_from d 0 n)) e (paths_from-Covers d 0 n h)

  empty_groups-Kept : (ks : List ℕ) → Kept ks (some (empty_groups ks))
  unfolding keys
  empty_groups-Kept [] = (refl, tt)
  empty_groups-Kept (k ∷ ks) = let (e, h) = empty_groups-Kept ks in (ap (λ t. k ∷ t) e, (tt, h))

  assemble_paths-Covers :
      (n_groups test_groups : ℕ)
      → AllCovered (range_from 0 n_groups) (assemble_paths splits n_groups test_groups)
  unfolding assemble_paths
  assemble_paths-Covers n_groups test_groups =
      let ks = range_from 0 n_groups in
      paths_of-Covers ks (n_backtest_paths n_groups test_groups) _
        (serve_all-Kept splits 0 (empty_groups ks) ks refl (empty_groups-Kept ks))

module _ {T : Type 0} (n_groups : ℕ) where
  abbrev PathsGood : Outcome (CpcvPaths T) → Type 0
  PathsGood raised = Unit
  PathsGood (done r) = All (Covers r.splits (range_from 0 n_groups)) r.paths

  with_paths-Good :
      (splits : List (CpcvSplit T)) (k : ℕ) (paths : Option (List (List ℕ)))
      → AllCovered splits (range_from 0 n_groups) paths
      → PathsGood (with_paths splits n_groups k paths)
  with_paths-Good splits k none h = tt
  with_paths-Good splits k (some paths) h = h

  with_splits-Good :
      (k : ℕ) (splits : Option (List (CpcvSplit T))) → PathsGood (with_splits n_groups k splits)
  with_splits-Good k none = tt
  with_splits-Good k (some splits) =
      with_paths-Good splits k (assemble_paths splits n_groups k)
        (assemble_paths-Covers splits n_groups k)

  result_if :
      (b : Bool) (r : Outcome (CpcvPaths T)) → PathsGood r → PathsGood (if b then raised else r)
  result_if true r h = tt
  result_if false r h = h

-- In the result of `cpcv_splits` every path has one entry for each group, in order, and the entry for
-- a group is the index of a split of the result that tests the group.
pub paths_cover_groups :
    {T : Type 0}
    → (linspace : ℕ → ℕ → List ℕ) (ordered : List T) (n_groups test_groups horizon embargo : ℕ)
      (r : CpcvPaths T)
    → cpcv_splits linspace ordered n_groups test_groups horizon embargo ≡ done r
    → All (Covers r.splits (range_from 0 n_groups)) r.paths
unfolding cpcv_splits
paths_cover_groups linspace ordered n_groups test_groups horizon embargo r h =
    subst (PathsGood n_groups) h (
      result_if n_groups
        (not (ltb 0 test_groups && ltb test_groups n_groups) || ltb (length ordered) n_groups) _
        (with_splits-Good n_groups test_groups (
          splits_of ordered (horizon + embargo)
            (blocks_of (linspace (length ordered) (suc n_groups)))
            (combinations (range_from 0 n_groups) test_groups))))
