-- ===== src/MarketData/Fallback/Sources.antt =====
-- Which source of services/market-data/src/core/fetchers/base.py is answered from.
use market_app.Prelude.{
  ◌≡◌, refl, ap, sym, ◌∙◌, Bool, true, false, List, [], ◌∷◌, ◌++◌, if◌then◌else◌,
}
use mathlib.Core.List.{append-nil}
use market_app.Prelude.Act.{Outcome, done, raised}
use market_app.MarketData.Fallback.{Fetcher, asked, try_each, fetch}

module _ {Bar : Type 0} where
  abbrev NoBars : Outcome (List Bar) → Type 0
  NoBars raised = Unit
  NoBars (done []) = Unit
  NoBars (done (bar ∷ bars)) = ⊥

  abbrev failed_by : Outcome (List Bar) → Bool → Bool
  failed_by raised failed = true
  failed_by (done bars) failed = failed

module _ {S Bar : Type 0} where
  -- Asked one after the other, none of the sources gives a bar.
  abbrev pub Barren : List (Fetcher S Bar) → S → Type 0
  Barren [] s = Unit
  Barren (fetcher ∷ fetchers) s = let (r, s') = fetcher s in NoBars r × Barren fetchers s'

  abbrev failed_in : List (Fetcher S Bar) → Bool → S → Bool
  failed_in [] failed s = failed
  failed_in (fetcher ∷ fetchers) failed s =
      let (r, s') = fetcher s in failed_in fetchers (failed_by r failed) s'

  -- One of the sources raises.
  abbrev pub some_raise : List (Fetcher S Bar) → S → Bool
  some_raise fetchers = failed_in fetchers false

  -- What is there after all of the sources were asked.
  abbrev pub after_all : List (Fetcher S Bar) → S → S
  after_all [] s = s
  after_all (fetcher ∷ fetchers) s = let (r, s') = fetcher s in after_all fetchers s'

  asked-NoBars :
      (r : Outcome (List Bar)) (next : Bool → Fetcher S Bar) (failed : Bool) (s : S)
      → NoBars r
      → asked r next failed s ≡ next (failed_by r failed) s
  asked-NoBars raised next failed s h = refl
  asked-NoBars (done []) next failed s h = refl
  asked-NoBars (done (bar ∷ bars)) next failed s h = elim h [ ]

  try_each-append :
      (barren rest : List (Fetcher S Bar)) (failed : Bool) (s : S)
      → Barren barren s
      → try_each (barren ++ rest) failed s
        ≡ try_each rest (failed_in barren failed s) (after_all barren s)
  try_each-append [] rest failed s h = refl
  try_each-append (fetcher ∷ barren) rest failed s (h, hs) =
      asked-NoBars (fetcher s).0 (try_each (barren ++ rest)) failed (fetcher s).1 h
      ∙ try_each-append barren rest (failed_by (fetcher s).0 failed) (fetcher s).1 hs

  answered :
      (fetcher : Fetcher S Bar) (rest : List (Fetcher S Bar)) (failed : Bool) (s s' : S) (bar : Bar)
      (bars : List Bar)
      → fetcher s ≡ (done (bar ∷ bars), s')
      → try_each (fetcher ∷ rest) failed s ≡ (done (bar ∷ bars), s')
  answered fetcher rest failed s s' bar bars h = rw h refl

  -- Where the sources before one give no bars, each asked after the one before it, and that one
  -- then gives some: the answer is its bars, and no source after it is asked. Where none of the
  -- sources gives a bar, they are all asked; the result is an exception if one of them raised, else
  -- no bars.
  pub first_bars_win :
      (barren rest : List (Fetcher S Bar)) (fetcher : Fetcher S Bar) (s s' : S) (bar : Bar)
      (bars : List Bar)
      → Barren barren s
      → fetcher (after_all barren s) ≡ (done (bar ∷ bars), s')
      → (fetch (barren ++ fetcher ∷ rest) s ≡ (done (bar ∷ bars), s'))
        × (fetch barren s ≡ (if some_raise barren s then raised else done [], after_all barren s))
  unfolding fetch
  first_bars_win barren rest fetcher s s' bar bars h e = (
    try_each-append barren (fetcher ∷ rest) false s h
        ∙ answered fetcher rest (some_raise barren s) (after_all barren s) s' bar bars e,
    ap (λ fetchers. try_each fetchers false s) (sym (append-nil barren))
        ∙ try_each-append barren [] false s h,
  )
