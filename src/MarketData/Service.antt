-- ===== src/MarketData/Service.antt =====
-- services/market-data/src/core/service.py. The provider, the repository, the cache and the
-- publisher stand behind the protocols of the service: `Stores` has their calls, any of which may
-- raise. The clock is an argument, as in the scheduled run.
mod Universe
mod Tests
use market_app.Prelude.{
  ℕ, zero, suc, ◌+◌, ◌-◌, String, Bool, true, false, not, ◌&&◌, Option, none, some, List, [], ◌∷◌,
  ◌++◌, leb, length, drop, if◌then◌else◌, String_eq,
}
use market_app.Prelude.Int.{ℤ}
use market_app.Prelude.Dict.{Dict, put, is_some}
use market_app.Prelude.Keys.{ℤ_eq}
use market_app.Prelude.Act.{Outcome, done, raised, Act, ◌>>=◌, ◌>>◌, pure}
use market_app.Float.{Float, literal}
use market_app.MarketData.Incremental.{
  Bar, FetchPlan, full, incremental, plan_fetch, full_history_plan, adjustment_drifted,
}

pub record MarketDataUpdated : Type 0 where
  pub symbol : String
  pub interval : String
  pub rows_count : ℕ

pub record Stores (S F : Type 0) : Type 0 where
  pub fetch : String → String → Option ℤ → Option ℤ → Act S (List (Bar F))
  pub latest_timestamp : String → String → Act S (Option ℤ)
  pub earliest_timestamp : String → String → Act S (Option ℤ)
  pub get_bars : String → String → Option ℤ → Option ℤ → ℕ → Act S (List (Bar F))
  pub save_bars : List (Bar F) → Act S ℕ
  pub cached_bars : String → String → Act S (Option (List (Bar F)))
  pub set_bars : String → String → List (Bar F) → Act S (Unit {0})
  pub invalidate : String → String → Act S (Unit {0})
  pub publish : MarketDataUpdated → Act S (Unit {0})

pub data SyncMode : Type 0 where
  full_history : SyncMode
  resumed : SyncMode
  readjusted : SyncMode

pub record SyncResult : Type 0 where
  pub symbol : String
  pub mode : SyncMode
  pub rows : ℕ
  pub previous_latest : Option ℤ
  pub latest : Option ℤ

pub record SyncSettings : Type 0 where
  pub interval : String
  pub now : ℤ
  pub overlap_days : ℤ
  pub initial_history_days : ℕ

abbrev pub is_latest_query : Option ℤ → Option ℤ → Bool
is_latest_query start end = not (is_some start) && not (is_some end)

module _ {F : Type 0} where
  -- `xs[-n:]`: a slice from -0 is the whole list
  abbrev pub last_bars : ℕ → List (Bar F) → List (Bar F)
  last_bars zero bars = bars
  last_bars (suc n) bars = drop (length bars - suc n) bars

  abbrev some_bars : List (Bar F) → Bool
  some_bars [] = false
  some_bars (bar ∷ bars) = true

  -- `bars[-1].timestamp if bars else latest`
  abbrev pub newest : List (Bar F) → Option ℤ → Option ℤ
  newest [] latest = latest
  newest (bar ∷ bars) latest = newest bars (some bar.timestamp)

module _ {S F : Type 0} where
  unfoldable pub read_through :
      Stores S F → String → String → Option ℤ → Option ℤ → ℕ → Act S (List (Bar F))
  read_through st symbol interval start end limit = do
    bars ← st.get_bars symbol interval start end limit
    (if is_latest_query start end && some_bars bars
        then st.set_bars symbol interval bars
        else pure tt)
    pure bars

  -- The answer for what the cache holds.
  unfoldable pub answer :
      Stores S F → String → String → ℕ → Option (List (Bar F)) → Act S (List (Bar F))
  answer st symbol interval limit none = read_through st symbol interval none none limit
  answer st symbol interval limit (some cached) =
      if leb limit (length cached)
      then pure (last_bars limit cached)
      else read_through st symbol interval none none limit

  unfoldable pub get_ohlcv :
      Stores S F → String → String → Option ℤ → Option ℤ → ℕ → Act S (List (Bar F))
  get_ohlcv st symbol interval start end limit =
      if is_latest_query start end
      then (st.cached_bars symbol interval >>= answer st symbol interval limit)
      else read_through st symbol interval start end limit

  -- Persist, invalidate the cache, announce what was written.
  unfoldable pub store : Stores S F → String → String → List (Bar F) → Act S ℕ
  store st symbol interval bars = do
    count ← st.save_bars bars
    st.invalidate symbol interval
    (if leb 1 count
        then st.publish (record { symbol = symbol; interval = interval; rows_count = count })
        else pure tt)
    pure count

  unfoldable pub fetch_and_store : Stores S F → String → String → Option ℤ → Option ℤ → Act S ℕ
  fetch_and_store st symbol interval start end =
      st.fetch symbol interval start end >>= store st symbol interval

abbrev pub noted :
    {S : Type 0}
    → String
    → Outcome SyncResult
    → (List SyncResult × List String) × S
    → (List SyncResult × List String) × S
noted symbol (done r) ((results, failed), s) = ((r ∷ results, failed), s)
noted symbol raised ((results, failed), s) = ((results, symbol ∷ failed), s)

module _ {S F : Type 0} ⦃fl : Float F⦄ where
  -- The bars to write: those fetched, or the whole history where they show a restatement.
  unfoldable pub repair :
      Stores S F
      → SyncSettings
      → String
      → List (Bar F)
      → List (Bar F)
      → Act S (SyncMode × List (Bar F))
  repair st c symbol stored bars =
      if adjustment_drifted stored bars (literal 1 4)
      then (do
        earliest ← st.earliest_timestamp symbol c.interval
        let plan = full_history_plan c.now c.initial_history_days earliest
        history ← st.fetch symbol c.interval (some plan.start) (some plan.end)
        pure (readjusted, history))
      else pure (resumed, bars)

  unfoldable pub checked :
      Stores S F
      → SyncSettings
      → String
      → FetchPlan
      → List (Bar F)
      → Act S (SyncMode × List (Bar F))
  checked st c symbol plan bars = elim plan.mode [
    | full ↦ pure (full_history, bars)
    | incremental ↦ elim bars [
      | [] ↦ pure (resumed, [])
      | bar ∷ rest ↦ do
        stored ←
            st.get_bars symbol c.interval (some plan.start) (some plan.end)
              (length (bar ∷ rest) + 10)
        repair st c symbol stored (bar ∷ rest)
    ]
  ]

  unfoldable pub sync_symbol : Stores S F → SyncSettings → String → Act S SyncResult
  sync_symbol st c symbol = do
    latest ← st.latest_timestamp symbol c.interval
    let plan = plan_fetch latest c.now c.overlap_days c.initial_history_days
    fetched ← st.fetch symbol c.interval (some plan.start) (some plan.end)
    (mode, bars) ← checked st c symbol plan fetched
    count ← store st symbol c.interval bars
    pure (record {
      symbol = symbol;
      mode = mode;
      rows = count;
      previous_latest = latest;
      latest = newest bars latest;
    })

  -- The loop over the symbols: an exception of one is noted, and the next one is tried.
  unfoldable pub sync_each :
      Stores S F → SyncSettings → List String → S → (List SyncResult × List String) × S
  sync_each st c [] s = (([], []), s)
  sync_each st c (symbol ∷ symbols) s =
      let (result, s') = sync_symbol st c symbol s in
      noted symbol result (sync_each st c symbols s')

pub record Summary : Type 0 where
  pub symbols : ℕ
  pub synced : ℕ
  pub failed : Dict String (Unit {0})
  pub rows : ℕ
  pub readjusted_symbols : List String
  pub results : List SyncResult

abbrev pub total_rows : List SyncResult → ℕ
total_rows [] = 0
total_rows (r ∷ results) = r.rows + total_rows results

abbrev pub readjusted_of : List SyncResult → List String
readjusted_of [] = []
readjusted_of (r ∷ results) = elim r.mode [
  | readjusted ↦ r.symbol ∷ readjusted_of results
  | full_history ↦ readjusted_of results
  | resumed ↦ readjusted_of results
]

-- `failed[symbol] = ...` for each failure in turn; the messages are left out
abbrev pub failures : List String → Dict String (Unit {0}) → Dict String (Unit {0})
failures [] d = d
failures (symbol ∷ rest) d = failures rest (put symbol tt d)

unfoldable pub sync_universe :
    {S F : Type 0} ⦃fl : Float F⦄ → Stores S F → SyncSettings → List String → S → Summary × S
sync_universe st c symbols s =
    let ((results, failed), s') = sync_each st c symbols s in
    (
      record {
        symbols = length symbols;
        synced = length results;
        failed = failures failed [];
        rows = total_rows results;
        readjusted_symbols = readjusted_of results;
        results = results;
      },
      s',
    )
