-- ===== src/MarketData/Service/Universe.antt =====
-- What services/market-data/src/core/service.py answers from its cache.
use market_app.Prelude.{
  ℕ, zero, suc, ◌-◌, ◌≤◌, ◌<◌, ◌≡◌, refl, ap, String, Bool, true, false, none, some, List, leb,
  length, length-drop, if◌then◌else◌, arith,
}
use market_app.Prelude.Act.{done, pure}
use market_app.MarketData.Incremental.{Bar}
use market_app.MarketData.Service.{Stores, last_bars, read_through, answer, get_ohlcv}

module _ {F : Type 0} where
  length-last_bars :
      (n : ℕ) (bars : List (Bar F)) → 0 < n → n ≤ length bars → length (last_bars n bars) ≡ n
  length-last_bars zero bars p h = ground arith
  length-last_bars (suc n) bars p h = ground (arith, length-drop (length bars - suc n) bars)

module _ {S F : Type 0} where
  answer_by :
      (st : Stores S F) (symbol interval : String) (limit : ℕ) (cached : List (Bar F)) (b : Bool)
      → leb limit (length cached) ≡ b
      → answer st symbol interval limit (some cached) ≡ (
          if b
          then pure (last_bars limit cached)
          else read_through st symbol interval none none limit)
  unfolding answer
  answer_by st symbol interval limit cached b e = rw e refl

  cache_by :
      (st : Stores S F) (symbol interval : String) (limit : ℕ) (cached : List (Bar F)) (s : S)
      → 0 < limit
      → (b : Bool) → leb limit (length cached) ≡ b
      → let result = answer st symbol interval limit (some cached) s in
        if b
        then (result ≡ (done (last_bars limit cached), s))
          × (length (last_bars limit cached) ≡ limit)
        else (result ≡ read_through st symbol interval none none limit s)
  cache_by st symbol interval limit cached s p true e = (
    ap (λ f. f s) (answer_by st symbol interval limit cached true e),
    length-last_bars limit cached p (ground (arith, e)),
  )
  cache_by st symbol interval limit cached s p false e =
      ap (λ f. f s) (answer_by st symbol interval limit cached false e)

  -- For the query of the latest bars, where the cache holds some: a `limit` that they cover is
  -- answered from them alone, with the newest `limit` bars and nothing written; a larger one is
  -- answered as if the cache held nothing.
  pub cache_answers_in_full :
      (st : Stores S F) (symbol interval : String) (limit : ℕ) (cached : List (Bar F)) (s s' : S)
      → st.cached_bars symbol interval s ≡ (done (some cached), s')
      → 0 < limit
      → let result = get_ohlcv st symbol interval none none limit s in
        if leb limit (length cached)
        then (result ≡ (done (last_bars limit cached), s'))
          × (length (last_bars limit cached) ≡ limit)
        else (result ≡ read_through st symbol interval none none limit s')
  unfolding get_ohlcv
  cache_answers_in_full st symbol interval limit cached s s' h p =
      rw h (cache_by st symbol interval limit cached s' p (leb limit (length cached)) refl)
