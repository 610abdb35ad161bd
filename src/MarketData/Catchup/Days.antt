-- ===== src/MarketData/Catchup/Days.antt =====
-- How often the heartbeat of services/market-data/src/main.py pulls.
use market_app.Prelude.{ℕ, ◌≡◌, refl, true, List, [], ◌∷◌}
use market_app.Prelude.Act.{raised, Act}
use market_app.MarketData.Catchup.{Moment, Pulls, needs_catchup, maybe_sync}

pub record Beat : Type 0 where
  pub now : Moment
  pub started : Moment
  pub after : Moment

module _ {S : Type 0} where
  abbrev pub beats : ℕ → (Moment → Act S (Unit {0})) → List Beat → Pulls S → Pulls S
  beats close_hour job [] p = p
  beats close_hour job (b ∷ bs) p =
      beats close_hour job bs (maybe_sync close_hour job b.now b.started b.after p).1

  -- A heartbeat that pulls and whose job raises passes the exception on and leaves the marker as
  -- it was, so that a pull is still needed.
  pub failed_pull_retries :
      (close_hour : ℕ) (job : Moment → Act S (Unit {0})) (now started after : Moment) (p : Pulls S)
      (s : S)
      → needs_catchup p.marker now close_hour ≡ true
      → job started p.store ≡ (raised, s)
      → let (result, q) = maybe_sync close_hour job now started after p in
        (result ≡ raised)
        × (q ≡ record p { store = s })
        × (needs_catchup q.marker now close_hour ≡ true)
  unfolding maybe_sync
  failed_pull_retries close_hour job now started after p s n j = rw (n, j) (refl, refl, n)
