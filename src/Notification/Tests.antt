-- ===== src/Notification/Tests.antt =====
-- The service of services/notification/src/core/service.py with two channels over three events.
use market_app.Prelude.{List, [], ◌∷◌}
use market_app.Prelude.Act.{done, raised, Act}
use market_app.RiskMgmt.Breaker.{red}
use market_app.Notification.{Alert, Event, circuit_breaker, order_filled, model_drift, alert_of}

-- A channel that is down, and one that keeps what it is sent.
abbrev down : Alert → Act (List Alert) (Unit {0})
down alert sent = (raised, sent)

abbrev log : Alert → Act (List Alert) (Unit {0})
log alert sent = (done tt, alert ∷ sent)

abbrev channels : List (Alert → Act (List Alert) (Unit {0}))
channels = down ∷ log ∷ []

abbrev events : List Event
events = circuit_breaker red "halt" ∷ order_filled "o-1" "AAPL" ∷ model_drift "m-1" "psi" "odd" ∷ []

abbrev expected : List Alert
expected = alert_of (circuit_breaker red "halt") ∷ alert_of (model_drift "m-1" "psi" "odd") ∷ []
