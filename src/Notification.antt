-- ===== src/Notification.antt =====
-- services/notification/src/core: alerts.py, service.py and the records of channels.py. The title and
-- the message of an alert, texts for a reader, are left out. A channel is its `send`, which may
-- raise; `gather` starts the sends in the order of the channels.
mod Recent
mod Tests
use market_app.Prelude.{
  ℕ, ◌-◌, String, Bool, ◌||◌, List, [], ◌∷◌, ◌++◌, ltb, length, drop, if◌then◌else◌, ◌==◌,
  String_eq,
}
use market_app.Prelude.Act.{Outcome, done, Act}
use market_app.RiskMgmt.Breaker.{Level, yellow, red, black}

abbrev pub severity_rank : String → ℕ
severity_rank severity =
    if severity == "warning" then 1 else if severity == "critical" then 2 else 0

pub record Alert : Type 0 where
  pub severity : String
  pub source : String
  pub metadata : List (String × String)

abbrev pub rank : Alert → ℕ
rank alert = severity_rank alert.severity

-- The events that the service subscribes to, with the fields that its alerts keep.
pub data Event : Type 0 where
  circuit_breaker : (level : Level) (action_taken : String) → Event
  order_filled : (order_id symbol : String) → Event
  strategy_revalidated : (strategy_name recommended_status : String) → Event
  strategy_status_changed : (strategy_name old_status new_status : String) → Event
  model_drift : (model_id drift_type severity : String) → Event

abbrev pub level_value : Level → String
level_value yellow = "yellow"
level_value red = "red"
level_value black = "black"

abbrev level_severity : Level → String
level_severity yellow = "warning"
level_severity red = "critical"
level_severity black = "critical"

abbrev demotion : Bool → String
demotion demoted = if demoted then "warning" else "info"

abbrev pub alert_of : Event → Alert
alert_of (circuit_breaker level action) = record {
  severity = level_severity level;
  source = "risk.circuit_breaker";
  metadata = ("level", level_value level) ∷ ("action", action) ∷ [];
}
alert_of (order_filled order_id symbol) = record {
  severity = "info";
  source = "order.filled";
  metadata = ("symbol", symbol) ∷ ("order_id", order_id) ∷ [];
}
alert_of (strategy_revalidated name status) = record {
  severity = demotion (status == "probation" || status == "deactivate");
  source = "backtest.strategy_revalidated";
  metadata = ("strategy", name) ∷ ("status", status) ∷ [];
}
alert_of (strategy_status_changed name old new) = record {
  severity = demotion (new == "probation" || new == "deactivated");
  source = "strategy.status_changed";
  metadata = ("strategy", name) ∷ ("old_status", old) ∷ ("new_status", new) ∷ [];
}
alert_of (model_drift model_id drift_type severity) = record {
  severity = if severity == "warning" || severity == "critical" then severity else "warning";
  source = "ml.drift_detected";
  metadata = ("model_id", model_id) ∷ ("drift_type", drift_type) ∷ [];
}

module _ {S : Type 0} where
  -- Every channel is asked, also after one that raised.
  abbrev pub send_all : List (Alert → Act S (Unit {0})) → Alert → S → S
  send_all [] alert s = s
  send_all (send ∷ channels) alert s = let (_, s') = send alert s in send_all channels alert s'

-- `outside` is what the channels write to.
pub record NotificationService (S : Type 0) : Type 0 where
  pub channels : List (Alert → Act S (Unit {0}))
  pub min_rank : ℕ
  pub recent_maxlen : ℕ
  pub recent : List Alert
  pub outside : S

-- A deque keeps its last elements.
abbrev pub last_n : {A : Type 0} → ℕ → List A → List A
last_n n xs = drop (length xs - n) xs

module _ {S : Type 0} where
  abbrev pub create : List (Alert → Act S (Unit {0})) → String → ℕ → S → NotificationService S
  create channels min_severity recent_maxlen outside = record {
    channels = channels;
    min_rank = severity_rank min_severity;
    recent_maxlen = recent_maxlen;
    recent = [];
    outside = outside;
  }

  unfoldable pub dispatch : Alert → NotificationService S → NotificationService S
  dispatch alert n = if ltb (rank alert) n.min_rank then n else record n {
    recent = last_n n.recent_maxlen (n.recent ++ alert ∷ []);
    outside = send_all n.channels alert n.outside;
  }

  abbrev pub handle : Event → NotificationService S → NotificationService S
  handle event = dispatch (alert_of event)

  abbrev pub handle_each : List Event → NotificationService S → NotificationService S
  handle_each [] n = n
  handle_each (event ∷ events) n = handle_each events (handle event n)
