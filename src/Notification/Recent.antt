-- ===== src/Notification/Recent.antt =====
-- What services/notification/src/core/service.py remembers and sends over a run of events.
use market_app.Prelude.{map, ℕ, ◌≡◌, sym, List, [], ◌∷◌, ◌++◌, ltb, if◌then◌else◌}
use mathlib.Core.Path.{subst}
use market_app.Prelude.Act.{Act}
use market_app.Notification.{
  Alert, Event, rank, alert_of, send_all, NotificationService, last_n, handle_each,
}

-- The alerts of some events that are at least of a rank, in the order of the events.
abbrev pub loud_alerts : ℕ → List Event → List Alert
loud_alerts min_rank [] = []
loud_alerts min_rank (event ∷ events) =
    if ltb (rank (alert_of event)) min_rank
    then loud_alerts min_rank events
    else alert_of event ∷ loud_alerts min_rank events

module _ {S : Type 0} where
  -- The channels are sent each of some alerts, in order.
  abbrev sent_in_order : List (Alert → Act S (Unit {0})) → List Alert → S → S
  sent_in_order channels [] s = s
  sent_in_order channels (alert ∷ alerts) s =
      sent_in_order channels alerts (send_all channels alert s)

  -- What goes to which channel: every alert to every channel, alert by alert.
  abbrev pub deliveries :
      List (Alert → Act S (Unit {0})) → List Alert → List ((Alert → Act S (Unit {0})) × Alert)
  deliveries channels [] = []
  deliveries channels (alert ∷ alerts) =
      map (λ send. (send, alert)) channels ++ deliveries channels alerts

  -- Sends that all take place, one after the other, whichever raise.
  abbrev pub run_sends : List ((Alert → Act S (Unit {0})) × Alert) → S → S
  run_sends [] s = s
  run_sends ((send, alert) ∷ rest) s = run_sends rest (send alert s).1

  -- An alert that is not suppressed.
  abbrev shown : Alert → NotificationService S → NotificationService S
  shown alert n = record n {
    recent = last_n n.recent_maxlen (n.recent ++ alert ∷ []);
    outside = send_all n.channels alert n.outside;
  }

  -- `events` lead from `m` to what `n` becomes by `alerts`, after it has remembered `old`.
  abbrev Ends :
      List Event → List Alert → NotificationService S → NotificationService S → List Alert → Type 0
  Ends events old n m alerts =
      ((handle_each events m).recent ≡ last_n n.recent_maxlen (old ++ alerts))
      × ((handle_each events m).outside ≡ sent_in_order n.channels alerts n.outside)

  abbrev Runs : List Event → List Alert → NotificationService S → Type 0
  Runs events old n = Ends events old n n (loud_alerts n.min_rank events)

  moved :
      (events : List Event) (old : List Alert) (n m m' : NotificationService S) (xs ys : List Alert)
      → m' ≡ m
      → ys ≡ xs
      → Ends events old n m xs
      → Ends events old n m' ys
  moved events old n m m' xs ys e f h =
      subst (λ m. Ends events old n m ys) (sym e) (subst (Ends events old n m) (sym f) h)
