-- ===== src/Examples/Delivery.antt =====
-- Sending what waits.
use product_updates.Examples.Data.{alert, email}
use product_updates.Notifications.{Table}
use product_updates.Notifications.Attempts.{attempts_bounded, WithinAttempts}
use product_updates.Notifications.Digest.{deliver_pending}
use product_updates.Prelude.{none, arith, [], ◌∷◌, All}

abbrev two_alerts : Table
two_alerts = record { rows = alert 1 0 ∷ alert 2 3 ∷ []; next_id = 3 }

attempts_bounded_example :
    All WithinAttempts (deliver_pending (email ∷ []) 0 50 none 9 two_alerts).0.rows
attempts_bounded_example =
    attempts_bounded (email ∷ []) 0 50 none 9 two_alerts (omega arith, (omega arith, tt))
