-- ===== src/Transfer/Tests.antt =====
-- Sending at concrete outcomes.
use whet.Transfer.{Outcome, send_raw, accepts}
use whet.Transfer.Delivery.{Delivers, send_raw-Delivers}
use whet.Base.{codes, List, true, ◌∷◌, []}

abbrev slow : List Outcome
slow = accepts 2 ∷ accepts 5 ∷ accepts 1 ∷ accepts 1 ∷ []

send_raw-Delivers_example : Delivers (codes "abc") (send_raw true (codes "abc") slow)
send_raw-Delivers_example = send_raw-Delivers true (codes "abc") slow
