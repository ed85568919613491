-- ===== src/Bridge/Tests.antt =====
-- The bridges at concrete values.
use whet.Bridge.Script.{js_read, js_write}
use whet.Bridge.Agreement.{as_read, as_write, bridges_agree}
use whet.Stream.{received}
use whet.Transfer.{accepts}
use whet.Bridge.Isolation.{call_dial}
use whet.Base.{◌∷◌, [], true, ◌≡◌, codes, arith, false, Bytes, some, none, List, refl}
use whet.Stream.Close.{Client, closed_peer}
use whet.Stream.Made.{WebrtcConn}
use whet.Bridge.{
  Handles, value, read_whap, dials, pos, close_whap, close, ℤ, write_whap, Outcome, aborts,
  ReadOutcome, done,
}
use whet.Bridge.Released.{performs, closed_stays}

abbrev tunnel : WebrtcConn
tunnel = record {
  stream = record { detached = true; read_buffer = codes "abcd"; buffer_size = 4; buffer_pos = 1 };
  conn = record { closed = false; resource_url = []; bearer_token = [] };
}

abbrev one : Handles
one = record { last = 3; table = (3, tunnel) ∷ [] }

abbrev web : Client
web = record { builds = λ s. true; succeeds = λ s. true }

bridges_agree_example :
    ((read_whap 3 (pos 2) (received []) one).0 ≡ as_read (js_read (pos 2) (received []) tunnel).0)
    × (value 3 (read_whap 3 (pos 2) (received []) one).1.table
        ≡ some (js_read (pos 2) (received []) tunnel).1)
    × (write_whap 3 (codes "xyz") (pos 2) (accepts 2 ∷ []) one
        ≡ as_write (js_write tunnel (codes "xy") (accepts 2 ∷ [])))
unfolding value
bridges_agree_example =
    bridges_agree one 3 2 tunnel (received []) (codes "xyz") (accepts 2 ∷ []) refl (omega arith)

closed_stays_example :
    let b' =
      performs (call_dial (dials tunnel) ∷ []) (close_whap 3 (accepts 5 ∷ []) web (λ k. 0) one).1 in
    ((bytes : Bytes) (n : ℤ) (more : List Outcome) → write_whap 3 bytes n more b' ≡ aborts)
    × ((n : ℤ) (o : ReadOutcome) → (read_whap 3 n o b').0 ≡ aborts)
    × ((close_whap 3 (accepts 5 ∷ []) web (λ k. 0) b').0 ≡ aborts)
unfolding close_whap value whet.Stream.write whet.Transfer.send_raw whet.Stream.Close.close
    whet.Stream.Close.drain whet.Base.bytes_eq
closed_stays_example =
    closed_stays 3 (accepts 5 ∷ []) web (λ k. 0) one
      (
        done (codes "CLOSE" ∷ []),
        record {
          error = none;
          effects = closed_peer ∷ [];
          conn = record { closed = true; resource_url = []; bearer_token = [] };
        },
      )
      (call_dial (dials tunnel) ∷ []) (omega arith) refl
