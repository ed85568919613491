-- ===== src/Stream/Tests.antt =====
-- The stream at concrete messages.
use whet.Stream.Closing.{Waited, close_open}
use whet.Stream.Sequence.{total, read_all-total}
use whet.FlowControl.{max_buffer_size}
use whet.Stream.{Stream, read_all}
use whet.Stream.Reading.{IsReady, pending}
use whet.Stream.Close.{tear_down, Drained, Client, Conn, close, drain, close_fuel}
use mathlib.Core.List.{flatten}
use whet.Base.{
  codes, ℕ, Bytes, ◌≡◌, [], arith, false, ◌-◌, length, true, some, suc, ◌∷◌, refl, zero, ◌++◌,
}

abbrev zeros : ℕ → Bytes
zeros zero = []
zeros (suc n) = 0 ∷ zeros n

length-zeros : (n : ℕ) → length (zeros n) ≡ n
length-zeros zero = refl
length-zeros (suc n) = omega (arith, length-zeros n)

-- A detached stream as `DialClientConnection` makes it.
abbrev fresh : Stream
fresh = record {
  detached = true;
  read_buffer = zeros max_buffer_size;
  buffer_size = 0;
  buffer_pos = 0;
}

fresh-IsReady : IsReady fresh
fresh-IsReady = record {
  is_detached = refl;
  ordered = omega arith;
  inside = omega arith;
  capacity = length-zeros max_buffer_size;
}

read_all-total_example :
    total (read_all (2 ∷ 2 ∷ []) (codes "abc" ∷ codes "de" ∷ []) fresh)
    ≡ pending fresh ++ flatten (codes "abc" ∷ codes "de" ∷ [])
read_all-total_example =
    read_all-total (2 ∷ 2 ∷ []) (codes "abc" ∷ codes "de" ∷ []) fresh fresh-IsReady
      ((omega arith, omega arith), ((omega arith, omega arith), tt))

abbrev reset : Bytes
reset = codes "reset"

abbrev client : Client
client = record { builds = λ url. true; succeeds = λ url. false }

abbrev open_conn : Conn
open_conn = record {
  closed = false;
  resource_url = codes "http://h/whet/f47";
  bearer_token = codes "secret";
}

abbrev closed_conn : Conn
closed_conn = record open_conn { closed = true }

-- The buffer is empty in the fourth round.
abbrev amounts : ℕ → ℕ
amounts n = 3 - n

close_open_example :
    (d : Drained) × Waited amounts d
    × (drain close_fuel amounts 0 ≡ some d)
    × (close client amounts open_conn ≡ some (tear_down client closed_conn))
close_open_example = close_open client amounts open_conn refl
