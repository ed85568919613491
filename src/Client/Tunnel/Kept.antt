-- ===== src/Client/Tunnel/Kept.antt =====
-- What holds in every state that the goroutines of a port forward reach.
use whet.Client.Tunnel.{
  Handler, answered, attached, panicked, set_channel, TunnelMove, attaches, moves, stored, awaiting,
  left, Reader, unopened, undetached, shaking, refused, receiving, ended, Writer, absent, held,
  sending, signalling, returned, Tunnel, answer_set, open_channel, shake_hands, refuse,
  store_fields, start_writer, hang_up, drop_tunnel, leave, TunnelStep, opens, opens_badly, shakes,
  refuses, ends, stores, registers, starts, hangs_up, drops, leaves, TunnelReach, here, next,
}
use whet.Base.{ℕ, Bool, true, false, ◌≡◌, arith}

-- What the reader has left for `wg` to count.
abbrev pub counted : Reader → ℕ
counted unopened = 2
counted undetached = 2
counted shaking = 1
counted refused = 1
counted panicked = 1
counted receiving = 0
counted ended = 0

abbrev pub is_stored : Handler → Bool
is_stored answered = false
is_stored attached = false
is_stored stored = true
is_stored awaiting = true
is_stored left = true

abbrev pub is_attached : Handler → Bool
is_attached answered = false
is_attached _ = true

abbrev pub is_started : Handler → Bool
is_started answered = false
is_started attached = false
is_started stored = false
is_started awaiting = true
is_started left = true

abbrev pub has_left : Handler → Bool
has_left left = true
has_left answered = false
has_left attached = false
has_left stored = false
has_left awaiting = false

abbrev pub is_present : Writer → Bool
is_present absent = false
is_present held = true
is_present sending = true
is_present signalling = true
is_present returned = true

-- The writer is past `wg.Wait()`.
abbrev pub has_begun : Writer → Bool
has_begun absent = false
has_begun held = false
has_begun sending = true
has_begun signalling = true
has_begun returned = true

abbrev pub has_returned : Writer → Bool
has_returned returned = true
has_returned absent = false
has_returned held = false
has_returned sending = false
has_returned signalling = false

abbrev pub is_refused : Reader → Bool
is_refused refused = true
is_refused unopened = false
is_refused undetached = false
is_refused shaking = false
is_refused panicked = false
is_refused receiving = false
is_refused ended = false

pub record IsKept (t : Tunnel) : Type 0 where
  pub channel : t.has_channel ≡ is_attached t.handler
  pub group : t.wg ≡ counted t.reader
  pub socket : t.has_conn ≡ is_stored t.handler
  pub started : is_present t.writer ≡ is_started t.handler
  pub begun : has_begun t.writer ≡ true → t.wg ≡ 0
  pub together : has_returned t.writer ≡ has_left t.handler
  pub released : has_left t.handler ≡ true → (t.conn_open ≡ false) × (t.peer_open ≡ false)
  pub marked : t.closed ≡ is_refused t.reader
  pub why_closed : t.conn_open ≡ false → has_left t.handler ≡ false → is_refused t.reader ≡ true
  pub peer_kept : t.peer_open ≡ false → has_begun t.writer ≡ true

TunnelMove-IsKept : {t u : Tunnel} → TunnelMove t u → IsKept t → IsKept u
unfolding open_channel shake_hands refuse set_channel store_fields start_writer hang_up drop_tunnel
    leave
TunnelMove-IsKept (opens e) k = ground (arith, e)
TunnelMove-IsKept (opens_badly e) k = ground (arith, e)
TunnelMove-IsKept (shakes e) k = ground (arith, e)
TunnelMove-IsKept (refuses e) k = ground (arith, e)
TunnelMove-IsKept (ends e) k = ground (arith, e)
TunnelMove-IsKept (attaches e) k = ground (arith, e)
TunnelMove-IsKept (stores e) k = ground (arith, e)
TunnelMove-IsKept (registers e) k = ground (arith, e)
TunnelMove-IsKept (starts e h) k = ground (arith, e)
TunnelMove-IsKept (hangs_up e) k = ground (arith, e)
TunnelMove-IsKept (drops e) k = ground (arith, e)
TunnelMove-IsKept (leaves e h) k = ground (arith, e)

TunnelStep-IsKept : {t u : Tunnel} → TunnelStep t u → IsKept t → IsKept u
TunnelStep-IsKept (moves c m) k = TunnelMove-IsKept m k

TunnelReach-IsKept : {t u : Tunnel} → TunnelReach t u → IsKept t → IsKept u
TunnelReach-IsKept here k = k
TunnelReach-IsKept (next r s) k = TunnelStep-IsKept s (TunnelReach-IsKept r k)

pub answer_set-IsKept : (t : Tunnel) → TunnelReach answer_set t → IsKept t
answer_set-IsKept t r = TunnelReach-IsKept r (ground arith)
