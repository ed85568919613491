-- ===== src/Client/Tunnel.antt =====
-- pkg/client.go, `HandleClientConnection` in detached mode, once the server's answer is set: the function
-- itself, the `OnOpen` callback with its goroutine, and the sending goroutine, in any interleaving. The
-- channels' data are the subject of `Pump`; the waits on the buffered amount are that of `FlowControl`.
pub mod Kept
pub mod Outcomes
pub mod Settled
mod Tests
use whet.Base.{ℕ, ◌-◌, ◌≡◌, Bool, true, false, if◌then◌else◌}

-- The function: the answer is set; `c.dataChannel` is set; the other fields of the object are set; it is registered, the sending
-- goroutine started, and the function waits in `<-done`; it has returned.
pub data Handler : Type 0 where
  answered attached stored awaiting left : Handler

-- The callback and its goroutine: not open yet; `Detach` has failed; in the handshake; the handshake has
-- failed; it has panicked, which ends the process; in the receiving loop; past it.
pub data Reader : Type 0 where
  unopened undetached shaking refused panicked receiving ended : Reader

-- The sending goroutine: not started; in `wg.Wait()`; in its loop; in `done <- struct{}{}`; returned.
pub data Writer : Type 0 where
  absent held sending signalling returned : Writer

pub record Tunnel : Type 0 where
  pub handler : Handler
  pub reader : Reader
  pub writer : Writer
  -- The counter of `wg`.
  pub wg : ℕ
  -- `c.dataChannel != nil`.
  pub has_channel : Bool
  -- `c.conn != nil`, and whether the accepted TCP connection and the peer are open.
  pub has_conn : Bool
  pub conn_open : Bool
  pub peer_open : Bool
  pub client_ready : Bool
  pub closed : Bool
  -- The DELETE was sent.
  pub asked : Bool

abbrev pub answer_set : Tunnel
answer_set = record {
  handler = answered;
  reader = unopened;
  writer = absent;
  wg = 2;
  has_channel = false;
  has_conn = false;
  conn_open = true;
  peer_open = true;
  client_ready = false;
  closed = false;
  asked = false;
}

-- `c.rawDetached = rawDetached`, and `wg.Done()`.
unfoldable pub open_channel : Tunnel → Tunnel
open_channel t = record t { reader = shaking; wg = t.wg - 1 }

-- The signal of the server is read and that of the client written, after which `SendRawDataChannel` asks
-- `c.dataChannel` for its buffered amount, which panics if it is nil; then
-- `conn.clientReady = true; wg.Done()`.
unfoldable pub shake_hands : Tunnel → Tunnel
shake_hands t =
    if t.has_channel
    then record t { reader = receiving; client_ready = true; wg = t.wg - 1 }
    else record t { reader = panicked }

-- `if conn.conn != nil { conn.conn.Close() }; conn.closed = true`, and the goroutine returns.
unfoldable pub refuse : Tunnel → Tunnel
refuse t = record t {
  reader = refused;
  conn_open = if t.has_conn then false else t.conn_open;
  closed = true;
}

unfoldable pub set_channel : Tunnel → Tunnel
set_channel t = record t { handler = attached; has_channel = true }

unfoldable pub store_fields : Tunnel → Tunnel
store_fields t = record t { handler = stored; has_conn = true; client_ready = false }

unfoldable pub start_writer : Tunnel → Tunnel
start_writer t = record t { handler = awaiting; writer = held }

-- The read of TCP has ended or failed: the peer is closed and the DELETE sent. The location is taken to
-- be a URL for which a request can be built.
unfoldable pub hang_up : Tunnel → Tunnel
hang_up t = record t { writer = signalling; peer_open = false; asked = true }

-- A send on the channel has failed.
unfoldable pub drop_tunnel : Tunnel → Tunnel
drop_tunnel t = record t { writer = signalling }

-- `<-done`, and then the deferred `peerConnection.Close()` and `conn.Close()`.
unfoldable pub leave : Tunnel → Tunnel
leave t = record t { handler = left; writer = returned; conn_open = false; peer_open = false }

abbrev pub is_panicked : Reader → Bool
is_panicked panicked = true
is_panicked _ = false

pub data TunnelMove (t : Tunnel) : Tunnel → Type 0 where
  opens : t.reader ≡ unopened → TunnelMove t (open_channel t)
  opens_badly : t.reader ≡ unopened → TunnelMove t (record t { reader = undetached })
  shakes : t.reader ≡ shaking → TunnelMove t (shake_hands t)
  refuses : t.reader ≡ shaking → TunnelMove t (refuse t)
  -- The channel has ended, or a write to TCP has failed.
  ends : t.reader ≡ receiving → TunnelMove t (record t { reader = ended })
  attaches : t.handler ≡ answered → TunnelMove t (set_channel t)
  stores : t.handler ≡ attached → TunnelMove t (store_fields t)
  registers : t.handler ≡ stored → TunnelMove t (start_writer t)
  starts : t.writer ≡ held → t.wg ≡ 0 → TunnelMove t (record t { writer = sending })
  hangs_up : t.writer ≡ sending → TunnelMove t (hang_up t)
  drops : t.writer ≡ sending → TunnelMove t (drop_tunnel t)
  leaves : t.handler ≡ awaiting → t.writer ≡ signalling → TunnelMove t (leave t)

-- A step of a process that has not ended.
pub data TunnelStep (t : Tunnel) : Tunnel → Type 0 where
  moves : {u : Tunnel} → is_panicked t.reader ≡ false → TunnelMove t u → TunnelStep t u

pub data TunnelReach (t : Tunnel) : Tunnel → Type 0 where
  here : TunnelReach t t
  next : {u v : Tunnel} → TunnelReach t u → TunnelStep u v → TunnelReach t v
