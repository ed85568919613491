-- ===== src/Server/Session.antt =====
-- pkg/server.go, `WhetHandler`, and pkg/handshake.go, `handleDetachedHandshake`: the three goroutines
-- of one data channel to a TCP target, and the DELETE of its connection, in any interleaving. The
-- first does the handshake and then forwards what it receives, the second is the body of `OnOpen` from
-- where it has started the first, and the third is `createServerSideConnection`. A panic of one ends
-- the process. A wait group that was made with one is a Boolean,
-- true once it is done. The channels' data are the subject of `Pump` and `Handshake`.
pub mod Kept
pub mod Outcomes
pub mod Settled
mod Tests
use whet.Base.{◌≡◌, Bool, true, false, ◌&&◌, not, if◌then◌else◌}

-- The goroutine of the handshake: about to send its signal; waiting for that of the client. A failure closes the socket twice, once in
-- `handleDetachedHandshake` and once in its caller, with other goroutines' steps between them. The
-- later stages keep whether the handshake succeeded.
pub data Receiver : Type 0 where
  signalling shaking failing : Receiver
  waiting receiving finished : Bool → Receiver

-- The body of `OnOpen`: about to set `c.dataChannel`; about to dial; the socket stored; done; the dial
-- failed and the client told so; given up.
pub data Dialler : Type 0 where
  attaching dialling stored done refusing given_up : Dialler

-- `createServerSideConnection`: not started; in `wg.Wait()`; in its loop; returned.
pub data Sender : Type 0 where
  absent held sending returned : Sender

pub record Session : Type 0 where
  pub receiver : Receiver
  pub dialler : Dialler
  pub sender : Sender
  -- The wait groups `wg`, for the handshake, and `connWg`, for the socket.
  pub shaken : Bool
  pub connected : Bool
  -- `c.conn != nil`, and whether the socket is open.
  pub has_conn : Bool
  -- `c.dataChannel != nil`.
  pub has_channel : Bool
  pub socket_open : Bool
  pub closed : Bool
  pub client_ready : Bool
  pub registered : Bool
  -- "SERVER_ERROR" was sent to the client.
  pub error_sent : Bool
  pub peer_open : Bool
  -- The process has ended in a panic.
  pub crashed : Bool

-- When the data channel is detached.
abbrev pub opened : Session
opened = record {
  receiver = signalling;
  dialler = attaching;
  sender = absent;
  shaken = false;
  connected = false;
  has_conn = false;
  has_channel = false;
  socket_open = false;
  closed = false;
  client_ready = false;
  registered = true;
  error_sent = false;
  peer_open = true;
  crashed = false;
}

-- `conn.clientReady = true; wg.Done()`.
unfoldable pub succeed : Session → Session
succeed s = record s { receiver = waiting true; shaken = true; client_ready = true }

-- `if c.conn != nil { c.conn.Close() }; c.closed = true`.
unfoldable pub close_conn : Session → Session
close_conn s = record s { socket_open = if s.has_conn then false else s.socket_open; closed = true }

unfoldable pub fail : Session → Session
unfolding close_conn
fail s = record (close_conn s) { receiver = failing }

unfoldable pub fail_again : Session → Session
unfolding close_conn
fail_again s = record (close_conn s) { receiver = waiting false }

-- `connWg.Wait()` has returned: the loop begins if there is a socket.
unfoldable pub proceed : Bool → Session → Session
proceed b s = record s { receiver = if s.has_conn then receiving b else finished b }

-- The loop has ended, and the deferred call closes the socket.
unfoldable pub stop_receiving : Bool → Session → Session
stop_receiving b s = record s { receiver = finished b; socket_open = false }

-- `c.conn = conn`.
unfoldable pub store_conn : Session → Session
store_conn s = record s { dialler = stored; has_conn = true; socket_open = true }

-- `connWg.Done()`, and the start of the third goroutine.
unfoldable pub connect : Session → Session
connect s = record s { dialler = done; connected = true; sender = held }

-- `c.dataChannel = dataChannel`.
unfoldable pub attach : Session → Session
attach s = record s { dialler = dialling; has_channel = true }

-- `SendRawDataChannel` has written the signal and asks `c.dataChannel` for its buffered amount, which
-- panics if it is nil.
unfoldable pub signal : Session → Session
signal s = if s.has_channel then record s { receiver = shaking } else record s { crashed = true }

-- The target could not be dialled: `c.rawDetached.Write([]byte("SERVER_ERROR"))`.
unfoldable pub refuse_client : Session → Session
refuse_client s = record s { dialler = refusing; error_sent = true }

-- `peerConnection.Close()`, and the callback returns.
unfoldable pub give_up : Session → Session
give_up s = record s { dialler = given_up; peer_open = false }

-- `createServerSideConnection` returns when the target has ended, and closes the peer, or when a send
-- has failed.
unfoldable pub end_sender : Bool → Session → Session
end_sender target_ended s = record s {
  sender = returned;
  peer_open = if target_ended then false else s.peer_open;
}

-- The handler of DELETE for this connection.
unfoldable pub delete_session : Session → Session
delete_session s = record s {
  registered = false;
  socket_open = if s.has_conn && not s.closed then false else s.socket_open;
  closed = if s.has_conn then true else s.closed;
}

pub data Move (s : Session) : Session → Type 0 where
  signals : s.receiver ≡ signalling → Move s (signal s)
  -- The write of the signal has failed.
  fails_first : s.receiver ≡ signalling → Move s (fail s)
  succeeds : s.receiver ≡ shaking → Move s (succeed s)
  fails : s.receiver ≡ shaking → Move s (fail s)
  fails_again : s.receiver ≡ failing → Move s (fail_again s)
  proceeds : (b : Bool) → s.receiver ≡ waiting b → s.connected ≡ true → Move s (proceed b s)
  stops : (b : Bool) → s.receiver ≡ receiving b → Move s (stop_receiving b s)
  attaches : s.dialler ≡ attaching → Move s (attach s)
  dials : s.dialler ≡ dialling → Move s (store_conn s)
  connects : s.dialler ≡ stored → Move s (connect s)
  refuses : s.dialler ≡ dialling → Move s (refuse_client s)
  gives_up : s.dialler ≡ refusing → Move s (give_up s)
  sends : s.sender ≡ held → s.shaken ≡ true → Move s (record s { sender = sending })
  returns : (target_ended : Bool) → s.sender ≡ sending → Move s (end_sender target_ended s)
  deletes : s.registered ≡ true → Move s (delete_session s)

-- A step of a process that has not ended.
pub data Step (s : Session) : Session → Type 0 where
  moves : {t : Session} → s.crashed ≡ false → Move s t → Step s t

pub data Reach (s : Session) : Session → Type 0 where
  here : Reach s s
  next : {t u : Session} → Reach s t → Step t u → Reach s u
