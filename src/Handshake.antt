-- ===== src/Handshake.antt =====
-- pkg/handshake.go. A handshake makes its calls on the detached channel, whose outcomes are given as
-- in `Transfer` and `Stream`; the context is `context.Background()`, which is never done.
pub mod Outcomes
pub mod Protocol
mod Tests
use whet.Base.{
  ℕ, Bool, true, false, ◌&&◌, List, ◌∷◌, Option, none, Bytes, codes, bytes_eq, ◌==◌, if◌then◌else◌,
  length,
}
use whet.Connection.{Connection}
use whet.Transfer.{Outcome, accepts, fails, Sending, done, failed, blocked, send_raw}
use whet.Stream.{ReadOutcome, received, broken}

abbrev pub ready_message : Bytes
ready_message = codes "READY_TO_TRANSMIT"

-- `n != len(ReadyMessage) || !bytes.Equal(buffer[:n], []byte(ReadyMessage))`, negated.
abbrev pub is_ready_message : Bytes → Bool
is_ready_message bytes = length bytes == length ready_message && bytes_eq bytes ready_message

-- A handshake succeeds, fails, or is still blocked in a write.
pub data Shake : Type 0 where
  succeeds refuses hangs : Shake

-- The goroutine of `waitForPeerReady` and the `select` on its channels.
unfoldable pub wait_for_peer_ready : ReadOutcome → Shake
wait_for_peer_ready (received bytes) = if is_ready_message bytes then succeeds else refuses
wait_for_peer_ready (broken bytes message) = refuses

sent : Sending → Shake
sent (done ms) = succeeds
sent (failed ms) = refuses
sent (blocked ms) = hangs

unfoldable pub send_ready_signal : Bool → List Outcome → Shake
unfolding sent
send_ready_signal detached outs = sent (send_raw detached ready_message outs)

abbrev pub then_shake : Shake → Shake → Shake
then_shake succeeds next = next
then_shake refuses next = refuses
then_shake hangs next = hangs

-- The client waits for the server's signal and then sends its own.
unfoldable pub client_handshake : Bool → List Outcome → ReadOutcome → Shake
client_handshake detached outs o =
    then_shake (wait_for_peer_ready o) (send_ready_signal detached outs)

-- The server sends its signal first.
unfoldable pub server_handshake : Bool → List Outcome → ReadOutcome → Shake
server_handshake detached outs o =
    then_shake (send_ready_signal detached outs) (wait_for_peer_ready o)

-- What the handshake leaves behind: its result, the connection object, the socket that it closed, and
-- whether it called `wg.Done()`.
pub record Shaken : Type 0 where
  pub result : Shake
  pub connection : Connection
  pub closed_socket : Option ℕ
  pub signalled : Bool

after_handshake : Bool → Connection → Shake → Shaken
after_handshake has_wg c succeeds = record {
  result = succeeds;
  connection = record c { client_ready = true };
  closed_socket = none;
  signalled = has_wg;
}
after_handshake has_wg c refuses = record {
  result = refuses;
  connection = record c { closed = true };
  closed_socket = c.conn;
  signalled = false;
}
after_handshake has_wg c hangs = record {
  result = hangs;
  connection = c;
  closed_socket = none;
  signalled = false;
}

-- `handleDetachedHandshake`; the second argument says whether a wait group was passed.
unfoldable pub handle_detached_handshake :
    Bool → Bool → Connection → List Outcome → ReadOutcome → Shaken
unfolding after_handshake
handle_detached_handshake is_server has_wg c outs o =
    after_handshake has_wg c
      (if is_server then server_handshake c.detached outs o else client_handshake c.detached outs o)

attached_send : Outcome → Shake
attached_send (accepts n) = succeeds
attached_send fails = refuses

-- `handleAttachedHandshake`: a server sends "SERVER_READY" in one call, and that is all.
unfoldable pub handle_attached_handshake : Bool → Connection → Outcome → Shaken
unfolding attached_send
handle_attached_handshake is_server c out = record {
  result = if is_server then attached_send out else succeeds;
  connection = c;
  closed_socket = none;
  signalled = false;
}

-- `handleHandshake`; in attached mode the first outcome is that of the single send.
unfoldable pub handle_handshake :
    Bool → Bool → Connection → Outcome → List Outcome → ReadOutcome → Shaken
handle_handshake is_server has_wg c out outs o =
    if c.detached
    then handle_detached_handshake is_server has_wg c (out ∷ outs) o
    else handle_attached_handshake is_server c out
