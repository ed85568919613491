-- ===== src/Pump.antt =====
-- The loops between TCP and the data channel: `createServerSideConnection` and the receiving loop of
-- `WhetHandler` in pkg/server.go, and that of `HandleClientConnection` in pkg/client.go, all in
-- detached mode as far as they read the channel. Each read comes with the outcomes of the writes that
-- answer it; the waits on the buffered amount are the subject of `FlowControl`.
pub mod Attached
pub mod Messages
pub mod Tunnel
pub mod Upstream
pub mod Inbound
mod Tests
use mathlib.Core.List.{flatten}
use whet.Transfer.{Outcome, Sending, done, failed, blocked, send_raw, send_data_tcp, accepts, fails}
use whet.Stream.{Received, ReadOutcome, receive_raw, read_bytes}
use whet.Base.{
  Bool, Option, true, Bytes, List, false, if◌then◌else◌, ◌==◌, ◌||◌, ◌++◌, some, none, [], ◌∷◌,
}

pub data TcpError : Type 0 where
  tcp_eof tcp_fault : TcpError

-- What a read of a TCP connection returns.
pub record TcpRead : Type 0 where
  pub bytes : Bytes
  pub error : Option TcpError

-- The pump has closed the data channel and the peer, having waited for the buffer to drain or not; it
-- has returned because a send failed; or it is still blocked in a call. Each with its messages.
pub data Pumped : Type 0 where
  closed : Bool → List Bytes → Pumped
  send_failed : List Bytes → Pumped
  waits : List Bytes → Pumped

-- The error after `if n == 0 { err = io.EOF }`.
abbrev read_error : TcpRead → Option TcpError
read_error r = elim r.bytes [ [] ↦ some tcp_eof | b ∷ bs ↦ r.error ]

is_eof : TcpError → Bool
is_eof tcp_eof = true
is_eof tcp_fault = false

-- The end of the stream: an empty message, whose failure is not looked at.
after_end : TcpError → List Bytes → Sending → Pumped
unfolding is_eof
after_end e wire (done ms) = closed (is_eof e) (wire ++ ms)
after_end e wire (failed ms) = closed (is_eof e) (wire ++ ms)
after_end e wire (blocked ms) = waits (wire ++ ms)

after_send : (List Bytes → Pumped) → List Bytes → Sending → Pumped
after_send later wire (done ms) = later (wire ++ ms)
after_send later wire (failed ms) = send_failed (wire ++ ms)
after_send later wire (blocked ms) = waits (wire ++ ms)

-- `createServerSideConnection`, once the handshake is over.
unfoldable pub server_pump : Bool → List (TcpRead × List Outcome) → List Bytes → Pumped
unfolding after_end after_send
server_pump detached [] wire = waits wire
server_pump detached ((r, outs) ∷ rest) wire = elim (read_error r) [
  | none ↦ after_send (server_pump detached rest) wire (send_raw detached r.bytes outs)
  | some e ↦ after_end e wire (send_raw detached [] outs)
]

-- `dataChannel.Send`: one message.
send_once : Bytes → List Outcome → Sending
send_once bytes [] = blocked []
send_once bytes (fails ∷ outs) = failed []
send_once bytes (accepts n ∷ outs) = done (bytes ∷ [])

-- The sending loop of `HandleClientConnection`. It sends no empty message at the end: it closes the
-- peer, and asks the server to delete the connection, as `Close` of `Stream` does.
unfoldable pub client_pump : Bool → List (TcpRead × List Outcome) → List Bytes → Pumped
unfolding is_eof after_send send_once
client_pump detached [] wire = waits wire
client_pump detached ((r, outs) ∷ rest) wire = elim (read_error r) [
  | none ↦
      after_send (client_pump detached rest) wire
        (if detached then send_raw detached r.bytes outs else send_once r.bytes outs)
  | some e ↦ closed (is_eof e) wire
]

-- How a receiving loop stands: the channel has ended, a write has failed, or a call is blocked; each
-- with the bytes that were written.
pub data Arrived : Type 0 where
  ended : Bytes → Arrived
  write_failed : Bytes → Arrived
  still : Bytes → Arrived

-- `n == 0 || err != nil`.
abbrev pub is_over : Received → Bool
is_over r = r.count == 0 || elim r.error [ none ↦ false | some e ↦ true ]

-- The loop of `HandleClientConnection`; each read comes with whether the `Write` succeeds.
unfoldable pub client_receive : Bool → List (ReadOutcome × Bool) → Bytes → Arrived
client_receive detached [] out = still out
client_receive detached ((o, writes) ∷ rest) out =
    let later = client_receive detached rest (out ++ read_bytes detached o) in
    if is_over (receive_raw detached o)
    then ended out
    else if writes
    then later
    else write_failed out

after_write : (Bytes → Arrived) → Bytes → Sending → Arrived
unfolding flatten
after_write later out (done ms) = later (out ++ flatten ms)
after_write later out (failed ms) = write_failed (out ++ flatten ms)
after_write later out (blocked ms) = still (out ++ flatten ms)

-- The loop of `WhetHandler`, which writes with `SendDataTCP`.
unfoldable pub server_receive : Bool → List (ReadOutcome × List Outcome) → Bytes → Arrived
unfolding after_write
server_receive detached [] out = still out
server_receive detached ((o, outs) ∷ rest) out =
    let written =
      after_write (server_receive detached rest) out (send_data_tcp (read_bytes detached o) outs) in
    if is_over (receive_raw detached o) then ended out else written
