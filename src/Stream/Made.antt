-- ===== src/Stream/Made.antt =====
-- pkg/webrtcconn.go: `DialWebRTCConn` and `ListenerWebRTCConn`. A `WebRTCConn` has the fields that
-- `Read` uses, and those that `Close` uses.
use whet.FlowControl.{max_buffer_size}
use whet.Base.{ℕ, zero, suc, [], ◌∷◌, Bytes, false}
use whet.Connection.{Connection}
use whet.Stream.{Stream}
use whet.Stream.Close.{Conn}
use whet.Client.Dial.{Ended, connected, fails_with, dial_hangs, DialError}

pub record WebrtcConn : Type 0 where
  pub stream : Stream
  pub conn : Conn

-- `make([]byte, n)`.
unfoldable pub make_bytes : ℕ → Bytes
make_bytes zero = []
make_bytes (suc n) = 0 ∷ make_bytes n

-- Both functions make the same object, but for a token that nothing reads.
unfoldable pub new_webrtc_conn : Connection → WebrtcConn
unfolding make_bytes
new_webrtc_conn c = record {
  stream = record {
    detached = c.detached;
    read_buffer = make_bytes max_buffer_size;
    buffer_size = 0;
    buffer_pos = 0;
  };
  conn = record { closed = false; resource_url = c.resource_url; bearer_token = c.bearer_token };
}

-- `DialWebRTCConn`, from the end of the dial; a dial that hangs does not return.
pub data Dialled : Type 0 where
  dials : WebrtcConn → Dialled
  dial_fails : DialError → Dialled
  dial_blocks : Dialled

unfoldable pub dial_webrtc_conn : Ended → Dialled
unfolding new_webrtc_conn
dial_webrtc_conn (connected c) = dials (new_webrtc_conn c)
dial_webrtc_conn (fails_with e) = dial_fails e
dial_webrtc_conn dial_hangs = dial_blocks

-- `ListenerWebRTCConn`.
unfoldable pub listener_webrtc_conn : Connection → WebrtcConn
unfolding new_webrtc_conn
listener_webrtc_conn c = new_webrtc_conn c
