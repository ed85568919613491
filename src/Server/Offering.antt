-- ===== src/Server/Offering.antt =====
-- pkg/server.go, `WhetHandler`: the goroutines of one data channel to a target that is a listener, in
-- any interleaving. The first does the handshake and then waits for `connWg`, which this kind of target
-- never signals; the second is the body of `OnOpen`, which waits for the handshake and then sends a
-- `WebRTCConn` to the listener. The object has no `net.Conn`.
-- `c.dataChannel` is taken to be set before the handshake sends its signal; the panic of the other order
-- is in `Server.Session`.
pub mod Offered
mod Tests
use whet.Base.{◌≡◌, Bool, true, false}
use whet.Server.Session.{Receiver, shaking, failing, waiting, finished}

-- The body of `OnOpen`: in `wg.Wait()`; blocked in the send; the connection was accepted; the listener
-- is unknown.
pub data Opener : Type 0 where
  held offering accepted unlisted : Opener

pub record Offering : Type 0 where
  pub receiver : Receiver
  pub opener : Opener
  pub shaken : Bool
  pub conn_signalled : Bool
  pub client_ready : Bool
  pub closed : Bool
  pub registered : Bool

abbrev pub channel_opens : Offering
channel_opens = record {
  receiver = shaking;
  opener = held;
  shaken = false;
  conn_signalled = false;
  client_ready = false;
  closed = false;
  registered = true;
}

-- `conn.clientReady = true; wg.Done()`.
unfoldable pub shake_succeeds : Offering → Offering
shake_succeeds s = record s { receiver = waiting true; shaken = true; client_ready = true }

-- The handshake fails: the object is marked closed, once in it and once in its caller.
unfoldable pub shake_fails : Receiver → Offering → Offering
shake_fails r s = record s { receiver = r; closed = true }

pub data OfferStep (s : Offering) : Offering → Type 0 where
  succeeds : s.receiver ≡ shaking → OfferStep s (shake_succeeds s)
  fails : s.receiver ≡ shaking → OfferStep s (shake_fails failing s)
  fails_again : s.receiver ≡ failing → OfferStep s (shake_fails (waiting false) s)
  -- `connWg.Wait()` returns; `c.conn` is nil.
  proceeds :
      (b : Bool)
      → s.receiver ≡ waiting b
      → s.conn_signalled ≡ true
      → OfferStep s (record s { receiver = finished b })
  -- `wg.Wait()` returns, and the listener is looked up.
  lists : s.opener ≡ held → s.shaken ≡ true → OfferStep s (record s { opener = offering })
  misses : s.opener ≡ held → s.shaken ≡ true → OfferStep s (record s { opener = unlisted })
  accepts : s.opener ≡ offering → OfferStep s (record s { opener = accepted })
  -- DELETE: with no `net.Conn`, only the entry goes.
  deletes : s.registered ≡ true → OfferStep s (record s { registered = false })

pub data OfferReach (s : Offering) : Offering → Type 0 where
  here : OfferReach s s
  next : {t u : Offering} → OfferReach s t → OfferStep t u → OfferReach s u
