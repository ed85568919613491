-- ===== src/Server/Channels.antt =====
-- pkg/server.go, `WhetHandler`: the wait groups of one POST, which all the data channels of its peer
-- share. `OnDataChannel` runs for every channel that the client opens.
pub mod Crash
mod Tests
use whet.Base.{ℕ, zero, suc, List, [], ◌∷◌, Option, none, some, if◌then◌else◌}
use whet.Handshake.{Shaken}

-- The counters of `wg`, for the handshake, and of `connWg`, for the socket.
pub record Groups : Type 0 where
  pub wg : ℕ
  pub conn_wg : ℕ

abbrev pub fresh_groups : Groups
fresh_groups = record { wg = 1; conn_wg = 1 }

-- `Done` panics on a counter that is 0.
unfoldable pub wg_done : ℕ → Option ℕ
wg_done zero = none
wg_done (suc n) = some n

-- What a data channel comes to: its handshake ends, or its target is dialled, or that fails.
pub data ChannelEvent : Type 0 where
  shakes : Shaken → ChannelEvent
  dials : Option ℕ → ChannelEvent

set_wg : Groups → Option ℕ → Option Groups
set_wg g none = none
set_wg g (some n) = some (record g { wg = n })

set_conn_wg : Groups → Option ℕ → Option Groups
set_conn_wg g none = none
set_conn_wg g (some n) = some (record g { conn_wg = n })

-- The groups after an event, `none` for a panic, which ends the process.
unfoldable pub on_event : ChannelEvent → Groups → Option Groups
unfolding wg_done set_wg set_conn_wg
on_event (shakes s) g = if s.signalled then set_wg g (wg_done g.wg) else some g
on_event (dials none) g = some g
on_event (dials (some socket)) g = set_conn_wg g (wg_done g.conn_wg)

after_event : (Groups → Option Groups) → Option Groups → Option Groups
after_event later none = none
after_event later (some g) = later g

-- The events of all channels of the peer, in the order in which they happen.
unfoldable pub on_events : List ChannelEvent → Groups → Option Groups
unfolding after_event
on_events [] g = some g
on_events (e ∷ es) g = after_event (on_events es) (on_event e g)
