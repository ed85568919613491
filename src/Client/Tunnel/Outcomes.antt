-- ===== src/Client/Tunnel/Outcomes.antt =====
-- What the goroutines of a port forward have done, and how it can fail to end.
use whet.Base.{◌≡◌, refl, inl, inr, ◌⊎◌, true, false, arith}
use whet.Client.Tunnel.{
  Handler, answered, attached, panicked, set_channel, attaches, moves, stored, awaiting, left,
  Reader, unopened, undetached, shaking, refused, receiving, ended, Writer, absent, held, sending,
  signalling, returned, Tunnel, answer_set, refuse, store_fields, start_writer, opens, opens_badly,
  shakes, refuses, ends, stores, registers, starts, hangs_up, drops, leaves, TunnelReach, here,
  next,
}
use whet.Client.Tunnel.Kept.{IsKept, answer_set-IsKept, has_begun, has_left, is_refused}
use whet.Client.Tunnel.Settled.{Continues}

begun-has_conn :
    (t : Tunnel) (w : Writer) (h : Handler)
    → IsKept t
    → t.writer ≡ w
    → t.handler ≡ h
    → has_begun t.writer ≡ true
    → t.has_conn ≡ true
begun-has_conn t w stored k e f g = ground (arith, k.socket, f)
begun-has_conn t w awaiting k e f g = ground (arith, k.socket, f)
begun-has_conn t w left k e f g = ground (arith, k.socket, f)
begun-has_conn t absent attached k e f g = absurd (ground (arith, g, e))
begun-has_conn t held attached k e f g = absurd (ground (arith, g, e))
begun-has_conn t sending attached k e f g = absurd (ground (arith, k.started, e, f))
begun-has_conn t signalling attached k e f g = absurd (ground (arith, k.started, e, f))
begun-has_conn t returned attached k e f g = absurd (ground (arith, k.started, e, f))
begun-has_conn t absent answered k e f g = absurd (ground (arith, g, e))
begun-has_conn t held answered k e f g = absurd (ground (arith, g, e))
begun-has_conn t sending answered k e f g = absurd (ground (arith, k.started, e, f))
begun-has_conn t signalling answered k e f g = absurd (ground (arith, k.started, e, f))
begun-has_conn t returned answered k e f g = absurd (ground (arith, k.started, e, f))

begun_reader :
    (t : Tunnel) (r : Reader)
    → IsKept t
    → t.reader ≡ r
    → has_begun t.writer ≡ true
    → ((t.reader ≡ receiving) ⊎ (t.reader ≡ ended)) × (t.closed ≡ false)
begun_reader t unopened k e f = absurd (ground (arith, k.group, k.begun, e, f))
begun_reader t undetached k e f = absurd (ground (arith, k.group, k.begun, e, f))
begun_reader t shaking k e f = absurd (ground (arith, k.group, k.begun, e, f))
begun_reader t panicked k e f = absurd (ground (arith, k.group, k.begun, e, f))
begun_reader t refused k e f = absurd (ground (arith, k.group, k.begun, e, f))
begun_reader t receiving k e f = (inl e, ground (arith, k.marked, e))
begun_reader t ended k e f = (inr e, ground (arith, k.marked, e))

-- In every reachable state in which the sending goroutine is past its wait, the handshake has succeeded
-- (the reader is in its loop or past it), the object has its TCP connection and is not marked closed.
pub tunnel_sends :
    (t : Tunnel) (r : TunnelReach answer_set t)
    → has_begun t.writer ≡ true
    → ((t.reader ≡ receiving) ⊎ (t.reader ≡ ended)) × (t.closed ≡ false) × (t.has_conn ≡ true)
tunnel_sends t r e =
    let k = answer_set-IsKept t r in
    let reading = begun_reader t t.reader k refl e in
    (reading.0, reading.1, begun-has_conn t t.writer t.handler k refl refl e)

-- In every reachable state in which the function has not returned and the handshake has not failed, the
-- TCP connection is open: neither the end of the channel nor a failed send closes it.
pub conn_stays_open :
    (t : Tunnel) (r : TunnelReach answer_set t)
    → has_left t.handler ≡ false
    → is_refused t.reader ≡ false
    → t.conn_open ≡ true
conn_stays_open t r e f = let k = answer_set-IsKept t r in ground (arith, k.why_closed, e, f)

stuck_refused :
    (t : Tunnel)
    → t.reader ≡ refused
    → t.handler ≡ awaiting
    → t.writer ≡ held
    → t.wg ≡ 1
    → ¬ Continues t
stuck_refused t e f g h (_, moves c (opens a)) = ground arith
stuck_refused t e f g h (_, moves c (opens_badly a)) = ground arith
stuck_refused t e f g h (_, moves c (shakes a)) = ground arith
stuck_refused t e f g h (_, moves c (refuses a)) = ground arith
stuck_refused t e f g h (_, moves c (ends a)) = ground arith
stuck_refused t e f g h (_, moves c (attaches a)) = ground arith
stuck_refused t e f g h (_, moves c (stores a)) = ground arith
stuck_refused t e f g h (_, moves c (registers a)) = ground arith
stuck_refused t e f g h (_, moves c (starts a b)) = ground arith
stuck_refused t e f g h (_, moves c (hangs_up a)) = ground arith
stuck_refused t e f g h (_, moves c (drops a)) = ground arith
stuck_refused t e f g h (_, moves c (leaves a b)) = ground arith

-- From every reachable state in which the handshake runs and the object's fields are not set yet, a
-- failure of the handshake can lead to a state that has no further step, in which the object is
-- marked closed but the TCP connection and the peer are open.
pub early_failure_leaks :
    (t : Tunnel) (r : TunnelReach answer_set t)
    → t.reader ≡ shaking
    → t.handler ≡ answered
    → (u : Tunnel) × TunnelReach t u
      × ((u.closed ≡ true) × (u.conn_open ≡ true) × (u.peer_open ≡ true))
      × (¬ Continues u)
unfolding refuse set_channel store_fields start_writer
early_failure_leaks t r e f =
    let k = answer_set-IsKept t r in
    (
      start_writer (store_fields (set_channel (refuse t))),
      next
          (next (next (next here (moves (ground (arith, e)) (refuses e))) (moves refl (attaches f)))
            (moves refl (stores refl)))
          (moves refl (registers refl)),
      (
        refl,
        ground (arith, k.socket, k.why_closed, e, f),
        ground (arith, k.peer_kept, k.started, f),
      ),
      stuck_refused _ refl refl refl (ground (arith, k.group, e)),
    )
