-- ===== src/Server/Session/Outcomes.antt =====
-- What the goroutines of a data channel can and cannot do together.
use whet.Base.{◌≡◌, true, false, arith}
use whet.Server.Session.{
  given_up, Session, opened, close_conn, fail, fail_again, proceed, store_conn, connect,
  delete_session, stop_receiving, give_up, succeed, attach, signal, refuse_client, end_sender, Move,
  Step, moves, signals, fails_first, succeeds, stops, attaches, refuses, gives_up, sends, returns,
  deletes, fails, fails_again, proceeds, dials, connects, Reach, here, next,
}
use whet.Server.Session.Kept.{
  has_stored, is_past_wait, is_finished, has_sent, has_begun, opened-IsKept,
}

-- However the goroutines interleave, no data of the target is sent to the client before the handshake
-- has succeeded and the target is dialled, and never to a client that was sent "SERVER_ERROR".
pub sent_after_handshake :
    (s : Session)
    → Reach opened s
    → has_sent s.sender ≡ true
    → (s.client_ready ≡ true) × (s.has_conn ≡ true) × (s.error_sent ≡ false)
sent_after_handshake s r e =
    let k = opened-IsKept s r in
    ground (arith, k.sent, k.group, k.begun, k.joined, k.socket, k.told)

-- When the receiving goroutine has returned there was a socket, and it is closed, whoever closed it.
pub finished_releases :
    (s : Session)
    → Reach opened s
    → is_finished s.receiver ≡ true
    → (s.has_conn ≡ true) × (s.socket_open ≡ false)
finished_releases s r e =
    let k = opened-IsKept s r in ground (arith, k.released, k.past, k.joined, k.socket)

-- If the target could not be dialled, the receiving goroutine is never past its wait for the socket,
-- whatever happens, and the sending one is never started; no socket is open.
pub undialled_blocks :
    (s : Session)
    → Reach opened s
    → s.dialler ≡ given_up
    → (is_past_wait s.receiver ≡ false) × (has_begun s.sender ≡ false) × (s.socket_open ≡ false)
undialled_blocks s r e =
    let k = opened-IsKept s r in
    ground (arith, k.past, k.joined, k.begun, k.socket, k.opened_socket)

-- A socket that was stored and is closed is not opened again.
Move-shut :
    {s t : Session}
    → Move s t
    → (has_stored s.dialler ≡ true) × (s.socket_open ≡ false)
    → (has_stored t.dialler ≡ true) × (t.socket_open ≡ false)
unfolding succeed close_conn fail fail_again proceed stop_receiving store_conn connect give_up
    delete_session attach signal refuse_client end_sender
Move-shut (signals e) h = ground arith
Move-shut (fails_first e) h = ground arith
Move-shut (succeeds e) h = ground arith
Move-shut (fails e) h = ground arith
Move-shut (fails_again e) h = ground arith
Move-shut (proceeds b e d) h = ground arith
Move-shut (stops b e) h = ground arith
Move-shut (attaches e) h = ground arith
Move-shut (dials e) h = ground arith
Move-shut (connects e) h = ground arith
Move-shut (refuses e) h = ground arith
Move-shut (gives_up e) h = ground arith
Move-shut (sends e d) h = ground arith
Move-shut (returns b e) h = ground arith
Move-shut (deletes e) h = ground arith

Step-shut :
    {s t : Session}
    → Step s t
    → (has_stored s.dialler ≡ true) × (s.socket_open ≡ false)
    → (has_stored t.dialler ≡ true) × (t.socket_open ≡ false)
Step-shut (moves c m) h = Move-shut m h

Reach-shut :
    {s t : Session}
    → Reach s t
    → (has_stored s.dialler ≡ true) × (s.socket_open ≡ false)
    → (has_stored t.dialler ≡ true) × (t.socket_open ≡ false)
Reach-shut here h = h
Reach-shut (next r st) h = Step-shut st (Reach-shut r h)

-- After a handshake that succeeded, and once the target is dialled, the DELETE of a connection that is
-- registered closes its socket, which no later step opens again.
pub delete_after_handshake :
    (s : Session)
    → Reach opened s
    → s.client_ready ≡ true
    → s.has_conn ≡ true
    → s.registered ≡ true
    → (t : Session) → Reach (delete_session s) t
    → t.socket_open ≡ false
unfolding delete_session
delete_after_handshake s r e c g t u =
    let k = opened-IsKept s r in
    let shut = Reach-shut u (ground (arith, k.socket), ground (arith, k.why_closed)) in shut.1
